-- ===== src/Legality/Justified/Discards.antt =====
-- The actions of mahjong/engine/legality/discard.py.
use mathlib.Core.Path.{subst}
use mahjong_server_bot_zoo.Prelude.{
  ℕ, ◌<◌, ◌≡◌, ◌⊎◌, inl, inr, refl, true, false, Option, none, some, List, [], ◌∷◌, arith, map,
  length, All, All-append, All-imp, Bool, Bool-cases, get_elem?, replicate, eqb, leb, if◌then◌else◌,
  keep,
}
use mahjong_server_bot_zoo.Prelude.Counting.{count, contains}
use mahjong_server_bot_zoo.Prelude.Every.{All-keep, All-map, All-count}
use mahjong_server_bot_zoo.Prelude.Seq.{ok, Returns, Returns-bind, Returns-imp}
use mahjong_server_bot_zoo.Prelude.Sorting.{All-sort}
use mahjong_server_bot_zoo.Tiles.{Tile, token_le, tile_eq}
use mahjong_server_bot_zoo.State.{Action, GangKind, MeldType, Meld, Seat, LastDrawn, GameState}
use mahjong_server_bot_zoo.Rules.{Env, Config, resolve_config}
use mahjong_server_bot_zoo.Legality.{
  distinct, sorted_distinct, is_peng, peng_tiles, concealed_gangs, added_gangs, gang_actions,
  self_draw_hu_legal, self_draw_legal, discard_actions,
}
use mahjong_server_bot_zoo.Legality.Total.{WinsDrawn, self_draw_hu_legal-Returns}
use mahjong_server_bot_zoo.Transition.Invariant.{
  MeldFits, MeldIsSound, IsWind, HandIsSound, TableIsSound,
}

-- Some PENG of this tile lies among the melds.
abbrev pub HasPeng : Tile → List Meld → Type 0
HasPeng t [] = ⊥
HasPeng t (m ∷ ms) = ((is_peng m.kind ≡ true) × (m.tiles ≡ replicate 3 t)) ⊎ HasPeng t ms

-- The hand wins with the tile that it has drawn, under the ruleset of the state.
abbrev pub WinsBy : Env → GameState → Seat → Tile → Type 0
WinsBy env s p t =
    (c : Config) × (resolve_config env s.rules ≡ ok c)
    × WinsDrawn env c p.concealed p.melds t p.seat_wind s.round_wind

-- What the rules ask of a seat on its turn: a tile in hand for PLAY; four of a kind, or the fourth
-- of a PENG, and a tile left to draw for a kong; for HU a winning hand with the tile that the seat
-- has drawn.
abbrev pub MayDiscard : Env → GameState → ℕ → Seat → Action → Type 0
MayDiscard env s seat p (Action.play t) = 0 < count t p.concealed
MayDiscard env s seat p (Action.gang t GangKind.concealed) =
    (count t p.concealed ≡ 4) × (0 < length s.wall.remaining)
MayDiscard env s seat p (Action.gang t GangKind.added) =
    (0 < count t p.concealed) × HasPeng t p.melds × (0 < length s.wall.remaining)
MayDiscard env s seat p Action.hu =
    (d : LastDrawn) × (s.last_drawn ≡ some d) × (d.seat ≡ seat) × WinsBy env s p d.tile
MayDiscard env s seat p _ = ⊥

pub All-distinct : (P : Tile → Type 0) (ts : List Tile) → All P ts → All P (distinct ts)
All-distinct P [] h = tt
All-distinct P (t ∷ ts) h = elim (Bool-cases (contains t ts)) [
  | inl again ↦ rw (again, All, distinct) (All-distinct P ts h.1)
  | inr new ↦ rw (new, All, distinct) (h.0, All-distinct P ts h.1)
]

All-sorted_distinct : (P : Tile → Type 0) (ts : List Tile) → All P ts → All P (sorted_distinct ts)
All-sorted_distinct P ts h = All-sort token_le P (distinct ts) (All-distinct P ts h)

pub peng_head :
    (kind : MeldType) (ts : List Tile)
    → MeldFits kind ts
    → is_peng kind ≡ true
    → (t : Tile) × (ts ≡ replicate 3 t)
peng_head MeldType.peng ts h e = h
peng_head kind ts h e = absurd (cc)

-- A PENG is three of a tile with the property.
abbrev PengIs : (Tile → Type 0) → Meld → Type 0
PengIs P m = is_peng m.kind ≡ true → (t : Tile) × (m.tiles ≡ replicate 3 t) × P t

peng_tiles-PengIs :
    (P : Tile → Type 0) (ms : List Meld) → All (PengIs P) ms → Returns (peng_tiles ms) (All P)
unfolding peng_tiles
peng_tiles-PengIs P [] h = tt
peng_tiles-PengIs P (m ∷ ms) h = elim (Bool-cases (is_peng m.kind)) [
  | inl peng ↦
      let (t, e, k) = h.0 peng in
      rw (peng, e)
        (Returns-bind (peng_tiles ms) _ (All P) _ (peng_tiles-PengIs P ms h.1) (λ ts ks. (k, ks)))
  | inr other ↦ rw other (peng_tiles-PengIs P ms h.1)
]

All-PengIs : (ms : List Meld) → All MeldIsSound ms → All (PengIs (λ t. HasPeng t ms)) ms
All-PengIs [] h = tt
All-PengIs (m ∷ ms) h = (
  λ peng. let (t, e) = peng_head m.kind m.tiles h.0 peng in (t, e, inl (peng, e)),
  All-imp (PengIs (λ t. HasPeng t ms)) (PengIs (λ t. HasPeng t (m ∷ ms))) ms
      (λ n k peng. let (t, e, has) = k peng in (t, e, inr has)) (All-PengIs ms h.1),
)

module _ (env : Env) (s : GameState) (seat : ℕ) (p : Seat) where
  abbrev May : Action → Type 0
  May = MayDiscard env s seat p

  plays-All : All May (map Action.play (sorted_distinct p.concealed))
  plays-All =
      All-map May Action.play (sorted_distinct p.concealed)
        (All-sorted_distinct (λ t. 0 < count t p.concealed) p.concealed (All-count p.concealed))

  concealed_gangs-All : 0 < length s.wall.remaining → All May (concealed_gangs p.concealed)
  concealed_gangs-All left =
      let found : List Tile =
        keep (λ t. eqb (count t p.concealed) 4) (sorted_distinct p.concealed) in
      All-map May (λ t. Action.gang t GangKind.concealed) found
        (All-imp _ (λ t. (count t p.concealed ≡ 4) × (0 < length s.wall.remaining)) found
          (λ t h. (ground arith, left))
          (All-keep (λ t. 0 < count t p.concealed) (λ t. eqb (count t p.concealed) 4)
            (sorted_distinct p.concealed)
            (All-sorted_distinct (λ t. 0 < count t p.concealed) p.concealed
              (All-count p.concealed))))

  added_gangs-All :
      (pengs : List Tile)
      → 0 < length s.wall.remaining
      → All (λ t. HasPeng t p.melds) pengs
      → All May (added_gangs p.concealed pengs)
  added_gangs-All pengs left h =
      let found : List Tile = keep (λ t. leb 1 (count t p.concealed)) (sorted_distinct pengs) in
      All-map May (λ t. Action.gang t GangKind.added) found
        (All-imp _
          (λ t. (0 < count t p.concealed) × HasPeng t p.melds × (0 < length s.wall.remaining)) found
          (λ t k. (ground arith, k.0, left))
          (All-keep (λ t. HasPeng t p.melds) (λ t. leb 1 (count t p.concealed))
            (sorted_distinct pengs) (All-sorted_distinct (λ t. HasPeng t p.melds) pengs h)))

  gang_actions-All :
      (wall : List Tile)
      → wall ≡ s.wall.remaining
      → HandIsSound p
      → Returns (gang_actions wall p) (All May)
  unfolding gang_actions
  gang_actions-All [] e h = tt
  gang_actions-All (t ∷ wall) e h =
      let left : 0 < length s.wall.remaining = subst (λ w. 0 < length w) e (omega arith) in
      Returns-bind (peng_tiles p.melds) _ (All (λ t. HasPeng t p.melds)) (All May)
        (peng_tiles-PengIs (λ t. HasPeng t p.melds) p.melds (All-PengIs p.melds h.melds))
        λ pengs k.
          All-append May (concealed_gangs p.concealed) _ (concealed_gangs-All left)
            (added_gangs-All pengs left k)

  module _ (c : Config) (resolves : resolve_config env s.rules ≡ ok c) where
    -- A yes of the test names the tile that the seat drew.
    self_draw_legal-Returns :
        (drawn : Option LastDrawn)
        → s.last_drawn ≡ drawn
        → HandIsSound p
        → IsWind s.round_wind
        → Returns
            (self_draw_legal env drawn seat p s.round_wind c)
            (λ hu. hu ≡ true → May Action.hu)
    self_draw_legal-Returns none e h hr = λ k. absurd (cc)
    self_draw_legal-Returns (some d) e h hr = elim (Bool-cases (eqb d.seat seat)) [
      | inl own ↦ rw own (
          Returns-imp (self_draw_hu_legal env p.concealed p.melds d.tile p.seat_wind s.round_wind c)
            _ _ (λ hu k yes_hu. (d, e, ground arith, (c, resolves, k yes_hu)))
            (self_draw_hu_legal-Returns env p.concealed p.melds d.tile p.seat_wind s.round_wind c
              h.melds h.wind hr))
      | inr other ↦ rw other (λ k. absurd (cc))
    ]

  hu-All : (hu : Bool) → (hu ≡ true → May Action.hu) → All May (if hu then Action.hu ∷ [] else [])
  hu-All true h = (h refl, tt)
  hu-All false h = tt

-- On a sound table `discard_actions` returns, and lists for the seat whose turn it is only what
-- the rules of a discard allow.
pub discard_actions-All :
    (env : Env) (s : GameState) (seat : ℕ) (p : Seat)
    → TableIsSound env s
    → get_elem? s.seats seat ≡ some p
    → Returns
        (discard_actions env s seat)
        (All (λ a. (s.current_actor ≡ seat) × MayDiscard env s seat p a))
unfolding discard_actions
discard_actions-All env s seat p table found = elim (Bool-cases (eqb seat s.current_actor)) [
  | inr other ↦ rw other tt
  | inl own ↦
      rw (own, found, table.resolves)
        (let h : HandIsSound p = table.hands seat p found in
          let may : Action → Type 0 = λ a. (s.current_actor ≡ seat) × MayDiscard env s seat p a in
          let mine : s.current_actor ≡ seat = ground arith in
          Returns-bind (gang_actions s.wall.remaining p) _ (All (MayDiscard env s seat p)) _
            (gang_actions-All env s seat p s.wall.remaining refl h)
            λ gangs k.
              Returns-bind (self_draw_legal env s.last_drawn seat p s.round_wind table.config) _
                (λ hu. hu ≡ true → MayDiscard env s seat p Action.hu) _
                (self_draw_legal-Returns env s seat p table.config table.resolves s.last_drawn refl
                  h table.round)
                λ hu yes_hu.
                  All-imp (MayDiscard env s seat p) may _ (λ a m. (mine, m))
                    (All-append (MayDiscard env s seat p) _ _ (plays-All env s seat p) (
                      All-append (MayDiscard env s seat p) gangs _ k
                        (hu-All env s seat p hu yes_hu))))
]
