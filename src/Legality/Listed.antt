-- ===== src/Legality/Listed.antt =====
-- What mahjong/engine/legality/ always lists: every tile in hand for a discard, and PASS for a claim.
use mathlib.Core.Path.{subst, sym}
use mahjong_server_bot_zoo.Prelude.{
  ℕ, ◌<◌, ◌≡◌, ◌≢◌, inl, inr, refl, true, false, some, List, [], ◌∷◌, ◌++◌, map, arith, eqb,
  if◌then◌else◌, get_elem?, Bool-cases, ==_iff, ◌==◌,
}
use mahjong_server_bot_zoo.Prelude.Counting.{count, contains, contains-count}
use mahjong_server_bot_zoo.Prelude.Seq.{Ensures, Ensures-bind, index}
use mahjong_server_bot_zoo.Prelude.Sorting.{count-sort}
use mahjong_server_bot_zoo.Tiles.{Tile, tile_eq, token_le}
use mahjong_server_bot_zoo.State.{Action, action_eq, Seat, LastDiscard, GameState}
use mahjong_server_bot_zoo.Rules.{Env, resolve_config}
use mahjong_server_bot_zoo.Legality.{
  distinct, sorted_distinct, gang_actions, self_draw_legal, discard_actions, claims_on,
  claim_actions, claim_hu_legal,
}

contains-append :
    (a : Action) (xs ys : List Action) → contains a xs ≡ true → contains a (xs ++ ys) ≡ true
contains-append a [] ys h = cc
contains-append a (x ∷ xs) ys h = ground (arith, contains-append a xs ys)

pub count-distinct : (t : Tile) (ts : List Tile) → 0 < count t ts → 0 < count t (distinct ts)
count-distinct t [] h = h
count-distinct t (x ∷ ts) h = elim (Bool-cases (x == t)) [
  | inl same ↦
      let e = (==_iff x t).0 same in
      elim (Bool-cases (contains x ts)) [
        | inl later ↦
            rw later
              (count-distinct t ts (subst (λ y. 0 < count y ts) e (contains-count x ts later)))
        | inr last ↦ rw (last, same) (omega arith)
      ]
  | inr other ↦
      let k : 0 < count t ts = ground arith in
      elim (Bool-cases (contains x ts)) [
        | inl later ↦ rw later (count-distinct t ts k)
        | inr last ↦ rw (last, other) (omega (arith, count-distinct t ts k))
      ]
]

contains-map_play :
    (t : Tile) (ts : List Tile)
    → 0 < count t ts
    → contains (Action.play t) (map Action.play ts) ≡ true
contains-map_play t [] h = elim h [ ]
contains-map_play t (x ∷ ts) h = ground (arith, contains-map_play t ts)

module _ (env : Env) (s : GameState) (seat : ℕ) where
  -- Whatever else it lists on a seat's turn, it lists the discard of every tile in its hand.
  pub discard_actions-lists :
      (p : Seat) (t : Tile)
      → get_elem? s.seats seat ≡ some p
      → s.current_actor ≡ seat
      → 0 < count t p.concealed
      → Ensures (discard_actions env s seat) (λ l. contains (Action.play t) l ≡ true)
  unfolding discard_actions
  discard_actions-lists p t found mine has =
      let own : eqb seat s.current_actor ≡ true = ground arith in
      let held : 0 < count t (sorted_distinct p.concealed) =
        omega
          (arith, count-sort token_le t (distinct p.concealed), count-distinct t p.concealed has) in
      let Lists : List Action → Type 0 = λ l. contains (Action.play t) l ≡ true in
      rw (own, found)
        (Ensures-bind (gang_actions s.wall.remaining p) _ Lists λ gangs e1.
          Ensures-bind (resolve_config env s.rules) _ Lists λ c e2.
            Ensures-bind (self_draw_legal env s.last_drawn seat p s.round_wind c) _ Lists λ hu e3.
              contains-append (Action.play t) (map Action.play (sorted_distinct p.concealed))
                (gangs ++ (if hu then Action.hu ∷ [] else []))
                (contains-map_play t (sorted_distinct p.concealed) held))

  -- Another seat than the discarder may always pass.
  pub claim_actions-lists :
      (last : LastDiscard)
      → s.last_discard ≡ some last
      → seat ≢ last.seat
      → Ensures (claim_actions env s seat) (λ l. contains Action.pass l ≡ true)
  unfolding claim_actions
  claim_actions-lists last opened other =
      let there : eqb seat last.seat ≡ false = ground arith in
      let Lists : List Action → Type 0 = λ l. contains Action.pass l ≡ true in
      subst (λ o. Ensures (claims_on env o s seat) Lists) (sym opened)
        (rw there (
          Ensures-bind (index s.seats seat) _ Lists λ p e1.
            Ensures-bind (resolve_config env s.rules) _ Lists λ c e2.
              Ensures-bind
                (claim_hu_legal env p.concealed p.melds last.tile p.seat_wind s.round_wind c) _
                Lists (λ hu e3. refl)))
