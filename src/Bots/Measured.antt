-- ===== src/Bots/Measured.antt =====
-- The distances of mahjong/bots/v0.py exist: with sound melds and true winds, no call raises.
use mahjong_server_bot_zoo.Prelude.{
  suc, ◌<◌, ◌≡◌, refl, ap, false, true, not, All-imp, All-append, inl, inr, List, [], ◌∷◌, ◌++◌,
  arith, leb, length, map, All, Bool-cases, length-append,
}
use mahjong_server_bot_zoo.Prelude.Int.{ℤ}
use mahjong_server_bot_zoo.Prelude.Counting.{count}
use mahjong_server_bot_zoo.Prelude.Every.{all-All, All-map, All-count}
use mahjong_server_bot_zoo.Prelude.Seq.{
  ◌>>=◌, Returns, Returns-bind, Returns-imp, remove, remove-Returns, Removed,
}
use mahjong_server_bot_zoo.Tiles.{Tile, tile_eq, is_flower}
use mahjong_server_bot_zoo.Prelude.Sub.{Sub-All}
use mahjong_server_bot_zoo.State.{Meld, WinType}
use mahjong_server_bot_zoo.Rules.{Config, Env, calculate_fan, winning_tiles, is_zero}
use mahjong_server_bot_zoo.Legality.{distinct, is_nil}
use mahjong_server_bot_zoo.Legality.Total.{calculate_fan-Returns}
use mahjong_server_bot_zoo.Legality.Waits.{
  Answers, IsStanding, IsDrawn, shanten-Returns, winning_tiles-IsWait,
}
use mahjong_server_bot_zoo.Legality.Justified.{All-distinct}
use mahjong_server_bot_zoo.Transition.Invariant.{MeldIsSound, IsWind}
use mahjong_server_bot_zoo.Bots.{
  traverse, lt_ℤ, key_meld, all_tile_types, key_shanten, any_ron, fan_aware_distance, best_shanten,
  accepts, fan_feasible_ukeire,
}
use mahjong_server_bot_zoo.Bots.Choosing.{traverse-Returns, least-Returns}

abbrev Done : {A : Type 0} → A → Type 0
Done _ = Unit

pub distinct_fills : (t : Tile) (ts : List Tile) → 0 < length (distinct (t ∷ ts))
distinct_fills t [] = omega arith
distinct_fills t (u ∷ ts) = ground (arith, distinct_fills u ts)

pub distinct-held : (ts : List Tile) → All (λ t. 0 < count t ts) (distinct ts)
distinct-held ts = All-distinct (λ t. 0 < count t ts) ts (All-count ts)

pub some_distinct : (ts : List Tile) → 0 < length ts → 0 < length (distinct ts)
some_distinct [] h = absurd (omega arith)
some_distinct (t ∷ ts) h = distinct_fills t ts

length-map : {A B : Type 0} (f : A → B) (xs : List A) → length (map f xs) ≡ length xs
length-map f [] = refl
length-map f (x ∷ xs) = ap suc (length-map f xs)

types-plain : All (λ t. is_flower t ≡ false) all_tile_types
types-plain =
    All-imp (λ t. not (is_flower t) ≡ true) (λ t. is_flower t ≡ false) all_tile_types
      (λ t h. ground arith) (all-All (λ t. not (is_flower t)) all_tile_types refl)

-- One tile put away from a drawn hand, and one drawn to a standing hand.
pub Removed-IsStanding :
    (d : Tile) (drawn rest : List Tile) (ms : List Meld)
    → IsDrawn drawn ms
    → Removed d drawn rest
    → IsStanding rest ms
Removed-IsStanding d drawn rest ms h gone =
    (omega (arith, h.0, gone.shorter), Sub-All (λ t. is_flower t ≡ false) gone.sub h.1)

append-IsDrawn :
    (t : Tile) (hand : List Tile) (ms : List Meld)
    → IsStanding hand ms
    → is_flower t ≡ false
    → IsDrawn (hand ++ t ∷ []) ms
append-IsDrawn t hand ms h plain = (
  omega (arith, h.0, length-append hand (t ∷ [])),
  All-append (λ t. is_flower t ≡ false) hand (t ∷ []) h.1 (plain, tt),
)

module _ (env : Env) (answers : Answers env) where
  key_shanten-Returns :
      (hand : List Tile) (ms : List Meld)
      → All MeldIsSound ms
      → IsStanding hand ms
      → Returns (key_shanten env hand ms) Done
  unfolding key_shanten
  key_shanten-Returns hand ms h standing =
      shanten-Returns env hand (map key_meld ms) answers (All-map MeldIsSound key_meld ms h)
        (omega (arith, standing.0, length-map key_meld ms), standing.1)

  any_ron-Returns :
      (own round : Tile) (c : Config) (hand : List Tile) (ms : List Meld) (waits : List Tile)
      → All MeldIsSound ms
      → IsWind own
      → IsWind round
      → Returns (any_ron env own round c hand ms waits) Done
  unfolding any_ron
  any_ron-Returns own round c hand ms [] h ho hr = tt
  any_ron-Returns own round c hand ms (w ∷ ws) h ho hr =
      Returns-bind (calculate_fan env hand ms w WinType.discard own round c 0) _ Done Done
        (calculate_fan-Returns env hand ms w WinType.discard own round c 0 h ho hr)
        λ fans _. elim (Bool-cases (is_nil fans)) [
          | inl none_left ↦ rw none_left (any_ron-Returns own round c hand ms ws h ho hr)
          | inr some_left ↦ rw some_left tt
        ]

  -- Where MahjongShanten answers for hands between two turns, such a hand has a distance.
  pub fan_aware_distance-Returns :
      (own round : Tile) (c : Config) (hand : List Tile) (ms : List Meld)
      → All MeldIsSound ms
      → IsWind own
      → IsWind round
      → IsStanding hand ms
      → Returns (fan_aware_distance env own round c hand ms) Done
  unfolding fan_aware_distance
  fan_aware_distance-Returns own round c hand ms h ho hr standing =
      Returns-bind (key_shanten env hand ms) _ Done Done (key_shanten-Returns hand ms h standing)
        λ s _. elim (Bool-cases (is_zero s)) [
          | inr far ↦ rw far tt
          | inl ready ↦ rw ready (
              Returns-bind (winning_tiles env hand ms) _ (λ w. Unit) Done
                (Returns-imp (winning_tiles env hand ms) _ Done (λ w _. tt)
                  (winning_tiles-IsWait env hand ms h answers standing))
                λ waits _.
                  Returns-bind (any_ron env own round c hand ms waits) _ Done Done
                    (any_ron-Returns own round c hand ms waits h ho hr) (λ b _. tt))
        ]

  module _ (ms : List Meld) (h : All MeldIsSound ms) where
    best_shanten-Returns :
        (drawn : List Tile)
        → IsDrawn drawn ms
        → 0 < length drawn
        → Returns (best_shanten env drawn ms) Done
    unfolding best_shanten
    best_shanten-Returns drawn full some_left =
        Returns-bind
          (traverse (λ d. remove d drawn >>= λ rest. key_shanten env rest ms) (distinct drawn)) _ _
          Done
          (traverse-Returns _ (λ d. 0 < count d drawn) Done (distinct drawn) (distinct-held drawn)
            λ d has.
              Returns-bind (remove d drawn) _ (Removed d drawn) Done (remove-Returns d drawn has)
                (λ rest gone.
                  key_shanten-Returns rest ms h (Removed-IsStanding d drawn rest ms full gone)))
          (λ steps got.
            least-Returns lt_ℤ Done steps (omega (arith, got.1, some_distinct drawn some_left))
              got.0)

    accepts-Returns :
        (hand : List Tile) (base : ℤ) (t : Tile)
        → IsStanding hand ms
        → is_flower t ≡ false
        → Returns (accepts env hand ms base t) Done
    unfolding accepts
    accepts-Returns hand base t standing plain = elim (Bool-cases (leb 4 (count t hand))) [
      | inl used ↦ rw used tt
      | inr free ↦ rw free (
          Returns-bind (best_shanten env (hand ++ t ∷ []) ms) _ Done Done
            (best_shanten-Returns (hand ++ t ∷ []) (append-IsDrawn t hand ms standing plain)
              (omega (arith, length-append hand (t ∷ []))))
            (λ best _. tt))
    ]

    pub fan_feasible_ukeire-Returns :
        (hand : List Tile) → IsStanding hand ms → Returns (fan_feasible_ukeire env hand ms) Done
    unfolding fan_feasible_ukeire
    fan_feasible_ukeire-Returns hand standing =
        Returns-bind (key_shanten env hand ms) _ Done Done (key_shanten-Returns hand ms h standing)
          λ base _. elim (Bool-cases (is_zero base)) [
            | inl ready ↦ rw ready (
                Returns-bind (winning_tiles env hand ms) _ Done Done
                  (Returns-imp (winning_tiles env hand ms) _ Done (λ w _. tt)
                    (winning_tiles-IsWait env hand ms h answers standing))
                  (λ waits _. tt))
            | inr far ↦ rw far (
                Returns-bind (traverse (accepts env hand ms base) all_tile_types) _ _ Done
                  (traverse-Returns (accepts env hand ms base) (λ t. is_flower t ≡ false) Done
                    all_tile_types types-plain
                    (λ t plain. accepts-Returns hand base t standing plain))
                  (λ taken _. tt))
          ]
