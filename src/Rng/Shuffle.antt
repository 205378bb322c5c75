-- ===== src/Rng/Shuffle.antt =====
-- What mahjong/engine/rng.py promises of the shuffled wall: it holds the same 144 tiles.
use mahjong_server_bot_zoo.Prelude.{
  ℕ, zero, suc, [], ◌∷◌, ◌<◌, ◌≡◌, sym, List, arith, length, set, some, get_elem?, get_elem?-lt, ap,
  inl, inr, ◌⊎◌, ◌≢◌, get_elem?-set_self, get_elem?-set_ne, ◌∙◌,
}
use mahjong_server_bot_zoo.Prelude.Counting.{sum_by, sum_by-set}
use mahjong_server_bot_zoo.Prelude.Rearranged.{Rearranged}
use mahjong_server_bot_zoo.Prelude.Seq.{ok, index, index-Returns, >>=-ok, Returns, Returns-bind}
use mahjong_server_bot_zoo.Rng.Defs.{swap, shuffle_from, shuffled_wall, uniform_int}
use mahjong_server_bot_zoo.Rules.{Env}
use mathlib.Core.Path.{subst}
use mahjong_server_bot_zoo.Tiles.{Tile, canonical_tile_set}

eq_or_ne : (i j : ℕ) → (i ≡ j) ⊎ (i ≢ j)
eq_or_ne i j = omega arith

at_second :
    (tiles : List Tile) (i j : ℕ) (y : Tile)
    → i < length tiles
    → get_elem? tiles j ≡ some y
    → get_elem? (set tiles i y) j ≡ some y
at_second tiles i j y hi hy = elim (eq_or_ne i j) [
  | inl same ↦ rw (sym same) (get_elem?-set_self tiles i y hi)
  | inr other ↦ get_elem?-set_ne tiles i j y other ∙ hy
]

changed :
    (f : Tile → ℕ) (tiles : List Tile) (i j : ℕ) (x y : Tile)
    → get_elem? tiles i ≡ some x
    → get_elem? (set tiles i y) j ≡ some y
    → sum_by f (set (set tiles i y) j x) ≡ sum_by f tiles
changed f tiles i j x y hx hy =
    omega (arith, sum_by-set f tiles i x y hx, sum_by-set f (set tiles i y) j y x hy)

-- `swap` of two indices in range returns a list with the same entries in some order.
pub swap-Rearranged :
    (i j : ℕ) (tiles : List Tile)
    → i < length tiles
    → j < length tiles
    → Returns (swap i j tiles) (λ swapped. Rearranged swapped tiles)
unfolding swap
swap-Rearranged i j tiles hi hj =
    Returns-bind (index tiles i) _ (λ x. get_elem? tiles i ≡ some x) _ (index-Returns tiles i hi)
      (λ x hx.
        Returns-bind (index tiles j) _ (λ y. get_elem? tiles j ≡ some y) _
          (index-Returns tiles j hj)
          (λ y hy. λ f. changed f tiles i j x y hx (at_second tiles i j y hi hy)))

index-ok :
    (tiles : List Tile) (i : ℕ) {x : Tile} → index tiles i ≡ ok x → get_elem? tiles i ≡ some x
index-ok [] i h = absurd (cc)
index-ok (y ∷ tiles) zero h = cc
index-ok (y ∷ tiles) (suc i) h = index-ok tiles i h

swap-ok :
    (i j : ℕ) (tiles : List Tile) {out : List Tile} → swap i j tiles ≡ ok out → Rearranged out tiles
unfolding swap
swap-ok i j tiles {out} e =
    let (x, ex, rest) = >>=-ok (index tiles i) _ e in
    let (y, ey, same) = >>=-ok (index tiles j) _ rest in
    let in_range =
      swap-Rearranged i j tiles (get_elem?-lt tiles i (index-ok tiles i ex))
        (get_elem?-lt tiles j (index-ok tiles j ey)) in
    subst (λ m. Returns m (λ swapped. Rearranged swapped tiles)) e in_range

module _ (env : Env) (fuel seed : ℕ) where
  shuffle_from-Rearranged :
      (i cursor : ℕ) (tiles : List Tile) {out : List Tile × ℕ}
      → shuffle_from env fuel seed i cursor tiles ≡ ok out
      → Rearranged out.0 tiles
  unfolding shuffle_from
  shuffle_from-Rearranged zero cursor tiles {out} e =
      let same : (tiles, cursor) ≡ out = cc in λ f. ap (λ o. sum_by f o.0) (sym same)
  shuffle_from-Rearranged (suc i) cursor tiles e =
      let (drawn, _, e1) = >>=-ok (uniform_int env fuel seed cursor (suc i)) _ e in
      let (swapped, es, e2) = >>=-ok (swap (suc i) drawn.0 tiles) _ e1 in
      λ f. shuffle_from-Rearranged i drawn.1 swapped e2 f ∙ swap-ok (suc i) drawn.0 tiles es f

  -- Where the fuel is enough, so that `shuffled_wall` returns a wall, that wall holds the canonical
  -- tiles in some order.
  pub shuffled_wall-Rearranged :
      {out : List Tile × ℕ}
      → shuffled_wall env fuel seed ≡ ok out
      → Rearranged out.0 canonical_tile_set
  unfolding shuffled_wall
  shuffled_wall-Rearranged e = shuffle_from-Rearranged _ 0 canonical_tile_set e
