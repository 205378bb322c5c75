-- ===== src/Legality/Candidates.antt =====
-- The tiles that `winning_tiles` of mahjong/engine/pymj.py tries.
use mahjong_server_bot_zoo.Prelude.{
  ℕ, zero, suc, ◌+◌, ◌<◌, ◌≤◌, ◌≡◌, refl, Bool, [], ◌∷◌, ◌++◌, leb, eqb, inl, inr, true, false, not,
  ◌&&◌, List, arith, All, Bool-cases, ==_iff, keep,
}
use mahjong_server_bot_zoo.Prelude.Counting.{count, contains, count-append, count-contains}
use mahjong_server_bot_zoo.Prelude.Every.{all-All}
use mahjong_server_bot_zoo.Tiles.{
  Tile, tile, Section, wan, bing, tiao, feng, jian, hua, tile_eq, is_flower, section_max_rank,
}
use mahjong_server_bot_zoo.Rules.{ranks_from, candidate_tiles}

-- A tile that is no flower and whose rank its section has.
abbrev pub IsPlain : Tile → Type 0
IsPlain t = (is_flower t ≡ false) × (1 ≤ t.rank) × (t.rank ≤ section_max_rank t.section)

abbrev pub is_plain : Tile → Bool
is_plain t = not (is_flower t) && (leb 1 t.rank && leb t.rank (section_max_rank t.section))

pub candidates-All : All (λ t. is_plain t ≡ true) candidate_tiles
unfolding candidate_tiles
candidates-All = all-All is_plain candidate_tiles refl

count-ranks_from :
    (s : Section) (r n k : ℕ) → r ≤ k → k < r + n → 0 < count (tile s k) (ranks_from s r n)
count-ranks_from s r zero k low high = absurd (omega arith)
count-ranks_from s r (suc n) k low high = elim (Bool-cases (eqb r k)) [
  | inl here ↦ ground (arith, ==_iff (tile s r) (tile s k))
  | inr later ↦ omega (arith, count-ranks_from s (r + 1) n k (ground arith) (omega arith))
]

-- The candidates by their sections.
count-candidate_tiles :
    (t : Tile)
    → count t candidate_tiles
      ≡ count t (ranks_from wan 1 9)
        + (count t (ranks_from bing 1 9)
            + (count t (ranks_from tiao 1 9)
                + (count t (ranks_from feng 1 4) + count t (ranks_from jian 1 3))))
unfolding candidate_tiles
count-candidate_tiles t =
    let honours = ranks_from feng 1 4 ++ ranks_from jian 1 3 in
    omega (
      arith,
      count-append t (ranks_from wan 1 9) (ranks_from bing 1 9 ++ (ranks_from tiao 1 9 ++ honours)),
      count-append t (ranks_from bing 1 9) (ranks_from tiao 1 9 ++ honours),
      count-append t (ranks_from tiao 1 9) honours,
      count-append t (ranks_from feng 1 4) (ranks_from jian 1 3),
    )

is_candidate : (s : Section) (k : ℕ) → IsPlain (tile s k) → 0 < count (tile s k) candidate_tiles
is_candidate wan k p =
    omega (
      arith,
      count-candidate_tiles (tile wan k),
      count-ranks_from wan 1 9 k p.1 (omega (arith, p.2)),
    )
is_candidate bing k p = omega (
  arith,
  count-candidate_tiles (tile bing k),
  count-ranks_from bing 1 9 k p.1 (omega (arith, p.2)),
)
is_candidate tiao k p = omega (
  arith,
  count-candidate_tiles (tile tiao k),
  count-ranks_from tiao 1 9 k p.1 (omega (arith, p.2)),
)
is_candidate feng k p = omega (
  arith,
  count-candidate_tiles (tile feng k),
  count-ranks_from feng 1 4 k p.1 (omega (arith, p.2)),
)
is_candidate jian k p = omega (
  arith,
  count-candidate_tiles (tile jian k),
  count-ranks_from jian 1 3 k p.1 (omega (arith, p.2)),
)
is_candidate hua k p = absurd (let flower = p.0 in cc)

pub contains-candidate_tiles : (t : Tile) → IsPlain t → contains t candidate_tiles ≡ true
contains-candidate_tiles t plain =
    count-contains t candidate_tiles (is_candidate t.section t.rank plain)

pub contains-keep :
    (f : Tile → Bool) (a : Tile) (xs : List Tile)
    → f a ≡ true
    → contains a xs ≡ true
    → contains a (keep f xs) ≡ true
contains-keep f a [] kept h = absurd (cc)
contains-keep f a (x ∷ xs) kept h = elim (Bool-cases (f x)) [
  | inl kept_too ↦ rw (kept_too, contains, keep) (ground (arith, contains-keep f a xs kept))
  | inr dropped ↦
      rw (dropped, contains, keep) (ground (arith, ==_iff x a, contains-keep f a xs kept))
]
