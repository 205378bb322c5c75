-- ===== src/Transition/Removing.antt =====
-- The removals of mahjong/engine/transition/: copies of one tile for a kong, and the tiles of a
-- run for a CHI.
use mahjong_server_bot_zoo.Prelude.{
  ℕ, zero, suc, ◌+◌, ◌*◌, ◌≤◌, ◌<◌, ◌≡◌, ◌≢◌, ◌⊎◌, inl, inr, List, [], ◌∷◌, arith, length, All,
  All-imp, Bool-cases, ◌==◌, ==_iff,
}
use mahjong_server_bot_zoo.Prelude.Counting.{one, count}
use mahjong_server_bot_zoo.Prelude.Every.{All-and}
use mahjong_server_bot_zoo.Prelude.Seq.{
  Returns, Returns-bind, Returns-imp, remove, remove-Returns, Removed,
}
use mahjong_server_bot_zoo.Prelude.Sub.{Sub, Sub-refl, Sub-trans}
use mahjong_server_bot_zoo.Tiles.{Tile, Section, tile_eq}
use mahjong_server_bot_zoo.Legality.{run_from}
use mahjong_server_bot_zoo.Legality.Justified.{ChiFits}
use mahjong_server_bot_zoo.Transition.{remove_n, remove_run}
use mahjong_server_bot_zoo.Transition.Claimed.{Takes}

pub record RemovedN (n : ℕ) (t : Tile) (hand rest : List Tile) : Type 0 where
  pub counts : (a : Tile) → count a hand ≡ n * one a t + count a rest
  pub shorter : length hand ≡ n + length rest
  pub sub : Sub rest hand

-- As many copies as the hand holds can be removed.
pub remove_n-Returns :
    (n : ℕ) (t : Tile) (hand : List Tile)
    → n ≤ count t hand
    → Returns (remove_n n t hand) (RemovedN n t hand)
unfolding remove_n
remove_n-Returns zero t hand h = record {
  counts = λ a. omega arith;
  shorter = omega arith;
  sub = Sub-refl hand;
}
remove_n-Returns (suc n) t hand h =
    Returns-bind (remove t hand) _ (Removed t hand) _ (remove-Returns t hand (omega arith))
      λ rest one_less.
        Returns-imp (remove_n n t rest) (RemovedN n t rest) (RemovedN (suc n) t hand)
          (λ left fewer. record {
            counts = λ a. omega (arith, one_less.counts a, fewer.counts a);
            shorter = omega (arith, one_less.shorter, fewer.shorter);
            sub = Sub-trans fewer.sub one_less.sub;
          })
          (remove_n-Returns n t rest (ground (arith, one_less.counts t, ==_iff t t)))

-- What is left once every tile of `ts` but the called one has left the hand.
record RunRemoved (called : Tile) (ts hand rest : List Tile) : Type 0 where
  moved : (a : Tile) → count a hand + one a called * count called ts ≡ count a rest + count a ts
  shorter : length hand + count called ts ≡ length rest + length ts
  sub : Sub rest hand

abbrev IsDistinct : List Tile → Type 0
IsDistinct [] = Unit
IsDistinct (t ∷ ts) = All (λ u. u ≢ t) ts × IsDistinct ts

-- The called tile, or a tile in the hand.
abbrev Held : Tile → List Tile → Tile → Type 0
Held called hand t = (t ≡ called) ⊎ (0 < count t hand)

still-Held :
    (called t : Tile) (hand rest ts : List Tile)
    → Removed t hand rest
    → All (λ u. u ≢ t) ts
    → All (Held called hand) ts
    → All (Held called rest) ts
still-Held called t hand rest ts gone distinct held =
    All-imp (λ u. (u ≢ t) × Held called hand u) (Held called rest) ts
      (λ u h. elim h.1 [
        | inl same ↦ inl same
        | inr some_left ↦ inr (ground (arith, gone.counts u, ==_iff t u))
      ])
      (All-and (λ u. u ≢ t) (Held called hand) ts distinct held)

remove_run-Returns :
    (called : Tile) (ts hand : List Tile)
    → IsDistinct ts
    → All (Held called hand) ts
    → Returns (remove_run called ts hand) (RunRemoved called ts hand)
unfolding remove_run
remove_run-Returns called [] hand d h = record {
  moved = λ a. omega arith;
  shorter = omega arith;
  sub = Sub-refl hand;
}
remove_run-Returns called (t ∷ ts) hand d h = elim (Bool-cases (t == called)) [
  | inl same ↦ rw same (
      Returns-imp (remove_run called ts hand) (RunRemoved called ts hand)
        (RunRemoved called (t ∷ ts) hand)
        (λ rest r. record {
          moved = λ a. ground (arith, r.moved a, ==_iff t called);
          shorter = ground (arith, r.shorter);
          sub = r.sub;
        })
        (remove_run-Returns called ts hand d.1 h.1))
  | inr other ↦ rw other (
      Returns-bind (remove t hand) _ (Removed t hand) _ (remove-Returns t hand (ground arith))
        λ rest gone.
          Returns-imp (remove_run called ts rest) (RunRemoved called ts rest)
            (RunRemoved called (t ∷ ts) hand)
            (λ left r. record {
              moved = λ a. ground (arith, r.moved a, gone.counts a);
              shorter = ground (arith, r.shorter, gone.shorter);
              sub = Sub-trans r.sub gone.sub;
            })
            (remove_run-Returns called ts rest d.1 (still-Held called t hand rest ts gone d.0 h.1)))
]

run_from-IsDistinct : (s : Section) (r : ℕ) → IsDistinct (run_from s r)
run_from-IsDistinct s r = ground arith

count-run_from :
    (called : Tile) (start : ℕ)
    → start ≤ called.rank
    → called.rank ≤ start + 2
    → count called (run_from called.section start) ≡ 1
count-run_from called start low high = ground arith

-- A run that fits around the called tile can be taken: two tiles leave the hand.
pub chi-Takes :
    (called : Tile) (hand ts : List Tile)
    → ChiFits called hand ts
    → Returns (remove_run called ts hand) (λ rest. Takes 2 called hand rest ts)
chi-Takes called hand ts fits = rw fits.run (
    Returns-imp (remove_run called (run_from called.section fits.start) hand)
      (RunRemoved called (run_from called.section fits.start) hand) _
      (λ rest r. record {
        moved = λ a.
            let once = count-run_from called fits.start fits.from_start fits.to_end in
            let m = rw once at (r.moved a) in omega (arith, m);
        shorter =
            omega (arith, r.shorter, count-run_from called fits.start fits.from_start fits.to_end);
        sub = r.sub;
      })
      (remove_run-Returns called (run_from called.section fits.start) hand
        (run_from-IsDistinct called.section fits.start) fits.held))
