-- ===== src/Bots/Defs/Measures.antt =====
-- The distances and the tie-break of mahjong/bots/v0.py. A distance is counted in halves: 0.5 is 1.
-- The cache of `_shanten` does not show.
use mahjong_server_bot_zoo.Prelude.{
  ℕ, ◌+◌, ◌*◌, Bool, true, false, not, none, List, [], ◌∷◌, ◌++◌, map, leb, ltb, eqb, if◌then◌else◌,
  length, keep,
}
use mahjong_server_bot_zoo.Prelude.Int.{ℤ, pos, negsuc}
use mahjong_server_bot_zoo.Prelude.Counting.{count}
use mahjong_server_bot_zoo.Prelude.Seq.{Result, ok, err, value_error, remove, ◌>>=◌}
use mahjong_server_bot_zoo.Tiles.{Tile, tile_eq, wan, bing, tiao, feng, jian}
use mahjong_server_bot_zoo.State.{Meld, WinType}
use mahjong_server_bot_zoo.Rules.{
  Config, Env, calculate_fan, shanten, winning_tiles, ranks_from, is_zero,
}
use mahjong_server_bot_zoo.Legality.{distinct, is_nil}

abbrev pub subfloor_tenpai_distance : ℤ
subfloor_tenpai_distance = pos 1

-- `float(s)`
abbrev pub halves : ℤ → ℤ
halves (pos n) = pos (2 * n)
halves (negsuc n) = negsuc (2 * n + 1)

-- `a < b` and `a == b`
abbrev pub lt_ℤ : ℤ → ℤ → Bool
lt_ℤ (pos a) (pos b) = ltb a b
lt_ℤ (pos a) (negsuc b) = false
lt_ℤ (negsuc a) (pos b) = true
lt_ℤ (negsuc a) (negsuc b) = ltb b a

abbrev pub eq_ℤ : ℤ → ℤ → Bool
eq_ℤ (pos a) (pos b) = eqb a b
eq_ℤ (negsuc a) (negsuc b) = eqb a b
eq_ℤ _ _ = false

module _ {A B : Type 0} where
  -- `[f(x) for x in xs]`, where `f` may raise.
  unfoldable pub traverse : (A → Result B) → List A → Result (List B)
  traverse f [] = ok []
  traverse f (x ∷ xs) = f x >>= λ y. traverse f xs >>= λ ys. ok (y ∷ ys)

module _ {A : Type 0} (lt : A → A → Bool) where
  unfoldable pub least_from : A → List A → A
  least_from best [] = best
  least_from best (x ∷ xs) = least_from (if lt x best then x else best) xs

  -- `min(xs)`: the first of the least.
  unfoldable pub least : List A → Result A
  unfolding least_from
  least [] = err value_error
  least (x ∷ xs) = ok (least_from x xs)

-- What is left of a meld in `_meld_key`.
abbrev pub key_meld : Meld → Meld
key_meld m = record { kind = m.kind; tiles = m.tiles; called_tile = none; called_from_seat = 0 }

abbrev pub all_tile_types : List Tile
all_tile_types =
    ranks_from wan 1 9
    ++ (ranks_from bing 1 9
        ++ (ranks_from tiao 1 9 ++ (ranks_from feng 1 4 ++ ranks_from jian 1 3)))

module _ (env : Env) where
  unfoldable pub key_shanten : List Tile → List Meld → Result ℤ
  key_shanten hand melds = shanten env hand (map key_meld melds)

  module _ (seat_wind round_wind : Tile) (config : Config) where
    -- Whether one of the waits may be won on a discard.
    unfoldable pub any_ron : List Tile → List Meld → List Tile → Result Bool
    any_ron hand melds [] = ok false
    any_ron hand melds (wait ∷ waits) =
        let rest = any_ron hand melds waits in
        calculate_fan env hand melds wait WinType.discard seat_wind round_wind config 0 >>= λ fans.
        if is_nil fans then rest else ok true

    unfoldable pub fan_aware_distance : List Tile → List Meld → Result ℤ
    unfolding key_shanten any_ron
    fan_aware_distance hand melds = key_shanten hand melds >>= λ s.
        if not (is_zero s)
        then ok (halves s)
        else (winning_tiles env hand melds >>= λ waits. any_ron hand melds waits >>= λ feasible.
            ok (if feasible then pos 0 else subfloor_tenpai_distance))

  -- The shanten after the best discard from `drawn`.
  unfoldable pub best_shanten : List Tile → List Meld → Result ℤ
  unfolding traverse least key_shanten
  best_shanten drawn melds =
      traverse (λ d. remove d drawn >>= λ rest. key_shanten rest melds) (distinct drawn)
      >>= λ steps. least lt_ℤ steps

  unfoldable pub accepts : List Tile → List Meld → ℤ → Tile → Result Bool
  unfolding best_shanten
  accepts hand melds base t =
      if leb 4 (count t hand)
      then ok false
      else (best_shanten (hand ++ t ∷ []) melds >>= λ best. ok (lt_ℤ best base))

  unfoldable pub fan_feasible_ukeire : List Tile → List Meld → Result ℕ
  unfolding key_shanten accepts traverse
  fan_feasible_ukeire hand melds = key_shanten hand melds >>= λ base.
      if is_zero base
      then (winning_tiles env hand melds >>= λ waits. ok (length waits))
      else (traverse (accepts hand melds base) all_tile_types >>= λ taken.
          ok (length (keep (λ b. b) taken)))
