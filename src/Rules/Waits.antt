-- ===== src/Rules/Waits.antt =====
-- `shanten` and `winning_tiles` of mahjong/engine/pymj.py.
use mahjong_server_bot_zoo.Prelude.{
  ℕ, zero, suc, ◌+◌, Bool, true, false, not, ◌&&◌, Option, none, some, List, [], ◌∷◌, ◌++◌, ltb,
  eqb, if◌then◌else◌, keep,
}
use mahjong_server_bot_zoo.Prelude.Int.{ℤ, pos, negsuc}
use mahjong_server_bot_zoo.Prelude.Counting.{count}
use mahjong_server_bot_zoo.Prelude.Seq.{Result, ok, type_error, or_raise, ◌>>=◌}
use mahjong_server_bot_zoo.Tiles.{Tile, tile, tile_eq, Section, wan, bing, tiao, feng, jian}
use mahjong_server_bot_zoo.State.{Meld}
use mahjong_server_bot_zoo.Rules.Inputs.{Env, Pack, FanQuery, FanLine}
use mahjong_server_bot_zoo.Rules.Pymj.{melds_to_pack}

abbrev pub ranks_from : Section → ℕ → ℕ → List Tile
ranks_from s r zero = []
ranks_from s r (suc n) = tile s r ∷ ranks_from s (r + 1) n

unfoldable pub candidate_tiles : List Tile
candidate_tiles =
    ranks_from wan 1 9
    ++ (ranks_from bing 1 9
        ++ (ranks_from tiao 1 9 ++ (ranks_from feng 1 4 ++ ranks_from jian 1 3)))

abbrev pub is_zero : ℤ → Bool
is_zero (pos n) = eqb n 0
is_zero (negsuc n) = false

abbrev pub answered : Option (List FanLine) → Bool
answered none = false
answered (some lines) = true

abbrev pub wait_query : List Pack → List Tile → Tile → FanQuery
wait_query pack hand candidate = record {
  pack = pack;
  hand = hand;
  win_tile = candidate;
  flower_count = 0;
  is_self_drawn = false;
  is_fourth_tile = false;
  is_about_kong = false;
  is_wall_last = false;
  seat_wind = 0;
  prevalent_wind = 0;
}

module _ (env : Env) where
  unfoldable pub shanten : List Tile → List Meld → Result ℤ
  shanten hand melds = melds_to_pack melds >>= λ pack. or_raise (env.shanten pack hand) type_error

  -- A fifth copy cannot exist, and the calculator answers for a winning shape.
  abbrev pub completes : List Pack → List Tile → Tile → Bool
  completes pack hand t =
      ltb (count t hand) 4 && answered (env.fan_calculator (wait_query pack hand t))

  unfoldable pub winning_tiles : List Tile → List Meld → Result (List Tile)
  unfolding shanten candidate_tiles
  winning_tiles hand melds = shanten hand melds >>= λ steps.
      if not (is_zero steps)
      then ok []
      else (melds_to_pack melds >>= λ pack. ok (keep (completes pack hand) candidate_tiles))
