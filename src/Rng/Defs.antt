-- ===== src/Rng/Defs.antt =====
-- The functions of mahjong/engine/rng.py.
use mahjong_server_bot_zoo.Prelude.{
  ℕ, zero, suc, ◌+◌, ◌-◌, ◌*◌, ◌/◌, ◌%◌, ◌^◌, List, [], ◌∷◌, ◌++◌, leb, ltb, eqb, if◌then◌else◌,
  length, set,
}
use mahjong_server_bot_zoo.Prelude.Seq.{
  Result, ok, err, value_error, overflow_error, out_of_fuel, index, ◌>>=◌,
}
use mahjong_server_bot_zoo.Prelude.Slices.{take, drop}
use mahjong_server_bot_zoo.Tiles.{Tile, canonical_tile_set}
use mahjong_server_bot_zoo.Rules.{Env}

abbrev pub block_size : ℕ
block_size = 32

-- The last `k` base-256 digits of `n`, the highest first.
abbrev pub digits : ℕ → ℕ → List ℕ
digits zero n = []
digits (suc k) n = digits k (n / 256) ++ (n % 256) ∷ []

-- `n.to_bytes(k, "big", signed=False)`
unfoldable pub to_bytes : ℕ → ℕ → Result (List ℕ)
to_bytes k n = if ltb n (256 ^ k) then ok (digits k n) else err overflow_error

-- `int.from_bytes(bs, "big")`, from the value of the bytes read so far.
abbrev pub from_bytes : ℕ → List ℕ → ℕ
from_bytes acc [] = acc
from_bytes acc (b ∷ bs) = from_bytes (acc * 256 + b) bs

module _ (env : Env) where
  -- `while len(out) < target`: one more block.
  unfoldable pub fill_blocks : ℕ → List ℕ → ℕ → ℕ → List ℕ → Result (List ℕ)
  fill_blocks zero prefix block target out =
      if ltb (length out) target then err out_of_fuel else ok out
  fill_blocks (suc fuel) prefix block target out =
      let more : Result (List ℕ) = to_bytes 16 block >>= λ counter.
      fill_blocks fuel prefix (block + 1) target (out ++ env.sha256 (prefix ++ counter)) in
      if ltb (length out) target then more else ok out

  -- A block adds a byte at least, so `n + 32` rounds are enough.
  unfoldable pub rng_bytes : ℕ → ℕ → ℕ → Result (List ℕ)
  unfolding fill_blocks to_bytes
  rng_bytes seed cursor n =
      if leb (2 ^ 128) seed then err value_error else if eqb n 0 then ok [] else (do
        prefix ← to_bytes 16 seed
        let offset : ℕ = cursor % block_size
        out ← fill_blocks (n + block_size) prefix (cursor / block_size) (n + offset) []
        ok (take n (drop offset out)))

  -- The number of whole bytes for values up to `m`: `((m).bit_length() + 7) // 8`.
  abbrev pub byte_length : ℕ → ℕ → ℕ
  byte_length zero m = 0
  byte_length (suc k) m = let rest = byte_length k (m / 256) in if eqb m 0 then 0 else suc rest

  -- Sampling until a value lies below the threshold; `n` is the number of outcomes.
  unfoldable pub sample_loop : ℕ → ℕ → ℕ → ℕ → ℕ → ℕ → Result (ℕ × ℕ)
  sample_loop zero seed cursor width threshold n = err out_of_fuel
  sample_loop (suc fuel) seed cursor width threshold n =
      let again = sample_loop fuel seed (cursor + width) width threshold n in
      rng_bytes seed cursor width >>= λ chunk.
      let value = from_bytes 0 chunk in
      if ltb value threshold then ok (value % n, cursor + width) else again

  unfoldable pub uniform_int : ℕ → ℕ → ℕ → ℕ → Result (ℕ × ℕ)
  unfolding sample_loop
  uniform_int fuel seed cursor upper_inclusive =
      let n : ℕ = upper_inclusive + 1 in
      let width : ℕ = byte_length n (n - 1) in
      let pow2 : ℕ = 256 ^ width in
      if leb n 1 then ok (0, cursor) else sample_loop fuel seed cursor width (pow2 - pow2 % n) n

-- `tiles[i], tiles[j] = tiles[j], tiles[i]`
unfoldable pub swap : ℕ → ℕ → List Tile → Result (List Tile)
swap i j tiles = do x ← index tiles i; y ← index tiles j; ok (set (set tiles i y) j x)

module _ (env : Env) where
  -- `for i in range(i, 0, -1)`
  unfoldable pub shuffle_from : ℕ → ℕ → ℕ → ℕ → List Tile → Result (List Tile × ℕ)
  shuffle_from fuel seed zero cursor tiles = ok (tiles, cursor)
  shuffle_from fuel seed (suc i) cursor tiles =
      uniform_int env fuel seed cursor (suc i) >>= λ drawn.
      swap (suc i) drawn.0 tiles >>= λ swapped. shuffle_from fuel seed i drawn.1 swapped

  unfoldable pub shuffled_wall : ℕ → ℕ → Result (List Tile × ℕ)
  unfolding shuffle_from
  shuffled_wall fuel seed =
      shuffle_from fuel seed (length canonical_tile_set - 1) 0 canonical_tile_set
