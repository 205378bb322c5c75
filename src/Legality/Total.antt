-- ===== src/Legality/Total.antt =====
-- On a sound table the calls behind mahjong/engine/legality/ return: melds have the shapes that
-- the calculator's packs need, and winds have an index.
use mahjong_server_bot_zoo.Prelude.{
  ℕ, ◌<◌, ◌≤◌, ◌≡◌, inl, inr, true, not, Option, none, some, map, List, [], ◌∷◌, ◌%◌, ◌&&◌, eqb,
  eqb_iff, ltb, arith, length, All, Bool-cases,
}
use mahjong_server_bot_zoo.Prelude.Counting.{count, contains, contains-count}
use mahjong_server_bot_zoo.Prelude.Seq.{
  ok, Returns, Returns-bind, Returns-imp, Returns-self, Ensures-bind, Ensures-ok, Ensures,
  index-Returns, index, remove, remove-Returns, Removed,
}
use mahjong_server_bot_zoo.Prelude.Sorting.{sort, length-sort}
use mahjong_server_bot_zoo.Tiles.{Tile, tile_le, tile_eq}
use mahjong_server_bot_zoo.State.{MeldType, Meld, WinType, FanEntry}
use mahjong_server_bot_zoo.Rules.{
  Config, Env, wind_index, pack_tile, melds_to_pack, calculate_fan, cliff_of, floor_total,
  clear_cliff, fan_entry, qualified, FanLine,
}
use mahjong_server_bot_zoo.Legality.{self_draw_hu_legal, claim_hu_legal, is_nil}
use mahjong_server_bot_zoo.Transition.Invariant.{MeldFits, MeldIsSound, IsWind}

abbrev Done : {A : Type 0} → A → Type 0
Done _ = Unit

wind_index-Returns : (t : Tile) → IsWind t → Returns (wind_index t) Done
unfolding wind_index
wind_index-Returns t h = ground arith

pub pack_tile-Returns :
    (kind : MeldType) (m : Meld) → MeldFits kind m.tiles → Returns (pack_tile kind m) Done
pack_tile-Returns MeldType.chi m h =
    Returns-imp (index (sort tile_le m.tiles) 1) _ Done (λ t _. tt)
      (index-Returns (sort tile_le m.tiles) 1 (omega (arith, length-sort tile_le m.tiles)))
pack_tile-Returns MeldType.peng m (t, h) = rw h (ground arith)
pack_tile-Returns kind m (t, h) = rw h (ground arith)

pub melds_to_pack-Returns : (ms : List Meld) → All MeldIsSound ms → Returns (melds_to_pack ms) Done
unfolding melds_to_pack
melds_to_pack-Returns [] h = tt
melds_to_pack-Returns (m ∷ ms) h =
    Returns-bind (pack_tile m.kind m) _ Done Done (pack_tile-Returns m.kind m h.0)
      λ t _. Returns-bind (melds_to_pack ms) _ Done Done (melds_to_pack-Returns ms h.1) (λ r _. tt)

qualified-reaches :
    (c : Config) (lines : Option (List FanLine))
    → 0 < length (qualified c lines)
    → cliff_of c ≤ floor_total (qualified c lines)
unfolding qualified clear_cliff
qualified-reaches c none h = absurd (omega arith)
qualified-reaches c (some lines) h =
    elim (Bool-cases (ltb (floor_total (map fan_entry lines)) (cliff_of c))) [
      | inl low ↦ absurd (let k = rw low at h in omega arith)
      | inr high ↦ rw high (ground arith)
    ]

pub fills {ℓ} : {A : Type ℓ} (xs : List A) → not (is_nil xs) ≡ true → 0 < length xs
fills [] h = absurd (cc)
fills (x ∷ xs) h = omega arith

module _ (env : Env) where
  -- `calculate_fan` raises nothing where every meld fits its type and both winds are winds.
  pub calculate_fan-Returns :
      (hand : List Tile) (ms : List Meld) (win : Tile) (t : WinType) (own round : Tile) (c : Config)
      (flower_count : ℕ)
      → All MeldIsSound ms
      → IsWind own
      → IsWind round
      → Returns (calculate_fan env hand ms win t own round c flower_count) Done
  unfolding calculate_fan
  calculate_fan-Returns hand ms win t own round c flower_count hm ho hr =
      Returns-bind (melds_to_pack ms) _ Done Done (melds_to_pack-Returns ms hm) λ pack _.
        Returns-bind (wind_index own) _ Done Done (wind_index-Returns own ho) λ i _.
          Returns-bind (wind_index round) _ Done Done (wind_index-Returns round hr) (λ j _. tt)

  -- What is listed of a calculated hand reaches the floor.
  calculate_fan-reaches :
      (hand : List Tile) (ms : List Meld) (win : Tile) (t : WinType) (own round : Tile) (c : Config)
      → Ensures
          (calculate_fan env hand ms win t own round c 0)
          (λ fans. 0 < length fans → cliff_of c ≤ floor_total fans)
  unfolding calculate_fan
  calculate_fan-reaches hand ms win t own round c = Ensures-bind (melds_to_pack ms) _ _ λ pack _.
      Ensures-bind (wind_index own) _ _
        λ i _. Ensures-bind (wind_index round) _ _ λ j _. qualified-reaches c (env.fan_calculator _)

  -- The hand and the melds win with the tile: the calculator finds fans, and without the flowers
  -- they reach the floor.
  pub record IsWin (c : Config) (hand : List Tile) (ms : List Meld) (win : Tile) (t : WinType)
      (own round : Tile) : Type 0 where
    pub fans : List FanEntry
    pub counted : calculate_fan env hand ms win t own round c 0 ≡ ok fans
    pub some_fan : 0 < length fans
    pub floor : cliff_of c ≤ floor_total fans

  module _ (hand : List Tile) (ms : List Meld) (win : Tile) (t : WinType) (own round : Tile)
      (c : Config) where
    fans-IsWin :
        All MeldIsSound ms
        → IsWind own
        → IsWind round
        → Returns
            (calculate_fan env hand ms win t own round c 0)
            (λ fans. not (is_nil fans) ≡ true → IsWin c hand ms win t own round)
    fans-IsWin hm ho hr =
        Returns-imp (calculate_fan env hand ms win t own round c 0) _ _
          (λ fans k found.
            let filled : 0 < length fans = fills fans found in
            record {
              fans = fans;
              counted = k.1;
              some_fan = filled;
              floor =
                  Ensures-ok (calculate_fan env hand ms win t own round c 0) _
                    (calculate_fan-reaches hand ms win t own round c) k.1 filled;
            })
          (Returns-self (calculate_fan env hand ms win t own round c 0) Done
            (calculate_fan-Returns hand ms win t own round c 0 hm ho hr))

  -- On a sound seat and table the test for a win on a discard returns, and says yes only to a win.
  pub claim_hu_legal-Returns :
      (hand : List Tile) (ms : List Meld) (win own round : Tile) (c : Config)
      → All MeldIsSound ms
      → IsWind own
      → IsWind round
      → Returns
          (claim_hu_legal env hand ms win own round c)
          (λ hu. hu ≡ true → (length hand % 3 ≡ 1) × IsWin c hand ms win WinType.discard own round)
  unfolding claim_hu_legal
  claim_hu_legal-Returns hand ms win own round c hm ho hr =
      elim (Bool-cases (eqb (length hand % 3) 1)) [
        | inl sized ↦ rw sized (
            Returns-bind (calculate_fan env hand ms win WinType.discard own round c 0) _
              (λ fans. not (is_nil fans) ≡ true → IsWin c hand ms win WinType.discard own round) _
              (fans-IsWin hand ms win WinType.discard own round c hm ho hr)
              (λ fans k yes_hu. ((eqb_iff (length hand % 3) 1).0 sized, k yes_hu)))
        | inr other ↦ rw other (λ h. absurd (cc))
      ]

  -- The hand wins with a tile of its own: it wins with that tile when it holds one less.
  pub record WinsDrawn (c : Config) (hand : List Tile) (ms : List Meld) (win own round : Tile)
      : Type 0 where
    pub held : 0 < count win hand
    pub sized : length hand % 3 ≡ 2
    pub rest : List Tile
    pub removed : Removed win hand rest
    pub wins : IsWin c rest ms win WinType.self_draw own round

  -- So does the test for a self-drawn win.
  pub self_draw_hu_legal-Returns :
      (hand : List Tile) (ms : List Meld) (win own round : Tile) (c : Config)
      → All MeldIsSound ms
      → IsWind own
      → IsWind round
      → Returns
          (self_draw_hu_legal env hand ms win own round c)
          (λ hu. hu ≡ true → WinsDrawn c hand ms win own round)
  unfolding self_draw_hu_legal
  self_draw_hu_legal-Returns hand ms win own round c hm ho hr =
      elim (Bool-cases (eqb (length hand % 3) 2 && contains win hand)) [
        | inl fits ↦ rw fits (
            let some_left : 0 < count win hand = contains-count win hand (ground arith) in
            Returns-bind (remove win hand) _ (Removed win hand) _
              (remove-Returns win hand some_left)
              λ rest gone.
                Returns-bind (calculate_fan env rest ms win WinType.self_draw own round c 0) _
                  (λ fans.
                    not (is_nil fans) ≡ true → IsWin c rest ms win WinType.self_draw own round)
                  _ (fans-IsWin rest ms win WinType.self_draw own round c hm ho hr)
                  (λ fans k yes_hu. record {
                    held = some_left;
                    sized = ground arith;
                    rest = rest;
                    removed = gone;
                    wins = k yes_hu;
                  }))
        | inr other ↦ rw other (λ h. absurd (cc))
      ]
