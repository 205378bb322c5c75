-- ===== src/Legality/Waits.antt =====
-- What `winning_tiles` of mahjong/engine/pymj.py lists.
use mathlib.Core.Path.{subst}
use mahjong_server_bot_zoo.Prelude.{
  suc, ◌+◌, ◌*◌, ◌<◌, ◌≡◌, ◌↔◌, refl, ap, Option, none, some, [], ◌∷◌, length, ltb, inl, inr, true,
  false, List, arith, All, All-imp, Bool-cases,
}
use mahjong_server_bot_zoo.Prelude.Counting.{count, contains, contains-All}
use mahjong_server_bot_zoo.Prelude.Every.{All-keep}
use mahjong_server_bot_zoo.Prelude.Seq.{ok, Returns, Returns-bind, Returns-self}
use mahjong_server_bot_zoo.Tiles.{Tile, tile_eq, is_flower}
use mahjong_server_bot_zoo.State.{Meld}
use mahjong_server_bot_zoo.Prelude.Int.{ℤ, pos, negsuc}
use mahjong_server_bot_zoo.Rules.{
  Env, Pack, melds_to_pack, candidate_tiles, is_zero, completes, answered, wait_query, FanLine,
  pack_tile, shanten, winning_tiles,
}
use mahjong_server_bot_zoo.Legality.Candidates.{
  IsPlain, is_plain, candidates-All, contains-candidate_tiles, contains-keep,
}
use mahjong_server_bot_zoo.Legality.Total.{melds_to_pack-Returns, pack_tile-Returns}
use mahjong_server_bot_zoo.Transition.Invariant.{MeldIsSound}

-- Tiles that, with three for each meld, count 13, and none a flower: a hand between two turns. And
-- one with a tile more.
abbrev pub IsStanding : List Tile → List Meld → Type 0
IsStanding hand ms = (length hand + 3 * length ms ≡ 13) × All (λ t. is_flower t ≡ false) hand

abbrev pub IsDrawn : List Tile → List Meld → Type 0
IsDrawn hand ms = (length hand + 3 * length ms ≡ 14) × All (λ t. is_flower t ≡ false) hand

-- MahjongShanten answers for every hand that is no more and no less than a hand between two turns.
abbrev pub Answers : Env → Type 0
Answers env =
    (pack : List Pack) (hand : List Tile)
    → length hand + 3 * length pack ≡ 13
    → All (λ t. is_flower t ≡ false) hand
    → (n : ℤ) × (env.shanten pack hand ≡ some n)

melds_to_pack-length :
    (ms : List Meld)
    → All MeldIsSound ms
    → Returns (melds_to_pack ms) (λ pack. length pack ≡ length ms)
unfolding melds_to_pack
melds_to_pack-length [] h = refl
melds_to_pack-length (m ∷ ms) h =
    Returns-bind (pack_tile m.kind m) _ (λ t. Unit) _ (pack_tile-Returns m.kind m h.0)
      λ t _.
        Returns-bind (melds_to_pack ms) _ (λ pack. length pack ≡ length ms) _
          (melds_to_pack-length ms h.1) (λ rest same. ap suc same)

answered-some :
    (o : Option (List FanLine)) → answered o ≡ true → (lines : List FanLine) × (o ≡ some lines)
answered-some none h = absurd (cc)
answered-some (some lines) h = (lines, refl)

pub shanten-Returns :
    (env : Env) (hand : List Tile) (ms : List Meld)
    → Answers env
    → All MeldIsSound ms
    → IsStanding hand ms
    → Returns (shanten env hand ms) (λ n. Unit)
unfolding shanten
shanten-Returns env hand ms answers sound standing =
    Returns-bind (melds_to_pack ms) _ (λ pack. length pack ≡ length ms) (λ n. Unit)
      (melds_to_pack-length ms sound)
      λ pack same.
        let (n, e) = answers pack hand (omega (arith, same, standing.0)) standing.1 in rw e tt

is_zero_eq : (n : ℤ) → is_zero n ≡ true → n ≡ pos 0
is_zero_eq (pos n) h = ground arith
is_zero_eq (negsuc n) h = absurd (cc)

module _ (env : Env) (hand : List Tile) (ms : List Meld) (sound : All MeldIsSound ms) where
  -- A tile that the hand waits for: the hand is one tile from a win, fewer than four of the tile
  -- are in it, and the calculator answers for the hand that wins with it.
  pub record IsWait (t : Tile) : Type 0 where
    pub ready : shanten env hand ms ≡ ok (pos 0)
    pub plain : IsPlain t
    pub free : count t hand < 4
    pub pack : List Pack
    pub packed : melds_to_pack ms ≡ ok pack
    pub lines : List FanLine
    pub wins : env.fan_calculator (wait_query pack hand t) ≡ some lines

  waits :
      (pack : List Pack) (t : Tile)
      → shanten env hand ms ≡ ok (pos 0)
      → melds_to_pack ms ≡ ok pack
      → (is_plain t ≡ true) × (completes env pack hand t ≡ true)
      → IsWait t
  waits pack t ready packed h =
      let both : (ltb (count t hand) 4 ≡ true)
          × (answered (env.fan_calculator (wait_query pack hand t)) ≡ true) =
        ground arith in
      let (lines, e) = answered-some (env.fan_calculator (wait_query pack hand t)) both.1 in
      record {
        ready = ready;
        plain = (ground arith, ground arith, ground arith);
        free = ground arith;
        pack = pack;
        packed = packed;
        lines = lines;
        wins = e;
      }

  wait-completes :
      (pack : List Pack) (t : Tile)
      → melds_to_pack ms ≡ ok pack
      → IsWait t
      → completes env pack hand t ≡ true
  wait-completes pack t packed w =
      let same : w.pack ≡ pack = cc in
      let found : env.fan_calculator (wait_query pack hand t) ≡ some w.lines =
        subst (λ q. env.fan_calculator (wait_query q hand t) ≡ some w.lines) same w.wins in
      rw found (ground (arith, w.free))

  -- Where MahjongShanten answers for hands between two turns, every meld fits its type and the hand
  -- is such a hand, `winning_tiles` returns, and lists exactly the tiles for which the hand waits:
  -- the shanten calculator puts it at 0, the tile is no flower, fewer than four of it are in the
  -- hand, and the fan calculator takes the hand with it for a win.
  pub winning_tiles-IsWait :
      Answers env
      → IsStanding hand ms
      → Returns (winning_tiles env hand ms) (λ ts. (t : Tile) → (contains t ts ≡ true) ↔ IsWait t)
  unfolding winning_tiles
  winning_tiles-IsWait answers standing =
      Returns-bind (shanten env hand ms) _ (λ n. Unit × (shanten env hand ms ≡ ok n)) _
        (Returns-self (shanten env hand ms) (λ _. Unit)
          (shanten-Returns env hand ms answers sound standing))
        (λ steps known. elim (Bool-cases (is_zero steps)) [
          | inr far ↦ rw far (λ t. (
            (λ h. absurd (cc)),
            (λ w. let zero_steps : steps ≡ pos 0 = cc in absurd (ground arith)),
          ))
          | inl near ↦
              let ready : shanten env hand ms ≡ ok (pos 0) =
                subst (λ n. shanten env hand ms ≡ ok n) (is_zero_eq steps near) known.1 in
              rw near (
                Returns-bind (melds_to_pack ms) _ (λ pack. Unit × (melds_to_pack ms ≡ ok pack))
                  (λ ts. (t : Tile) → (contains t ts ≡ true) ↔ IsWait t)
                  (Returns-self (melds_to_pack ms) (λ pack. Unit) (melds_to_pack-Returns ms sound))
                  (λ pack packed t. (
                    contains-All IsWait t _ (
                        All-imp _ IsWait _ (λ u. waits pack u ready packed.1)
                          (All-keep _ (completes env pack hand) candidate_tiles candidates-All)),
                    (λ w.
                        contains-keep (completes env pack hand) t candidate_tiles
                          (wait-completes pack t packed.1 w) (contains-candidate_tiles t w.plain)),
                  )))
        ])
