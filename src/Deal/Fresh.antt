-- ===== src/Deal/Fresh.antt =====
-- The state that `initial_state` of mahjong/engine/state.py returns.
use mathlib.Core.Path.{subst}
use text.Mathlib.Text.{◌==◌ as str_eq}
use mahjong_server_bot_zoo.Prelude.{
  ℕ, zero, suc, ◌+◌, ◌^◌, ◌<◌, ◌≡◌, ◌≢◌, ◌⊎◌, refl, sym, ap, ◌∙◌, true, false, none, some, inl, inr,
  List, [], ◌∷◌, map, arith, if◌then◌else◌, eqb, leb, length, get_elem?, get_elem?-total,
  get_elem?-set_self, get_elem?-set_ne, set, length-set,
}
use mahjong_server_bot_zoo.Prelude.Int.{pos, ◌+ℤ◌}
use mahjong_server_bot_zoo.Prelude.Counting.{count, sum_by}
use mahjong_server_bot_zoo.Prelude.Rearranged.{Rearranged, Rearranged-count, Rearranged-length}
use mahjong_server_bot_zoo.Prelude.Sorting.{count-sort, length-sort, All-sort}
use mahjong_server_bot_zoo.Prelude.Seq.{
  ok, or_raise, guard, ruleset_error, >>=-ok, Returns, Returns-bind, Returns-Ensures,
}
use mahjong_server_bot_zoo.Tiles.{Tile, tile_eq, tile_le, is_flower, canonical_tile_set}
use mahjong_server_bot_zoo.Tiles.Order.{sort_tiles-is_sorted}
use mahjong_server_bot_zoo.State.{Seat, RuleSetRef, Phase, GameState}
use mahjong_server_bot_zoo.Rules.{Config, Env, manifest, manifest_get, load_ruleset, resolve_config}
use mahjong_server_bot_zoo.Rules.Scoring.ZeroSum.{IsUsable}
use mahjong_server_bot_zoo.Rng.{shuffled_wall}
use mahjong_server_bot_zoo.Rng.Shuffle.{shuffled_wall-Rearranged}
use mahjong_server_bot_zoo.Transition.Invariant.{
  seat_tally, tally, scores, hand_size, HandIsSound, IsSound,
}
use mahjong_server_bot_zoo.Deal.Defs.{
  Hand, Deal, undealt, draw_one, deal_rounds, deal_hands, fresh_seat, fresh_seats, fresh_state,
  initial_state,
}
use mahjong_server_bot_zoo.Deal.Draws.{
  All-at, hand_tally, IsPlain, IsDealing, level, draw_one-IsDealing, HoldsDrawn,
  draw_one-HoldsDrawn, deal_rounds-IsDealing,
}

seat_at :
    (dealer k : ℕ) (hands : List Hand) (i : ℕ) (p : Seat)
    → get_elem? (fresh_seats dealer k hands) i ≡ some p
    → (h : Hand) × (j : ℕ) × (get_elem? hands i ≡ some h) × (p ≡ fresh_seat dealer j h)
seat_at dealer k [] i p e = absurd (cc)
seat_at dealer k (h ∷ hands) zero p e = (h, k, refl, cc)
seat_at dealer k (h ∷ hands) (suc i) p e = seat_at dealer (k + 1) hands i p e

length-fresh_seats :
    (dealer k : ℕ) (hands : List Hand)
    → length (fresh_seats dealer k hands) ≡ length (map (λ h. length h.concealed) hands)
length-fresh_seats dealer k [] = refl
length-fresh_seats dealer k (h ∷ hands) = ap suc (length-fresh_seats dealer (k + 1) hands)

tally-fresh_seats :
    (a : Tile) (dealer k : ℕ) (hands : List Hand)
    → sum_by (seat_tally a) (fresh_seats dealer k hands) ≡ sum_by (hand_tally a) hands
tally-fresh_seats a dealer k [] = refl
tally-fresh_seats a dealer k (h ∷ hands) =
    omega (arith, tally-fresh_seats a dealer (k + 1) hands, count-sort tile_le a h.concealed)

scores-fresh_seats :
    (dealer k : ℕ) (hands : List Hand) → scores (fresh_seats dealer k hands) ≡ pos 0
unfolding ◌+ℤ◌
scores-fresh_seats dealer k [] = refl
scores-fresh_seats dealer k (h ∷ hands) = rw (scores-fresh_seats dealer (k + 1) hands) refl

fresh_seat-HandIsSound : (dealer k : ℕ) (h : Hand) → IsPlain h → HandIsSound (fresh_seat dealer k h)
fresh_seat-HandIsSound dealer k h plain = record {
  melds = tt;
  wind = (refl, omega arith, omega arith);
  in_order = sort_tiles-is_sorted h.concealed;
  no_flower = All-sort tile_le (λ t. is_flower t ≡ false) h.concealed plain;
}

-- 14 tiles for the dealer, 13 for the others.
level_at : (n : ℕ) (i : ℕ) {m : ℕ} → get_elem? (level n) i ≡ some m → m ≡ n
level_at n zero e = cc
level_at n (suc zero) e = cc
level_at n (suc (suc zero)) e = cc
level_at n (suc (suc (suc zero))) e = cc
level_at n (suc (suc (suc (suc i)))) e = absurd (cc)

same_or_not : (i j : ℕ) → ((i ≡ j) × (eqb i j ≡ true)) ⊎ ((j ≢ i) × (eqb i j ≡ false))
same_or_not i j = ground arith

dealt_size :
    (dealer i : ℕ) {m : ℕ}
    → dealer < 4
    → get_elem? (set (level 13) dealer 14) i ≡ some m
    → m ≡ (if eqb i dealer then 14 else 13)
dealt_size dealer i {m} lt e = elim (same_or_not i dealer) [
  | inl (same, here) ↦ rw here (
      let top = get_elem?-set_self (level 13) dealer 14 lt in
      let found : get_elem? (set (level 13) dealer 14) dealer ≡ some m =
        subst (λ j. get_elem? (set (level 13) dealer 14) j ≡ some m) same e in
      cc)
  | inr (other, there) ↦
      rw there (level_at 13 i (sym (get_elem?-set_ne (level 13) dealer i 14 other) ∙ e))
]

-- What `load_ruleset` accepts, the memoised lookup by the same id finds again.
load_ruleset-resolve_config :
    (env : Env) (ref later : RuleSetRef) (config : Config)
    → later.id ≡ ref.id
    → load_ruleset env ref ≡ ok config
    → resolve_config env later ≡ ok config
unfolding load_ruleset resolve_config
load_ruleset-resolve_config env ref later config same e =
    let (expected, e1, r1) = >>=-ok (or_raise (manifest_get ref.id manifest) ruleset_error) _ e in
    let (found, e2, r2) = >>=-ok (or_raise (env.read_config ref.id) ruleset_error) _ r1 in
    let (u, e3, r3) = >>=-ok (guard (str_eq (env.config_hash found) expected) ruleset_error) _ r2 in
    let (v, e4, r4) =
      >>=-ok
        (guard (elim ref.config_hash [ none ↦ true | some h ↦ str_eq h (env.config_hash found) ])
          ruleset_error)
        _ r3 in
    rw (same, e1, e2, e3) r4

-- A new hand for `dealer`: sound, made of the canonical tiles, with no points yet.
pub record IsNewHand (env : Env) (s : GameState) : Type 0 where
  pub sound : IsSound env s
  pub tiles : (a : Tile) → tally a s ≡ count a canonical_tile_set
  pub scored : scores s.seats ≡ pos 0
  pub drawn : s.wall.drawn_count + length s.wall.remaining ≡ 144
  pub going : s.phase ≡ Phase.discard

size_there :
    (hands : List Hand) (i : ℕ) {h : Hand}
    → get_elem? hands i ≡ some h
    → get_elem? (map (λ k. length k.concealed) hands) i ≡ some (length h.concealed)
size_there [] i e = absurd (cc)
size_there (k ∷ hands) zero e = cc
size_there (k ∷ hands) (suc i) e = size_there hands i e

module _ (env : Env) (rules : RuleSetRef) (seed dealer hand_index cursor : ℕ) (config : Config)
    (resolves : resolve_config env rules ≡ ok config) (usable : IsUsable config.conversion)
    (lt : dealer < 4) where
  seat_sound :
      (wall : List Tile) (left : ℕ) (d : Deal)
      → IsDealing wall (set (level 13) dealer 14) left d
      → (i : ℕ) (p : Seat) → get_elem? (fresh_seats dealer 0 d.hands) i ≡ some p
      → HandIsSound p
  seat_sound wall left d h i p e =
      let (g, j, eg, ep) = seat_at dealer 0 d.hands i p e in
      subst HandIsSound (sym ep)
        (fresh_seat-HandIsSound dealer j g (All-at IsPlain d.hands i eg h.plain))

  seat_fits :
      (wall : List Tile) (left : ℕ) (d : Deal)
      → IsDealing wall (set (level 13) dealer 14) left d
      → (i : ℕ) (p : Seat) → get_elem? (fresh_seats dealer 0 d.hands) i ≡ some p
      → hand_size p ≡ (if eqb i dealer then 14 else 13)
  seat_fits wall left d h i p e =
      let (g, j, eg, ep) = seat_at dealer 0 d.hands i p e in
      let same : length g.concealed ≡ (if eqb i dealer then 14 else 13) = dealt_size dealer i lt (
        subst (λ l. get_elem? l i ≡ some (length g.concealed)) h.sized (size_there d.hands i eg)) in
      subst (λ q. hand_size q ≡ (if eqb i dealer then 14 else 13)) (sym ep)
        (rw (length-sort tile_le g.concealed) (omega (arith, same)))

  fresh-held :
      (d : Deal) (t : Tile)
      → HoldsDrawn dealer (d, t)
      → (i : ℕ) (p : Seat) → get_elem? (fresh_seats dealer 0 d.hands) i ≡ some p
      → i ≡ dealer
      → 0 < count t p.concealed
  fresh-held d t held i p e same =
      let (g, j, eg, ep) = seat_at dealer 0 d.hands i p e in
      let eg' : get_elem? d.hands dealer ≡ some g =
        subst (λ k. get_elem? d.hands k ≡ some g) same eg in
      subst (λ (q : Seat). 0 < count t q.concealed) (sym ep)
        (omega (arith, held g eg', count-sort tile_le t g.concealed))

  fresh-IsNewHand :
      (wall : List Tile) (left : ℕ) (d : Deal) (t : Tile)
      → Rearranged wall canonical_tile_set
      → HoldsDrawn dealer (d, t)
      → IsDealing wall (set (level 13) dealer 14) left d
      → IsNewHand env (fresh_state rules seed dealer hand_index cursor d t)
  unfolding canonical_tile_set
  fresh-IsNewHand wall left d t mixed held h = record {
    sound = record {
      table = record {
        four = length-fresh_seats dealer 0 d.hands ∙ rw h.sized (length-set (level 13) dealer 14);
        config = config;
        resolves = resolves;
        usable = usable;
        round = (refl, omega arith, omega arith);
        hands = λ i p e. seat_sound wall left d h i p e;
      };
      sizes = λ i p e. seat_fits wall left d h i p e;
      turn = lt;
      drawn = (refl, λ i p e same. fresh-held d t held i p e same);
      pending = tt;
    };
    tiles = λ a. omega (
      arith,
      h.counts a,
      tally-fresh_seats a dealer 0 d.hands,
      Rearranged-count wall canonical_tile_set mixed a,
    );
    scored = scores-fresh_seats dealer 0 d.hands;
    drawn = h.place ∙ Rearranged-length wall canonical_tile_set mixed;
    going = refl;
  }

level_has : (n i : ℕ) → i < 4 → get_elem? (level n) i ≡ some n
level_has n i h = let (m, e) = get_elem?-total (level n) i h in e ∙ ap some (level_at n i e)

-- 136 of the canonical tiles are for hands; 53 are dealt.
deal_hands-IsDealing :
    (wall : List Tile) (dealer : ℕ)
    → dealer < 4
    → Rearranged wall canonical_tile_set
    → Returns
        (deal_hands wall dealer)
        (λ r. IsDealing wall (set (level 13) dealer 14) 83 r.0 × HoldsDrawn dealer r)
unfolding deal_hands canonical_tile_set
deal_hands-IsDealing wall dealer lt mixed =
    Returns-bind (deal_rounds 13 (undealt wall)) _ (IsDealing wall (level 13) 84) _
      (deal_rounds-IsDealing 13 wall 0 84 (undealt wall) (record {
        counts = λ a. omega arith;
        place = omega arith;
        sized = refl;
        plain = (tt, (tt, (tt, (tt, tt))));
        enough = mixed (λ t. if is_flower t then 0 else 1);
      }))
      (λ d h.
        Returns-Ensures (draw_one d dealer) (λ r. IsDealing wall (set (level 13) dealer 14) 83 r.0)
          (HoldsDrawn dealer)
          (draw_one-IsDealing wall (level 13) 83 d dealer 13 h (level_has 13 dealer lt))
          (draw_one-HoldsDrawn d dealer))

-- For a seed of 128 bits, a dealer among the four seats, a ruleset that `load_ruleset` accepts with
-- a usable conversion block, and fuel with which the shuffle returns, `initial_state` returns a
-- sound state with the 144 canonical tiles on the table, the scores at 0 and every tile that left
-- the wall counted.
pub initial_state-IsNewHand :
    (env : Env) (fuel : ℕ) (ref : RuleSetRef) (seed dealer hand_index : ℕ) (config : Config)
    (shuffled : List Tile × ℕ)
    → seed < 2 ^ 128
    → dealer < 4
    → load_ruleset env ref ≡ ok config
    → IsUsable config.conversion
    → shuffled_wall env fuel seed ≡ ok shuffled
    → Returns (initial_state env fuel ref seed dealer hand_index) (IsNewHand env)
unfolding initial_state
initial_state-IsNewHand env fuel ref seed dealer hand_index config shuffled small lt loaded usable
      shuffles =
    let fits : leb (2 ^ 128) seed ≡ false = ground arith in
    let seated : leb 4 dealer ≡ false = ground arith in
    let mixed = shuffled_wall-Rearranged env fuel seed shuffles in
    rw (fits, seated, loaded, shuffles)
      (Returns-bind (deal_hands shuffled.0 dealer) _
        (λ r. IsDealing shuffled.0 (set (level 13) dealer 14) 83 r.0 × HoldsDrawn dealer r) _
        (deal_hands-IsDealing shuffled.0 dealer lt mixed)
        (λ r h.
          fresh-IsNewHand env _ seed dealer hand_index shuffled.1 config
            (load_ruleset-resolve_config env ref _ config refl loaded) usable lt shuffled.0 83 r.0
            r.1 mixed h.1 h.0))
