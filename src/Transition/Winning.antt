-- ===== src/Transition/Winning.antt =====
-- `apply_hu` of mahjong/engine/transition/hu.py.
use mathlib.Core.Path.{subst}
use mahjong_server_bot_zoo.Prelude.{
  ℕ, zero, suc, ◌<◌, ◌≡◌, ◌≢◌, inr, refl, sym, ◌∙◌, Option, none, some, List, [], ◌∷◌, arith,
  eqb_iff, length, get_elem?,
}
use mahjong_server_bot_zoo.Prelude.Int.{ℤ, pos, ◌+ℤ◌, int_laws}
use mahjong_server_bot_zoo.Prelude.Counting.{count, sum_by}
use mahjong_server_bot_zoo.Prelude.Seq.{
  Returns, Returns-bind, or_raise, or_raise-eq, assertion_error, index_error, index, remove,
  remove-Returns, Removed,
}
use mahjong_server_bot_zoo.Tiles.{Tile, tile_eq}
use mahjong_server_bot_zoo.State.{Seat, LastDiscard, LastDrawn, Terminal, Phase, GameState}
use mahjong_server_bot_zoo.Rules.{Env, Config, calculate_fan, fan_sum}
use mahjong_server_bot_zoo.Rules.Scoring.{score_delta}
use mahjong_server_bot_zoo.Rules.Scoring.ZeroSum.{total, IsSettled, IsDealt, score_delta-IsSettled}
use mahjong_server_bot_zoo.Legality.Total.{calculate_fan-Returns}
use mahjong_server_bot_zoo.Transition.{win_in, credit_all, apply_hu}
use mahjong_server_bot_zoo.Transition.Invariant.{
  seat_tally, scores, HandIsSound, EachSeat, IsSound, Continues,
}

pub four_of {ℓ} :
    {A : Type ℓ} (xs : List A) → length xs ≡ 4 → (a b c d : A) × (xs ≡ a ∷ b ∷ c ∷ d ∷ [])
four_of (a ∷ b ∷ c ∷ d ∷ []) h = (a, b, c, d, refl)
four_of [] h = absurd (omega arith)
four_of (a ∷ []) h = absurd (omega arith)
four_of (a ∷ b ∷ []) h = absurd (omega arith)
four_of (a ∷ b ∷ c ∷ []) h = absurd (omega arith)
four_of (a ∷ b ∷ c ∷ d ∷ e ∷ xs) h = absurd (omega arith)

-- The seats differ in their scores alone, and these moved by `delta`.
record Credited (delta : List ℤ) (old new : List Seat) : Type 0 where
  four : length new ≡ 4
  hands : EachSeat (λ i p. HandIsSound p) new
  tiles : (a : Tile) → sum_by (seat_tally a) new ≡ sum_by (seat_tally a) old
  held :
      sum_by (λ (p : Seat). length p.concealed) new ≡ sum_by (λ (p : Seat). length p.concealed) old
  scored : scores new ≡ scores old +ℤ total delta

EachSeat-cons :
    (P : ℕ → Seat → Type 0) (p : Seat) (ps : List Seat)
    → P 0 p
    → EachSeat (λ i q. P (suc i) q) ps
    → EachSeat P (p ∷ ps)
EachSeat-cons P p ps h hs zero q e = let same : p ≡ q = cc in subst (P 0) same h
EachSeat-cons P p ps h hs (suc i) q e = hs i q e

scored-HandIsSound : (p : Seat) (z : ℤ) → HandIsSound p → HandIsSound (record p { score = z })
scored-HandIsSound p z h = record {
  melds = h.melds;
  wind = h.wind;
  in_order = h.in_order;
  no_flower = h.no_flower;
}

credit_four :
    (w x y z : ℤ) (a b c d : Seat)
    → EachSeat (λ i p. HandIsSound p) (a ∷ b ∷ c ∷ d ∷ [])
    → Returns
        (credit_all (w ∷ x ∷ y ∷ z ∷ []) (a ∷ b ∷ c ∷ d ∷ []))
        (Credited (w ∷ x ∷ y ∷ z ∷ []) (a ∷ b ∷ c ∷ d ∷ []))
unfolding credit_all
credit_four w x y z a b c d h = record {
  four = refl;
  hands =
      let b' : Seat = record b { score = b.score +ℤ x } in
      let c' : Seat = record c { score = c.score +ℤ y } in
      let d' : Seat = record d { score = d.score +ℤ z } in
      EachSeat-cons (λ i p. HandIsSound p) _ (b' ∷ c' ∷ d' ∷ [])
        (scored-HandIsSound a (a.score +ℤ w) (h 0 a refl))
        (EachSeat-cons (λ i p. HandIsSound p) _ (c' ∷ d' ∷ [])
          (scored-HandIsSound b (b.score +ℤ x) (h 1 b refl))
          (EachSeat-cons (λ i p. HandIsSound p) _ (d' ∷ [])
            (scored-HandIsSound c (c.score +ℤ y) (h 2 c refl))
            (EachSeat-cons (λ i p. HandIsSound p) _ []
              (scored-HandIsSound d (d.score +ℤ z) (h 3 d refl)) (λ i p e. cc))));
  tiles = λ t. refl;
  held = refl;
  scored = omega int_laws;
}

credit_all-Returns :
    (delta : List ℤ) (seats : List Seat)
    → length delta ≡ 4
    → length seats ≡ 4
    → EachSeat (λ i p. HandIsSound p) seats
    → Returns (credit_all delta seats) (Credited delta seats)
credit_all-Returns delta seats hd hs h =
    let (w, x, y, z, ed) = four_of delta hd in
    let (a, b, c, d, es) = four_of seats hs in
    rw (ed, es) (credit_four w x y z a b c d (rw es at h))

-- The seat may win: on a tile that it drew itself, or on the discard of another seat.
pub data MayWin (s : GameState) (seat : ℕ) (p : Seat) : Type 0 where
  self_drawn :
      (d : LastDrawn)
      → s.phase ≡ Phase.discard
      → s.last_drawn ≡ some d
      → d.seat ≡ seat
      → 0 < count d.tile p.concealed
      → MayWin s seat p
  on_discard :
      (last : LastDiscard)
      → s.phase ≡ Phase.claim_window
      → s.last_discard ≡ some last
      → last.seat < 4
      → seat ≢ last.seat
      → MayWin s seat p

win_in-Returns :
    (s : GameState) (seat : ℕ) (p : Seat)
    → MayWin s seat p
    → Returns (win_in s.phase s seat p) (λ w. IsDealt seat w.win_type w.deal_in_seat)
win_in-Returns s seat p (self_drawn d phase drawn own has) =
    subst (λ ph. Returns (win_in ph s seat p) (λ w. IsDealt seat w.win_type w.deal_in_seat))
      (sym phase)
      (Returns-bind (or_raise s.last_drawn assertion_error) _ (λ x. x ≡ d) _
        (or_raise-eq s.last_drawn assertion_error d drawn)
        λ x same.
          rw (same, (eqb_iff d.seat seat).1 own)
            (Returns-bind (remove d.tile p.concealed) _ (Removed d.tile p.concealed) _
              (remove-Returns d.tile p.concealed has) (λ hand r. tt)))
win_in-Returns s seat p (on_discard last phase opened lt ne) =
    subst (λ ph. Returns (win_in ph s seat p) (λ w. IsDealt seat w.win_type w.deal_in_seat))
      (sym phase)
      (Returns-bind (or_raise s.last_discard assertion_error) _ (λ x. x ≡ last) _
        (or_raise-eq s.last_discard assertion_error last opened) (λ x same. rw same (lt, ne)))

module _ (env : Env) (s : GameState) (sound : IsSound env s) where
  abbrev finished : List Seat → Option Terminal → GameState
  finished seats outcome = record s {
    seats = seats;
    outcome = outcome;
    phase = Phase.terminal;
    last_discard = none;
    last_drawn = none;
    pending_claims = [];
  }

  finished-Continues :
      (delta : List ℤ) (seats : List Seat) (outcome : Option Terminal)
      → total delta ≡ pos 0
      → Credited delta s.seats seats
      → Continues env s (finished seats outcome)
  finished-Continues delta seats outcome cancels g = record {
    sound = record {
      table = record {
        four = g.four;
        config = sound.table.config;
        resolves = sound.table.resolves;
        usable = sound.table.usable;
        round = sound.table.round;
        hands = g.hands;
      };
      sizes = λ i q e. tt;
      turn = tt;
      drawn = tt;
      pending = tt;
    };
    conserves = record {
      tiles = λ a. omega (arith, g.tiles a);
      scored = g.scored ∙ rw cancels (omega int_laws);
    };
    advances = (omega (arith, g.held), inr refl);
  }

-- On a sound state, `apply_hu` for one of the four seats that wins on the tile it drew, or on the
-- open discard of another seat, returns a sound state with the same copies of every tile and the
-- same sum of scores, and with less left to play or the hand over.
pub apply_hu-Continues :
    (env : Env) (s : GameState) (seat : ℕ) (p : Seat)
    → IsSound env s
    → seat < 4
    → get_elem? s.seats seat ≡ some p
    → MayWin s seat p
    → Returns (apply_hu env s seat) (Continues env s)
unfolding apply_hu
apply_hu-Continues env s seat p sound lt found may = rw sound.table.resolves (
    Returns-bind (index s.seats seat) _ (λ q. q ≡ p) (Continues env s)
      (or_raise-eq (get_elem? s.seats seat) index_error p found)
      λ q eq. rw eq (
        let h = sound.table.hands seat p found in
        let c : Config = sound.table.config in
        Returns-bind (win_in s.phase s seat p) _ (λ w. IsDealt seat w.win_type w.deal_in_seat)
          (Continues env s) (win_in-Returns s seat p may)
          λ w dealt.
            Returns-bind
              (calculate_fan env w.hand p.melds w.tile w.win_type p.seat_wind s.round_wind c
                (length p.flowers))
              _ (λ _. Unit) (Continues env s)
              (calculate_fan-Returns env w.hand p.melds w.tile w.win_type p.seat_wind s.round_wind c
                (length p.flowers) h.melds h.wind sound.table.round)
              λ fans _.
                Returns-bind
                  (score_delta seat (fan_sum fans) w.win_type w.deal_in_seat c.conversion) _
                  (IsSettled seat) (Continues env s)
                  (score_delta-IsSettled seat (fan_sum fans) w.win_type w.deal_in_seat c.conversion
                    lt dealt sound.table.usable)
                  λ delta settled.
                    Returns-bind (credit_all delta s.seats) _ (Credited delta s.seats)
                      (Continues env s)
                      (credit_all-Returns delta s.seats settled.four sound.table.four
                        sound.table.hands)
                      (λ seats g. finished-Continues env s sound delta seats _ settled.cancels g)))
