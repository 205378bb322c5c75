-- ===== src/Manager/Whole.antt =====
-- `run_hand` of mahjong/table/manager.py as a whole, and `replay` of mahjong/records/replay.py on
-- the record that it writes.
use mahjong_server_bot_zoo.Prelude.{
  ℕ, zero, suc, ◌^◌, ◌<◌, ◌≤◌, ◌≡◌, refl, ◌∙◌, Bool, List, [], ◌∷◌, ◌++◌, arith, length,
}
use mahjong_server_bot_zoo.Prelude.Int.{pos}
use mahjong_server_bot_zoo.Prelude.Counting.{count, sum_by}
use mahjong_server_bot_zoo.Prelude.Seq.{ok, Returns, Returns-bind, Returns-ok, Ensures-ok}
use mahjong_server_bot_zoo.Tiles.{Tile, tile_eq, canonical_tile_set}
use mahjong_server_bot_zoo.State.{Seat, Phase, RuleSetRef, GameState}
use mahjong_server_bot_zoo.Rules.{Config, Env, load_ruleset}
use mahjong_server_bot_zoo.Rules.Scoring.ZeroSum.{IsUsable}
use mahjong_server_bot_zoo.Rng.{shuffled_wall}
use mahjong_server_bot_zoo.Deal.{initial_state}
use mahjong_server_bot_zoo.Deal.Fresh.{IsNewHand, initial_state-IsNewHand}
use mahjong_server_bot_zoo.Transition.Invariant.{tally, scores, work, EachSeat, IsSound}
use mahjong_server_bot_zoo.Transition.Seats.{discard_sizes}
use mahjong_server_bot_zoo.Transition.Winning.{four_of}
use mahjong_server_bot_zoo.Records.Events.{RecordEvent, stamp_of}
use mahjong_server_bot_zoo.Records.{
  Replaying, dealer_seat_from, replay_header, replay_event, replay_events, replay,
}
use mahjong_server_bot_zoo.Records.Roundtrip.{at}
use mahjong_server_bot_zoo.Records.History.{IsHistory, start, replay_events-Keeps}
use mahjong_server_bot_zoo.Claims.{Answer}
use mahjong_server_bot_zoo.Manager.{
  Table, run_loop, header_seats, header_of, opened_table, with_footer, run_hand,
}
use mahjong_server_bot_zoo.Manager.Playing.{events_of, events_of-append, replay_events-append}
use mahjong_server_bot_zoo.Manager.Running.{Ended, run_loop-Ended}

-- The header names the dealer by its East wind.
pub dealer_seat_from-header :
    (dealer : ℕ) → dealer < 4 → dealer_seat_from (header_seats dealer (0 ∷ 1 ∷ 2 ∷ 3 ∷ [])) ≡ dealer
unfolding dealer_seat_from
dealer_seat_from-header zero lt = refl
dealer_seat_from-header (suc zero) lt = refl
dealer_seat_from-header (suc (suc zero)) lt = refl
dealer_seat_from-header (suc (suc (suc zero))) lt = refl
dealer_seat_from-header (suc (suc (suc (suc n)))) lt = absurd (omega arith)

-- Four hands of at most 14 tiles.
hands_held :
    (seats : List Seat)
    → length seats ≡ 4
    → EachSeat (λ i p. length p.concealed ≤ 14) seats
    → sum_by (λ (p : Seat). length p.concealed) seats ≤ 56
hands_held seats four h =
    let (a, b, c, d, e) = four_of seats four in
    let k : EachSeat (λ i p. length p.concealed ≤ 14) (a ∷ b ∷ c ∷ d ∷ []) = rw e at h in
    rw e (omega (arith, k 0 a refl, k 1 b refl, k 2 c refl, k 3 d refl))

-- The most that is left to play when a hand begins.
new_hand-work : (env : Env) (s : GameState) → IsNewHand env s → work s ≤ 344
new_hand-work env s h =
    let held : sum_by (λ (p : Seat). length p.concealed) s.seats ≤ 56 =
      hands_held s.seats h.sound.table.four (λ i p e.
        let size = discard_sizes env s h.sound s.current_actor h.going refl i p e in
        ground arith) in
    omega (arith, held, h.drawn)

-- What is known of a hand that was played and recorded.
pub record IsPlayed (env : Env) (fuel : ℕ) (rules : RuleSetRef) (seed dealer : ℕ) (T : Table)
    : Type 0 where
  pub sound : IsSound env T.state
  pub over : T.state.phase ≡ Phase.terminal
  pub tiles : (a : Tile) → tally a T.state ≡ count a canonical_tile_set
  pub scored : scores T.state.seats ≡ pos 0
  pub dealt : GameState
  pub deals : initial_state env fuel rules seed dealer 0 ≡ ok dealt
  pub replayed :
      Returns
        (replay env fuel (events_of T.entries))
        (λ yielded. IsHistory env dealt yielded T.state)

module _ (env : Env) (fuel : ℕ) (rules : RuleSetRef) (seed dealer hand_index : ℕ)
    (seated : ℕ → Bool) (s : GameState) (lt : dealer < 4)
    (deals : initial_state env fuel rules seed dealer 0 ≡ ok s) (fresh : IsNewHand env s) where
  -- The whole record: the header, what the loop wrote and the footer.
  record_of :
      (T : Table) (written : List RecordEvent)
      → events_of T.entries
        ≡ events_of (opened_table s (header_of rules seed dealer hand_index) seated).entries
          ++ written
      → events_of (with_footer T).entries
        ≡ header_of rules seed dealer hand_index
          ∷ (written ++ RecordEvent.footer (stamp_of T.state) T.state.rng.cursor ∷ [])
  record_of T written grows = events_of-append T.entries _ ∙ rw grows refl

  footer_informs :
      (T : Table) (zs : List GameState) (written : List RecordEvent) (r : Replaying)
      → replay_events env r written ≡ ok (at T.state zs)
      → replay_events env r
          (written ++ RecordEvent.footer (stamp_of T.state) T.state.rng.cursor ∷ [])
        ≡ ok (at T.state zs)
  unfolding replay_events replay_event
  footer_informs T zs written r reads = replay_events-append env written _ r ∙ rw reads refl

  finish-IsPlayed :
      (T : Table)
      → Ended env (s ∷ []) (opened_table s (header_of rules seed dealer hand_index) seated) T
      → IsPlayed env fuel rules seed dealer (with_footer T)
  unfolding replay replay_header
  finish-IsPlayed T e = record {
    sound = e.sound;
    over = e.over;
    tiles = λ a. e.conserves.tiles a ∙ fresh.tiles a;
    scored = e.conserves.scored ∙ fresh.scored;
    dealt = s;
    deals = deals;
    replayed =
        rw
          (
            record_of T e.written e.grows,
            dealer_seat_from-header dealer lt,
            deals,
            footer_informs T e.zs e.written (at s (s ∷ [])) e.reads,
          )
          (Ensures-ok (replay_events env (at s (s ∷ [])) e.written) _
            (replay_events-Keeps env s e.written (at s (s ∷ [])) start) e.reads);
  }

-- For a seed of 128 bits, a dealer among the four seats, a ruleset that `load_ruleset` accepts with
-- a usable conversion block and fuel with which the shuffle returns: whatever the adapters answer,
-- time out or crash, and whatever the strike limit, `run_hand` ends within 345 passes of its loop.
-- It ends in a terminal, sound state that has the 144 canonical tiles and the sum of scores 0, and
-- `replay` of the record that it wrote returns a list of states that leads from the state that
-- `initial_state` deals to that state, each later entry being what an action made of the one before.
pub run_hand-IsPlayed :
    (env : Env) (fuel passes : ℕ) (answers : ℕ → ℕ → Answer) (limit : ℕ) (seated : ℕ → Bool)
    (rules : RuleSetRef) (seed dealer hand_index : ℕ) (config : Config) (shuffled : List Tile × ℕ)
    → seed < 2 ^ 128
    → dealer < 4
    → load_ruleset env rules ≡ ok config
    → IsUsable config.conversion
    → shuffled_wall env fuel seed ≡ ok shuffled
    → 345 ≤ passes
    → Returns
        (run_hand env fuel passes answers limit seated rules seed dealer hand_index)
        (IsPlayed env fuel rules seed dealer)
unfolding run_hand
run_hand-IsPlayed env fuel passes answers limit seated rules seed dealer hand_index config shuffled
      small lt loaded usable shuffles enough =
    let (s, deals, fresh) =
      Returns-ok (initial_state env fuel rules seed dealer 0) (IsNewHand env) (
        initial_state-IsNewHand env fuel rules seed dealer 0 config shuffled small lt loaded usable
          shuffles) in
    let T : Table = opened_table s (header_of rules seed dealer hand_index) seated in
    let left = new_hand-work env s fresh in
    rw deals (
      Returns-bind (run_loop env answers limit passes 0 T) _ (Ended env (s ∷ []) T)
        (IsPlayed env fuel rules seed dealer)
        (run_loop-Ended env limit answers passes 0 T (s ∷ []) fresh.sound (omega arith) refl)
        (λ T' e.
          finish-IsPlayed env fuel rules seed dealer hand_index seated s lt deals fresh T' e))
