-- ===== src/Manager/Defs.antt =====
-- `run_hand` of mahjong/table/manager.py, and the names of the children.
mod Steps
unfoldable pub use Steps.*
use mahjong_server_bot_zoo.Prelude.{
  ℕ, zero, suc, ◌+◌, Bool, true, false, not, none, some, List, [], ◌∷◌, ◌++◌,
}
use mahjong_server_bot_zoo.Prelude.Seq.{Result, ok, err, assertion_error, out_of_fuel, ◌>>=◌}
use mahjong_server_bot_zoo.Tiles.{tile, feng}
use mahjong_server_bot_zoo.State.{RuleSetRef, Phase, GameState}
use mahjong_server_bot_zoo.Rules.{Env}
use mahjong_server_bot_zoo.Deal.{initial_state, wind_rank}
use mahjong_server_bot_zoo.Claims.{Answer, success}
use mahjong_server_bot_zoo.Records.Events.{HeaderSeat, Header, RecordEvent, stamp_of}

abbrev pub is_terminal : Phase → Bool
is_terminal Phase.terminal = true
is_terminal phase = false

-- The step for this phase.
abbrev pub step_in : Env → (ℕ → Answer) → ℕ → Phase → Table → Result Table
step_in env answers limit Phase.discard T = step_discard env answers limit T
step_in env answers limit Phase.claim_window T = step_claim_window env answers limit T
step_in env answers limit phase T = err assertion_error

-- `answers n` is what the adapters would answer in pass `n` of the loop.
unfoldable pub run_loop : Env → (ℕ → ℕ → Answer) → ℕ → ℕ → ℕ → Table → Result Table
run_loop env answers limit zero n T = elim (is_terminal T.state.phase) [
  | true ↦ ok T
  | false ↦ err out_of_fuel
]
run_loop env answers limit (suc fuel) n T = elim (is_terminal T.state.phase) [
  | true ↦ ok T
  | false ↦ step_in env (answers n) limit T.state.phase T >>= λ T'.
      run_loop env answers limit fuel (n + 1) T'
]

abbrev pub header_seats : ℕ → List ℕ → List HeaderSeat
header_seats dealer_seat [] = []
header_seats dealer_seat (i ∷ seats) =
    record { seat = i; wind = some (tile feng (wind_rank dealer_seat i)) }
    ∷ header_seats dealer_seat seats

abbrev pub header_of : RuleSetRef → ℕ → ℕ → ℕ → RecordEvent
header_of rules seed dealer_seat hand_index_in_match = RecordEvent.header (record {
  rules = rules;
  seed = seed;
  hand_index_in_match = hand_index_in_match;
  seats = header_seats dealer_seat (0 ∷ 1 ∷ 2 ∷ 3 ∷ []);
})

-- The table before the loop; an adapter that is not seated in time is replaced.
abbrev pub opened_table : GameState → RecordEvent → (ℕ → Bool) → Table
opened_table s head seated = record {
  state = s;
  strikes = λ i. 0;
  auto_pass = λ i. not (seated i);
  entries = record { event = head; failure = success; auto_pass = false } ∷ [];
}

abbrev pub with_footer : Table → Table
with_footer T = record T {
  entries =
      T.entries
      ++ record {
        event = RecordEvent.footer (stamp_of T.state) T.state.rng.cursor;
        failure = success;
        auto_pass = false;
      }
        ∷ [];
}

-- `fuel` is for the sampling of the shuffle, `passes` for the loop.
unfoldable pub run_hand :
    Env
    → (fuel passes : ℕ) → (ℕ → ℕ → Answer)
    → (strike_limit : ℕ) → (seated : ℕ → Bool) → RuleSetRef
    → (seed dealer_seat hand_index_in_match : ℕ) → Result Table
unfolding run_loop
run_hand env fuel passes answers limit seated rules seed dealer_seat hand_index_in_match =
    initial_state env fuel rules seed dealer_seat 0 >>= λ s.
    run_loop env answers limit passes 0
      (opened_table s (header_of rules seed dealer_seat hand_index_in_match) seated)
    >>= λ T. ok (with_footer T)
