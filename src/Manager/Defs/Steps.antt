-- ===== src/Manager/Defs/Steps.antt =====
-- The steps of `run_hand` of mahjong/table/manager.py. The adapters of the seats are two functions,
-- the failures counted and whether a seat was handed to AutoPassAdapter; what an adapter answers
-- to a prompt is an argument. Sending events to the adapters changes nothing here and is left out.
use mahjong_server_bot_zoo.Prelude.{
  ℕ, ◌+◌, Bool, true, false, ◌||◌, none, some, List, [], ◌∷◌, ◌++◌, map, eqb, ltb, leb,
  if◌then◌else◌, Option,
}
use mahjong_server_bot_zoo.Prelude.Seq.{Result, ok, err, key_error, ◌>>=◌}
use mahjong_server_bot_zoo.State.{Action, PendingClaim, Phase, GameState}
use mahjong_server_bot_zoo.Rules.{Env}
use mahjong_server_bot_zoo.Legality.{legal_actions}
use mahjong_server_bot_zoo.Transition.{apply_action}
use mahjong_server_bot_zoo.View.{project}
use mahjong_server_bot_zoo.Claims.{
  Answer, decided, FailureMeta, success, decide_or_default, resolve_claim_priority,
}
use mahjong_server_bot_zoo.Claims.Default.{PromptKind, default_action}
use mahjong_server_bot_zoo.Records.{diff_to_events, decision_of}
use mahjong_server_bot_zoo.Records.Events.{RecordEvent, stamp_of}

-- An event as written, with what is noted of a failure.
pub record Entry : Type 0 where
  pub event : RecordEvent
  pub failure : FailureMeta
  pub auto_pass : Bool

-- `events[0].update(failure)`
abbrev pub attach : FailureMeta → Bool → List RecordEvent → List Entry
attach failure auto_pass [] = []
attach failure auto_pass (e ∷ es) =
    record { event = e; failure = failure; auto_pass = auto_pass }
    ∷ map (λ later. record { event = later; failure = success; auto_pass = false }) es

pub record Table : Type 0 where
  pub state : GameState
  pub strikes : ℕ → ℕ
  pub auto_pass : ℕ → Bool
  pub entries : List Entry

abbrev pub is_failure : FailureMeta → Bool
is_failure success = false
is_failure failure = true

-- `if failure: strikes[seat] += 1`
abbrev pub strike : Table → ℕ → FailureMeta → Table
strike T seat failure = record T {
  strikes = λ i.
      if eqb i seat
      then (if is_failure failure then T.strikes i + 1 else T.strikes i)
      else T.strikes i;
}

abbrev pub maybe_swap_to_autopass : ℕ → Table → ℕ → Table
maybe_swap_to_autopass limit T seat = record T {
  auto_pass = λ i. T.auto_pass i || (if eqb i seat then leb limit (T.strikes i) else false);
}

-- What the loop reads of a prompt.
pub record Prompt : Type 0 where
  pub legal : List Action
  pub default : Action

module _ (env : Env) where
  unfoldable pub build_prompt : GameState → ℕ → PromptKind → Result Prompt
  build_prompt s seat kind = do
    view ← project s (some seat)
    legal ← legal_actions env s seat
    default ← default_action env s seat kind
    ok (record { legal = legal; default = default })

-- AutoPassAdapter answers with the default action.
abbrev pub answer_of : Bool → Answer → Prompt → Answer
answer_of auto_pass answer prompt = if auto_pass then decided prompt.default else answer

-- What one seat does.
pub record SeatResult : Type 0 where
  pub seat : ℕ
  pub action : Action
  pub failure : FailureMeta

module _ (env : Env) where
  -- One action: apply it and write its events.
  unfoldable pub play_out : Table → SeatResult → (List RecordEvent → List Entry) → Result Table
  play_out T r written = do
    t ← apply_action env T.state r.seat r.action
    events ← diff_to_events env T.state r.seat r.action t
    ok (record T { state = t; entries = T.entries ++ written events })

module _ (env : Env) (answers : ℕ → Answer) where
  unfoldable pub ask : Table → PromptKind → ℕ → Result SeatResult
  unfolding decide_or_default build_prompt
  ask T kind seat = build_prompt env T.state seat kind >>= λ prompt.
      let answer = answer_of (T.auto_pass seat) (answers seat) prompt in
      let (action, failure) = decide_or_default answer prompt.legal prompt.default in
      ok (record { seat = seat; action = action; failure = failure })

  unfoldable pub step_discard : ℕ → Table → Result Table
  unfolding ask play_out
  step_discard limit T = do
    r ← ask T PromptKind.discard T.state.current_actor
    T' ← play_out env (strike T r.seat r.failure) r (attach r.failure (T.auto_pass r.seat))
    ok (maybe_swap_to_autopass limit T' r.seat)

-- `sorted({...})`
abbrev pub insert_new : ℕ → List ℕ → List ℕ
insert_new x [] = x ∷ []
insert_new x (y ∷ ys) =
    let later = insert_new x ys in
    if eqb x y then y ∷ ys else if ltb x y then x ∷ y ∷ ys else y ∷ later

unfoldable pub sorted_set : List ℕ → List ℕ
sorted_set [] = []
sorted_set (x ∷ xs) = insert_new x (sorted_set xs)

abbrev pub claimers_of : List PendingClaim → List ℕ
claimers_of claims = sorted_set (map (λ c. c.seat) claims)

-- `seat_results[seat]`
unfoldable pub lookup_result : ℕ → List SeatResult → Result SeatResult
lookup_result seat [] = err key_error
lookup_result seat (r ∷ rs) =
    let later = lookup_result seat rs in if eqb r.seat seat then ok r else later

-- Its action; PASS stands for a missing key, which the code does not look up.
unfoldable pub action_of : List SeatResult → ℕ → Action
action_of [] seat = Action.pass
action_of (r ∷ rs) seat =
    let later = action_of rs seat in if eqb r.seat seat then r.action else later

abbrev pub strike_all : Table → List SeatResult → Table
strike_all T [] = T
strike_all T (r ∷ rs) = strike_all (strike T r.seat r.failure) rs

abbrev pub swap_all : ℕ → Table → List ℕ → Table
swap_all limit T [] = T
swap_all limit T (seat ∷ seats) = swap_all limit (maybe_swap_to_autopass limit T seat) seats

-- `_make_decision_event`, for every claimer.
abbrev pub decision_entries : Table → List SeatResult → List Entry
decision_entries T [] = []
decision_entries T (r ∷ rs) =
    record {
      event = RecordEvent.claim_decision (stamp_of T.state) (decision_of r.seat r.action);
      failure = r.failure;
      auto_pass = T.auto_pass r.seat;
    }
    ∷ decision_entries T rs

-- The winner's CLAIM_DECISION, which was written before.
abbrev pub drop_decision : List RecordEvent → List RecordEvent
drop_decision [] = []
drop_decision (RecordEvent.claim_decision _ _ ∷ es) = es
drop_decision (e ∷ es) = e ∷ es

module _ (env : Env) (answers : ℕ → Answer) where
  unfoldable pub ask_all : Table → List ℕ → Result (List SeatResult)
  unfolding ask
  ask_all T [] = ok []
  ask_all T (seat ∷ seats) = do
    r ← ask env answers T PromptKind.claim seat
    rs ← ask_all T seats
    ok (r ∷ rs)

-- `state["phase"] == "CLAIM_WINDOW"`
abbrev pub is_window : Phase → Bool
is_window Phase.claim_window = true
is_window phase = false

module _ (env : Env) where
  -- The loop stops when the window has closed.
  unfoldable pub apply_all_pass : Table → List SeatResult → Result Table
  unfolding play_out
  apply_all_pass T [] = ok T
  apply_all_pass T (r ∷ rs) = elim (is_window T.state.phase) [
    | true ↦ play_out env T r (attach r.failure (T.auto_pass r.seat)) >>= λ T'. apply_all_pass T' rs
    | false ↦ ok T
  ]

  abbrev pub apply_winner : Table → List SeatResult → Option (ℕ × Action) → Result Table
  apply_winner T results none = apply_all_pass T results
  apply_winner T results (some (seat, action)) = do
    winner ← lookup_result seat results
    play_out env (record T { entries = T.entries ++ decision_entries T results })
        (record { seat = seat; action = action; failure = winner.failure })
        (λ events. attach winner.failure false (drop_decision events))

module _ (env : Env) (answers : ℕ → Answer) where
  unfoldable pub step_claim_window : ℕ → Table → Result Table
  unfolding ask_all play_out lookup_result apply_all_pass
  step_claim_window limit T = do
    let claimers = claimers_of T.state.pending_claims
    results ← ask_all env answers T claimers
    T' ←
        apply_winner env (strike_all T results) results
          (resolve_claim_priority claimers (action_of results))
    ok (swap_all limit T' claimers)
