-- ===== src/Claims/Defs.antt =====
-- `_resolve_claim_priority` and `_decide_or_default` of mahjong/table/manager.py.
use mahjong_server_bot_zoo.Prelude.{
  ℕ, Bool, true, false, Option, none, some, List, [], ◌∷◌, if◌then◌else◌,
}
use mahjong_server_bot_zoo.Prelude.Counting.{contains}
use mahjong_server_bot_zoo.State.{Action, action_eq, ClaimType}

-- `action["type"] == kind`
abbrev pub is_type : ClaimType → Action → Bool
is_type ClaimType.hu Action.hu = true
is_type ClaimType.peng (Action.peng t) = true
is_type ClaimType.gang (Action.gang t k) = true
is_type ClaimType.chi (Action.chi ts) = true
is_type kind action = false

abbrev pub priority_order : List ClaimType
priority_order = ClaimType.hu ∷ ClaimType.peng ∷ ClaimType.gang ∷ ClaimType.chi ∷ []

-- The inner loop: the first claimer whose action is of this kind.
unfoldable pub first_of : ClaimType → (ℕ → Action) → List ℕ → Option (ℕ × Action)
first_of kind results [] = none
first_of kind results (seat ∷ claimers) =
    let later = first_of kind results claimers in
    if is_type kind (results seat) then some (seat, results seat) else later

abbrev pub or_else : Option (ℕ × Action) → Option (ℕ × Action) → Option (ℕ × Action)
or_else none later = later
or_else (some winner) later = some winner

-- The outer loop.
abbrev pub first_in : List ClaimType → (ℕ → Action) → List ℕ → Option (ℕ × Action)
first_in [] results claimers = none
first_in (kind ∷ kinds) results claimers =
    or_else (first_of kind results claimers) (first_in kinds results claimers)

-- Each claimer has an entry in `seat_results`, here `results`.
unfoldable pub resolve_claim_priority : List ℕ → (ℕ → Action) → Option (ℕ × Action)
unfolding first_of
resolve_claim_priority claimers results = first_in priority_order results claimers

-- How the call of an adapter ended, and what is noted of a failure.
pub data Answer : Type 0 where
  decided : Action → Answer
  timed_out crashed : Answer

pub data FailureMeta : Type 0 where
  success timeout crash : FailureMeta
  illegal : Action → FailureMeta

unfoldable pub decide_or_default : Answer → List Action → Action → Action × FailureMeta
decide_or_default timed_out legal default_action = (default_action, timeout)
decide_or_default crashed legal default_action = (default_action, crash)
decide_or_default (decided action) legal default_action =
    if contains action legal then (action, success) else (default_action, illegal action)
