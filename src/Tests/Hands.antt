-- ===== src/Tests/Hands.antt =====
-- A hand played by adapters that never answer, and the record of it.
use mahjong_server_bot_zoo.Prelude.{ℕ, ◌≡◌, refl, true, List, [], ◌∷◌, arith}
use mahjong_server_bot_zoo.Prelude.Counting.{contains}
use mahjong_server_bot_zoo.Prelude.Sorting.{sort}
use mahjong_server_bot_zoo.Prelude.Seq.{ok, err, remove, Returns, Ensures}
use mahjong_server_bot_zoo.Tiles.{Tile, tile, feng}
use mahjong_server_bot_zoo.State.{Action, action_eq, GangKind}
use mahjong_server_bot_zoo.Rules.{
  load_ruleset, resolve_config, calculate_fan, melds_to_pack, wind_index, qualified, clear_cliff,
}
use mahjong_server_bot_zoo.Legality.{
  discard_actions, gang_actions, peng_tiles, self_draw_hu_legal, chi_actions, chi_at,
  claim_hu_legal, meld_claims, legal_actions, claim_actions,
}
use mahjong_server_bot_zoo.Legality.Listed.{discard_actions-lists}
use mahjong_server_bot_zoo.Transition.{
  apply_action, apply_play, open_claim_window_or_advance, pending_claims_at, pending_of,
}
use mahjong_server_bot_zoo.Records.Events.{RecordEvent}
use mahjong_server_bot_zoo.Records.{
  decision_of, diff_to_events, opportunities_at, event_to_action, replay_events,
}
use mahjong_server_bot_zoo.Records.Roundtrip.{
  at, event_to_action-decision_of, diff_to_events-replays,
}
use mahjong_server_bot_zoo.Claims.{Answer, timed_out}
use mahjong_server_bot_zoo.Claims.Default.{PromptKind}
use mahjong_server_bot_zoo.Manager.{Table, ask, run_loop, run_hand}
use mahjong_server_bot_zoo.Manager.Prompts.{DoesLegal, ask_turn-DoesLegal}
use mahjong_server_bot_zoo.Manager.Running.{Ended, run_loop-Ended}
use mahjong_server_bot_zoo.Manager.Whole.{IsPlayed, run_hand-IsPlayed}
use mahjong_server_bot_zoo.Tests.Samples.{
  env, rules, mcr, player, hand_0_drawn, to_discard, to_claim, to_discard-IsSound,
}
use mahjong_server_bot_zoo.Tests.Deals.{wall, wall-shuffled_wall}

abbrev silence : ℕ → ℕ → Answer
silence n seat = timed_out

run_hand-IsPlayed_example :
    Returns (run_hand env 1 345 silence 3 (λ i. true) rules 7 2 0) (IsPlayed env 1 rules 7 2)
unfolding load_ruleset
run_hand-IsPlayed_example =
    run_hand-IsPlayed env 1 345 silence 3 (λ i. true) rules 7 2 0 mcr wall (omega arith)
      (omega arith) refl tt wall-shuffled_wall (omega arith)

-- The table of the dealer who has drawn an East wind.
abbrev seated_table : Table
seated_table = record { state = to_discard; strikes = λ i. 0; auto_pass = λ i. true; entries = [] }

run_loop-Ended_example :
    Returns (run_loop env silence 3 60 0 seated_table) (Ended env (to_discard ∷ []) seated_table)
run_loop-Ended_example =
    run_loop-Ended env 3 silence 60 0 seated_table (to_discard ∷ []) to_discard-IsSound
      (omega arith) refl

ask_turn-DoesLegal_example :
    Returns (ask env (silence 0) seated_table PromptKind.discard 0) (DoesLegal env to_discard 0)
ask_turn-DoesLegal_example =
    ask_turn-DoesLegal env (silence 0) seated_table to_discard-IsSound refl (omega arith)

abbrev east : Tile
east = tile feng 1

discard_actions-lists_example :
    Ensures (discard_actions env to_discard 0) (λ l. contains (Action.play east) l ≡ true)
discard_actions-lists_example =
    discard_actions-lists env to_discard 0 (player 0 hand_0_drawn []) east refl refl (omega arith)

event_to_action-decision_of_example :
    event_to_action (decision_of 3 (Action.gang east GangKind.exposed))
    ≡ ok (3, Action.gang east GangKind.exposed)
event_to_action-decision_of_example =
    event_to_action-decision_of 3 (Action.gang east GangKind.exposed) (λ t e. cc)

-- The record of that discard.
abbrev play_east : Action
play_east = Action.play east

play_east-applied : apply_action env to_discard 0 play_east ≡ ok to_claim
unfolding apply_action legal_actions discard_actions gang_actions peng_tiles self_draw_hu_legal
    resolve_config load_ruleset calculate_fan melds_to_pack wind_index apply_play remove sort
    open_claim_window_or_advance pending_claims_at claim_actions claim_hu_legal chi_actions chi_at
    meld_claims qualified clear_cliff pending_of
play_east-applied = refl

abbrev events_of_east : List RecordEvent
unfolding diff_to_events opportunities_at resolve_config load_ruleset calculate_fan melds_to_pack
    wind_index sort claim_actions claim_hu_legal chi_actions chi_at meld_claims qualified
    clear_cliff
events_of_east = elim (diff_to_events env to_discard 0 play_east to_claim) [
  | ok events ↦ events
  | err e ↦ []
]

events_of_east-written : diff_to_events env to_discard 0 play_east to_claim ≡ ok events_of_east
unfolding diff_to_events opportunities_at resolve_config load_ruleset calculate_fan melds_to_pack
    wind_index sort claim_actions claim_hu_legal chi_actions chi_at meld_claims qualified
    clear_cliff
events_of_east-written = refl

diff_to_events-replays_example :
    replay_events env (at to_discard []) events_of_east ≡ ok (at to_claim (to_claim ∷ []))
diff_to_events-replays_example =
    diff_to_events-replays env to_discard to_claim 0 play_east events_of_east [] to_discard-IsSound
      refl play_east-applied events_of_east-written
