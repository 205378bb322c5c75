-- ===== src/Records/Defs/Diff.antt =====
-- mahjong/records/diff.py: the events that an applied action gives rise to.
use mahjong_server_bot_zoo.Prelude.{
  ℕ, Bool, false, not, ◌&&◌, Option, none, some, List, [], ◌∷◌, ◌++◌, eqb, ltb, if◌then◌else◌, ◌==◌,
}
use mahjong_server_bot_zoo.Prelude.Seq.{Result, ok, assertion_error, or_raise, ◌>>=◌}
use mahjong_server_bot_zoo.Tiles.{Tile, tile_eq}
use mahjong_server_bot_zoo.State.{Action, GangKind, LastDrawn, LastDiscard, Phase, GameState}
use mahjong_server_bot_zoo.Rules.{Env}
use mahjong_server_bot_zoo.Legality.{claim_actions}
use mahjong_server_bot_zoo.View.{final_hands_view}
use mahjong_server_bot_zoo.Records.Events.{
  ActionType, type_of, stamp_of, Decision, Resolution, Offered, offered_tile, offered_run,
  Opportunity, RecordEvent,
}

abbrev pub is_drawn : Option LastDrawn → ℕ → Tile → Bool
is_drawn none seat t = false
is_drawn (some d) seat t = eqb d.seat seat && (d.tile == t)

abbrev pub discard_event : GameState → GameState → ℕ → Tile → RecordEvent
discard_event before after seat t =
    RecordEvent.discard (stamp_of after) seat t (not (is_drawn before.last_drawn seat t))

-- The keys that go with the decision.
abbrev pub decision_of : ℕ → Action → Decision
decision_of seat (Action.chi ts) = record {
  seat = seat;
  decision = ActionType.chi;
  chi_tiles = some ts;
  tile = none;
  kind = none;
}
decision_of seat (Action.peng t) = record {
  seat = seat;
  decision = ActionType.peng;
  chi_tiles = none;
  tile = some t;
  kind = none;
}
decision_of seat (Action.gang t kind) = record {
  seat = seat;
  decision = ActionType.gang;
  chi_tiles = none;
  tile = some t;
  kind = some kind;
}
decision_of seat a = record {
  seat = seat;
  decision = type_of a;
  chi_tiles = none;
  tile = none;
  kind = none;
}

abbrev pub claim_decision_event : GameState → ℕ → Action → RecordEvent
claim_decision_event after seat a = RecordEvent.claim_decision (stamp_of after) (decision_of seat a)

abbrev pub resolution_of : ℕ → Action → Resolution
resolution_of seat (Action.chi ts) = record {
  winning_seat = seat;
  winning_claim = ActionType.chi;
  winning_chi_tiles = some ts;
  called_tile = none;
  winning_kind = none;
}
resolution_of seat (Action.peng t) = record {
  winning_seat = seat;
  winning_claim = ActionType.peng;
  winning_chi_tiles = none;
  called_tile = some t;
  winning_kind = none;
}
resolution_of seat (Action.gang t kind) = record {
  winning_seat = seat;
  winning_claim = ActionType.gang;
  winning_chi_tiles = none;
  called_tile = some t;
  winning_kind = some kind;
}
resolution_of seat a = record {
  winning_seat = seat;
  winning_claim = type_of a;
  winning_chi_tiles = none;
  called_tile = none;
  winning_kind = none;
}

abbrev pub claim_resolution_claimed : GameState → ℕ → Action → RecordEvent
claim_resolution_claimed after seat a = RecordEvent.claimed (stamp_of after) (resolution_of seat a)

abbrev pub claim_resolution_passed : GameState → RecordEvent
claim_resolution_passed after = RecordEvent.passed (stamp_of after)

abbrev pub winners_of : Option ℕ → List ℕ
winners_of none = []
winners_of (some winner) = winner ∷ []

unfoldable pub hand_end_event : GameState → Result RecordEvent
hand_end_event after = or_raise after.outcome assertion_error >>= λ t. ok (
    RecordEvent.hand_end (stamp_of after) (record {
      kind = t.kind;
      winner = winners_of t.winner;
      win_tile = t.win_tile;
      win_type = t.win_type;
      deal_in_seat = t.deal_in_seat;
      fan = t.fan;
      fan_total = t.fan_total;
      score_delta = t.score_delta;
      final_hands = final_hands_view after;
    }))

abbrev pub drawn_tile : Option LastDrawn → ℕ → Option Tile
drawn_tile none actor = none
drawn_tile (some d) actor = if eqb d.seat actor then some d.tile else none

abbrev pub draw_event : GameState → RecordEvent
draw_event after =
    RecordEvent.draw (stamp_of after) after.current_actor
      (drawn_tile after.last_drawn after.current_actor)

-- DRAW where a tile was drawn, HAND_END where the hand is over.
unfoldable pub draw_or_end : Phase → GameState → GameState → Result (List RecordEvent)
unfolding hand_end_event
draw_or_end Phase.discard before after =
    ok (if ltb before.wall.drawn_count after.wall.drawn_count then draw_event after ∷ [] else [])
draw_or_end Phase.terminal before after = hand_end_event after >>= λ e. ok (e ∷ [])
draw_or_end phase before after = ok []

abbrev pub offered_of : Action → Tile → Offered
offered_of (Action.chi ts) t = offered_run ts
offered_of a t = offered_tile t

abbrev pub opportunities_of : ℕ → Tile → List Action → List Opportunity
opportunities_of seat t [] = []
opportunities_of seat t (Action.pass ∷ rest) = opportunities_of seat t rest
opportunities_of seat t (a ∷ rest) =
    record { seat = seat; claim = type_of a; offered = offered_of a t }
    ∷ opportunities_of seat t rest

module _ (env : Env) where
  unfoldable pub opportunities_at : GameState → LastDiscard → List ℕ → Result (List Opportunity)
  opportunities_at s last [] = ok []
  opportunities_at s last (seat ∷ seats) =
      let rest = opportunities_at s last seats in
      if eqb seat last.seat then rest else (do
        actions ← claim_actions env s seat
        later ← rest
        ok (opportunities_of seat last.tile actions ++ later))

  abbrev pub opportunities_on : Option LastDiscard → GameState → Result (List Opportunity)
  opportunities_on none s = ok []
  opportunities_on (some last) s = opportunities_at s last (0 ∷ 1 ∷ 2 ∷ 3 ∷ [])

  abbrev pub claim_window_event : GameState → Result RecordEvent
  claim_window_event after = opportunities_on after.last_discard after >>= λ opportunities.
      ok (RecordEvent.claim_window (stamp_of after) opportunities)

  -- `_maybe_append_window_or_draw`, on the phase after the action.
  abbrev pub window_or_draw : Phase → GameState → GameState → Result (List RecordEvent)
  window_or_draw Phase.claim_window before after = claim_window_event after >>= λ e. ok (e ∷ [])
  window_or_draw phase before after = draw_or_end phase before after

-- `_maybe_append_window_close`, on the phases before and after the action.
abbrev pub window_close : Phase → Phase → GameState → GameState → Result (List RecordEvent)
window_close Phase.claim_window Phase.claim_window before after = ok []
window_close Phase.claim_window phase before after =
    draw_or_end phase before after >>= λ more. ok (claim_resolution_passed after ∷ more)
window_close old phase before after = ok []

abbrev pub gang_resolution : GangKind → GameState → ℕ → Tile → List RecordEvent
gang_resolution GangKind.exposed after seat t =
    claim_resolution_claimed after seat (Action.gang t GangKind.exposed) ∷ []
gang_resolution kind after seat t = []

-- The events of one action, from the states before and after it.
unfoldable pub diff_to_events : Env → GameState → ℕ → Action → GameState → Result (List RecordEvent)
unfolding draw_or_end hand_end_event
diff_to_events env before seat (Action.play t) after =
    window_or_draw env after.phase before after >>= λ more.
    ok (discard_event before after seat t ∷ more)
diff_to_events env before seat Action.pass after =
    window_close before.phase after.phase before after >>= λ more.
    ok (claim_decision_event after seat Action.pass ∷ more)
diff_to_events env before seat (Action.gang t kind) after =
    draw_or_end after.phase before after >>= λ more. ok (
      claim_decision_event after seat (Action.gang t kind)
      ∷ (gang_resolution kind after seat t ++ more))
diff_to_events env before seat Action.hu after = hand_end_event after >>= λ e. ok (e ∷ [])
diff_to_events env before seat a after =
    ok (claim_decision_event after seat a ∷ claim_resolution_claimed after seat a ∷ [])
