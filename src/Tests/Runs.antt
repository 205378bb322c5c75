-- ===== src/Tests/Runs.antt =====
-- The theorems at the table of Samples: the dealer discards an East wind, seat 2 claims it.
use mahjong_server_bot_zoo.Prelude.{
  ℕ, ◌≡◌, ◌≤◌, ◌<◌, ◌⊎◌, ◌≢◌, refl, some, none, [], ◌∷◌, arith, eqb, All,
}
use mahjong_server_bot_zoo.Prelude.Seq.{ok, remove, Returns}
use mahjong_server_bot_zoo.Tiles.{Tile, tile, feng, wan, jian, tile_eq}
use mahjong_server_bot_zoo.State.{Action, Seat, WinType, Phase}
use mahjong_server_bot_zoo.Rules.{
  resolve_config, load_ruleset, calculate_fan, melds_to_pack, wind_index,
}
use mahjong_server_bot_zoo.Rules.{qualified, clear_cliff}
use mahjong_server_bot_zoo.Prelude.Sorting.{sort}
use mahjong_server_bot_zoo.Rules.Scoring.{score_delta}
use mahjong_server_bot_zoo.Rules.Scoring.ZeroSum.{IsSettled, score_delta-IsSettled}
use mahjong_server_bot_zoo.Legality.{
  gang_actions, peng_tiles, self_draw_hu_legal, chi_actions, chi_at, claim_hu_legal, meld_claims,
  legal_actions, discard_actions, claim_actions,
}
use mahjong_server_bot_zoo.Legality.Justified.{
  MayDiscard, discard_actions-All, MayClaim, claim_actions-All,
}
use mahjong_server_bot_zoo.Transition.{
  open_claim_window_or_advance, pending_claims_at, pending_of, apply_action, apply_play, apply_hu,
  internal_draw, apply_peng, gang_concealed,
}
use mahjong_server_bot_zoo.Transition.Invariant.{tally, scores, work, IsSound, Continues}
use mahjong_server_bot_zoo.Transition.Correct.{
  ReturnsOrIllegal, Permitted, legal_actions-Permitted, apply_action-IsSound,
  apply_action-Conserves, apply_action-work,
}
use mahjong_server_bot_zoo.Transition.Winning.{MayWin, apply_hu-Continues}
use mahjong_server_bot_zoo.Transition.Claiming.{apply_peng-Continues, apply_pass-Settles}
use mahjong_server_bot_zoo.Transition.Kongs.{gang_concealed-Continues}
use mahjong_server_bot_zoo.Transition.Claimed.{Takes}
use mahjong_server_bot_zoo.Transition.Removing.{chi-Takes}
use mahjong_server_bot_zoo.Transition.{apply_pass, remove_run}
use mahjong_server_bot_zoo.Legality.{run_from}
use mahjong_server_bot_zoo.Legality.Justified.{ChiFits}
use mahjong_server_bot_zoo.Legality.Total.{calculate_fan-Returns}
use mahjong_server_bot_zoo.Transition.Discarding.{apply_play-Continues, Settles}
use mahjong_server_bot_zoo.Transition.Drawing.{internal_draw-Continues}
use mahjong_server_bot_zoo.Tests.Samples.{
  env, player, hand_0_drawn, hand_2, mcr, to_discard, to_claim, between, discarded,
  to_discard-TableIsSound, to_claim-TableIsSound, to_discard-IsSound, to_claim-IsSound,
  between-IsReady,
}

abbrev east : Tile
east = tile feng 1

-- The dealer discards the tile it drew.
abbrev play_east : Action
play_east = Action.play east

apply_action-IsSound_example :
    ReturnsOrIllegal (apply_action env to_discard 0 play_east) (IsSound env)
apply_action-IsSound_example =
    apply_action-IsSound env to_discard 0 play_east to_discard-IsSound (omega arith)

play_east-ok : apply_action env to_discard 0 play_east ≡ ok to_claim
unfolding apply_action legal_actions discard_actions gang_actions peng_tiles resolve_config
    load_ruleset self_draw_hu_legal remove calculate_fan melds_to_pack wind_index sort apply_play
    open_claim_window_or_advance pending_claims_at claim_actions chi_actions chi_at claim_hu_legal
    meld_claims qualified clear_cliff pending_of
play_east-ok = refl

apply_action-Conserves_example :
    ((x : Tile) → tally x to_claim ≡ tally x to_discard)
    × (scores to_claim.seats ≡ scores to_discard.seats)
apply_action-Conserves_example =
    apply_action-Conserves env to_discard 0 play_east to_claim to_discard-IsSound (omega arith)
      play_east-ok

apply_action-work_example :
    (work to_claim ≤ work to_discard)
    × (play_east ≢ Action.pass
        → (work to_claim < work to_discard) ⊎ (to_claim.phase ≡ Phase.terminal))
apply_action-work_example =
    apply_action-work env to_discard 0 play_east to_claim to_discard-IsSound (omega arith)
      play_east-ok

abbrev claimer : Seat
claimer = player 2 hand_2 []

abbrev dealer : Seat
dealer = player 0 hand_0_drawn []

legal_actions-Permitted_example :
    Returns (legal_actions env to_claim 2) (All (Permitted env to_claim 2 claimer))
legal_actions-Permitted_example =
    legal_actions-Permitted env to_claim to_claim-IsSound 2 claimer refl (omega arith)

discard_actions-All_example :
    Returns
      (discard_actions env to_discard 0)
      (All (λ a. (to_discard.current_actor ≡ 0) × MayDiscard env to_discard 0 dealer a))
discard_actions-All_example =
    discard_actions-All env to_discard 0 dealer to_discard-TableIsSound refl

claim_actions-All_example :
    Returns
      (claim_actions env to_claim 2)
      (All (λ a. (◌≢◌ {A = ℕ} 2 0) × MayClaim env to_claim (eqb 2 1) east claimer a))
claim_actions-All_example =
    claim_actions-All env to_claim 2 claimer discarded to_claim-TableIsSound refl refl

apply_play-Continues_example : Returns (apply_play env to_discard 0 east) (Continues env to_discard)
apply_play-Continues_example =
    apply_play-Continues env to_discard 0 east dealer to_discard-IsSound refl refl (omega arith)
      refl (omega arith)

apply_peng-Continues_example : Returns (apply_peng to_claim 2 east) (Continues env to_claim)
apply_peng-Continues_example =
    apply_peng-Continues env to_claim discarded 2 claimer to_claim-IsSound refl refl (λ e. cc)
      (omega arith) refl east refl (omega arith)

gang_concealed-Continues_example :
    Returns (gang_concealed to_discard 0 (tile wan 1)) (Continues env to_discard)
gang_concealed-Continues_example =
    gang_concealed-Continues env to_discard 0 dealer to_discard-IsSound refl refl (omega arith) refl
      refl (tile wan 1) refl

apply_pass-Settles_example : Returns (apply_pass to_claim 2) (Settles env to_claim)
apply_pass-Settles_example = apply_pass-Settles env to_claim discarded to_claim-IsSound refl refl 2

apply_hu-Continues_example : Returns (apply_hu env to_claim 2) (Continues env to_claim)
apply_hu-Continues_example =
    apply_hu-Continues env to_claim 2 claimer to_claim-IsSound (omega arith) refl
      (MayWin.on_discard discarded refl refl (omega arith) (λ e. cc))

internal_draw-Continues_example : Returns (internal_draw between 3) (Continues env between)
internal_draw-Continues_example =
    internal_draw-Continues env between 3 between-IsReady (omega arith) refl

score_delta-IsSettled_example :
    Returns (score_delta 2 8 WinType.discard (some 0) none) (IsSettled 2)
score_delta-IsSettled_example =
    score_delta-IsSettled 2 8 WinType.discard (some 0) none (omega arith) (omega arith, λ e. cc) tt

-- 4-5-6 of characters around a discarded 5.
middle_run : ChiFits (tile wan 5) (tile wan 4 ∷ tile wan 6 ∷ tile jian 1 ∷ []) (run_from wan 4)
middle_run = record {
  start = 4;
  run = refl;
  suited = tt;
  low = omega arith;
  high = omega arith;
  from_start = omega arith;
  to_end = omega arith;
  held = ground arith;
}

chi-Takes_example :
    Returns
      (remove_run (tile wan 5) (run_from wan 4) (tile wan 4 ∷ tile wan 6 ∷ tile jian 1 ∷ []))
      (λ rest.
        Takes 2 (tile wan 5) (tile wan 4 ∷ tile wan 6 ∷ tile jian 1 ∷ []) rest (run_from wan 4))
chi-Takes_example =
    chi-Takes (tile wan 5) (tile wan 4 ∷ tile wan 6 ∷ tile jian 1 ∷ []) (run_from wan 4) middle_run

calculate_fan-Returns_example :
    Returns (calculate_fan env hand_2 [] east WinType.discard (tile feng 3) east mcr 0) (λ _. Unit)
calculate_fan-Returns_example =
    calculate_fan-Returns env hand_2 [] east WinType.discard (tile feng 3) east mcr 0 tt
      (refl, omega arith, omega arith) (refl, omega arith, omega arith)
