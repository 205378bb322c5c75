-- ===== src/Tests/Bots.antt =====
-- The bot of mahjong/bots/v0.py at the table in play.
use mahjong_server_bot_zoo.Prelude.{◌≡◌, refl, true, some, List, [], ◌∷◌, arith}
use mahjong_server_bot_zoo.Prelude.Int.{pos}
use mahjong_server_bot_zoo.Legality.Waits.{Answers}
use mahjong_server_bot_zoo.Prelude.Counting.{contains}
use mahjong_server_bot_zoo.Prelude.Seq.{Result, ok, err, Returns, remove}
use mahjong_server_bot_zoo.Tiles.{tile, feng}
use mahjong_server_bot_zoo.State.{Action, action_eq, Seat}
use mahjong_server_bot_zoo.Legality.{
  legal_actions, discard_actions, gang_actions, peng_tiles, self_draw_hu_legal, claim_actions,
  meld_claims, chi_actions, chi_at, claim_hu_legal,
}
use mahjong_server_bot_zoo.Rules.{
  resolve_config, load_ruleset, calculate_fan, melds_to_pack, wind_index,
}
use mahjong_server_bot_zoo.Transition.Invariant.{HandIsSound}
use mahjong_server_bot_zoo.View.{view_of}
use mahjong_server_bot_zoo.Claims.Default.{PromptKind}
use mahjong_server_bot_zoo.Bots.{decide_action, discard_choice, claim_choice}
use mahjong_server_bot_zoo.Bots.Discarding.{IsClosest, discard_choice-Returns}
use mahjong_server_bot_zoo.Bots.Claiming.{IsChosen, claim_choice-Returns}
use mahjong_server_bot_zoo.Bots.Deciding.{decide_discard-listed, decide_claim-listed}
use mahjong_server_bot_zoo.Tests.Samples.{
  env, mcr, player, hand_0_drawn, hand_2, to_discard, to_claim, to_discard-IsSound,
  to_claim-IsSound, discarded,
}

answers : Answers env
answers pack hand h k = (pos 0, refl)

abbrev listed : Result (List Action) → List Action
listed (ok legal) = legal
listed (err e) = []

abbrev on_turn : List Action
on_turn = listed (legal_actions env to_discard 0)

abbrev in_window : List Action
in_window = listed (legal_actions env to_claim 2)

on_turn_listed : legal_actions env to_discard 0 ≡ ok on_turn
unfolding legal_actions discard_actions gang_actions peng_tiles resolve_config load_ruleset
    self_draw_hu_legal remove calculate_fan melds_to_pack wind_index
on_turn_listed = refl

in_window_listed : legal_actions env to_claim 2 ≡ ok in_window
unfolding legal_actions claim_actions meld_claims chi_actions chi_at resolve_config load_ruleset
    claim_hu_legal calculate_fan melds_to_pack wind_index
in_window_listed = refl

decide_discard-listed_example :
    Returns
      (decide_action env (view_of to_discard (some 0)) on_turn 0 PromptKind.discard)
      (λ a. contains a on_turn ≡ true)
decide_discard-listed_example =
    decide_discard-listed env answers to_discard to_discard-IsSound on_turn refl (omega arith)
      on_turn_listed

decide_claim-listed_example :
    Returns
      (decide_action env (view_of to_claim (some 2)) in_window 2 PromptKind.claim)
      (λ a. contains a in_window ≡ true)
decide_claim-listed_example =
    decide_claim-listed env answers to_claim to_claim-IsSound 2 in_window discarded refl refl
      (omega arith) (omega arith) in_window_listed

dealer_sound : HandIsSound (player 0 hand_0_drawn [])
dealer_sound = to_discard-IsSound.table.hands 0 (player 0 hand_0_drawn []) refl

abbrev two_discards : List Action
two_discards = Action.play (tile feng 1) ∷ Action.play (tile feng 1) ∷ []

discard_choice-Returns_example :
    Returns
      (discard_choice env (player 0 hand_0_drawn []) to_discard.round_wind mcr two_discards)
      (λ a.
        (contains a two_discards ≡ true)
        × IsClosest env (player 0 hand_0_drawn []) to_discard.round_wind mcr two_discards a)
discard_choice-Returns_example =
    discard_choice-Returns env answers (player 0 hand_0_drawn []) to_discard.round_wind mcr
      dealer_sound to_discard-IsSound.table.round refl (λ a. contains a two_discards ≡ true)
      two_discards (refl, (refl, tt)) (omega arith, (omega arith, tt)) (omega arith)

abbrev claimer : Seat
claimer = player 2 hand_2 []

claimer_sound : HandIsSound claimer
claimer_sound = to_claim-IsSound.table.hands 2 claimer refl

abbrev one_claim : List Action
one_claim = Action.pass ∷ Action.peng (tile feng 1) ∷ []

claim_choice-Returns_example :
    Returns (claim_choice env claimer to_claim.round_wind mcr (some discarded) one_claim) (λ a.
      (contains a one_claim ≡ true)
      × IsChosen env claimer to_claim.round_wind mcr discarded one_claim a)
claim_choice-Returns_example =
    claim_choice-Returns env answers claimer to_claim.round_wind mcr claimer_sound
      to_claim-IsSound.table.round refl discarded (λ a. contains a one_claim ≡ true) one_claim
      (some discarded) refl refl (refl, (refl, tt)) (tt, (omega arith, tt))
