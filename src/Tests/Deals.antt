-- ===== src/Tests/Deals.antt =====
-- A deal with a stand-in for SHA-256, and other runs outside the transitions.
use mahjong_server_bot_zoo.Prelude.{ℕ, ◌≡◌, refl, List, [], arith}
use mahjong_server_bot_zoo.Prelude.Seq.{ok, err, Returns}
use mahjong_server_bot_zoo.Tiles.{Tile, canonical_tile_set}
use mahjong_server_bot_zoo.Rules.{load_ruleset}
use mahjong_server_bot_zoo.Rng.{
  shuffled_wall, shuffle_from, uniform_int, sample_loop, rng_bytes, fill_blocks, to_bytes, swap,
}
use mahjong_server_bot_zoo.Deal.{initial_state}
use mahjong_server_bot_zoo.Deal.Fresh.{IsNewHand, initial_state-IsNewHand}
use mahjong_server_bot_zoo.Claims.{decide_or_default, decided}
use mahjong_server_bot_zoo.Claims.Priority.{rank, decide_or_default_lem}
use mahjong_server_bot_zoo.State.{Action}
use mahjong_server_bot_zoo.Prelude.{zero, suc}
use mahjong_server_bot_zoo.Validate.{validate_state_invariants}
use mahjong_server_bot_zoo.Validate.Sound.{IsCanonical, validate_state_invariants_lem}
use mahjong_server_bot_zoo.Prelude.{All}
use mahjong_server_bot_zoo.Rules.{winning_tiles}
use mahjong_server_bot_zoo.Prelude.Counting.{contains}
use mahjong_server_bot_zoo.Tiles.{tile_eq}
use mahjong_server_bot_zoo.Legality.Waits.{IsWait, winning_tiles-IsWait}
use mahjong_server_bot_zoo.View.Events.{Event}
use mahjong_server_bot_zoo.Tests.Samples.{env, rules, mcr, player, hand_1, hand_2, to_claim}
use mahjong_server_bot_zoo.Prelude.{◌∷◌, ◌⊎◌, ◌↔◌, some, none, true}
use mahjong_server_bot_zoo.Prelude.Int.{pos, negsuc, int_laws}
use mahjong_server_bot_zoo.State.{Terminal, TerminalKind, WinType}
use mahjong_server_bot_zoo.View.{project}
use mahjong_server_bot_zoo.View.Hidden.{Secrets, out, stop, with_secrets, project-hidden}
use mahjong_server_bot_zoo.Match.{new_match, record_hands, next_dealer}
use mahjong_server_bot_zoo.Match.Running.{IsRunning, record_hands-IsRunning}
use mahjong_server_bot_zoo.Match.Dealing.{IsWonBy, next_dealer_lem}
use mahjong_server_bot_zoo.Tiles.{tile, feng, wan}

-- The wall of seed 7: every sample is accepted in its first round.
abbrev pub wall : List Tile × ℕ
unfolding shuffled_wall shuffle_from uniform_int sample_loop rng_bytes fill_blocks to_bytes swap
    canonical_tile_set
wall = elim (shuffled_wall env 1 7) [ ok w ↦ w | err e ↦ ([], 0) ]

pub wall-shuffled_wall : shuffled_wall env 1 7 ≡ ok wall
unfolding shuffled_wall shuffle_from uniform_int sample_loop rng_bytes fill_blocks to_bytes swap
    canonical_tile_set
wall-shuffled_wall = refl

initial_state-IsNewHand_example : Returns (initial_state env 1 rules 7 2 0) (IsNewHand env)
unfolding load_ruleset
initial_state-IsNewHand_example =
    initial_state-IsNewHand env 1 rules 7 2 0 mcr wall (omega arith) (omega arith) refl tt
      wall-shuffled_wall

-- Seat 0 looks while seat 2 holds the tiles of seat 3 and claims something else.
abbrev secrets : Secrets
secrets = record {
  hand = hand_1;
  drawn = tile wan 9;
  claims = [];
  remaining = tile wan 9 ∷ tile wan 8 ∷ tile wan 7 ∷ [];
  rng = record { seed = 5; cursor = 9 };
}

project-hidden_example :
    project (with_secrets to_claim 2 (player 2 hand_2 []) secrets) (some 0)
    ≡ project to_claim (some 0)
project-hidden_example =
    project-hidden to_claim (some 0) 2 (player 2 hand_2 []) secrets refl refl (λ e. cc) refl refl
      (out (λ e. cc) (out (λ e. cc) stop))

abbrev won : Terminal
won = record {
  kind = TerminalKind.hu;
  winner = some 2;
  win_tile = some (tile feng 1);
  win_type = some WinType.discard;
  deal_in_seat = some 0;
  fan = [];
  fan_total = 8;
  score_delta = negsuc 15 ∷ negsuc 7 ∷ pos 32 ∷ negsuc 7 ∷ [];
}

record_hands-IsRunning_example :
    Returns (record_hands new_match (some won ∷ none ∷ [])) (IsRunning (some won ∷ none ∷ []))
record_hands-IsRunning_example =
    record_hands-IsRunning (some won ∷ none ∷ []) (omega int_laws, (omega int_laws, tt))

next_dealer_lem_example :
    ((mcr.dealer_repeat_on_win ≡ true) × IsWonBy 2 (some won) × (next_dealer 2 (some won) mcr ≡ 2))
    ⊎ (¬ ((mcr.dealer_repeat_on_win ≡ true) × IsWonBy 2 (some won))
        × (next_dealer 2 (some won) mcr ≡ 3))
next_dealer_lem_example = next_dealer_lem 2 (some won) mcr (omega arith)

-- Seat 1 claims a run, seat 2 a triplet and seat 3 nothing: seat 2 wins.
abbrev submitted : ℕ → Action
submitted zero = Action.pass
submitted (suc zero) = Action.chi (tile wan 4 ∷ tile wan 5 ∷ tile wan 6 ∷ [])
submitted (suc (suc zero)) = Action.peng (tile wan 5)
submitted seat = Action.pass

decide_or_default_lem_example :
    rank (decide_or_default (decided Action.hu) (Action.pass ∷ []) Action.pass).0 ≡ 4
decide_or_default_lem_example =
    decide_or_default_lem (λ a. rank a ≡ 4) (decided Action.hu) (Action.pass ∷ []) Action.pass
      (refl, tt) refl

validate_state_invariants_lem_example :
    (validate_state_invariants to_claim ≡ ok tt) ↔ All IsCanonical to_claim.seats
validate_state_invariants_lem_example = validate_state_invariants_lem to_claim

winning_tiles-IsWait_example :
    Returns
      (winning_tiles env hand_2 [])
      (λ ts. (t : Tile) → (contains t ts ≡ true) ↔ IsWait env hand_2 [] tt t)
winning_tiles-IsWait_example =
    winning_tiles-IsWait env hand_2 [] tt (λ pack hand h k. (pos 0, refl))
      (
        refl,
        (
          refl,
          (
            refl,
            (
              refl,
              (refl, (refl, (refl, (refl, (refl, (refl, (refl, (refl, (refl, (refl, tt)))))))))),
            ),
          ),
        ),
      )

-- Seat 1 declares a concealed kong and seat 0 looks.
abbrev kong_event : Event (List ℕ)
kong_event = record {
  event = some "CLAIM_DECISION";
  seat = some 1;
  tile = some (tile wan 1);
  decision = some "GANG";
  kind = some "CONCEALED";
  opportunities = none;
  others = [];
}
