-- ===== src/Bots/Defs/Policy.antt =====
-- `decide_action` of mahjong/bots/v0.py and the choices of its two phases.
use mahjong_server_bot_zoo.Prelude.{
  ℕ, Bool, true, false, ◌&&◌, ◌||◌, not, Option, none, some, List, [], ◌∷◌, ◌++◌, map, ltb, eqb,
  if◌then◌else◌, length, keep,
}
use mahjong_server_bot_zoo.Prelude.Int.{ℤ}
use mahjong_server_bot_zoo.Prelude.Seq.{
  Result, ok, err, key_error, assertion_error, index, first, remove, ◌>>=◌,
}
use mahjong_server_bot_zoo.Tiles.{Tile, tile_eq, tile_le}
use mahjong_server_bot_zoo.State.{Action, GangKind, Meld, MeldType, Seat, LastDiscard}
use mahjong_server_bot_zoo.Rules.{Config, Env, resolve_config}
use mahjong_server_bot_zoo.Legality.{distinct}
use mahjong_server_bot_zoo.Transition.{remove_run}
use mahjong_server_bot_zoo.View.{SeatView, ViewedSeat, own, opponent}
use mahjong_server_bot_zoo.Claims.Default.{PromptKind, is_play}
use mahjong_server_bot_zoo.Bots.Defs.Measures.{
  lt_ℤ, eq_ℤ, traverse, least, fan_aware_distance, fan_feasible_ukeire,
}

-- An entry of `scored`, and one with its tie-break.
pub record Scored : Type 0 where
  pub distance : ℤ
  pub action : Action
  pub tile : Tile
  pub rem : List Tile

abbrev pub same_distance : ℤ → Scored → Bool
same_distance d s = eq_ℤ s.distance d

-- More ukeire goes first, then the tile that sorts first.
abbrev pub before : ℕ × Scored → ℕ × Scored → Bool
before (m, a) (n, b) = ltb n m || (eqb m n && not (tile_le b.tile a.tile))

abbrev pub is_hu : Action → Bool
is_hu Action.hu = true
is_hu _ = false

abbrev pub is_kong : Action → Bool
is_kong (Action.gang t k) = true
is_kong _ = false

-- The names ADDED, CONCEALED and EXPOSED compare as texts.
abbrev pub kind_index : GangKind → ℕ
kind_index GangKind.added = 0
kind_index GangKind.concealed = 1
kind_index GangKind.exposed = 2

abbrev pub kong_before : Action → Action → Bool
kong_before (Action.gang s j) (Action.gang t k) =
    not (tile_le t s) || (tile_le s t && ltb (kind_index j) (kind_index k))
kong_before _ _ = false

abbrev pub claimed_meld : MeldType → List Tile → Tile → ℕ → Meld
claimed_meld kind tiles called discarder = record {
  kind = kind;
  tiles = tiles;
  called_tile = some called;
  called_from_seat = discarder;
}

unfoldable pub apply_claim :
    Action → List Tile → List Meld → LastDiscard → Result (List Tile × List Meld)
apply_claim (Action.peng t) concealed melds last = remove t concealed >>= λ one_less.
    remove t one_less >>= λ rest.
    ok (rest, melds ++ claimed_meld MeldType.peng (t ∷ t ∷ t ∷ []) t last.seat ∷ [])
apply_claim (Action.chi tiles) concealed melds last =
    remove_run last.tile tiles concealed >>= λ rest.
    ok (rest, melds ++ claimed_meld MeldType.chi tiles last.tile last.seat ∷ [])
apply_claim _ concealed melds last = err key_error

abbrev pub own_seat : ViewedSeat → Result Seat
own_seat (own p) = ok p
own_seat (opponent o) = err key_error

abbrev pub opened : Option LastDiscard → Result LastDiscard
opened none = err assertion_error
opened (some last) = ok last

-- A claim replaces the best one so far only if its distance is smaller.
abbrev pub better : ℤ × Action → Action → Option ℤ → ℤ × Action
better best action none = best
better best action (some reached) = if lt_ℤ reached best.0 then (reached, action) else best

-- No kong is listed: the phase decides.
abbrev pub kong_or : List Action → Result Action → Result Action
kong_or [] otherwise = otherwise
kong_or (kong ∷ kongs) otherwise = least kong_before (kong ∷ kongs)

-- A win that is listed is taken.
abbrev pub win_or : List Action → Result Action → Result Action
win_or [] otherwise = otherwise
win_or (win ∷ wins) otherwise = ok win

module _ (env : Env) where
  module _ (p : Seat) (round_wind : Tile) (config : Config) where
    unfoldable pub distance : List Tile → List Meld → Result ℤ
    unfolding fan_aware_distance
    distance hand melds = fan_aware_distance env p.seat_wind round_wind config hand melds

    unfoldable pub score_play : Action → Result Scored
    unfolding distance
    score_play (Action.play t) = remove t p.concealed >>= λ rest. distance rest p.melds >>= λ d.
        ok (record { distance = d; action = Action.play t; tile = t; rem = rest })
    score_play action = err key_error

    unfoldable pub with_ukeire : Scored → Result (ℕ × Scored)
    unfolding fan_feasible_ukeire
    with_ukeire s = fan_feasible_ukeire env s.rem p.melds >>= λ n. ok (n, s)

    unfoldable pub break_tie : List Scored → Result Action
    unfolding with_ukeire traverse least
    break_tie tied =
        if eqb (length tied) 1
        then (first tied >>= λ s. ok s.action)
        else (traverse with_ukeire tied >>= λ keyed.
            least before keyed >>= λ best. ok best.1.action)

    unfoldable pub discard_choice : List Action → Result Action
    unfolding score_play break_tie traverse least
    discard_choice legal = traverse score_play (keep is_play legal) >>= λ scored.
        least lt_ℤ (map (λ (s : Scored). s.distance) scored) >>= λ best.
        break_tie (keep (same_distance best) scored)

    -- The least distance over the discards that a claim leaves.
    unfoldable pub reachable : LastDiscard → Action → Result ℤ
    unfolding apply_claim traverse least distance
    reachable last action = apply_claim action p.concealed p.melds last >>= λ after.
        traverse (λ d. remove d after.0 >>= λ rest. distance rest after.1) (distinct after.0)
        >>= λ reached. least lt_ℤ reached

    abbrev pub reached_by : LastDiscard → Action → Result (Option ℤ)
    reached_by last (Action.peng t) = reachable last (Action.peng t) >>= λ d. ok (some d)
    reached_by last (Action.chi ts) = reachable last (Action.chi ts) >>= λ d. ok (some d)
    reached_by last action = ok none

    unfoldable pub weigh : LastDiscard → ℤ × Action → List Action → Result (ℤ × Action)
    unfolding reachable
    weigh last best [] = ok best
    weigh last best (action ∷ actions) =
        reached_by last action >>= λ reached. weigh last (better best action reached) actions

    unfoldable pub claim_choice : Option LastDiscard → List Action → Result Action
    unfolding weigh distance
    claim_choice discarded legal = opened discarded >>= λ last.
        distance p.concealed p.melds >>= λ pass_distance.
        weigh last (pass_distance, Action.pass) legal >>= λ best. ok best.1

  unfoldable pub decide_discard : SeatView → List Action → ℕ → Config → Result Action
  unfolding discard_choice
  decide_discard view legal seat config = index view.seats seat >>= λ v.
      own_seat v >>= λ p. discard_choice p view.round_wind config legal

  unfoldable pub decide_claim : SeatView → List Action → ℕ → Config → Result Action
  unfolding claim_choice
  decide_claim view legal seat config = index view.seats seat >>= λ v.
      own_seat v >>= λ p. claim_choice p view.round_wind config view.last_discard legal

  abbrev pub decide_by : PromptKind → SeatView → List Action → ℕ → Config → Result Action
  decide_by PromptKind.claim view legal seat config = decide_claim view legal seat config
  decide_by PromptKind.discard view legal seat config = decide_discard view legal seat config

  unfoldable pub decide_action : SeatView → List Action → ℕ → PromptKind → Result Action
  unfolding decide_discard decide_claim least
  decide_action view legal seat kind = win_or (keep is_hu legal) (
      kong_or (keep is_kong legal)
        (resolve_config env view.rules >>= λ config. decide_by kind view legal seat config))
