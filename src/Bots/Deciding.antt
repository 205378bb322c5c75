-- ===== src/Bots/Deciding.antt =====
-- `decide_action` of mahjong/bots/v0.py on a seat's own view of a state: it answers, and legally.
use mathlib.Core.Path.{subst}
use mahjong_server_bot_zoo.Prelude.{
  ℕ, zero, suc, ◌+◌, ◌%◌, ◌<◌, ◌≡◌, ◌≢◌, Bool, true, some, List, [], ◌∷◌, arith, eqb, get_elem?,
  get_elem?-total, length, keep, All, All-imp,
}
use mahjong_server_bot_zoo.Prelude.Counting.{count, contains, count-contains}
use mahjong_server_bot_zoo.Prelude.Every.{All-keep, All-count}
use mahjong_server_bot_zoo.Prelude.Seq.{Result, ok, Returns, Returns-imp, Returns-at, Ensures-ok}
use mahjong_server_bot_zoo.Tiles.{Tile, tile_eq}
use mahjong_server_bot_zoo.State.{Action, action_eq, Seat, LastDiscard, Phase, GameState}
use mahjong_server_bot_zoo.Rules.{Env}
use mahjong_server_bot_zoo.Legality.{legal_actions, claim_actions, discard_actions}
use mahjong_server_bot_zoo.Legality.Justified.{
  MayDiscard, MayClaim, claim_actions-All, discard_actions-All,
}
use mahjong_server_bot_zoo.Legality.Listed.{claim_actions-lists}
use mahjong_server_bot_zoo.View.{own, seats_view, view_of}
use mahjong_server_bot_zoo.Claims.Default.{PromptKind, is_play}
use mahjong_server_bot_zoo.Manager.Prompts.{actions_at, turn_lists, some_tile, turn_size}
use mahjong_server_bot_zoo.Transition.Invariant.{IsSound}
use mahjong_server_bot_zoo.Transition.Seats.{claim_sizes}
use mahjong_server_bot_zoo.Bots.{
  is_hu, is_kong, kong_before, win_or, kong_or, decide_discard, decide_claim, decide_action,
  discard_choice, claim_choice,
}
use mahjong_server_bot_zoo.Bots.Choosing.{least-Returns}
use mahjong_server_bot_zoo.Bots.Discarding.{PlayIsHeld, discard_choice-Returns}
use mahjong_server_bot_zoo.Bots.Claiming.{claim_choice-Returns}
use mahjong_server_bot_zoo.Bots.Reaching.{ClaimIsHeld}
use mahjong_server_bot_zoo.Legality.Waits.{Answers}

module _ (P : Action → Type 0) where
  kong_or-Returns :
      (kongs : List Action) (r : Result Action)
      → All P kongs
      → Returns r P
      → Returns (kong_or kongs r) P
  kong_or-Returns [] r h k = k
  kong_or-Returns (a ∷ kongs) r h k = least-Returns kong_before P (a ∷ kongs) (omega arith) h

  win_or-Returns :
      (wins : List Action) (r : Result Action)
      → All P wins
      → Returns r P
      → Returns (win_or wins r) P
  win_or-Returns [] r h k = k
  win_or-Returns (a ∷ wins) r h k = h.0

  kept : (f : Action → Bool) (legal : List Action) → All P legal → All P (keep f legal)
  kept f legal h = All-imp _ P (keep f legal) (λ a k. k.0) (All-keep P f legal h)

  preferred-Returns :
      (legal : List Action) (r : Result Action)
      → All P legal
      → Returns r P
      → Returns (win_or (keep is_hu legal) (kong_or (keep is_kong legal) r)) P
  preferred-Returns legal r h k =
      win_or-Returns (keep is_hu legal) _ (kept is_hu legal h)
        (kong_or-Returns (keep is_kong legal) r (kept is_kong legal h) k)

-- The viewer sees its own seat.
own_view :
    (j i : ℕ) (ps : List Seat) (p : Seat)
    → get_elem? ps j ≡ some p
    → get_elem? (seats_view (some (i + j)) i ps) j ≡ some (own p)
own_view j i [] p h = absurd (cc)
own_view zero i (q ∷ ps) p h = ground arith
own_view (suc j) i (q ∷ ps) p h =
    subst (λ n. get_elem? (seats_view (some n) (i + 1) ps) j ≡ some (own p)) (omega arith)
      (own_view j (i + 1) ps p h)

play-keeps :
    (t : Tile) (legal : List Action)
    → contains (Action.play t) legal ≡ true
    → 0 < length (keep is_play legal)
play-keeps t [] h = absurd (cc)
play-keeps t (Action.play u ∷ legal) h = omega arith
play-keeps t (a ∷ legal) h = play-keeps t legal h

each_listed : (legal : List Action) → All (λ a. contains a legal ≡ true) legal
each_listed legal =
    All-imp (λ a. 0 < count a legal) _ legal (λ a h. count-contains a legal h) (All-count legal)

may-PlayIsHeld :
    (env : Env) (s : GameState) (seat : ℕ) (p : Seat) (a : Action)
    → (s.current_actor ≡ seat) × MayDiscard env s seat p a
    → PlayIsHeld p.concealed a
may-PlayIsHeld env s seat p (Action.play t) h = h.1
may-PlayIsHeld env s seat p a h = tt

may-ClaimIsHeld :
    (env : Env) (s : GameState) (last : LastDiscard) (seat : ℕ) (p : Seat) (is_next : Bool)
    (a : Action)
    → (seat ≢ last.seat) × MayClaim env s is_next last.tile p a
    → ClaimIsHeld last p.concealed a
may-ClaimIsHeld env s last seat p is_next (Action.peng t) h = h.1.1
may-ClaimIsHeld env s last seat p is_next (Action.chi ts) h = h.1.1
may-ClaimIsHeld env s last seat p is_next a h = tt

module _ (env : Env) (answers : Answers env) (s : GameState) (sound : IsSound env s) where
  sees_own :
      (seat : ℕ) (p : Seat)
      → get_elem? s.seats seat ≡ some p
      → get_elem? (seats_view (some seat) 0 s.seats) seat ≡ some (own p)
  sees_own seat p found =
      subst (λ n. get_elem? (seats_view (some n) 0 s.seats) seat ≡ some (own p)) (omega arith)
        (own_view seat 0 s.seats p found)

  -- Where MahjongShanten answers for hands between two turns, on a seat's turn in a sound state, the
  -- bot that is shown the seat's view and its legal actions
  -- returns one of them.
  pub decide_discard-listed :
      (legal : List Action)
      → s.phase ≡ Phase.discard
      → s.current_actor < 4
      → legal_actions env s s.current_actor ≡ ok legal
      → Returns
          (decide_action env
            (view_of s (some s.current_actor))
            legal
            s.current_actor
            PromptKind.discard)
          (λ a. contains a legal ≡ true)
  unfolding decide_action decide_discard
  decide_discard-listed legal ph lt e =
      let (p, found) = get_elem?-total s.seats s.current_actor (rw sound.table.four lt) in
      let (t, has) =
        some_tile env s sound p.concealed (length p.melds) (turn_size env s sound p ph found) in
      let held : All (PlayIsHeld p.concealed) legal =
        All-imp _ _ legal (may-PlayIsHeld env s s.current_actor p) (
          Returns-at (discard_actions env s s.current_actor) _
            (discard_actions-All env s s.current_actor p sound.table found)
            (actions_at env s sound s.current_actor legal Phase.discard lt ph e)) in
      let plays = play-keeps t legal (turn_lists env s sound p legal t ph lt found e has) in
      let config = sound.table.config in
      preferred-Returns _ legal _ (each_listed legal) (
        rw (sound.table.resolves, sees_own s.current_actor p found)
          (Returns-imp (discard_choice env p s.round_wind config legal) _
            (λ a. contains a legal ≡ true) (λ a k. k.0)
            (discard_choice-Returns env answers p s.round_wind config
              (sound.table.hands s.current_actor p found) sound.table.round
              (turn_size env s sound p ph found) (λ a. contains a legal ≡ true) legal
              (each_listed legal) held plays)))

  -- Where MahjongShanten answers for hands between two turns, in a claim window of a sound state, the
  -- bot of another seat than the discarder's that is shown
  -- the seat's view and its legal actions returns one of them.
  pub decide_claim-listed :
      (seat : ℕ) (legal : List Action) (last : LastDiscard)
      → s.phase ≡ Phase.claim_window
      → s.last_discard ≡ some last
      → seat < 4
      → seat ≢ last.seat
      → legal_actions env s seat ≡ ok legal
      → Returns
          (decide_action env (view_of s (some seat)) legal seat PromptKind.claim)
          (λ a. contains a legal ≡ true)
  unfolding decide_action decide_claim
  decide_claim-listed seat legal last ph opened lt other e =
      let (p, found) = get_elem?-total s.seats seat (rw sound.table.four lt) in
      let listing = actions_at env s sound seat legal Phase.claim_window lt ph e in
      let held : All (ClaimIsHeld last p.concealed) legal =
        All-imp _ _ legal (may-ClaimIsHeld env s last seat p (eqb seat ((last.seat + 1) % 4))) (
          Returns-at (claim_actions env s seat) _
            (claim_actions-All env s seat p last sound.table opened found) listing) in
      let pass_is =
        Ensures-ok (claim_actions env s seat) (λ l. contains Action.pass l ≡ true)
          (claim_actions-lists env s seat last opened other) listing in
      let config = sound.table.config in
      preferred-Returns _ legal _ (each_listed legal) (
        rw (sound.table.resolves, sees_own seat p found)
          (Returns-imp (claim_choice env p s.round_wind config s.last_discard legal) _
            (λ a. contains a legal ≡ true) (λ a k. k.0)
            (claim_choice-Returns env answers p s.round_wind config (sound.table.hands seat p found)
              sound.table.round (claim_sizes env s sound ph seat p found) last
              (λ a. contains a legal ≡ true) legal s.last_discard opened pass_is (each_listed legal)
              held)))
