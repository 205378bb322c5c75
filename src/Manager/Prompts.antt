-- ===== src/Manager/Prompts.antt =====
-- `_build_prompt` and `_decide_or_default` of mahjong/table/manager.py: what a seat does is legal.
use mathlib.Core.Path.{subst, sym}
use mahjong_server_bot_zoo.Prelude.{
  ℕ, ◌+◌, ◌*◌, ◌<◌, ◌≡◌, ◌≢◌, inl, inr, refl, true, false, Option, none, some, List, [], ◌∷◌, arith,
  eqb_iff, leb, get_elem?, get_elem?-total, length, keep, Bool-cases, ==_iff,
}
use mahjong_server_bot_zoo.Prelude.Counting.{count, contains}
use mahjong_server_bot_zoo.Prelude.Seq.{
  ok, Returns, Returns-bind, Returns-ok, Returns-imp, Ensures-ok,
}
use mahjong_server_bot_zoo.Tiles.{Tile, tile_eq}
use mahjong_server_bot_zoo.State.{Action, action_eq, Seat, LastDiscard, LastDrawn, Phase, GameState}
use mahjong_server_bot_zoo.Rules.{Env}
use mahjong_server_bot_zoo.Legality.{actions_in, legal_actions, discard_actions, claim_actions}
use mahjong_server_bot_zoo.Legality.Listed.{discard_actions-lists, claim_actions-lists}
use mahjong_server_bot_zoo.View.{project}
use mahjong_server_bot_zoo.Transition.Invariant.{hand_size, DrawnIsHeld, IsSound}
use mahjong_server_bot_zoo.Transition.Correct.{legal_actions-Permitted}
use mahjong_server_bot_zoo.Transition.Seats.{discard_sizes}
use mahjong_server_bot_zoo.Claims.{Answer, decided, timed_out, crashed, decide_or_default}
use mahjong_server_bot_zoo.Claims.Default.{
  PromptKind, default_action, play_drawn, first_play, is_play,
}
use mahjong_server_bot_zoo.Manager.{Prompt, Table, SeatResult, build_prompt, answer_of, ask}

-- What comes of a decision is listed, if the default is.
decide_or_default-listed :
    (answer : Answer) (legal : List Action) (default : Action)
    → contains default legal ≡ true
    → contains (decide_or_default answer legal default).0 legal ≡ true
unfolding decide_or_default
decide_or_default-listed timed_out legal default h = h
decide_or_default-listed crashed legal default h = h
decide_or_default-listed (decided a) legal default h = elim (Bool-cases (contains a legal)) [
  | inl listed ↦ rw listed listed
  | inr refused ↦ rw refused h
]

first_play-listed :
    (legal : List Action) (t : Tile)
    → contains (Action.play t) legal ≡ true
    → Returns (first_play (keep is_play legal)) (λ a. contains a legal ≡ true)
first_play-listed [] t h = absurd (cc)
first_play-listed (Action.play u ∷ legal) t h = ground (arith, ==_iff u u)
first_play-listed (a ∷ legal) t h =
    Returns-imp (first_play (keep is_play legal)) (λ b. contains b legal ≡ true)
      (λ b. contains b (a ∷ legal) ≡ true) (λ b k. ground arith)
      (first_play-listed legal t (ground arith))

module _ (env : Env) (s : GameState) (sound : IsSound env s) where
  pub actions_at :
      (seat : ℕ) (legal : List Action) (ph : Phase)
      → seat < 4
      → s.phase ≡ ph
      → legal_actions env s seat ≡ ok legal
      → actions_in env ph s seat ≡ ok legal
  unfolding legal_actions
  actions_at seat legal ph lt e listed =
      let small : leb 4 seat ≡ false = ground arith in
      subst (λ q. actions_in env q s seat ≡ ok legal) e (rw small at listed)

  pub turn_lists :
      (p : Seat) (legal : List Action) (t : Tile)
      → s.phase ≡ Phase.discard
      → s.current_actor < 4
      → get_elem? s.seats s.current_actor ≡ some p
      → legal_actions env s s.current_actor ≡ ok legal
      → 0 < count t p.concealed
      → contains (Action.play t) legal ≡ true
  turn_lists p legal t ph lt found e has =
      Ensures-ok (discard_actions env s s.current_actor) (λ l. contains (Action.play t) l ≡ true)
        (discard_actions-lists env s s.current_actor p t found refl has)
        (actions_at s.current_actor legal Phase.discard lt ph e)

  -- The hand of a seat on its turn is not empty.
  pub some_tile :
      (hand : List Tile) (n : ℕ) → length hand + 3 * n ≡ 14 → (t : Tile) × (0 < count t hand)
  some_tile [] n h = absurd (omega arith)
  some_tile (t ∷ hand) n h = (t, ground (arith, ==_iff t t))

  pub turn_size :
      (p : Seat)
      → s.phase ≡ Phase.discard
      → get_elem? s.seats s.current_actor ≡ some p
      → hand_size p ≡ 14
  turn_size p ph found =
      ground (arith, discard_sizes env s sound s.current_actor ph refl s.current_actor p found)

  -- On a seat's turn the default is to discard the tile that it drew, or the first discard listed.
  play_drawn-listed :
      (p : Seat) (legal : List Action) (o : Option LastDrawn)
      → s.phase ≡ Phase.discard
      → s.current_actor < 4
      → get_elem? s.seats s.current_actor ≡ some p
      → legal_actions env s s.current_actor ≡ ok legal
      → DrawnIsHeld Phase.discard s.current_actor o s.seats
      → Returns (play_drawn env o s s.current_actor) (λ a. contains a legal ≡ true)
  play_drawn-listed p legal none ph lt found e held =
      let size : hand_size p ≡ 14 = turn_size p ph found in
      let (t, has) = some_tile p.concealed (length p.melds) size in
      rw e (first_play-listed legal t (turn_lists p legal t ph lt found e has))
  play_drawn-listed p legal (some d) ph lt found e held =
      rw ((eqb_iff d.seat s.current_actor).1 held.0)
        (turn_lists p legal d.tile ph lt found e (held.1 s.current_actor p found refl))

  -- A prompt shows the legal actions, and its default is one of them.
  record Offers (seat : ℕ) (prompt : Prompt) : Type 0 where
    legal : legal_actions env s seat ≡ ok prompt.legal
    listed : contains prompt.default prompt.legal ≡ true

  prompt-Offers :
      (seat : ℕ) (kind : PromptKind) (legal : List Action)
      → seat < 4
      → legal_actions env s seat ≡ ok legal
      → Returns (default_action env s seat kind) (λ a. contains a legal ≡ true)
      → Returns (build_prompt env s seat kind) (Offers seat)
  unfolding build_prompt project
  prompt-Offers seat kind legal lt e h =
      let small : leb 4 seat ≡ false = ground arith in
      rw (small, e)
        (Returns-bind (default_action env s seat kind) _ (λ a. contains a legal ≡ true)
          (Offers seat) h (λ a listed. record { legal = e; listed = listed }))

  legal_of : (seat : ℕ) → seat < 4 → (legal : List Action) × (legal_actions env s seat ≡ ok legal)
  legal_of seat lt =
      let (p, found) = get_elem?-total s.seats seat (rw sound.table.four lt) in
      let (legal, e, all) =
        Returns-ok (legal_actions env s seat) _
          (legal_actions-Permitted env s sound seat p found lt) in
      (legal, e)

  turn_prompt-Offers :
      s.phase ≡ Phase.discard
      → s.current_actor < 4
      → Returns (build_prompt env s s.current_actor PromptKind.discard) (Offers s.current_actor)
  unfolding default_action
  turn_prompt-Offers ph lt =
      let (p, found) = get_elem?-total s.seats s.current_actor (rw sound.table.four lt) in
      let (legal, e) = legal_of s.current_actor lt in
      prompt-Offers s.current_actor PromptKind.discard legal lt e (
        play_drawn-listed p legal s.last_drawn ph lt found e
          (subst (λ q. DrawnIsHeld q s.current_actor s.last_drawn s.seats) ph sound.drawn))

  claim_prompt-Offers :
      (seat : ℕ) (last : LastDiscard)
      → s.phase ≡ Phase.claim_window
      → s.last_discard ≡ some last
      → seat < 4
      → seat ≢ last.seat
      → Returns (build_prompt env s seat PromptKind.claim) (Offers seat)
  unfolding default_action
  claim_prompt-Offers seat last ph opened lt other =
      let (legal, e) = legal_of seat lt in
      prompt-Offers seat PromptKind.claim legal lt e (
        Ensures-ok (claim_actions env s seat) (λ l. contains Action.pass l ≡ true)
          (claim_actions-lists env s seat last opened other)
          (actions_at seat legal Phase.claim_window lt ph e))

-- What a seat does is one of its legal actions.
pub record DoesLegal (env : Env) (s : GameState) (seat : ℕ) (r : SeatResult) : Type 0 where
  pub own : r.seat ≡ seat
  pub legal : List Action
  pub lists : legal_actions env s seat ≡ ok legal
  pub listed : contains r.action legal ≡ true

module _ (env : Env) (answers : ℕ → Answer) (T : Table) (sound : IsSound env T.state) where
  ask-DoesLegal :
      (kind : PromptKind) (seat : ℕ)
      → Returns (build_prompt env T.state seat kind) (Offers env T.state sound seat)
      → Returns (ask env answers T kind seat) (DoesLegal env T.state seat)
  unfolding ask
  ask-DoesLegal kind seat h =
      Returns-bind (build_prompt env T.state seat kind) _ (Offers env T.state sound seat)
        (DoesLegal env T.state seat) h
        λ prompt o. record {
          own = refl;
          legal = prompt.legal;
          lists = o.legal;
          listed =
              decide_or_default-listed (answer_of (T.auto_pass seat) (answers seat) prompt)
                prompt.legal prompt.default o.listed;
        }

  -- On a sound state, whatever the adapter of the seat whose turn it is answers, asking it
  -- returns one of the legal actions of that seat.
  pub ask_turn-DoesLegal :
      T.state.phase ≡ Phase.discard
      → T.state.current_actor < 4
      → Returns
          (ask env answers T PromptKind.discard T.state.current_actor)
          (DoesLegal env T.state T.state.current_actor)
  ask_turn-DoesLegal ph lt =
      ask-DoesLegal PromptKind.discard T.state.current_actor
        (turn_prompt-Offers env T.state sound ph lt)

  pub ask_claim-DoesLegal :
      (seat : ℕ) (last : LastDiscard)
      → T.state.phase ≡ Phase.claim_window
      → T.state.last_discard ≡ some last
      → seat < 4
      → seat ≢ last.seat
      → Returns (ask env answers T PromptKind.claim seat) (DoesLegal env T.state seat)
  ask_claim-DoesLegal seat last ph opened lt other =
      ask-DoesLegal PromptKind.claim seat
        (claim_prompt-Offers env T.state sound seat last ph opened lt other)

-- Another seat than the discarder's may pass.
pub pass-DoesLegal :
    (env : Env) (s : GameState) (last : LastDiscard) (r : SeatResult)
    → IsSound env s
    → s.phase ≡ Phase.claim_window
    → s.last_discard ≡ some last
    → r.seat < 4
    → r.seat ≢ last.seat
    → r.action ≡ Action.pass
    → DoesLegal env s r.seat r
pass-DoesLegal env s last r sound ph opened lt other passes =
    let (legal, e) = legal_of env s sound r.seat lt in
    record {
      own = refl;
      legal = legal;
      lists = e;
      listed =
          subst (λ a. contains a legal ≡ true) (sym passes)
            (Ensures-ok (claim_actions env s r.seat) (λ l. contains Action.pass l ≡ true)
              (claim_actions-lists env s r.seat last opened other)
              (actions_at env s sound r.seat legal Phase.claim_window lt ph e));
    }
