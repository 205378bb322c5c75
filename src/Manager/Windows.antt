-- ===== src/Manager/Windows.antt =====
-- `_step_claim_window` of mahjong/table/manager.py.
use mathlib.Core.Path.{subst}
use mahjong_server_bot_zoo.Prelude.{
  ℕ, ◌<◌, ◌≡◌, ◌≢◌, inl, inr, refl, sym, ap, ◌∙◌, true, Option, none, some, List, [], ◌∷◌, ◌++◌,
  map, arith, eqb, eqb_iff, nat_eq, All, All-imp, Bool-cases,
}
use mahjong_server_bot_zoo.Prelude.Counting.{contains}
use mahjong_server_bot_zoo.Prelude.Every.{All-and}
use mahjong_server_bot_zoo.Prelude.Seq.{ok, Returns, Returns-bind}
use mahjong_server_bot_zoo.State.{Action, Seat, LastDiscard, PendingClaim, Phase, GameState}
use mahjong_server_bot_zoo.Rules.{Env}
use mahjong_server_bot_zoo.Transition.Invariant.{IsSound, Conserves, Advances}
use mahjong_server_bot_zoo.Records.{replay_events}
use mahjong_server_bot_zoo.Records.Roundtrip.{at}
use mahjong_server_bot_zoo.Transition.Correct.{Permitted, on_turn, on_claim}
use mahjong_server_bot_zoo.Transition.Applied.{in_range}
use mahjong_server_bot_zoo.Claims.{Answer, resolve_claim_priority}
use mahjong_server_bot_zoo.Claims.Priority.{
  rank, Wins, IsResolved, resolve_claim_priority-IsResolved,
}
use mahjong_server_bot_zoo.Manager.{
  Table, SeatResult, strike, strike_all, maybe_swap_to_autopass, swap_all, claimers_of, ask_all,
  action_of, apply_winner, step_claim_window,
}
use mahjong_server_bot_zoo.Manager.Prompts.{DoesLegal}
use mahjong_server_bot_zoo.Manager.Gathering.{
  Gathered, LookedUp, look_up, All-among, All-unmap, claimers-Gathered, contains-sorted_set,
}
use mahjong_server_bot_zoo.Manager.Awarding.{DoesLegal-Permitted, apply_winner-Progress}
use mahjong_server_bot_zoo.Manager.Passing.{Covers, apply_all_pass-Progress}
use mahjong_server_bot_zoo.Manager.Playing.{events_of, Progress}

-- Counting failures and replacing adapters leave the state and the record alone.
strike_all-state : (T : Table) (rs : List SeatResult) → (strike_all T rs).state ≡ T.state
strike_all-state T [] = refl
strike_all-state T (r ∷ rs) = strike_all-state (strike T r.seat r.failure) rs

strike_all-entries : (T : Table) (rs : List SeatResult) → (strike_all T rs).entries ≡ T.entries
strike_all-entries T [] = refl
strike_all-entries T (r ∷ rs) = strike_all-entries (strike T r.seat r.failure) rs

swap_all-Progress :
    (env : Env) (ys : List GameState) (limit : ℕ) (T T' : Table) (seats : List ℕ)
    → Progress env ys T T'
    → Progress env ys T (swap_all limit T' seats)
swap_all-Progress env ys limit T T' [] h = h
swap_all-Progress env ys limit T T' (seat ∷ seats) h =
    swap_all-Progress env ys limit T (maybe_swap_to_autopass limit T' seat) seats (record {
      sound = h.sound;
      conserves = h.conserves;
      advances = h.advances;
      written = h.written;
      grows = h.grows;
      zs = h.zs;
      reads = h.reads;
      latest = h.latest;
    })

-- The same step, from a table that differs in the counts alone.
Progress-from :
    (env : Env) (ys : List GameState) (T U T' : Table)
    → U.state ≡ T.state
    → U.entries ≡ T.entries
    → Progress env ys U T'
    → Progress env ys T T'
Progress-from env ys T U T' es ee h = record {
  sound = h.sound;
  conserves = subst (λ s. Conserves s T'.state) es h.conserves;
  advances = subst (λ s. Advances s T'.state) es h.advances;
  written = h.written;
  grows = h.grows ∙ ap (λ l. events_of l ++ h.written) ee;
  zs = h.zs;
  reads = subst (λ s. replay_events env (at s ys) h.written ≡ ok (at T'.state h.zs)) es h.reads;
  latest = h.latest;
}

-- Who makes no claim has passed: a claim window permits no PLAY.
passes_of :
    {env : Env} (s : GameState) (seat : ℕ) (p : Seat) (a : Action)
    → s.phase ≡ Phase.claim_window
    → Permitted env s seat p a
    → rank a ≡ 4
    → a ≡ Action.pass
passes_of s seat p Action.pass ph h e = refl
passes_of s seat p (Action.play t) ph (on_turn k mine m) e = absurd (cc)
passes_of s seat p (Action.play t) ph (on_claim last k opened other m) e = absurd m
passes_of s seat p a ph h e = absurd (omega arith)

other_seat :
    {env : Env} (s : GameState) (seat : ℕ) (p : Seat) (a : Action) (last : LastDiscard)
    → s.phase ≡ Phase.claim_window
    → s.last_discard ≡ some last
    → Permitted env s seat p a
    → seat ≢ last.seat
other_seat s seat p a last ph opened (on_turn k mine m) = absurd (cc)
other_seat s seat p a last ph opened (on_claim l k o other m) =
    let e : some last ≡ some l = sym opened ∙ o in
    let same : last ≡ l = cc in λ here. other (here ∙ ap (λ d. d.seat) same)

contains-middle : (a : ℕ) (xs ys : List ℕ) → contains a (xs ++ a ∷ ys) ≡ true
contains-middle a [] ys = ground (arith, eqb_iff a a)
contains-middle a (x ∷ xs) ys = ground (arith, contains-middle a xs ys)

abbrev move : ℕ → Action → Option (ℕ × Action)
move seat a = some (seat, a)

moves_eq : (i j : ℕ) (a b : Action) → i ≡ j → a ≡ b → move i a ≡ move j b
moves_eq i j a b e k = cc

-- Who has a number among the numbers.
entry_of :
    (P : SeatResult → Type 0) (rs : List SeatResult) (seat : ℕ)
    → All P rs
    → contains seat (map (λ r. r.seat) rs) ≡ true
    → (r : SeatResult) × (r.seat ≡ seat) × P r
entry_of P [] seat all h = absurd (cc)
entry_of P (x ∷ rs) seat all h = elim (Bool-cases (eqb x.seat seat)) [
  | inl this ↦ (x, (eqb_iff x.seat seat).0 this, all.0)
  | inr other ↦ entry_of P rs seat all.1 (ground arith)
]

not_claim : (a : Action) → a ≡ Action.pass → rank a < 4 → ⊥
not_claim Action.pass e lt = absurd (omega arith)
not_claim a e lt = absurd (cc)

module _ (env : Env) (answers : ℕ → Answer) (T : Table) (ys : List GameState)
    (sound : IsSound env T.state) (last : LastDiscard) (phase : T.state.phase ≡ Phase.claim_window)
    (opened : T.state.last_discard ≡ some last) (rs : List SeatResult)
    (g : Gathered env answers T (claimers_of T.state.pending_claims) rs) where
  looked_up : All (LookedUp rs) rs
  looked_up =
      All-imp _ (LookedUp rs) rs (λ r h. look_up env answers T rs r g.asked h.0 h.1)
        (All-and _ _ rs g.asked (All-among (λ r. r.seat) rs))

  covered : Covers env T.state ys [] last rs T.state.pending_claims
  covered =
      let claims = T.state.pending_claims in
      rw g.seats (
        All-imp (λ c. contains c.seat (map (λ (d : PendingClaim). d.seat) claims) ≡ true) _ claims
          (λ c h. contains-sorted_set c.seat (map (λ (d : PendingClaim). d.seat) claims) h)
          (All-among (λ c. c.seat) claims))

  -- With no winner every claimer has passed.
  each_passed :
      All (λ o. rank (action_of rs o) ≡ 4) (claimers_of T.state.pending_claims)
      → All (λ r. (r.action ≡ Action.pass) × (r.seat < 4) × (r.seat ≢ last.seat)) rs
  each_passed h =
      All-imp _ _ rs
        (λ r k.
          let (does, found) = k in
          let (up, none_of) = found in
          let (p, may) = DoesLegal-Permitted env T.state r.seat r sound does in
          (
            passes_of T.state r.seat p r.action phase may
                (subst (λ a. rank a ≡ 4) up.action none_of),
            in_range env T.state r.seat does.legal does.lists,
            other_seat T.state r.seat p r.action last phase opened may,
          ))
        (All-and _ _ rs g.legal
          (All-and _ _ rs looked_up (All-unmap (λ o. rank (action_of rs o) ≡ 4) rs (rw g.seats h))))

  -- The winner is one of the claimers, with its own action.
  winner_of :
      (seat : ℕ) (a : Action)
      → Wins (claimers_of T.state.pending_claims) (action_of rs) seat a
      → (r : SeatResult) × (move seat a ≡ move r.seat r.action)
        × (r.action ≢ Action.pass)
        × DoesLegal env T.state r.seat r
        × LookedUp rs r
  winner_of seat a w =
      let there : contains seat (map (λ r. r.seat) rs) ≡ true =
        rw (g.seats, w.split) (contains-middle seat w.before w.after) in
      let (r, own, both) =
        entry_of (λ r. DoesLegal env T.state r.seat r × LookedUp rs r) rs seat
          (All-and _ _ rs g.legal looked_up) there in
      let (does, up) = both in
      let same : a ≡ r.action = w.own ∙ ap (action_of rs) (sym own) ∙ up.action in
      (
        r,
        moves_eq seat r.seat a r.action (sym own) same,
        (λ e. let k : a ≡ Action.pass = same ∙ e in let low = w.claims in not_claim a k low),
        does,
        up,
      )

  -- The window is resolved, from a table that differs in the counts alone.
  resolved-Progress :
      (U : Table)
      → U.state ≡ T.state
      → U.entries ≡ T.entries
      → (o : Option (ℕ × Action)) → IsResolved (claimers_of T.state.pending_claims) (action_of rs) o
      → Returns (apply_winner env U rs o) (Progress env ys U)
  resolved-Progress U us ue none h =
      apply_all_pass-Progress env U ys last (subst (IsSound env) (sym us) sound)
        (ap (λ s. s.phase) us ∙ phase) (ap (λ s. s.last_discard) us ∙ opened) rs
        (subst (λ (s : GameState). Covers env T.state ys [] last rs s.pending_claims) (sym us)
          covered)
        (each_passed h)
  resolved-Progress U us ue (some (seat, a)) h =
      let (r, e, acts, does, up) = winner_of seat a h in
      subst (λ o. Returns (apply_winner env U rs o) (Progress env ys U)) (sym e)
        (apply_winner-Progress env U ys (subst (IsSound env) (sym us) sound)
          (ap (λ s. s.phase) us ∙ phase) rs r
          (subst (λ s. All (λ x. DoesLegal env s x.seat x) rs) (sym us) g.legal)
          (subst (λ s. DoesLegal env s r.seat r) (sym us) does) acts up)

-- On a sound state with an open claim window, whatever the adapters answer, `step_claim_window`
-- returns.
pub step_claim_window-Progress :
    (env : Env) (answers : ℕ → Answer) (limit : ℕ) (T : Table) (ys : List GameState)
    (last : LastDiscard)
    → IsSound env T.state
    → T.state.phase ≡ Phase.claim_window
    → T.state.last_discard ≡ some last
    → Returns (step_claim_window env answers limit T) (Progress env ys T)
unfolding step_claim_window
step_claim_window-Progress env answers limit T ys last sound phase opened =
    let claimers = claimers_of T.state.pending_claims in
    Returns-bind (ask_all env answers T claimers) _ (Gathered env answers T claimers)
      (Progress env ys T) (claimers-Gathered env answers T sound last phase opened)
      λ rs g.
        let U : Table = strike_all T rs in
        let us = strike_all-state T rs in
        let ue = strike_all-entries T rs in
        Returns-bind (apply_winner env U rs (resolve_claim_priority claimers (action_of rs))) _
          (Progress env ys U) (Progress env ys T)
          (resolved-Progress env answers T ys sound last phase opened rs g U us ue
            (resolve_claim_priority claimers (action_of rs))
            (resolve_claim_priority-IsResolved claimers (action_of rs)))
          (λ T' h.
            swap_all-Progress env ys limit T T' claimers (Progress-from env ys T U T' us ue h))
