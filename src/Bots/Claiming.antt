-- ===== src/Bots/Claiming.antt =====
-- The claim that mahjong/bots/v0.py chooses, or PASS.
use mahjong_server_bot_zoo.Prelude.{
  ◌+◌, ◌*◌, ◌≡◌, ◌⊎◌, inl, inr, refl, sym, true, Option, none, some, List, [], ◌∷◌, arith, length,
  All, Bool-cases,
}
use mahjong_server_bot_zoo.Prelude.Int.{ℤ, pos, negsuc, ◌≤ℤ◌}
use mahjong_server_bot_zoo.Prelude.Seq.{ok, Returns, Returns-bind, Returns-self, Returns-imp}
use mahjong_server_bot_zoo.Tiles.{Tile}
use mahjong_server_bot_zoo.State.{Action, Seat, LastDiscard}
use mahjong_server_bot_zoo.Rules.{Config, Env}
use mahjong_server_bot_zoo.Legality.Waits.{Answers}
use mahjong_server_bot_zoo.Transition.Invariant.{HandIsSound, IsWind}
use mahjong_server_bot_zoo.Bots.{lt_ℤ, better, distance, reached_by, weigh, claim_choice}
use mahjong_server_bot_zoo.Bots.Choosing.{lt_ℤ-le, lt_ℤ-ge, le_ℤ_trans}
use mahjong_server_bot_zoo.Bots.Measured.{fan_aware_distance-Returns}
use mahjong_server_bot_zoo.Bots.Reaching.{
  ClaimIsHeld, LeadsTo, IsWeighed, IsWeighed-le, ReachedBy, reached_by-ReachedBy,
}

not_le-lt_ℤ : (a b : ℤ) → lt_ℤ a b ≡ true → ¬ (b ≤ℤ a)
not_le-lt_ℤ (pos m) (pos n) h = λ k. ground arith
not_le-lt_ℤ (pos m) (negsuc n) h = absurd (cc)
not_le-lt_ℤ (negsuc m) (pos n) h = λ k. omega arith
not_le-lt_ℤ (negsuc m) (negsuc n) h = λ k. ground arith

module _ (env : Env) (p : Seat) (round : Tile) (config : Config) (last : LastDiscard) where
  -- The start itself, or a claim after which some discard leaves the hand strictly nearer.
  abbrev pub IsWorth : ℤ × Action → ℤ × Action → Type 0
  IsWorth start best =
      (best ≡ start) ⊎ ((¬ (start.0 ≤ℤ best.0)) × LeadsTo env p round config last best.1 best.0)

  -- PASS, or a claim that leads nearer to a win than the hand is; and no listed claim leads nearer
  -- than the choice.
  pub record IsChosen (legal : List Action) (a : Action) : Type 0 where
    pub start : ℤ
    pub best : ℤ × Action
    pub passes : distance env p round config p.concealed p.melds ≡ ok start
    pub chosen : best.1 ≡ a
    pub worth : IsWorth (start, Action.pass) best
    pub weighed : All (IsWeighed env p round config last best.0) legal

module _ (env : Env) (answers : Answers env) (p : Seat) (round : Tile) (config : Config)
    (sound : HandIsSound p) (wind : IsWind round)
    (size : length p.concealed + 3 * length p.melds ≡ 13) (last : LastDiscard) where
  -- After one action the best is kept or replaced, never set back, and the action is weighed.
  abbrev Kept : (Action → Type 0) → ℤ × Action → ℤ × Action → Action → ℤ × Action → Type 0
  Kept P start best action now =
      P now.1
      × IsWorth env p round config last start now
      × (now.0 ≤ℤ best.0)
      × IsWeighed env p round config last now.0 action

  better-Kept :
      (P : Action → Type 0) (start best : ℤ × Action) (action : Action) (reached : Option ℤ)
      → ReachedBy env answers p round config sound wind size last action reached
      → P best.1
      → P action
      → IsWorth env p round config last start best
      → Kept P start best action (better best action reached)
  better-Kept P start best action none r h k worth = (h, worth, omega arith, r best.0)
  better-Kept P start best action (some d) r h k worth = elim (Bool-cases (lt_ℤ d best.0)) [
    | inr more ↦ rw more (
      h,
      worth,
      omega arith,
      IsWeighed-le env p round config last best.0 d action (lt_ℤ-ge d best.0 more) r.1,
    )
    | inl less ↦
        let nearer : ¬ (start.0 ≤ℤ d) = elim worth [
          | inl same ↦ rw (sym same) (not_le-lt_ℤ d best.0 less)
          | inr known ↦ λ le. known.0 (le_ℤ_trans start.0 d best.0 le (lt_ℤ-le d best.0 less))
        ] in
        rw less (k, inr (nearer, r.0), lt_ℤ-le d best.0 less, r.1)
  ]

  module _ (P : Action → Type 0) (start : ℤ × Action) where
    -- What weighing the whole list gives.
    abbrev Weighed : ℤ × Action → List Action → ℤ × Action → Type 0
    Weighed best actions r =
        P r.1
        × IsWorth env p round config last start r
        × (r.0 ≤ℤ best.0)
        × All (IsWeighed env p round config last r.0) actions

    weigh-Returns :
        (best : ℤ × Action) (actions : List Action)
        → P best.1
        → IsWorth env p round config last start best
        → All P actions
        → All (ClaimIsHeld last p.concealed) actions
        → Returns (weigh env p round config last best actions) (Weighed best actions)
    unfolding weigh
    weigh-Returns best [] pb worth hp held = (pb, worth, omega arith, tt)
    weigh-Returns best (action ∷ actions) pb worth hp held =
        Returns-bind (reached_by env p round config last action) _
          (ReachedBy env answers p round config sound wind size last action) _
          (reached_by-ReachedBy env answers p round config sound wind size last action held.0)
          λ reached known.
            let now = better best action reached in
            let (kept, better_worth, le, weighed) =
              better-Kept P start best action reached known pb hp.0 worth in
            Returns-imp (weigh env p round config last now actions) (Weighed now actions) _
              (λ r k. (
                k.0,
                k.1,
                le_ℤ_trans r.0 now.0 best.0 k.2 le,
                (IsWeighed-le env p round config last r.0 now.0 action k.2 weighed, k.3),
              ))
              (weigh-Returns now actions kept better_worth hp.1 held.1)

  -- Where MahjongShanten answers for hands between two turns, on a sound hand that counts 13 with
  -- three for a meld and true winds, with a discard to claim and every listed PENG and CHI open to
  -- the hand, an action is chosen. It has every property that PASS and all listed actions have. It is
  -- PASS, or a PENG or CHI after which some discard leaves the hand strictly nearer to a win than it
  -- is now, and after no listed PENG or CHI does a discard leave the hand nearer than the choice
  -- does: two copies leave for a PENG, the run without the called tile for a CHI.
  pub claim_choice-Returns :
      (P : Action → Type 0) (legal : List Action) (o : Option LastDiscard)
      → o ≡ some last
      → P Action.pass
      → All P legal
      → All (ClaimIsHeld last p.concealed) legal
      → Returns
          (claim_choice env p round config o legal)
          (λ a. P a × IsChosen env p round config last legal a)
  unfolding claim_choice distance
  claim_choice-Returns P legal none h pass_is hp held = absurd (cc)
  claim_choice-Returns P legal (some d) h pass_is hp held =
      let same : d ≡ last = cc in
      rw same (
        Returns-bind (distance env p round config p.concealed p.melds) _
          (λ d. Unit × (distance env p round config p.concealed p.melds ≡ ok d)) _
          (Returns-self (distance env p round config p.concealed p.melds) (λ d. Unit)
            (fan_aware_distance-Returns env answers p.seat_wind round config p.concealed p.melds
              sound.melds sound.wind wind (size, sound.no_flower)))
          λ d known.
            Returns-bind (weigh env p round config last (d, Action.pass) legal) (λ best. ok best.1)
              (Weighed P (d, Action.pass) (d, Action.pass) legal)
              (λ a. P a × IsChosen env p round config last legal a)
              (weigh-Returns P (d, Action.pass) (d, Action.pass) legal pass_is (inl refl) hp held)
              (λ r k. (
                k.0,
                record {
                  start = d;
                  best = r;
                  passes = known.1;
                  chosen = refl;
                  worth = k.1;
                  weighed = k.3;
                },
              )))
