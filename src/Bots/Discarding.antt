-- ===== src/Bots/Discarding.antt =====
-- The discard that mahjong/bots/v0.py chooses.
use mathlib.Core.Path.{subst}
use mahjong_server_bot_zoo.Prelude.{
  ℕ, ◌+◌, ◌*◌, All-imp, ◌<◌, ◌≡◌, inl, inr, refl, sym, ap, ◌∙◌, true, List, [], ◌∷◌, arith, eqb,
  length, keep, map, All, Bool-cases,
}
use mahjong_server_bot_zoo.Prelude.Int.{ℤ, ◌≤ℤ◌}
use mahjong_server_bot_zoo.Prelude.Counting.{count}
use mahjong_server_bot_zoo.Prelude.Every.{All-map, All-keep, All-and}
use mahjong_server_bot_zoo.Prelude.Seq.{
  ok, Returns, Returns-bind, Returns-self, Returns-imp, Returns-ok, remove, remove-Returns, Removed,
}
use mahjong_server_bot_zoo.Tiles.{Tile, tile_eq}
use mahjong_server_bot_zoo.State.{Action, Seat}
use mahjong_server_bot_zoo.Rules.{Config, Env}
use mahjong_server_bot_zoo.Claims.Default.{is_play}
use mahjong_server_bot_zoo.Legality.Waits.{Answers, IsStanding}
use mahjong_server_bot_zoo.Transition.Invariant.{HandIsSound, IsWind}
use mahjong_server_bot_zoo.Bots.{
  Scored, traverse, least, lt_ℤ, same_distance, before, fan_feasible_ukeire, distance, score_play,
  with_ukeire, break_tie, discard_choice,
}
use mahjong_server_bot_zoo.Bots.Choosing.{
  traverse-Returns, traverse_back, least-Returns, least-le, eq_ℤ-eq, own_kept,
}
use mahjong_server_bot_zoo.Bots.Measured.{
  Removed-IsStanding, fan_aware_distance-Returns, fan_feasible_ukeire-Returns,
}

-- A discard is of a tile in the hand.
abbrev pub PlayIsHeld : List Tile → Action → Type 0
PlayIsHeld hand (Action.play t) = 0 < count t hand
PlayIsHeld hand action = Unit

map-All :
    {A : Type 0} (f : A → ℤ) (P : ℤ → Type 0) (xs : List A)
    → All P (map f xs)
    → All (λ x. P (f x)) xs
map-All f P [] h = tt
map-All f P (x ∷ xs) h = (h.0, map-All f P xs h.1)

map_fills : {A : Type 0} (f : A → ℤ) (xs : List A) → 0 < length xs → 0 < length (map f xs)
map_fills f [] h = absurd (omega arith)
map_fills f (x ∷ xs) h = omega arith

-- The action of an entry with the property.
abbrev Picked : (Scored → Type 0) → Action → Type 0
Picked R a = (s : Scored) × (s.action ≡ a) × R s

module _ (env : Env) (p : Seat) (round : Tile) (config : Config) where
  -- The action is a discard after which the hand is as near to a win as after any other.
  pub record IsClosest (legal : List Action) (a : Action) : Type 0 where
    pub s : Scored
    pub scores : score_play env p round config a ≡ ok s
    pub closest :
        All
          (λ b. (t : Scored) → score_play env p round config b ≡ ok t → s.distance ≤ℤ t.distance)
          (keep is_play legal)

module _ (env : Env) (answers : Answers env) (p : Seat) (round : Tile) (config : Config)
    (sound : HandIsSound p) (wind : IsWind round)
    (size : length p.concealed + 3 * length p.melds ≡ 14) where
  score_play-Returns :
      (a : Action)
      → PlayIsHeld p.concealed a × (is_play a ≡ true)
      → Returns (score_play env p round config a) (λ s. (s.action ≡ a) × IsStanding s.rem p.melds)
  unfolding score_play distance
  score_play-Returns (Action.play t) h =
      Returns-bind (remove t p.concealed) _ (Removed t p.concealed) _
        (remove-Returns t p.concealed h.0)
        λ rest gone.
          let standing =
            Removed-IsStanding t p.concealed rest p.melds (size, sound.no_flower) gone in
          Returns-bind (distance env p round config rest p.melds) _ (λ d. Unit) _
            (fan_aware_distance-Returns env answers p.seat_wind round config rest p.melds
              sound.melds sound.wind wind standing)
            (λ d _. (refl, standing))
  score_play-Returns a h = absurd (cc)

  with_ukeire-Returns :
      (R : Scored → Type 0) (x : Scored)
      → R x
      → IsStanding x.rem p.melds
      → Returns (with_ukeire env p round config x) (λ k. R k.1)
  unfolding with_ukeire
  with_ukeire-Returns R x r standing =
      Returns-bind (fan_feasible_ukeire env x.rem p.melds) _ (λ n. Unit) (λ k. R k.1)
        (fan_feasible_ukeire-Returns env answers p.melds sound.melds x.rem standing) (λ n _. r)

  break_tie-Returns :
      (R : Scored → Type 0) (tied : List Scored)
      → 0 < length tied
      → All R tied
      → All (λ s. IsStanding s.rem p.melds) tied
      → Returns (break_tie env p round config tied) (Picked R)
  unfolding break_tie
  break_tie-Returns R [] some_left h stand = absurd (omega arith)
  break_tie-Returns R (s ∷ tied) some_left h stand = elim (Bool-cases (eqb (length (s ∷ tied)) 1)) [
    | inl one ↦ rw one (s, refl, h.0)
    | inr more ↦ rw more (
        Returns-bind (traverse (with_ukeire env p round config) (s ∷ tied)) _
          (λ keyed. All (λ (k : ℕ × Scored). R k.1) keyed × (length keyed ≡ length (s ∷ tied)))
          (Picked R)
          (traverse-Returns (with_ukeire env p round config)
            (λ (x : Scored). R x × IsStanding x.rem p.melds) (λ (k : ℕ × Scored). R k.1) (s ∷ tied)
            (All-and R (λ (x : Scored). IsStanding x.rem p.melds) (s ∷ tied) h stand)
            (λ x both. with_ukeire-Returns R x both.0 both.1))
          λ keyed k.
            Returns-bind (least before keyed) (λ (best : ℕ × Scored). ok best.1.action)
              (λ (k : ℕ × Scored). R k.1) (Picked R)
              (least-Returns before (λ (k : ℕ × Scored). R k.1) keyed (omega (arith, k.1)) k.0)
              (λ best r. (best.1, refl, r)))
  ]

  -- Where MahjongShanten answers for hands between two turns, on a sound hand that counts 14 with
  -- three for a meld, true winds, a PLAY on the list and every PLAY on it of a tile in the
  -- hand, a discard is chosen. It has every property that all listed actions have, and the hand
  -- that it leaves is at most as far from a win as the one that any listed PLAY leaves.
  pub discard_choice-Returns :
      (P : Action → Type 0) (legal : List Action)
      → All P legal
      → All (PlayIsHeld p.concealed) legal
      → 0 < length (keep is_play legal)
      → Returns
          (discard_choice env p round config legal)
          (λ a. P a × IsClosest env p round config legal a)
  unfolding discard_choice
  discard_choice-Returns P legal hp held some_play =
      let Good : Scored → Type 0 = λ s.
        (P s.action × (score_play env p round config s.action ≡ ok s)) × IsStanding s.rem p.melds in
      let (scored, e, (good, same)) =
        Returns-ok (traverse (score_play env p round config) (keep is_play legal)) _ (
          traverse-Returns (score_play env p round config) _ Good (keep is_play legal)
            (All-keep _ is_play legal (All-and P (PlayIsHeld p.concealed) legal hp held))
            λ a h.
              Returns-imp (score_play env p round config a) _ Good
                (λ s k. (
                  (subst P (sym k.0.0) h.0.0, ap (score_play env p round config) k.0.0 ∙ k.1),
                  k.0.1,
                ))
                (Returns-self (score_play env p round config a) _
                  (score_play-Returns a (h.0.1, h.1)))) in
      rw e (
        let distances = map (λ (s : Scored). s.distance) scored in
        Returns-bind (least lt_ℤ distances) _ _ _
          (least-le (λ d. 0 < length (keep (same_distance d) scored)) distances
            (map_fills (λ (s : Scored). s.distance) scored (omega (arith, same, some_play)))
            (All-map _ (λ (s : Scored). s.distance) scored
              (own_kept (λ (s : Scored). s.distance) scored)))
          λ best h.
            Returns-imp (break_tie env p round config (keep (same_distance best) scored)) _ _
              (λ a k.
                let (s, acted, (sure, tie)) = k in
                let near : s.distance ≡ best = eq_ℤ-eq s.distance best tie in
                (
                  subst P acted sure.0.0,
                  record {
                    s = s;
                    scores = ap (score_play env p round config) (sym acted) ∙ sure.0.1;
                    closest =
                        traverse_back (score_play env p round config)
                          (λ t. s.distance ≤ℤ t.distance) (keep is_play legal) scored e
                          (subst (λ d. All (λ (t : Scored). d ≤ℤ t.distance) scored) (sym near)
                            (map-All (λ (t : Scored). t.distance) (λ d. best ≤ℤ d) scored h.1));
                  },
                ))
              (break_tie-Returns (λ s. Good s × (same_distance best s ≡ true))
                (keep (same_distance best) scored) h.0
                (All-keep Good (same_distance best) scored good)
                (All-imp (λ s. Good s × (same_distance best s ≡ true)) _
                  (keep (same_distance best) scored) (λ s k. k.0.1)
                  (All-keep Good (same_distance best) scored good))))
