-- ===== src/Bots/Reaching.antt =====
-- How near to a win a claim leads, in mahjong/bots/v0.py: over the discards that it leaves.
use mahjong_server_bot_zoo.Prelude.{
  ◌+◌, ◌*◌, ◌≤◌, ◌<◌, ◌≡◌, inl, inr, refl, Option, none, some, List, [], ◌∷◌, ◌++◌, arith, false,
  length, length-append, All, All-append, All-imp, Bool-cases, ==_iff,
}
use mahjong_server_bot_zoo.Prelude.Int.{ℤ, ◌≤ℤ◌}
use mahjong_server_bot_zoo.Prelude.Counting.{one, count, contains, contains-All}
use mahjong_server_bot_zoo.Prelude.Every.{All-and}
use mahjong_server_bot_zoo.Prelude.Seq.{
  Result, ok, Returns, Returns-bind, Returns-self, Returns-ok, Returns-imp, remove, remove-Returns,
  Removed, ◌>>=◌,
}
use mahjong_server_bot_zoo.Prelude.Sub.{Sub-All, Sub-trans}
use mahjong_server_bot_zoo.Tiles.{Tile, tile_eq, is_flower}
use mahjong_server_bot_zoo.State.{Action, MeldType, Seat, Meld, LastDiscard}
use mahjong_server_bot_zoo.Rules.{Config, Env}
use mahjong_server_bot_zoo.Legality.{distinct}
use mahjong_server_bot_zoo.Legality.Justified.{ChiFits}
use mahjong_server_bot_zoo.Legality.Waits.{Answers, IsDrawn, IsStanding}
use mahjong_server_bot_zoo.Transition.{remove_run}
use mahjong_server_bot_zoo.Transition.Claimed.{Takes}
use mahjong_server_bot_zoo.Transition.Removing.{chi-Takes}
use mahjong_server_bot_zoo.Transition.Invariant.{MeldIsSound, HandIsSound, IsWind}
use mahjong_server_bot_zoo.Bots.{
  traverse, least, lt_ℤ, claimed_meld, distance, apply_claim, reachable, reached_by,
}
use mahjong_server_bot_zoo.Bots.Choosing.{traverse-Returns, traverse_back, least-le, le_ℤ_trans}
use mahjong_server_bot_zoo.Bots.Measured.{
  fan_aware_distance-Returns, distinct-held, some_distinct, Removed-IsStanding,
}

-- What a listed claim can rely on.
abbrev pub ClaimIsHeld : LastDiscard → List Tile → Action → Type 0
ClaimIsHeld last hand (Action.peng t) = 2 ≤ count t hand
ClaimIsHeld last hand (Action.chi ts) = ChiFits last.tile hand ts
ClaimIsHeld last hand action = Unit

-- The hand and the melds after a claim. For PENG two copies leave the hand, for CHI the run without
-- the called tile, and the meld is laid down.
abbrev pub IsClaimed : LastDiscard → Seat → Action → List Tile × List Meld → Type 0
IsClaimed last p (Action.peng t) (hand, melds) =
    ((x : Tile) → count x p.concealed ≡ 2 * one x t + count x hand)
    × (melds
        ≡ p.melds
          ++ record {
            kind = MeldType.peng;
            tiles = t ∷ t ∷ t ∷ [];
            called_tile = some t;
            called_from_seat = last.seat;
          }
            ∷ [])
IsClaimed last p (Action.chi ts) (hand, melds) =
    ((x : Tile) → count x p.concealed + one x last.tile ≡ count x hand + count x ts)
    × (melds
        ≡ p.melds
          ++ record {
            kind = MeldType.chi;
            tiles = ts;
            called_tile = some last.tile;
            called_from_seat = last.seat;
          }
            ∷ [])
IsClaimed last p action after = ⊥

distinct-All : (P : Tile → Type 0) (ts : List Tile) → All P (distinct ts) → All P ts
distinct-All P [] h = tt
distinct-All P (t ∷ ts) h = elim (Bool-cases (contains t ts)) [
  | inl again ↦
      let later : All P ts = distinct-All P ts (rw (again, All, distinct) at h) in
      (contains-All P t ts later again, later)
  | inr new ↦
      let k : All P (t ∷ distinct ts) = rw (new, All, distinct) at h in (k.0, distinct-All P ts k.1)
]

module _ (env : Env) (p : Seat) (round : Tile) (config : Config) where
  -- The discard of `u` leaves the hand at the distance `d`.
  pub record LeavesAt (after : List Tile × List Meld) (u : Tile) (d : ℤ) : Type 0 where
    pub left : List Tile
    pub gone : Removed u after.0 left
    pub far : distance env p round config left after.1 ≡ ok d

  -- Every discard leaves the hand at the distance `m` or farther.
  abbrev pub NoNearer : ℤ → List Tile × List Meld → Type 0
  NoNearer m after = All (λ u. (d : ℤ) × LeavesAt after u d × (m ≤ℤ d)) after.0

  -- After the claim some discard leaves the hand at the distance `d`.
  abbrev pub LeadsTo : LastDiscard → Action → ℤ → Type 0
  LeadsTo last action d =
      (after : List Tile × List Meld) × IsClaimed last p action after
      × ((u : Tile) × LeavesAt after u d)

  -- No discard after the claim leaves the hand nearer than `m`. Only PENG and CHI are weighed.
  abbrev pub IsWeighed : LastDiscard → ℤ → Action → Type 0
  IsWeighed last m (Action.peng t) =
      (after : List Tile × List Meld) × IsClaimed last p (Action.peng t) after × NoNearer m after
  IsWeighed last m (Action.chi ts) =
      (after : List Tile × List Meld) × IsClaimed last p (Action.chi ts) after × NoNearer m after
  IsWeighed last m action = Unit

  NoNearer-le :
      (m n : ℤ) (after : List Tile × List Meld) → m ≤ℤ n → NoNearer n after → NoNearer m after
  NoNearer-le m n after le h =
      All-imp (λ u. (d : ℤ) × LeavesAt after u d × (n ≤ℤ d))
        (λ u. (d : ℤ) × LeavesAt after u d × (m ≤ℤ d)) after.0
        (λ u k. (k.0, k.1, le_ℤ_trans m n k.0 le k.2)) h

  pub IsWeighed-le :
      (last : LastDiscard) (m n : ℤ) (action : Action)
      → m ≤ℤ n
      → IsWeighed last n action
      → IsWeighed last m action
  IsWeighed-le last m n (Action.peng t) le h = (h.0, h.1, NoNearer-le m n h.0 le h.2)
  IsWeighed-le last m n (Action.chi ts) le h = (h.0, h.1, NoNearer-le m n h.0 le h.2)
  IsWeighed-le last m n action le h = tt

module _ (env : Env) (answers : Answers env) (p : Seat) (round : Tile) (config : Config)
    (sound : HandIsSound p) (wind : IsWind round)
    (size : length p.concealed + 3 * length p.melds ≡ 13) (last : LastDiscard) where
  -- What a claim leaves: a drawn hand and sound melds.
  abbrev GoesOn : Action → List Tile × List Meld → Type 0
  GoesOn action after =
      IsClaimed last p action after
      × IsDrawn after.0 after.1
      × (0 < length after.0)
      × All MeldIsSound after.1

  peng-GoesOn :
      (t : Tile)
      → 2 ≤ count t p.concealed
      → Returns (apply_claim (Action.peng t) p.concealed p.melds last) (GoesOn (Action.peng t))
  unfolding apply_claim
  peng-GoesOn t two =
      Returns-bind (remove t p.concealed) _ (Removed t p.concealed) (GoesOn (Action.peng t))
        (remove-Returns t p.concealed (omega arith))
        λ one_less first_gone.
          let again : 0 < count t one_less = ground (arith, first_gone.counts t, ==_iff t t) in
          Returns-bind (remove t one_less) _ (Removed t one_less) (GoesOn (Action.peng t))
            (remove-Returns t one_less again)
            λ rest second_gone. (
              ((λ x. omega (arith, first_gone.counts x, second_gone.counts x)), refl),
              (
                omega (
                  arith,
                  first_gone.shorter,
                  second_gone.shorter,
                  size,
                  length-append p.melds
                      (claimed_meld MeldType.peng (t ∷ t ∷ t ∷ []) t last.seat ∷ []),
                ),
                Sub-All (λ x. is_flower x ≡ false) (Sub-trans second_gone.sub first_gone.sub)
                    sound.no_flower,
              ),
              omega (arith, first_gone.shorter, second_gone.shorter, size),
              All-append MeldIsSound p.melds _ sound.melds ((t, refl), tt),
            )

  chi-GoesOn :
      (ts : List Tile)
      → ChiFits last.tile p.concealed ts
      → Returns (apply_claim (Action.chi ts) p.concealed p.melds last) (GoesOn (Action.chi ts))
  unfolding apply_claim
  chi-GoesOn ts fits =
      Returns-bind (remove_run last.tile ts p.concealed) _
        (λ rest. Takes 2 last.tile p.concealed rest ts) (GoesOn (Action.chi ts))
        (chi-Takes last.tile p.concealed ts fits)
        λ rest taken. (
          (taken.moved, refl),
          (
            omega (
              arith,
              taken.shorter,
              size,
              length-append p.melds (claimed_meld MeldType.chi ts last.tile last.seat ∷ []),
            ),
            Sub-All (λ x. is_flower x ≡ false) taken.sub sound.no_flower,
          ),
          omega (arith, taken.shorter, size),
          All-append MeldIsSound p.melds _ sound.melds (rw fits.run refl, tt),
        )

  -- Each discard after a claim has a distance.
  module _ (after : List Tile × List Meld) (drawn : IsDrawn after.0 after.1)
      (melds : All MeldIsSound after.1) where
    discarded : Tile → Result ℤ
    discarded u = remove u after.0 >>= λ rest. distance env p round config rest after.1

    rest-Returns :
        (rest : List Tile)
        → IsStanding rest after.1
        → Returns (distance env p round config rest after.1) (λ d. Unit)
    unfolding distance
    rest-Returns rest standing =
        fan_aware_distance-Returns env answers p.seat_wind round config rest after.1 melds
          sound.wind wind standing

    discarded-LeavesAt :
        (u : Tile)
        → 0 < count u after.0
        → Returns (discarded u) (LeavesAt env p round config after u)
    unfolding discarded
    discarded-LeavesAt u has =
        Returns-bind (remove u after.0) _ (Removed u after.0) _ (remove-Returns u after.0 has)
          λ rest gone.
            Returns-imp (distance env p round config rest after.1)
              (λ d. Unit × (distance env p round config rest after.1 ≡ ok d)) _
              (λ d k. record { left = rest; gone = gone; far = k.1 })
              (Returns-self (distance env p round config rest after.1) (λ d. Unit)
                (rest-Returns rest (Removed-IsStanding u after.0 rest after.1 drawn gone)))

    -- The least of them is the distance after some discard, and no discard leads nearer.
    least-LeavesAt :
        0 < length after.0
        → Returns (traverse discarded (distinct after.0) >>= λ reached. least lt_ℤ reached) (λ m.
          ((u : Tile) × LeavesAt env p round config after u m)
          × NoNearer env p round config m after)
    least-LeavesAt filled =
        let Q : ℤ → Type 0 = λ d. (u : Tile) × LeavesAt env p round config after u d in
        let (ds, e, (q, same)) = Returns-ok (traverse discarded (distinct after.0)) _ (
          traverse-Returns discarded (λ u. 0 < count u after.0) Q (distinct after.0)
            (distinct-held after.0)
            (λ u has.
              Returns-imp (discarded u) (LeavesAt env p round config after u) Q (λ d k. (u, k))
                (discarded-LeavesAt u has))) in
        rw e (
          Returns-imp (least lt_ℤ ds) _ _
            (λ m k. (
              k.0,
              distinct-All (λ u. (d : ℤ) × LeavesAt env p round config after u d × (m ≤ℤ d)) after.0
                  (All-imp _ _ (distinct after.0)
                    (λ u both.
                      let (d, eq, leaves) =
                        Returns-ok (discarded u) _ (discarded-LeavesAt u both.0) in
                      (d, leaves, both.1 d eq))
                    (All-and (λ u. 0 < count u after.0) _ (distinct after.0) (distinct-held after.0)
                      (traverse_back discarded (λ d. m ≤ℤ d) (distinct after.0) ds e k.1))),
            ))
            (least-le Q ds (omega (arith, same, some_distinct after.0 filled)) q))

  -- What `reachable` gives of a claim.
  abbrev Reaches : Action → ℤ → Type 0
  Reaches action m =
      (after : List Tile × List Meld) × IsClaimed last p action after
      × ((u : Tile) × LeavesAt env p round config after u m)
      × NoNearer env p round config m after

  reachable-Reaches :
      (action : Action)
      → Returns (apply_claim action p.concealed p.melds last) (GoesOn action)
      → Returns (reachable env p round config last action) (Reaches action)
  unfolding reachable discarded
  reachable-Reaches action h =
      Returns-bind (apply_claim action p.concealed p.melds last) _ (GoesOn action) (Reaches action)
        h
        λ after goes.
          let (claimed, drawn, filled, melds) = goes in
          Returns-imp
            (traverse (discarded after drawn melds) (distinct after.0) >>= λ reached.
              least lt_ℤ reached)
            _ (Reaches action) (λ m k. (after, claimed, k.0, k.1))
            (least-LeavesAt after drawn melds filled)

  -- What `reached_by` gives: for PENG and CHI the least distance that they lead to.
  abbrev pub ReachedBy : Action → Option ℤ → Type 0
  ReachedBy action none = (m : ℤ) → IsWeighed env p round config last m action
  ReachedBy action (some m) =
      LeadsTo env p round config last action m × IsWeighed env p round config last m action

  pub reached_by-ReachedBy :
      (action : Action)
      → ClaimIsHeld last p.concealed action
      → Returns (reached_by env p round config last action) (ReachedBy action)
  reached_by-ReachedBy (Action.peng t) h =
      Returns-bind (reachable env p round config last (Action.peng t)) _ (Reaches (Action.peng t))
        (ReachedBy (Action.peng t)) (reachable-Reaches (Action.peng t) (peng-GoesOn t h))
        (λ d k. ((k.0, k.1, k.2), (k.0, k.1, k.3)))
  reached_by-ReachedBy (Action.chi ts) h =
      Returns-bind (reachable env p round config last (Action.chi ts)) _ (Reaches (Action.chi ts))
        (ReachedBy (Action.chi ts)) (reachable-Reaches (Action.chi ts) (chi-GoesOn ts h))
        (λ d k. ((k.0, k.1, k.2), (k.0, k.1, k.3)))
  reached_by-ReachedBy action h = λ m. tt
