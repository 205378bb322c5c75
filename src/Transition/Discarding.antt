-- ===== src/Transition/Discarding.antt =====
-- play.py and the opening of a claim window in mahjong/engine/transition/.
use mathlib.Core.Path.{subst}
use native.Mathlib.Nat.{mod-lt}
use mahjong_server_bot_zoo.Prelude.{
  ℕ, ◌+◌, ◌≤◌, ◌<◌, ◌≡◌, inl, inr, refl, sym, ◌∙◌, false, Bool, none, some, List, [], ◌∷◌, ◌++◌,
  arith, eqb, if◌then◌else◌, length, get_elem?, get_elem?-total, All, All-imp, All-append,
  Bool-cases,
}
use mahjong_server_bot_zoo.Prelude.Counting.{count, count-append, sum_by-set}
use mahjong_server_bot_zoo.Prelude.Seq.{
  Returns, Returns-bind, Returns-imp, remove, remove-Returns, Removed, last?, last?-append,
}
use mahjong_server_bot_zoo.Prelude.Sub.{Sub, Sub-All, Sub-is_sorted}
use mahjong_server_bot_zoo.Tiles.{Tile, tile_le, tile_eq, is_flower}
use mahjong_server_bot_zoo.Tiles.Order.{tile_le_trans}
use mahjong_server_bot_zoo.State.{Action, Seat, LastDiscard, Phase, PendingClaim, GameState}
use mahjong_server_bot_zoo.Rules.{Env}
use mahjong_server_bot_zoo.Legality.{claim_actions}
use mahjong_server_bot_zoo.Legality.Justified.{MayClaim, claim_actions-All}
use mahjong_server_bot_zoo.Transition.{
  pending_of, pending_claims_at, open_or_advance, open_on, open_claim_window_or_advance,
  advance_to_next_seat_discard, next_after, put_seat, apply_play,
}
use mahjong_server_bot_zoo.Transition.Invariant.{
  seat_tally, work, hand_size, HandIsSound, DiscardIsOnTop, ClaimFits, TableIsSound, IsSound,
  IsReady, Conserves, Continues,
}
use mahjong_server_bot_zoo.Transition.Seats.{EachSeat-set, scores-set, discard_sizes}
use mahjong_server_bot_zoo.Transition.Drawing.{TableIsSound-set, internal_draw-Continues}

-- A hand from which tiles were taken is sound, with any sound melds.
pub fewer-HandIsSound :
    (p : Seat) (rest : List Tile)
    → HandIsSound p
    → Sub rest p.concealed
    → HandIsSound (record p { concealed = rest })
fewer-HandIsSound p rest h sub = record {
  melds = h.melds;
  wind = h.wind;
  in_order = Sub-is_sorted tile_le tile_le_trans sub h.in_order;
  no_flower = Sub-All (λ t. is_flower t ≡ false) sub h.no_flower;
}

-- Every action but PLAY has a place in a claim window.
abbrev Claims : Action → Type 0
Claims (Action.play _) = ⊥
Claims _ = Unit

May-Claims :
    (env : Env) (s : GameState) (is_next : Bool) (called : Tile) (p : Seat) (a : Action)
    → MayClaim env s is_next called p a
    → Claims a
May-Claims env s is_next called p (Action.play t) h = h
May-Claims env s is_next called p _ h = tt

pending_of-Returns :
    (seat : ℕ) (actions : List Action)
    → All Claims actions
    → Returns (pending_of seat actions) (All (λ c. c.seat ≡ seat))
unfolding pending_of
pending_of-Returns seat [] h = tt
pending_of-Returns seat (Action.play _ ∷ rest) h = absurd h.0
pending_of-Returns seat (Action.pass ∷ rest) h = pending_of-Returns seat rest h.1
pending_of-Returns seat (a ∷ rest) h =
    Returns-bind (pending_of seat rest) _ (All (λ c. c.seat ≡ seat)) _
      (pending_of-Returns seat rest h.1) (λ more own. (refl, own))

module _ (env : Env) (s : GameState) (last : LastDiscard) (table : TableIsSound env s)
    (opened : s.last_discard ≡ some last) where
  pending_claims_at-Returns :
      (seats : List ℕ)
      → All (λ i. i < 4) seats
      → Returns (pending_claims_at env s last.seat seats) (All (ClaimFits last))
  unfolding pending_claims_at
  pending_claims_at-Returns [] h = tt
  pending_claims_at-Returns (i ∷ seats) h = elim (Bool-cases (eqb i last.seat)) [
    | inl own ↦ rw own (pending_claims_at-Returns seats h.1)
    | inr other ↦
        let (p, found) = get_elem?-total s.seats i (rw table.four h.0) in
        rw other (
          Returns-bind (claim_actions env s i) _ (All Claims) _
            (Returns-imp (claim_actions env s i) _ (All Claims)
              (λ actions k.
                All-imp _ Claims actions (λ a m. May-Claims env s _ last.tile p a m.1) k)
              (claim_actions-All env s i p last table opened found))
            λ actions k.
              Returns-bind (pending_of i actions) _ (All (λ c. c.seat ≡ i)) _
                (pending_of-Returns i actions k)
                λ entries own.
                  Returns-bind (pending_claims_at env s last.seat seats) _ (All (ClaimFits last)) _
                    (pending_claims_at-Returns seats h.1)
                    λ later fit.
                      All-append (ClaimFits last) entries later
                        (All-imp (λ c. c.seat ≡ i) (ClaimFits last) entries
                          (λ c e. ground (arith, h.0)) own)
                        fit)
  ]

module _ (env : Env) where
  -- What a step leads to that leaves no more to play than before.
  pub record Settles (s t : GameState) : Type 0 where
    pub sound : IsSound env t
    pub conserves : Conserves s t
    pub no_more : work t ≤ work s

  pub Continues-Settles : {s t : GameState} → Continues env s t → Settles s t
  Continues-Settles c = record { sound = c.sound; conserves = c.conserves; no_more = c.advances.0 }

  -- With the window closed the next seat draws.
  pub advance-Continues :
      (s : GameState)
      → IsReady env s
      → next_after s.last_discard s.current_actor < 4
      → Returns (advance_to_next_seat_discard s) (Continues env s)
  unfolding advance_to_next_seat_discard
  advance-Continues s h lt =
      let closed : GameState = record s { last_discard = none; pending_claims = [] } in
      Returns-imp _ (Continues env closed) (Continues env s)
        (λ t c. record {
          sound = c.sound;
          conserves = record { tiles = c.conserves.tiles; scored = c.conserves.scored };
          advances = c.advances;
        })
        (internal_draw-Continues env closed (next_after s.last_discard s.current_actor)
          (record {
            table = record {
              four = h.table.four;
              config = h.table.config;
              resolves = h.table.resolves;
              usable = h.table.usable;
              round = h.table.round;
              hands = h.table.hands;
            };
            sizes = h.sizes;
          })
          lt refl)

  open_or_advance-Settles :
      (s : GameState) (last : LastDiscard) (claims : List PendingClaim)
      → s.last_discard ≡ some last
      → IsReady env s
      → DiscardIsOnTop last s.seats
      → All (ClaimFits last) claims
      → Returns (open_or_advance s last claims) (Settles s)
  open_or_advance-Settles s last [] opened h top fit =
      Returns-imp (advance_to_next_seat_discard s) (Continues env s) (Settles s)
        (λ t c. Continues-Settles c) (advance-Continues s h (rw opened (mod-lt _ (omega arith))))
  open_or_advance-Settles s last (c ∷ cs) opened h top fit = record {
    sound = record {
      table = record {
        four = h.table.four;
        config = h.table.config;
        resolves = h.table.resolves;
        usable = h.table.usable;
        round = h.table.round;
        hands = h.table.hands;
      };
      sizes = h.sizes;
      turn = rw opened top;
      drawn = tt;
      pending = rw opened (omega arith, fit);
    };
    conserves = record { tiles = λ a. refl; scored = refl };
    no_more = omega arith;
  }

  -- After a discard the claim window opens, or the next seat draws.
  pub open_claim_window-Settles :
      (s : GameState) (last : LastDiscard)
      → s.last_discard ≡ some last
      → IsReady env s
      → DiscardIsOnTop last s.seats
      → Returns (open_claim_window_or_advance env s) (Settles s)
  unfolding open_claim_window_or_advance
  open_claim_window-Settles s last opened h top =
      subst (λ o. Returns (open_on env o s) (Settles s)) (sym opened)
        (Returns-bind (pending_claims_at env s last.seat (0 ∷ 1 ∷ 2 ∷ 3 ∷ [])) _
          (All (ClaimFits last)) _
          (pending_claims_at-Returns env s last h.table opened (0 ∷ 1 ∷ 2 ∷ 3 ∷ []) (omega arith))
          (λ claims fit. open_or_advance-Settles s last claims opened h top fit))

module _ (env : Env) (s : GameState) (seat : ℕ) (t : Tile) (p : Seat) (rest : List Tile)
    (sound : IsSound env s) (phase : s.phase ≡ Phase.discard) (mine : s.current_actor ≡ seat)
    (lt : seat < 4) (found : get_elem? s.seats seat ≡ some p)
    (gone : Removed t p.concealed rest) where
  after_play : Seat
  after_play = record p { concealed = rest; discards = p.discards ++ t ∷ [] }

  discarded : GameState
  discarded = record (put_seat s seat after_play) {
    turn_index = s.turn_index + 1;
    last_discard = some (record { tile = t; seat = seat; turn_index = s.turn_index + 1 });
  }

  discarded-IsReady : IsReady env discarded
  unfolding discarded after_play
  discarded-IsReady = record {
    table = TableIsSound-set env s discarded seat after_play sound.table refl refl refl (
        let h = fewer-HandIsSound p rest (sound.table.hands seat p found) gone.sub in
        record { melds = h.melds; wind = h.wind; in_order = h.in_order; no_flower = h.no_flower });
    sizes =
        EachSeat-set (λ i q. hand_size q ≡ (if eqb i seat then 14 else 13))
          (λ i q. hand_size q ≡ 13) s.seats seat after_play
          (discard_sizes env s sound seat phase mine)
          (ground (arith, (discard_sizes env s sound seat phase mine) seat p found, gone.shorter))
          (λ i q ne h. ground arith);
  }

  play-Continues : Returns (open_claim_window_or_advance env discarded) (Continues env s)
  unfolding discarded after_play
  play-Continues =
      Returns-imp (open_claim_window_or_advance env discarded) (Settles env discarded)
        (Continues env s)
        (λ u c.
          let less : work u < work s = omega (
            arith,
            c.no_more,
            gone.shorter,
            sum_by-set (λ (q : Seat). length q.concealed) s.seats seat p after_play found,
          ) in
          record {
            sound = c.sound;
            conserves = record {
              tiles = λ a. omega (
                arith,
                c.conserves.tiles a,
                gone.counts a,
                count-append a p.discards (t ∷ []),
                sum_by-set (seat_tally a) s.seats seat p after_play found,
              );
              scored = c.conserves.scored ∙ scores-set s.seats seat p after_play found refl;
            };
            advances = (omega arith, inl less);
          })
        (open_claim_window-Settles env discarded
          (record { tile = t; seat = seat; turn_index = s.turn_index + 1 }) refl discarded-IsReady
          (
            lt,
            EachSeat-set (λ i q. Unit) (λ i q. i ≡ seat → last? q.discards ≡ some t) s.seats seat
                after_play (λ i q e. tt) (λ _. last?-append p.discards t)
                (λ i q ne _ same. absurd (ne same)),
          ))

-- On a sound state in the discard phase, `apply_play` for the seat whose turn it is, of a tile that
-- its hand holds, returns a sound state with the same copies of every tile and the same sum of
-- scores, and with less left to play or the hand over.
pub apply_play-Continues :
    (env : Env) (s : GameState) (seat : ℕ) (t : Tile) (p : Seat)
    → IsSound env s
    → s.phase ≡ Phase.discard
    → s.current_actor ≡ seat
    → seat < 4
    → get_elem? s.seats seat ≡ some p
    → 0 < count t p.concealed
    → Returns (apply_play env s seat t) (Continues env s)
unfolding apply_play discarded after_play
apply_play-Continues env s seat t p sound phase mine lt found has = rw found (
    Returns-bind (remove t p.concealed) _ (Removed t p.concealed) (Continues env s)
      (remove-Returns t p.concealed has)
      (λ rest gone. play-Continues env s seat t p rest sound phase mine lt found gone))
