-- ===== src/Transition/Claiming.antt =====
-- The claims of mahjong/engine/transition/: PENG and CHI (claim.py), the exposed GANG (gang.py)
-- and PASS (pass_.py).
use mathlib.Core.Path.{subst₂}
use native.Mathlib.Nat.{mod-lt}
use mahjong_server_bot_zoo.Prelude.{
  ℕ, ◌+◌, ◌≤◌, ◌<◌, ◌≡◌, ◌≢◌, inl, refl, ◌∙◌, none, some, List, [], ◌∷◌, ◌++◌, arith, eqb, not,
  if◌then◌else◌, get_elem?, ==_iff, keep, All, All-imp,
}
use mahjong_server_bot_zoo.Prelude.Every.{All-keep}
use mahjong_server_bot_zoo.Prelude.Counting.{count}
use mahjong_server_bot_zoo.Prelude.Seq.{
  Returns, Returns-bind, Returns-imp, or_raise, or_raise-eq, assertion_error, index_error, index,
  remove, remove-Returns, Removed,
}
use mahjong_server_bot_zoo.Prelude.Sub.{Sub-trans}
use mahjong_server_bot_zoo.Tiles.{Tile, tile_eq}
use mahjong_server_bot_zoo.State.{MeldType, Meld, Seat, LastDiscard, Phase, PendingClaim, GameState}
use mahjong_server_bot_zoo.Rules.{Env}
use mahjong_server_bot_zoo.Legality.Justified.{ChiFits}
use mahjong_server_bot_zoo.Transition.{
  put_seat, consume_discard, hand_to_claimer, take_meld, apply_peng, apply_chi, remove_run,
  remove_n, kong, gang_exposed, internal_draw, advance_to_next_seat_discard, after_pass, apply_pass,
}
use mahjong_server_bot_zoo.Transition.Invariant.{
  hand_size, Fits, ClaimFits, PendingIsSound, MeldIsSound, TableIsSound, IsSound, Continues,
}
use mahjong_server_bot_zoo.Transition.Seats.{EachSeat-imp, claim_sizes}
use mahjong_server_bot_zoo.Transition.Drawing.{internal_draw-Continues}
use mahjong_server_bot_zoo.Transition.Discarding.{Settles, advance-Continues, Continues-Settles}
use mahjong_server_bot_zoo.Transition.Claimed.{Takes, Claimed, claim-Returns}
use mahjong_server_bot_zoo.Transition.Removing.{RemovedN, remove_n-Returns, chi-Takes}

-- A table with other seats is sound when those seats are.
Claimed-TableIsSound :
    (env : Env) (s t : GameState) (seat k : ℕ)
    → TableIsSound env s
    → t.rules ≡ s.rules
    → t.round_wind ≡ s.round_wind
    → Claimed s seat k t.seats
    → TableIsSound env t
Claimed-TableIsSound env s t seat k h er ew c = record {
  four = c.four;
  config = h.config;
  resolves = rw er h.resolves;
  usable = h.usable;
  round = rw ew h.round;
  hands = c.hands;
}

-- The state after `_consume_discard`, with the seats written in.
abbrev consumed : GameState → List Seat → GameState
consumed s seats = record s {
  seats = seats;
  last_discard = none;
  last_drawn = none;
  pending_claims = [];
}

module _ (env : Env) (s : GameState) (last : LastDiscard) (seat : ℕ) (p : Seat)
    (sound : IsSound env s) (phase : s.phase ≡ Phase.claim_window)
    (opened : s.last_discard ≡ some last) (other : seat ≢ last.seat) (lt : seat < 4)
    (found : get_elem? s.seats seat ≡ some p) where
  -- The claimer discards next, with 14 tiles.
  hand_to_claimer-Continues :
      (seats : List Seat)
      → Claimed s seat 2 seats
      → Continues env s (hand_to_claimer (consumed s seats) seat)
  hand_to_claimer-Continues seats c = record {
    sound = record {
      table =
          Claimed-TableIsSound env s (hand_to_claimer (consumed s seats) seat) seat 2 sound.table
            refl refl c;
      sizes =
          EachSeat-imp (λ i q. hand_size q + (if eqb i seat then 2 else 3) ≡ 16)
            (λ i q. Fits Phase.discard seat i (hand_size q)) seats c.sizes (λ i q h. ground arith);
      turn = lt;
      drawn = tt;
      pending = tt;
    };
    conserves = record { tiles = λ a. omega (arith, c.tiles a); scored = c.scored };
    advances = (omega (arith, c.fewer), inl (omega (arith, c.fewer)));
  }

  take_meld-Continues :
      (rest : List Tile) (meld : Meld)
      → MeldIsSound meld
      → Takes 2 last.tile p.concealed rest meld.tiles
      → Returns (take_meld s seat p rest meld last.seat) (Continues env s)
  unfolding consume_discard
  take_meld-Continues rest meld shape takes =
      Returns-bind
        (consume_discard
          (put_seat s seat (record p { concealed = rest; melds = p.melds ++ meld ∷ [] })) last.seat)
        _ (λ s'. (seats : List Seat) × Claimed s seat 2 seats × (s' ≡ consumed s seats))
        (Continues env s)
        (claim-Returns env s last seat p rest meld 2 sound phase opened other found shape takes _ _
          (λ q left c. (_, c, refl)))
        λ s' (seats, c, same). rw same (hand_to_claimer-Continues seats c)

  -- PENG: two copies leave the hand.
  peng-Takes :
      (t : Tile) (one_less rest : List Tile)
      → t ≡ last.tile
      → Removed t p.concealed one_less
      → Removed t one_less rest
      → Takes 2 last.tile p.concealed rest (t ∷ t ∷ t ∷ [])
  peng-Takes t one_less rest same r1 r2 = rw (← same) (record {
    moved = λ a. omega (arith, r1.counts a, r2.counts a);
    shorter = omega (arith, r1.shorter, r2.shorter);
    sub = Sub-trans r2.sub r1.sub;
  })

  -- On a sound state in the claim window, `apply_peng` of the open discard for a seat other than the
  -- discarder that holds two copies of it returns a sound state with the same copies of every tile
  -- and the same sum of scores, and with less left to play or the hand over.
  pub apply_peng-Continues :
      (t : Tile)
      → t ≡ last.tile
      → 2 ≤ count t p.concealed
      → Returns (apply_peng s seat t) (Continues env s)
  unfolding apply_peng
  apply_peng-Continues t same has =
      Returns-bind (or_raise s.last_discard assertion_error) _ (λ l. l ≡ last) (Continues env s)
        (or_raise-eq s.last_discard assertion_error last opened)
        λ l el.
          Returns-bind (index s.seats seat) _ (λ q. q ≡ p) (Continues env s)
            (or_raise-eq (get_elem? s.seats seat) index_error p found)
            λ q eq.
              rw (el, eq)
                (Returns-bind (remove t p.concealed) _ (Removed t p.concealed) (Continues env s)
                  (remove-Returns t p.concealed (omega arith))
                  λ one_less r1.
                    Returns-bind (remove t one_less) _ (Removed t one_less) (Continues env s)
                      (remove-Returns t one_less (ground (arith, r1.counts t, ==_iff t t)))
                      λ rest r2.
                        take_meld-Continues rest _ (t, refl)
                          (peng-Takes t one_less rest same r1 r2))

  pub apply_chi-Continues :
      (ts : List Tile)
      → ChiFits last.tile p.concealed ts
      → Returns (apply_chi s seat ts) (Continues env s)
  unfolding apply_chi
  apply_chi-Continues ts fits =
      Returns-bind (or_raise s.last_discard assertion_error) _ (λ l. l ≡ last) (Continues env s)
        (or_raise-eq s.last_discard assertion_error last opened)
        λ l el.
          Returns-bind (index s.seats seat) _ (λ q. q ≡ p) (Continues env s)
            (or_raise-eq (get_elem? s.seats seat) index_error p found)
            λ q eq.
              rw (el, eq)
                (Returns-bind (remove_run last.tile ts p.concealed) _
                  (λ rest. Takes 2 last.tile p.concealed rest ts) (Continues env s)
                  (chi-Takes last.tile p.concealed ts fits)
                  (λ rest takes. take_meld-Continues rest _ (rw fits.run refl) takes))

  -- An exposed kong: three copies leave the hand, and a tile is drawn.
  kong_state : List Seat → GameState
  kong_state seats = record s {
    seats = seats;
    last_discard = none;
    pending_claims = [];
    turn_index = s.turn_index + 1;
  }

  kong_state-Continues :
      (seats : List Seat)
      → Claimed s seat 3 seats
      → Returns (internal_draw (kong_state seats) seat) (Continues env s)
  unfolding kong_state
  kong_state-Continues seats c =
      Returns-imp (internal_draw (kong_state seats) seat) (Continues env (kong_state seats))
        (Continues env s)
        (λ t d. record {
          sound = d.sound;
          conserves = record {
            tiles = λ a. omega (arith, d.conserves.tiles a, c.tiles a);
            scored = d.conserves.scored ∙ c.scored;
          };
          advances =
              (omega (arith, d.advances.0, c.fewer), inl (omega (arith, d.advances.0, c.fewer)));
        })
        (internal_draw-Continues env (kong_state seats) seat
          (record {
            table = Claimed-TableIsSound env s (kong_state seats) seat 3 sound.table refl refl c;
            sizes =
                EachSeat-imp (λ i q. hand_size q + (if eqb i seat then 3 else 3) ≡ 16)
                  (λ i q. hand_size q ≡ 13) seats c.sizes (λ i q h. ground arith);
          })
          lt refl)

  pub gang_exposed-Continues :
      (t : Tile)
      → t ≡ last.tile
      → 3 ≤ count t p.concealed
      → Returns (gang_exposed s seat t) (Continues env s)
  unfolding gang_exposed kong_state
  gang_exposed-Continues t same has =
      Returns-bind (or_raise s.last_discard assertion_error) _ (λ l. l ≡ last) (Continues env s)
        (or_raise-eq s.last_discard assertion_error last opened)
        λ l el.
          Returns-bind (index s.seats seat) _ (λ q. q ≡ p) (Continues env s)
            (or_raise-eq (get_elem? s.seats seat) index_error p found)
            λ q eq.
              rw (el, eq)
                (Returns-bind (remove_n 3 t p.concealed) _ (RemovedN 3 t p.concealed)
                  (Continues env s) (remove_n-Returns 3 t p.concealed has)
                  λ rest r.
                    claim-Returns env s last seat p rest
                      (kong MeldType.gang_exposed t (some t) last.seat) 3 sound phase opened other
                      found (t, refl)
                      (rw (← same) (record {
                        moved = λ a. omega (arith, r.counts a);
                        shorter = r.shorter;
                        sub = r.sub;
                      }))
                      _ (Continues env s) (λ q left c. kong_state-Continues _ c))

module _ (env : Env) (s : GameState) (last : LastDiscard) (sound : IsSound env s)
    (phase : s.phase ≡ Phase.claim_window) (opened : s.last_discard ≡ some last) where
  -- The window without some of its entries.
  with_claims : List PendingClaim → GameState
  with_claims claims = record s { pending_claims = claims }

  with_claims-TableIsSound : (claims : List PendingClaim) → TableIsSound env (with_claims claims)
  unfolding with_claims
  with_claims-TableIsSound claims = record {
    four = sound.table.four;
    config = sound.table.config;
    resolves = sound.table.resolves;
    usable = sound.table.usable;
    round = sound.table.round;
    hands = sound.table.hands;
  }

  -- The last PASS closes the window, and the seat after the discarder draws.
  pub last_pass-Continues : Returns (after_pass s []) (Continues env s)
  unfolding with_claims
  last_pass-Continues =
      Returns-imp (advance_to_next_seat_discard (with_claims [])) (Continues env (with_claims [])) _
        (λ t c. record {
          sound = c.sound;
          conserves = record { tiles = c.conserves.tiles; scored = c.conserves.scored };
          advances = c.advances;
        })
        (advance-Continues env (with_claims [])
          (record { table = with_claims-TableIsSound []; sizes = claim_sizes env s sound phase })
          (rw opened (mod-lt _ (omega arith))))

  pending_fit : All (ClaimFits last) s.pending_claims
  pending_fit = (subst₂ (λ ph o. PendingIsSound ph o s.pending_claims) phase opened sound.pending).1

  after_pass-Settles :
      (claims : List PendingClaim)
      → All (ClaimFits last) claims
      → Returns (after_pass s claims) (Settles env s)
  unfolding with_claims
  after_pass-Settles [] fit =
      Returns-imp (after_pass s []) (Continues env s) (Settles env s)
        (λ t c. Continues-Settles env c) last_pass-Continues
  after_pass-Settles (c ∷ cs) fit = record {
    sound = record {
      table = with_claims-TableIsSound (c ∷ cs);
      sizes = sound.sizes;
      turn = sound.turn;
      drawn = sound.drawn;
      pending = rw (phase, opened) (omega arith, fit);
    };
    conserves = record { tiles = λ a. refl; scored = refl };
    no_more = omega arith;
  }

  -- On a sound state in the claim window, `apply_pass` of any seat returns a sound state with the
  -- same copies of every tile and the same sum of scores, and with no more left to play.
  pub apply_pass-Settles : (seat : ℕ) → Returns (apply_pass s seat) (Settles env s)
  unfolding apply_pass
  apply_pass-Settles seat =
      let others = λ (c : PendingClaim). not (eqb c.seat seat) in
      after_pass-Settles (keep others s.pending_claims) (
        All-imp _ (ClaimFits last) (keep others s.pending_claims) (λ c h. h.0)
          (All-keep (ClaimFits last) others s.pending_claims pending_fit))
