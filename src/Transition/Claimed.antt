-- ===== src/Transition/Claimed.antt =====
-- The part that PENG, CHI and the exposed GANG of mahjong/engine/transition/ share: tiles leave
-- the claimer's hand for a new meld, and the claimed tile leaves the discarder's discards.
use mathlib.Core.Path.{subst₂}
use mahjong_server_bot_zoo.Prelude.{
  ℕ, ◌+◌, ◌≡◌, ◌≢◌, refl, ◌∙◌, some, List, [], ◌∷◌, ◌++◌, arith, eqb, if◌then◌else◌, length,
  length-append, length-set, get_elem?, set, All-append,
}
use mahjong_server_bot_zoo.Prelude.Counting.{one, count, sum_by, sum_by-append, sum_by-set}
use mahjong_server_bot_zoo.Prelude.Seq.{
  Result, Returns, Returns-bind, index, index-Returns, pop, pop-Returns, Removed, last?, ◌>>=◌,
}
use mahjong_server_bot_zoo.Prelude.Sub.{Sub}
use mahjong_server_bot_zoo.Tiles.{Tile, tile_eq}
use mahjong_server_bot_zoo.State.{Meld, Seat, LastDiscard, Phase, GameState}
use mahjong_server_bot_zoo.Rules.{Env}
use mahjong_server_bot_zoo.Transition.Invariant.{
  seat_tally, scores, hand_size, MeldIsSound, HandIsSound, EachSeat, DiscardIsOnTop, TurnIsSound,
  IsSound,
}
use mahjong_server_bot_zoo.Transition.Seats.{EachSeat-set, scores-set, claim_sizes}
use mahjong_server_bot_zoo.Transition.Discarding.{fewer-HandIsSound}

-- The new meld is the called tile and `k` tiles that left the hand.
pub record Takes (k : ℕ) (called : Tile) (hand rest tiles : List Tile) : Type 0 where
  pub moved : (a : Tile) → count a hand + one a called ≡ count a rest + count a tiles
  pub shorter : length hand ≡ k + length rest
  pub sub : Sub rest hand

-- The seats after a claim by `seat` that took `k` tiles from its hand.
pub record Claimed (s : GameState) (seat k : ℕ) (seats : List Seat) : Type 0 where
  pub four : length seats ≡ 4
  pub hands : EachSeat (λ i q. HandIsSound q) seats
  pub sizes : EachSeat (λ i q. hand_size q + (if eqb i seat then k else 3) ≡ 16) seats
  pub tiles : (a : Tile) → sum_by (seat_tally a) seats ≡ sum_by (seat_tally a) s.seats
  pub scored : scores seats ≡ scores s.seats
  pub fewer :
      sum_by (λ (q : Seat). length q.concealed) seats + k
      ≡ sum_by (λ (q : Seat). length q.concealed) s.seats

-- The open discard of a claim window.
pub open_discard :
    (env : Env) (s : GameState) (last : LastDiscard)
    → IsSound env s
    → s.phase ≡ Phase.claim_window
    → s.last_discard ≡ some last
    → DiscardIsOnTop last s.seats
open_discard env s last sound phase opened =
    subst₂ (λ ph o. TurnIsSound ph s.current_actor o s.seats) phase opened sound.turn

module _ (env : Env) (s : GameState) (last : LastDiscard) (seat : ℕ) (p : Seat) (rest : List Tile)
    (meld : Meld) (k : ℕ) (sound : IsSound env s) (phase : s.phase ≡ Phase.claim_window)
    (opened : s.last_discard ≡ some last) (other : seat ≢ last.seat)
    (found : get_elem? s.seats seat ≡ some p) (shape : MeldIsSound meld)
    (takes : Takes k last.tile p.concealed rest meld.tiles) where
  claimer : Seat
  claimer = record p { concealed = rest; melds = p.melds ++ meld ∷ [] }

  claimer-HandIsSound : HandIsSound claimer
  unfolding claimer
  claimer-HandIsSound =
      let h = fewer-HandIsSound p rest (sound.table.hands seat p found) takes.sub in
      record {
        melds = All-append MeldIsSound p.melds (meld ∷ []) h.melds (shape, tt);
        wind = h.wind;
        in_order = h.in_order;
        no_flower = h.no_flower;
      }

  top : DiscardIsOnTop last s.seats
  top = open_discard env s last sound phase opened

  -- The discarder's discards still end in the called tile.
  still_on_top :
      EachSeat (λ i q. i ≡ last.seat → last? q.discards ≡ some last.tile) (set s.seats seat claimer)
  unfolding claimer
  still_on_top =
      EachSeat-set (λ i q. i ≡ last.seat → last? q.discards ≡ some last.tile)
        (λ i q. i ≡ last.seat → last? q.discards ≡ some last.tile) s.seats seat claimer top.1
        (λ same. absurd (other same)) (λ i q ne h. h)

  module _ (q : Seat) (left : List Tile)
      (at : get_elem? (set s.seats seat claimer) last.seat ≡ some q)
      (popped : Removed last.tile q.discards left) where
    discarder : Seat
    discarder = record q { discards = left }

    claimed_seats : List Seat
    claimed_seats = set (set s.seats seat claimer) last.seat discarder

    hands_between : EachSeat (λ i q. HandIsSound q) (set s.seats seat claimer)
    hands_between =
        EachSeat-set (λ i q. HandIsSound q) (λ i q. HandIsSound q) s.seats seat claimer
          sound.table.hands claimer-HandIsSound (λ i q ne h. h)

    sizes_between :
        EachSeat
          (λ i q. hand_size q + (if eqb i seat then k else 3) ≡ 16)
          (set s.seats seat claimer)
    unfolding claimer
    sizes_between =
        EachSeat-set (λ i q. hand_size q ≡ 13)
          (λ i q. hand_size q + (if eqb i seat then k else 3) ≡ 16) s.seats seat claimer
          (claim_sizes env s sound phase)
          (ground (
            arith,
            claim_sizes env s sound phase seat p found,
            takes.shorter,
            length-append p.melds (meld ∷ []),
          ))
          (λ i q ne h. ground arith)

    claimed_seats-Claimed : Claimed s seat k claimed_seats
    unfolding claimer discarder claimed_seats
    claimed_seats-Claimed = record {
      four =
          length-set (set s.seats seat claimer) last.seat discarder
          ∙ length-set s.seats seat claimer
          ∙ sound.table.four;
      hands =
          EachSeat-set (λ i q. HandIsSound q) (λ i q. HandIsSound q) (set s.seats seat claimer)
            last.seat discarder hands_between
            (let h = hands_between last.seat q at in
              record {
                melds = h.melds;
                wind = h.wind;
                in_order = h.in_order;
                no_flower = h.no_flower;
              })
            (λ i q ne h. h);
      sizes =
          EachSeat-set (λ i q. hand_size q + (if eqb i seat then k else 3) ≡ 16)
            (λ i q. hand_size q + (if eqb i seat then k else 3) ≡ 16) (set s.seats seat claimer)
            last.seat discarder sizes_between (sizes_between last.seat q at) (λ i q ne h. h);
      tiles = λ a. omega (
        arith,
        takes.moved a,
        popped.counts a,
        sum_by-append (λ (m : Meld). count a m.tiles) p.melds (meld ∷ []),
        sum_by-set (seat_tally a) s.seats seat p claimer found,
        sum_by-set (seat_tally a) (set s.seats seat claimer) last.seat q discarder at,
      );
      scored =
          scores-set (set s.seats seat claimer) last.seat q discarder at refl
          ∙ scores-set s.seats seat p claimer found refl;
      fewer = omega (
        arith,
        takes.shorter,
        sum_by-set (λ (r : Seat). length r.concealed) s.seats seat p claimer found,
        sum_by-set (λ (r : Seat). length r.concealed) (set s.seats seat claimer) last.seat q
            discarder at,
      );
    }

  -- The discarder's seat is found and its top discard is popped; what follows may rely on it.
  pub claim-Returns :
      {B : Type 0} (f : Seat → List Tile → Result B) (P : B → Type 0)
      → ((q : Seat) (left : List Tile)
          → Claimed s seat k (
              set
                (set s.seats seat (record p { concealed = rest; melds = p.melds ++ meld ∷ [] }))
                last.seat
                (record q { discards = left }))
          → Returns (f q left) P)
      → Returns
          (index
              (set s.seats seat (record p { concealed = rest; melds = p.melds ++ meld ∷ [] }))
              last.seat
            >>= λ q. pop q.discards >>= λ left. f q left)
          P
  unfolding claimer discarder claimed_seats
  claim-Returns f P h =
      Returns-bind (index (set s.seats seat claimer) last.seat) _
        (λ q. get_elem? (set s.seats seat claimer) last.seat ≡ some q) P
        (index-Returns (set s.seats seat claimer) last.seat
          (rw (length-set s.seats seat claimer, sound.table.four) top.0))
        λ q at.
          Returns-bind (pop q.discards) _ (Removed last.tile q.discards) P
            (pop-Returns last.tile q.discards (still_on_top last.seat q at refl))
            (λ left popped. h q left (claimed_seats-Claimed q left at popped))
