-- ===== src/Transition/Drawing.antt =====
-- `internal_draw` of mahjong/engine/transition/__init__.py: the next seat's draw from the wall.
use mahjong_server_bot_zoo.Prelude.{
  ==_iff, ℕ, suc, ◌+◌, ◌≤◌, ◌<◌, ◌≡◌, inl, inr, refl, ◌∙◌, false, Option, none, some, List, [], ◌∷◌,
  ◌++◌, arith, length, get_elem?, set, length-set, length-append, All-append, Bool-cases,
}
use mahjong_server_bot_zoo.Prelude.Counting.{one, count, count-append, sum_by-set}
use mahjong_server_bot_zoo.Prelude.Seq.{Returns, Returns-bind, index, index-Returns}
use mahjong_server_bot_zoo.Prelude.Sorting.{sort, count-sort, length-sort, All-sort}
use mahjong_server_bot_zoo.Tiles.{Tile, tile_le, tile_eq, is_flower}
use mahjong_server_bot_zoo.Tiles.Order.{sort_tiles-is_sorted}
use mahjong_server_bot_zoo.State.{Seat, Phase, GameState}
use mahjong_server_bot_zoo.Rules.{Env}
use mahjong_server_bot_zoo.Transition.{
  Drawn, draw_live, after_draw, draw_from, internal_draw, make_exhaustive_draw_terminal,
}
use mahjong_server_bot_zoo.Transition.Invariant.{
  seat_tally, hand_size, Fits, HandIsSound, TableIsSound, IsReady, Continues,
}
use mahjong_server_bot_zoo.Transition.Seats.{EachSeat-set, scores-set}

-- What the pops have moved, by whether a tile for the hand was found.
abbrev DrawIs : List Tile → List Tile → Drawn → Option Tile → Type 0
DrawIs wall flowers d none =
    (length d.rest ≤ length wall)
    × ((a : Tile) → count a flowers + count a wall ≡ count a d.rest + count a d.flowers)
DrawIs wall flowers d (some t) =
    (length d.rest < length wall)
    × (is_flower t ≡ false)
    × ((a : Tile) → count a flowers + count a wall ≡ one a t + count a d.rest + count a d.flowers)

longer :
    (t : Tile) (wall flowers : List Tile) (d : Drawn) (o : Option Tile)
    → DrawIs wall (flowers ++ t ∷ []) d o
    → DrawIs (t ∷ wall) flowers d o
longer t wall flowers d none h =
    (omega (arith, h.0), λ a. omega (arith, h.1 a, count-append a flowers (t ∷ [])))
longer t wall flowers d (some u) h =
    (omega (arith, h.0), h.1, λ a. omega (arith, h.2 a, count-append a flowers (t ∷ [])))

draw_live-DrawIs :
    (wall flowers : List Tile) (n : ℕ)
    → let d = draw_live wall flowers n in DrawIs wall flowers d d.live
unfolding draw_live
draw_live-DrawIs [] flowers n = (omega arith, λ a. omega arith)
draw_live-DrawIs (t ∷ wall) flowers n = elim (Bool-cases (is_flower t)) [
  | inl flower ↦ rw flower (
      let d : Drawn = draw_live wall (flowers ++ t ∷ []) (n + 1) in
      longer t wall flowers d d.live (draw_live-DrawIs wall (flowers ++ t ∷ []) (n + 1)))
  | inr live ↦ rw live (omega arith, live, λ a. omega arith)
]

module _ (env : Env) where
  -- A table stays sound when one seat is written back with a sound hand.
  pub TableIsSound-set :
      (s t : GameState) (i : ℕ) (q : Seat)
      → TableIsSound env s
      → t.rules ≡ s.rules
      → t.round_wind ≡ s.round_wind
      → t.seats ≡ set s.seats i q
      → HandIsSound q
      → TableIsSound env t
  TableIsSound-set s t i q h er ew es hq = record {
    four = rw es (length-set s.seats i q ∙ h.four);
    config = h.config;
    resolves = rw er h.resolves;
    usable = h.usable;
    round = rw ew h.round;
    hands = rw es (
        EachSeat-set (λ j p. HandIsSound p) (λ j p. HandIsSound p) s.seats i q h.hands hq
          (λ j p _ k. k));
  }

  module _ (s : GameState) (seat : ℕ) (p : Seat) (d : Drawn) (ready : IsReady env s)
      (found : get_elem? s.seats seat ≡ some p) (lt : seat < 4)
      (closed : s.last_discard ≡ none) where
    hand : HandIsSound p
    hand = ready.table.hands seat p found

    all_flowers : Seat
    all_flowers = record p { flowers = d.flowers }

    exhausted :
        DrawIs s.wall.remaining p.flowers d none → Continues env s (after_draw s seat p d none)
    unfolding make_exhaustive_draw_terminal all_flowers
    exhausted i = record {
      sound = record {
        table =
            TableIsSound-set s (after_draw s seat p d none) seat all_flowers ready.table refl refl
              refl
              (record {
                melds = hand.melds;
                wind = hand.wind;
                in_order = hand.in_order;
                no_flower = hand.no_flower;
              });
        sizes = λ j q e. tt;
        turn = tt;
        drawn = tt;
        pending = tt;
      };
      conserves = record {
        tiles =
            λ a. omega (arith, i.1 a, sum_by-set (seat_tally a) s.seats seat p all_flowers found);
        scored = scores-set s.seats seat p all_flowers found refl;
      };
      advances =
          let same =
            sum_by-set (λ (q : Seat). length q.concealed) s.seats seat p all_flowers found in
          (omega (arith, i.0, same), inr refl);
    }

    with_tile : Tile → Seat
    with_tile t = record p { concealed = sort tile_le (p.concealed ++ t ∷ []); flowers = d.flowers }

    with_tile-HandIsSound : (t : Tile) → is_flower t ≡ false → HandIsSound (with_tile t)
    unfolding with_tile
    with_tile-HandIsSound t live = record {
      melds = hand.melds;
      wind = hand.wind;
      in_order = sort_tiles-is_sorted (p.concealed ++ t ∷ []);
      no_flower =
          All-sort tile_le (λ t. is_flower t ≡ false) (p.concealed ++ t ∷ [])
            (All-append (λ t. is_flower t ≡ false) p.concealed (t ∷ []) hand.no_flower (live, tt));
    }

    length-with_tile : (t : Tile) → length (with_tile t).concealed ≡ suc (length p.concealed)
    unfolding with_tile
    length-with_tile t =
        omega
          (arith, length-sort tile_le (p.concealed ++ t ∷ []), length-append p.concealed (t ∷ []))

    tally-with_tile :
        (a t : Tile)
        → seat_tally a (with_tile t) + count a p.flowers
          ≡ seat_tally a p + one a t + count a d.flowers
    unfolding with_tile
    tally-with_tile a t =
        omega
          (arith, count-sort tile_le a (p.concealed ++ t ∷ []), count-append a p.concealed (t ∷ []))

    with_tile-held : (t : Tile) → 0 < count t (with_tile t).concealed
    unfolding with_tile
    with_tile-held t = ground (
      arith,
      count-sort tile_le t (p.concealed ++ t ∷ []),
      count-append t p.concealed (t ∷ []),
      ==_iff t t,
    )

    drew :
        (t : Tile)
        → DrawIs s.wall.remaining p.flowers d (some t)
        → Continues env s (after_draw s seat p d (some t))
    unfolding with_tile
    drew t i = record {
      sound = record {
        table =
            TableIsSound-set s (after_draw s seat p d (some t)) seat (with_tile t) ready.table refl
              refl refl (with_tile-HandIsSound t i.1);
        sizes =
            EachSeat-set (λ j q. hand_size q ≡ 13) (λ j q. Fits Phase.discard seat j (hand_size q))
              s.seats seat (with_tile t) ready.sizes
              (ground (arith, ready.sizes seat p found, length-with_tile t))
              (λ j q ne h. ground arith);
        turn = rw closed lt;
        drawn = (
          refl,
          EachSeat-set (λ j q. Unit) (λ j q. j ≡ seat → 0 < count t q.concealed) s.seats seat
              (with_tile t) (λ j q e. tt) (λ _. with_tile-held t)
              (λ j q ne _ same. absurd (ne same)),
        );
        pending = tt;
      };
      conserves = record {
        tiles = λ a. omega (
          arith,
          i.2 a,
          tally-with_tile a t,
          sum_by-set (seat_tally a) s.seats seat p (with_tile t) found,
        );
        scored = scores-set s.seats seat p (with_tile t) found refl;
      };
      advances =
          let same =
            sum_by-set (λ (q : Seat). length q.concealed) s.seats seat p (with_tile t) found in
          (
            omega (arith, i.0, same, length-with_tile t),
            inl (omega (arith, i.0, same, length-with_tile t)),
          );
    }

    after_draw-Continues :
        (o : Option Tile)
        → DrawIs s.wall.remaining p.flowers d o
        → Continues env s (after_draw s seat p d o)
    after_draw-Continues none i = exhausted i
    after_draw-Continues (some t) i = drew t i

  draw_from-Continues :
      (wall : List Tile) (s : GameState) (seat : ℕ)
      → s.wall.remaining ≡ wall
      → IsReady env s
      → seat < 4
      → s.last_discard ≡ none
      → Returns (draw_from wall s seat) (Continues env s)
  unfolding make_exhaustive_draw_terminal
  draw_from-Continues [] s seat same h lt closed = record {
    sound = record {
      table = record {
        four = h.table.four;
        config = h.table.config;
        resolves = h.table.resolves;
        usable = h.table.usable;
        round = h.table.round;
        hands = h.table.hands;
      };
      sizes = λ j q e. tt;
      turn = tt;
      drawn = tt;
      pending = tt;
    };
    conserves = record { tiles = λ a. refl; scored = refl };
    advances = (omega arith, inr refl);
  }
  draw_from-Continues (t ∷ wall) s seat same h lt closed =
      Returns-bind (index s.seats seat) _ (λ p. get_elem? s.seats seat ≡ some p) (Continues env s)
        (index-Returns s.seats seat (rw h.table.four lt))
        λ p found.
          let d : Drawn = draw_live (t ∷ wall) p.flowers s.wall.drawn_count in
          after_draw-Continues s seat p d h found lt closed d.live
            (rw same (draw_live-DrawIs (t ∷ wall) p.flowers s.wall.drawn_count))

  -- From a sound table where every seat holds 13 tiles and no discard is open, `internal_draw` for
  -- one of the four seats returns a sound state with the same copies of every tile and the same sum
  -- of scores, and with less left to play or the hand over.
  pub internal_draw-Continues :
      (s : GameState) (seat : ℕ)
      → IsReady env s
      → seat < 4
      → s.last_discard ≡ none
      → Returns (internal_draw s seat) (Continues env s)
  unfolding internal_draw
  internal_draw-Continues s seat h lt closed =
      draw_from-Continues s.wall.remaining s seat refl h lt closed
