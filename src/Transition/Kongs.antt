-- ===== src/Transition/Kongs.antt =====
-- The kongs on a seat's own turn in mahjong/engine/transition/gang.py: concealed and added.
use mahjong_server_bot_zoo.Prelude.{
  ℕ, ◌+◌, ◌*◌, ◌<◌, ◌≡◌, inl, inr, refl, ap, ◌∙◌, none, some, List, [], ◌∷◌, ◌++◌, arith, eqb,
  if◌then◌else◌, length, length-append, get_elem?, replicate, All, All-append, Bool-cases, ◌==◌,
  ==_iff,
}
use mahjong_server_bot_zoo.Prelude.Counting.{one, count, sum_by, sum_by-append, sum_by-set}
use mahjong_server_bot_zoo.Prelude.Seq.{
  ok, Returns, Returns-bind, Returns-imp, or_raise-eq, index_error, index, first, remove,
  remove-Returns, Removed, ◌>>=◌,
}
use mahjong_server_bot_zoo.Tiles.{Tile, tile_eq}
use mahjong_server_bot_zoo.State.{MeldType, Meld, Seat, Phase, GameState}
use mahjong_server_bot_zoo.Rules.{Env}
use mahjong_server_bot_zoo.Legality.{is_peng}
use mahjong_server_bot_zoo.Legality.Justified.{HasPeng, peng_head}
use mahjong_server_bot_zoo.Transition.{
  put_seat, remove_n, kong, gang_concealed, promote, gang_added, internal_draw,
}
use mahjong_server_bot_zoo.Transition.Invariant.{
  seat_tally, hand_size, work, MeldIsSound, IsSound, IsReady, Continues,
}
use mahjong_server_bot_zoo.Transition.Seats.{EachSeat-set, scores-set, discard_sizes}
use mahjong_server_bot_zoo.Transition.Drawing.{TableIsSound-set, internal_draw-Continues}
use mahjong_server_bot_zoo.Transition.Discarding.{fewer-HandIsSound}
use mahjong_server_bot_zoo.Prelude.Sub.{Sub}
use mahjong_server_bot_zoo.Transition.Removing.{RemovedN, remove_n-Returns}

-- The hand and melds after a kong of the seat's own tiles, before the draw.
record Declared (p : Seat) (rest : List Tile) (melds : List Meld) : Type 0 where
  sub : Sub rest p.concealed
  shapes : All MeldIsSound melds
  size : length rest + 3 * length melds + 1 ≡ hand_size p
  fewer : length rest < length p.concealed
  tiles :
      (a : Tile)
      → count a rest + sum_by (λ (m : Meld). count a m.tiles) melds
        ≡ count a p.concealed + sum_by (λ (m : Meld). count a m.tiles) p.melds

module _ (env : Env) (s : GameState) (seat : ℕ) (p : Seat) (sound : IsSound env s)
    (phase : s.phase ≡ Phase.discard) (mine : s.current_actor ≡ seat) (lt : seat < 4)
    (found : get_elem? s.seats seat ≡ some p) (closed : s.last_discard ≡ none) where
  module _ (rest : List Tile) (melds : List Meld) (d : Declared p rest melds) where
    declarer : Seat
    declarer = record p { concealed = rest; melds = melds }

    declared : GameState
    declared = record (put_seat s seat declarer) { turn_index = s.turn_index + 1 }

    declared-IsReady : IsReady env declared
    unfolding declared declarer
    declared-IsReady = record {
      table = TableIsSound-set env s declared seat declarer sound.table refl refl refl (
          let h = fewer-HandIsSound p rest (sound.table.hands seat p found) d.sub in
          record {
            melds = d.shapes;
            wind = h.wind;
            in_order = h.in_order;
            no_flower = h.no_flower;
          });
      sizes =
          EachSeat-set (λ i q. hand_size q ≡ (if eqb i seat then 14 else 13))
            (λ i q. hand_size q ≡ 13) s.seats seat declarer
            (discard_sizes env s sound seat phase mine)
            (ground (arith, discard_sizes env s sound seat phase mine seat p found, d.size))
            (λ i q ne h. ground arith);
    }

    declared-Continues : Returns (internal_draw declared seat) (Continues env s)
    unfolding declared declarer
    declared-Continues =
        Returns-imp (internal_draw declared seat) (Continues env declared) (Continues env s)
          (λ t c.
            let less : work t < work s = omega (
              arith,
              c.advances.0,
              d.fewer,
              sum_by-set (λ (q : Seat). length q.concealed) s.seats seat p declarer found,
            ) in
            record {
              sound = c.sound;
              conserves = record {
                tiles = λ a. omega (
                  arith,
                  c.conserves.tiles a,
                  d.tiles a,
                  sum_by-set (seat_tally a) s.seats seat p declarer found,
                );
                scored = c.conserves.scored ∙ scores-set s.seats seat p declarer found refl;
              };
              advances = (omega arith, inl less);
            })
          (internal_draw-Continues env declared seat declared-IsReady lt closed)

  -- On a sound state in the discard phase with no open discard, `gang_concealed` for the seat whose
  -- turn it is, of a tile of which its hand holds four, returns a sound state with the same copies
  -- of every tile and the same sum of scores, and with less left to play or the hand over.
  pub gang_concealed-Continues :
      (t : Tile) → count t p.concealed ≡ 4 → Returns (gang_concealed s seat t) (Continues env s)
  unfolding gang_concealed declared declarer
  gang_concealed-Continues t has =
      Returns-bind (index s.seats seat) _ (λ q. q ≡ p) (Continues env s)
        (or_raise-eq (get_elem? s.seats seat) index_error p found)
        λ q eq. rw eq (
          Returns-bind (remove_n 4 t p.concealed) _ (RemovedN 4 t p.concealed) (Continues env s)
            (remove_n-Returns 4 t p.concealed (omega arith))
            λ rest r.
              let meld : Meld = kong MeldType.gang_concealed t none seat in
              declared-Continues rest (p.melds ++ meld ∷ []) (record {
                sub = r.sub;
                shapes =
                    All-append MeldIsSound p.melds (meld ∷ [])
                      (sound.table.hands seat p found).melds ((t, refl), tt);
                size = omega (arith, r.shorter, length-append p.melds (meld ∷ []));
                fewer = omega (arith, r.shorter);
                tiles = λ a. omega (
                  arith,
                  r.counts a,
                  sum_by-append (λ (m : Meld). count a m.tiles) p.melds (meld ∷ []),
                );
              }))

-- One PENG has become a kong by one more copy.
record Promoted (t : Tile) (ms ns : List Meld) : Type 0 where
  shapes : All MeldIsSound ns
  same_length : length ns ≡ length ms
  tiles :
      (a : Tile)
      → sum_by (λ (m : Meld). count a m.tiles) ns
        ≡ one a t + sum_by (λ (m : Meld). count a m.tiles) ms

Promoted-later :
    (t : Tile) (m : Meld) (ms ns : List Meld)
    → MeldIsSound m
    → Promoted t ms ns
    → Promoted t (m ∷ ms) (m ∷ ns)
Promoted-later t m ms ns h r = record {
  shapes = (h, r.shapes);
  same_length = omega (arith, r.same_length);
  tiles = λ a. omega (arith, r.tiles a);
}

first-Returns : (ts : List Tile) (u : Tile) → ts ≡ replicate 3 u → Returns (first ts) (λ x. x ≡ u)
first-Returns ts u e = rw e refl

Promoted-here :
    (t : Tile) (m : Meld) (ms : List Meld)
    → m.tiles ≡ replicate 3 t
    → All MeldIsSound ms
    → Promoted t (m ∷ ms) (record m { kind = MeldType.gang_added; tiles = replicate 4 t } ∷ ms)
Promoted-here t m ms e h = record {
  shapes = ((t, refl), h);
  same_length = refl;
  tiles = λ a. let c = ap (count a) e in omega (arith, c);
}

module _ (t : Tile) where
  promote_past :
      (m : Meld) (ms : List Meld)
      → MeldIsSound m
      → Returns (promote t ms) (Promoted t ms)
      → Returns (promote t ms >>= λ rest. ok (m ∷ rest)) (Promoted t (m ∷ ms))
  promote_past m ms h later =
      Returns-bind (promote t ms) _ (Promoted t ms) (Promoted t (m ∷ ms)) later
        (λ ns r. Promoted-later t m ms ns h r)

  -- With a matching PENG among sound melds, the promotion finds it.
  promote-Returns :
      (ms : List Meld) → All MeldIsSound ms → HasPeng t ms → Returns (promote t ms) (Promoted t ms)
  unfolding promote
  promote-Returns [] h has = absurd has
  promote-Returns (m ∷ ms) h (inr later) = elim (Bool-cases (is_peng m.kind)) [
    | inr other ↦ rw other (promote_past m ms h.0 (promote-Returns ms h.1 later))
    | inl peng ↦
        let (u, e) = peng_head m.kind m.tiles h.0 peng in
        rw peng (
          Returns-bind (first m.tiles) _ (λ x. x ≡ u) (Promoted t (m ∷ ms))
            (first-Returns m.tiles u e)
            λ x same. elim (Bool-cases (x == t)) [
              | inl here ↦
                  rw here
                    (Promoted-here t m ms (e ∙ ap (replicate 3) (cc ((==_iff x t).0 here))) h.1)
              | inr past ↦ rw past (promote_past m ms h.0 (promote-Returns ms h.1 later))
            ])
  ]
  promote-Returns (m ∷ ms) h (inl (peng, e)) = rw peng (
      Returns-bind (first m.tiles) _ (λ x. x ≡ t) (Promoted t (m ∷ ms)) (first-Returns m.tiles t e)
        (λ x same. rw ((==_iff x t).1 same) (Promoted-here t m ms e h.1)))

module _ (env : Env) (s : GameState) (seat : ℕ) (p : Seat) (sound : IsSound env s)
    (phase : s.phase ≡ Phase.discard) (mine : s.current_actor ≡ seat) (lt : seat < 4)
    (found : get_elem? s.seats seat ≡ some p) (closed : s.last_discard ≡ none) where
  pub gang_added-Continues :
      (t : Tile)
      → 0 < count t p.concealed
      → HasPeng t p.melds
      → Returns (gang_added s seat t) (Continues env s)
  unfolding gang_added declared declarer
  gang_added-Continues t has peng =
      Returns-bind (index s.seats seat) _ (λ q. q ≡ p) (Continues env s)
        (or_raise-eq (get_elem? s.seats seat) index_error p found)
        λ q eq. rw eq (
          Returns-bind (remove t p.concealed) _ (Removed t p.concealed) (Continues env s)
            (remove-Returns t p.concealed has)
            λ rest r.
              Returns-bind (promote t p.melds) _ (Promoted t p.melds) (Continues env s)
                (promote-Returns t p.melds (sound.table.hands seat p found).melds peng)
                λ melds g.
                  declared-Continues env s seat p sound phase mine lt found closed rest melds
                    (record {
                      sub = r.sub;
                      shapes = g.shapes;
                      size = omega (arith, r.shorter, g.same_length);
                      fewer = omega (arith, r.shorter);
                      tiles = λ a. omega (arith, r.counts a, g.tiles a);
                    }))
