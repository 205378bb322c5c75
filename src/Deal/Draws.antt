-- ===== src/Deal/Draws.antt =====
-- The draws of the deal in mahjong/engine/state.py: what one of them, a round and all of them do.
use mathlib.Core.Path.{subst}
use mahjong_server_bot_zoo.Prelude.{
  ℕ, zero, suc, ◌+◌, ◌*◌, ◌≡◌, refl, sym, ap, ◌∙◌, false, some, inl, inr, List, [], ◌∷◌, ◌++◌, map,
  arith, if◌then◌else◌, Bool-cases, length, get_elem?, get_elem?-set_self, get_elem?-lt, ◌<◌,
  ==_iff, set, All, All-append, length-append,
}
use mahjong_server_bot_zoo.Prelude.Counting.{one, count, count-append, sum_by, sum_by-set}
use mahjong_server_bot_zoo.Prelude.Seq.{
  Returns, Returns-bind, Ensures, Ensures-bind, index, or_raise, index_error, index-ok,
}
use mahjong_server_bot_zoo.Tiles.{Tile, tile_eq, is_flower}
use mahjong_server_bot_zoo.Transition.{Drawn, draw_live}
use mahjong_server_bot_zoo.Deal.Defs.{Hand, Deal, draw_one, deal_round, deal_rounds}

-- The tiles of a list that are no flowers.
abbrev pub live_count : List Tile → ℕ
live_count ts = sum_by (λ t. if is_flower t then 0 else 1) ts

abbrev pub hand_tally : Tile → Hand → ℕ
hand_tally a h = count a h.concealed + count a h.flowers

abbrev pub IsPlain : Hand → Type 0
IsPlain h = All (λ t. is_flower t ≡ false) h.concealed

-- A draw that finds a tile for the hand.
record Live (wall flowers : List Tile) (n left : ℕ) (d : Drawn) (t : Tile) : Type 0 where
  found : d.live ≡ some t
  plain : is_flower t ≡ false
  left_over : live_count d.rest ≡ left
  place : d.drawn_count + length d.rest ≡ n + length wall
  counts :
      (a : Tile) → count a flowers + count a wall ≡ one a t + count a d.rest + count a d.flowers

draw_live-Live :
    (wall flowers : List Tile) (n left : ℕ)
    → live_count wall ≡ suc left
    → (t : Tile) × Live wall flowers n left (draw_live wall flowers n) t
unfolding draw_live
draw_live-Live [] flowers n left h = absurd (cc)
draw_live-Live (t ∷ wall) flowers n left h = elim (Bool-cases (is_flower t)) [
  | inl flower ↦ rw flower (
      let (u, l) =
        draw_live-Live wall (flowers ++ t ∷ []) (n + 1) left (omega (arith, rw flower at h)) in
      (
        u,
        record {
          found = l.found;
          plain = l.plain;
          left_over = l.left_over;
          place = omega (arith, l.place);
          counts = λ a. omega (arith, l.counts a, count-append a flowers (t ∷ []));
        },
      ))
  | inr live ↦ rw live (
    t,
    record {
      found = refl;
      plain = live;
      left_over = omega (arith, rw live at h);
      place = omega arith;
      counts = λ a. omega arith;
    },
  )
]

-- The deal so far, of the wall `origin`: the sizes of the hands, and how many tiles for hands are
-- left.
pub record IsDealing (origin : List Tile) (sizes : List ℕ) (left : ℕ) (d : Deal) : Type 0 where
  pub counts : (a : Tile) → count a d.wall + sum_by (hand_tally a) d.hands ≡ count a origin
  pub place : d.wall_pos + length d.wall ≡ length origin
  pub sized : map (λ h. length h.concealed) d.hands ≡ sizes
  pub plain : All IsPlain d.hands
  pub enough : live_count d.wall ≡ left

sizes-set :
    (hands : List Hand) (i : ℕ) (h : Hand)
    → map (λ k. length k.concealed) (set hands i h)
      ≡ set (map (λ k. length k.concealed) hands) i (length h.concealed)
sizes-set [] i h = refl
sizes-set (k ∷ hands) zero h = refl
sizes-set (k ∷ hands) (suc i) h = ap (λ l. length k.concealed ∷ l) (sizes-set hands i h)

size_at :
    (hands : List Hand) (i : ℕ) {n : ℕ}
    → get_elem? (map (λ k. length k.concealed) hands) i ≡ some n
    → (h : Hand) × (get_elem? hands i ≡ some h) × (length h.concealed ≡ n)
size_at [] i h = absurd (cc)
size_at (k ∷ hands) zero h = (k, refl, cc)
size_at (k ∷ hands) (suc i) h = size_at hands i h

All-set :
    (P : Hand → Type 0) (hands : List Hand) (i : ℕ) (h : Hand)
    → P h
    → All P hands
    → All P (set hands i h)
All-set P [] i h p k = tt
All-set P (x ∷ hands) zero h p k = (p, k.1)
All-set P (x ∷ hands) (suc i) h p k = (k.0, All-set P hands i h p k.1)

pub All-at :
    (P : Hand → Type 0) (hands : List Hand) (i : ℕ) {h : Hand}
    → get_elem? hands i ≡ some h
    → All P hands
    → P h
All-at P [] i e k = absurd (cc)
All-at P (x ∷ hands) zero {h} e k = let same : x ≡ h = cc in rw (sym same) k.0
All-at P (x ∷ hands) (suc i) e k = All-at P hands i e k.1

module _ (origin : List Tile) (sizes : List ℕ) (left : ℕ) (d : Deal) (i n : ℕ)
    (s : IsDealing origin sizes (suc left) d) where
  dealt-IsDealing :
      (h : Hand) (w : Drawn) (t : Tile)
      → get_elem? d.hands i ≡ some h
      → length h.concealed ≡ n
      → Live d.wall h.flowers d.wall_pos left w t
      → IsDealing origin (set sizes i (suc n)) left (record {
        wall = w.rest;
        wall_pos = w.drawn_count;
        hands = set d.hands i (record { concealed = h.concealed ++ t ∷ []; flowers = w.flowers });
      })
  dealt-IsDealing h w t found size l =
      let held : Hand = record { concealed = h.concealed ++ t ∷ []; flowers = w.flowers } in
      record {
        counts = λ a. omega (
          arith,
          s.counts a,
          l.counts a,
          sum_by-set (hand_tally a) d.hands i h held found,
          count-append a h.concealed (t ∷ []),
        );
        place = omega (arith, l.place, s.place);
        sized =
            sizes-set d.hands i held
            ∙ rw (s.sized, length-append h.concealed (t ∷ []), size)
                (ap (set sizes i) (omega arith));
        plain =
            All-set IsPlain d.hands i held
              (All-append _ h.concealed (t ∷ []) (All-at IsPlain d.hands i found s.plain)
                (l.plain, tt))
              s.plain;
        enough = l.left_over;
      }

  -- A draw by a seat whose hand has `n` tiles, with a tile for a hand left in the wall.
  pub draw_one-IsDealing :
      get_elem? sizes i ≡ some n
      → Returns (draw_one d i) (λ r. IsDealing origin (set sizes i (suc n)) left r.0)
  unfolding draw_one
  draw_one-IsDealing has =
      let (h, found, size) = size_at d.hands i {n = n} (rw s.sized has) in
      let (t, l) = draw_live-Live d.wall h.flowers d.wall_pos left s.enough in
      rw found (rw l.found (dealt-IsDealing h _ t found size l))

-- A round gives each of the four seats a tile.
deal_round-IsDealing :
    (origin : List Tile) (n left : ℕ) (d : Deal)
    → IsDealing origin (n ∷ n ∷ n ∷ n ∷ []) (suc (suc (suc (suc left)))) d
    → Returns (deal_round d) (IsDealing origin (suc n ∷ suc n ∷ suc n ∷ suc n ∷ []) left)
unfolding deal_round
deal_round-IsDealing origin n left d s =
    Returns-bind (draw_one d 0) _ _ _ (draw_one-IsDealing origin _ _ d 0 n s refl) (λ a ha.
      Returns-bind (draw_one a.0 1) _ _ _ (draw_one-IsDealing origin _ _ a.0 1 n ha refl) (λ b hb.
        Returns-bind (draw_one b.0 2) _ _ _ (draw_one-IsDealing origin _ _ b.0 2 n hb refl) (λ c hc.
          Returns-bind (draw_one c.0 3) _ _ _ (draw_one-IsDealing origin _ left c.0 3 n hc refl)
            (λ e he. he))))

-- The hands after a number of rounds.
abbrev pub level : ℕ → List ℕ
level n = n ∷ n ∷ n ∷ n ∷ []

pub deal_rounds-IsDealing :
    (rounds : ℕ) (origin : List Tile) (n left : ℕ) (d : Deal)
    → IsDealing origin (level n) (4 * rounds + left) d
    → Returns (deal_rounds rounds d) (IsDealing origin (level (n + rounds)) left)
unfolding deal_rounds
deal_rounds-IsDealing zero origin n left d s =
    let e : n ≡ n + 0 = omega arith in
    let k : 4 * 0 + left ≡ left = omega arith in
    subst (λ m. IsDealing origin (level m) left d) e
      (subst (λ m. IsDealing origin (level n) m d) k s)
deal_rounds-IsDealing (suc rounds) origin n left d s =
    let k : 4 * suc rounds + left ≡ suc (suc (suc (suc (4 * rounds + left)))) = omega arith in
    let e : suc n + rounds ≡ n + suc rounds = omega arith in
    Returns-bind (deal_round d) _ (IsDealing origin (level (suc n)) (4 * rounds + left)) _
      (deal_round-IsDealing origin n (4 * rounds + left) d
        (subst (λ m. IsDealing origin (level n) m d) k s))
      (λ d' h.
        subst (λ m. Returns (deal_rounds rounds d') (IsDealing origin (level m) left)) e
          (deal_rounds-IsDealing rounds origin (suc n) left d' h))

-- The hand of this seat holds the tile that was drawn.
abbrev pub HoldsDrawn : ℕ → Deal × Tile → Type 0
HoldsDrawn i r = (h : Hand) → get_elem? r.0.hands i ≡ some h → 0 < count r.1 h.concealed

pub draw_one-HoldsDrawn : (d : Deal) (i : ℕ) → Ensures (draw_one d i) (HoldsDrawn i)
unfolding draw_one
draw_one-HoldsDrawn d i = Ensures-bind (index d.hands i) _ (HoldsDrawn i) λ h found.
    let w : Drawn = draw_live d.wall h.flowers d.wall_pos in
    Ensures-bind (or_raise w.live index_error) _ (HoldsDrawn i) λ t live g at.
      let held : Hand = record { concealed = h.concealed ++ t ∷ []; flowers = w.flowers } in
      let there =
        get_elem?-set_self d.hands i held (get_elem?-lt d.hands i (index-ok d.hands i found)) in
      let found_again : some held ≡ some g = sym there ∙ at in
      let same : held ≡ g = cc in
      subst (λ k. 0 < count t k.concealed) same
        (ground (arith, count-append t h.concealed (t ∷ []), ==_iff t t))
