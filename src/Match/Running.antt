-- ===== src/Match/Running.antt =====
-- The running score of mahjong/table/match_score.py.
use mathlib.Core.Path.{subst}
use mathlib.Core.List.{append-nil, append_assoc}
use mahjong_server_bot_zoo.Prelude.Slices.{take, entry_of-append, take-append, take-length}
use mahjong_server_bot_zoo.Prelude.{
  ℕ, zero, suc, ◌++◌, get_elem?, get_elem?-total, eqb_iff, ap, sym, ◌∙◌, ◌<◌, ◌≡◌, inl, inr, refl,
  if◌then◌else◌, Option, none, some, List, [], ◌∷◌, arith, eqb, length, length-append, All,
  Bool-cases,
}
use mahjong_server_bot_zoo.Prelude.Int.{ℤ, pos, ◌+ℤ◌, int_laws}
use mahjong_server_bot_zoo.Prelude.Seq.{Returns, Returns-bind}
use mahjong_server_bot_zoo.State.{Terminal}
use mahjong_server_bot_zoo.Rules.Scoring.ZeroSum.{total}
use mahjong_server_bot_zoo.Match.Defs.{
  no_points, hand_deltas, MatchScore, add_deltas, record_hand, record_hands, new_match,
}

-- The points of a hand cancel out.
abbrev pub IsBalanced : Option Terminal → Type 0
IsBalanced t = total (hand_deltas t) ≡ pos 0

abbrev pub entry_or_zero : Option ℤ → ℤ
entry_or_zero none = pos 0
entry_or_zero (some d) = d

no_points-zero : (i : ℕ) (d : ℤ) → get_elem? no_points i ≡ some d → pos 0 ≡ d
no_points-zero zero d h = cc
no_points-zero (suc zero) d h = cc
no_points-zero (suc (suc zero)) d h = cc
no_points-zero (suc (suc (suc zero))) d h = cc
no_points-zero (suc (suc (suc (suc i)))) d h = absurd (cc)

-- The points of a seat in a hand: none unless the hand has points for four seats. And its points in all hands together.
abbrev pub points_in : ℕ → Option Terminal → ℤ
points_in i none = pos 0
points_in i (some t) =
    if eqb (length t.score_delta) 4 then entry_or_zero (get_elem? t.score_delta i) else pos 0

abbrev pub points_of : ℕ → List (Option Terminal) → ℤ
points_of i [] = pos 0
points_of i (t ∷ ts) = points_in i t +ℤ points_of i ts

-- Each of the four seats has the sum of its points in the hands.
abbrev pub AreSums : List (Option Terminal) → List ℤ → Type 0
AreSums hands cs = (i : ℕ) → i < 4 → get_elem? cs i ≡ some (points_of i hands)

-- After these hands: four totals that cancel out, each the sum of the points of its seat, and one
-- entry of the series for each hand, with the sums up to that hand.
pub record IsRunning (hands : List (Option Terminal)) (m : MatchScore) : Type 0 where
  pub four : length m.cumulative ≡ 4
  pub cancels : total m.cumulative ≡ pos 0
  pub sums : AreSums hands m.cumulative
  pub entries : length m.series ≡ length hands
  pub so_far :
      (k : ℕ) (cs : List ℤ) → get_elem? m.series k ≡ some cs → AreSums (take (suc k) hands) cs

-- Two lists added place by place.
record AreAdded (cs ds sums : List ℤ) : Type 0 where
  long : length sums ≡ length cs
  together : total sums ≡ total cs +ℤ total ds
  each :
      (i : ℕ) (c d : ℤ)
      → get_elem? cs i ≡ some c
      → get_elem? ds i ≡ some d
      → get_elem? sums i ≡ some (c +ℤ d)

added_each :
    (c d : ℤ) (cs ds sums : List ℤ)
    → ((i : ℕ) (x y : ℤ)
        → get_elem? cs i ≡ some x
        → get_elem? ds i ≡ some y
        → get_elem? sums i ≡ some (x +ℤ y))
    → (i : ℕ) (x y : ℤ) → get_elem? (c ∷ cs) i ≡ some x
    → get_elem? (d ∷ ds) i ≡ some y
    → get_elem? ((c +ℤ d) ∷ sums) i ≡ some (x +ℤ y)
added_each c d cs ds sums h zero x y e k = cc
added_each c d cs ds sums h (suc i) x y e k = h i x y e k

add_deltas-Returns :
    (cs ds : List ℤ) → length ds ≡ length cs → Returns (add_deltas cs ds) (AreAdded cs ds)
add_deltas-Returns [] [] h = record {
  long = refl;
  together = omega int_laws;
  each = λ i c d e k. absurd (cc);
}
add_deltas-Returns (c ∷ cs) [] h = absurd (cc)
add_deltas-Returns [] (d ∷ ds) h = absurd (cc)
add_deltas-Returns (c ∷ cs) (d ∷ ds) h =
    Returns-bind (add_deltas cs ds) _ (AreAdded cs ds) _
      (add_deltas-Returns cs ds (omega (arith, h)))
      (λ sums r. record {
        long = ap suc r.long;
        together = rw r.together (omega int_laws);
        each = added_each c d cs ds sums r.each;
      })

length-hand_deltas : (t : Option Terminal) → length (hand_deltas t) ≡ 4
length-hand_deltas none = refl
length-hand_deltas (some t) = elim (Bool-cases (eqb (length t.score_delta) 4)) [
  | inl whole ↦ rw whole ((eqb_iff (length t.score_delta) 4).0 whole)
  | inr broken ↦ rw broken refl
]

points_in-some :
    (i : ℕ) (t : Option Terminal) (d : ℤ) → get_elem? (hand_deltas t) i ≡ some d → points_in i t ≡ d
points_in-some i none d found = no_points-zero i d found
points_in-some i (some t) d found = elim (Bool-cases (eqb (length t.score_delta) 4)) [
  | inl whole ↦
      let there : get_elem? t.score_delta i ≡ some d = rw whole at found in
      rw whole (ap entry_or_zero there)
  | inr broken ↦
      let there : get_elem? no_points i ≡ some d = rw broken at found in
      rw broken (no_points-zero i d there)
]

points_of-append :
    (i : ℕ) (done : List (Option Terminal)) (t : Option Terminal)
    → points_of i (done ++ t ∷ []) ≡ points_of i done +ℤ points_in i t
points_of-append i [] t = omega int_laws
points_of-append i (u ∷ done) t = rw (points_of-append i done t) (omega int_laws)

-- The sums grow by the points of a hand.
AreSums-append :
    (done : List (Option Terminal)) (t : Option Terminal) (cs sums : List ℤ)
    → AreSums done cs
    → AreAdded cs (hand_deltas t) sums
    → AreSums (done ++ t ∷ []) sums
AreSums-append done t cs sums h a i lt =
    let (d, found) = get_elem?-total (hand_deltas t) i (rw (length-hand_deltas t) lt) in
    a.each i (points_of i done) d (h i lt) found
    ∙ ap some (
        ap (λ x. points_of i done +ℤ x) (sym (points_in-some i t d found))
        ∙ sym (points_of-append i done t))

record_hand-IsRunning :
    (done : List (Option Terminal)) (m : MatchScore) (t : Option Terminal)
    → IsRunning done m
    → IsBalanced t
    → Returns (record_hand m t) (IsRunning (done ++ t ∷ []))
unfolding record_hand
record_hand-IsRunning done m t r balanced =
    Returns-bind (add_deltas m.cumulative (hand_deltas t)) _ (AreAdded m.cumulative (hand_deltas t))
      _ (add_deltas-Returns m.cumulative (hand_deltas t) (length-hand_deltas t ∙ sym r.four))
      (λ sums a.
        let grown = AreSums-append done t m.cumulative sums r.sums a in
        record {
          four = a.long ∙ r.four;
          cancels = a.together ∙ rw (r.cancels, balanced) (omega int_laws);
          sums = grown;
          entries =
              omega
                (arith, r.entries, length-append m.series (sums ∷ []), length-append done (t ∷ []));
          so_far = λ k cs e. elim (entry_of-append m.series sums cs k e) [
            | inl (before, lt) ↦
                subst (λ l. AreSums l cs)
                  (sym (take-append (suc k) done (t ∷ []) (omega (arith, lt, r.entries))))
                  (r.so_far k cs before)
            | inr (now, last) ↦
                let whole : suc k ≡ length (done ++ t ∷ []) =
                  omega (arith, last, r.entries, length-append done (t ∷ [])) in
                subst (λ n. AreSums (take n (done ++ t ∷ [])) cs) (sym whole)
                  (subst (λ l. AreSums l cs) (sym (take-length (done ++ t ∷ [])))
                    (subst (λ c. AreSums (done ++ t ∷ []) c) now grown))
          ];
        })

rest-IsRunning :
    (hands done : List (Option Terminal)) (m : MatchScore)
    → All IsBalanced hands
    → IsRunning done m
    → Returns (record_hands m hands) (IsRunning (done ++ hands))
rest-IsRunning [] done m h r = subst (λ l. IsRunning l m) (sym (append-nil done)) r
rest-IsRunning (t ∷ ts) done m h r =
    Returns-bind (record_hand m t) _ (IsRunning (done ++ t ∷ [])) _
      (record_hand-IsRunning done m t r h.0)
      (λ m' r'.
        subst (λ l. Returns (record_hands m' ts) (IsRunning l)) (append_assoc done (t ∷ []) ts)
          (rest-IsRunning ts (done ++ t ∷ []) m' h.1 r'))

no_sums : AreSums [] new_match.cumulative
no_sums zero lt = refl
no_sums (suc zero) lt = refl
no_sums (suc (suc zero)) lt = refl
no_sums (suc (suc (suc zero))) lt = refl
no_sums (suc (suc (suc (suc i)))) lt = absurd (omega arith)

-- For any match of hands whose points cancel out, `record_hands` from the start returns totals
-- that cancel out, the total of each of the four seats being the sum of its points in all hands,
-- and one entry of the series for each hand, which holds the sums of the hands up to that one.
pub record_hands-IsRunning :
    (hands : List (Option Terminal))
    → All IsBalanced hands
    → Returns (record_hands new_match hands) (IsRunning hands)
record_hands-IsRunning hands h = rest-IsRunning hands [] new_match h (record {
  four = refl;
  cancels = omega int_laws;
  sums = no_sums;
  entries = refl;
  so_far = λ k cs e. absurd (cc);
})
