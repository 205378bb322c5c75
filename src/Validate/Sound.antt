-- ===== src/Validate/Sound.antt =====
-- What the runtime check of mahjong/engine/types.py accepts.
use mahjong_server_bot_zoo.Prelude.{
  ◌≡◌, ◌↔◌, refl, Bool, true, false, not, Option, none, some, List, [], ◌∷◌, arith, All,
}
use mahjong_server_bot_zoo.Prelude.Seq.{Result, ok, err, invalid_state, guard, ◌>>◌}
use mahjong_server_bot_zoo.Prelude.Sorting.{is_sorted, sorted_from}
use mahjong_server_bot_zoo.Tiles.{Tile, token, validate_tile, tile_le}
use mahjong_server_bot_zoo.State.{Seat, GameState}
use mahjong_server_bot_zoo.Validate.Defs.{
  out_of_order, check_concealed_sorted, check_seats, validate_state_invariants,
}

abbrev pub IsToken : Tile → Type 0
IsToken t = validate_tile (token t) ≡ true

-- In order, and after `prev`.
abbrev Follows : Option Tile → List Tile → Type 0
Follows none ts = is_sorted tile_le ts ≡ true
Follows (some prev) ts = sorted_from tile_le prev ts ≡ true

guarded :
    (b : Bool) (rest : Result (Unit {0}))
    → ((guard b invalid_state >> rest) ≡ ok tt) ↔ ((b ≡ true) × (rest ≡ ok tt))
guarded true rest = (λ h. (refl, h), λ h. h.1)
guarded false rest = (λ h. absurd (cc), λ h. absurd (cc))

Follows-cons :
    (prev : Option Tile) (t : Tile) (ts : List Tile)
    → ((not (out_of_order prev t) ≡ true) × Follows (some t) ts) ↔ Follows prev (t ∷ ts)
unfolding sorted_from
Follows-cons none t ts = (λ h. h.1, λ h. (refl, h))
Follows-cons (some prev) t ts = ground arith

check_concealed_sorted_lem :
    (prev : Option Tile) (ts : List Tile)
    → (check_concealed_sorted prev ts ≡ ok tt) ↔ (All IsToken ts × Follows prev ts)
unfolding check_concealed_sorted sorted_from
check_concealed_sorted_lem none [] = (λ h. (tt, refl), λ h. refl)
check_concealed_sorted_lem (some prev) [] = (λ h. (tt, refl), λ h. refl)
check_concealed_sorted_lem prev (t ∷ ts) =
    let rest = check_concealed_sorted_lem (some t) ts in
    let inner = guarded (not (out_of_order prev t)) (check_concealed_sorted (some t) ts) in
    let outer =
      guarded (validate_tile (token t))
        (guard (not (out_of_order prev t)) invalid_state >> check_concealed_sorted (some t) ts) in
    let step = Follows-cons prev t ts in
    (
      λ h.
          let a = outer.0 h in
          let b = inner.0 a.1 in let c = rest.0 b.1 in ((a.0, c.0), step.0 (b.0, c.1)),
      λ h. let c = step.1 h.1 in outer.1 (h.0.0, inner.1 (c.0, rest.1 (h.0.1, c.1))),
    )

both : (m rest : Result (Unit {0})) → ((m >> rest) ≡ ok tt) ↔ ((m ≡ ok tt) × (rest ≡ ok tt))
both (ok tt) rest = (λ h. (refl, h), λ h. h.1)
both (err e) rest = (λ h. absurd (cc), λ h. absurd (cc))

abbrev pub IsCanonical : Seat → Type 0
IsCanonical p = All IsToken p.concealed × (is_sorted tile_le p.concealed ≡ true)

check_seats_lem : (seats : List Seat) → (check_seats seats ≡ ok tt) ↔ All IsCanonical seats
check_seats_lem [] = (λ h. tt, λ h. refl)
check_seats_lem (p ∷ seats) =
    let here = check_concealed_sorted_lem none p.concealed in
    let later = check_seats_lem seats in
    let chain = both (check_concealed_sorted none p.concealed) (check_seats seats) in
    (λ h. let c = chain.0 h in (here.0 c.0, later.0 c.1), λ h. chain.1 (here.1 h.0, later.1 h.1))

-- `validate_state_invariants` accepts a state exactly where at every seat each concealed tile is a
-- valid token and the concealed tiles are in canonical order.
pub validate_state_invariants_lem :
    (s : GameState) → (validate_state_invariants s ≡ ok tt) ↔ All IsCanonical s.seats
unfolding validate_state_invariants
validate_state_invariants_lem s = check_seats_lem s.seats
