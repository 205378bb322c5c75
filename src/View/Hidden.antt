-- ===== src/View/Hidden.antt =====
-- What a view of mahjong/engine/state.py does not tell.
use mathlib.Core.Path.{subst}
use mahjong_server_bot_zoo.Prelude.{
  ℕ, zero, suc, ◌+◌, ◌≡◌, ◌≢◌, ◌∙◌, inl, inr, refl, sym, ap, Bool-cases, false, Option, none, some,
  List, [], ◌∷◌, arith, eqb, leb, if◌then◌else◌, length, get_elem?, set, keep,
}
use mahjong_server_bot_zoo.Prelude.Seq.{ok, err, value_error}
use mahjong_server_bot_zoo.Tiles.{Tile}
use mahjong_server_bot_zoo.State.{Seat, LastDrawn, PendingClaim, RngState, GameState}
use mahjong_server_bot_zoo.View.Defs.{
  own, opponent, opponent_view, is_viewer, seats_view, own_claims, last_drawn_view, view_of,
  project,
}

-- What seat `other` holds and drew, the claims open to seats, and the wall and the generator.
pub record Secrets : Type 0 where
  pub hand : List Tile
  pub drawn : Tile
  pub claims : List PendingClaim
  pub remaining : List Tile
  pub rng : RngState

-- The same table with other secrets: the hand of seat `other`, the tile if that seat drew last,
-- the claims, the wall and the generator.
abbrev pub redrawn : ℕ → Tile → Option LastDrawn → Option LastDrawn
redrawn other t none = none
redrawn other t (some d) = some (if eqb d.seat other then record d { tile = t } else d)

abbrev pub with_secrets : GameState → ℕ → Seat → Secrets → GameState
with_secrets s other p x = record s {
  wall = record { remaining = x.remaining; drawn_count = s.wall.drawn_count; total = s.wall.total };
  seats = set s.seats other (record p { concealed = x.hand });
  last_drawn = redrawn other x.drawn s.last_drawn;
  pending_claims = x.claims;
  rng = x.rng;
}

unlike_seat : (a b : ℕ) → a ≢ b → eqb a b ≡ false
unlike_seat a b ne = ground arith

-- The second list of claims comes of the first when entries of other seats than the viewer's are
-- taken out and put in.
pub data Alike (viewer : Option ℕ) : List PendingClaim → List PendingClaim → Type 0 where
  stop : Alike viewer [] []
  both :
      {c : PendingClaim} {cs ds : List PendingClaim}
      → Alike viewer cs ds
      → Alike viewer (c ∷ cs) (c ∷ ds)
  out :
      {c : PendingClaim} {cs ds : List PendingClaim}
      → viewer ≢ some c.seat
      → Alike viewer cs ds
      → Alike viewer (c ∷ cs) ds
  put_in :
      {d : PendingClaim} {cs ds : List PendingClaim}
      → viewer ≢ some d.seat
      → Alike viewer cs ds
      → Alike viewer cs (d ∷ ds)

not_own :
    (viewer : Option ℕ) (c : PendingClaim) (cs : List PendingClaim)
    → viewer ≢ some c.seat
    → own_claims viewer (c ∷ cs) ≡ own_claims viewer cs
not_own none c cs ne = refl
not_own (some seat) c cs ne =
    let other : eqb c.seat seat ≡ false = unlike_seat c.seat seat (λ e. ne (ap some (sym e))) in
    rw (other, keep) refl

own_claims-Alike :
    (viewer : Option ℕ) {cs ds : List PendingClaim}
    → Alike viewer cs ds
    → own_claims viewer cs ≡ own_claims viewer ds
own_claims-Alike viewer stop = refl
own_claims-Alike none (both h) = refl
own_claims-Alike (some seat) (both {c} {cs} {ds} h) =
    let e = own_claims-Alike (some seat) h in
    elim (Bool-cases (eqb c.seat seat)) [
      | inl mine ↦ rw (mine, keep) (ap (λ l. c ∷ l) e)
      | inr other ↦ rw (other, keep) e
    ]
own_claims-Alike viewer (out {c} {cs} {ds} ne h) =
    not_own viewer c cs ne ∙ own_claims-Alike viewer h
own_claims-Alike viewer (put_in {d} {cs} {ds} ne h) =
    own_claims-Alike viewer h ∙ sym (not_own viewer d ds ne)

is_viewer-other : (viewer : Option ℕ) (i : ℕ) → viewer ≢ some i → is_viewer viewer i ≡ false
is_viewer-other none i ne = refl
is_viewer-other (some seat) i ne = unlike_seat i seat (λ e. ne (ap some (sym e)))

seats_view-hidden :
    (viewer : Option ℕ) (k : ℕ) (seats : List Seat) (i : ℕ) (p : Seat) (hand : List Tile)
    → get_elem? seats i ≡ some p
    → is_viewer viewer (k + i) ≡ false
    → length hand ≡ length p.concealed
    → seats_view viewer k (set seats i (record p { concealed = hand })) ≡ seats_view viewer k seats
seats_view-hidden viewer k [] i p hand e other same = absurd (cc)
seats_view-hidden viewer k (q ∷ seats) zero p hand e other same =
    let here : q ≡ p = cc in
    let at : is_viewer viewer k ≡ false =
      subst (λ j. is_viewer viewer j ≡ false) (omega arith) other in
    rw (here, at, same) refl
seats_view-hidden viewer k (q ∷ seats) (suc i) p hand e other same =
    ap (λ l. (if is_viewer viewer k then own q else opponent (opponent_view q)) ∷ l)
      (seats_view-hidden viewer (k + 1) seats i p hand e
        (subst (λ j. is_viewer viewer j ≡ false) (omega arith) other) same)

last_drawn_view-hidden :
    (viewer : Option ℕ) (other : ℕ) (t : Tile) (o : Option LastDrawn)
    → is_viewer viewer other ≡ false
    → last_drawn_view viewer (redrawn other t o) ≡ last_drawn_view viewer o
last_drawn_view-hidden none other t o h = refl
last_drawn_view-hidden (some seat) other t none h = refl
last_drawn_view-hidden (some seat) other t (some d) h = ground arith

view_of-hidden :
    (s : GameState) (viewer : Option ℕ) (other : ℕ) (p : Seat) (x : Secrets)
    → s.outcome ≡ none
    → get_elem? s.seats other ≡ some p
    → is_viewer viewer other ≡ false
    → length x.hand ≡ length p.concealed
    → length x.remaining ≡ length s.wall.remaining
    → own_claims viewer x.claims ≡ own_claims viewer s.pending_claims
    → view_of (with_secrets s other p x) viewer ≡ view_of s viewer
view_of-hidden s viewer other p x playing found unlike sized walled claims =
    rw
      (
        seats_view-hidden viewer 0 s.seats other p x.hand found
            (subst (λ j. is_viewer viewer j ≡ false) (omega arith) unlike) sized,
        last_drawn_view-hidden viewer other x.drawn s.last_drawn unlike,
        claims,
        walled,
        playing,
      )
      refl

-- While the hand is in play, the view of a seat, and of a spectator, stays the same when another
-- seat holds other tiles, as many as before, and drew another tile, when the wall holds other
-- tiles, as many as before, when the generator is in another state, and when entries for claims of
-- other seats are taken out and put in.
pub project-hidden :
    (s : GameState) (viewer : Option ℕ) (other : ℕ) (p : Seat) (x : Secrets)
    → s.outcome ≡ none
    → get_elem? s.seats other ≡ some p
    → viewer ≢ some other
    → length x.hand ≡ length p.concealed
    → length x.remaining ≡ length s.wall.remaining
    → Alike viewer s.pending_claims x.claims
    → project (with_secrets s other p x) viewer ≡ project s viewer
unfolding project
project-hidden s none other p x playing found unlike sized walled claims = ap ok (
    view_of-hidden s none other p x playing found (is_viewer-other none other unlike) sized walled
      (sym (own_claims-Alike none claims)))
project-hidden s (some seat) other p x playing found unlike sized walled claims =
    ap (λ v. if leb 4 seat then err value_error else ok v)
      (view_of-hidden s (some seat) other p x playing found
        (is_viewer-other (some seat) other unlike) sized walled
        (sym (own_claims-Alike (some seat) claims)))
