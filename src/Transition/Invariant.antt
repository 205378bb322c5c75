-- ===== src/Transition/Invariant.antt =====
-- What is true of every state between two actions of mahjong/engine/transition/, and what an
-- action keeps.
use mahjong_server_bot_zoo.Prelude.{
  ℕ, ◌+◌, ◌*◌, ◌≤◌, ◌<◌, ◌≡◌, ◌≢◌, ◌⊎◌, true, false, Option, none, some, List, [], ◌∷◌, eqb,
  if◌then◌else◌, length, get_elem?, replicate, All,
}
use mahjong_server_bot_zoo.Prelude.Int.{ℤ, pos, ◌+ℤ◌}
use mahjong_server_bot_zoo.Prelude.Counting.{count, sum_by}
use mahjong_server_bot_zoo.Prelude.Seq.{ok, last?}
use mahjong_server_bot_zoo.Prelude.Sorting.{is_sorted}
use mahjong_server_bot_zoo.Tiles.{Tile, feng, tile_le, tile_eq, is_flower}
use mahjong_server_bot_zoo.State.{
  MeldType, Meld, Seat, LastDiscard, LastDrawn, PendingClaim, Phase, GameState,
}
use mahjong_server_bot_zoo.Rules.{Config, Env, resolve_config}
use mahjong_server_bot_zoo.Rules.Scoring.ZeroSum.{IsUsable}

-- The copies of a tile that a seat holds or has laid down.
abbrev pub seat_tally : Tile → Seat → ℕ
seat_tally a p =
    count a p.concealed
    + sum_by (λ m. count a m.tiles) p.melds
    + count a p.discards
    + count a p.flowers

-- The copies of a tile on the table: in the wall and at the seats.
abbrev pub tally : Tile → GameState → ℕ
tally a s = count a s.wall.remaining + sum_by (seat_tally a) s.seats

-- The sum of the scores.
abbrev pub scores : List Seat → ℤ
scores [] = pos 0
scores (p ∷ ps) = p.score +ℤ scores ps

-- What is left to play: it falls with every action but PASS.
abbrev pub work : GameState → ℕ
work s = 2 * length s.wall.remaining + sum_by (λ p. length p.concealed) s.seats

-- A meld stands for three tiles of the hand.
abbrev pub hand_size : Seat → ℕ
hand_size p = length p.concealed + 3 * length p.melds

-- A run has three tiles; three or four of a kind are copies of one tile.
abbrev pub MeldFits : MeldType → List Tile → Type 0
MeldFits MeldType.chi ts = length ts ≡ 3
MeldFits MeldType.peng ts = (t : Tile) × (ts ≡ replicate 3 t)
MeldFits _ ts = (t : Tile) × (ts ≡ replicate 4 t)

abbrev pub MeldIsSound : Meld → Type 0
MeldIsSound m = MeldFits m.kind m.tiles

abbrev pub IsWind : Tile → Type 0
IsWind t = (t.section ≡ feng) × (1 ≤ t.rank) × (t.rank ≤ 4)

-- The seat whose turn it is holds 14 tiles, any other 13; a finished hand may hold any number.
abbrev pub Fits : Phase → ℕ → ℕ → ℕ → Type 0
Fits Phase.discard actor i n = n ≡ (if eqb i actor then 14 else 13)
Fits Phase.claim_window actor i n = n ≡ 13
Fits Phase.terminal actor i n = Unit
Fits _ actor i n = ⊥

pub record HandIsSound (p : Seat) : Type 0 where
  pub melds : All MeldIsSound p.melds
  pub wind : IsWind p.seat_wind
  pub in_order : is_sorted tile_le p.concealed ≡ true
  pub no_flower : All (λ t. is_flower t ≡ false) p.concealed

-- A statement about every seat, by its number.
abbrev pub EachSeat : (ℕ → Seat → Type 0) → List Seat → Type 0
EachSeat P seats = (i : ℕ) (p : Seat) → get_elem? seats i ≡ some p → P i p

-- In the claim window the last discard lies on top of its seat's discards.
abbrev pub DiscardIsOnTop : LastDiscard → List Seat → Type 0
DiscardIsOnTop last seats =
    (last.seat < 4) × EachSeat (λ i p. i ≡ last.seat → last? p.discards ≡ some last.tile) seats

abbrev pub TurnIsSound : Phase → ℕ → Option LastDiscard → List Seat → Type 0
TurnIsSound Phase.discard actor none seats = actor < 4
TurnIsSound Phase.claim_window actor (some last) seats = DiscardIsOnTop last seats
TurnIsSound Phase.terminal actor last seats = Unit
TurnIsSound _ actor last seats = ⊥

-- On its turn a seat holds the tile that it has just drawn.
abbrev pub DrawnIsHeld : Phase → ℕ → Option LastDrawn → List Seat → Type 0
DrawnIsHeld Phase.discard actor (some d) seats =
    (d.seat ≡ actor) × EachSeat (λ i p. i ≡ actor → 0 < count d.tile p.concealed) seats
DrawnIsHeld _ actor drawn seats = Unit

-- An entry for a claim is another seat's than the discarder's.
abbrev pub ClaimFits : LastDiscard → PendingClaim → Type 0
ClaimFits last c = (c.seat < 4) × (c.seat ≢ last.seat)

-- A claim window waits for someone.
abbrev pub PendingIsSound : Phase → Option LastDiscard → List PendingClaim → Type 0
PendingIsSound Phase.claim_window (some last) claims =
    (0 < length claims) × All (ClaimFits last) claims
PendingIsSound _ last claims = Unit

module _ (env : Env) where
  -- What no action changes.
  pub record TableIsSound (s : GameState) : Type 0 where
    pub four : length s.seats ≡ 4
    pub config : Config
    pub resolves : resolve_config env s.rules ≡ ok config
    pub usable : IsUsable config.conversion
    pub round : IsWind s.round_wind
    pub hands : EachSeat (λ i p. HandIsSound p) s.seats

  pub record IsSound (s : GameState) : Type 0 where
    pub table : TableIsSound s
    pub sizes : EachSeat (λ i p. Fits s.phase s.current_actor i (hand_size p)) s.seats
    pub turn : TurnIsSound s.phase s.current_actor s.last_discard s.seats
    pub drawn : DrawnIsHeld s.phase s.current_actor s.last_drawn s.seats
    pub pending : PendingIsSound s.phase s.last_discard s.pending_claims

  -- Between two turns: every seat holds 13 tiles.
  pub record IsReady (s : GameState) : Type 0 where
    pub table : TableIsSound s
    pub sizes : EachSeat (λ i p. hand_size p ≡ 13) s.seats

-- No tile appears or disappears, and no score changes in sum.
pub record Conserves (s t : GameState) : Type 0 where
  pub tiles : (a : Tile) → tally a t ≡ tally a s
  pub scored : scores t.seats ≡ scores s.seats

-- Less is left to play, or the hand is over.
abbrev pub Advances : GameState → GameState → Type 0
Advances s t = (work t ≤ work s) × ((work t < work s) ⊎ (t.phase ≡ Phase.terminal))

module _ (env : Env) where
  -- What an action other than an undecided PASS leads to.
  pub record Continues (s t : GameState) : Type 0 where
    pub sound : IsSound env t
    pub conserves : Conserves s t
    pub advances : Advances s t
