-- ===== src/Transition/Defs/Actions.antt =====
-- The transitions of mahjong/engine/transition/: play.py, pass_.py, claim.py, gang.py and hu.py.
use mahjong_server_bot_zoo.Prelude.{
  ℕ, zero, suc, ◌+◌, not, Option, none, some, List, [], ◌∷◌, ◌++◌, eqb, if◌then◌else◌, ◌==◌, set,
  replicate, keep,
}
use mahjong_server_bot_zoo.Prelude.Seq.{
  Result, ok, err, assertion_error, index, first, or_raise, remove, pop, ◌>>=◌,
}
use mahjong_server_bot_zoo.Tiles.{Tile, tile_eq}
use mahjong_server_bot_zoo.State.{GangKind, Meld, MeldType, Seat, Phase, PendingClaim, GameState}
use mahjong_server_bot_zoo.Rules.{Env}
use mahjong_server_bot_zoo.Legality.{is_peng}
use mahjong_server_bot_zoo.Transition.Defs.Draw.{
  internal_draw, advance_to_next_seat_discard, open_claim_window_or_advance,
}

abbrev pub put_seat : GameState → ℕ → Seat → GameState
put_seat s seat p = record s { seats = set s.seats seat p }

module _ (env : Env) where
  unfoldable pub apply_play : GameState → ℕ → Tile → Result GameState
  apply_play s seat t = do
    p ← index s.seats seat
    rest ← remove t p.concealed
    let s' = put_seat s seat (record p { concealed = rest; discards = p.discards ++ t ∷ [] })
    let turn : ℕ = s.turn_index + 1
    open_claim_window_or_advance env (record s' {
      turn_index = turn;
      last_discard = some (record { tile = t; seat = seat; turn_index = turn });
    })

abbrev pub after_pass : GameState → List PendingClaim → Result GameState
after_pass s [] = advance_to_next_seat_discard (record s { pending_claims = [] })
after_pass s (c ∷ cs) = ok (record s { pending_claims = c ∷ cs })

unfoldable pub apply_pass : GameState → ℕ → Result GameState
apply_pass s seat = after_pass s (keep (λ c. not (eqb c.seat seat)) s.pending_claims)

-- `_consume_discard` and `_hand_to_claimer`
unfoldable pub consume_discard : GameState → ℕ → Result GameState
consume_discard s discarder = do
  p ← index s.seats discarder
  rest ← pop p.discards
  let s' = put_seat s discarder (record p { discards = rest })
  ok (record s' { last_discard = none; last_drawn = none; pending_claims = [] })

abbrev pub hand_to_claimer : GameState → ℕ → GameState
hand_to_claimer s claimer = record s {
  phase = Phase.discard;
  current_actor = claimer;
  turn_index = s.turn_index + 1;
}

-- The common part of PENG and CHI: the rest of the hand and the new meld.
abbrev pub take_meld : GameState → ℕ → Seat → List Tile → Meld → ℕ → Result GameState
take_meld s seat p rest meld discarder =
    consume_discard (put_seat s seat (record p { concealed = rest; melds = p.melds ++ meld ∷ [] }))
      discarder
    >>= λ s'. ok (hand_to_claimer s' seat)

unfoldable pub apply_peng : GameState → ℕ → Tile → Result GameState
unfolding consume_discard
apply_peng s seat t = do
  last ← or_raise s.last_discard assertion_error
  p ← index s.seats seat
  one_less ← remove t p.concealed
  rest ← remove t one_less
  take_meld s seat p rest
      (record {
        kind = MeldType.peng;
        tiles = t ∷ t ∷ t ∷ [];
        called_tile = some t;
        called_from_seat = last.seat;
      })
      last.seat

-- Each tile of the run but the called one leaves the hand.
unfoldable pub remove_run : Tile → List Tile → List Tile → Result (List Tile)
remove_run called [] hand = ok hand
remove_run called (t ∷ ts) hand =
    (if t == called then ok hand else remove t hand) >>= λ rest. remove_run called ts rest

unfoldable pub apply_chi : GameState → ℕ → List Tile → Result GameState
unfolding consume_discard
apply_chi s seat tiles = do
  last ← or_raise s.last_discard assertion_error
  p ← index s.seats seat
  rest ← remove_run last.tile tiles p.concealed
  take_meld s seat p rest
      (record {
        kind = MeldType.chi;
        tiles = tiles;
        called_tile = some last.tile;
        called_from_seat = last.seat;
      })
      last.seat

-- `n` removals of the same tile.
unfoldable pub remove_n : ℕ → Tile → List Tile → Result (List Tile)
remove_n zero t hand = ok hand
remove_n (suc n) t hand = remove t hand >>= λ rest. remove_n n t rest

abbrev pub kong : MeldType → Tile → Option Tile → ℕ → Meld
kong kind t called from = record {
  kind = kind;
  tiles = replicate 4 t;
  called_tile = called;
  called_from_seat = from;
}

unfoldable pub gang_exposed : GameState → ℕ → Tile → Result GameState
gang_exposed s seat t = do
  last ← or_raise s.last_discard assertion_error
  p ← index s.seats seat
  rest ← remove_n 3 t p.concealed
  let meld = kong MeldType.gang_exposed t (some t) last.seat
  let s' = put_seat s seat (record p { concealed = rest; melds = p.melds ++ meld ∷ [] })
  q ← index s'.seats last.seat
  discards ← pop q.discards
  let s'' = put_seat s' last.seat (record q { discards = discards })
  internal_draw
      (record s'' { last_discard = none; pending_claims = []; turn_index = s.turn_index + 1 }) seat

unfoldable pub gang_concealed : GameState → ℕ → Tile → Result GameState
gang_concealed s seat t = do
  p ← index s.seats seat
  rest ← remove_n 4 t p.concealed
  let meld = kong MeldType.gang_concealed t none seat
  let s' = put_seat s seat (record p { concealed = rest; melds = p.melds ++ meld ∷ [] })
  internal_draw (record s' { turn_index = s.turn_index + 1 }) seat

-- The first PENG of this tile becomes a kong and keeps where it came from.
unfoldable pub promote : Tile → List Meld → Result (List Meld)
promote t [] = err assertion_error
promote t (m ∷ ms) =
    let later : Result (List Meld) = promote t ms >>= λ rest. ok (m ∷ rest) in
    if is_peng m.kind
    then (first m.tiles >>= λ u.
        if u == t
        then ok (record m { kind = MeldType.gang_added; tiles = replicate 4 t } ∷ ms)
        else later)
    else later

unfoldable pub gang_added : GameState → ℕ → Tile → Result GameState
gang_added s seat t = do
  p ← index s.seats seat
  rest ← remove t p.concealed
  melds ← promote t p.melds
  let s' = put_seat s seat (record p { concealed = rest; melds = melds })
  internal_draw (record s' { turn_index = s.turn_index + 1 }) seat

unfoldable pub apply_gang : GameState → ℕ → Tile → GangKind → Result GameState
unfolding gang_exposed gang_concealed gang_added
apply_gang s seat t GangKind.exposed = gang_exposed s seat t
apply_gang s seat t GangKind.concealed = gang_concealed s seat t
apply_gang s seat t GangKind.added = gang_added s seat t
