-- ===== src/View/Events.antt =====
-- `project_event` of mahjong/engine/state.py. `R` holds the keys of an event, and of an
-- opportunity, that the code passes on unread.
use Prim.Native.String.{String}
use text.Mathlib.Text.{◌==◌ as str_eq}
use mahjong_server_bot_zoo.Prelude.{
  ℕ, ◌≡◌, Bool, true, false, not, ◌&&◌, Option, none, some, List, [], eqb, if◌then◌else◌, keep,
}
use mahjong_server_bot_zoo.Tiles.{Tile}

pub record Opportunity (R : Type 0) : Type 0 where
  pub seat : ℕ
  pub others : R

-- A key that may be missing is an option.
pub record Event (R : Type 0) : Type 0 where
  pub event : Option String
  pub seat : Option ℕ
  pub tile : Option Tile
  pub decision : Option String
  pub kind : Option String
  pub opportunities : Option (List (Opportunity R))
  pub others : R

-- `event.get(key) == text`
abbrev pub reads : Option String → String → Bool
reads none text = false
reads (some value) text = str_eq value text

-- `seat is None or seat != actor`
abbrev pub is_other : Option ℕ → Option ℕ → Bool
is_other none actor = true
is_other (some seat) none = true
is_other (some seat) (some actor) = not (eqb seat actor)

module _ {R : Type 0} where
  abbrev pub own_opportunities : Option ℕ → Option (List (Opportunity R)) → List (Opportunity R)
  own_opportunities none given = []
  own_opportunities (some seat) none = []
  own_opportunities (some seat) (some given) = keep (λ o. eqb o.seat seat) given

  -- The tile of the event is for its seat alone.
  abbrev pub is_private : Event R → Bool
  is_private e =
      if reads e.event "DRAW"
      then true
      else reads e.event "CLAIM_DECISION" && (reads e.decision "GANG" && reads e.kind "CONCEALED")

  unfoldable pub project_event : Event R → Option ℕ → Event R
  project_event e seat =
      if reads e.event "CLAIM_WINDOW"
      then record e { opportunities = some (own_opportunities seat e.opportunities) }
      else if is_private e && is_other seat e.seat
      then record e { tile = none }
      else e

  -- A draw, or a concealed kong.
  pub data HasSecretTile (e : Event R) : Type 0 where
    drawn : e.event ≡ some "DRAW" → HasSecretTile e
    concealed_kong :
        e.event ≡ some "CLAIM_DECISION"
        → e.decision ≡ some "GANG"
        → e.kind ≡ some "CONCEALED"
        → HasSecretTile e

  -- The viewer is a seat, and the event is of that seat.
  abbrev pub IsOf : Option ℕ → Event R → Type 0
  IsOf viewer e = (seat : ℕ) × (viewer ≡ some seat) × (e.seat ≡ some seat)
