-- ===== src/Legality/Defs.antt =====
-- mahjong/engine/legality/__init__.py, and the names of its two children.
mod Discard
mod Claim
unfoldable pub use Discard.*
unfoldable pub use Claim.*
use mahjong_server_bot_zoo.Prelude.{ℕ, List, [], leb, if◌then◌else◌}
use mahjong_server_bot_zoo.Prelude.Seq.{Result, ok, err, value_error}
use mahjong_server_bot_zoo.State.{Action, Phase, GameState}
use mahjong_server_bot_zoo.Rules.{Env}

module _ (env : Env) where
  abbrev pub actions_in : Phase → GameState → ℕ → Result (List Action)
  actions_in Phase.discard s seat = discard_actions env s seat
  actions_in Phase.claim_window s seat = claim_actions env s seat
  actions_in _ s seat = ok []

  unfoldable pub legal_actions : GameState → ℕ → Result (List Action)
  legal_actions s seat = if leb 4 seat then err value_error else actions_in s.phase s seat
