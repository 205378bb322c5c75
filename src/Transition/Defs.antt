-- ===== src/Transition/Defs.antt =====
-- `apply_action` of mahjong/engine/transition/__init__.py, and the names of its children.
mod Draw
mod Actions
mod Hu
unfoldable pub use Draw.*
unfoldable pub use Actions.*
unfoldable pub use Hu.*
use mahjong_server_bot_zoo.Prelude.{ℕ}
use mahjong_server_bot_zoo.Prelude.Counting.{contains}
use mahjong_server_bot_zoo.Prelude.Seq.{Result, illegal_action, guard, ◌>>=◌, ◌>>◌}
use mahjong_server_bot_zoo.State.{Action, action_eq, GameState}
use mahjong_server_bot_zoo.Rules.{Env}
use mahjong_server_bot_zoo.Legality.{legal_actions}

module _ (env : Env) where
  abbrev pub dispatch : GameState → ℕ → Action → Result GameState
  dispatch s seat (Action.play t) = apply_play env s seat t
  dispatch s seat Action.pass = apply_pass s seat
  dispatch s seat (Action.peng t) = apply_peng s seat t
  dispatch s seat (Action.chi ts) = apply_chi s seat ts
  dispatch s seat (Action.gang t kind) = apply_gang s seat t kind
  dispatch s seat Action.hu = apply_hu env s seat

  unfoldable pub apply_action : GameState → ℕ → Action → Result GameState
  apply_action s seat action = do
    legal ← legal_actions env s seat
    guard (contains action legal) illegal_action
    dispatch s seat action
