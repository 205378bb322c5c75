-- ===== src/Claims/Default.antt =====
-- `_default_action` of mahjong/table/manager.py: what is done for a seat that does not answer.
use mahjong_server_bot_zoo.Prelude.{
  ℕ, Bool, true, false, Option, none, some, List, [], ◌∷◌, eqb, if◌then◌else◌, keep,
}
use mahjong_server_bot_zoo.Prelude.Seq.{Result, ok, err, assertion_error, ◌>>=◌}
use mahjong_server_bot_zoo.State.{Action, LastDrawn, GameState}
use mahjong_server_bot_zoo.Rules.{Env}
use mahjong_server_bot_zoo.Legality.{legal_actions}

pub data PromptKind : Type 0 where
  discard claim : PromptKind

abbrev pub is_play : Action → Bool
is_play (Action.play t) = true
is_play action = false

-- `assert plays`, then `plays[0]`
abbrev pub first_play : List Action → Result Action
first_play [] = err assertion_error
first_play (a ∷ plays) = ok a

module _ (env : Env) where
  abbrev pub any_play : GameState → ℕ → Result Action
  any_play s seat = legal_actions env s seat >>= λ legal. first_play (keep is_play legal)

  abbrev pub play_drawn : Option LastDrawn → GameState → ℕ → Result Action
  play_drawn none s seat = any_play s seat
  play_drawn (some d) s seat =
      let fallback = any_play s seat in
      if eqb d.seat seat then ok (Action.play d.tile) else fallback

  unfoldable pub default_action : GameState → ℕ → PromptKind → Result Action
  default_action s seat claim = ok Action.pass
  default_action s seat discard = play_drawn s.last_drawn s seat
