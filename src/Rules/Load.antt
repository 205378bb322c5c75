-- ===== src/Rules/Load.antt =====
-- mahjong/engine/rulesets/__init__.py: resolving a ruleset reference to its config.
use Prim.Native.String.{String}
use text.Mathlib.Text.{◌==◌ as str_eq}
use mahjong_server_bot_zoo.Prelude.{Option, none, some, List, [], ◌∷◌, if◌then◌else◌, true}
use mahjong_server_bot_zoo.Prelude.Seq.{Result, ok, ruleset_error, guard, or_raise, ◌>>=◌, ◌>>◌}
use mahjong_server_bot_zoo.State.{RuleSetRef}
use mahjong_server_bot_zoo.Rules.Inputs.{Config, Env}

-- MANIFEST.json: the released hash of each ruleset.
abbrev pub manifest : List (String × String)
manifest =
    ("mcr-2006", "sha256:feb801d0bb3bcf26e80d5a250559789db28d8023ed70cdb2ccb7cda69a5418d0")
    ∷ ("mcr-house-3fan", "sha256:09d58b1a3374ac604a2873058dc298356de701e60d41903d7341e42de1599ed4")
    ∷ []

abbrev pub manifest_get : String → List (String × String) → Option String
manifest_get id [] = none
manifest_get id ((j, h) ∷ m) = if str_eq j id then some h else manifest_get id m

module _ (env : Env) where
  unfoldable pub load_ruleset : RuleSetRef → Result Config
  load_ruleset ref = do
    expected ← or_raise (manifest_get ref.id manifest) ruleset_error
    config ← or_raise (env.read_config ref.id) ruleset_error
    let computed = env.config_hash config
    guard (str_eq computed expected) ruleset_error
    guard (elim ref.config_hash [ none ↦ true | some h ↦ str_eq h computed ]) ruleset_error
    ok config

  -- The memoised lookup by id alone.
  unfoldable pub resolve_config : RuleSetRef → Result Config
  resolve_config ref =
      load_ruleset (record { id = ref.id; version = ref.version; config_hash = none })
