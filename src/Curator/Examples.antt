-- ===== src/Curator/Examples.antt =====
-- Settings of server/src/curator.ts at concrete times.
use mcp_zeromem.Common.{◌≡◌, refl, true, false, none, some, [], ◌∷◌, arith, or_else}
use mcp_zeromem.Curator.{
  CuratorConfig, CuratorSettingsUpdate, config, token, update_settings, generate_token, create,
  token_source, env,
}
use mcp_zeromem.Curator.Cache.{arrives, run, config_settled, first_given, update-token}

abbrev old : CuratorConfig
old = record {
  max_per_call = 10;
  max_per_run = 20;
  min_age_ms = 0;
  token = some "old";
  expose_to_all = false;
  brief_max_chars = 200;
}

abbrev new : CuratorConfig
new = record {
  max_per_call = 10;
  max_per_run = 20;
  min_age_ms = 0;
  token = some "new";
  expose_to_all = false;
  brief_max_chars = 200;
}

abbrev clearing : CuratorSettingsUpdate
clearing = record {
  max_per_call = 5;
  max_per_run = 20;
  min_age_ms = 0;
  expose_to_all = true;
  brief_max_chars = 200;
  token = some none;
}

-- Read at 1000, changed elsewhere at 2000: the old settings are served until 6000.
still_old : (config 5999 new 6001 (run (arrives old 1000 ∷ []) (create none))).0 ≡ old
unfolding config run create
still_old = refl

minted : (token 20 old 21 (generate_token (λ c. c) old "fresh" 10 (create none))).0 ≡ some "fresh"
unfolding token generate_token create
minted = refl

from_env : token_source old (create (some "t")) ≡ env
unfolding token_source create
from_env = refl

config_settled_example : (config 7000 new 7001 (run (arrives old 1000 ∷ []) (create none))).0 ≡ new
config_settled_example =
    config_settled 2000 7000 7001 new none (arrives old 1000 ∷ []) ((λ h. absurd (omega arith)), tt)
      (omega arith)

updated_at_once :
    (token 4000 new 4001 (update_settings (λ c. c) old clearing 10 (create none))).0
    ≡ first_given (create none).env_token (or_else clearing.token old.token)
updated_at_once =
    update-token (λ c. c) (λ c. refl) old new clearing 10 4000 4001 (create none) (omega arith)
