-- ===== src/Curator.antt =====
-- server/src/curator.ts: the curator settings, cached for five seconds (`CuratorSettingsStore`). The
-- engine's answers and the clock's readings are arguments.
pub mod Cache
mod Examples
use mcp_zeromem.Common.{
  ℕ, ◌+◌, ◌-◌, String, Bool, true, false, not, Option, none, some, List, [], ◌∷◌, ltb,
  if◌then◌else◌, or_else,
}
use mcp_zeromem.Common.Text.{truthy}

pub record CuratorConfig : Type 0 where
  pub max_per_call : ℕ
  pub max_per_run : ℕ
  pub min_age_ms : ℕ
  pub token : Option String
  pub expose_to_all : Bool
  pub brief_max_chars : ℕ

-- `token` is absent, null or a text.
pub record CuratorSettingsUpdate : Type 0 where
  pub max_per_call : ℕ
  pub max_per_run : ℕ
  pub min_age_ms : ℕ
  pub expose_to_all : Bool
  pub brief_max_chars : ℕ
  pub token : Option (Option String)

abbrev pub cache_ms : ℕ
cache_ms = 5000

-- `cached` is the settings and the time `at` which they were written there.
pub record CuratorSettingsStore : Type 0 where
  pub cached : Option (CuratorConfig × ℕ)
  pub env_token : Option String

unfoldable pub create : Option String → CuratorSettingsStore
create env_token = record { cached = none; env_token = env_token }

abbrev pub if_fresh : ℕ → Option (CuratorConfig × ℕ) → Option CuratorConfig
if_fresh now none = none
if_fresh now (some (c, since)) = if ltb (now - since) cache_ms then some c else none

-- `this.cached = { config, at: Date.now() }`
abbrev pub keep : CuratorConfig → ℕ → CuratorSettingsStore → CuratorSettingsStore
keep c now s = record s { cached = some (c, now) }

-- What `config()` gives, and the store after it. `answer` is the engine's, `later` the time at which
-- it has arrived.
abbrev pub config_from :
    Option CuratorConfig
    → CuratorConfig
    → ℕ
    → CuratorSettingsStore
    → CuratorConfig × CuratorSettingsStore
config_from (some c) answer later s = (c, s)
config_from none answer later s = (answer, keep answer later s)

unfoldable pub config :
    ℕ → CuratorConfig → ℕ → CuratorSettingsStore → CuratorConfig × CuratorSettingsStore
config now answer later s = config_from (if_fresh now s.cached) answer later s

-- `this.envToken ?? (await this.config()).token`
unfoldable pub token_from :
    Option String
    → ℕ
    → CuratorConfig
    → ℕ
    → CuratorSettingsStore
    → Option String × CuratorSettingsStore
unfolding config
token_from (some t) now answer later s = (some t, s)
token_from none now answer later s =
    ((config now answer later s).0.token, (config now answer later s).1)

unfoldable pub token :
    ℕ → CuratorConfig → ℕ → CuratorSettingsStore → Option String × CuratorSettingsStore
unfolding token_from
token now answer later s = token_from s.env_token now answer later s

pub data TokenSource : Type 0 where
  env store unset : TokenSource

-- `token_source` of `view()`.
unfoldable pub token_source : CuratorConfig → CuratorSettingsStore → TokenSource
token_source c s = elim (truthy s.env_token) [
  | some t ↦ env
  | none ↦ elim (truthy c.token) [ some t ↦ store | none ↦ unset ]
]

-- `{ ...current, ...update, token }`
unfoldable pub merge : CuratorConfig → CuratorSettingsUpdate → CuratorConfig
merge current update = record {
  max_per_call = update.max_per_call;
  max_per_run = update.max_per_run;
  min_age_ms = update.min_age_ms;
  token = or_else update.token current.token;
  expose_to_all = update.expose_to_all;
  brief_max_chars = update.brief_max_chars;
}

-- The write of `update`; `current` is what the engine holds, `set_curator_config` what it makes of new
-- settings.
unfoldable pub update_settings :
    (CuratorConfig → CuratorConfig)
    → CuratorConfig
    → CuratorSettingsUpdate
    → ℕ
    → CuratorSettingsStore
    → CuratorSettingsStore
unfolding merge
update_settings set_curator_config current update now s =
    keep (set_curator_config (merge current update)) now s

-- The write of `generateToken`.
unfoldable pub generate_token :
    (CuratorConfig → CuratorConfig)
    → CuratorConfig
    → String
    → ℕ
    → CuratorSettingsStore
    → CuratorSettingsStore
generate_token set_curator_config current minted now s =
    keep (set_curator_config (record current { token = some minted })) now s
