-- ===== src/Api/Curator.antt =====
-- The calls of server/src/curator.ts that the settings routes make: `curator_view`, `update_curator` and `generateToken`
-- of `CuratorSettingsStore`, with the engine's failures.
use mcp_zeromem.Common.{ℕ, String, Bool, true, false, Option, none, some, List, [], ◌∷◌}
use mcp_zeromem.Curator.{
  CuratorConfig, CuratorSettingsUpdate, CuratorSettingsStore, TokenSource, unset, token_source,
  if_fresh, keep, merge,
}
use mcp_zeromem.Api.{World, call, then_call}
use mcp_zeromem.Api.Engine.{Called, returned, rejected, Engine, CurationRuns, PageQuery}
use mcp_zeromem.Api.Reply.{CuratorSettings}

-- The readings of the clock: by `write_config`, by `config`, and once its answer has arrived.
pub record Clock : Type 0 where
  pub written : ℕ
  pub now : ℕ
  pub later : ℕ

abbrev is_set : TokenSource → Bool
is_set unset = false
is_set _ = true

-- `runs.runs[0]?.ended_at ?? null`
abbrev first : List ℕ → Option ℕ
first [] = none
first (n ∷ ns) = some n

-- The object that `curator_view` returns.
unfoldable pub settings_view : CuratorConfig → CurationRuns → CuratorSettingsStore → CuratorSettings
unfolding token_source
settings_view c runs s = record {
  max_per_call = c.max_per_call;
  max_per_run = c.max_per_run;
  min_age_ms = c.min_age_ms;
  expose_to_all = c.expose_to_all;
  brief_max_chars = c.brief_max_chars;
  token_set = is_set (token_source c s);
  token_source = token_source c s;
  last_run_at = first runs.ended_at;
  cursor = runs.cursor;
}

module _ {S J : Type 0} (e : Engine S J) where
  abbrev pub cached_at : ℕ → Called CuratorConfig × World S → Called CuratorConfig × World S
  cached_at later (returned c, w) = (returned c, record w { curator = keep c later w.curator })
  cached_at later (rejected f, w) = (rejected f, w)

  abbrev pub read_config : Clock → World S → Option CuratorConfig → Called CuratorConfig × World S
  read_config clock w (some c) = (returned c, w)
  read_config clock w none = cached_at clock.later (call e.curator_config w)

  unfoldable pub curator_config : Clock → World S → Called CuratorConfig × World S
  curator_config clock w = read_config clock w (if_fresh clock.now w.curator.cached)

  -- `Promise.all` of the settings and the newest run: both calls are made, and the first failure is
  -- the one reported.
  abbrev pub both :
      Called CuratorConfig → Called CurationRuns × World S → Called CuratorSettings × World S
  both (rejected f) (r, w) = (rejected f, w)
  both (returned c) (rejected f, w) = (rejected f, w)
  both (returned c) (returned runs, w) = (returned (settings_view c runs w.curator), w)

  abbrev pub newest : PageQuery
  newest = record { limit = some 1; offset = none }

  abbrev pub with_runs : Called CuratorConfig × World S → Called CuratorSettings × World S
  with_runs (r, w) = both r (call (e.curation_runs newest) w)

  unfoldable pub curator_view : Clock → World S → Called CuratorSettings × World S
  unfolding curator_config
  curator_view clock w = with_runs (curator_config clock w)

  -- `write_config`
  unfoldable pub write_config : ℕ → CuratorConfig → World S → Called CuratorConfig × World S
  write_config now c w = cached_at now (call (e.set_curator_config c) w)

  unfoldable pub update_curator :
      Clock → CuratorSettingsUpdate → World S → Called CuratorSettings × World S
  unfolding write_config curator_view merge
  update_curator clock u w = then_call (call e.curator_config w) (λ current v.
      then_call (write_config clock.written (merge current u) v) (λ stored. curator_view clock))

  -- The new token is an argument.
  unfoldable pub make_token : Clock → String → World S → Called (String × CuratorSettings) × World S
  unfolding write_config curator_view
  make_token clock minted w = then_call (call e.curator_config w) (λ current v.
      then_call (write_config clock.written (record current { token = some minted }) v) (λ stored u.
        then_call (curator_view clock u) (λ settings x. (returned (minted, settings), x))))
