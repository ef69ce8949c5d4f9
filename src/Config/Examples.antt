-- ===== src/Config/Examples.antt =====
-- Environments for server/src/config.ts.
use mcp_zeromem.Common.{
  ℕ, ◌⊎◌, String, Bool, false, Option, none, some, [], ◌∷◌, ◌≡◌, refl, str_eq, if◌then◌else◌,
}
use mcp_zeromem.Common.Text.{is_space, all_chars, is_line_end, utf16_length}
use mcp_zeromem.Auth.{auth_middleware, granted, default, auth_disabled_by_env, after_space}
use mcp_zeromem.Auth.Access.{Gives}
use mcp_zeromem.Api.App.{auth_config}
use mcp_zeromem.Config.{Config}
use mcp_zeromem.Config.Env.{Env, env_value}
use mcp_zeromem.Config.Schema.{issues, parsed_config}
use mcp_zeromem.Config.Load.{
  loaded, refused, invalid, no_token, http, load_config, raw_config, checked, finish,
}
use mcp_zeromem.Api.App as App
use mcp_zeromem.Api.App.{request}
use mcp_zeromem.Api.App.Guarded.{IsTurnedAway, request-IsTurnedAway}
use mcp_zeromem.Api.App.Examples.{small, here, world}
use mcp_zeromem.Config.Safe.{
  IsSound, MayListen, AgreesOnHome, HasEndpoint, load_config-IsSound, load_config_guarded,
}

abbrev number : String → Option ℕ
number text = if str_eq text "8080" then some 8080 else none

abbrev url : String → Bool
url text = false

abbrev same : String → String
same path = path

-- Only the port and the token are set.
abbrev env : Env
env key =
    if str_eq key "PORT"
    then some " 8080 "
    else if str_eq key "MCP_ZEROMEM_TOKEN"
    then some "s3cret"
    else none

abbrev typo : Env
typo key = if str_eq key "ZEROMEM_READ_ONLY" then some "ture" else env key

abbrev nothing : Env
nothing key = none

mistyped : load_config same number url typo http ≡ refused (invalid ("ZEROMEM_READ_ONLY" ∷ []))
unfolding load_config checked issues raw_config env_value is_space utf16_length
mistyped = refl

open_server : load_config same number url nothing http ≡ refused no_token
unfolding load_config checked finish issues raw_config utf16_length
open_server = refl

abbrev opened : Config
unfolding parsed_config raw_config is_space
opened = parsed_config (raw_config same number url env)

starts : load_config same number url env http ≡ loaded opened
unfolding load_config checked finish issues raw_config is_space utf16_length
starts = refl

load_config-IsSound_example :
    IsSound env opened
    × MayListen same number url env opened
    × AgreesOnHome same number url env opened
    × HasEndpoint same number url opened
load_config-IsSound_example = load_config-IsSound same number url env opened starts

let_in : auth_middleware (λ s. s) (auth_config opened) (some "Bearer s3cret") ≡ granted default
unfolding auth_middleware parsed_config raw_config is_space all_chars after_space is_line_end
let_in = refl

load_config_guarded_test : Gives (some "Bearer s3cret") opened.auth_token
load_config_guarded_test =
    load_config_guarded same number url (λ s. s) (λ a b e. e) env opened (some "Bearer s3cret")
      starts (unfold auth_disabled_by_env in refl) let_in

request-IsTurnedAway_example :
    Gives (some "Bearer wrong") opened.auth_token
    ⊎ IsTurnedAway small
        (λ s. s)
        (λ a b e. e)
        same
        number
        url
        env
        opened
        starts
        (unfold auth_disabled_by_env in refl)
        world
        (request small opened (λ s. s) here (some "Bearer wrong") App.get_aliases world)
request-IsTurnedAway_example =
    request-IsTurnedAway small (λ s. s) (λ a b e. e) same number url env opened starts
      (unfold auth_disabled_by_env in refl) here (some "Bearer wrong") App.get_aliases world refl
