-- ===== src/Api/App/Guarded.antt =====
-- Which requests to the API (server/src/app.ts) are served under a configuration that has been loaded
-- (server/src/config.ts).
use mcp_zeromem.Common.{ℕ, String, Bool, false, ◌≡◌, refl, ◌⊎◌, inl, inr, Option}
use mcp_zeromem.Auth.{
  auth_disabled_by_env, auth_middleware, granted, unauthorized, errored, default, curator, Decision,
}
use mcp_zeromem.Auth.Access.{Gives, auth_middleware-ne-curator, auth_middleware-ne-errored}
use mcp_zeromem.Config.{Config}
use mcp_zeromem.Config.Env.{Env}
use mcp_zeromem.Config.Load.{loaded, http, load_config}
use mcp_zeromem.Config.Safe.{load_config_guarded}
use mcp_zeromem.Api.{World}
use mcp_zeromem.Api.Engine.{Engine}
use mcp_zeromem.Api.Reply.{HttpReply}
use mcp_zeromem.Api.App.{
  Request, Circumstances, auth_config, handle, render, authorized, is_public, request,
}

module _ {S J : Type 0} (e : Engine S J) (digest : String → String)
    (distinct : (a b : String) → digest a ≡ digest b → a ≡ b) (resolve : String → String)
    (number : String → Option ℕ) (is_url : String → Bool) (env : Env) (c : Config)
    (starts : load_config resolve number is_url env http ≡ loaded c)
    (on : auth_disabled_by_env (env "SECURE_LOCAL_NET") ≡ false) where
  -- The reply is a refusal, and the server has done nothing.
  abbrev pub IsTurnedAway : World S → HttpReply J × World S → Type 0
  IsTurnedAway w (reply, after) = (reply.status ≡ 401) × (after ≡ w)

  decided :
      (d : Decision) (here : Circumstances) (header : Option String) (r : Request J) (w : World S)
      → auth_middleware digest (auth_config c) header ≡ d
      → Gives header c.auth_token
        ⊎ IsTurnedAway w (authorized e c d (λ v. render e c (handle e c here r v)) w)
  decided (granted default) here header r w q =
      inl (load_config_guarded resolve number is_url digest distinct env c header starts on q)
  decided (granted curator) here header r w q =
      absurd (auth_middleware-ne-curator digest distinct (auth_config c) header q)
  decided (unauthorized message) here header r w q = inr (refl, refl)
  decided errored here header r w q =
      absurd (auth_middleware-ne-errored digest distinct (auth_config c) header q)

  -- With a collision-free digest, a server that listens, and that was started without `SECURE_LOCAL_NET`: a request
  -- to the API for anything but the status either gives the bearer token that the environment configures, or is
  -- answered with 401 and changes nothing.
  pub request-IsTurnedAway :
      (here : Circumstances) (header : Option String) (r : Request J) (w : World S)
      → is_public r ≡ false
      → Gives header c.auth_token ⊎ IsTurnedAway w (request e c digest here header r w)
  unfolding request
  request-IsTurnedAway here header r w p =
      rw p (decided (auth_middleware digest (auth_config c) header) here header r w refl)
