-- ===== src/Config/Safe.antt =====
-- What a configuration that loads is sure of: server/src/config.ts.
use mathlib.Core.Path.{subst}
use mcp_zeromem.Common.{
  ℕ, ◌≤◌, ◌<◌, String, Bool, true, false, not, ◌&&◌, ◌||◌, ◌⊎◌, inl, inr, ◌≡◌, refl, ap, ◌∙◌, arith,
  Option, none, some, List, [], ◌∷◌, ◌++◌, ltb, or_else, str_eq, eq_iff, Bool-cases, Option-cases,
  All,
}
use mcp_zeromem.Common.Text.{truthy}
use mcp_zeromem.Memory.{optional}
use mcp_zeromem.Auth.{auth_disabled_by_env, auth_middleware, granted, default}
use mcp_zeromem.Auth.Access.{Gives, auth_middleware_iff}
use mcp_zeromem.Api.App.{auth_config}
use mcp_zeromem.Config.{Config}
use mcp_zeromem.Config.Env.{Env, env_value, env_boolean}
use mcp_zeromem.Config.Schema.{
  RawConfig, holds, is_given, failing, checks, remote_checks, rest_checks, in_limit, long_enough,
  issues, parsed_config,
}
use mcp_zeromem.Config.Load.{
  Loaded, loaded, refused, no_token, home_differs, no_endpoint, http, raw_config, is_openai,
  assert_auth_configured, assert_home_matches, finish, checked, load_config,
}

abbrev Passes : Bool × List String → Type 0
Passes c = c.0 ≡ true

failing_none : (cs : List (Bool × List String)) → failing cs ≡ [] → All Passes cs
failing_none [] h = tt
failing_none ((true, path) ∷ cs) h = (refl, failing_none cs h)
failing_none ((false, path) ∷ cs) h = absurd (cc)

All-right : (xs ys : List (Bool × List String)) → All Passes (xs ++ ys) → All Passes ys
All-right [] ys a = a
All-right (x ∷ xs) ys (p, a) = All-right xs ys a

-- What some of the checks of the schema have found.
abbrev IsChecked : RawConfig → Type 0
IsChecked r =
    (holds (ltb 0) r.port ≡ true)
    × (is_given r.read_only ≡ true)
    × (holds in_limit r.recall_text_limit ≡ true)
    × (optional long_enough r.curator_token ≡ true)

issues-IsChecked : (is_url : String → Bool) (r : RawConfig) → issues is_url r ≡ [] → IsChecked r
unfolding issues
issues-IsChecked is_url r h =
    let a = failing_none (checks is_url r) h in
    let rest =
      All-right (remote_checks is_url r.remote_embedder) (rest_checks is_url r) a.1.1.1.1.1.1.1.1 in
    (a.1.0, a.1.1.1.1.0, a.1.1.1.1.1.0, rest.1.1.1.0)

abbrev the_config : Config → Loaded → Config
the_config c (loaded d) = d
the_config c (refused e) = c

-- The same of the configuration that the schema gives.
abbrev pub IsSound : Env → Config → Type 0
IsSound env c =
    (env_boolean env "ZEROMEM_READ_ONLY" false ≡ some c.read_only)
    × (0 < c.port)
    × (100 ≤ c.recall_text_limit)
    × (c.recall_text_limit ≤ 20000)
    × (optional long_enough c.curator_token ≡ true)

value_given : {A : Type 0} (o : Option A) (a : A) → is_given o ≡ true → o ≡ some (or_else o a)
value_given none a h = absurd (cc)
value_given (some b) a h = refl

value_holds :
    {A : Type 0} (p : A → Bool) (o : Option A) (a : A) → holds p o ≡ true → p (or_else o a) ≡ true
value_holds p none a h = absurd (cc)
value_holds p (some b) a h = h

parsed-IsSound :
    (env : Env) (r : RawConfig)
    → env_boolean env "ZEROMEM_READ_ONLY" false ≡ r.read_only
    → IsChecked r
    → IsSound env (parsed_config r)
unfolding parsed_config
parsed-IsSound env r e (port, read_only, limit, token) =
    let p = value_holds (ltb 0) r.port 0 port in
    let l = value_holds in_limit r.recall_text_limit 0 limit in
    (e ∙ value_given r.read_only false read_only, ground arith, ground arith, ground arith, token)

module _ (resolve : String → String) (number : String → Option ℕ) (is_url : String → Bool) where
  -- The variable of the store's home is unset, or names the data directory.
  abbrev pub AgreesOnHome : Env → Config → Type 0
  AgreesOnHome env c =
      (env_value env "ZEROMEM_HOME" ≡ none)
      ⊎ ((home : String) × (env_value env "ZEROMEM_HOME" ≡ some home) × (resolve home ≡ c.data_dir))

  abbrev pub MayListen : Env → Config → Type 0
  MayListen env c =
      (is_given (truthy c.auth_token) || auth_disabled_by_env (env "SECURE_LOCAL_NET")) ≡ true

  auth-MayListen :
      (env : Env) (c d : Config)
      → assert_auth_configured env http c ≡ loaded d
      → (c ≡ d) × MayListen env c
  unfolding assert_auth_configured
  auth-MayListen env c d h =
      elim (Bool-cases
        (is_given (truthy c.auth_token) || auth_disabled_by_env (env "SECURE_LOCAL_NET"))) [
          | inl e ↦ (ap (the_config c) (rw e at h), e)
          | inr e ↦ absurd (let k : refused no_token ≡ loaded d = rw e at h in cc)
        ]

  home-AgreesOnHome :
      (env : Env) (c d : Config) (next : Loaded)
      → assert_home_matches resolve number is_url env c next ≡ loaded d
      → AgreesOnHome env c × (next ≡ loaded d)
  unfolding assert_home_matches
  home-AgreesOnHome env c d next h = elim (Option-cases (env_value env "ZEROMEM_HOME")) [
    | inl n ↦ (inl n, rw n at h)
    | inr (home, e) ↦ elim (Bool-cases (str_eq (resolve home) c.data_dir)) [
      | inl same ↦ (inr (home, e, (eq_iff (resolve home) c.data_dir).0 same), rw (e, same) at h)
      | inr other ↦ absurd (
          let k : refused (home_differs (resolve home) c.data_dir) ≡ loaded d =
            rw (e, other) at h in
          cc)
    ]
  ]

  abbrev pub HasEndpoint : Config → Type 0
  HasEndpoint c = (is_openai c.embedder && not (is_given c.remote_embedder)) ≡ false

  finish_sound :
      (env : Env) (c d : Config)
      → finish resolve number is_url env http c ≡ loaded d
      → (c ≡ d) × MayListen env c × AgreesOnHome env c × HasEndpoint c
  unfolding finish
  finish_sound env c d h =
      elim (Bool-cases (is_openai c.embedder && not (is_given c.remote_embedder))) [
        | inl e ↦ absurd (let k : refused no_endpoint ≡ loaded d = rw e at h in cc)
        | inr e ↦
            let (home, h') =
              home-AgreesOnHome env c d (assert_auth_configured env http c) (rw e at h) in
            let (same, auth) = auth-MayListen env c d h' in (same, auth, home, e)
      ]

  checked_sound :
      (env : Env) (c d : Config) (is : List (List String))
      → checked resolve number is_url env http c is ≡ loaded d
      → (is ≡ []) × (finish resolve number is_url env http c ≡ loaded d)
  unfolding checked
  checked_sound env c d [] h = (refl, h)
  checked_sound env c d (i ∷ is) h = absurd (cc)

  -- A server that listens only starts with a configuration whose port is positive, whose text limit is within bounds,
  -- whose curator token has at least 16 code units, whose `readOnly` is what the environment says, with a token or with
  -- `SECURE_LOCAL_NET` set, with the one home that all processes use, and with an endpoint if its embedder needs one.
  pub load_config-IsSound :
      (env : Env) (c : Config)
      → load_config resolve number is_url env http ≡ loaded c
      → IsSound env c × MayListen env c × AgreesOnHome env c × HasEndpoint c
  unfolding load_config
  load_config-IsSound env c h =
      let raw = raw_config resolve number is_url env in
      let (none_, h') = checked_sound env (parsed_config raw) c (issues is_url raw) h in
      let (same, auth, home, endpoint) = finish_sound env (parsed_config raw) c h' in
      subst (λ d. IsSound env d × MayListen env d × AgreesOnHome env d × HasEndpoint d) same
        (
          parsed-IsSound env raw (unfold raw_config in refl) (issues-IsChecked is_url raw none_),
          auth,
          home,
          endpoint,
        )

  enabled_when :
      (o : Option String)
      → is_given (truthy o) ≡ true
      → elim o as (λ x. Bool) [ none ↦ false | some t ↦ true ] ≡ true
  enabled_when none h = h
  enabled_when (some t) h = refl

  -- What lets a request through the middleware, in a server that listens and was not started with `SECURE_LOCAL_NET`.
  pub load_config_guarded :
      (digest : String → String)
      → ((a b : String) → digest a ≡ digest b → a ≡ b)
      → (env : Env) (c : Config) (header : Option String)
      → load_config resolve number is_url env http ≡ loaded c
      → auth_disabled_by_env (env "SECURE_LOCAL_NET") ≡ false
      → auth_middleware digest (auth_config c) header ≡ granted default
      → Gives header c.auth_token
  load_config_guarded digest distinct env c header h off in_ =
      let (sound, auth, home, endpoint) = load_config-IsSound env c h in
      let set_ : is_given (truthy c.auth_token) ≡ true = ground arith in
      elim ((auth_middleware_iff digest distinct (auth_config c) header).0 in_) [
        | inl disabled ↦ absurd (cc (disabled, enabled_when c.auth_token set_))
        | inr given ↦ given
      ]
