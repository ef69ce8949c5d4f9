-- ===== src/Auth/Access.antt =====
-- Who the middlewares of server/src/auth.ts let in.
use mcp_zeromem.Common.{
  String, true, false, ◌≡◌, ◌≢◌, ◌↔◌, ◌⊎◌, inl, inr, refl, Option, none, some, arith, eq_iff,
  eq_refl, ap, Option-cases, Bool-cases,
}
use mcp_zeromem.Common.Text.{truthy}
use mcp_zeromem.Auth.{
  errored, AuthConfig, default, curator, granted, bearer_token, tokens_equal, accepts, check_main,
  auth_middleware, check_curator, mcp_auth_middleware,
}
use mcp_zeromem.Auth.Bearer.{bearer_token-ne-empty}

-- The request gives the token that `token` holds.
abbrev pub Gives : Option String → Option String → Type 0
Gives header token = (t : String) × (truthy token ≡ some t) × (bearer_token header ≡ some t)

truthy_bearer : (header : Option String) → truthy (bearer_token header) ≡ bearer_token header
truthy_bearer header = elim (Option-cases (bearer_token header)) [
  | inl e ↦ rw e refl
  | inr (t, e) ↦ rw (e, bearer_token-ne-empty header t e) refl
]

-- SHA-256 is taken to be free of collisions.
module _ (digest : String → String) (distinct : (a b : String) → digest a ≡ digest b → a ≡ b) where
  tokens_equal_iff : (a b : String) → (tokens_equal digest a b ≡ true) ↔ (a ≡ b)
  unfolding tokens_equal
  tokens_equal_iff a b =
      (λ h. distinct a b ((eq_iff (digest a) (digest b)).0 h), λ e. rw e (eq_refl (digest b)))

  pub accepts_iff :
      (p token : Option String)
      → (accepts digest p token ≡ true) ↔ ((t : String) × (token ≡ some t) × (p ≡ some t))
  unfolding accepts
  accepts_iff none token = (λ h. cc, λ (t, a, b). cc)
  accepts_iff (some p) none = (λ h. cc, λ (t, a, b). cc)
  accepts_iff (some p) (some t) = (
    λ h. (t, refl, ap some ((tokens_equal_iff p t).0 h)),
    λ (u, a, b). (tokens_equal_iff p t).1 (cc (a, b)),
  )

  check_main_iff :
      (auth : AuthConfig) (p : Option String)
      → (check_main digest auth p ≡ granted default)
        ↔ ((t : String) × (truthy auth.token ≡ some t) × (p ≡ some t))
  unfolding check_main
  check_main_iff auth p = elim (Option-cases (truthy auth.token)) [
    | inl e ↦ rw e (λ h. cc, λ (t, a, b). cc)
    | inr (u, e) ↦ rw e (
      λ h. (u, refl, given u (ground arith)),
      λ (t, a, b).
          let yes_ : accepts digest p (some u) ≡ true = (accepts_iff p (some u)).1 (t, a, b) in
          ground arith,
    )
  ]
    where
      given : (u : String) → accepts digest p (some u) ≡ true → p ≡ some u
      given u h = let (t, a, b) = (accepts_iff p (some u)).0 h in cc (a, b)

  -- With a collision-free digest, /api lets a request in exactly when auth is off, or the request's
  -- bearer token is the configured, non-empty token.
  pub auth_middleware_iff :
      (auth : AuthConfig) (header : Option String)
      → (auth_middleware digest auth header ≡ granted default)
        ↔ ((auth.enabled ≡ false) ⊎ Gives header auth.token)
  unfolding auth_middleware
  auth_middleware_iff auth header = elim (Bool-cases auth.enabled) [
    | inl on ↦
        rw (on, truthy_bearer header)
          (
            λ h. inr ((check_main_iff auth (bearer_token header)).0 h),
            λ d. (check_main_iff auth (bearer_token header)).1 (enabled_given d),
          )
    | inr off ↦ rw off (λ h. inl refl, λ d. refl)
  ]
    where
      enabled_given : (true ≡ false) ⊎ Gives header auth.token → Gives header auth.token
      enabled_given (inl e) = absurd (cc)
      enabled_given (inr g) = g

  pub auth_middleware-ne-errored :
      (auth : AuthConfig) (header : Option String) → auth_middleware digest auth header ≢ errored
  unfolding auth_middleware
  auth_middleware-ne-errored auth header h = ground arith

  pub auth_middleware-ne-curator :
      (auth : AuthConfig) (header : Option String)
      → auth_middleware digest auth header ≢ granted curator
  unfolding auth_middleware
  auth_middleware-ne-curator auth header h = ground arith

  check_curator_iff :
      (auth : AuthConfig) (header p : Option String) (stored : Option (Option String))
      → (check_curator digest auth header p stored ≡ granted curator) ↔ (
          (token : Option String) × (stored ≡ some token)
          × ((t : String) × (truthy token ≡ some t) × (p ≡ some t)))
  unfolding check_curator
  check_curator_iff auth header none stored =
      (λ h. absurd (auth_middleware-ne-curator auth header h), λ (token, a, (t, b, c)). cc)
  check_curator_iff auth header (some p) none = (λ h. cc, λ (token, a, rest). cc)
  check_curator_iff auth header (some p) (some token) =
      elim (Bool-cases (accepts digest (some p) (truthy token))) [
        | inl e ↦ rw e (λ h. (token, refl, (accepts_iff (some p) (truthy token)).0 e), λ g. refl)
        | inr e ↦ rw e (
          λ h. absurd (auth_middleware-ne-curator auth header h),
          λ (token', a, g). absurd (refused token' e (cc a) g),
        )
      ]
    where
      refused :
          (token' : Option String)
          → accepts digest (some p) (truthy token) ≡ false
          → token ≡ token'
          → ((t : String) × (truthy token' ≡ some t) × (some p ≡ some t))
          → ⊥
      refused token' e same g =
          let h : accepts digest (some p) (truthy token) ≡ true =
            (accepts_iff (some p) (truthy token)).1 (rw same g) in
          cc

  -- /mcp grants the curator scope exactly when the request's bearer token is the stored, non-empty
  -- curator token.
  pub mcp_curator_iff :
      (auth : AuthConfig) (stored : Option (Option String)) (header : Option String)
      → (mcp_auth_middleware digest auth stored header ≡ granted curator)
        ↔ ((token : Option String) × (stored ≡ some token) × Gives header token)
  unfolding mcp_auth_middleware
  mcp_curator_iff auth stored header =
      rw truthy_bearer (check_curator_iff auth header (bearer_token header) stored)
