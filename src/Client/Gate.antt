-- ===== src/Client/Gate.antt =====
-- The web client against the API that it calls (app/src/lib/api.ts and auth.ts; server/src/app.ts and
-- auth.ts).
use mcp_zeromem.Common.{
  ℕ, String, true, false, ◌≡◌, ◌≢◌, ◌⊎◌, inl, inr, refl, sym, ap, ◌∙◌, Option, none, some, List,
  All, Bool-cases, if_cases, if◌then◌else◌,
}
use mcp_zeromem.Common.Text.{truthy, is_empty}
use mcp_zeromem.Config.{Config}
use mcp_zeromem.Auth.{
  bad_token, granted, default, unauthorized, bearer_token, accepts, check_main, auth_middleware,
}
use mcp_zeromem.Auth.Access.{accepts_iff}
use mcp_zeromem.Api.{World}
use mcp_zeromem.Api.Engine.{Engine}
use mcp_zeromem.Api.Reply.{Body, error, HttpReply}
use mcp_zeromem.Api.App as App
use mcp_zeromem.Api.App.{Request, Circumstances, auth_config, handle, render, is_public}
use mcp_zeromem.Client.{AuthState, loaded, require_auth, emit, Action, follow, note_status}
use mcp_zeromem.Client.Request.{
  RequestOptions, Sent, json, Response, Envelope, Outcome, failed, authorization, sent, read_error,
  read_response, settle, request,
}
use mcp_zeromem.Client.HeaderText.{IsHeaderText}
use mcp_zeromem.Client.Plain.{
  IsPlain, IsTyped, IsHeader, authorization-IsHeader, follow-IsPlain, header-token,
}
use mathlib.Core.Option
use mathlib.Core.Path.{subst}

-- How a request and its reply are written, by the server and the browser: `route` is the router with the
-- schemas, `encode` writes a body as JSON, and `phrase` is the text of a status. `carry` is what the browser makes of
-- a header's value, which it refuses if a character of it is beyond Latin-1.
pub record Wire (J K : Type 0) : Type 0 where
  pub route : Sent K → Request J
  pub carry : String → Option String
  pub encode : Body J → K
  pub phrase : ℕ → String
  pub envelope : K → Envelope

-- A text that can be a header's value is sent as it is.
abbrev pub Carries : {J K : Type 0} → Wire J K → Type 0
Carries v = (text : String) → IsHeaderText text → v.carry text ≡ some text

-- The header as it arrives, if the browser sends the request.
unfoldable pub carried : {J K : Type 0} → Wire J K → Option String → Option (Option String)
carried v none = some none
carried v (some text) = Option.map some (v.carry text)

carried-same :
    {J K : Type 0} (v : Wire J K) (header : Option String)
    → Carries v
    → IsHeader header
    → carried v header ≡ some header
unfolding carried
carried-same v none h p = refl
carried-same v (some text) h p = ap (Option.map some) (h text p)

-- An error's body is read back as what was written.
abbrev pub ReadsBack : {J K : Type 0} → Wire J K → Type 0
ReadsBack {J} v =
    (message : String) (detail : Option String)
    → v.envelope (v.encode (error message detail))
      ≡ record { error = some message; detail = detail }

require_auth-raised : (s : AuthState) → (require_auth s).needs_auth ≡ true
unfolding require_auth emit
require_auth-raised s =
    if_cases (λ (x : AuthState). x.needs_auth ≡ true) s.needs_auth _ _ (λ h. h) (λ h. refl)

module _ {S J K : Type 0} (e : Engine S J) (config : Config) (digest : String → String)
    (c : Circumstances) (v : Wire J K) where
  abbrev pub responded : HttpReply J × World S → Option (Response K) × World S
  responded (reply, w) = (
    some (record {
      status = reply.status;
      status_text = v.phrase reply.status;
      content = json (v.encode reply.body);
    }),
    w,
  )

  abbrev pub arrived : Option (Option String) → Sent K → World S → Option (Response K) × World S
  arrived none s w = (none, w)
  arrived (some header) s w = responded (App.request e config digest c header (v.route s) w)

  -- The browser and the network, with this server at their end.
  unfoldable pub fetch : Sent K → World S → Option (Response K) × World S
  unfolding carried App.request
  fetch s w = arrived (carried v s.authorization) s w

  -- What the client makes of a route's reply.
  abbrev pub served :
      String → RequestOptions K → AuthState → World S → Outcome K × AuthState × World S
  served path options s w =
      settle v.envelope
        (responded (render e config (handle e config c (v.route (sent path options s)) w))) s

  -- The request is refused for its token: the server has done nothing, and the token screen is up.
  abbrev pub IsLockedOut : World S → Outcome K × AuthState × World S → Type 0
  IsLockedOut w (outcome, s, after) =
      (outcome ≡ failed 401 bad_token none) × (s.needs_auth ≡ true) × (after ≡ w)

  decision_of :
      (header : Option String) (t : String)
      → config.auth_token ≡ some t
      → is_empty t ≡ false
      → auth_middleware digest (auth_config config) header ≡ (
          if accepts digest (truthy (bearer_token header)) (some t)
          then granted default
          else unauthorized bad_token)
  unfolding auth_middleware check_main
  decision_of header t a n = rw (a, n) refl

  -- What the client makes of the server's reply to a header.
  abbrev replied :
      Option String
      → String
      → RequestOptions K
      → AuthState
      → World S
      → Outcome K × AuthState × World S
  replied header path options s w =
      settle v.envelope
        (responded (App.request e config digest c header (v.route (sent path options s)) w)) s

  request-sent :
      Carries v
      → (path : String) (options : RequestOptions K) (s : AuthState) (w : World S) → IsPlain s
      → request v.envelope fetch path options s w ≡ replied (authorization s) path options s w
  unfolding request fetch sent
  request-sent carries path options s w plain =
      ap (λ h. settle v.envelope (arrived h (sent path options s) w) s)
        (carried-same v (authorization s) carries (authorization-IsHeader s plain))

  -- The reply as the decision has it.
  admitted :
      (path : String) (options : RequestOptions K) (s : AuthState) (w : World S)
      → is_public (v.route (sent path options s)) ≡ false
      → auth_middleware digest (auth_config config) (authorization s) ≡ granted default
      → replied (authorization s) path options s w ≡ served path options s w
  unfolding sent App.request
  admitted path options s w p d = rw (p, d) refl

  refused :
      ReadsBack v
      → (path : String) (options : RequestOptions K) (s : AuthState) (w : World S)
      → is_public (v.route (sent path options s)) ≡ false
      → auth_middleware digest (auth_config config) (authorization s) ≡ unauthorized bad_token
      → IsLockedOut w (replied (authorization s) path options s w)
  unfolding sent App.request settle read_response read_error note_status
  refused back path options s w p d =
      rw (p, d, back bad_token none) (refl, require_auth-raised s, refl)

  -- The stored token is the server's, and the request is served; or it is not, and the client is locked out.
  abbrev pub IsSettled :
      String
      → AuthState
      → Outcome K × AuthState × World S
      → Outcome K × AuthState × World S
      → World S
      → Type 0
  IsSettled t s result answer w =
      ((s.token ≡ some t) × (result ≡ answer)) ⊎ ((s.token ≢ some t) × IsLockedOut w result)

  plain-IsSettled :
      Carries v
      → ReadsBack v
      → ((a b : String) → digest a ≡ digest b → a ≡ b)
      → (t : String) → config.auth_token ≡ some t
      → is_empty t ≡ false
      → (path : String) (options : RequestOptions K) (s : AuthState) (w : World S) → IsPlain s
      → is_public (v.route (sent path options s)) ≡ false
      → IsSettled t s (request v.envelope fetch path options s w) (served path options s w) w
  plain-IsSettled carries back distinct t a n path options s w plain p =
      elim (Bool-cases (accepts digest (truthy (bearer_token (authorization s))) (some t))) [
        | inl yes_ ↦ inl (
          held (
              (accepts_iff digest distinct (truthy (bearer_token (authorization s))) (some t)).0
                yes_),
          request-sent carries path options s w plain
              ∙ admitted path options s w p (decision_of (authorization s) t a n ∙ rw yes_ refl),
        )
        | inr no_ ↦ inr (
          λ h. absurd (other no_ h),
          subst (IsLockedOut w) (sym (request-sent carries path options s w plain))
              (refused back path options s w p (decision_of (authorization s) t a n ∙ rw no_ refl)),
        )
      ]
    where
      held :
          (u : String) × (some t ≡ some u) × (truthy (bearer_token (authorization s)) ≡ some u)
          → s.token ≡ some t
      held (u, b, d) = sym (header-token s plain) ∙ d ∙ sym b

      other :
          accepts digest (truthy (bearer_token (authorization s))) (some t) ≡ false
          → s.token ≡ some t
          → ⊥
      other no_ h =
          let yes_ : accepts digest (truthy (bearer_token (authorization s))) (some t) ≡ true =
            (accepts_iff digest distinct (truthy (bearer_token (authorization s))) (some t)).1
              (t, refl, header-token s plain ∙ h) in
          cc

  -- The server has a token t, SHA-256 is free of collisions, an error's body is read as it was written, and the browser
  -- sends a text that can be a header's value as it is. After any actions in a client that was loaded with no
  -- token, or one that such a header holds, and in which only characters are typed that a header may hold: a
  -- request for anything but the status is answered by its route if the client holds t, and if it does not, then
  -- it ends in the error 401, the client's token screen is up, and the server has not changed.
  pub request-IsSettled :
      Carries v
      → ReadsBack v
      → ((a b : String) → digest a ≡ digest b → a ≡ b)
      → (t : String) → config.auth_token ≡ some t
      → is_empty t ≡ false
      → (stored : Option String) (actions : List Action) → IsPlain (loaded stored)
      → All IsTyped actions
      → (path : String) (options : RequestOptions K) (w : World S)
      → is_public (v.route (sent path options (follow actions (loaded stored)))) ≡ false
      → IsSettled t
          (follow actions (loaded stored))
          (request v.envelope fetch path options (follow actions (loaded stored)) w)
          (served path options (follow actions (loaded stored)) w)
          w
  request-IsSettled carries back distinct t a n stored actions plain typed path options w p =
      plain-IsSettled carries back distinct t a n path options (follow actions (loaded stored)) w
        (follow-IsPlain actions (loaded stored) typed plain) p
