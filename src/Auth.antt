-- ===== src/Auth.antt =====
-- server/src/auth.ts: bearer tokens, and the two middlewares that read them. `digest` is the SHA-256
-- of node:crypto.
pub mod Bearer
pub mod Access
mod Examples
use Prim.Native.Char.{Char, code}
use Prim.Native.String.{[], ◌∷◌}
use mcp_zeromem.Common.{
  ℕ, String, Bool, true, false, not, ◌&&◌, ◌||◌, Option, none, some, List, str_eq, if◌then◌else◌,
  ◌==◌,
}
use mcp_zeromem.Common.Text.{
  lower, is_space, is_line_end, is_empty, all_chars, trim, is_one_of, truthy,
}

pub record AuthConfig : Type 0 where
  pub enabled : Bool
  pub token : Option String

abbrev pub truthy_env : List String
truthy_env = List.◌∷◌ "1" (List.◌∷◌ "true" (List.◌∷◌ "yes" (List.◌∷◌ "on" List.[])))

-- `env.SECURE_LOCAL_NET`, absent or given.
unfoldable pub auth_disabled_by_env : Option String → Bool
unfolding trim is_one_of
auth_disabled_by_env none = false
auth_disabled_by_env (some value) = is_one_of truthy_env (trim value)

-- The letters of `Bearer`, in either case, and what follows them.
unfoldable pub after_word : String → String → Option String
unfolding lower
after_word [] s = some s
after_word (w ∷ ws) [] = none
after_word (w ∷ ws) (c ∷ s) = if lower (code c) == code w then after_word ws s else none

-- `\s+` takes all the white space, and gives its last character back if nothing else is left.
unfoldable pub skip_spaces : Char → String → String
skip_spaces last [] = last ∷ []
skip_spaces last (c ∷ s) = if is_space c then skip_spaces c s else c ∷ s

unfoldable pub after_space : Char → String → String
after_space c s = if is_space c then skip_spaces c s else c ∷ s

unfoldable pub capture : String → Option String
capture [] = none
capture (c ∷ []) = none
capture (c ∷ d ∷ s) =
    let rest = after_space d s in
    if is_space c && all_chars (λ x. not (is_line_end x)) rest then some rest else none

unfoldable pub bearer_match : Option String → Option String
unfolding capture
bearer_match none = none
bearer_match (some rest) = capture rest

-- `/^Bearer\s+(.+)$/i`
unfoldable pub bearer_token : Option String → Option String
unfolding after_word bearer_match
bearer_token none = none
bearer_token (some header) = bearer_match (after_word "bearer" header)

pub data Scope : Type 0 where
  default curator : Scope

-- `next()`, with the scope that /mcp sets; a 401 with its message; `next(err)`.
pub data Decision : Type 0 where
  granted : Scope → Decision
  unauthorized : String → Decision
  errored : Decision

abbrev pub no_token : String
no_token = "Auth is enabled but no token is configured"

abbrev pub bad_token : String
bad_token = "Unauthorized"

module _ (digest : String → String) where
  unfoldable pub tokens_equal : String → String → Bool
  tokens_equal a b = str_eq (digest a) (digest b)

  -- `provided && token && tokensEqual(provided, token)`
  unfoldable pub accepts : Option String → Option String → Bool
  unfolding tokens_equal
  accepts none token = false
  accepts (some p) none = false
  accepts (some p) (some t) = tokens_equal p t

  -- The tests that both middlewares make of the main token.
  unfoldable pub check_main : AuthConfig → Option String → Decision
  unfolding accepts
  check_main auth provided = elim (truthy auth.token) [
    | none ↦ unauthorized no_token
    | some t ↦ if accepts provided (some t) then granted default else unauthorized bad_token
  ]

  -- `createAuthMiddleware`, on the Authorization header.
  unfoldable pub auth_middleware : AuthConfig → Option String → Decision
  unfolding check_main bearer_token
  auth_middleware auth header =
      if auth.enabled then check_main auth (truthy (bearer_token header)) else granted default

  unfoldable pub curator_matches : Option String → Option String → Bool
  unfolding accepts
  curator_matches provided stored = accepts provided (truthy stored)

  -- What /mcp does once it has the request's token. `stored` is the curator token of the settings,
  -- `none` where reading it fails; it is read only for a request that gives a token.
  unfoldable pub check_curator :
      AuthConfig → Option String → Option String → Option (Option String) → Decision
  unfolding curator_matches
  check_curator auth header none stored = auth_middleware auth header
  check_curator auth header (some p) none = errored
  check_curator auth header (some p) (some token) =
      if curator_matches (some p) token then granted curator else auth_middleware auth header

  -- `createMcpAuthMiddleware`
  unfoldable pub mcp_auth_middleware :
      AuthConfig → Option (Option String) → Option String → Decision
  unfolding check_curator bearer_token
  mcp_auth_middleware auth stored header =
      check_curator auth header (truthy (bearer_token header)) stored
