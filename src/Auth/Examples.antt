-- ===== src/Auth/Examples.antt =====
-- Headers and tokens for server/src/auth.ts.
use mcp_zeromem.Common.{String, true, false, ◌≡◌, ◌↔◌, ◌⊎◌, refl, Option, some}
use mcp_zeromem.Common.Text.{is_space, is_line_end, is_word, all_chars}
use mcp_zeromem.Auth.{
  AuthConfig, default, curator, granted, bearer_token, auth_disabled_by_env, auth_middleware,
  mcp_auth_middleware, skip_spaces, after_space,
}
use mcp_zeromem.Auth.Bearer.{bearer_token_roundtrip}
use mcp_zeromem.Auth.Access.{Gives, auth_middleware_iff, mcp_curator_iff}

abbrev config : AuthConfig
config = record { enabled = true; token = some "s3cret" }

lower_case : bearer_token (some "bearer  s3cret") ≡ some "s3cret"
unfolding bearer_token after_space skip_spaces is_space is_line_end all_chars
lower_case = refl

-- Only white space after the word: its last character is the token.
blank_token : bearer_token (some "Bearer  ") ≡ some " "
unfolding bearer_token after_space skip_spaces is_space is_line_end all_chars
blank_token = refl

env_on : auth_disabled_by_env (some " TRUE ") ≡ true
unfolding auth_disabled_by_env is_space
env_on = refl

bearer_token_roundtrip_example : bearer_token (some "Bearer  abc") ≡ some "abc"
unfolding is_space is_line_end all_chars is_word
bearer_token_roundtrip_example =
    bearer_token_roundtrip "Bearer" " " " " "abc" refl refl refl (refl, refl)

auth_middleware_iff_test :
    (auth_middleware (λ s. s) config (some "Bearer s3cret") ≡ granted default)
    ↔ ((config.enabled ≡ false) ⊎ Gives (some "Bearer s3cret") config.token)
auth_middleware_iff_test = auth_middleware_iff (λ s. s) (λ a b e. e) config (some "Bearer s3cret")

mcp_curator_iff_example :
    (mcp_auth_middleware (λ s. s) config (some (some "cur4tor")) (some "Bearer cur4tor")
      ≡ granted curator)
    ↔ ((token : Option String) × (some (some "cur4tor") ≡ some token)
        × Gives (some "Bearer cur4tor") token)
mcp_curator_iff_example =
    mcp_curator_iff (λ s. s) (λ a b e. e) config (some (some "cur4tor")) (some "Bearer cur4tor")
