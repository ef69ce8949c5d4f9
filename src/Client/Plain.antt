-- ===== src/Client/Plain.antt =====
-- What the web client stores as its token (handleSubmit of app/src/components/layouts/token-gate.tsx), and
-- what the server reads of the header that carries it.
use Prim.Native.String
use Prim.Native.String.{[], ◌∷◌}
use text.Mathlib.TextLemmas.{cons-append, append_assoc}
use mcp_zeromem.Common.{
  ap, sym, ◌∙◌, String, true, false, ◌≡◌, refl, Option, none, some, if_cases, if_keeps, List, All,
  ◌==◌, any,
}
use mcp_zeromem.Common.Text.{
  is_space, is_empty, all_chars, trim, trim_start, trim_end, truthy, is_word,
}
use mcp_zeromem.Auth.{bearer_token}
use mcp_zeromem.Auth.Bearer.{IsPlainToken, bearer_token_roundtrip}
use mcp_zeromem.Client.{
  AuthState, emit, set_token, clear_token, require_auth, has_key, subscribe, unsubscribe,
  handle_submit, lock, Action, submit, press_lock, response, watch, unwatch, note_status, act,
  follow,
}
use mcp_zeromem.Client.Request.{authorization}
use mcp_zeromem.Client.HeaderText.{
  is_header_char, IsHeaderText, trim_start-all, trim_end-all, append-all, trim_end-append,
  trim_end-trim_end, trim-IsPlain, header_text_line,
}

-- The client holds no token, or one that a header can carry.
abbrev pub IsPlainStore : Option String → Type 0
IsPlainStore none = Unit
IsPlainStore (some t) = IsPlainToken t × (trim_end t ≡ t) × (all_chars is_header_char t ≡ true)

abbrev pub IsPlain : AuthState → Type 0
IsPlain s = IsPlainStore s.token

-- What a user types can be the value of a header.
abbrev pub IsTyped : Action → Type 0
IsTyped (submit value) = all_chars is_header_char value ≡ true
IsTyped _ = Unit

set_token-token : (t : String) (s : AuthState) → (set_token t s).token ≡ some t
unfolding set_token emit
set_token-token t s = if_keeps (λ (x : AuthState). x.token ≡ some t) s.needs_auth _ _ refl refl

require_auth-token : (s : AuthState) → (require_auth s).token ≡ s.token
unfolding require_auth emit
require_auth-token s = if_keeps (λ (x : AuthState). x.token ≡ s.token) s.needs_auth _ _ refl refl

trim-IsPlainStore :
    (v : String)
    → all_chars is_header_char v ≡ true
    → is_empty (trim v) ≡ false
    → IsPlainStore (some (trim v))
unfolding trim
trim-IsPlainStore v h e = (
  trim-IsPlain v (header_text_line v h) e,
  trim_end-trim_end (trim_start v),
  trim_end-all is_header_char (trim_start v) (trim_start-all is_header_char v h),
)

handle_submit-IsPlain :
    (v : String) (s : AuthState)
    → all_chars is_header_char v ≡ true
    → IsPlain s
    → IsPlain (handle_submit v s)
unfolding handle_submit
handle_submit-IsPlain v s h p =
    if_cases IsPlain (is_empty (trim v)) _ _ (λ e. p)
      (λ e. rw (set_token-token (trim v) s) (trim-IsPlainStore v h e))

act-IsPlain : (a : Action) (s : AuthState) → IsTyped a → IsPlain s → IsPlain (act a s)
unfolding act lock clear_token note_status subscribe unsubscribe
act-IsPlain (submit value) s h p = handle_submit-IsPlain value s h p
act-IsPlain press_lock s h p = rw (require_auth-token (record s { token = none })) tt
act-IsPlain (response status) s h p =
    if_keeps IsPlain (status == 401) _ _ (rw (require_auth-token s) p) p
act-IsPlain (watch k) s h p = if_keeps IsPlain (any (has_key k) s.listeners) _ _ p p
act-IsPlain (unwatch k) s h p = p

pub follow-IsPlain :
    (actions : List Action) (s : AuthState)
    → All IsTyped actions
    → IsPlain s
    → IsPlain (follow actions s)
unfolding follow
follow-IsPlain List.[] s h p = p
follow-IsPlain (List.◌∷◌ a rest) s (h, hs) p =
    follow-IsPlain rest (act a s) hs (act-IsPlain a s h p)

same_header : (t : String) → String.◌++◌ "Bearer " t ≡ String.◌++◌ "Bearer" (" " ∷ String.◌++◌ "" t)
same_header t = append_assoc "Bearer" " " t ∙ ap (String.◌++◌ "Bearer") (cons-append " " "" t)

header_of :
    (o : Option String)
    → IsPlainStore o
    → (s : AuthState) → s.token ≡ o
    → truthy (bearer_token (authorization s)) ≡ o
unfolding authorization bearer_token is_word is_space all_chars
header_of none p s e = rw e refl
header_of (some []) (p, q, r) s e = absurd p
header_of (some (c ∷ t)) (p, q, r) s e =
    let read_back = bearer_token_roundtrip "Bearer" " " "" (c ∷ t) refl refl refl p in
    rw (e, same_header (c ∷ t), read_back) refl

-- The server reads the stored token off the client's header.
pub header-token : (s : AuthState) → IsPlain s → truthy (bearer_token (authorization s)) ≡ s.token
header-token s p = header_of s.token p s refl

-- The header, if there is one, can be sent as it is.
abbrev pub IsHeader : Option String → Type 0
IsHeader none = Unit
IsHeader (some text) = IsHeaderText text

trim_start-bearer : (t : String) → trim_start (String.◌++◌ "Bearer " t) ≡ String.◌++◌ "Bearer " t
unfolding trim_start is_space
trim_start-bearer t = ap trim_start (cons-append "B" "earer " t) ∙ sym (cons-append "B" "earer " t)

authorization_of :
    (o : Option String)
    → IsPlainStore o
    → (s : AuthState) → s.token ≡ o
    → IsHeader (authorization s)
unfolding authorization trim all_chars
authorization_of none p s e = rw e tt
authorization_of (some []) (p, q, r) s e = absurd p
authorization_of (some (c ∷ t)) (p, q, h) s e = rw e (
  append-all is_header_char "Bearer " (c ∷ t) refl h,
  ap trim_end (trim_start-bearer (c ∷ t)) ∙ trim_end-append "Bearer " (c ∷ t) q refl,
)

pub authorization-IsHeader : (s : AuthState) → IsPlain s → IsHeader (authorization s)
authorization-IsHeader s p = authorization_of s.token p s refl
