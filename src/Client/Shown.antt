-- ===== src/Client/Shown.antt =====
-- The components that watch the flag (app/src/lib/auth.ts).
use mcp_zeromem.Common.{
  String, Bool, true, false, not, ◌≡◌, refl, Option, List, [], ◌∷◌, map, any, keep_if, ◌==◌, All,
  All-append, if_keeps,
}
use mcp_zeromem.Common.Text.{trim, is_empty}
use mcp_zeromem.Client.{
  Listener, AuthState, loaded, told, emit, set_token, clear_token, require_auth, has_key, subscribe,
  unsubscribe, handle_submit, lock, Action, submit, press_lock, response, watch, unwatch,
  note_status, act, follow,
}

-- Every listener has read the flag as it is.
abbrev pub IsShown : AuthState → Type 0
IsShown s = All (λ l. l.shown ≡ s.needs_auth) s.listeners

told-IsShown : (flag : Bool) (ls : List Listener) → All (λ l. l.shown ≡ flag) (map (told flag) ls)
told-IsShown flag [] = tt
told-IsShown flag (l ∷ ls) = (refl, told-IsShown flag ls)

emit-IsShown : (s : AuthState) → IsShown (emit s)
unfolding emit
emit-IsShown s = told-IsShown s.needs_auth s.listeners

set_token-IsShown : (t : String) (s : AuthState) → IsShown s → IsShown (set_token t s)
unfolding set_token
set_token-IsShown t s p =
    if_keeps IsShown s.needs_auth _ _
      (emit-IsShown (record s { token = Option.some t; needs_auth = false })) p

require_auth-IsShown : (s : AuthState) → IsShown s → IsShown (require_auth s)
unfolding require_auth
require_auth-IsShown s p =
    if_keeps IsShown s.needs_auth _ _ p (emit-IsShown (record s { needs_auth = true }))

left-IsShown :
    (flag : Bool) (keep : Listener → Bool) (ls : List Listener)
    → All (λ l. l.shown ≡ flag) ls
    → All (λ l. l.shown ≡ flag) (keep_if keep ls)
left-IsShown flag keep [] p = tt
left-IsShown flag keep (l ∷ ls) (h, p) =
    if_keeps (All (λ l. l.shown ≡ flag)) (keep l) _ _ (h, left-IsShown flag keep ls p)
      (left-IsShown flag keep ls p)

act-IsShown : (a : Action) (s : AuthState) → IsShown s → IsShown (act a s)
unfolding act handle_submit lock clear_token note_status subscribe unsubscribe
act-IsShown (submit value) s p =
    if_keeps IsShown (is_empty (trim value)) _ _ p (set_token-IsShown (trim value) s p)
act-IsShown press_lock s p = require_auth-IsShown (clear_token s) p
act-IsShown (response status) s p =
    if_keeps IsShown (status == 401) _ _ (require_auth-IsShown s p) p
act-IsShown (watch k) s p =
    if_keeps IsShown (any (has_key k) s.listeners) _ _ p
      (All-append (λ l. l.shown ≡ s.needs_auth) s.listeners _ p (refl, tt))
act-IsShown (unwatch k) s p = left-IsShown s.needs_auth (λ l. not (has_key k l)) s.listeners p

follow_keeps : (actions : List Action) (s : AuthState) → IsShown s → IsShown (follow actions s)
unfolding follow
follow_keeps [] s p = p
follow_keeps (a ∷ rest) s p = follow_keeps rest (act a s) (act-IsShown a s p)

-- Whatever is typed, pressed and answered after a page was loaded, and whichever components come and go meanwhile:
-- every component that watches the flag has read it as it is now.
pub follow-IsShown :
    (stored : Option String) (actions : List Action) → IsShown (follow actions (loaded stored))
follow-IsShown stored actions = follow_keeps actions (loaded stored) tt
