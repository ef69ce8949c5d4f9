-- ===== src/Client.antt =====
-- The token that the web client keeps and the flag that brings its token screen up
-- (app/src/lib/auth.ts), with the components that watch the flag, and the two places that change the
-- token (app/src/components/layouts/token-gate.tsx, app-layout.tsx).
pub mod Request
pub mod Shown
pub mod HeaderText
pub mod Plain
pub mod Gate
pub mod Calls
pub mod Scan
pub mod Target
pub mod Query
pub mod Meant
pub mod Addressed
pub mod Called
mod Examples
use mcp_zeromem.Common.{
  ℕ, String, Bool, true, false, not, Option, none, some, List, [], ◌∷◌, ◌++◌, map, any, keep_if,
  ◌==◌, if◌then◌else◌,
}
use mcp_zeromem.Common.Text.{trim, is_empty}

-- A listener: the component that `useNeedsAuth` subscribes, told apart by a key. `shown` is the flag as
-- the component has read it last.
pub record Listener : Type 0 where
  pub key : ℕ
  pub shown : Bool

-- `token` is what the browser's local storage holds under the client's key.
pub record AuthState : Type 0 where
  pub token : Option String
  pub needs_auth : Bool
  pub listeners : List Listener

-- A page that was just loaded.
abbrev pub loaded : Option String → AuthState
loaded token = record { token = token; needs_auth = false; listeners = [] }

abbrev pub told : Bool → Listener → Listener
told flag l = record l { shown = flag }

-- Each listener reads the flag again.
unfoldable pub emit : AuthState → AuthState
emit s = record s { listeners = map (told s.needs_auth) s.listeners }

unfoldable pub set_token : String → AuthState → AuthState
unfolding emit
set_token t s =
    let stored = record s { token = some t } in
    if s.needs_auth then emit (record stored { needs_auth = false }) else stored

unfoldable pub clear_token : AuthState → AuthState
clear_token s = record s { token = none }

-- What the client does of any answer 401.
unfoldable pub require_auth : AuthState → AuthState
unfolding emit
require_auth s = if s.needs_auth then s else emit (record s { needs_auth = true })

abbrev pub has_key : ℕ → Listener → Bool
has_key k l = l.key == k

-- `listeners.add`, by a component that reads the flag as it subscribes.
unfoldable pub subscribe : ℕ → AuthState → AuthState
subscribe k s =
    if any (has_key k) s.listeners
    then s
    else record s { listeners = s.listeners ++ record { key = k; shown = s.needs_auth } ∷ [] }

unfoldable pub unsubscribe : ℕ → AuthState → AuthState
unsubscribe k s = record s { listeners = keep_if (λ l. not (has_key k l)) s.listeners }

-- `handleSubmit` of the token screen, on the text of its field.
unfoldable pub handle_submit : String → AuthState → AuthState
unfolding trim set_token
handle_submit value s = let token = trim value in if is_empty token then s else set_token token s

-- The press of the lock button.
unfoldable pub lock : AuthState → AuthState
unfolding clear_token require_auth
lock s = require_auth (clear_token s)

pub data Action : Type 0 where
  submit : String → Action
  press_lock : Action
  response : ℕ → Action  -- an answer of this status has come
  watch unwatch : ℕ → Action

-- `if (response.status === 401) requireAuth()`
unfoldable pub note_status : ℕ → AuthState → AuthState
unfolding require_auth
note_status status s = if status == 401 then require_auth s else s

unfoldable pub act : Action → AuthState → AuthState
unfolding handle_submit lock note_status subscribe unsubscribe
act (submit value) s = handle_submit value s
act press_lock s = lock s
act (response status) s = note_status status s
act (watch k) s = subscribe k s
act (unwatch k) s = unsubscribe k s

unfoldable pub follow : List Action → AuthState → AuthState
unfolding act
follow [] s = s
follow (a ∷ rest) s = follow rest (act a s)
