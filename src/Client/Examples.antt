-- ===== src/Client/Examples.antt =====
-- The web client on small sequences of actions (app/src/lib/auth.ts, app/src/lib/api.ts).
use mcp_zeromem.Common.{
  ℕ, String, ap, false, true, if◌then◌else◌, ◌≡◌, refl, none, some, List, [], ◌∷◌,
}
use mcp_zeromem.Common.Text.{is_space, all_chars}
use mcp_zeromem.Config.{Config}
use mcp_zeromem.Auth.{auth_middleware}
use mcp_zeromem.Api.Reply.{Body, error}
use mcp_zeromem.Api.App as App
use mcp_zeromem.Api.App.Examples.{small, writable, here, world}
use mcp_zeromem.Client.{loaded, Action, submit, press_lock, response, watch, follow}
use mcp_zeromem.Client.Request.{RequestOptions, Envelope, failed, unreached, request}
use mcp_zeromem.Client.Shown.{IsShown, follow-IsShown}
use mcp_zeromem.Client.HeaderText.{is_header_char}
use mcp_zeromem.Client.Addressed.Examples as Paths
use mcp_zeromem.Client.Query.Examples.{params, parse}
use mcp_zeromem.Client.Target.{requests_at}
use mcp_zeromem.Client.Called.{called, answer_to, called-IsSettled}
use mcp_zeromem.Api.App.Mounts.{mounts}
use mcp_zeromem.Client.Gate.{Wire, Carries, carried, fetch, served, IsSettled, request-IsSettled}

abbrev guarded : Config
guarded = record writable { auth_token = some "secret" }

-- A value of JSON is what a client reads of it as an error.
abbrev encode : Body ℕ → Envelope
encode (error message detail) = record { error = some message; detail = detail }
encode _ = record { error = none; detail = none }

abbrev wire : Wire ℕ Envelope
wire = record {
  route = λ s. App.delete s.path;
  carry = λ text. if all_chars is_header_char text then some text else none;
  encode = encode;
  phrase = λ n. "";
  envelope = λ k. k;
}

abbrev unlocking : List Action
unlocking = response 401 ∷ watch 7 ∷ submit " secret " ∷ []

abbrev options : RequestOptions Envelope
options = record { method = none; body = none }

follow-IsShown_example : IsShown (follow unlocking (loaded none))
follow-IsShown_example = follow-IsShown none unlocking

unlocked : follow unlocking (loaded none) ≡ record {
  token = some "secret";
  needs_auth = false;
  listeners = record { key = 7; shown = false } ∷ [];
}
unfolding follow is_space
unlocked = refl

sendable : all_chars is_header_char " secret " ≡ true
unfolding all_chars
sendable = refl

carries : Carries wire
carries text (h, t) = rw h refl

request-IsSettled_example :
    IsSettled small guarded
      (λ s. s)
      here
      wire
      "secret"
      (follow unlocking (loaded none))
      (request wire.envelope
        (fetch small guarded (λ s. s) here wire)
        "s"
        options
        (follow unlocking (loaded none))
        world)
      (served small guarded (λ s. s) here wire "s" options (follow unlocking (loaded none)) world)
      world
request-IsSettled_example =
    request-IsSettled small guarded (λ s. s) here wire carries (λ message detail. refl) (λ a b h. h)
      "secret" refl refl none unlocking tt (tt, (tt, (sendable, tt))) "s" options world refl

-- The lock button takes the token away, and the next request comes back 401.
locked :
    (request wire.envelope
      (fetch small guarded (λ s. s) here wire)
      "s"
      options
      (follow (press_lock ∷ []) (loaded (some "secret")))
      world).0
    ≡ failed 401 "Unauthorized" none
unfolding request fetch follow auth_middleware carried all_chars
locked = refl

abbrev first_of : List (App.Request ℕ) → App.Request ℕ
first_of [] = App.get_status
first_of (q ∷ rest) = q

-- The server's router, where a path that no route has is taken for the status.
abbrev routing : Wire ℕ Envelope
routing = record wire {
  route = λ r. first_of (requests_at Paths.decode parse (mounts Paths.schemas) r);
}

abbrev scoped : String → Envelope
scoped scope = record { error = none; detail = none }

called-IsSettled_example :
    IsSettled small guarded
      (λ s. s)
      here
      routing
      "secret"
      (follow unlocking (loaded none))
      (called small guarded
        (λ s. s)
        here
        routing
        Paths.schemas
        params
        scoped
        Paths.encode
        Paths.paged
        (follow unlocking (loaded none))
        world)
      (answer_to small guarded
        (λ s. s)
        here
        routing
        Paths.schemas
        params
        scoped
        Paths.encode
        Paths.paged
        (follow unlocking (loaded none))
        world)
      world
called-IsSettled_example =
    called-IsSettled small guarded (λ s. s) here routing Paths.schemas params scoped Paths.encode
      Paths.decode parse Paths.coding (λ r q e. ap first_of e) carries (λ message detail. refl)
      (λ a b h. h) "secret" refl refl none unlocking tt (tt, (tt, (sendable, tt))) Paths.paged world
      (Paths.session_named Envelope) (λ e. absurd (cc))

-- With a token that no header can hold, the request is not sent, and the token screen stays down.
unsendable :
    (request wire.envelope
      (fetch small guarded (λ s. s) here wire)
      "s"
      options
      (follow (submit "☃" ∷ []) (loaded none))
      world).0
    ≡ unreached
unfolding request fetch follow carried all_chars is_space
unsendable = refl
