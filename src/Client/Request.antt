-- ===== src/Client/Request.antt =====
-- The client's one request (`request` of app/src/lib/api.ts). `fetch` stands for the network and the
-- server behind it, whose state it may change; it also stands for what the browser does with the header, which
-- it makes bytes of or refuses. A value of JSON is of any type.
use Prim.Native.String
use mcp_zeromem.Common.{ℕ, String, Bool, ◌&&◌, ltb, leb, Option, none, some, or_else, if◌then◌else◌}
use mcp_zeromem.Common.Text.{truthy}
use mcp_zeromem.Recall.Text.{show}
use mcp_zeromem.Client.{AuthState, note_status}

pub data Method : Type 0 where
  get post put patch delete : Method

pub record RequestOptions (J : Type 0) : Type 0 where
  pub method : Option Method
  pub body : Option J

-- What `fetch` is called with.
pub record Sent (J : Type 0) : Type 0 where
  pub path : String
  pub method : Method
  pub authorization : Option String
  pub content_type : Option String
  pub body : Option J

-- The body of a response: no text, JSON, or another text.
pub data Content (J : Type 0) : Type 0 where
  blank other : Content J
  json : J → Content J

pub record Response (J : Type 0) : Type 0 where
  pub status : ℕ
  pub status_text : String
  pub content : Content J

-- The fields of an error's envelope, where they are texts.
pub record Envelope : Type 0 where
  pub error : Option String
  pub detail : Option String

-- `failed` is an `ApiRequestError`; `unreached` is a rejection of `fetch`, `garbled` one of `JSON.parse`.
pub data Outcome (J : Type 0) : Type 0 where
  answered : Option J → Outcome J
  failed : ℕ → String → Option String → Outcome J
  unreached garbled : Outcome J

unfoldable pub authorization : AuthState → Option String
authorization s = elim (truthy s.token) [
  | none ↦ none
  | some token ↦ some (String.◌++◌ "Bearer " token)
]

abbrev pub content_type : {J : Type 0} → Option J → Option String
content_type none = none
content_type (some body) = some "application/json"

module _ {J : Type 0} where
  unfoldable pub sent : String → RequestOptions J → AuthState → Sent J
  unfolding authorization
  sent path options s = record {
    path = path;
    method = or_else options.method get;
    authorization = authorization s;
    content_type = content_type options.body;
    body = options.body;
  }

  unfoldable pub status_message : Response J → String
  unfolding show
  status_message r =
      or_else (truthy (some r.status_text))
        (String.◌++◌ "Request failed (" (String.◌++◌ (show r.status) ")"))

  -- `response.ok`
  abbrev pub is_ok : Response J → Bool
  is_ok r = leb 200 r.status && ltb r.status 300

  -- `text.length > 0 ? JSON.parse(text) : undefined`
  abbrev pub read_answer : Content J → Outcome J
  read_answer blank = answered none
  read_answer (json j) = answered (some j)
  read_answer other = garbled

  module _ (envelope : J → Envelope) where
    abbrev pub read_envelope : Content J → Envelope
    read_envelope (json j) = envelope j
    read_envelope _ = record { error = none; detail = none }

    unfoldable pub read_error : Response J → Outcome J
    unfolding status_message
    read_error r =
        let payload = read_envelope r.content in
        failed r.status (or_else (truthy payload.error) (status_message r)) payload.detail

    unfoldable pub read_response : Response J → Outcome J
    unfolding read_error
    read_response r = if is_ok r then read_answer r.content else read_error r

    -- What follows the `await` of `fetch`.
    unfoldable pub settle :
        {W : Type 0} → Option (Response J) × W → AuthState → Outcome J × AuthState × W
    unfolding read_response note_status
    settle (none, w) s = (unreached, s, w)
    settle (some r, w) s = (read_response r, note_status r.status s, w)

    unfoldable pub request :
        {W : Type 0}
        → (Sent J → W → Option (Response J) × W)
        → String
        → RequestOptions J
        → AuthState
        → W
        → Outcome J × AuthState × W
    unfolding sent settle
    request fetch path options s w = settle (fetch (sent path options s) w) s
