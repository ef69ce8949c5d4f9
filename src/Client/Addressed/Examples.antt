-- ===== src/Client/Addressed/Examples.antt =====
-- A call of app/src/lib/api.ts under an encoding that stands for encodeURIComponent.
use Prim.Native.Char.{Char, code}
use Prim.Native.String.{[], ◌∷◌}
use text.Mathlib.TextEquality.{Char-path, eq_iff}
use mcp_zeromem.Common.{
  ℕ, String, Bool, true, false, ◌≡◌, ◌≢◌, refl, sym, ap, ◌∙◌, Option, none, some, List, ◌==◌,
  if◌then◌else◌, arith, str_eq,
}
use mcp_zeromem.Common.Text.{all_chars}
use mcp_zeromem.Client.Scan.{is_plain}
use mcp_zeromem.Client.Target.{is_segment}
use mcp_zeromem.Client.Meant.{IsReachable, request_of}
use mcp_zeromem.Client.Addressed.{IsEncoding, requests_by, requests_by-request_of}
use mcp_zeromem.Client.{loaded}
use mcp_zeromem.Client.Calls.{Call, get_session_turns, get_brief, address}
use mcp_zeromem.Api.Reply.{Checked, valid, malformed, brief}
use mcp_zeromem.Api.{done}
use mcp_zeromem.Api.Viz.{missing}
use mcp_zeromem.Api.Routes.{read_brief}
use mcp_zeromem.Api.App.{handle}
use mcp_zeromem.Api.App.Examples.{small, writable, here, world}
use mcp_zeromem.Api.App as App
use mcp_zeromem.Api.App.Mounts.{Schemas, mounts}
use mcp_zeromem.Client.Query.Examples.{params, parse, parse-params, params-no_hash}
use mcp_zeromem.Client.Request.{sent}
use mcp_zeromem.Client.Scan.{scan}
use mcp_zeromem.Client.Target.{requests_at, requests_for}

-- A mark is escaped with a tilde, and so is the tilde.
abbrev mark : ℕ → Char → String → String
mark n c rest =
    if n == b'/'
    then "~" ∷ "s" ∷ rest
    else if n == b'?'
    then "~" ∷ "q" ∷ rest
    else if n == b'#'
    then "~" ∷ "h" ∷ rest
    else if n == b'~'
    then "~" ∷ "t" ∷ rest
    else c ∷ rest

abbrev escape : String → String
escape [] = []
escape (c ∷ s) = mark (code c) c (escape s)

abbrev pub encode : String → String
encode s = "=" ∷ escape s

-- After a tilde.
abbrev unmark : Char → Char
unmark c =
    if code c == b's'
    then "/"
    else if code c == b'q'
    then "?"
    else if code c == b'h'
    then "#"
    else "~"

pub unescape : Bool → String → String
unescape b [] = []
unescape true (c ∷ s) = unmark c ∷ unescape false s
unescape false (c ∷ s) =
    let marked = unescape true s in
    let rest = c ∷ unescape false s in if code c == b'~' then marked else rest

abbrev pub decode : String → Option String
decode [] = none
decode (c ∷ s) = some (unescape false s)

unescape-mark :
    (n : ℕ) (c : Char) (rest : String)
    → code c ≡ n
    → unescape false (mark n c rest) ≡ c ∷ unescape false rest
unfolding unescape
unescape-mark n c rest e =
    ground (arith, Char-path c "/", Char-path c "?", Char-path c "#", Char-path c "~")

unescape-escape : (s : String) → unescape false (escape s) ≡ s
unfolding unescape
unescape-escape [] = refl
unescape-escape (c ∷ s) =
    unescape-mark (code c) c (escape s) refl ∙ ap (λ x. c ∷ x) (unescape-escape s)

mark-plain :
    (c : Char) (rest : String)
    → all_chars is_plain rest ≡ true
    → all_chars is_plain (mark (code c) c rest) ≡ true
unfolding all_chars
mark-plain c rest h = ground arith

escape-plain : (s : String) → all_chars is_plain (escape s) ≡ true
unfolding all_chars
escape-plain [] = refl
escape-plain (c ∷ s) = mark-plain c (escape s) (escape-plain s)

abbrev first_code : String → ℕ
first_code [] = 0
first_code (c ∷ s) = code c

is_other : (s d : String) → first_code d ≢ first_code s → str_eq s d ≡ false
is_other s d n =
    let same = eq_iff s d in
    let other = (λ (e : s ≡ d). n (ap first_code (sym e))) in ground (arith, same.0, other)

encode-is_segment : (s : String) → is_segment s ≡ true → is_segment (encode s) ≡ true
unfolding is_segment
encode-is_segment s h =
    rw
      (
        is_other (encode s) "." (λ e. absurd (omega arith)),
        is_other (encode s) ".." (λ e. absurd (omega arith)),
      )
      refl

encode-plain : (s : String) → all_chars is_plain (encode s) ≡ true
unfolding all_chars
encode-plain s = escape-plain s

decode-encode : (s : String) → decode (encode s) ≡ some s
decode-encode s = ap some (unescape-escape s)

pub coding : IsEncoding encode decode params parse
coding = record {
  read_back = decode-encode;
  plain = encode-plain;
  named = encode-is_segment;
  no_hash = params-no_hash;
  no_query = λ k. refl;
  read_query = λ ps k d. parse-params ps k;
}

abbrev refusing : {A B : Type 0} → A → Checked B
refusing a = malformed List.[]

abbrev pub schemas : {K : Type 0} → Schemas ℕ K
schemas = record {
  sessions_query = refusing;
  page_query = λ q. valid (record { limit = none; offset = none });
  brief_query = λ q. valid (q "scope");
  actions_query = refusing;
  graph_options = refusing;
  hierarchy_options = refusing;
  projection_options = refusing;
  growth_options = refusing;
  recall_request = refusing;
  ingest_request = refusing;
  undo_request = refusing;
  embedder_change = refusing;
  clear_request = refusing;
  curator_update = refusing;
  discovery_update = refusing;
  history_path = "";
  history_file = missing;
  history_run = λ s. none;
}

abbrev pub paged : {K : Type 0} → Call K
paged = get_session_turns "a/b?" (some "20") none

pub session_named : (K : Type 0) → IsReachable {K = K} paged
unfolding is_segment
session_named K = refl

abbrev scoped : String → ℕ
scoped scope = 0

requests_by-request_of_example :
    requests_by schemas params scoped encode decode parse paged (loaded none)
    ≡ List.◌∷◌ (request_of schemas scoped paged) List.[]
requests_by-request_of_example =
    requests_by-request_of schemas params scoped encode decode parse coding paged (loaded none)
      (session_named ℕ)

-- A call for the unscoped brief is read as one for the brief of the server's own scope.
brief_misread :
    requests_by schemas params scoped encode decode parse (get_brief "") (loaded none)
    ≡ List.◌∷◌ (App.get_brief (valid none)) List.[]
unfolding requests_at requests_for scan mounts address sent
brief_misread = refl

own_scope :
    handle small (record writable { scope = some "work" }) here (App.get_brief (valid none)) world
    ≡ (done (brief "work" 0), world)
unfolding handle read_brief
own_scope = refl
