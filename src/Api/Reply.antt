-- ===== src/Api/Reply.antt =====
-- What the API answers (server/src/api/routes), and how a thrown error is rendered
-- (server/src/api/error-middleware.ts, HttpError of server/src/errors.ts).
use Prim.Native.String
use mcp_zeromem.Common.{ℕ, String, Bool, Option, none, some, List, map}
use mcp_zeromem.Common.Text.{truthy, join}
use mcp_zeromem.Memory.{StoredTurn, IngestReport}
use mcp_zeromem.Ingest.{IngestReply}
use mcp_zeromem.Curator.{TokenSource}
use mcp_zeromem.Metrics.{HealthSnapshot}
use mcp_zeromem.Discovery.{DiscoverySettings}
use mcp_zeromem.Api.Engine.{Failure, CurationRuns, ClearReport}

-- An issue of a `ZodError`.
pub record Issue : Type 0 where
  pub path : List String
  pub message : String

-- What a schema makes of a query or a body.
pub data Checked (A : Type 0) : Type 0 where
  valid : A → Checked A
  malformed : List Issue → Checked A

-- What a route throws: an `HttpError`, a `ZodError`, or an error of the engine.
pub data Thrown : Type 0 where
  http : ℕ → String → Option String → Thrown
  zod : List Issue → Thrown
  engine : Failure → Thrown

-- `status` without its constants, the server's name and version.
pub record ServerStatus (J : Type 0) : Type 0 where
  pub uptime_seconds : ℕ
  pub auth_enabled : Bool
  pub read_only : Bool
  pub engine : J

pub record CuratorSettings : Type 0 where
  pub max_per_call : ℕ
  pub max_per_run : ℕ
  pub min_age_ms : ℕ
  pub expose_to_all : Bool
  pub brief_max_chars : ℕ
  pub token_set : Bool
  pub token_source : TokenSource
  pub last_run_at : Option ℕ
  pub cursor : ℕ

pub data Body (J : Type 0) : Type 0 where
  answer : J → Body J
  server_status : ServerStatus J → Body J
  sessions : J → Body J
  turns : String → List StoredTurn → Body J
  forgotten : String → ℕ → Body J
  ingested : IngestReport → Body J
  ingested_lines : IngestReply → Body J
  brief : String → J → Body J
  runs : CurationRuns → Body J
  cleared : ClearReport → Body J
  curator_settings : CuratorSettings → Body J
  curator_token : String → CuratorSettings → Body J
  discovery_settings : DiscoverySettings → Body J
  turns_with_entities : String → List J → Body J
  health : HealthSnapshot → Body J
  eval_history : String → List J → Body J
  error : String → Option String → Body J

pub record HttpReply (J : Type 0) : Type 0 where
  pub status : ℕ
  pub body : Body J

-- `issue.path.join('.') || '(root)'`, with the message.
unfoldable pub issue_text : Issue → String
unfolding join
issue_text i = elim (truthy (some (join "." i.path))) [
  | none ↦ String.◌++◌ "(root): " i.message
  | some path ↦ String.◌++◌ path (String.◌++◌ ": " i.message)
]

-- `errorMiddleware`; the errors of the engine are `Error`s.
unfoldable pub error_middleware : {J : Type 0} → Thrown → HttpReply J
unfolding join issue_text
error_middleware (zod issues) = record {
  status = 400;
  body = error "Validation failed" (some (join "; " (map issue_text issues)));
}
error_middleware (http status message detail) = record {
  status = status;
  body = error message (truthy detail);
}
error_middleware (engine f) = record { status = 500; body = error f.message none }
