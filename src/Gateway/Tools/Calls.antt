-- ===== src/Gateway/Tools/Calls.antt =====
-- The calls of the MCP server's tools (server/src/gateway/tools): their arguments, and what a run of them
-- returns.
use mcp_zeromem.Common.{ℕ, String, Bool, true, Option, none, some, List}
use mcp_zeromem.Memory.{IngestReport, SessionWindow}
use mcp_zeromem.Ingest.{IngestReply, RememberTurn}
use mcp_zeromem.Recall.Format.{QueryResult, RecallArgs, Format}
use mcp_zeromem.Api.Engine.{CurationRuns, UndoRequest, action_id, run_id}
use mcp_zeromem.Gateway.{ToolDefinition, reading, writing, write, WindowOptions}
use mcp_zeromem.Gateway.Tools.{
  TurnSelector, by_ids, by_session, by_entity, CandidateOptions, CandidateKind,
}

-- A call with its arguments.
pub data Call (A O : Type 0) : Type 0 where
  recall : RecallArgs O → Call A O
  read_session : Option Format → Option String → WindowOptions → Call A O
  remember : String → Option String → List RememberTurn → Call A O
  ingest : Option String → Option String → Option String → Call A O
  stats : Option Bool → Option ℕ → Option String → Call A O
  forget_session : String → Call A O
  curate_runs : Option ℕ → Call A O
  curate_candidates : CandidateKind → CandidateOptions → Call A O
  curate_read : Option (List ℕ) → Option String → Option String → Option ℕ → Call A O
  curate_apply : String → List A → Option Bool → Option String → Call A O
  curate_undo : Option ℕ → Option String → Call A O

-- The tool that is called.
unfoldable pub tool_of : {A O : Type 0} → Call A O → ToolDefinition
tool_of (recall args) = reading "zeromem_recall"
tool_of (read_session format given options) = reading "zeromem_read_session"
tool_of (remember session_id scope turns) = writing "zeromem_remember"
tool_of (ingest jsonl path scope) = writing "zeromem_ingest"
tool_of (stats include_sessions limit scope) = reading "zeromem_stats"
tool_of (forget_session session_id) = record {
  name = "zeromem_forget_session";
  kind = write;
  destructive = true;
}
tool_of (curate_runs limit) = reading "zeromem_curate_runs"
tool_of (curate_candidates kind options) = reading "zeromem_curate_candidates"
tool_of (curate_read turn_ids session_id entity limit) = reading "zeromem_curate_read"
tool_of (curate_apply id actions dry_run actor) = writing "zeromem_curate_apply"
tool_of (curate_undo action run) = writing "zeromem_curate_undo"

pub record Limits : Type 0 where
  pub max_per_call : ℕ
  pub max_per_run : ℕ
  pub min_age_ms : ℕ
  pub brief_max_chars : ℕ

-- What a run returns: a text, or an object.
pub data Output (J N : Type 0) : Type 0 where
  plain : String → Output J N
  query_result : QueryResult N → Output J N
  session_window : SessionWindow → Output J N
  ingest_report : IngestReport → Output J N
  ingest_reply : IngestReply → Output J N
  answer : J → Output J N
  stats_and_sessions : J → J → Output J N
  forgotten : String → ℕ → Output J N
  runs_and_limits : CurationRuns → Limits → Output J N

-- `[turn_ids, session_id, entity]`, of which one must be given.
unfoldable pub turn_selector : Option (List ℕ) → Option String → Option String → Option TurnSelector
turn_selector (some ids) none none = some (by_ids ids)
turn_selector none (some s) none = some (by_session s)
turn_selector none none (some e) = some (by_entity e)
turn_selector _ _ _ = none

unfoldable pub undo_target : Option ℕ → Option String → Option UndoRequest
undo_target (some a) none = some (action_id a)
undo_target none (some r) = some (run_id r)
undo_target _ _ = none
