-- ===== src/Gateway/Tools/Runs.antt =====
-- The runs of the tools (server/src/gateway/tools), and the call of a tool of the MCP server
-- (server/src/gateway/server.ts). The file that `zeromem_ingest` reads, `JSON.stringify`, the date of a
-- time and `toFixed(2)` are parameters.
use Prim.Native.String.{◌++◌}
use mcp_zeromem.Common.{
  ℕ, ◌+◌, String, Bool, true, false, Option, none, some, List, [], ◌∷◌, map, any, or_else, length,
  take, str_eq, if◌then◌else◌,
}
use mcp_zeromem.Common.Text.{truthy}
use mcp_zeromem.Memory.{TurnInput, IngestReport, SessionWindow}
use mcp_zeromem.Ingest.{
  Reading, ParsedJsonl, RememberTurn, Source, inline, file, neither_or_both, empty_report, scope_of,
  fill_scope, remembered, parse_jsonl, ingest_source,
}
use mcp_zeromem.Ingest.Paths.{resolve_under}
use mcp_zeromem.Config.{Config}
use mcp_zeromem.Curator.{CuratorConfig}
use mcp_zeromem.Recall.Format as Recalled
use mcp_zeromem.Recall.Format.{
  QueryResult, RecallArgs, RecallOptions, RecallReply, as_json, as_text, Format, text,
  recall_options,
}
use mcp_zeromem.Recall.Window.{format_window_text}
use mcp_zeromem.Api.Engine.{Called, returned, rejected, CurationRuns, UndoRequest}
use mcp_zeromem.Gateway.{
  ToolDefinition, all_tools, WindowOptions, SessionReply, window, no_session_given, wrong_scope,
  names_session, check_scope, found_scope,
}
use mcp_zeromem.Gateway.Tools.{
  ToolEngine, TurnSelector, CandidateOptions, CandidateKind, Ran, result, failed, engine_failed,
  then_run,
}
use mcp_zeromem.Gateway.Tools.Calls.{
  Call, recall, read_session, remember, ingest, stats, forget_session, curate_runs,
  curate_candidates, curate_read, curate_apply, curate_undo, tool_of, Limits, Output, plain,
  query_result, session_window, ingest_report, ingest_reply, answer, stats_and_sessions, forgotten,
  runs_and_limits, turn_selector, undo_target,
}

abbrev default_actor : String
default_actor = "mcp-curator"

abbrev limits_of : CuratorConfig → Limits
limits_of c = record {
  max_per_call = c.max_per_call;
  max_per_run = c.max_per_run;
  min_age_ms = c.min_age_ms;
  brief_max_chars = c.brief_max_chars;
}

abbrev named_scope : String → String
named_scope found = elim (truthy (some found)) [
  | none ↦ "unscoped"
  | some s ↦ "in scope \"" ++ s ++ "\""
]

abbrev scope_refusal : SessionWindow → Option String → String
unfolding found_scope
scope_refusal w given =
    "session "
    ++ w.session_id
    ++ " is "
    ++ named_scope (found_scope w.turns)
    ++ ", not \""
    ++ or_else given ""
    ++ "\"; drop `scope` to read it anyway"

-- What a client is sent; a tool that is not served is for the SDK to refuse.
pub data Sent : Type 0 where
  content : String → Sent
  tool_error : String → Sent
  not_served : Sent

module _ {S J A O N : Type 0} (e : ToolEngine S J A O N) (day : ℕ → String) (fixed : N → String)
    (config : Config) (read_line : String → Reading) (read_file : List String → Called String) where
  abbrev reply_output : RecallReply N → Output J N
  reply_output (as_json r) = query_result r
  reply_output (as_text t) = plain t

  -- `formatWindowText` under `format: text`.
  abbrev window_output : Option Format → SessionWindow → Output J N
  unfolding format_window_text
  window_output (some text) w = plain (format_window_text day w)
  window_output _ w = session_window w

  unfoldable pub run_recall : RecallArgs O → S → Ran (Output J N) × S
  unfolding recall_options
  run_recall args s =
      then_run (e.query args.query (recall_options config args) s)
        (λ found t. (result (reply_output (Recalled.reply day fixed config args found)), t))

  unfoldable pub shown_window :
      Option Format → Option String → SessionWindow → SessionReply → S → Ran (Output J N) × S
  unfolding window_output scope_refusal
  shown_window format given w (window v) s = (result (window_output format v), s)
  shown_window format given w (wrong_scope id) s = (failed (scope_refusal w given), s)
  shown_window format given w no_session_given s =
      (failed "give `session_id` to read a session, or `around_turn` to read around one turn", s)

  unfoldable pub run_read_session :
      Option Format → Option String → WindowOptions → S → Ran (Output J N) × S
  unfolding check_scope shown_window
  run_read_session format given options s =
      if names_session options
      then then_run (e.session_window options s)
          (λ w. shown_window format given w (check_scope (truthy given) w))
      else (
        failed "give `session_id` to read a session, or `around_turn` to read around one turn",
        s,
      )

  unfoldable pub run_remember :
      String → Option String → List RememberTurn → S → Ran (Output J N) × S
  unfolding scope_of
  run_remember session_id scope turns s =
      then_run (e.ingest_many (map (remembered session_id (scope_of scope config.scope)) turns) s)
        (λ report t. (result (ingest_report report), t))

  abbrev counted : ParsedJsonl → IngestReport → S → Ran (Output J N) × S
  counted parsed report s = (
    result (
        ingest_reply (record {
          report = record report { rejected = report.rejected + length parsed.rejected };
          rejected_lines = take 20 parsed.rejected;
        })),
    s,
  )

  abbrev ingest_turns : ParsedJsonl → List TurnInput → S → Ran (Output J N) × S
  ingest_turns parsed [] s = counted parsed empty_report s
  ingest_turns parsed (t ∷ ts) s = then_run (e.ingest_many (t ∷ ts) s) (counted parsed)

  abbrev ingest_text : Option String → String → S → Ran (Output J N) × S
  unfolding scope_of parse_jsonl
  ingest_text scope lines s =
      let parsed = parse_jsonl read_line lines in
      ingest_turns parsed (map (fill_scope (scope_of scope config.scope)) parsed.turns) s

  abbrev ingest_read : Option String → Called String → S → Ran (Output J N) × S
  unfolding ingest_text
  ingest_read scope (returned lines) s = ingest_text scope lines s
  ingest_read scope (rejected f) s = (engine_failed f, s)

  abbrev ingest_file : Option String → String → Option (List String) → S → Ran (Output J N) × S
  unfolding ingest_read
  ingest_file scope path none s =
      (failed ("path must be inside the data directory (" ++ config.data_dir ++ "): " ++ path), s)
  ingest_file scope path (some resolved) s = ingest_read scope (read_file resolved) s

  abbrev ingest_from : Option String → Source → S → Ran (Output J N) × S
  unfolding ingest_text resolve_under
  ingest_from scope (inline jsonl) s = ingest_text scope jsonl s
  ingest_from scope (file path) s = ingest_file scope path (resolve_under config.data_dir path) s
  ingest_from scope neither_or_both s = (failed "pass exactly one of `jsonl` or `path`", s)

  unfoldable pub run_ingest :
      Option String → Option String → Option String → S → Ran (Output J N) × S
  unfolding ingest_source ingest_from
  run_ingest jsonl path scope s = ingest_from scope (ingest_source jsonl path) s

  abbrev pub wants_sessions : Option Bool → Bool
  wants_sessions (some true) = true
  wants_sessions _ = false

  unfoldable pub run_stats : Option Bool → Option ℕ → Option String → S → Ran (Output J N) × S
  run_stats include_sessions limit scope s = then_run (e.stats s) (λ stats t.
      if wants_sessions include_sessions
      then then_run (e.list_sessions (or_else limit 50) scope t)
          (λ sessions u. (result (stats_and_sessions stats sessions), u))
      else (result (answer stats), t))

  unfoldable pub run_forget_session : String → S → Ran (Output J N) × S
  run_forget_session session_id s =
      then_run (e.delete_session session_id s)
        (λ removed t. (result (forgotten session_id removed), t))

  -- `Promise.all` makes both calls; the first failure is the one reported.
  abbrev pub both_read : Called CurationRuns → Called CuratorConfig × S → Ran (Output J N) × S
  both_read (rejected f) (c, s) = (engine_failed f, s)
  both_read (returned runs) (rejected f, s) = (engine_failed f, s)
  both_read (returned runs) (returned c, s) = (result (runs_and_limits runs (limits_of c)), s)

  abbrev pub with_config : Called CurationRuns × S → Ran (Output J N) × S
  with_config (runs, s) = both_read runs (e.curator_config s)

  unfoldable pub run_curate_runs : Option ℕ → S → Ran (Output J N) × S
  run_curate_runs limit s =
      with_config (e.curation_runs (record { limit = some (or_else limit 10); offset = none }) s)

  unfoldable pub run_curate_candidates : CandidateKind → CandidateOptions → S → Ran (Output J N) × S
  run_curate_candidates kind options s =
      then_run (e.curate_candidates kind options s) (λ page t. (result (answer page), t))

  abbrev pub read_selected : Option ℕ → Option TurnSelector → S → Ran (Output J N) × S
  read_selected limit none s = (failed "Give exactly one of turn_ids, session_id or entity.", s)
  read_selected limit (some selector) s =
      then_run (e.curation_turns selector limit s) (λ turns t. (result (answer turns), t))

  unfoldable pub run_curate_read :
      Option (List ℕ) → Option String → Option String → Option ℕ → S → Ran (Output J N) × S
  unfolding turn_selector
  run_curate_read turn_ids session_id entity limit s =
      read_selected limit (turn_selector turn_ids session_id entity) s

  unfoldable pub run_curate_apply :
      String → List A → Option Bool → Option String → S → Ran (Output J N) × S
  run_curate_apply id actions dry_run actor s =
      then_run (e.curate_apply id (or_else actor default_actor) actions (or_else dry_run false) s)
        (λ report t. (result (answer report), t))

  abbrev undo_selected : Option UndoRequest → S → Ran (Output J N) × S
  undo_selected none s = (failed "Give exactly one of action_id or run_id.", s)
  undo_selected (some target) s =
      then_run (e.curate_undo target default_actor s) (λ report t. (result (answer report), t))

  unfoldable pub run_curate_undo : Option ℕ → Option String → S → Ran (Output J N) × S
  unfolding undo_target
  run_curate_undo action run s = undo_selected (undo_target action run) s

  -- `tool.run`
  unfoldable pub run : Call A O → S → Ran (Output J N) × S
  run (recall args) = run_recall args
  run (read_session format given options) = run_read_session format given options
  run (remember session_id scope turns) = run_remember session_id scope turns
  run (ingest jsonl path scope) = run_ingest jsonl path scope
  run (stats include_sessions limit scope) = run_stats include_sessions limit scope
  run (forget_session session_id) = run_forget_session session_id
  run (curate_runs limit) = run_curate_runs limit
  run (curate_candidates kind options) = run_curate_candidates kind options
  run (curate_read turn_ids session_id entity limit) =
      run_curate_read turn_ids session_id entity limit
  run (curate_apply id actions dry_run actor) = run_curate_apply id actions dry_run actor
  run (curate_undo action target) = run_curate_undo action target

  module _ (stringify : Output J N → String) where
    abbrev as_sent : Output J N → Sent
    as_sent (plain t) = content t
    as_sent output = content (stringify output)

    -- The callback of `registerTool`.
    unfoldable pub send : Ran (Output J N) × S → Sent × S
    send (result output, s) = (as_sent output, s)
    send (failed message, s) = (tool_error message, s)
    send (engine_failed f, s) = (tool_error f.chain, s)

    unfoldable pub is_served : Bool → Call A O → Bool
    unfolding tool_of all_tools
    is_served curator c =
        any (λ (t : ToolDefinition). str_eq t.name (tool_of c).name)
          (all_tools curator config.read_only)

    -- `curator` is that of the server that answers.
    unfoldable pub call_tool : Bool → Call A O → S → Sent × S
    unfolding is_served run send
    call_tool curator c s = if is_served curator c then send (run c s) else (not_served, s)
