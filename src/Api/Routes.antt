-- ===== src/Api/Routes.antt =====
-- The routes of server/src/api/routes, less those of settings and viz. What a schema makes of a request
-- is an argument.
use Prim.Native.String
use mcp_zeromem.Common.{
  ℕ, ◌+◌, ◌/◌, String, true, false, ◌&&◌, Option, none, some, List, [], ◌∷◌, ◌==◌, if◌then◌else◌,
  or_else, length, take,
}
use text.Mathlib.Text.{starts_with}
use mcp_zeromem.Memory.{StoredTurn, TurnInput, IngestReport}
use mcp_zeromem.Ingest.{Reading, parse_jsonl, ParsedJsonl, empty_report}
use mcp_zeromem.Config.{Config}
use mcp_zeromem.Api.{World, Ending, done, thrown, call, await, parse, refuse_read_only}
use mcp_zeromem.Api.Engine.{
  Failure, Engine, PageQuery, SessionsQuery, CurationActionsQuery, UndoRequest, RecallRequest,
}
use mcp_zeromem.Api.Reply.{
  Checked, Thrown, http, engine, Body, answer, server_status, sessions, turns, forgotten, ingested,
  ingested_lines, brief, runs,
}

pub data IngestRequest : Type 0 where
  turn_list : List TurnInput → IngestRequest
  jsonl : String → IngestRequest

-- An answer that is passed on as the body.
abbrev pub sent : {S A J : Type 0} → (A → Body J) → A → World S → Ending (Body J) × World S
sent body a w = (done (body a), w)

-- The engine's own refusals of an undo are a 400.
abbrev pub undo_failure : Failure → Thrown
undo_failure f =
    if starts_with f.message "curation:"
    then http 400 "The undo was refused" (some f.message)
    else engine f

module _ {S J : Type 0} (e : Engine S J) where
  abbrev pub no_session : String → Thrown
  no_session id = http 404 (String.◌++◌ "No session \"" (String.◌++◌ id "\"")) none

  abbrev pub after_forget : String → ℕ → World S → Ending (Body J) × World S
  after_forget id removed w =
      if removed == 0 then (thrown (no_session id), w) else (done (forgotten id removed), w)

  -- A page past the end of a session that exists is empty; the first page of one that does not is not.
  abbrev after_turns : String → PageQuery → List StoredTurn → World S → Ending (Body J) × World S
  after_turns id page found w =
      if length found == 0 && or_else page.offset 0 == 0
      then (thrown (no_session id), w)
      else (done (turns id found), w)

  abbrev pub ingest_lines : ParsedJsonl → IngestReport → World S → Ending (Body J) × World S
  ingest_lines parsed report w = (
    done (
        ingested_lines (record {
          report = record report { rejected = report.rejected + length parsed.rejected };
          rejected_lines = take 20 parsed.rejected;
        })),
    w,
  )

  abbrev pub ingest_parsed : ParsedJsonl → List TurnInput → World S → Ending (Body J) × World S
  ingest_parsed parsed [] w = ingest_lines parsed empty_report w
  ingest_parsed parsed (t ∷ ts) w =
      await engine (call (e.ingest_many (t ∷ ts)) w) (ingest_lines parsed)

  unfoldable pub ingest : (String → Reading) → IngestRequest → World S → Ending (Body J) × World S
  unfolding parse_jsonl
  ingest read (turn_list ts) w = await engine (call (e.ingest_many ts) w) (sent ingested)
  ingest read (jsonl text) w =
      let parsed = parse_jsonl read text in ingest_parsed parsed parsed.turns w

  unfoldable pub list_sessions : Checked SessionsQuery → World S → Ending (Body J) × World S
  list_sessions query =
      parse query (λ page w. await engine (call (e.list_sessions page) w) (sent sessions))

  unfoldable pub read_turns : String → Checked PageQuery → World S → Ending (Body J) × World S
  read_turns id query =
      parse query (λ page w. await engine (call (e.session_turns id page) w) (after_turns id page))

  unfoldable pub recall : Checked (RecallRequest J) → World S → Ending (Body J) × World S
  recall body = parse body (λ r w. await engine (call (e.query r) w) (sent answer))

  unfoldable pub trace : Checked (RecallRequest J) → World S → Ending (Body J) × World S
  trace body = parse body (λ r w. await engine (call (e.query_trace r) w) (sent answer))

  unfoldable pub list_runs : Checked PageQuery → World S → Ending (Body J) × World S
  list_runs query = parse query (λ page w. await engine (call (e.curation_runs page) w) (sent runs))

  unfoldable pub list_actions : Checked CurationActionsQuery → World S → Ending (Body J) × World S
  list_actions query =
      parse query (λ page w. await engine (call (e.curation_actions page) w) (sent answer))

  unfoldable pub list_aliases : World S → Ending (Body J) × World S
  list_aliases w = await engine (call e.curation_aliases w) (sent answer)

  module _ (config : Config) where
    -- `uptime` is the time since the router was made, in milliseconds.
    unfoldable pub show_status : ℕ → World S → Ending (Body J) × World S
    show_status uptime w = await engine (call e.stats w) (λ stats. sent server_status (record {
      uptime_seconds = uptime / 1000;
      auth_enabled = elim config.auth_token [ none ↦ false | some t ↦ true ];
      read_only = config.read_only;
      engine = stats;
    }))

    unfoldable pub read_brief : Checked (Option String) → World S → Ending (Body J) × World S
    read_brief query = parse query (λ given w.
        let scope = or_else given (or_else config.scope "") in
        await engine (call (e.brief scope) w) (sent (brief scope)))

    abbrev pub forget_now : String → World S → Ending (Body J) × World S
    forget_now id w = await engine (call (e.delete_session id) w) (after_forget id)

    unfoldable pub forget_session : String → World S → Ending (Body J) × World S
    forget_session id = refuse_read_only config.read_only (forget_now id)

    -- `read` is what a line of a JSONL text is read as.
    unfoldable pub ingest_route :
        (String → Reading) → Checked IngestRequest → World S → Ending (Body J) × World S
    unfolding ingest
    ingest_route read body = refuse_read_only config.read_only (parse body (ingest read))

    abbrev pub undo_target : UndoRequest → World S → Ending (Body J) × World S
    undo_target target w = await undo_failure (call (e.curate_undo target "ui") w) (sent answer)

    unfoldable pub undo : Checked UndoRequest → World S → Ending (Body J) × World S
    undo body = refuse_read_only config.read_only (parse body undo_target)
