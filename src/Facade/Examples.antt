-- ===== src/Facade/Examples.antt =====
-- A small engine for server/src/engine/index.ts: its store is the number of calls made, and every result
-- is that number.
use mcp_zeromem.Common.{
  none, ℕ, ◌+◌, ◌*◌, ◌≤◌, ◌≡◌, refl, List, [], ◌∷◌, arith, All, map, ltb, if◌then◌else◌,
}
use mcp_zeromem.Memory.{TurnInput}
use mcp_zeromem.Metrics.{snapshot}
use mcp_zeromem.Metrics.Series.{Event, recalled, failed, ingested, expected, minutes_from}
use mcp_zeromem.Api.Engine.{Called, returned, RecallRequest}
use mcp_zeromem.Facade.{
  Parsed, success, error, Native, Schemas, Reading, opened, served, check, time_recall,
  count_report,
}
use mcp_zeromem.Facade.Others as Others
use mcp_zeromem.Facade.Others.{NativeOthers, OtherSchemas, indexed}
use mcp_zeromem.Facade.Calls.{
  AnyCall, routed, ingest_turn, stats, query, ingest_many, perform, perform_any, perform_all,
}
use mcp_zeromem.Facade.Health.{health_exact}

abbrev reading : ℕ → Reading
reading s = record { now = 60_000 * s; ms = 5; slot = 0 }

abbrev next : ℕ → Called ℕ × ℕ
next s = (returned s, s + 1)

abbrev native : Native ℕ ℕ ℕ
native = record {
  stats = next;
  list_sessions = λ page scope. next;
  session_turns = λ id page. next;
  query = λ q o. next;
  query_trace = λ q o. next;
  brief = λ scope. next;
  curation_runs = λ page. next;
  curation_actions = λ id page. next;
  curation_aliases = next;
  embedder_settings = next;
  probe_embedder = λ spec keep. next;
  curator_config = next;
  discovery_config = next;
  graph_snapshot = λ o. next;
  hierarchy = λ o. next;
  turns_with_entities = λ id page. next;
  projection = λ o. next;
  growth = λ o. next;
  ingest_many = λ turns. next;
  delete_session = λ id. next;
  curate_undo = λ target actor. next;
  set_embedder = λ spec keep. next;
  reembed = next;
  clear_embeddings = next;
  clear_memory = next;
  set_curator_config = λ config. next;
  set_discovery_config = λ on. next;
}

-- A result of 3 or more is not what a recall returns.
abbrev small : ℕ → Parsed ℕ
small n = if ltb n 3 then success n else error "too large"

abbrev schemas : Schemas ℕ ℕ
schemas = record {
  stats = success;
  sessions = success;
  stored_turns = λ n. success [];
  query_result = small;
  query_trace = small;
  brief = success;
  curation_runs = λ n. success (record { ended_at = []; cursor = n });
  curation_actions = success;
  curation_aliases = success;
  embedder_settings = success;
  embedder_probe = success;
  curator_config = λ n. error "none";
  discovery_config = λ n. error "none";
  graph_snapshot = success;
  hierarchy = success;
  turns_with_entities = λ n. success [];
  projection = success;
  growth = success;
  ingest_report = λ n. success (record { indexed = n; duplicates = 0; rejected = 0 });
  undo_report = success;
  embedder_switch = success;
  clear_report = λ n. error "none";
}

abbrev others : NativeOthers ℕ ℕ ℕ
others = record {
  ingest_turn = λ turn. next;
  session_window = λ options. next;
  refresh = next;
  rebuild = λ s. (returned tt, s + 1);
  embedding_backlog = next;
  embed_backlog = λ limit. next;
  curate_apply = λ id actor actions dry_run. next;
  curate_candidates = λ kind options. next;
  curation_turns = λ selector limit. next;
}

abbrev other_schemas : OtherSchemas ℕ ℕ
other_schemas = record {
  ingest_outcome = λ n. success (indexed n);
  session_window = λ n. error "none";
  apply_report = success;
  candidate_page = success;
  curated_turns = success;
}

abbrev turn : TurnInput
turn = record {
  session_id = "s";
  speaker = "user";
  text = "hi";
  ts = none;
  uuid = none;
  scope = none;
}

abbrev asked : RecallRequest ℕ
asked = record { query = "where"; options = 0 }

abbrev calls : List (AnyCall ℕ ℕ)
calls =
    routed stats
    ∷ routed (query asked)
    ∷ routed (ingest_many [])
    ∷ routed (query asked)
    ∷ ingest_turn turn
    ∷ []

abbrev told : List (ℕ × Event)
told =
    (120_000, recalled 5 0) ∷ (180_000, ingested 2) ∷ (240_000, failed) ∷ (300_000, ingested 1) ∷ []

told_lem :
    (perform_all reading
      (perform_any reading native schemas others other_schemas)
      calls
      (opened 0 9 0)).0
    ≡ told
unfolding perform_all perform_any perform Others.ingest_turn served opened check time_recall
    count_report
told_lem = refl

past_events :
    All
      (λ e. e.0 ≤ 300_000)
      (perform_all reading
        (perform_any reading native schemas others other_schemas)
        calls
        (opened 0 9 0)).0
unfolding perform_all perform_any perform Others.ingest_turn served opened check time_recall
    count_report
past_events = omega arith

health_exact_example :
    (snapshot 300_000
      (perform_all reading
        (perform_any reading native schemas others other_schemas)
        calls
        (opened 0 9 0)).1.metrics).0.series
    ≡ map
        (λ k.
          expected k
            (perform_all reading
              (perform_any reading native schemas others other_schemas)
              calls
              (opened 0 9 0)).0)
        (minutes_from 60 300_000)
health_exact_example =
    health_exact reading native schemas others other_schemas 0 9 300_000 0 calls past_events
