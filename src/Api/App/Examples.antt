-- ===== src/Api/App/Examples.antt =====
-- Requests to the API (server/src/app.ts) of a small engine, whose store is the number of its turns.
use Prim.Native.String
use mcp_zeromem.Common.{
  String, Option, str_eq, if◌then◌else◌, ◌∷◌, ◌++◌, ℕ, ◌+◌, true, false, none, some, [], ◌≡◌, ◌≤◌,
  refl, length, arith,
}
use mcp_zeromem.Metrics.{snapshot, create}
use mcp_zeromem.Ingest.{refused}
use mcp_zeromem.Config.{Config, auto}
use mcp_zeromem.Curator.{CuratorConfig}
use mcp_zeromem.Worker
use mcp_zeromem.Worker.{Worker, sleeping}
use mcp_zeromem.Api.{World}
use mcp_zeromem.Api.Engine.{
  Called, returned, rejected, Engine, ReadsKeep, ClearReport, embeddings, memory,
}
use mcp_zeromem.Api.Reply.{valid}
use mcp_zeromem.Auth.{auth_middleware}
use mcp_zeromem.Api.Settings
use mcp_zeromem.Api.Viz.{parse_eval_history}
use mcp_zeromem.Api.Viz.History.{parse_eval_history-lines}
use mcp_zeromem.Common.Text.{is_space}
use mcp_zeromem.Api.App.{Circumstances, handle, request, post_clear, delete, post_token}
use mcp_zeromem.Api.App.Gates.{gate_order}
use mcp_zeromem.Api.App.Keeps.{read_only_keeps}
use mcp_zeromem.Api.App.Wakes.{follows, leaves_work, worker_follows}

abbrev passed : {A : Type 0} → A → ℕ → Called A × ℕ
passed a s = (returned a, s)

abbrev limits : CuratorConfig
limits = record {
  max_per_call = 1;
  max_per_run = 1;
  min_age_ms = 0;
  token = none;
  expose_to_all = false;
  brief_max_chars = 200;
}

abbrev report : ℕ → ℕ → ClearReport
report turns vectors = record {
  turns_removed = turns;
  sessions_removed = turns;
  vectors_removed = vectors;
  turns_to_embed = vectors;
}

abbrev pub small : Engine ℕ ℕ
small = record {
  stats = λ s. passed s s;
  list_sessions = λ q s. passed s s;
  session_turns = λ id q s. passed [] s;
  query = λ r s. passed s s;
  query_trace = λ r s. passed s s;
  brief = λ scope s. passed 0 s;
  curation_runs = λ q s. passed (record { ended_at = []; cursor = 0 }) s;
  curation_actions = λ q s. passed 0 s;
  curation_aliases = λ s. passed 0 s;
  embedder_settings = λ s. passed 0 s;
  probe_embedder = λ r s. passed 0 s;
  curator_config = λ s. passed limits s;
  discovery_config = λ s. passed false s;
  graph_snapshot = λ o s. passed o s;
  hierarchy = λ o s. passed o s;
  turns_with_entities = λ id q s. passed [] s;
  projection = λ o s. passed o s;
  growth = λ o s. passed o s;
  health = λ s. ((snapshot s (create 0)).0, s);
  ingest_many =
      λ ts s. passed (record { indexed = length ts; duplicates = 0; rejected = 0 }) (s + length ts);
  delete_session = λ id s. (returned s, 0);
  curate_undo = λ target actor s. (rejected (record { message = ""; chain = "" }), s);
  set_embedder = λ r s. passed 0 s;
  reembed = λ s. passed 0 s;
  clear_embeddings = λ s. passed (report 0 s) s;
  clear_memory = λ s. (returned (report s 0), 0);
  set_curator_config = λ c s. passed c s;
  set_discovery_config = λ b s. passed b s;
}

abbrev laws : ReadsKeep (λ s. 2 ≤ s) small
laws = record {
  stats = λ s p. p;
  list_sessions = λ q s p. p;
  session_turns = λ id q s p. p;
  query = λ r s p. p;
  query_trace = λ r s p. p;
  brief = λ scope s p. p;
  curation_runs = λ q s p. p;
  curation_actions = λ q s p. p;
  curation_aliases = λ s p. p;
  embedder_settings = λ s p. p;
  probe_embedder = λ r s p. p;
  curator_config = λ s p. p;
  discovery_config = λ s p. p;
  graph_snapshot = λ o s p. p;
  hierarchy = λ o s p. p;
  turns_with_entities = λ id q s p. p;
  projection = λ o s p. p;
  growth = λ o s p. p;
  health = λ s p. p;
}

abbrev pub writable : Config
writable = record {
  data_dir = "/data";
  port = 3000;
  keep_alive_timeout_ms = 75000;
  auth_token = none;
  read_only = false;
  recall_text_limit = 2000;
  embedder = auto;
  allow_embedder_switch = false;
  remote_embedder = none;
  embedding_api_key = none;
  session_id = none;
  scope = none;
  curator_token = none;
  curator = false;
}

abbrev frozen : Config
frozen = record writable { read_only = true }

abbrev pub here : Circumstances
here = record {
  uptime = 0;
  clock = record { written = 0; now = 0; later = 0 };
  minted = "minted";
  read = λ line. refused "";
}

abbrev pub world : World ℕ
world = record {
  store = 2;
  worker = some Worker.create;
  curator = record { cached = none; env_token = some "a curator's token" };
  discovery = record { stored = false; is_loopback_only = false; told = 0 };
}

gate_order_example :
    ((request small writable (λ s. s) here none post_token world).0.status ≡ 409)
    × ((request small writable (λ s. s) here none post_token world).1 ≡ world)
gate_order_example =
    gate_order small writable (λ s. s) here none post_token world 409
      (unfold auth_middleware in refl)

read_only_keeps_example :
    (2 ≤ (request small frozen (λ s. s) here none (delete "s") world).1.store)
    × ((request small frozen (λ s. s) here none (delete "s") world).1.worker ≡ world.worker)
read_only_keeps_example =
    read_only_keeps small frozen (λ s. 2 ≤ s) laws refl (λ s. s) here none (delete "s") world
      (omega arith)

worker_follows_example :
    (request small writable (λ s. s) here none (post_clear (valid memory)) world).1.worker
    ≡ follows
        (post_clear (valid memory))
        (request small writable (λ s. s) here none (post_clear (valid memory)) world).0
        world.worker
worker_follows_example =
    worker_follows small writable (λ s. s) here none (post_clear (valid memory)) world

answered :
    ((request small writable (λ s. s) here none (post_clear (valid embeddings)) world).0.status
      ≡ 200)
    × (leaves_work
          (post_clear (valid embeddings))
          (request small writable (λ s. s) here none (post_clear (valid embeddings)) world).0.body
        ≡ true)
unfolding request handle auth_middleware Settings.clear_store Settings.clear
answered = (refl, refl)

-- The worker has begun to count, and is at it still.
abbrev dated : String → Option ℕ
dated line = if str_eq line "2026" then some 2026 else none

parse_eval_history-lines_test :
    parse_eval_history dated (String.◌++◌ "# runs" (String.◌∷◌ "\n" " 2026 \noops"))
    ≡ parse_eval_history dated "# runs" ++ parse_eval_history dated " 2026 \noops"
parse_eval_history-lines_test = parse_eval_history-lines dated "# runs" " 2026 \noops"

one_run : parse_eval_history dated " 2026 \noops" ≡ 2026 ∷ []
unfolding parse_eval_history is_space
one_run = refl
