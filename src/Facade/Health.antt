-- ===== src/Facade/Health.antt =====
-- What the counters of the engine (server/src/engine/index.ts) show, against what its callers were told.
use mcp_zeromem.Common.{
  ℕ, ◌≤◌, ◌*◌, ◌/◌, ◌≡◌, refl, ap, ◌∙◌, sym, List, [], ◌∷◌, ◌++◌, arith, All, map,
}
use mcp_zeromem.Metrics.{Metrics, series_minutes, minute_of, create, snapshot, record_open, find}
use mcp_zeromem.Metrics.Series.{
  Event, apply, run, expected, minutes_from, view-run, series_from_lem,
}
use mcp_zeromem.Metrics.Buckets.{view}
use mcp_zeromem.Memory.{IngestReport}
use mcp_zeromem.Api.Engine.{Called, returned, rejected}
use mcp_zeromem.Facade as Facade
use mcp_zeromem.Facade.{Native, Schemas, Reading, ZeroMemEngine, opened, served}
use mcp_zeromem.Facade.Others as Others
use mcp_zeromem.Facade.Others.{NativeOthers, OtherSchemas}
use mcp_zeromem.Facade.Calls.{
  AnyCall, routed, ingest_turn, session_window, refresh, rebuild, embedding_backlog, embed_backlog,
  curate_apply, curate_candidates, curation_turns, told_turn, perform_any, EngineCall, stats,
  embedder_settings, curation_aliases, curator_config, discovery_config, reembed, clear_embeddings,
  clear_memory, list_sessions, session_turns, query, query_trace, brief, curation_runs,
  curation_actions, probe_embedder, set_embedder, ingest_many, delete_session, curate_undo,
  set_curator_config, set_discovery_config, event_of, told_recall, told_ingest, perform,
  perform_all,
}

run-append : (m : Metrics) (l k : List (ℕ × Event)) → run m (l ++ k) ≡ run (run m l) k
unfolding run
run-append m [] k = refl
run-append m ((now, e) ∷ l) k = run-append (apply now e m) l k

timed-run :
    {A : Type 0} (m : Metrics) (c : Called A) (r : Reading)
    → Facade.timed m c r ≡ run m (event_of r (told_recall c))
unfolding run apply
timed-run m (returned a) r = refl
timed-run m (rejected f) r = refl

counted-run :
    (m : Metrics) (c : Called IngestReport) (r : Reading)
    → Facade.counted m c r ≡ run m (event_of r (told_ingest c))
unfolding run apply
counted-run m (returned report) r = refl
counted-run m (rejected f) r = refl

turn-run :
    (m : Metrics) (c : Called Others.IngestOutcome) (r : Reading)
    → Others.counted_turn m c r ≡ run m (event_of r (told_turn c))
unfolding run apply
turn-run m (returned outcome) r = refl
turn-run m (rejected f) r = refl

module _ {S R A J : Type 0} (reading : S → Reading) (n : Native S R J) (c : Schemas R J)
    (m : NativeOthers S R A) (d : OtherSchemas R J) where
  perform-run :
      (call : EngineCall J) (e : ZeroMemEngine S)
      → (perform (served reading n c) call e).1.metrics
        ≡ run e.metrics (
            event_of
              (reading (perform (served reading n c) call e).1.store)
              (perform (served reading n c) call e).0)
  unfolding perform served Facade.time_recall Facade.count_report run
  perform-run stats e = refl
  perform-run embedder_settings e = refl
  perform-run curation_aliases e = refl
  perform-run curator_config e = refl
  perform-run discovery_config e = refl
  perform-run reembed e = refl
  perform-run clear_embeddings e = refl
  perform-run clear_memory e = refl
  perform-run (list_sessions q) e = refl
  perform-run (session_turns id q) e = refl
  perform-run (query r) e = timed-run e.metrics _ _
  perform-run (query_trace r) e = timed-run e.metrics _ _
  perform-run (brief scope) e = refl
  perform-run (curation_runs q) e = refl
  perform-run (curation_actions q) e = refl
  perform-run (probe_embedder r) e = refl
  perform-run (set_embedder r) e = refl
  perform-run (ingest_many turns) e = counted-run e.metrics _ _
  perform-run (delete_session id) e = refl
  perform-run (curate_undo target actor) e = refl
  perform-run (set_curator_config config) e = refl
  perform-run (set_discovery_config on) e = refl

  perform_any-run :
      (call : AnyCall A J) (e : ZeroMemEngine S)
      → (perform_any reading n c m d call e).1.metrics
        ≡ run e.metrics (
            event_of
              (reading (perform_any reading n c m d call e).1.store)
              (perform_any reading n c m d call e).0)
  unfolding perform_any run Others.ingest_turn Others.session_window Others.refresh Others.rebuild
      Others.embedding_backlog Others.embed_backlog Others.curate_apply Others.curate_candidates
      Others.curation_turns
  perform_any-run (routed call) e = perform-run call e
  perform_any-run (ingest_turn turn) e = turn-run e.metrics _ _
  perform_any-run (session_window options) e = refl
  perform_any-run refresh e = refl
  perform_any-run rebuild e = refl
  perform_any-run embedding_backlog e = refl
  perform_any-run (embed_backlog limit) e = refl
  perform_any-run (curate_apply id actor actions dry_run) e = refl
  perform_any-run (curate_candidates kind options) e = refl
  perform_any-run (curation_turns selector limit) e = refl

  perform_all-run :
      (calls : List (AnyCall A J)) (e : ZeroMemEngine S)
      → (perform_all reading (perform_any reading n c m d) calls e).1.metrics
        ≡ run e.metrics (perform_all reading (perform_any reading n c m d) calls e).0
  unfolding perform_all run
  perform_all-run [] e = refl
  perform_all-run (call ∷ calls) e =
      let after = perform_any reading n c m d call e in
      perform_all-run calls after.1
      ∙ ap (λ x. run x (perform_all reading (perform_any reading n c m d) calls after.1).0)
          (perform_any-run call e)
      ∙ sym (run-append e.metrics (event_of (reading after.1.store) after.0) _)

  -- Take an engine opened at `t0`, and any calls of it but those for the visualisations, of which none ends after `now`. The series of its health view
  -- at `now` has an entry for each of the sixty minutes up to the current one, oldest first, and the entry counts what
  -- the callers were told in that minute: the recalls and traces answered, with their durations, those that failed,
  -- also for an answer of an unexpected shape, and the turns that writes were said to have indexed.
  pub health_exact :
      (t0 open_ms now : ℕ) (s : S) (calls : List (AnyCall A J))
      → All
          (λ e. e.0 ≤ now)
          (perform_all reading (perform_any reading n c m d) calls (opened t0 open_ms s)).0
      → (snapshot now
          (perform_all reading
            (perform_any reading n c m d)
            calls
            (opened t0 open_ms s)).1.metrics).0.series
        ≡ map
            (λ k.
              expected k
                (perform_all reading (perform_any reading n c m d) calls (opened t0 open_ms s)).0)
            (minutes_from 60 (now / 60_000 * 60_000))
  unfolding snapshot opened create record_open find
  health_exact t0 open_ms now s calls a =
      let after = perform_all reading (perform_any reading n c m d) calls (opened t0 open_ms s) in
      series_from_lem series_minutes (minute_of now) after.1.metrics.buckets after.0 (omega arith)
        (λ k h.
          ap (λ (x : Metrics). view k x.buckets) (perform_all-run calls (opened t0 open_ms s))
          ∙ view-run k now after.0 (opened t0 open_ms s).metrics h a)
