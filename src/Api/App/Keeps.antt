-- ===== src/Api/App/Keeps.antt =====
-- What the requests to the API (server/src/app.ts, server/src/api/routes) leave as it was.
use mathlib.Core.Path.{subst}
use mcp_zeromem.Common.{
  ℕ, String, Bool, true, false, not, ◌&&◌, Option, none, some, ◌≡◌, refl, sym, if◌then◌else◌,
  if_cases, or_else, Bool-cases, inl, inr,
}
use mcp_zeromem.Worker.{Worker}
use mcp_zeromem.Config.{Config}
use mcp_zeromem.Curator.{CuratorConfig, if_fresh}
use mcp_zeromem.Auth.{Decision, granted, unauthorized, errored, auth_middleware}
use mcp_zeromem.Discovery.{load}
use mcp_zeromem.Api.{World, Ending, done, thrown, call, await, then_call, parse}
use mcp_zeromem.Api.Engine.{Failure, Called, returned, rejected, Engine, ReadsKeep, CurationRuns}
use mcp_zeromem.Api.Reply.{Checked, engine, valid, malformed, Thrown, Body, HttpReply}
use mcp_zeromem.Api.Curator
use mcp_zeromem.Api.Viz
use mcp_zeromem.Api.Viz.{VizRequest}
use mcp_zeromem.Api.Routes
use mcp_zeromem.Api.Settings
use mcp_zeromem.Api.App.{
  Request, get_status, get_sessions, get_turns, delete, post_recall, post_trace, post_ingest,
  get_brief, get_runs, get_actions, get_aliases, post_undo, get_embedder, probe, change_embedder,
  post_reembed, post_clear, get_curator, change_curator, post_token, get_discovery,
  change_discovery, viz, auth_config, Circumstances, handle, render, is_public, request, authorized,
}
use mcp_zeromem.Api.App.Gates.{is_write, handle-IsRefused}

-- What every stretch of a route keeps, the whole route keeps.
module _ {S : Type 0} (I : World S → Type 0) where
  pub await_keeps :
      {A B : Type 0} (f : Failure → Thrown) (r : Called A × World S)
      (k : A → World S → Ending B × World S)
      → I r.1
      → ((a : A) (v : World S) → I v → I (k a v).1)
      → I (await f r k).1
  await_keeps f (returned a, w) k p q = q a w p
  await_keeps f (rejected x, w) k p q = p

  pub then_keeps :
      {A B : Type 0} (r : Called A × World S) (k : A → World S → Called B × World S)
      → I r.1
      → ((a : A) (v : World S) → I v → I (k a v).1)
      → I (then_call r k).1
  then_keeps (returned a, w) k p q = q a w p
  then_keeps (rejected x, w) k p q = p

  pub parse_keeps :
      {A B : Type 0} (b : Checked A) (k : A → World S → Ending B × World S) (w : World S)
      → I w
      → ((a : A) → I (k a w).1)
      → I (parse b k w).1
  parse_keeps (valid a) k w p q = q a
  parse_keeps (malformed issues) k w p q = p

  pub either_keeps :
      {B : Type 0} (b : Bool) (x y : Ending B × World S) → I x.1 → I y.1 → I (if b then x else y).1
  either_keeps true x y p q = p
  either_keeps false x y p q = q

module _ {S J : Type 0} (e : Engine S J) (config : Config) where
  pub render_world : (x : Ending (Body J) × World S) → (render e config x).1 ≡ x.1
  render_world (done b, w) = refl
  render_world (thrown t, w) = refl

  module _ (P : S → Type 0) (laws : ReadsKeep P e) (worker : Option Worker) where
    abbrev Kept : World S → Type 0
    Kept w = P w.store × (w.worker ≡ worker)

    pub cached-Kept :
        (later : ℕ) (r : Called CuratorConfig × World S)
        → Kept r.1
        → Kept (Curator.cached_at e later r).1
    cached-Kept later (returned x, w) k = k
    cached-Kept later (rejected x, w) k = k

    both-Kept :
        (c : Called CuratorConfig) (r : Called CurationRuns × World S)
        → Kept r.1
        → Kept (Curator.both e c r).1
    both-Kept (rejected f) r k = k
    both-Kept (returned c) (rejected f, w) k = k
    both-Kept (returned c) (returned runs, w) k = k

    config-Kept :
        (clock : Curator.Clock) (w : World S) → Kept w → Kept (Curator.curator_config e clock w).1
    unfolding Curator.curator_config
    config-Kept clock w (p, q) = read (if_fresh clock.now w.curator.cached)
      where
        read : (o : Option CuratorConfig) → Kept (Curator.read_config e clock w o).1
        read (some c) = (p, q)
        read none =
            cached-Kept clock.later (call e.curator_config w) (laws.curator_config w.store p, q)

    pub view-Kept :
        (clock : Curator.Clock) (w : World S) → Kept w → Kept (Curator.curator_view e clock w).1
    unfolding Curator.curator_view
    view-Kept clock w k =
        let (r, v) = Curator.curator_config e clock w in
        let (p, q) = config-Kept clock w k in
        both-Kept (Curator.curator_config e clock w).0 _
          (laws.curation_runs (Curator.newest e) (Curator.curator_config e clock w).1.store p, q)

    history-Kept :
        (path : String) (file : Viz.FileRead) (read_run : String → Option J) (w : World S)
        → Kept w
        → Kept (Viz.show_history e path file read_run w).1
    unfolding Viz.show_history
    history-Kept path (Viz.contents text) read_run w k = k
    history-Kept path Viz.missing read_run w k = k
    history-Kept path (Viz.unreadable f) read_run w k = k

    viewing-Kept : (r : VizRequest J) (w : World S) → Kept w → Kept (Viz.view e r w).1
    unfolding Viz.view
    viewing-Kept (Viz.get_graph query) w (p, q) =
        parse_keeps Kept query _ w (p, q)
          (λ o.
            await_keeps Kept engine (call (e.graph_snapshot o) w) _
              (laws.graph_snapshot o w.store p, q) (λ b v k. k))
    viewing-Kept (Viz.get_hierarchy query) w (p, q) =
        parse_keeps Kept query _ w (p, q)
          (λ o.
            await_keeps Kept engine (call (e.hierarchy o) w) _ (laws.hierarchy o w.store p, q)
              (λ b v k. k))
    viewing-Kept (Viz.get_session_turns id query) w (p, q) =
        parse_keeps Kept query _ w (p, q)
          (λ page.
            await_keeps Kept engine (call (e.turns_with_entities id page) w) _
              (laws.turns_with_entities id page w.store p, q)
              (λ b v k. either_keeps Kept _ _ _ k k))
    viewing-Kept (Viz.get_projection query) w (p, q) =
        parse_keeps Kept query _ w (p, q)
          (λ o.
            await_keeps Kept engine (call (e.projection o) w) _ (laws.projection o w.store p, q)
              (λ b v k. k))
    viewing-Kept (Viz.get_growth query) w (p, q) =
        parse_keeps Kept query _ w (p, q)
          (λ o.
            await_keeps Kept engine (call (e.growth o) w) _ (laws.growth o w.store p, q)
              (λ b v k. k))
    viewing-Kept Viz.get_health w (p, q) = (laws.health w.store p, q)
    viewing-Kept (Viz.get_eval path file read_run) w k = history-Kept path file read_run w k

    pub reading-Kept :
        (c : Circumstances) (r : Request J) (w : World S)
        → is_write r ≡ false
        → Kept w
        → Kept (handle e config c r w).1
    unfolding handle Routes.show_status Routes.list_sessions Routes.read_turns Routes.recall
        Routes.trace Routes.read_brief Routes.list_runs Routes.list_actions Routes.list_aliases
        Settings.show_embedder Settings.test_embedder Settings.show_curator Settings.show_discovery
        load
    reading-Kept c get_status w n (p, q) =
        await_keeps Kept engine (call e.stats w) _ (laws.stats w.store p, q) (λ b v k. k)
    reading-Kept c (get_sessions query) w n (p, q) =
        parse_keeps Kept query _ w (p, q)
          (λ a.
            await_keeps Kept engine (call (e.list_sessions a) w) _
              (laws.list_sessions a w.store p, q) (λ b v k. k))
    reading-Kept c (get_turns id query) w n (p, q) =
        parse_keeps Kept query _ w (p, q)
          (λ a.
            await_keeps Kept engine (call (e.session_turns id a) w) _
              (laws.session_turns id a w.store p, q) (λ b v k. either_keeps Kept _ _ _ k k))
    reading-Kept c (post_recall body) w n (p, q) =
        parse_keeps Kept body _ w (p, q)
          (λ a.
            await_keeps Kept engine (call (e.query a) w) _ (laws.query a w.store p, q) (λ b v k. k))
    reading-Kept c (post_trace body) w n (p, q) =
        parse_keeps Kept body _ w (p, q)
          (λ a.
            await_keeps Kept engine (call (e.query_trace a) w) _ (laws.query_trace a w.store p, q)
              (λ b v k. k))
    reading-Kept c (get_brief query) w n (p, q) =
        parse_keeps Kept query _ w (p, q)
          (λ a.
            await_keeps Kept engine (call (e.brief (or_else a (or_else config.scope ""))) w) _
              (laws.brief (or_else a (or_else config.scope "")) w.store p, q) (λ b v k. k))
    reading-Kept c (get_runs query) w n (p, q) =
        parse_keeps Kept query _ w (p, q)
          (λ a.
            await_keeps Kept engine (call (e.curation_runs a) w) _
              (laws.curation_runs a w.store p, q) (λ b v k. k))
    reading-Kept c (get_actions query) w n (p, q) =
        parse_keeps Kept query _ w (p, q)
          (λ a.
            await_keeps Kept engine (call (e.curation_actions a) w) _
              (laws.curation_actions a w.store p, q) (λ b v k. k))
    reading-Kept c get_aliases w n (p, q) =
        await_keeps Kept engine (call e.curation_aliases w) _ (laws.curation_aliases w.store p, q)
          (λ b v k. k)
    reading-Kept c get_embedder w n (p, q) =
        await_keeps Kept engine (call e.embedder_settings w) _ (laws.embedder_settings w.store p, q)
          (λ b v k. k)
    reading-Kept c (probe body) w n (p, q) =
        parse_keeps Kept body _ w (p, q)
          (λ a.
            await_keeps Kept _ (call (e.probe_embedder a) w) _ (laws.probe_embedder a w.store p, q)
              (λ b v k. k))
    reading-Kept c get_curator w n (p, q) =
        await_keeps Kept engine (Curator.curator_view e c.clock w) _ (view-Kept c.clock w (p, q))
          (λ b v k. k)
    reading-Kept c get_discovery w n (p, q) =
        await_keeps Kept engine (call e.discovery_config w) _ (laws.discovery_config w.store p, q)
          (λ b v k. k)
    reading-Kept c (viz r) w n k = viewing-Kept r w k
    reading-Kept c (delete id) w n (p, q) = absurd (cc)
    reading-Kept c (post_ingest body) w n (p, q) = absurd (cc)
    reading-Kept c (post_undo body) w n (p, q) = absurd (cc)
    reading-Kept c (change_embedder body) w n (p, q) = absurd (cc)
    reading-Kept c post_reembed w n (p, q) = absurd (cc)
    reading-Kept c (post_clear body) w n (p, q) = absurd (cc)
    reading-Kept c (change_curator body) w n (p, q) = absurd (cc)
    reading-Kept c post_token w n (p, q) = absurd (cc)
    reading-Kept c (change_discovery body) w n (p, q) = absurd (cc)

    handled-Kept :
        (c : Circumstances) (r : Request J) (w : World S)
        → config.read_only ≡ true
        → Kept w
        → Kept (render e config (handle e config c r w)).1
    handled-Kept c r w on k = elim (Bool-cases (is_write r)) [
      | inl yes_ ↦
          let same =
            (handle-IsRefused e config c r w 403
              (rw (yes_, on) (refusing (not (is_public r))))).1 in
          subst Kept (sym same) k
      | inr no_ ↦ subst Kept (sym (render_world (handle e config c r w))) (reading-Kept c r w no_ k)
    ]
      where
        refusing :
            (b : Bool) → if◌then◌else◌ {A = Option ℕ} (b && false) (some 401) (some 403) ≡ some 403
        refusing true = refl
        refusing false = refl

    authorized-Kept :
        (d : Decision) (c : Circumstances) (r : Request J) (w : World S)
        → config.read_only ≡ true
        → Kept w
        → Kept (authorized e config d (λ v. render e config (handle e config c r v)) w).1
    authorized-Kept (granted scope) c r w on k = handled-Kept c r w on k
    authorized-Kept (unauthorized message) c r w on k = k
    authorized-Kept errored c r w on k = k

  -- On a read-only server, whatever the calls of the engine that only read keep is kept by every request, and no request
  -- wakes the worker.
  pub read_only_keeps :
      (P : S → Type 0)
      → ReadsKeep P e
      → config.read_only ≡ true
      → (digest : String → String) (c : Circumstances) (header : Option String) (r : Request J)
        (w : World S)
      → P w.store
      → P (request e config digest c header r w).1.store
        × ((request e config digest c header r w).1.worker ≡ w.worker)
  unfolding request
  read_only_keeps P laws on digest c header r w p =
      if_cases (λ (x : HttpReply J × World S). P x.1.store × (x.1.worker ≡ w.worker)) (is_public r)
        _ _ (λ n. handled-Kept P laws w.worker c r w on (p, refl))
        (λ n.
          authorized-Kept P laws w.worker (auth_middleware digest (auth_config config) header) c r w
            on (p, refl))
