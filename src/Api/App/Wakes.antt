-- ===== src/Api/App/Wakes.antt =====
-- Which requests to the API (server/src/app.ts, server/src/api/routes/settings.ts) wake the embed worker.
use mcp_zeromem.Common.{
  String, Bool, true, false, ◌&&◌, Option, ◌≡◌, refl, sym, ap, ◌∙◌, Bool-cases, inl, inr,
  if◌then◌else◌, if_cases, ltb, ◌==◌,
}
use mcp_zeromem.Worker.{Worker}
use mcp_zeromem.Config.{Config}
use mcp_zeromem.Auth.{Decision, granted, unauthorized, errored, auth_middleware}
use mcp_zeromem.Discovery
use mcp_zeromem.Discovery.{load}
use mcp_zeromem.Api.{
  World, Ending, done, call, await, parse, refuse_read_only, kick_worker, kicked, refused_as,
}
use mcp_zeromem.Api.Engine.{
  Called, returned, rejected, Engine, ClearReport, ClearScope, embeddings, memory,
}
use mcp_zeromem.Api.Reply.{
  Checked, valid, malformed, Body, cleared, HttpReply, answer, engine, error_middleware,
}
use mcp_zeromem.Api.Curator
use mcp_zeromem.Api.Routes
use mcp_zeromem.Api.Settings
use mcp_zeromem.Api.App.{
  Request, get_status, get_sessions, get_turns, delete, post_recall, post_trace, post_ingest,
  get_brief, get_runs, get_actions, get_aliases, post_undo, get_embedder, probe, change_embedder,
  post_reembed, post_clear, get_curator, change_curator, post_token, get_discovery,
  change_discovery, viz, auth_config, Circumstances, handle, render, is_public, request, authorized,
}
use mcp_zeromem.Api.App.Untouched.{
  everything, Same, mint-Same, ingest-Same, curator-Same, env-Same, token-Same,
}
use mcp_zeromem.Api.App.Gates.{is_write}
use mcp_zeromem.Api.App.Keeps.{reading-Kept, await_keeps, either_keeps, render_world}

-- After the answer `body` there may be vectors to make.
abbrev pub leaves_work : {J : Type 0} → Request J → Body J → Bool
leaves_work (change_embedder change) body = true
leaves_work post_reembed body = true
leaves_work (post_clear scope) (cleared report) = ltb 0 report.turns_to_embed
leaves_work _ _ = false

-- What becomes of the worker.
abbrev pub follows : {J : Type 0} → Request J → HttpReply J → Option Worker → Option Worker
follows r reply v = if reply.status == 200 && leaves_work r reply.body then kick_worker v else v

module _ {S J : Type 0} (e : Engine S J) (config : Config) where
  abbrev Follows : Request J → World S → HttpReply J × World S → Type 0
  Follows r w x = x.1.worker ≡ follows r x.0 w.worker

  no_branch : (b c : Bool) (x y : Option Worker) → c ≡ false → (if b && c then x else y) ≡ y
  no_branch true c x y n = rw n refl
  no_branch false c x y n = refl

  quiet-Follows :
      (r : Request J) (w : World S) (x : Ending (Body J) × World S)
      → ((b : Body J) → leaves_work r b ≡ false)
      → x.1.worker ≡ w.worker
      → Follows r w (render e config x)
  quiet-Follows r w x n h =
      ap (λ (v : World S). v.worker) (render_world e config x)
      ∙ h
      ∙ sym (no_branch ((render e config x).0.status == 200) _ _ _ (n (render e config x).0.body))

  reading-Follows :
      (c : Circumstances) (r : Request J) (w : World S)
      → is_write r ≡ false
      → ((b : Body J) → leaves_work r b ≡ false)
      → Follows r w (render e config (handle e config c r w))
  reading-Follows c r w reads n =
      quiet-Follows r w (handle e config c r w) n
        (reading-Kept e config (λ s. Unit) (everything e config) w.worker c r w reads (tt, refl)).1

  refuse-Follows :
      (r : Request J) (b : Bool) (k : World S → Ending (Body J) × World S) (w : World S)
      → Follows r w (render e config (k w))
      → Follows r w (render e config (refuse_read_only b k w))
  unfolding error_middleware
  refuse-Follows r true k w h = refl
  refuse-Follows r false k w h = h

  parse-Follows :
      {A : Type 0} (r : Request J) (b : Checked A) (k : A → World S → Ending (Body J) × World S)
      (w : World S)
      → ((a : A) → Follows r w (render e config (k a w)))
      → Follows r w (render e config (parse b k w))
  unfolding error_middleware
  parse-Follows r (valid a) k w h = h a
  parse-Follows r (malformed issues) k w h = refl

  switch-Follows :
      (r : Request J) (message : String) (w : World S) (x : Called J × World S)
      → ((b : Body J) → leaves_work r b ≡ true)
      → x.1.worker ≡ w.worker
      → Follows r w
          (render e config (await (refused_as 502 message) x (λ a v. (done (answer a), kicked v))))
  unfolding error_middleware
  switch-Follows r message w (returned a, v) n h = rw n (ap kick_worker h)
  switch-Follows r message w (rejected f, v) n h = h

  clear-Follows :
      (scope : Checked ClearScope) (w : World S) (x : Called ClearReport × World S)
      → x.1.worker ≡ w.worker
      → Follows (post_clear scope) w (render e config (await engine x (Settings.after_clear e)))
  unfolding error_middleware
  clear-Follows scope w (returned report, v) h = elim (Bool-cases (ltb 0 report.turns_to_embed)) [
    | inl y ↦ rw y (ap kick_worker h)
    | inr n ↦ rw n h
  ]
  clear-Follows scope w (rejected f, v) h = h

  cleared_worker :
      (scope : ClearScope) (w : World S) → (Settings.clear e scope w).1.worker ≡ w.worker
  unfolding Settings.clear
  cleared_worker embeddings w = refl
  cleared_worker memory w = refl

  handle-Follows :
      (c : Circumstances) (r : Request J) (w : World S)
      → Follows r w (render e config (handle e config c r w))
  unfolding handle Routes.forget_session Routes.ingest_route Routes.undo Settings.switch_embedder
      Settings.reembed Settings.clear_store Settings.put_curator Settings.put_discovery
      Settings.mint_token Settings.clear Discovery.update
  handle-Follows c get_status w = reading-Follows c get_status w refl (λ b. refl)
  handle-Follows c (get_sessions query) w =
      reading-Follows c (get_sessions query) w refl (λ b. refl)
  handle-Follows c (get_turns id query) w =
      reading-Follows c (get_turns id query) w refl (λ b. refl)
  handle-Follows c (post_recall body) w = reading-Follows c (post_recall body) w refl (λ b. refl)
  handle-Follows c (post_trace body) w = reading-Follows c (post_trace body) w refl (λ b. refl)
  handle-Follows c (get_brief query) w = reading-Follows c (get_brief query) w refl (λ b. refl)
  handle-Follows c (get_runs query) w = reading-Follows c (get_runs query) w refl (λ b. refl)
  handle-Follows c (get_actions query) w = reading-Follows c (get_actions query) w refl (λ b. refl)
  handle-Follows c (viz r) w = reading-Follows c (viz r) w refl (λ b. refl)
  handle-Follows c get_aliases w = reading-Follows c get_aliases w refl (λ b. refl)
  handle-Follows c get_embedder w = reading-Follows c get_embedder w refl (λ b. refl)
  handle-Follows c (probe body) w = reading-Follows c (probe body) w refl (λ b. refl)
  handle-Follows c get_curator w = reading-Follows c get_curator w refl (λ b. refl)
  handle-Follows c get_discovery w = reading-Follows c get_discovery w refl (λ b. refl)
  handle-Follows c (delete id) w =
      refuse-Follows (delete id) config.read_only (Routes.forget_now e config id) w (
        quiet-Follows (delete id) w (Routes.forget_now e config id w) (λ b. refl)
          (await_keeps (Same e config w.worker) engine (call (e.delete_session id) w)
            (Routes.after_forget e id) refl
            (λ b v k. either_keeps (Same e config w.worker) _ _ _ k k)))
  handle-Follows c (post_ingest body) w =
      refuse-Follows (post_ingest body) config.read_only (parse body (Routes.ingest e c.read)) w (
        parse-Follows (post_ingest body) body (Routes.ingest e c.read) w (λ a.
          quiet-Follows (post_ingest body) w (Routes.ingest e c.read a w) (λ b. refl)
            (ingest-Same e config w.worker c.read a w refl)))
  handle-Follows c (post_undo body) w =
      refuse-Follows (post_undo body) config.read_only (parse body (Routes.undo_target e config)) w
        (parse-Follows (post_undo body) body (Routes.undo_target e config) w (λ a.
          quiet-Follows (post_undo body) w (Routes.undo_target e config a w) (λ b. refl)
            (await_keeps (Same e config w.worker) _ (call (e.curate_undo a "ui") w) _ refl
              (λ b v k. k))))
  handle-Follows c (change_embedder body) w =
      refuse-Follows (change_embedder body) config.read_only (parse body (Settings.switch_to e)) w (
        parse-Follows (change_embedder body) body (Settings.switch_to e) w (λ a.
          switch-Follows (change_embedder body) _ w (call (e.set_embedder a) w) (λ b. refl) refl))
  handle-Follows c post_reembed w =
      refuse-Follows post_reembed config.read_only (Settings.reembed_now e) w
        (switch-Follows post_reembed _ w (call e.reembed w) (λ b. refl) refl)
  handle-Follows c (post_clear body) w =
      refuse-Follows (post_clear body) config.read_only (parse body (Settings.clear_scope e)) w (
        parse-Follows (post_clear body) body (Settings.clear_scope e) w
          (λ a. clear-Follows body w (Settings.clear e a w) (cleared_worker a w)))
  handle-Follows c (change_curator body) w =
      refuse-Follows (change_curator body) config.read_only
        (parse body (Settings.change_curator e c.clock)) w
        (parse-Follows (change_curator body) body (Settings.change_curator e c.clock) w (λ u.
          quiet-Follows (change_curator body) w (Settings.change_curator e c.clock u w) (λ b. refl)
            (token-Same e config w.worker u.token (Settings.put_curator_settings e c.clock u) w refl
              (curator-Same e config w.worker c.clock u w refl))))
  handle-Follows c post_token w =
      refuse-Follows post_token config.read_only
        (Settings.refuse_env_token e (Settings.mint e c.clock c.minted)) w
        (quiet-Follows post_token w _ (λ b. refl)
          (env-Same e config w.worker (Settings.mint e c.clock c.minted) w refl (
            await_keeps (Same e config w.worker) engine (Curator.make_token e c.clock c.minted w) _
              (mint-Same e config w.worker c.clock c.minted w refl) (λ b v k. k))))
  handle-Follows c (change_discovery body) w =
      refuse-Follows (change_discovery body) config.read_only
        (parse body (Settings.store_discovery e)) w
        (parse-Follows (change_discovery body) body (Settings.store_discovery e) w (λ a.
          quiet-Follows (change_discovery body) w (Settings.store_discovery e a w) (λ b. refl)
            (await_keeps (Same e config w.worker) engine (call (e.set_discovery_config a) w) _ refl
              (λ b v k. k))))

  authorized-Follows :
      (d : Decision) (c : Circumstances) (r : Request J) (w : World S)
      → Follows r w (authorized e config d (λ v. render e config (handle e config c r v)) w)
  authorized-Follows (granted scope) c r w = handle-Follows c r w
  authorized-Follows (unauthorized message) c r w = refl
  authorized-Follows errored c r w = refl

  -- A request kicks the worker exactly when it is answered with 200 and is a switch of the embedder, a re-embedding, or
  -- a clearing that leaves turns to embed; otherwise the worker is as it was.
  pub worker_follows :
      (digest : String → String) (c : Circumstances) (header : Option String) (r : Request J)
      (w : World S)
      → (request e config digest c header r w).1.worker
        ≡ follows r (request e config digest c header r w).0 w.worker
  unfolding request
  worker_follows digest c header r w =
      if_cases (λ (x : HttpReply J × World S). x.1.worker ≡ follows r x.0 w.worker) (is_public r) _
        _ (λ n. handle-Follows c r w)
        (λ n. authorized-Follows (auth_middleware digest (auth_config config) header) c r w)
