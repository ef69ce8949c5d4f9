-- ===== src/Api/App/Gates.antt =====
-- In which order the API (server/src/app.ts, server/src/api/routes) refuses a request.
use mcp_zeromem.Common.{
  ℕ, String, Bool, true, false, not, ◌&&◌, ◌≢◌, arith, inl, inr, Option-cases, if_cases, Option,
  none, some, ◌≡◌, refl, ap, or_else, if◌then◌else◌,
}
use mcp_zeromem.Config.{Config}
use mcp_zeromem.Auth.{
  Decision, granted, unauthorized, errored, default, auth_middleware, AuthConfig, check_main,
}
use mcp_zeromem.Api.{World, Ending, thrown, parse, refuse_read_only}
use mcp_zeromem.Api.Engine.{Engine}
use mcp_zeromem.Api.Reply.{Checked, valid, malformed, zod, Body, HttpReply, error_middleware}
use mcp_zeromem.Api.Settings.{refuse_env_token}
use mcp_zeromem.Api.Viz
use mcp_zeromem.Api.Viz.{VizRequest}
use mcp_zeromem.Api.Routes
use mcp_zeromem.Api.Settings
use mcp_zeromem.Api.App.{
  Request, get_status, get_sessions, get_turns, delete, post_recall, post_trace, post_ingest,
  get_brief, get_runs, get_actions, get_aliases, post_undo, get_embedder, probe, change_embedder,
  post_reembed, post_clear, get_curator, change_curator, post_token, get_discovery,
  change_discovery, viz, auth_config, Circumstances, handle, render, is_public, request, authorized,
}

-- The requests that change what the server holds.
abbrev pub is_write : {J : Type 0} → Request J → Bool
is_write (delete id) = true
is_write (post_ingest body) = true
is_write (post_undo body) = true
is_write (change_embedder body) = true
is_write post_reembed = true
is_write (post_clear body) = true
is_write (change_curator body) = true
is_write post_token = true
is_write (change_discovery body) = true
is_write _ = false

abbrev is_bad : {A : Type 0} → Checked A → Bool
is_bad (valid a) = false
is_bad (malformed issues) = true

abbrev is_bad_view : {J : Type 0} → VizRequest J → Bool
is_bad_view (Viz.get_graph query) = is_bad query
is_bad_view (Viz.get_hierarchy query) = is_bad query
is_bad_view (Viz.get_session_turns id query) = is_bad query
is_bad_view (Viz.get_projection query) = is_bad query
is_bad_view (Viz.get_growth query) = is_bad query
is_bad_view Viz.get_health = false
is_bad_view (Viz.get_eval path file read_run) = false

-- The query or the body does not fit the route's schema.
abbrev pub is_malformed : {J : Type 0} → Request J → Bool
is_malformed (get_sessions query) = is_bad query
is_malformed (get_turns id query) = is_bad query
is_malformed (post_recall body) = is_bad body
is_malformed (post_trace body) = is_bad body
is_malformed (post_ingest body) = is_bad body
is_malformed (get_brief query) = is_bad query
is_malformed (get_runs query) = is_bad query
is_malformed (get_actions query) = is_bad query
is_malformed (post_undo body) = is_bad body
is_malformed (probe body) = is_bad body
is_malformed (change_embedder body) = is_bad body
is_malformed (post_clear body) = is_bad body
is_malformed (change_curator body) = is_bad body
is_malformed (change_discovery body) = is_bad body
is_malformed (viz r) = is_bad_view r
is_malformed _ = false

abbrev pub is_given : {A : Type 0} → Option A → Bool
is_given none = false
is_given (some a) = true

-- The stored curator token would change.
abbrev pub changes_token : {J : Type 0} → Request J → Bool
changes_token (change_curator (valid u)) = is_given u.token
changes_token post_token = true
changes_token _ = false

abbrev is_denied : Decision → Bool
is_denied (granted scope) = false
is_denied _ = true

-- The answer of the first of the four gates that a request does not pass.
abbrev pub gate : {J : Type 0} → Decision → Bool → Bool → Request J → Option ℕ
gate decision read_only env_token r =
    if not (is_public r) && is_denied decision
    then some 401
    else if is_write r && read_only
    then some 403
    else if is_malformed r
    then some 400
    else if changes_token r && env_token
    then some 409
    else none

auth_middleware-ne-errored :
    (digest : String → String) (auth : AuthConfig) (header : Option String)
    → auth_middleware digest auth header ≢ errored
unfolding auth_middleware check_main
auth_middleware-ne-errored digest auth header h = ground arith

module _ {S J : Type 0} (e : Engine S J) (config : Config) where
  -- The request is answered with the status, and nothing has changed.
  abbrev pub IsRefused : ℕ → World S → Ending (Body J) × World S → Type 0
  IsRefused s w result = ((render e config result).0.status ≡ s) × ((render e config result).1 ≡ w)

  same_status : (n s : ℕ) → some n ≡ some s → n ≡ s
  same_status n s h = ap (λ o. or_else o 0) h

  read_only-IsRefused :
      (b : Bool) (k : World S → Ending (Body J) × World S) (w : World S) (rest : Option ℕ) (s : ℕ)
      → (rest ≡ some s → IsRefused s w (k w))
      → (if b then some 403 else rest) ≡ some s
      → IsRefused s w (refuse_read_only b k w)
  unfolding error_middleware
  read_only-IsRefused true k w rest s f h = (same_status 403 s h, refl)
  read_only-IsRefused false k w rest s f h = f h

  parse-IsRefused :
      {A : Type 0} (p : Checked A) (k : A → World S → Ending (Body J) × World S) (w : World S)
      (rest : Option ℕ) (s : ℕ)
      → ((a : A) → p ≡ valid a → rest ≡ some s → IsRefused s w (k a w))
      → (if is_bad p then some 400 else rest) ≡ some s
      → IsRefused s w (parse p k w)
  unfolding error_middleware
  parse-IsRefused (valid a) k w rest s f h = f a refl h
  parse-IsRefused (malformed issues) k w rest s f h = (same_status 400 s h, refl)

  env-IsRefused :
      (k : World S → Ending (Body J) × World S) (w : World S) (s : ℕ)
      → (if is_given w.curator.env_token then some 409 else none) ≡ some s
      → IsRefused s w (refuse_env_token e k w)
  unfolding error_middleware
  env-IsRefused k w s h = elim (Option-cases w.curator.env_token) [
    | inl n ↦ absurd (cc)
    | inr (t, n) ↦ rw n (same_status 409 s (rw n at h), refl)
  ]

  token-IsRefused :
      (o : Option (Option String)) (k : World S → Ending (Body J) × World S) (w : World S) (s : ℕ)
      → (if is_given o && is_given w.curator.env_token then some 409 else none) ≡ some s
      → IsRefused s w (elim o [ none ↦ k w | some t ↦ refuse_env_token e k w ])
  token-IsRefused none k w s h = absurd (cc)
  token-IsRefused (some t) k w s h = env-IsRefused k w s h

  abbrev inner_gate : World S → Request J → Option ℕ
  inner_gate w r = gate (granted default) config.read_only (is_given w.curator.env_token) r

  view-IsRefused :
      (r : VizRequest J) (w : World S) (s : ℕ)
      → (if is_bad_view r then some 400 else none) ≡ some s
      → IsRefused s w (Viz.view e r w)
  unfolding Viz.view
  view-IsRefused (Viz.get_graph query) w s h =
      parse-IsRefused query _ w none s (λ a p n. absurd (cc)) h
  view-IsRefused (Viz.get_hierarchy query) w s h =
      parse-IsRefused query _ w none s (λ a p n. absurd (cc)) h
  view-IsRefused (Viz.get_session_turns id query) w s h =
      parse-IsRefused query _ w none s (λ a p n. absurd (cc)) h
  view-IsRefused (Viz.get_projection query) w s h =
      parse-IsRefused query _ w none s (λ a p n. absurd (cc)) h
  view-IsRefused (Viz.get_growth query) w s h =
      parse-IsRefused query _ w none s (λ a p n. absurd (cc)) h
  view-IsRefused Viz.get_health w s h = absurd (cc)
  view-IsRefused (Viz.get_eval path file read_run) w s h = absurd (cc)

  pub handle-IsRefused :
      (c : Circumstances) (r : Request J) (w : World S) (s : ℕ)
      → inner_gate w r ≡ some s
      → IsRefused s w (handle e config c r w)
  unfolding handle error_middleware Routes.list_sessions Routes.read_turns Routes.forget_session
      Routes.recall Routes.trace Routes.ingest_route Routes.read_brief Routes.list_runs
      Routes.list_actions Routes.undo Settings.test_embedder Settings.switch_embedder
      Settings.reembed Settings.clear_store Settings.put_curator Settings.mint_token
      Settings.put_discovery
  handle-IsRefused c get_status w s h = absurd (cc)
  handle-IsRefused c (get_sessions query) w s h =
      parse-IsRefused query _ w none s (λ a p n. absurd (cc)) h
  handle-IsRefused c (get_turns id query) w s h =
      parse-IsRefused query _ w none s (λ a p n. absurd (cc)) h
  handle-IsRefused c (delete id) w s h =
      read_only-IsRefused config.read_only (Routes.forget_now e config id) w _ s (λ n. absurd (cc))
        h
  handle-IsRefused c (post_recall body) w s h =
      parse-IsRefused body _ w none s (λ a p n. absurd (cc)) h
  handle-IsRefused c (post_trace body) w s h =
      parse-IsRefused body _ w none s (λ a p n. absurd (cc)) h
  handle-IsRefused c (post_ingest body) w s h =
      read_only-IsRefused config.read_only (parse body (Routes.ingest e c.read)) w _ s
        (parse-IsRefused body _ w none s (λ a p n. absurd (cc))) h
  handle-IsRefused c (get_brief query) w s h =
      parse-IsRefused query _ w none s (λ a p n. absurd (cc)) h
  handle-IsRefused c (get_runs query) w s h =
      parse-IsRefused query _ w none s (λ a p n. absurd (cc)) h
  handle-IsRefused c (get_actions query) w s h =
      parse-IsRefused query _ w none s (λ a p n. absurd (cc)) h
  handle-IsRefused c get_aliases w s h = absurd (cc)
  handle-IsRefused c (post_undo body) w s h =
      read_only-IsRefused config.read_only (parse body (Routes.undo_target e config)) w _ s
        (parse-IsRefused body _ w none s (λ a p n. absurd (cc))) h
  handle-IsRefused c get_embedder w s h = absurd (cc)
  handle-IsRefused c (probe body) w s h = parse-IsRefused body _ w none s (λ a p n. absurd (cc)) h
  handle-IsRefused c (change_embedder body) w s h =
      read_only-IsRefused config.read_only (parse body (Settings.switch_to e)) w _ s
        (parse-IsRefused body _ w none s (λ a p n. absurd (cc))) h
  handle-IsRefused c post_reembed w s h =
      read_only-IsRefused config.read_only (Settings.reembed_now e) w _ s (λ n. absurd (cc)) h
  handle-IsRefused c (post_clear body) w s h =
      read_only-IsRefused config.read_only (parse body (Settings.clear_scope e)) w _ s
        (parse-IsRefused body _ w none s (λ a p n. absurd (cc))) h
  handle-IsRefused c get_curator w s h = absurd (cc)
  handle-IsRefused c (change_curator (valid u)) w s h =
      read_only-IsRefused config.read_only (Settings.change_curator e c.clock u) w _ s
        (token-IsRefused u.token (Settings.put_curator_settings e c.clock u) w s) h
  handle-IsRefused c (change_curator (malformed issues)) w s h =
      read_only-IsRefused config.read_only (λ v. (thrown (zod issues), v)) w _ s
        (λ n. (same_status 400 s n, refl)) h
  handle-IsRefused c post_token w s h =
      read_only-IsRefused config.read_only (refuse_env_token e (Settings.mint e c.clock c.minted)) w
        _ s (env-IsRefused (Settings.mint e c.clock c.minted) w s) h
  handle-IsRefused c get_discovery w s h = absurd (cc)
  handle-IsRefused c (change_discovery body) w s h =
      read_only-IsRefused config.read_only (parse body (Settings.store_discovery e)) w _ s
        (parse-IsRefused body _ w none s (λ a p n. absurd (cc))) h
  handle-IsRefused c (viz r) w s h = view-IsRefused r w s h

  authorized-IsRefused :
      (d : Decision) (c : Circumstances) (r : Request J) (w : World S) (s : ℕ)
      → d ≢ errored
      → is_public r ≡ false
      → gate d config.read_only (is_given w.curator.env_token) r ≡ some s
      → ((authorized e config d (λ v. render e config (handle e config c r v)) w).0.status ≡ s)
        × ((authorized e config d (λ v. render e config (handle e config c r v)) w).1 ≡ w)
  authorized-IsRefused (granted scope) c r w s n p h = handle-IsRefused c r w s h
  authorized-IsRefused (unauthorized message) c r w s n p h = (same_status 401 s (rw p at h), refl)
  authorized-IsRefused errored c r w s n p h = absurd (n refl)

  -- A request is answered with the first of these refusals that applies, and changes nothing then: 401 without the
  -- token, but for `/api/status`; 403 for a write on a read-only server; 400 where its schema refuses it; and 409 where
  -- it would change the stored curator token while the environment sets one.
  pub gate_order :
      (digest : String → String) (c : Circumstances) (header : Option String) (r : Request J)
      (w : World S) (s : ℕ)
      → gate
          (auth_middleware digest (auth_config config) header)
          config.read_only
          (is_given w.curator.env_token)
          r
        ≡ some s
      → ((request e config digest c header r w).0.status ≡ s)
        × ((request e config digest c header r w).1 ≡ w)
  unfolding request
  gate_order digest c header r w s h =
      if_cases (λ (x : HttpReply J × World S). (x.0.status ≡ s) × (x.1 ≡ w)) (is_public r) _ _
        (λ p. handle-IsRefused c r w s (rw p (rw p at h)))
        (λ p.
          authorized-IsRefused (auth_middleware digest (auth_config config) header) c r w s
            (auth_middleware-ne-errored digest (auth_config config) header) p h)
