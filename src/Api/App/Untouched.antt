-- ===== src/Api/App/Untouched.antt =====
-- Which stretches of the routes (server/src/api/routes) leave the embed worker alone.
use mcp_zeromem.Common.{ℕ, String, Option, none, some, ◌≡◌, List, [], ◌∷◌}
use mcp_zeromem.Worker.{Worker}
use mcp_zeromem.Config.{Config}
use mcp_zeromem.Curator.{CuratorConfig, CuratorSettingsUpdate, merge}
use mcp_zeromem.Memory.{TurnInput}
use mcp_zeromem.Ingest.{Reading, ParsedJsonl, parse_jsonl}
use mcp_zeromem.Api.{World, Ending, thrown, call}
use mcp_zeromem.Api.Engine.{ReadsKeep, Engine}
use mcp_zeromem.Api.Reply.{Thrown, Body, engine}
use mcp_zeromem.Api.Curator
use mcp_zeromem.Api.Routes
use mcp_zeromem.Api.Settings
use mcp_zeromem.Api.App.Keeps.{view-Kept, cached-Kept, await_keeps, then_keeps}

module _ {S J : Type 0} (e : Engine S J) (config : Config) where
  pub everything : ReadsKeep (λ s. Unit) e
  everything = record {
    stats = λ s p. tt;
    list_sessions = λ q s p. tt;
    session_turns = λ id q s p. tt;
    query = λ r s p. tt;
    query_trace = λ r s p. tt;
    brief = λ scope s p. tt;
    curation_runs = λ q s p. tt;
    curation_actions = λ q s p. tt;
    curation_aliases = λ s p. tt;
    embedder_settings = λ s p. tt;
    probe_embedder = λ r s p. tt;
    curator_config = λ s p. tt;
    discovery_config = λ s p. tt;
    graph_snapshot = λ o s p. tt;
    hierarchy = λ o s p. tt;
    turns_with_entities = λ id q s p. tt;
    projection = λ o s p. tt;
    growth = λ o s p. tt;
    health = λ s p. tt;
  }

  module _ (worker : Option Worker) where
    abbrev pub Same : World S → Type 0
    Same w = w.worker ≡ worker

    pub view-Same :
        (clock : Curator.Clock) (w : World S) → Same w → Same (Curator.curator_view e clock w).1
    view-Same clock w k = (view-Kept e config (λ s. Unit) everything worker clock w (tt, k)).1

    pub write-Same :
        (now : ℕ) (c : CuratorConfig) (w : World S)
        → Same w
        → Same (Curator.write_config e now c w).1
    unfolding Curator.write_config
    write-Same now c w k =
        (cached-Kept e config (λ s. Unit) everything worker now (call (e.set_curator_config c) w)
          (tt, k)).1

    pub update-Same :
        (clock : Curator.Clock) (u : CuratorSettingsUpdate) (w : World S)
        → Same w
        → Same (Curator.update_curator e clock u w).1
    unfolding Curator.update_curator
    update-Same clock u w k = then_keeps Same (call e.curator_config w) _ k (λ current v p.
        then_keeps Same (Curator.write_config e clock.written (merge current u) v)
          (λ stored. Curator.curator_view e clock) (write-Same clock.written (merge current u) v p)
          (λ stored x q. view-Same clock x q))

    pub mint-Same :
        (clock : Curator.Clock) (minted : String) (w : World S)
        → Same w
        → Same (Curator.make_token e clock minted w).1
    unfolding Curator.make_token
    mint-Same clock minted w k = then_keeps Same (call e.curator_config w) _ k (λ current v p.
        let c = record current { token = some minted } in
        then_keeps Same (Curator.write_config e clock.written c v) _
          (write-Same clock.written c v p)
          (λ stored x q.
            then_keeps Same (Curator.curator_view e clock x) _ (view-Same clock x q)
              (λ settings y z. z)))

    pub lines-Same :
        (parsed : ParsedJsonl) (ts : List TurnInput) (w : World S)
        → Same w
        → Same (Routes.ingest_parsed e parsed ts w).1
    lines-Same parsed [] w k = k
    lines-Same parsed (t ∷ ts) w k =
        await_keeps Same engine (call (e.ingest_many (t ∷ ts)) w) (Routes.ingest_lines e parsed) k
          (λ report v q. q)

    pub ingest-Same :
        (read : String → Reading) (r : Routes.IngestRequest) (w : World S)
        → Same w
        → Same (Routes.ingest e read r w).1
    unfolding Routes.ingest
    ingest-Same read (Routes.turn_list ts) w k =
        await_keeps Same engine (call (e.ingest_many ts) w) _ k (λ report v q. q)
    ingest-Same read (Routes.jsonl text) w k =
        lines-Same (parse_jsonl read text) (parse_jsonl read text).turns w k

    pub curator-Same :
        (clock : Curator.Clock) (u : CuratorSettingsUpdate) (w : World S)
        → Same w
        → Same (Settings.put_curator_settings e clock u w).1
    curator-Same clock u w k =
        await_keeps Same _ (Curator.update_curator e clock u w) _ (update-Same clock u w k)
          (λ settings v q. q)

    pub env-Same :
        (k : World S → Ending (Body J) × World S) (w : World S)
        → Same w
        → Same (k w).1
        → Same (Settings.refuse_env_token e k w).1
    env-Same k w p q = chosen w.curator.env_token _
      where
        chosen :
            (o : Option String) (x : Thrown)
            → Same
                (elim o as (λ y. Ending (Body J) × World S) [
                  | none ↦ k w
                  | some t ↦ (thrown x, w)
                ]).1
        chosen none x = q
        chosen (some t) x = p

    pub token-Same :
        (o : Option (Option String)) (k : World S → Ending (Body J) × World S) (w : World S)
        → Same w
        → Same (k w).1
        → Same
            (elim o as (λ x. Ending (Body J) × World S) [
              | none ↦ k w
              | some t ↦ Settings.refuse_env_token e k w
            ]).1
    token-Same none k w p q = q
    token-Same (some t) k w p q = env-Same k w p q
