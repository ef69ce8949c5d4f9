-- ===== src/Api/Settings.antt =====
-- server/src/api/routes/settings.ts. What a schema makes of a request is an argument.
use mcp_zeromem.Common.{String, Bool, none, some, if◌then◌else◌, ltb}
use mcp_zeromem.Curator.{CuratorSettingsUpdate}
use mcp_zeromem.Discovery
use mcp_zeromem.Discovery.{load, shown}
use mcp_zeromem.Api.{
  World, Ending, done, thrown, call, await, parse, refuse_read_only, kicked, refused_as,
}
use mcp_zeromem.Api.Engine.{
  Called, Engine, ClearScope, embeddings, memory, ClearReport, EmbedderChangeRequest,
}
use mcp_zeromem.Api.Reply.{
  Checked, http, engine, Body, answer, cleared, curator_settings, curator_token, discovery_settings,
}
use mcp_zeromem.Api.Curator.{Clock, curator_view, update_curator, make_token}
use mcp_zeromem.Api.Routes.{sent}

module _ {S J : Type 0} (e : Engine S J) where
  unfoldable pub clear : ClearScope → World S → Called ClearReport × World S
  clear embeddings w = call e.clear_embeddings w
  clear memory w = call e.clear_memory w

  abbrev pub after_clear : ClearReport → World S → Ending (Body J) × World S
  after_clear report w =
      (done (cleared report), if ltb 0 report.turns_to_embed then kicked w else w)

  -- `refuseEnvToken`, where the request changes the token.
  abbrev pub refuse_env_token :
      (World S → Ending (Body J) × World S) → World S → Ending (Body J) × World S
  refuse_env_token k w = elim w.curator.env_token [
    | none ↦ k w
    | some t ↦ (
      thrown
          (http 409 "MCP_ZEROMEM_CURATOR_TOKEN is set; it overrides the stored curator token" none),
      w,
    )
  ]

  abbrev pub put_curator_settings :
      Clock → CuratorSettingsUpdate → World S → Ending (Body J) × World S
  put_curator_settings clock u w =
      await (refused_as 400 "The curator settings were refused") (update_curator e clock u w)
        (sent curator_settings)

  abbrev pub change_curator : Clock → CuratorSettingsUpdate → World S → Ending (Body J) × World S
  change_curator clock u w = elim u.token [
    | none ↦ put_curator_settings clock u w
    | some t ↦ refuse_env_token (put_curator_settings clock u) w
  ]

  unfoldable pub show_embedder : World S → Ending (Body J) × World S
  show_embedder w = await engine (call e.embedder_settings w) (sent answer)

  unfoldable pub test_embedder :
      Checked (EmbedderChangeRequest J) → World S → Ending (Body J) × World S
  test_embedder body = parse body (λ change w.
      await (refused_as 502 "The embedder could not be used") (call (e.probe_embedder change) w)
        (sent answer))

  unfoldable pub show_curator : Clock → World S → Ending (Body J) × World S
  unfolding curator_view
  show_curator clock w = await engine (curator_view e clock w) (sent curator_settings)

  unfoldable pub show_discovery : World S → Ending (Body J) × World S
  unfolding load shown
  show_discovery w = await engine (call e.discovery_config w) (λ stored v.
      let d = load stored v.discovery in
      (done (discovery_settings (shown d)), record v { discovery = d }))

  abbrev pub switch_to : EmbedderChangeRequest J → World S → Ending (Body J) × World S
  switch_to change w =
      await (refused_as 502 "The embedder could not be used; the store is unchanged")
        (call (e.set_embedder change) w) (λ a v. (done (answer a), kicked v))

  abbrev pub reembed_now : World S → Ending (Body J) × World S
  reembed_now w =
      await (refused_as 502 "The embedder could not be used; the vectors are unchanged")
        (call e.reembed w) (λ a v. (done (answer a), kicked v))

  abbrev pub clear_scope : ClearScope → World S → Ending (Body J) × World S
  unfolding clear
  clear_scope scope w = await engine (clear scope w) after_clear

  abbrev pub store_discovery : Bool → World S → Ending (Body J) × World S
  unfolding Discovery.update shown
  store_discovery lan_advertise w =
      await engine (call (e.set_discovery_config lan_advertise) w) (λ stored v.
        let d = Discovery.update stored v.discovery in
        (done (discovery_settings (shown d)), record v { discovery = d }))

  -- `minted` is the new token.
  abbrev pub mint : Clock → String → World S → Ending (Body J) × World S
  unfolding make_token
  mint clock minted w =
      await engine (make_token e clock minted w)
        (λ (token, settings). sent (curator_token token) settings)

  module _ (read_only : Bool) where
    unfoldable pub switch_embedder :
        Checked (EmbedderChangeRequest J) → World S → Ending (Body J) × World S
    switch_embedder body = refuse_read_only read_only (parse body switch_to)

    unfoldable pub reembed : World S → Ending (Body J) × World S
    reembed = refuse_read_only read_only reembed_now

    unfoldable pub clear_store : Checked ClearScope → World S → Ending (Body J) × World S
    unfolding clear_scope
    clear_store body = refuse_read_only read_only (parse body clear_scope)

    unfoldable pub put_curator :
        Clock → Checked CuratorSettingsUpdate → World S → Ending (Body J) × World S
    unfolding update_curator
    put_curator clock body = refuse_read_only read_only (parse body (change_curator clock))

    unfoldable pub put_discovery : Checked Bool → World S → Ending (Body J) × World S
    unfolding store_discovery
    put_discovery body = refuse_read_only read_only (parse body store_discovery)

    unfoldable pub mint_token : Clock → String → World S → Ending (Body J) × World S
    unfolding mint
    mint_token clock minted = refuse_read_only read_only (refuse_env_token (mint clock minted))
