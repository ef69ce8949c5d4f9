-- ===== src/Gateway/Server/Examples.antt =====
-- What an MCP server announces and says (server/src/gateway/server.ts).
use mcp_zeromem.Common.{
  ℕ, true, false, ◌≡◌, ◌≤◌, refl, inl, inr, str_eq, if◌then◌else◌, none, some, arith,
}
use mcp_zeromem.Common.Text.{join}
use mcp_zeromem.Memory.{StoredTurn}
use mcp_zeromem.Api.Engine.{returned}
use mcp_zeromem.Gateway.{reading, all_tools, memory_tools}
use mcp_zeromem.Gateway.Tools.Calls.{stats, tool_of}
use mcp_zeromem.Gateway.Tools.Runs.{call_tool}
use mcp_zeromem.Gateway.Tools.Examples.{
  small, laws, day, fixed, writable, read_line, read_file, stringify,
}
use mcp_zeromem.Gateway.Server.{
  registered, create_gateway_server, read_resource, resource_scope, brief_instructions,
}
use mcp_zeromem.Gateway.Server.Announced.{IsAnnounced, announced_keeps}

stats-IsAnnounced :
    IsAnnounced
      (registered (reading "zeromem_stats"))
      (create_gateway_server day false false none).tools
unfolding create_gateway_server all_tools memory_tools registered
stats-IsAnnounced = inr (inr (inr (inr (inl refl))))

stats_named :
    (registered (reading "zeromem_stats")).name
    ≡ (tool_of {A = ℕ} {O = ℕ} (stats none none none)).name
unfolding registered tool_of
stats_named = refl

stats_hint : (registered (reading "zeromem_stats")).annotations.read_only_hint ≡ true
unfolding registered
stats_hint = refl

announced_keeps_example :
    2
    ≤ (call_tool small day fixed writable read_line read_file stringify false
        (stats none none none)
        2).1
announced_keeps_example =
    announced_keeps small day fixed writable read_line read_file (λ s. 2 ≤ s) laws stringify false
      none (registered (reading "zeromem_stats")) (stats none none none) 2 stats-IsAnnounced
      stats_named stats_hint (omega arith)

abbrev standing : StoredTurn
standing = record {
  id = 1;
  session_id = "brief";
  speaker = "curator";
  text = "Likes tea.";
  ts = 0;
  scope = some "";
}

told_place :
    brief_instructions day standing
    ≡ "Standing brief for this memory, written by the memory's curator on 1970-01-01. It summarises what earlier\nconversations established; zeromem_recall has the turns behind it and whatever it leaves out or that\ncame later.\n\nLikes tea."
unfolding brief_instructions join
told_place = refl

-- `_` names the unscoped store.
unscoped_resource :
    (read_resource
      (λ scope (s : ℕ). (returned (if str_eq scope "" then some standing else none), s))
      (λ given. given)
      "_"
      0).0
    ≡ returned "Likes tea."
unfolding read_resource resource_scope
unscoped_resource = refl
