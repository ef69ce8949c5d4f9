-- ===== src/Gateway/Server/Announced.antt =====
-- What the annotations of a tool promise (server/src/gateway/server.ts, server/src/gateway/tools).
use mathlib.Core.Path.{subst}
use mcp_zeromem.Common.{
  ℕ, String, Bool, true, ◌≡◌, ◌⊎◌, inl, inr, refl, sym, ap, ◌∙◌, Option, List, [], ◌∷◌, map, any,
  str_eq, All,
}
use mcp_zeromem.Memory.{StoredTurn}
use mcp_zeromem.Ingest.{Reading}
use mcp_zeromem.Config.{Config}
use mcp_zeromem.Api.Engine.{Called}
use mcp_zeromem.Gateway.{ToolDefinition, is_read, all_tools, memory_tools, curate_tools}
use mcp_zeromem.Gateway.Listing.{IsListed, all_tools_iff}
use mcp_zeromem.Gateway.Tools.{ToolEngine, ToolReadsKeep}
use mcp_zeromem.Gateway.Tools.Calls.{
  Call, recall, read_session, remember, ingest, stats, forget_session, curate_runs,
  curate_candidates, curate_read, curate_apply, curate_undo, tool_of, Output,
}
use mcp_zeromem.Gateway.Tools.Runs.{call_tool}
use mcp_zeromem.Gateway.Tools.ReadOnly.{call_tool_keeps}
use mcp_zeromem.Gateway.Server.{RegisteredTool, registered, create_gateway_server}

abbrev reading_names : List String
reading_names =
    "zeromem_recall" ∷ "zeromem_read_session" ∷ "zeromem_stats" ∷ "zeromem_curate_runs"
    ∷ "zeromem_curate_candidates" ∷ "zeromem_curate_read" ∷ []

abbrev reads_by_name : String → Bool
reads_by_name name = any (λ n. str_eq n name) reading_names

-- A tool's name says whether it reads.
abbrev IsNamed : ToolDefinition → Type 0
IsNamed t = is_read t.kind ≡ reads_by_name t.name

abbrev pub IsAnnounced : RegisteredTool → List RegisteredTool → Type 0
IsAnnounced r [] = ⊥
IsAnnounced r (u ∷ us) = (u ≡ r) ⊎ IsAnnounced r us

tool_of-IsNamed : {A O : Type 0} (c : Call A O) → IsNamed (tool_of c)
unfolding tool_of
tool_of-IsNamed (recall args) = refl
tool_of-IsNamed (read_session format given options) = refl
tool_of-IsNamed (remember session_id scope turns) = refl
tool_of-IsNamed (ingest jsonl path scope) = refl
tool_of-IsNamed (stats include_sessions limit scope) = refl
tool_of-IsNamed (forget_session session_id) = refl
tool_of-IsNamed (curate_runs limit) = refl
tool_of-IsNamed (curate_candidates kind options) = refl
tool_of-IsNamed (curate_read turn_ids session_id entity limit) = refl
tool_of-IsNamed (curate_apply id actions dry_run actor) = refl
tool_of-IsNamed (curate_undo action target) = refl

memory_tools-IsNamed : All IsNamed memory_tools
unfolding memory_tools
memory_tools-IsNamed = (refl, (refl, (refl, (refl, (refl, (refl, tt))))))

curate_tools-IsNamed : All IsNamed curate_tools
unfolding curate_tools
curate_tools-IsNamed = (refl, (refl, (refl, (refl, (refl, tt)))))

listed-IsNamed :
    (t : ToolDefinition) (ts : List ToolDefinition) → All IsNamed ts → IsListed t ts → IsNamed t
listed-IsNamed t [] all h = absurd h
listed-IsNamed t (u ∷ us) (n, ns) (inl e) = subst IsNamed e n
listed-IsNamed t (u ∷ us) (n, ns) (inr h) = listed-IsNamed t us ns h

all_tools-IsNamed :
    (curator read_only : Bool) (t : ToolDefinition)
    → IsListed t (all_tools curator read_only)
    → IsNamed t
all_tools-IsNamed curator read_only t h = elim (((all_tools_iff curator read_only t).0 h).0) [
  | inl m ↦ listed-IsNamed t memory_tools memory_tools-IsNamed m
  | inr (c, m) ↦ listed-IsNamed t curate_tools curate_tools-IsNamed m
]

announced_of :
    (r : RegisteredTool) (ts : List ToolDefinition)
    → IsAnnounced r (map registered ts)
    → (t : ToolDefinition) × (registered t ≡ r) × IsListed t ts
announced_of r [] h = absurd h
announced_of r (t ∷ ts) (inl e) = (t, e, inl refl)
announced_of r (t ∷ ts) (inr h) = let (u, e, k) = announced_of r ts h in (u, e, inr k)

-- What a tool is announced as is what it is.
announced_reads :
    {A O : Type 0} (c : Call A O) (r : RegisteredTool) (t : ToolDefinition)
    → IsNamed t
    → registered t ≡ r
    → r.name ≡ (tool_of c).name
    → r.annotations.read_only_hint ≡ true
    → is_read (tool_of c).kind ≡ true
unfolding registered
announced_reads c r t n e same hint =
    tool_of-IsNamed c
    ∙ ap reads_by_name (sym same ∙ sym (ap (λ (x : RegisteredTool). x.name) e))
    ∙ sym n
    ∙ ap (λ (x : RegisteredTool). x.annotations.read_only_hint) e
    ∙ hint

module _ {S J A O N : Type 0} (e : ToolEngine S J A O N) (day : ℕ → String) (fixed : N → String)
    (config : Config) (read_line : String → Reading) (read_file : List String → Called String)
    (P : S → Type 0) (laws : ToolReadsKeep P e) (stringify : Output J N → String) where
  -- A call of a tool that the answering server announces as read-only keeps, with any arguments, what the engine's
  -- calls that only read keep of the store, whether the server is read-only or not.
  pub announced_keeps :
      (curator : Bool) (brief : Option StoredTurn) (r : RegisteredTool) (c : Call A O) (s : S)
      → IsAnnounced r (create_gateway_server day curator config.read_only brief).tools
      → r.name ≡ (tool_of c).name
      → r.annotations.read_only_hint ≡ true
      → P s
      → P (call_tool e day fixed config read_line read_file stringify curator c s).1
  unfolding create_gateway_server
  announced_keeps curator brief r c s h same hint p =
      let (t, is, k) = announced_of r (all_tools curator config.read_only) h in
      call_tool_keeps e day fixed config read_line read_file P laws stringify curator c s
        (announced_reads c r t (all_tools-IsNamed curator config.read_only t k) is same hint) p
