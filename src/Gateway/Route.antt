-- ===== src/Gateway/Route.antt =====
-- The /mcp route (server/src/gateway/routes.ts) behind its authentication (server/src/auth.ts): which
-- tools a request is offered.
use mathlib.Core.Path.{subst}
use mcp_zeromem.Common.{
  String, Bool, true, ◌≡◌, ◌⊎◌, inl, inr, refl, sym, ap, Option, none, some, or_else, List,
  Bool-cases, false,
}
use mcp_zeromem.Auth.{
  AuthConfig, Decision, granted, unauthorized, errored, default, curator, mcp_auth_middleware,
}
use mcp_zeromem.Auth.Access.{Gives, mcp_curator_iff}
use mcp_zeromem.Gateway.{ToolDefinition, is_read, all_tools, memory_tools}
use mcp_zeromem.Gateway.Listing.{IsListed, all_tools_iff}

-- `curator` of the route: the curator scope, or `expose_to_all` of the settings, read only for another
-- scope; `none` where reading them fails. The result is the listing of the server that answers.
unfoldable pub route : Decision → Option Bool → Bool → Option (List ToolDefinition)
route (granted curator) expose_to_all read_only = some (all_tools true read_only)
route (granted default) none read_only = none
route (granted default) (some exposed) read_only = some (all_tools exposed read_only)
route (unauthorized message) expose_to_all read_only = none
route errored expose_to_all read_only = none

-- A request to /mcp; `stored` is the curator token as it is read.
unfoldable pub mcp_request :
    (String → String)
    → AuthConfig
    → Option (Option String)
    → Option String
    → Option Bool
    → Bool
    → Option (List ToolDefinition)
unfolding route
mcp_request digest auth stored header expose_to_all read_only =
    route (mcp_auth_middleware digest auth stored header) expose_to_all read_only

-- Why a tool is in the listing.
abbrev IsOffered : Decision → Option Bool → Bool → ToolDefinition → Type 0
IsOffered d exposed read_only t =
    (IsListed t memory_tools ⊎ (d ≡ granted curator) ⊎ (exposed ≡ some true))
    × (read_only ≡ true → is_read t.kind ≡ true)

route-IsOffered :
    (d : Decision) (exposed : Option Bool) (read_only : Bool) (tools : List ToolDefinition)
    (t : ToolDefinition)
    → route d exposed read_only ≡ some tools
    → IsListed t tools
    → IsOffered d exposed read_only t
unfolding route
route-IsOffered (granted curator) exposed read_only tools t e h =
    let (m, k) =
      (all_tools_iff true read_only t).0
        (subst (IsListed t) (sym (ap (λ o. or_else o tools) e)) h) in
    (elim m [ inl x ↦ inl x | inr y ↦ inr (inl refl) ], k)
route-IsOffered (granted default) none read_only tools t e h = absurd (cc)
route-IsOffered (granted default) (some exposed) read_only tools t e h =
    let (m, k) =
      (all_tools_iff exposed read_only t).0
        (subst (IsListed t) (sym (ap (λ o. or_else o tools) e)) h) in
    (elim m [ inl x ↦ inl x | inr y ↦ inr (inr (let (b, z) = y in ap some b)) ], k)
route-IsOffered (unauthorized message) exposed read_only tools t e h = absurd (cc)
route-IsOffered errored exposed read_only tools t e h = absurd (cc)

-- With a collision-free digest, a request to /mcp is offered a tool that is not one of the memory's only if its bearer
-- token is the stored, non-empty curator token, or the settings expose the curator's tools to all; and a read-only
-- server offers no tool that writes.
pub mcp_request_gated :
    (digest : String → String)
    → ((a b : String) → digest a ≡ digest b → a ≡ b)
    → (auth : AuthConfig) (stored : Option (Option String)) (header : Option String)
    → (expose_to_all : Option Bool) (read_only : Bool)
    → (tools : List ToolDefinition) (t : ToolDefinition)
    → mcp_request digest auth stored header expose_to_all read_only ≡ some tools
    → IsListed t tools
    → (IsListed t memory_tools
        ⊎ ((token : Option String) × (stored ≡ some token) × Gives header token)
        ⊎ (expose_to_all ≡ some true))
      × ((read_only ≡ false) ⊎ (is_read t.kind ≡ true))
unfolding mcp_request
mcp_request_gated digest distinct auth stored header expose_to_all read_only tools t e h =
    let (why, k) = route-IsOffered _ expose_to_all read_only tools t e h in
    (
      elim why [
        | inl x ↦ inl x
        | inr y ↦ inr (elim y [
          | inl d ↦ inl ((mcp_curator_iff digest distinct auth stored header).0 d)
          | inr x ↦ inr x
        ])
      ],
      elim (Bool-cases read_only) [ inl on ↦ inr (k on) | inr off ↦ inl off ],
    )
