-- ===== src/Gateway/Listing.antt =====
-- Which tools are listed: `allTools` of server/src/gateway/server.ts.
use mcp_zeromem.Common.{
  Bool, true, false, List, [], ◌∷◌, ◌++◌, ◌≡◌, ◌↔◌, ◌⊎◌, inl, inr, refl, sym, ap, ◌∙◌, keep_if,
  if◌then◌else◌,
}
use mcp_zeromem.Gateway.{ToolDefinition, is_read, all_tools, memory_tools, curate_tools}

abbrev pub IsListed : ToolDefinition → List ToolDefinition → Type 0
IsListed t [] = ⊥
IsListed t (u ∷ us) = (u ≡ t) ⊎ IsListed t us

append-IsListed :
    (t : ToolDefinition) (us vs : List ToolDefinition)
    → IsListed t (us ++ vs) ↔ (IsListed t us ⊎ IsListed t vs)
append-IsListed t [] vs = (λ h. inr h, λ h. elim h [ inl e ↦ absurd e | inr k ↦ k ])
append-IsListed t (u ∷ us) vs = (
  λ h. elim h [
    | inl e ↦ inl (inl e)
    | inr k ↦ elim ((append-IsListed t us vs).0 k) [ inl x ↦ inl (inr x) | inr y ↦ inr y ]
  ],
  λ h. elim h [
    | inl x ↦ elim x [ inl e ↦ inl e | inr k ↦ inr ((append-IsListed t us vs).1 (inl k)) ]
    | inr y ↦ inr ((append-IsListed t us vs).1 (inr y))
  ],
)

cons-IsListed :
    (p : ToolDefinition → Bool) (t u : ToolDefinition) (us ks : List ToolDefinition) (b : Bool)
    → p u ≡ b
    → (IsListed t ks ↔ (IsListed t us × (p t ≡ true)))
    → IsListed t (if b then u ∷ ks else ks) ↔ (IsListed t (u ∷ us) × (p t ≡ true))
cons-IsListed p t u us ks true e (f, g) = (
  λ h. elim h [ inl s ↦ (inl s, sym (ap p s) ∙ e) | inr k ↦ let (m, y) = f k in (inr m, y) ],
  λ (h, y). elim h [ inl s ↦ inl s | inr k ↦ inr (g (k, y)) ],
)
cons-IsListed p t u us ks false e (f, g) = (
  λ h. let (m, y) = f h in (inr m, y),
  λ (h, y). elim h [ inl s ↦ absurd (cc (sym e ∙ ap p s ∙ y)) | inr k ↦ g (k, y) ],
)

keep_if-IsListed :
    (p : ToolDefinition → Bool) (t : ToolDefinition) (us : List ToolDefinition)
    → IsListed t (keep_if p us) ↔ (IsListed t us × (p t ≡ true))
keep_if-IsListed p t [] = (λ h. absurd h, λ (h, y). h)
keep_if-IsListed p t (u ∷ us) =
    cons-IsListed p t u us (keep_if p us) (p u) refl (keep_if-IsListed p t us)

curate-IsListed :
    (curator : Bool) (t : ToolDefinition)
    → IsListed t (if curator then curate_tools else [])
      ↔ ((curator ≡ true) × IsListed t curate_tools)
curate-IsListed true t = (λ h. (refl, h), λ (e, h). h)
curate-IsListed false t = (λ h. absurd h, λ (e, h). absurd (cc e))

-- A tool is listed exactly when it is one of the memory's, or one of the curator's and the caller is the curator; and,
-- on a server that is read-only, only if it reads.
pub all_tools_iff :
    (curator read_only : Bool) (t : ToolDefinition)
    → IsListed t (all_tools curator read_only) ↔ (
        (IsListed t memory_tools ⊎ ((curator ≡ true) × IsListed t curate_tools))
        × (read_only ≡ true → is_read t.kind ≡ true))
unfolding all_tools
all_tools_iff curator read_only t = gated read_only
  where
    either_way :
        IsListed t (memory_tools ++ (if curator then curate_tools else []))
        ↔ (IsListed t memory_tools ⊎ ((curator ≡ true) × IsListed t curate_tools))
    either_way =
        let (f, g) = append-IsListed t memory_tools (if curator then curate_tools else []) in
        let (f', g') = curate-IsListed curator t in
        (
          λ h. elim (f h) [ inl x ↦ inl x | inr y ↦ inr (f' y) ],
          λ h. elim h [ inl x ↦ g (inl x) | inr y ↦ g (inr (g' y)) ],
        )

    gated :
        (r : Bool)
        → IsListed t (
            if r
            then keep_if
                (λ (u : ToolDefinition). is_read u.kind)
                (memory_tools ++ (if curator then curate_tools else []))
            else (memory_tools ++ (if curator then curate_tools else [])))
          ↔ ((IsListed t memory_tools ⊎ ((curator ≡ true) × IsListed t curate_tools))
              × (r ≡ true → is_read t.kind ≡ true))
    gated true =
        let (f, g) =
          keep_if-IsListed (λ (u : ToolDefinition). is_read u.kind) t
            (memory_tools ++ (if curator then curate_tools else [])) in
        (λ h. let (m, y) = f h in (either_way.0 m, λ e. y), λ (m, y). g (either_way.1 m, y refl))
    gated false = (λ h. (either_way.0 h, λ e. absurd (cc e)), λ (m, y). either_way.1 m)
