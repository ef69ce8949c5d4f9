-- ===== src/Agent/Ends.antt =====
-- That the loop of `runCurator`, server/src/curator-agent/agent.ts, ends, and what its end says.
use mcp_zeromem.Common.{
  ℕ, ◌+◌, ◌≤◌, String, List, [], ◌∷◌, ◌≡◌, refl, Bool, true, false, not, ◌&&◌, Option, some, ◌⊎◌,
  inl, inr, if_cases,
}
use mcp_zeromem.Common.Units.{Units}
use mcp_zeromem.Agent.{
  ChatMessage, Parsed, Args, Reply, ToolCall, State, Completion, opening, respond, respond_to,
  conclude, add_completion, handle_call, handle_calls, run_loop, can_apply,
}
use mcp_zeromem.Agent.Loop.{fitted, run_loop-keeps}

module _ (parse : Units → Parsed) (call_tool : List ChatMessage → String → Args → Reply)
    (tools : List String) where
  -- The loop ends with a finished run, and goes on with one that is as finished as before; a completion
  -- is one step.
  abbrev Goes : State → State × Bool → Type 0
  Goes s r = (r.0.report.steps ≡ s.report.steps) × (r.1 ≡ true → r.0.report.finished ≡ true)

  -- The end of a loop that had `left` requests at the state s.
  abbrev IsEnd : ℕ → State → State → Type 0
  IsEnd left s s' =
      (s'.report.steps ≤ s.report.steps + left)
      × ((s'.report.finished ≡ true) ⊎ (s'.report.steps ≡ s.report.steps + left))

  -- A finished run is closed, or it could not be, or the model was asked to close it.
  abbrev IsExcused : State → Type 0
  IsExcused s =
      s.report.finished ≡ true
      → (s.report.closed ≡ true) ⊎ (can_apply parse call_tool tools ≡ false) ⊎ (s.nudged ≡ true)

  excuse :
      (can closed nudged : Bool)
      → (can && not closed && not nudged) ≡ false
      → (closed ≡ true) ⊎ (can ≡ false) ⊎ (nudged ≡ true)
  excuse false closed nudged e = inr (inl refl)
  excuse true true nudged e = inl refl
  excuse true false true e = inr (inr refl)
  excuse true false false e = absurd (cc)

  handle_calls-IsExcused :
      (limit : ℕ) (cs : List ToolCall) (s : State)
      → IsExcused s
      → IsExcused (handle_calls parse call_tool tools limit cs s)
  unfolding handle_calls handle_call
  handle_calls-IsExcused limit [] s h = h
  handle_calls-IsExcused limit (c ∷ cs) s h =
      handle_calls-IsExcused limit cs _
        (λ f. elim (h f) [ inl e ↦ inl (rw e refl) | inr e ↦ inr e ])

  respond_to-IsExcused :
      (cs : List ToolCall) (limit : ℕ) (c : Completion) (s : State)
      → IsExcused s
      → IsExcused (respond_to parse call_tool tools cs limit c s).0
  unfolding respond_to conclude
  respond_to-IsExcused [] limit c s h =
      if_cases {A = State × Bool} (λ r. IsExcused r.0) _ _ _ (λ e f. inr (inr refl))
        (λ e f. excuse (can_apply parse call_tool tools) s.report.closed s.nudged e)
  respond_to-IsExcused (call ∷ calls) limit c s h = handle_calls-IsExcused limit (call ∷ calls) s h

  respond-IsExcused :
      (tool_limit limit : ℕ) (c : Completion) (s : State)
      → IsExcused s
      → IsExcused (respond parse call_tool tools tool_limit c (fitted limit s)).0
  unfolding respond add_completion
  respond-IsExcused tool_limit limit c s h = respond_to-IsExcused c.tool_calls tool_limit c _ h

-- A run that is told to finish is closed, or the server lists no apply, or the model was asked to close the run before.
pub finished_excused :
    (parse : Units → Parsed) (call_tool : List ChatMessage → String → Args → Reply)
    (complete : List ChatMessage → Option Completion) (tools : List String)
    (tool_limit limit left : ℕ) (now task : Units) (s : State)
    → run_loop parse call_tool tools complete tool_limit limit left (opening now task) ≡ some s
    → s.report.finished ≡ true
    → (s.report.closed ≡ true) ⊎ (can_apply parse call_tool tools ≡ false) ⊎ (s.nudged ≡ true)
unfolding opening
finished_excused parse call_tool complete tools tool_limit limit left now task s q f =
    run_loop-keeps parse call_tool tools tool_limit limit (IsExcused parse call_tool tools)
      (respond-IsExcused parse call_tool tools tool_limit limit) complete left (opening now task) s
      (λ e. absurd (cc)) q f
