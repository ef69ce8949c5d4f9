-- ===== src/Agent/Loop.antt =====
-- Induction over the loop of `runCurator`, server/src/curator-agent/agent.ts.
use mathlib.Core.Path.{subst}
use mcp_zeromem.Common.{
  ℕ, zero, suc, String, List, ◌≡◌, refl, ap, Bool, true, false, Option, none, some, ◌∙◌, or_else,
}
use mcp_zeromem.Common.Units.{Units}
use mcp_zeromem.Agent.{
  ChatMessage, Parsed, Args, Reply, State, Completion, trim, respond, run_loop, go_on, if_answered,
}

-- The state in which the model is asked.
abbrev pub fitted : ℕ → State → State
fitted limit s = record s { messages = trim limit s.messages }

module _ (parse : Units → Parsed) (call_tool : List ChatMessage → String → Args → Reply)
    (tools : List String) (tool_limit limit : ℕ) where
  go_on-keeps :
      (P : State → Type 0) (rest : State → Option State) (s' : State)
      → ((s : State) → P s → rest s ≡ some s' → P s')
      → (r : State × Bool) → P r.0
      → go_on parse call_tool tools rest r ≡ some s'
      → P s'
  go_on-keeps P rest s' later (s, true) p q = subst P (ap (λ o. or_else o s) q) p
  go_on-keeps P rest s' later (s, false) p q = later s p q

  if_answered-keeps :
      (P : State → Type 0) (next : Completion → Option State) (s' : State)
      → ((c : Completion) → next c ≡ some s' → P s')
      → (o : Option Completion) → if_answered parse call_tool tools next o ≡ some s'
      → P s'
  if_answered-keeps P next s' later none q = absurd (cc)
  if_answered-keeps P next s' later (some c) q = later c q

  -- What every completion keeps, the loop keeps.
  pub run_loop-keeps :
      (P : State → Type 0)
      → ((c : Completion) (s : State)
          → P s
          → P (respond parse call_tool tools tool_limit c (fitted limit s)).0)
      → (complete : List ChatMessage → Option Completion) (left : ℕ) (s s' : State) → P s
      → run_loop parse call_tool tools complete tool_limit limit left s ≡ some s'
      → P s'
  unfolding run_loop
  run_loop-keeps P keep complete zero s s' h q = subst P (ap (λ o. or_else o s) q) h
  run_loop-keeps P keep complete (suc left) s s' h q =
      if_answered-keeps P _ s'
        (λ c. go_on-keeps P _ s' (λ t. run_loop-keeps P keep complete left t s') _ (keep c s h))
        (complete (trim limit s.messages)) q

  go_on-agree :
      (f g : State → Option State) (r : State × Bool)
      → f r.0 ≡ g r.0
      → go_on parse call_tool tools f r ≡ go_on parse call_tool tools g r
  go_on-agree f g (s, true) e = refl
  go_on-agree f g (s, false) e = e

  if_answered-agree :
      (f g : Completion → Option State) (o : Option Completion)
      → ((c : Completion) → f c ≡ g c)
      → if_answered parse call_tool tools f o ≡ if_answered parse call_tool tools g o
  if_answered-agree f g none e = refl
  if_answered-agree f g (some c) e = e c

  -- Two models that answer alike in every state the loop can reach give the same run.
  pub run_loop-agree :
      (P : State → Type 0)
      → ((c : Completion) (s : State)
          → P s
          → P (respond parse call_tool tools tool_limit c (fitted limit s)).0)
      → (f g : List ChatMessage → Option Completion)
      → ((s : State) → P s → f (trim limit s.messages) ≡ g (trim limit s.messages))
      → (left : ℕ) (s : State) → P s
      → run_loop parse call_tool tools f tool_limit limit left s
        ≡ run_loop parse call_tool tools g tool_limit limit left s
  unfolding run_loop
  run_loop-agree P keep f g same zero s h = refl
  run_loop-agree P keep f g same (suc left) s h =
      let asked : (List ChatMessage → Option Completion) → Completion → Option State = λ m c.
        go_on parse call_tool tools (run_loop parse call_tool tools m tool_limit limit left)
          (respond parse call_tool tools tool_limit c (fitted limit s)) in
      ap (if_answered parse call_tool tools (asked f)) (same s h)
      ∙ if_answered-agree (asked f) (asked g) (g (trim limit s.messages)) (λ c.
        go_on-agree (run_loop parse call_tool tools f tool_limit limit left)
          (run_loop parse call_tool tools g tool_limit limit left)
          (respond parse call_tool tools tool_limit c (fitted limit s))
          (run_loop-agree P keep f g same left _ (keep c s h)))
