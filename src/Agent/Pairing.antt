-- ===== src/Agent/Pairing.antt =====
-- Conversations that a chat-completions server takes: server/src/curator-agent/agent.ts answers the
-- calls of each reply, in order, before anything else is said.
use mcp_zeromem.Common.{
  ℕ, zero, suc, String, List, [], ◌∷◌, ◌++◌, map, ◌≡◌, refl, ◌∙◌, Bool, true, false, Option, none,
  some, str_eq, eq_refl, if◌then◌else◌, arith,
}
use mcp_zeromem.Common.Units.{Units}
use mcp_zeromem.Agent.{
  ChatMessage, system, user, assistant, tool, ToolCall, trim, Parsed, Args, Reply, State,
  Completion, handle_call, handle_calls, add_completion, conclude, respond, respond_to, not_closed,
}
use mcp_zeromem.Agent.Trim.{drop_oldest, trim_oldest}

abbrev pub call_id : ToolCall → String
call_id c = c.id

-- The ids of the calls that are unanswered at the end, after those that were at the start, or `none`
-- where something else than the next answer comes in.
unfoldable pub pending : List String → List ChatMessage → Option (List String)
pending ids [] = some ids
pending [] (system t ∷ ms) = pending [] ms
pending [] (user t ∷ ms) = pending [] ms
pending [] (assistant t cs ∷ ms) = pending (map call_id cs) ms
pending (i ∷ ids) (tool j t ∷ ms) = if str_eq i j then pending ids ms else none
pending ids (m ∷ ms) = none

abbrev pub IsPaired : List ChatMessage → Type 0
IsPaired ms = pending [] ms ≡ some []

answered :
    (b : Bool) (o o' k : Option (List String)) (js : List String)
    → (o ≡ some js → o' ≡ k)
    → (if b then o else none) ≡ some js
    → (if b then o' else none) ≡ k
answered true o o' k js f h = f h
answered false o o' k js f h = cc

pub pending-append :
    (ids js : List String) (xs ys : List ChatMessage)
    → pending ids xs ≡ some js
    → pending ids (xs ++ ys) ≡ pending js ys
unfolding pending
pending-append ids js [] ys h = cc
pending-append [] js (system t ∷ xs) ys h = pending-append [] js xs ys h
pending-append [] js (user t ∷ xs) ys h = pending-append [] js xs ys h
pending-append [] js (assistant t cs ∷ xs) ys h = pending-append (map call_id cs) js xs ys h
pending-append [] js (tool j t ∷ xs) ys h = cc
pending-append (i ∷ ids) js (tool j t ∷ xs) ys h =
    answered (str_eq i j) _ _ _ js (pending-append ids js xs ys) h
pending-append (i ∷ ids) js (system t ∷ xs) ys h = cc
pending-append (i ∷ ids) js (user t ∷ xs) ys h = cc
pending-append (i ∷ ids) js (assistant t cs ∷ xs) ys h = cc

pending-drop_oldest :
    (ids : List String) (n : ℕ) (ms : List ChatMessage)
    → pending ids (drop_oldest n ms) ≡ pending ids ms
unfolding pending
pending-drop_oldest ids zero ms = refl
pending-drop_oldest ids (suc n) [] = refl
pending-drop_oldest [] (suc n) (system t ∷ ms) = pending-drop_oldest [] n ms
pending-drop_oldest [] (suc n) (user t ∷ ms) = pending-drop_oldest [] n ms
pending-drop_oldest [] (suc n) (assistant t cs ∷ ms) = pending-drop_oldest (map call_id cs) n ms
pending-drop_oldest [] (suc n) (tool j t ∷ ms) = refl
pending-drop_oldest (i ∷ ids) (suc n) (tool j t ∷ ms) = rw (pending-drop_oldest ids n ms)
pending-drop_oldest (i ∷ ids) (suc n) (system t ∷ ms) = refl
pending-drop_oldest (i ∷ ids) (suc n) (user t ∷ ms) = refl
pending-drop_oldest (i ∷ ids) (suc n) (assistant t cs ∷ ms) = refl

pub pending-trim :
    (ids : List String) (limit : ℕ) (ms : List ChatMessage)
    → pending ids (trim limit ms) ≡ pending ids ms
pending-trim ids limit ms =
    let (n, (e, fit, least)) = trim_oldest limit ms in rw e (pending-drop_oldest ids n ms)

module _ (parse : Units → Parsed) (call_tool : List ChatMessage → String → Args → Reply)
    (tools : List String) where
  handle_call-pending :
      (limit : ℕ) (c : ToolCall) (s : State) (ids : List String)
      → pending [] s.messages ≡ some (c.id ∷ ids)
      → pending [] (handle_call parse call_tool tools limit c s).messages ≡ some ids
  unfolding handle_call pending
  handle_call-pending limit c s ids h =
      pending-append [] (c.id ∷ ids) s.messages (tool c.id _ ∷ []) h ∙ rw (eq_refl c.id) refl

  handle_calls-pending :
      (limit : ℕ) (cs : List ToolCall) (s : State)
      → pending [] s.messages ≡ some (map call_id cs)
      → IsPaired (handle_calls parse call_tool tools limit cs s).messages
  unfolding handle_calls
  handle_calls-pending limit [] s h = h
  handle_calls-pending limit (c ∷ cs) s h =
      handle_calls-pending limit cs _ (handle_call-pending limit c s (map call_id cs) h)

  add_completion-pending :
      (c : Completion) (s : State)
      → IsPaired s.messages
      → pending [] (add_completion parse call_tool tools c s).messages
        ≡ some (map call_id c.tool_calls)
  unfolding add_completion pending
  add_completion-pending c s h =
      pending-append [] [] s.messages (assistant c.content c.tool_calls ∷ []) h

  conclude-IsPaired :
      (c : Completion) (s : State)
      → IsPaired s.messages
      → IsPaired (conclude parse call_tool tools c s).0.messages
  unfolding conclude pending
  conclude-IsPaired c s h = ground (arith, pending-append [] [] s.messages (user not_closed ∷ []) h)

  respond_to-IsPaired :
      (cs : List ToolCall) (limit : ℕ) (c : Completion) (s : State)
      → pending [] s.messages ≡ some (map call_id cs)
      → IsPaired (respond_to parse call_tool tools cs limit c s).0.messages
  unfolding respond_to
  respond_to-IsPaired [] limit c s h = conclude-IsPaired c s h
  respond_to-IsPaired (call ∷ calls) limit c s h = handle_calls-pending limit (call ∷ calls) s h

  -- What follows a completion leaves every call of the conversation answered, in order.
  pub respond-IsPaired :
      (limit : ℕ) (c : Completion) (s : State)
      → IsPaired s.messages
      → IsPaired (respond parse call_tool tools limit c s).0.messages
  unfolding respond
  respond-IsPaired limit c s h =
      respond_to-IsPaired c.tool_calls limit c _ (add_completion-pending c s h)
