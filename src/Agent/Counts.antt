-- ===== src/Agent/Counts.antt =====
-- Counts of the messages of a conversation, and of the calls in a report (server/src/curator-agent/agent.ts).
use mathlib.Core.Path.{subst}
use mcp_zeromem.Common.{
  eq_iff, ℕ, zero, suc, ◌++◌, ap, sym, not, str_eq, if◌then◌else◌, ◌+◌, String, List, [], ◌∷◌, ◌≡◌,
  refl, Bool, true, false, arith,
}
use mcp_zeromem.Common.Sort.{count_if}
use mcp_zeromem.Agent.{
  ChatMessage, system, user, assistant, tool, trim, count_call, bump, ToolCall, ToolCounts,
  inherited, listed,
}
use mcp_zeromem.Agent.Trim.{drop_oldest, drop_result, trim_oldest}

abbrev pub is_assistant : ChatMessage → Bool
is_assistant (assistant t cs) = true
is_assistant m = false

abbrev pub is_result : ChatMessage → Bool
is_result (tool id t) = true
is_result m = false

abbrev pub is_user : ChatMessage → Bool
is_user (user t) = true
is_user m = false

-- All calls counted, under any name.
abbrev pub calls_counted : List (String × ℕ) → ℕ
calls_counted [] = 0
calls_counted ((name, n) ∷ counts) = n + calls_counted counts

-- A name that no object literal inherits.
abbrev pub is_ordinary : ToolCall → Bool
is_ordinary c = not (listed inherited c.name)

calls_counted-bump :
    (name : String) (counts : List (String × ℕ))
    → calls_counted (bump name counts) ≡ calls_counted counts + 1
unfolding bump
calls_counted-bump name [] = refl
calls_counted-bump name ((k, n) ∷ counts) = ground (arith, calls_counted-bump name counts)

-- The tests of `count_call`, of which the first implies the second.
by_tests :
    (proto known present : Bool) (name : String) (t : ToolCounts)
    → (proto ≡ true → known ≡ true)
    → calls_counted
        (if proto
          then t
          else if known
          then (if present then t else record t { texts = t.texts ++ name ∷ [] })
          else record t { counts = bump name t.counts }).counts
      ≡ (if not known then calls_counted t.counts + 1 else calls_counted t.counts)
by_tests true true present name t h = refl
by_tests true false present name t h = absurd (let e = h refl in cc)
by_tests false true true name t h = refl
by_tests false true false name t h = refl
by_tests false false present name t h = calls_counted-bump name t.counts

pub calls_counted-count_call :
    (c : ToolCall) (t : ToolCounts)
    → calls_counted (count_call c.name t).counts
      ≡ (if is_ordinary c then calls_counted t.counts + 1 else calls_counted t.counts)
unfolding count_call
calls_counted-count_call c t =
    by_tests (str_eq c.name "__proto__") (listed inherited c.name) (listed t.texts c.name) c.name t
      (λ e. subst (λ n. listed inherited n ≡ true) (sym ((eq_iff c.name "__proto__").0 e)) refl)

-- The calls in the model's replies that pass the test.
abbrev pub calls_in : (ToolCall → Bool) → List ChatMessage → ℕ
calls_in p [] = 0
calls_in p (assistant t cs ∷ ms) = count_if p cs + calls_in p ms
calls_in p (system t ∷ ms) = calls_in p ms
calls_in p (user t ∷ ms) = calls_in p ms
calls_in p (tool id t ∷ ms) = calls_in p ms

pub calls_in-append :
    (p : ToolCall → Bool) (l k : List ChatMessage)
    → calls_in p (l ++ k) ≡ calls_in p l + calls_in p k
calls_in-append p [] k = omega arith
calls_in-append p (assistant t cs ∷ ms) k = omega (arith, calls_in-append p ms k)
calls_in-append p (system t ∷ ms) k = calls_in-append p ms k
calls_in-append p (user t ∷ ms) k = calls_in-append p ms k
calls_in-append p (tool id t ∷ ms) k = calls_in-append p ms k

calls_in-drop_oldest :
    (p : ToolCall → Bool) (n : ℕ) (ms : List ChatMessage)
    → calls_in p (drop_oldest n ms) ≡ calls_in p ms
calls_in-drop_oldest p zero ms = refl
calls_in-drop_oldest p (suc n) [] = refl
calls_in-drop_oldest p (suc n) (assistant t cs ∷ ms) =
    ap (λ x. count_if p cs + x) (calls_in-drop_oldest p n ms)
calls_in-drop_oldest p (suc n) (system t ∷ ms) = calls_in-drop_oldest p n ms
calls_in-drop_oldest p (suc n) (user t ∷ ms) = calls_in-drop_oldest p n ms
calls_in-drop_oldest p (suc n) (tool id t ∷ ms) = calls_in-drop_oldest p n ms

pub calls_in-trim :
    (p : ToolCall → Bool) (limit : ℕ) (ms : List ChatMessage)
    → calls_in p (trim limit ms) ≡ calls_in p ms
calls_in-trim p limit ms =
    let (n, (e, fit, least)) = trim_oldest limit ms in rw e (calls_in-drop_oldest p n ms)

count_if-drop_oldest :
    (p : ChatMessage → Bool)
    → ((m : ChatMessage) → p (drop_result m) ≡ p m)
    → (n : ℕ) (ms : List ChatMessage) → count_if p (drop_oldest n ms) ≡ count_if p ms
unfolding count_if
count_if-drop_oldest p same zero ms = refl
count_if-drop_oldest p same (suc n) [] = refl
count_if-drop_oldest p same (suc n) (m ∷ ms) = rw (same m, count_if-drop_oldest p same n ms) refl

pub count_if-trim :
    (p : ChatMessage → Bool)
    → ((m : ChatMessage) → p (drop_result m) ≡ p m)
    → (limit : ℕ) (ms : List ChatMessage) → count_if p (trim limit ms) ≡ count_if p ms
count_if-trim p same limit ms =
    let (n, (e, fit, least)) = trim_oldest limit ms in rw e (count_if-drop_oldest p same n ms)

pub same_assistant : (m : ChatMessage) → is_assistant (drop_result m) ≡ is_assistant m
same_assistant (system t) = refl
same_assistant (user t) = refl
same_assistant (assistant t cs) = refl
same_assistant (tool id t) = refl

pub same_result : (m : ChatMessage) → is_result (drop_result m) ≡ is_result m
same_result (system t) = refl
same_result (user t) = refl
same_result (assistant t cs) = refl
same_result (tool id t) = refl

pub same_user : (m : ChatMessage) → is_user (drop_result m) ≡ is_user m
same_user (system t) = refl
same_user (user t) = refl
same_user (assistant t cs) = refl
same_user (tool id t) = refl
