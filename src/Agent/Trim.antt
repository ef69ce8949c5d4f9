-- ===== src/Agent/Trim.antt =====
-- What `trim` of server/src/curator-agent/agent.ts drops, and when it stops.
use mathlib.Core.Path.{subst, fun_ext}
use mcp_zeromem.Common.{
  All, ℕ, zero, suc, ◌+◌, ◌-◌, ◌≤◌, ◌<◌, List, [], ◌∷◌, length, leb, ◌≡◌, refl, sym, ◌⊎◌, inl, inr,
  Bool-cases, false, arith, ap,
}
use mcp_zeromem.Common.Units.{Units, units_equal_sound}
use mcp_zeromem.Agent.{
  ChatMessage, system, user, assistant, tool, size, total_size, dropped, trim, trim_from, drops,
}

-- The message with its text dropped if it is a tool's result.
abbrev pub drop_result : ChatMessage → ChatMessage
drop_result (tool id t) = tool id dropped
drop_result m = m

-- The conversation with the tool results among its first n messages dropped.
abbrev pub drop_oldest : ℕ → List ChatMessage → List ChatMessage
drop_oldest zero ms = ms
drop_oldest (suc n) [] = []
drop_oldest (suc n) (m ∷ ms) = drop_result m ∷ drop_oldest n ms

nil-trim_from : (total limit : ℕ) → trim_from total limit [] ≡ []
unfolding trim_from
nil-trim_from total limit = refl

drops-leb : (total limit : ℕ) (t : Units) → total ≤ limit → drops total limit t ≡ false
unfolding drops
drops-leb total limit t h = ground arith

drops-false :
    (total limit : ℕ) (t : Units) → limit < total → drops total limit t ≡ false → t ≡ dropped
unfolding drops
drops-false total limit t h e = units_equal_sound t dropped (ground arith)

fitting-trim_from :
    (total limit : ℕ) (ms : List ChatMessage) → total ≤ limit → trim_from total limit ms ≡ ms
unfolding trim_from
fitting-trim_from total limit [] h = refl
fitting-trim_from total limit (system t ∷ ms) h =
    ap (λ r. system t ∷ r) (fitting-trim_from total limit ms h)
fitting-trim_from total limit (user t ∷ ms) h =
    ap (λ r. user t ∷ r) (fitting-trim_from total limit ms h)
fitting-trim_from total limit (assistant t cs ∷ ms) h =
    ap (λ r. assistant t cs ∷ r) (fitting-trim_from total limit ms h)
fitting-trim_from total limit (tool id t ∷ ms) h =
    rw (drops-leb total limit t h, fitting-trim_from total limit ms h)

assoc : (a b c : ℕ) → a + (b + c) ≡ a + b + c
assoc a b c = omega arith

shorter : (a b c d : ℕ) → a + (b + c) + d - b ≡ a + d + c
shorter a b c d = omega arith

-- One message of a conversation that does not fit yet.
step-trim_from :
    (a limit : ℕ) (m : ChatMessage) (ms : List ChatMessage)
    → limit < a + (size m + total_size ms)
    → trim_from (a + (size m + total_size ms)) limit (m ∷ ms)
      ≡ drop_result m ∷ trim_from (a + size (drop_result m) + total_size ms) limit ms
unfolding trim_from
step-trim_from a limit (system t) ms h = rw (assoc a (length t) (total_size ms))
step-trim_from a limit (user t) ms h = rw (assoc a (length t) (total_size ms))
step-trim_from a limit (assistant t cs) ms h =
    ap (λ n. assistant t cs ∷ trim_from n limit ms)
      (assoc a (size (assistant t cs)) (total_size ms))
step-trim_from a limit (tool id t) ms h =
    elim (Bool-cases (drops (a + (length t + total_size ms)) limit t)) [
      | inl e ↦ rw (e, shorter a (length t) (total_size ms) (length dropped))
      | inr e ↦ rw (
        e,
        drops-false (a + (length t + total_size ms)) limit t h e,
        assoc a (length dropped) (total_size ms),
      )
    ]

-- Dropping the results among the first n messages is what makes the conversation fit, or n is all
-- of them; with fewer it is too long.
abbrev Oldest : (ℕ → ℕ) → ℕ → List ChatMessage → List ChatMessage → ℕ → Type 0
Oldest f limit ms ms' n =
    (ms' ≡ drop_oldest n ms)
    × ((f (total_size ms') ≤ limit) ⊎ (n ≡ length ms))
    × ((k : ℕ) → k < n → limit < f (total_size (drop_oldest k ms)))

least_cons :
    (a limit : ℕ) (m : ChatMessage) (ms : List ChatMessage) (n : ℕ)
    → limit < a + (size m + total_size ms)
    → ((k : ℕ) → k < n → limit < a + size (drop_result m) + total_size (drop_oldest k ms))
    → (k : ℕ) → k < suc n
    → limit < a + total_size (drop_oldest k (m ∷ ms))
least_cons a limit m ms n h least zero lt = h
least_cons a limit m ms n h least (suc k) lt =
    let below : k < n = omega arith in let rest = least k below in omega arith

Oldest-cons :
    (a limit : ℕ) (m : ChatMessage) (ms ms' : List ChatMessage) (n : ℕ)
    → limit < a + (size m + total_size ms)
    → Oldest (λ j. a + size (drop_result m) + j) limit ms ms' n
    → Oldest (λ j. a + j) limit (m ∷ ms) (drop_result m ∷ ms') (suc n)
Oldest-cons a limit m ms ms' n h (e, fit, least) = (
  ap (λ r. drop_result m ∷ r) e,
  elim fit [ inl f ↦ inl (omega arith) | inr l ↦ inr (omega arith) ],
  least_cons a limit m ms n h least,
)

too_long : (a b : ℕ) → (a < b) ⊎ (b ≤ a)
too_long a b = elim (Bool-cases (leb b a)) [
  | inl e ↦ inr (ground arith)
  | inr e ↦ inl (ground arith)
]

trim_from-Oldest :
    (a limit : ℕ) (ms : List ChatMessage)
    → (n : ℕ) × Oldest (λ j. a + j) limit ms (trim_from (a + total_size ms) limit ms) n
trim_from-Oldest a limit [] =
    (0, (nil-trim_from (a + 0) limit, inr refl, λ k lt. absurd (omega arith)))
trim_from-Oldest a limit (m ∷ ms) = elim (too_long limit (a + total_size (m ∷ ms))) [
  | inl h ↦
      let (n, rest) = trim_from-Oldest (a + size (drop_result m)) limit ms in
      (
        suc n,
        subst (λ r. Oldest (λ j. a + j) limit (m ∷ ms) r (suc n))
            (sym (step-trim_from a limit m ms h)) (Oldest-cons a limit m ms _ n h rest),
      )
  | inr h ↦ (
    0,
    (
      fitting-trim_from _ limit (m ∷ ms) h,
      inl (subst (λ r. a + total_size r ≤ limit) (sym (fitting-trim_from _ limit (m ∷ ms) h)) h),
      λ k lt. absurd (omega arith),
    ),
  )
]

zero_add : (n : ℕ) → 0 + n ≡ n
zero_add n = omega arith

-- `n - 1`, …, 0
abbrev pub below : ℕ → List ℕ
below zero = []
below (suc n) = n ∷ below n

All-below : (P : ℕ → Type 0) (n : ℕ) → ((k : ℕ) → k < n → P k) → All P (below n)
All-below P zero f = tt
All-below P (suc n) f = (f n (omega arith), All-below P n (λ k h. f k (omega arith)))

-- For every conversation and limit there is a number n of its oldest messages such that trimming drops exactly the
-- texts of the tool results among them and changes nothing else; the conversation then fits, or n is all of its
-- messages; and with any fewer messages it would still be too long.
pub trim_oldest :
    (limit : ℕ) (ms : List ChatMessage)
    → (n : ℕ) × ((trim limit ms ≡ drop_oldest n ms)
        × ((total_size (trim limit ms) ≤ limit) ⊎ (n ≡ length ms))
        × All (λ k. limit < total_size (drop_oldest k ms)) (below n))
unfolding trim
trim_oldest limit ms =
    let (n, (e, fit, least)) =
      subst (λ f. (n : ℕ) × Oldest f limit ms (trim_from (f (total_size ms)) limit ms) n)
        (fun_ext zero_add) (trim_from-Oldest 0 limit ms) in
    (n, (e, fit, All-below (λ k. limit < total_size (drop_oldest k ms)) n least))
