-- ===== src/Eval/Summary.antt =====
-- `summarise` of server/src/answer-eval/eval.ts.
use mcp_zeromem.Common.{
  ℕ, suc, ◌+◌, List, [], ◌∷◌, ◌≡◌, refl, Option, none, some, Bool, true, false, sym, length, arith,
  if◌then◌else◌,
}
use mcp_zeromem.Common.Sort.{count_if}
use mcp_zeromem.Eval.{
  Ask, current, history, as_of, abstain, Verdict, correct, wrong, abstained, unjudged, error,
  QuestionResult, AskSummary, count, of_ask, entry_of, summary_of, summarise, same_verdict,
  same_ask,
}

-- What the entry counts, nothing where there is none.
abbrev pub or_nothing : (AskSummary → ℕ) → Option AskSummary → ℕ
or_nothing f none = 0
or_nothing f (some s) = f s

abbrev pub is_correct : Verdict → Bool
is_correct correct = true
is_correct _ = false

abbrev pub is_wrong : Verdict → Bool
is_wrong wrong = true
is_wrong _ = false

abbrev pub is_abstained : Verdict → Bool
is_abstained abstained = true
is_abstained _ = false

abbrev pub is_unjudged : Verdict → Bool
is_unjudged unjudged = true
is_unjudged _ = false

abbrev pub is_error : Verdict → Bool
is_error error = true
is_error _ = false

-- How many results have a verdict that passes the test.
abbrev pub judged : (Verdict → Bool) → List QuestionResult → ℕ
judged p rs = count_if (λ (r : QuestionResult). p r.verdict) rs

-- One result falls under one verdict.
one_verdict :
    (v : Verdict) (a b c d e : ℕ)
    → (if is_correct v then suc a else a)
        + (if is_wrong v then suc b else b)
        + (if is_abstained v then suc c else c)
        + (if is_unjudged v then suc d else d)
        + (if is_error v then suc e else e)
      ≡ suc (a + b + c + d + e)
one_verdict correct a b c d e = omega arith
one_verdict wrong a b c d e = omega arith
one_verdict abstained a b c d e = omega arith
one_verdict unjudged a b c d e = omega arith
one_verdict error a b c d e = omega arith

judged_all :
    (rs : List QuestionResult)
    → judged is_correct rs
        + judged is_wrong rs
        + judged is_abstained rs
        + judged is_unjudged rs
        + judged is_error rs
      ≡ length rs
unfolding count_if
judged_all [] = refl
judged_all (r ∷ rs) = omega (
  arith,
  judged_all rs,
  one_verdict r.verdict (judged is_correct rs) (judged is_wrong rs) (judged is_abstained rs)
      (judged is_unjudged rs) (judged is_error rs),
)

count-judged :
    (v : Verdict) (p : Verdict → Bool)
    → ((w : Verdict) → same_verdict v w ≡ p w)
    → (rs : List QuestionResult) → count v rs ≡ judged p rs
unfolding count_if
count-judged v p same [] = refl
count-judged v p same (r ∷ rs) = rw (same r.verdict, count-judged v p same rs) refl

wrong_test : (w : Verdict) → same_verdict wrong w ≡ is_wrong w
wrong_test correct = refl
wrong_test wrong = refl
wrong_test abstained = refl
wrong_test unjudged = refl
wrong_test error = refl

abstained_test : (w : Verdict) → same_verdict abstained w ≡ is_abstained w
abstained_test correct = refl
abstained_test wrong = refl
abstained_test abstained = refl
abstained_test unjudged = refl
abstained_test error = refl

unjudged_test : (w : Verdict) → same_verdict unjudged w ≡ is_unjudged w
unjudged_test correct = refl
unjudged_test wrong = refl
unjudged_test abstained = refl
unjudged_test unjudged = refl
unjudged_test error = refl

error_test : (w : Verdict) → same_verdict error w ≡ is_error w
error_test correct = refl
error_test wrong = refl
error_test abstained = refl
error_test unjudged = refl
error_test error = refl

asks_partition :
    (p : QuestionResult → Bool) (rs : List QuestionResult)
    → count_if p (of_ask current rs)
        + count_if p (of_ask history rs)
        + count_if p (of_ask as_of rs)
        + count_if p (of_ask abstain rs)
      ≡ count_if p rs
unfolding count_if
asks_partition p [] = refl
asks_partition p (r ∷ rs) =
    one_ask p r r.ask (of_ask current rs) (of_ask history rs) (of_ask as_of rs) (of_ask abstain rs)
      (asks_partition p rs)
  where
    one_ask :
        (p : QuestionResult → Bool) (r : QuestionResult) (a : Ask)
        (xs ys zs ws : List QuestionResult) {n : ℕ}
        → count_if p xs + count_if p ys + count_if p zs + count_if p ws ≡ n
        → count_if p (if same_ask a current then r ∷ xs else xs)
            + count_if p (if same_ask a history then r ∷ ys else ys)
            + count_if p (if same_ask a as_of then r ∷ zs else zs)
            + count_if p (if same_ask a abstain then r ∷ ws else ws)
          ≡ (if p r then suc n else n)
    one_ask p r current xs ys zs ws e = ground arith
    one_ask p r history xs ys zs ws e = ground arith
    one_ask p r as_of xs ys zs ws e = ground arith
    one_ask p r abstain xs ys zs ws e = ground arith

count_true : (rs : List QuestionResult) → count_if (λ r. true) rs ≡ length rs
unfolding count_if
count_true [] = refl
count_true (r ∷ rs) = omega (arith, count_true rs)

-- The number that the entry of one ask holds, over the asks.
abbrev pub over_asks : (AskSummary → ℕ) → List QuestionResult → ℕ
over_asks f rs =
    or_nothing f (summarise rs (some current))
    + or_nothing f (summarise rs (some history))
    + or_nothing f (summarise rs (some as_of))
    + or_nothing f (summarise rs (some abstain))

-- The field of the entry of all results is the number of those that pass the test, and the entries of the asks divide it.
abbrev pub Counts : (AskSummary → ℕ) → (QuestionResult → Bool) → List QuestionResult → Type 0
Counts f p rs =
    (or_nothing f (summarise rs none) ≡ count_if p rs)
    × (over_asks f rs ≡ or_nothing f (summarise rs none))

entry-Counts :
    (f : AskSummary → ℕ) (p : QuestionResult → Bool)
    → ((rs : List QuestionResult) → or_nothing f (entry_of rs) ≡ count_if p rs)
    → (rs : List QuestionResult) → Counts f p rs
unfolding summarise
entry-Counts f p e rs = (
  e rs,
  omega (
    arith,
    e rs,
    asks_partition p rs,
    e (of_ask current rs),
    e (of_ask history rs),
    e (of_ask as_of rs),
    e (of_ask abstain rs),
  ),
)

entry-questions :
    (rs : List QuestionResult)
    → or_nothing (λ s. s.questions) (entry_of rs) ≡ count_if (λ r. true) rs
unfolding summary_of count_if
entry-questions [] = refl
entry-questions (r ∷ rs) = sym (count_true (r ∷ rs))

entry-right :
    (rs : List QuestionResult)
    → or_nothing (λ s. s.right) (entry_of rs) ≡ count_if (λ (r : QuestionResult). r.right) rs
unfolding summary_of count_if
entry-right [] = refl
entry-right (r ∷ rs) = refl

entry-wrong :
    (rs : List QuestionResult) → or_nothing (λ s. s.wrong) (entry_of rs) ≡ judged is_wrong rs
unfolding summary_of count_if
entry-wrong [] = refl
entry-wrong (r ∷ rs) = count-judged wrong is_wrong wrong_test (r ∷ rs)

entry-abstained :
    (rs : List QuestionResult)
    → or_nothing (λ s. s.abstained) (entry_of rs) ≡ judged is_abstained rs
unfolding summary_of count_if
entry-abstained [] = refl
entry-abstained (r ∷ rs) = count-judged abstained is_abstained abstained_test (r ∷ rs)

entry-unjudged :
    (rs : List QuestionResult) → or_nothing (λ s. s.unjudged) (entry_of rs) ≡ judged is_unjudged rs
unfolding summary_of count_if
entry-unjudged [] = refl
entry-unjudged (r ∷ rs) = count-judged unjudged is_unjudged unjudged_test (r ∷ rs)

entry-errors :
    (rs : List QuestionResult) → or_nothing (λ s. s.errors) (entry_of rs) ≡ judged is_error rs
unfolding summary_of count_if
entry-errors [] = refl
entry-errors (r ∷ rs) = count-judged error is_error error_test (r ∷ rs)

-- Among all questions, the entry's wrong, abstained, unjudged and errors are the numbers of the results with
-- that verdict, which with the correct ones are as many as its questions; its right are the results that are
-- right; and the entries of the asks divide each of these numbers among them.
pub summarise_partition :
    (rs : List QuestionResult)
    → (judged is_correct rs
          + or_nothing (λ s. s.wrong) (summarise rs none)
          + or_nothing (λ s. s.abstained) (summarise rs none)
          + or_nothing (λ s. s.unjudged) (summarise rs none)
          + or_nothing (λ s. s.errors) (summarise rs none)
        ≡ or_nothing (λ s. s.questions) (summarise rs none))
      × Counts (λ s. s.questions) (λ r. true) rs
      × Counts (λ s. s.right) (λ r. r.right) rs
      × Counts (λ s. s.wrong) (λ r. is_wrong r.verdict) rs
      × Counts (λ s. s.abstained) (λ r. is_abstained r.verdict) rs
      × Counts (λ s. s.unjudged) (λ r. is_unjudged r.verdict) rs
      × Counts (λ s. s.errors) (λ r. is_error r.verdict) rs
unfolding summarise
summarise_partition rs = (
  omega (
    arith,
    judged_all rs,
    count_true rs,
    entry-questions rs,
    entry-wrong rs,
    entry-abstained rs,
    entry-unjudged rs,
    entry-errors rs,
  ),
  entry-Counts _ _ entry-questions rs,
  entry-Counts _ _ entry-right rs,
  entry-Counts _ _ entry-wrong rs,
  entry-Counts _ _ entry-abstained rs,
  entry-Counts _ _ entry-unjudged rs,
  entry-Counts _ _ entry-errors rs,
)
