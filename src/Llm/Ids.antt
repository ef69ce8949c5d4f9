-- ===== src/Llm/Ids.antt =====
-- The ids that a model's calls are given where its server gives none (server/src/curator-agent/llm.ts).
use Prim.Native.Char.{code}
use Prim.Native.String
use text.Mathlib.TextLemmas.{append_cancel_left}
use mcp_zeromem.Common.{
  ℕ, zero, suc, ◌+◌, ◌-◌, ◌*◌, ◌/◌, ◌%◌, ◌<◌, String, ◌≡◌, ◌≢◌, refl, sym, ap, ◌∙◌, none, some,
  or_else, List, [], ◌∷◌, get_elem?, ltb, arith, Bool-cases, inl, inr,
}
use mcp_zeromem.Common.Units.{Units}
use mcp_zeromem.Recall.Text.{digit, show_from, show}
use mcp_zeromem.Agent.{ToolCall}
use mcp_zeromem.Llm.{RawCall, read_call, read_calls}

digit-code : (d : ℕ) → d < 10 → code (digit d) ≡ d + 48
digit-code zero h = refl
digit-code (suc zero) h = refl
digit-code (suc (suc zero)) h = refl
digit-code (suc (suc (suc zero))) h = refl
digit-code (suc (suc (suc (suc zero)))) h = refl
digit-code (suc (suc (suc (suc (suc zero))))) h = refl
digit-code (suc (suc (suc (suc (suc (suc zero)))))) h = refl
digit-code (suc (suc (suc (suc (suc (suc (suc zero))))))) h = refl
digit-code (suc (suc (suc (suc (suc (suc (suc (suc zero)))))))) h = refl
digit-code (suc (suc (suc (suc (suc (suc (suc (suc (suc zero))))))))) h = refl
digit-code (suc (suc (suc (suc (suc (suc (suc (suc (suc (suc n)))))))))) h = absurd (omega arith)

-- The number that a text of digits stands for, after the digits of `v`.
abbrev value_from : ℕ → String → ℕ
value_from v String.[] = v
value_from v (String.◌∷◌ c s) = value_from (v * 10 + (code c - 48)) s

show_from_value :
    (fuel n : ℕ) (acc : String) → n < fuel → value_from 0 (show_from fuel n acc) ≡ value_from n acc
unfolding show_from
show_from_value zero n acc h = absurd (omega arith)
show_from_value (suc fuel) n acc h = elim (Bool-cases (ltb n 10)) [
  | inl small ↦
      let below : n < 10 = ground arith in
      let same : 0 * 10 + (code (digit n) - 48) ≡ n = omega (arith, digit-code n below) in
      rw small (ap (λ v. value_from v acc) same)
  | inr large ↦
      let smaller : n / 10 < fuel = ground arith in
      let below : n % 10 < 10 = omega arith in
      let same : n / 10 * 10 + (code (digit (n % 10)) - 48) ≡ n =
        omega (arith, digit-code (n % 10) below) in
      rw large (
        show_from_value fuel (n / 10) (String.◌∷◌ (digit (n % 10)) acc) smaller
        ∙ ap (λ v. value_from v acc) same)
]

show-value : (n : ℕ) → value_from 0 (show n) ≡ n
unfolding show
show-value n = show_from_value (n + 1) n "" (omega arith)

pub show_injective : (m n : ℕ) → show m ≡ show n → m ≡ n
show_injective m n h = sym (show-value m) ∙ ap (value_from 0) h ∙ show-value n

module _ {J : Type 0} (stringify : J → Units) where
  read_calls-get :
      (k i : ℕ) (raw : List (RawCall J)) (a : RawCall J)
      → get_elem? raw i ≡ some a
      → get_elem? (read_calls stringify k raw) i ≡ some (read_call stringify (k + i) a)
  unfolding read_calls
  read_calls-get k i [] a h = absurd (cc)
  read_calls-get k zero (c ∷ cs) a h =
      let same : c ≡ a = ap (λ o. or_else o a) h in
      let place : k ≡ k + 0 = omega arith in
      ap some (ap (λ n. read_call stringify n c) place ∙ ap (read_call stringify (k + 0)) same)
  read_calls-get k (suc i) (c ∷ cs) a h =
      let place : k + 1 + i ≡ k + suc i = omega arith in
      read_calls-get (k + 1) i cs a h ∙ ap (λ n. some (read_call stringify n a)) place

  default_id :
      (raw : List (RawCall J)) (i : ℕ) (a : RawCall J) (x : ToolCall)
      → get_elem? raw i ≡ some a
      → a.id ≡ none
      → get_elem? (read_calls stringify 0 raw) i ≡ some x
      → x.id ≡ String.◌++◌ "call_" (show i)
  unfolding read_call
  default_id raw i a x h n e =
      let read_back : some x ≡ some (read_call stringify (0 + i) a) =
        sym e ∙ read_calls-get 0 i raw a h in
      let place : 0 + i ≡ i = omega arith in
      ap (λ o. (or_else o x).id) read_back
      ∙ ap (λ o. or_else o (String.◌++◌ "call_" (show (0 + i)))) n
      ∙ ap (λ m. String.◌++◌ "call_" (show m)) place

  -- Two calls of one reply, at different places, to which the model's server has given no id, have different ids in
  -- what is read of the reply.
  pub default_ids_distinct :
      (raw : List (RawCall J)) (i j : ℕ) (a b : RawCall J) (x y : ToolCall)
      → i ≢ j
      → get_elem? raw i ≡ some a
      → get_elem? raw j ≡ some b
      → a.id ≡ none
      → b.id ≡ none
      → get_elem? (read_calls stringify 0 raw) i ≡ some x
      → get_elem? (read_calls stringify 0 raw) j ≡ some y
      → x.id ≢ y.id
  default_ids_distinct raw i j a b x y n ha hb na nb hx hy same = n (
      show_injective i j (
        append_cancel_left "call_" (show i) (show j)
          (sym (default_id raw i a x ha na hx) ∙ same ∙ default_id raw j b y hb nb hy)))
