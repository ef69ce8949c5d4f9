-- ===== src/Eval/Sample.antt =====
-- `sample` of server/src/answer-eval/eval.ts.
use native.Mathlib.Nat.{
  div-mul-le_self, lt-div-mul-add, le-div_iff_mul-le, div-lt_iff_lt-mul, mul-lt-mul_of_pos_right,
}
use mcp_zeromem.Common.{
  ℕ, zero, suc, ◌+◌, ◌*◌, ◌/◌, ◌≤◌, ◌<◌, List, [], ◌∷◌, map, ◌≡◌, refl, some, leb, false, length,
  arith, get_elem?,
}
use mcp_zeromem.Eval.{picks, sample}

-- Indices of a list of n elements, each after the one before and none below lo; and the k-th of them, from i on, is where
-- the k-th of `limit` equal parts of the list begins.
abbrev pub IsSpread : ℕ → ℕ → ℕ → ℕ → List ℕ → Type 0
IsSpread limit n lo i [] = i ≡ limit
IsSpread limit n lo i (x ∷ xs) =
    (lo ≤ x)
    × (x < n)
    × (x * limit ≤ i * n)
    × (i * n < x * limit + limit)
    × IsSpread limit n (x + 1) (i + 1) xs

next_part : (i n limit : ℕ) → 0 < limit → limit ≤ n → i * n / limit + 1 ≤ (i + 1) * n / limit
next_part i n limit pos h =
    let low : i * n / limit * limit ≤ i * n = div-mul-le_self (i * n) limit in
    (le-div_iff_mul-le pos).1 (omega arith)

in_range : (i n limit : ℕ) → i < limit → 0 < n → i * n / limit < n
in_range i n limit h pos =
    let below : i * n < limit * n = mul-lt-mul_of_pos_right h pos in
    (div-lt_iff_lt-mul (omega arith)).1 (omega arith)

picks-IsSpread :
    (left i n limit lo : ℕ)
    → i + left ≡ limit
    → limit ≤ n
    → lo ≤ i * n / limit
    → IsSpread limit n lo i (picks left i n limit)
unfolding picks
picks-IsSpread zero i n limit lo e h l = omega arith
picks-IsSpread (suc left) i n limit lo e h l =
    let low : i * n / limit * limit ≤ i * n = div-mul-le_self (i * n) limit in
    let pos : 0 < limit = omega arith in
    let high : i * n < i * n / limit * limit + limit = lt-div-mul-add pos in
    (
      l,
      in_range i n limit (omega arith) (omega arith),
      low,
      high,
      picks-IsSpread left (i + 1) n limit (i * n / limit + 1) (omega arith) h
          (next_part i n limit pos h),
    )

length-picks : (left i n limit : ℕ) → length (picks left i n limit) ≡ left
unfolding picks
length-picks zero i n limit = refl
length-picks (suc left) i n limit = omega (arith, length-picks left (i + 1) n limit)

too_few : (n limit : ℕ) → limit < n → leb n limit ≡ false
too_few n limit h = ground arith

-- A sample of fewer than all the items is that many of them, each at an index inside the list and after the one before, and
-- the k-th where the k-th of as many equal parts of the list begins.
pub sample-IsSpread {ℓ} :
    {A : Type ℓ} (items : List A) (limit : ℕ)
    → limit < length items
    → (is : List ℕ) × (sample items (some limit) ≡ map (get_elem? items) is)
      × (length is ≡ limit)
      × IsSpread limit (length items) 0 0 is
unfolding sample
sample-IsSpread items limit h = (
  picks limit 0 (length items) limit,
  rw (too_few (length items) limit h) refl,
  length-picks limit 0 (length items) limit,
  picks-IsSpread limit 0 (length items) limit 0 (omega arith) (omega arith) (omega arith),
)
