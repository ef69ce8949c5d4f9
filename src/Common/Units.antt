-- ===== src/Common/Units.antt =====
-- Texts as lists of UTF-16 code units, for code that counts and cuts by `length` and `slice`.
use Prim.Native.Char.{code}
use mcp_zeromem.Common.{
  ℕ, zero, suc, ◌+◌, ◌-◌, ◌*◌, ◌/◌, ◌%◌, ◌<◌, String, Bool, true, false, ◌&&◌, List, [], ◌∷◌, ◌≡◌,
  refl, ap, arith, ltb, ◌==◌, Bool-cases, inl, inr, ◌∙◌, if◌then◌else◌,
}

abbrev pub Units : Type 0
Units = List ℕ

-- The code units of a text whose characters all fit in one unit, as those of the program do.
abbrev pub units : String → Units
units String.[] = []
units (String.◌∷◌ c s) = code c ∷ units s

unfoldable pub units_equal : Units → Units → Bool
units_equal [] [] = true
units_equal (x ∷ xs) (y ∷ ys) = x == y && units_equal xs ys
units_equal _ _ = false

pub units_equal_sound : (xs ys : Units) → units_equal xs ys ≡ true → xs ≡ ys
unfolding units_equal
units_equal_sound [] [] h = refl
units_equal_sound [] (y ∷ ys) h = cc
units_equal_sound (x ∷ xs) [] h = cc
units_equal_sound (x ∷ xs) (y ∷ ys) h = ground (arith, units_equal_sound xs ys)

-- `String(n)`, on fuel; `n + 1` is enough.
unfoldable pub digits_from : ℕ → ℕ → Units → Units
digits_from zero n acc = acc
digits_from (suc fuel) n acc =
    let rest = digits_from fuel (n / 10) ((b'0' + n % 10) ∷ acc) in
    if ltb n 10 then (b'0' + n) ∷ acc else rest

unfoldable pub decimal : ℕ → Units
unfolding digits_from
decimal n = digits_from (n + 1) n []

abbrev pub number_from : ℕ → Units → ℕ
number_from v [] = v
number_from v (d ∷ ds) = number_from (v * 10 + (d - b'0')) ds

digits_from_number :
    (fuel n : ℕ) (acc : Units)
    → n < fuel
    → number_from 0 (digits_from fuel n acc) ≡ number_from n acc
unfolding digits_from
digits_from_number zero n acc h = absurd (omega arith)
digits_from_number (suc fuel) n acc h = elim (Bool-cases (ltb n 10)) [
  | inl small ↦
      let same : 0 * 10 + (b'0' + n - b'0') ≡ n = omega arith in
      rw small (ap (λ v. number_from v acc) same)
  | inr large ↦
      let smaller : n / 10 < fuel = ground arith in
      let same : n / 10 * 10 + (b'0' + n % 10 - b'0') ≡ n = omega arith in
      rw large (
        digits_from_number fuel (n / 10) ((b'0' + n % 10) ∷ acc) smaller
        ∙ ap (λ v. number_from v acc) same)
]

-- The decimal digits of a number read back as that number.
pub number_from-decimal : (n : ℕ) → number_from 0 (decimal n) ≡ n
unfolding decimal
number_from-decimal n = digits_from_number (n + 1) n [] (omega arith)
