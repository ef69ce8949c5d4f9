-- ===== src/Errors/Chain.antt =====
-- What `errorChainMessage` of server/src/errors.ts collects, and when it returns.
use text.Mathlib.Text.{starts_with}
use text.Mathlib.TextLemmas
use text.Mathlib.TextPositions.{starts_with_of_prefix}
use mcp_zeromem.Common.{
  ℕ, zero, suc, ◌+◌, ◌≤◌, ◌<◌, String, true, false, Option, none, some, List, [], ◌∷◌, ◌++◌, any,
  leb, length, ◌≡◌, refl, All, arith, if_cases, Bool-cases, inl, inr,
}
use mcp_zeromem.Errors.{includes, add_part, parts_from}

-- No part is quoted by an earlier one.
abbrev pub IsFresh : List String → Type 0
IsFresh [] = Unit
IsFresh (p ∷ ps) = All (λ q. includes p q ≡ false) ps × IsFresh ps

snoc-All :
    (P : String → Type 0) (ps : List String) (m : String) → All P ps → P m → All P (ps ++ m ∷ [])
snoc-All P [] m a h = (h, tt)
snoc-All P (p ∷ ps) m (k, a) h = (k, snoc-All P ps m a h)

snoc-IsFresh :
    (ps : List String) (m : String)
    → any (λ part. includes part m) ps ≡ false
    → IsFresh ps
    → IsFresh (ps ++ m ∷ [])
snoc-IsFresh [] m n f = (tt, tt)
snoc-IsFresh (p ∷ ps) m n (a, f) =
    (snoc-All (λ q. includes p q ≡ false) ps m a (ground arith), snoc-IsFresh ps m (ground arith) f)

length-snoc : (ps : List String) (m : String) → length (ps ++ m ∷ []) ≡ length ps + 1
length-snoc [] m = refl
length-snoc (p ∷ ps) m = omega (arith, length-snoc ps m)

starts_self : (s : String) → starts_with s s ≡ true
starts_self s = starts_with_of_prefix s s (String.[], TextLemmas.append-nil s)

includes_self : (s : String) → includes s s ≡ true
unfolding includes
includes_self String.[] = starts_self ""
includes_self (String.◌∷◌ c s) = rw (starts_self (String.◌∷◌ c s)) refl

module _ (message : ℕ → String) (cause : ℕ → Option ℕ) where
  abbrev IsGood : List String → Type 0
  IsGood ps = (length ps ≤ 5) × IsFresh ps

  add_part-IsGood :
      (ps : List String) (m : String)
      → length ps < 5
      → IsFresh ps
      → IsGood (add_part message cause ps m)
  unfolding add_part
  add_part-IsGood ps m n f =
      if_cases IsGood (any (λ part. includes part m) ps) ps (ps ++ m ∷ []) (λ e. (omega arith, f))
        (λ e. (omega (arith, length-snoc ps m), snoc-IsFresh ps m e f))

  -- A measure that every cause lowers: the chain of causes has an end.
  abbrev pub IsMeasure : (ℕ → ℕ) → Type 0
  IsMeasure rank = (e e' : ℕ) → cause e ≡ some e' → rank e' < rank e

  abbrev Below : (ℕ → ℕ) → ℕ → Option ℕ → Type 0
  Below rank fuel none = 0 < fuel
  Below rank fuel (some e) = rank e + 1 < fuel

  Below-cause :
      (rank : ℕ → ℕ) (e fuel : ℕ) (o : Option ℕ)
      → IsMeasure rank
      → cause e ≡ o
      → rank e < fuel
      → Below rank fuel o
  Below-cause rank e fuel none k q n = omega arith
  Below-cause rank e fuel (some e') k q n = let less = k e e' q in omega arith

  parts_from-IsGood :
      (rank : ℕ → ℕ)
      → IsMeasure rank
      → (fuel : ℕ) (current : Option ℕ) (ps : List String) → Below rank fuel current
      → IsGood ps
      → (qs : List String) × (parts_from message cause fuel current ps ≡ some qs) × IsGood qs
  unfolding parts_from
  parts_from-IsGood rank k zero none ps b g = absurd (omega arith)
  parts_from-IsGood rank k zero (some e) ps b g = absurd (omega arith)
  parts_from-IsGood rank k (suc fuel) none ps b g = (ps, refl, g)
  parts_from-IsGood rank k (suc fuel) (some e) ps b (l, f) = elim (Bool-cases (leb 5 (length ps))) [
    | inl full ↦ (ps, rw full refl, (l, f))
    | inr more ↦
        let shorter : length ps < 5 = ground arith in
        let (qs, q, g) =
          parts_from-IsGood rank k fuel (cause e) (add_part message cause ps (message e))
            (Below-cause rank e fuel (cause e) k refl (omega arith))
            (add_part-IsGood ps (message e) shorter f) in
        (qs, rw more q, g)
  ]

  -- Where the chain of causes has an end, the loop returns at most five messages, none of which is quoted by an earlier
  -- one; two turns more than the measure of the error are enough.
  pub chain_ends :
      (rank : ℕ → ℕ)
      → IsMeasure rank
      → (err : ℕ)
      → (parts : List String) × (parts_from message cause (rank err + 2) (some err) [] ≡ some parts)
        × (length parts ≤ 5)
        × IsFresh parts
  chain_ends rank k err =
      let (qs, q, (l, f)) =
        parts_from-IsGood rank k (rank err + 2) (some err) [] (omega arith) (omega arith, tt) in
      (qs, q, l, f)

  stuck-parts_from :
      (err fuel : ℕ) (ps : List String)
      → cause err ≡ some err
      → add_part message cause ps (message err) ≡ ps
      → length ps < 5
      → parts_from message cause fuel (some err) ps ≡ none
  unfolding parts_from
  stuck-parts_from err zero ps c a n = refl
  stuck-parts_from err (suc fuel) ps c a n =
      let open_ : leb 5 (length ps) ≡ false = ground arith in
      rw (open_, c, a) (stuck-parts_from err fuel ps c a n)

  -- An error that is its own cause keeps the loop going for ever: no number of turns is enough.
  pub self_cause_stuck :
      (err : ℕ)
      → cause err ≡ some err
      → (fuel : ℕ) → parts_from message cause fuel (some err) [] ≡ none
  unfolding parts_from add_part
  self_cause_stuck err c zero = refl
  self_cause_stuck err c (suc fuel) = rw c (
      stuck-parts_from err fuel (message err ∷ []) c (rw (includes_self (message err)) refl)
        (omega arith))
