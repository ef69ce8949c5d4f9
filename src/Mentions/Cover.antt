-- ===== src/Mentions/Cover.antt =====
-- The spans of a text make up the text: app/src/lib/mentions.ts.
use mcp_zeromem.Common.{
  ℕ, zero, suc, ◌+◌, ◌-◌, ◌≤◌, ◌<◌, min, ◌||◌, Option, none, some, List, [], ◌∷◌, ◌++◌, ◌≡◌, refl,
  sym, ap, ◌∙◌, arith, ltb, leb, length, take, drop, if_cases, All, All-append, length-take,
}
use mcp_zeromem.Mentions.{Mention, Span, subarray, gap, walk, sort_mentions, split_bytes}

abbrev pub joined : List Span → List ℕ
joined [] = []
joined (s ∷ ss) = s.bytes ++ joined ss

append_assoc : {A : Type 0} (xs ys zs : List A) → (xs ++ ys) ++ zs ≡ xs ++ (ys ++ zs)
append_assoc [] ys zs = refl
append_assoc (x ∷ xs) ys zs = ap (λ t. x ∷ t) (append_assoc xs ys zs)

append_nil : {A : Type 0} (xs : List A) → xs ++ [] ≡ xs
append_nil [] = refl
append_nil (x ∷ xs) = ap (λ t. x ∷ t) (append_nil xs)

joined-append : (ss ts : List Span) → joined (ss ++ ts) ≡ joined ss ++ joined ts
joined-append [] ts = refl
joined-append (s ∷ ss) ts =
    ap (λ t. s.bytes ++ t) (joined-append ss ts)
    ∙ sym (append_assoc s.bytes (joined ss) (joined ts))

-- A piece and what follows it.
take-drop : (n : ℕ) (xs : List ℕ) → take n xs ++ drop n xs ≡ xs
take-drop zero xs = refl
take-drop (suc n) [] = refl
take-drop (suc n) (x ∷ xs) = ap (λ t. x ∷ t) (take-drop n xs)

drop_nil : (n : ℕ) → drop {A = ℕ} n [] ≡ []
drop_nil zero = refl
drop_nil (suc n) = refl

drop-drop : (m n : ℕ) (xs : List ℕ) → drop n (drop m xs) ≡ drop (m + n) xs
drop-drop zero n xs = ap (λ k. drop k xs) (let e : n ≡ 0 + n = omega arith in e)
drop-drop (suc m) n [] = drop_nil n ∙ sym (drop_nil (suc m + n))
drop-drop (suc m) n (x ∷ xs) =
    drop-drop m n xs
    ∙ ap (λ k. drop k (x ∷ xs)) (let e : suc (m + n) ≡ suc m + n = omega arith in e)

drop_all : (n : ℕ) (xs : List ℕ) → length xs ≤ n → drop n xs ≡ []
drop_all zero [] h = refl
drop_all zero (x ∷ xs) h = absurd (omega arith)
drop_all (suc n) [] h = refl
drop_all (suc n) (x ∷ xs) h = drop_all n xs (omega arith)

length-drop : (n : ℕ) (xs : List ℕ) → length (drop n xs) ≡ length xs - n
length-drop zero xs = omega arith
length-drop (suc n) [] = omega arith
length-drop (suc n) (x ∷ xs) = omega (arith, length-drop n xs)

subarray_rest :
    (bytes : List ℕ) (from to : ℕ)
    → from ≤ to
    → subarray bytes from to ++ drop to bytes ≡ drop from bytes
subarray_rest bytes from to h =
    let step : drop (to - from) (drop from bytes) ≡ drop to bytes =
      drop-drop from (to - from) bytes ∙ ap (λ n. drop n bytes) (omega arith) in
    ap (λ t. subarray bytes from to ++ t) (sym step) ∙ take-drop (to - from) (drop from bytes)

gap_rest :
    (bytes : List ℕ) (from to : ℕ)
    → from ≤ to
    → joined (gap bytes from to) ++ drop to bytes ≡ drop from bytes
gap_rest bytes from to h =
    if_cases (λ g. joined g ++ drop to bytes ≡ drop from bytes) (ltb from to) _ _
      (λ e.
        ap (λ t. t ++ drop to bytes) (append_nil (subarray bytes from to))
        ∙ subarray_rest bytes from to h)
      (λ e. ap (λ n. drop n bytes) (let f : to ≡ from = ground arith in f))

walk-joined :
    (bytes : List ℕ) (cursor : ℕ) (ms : List Mention)
    → cursor ≤ length bytes
    → joined (walk bytes cursor ms) ≡ drop cursor bytes
unfolding walk
walk-joined bytes cursor [] h =
    sym (append_nil (joined (gap bytes cursor (length bytes))))
    ∙ ap (λ t. joined (gap bytes cursor (length bytes)) ++ t)
        (sym (drop_all (length bytes) bytes (omega arith)))
    ∙ gap_rest bytes cursor (length bytes) h
walk-joined bytes cursor (m ∷ ms) h =
    let start = min (length bytes) m.start in
    let stop = min (length bytes) m.stop in
    if_cases (λ (ss : List Span). joined ss ≡ drop cursor bytes)
      (ltb start cursor || leb stop start) _ _ (λ e. walk-joined bytes cursor ms h)
      (λ e.
        joined-append (gap bytes cursor start) _
        ∙ ap (λ t. joined (gap bytes cursor start) ++ (subarray bytes start stop ++ t))
            (walk-joined bytes stop ms (omega arith))
        ∙ ap (λ t. joined (gap bytes cursor start) ++ t)
            (subarray_rest bytes start stop (ground arith))
        ∙ gap_rest bytes cursor start (ground arith))

-- A span is not empty, and that of a mention is what the mention points at, cut off at the end of the text.
abbrev pub IsShown : List ℕ → Span → Type 0
IsShown bytes s = (0 < length s.bytes) × Points bytes s.mention s.bytes
  where
    Points : List ℕ → Option Mention → List ℕ → Type 0
    Points bytes none piece = Unit
    Points bytes (some m) piece =
        piece ≡ subarray bytes (min (length bytes) m.start) (min (length bytes) m.stop)

length-subarray :
    (bytes : List ℕ) (from to : ℕ) → to ≤ length bytes → length (subarray bytes from to) ≡ to - from
length-subarray bytes from to h =
    omega (arith, length-take (to - from) (drop from bytes), length-drop from bytes)

gap-IsShown :
    (bytes : List ℕ) (from to : ℕ) → to ≤ length bytes → All (IsShown bytes) (gap bytes from to)
gap-IsShown bytes from to h =
    if_cases (All (IsShown bytes)) (ltb from to) _ _
      (λ e. ((ground (arith, length-subarray bytes from to h), tt), tt)) (λ e. tt)

walk-IsShown :
    (bytes : List ℕ) (cursor : ℕ) (ms : List Mention) → All (IsShown bytes) (walk bytes cursor ms)
unfolding walk
walk-IsShown bytes cursor [] = gap-IsShown bytes cursor (length bytes) (omega arith)
walk-IsShown bytes cursor (m ∷ ms) =
    let start = min (length bytes) m.start in
    let stop = min (length bytes) m.stop in
    if_cases (All (IsShown bytes)) (ltb start cursor || leb stop start) _ _
      (λ e. walk-IsShown bytes cursor ms)
      (λ e.
        All-append (IsShown bytes) (gap bytes cursor start) _
          (gap-IsShown bytes cursor start (omega arith))
          (
            (ground (arith, length-subarray bytes start stop (omega arith)), refl),
            walk-IsShown bytes stop ms,
          ))

-- However the mentions of a text overlap, the spans put together are the bytes of the text; and where it has mentions,
-- no span is empty, and the span of a mention is what the mention points at, cut off at the end of the text.
pub split_bytes-joined :
    (bytes : List ℕ) (m : Mention) (ms : List Mention)
    → (joined (split_bytes bytes (m ∷ ms)) ≡ bytes)
      × All (IsShown bytes) (split_bytes bytes (m ∷ ms))
unfolding split_bytes
split_bytes-joined bytes m ms = (
  walk-joined bytes 0 (sort_mentions (m ∷ ms)) (omega arith),
  walk-IsShown bytes 0 (sort_mentions (m ∷ ms)),
)
