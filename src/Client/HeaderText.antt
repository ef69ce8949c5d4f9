-- ===== src/Client/HeaderText.antt =====
-- Texts that a header can carry, and what trimming makes of a text (handleSubmit of
-- app/src/components/layouts/token-gate.tsx trims what the client sends in a header).
use Prim.Native.Char.{Char, code}
use Prim.Native.String
use Prim.Native.String.{[], ◌∷◌}
use text.Mathlib.TextLemmas.{cons-append, nil-append}
use mcp_zeromem.Common.{
  ap, sym, ◌∙◌, leb, ◌&&◌, String, Bool, true, false, not, ◌≡◌, refl, if_cases, arith, ◌==◌,
}
use mcp_zeromem.Common.Text.{
  is_space, is_line_end, is_empty, all_chars, trim, trim_start, trim_end, trim_cons,
}
use mcp_zeromem.Auth.Bearer.{IsPlainToken}

-- A character that the value of a header may hold: of Latin-1, and neither NUL nor the end of a line.
abbrev pub is_header_char : Char → Bool
is_header_char c = leb (code c) 255 && not (code c == 0) && not (code c == 10) && not (code c == 13)

-- A text that is a header's value as it is.
abbrev pub IsHeaderText : String → Type 0
IsHeaderText s = (all_chars is_header_char s ≡ true) × (trim s ≡ s)

-- The text has no line end.
abbrev pub IsOneLine : String → Type 0
IsOneLine s = all_chars (λ x. not (is_line_end x)) s ≡ true

pub trim_start-all :
    (p : Char → Bool) (s : String) → all_chars p s ≡ true → all_chars p (trim_start s) ≡ true
unfolding all_chars trim_start
trim_start-all p [] h = h
trim_start-all p (c ∷ s) h = ground (arith, trim_start-all p s)

trim_cons-all :
    (p : Char → Bool) (c : Char) (b : Bool) (s : String)
    → all_chars p (c ∷ s) ≡ true
    → all_chars p (trim_cons c b s) ≡ true
unfolding all_chars
trim_cons-all p c true [] h = refl
trim_cons-all p c true (d ∷ s) h = h
trim_cons-all p c false s h = h

pub tail-all :
    (p : Char → Bool) (c : Char) (s : String) → all_chars p (c ∷ s) ≡ true → all_chars p s ≡ true
unfolding all_chars
tail-all p c s h = ground arith

put-all :
    (p : Char → Bool) (c : Char) (s r : String)
    → all_chars p (c ∷ s) ≡ true
    → all_chars p r ≡ true
    → all_chars p (c ∷ r) ≡ true
unfolding all_chars
put-all p c s r h k = ground arith

pub trim_end-all :
    (p : Char → Bool) (s : String) → all_chars p s ≡ true → all_chars p (trim_end s) ≡ true
unfolding trim_end
trim_end-all p [] h = h
trim_end-all p (c ∷ s) h =
    trim_cons-all p c (is_space c) (trim_end s)
      (put-all p c s (trim_end s) h (trim_end-all p s (tail-all p c s h)))

-- A trimmed text is empty or begins with another character than white space.
abbrev IsTrimmed : String → Type 0
IsTrimmed [] = Unit
IsTrimmed (c ∷ s) = is_space c ≡ false

trim_start-IsTrimmed : (s : String) → IsTrimmed (trim_start s)
unfolding trim_start
trim_start-IsTrimmed [] = tt
trim_start-IsTrimmed (c ∷ s) =
    if_cases IsTrimmed (is_space c) _ _ (λ h. trim_start-IsTrimmed s) (λ h. h)

trim_end-IsTrimmed : (s : String) → IsTrimmed s → IsTrimmed (trim_end s)
unfolding trim_end
trim_end-IsTrimmed [] h = tt
trim_end-IsTrimmed (c ∷ s) h = rw h h

header_char_in_line : (c : Char) → is_header_char c ≡ true → not (is_line_end c) ≡ true
unfolding is_line_end
header_char_in_line c h = ground arith

pub header_text_line : (s : String) → all_chars is_header_char s ≡ true → IsOneLine s
unfolding all_chars
header_text_line [] h = refl
header_text_line (c ∷ s) h = ground (arith, header_char_in_line c, header_text_line s)

trim_cons-full : (c : Char) (b : Bool) (s : String) → is_empty s ≡ false → trim_cons c b s ≡ c ∷ s
trim_cons-full c b [] n = absurd (cc)
trim_cons-full c true (d ∷ s) n = refl
trim_cons-full c false (d ∷ s) n = refl

trim_end-cons :
    (c : Char) (s : String) → trim_end s ≡ s → is_empty s ≡ false → trim_end (c ∷ s) ≡ c ∷ s
unfolding trim_end
trim_end-cons c s e n = ap (trim_cons c (is_space c)) e ∙ trim_cons-full c (is_space c) s n

trim_cons-trim_end :
    (c : Char) (b : Bool) (s : String)
    → is_space c ≡ b
    → trim_end s ≡ s
    → trim_end (trim_cons c b s) ≡ trim_cons c b s
unfolding trim_end
trim_cons-trim_end c true [] q e = refl
trim_cons-trim_end c false [] q e = ap (λ b. trim_cons c b []) q
trim_cons-trim_end c true (d ∷ s) q e = trim_end-cons c (d ∷ s) e refl
trim_cons-trim_end c false (d ∷ s) q e = trim_end-cons c (d ∷ s) e refl

pub trim_end-trim_end : (s : String) → trim_end (trim_end s) ≡ trim_end s
unfolding trim_end
trim_end-trim_end [] = refl
trim_end-trim_end (c ∷ s) =
    trim_cons-trim_end c (is_space c) (trim_end s) refl (trim_end-trim_end s)

is_empty-append : (s t : String) → is_empty t ≡ false → is_empty (String.◌++◌ s t) ≡ false
is_empty-append [] t n = ap is_empty (nil-append t) ∙ n
is_empty-append (c ∷ s) t n = ap is_empty (cons-append c s t)

pub trim_end-append :
    (s t : String)
    → trim_end t ≡ t
    → is_empty t ≡ false
    → trim_end (String.◌++◌ s t) ≡ String.◌++◌ s t
trim_end-append [] t e n = ap trim_end (nil-append t) ∙ e ∙ sym (nil-append t)
trim_end-append (c ∷ s) t e n =
    ap trim_end (cons-append c s t)
    ∙ trim_end-cons c (String.◌++◌ s t) (trim_end-append s t e n) (is_empty-append s t n)
    ∙ sym (cons-append c s t)

pub append-all :
    (p : Char → Bool) (s t : String)
    → all_chars p s ≡ true
    → all_chars p t ≡ true
    → all_chars p (String.◌++◌ s t) ≡ true
unfolding all_chars
append-all p [] t h k = ap (all_chars p) (nil-append t) ∙ k
append-all p (c ∷ s) t h k =
    ap (all_chars p) (cons-append c s t)
    ∙ put-all p c s (String.◌++◌ s t) h (append-all p s t (tail-all p c s h) k)

plain_of : (s : String) → IsTrimmed s → IsOneLine s → is_empty s ≡ false → IsPlainToken s
plain_of [] h k n = absurd (cc)
plain_of (c ∷ s) h k n = (h, k)

pub trim-IsPlain : (s : String) → IsOneLine s → is_empty (trim s) ≡ false → IsPlainToken (trim s)
unfolding trim
trim-IsPlain s h n =
    plain_of (trim_end (trim_start s)) (trim_end-IsTrimmed (trim_start s) (trim_start-IsTrimmed s))
      (trim_end-all _ (trim_start s) (trim_start-all _ s h)) n
