-- ===== src/Common/Text.antt =====
-- What the code uses of JavaScript's strings: white space, trimming, lower case, prefixes. A text is
-- a list of characters.
use Prim.Native.Char.{Char, code}
use Prim.Native.String
use Prim.Native.String.{[], ◌∷◌}
use mcp_zeromem.Common.{
  ℕ, suc, ◌+◌, String, Bool, true, false, ◌&&◌, ◌||◌, List, leb, ltb, ◌==◌, if◌then◌else◌, any,
  Option, none, some,
}

-- ASCII letters only: the tests that use this compare with ASCII words, and no other character's
-- lower case is one of their letters.
unfoldable pub lower : ℕ → ℕ
lower c = if leb b'A' c && leb c b'Z' then c + 32 else c

-- `\s`, and what `trim` removes, as code units.
abbrev pub is_space_code : ℕ → Bool
is_space_code c =
    (leb 9 c && leb c 13)
    || c == 32
    || c == 0xa0
    || c == 0x1680
    || (leb 0x2000 c && leb c 0x200a)
    || c == 0x2028
    || c == 0x2029
    || c == 0x202f
    || c == 0x205f
    || c == 0x3000
    || c == 0xfeff

unfoldable pub is_space : Char → Bool
is_space ch = is_space_code (code ch)

-- What `.` does not match.
unfoldable pub is_line_end : Char → Bool
is_line_end ch = let c = code ch in c == 10 || c == 13 || c == 0x2028 || c == 0x2029

abbrev pub text_length : String → ℕ
text_length [] = 0
text_length (c ∷ s) = suc (text_length s)

abbrev pub is_empty : String → Bool
is_empty [] = true
is_empty (c ∷ s) = false

unfoldable pub all_chars : (Char → Bool) → String → Bool
all_chars p [] = true
all_chars p (c ∷ s) = p c && all_chars p s

unfoldable pub trim_start : String → String
unfolding is_space
trim_start [] = []
trim_start (c ∷ s) = if is_space c then trim_start s else c ∷ s

abbrev pub trim_cons : Char → Bool → String → String
trim_cons c true [] = []
trim_cons c b s = c ∷ s

unfoldable pub trim_end : String → String
unfolding is_space
trim_end [] = []
trim_end (c ∷ s) = trim_cons c (is_space c) (trim_end s)

unfoldable pub trim : String → String
unfolding trim_start trim_end
trim s = trim_end (trim_start s)

-- `s.toLowerCase() === word`, for an ASCII word.
unfoldable pub is_word : String → String → Bool
unfolding lower
is_word [] [] = true
is_word (c ∷ w) (d ∷ s) = code c == lower (code d) && is_word w s
is_word _ _ = false

unfoldable pub is_one_of : List String → String → Bool
unfolding is_word
is_one_of words s = any (λ w. is_word w s) words

-- A string that JavaScript counts as false: absent or empty.
abbrev pub truthy : Option String → Option String
truthy none = none
truthy (some s) = if is_empty s then none else some s

-- `s.length`, in UTF-16 code units.
unfoldable pub utf16_length : String → ℕ
utf16_length [] = 0
utf16_length (c ∷ s) = (if ltb (code c) 0x10000 then 1 else 2) + utf16_length s

-- `parts.join(separator)`
unfoldable pub join : String → List String → String
join separator List.[] = ""
join separator (List.◌∷◌ s List.[]) = s
join separator (List.◌∷◌ s (List.◌∷◌ t rest)) =
    String.◌++◌ s (String.◌++◌ separator (join separator (List.◌∷◌ t rest)))
