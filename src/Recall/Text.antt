-- ===== src/Recall/Text.antt =====
-- How a turn's text is made ready for a prompt: `normalise` and `clip` of
-- server/src/gateway/tools/recall.ts. A character of a text is a code point.
use Prim.Native.Char.{Char, code}
use Prim.Native.String.{[], ◌∷◌, ◌++◌}
use mcp_zeromem.Common.{
  ℕ, zero, suc, ◌+◌, ◌/◌, ◌%◌, String, Bool, true, false, ◌&&◌, ◌||◌, leb, ltb, ◌==◌, if◌then◌else◌,
}
use mcp_zeromem.Common.Text.{is_line_end, trim, text_length}

-- `.replace(/\r\n?/g, '\n')`; `after_cr` says that the last character was a carriage return.
unfoldable pub unify : Bool → String → String
unify after_cr [] = []
unify after_cr (c ∷ s) =
    let rest = unify (code c == 13) s in
    if code c == 13 then "\n" ∷ rest else if code c == 10 && after_cr then rest else c ∷ rest

abbrev pub is_blank : Char → Bool
is_blank c = code c == 32 || code c == 9

-- `$` of the flag `m` matches here.
abbrev pub at_line_end : String → Bool
at_line_end [] = true
at_line_end (c ∷ s) = is_line_end c

-- `.replace(/[ \t]+$/gm, '')`
unfoldable pub strip_blanks : String → String
strip_blanks [] = []
strip_blanks (c ∷ s) =
    let rest = strip_blanks s in if is_blank c && at_line_end rest then rest else c ∷ rest

abbrev pub run_after : Char → ℕ → ℕ
run_after c n = if code c == 10 then n + 1 else 0

-- `.replace(/\n{3}/g, '\n\n')`; `n` line feeds stand just before.
unfoldable pub squeeze : ℕ → String → String
squeeze n [] = []
squeeze n (c ∷ s) =
    let rest = squeeze (run_after c n) s in if code c == 10 && leb 2 n then rest else c ∷ rest

unfoldable pub normalise : String → String
unfolding unify strip_blanks squeeze trim
normalise text = trim (squeeze 0 (strip_blanks (unify false text)))

abbrev pub digit : ℕ → Char
digit zero = "0"
digit (suc zero) = "1"
digit (suc (suc zero)) = "2"
digit (suc (suc (suc zero))) = "3"
digit (suc (suc (suc (suc zero)))) = "4"
digit (suc (suc (suc (suc (suc zero))))) = "5"
digit (suc (suc (suc (suc (suc (suc zero)))))) = "6"
digit (suc (suc (suc (suc (suc (suc (suc zero))))))) = "7"
digit (suc (suc (suc (suc (suc (suc (suc (suc zero)))))))) = "8"
digit (suc (suc (suc (suc (suc (suc (suc (suc (suc n))))))))) = "9"

-- A number in a template, on fuel; `n + 1` is enough.
unfoldable pub show_from : ℕ → ℕ → String → String
show_from zero n acc = acc
show_from (suc fuel) n acc =
    let rest = show_from fuel (n / 10) (digit (n % 10) ∷ acc) in
    if ltb n 10 then digit n ∷ acc else rest

unfoldable pub show : ℕ → String
unfolding show_from
show n = show_from (n + 1) n []

-- `chars.slice(0, limit)`
unfoldable pub first_chars : ℕ → String → String
first_chars zero s = []
first_chars (suc n) [] = []
first_chars (suc n) (c ∷ s) = c ∷ first_chars n s

-- What follows a text that was cut.
unfoldable pub clip_mark : ℕ → ℕ → ℕ → String
unfolding show
clip_mark limit length turn_id =
    "\n… [clipped: "
    ++ show limit
    ++ " of "
    ++ show length
    ++ " characters — zeromem_read_session {around_turn: "
    ++ show turn_id
    ++ "}]"

unfoldable pub clip : String → ℕ → ℕ → String
unfolding first_chars clip_mark
clip text limit turn_id =
    if leb (text_length text) limit
    then text
    else first_chars limit text ++ clip_mark limit (text_length text) turn_id
