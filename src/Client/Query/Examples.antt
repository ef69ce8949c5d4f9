-- ===== src/Client/Query/Examples.antt =====
-- A way to write parameters in a text, and to read the value of a key from it, that stands for URLSearchParams and
-- the reading of a query by the server.
use Prim.Native.Char.{Char, code}
use Prim.Native.String.{[], ◌∷◌}
use text.Mathlib.TextEquality.{Char-path}
use mcp_zeromem.Common.{
  ℕ, zero, suc, ◌≤◌, String, Bool, true, false, ◌≡◌, refl, ap, ◌∙◌, Option, none, some, List, ◌==◌,
  str_eq, if◌then◌else◌, arith, length,
}
use mcp_zeromem.Common.Text.{all_chars, text_length}
use mcp_zeromem.Client.Scan.{is_no_hash}
use mcp_zeromem.Client.Query.{lookup}

-- A text, up to a full stop, with a tag before each character.
abbrev put_char : ℕ → Char → String → String
put_char n c rest = if n == b'#' then "h" ∷ rest else "x" ∷ c ∷ rest

abbrev put_text : String → String → String
put_text [] rest = "." ∷ rest
put_text (c ∷ s) rest = put_char (code c) c (put_text s rest)

abbrev led_by : Char → String × String → String × String
led_by c (s, rest) = (c ∷ s, rest)

unfoldable pub take_text : Bool → String → String × String
take_text b [] = ([], [])
take_text true (c ∷ u) = led_by c (take_text false u)
take_text false (t ∷ u) =
    let marked = led_by "#" (take_text false u) in
    let plain = take_text true u in
    let over : String × String = ([], u) in
    if code t == b'.' then over else if code t == b'h' then marked else plain

take_text-put_char :
    (n : ℕ) (c : Char) (rest : String)
    → code c ≡ n
    → take_text false (put_char n c rest) ≡ (c ∷ (take_text false rest).0, (take_text false rest).1)
unfolding take_text
take_text-put_char n c rest e = ground (arith, Char-path c "#")

take_text-put_text : (s rest : String) → take_text false (put_text s rest) ≡ (s, rest)
unfolding take_text
take_text-put_text [] rest = refl
take_text-put_text (c ∷ s) rest =
    take_text-put_char (code c) c (put_text s rest) refl ∙ ap (led_by c) (take_text-put_text s rest)

abbrev write_params : List (String × String) → String
write_params List.[] = ""
write_params (List.◌∷◌ (key, value) ps) = "+" ∷ put_text key (put_text value (write_params ps))

unfoldable pub find_value : ℕ → String → String → Option String
find_value zero text k = none
find_value (suc n) [] k = none
find_value (suc n) (c ∷ u) k =
    let key = take_text false u in
    let value = take_text false key.1 in
    let later = find_value n value.1 k in if str_eq k key.0 then some value.0 else later

find_value-write_params :
    (n : ℕ) (ps : List (String × String)) (k : String)
    → length ps ≤ n
    → find_value n (write_params ps) k ≡ lookup k ps
unfolding find_value
find_value-write_params zero List.[] k h = refl
find_value-write_params zero (List.◌∷◌ p ps) k h = absurd (omega arith)
find_value-write_params (suc n) List.[] k h = refl
find_value-write_params (suc n) (List.◌∷◌ (key, value) ps) k h =
    ap
      (λ (r : String × String).
        if str_eq k r.0
        then some (take_text false r.1).0
        else find_value n (take_text false r.1).1 k)
      (take_text-put_text key (put_text value (write_params ps)))
    ∙ ap (λ (r : String × String). if str_eq k key then some r.0 else find_value n r.1 k)
        (take_text-put_text value (write_params ps))
    ∙ ap (λ later. if str_eq k key then some value else later)
        (find_value-write_params n ps k (omega arith))

text_length-put_text : (s rest : String) → text_length rest ≤ text_length (put_text s rest)
text_length-put_text [] rest = omega arith
text_length-put_text (c ∷ s) rest = ground (arith, text_length-put_text s rest)

length-write_params : (ps : List (String × String)) → length ps ≤ text_length (write_params ps)
length-write_params List.[] = omega arith
length-write_params (List.◌∷◌ (key, value) ps) = omega (
  arith,
  length-write_params ps,
  text_length-put_text value (write_params ps),
  text_length-put_text key (put_text value (write_params ps)),
)

put_text-no_hash :
    (s rest : String)
    → all_chars is_no_hash rest ≡ true
    → all_chars is_no_hash (put_text s rest) ≡ true
unfolding all_chars
put_text-no_hash [] rest h = h
put_text-no_hash (c ∷ s) rest h = ground (arith, put_text-no_hash s rest h)

abbrev pub params : List (String × String) → String
params ps = write_params ps

abbrev pub parse : Option String → String → Option String
parse none k = none
parse (some text) k = find_value (text_length text) text k

pub parse-params :
    (ps : List (String × String)) (k : String) → parse (some (params ps)) k ≡ lookup k ps
parse-params ps k =
    find_value-write_params (text_length (write_params ps)) ps k (length-write_params ps)

pub params-no_hash : (ps : List (String × String)) → all_chars is_no_hash (params ps) ≡ true
unfolding all_chars
params-no_hash List.[] = refl
params-no_hash (List.◌∷◌ (key, value) ps) =
    put_text-no_hash key (put_text value (write_params ps))
      (put_text-no_hash value (write_params ps) (params-no_hash ps))
