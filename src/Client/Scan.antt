-- ===== src/Client/Scan.antt =====
-- How the path that a request is made at is read into its segments and the query's text behind them: what the
-- paths of app/src/lib/api.ts are held against.
use Prim.Native.Char.{Char, code}
use Prim.Native.String
use Prim.Native.String.{[], ◌∷◌}
use mathlib.Core.List as List
use text.Mathlib.TextLemmas.{append_assoc, cons-append, nil-append, append-nil}
use mcp_zeromem.Common.{
  String, Bool, true, not, ◌||◌, ◌≡◌, refl, ◌∙◌, Option, none, some, List, ◌==◌, if◌then◌else◌, ap,
  arith,
}
use mcp_zeromem.Common.Text.{all_chars}
use mcp_zeromem.Client.HeaderText.{tail-all}
use mcp_zeromem.Client.Calls.{suffix}

-- The segments that are closed, and the one or the query's text that is being read.
pub data Scan : Type 0 where
  in_path in_query : List String → String → Scan
  in_fragment : List String → Option String → Scan

abbrev push : String → Char → String
push s c = String.◌++◌ s (c ∷ [])

abbrev pub close : List String → String → List String
close parts current = List.◌++◌ parts (List.◌∷◌ current List.[])

abbrev step : Scan → Char → Scan
step (in_path parts current) c =
    if code c == b'/'
    then in_path (close parts current) ""
    else if code c == b'?'
    then in_query (close parts current) ""
    else if code c == b'#'
    then in_fragment (close parts current) none
    else in_path parts (push current c)
step (in_query parts query) c =
    if code c == b'#' then in_fragment parts (some query) else in_query parts (push query c)
step (in_fragment parts query) c = in_fragment parts query

unfoldable pub scan : Scan → String → Scan
scan st [] = st
scan st (c ∷ s) = scan (step st c) s

abbrev pub parts_of : Scan → List String
parts_of (in_path parts current) = close parts current
parts_of (in_query parts query) = parts
parts_of (in_fragment parts query) = parts

abbrev pub query_of : Scan → Option String
query_of (in_path parts current) = none
query_of (in_query parts query) = some query
query_of (in_fragment parts query) = query

abbrev pub is_plain : Char → Bool
is_plain c = not (code c == b'/' || code c == b'?' || code c == b'#')

abbrev pub is_no_hash : Char → Bool
is_no_hash c = not (code c == b'#')

pub scan-append : (st : Scan) (s t : String) → scan st (String.◌++◌ s t) ≡ scan (scan st s) t
unfolding scan
scan-append st [] t = rw (nil-append t) refl
scan-append st (c ∷ s) t = ap (scan st) (cons-append c s t) ∙ scan-append (step st c) s t

push-append :
    (s : String) (c : Char) (t : String) → String.◌++◌ (push s c) t ≡ String.◌++◌ s (c ∷ t)
push-append s c t =
    append_assoc s (c ∷ []) t
    ∙ ap (String.◌++◌ s) (cons-append c "" t ∙ ap (λ x. c ∷ x) (nil-append t))

step_plain :
    (parts : List String) (current : String) (c : Char)
    → is_plain c ≡ true
    → step (in_path parts current) c ≡ in_path parts (push current c)
step_plain parts current c h = ground arith

step_query :
    (parts : List String) (query : String) (c : Char)
    → is_no_hash c ≡ true
    → step (in_query parts query) c ≡ in_query parts (push query c)
step_query parts query c h = ground arith

head-all : (p : Char → Bool) (c : Char) (s : String) → all_chars p (c ∷ s) ≡ true → p c ≡ true
unfolding all_chars
head-all p c s h = ground arith

pub scan_plain :
    (parts : List String) (current s : String)
    → all_chars is_plain s ≡ true
    → scan (in_path parts current) s ≡ in_path parts (String.◌++◌ current s)
unfolding scan
scan_plain parts current [] h = rw (append-nil current) refl
scan_plain parts current (c ∷ s) h =
    ap (λ st. scan st s) (step_plain parts current c (head-all is_plain c s h))
    ∙ scan_plain parts (push current c) s (tail-all is_plain c s h)
    ∙ ap (in_path parts) (push-append current c s)

pub scan_query :
    (parts : List String) (query s : String)
    → all_chars is_no_hash s ≡ true
    → scan (in_query parts query) s ≡ in_query parts (String.◌++◌ query s)
unfolding scan
scan_query parts query [] h = rw (append-nil query) refl
scan_query parts query (c ∷ s) h =
    ap (λ st. scan st s) (step_query parts query c (head-all is_no_hash c s h))
    ∙ scan_query parts (push query c) s (tail-all is_no_hash c s h)
    ∙ ap (in_query parts) (push-append query c s)

-- The text of a query, if there is one.
abbrev pub query_text : (List (String × String) → String) → List (String × String) → Option String
query_text params List.[] = none
query_text params (List.◌∷◌ p ps) = some (params (List.◌∷◌ p ps))

-- A path is read to these segments and this query.
abbrev pub Reads : Scan → String → List String → Option String → Type 0
Reads st path parts query = (parts_of (scan st path) ≡ parts) × (query_of (scan st path) ≡ query)

module _ (params : List (String × String) → String)
    (no_hash : (ps : List (String × String)) → all_chars is_no_hash (params ps) ≡ true) where
  suffix-Reads :
      (parts : List String) (current : String) (ps : List (String × String))
      → Reads
          (in_path parts current)
          (suffix params ps)
          (close parts current)
          (query_text params ps)
  unfolding suffix scan
  suffix-Reads parts current List.[] = (refl, refl)
  suffix-Reads parts current (List.◌∷◌ p ps) =
      let whole =
        scan-append (in_path parts current) "?" (params (List.◌∷◌ p ps))
        ∙ scan_query (close parts current) "" (params (List.◌∷◌ p ps)) (no_hash (List.◌∷◌ p ps))
        ∙ ap (in_query (close parts current)) (nil-append _) in
      (ap parts_of whole, ap query_of whole)

  pub scan_asked :
      (st : Scan) (path : String) (parts : List String) (current : String)
      (ps : List (String × String))
      → scan st path ≡ in_path parts current
      → Reads st (String.◌++◌ path (suffix params ps)) (close parts current) (query_text params ps)
  scan_asked st path parts current ps e =
      let whole = scan-append st path (suffix params ps) ∙ ap (λ x. scan x (suffix params ps)) e in
      let (named, asked) = suffix-Reads parts current ps in
      (ap parts_of whole ∙ named, ap query_of whole ∙ asked)

-- A text without a mark of its own is read as one segment.
pub scan_segment :
    (st : Scan) (path s rest : String) (parts : List String)
    → scan st path ≡ in_path parts ""
    → all_chars is_plain s ≡ true
    → scan st (String.◌++◌ path (String.◌++◌ s rest)) ≡ scan (in_path parts s) rest
scan_segment st path s rest parts e h =
    scan-append st path (String.◌++◌ s rest)
    ∙ ap (λ x. scan x (String.◌++◌ s rest)) e
    ∙ scan-append (in_path parts "") s rest
    ∙ ap (λ x. scan x rest) (scan_plain parts "" s h ∙ ap (in_path parts) (nil-append s))

pub scan_last :
    (st : Scan) (path s : String) (parts : List String)
    → scan st path ≡ in_path parts ""
    → all_chars is_plain s ≡ true
    → Reads st (String.◌++◌ path s) (close parts s) none
scan_last st path s parts e h =
    let whole =
      scan-append st path s
      ∙ ap (λ x. scan x s) e
      ∙ (scan_plain parts "" s h ∙ ap (in_path parts) (nil-append s)) in
    (ap parts_of whole, ap query_of whole)
