-- ===== src/Client/Query.antt =====
-- What is asked for in the query of a request, by key, against the parameters that app/src/lib/api.ts writes
-- (queryString, listSessions and getSessionTurns).
pub mod Examples
use mathlib.Core.Path.{subst}
use mcp_zeromem.Common.{
  String, Bool, true, false, ◌≡◌, refl, sym, ap, ◌∙◌, Option, none, some, List, [], ◌∷◌, ◌++◌, All,
  str_eq, eq_iff, if_cases, if◌then◌else◌,
}
use mcp_zeromem.Common.Text.{is_empty, truthy}
use mcp_zeromem.Client.Calls.{Fields, kept, given, page_params, sessions_params}

-- The value of a key.
abbrev pub lookup : String → List (String × String) → Option String
lookup k [] = none
lookup k ((key, value) ∷ rest) =
    let later = lookup k rest in if str_eq k key then some value else later

-- The value of an object's field.
abbrev pub value_of : String → Fields → Option String
value_of k [] = none
value_of k ((key, value) ∷ rest) =
    let later = value_of k rest in if str_eq k key then value else later

abbrev pub IsNew : {V : Type 0} → String → List (String × V) → Type 0
IsNew k l = All (λ e. str_eq k e.0 ≡ false) l

abbrev pub HasDistinctKeys : {V : Type 0} → List (String × V) → Type 0
HasDistinctKeys [] = Unit
HasDistinctKeys ((k, v) ∷ rest) = IsNew k rest × HasDistinctKeys rest

given-IsNew : (k : String) (fields : Fields) → IsNew k fields → IsNew k (given fields)
given-IsNew k [] h = tt
given-IsNew k ((key, none) ∷ rest) (p, h) = given-IsNew k rest h
given-IsNew k ((key, some value) ∷ rest) (p, h) = (p, given-IsNew k rest h)

given-HasDistinctKeys : (fields : Fields) → HasDistinctKeys fields → HasDistinctKeys (given fields)
given-HasDistinctKeys [] h = tt
given-HasDistinctKeys ((key, none) ∷ rest) (n, h) = given-HasDistinctKeys rest h
given-HasDistinctKeys ((key, some value) ∷ rest) (n, h) =
    (given-IsNew key rest n, given-HasDistinctKeys rest h)

lookup-IsNew : (k : String) (l : List (String × String)) → IsNew k l → lookup k l ≡ none
lookup-IsNew k [] h = refl
lookup-IsNew k ((key, value) ∷ rest) (p, h) = rw p (lookup-IsNew k rest h)

same_value :
    (b : Bool) (value rest later : Option String)
    → (b ≡ true → rest ≡ none)
    → rest ≡ later
    → value ≡ none
    → rest ≡ (if b then value else later)
same_value true value rest later h e n = h refl ∙ sym n
same_value false value rest later h e n = e

given-lookup :
    (k : String) (fields : Fields)
    → HasDistinctKeys fields
    → lookup k (given fields) ≡ value_of k fields
given-lookup k [] h = refl
given-lookup k ((key, none) ∷ rest) (n, h) =
    same_value (str_eq k key) none (lookup k (given rest)) (value_of k rest)
      (λ e.
        lookup-IsNew k (given rest)
          (given-IsNew k rest (subst (λ s. IsNew s rest) (sym ((eq_iff k key).0 e)) n)))
      (given-lookup k rest h) refl
given-lookup k ((key, some value) ∷ rest) (n, h) =
    ap (λ later. if str_eq k key then some value else later) (given-lookup k rest h)

-- An empty text is left out.
abbrev shown : Fields → Fields
shown [] = []
shown ((key, value) ∷ rest) = (key, truthy value) ∷ shown rest

kept-shown : (fields : Fields) → kept fields ≡ given (shown fields)
kept-shown [] = refl
kept-shown ((key, none) ∷ rest) = kept-shown rest
kept-shown ((key, some value) ∷ rest) =
    if_cases (λ (l : List (String × String)). l ≡ given ((key, truthy (some value)) ∷ shown rest))
      (is_empty value) _ _ (λ e. rw e (kept-shown rest))
      (λ e. rw e (ap (λ l. (key, value) ∷ l) (kept-shown rest)))

shown-IsNew : (k : String) (fields : Fields) → IsNew k fields → IsNew k (shown fields)
shown-IsNew k [] h = tt
shown-IsNew k ((key, value) ∷ rest) (p, h) = (p, shown-IsNew k rest h)

shown-HasDistinctKeys : (fields : Fields) → HasDistinctKeys fields → HasDistinctKeys (shown fields)
shown-HasDistinctKeys [] h = tt
shown-HasDistinctKeys ((key, value) ∷ rest) (n, h) =
    (shown-IsNew key rest n, shown-HasDistinctKeys rest h)

truthy_if :
    (b : Bool) (x y : Option String)
    → (if b then truthy x else truthy y) ≡ truthy (if b then x else y)
truthy_if true x y = refl
truthy_if false x y = refl

value_of-shown :
    (k : String) (fields : Fields) → value_of k (shown fields) ≡ truthy (value_of k fields)
value_of-shown k [] = refl
value_of-shown k ((key, value) ∷ rest) =
    ap (λ later. if str_eq k key then truthy value else later) (value_of-shown k rest)
    ∙ truthy_if (str_eq k key) value (value_of k rest)

sessions_params-given :
    (scope limit offset : Option String)
    → sessions_params scope limit offset
      ≡ given (("scope", truthy scope) ∷ ("limit", limit) ∷ ("offset", offset) ∷ [])
sessions_params-given none limit offset = refl
sessions_params-given (some scope) limit offset =
    if_cases
      (λ (l : List (String × String)).
        l ++ page_params limit offset
        ≡ given (("scope", truthy (some scope)) ∷ ("limit", limit) ∷ ("offset", offset) ∷ []))
      (is_empty scope) _ _ (λ e. rw e refl) (λ e. rw e refl)

-- The parameters have each key once, and the values that the test gives.
abbrev pub Asks : List (String × String) → (String → Option String) → Type 0
Asks ps q = HasDistinctKeys ps × ((k : String) → lookup k ps ≡ q k)

pub kept-Asks :
    (fields : Fields)
    → HasDistinctKeys fields
    → Asks (kept fields) (λ k. truthy (value_of k fields))
kept-Asks fields h = (
  subst HasDistinctKeys (sym (kept-shown fields))
      (given-HasDistinctKeys (shown fields) (shown-HasDistinctKeys fields h)),
  λ k.
      ap (lookup k) (kept-shown fields)
      ∙ given-lookup k (shown fields) (shown-HasDistinctKeys fields h)
      ∙ value_of-shown k fields,
)

pub page_params-Asks :
    (limit offset : Option String)
    → Asks (page_params limit offset) (λ k. value_of k (("limit", limit) ∷ ("offset", offset) ∷ []))
page_params-Asks limit offset = (
  given-HasDistinctKeys (("limit", limit) ∷ ("offset", offset) ∷ []) ((refl, tt), (tt, tt)),
  λ k. given-lookup k (("limit", limit) ∷ ("offset", offset) ∷ []) ((refl, tt), (tt, tt)),
)

pub sessions_params-Asks :
    (scope limit offset : Option String)
    → Asks
        (sessions_params scope limit offset)
        (λ k. value_of k (("scope", truthy scope) ∷ ("limit", limit) ∷ ("offset", offset) ∷ []))
sessions_params-Asks scope limit offset =
    let fields = ("scope", truthy scope) ∷ ("limit", limit) ∷ ("offset", offset) ∷ [] in
    let distinct : HasDistinctKeys fields = ((refl, (refl, tt)), ((refl, tt), (tt, tt))) in
    (
      subst HasDistinctKeys (sym (sessions_params-given scope limit offset))
          (given-HasDistinctKeys fields distinct),
      λ k.
          ap (lookup k) (sessions_params-given scope limit offset) ∙ given-lookup k fields distinct,
    )

pub scope_of-Asks :
    (scope : String)
    → is_empty scope ≡ false
    → Asks (kept (("scope", some scope) ∷ [])) (λ k. value_of k (("scope", some scope) ∷ []))
scope_of-Asks scope n = rw n ((tt, tt), λ k. refl)
