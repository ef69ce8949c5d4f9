-- ===== src/Ingest/Paths.antt =====
-- `resolveUnder` of server/src/gateway/tools/remember.ts, with the POSIX rules of node:path. A
-- resolved path is the list of its parts below the root directory.
use Prim.Native.Char.{code}
use Prim.Native.String
use Prim.Native.String.{String}
use mcp_zeromem.Common.{
  Bool, false, ◌||◌, Option, none, some, List, [], ◌∷◌, ◌++◌, map, if◌then◌else◌, ◌==◌, str_eq, ◌≡◌,
  ◌≢◌, ◌↔◌, refl, ap, arith, All, eq_iff, Bool-cases, inl, inr,
}
use mathlib.Core.List.{reverse, tail, reverse_aux}
use text.Mathlib.Text.{starts_with}

split_slash : String → String → List String
split_slash cur String.[] = cur ∷ []
split_slash cur (String.◌∷◌ c s) =
    let rest =
      split_slash (if code c == b'/' then "" else String.◌++◌ cur (String.◌∷◌ c String.[])) s in
    if code c == b'/' then cur ∷ rest else rest

-- One part of a path, on the parts resolved so far, the last of them first.
enter : List String → String → List String
enter stack part =
    if str_eq part "" || str_eq part "."
    then stack
    else if str_eq part ".."
    then tail stack
    else part ∷ stack

enter_all : List String → List String → List String
enter_all stack [] = stack
enter_all stack (part ∷ parts) = enter_all (enter stack part) parts

-- `path.resolve(root, requested)`, for an absolute `root`.
unfoldable pub resolve : String → String → List String
unfolding split_slash enter enter_all
resolve root requested =
    if starts_with requested "/"
    then reverse (enter_all [] (split_slash "" requested))
    else reverse (enter_all (enter_all [] (split_slash "" root)) (split_slash "" requested))

unfoldable pub root_parts : String → List String
unfolding split_slash enter enter_all
root_parts root = reverse (enter_all [] (split_slash "" root))

-- `path.relative(from, to)`, as its parts.
unfoldable pub relative : List String → List String → List String
relative [] to = to
relative (x ∷ xs) [] = map (λ _. "..") (x ∷ xs)
relative (x ∷ xs) (y ∷ ys) =
    if str_eq x y then relative xs ys else map (λ _. "..") (x ∷ xs) ++ y ∷ ys

-- `relative.startsWith('..') || path.isAbsolute(relative)`
unfoldable pub leaves : List String → Bool
leaves [] = false
leaves (part ∷ parts) = starts_with part ".." || starts_with part "/"

unfoldable pub resolve_under : String → String → Option (List String)
resolve_under root requested =
    let resolved = resolve root requested in
    if leaves (relative (root_parts root) resolved) then none else some resolved

relative-append : (xs ys : List String) → relative xs (xs ++ ys) ≡ ys
unfolding relative
relative-append [] ys = refl
relative-append (x ∷ xs) ys = ground (arith, eq_iff x x, relative-append xs ys)

-- A path that does not leave a directory is that directory followed by the relative parts.
append-relative :
    (xs to : List String) → leaves (relative xs to) ≡ false → xs ++ relative xs to ≡ to
unfolding relative leaves
append-relative [] to h = refl
append-relative (x ∷ xs) [] h = absurd (cc)
append-relative (x ∷ xs) (y ∷ ys) h = ground (arith, eq_iff x y, append-relative xs ys)

abbrev pub IsPlain : String → Type 0
IsPlain part = (part ≢ "") × (part ≢ ".") × (part ≢ "..")

enter-IsPlain :
    (stack : List String) (part : String) → All IsPlain stack → All IsPlain (enter stack part)
unfolding enter
enter-IsPlain [] part a = ground (arith, eq_iff part "", eq_iff part ".", eq_iff part "..")
enter-IsPlain (s ∷ stack) part a = ground (arith, eq_iff part "", eq_iff part ".", eq_iff part "..")

enter_all-IsPlain :
    (stack parts : List String) → All IsPlain stack → All IsPlain (enter_all stack parts)
unfolding enter_all
enter_all-IsPlain stack [] a = a
enter_all-IsPlain stack (part ∷ parts) a =
    enter_all-IsPlain (enter stack part) parts (enter-IsPlain stack part a)

reverse_aux-IsPlain :
    (xs ys : List String) → All IsPlain xs → All IsPlain ys → All IsPlain (reverse_aux xs ys)
reverse_aux-IsPlain [] ys a b = b
reverse_aux-IsPlain (x ∷ xs) ys (p, a) b = reverse_aux-IsPlain xs (x ∷ ys) a (p, b)

resolve-IsPlain : (root requested : String) → All IsPlain (resolve root requested)
unfolding resolve
resolve-IsPlain root requested = elim (Bool-cases (starts_with requested "/")) [
  | inl e ↦ rw e (
      reverse_aux-IsPlain (enter_all [] (split_slash "" requested)) []
        (enter_all-IsPlain [] (split_slash "" requested) tt) tt)
  | inr e ↦ rw e (
      reverse_aux-IsPlain
        (enter_all (enter_all [] (split_slash "" root)) (split_slash "" requested)) []
        (enter_all-IsPlain (enter_all [] (split_slash "" root)) (split_slash "" requested)
          (enter_all-IsPlain [] (split_slash "" root) tt))
        tt)
]

All-suffix : (xs ys zs : List String) → xs ++ ys ≡ zs → All IsPlain zs → All IsPlain ys
All-suffix xs ys zs e a = go xs ys (rw e a)
  where
    go : (xs ys : List String) → All IsPlain (xs ++ ys) → All IsPlain ys
    go [] ys h = h
    go (x ∷ xs) ys (p, h) = go xs ys h

module _ (root requested : String) (p : List String) where
  accepted_inside :
      resolve_under root requested ≡ some p
      → (resolve root requested ≡ p)
        × ((rest : List String) × (root_parts root ++ rest ≡ p) × (leaves rest ≡ false))
  unfolding resolve_under
  accepted_inside h =
      let same : resolve root requested ≡ p = ground arith in
      let stays : leaves (relative (root_parts root) (resolve root requested)) ≡ false =
        ground arith in
      let stays' : leaves (relative (root_parts root) p) ≡ false = rw same at stays in
      (same, (relative (root_parts root) p, append-relative (root_parts root) p stays', stays'))

  inside_accepted :
      (rest : List String)
      → resolve root requested ≡ p
      → root_parts root ++ rest ≡ p
      → leaves rest ≡ false
      → resolve_under root requested ≡ some p
  unfolding resolve_under
  inside_accepted rest same e stays =
      let back : relative (root_parts root) (resolve root requested) ≡ rest =
        rw (same, ← e) (relative-append (root_parts root) rest) in
      rw (back, stays) (ap some same)

  -- A requested path is accepted as `p` exactly when it resolves to `p` and `p` is the data directory followed by
  -- parts of which none is "", "." or "..", so that the file read lies inside the data directory, and of which the
  -- first, if any, begins with neither ".." nor "/".
  pub resolve_under_confined : (resolve_under root requested ≡ some p) ↔ (
      (resolve root requested ≡ p)
      × ((rest : List String) × (root_parts root ++ rest ≡ p)
          × All IsPlain rest
          × (leaves rest ≡ false)))
  resolve_under_confined = (
    λ h.
        let (same, (rest, e, stays)) = accepted_inside h in
        let plain : All IsPlain p = rw (← same) (resolve-IsPlain root requested) in
        (same, (rest, e, All-suffix (root_parts root) rest p e plain, stays)),
    λ (same, (rest, e, plain, stays)). inside_accepted rest same e stays,
  )
