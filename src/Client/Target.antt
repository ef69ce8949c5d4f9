-- ===== src/Client/Target.antt =====
-- Which of the mounted routes (server/src/app.ts) have the method and the segments of a request. It is the
-- description that the client's requests are held against, and not the router of the server, which tries
-- its routes in turn.
use mcp_zeromem.Common.{
  String, Bool, true, false, not, ◌||◌, ◌≡◌, ◌∙◌, Option, none, some, List, str_eq, if◌then◌else◌,
  ap,
}
use mcp_zeromem.Common.Text.{is_empty}
use mcp_zeromem.Api.App.{Request}
use mcp_zeromem.Api.App.Mounts.{Segment, word, id, Mounted, Query}
use mcp_zeromem.Client.Request.{Method, get, post, put, patch, delete, Sent}
use mcp_zeromem.Client.Scan.{in_path, scan, parts_of, query_of, Reads}

-- What a path can name: not the empty segment, and neither of the two that a browser resolves.
unfoldable pub is_segment : String → Bool
is_segment s = not (is_empty s || str_eq s "." || str_eq s "..")

abbrev pub same_method : Method → Method → Bool
same_method get get = true
same_method post post = true
same_method put put = true
same_method patch patch = true
same_method delete delete = true
same_method _ _ = false

module _ {J K : Type 0} (decode : String → Option String) (parse : Option String → Query)
    (mounts : List (Mounted J K)) where
  -- The id among the segments, or no text where the path has none.
  abbrev fits : List Segment → List String → Option String
  fits List.[] List.[] = some ""
  fits (List.◌∷◌ (word w) path) (List.◌∷◌ p parts) =
      let rest = fits path parts in if str_eq w p then rest else none
  fits (List.◌∷◌ id path) (List.◌∷◌ p parts) =
      let rest = fits path parts in
      if is_segment p then elim rest [ none ↦ none | some i ↦ decode p ] else none
  fits _ _ = none

  -- What a route makes of the segments, the query's text and the body.
  abbrev made : Mounted J K → Method → List String → Option String → Option K → Option (Request J)
  made m method parts query body =
      if same_method m.method method
      then elim (fits (List.◌∷◌ (word "") (List.◌∷◌ (word "api") m.path)) parts) [
        | none ↦ none
        | some i ↦ some (m.make i (parse query) body)
      ]
      else none

  abbrev all_made :
      List (Mounted J K) → Method → List String → Option String → Option K → List (Request J)
  all_made List.[] method parts query body = List.[]
  all_made (List.◌∷◌ m rest) method parts query body = elim (made m method parts query body) [
    | none ↦ all_made rest method parts query body
    | some r ↦ List.◌∷◌ r (all_made rest method parts query body)
  ]

  unfoldable pub requests_for : Method → List String → Option String → Option K → List (Request J)
  unfolding is_segment
  requests_for = all_made mounts

  -- What the routes whose method and path the request has make of it.
  unfoldable pub requests_at : Sent K → List (Request J)
  unfolding requests_for scan
  requests_at r =
      let st = scan (in_path List.[] "") r.path in
      requests_for r.method (parts_of st) (query_of st) r.body

  pub requests_at_lem :
      (r : Sent K) (parts : List String) (query : Option String)
      → Reads (in_path List.[] "") r.path parts query
      → requests_at r ≡ requests_for r.method parts query r.body
  unfolding requests_at
  requests_at_lem r parts query (named, asked) =
      ap (λ x. requests_for r.method x (query_of (scan (in_path List.[] "") r.path)) r.body) named
      ∙ ap (λ x. requests_for r.method parts x r.body) asked
