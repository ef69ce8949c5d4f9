-- ===== src/Client/Called.antt =====
-- A call of the API (app/src/lib/api.ts) through the browser's request to the route of the server
-- (server/src/app.ts) that it is for.
use mathlib.Core.Path.{subst}
use mcp_zeromem.Common.{String, false, ◌≡◌, ◌≢◌, refl, ap, ◌∙◌, Option, some, List, [], ◌∷◌, All}
use mcp_zeromem.Common.Text.{is_empty}
use mcp_zeromem.Config.{Config}
use mcp_zeromem.Api.{World}
use mcp_zeromem.Api.Engine.{Engine}
use mcp_zeromem.Api.App.{Request, Circumstances, handle, render, is_public}
use mcp_zeromem.Api.App.Mounts.{Schemas, Query, mounts}
use mcp_zeromem.Client.{AuthState, loaded, Action, follow}
use mcp_zeromem.Client.Request.{Sent, Outcome, settle, request, sent}
use mcp_zeromem.Client.Plain.{IsPlain, IsTyped}
use mcp_zeromem.Client.Gate.{
  Wire, Carries, ReadsBack, fetch, responded, IsSettled, request-IsSettled,
}
use mcp_zeromem.Client.Calls.{Call, get_status, address}
use mcp_zeromem.Client.Target.{requests_at}
use mcp_zeromem.Client.Meant.{IsReachable, request_of}
use mcp_zeromem.Client.Addressed.{IsEncoding, requests_by-request_of}

module _ {S J K : Type 0} (e : Engine S J) (config : Config) (digest : String → String)
    (here : Circumstances) (v : Wire J K) (schemas : Schemas J K)
    (params : List (String × String) → String) (scoped : String → K)
    (encode : String → String) where
  -- What `request` ends in for a call.
  abbrev pub called : Call K → AuthState → World S → Outcome K × AuthState × World S
  called c s w =
      request v.envelope (fetch e config digest here v) (address encode params scoped c).0
        (address encode params scoped c).1 s w

  -- What the client makes of the reply of a request's route.
  abbrev pub answer_by : Request J → AuthState → World S → Outcome K × AuthState × World S
  answer_by q s w =
      settle v.envelope
        (responded e config digest here v (render e config (handle e config here q w))) s

  abbrev pub answer_to : Call K → AuthState → World S → Outcome K × AuthState × World S
  answer_to c s w = answer_by (request_of schemas scoped c) s w

  private_of : (c : Call K) → c ≢ get_status → is_public (request_of schemas scoped c) ≡ false
  unfolding request_of
  private_of get_status n = absurd (n refl)
  private_of c n = refl

  module _ (decode : String → Option String) (parse : Option String → Query) where
    -- A request that one mounted route has the method and the path of comes to that route.
    abbrev pub Routes : Type 0
    Routes =
        (r : Sent K) (q : Request J)
        → requests_at decode parse (mounts schemas) r ≡ q ∷ []
        → v.route r ≡ q

    -- The server has a token t, SHA-256 is free of collisions, an error's body is read as it was written, the browser
    -- sends a text that can be a header's value as it is, ids and queries are written and read as in
    -- requests_by-request_of, and a request that exactly one mounted route has the method and the path of comes to
    -- it. After any actions in a client that was loaded with no token, or one that such a header holds, and in which
    -- only characters are typed that a header may hold: any call that requests_by-request_of is about, but that of
    -- the status, ends in what the client makes of the answer of the call's own route if the client holds t; and
    -- if it does not, then in the error 401, with the client's token screen up and the server unchanged.
    pub called-IsSettled :
        IsEncoding encode decode params parse
        → Routes
        → Carries v
        → ReadsBack v
        → ((a b : String) → digest a ≡ digest b → a ≡ b)
        → (t : String) → config.auth_token ≡ some t
        → is_empty t ≡ false
        → (stored : Option String) (actions : List Action) → IsPlain (loaded stored)
        → All IsTyped actions
        → (c : Call K) (w : World S) → IsReachable c
        → c ≢ get_status
        → IsSettled e config digest here v t
            (follow actions (loaded stored))
            (called c (follow actions (loaded stored)) w)
            (answer_to c (follow actions (loaded stored)) w)
            w
    called-IsSettled coding routes carries back distinct t a n stored actions plain typed c w h m =
        let s = follow actions (loaded stored) in
        let (path, options) = address encode params scoped c in
        let routed : v.route (sent path options s) ≡ request_of schemas scoped c =
          routes (sent path options s) (request_of schemas scoped c)
            (requests_by-request_of schemas params scoped encode decode parse coding c s h) in
        subst (λ q. IsSettled e config digest here v t s (called c s w) (answer_by q s w) w) routed
          (request-IsSettled e config digest here v carries back distinct t a n stored actions plain
            typed path options w (ap is_public routed ∙ private_of c m))
