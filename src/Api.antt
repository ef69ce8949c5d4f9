-- ===== src/Api.antt =====
-- The REST API (server/src/api, mounted by server/src/app.ts): the state that its routes share, and how
-- a route calls the engine.
pub mod Engine
pub mod Reply
pub mod Curator
pub mod Routes
pub mod Settings
pub mod Viz
pub mod App
use mcp_zeromem.Common.{ℕ, String, Bool, Option, none, some, if◌then◌else◌}
use mcp_zeromem.Worker.{Worker, kick}
use mcp_zeromem.Curator.{CuratorSettingsStore}
use mcp_zeromem.Discovery.{DiscoverySettingsStore}
use mcp_zeromem.Api.Engine.{Failure, Called, returned, rejected}
use mcp_zeromem.Api.Reply.{Thrown, http, zod, engine, Checked, valid, malformed}

-- `store` is the engine's; a stdio process has no worker.
pub record World (S : Type 0) : Type 0 where
  pub store : S
  pub worker : Option Worker
  pub curator : CuratorSettingsStore
  pub discovery : DiscoverySettingsStore

-- How the `try` of a route ends.
pub data Ending (A : Type 0) : Type 0 where
  done : A → Ending A
  thrown : Thrown → Ending A

module _ {S A : Type 0} where
  -- A call of the engine.
  abbrev pub call : (S → Called A × S) → World S → Called A × World S
  call op w = ((op w.store).0, record w { store = (op w.store).1 })

  -- `await`, where what the call throws is thrown again as `f` makes it.
  abbrev pub await :
      {B : Type 0}
      → (Failure → Thrown)
      → Called A × World S
      → (A → World S → Ending B × World S)
      → Ending B × World S
  await f (returned a, w) k = k a w
  await f (rejected e, w) k = (thrown (f e), w)

  -- `await` in a function of the curator settings, which lets errors pass.
  abbrev pub then_call :
      {B : Type 0} → Called A × World S → (A → World S → Called B × World S) → Called B × World S
  then_call (returned a, w) k = k a w
  then_call (rejected e, w) k = (rejected e, w)

  -- `schema.parse`
  abbrev pub parse :
      {B : Type 0} → Checked A → (A → World S → Ending B × World S) → World S → Ending B × World S
  parse (valid a) k w = k a w
  parse (malformed issues) k w = (thrown (zod issues), w)

  abbrev pub refuse_read_only : Bool → (World S → Ending A × World S) → World S → Ending A × World S
  refuse_read_only read_only k w =
      if read_only
      then (thrown (http 403 "This server is read-only (ZEROMEM_READ_ONLY)" none), w)
      else k w

abbrev pub kick_worker : Option Worker → Option Worker
kick_worker none = none
kick_worker (some v) = some (kick v)

-- `deps.worker?.kick()`
abbrev pub kicked : {S : Type 0} → World S → World S
kicked w = record w { worker = kick_worker w.worker }

-- `(err) => new HttpError(502, message, errorChainMessage(err))`, and the like.
abbrev pub refused_as : ℕ → String → Failure → Thrown
refused_as status message f = http status message (some f.chain)
