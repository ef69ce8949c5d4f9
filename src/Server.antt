-- ===== src/Server.antt =====
-- The life of the HTTP server's process (`main` of server/src/index.ts): what is started, and the shutdown
-- that a signal begins. What it awaits of others settles by events: the advertiser's goodbye, the HTTP
-- server's close, and what the embed worker's loop awaits.
pub mod Orderly
pub mod Shutdown
mod Examples
use mcp_zeromem.Common.{ℕ, Bool, true, false, List, [], ◌∷◌, ◌++◌, map, if◌then◌else◌}
use mcp_zeromem.Config.{Config}
use mcp_zeromem.Worker as Worker
use mcp_zeromem.Worker.{Worker, Place}
use mcp_zeromem.Worker.Steps.{Event, advance}

-- How far the shutdown has come: `advertiser.close()`, `httpServer.close()` and `worker.stop()` are awaited
-- in this order.
pub data Stage : Type 0 where
  serving saying_goodbye closing_http stopping_worker exited : Stage

pub record Server : Type 0 where
  pub shutting_down : Bool
  pub stage : Stage
  pub worker : Worker

-- The worker is made in any case, and started unless the server is read-only.
unfoldable pub start_up : Config → Server
start_up config = record {
  shutting_down = false;
  stage = serving;
  worker = if config.read_only then Worker.create else Worker.start Worker.create;
}

pub data Happening : Type 0 where
  signal : Happening
  goodbye : Bool → Happening  -- `close()` settles; an error is logged
  connections_closed : Happening
  loop : Event → Happening
  kicked : Happening  -- by a request to the settings
  loop_ended : Happening  -- `await this.loop` goes on

-- `shutdown`
unfoldable pub shutdown : Server → Server
shutdown s =
    if s.shutting_down then s else record s { shutting_down = true; stage = saying_goodbye }

abbrev pub after_goodbye : Stage → Server → Server
after_goodbye saying_goodbye s = record s { stage = closing_http }
after_goodbye _ s = s

abbrev pub after_close : Stage → Server → Server
after_close closing_http s = record s { stage = stopping_worker; worker = Worker.stop s.worker }
after_close _ s = s

abbrev pub has_ended : Place → Bool
has_ended Worker.exited = true
has_ended _ = false

abbrev pub after_stop : Stage → Server → Server
after_stop stopping_worker s = if has_ended s.worker.place then record s { stage = exited } else s
after_stop _ s = s

-- Requests are answered until the HTTP server has closed.
abbrev pub after_kick : Stage → Server → Server
after_kick stopping_worker s = s
after_kick exited s = s
after_kick _ s = record s { worker = Worker.kick s.worker }

abbrev pub after_loop : Stage → Event → Server → Server
after_loop exited e s = s
after_loop _ e s = record s { worker = advance e s.worker }

unfoldable pub happen : Happening → Server → Server
unfolding shutdown
happen signal s = shutdown s
happen (goodbye ok) s = after_goodbye s.stage s
happen connections_closed s = after_close s.stage s
happen (loop e) s = after_loop s.stage e s
happen kicked s = after_kick s.stage s
happen loop_ended s = after_stop s.stage s

unfoldable pub run : List Happening → Server → Server
unfolding happen
run [] s = s
run (h ∷ hs) s = run hs (happen h s)
