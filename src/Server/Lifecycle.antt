-- ===== src/Server/Lifecycle.antt =====
-- `Server.start`, `stop` and `_accept_loop`: the life of a server as a step relation. The network
-- decides when a peer connects, what it sends and whether TLS comes up; a connection is served to its
-- end before the next one.
pub mod Reachable
use cisc468_python.Base.{ℕ, Str, Bool, true, false, ◌&&◌, List, [], Result, ◌≡◌, if◌then◌else◌}
use cisc468_python.Json.{Json}
use cisc468_python.Runtime.{Runtime}
use cisc468_python.Node.{Node}
use cisc468_python.Server.Contacts.{Server}
use cisc468_python.Server.Dispatch.{handle_connection}

-- `_running`, whether `_sock` listens, and whether the files of the TLS context are there.
pub record Daemon : Type 0 where
  pub node : Node
  pub running : Bool
  pub listening : Bool
  pub cert_files : Bool

-- What a peer does: the host it calls from, whether TLS comes up, the frames that arrive from it and
-- how many frames it takes.
pub record Connection : Type 0 where
  pub host : Str
  pub secure : Bool
  pub frames : List (Result Json)
  pub room : ℕ

unfoldable pub started : Daemon → Daemon
started d = record d { running = true; listening = true; cert_files = true }

unfoldable pub halted : Daemon → Daemon
halted d = record d { running = false; listening = false; cert_files = false }

-- The peer when a connection has been accepted: its frames are the ones to come.
unfoldable pub connected : Connection → Node → Node
connected c n = record n { inbox = c.frames; outbox = []; sendable = c.room }

module _ (r : Runtime) (server : Server) where
  -- `_handle_connection`: an error of `wrap_socket` ends it.
  unfoldable pub serve : Connection → Node → Node
  serve c n = if c.secure then handle_connection r server c.host (connected c n) else n

  pub data Step : Daemon → Daemon → Type 0 where
    start : (d : Daemon) → Step d (started d)
    accept :
        (d : Daemon) (c : Connection)
        → (d.running && d.listening) ≡ true
        → Step d (record d { node = serve c d.node })
    stop : (d : Daemon) → Step d (halted d)

  pub data Reach (d : Daemon) : Daemon → Type 0 where
    here : Reach d d
    next : {e f : Daemon} → Reach d e → Step e f → Reach d f
