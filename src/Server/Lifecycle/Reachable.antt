-- ===== src/Server/Lifecycle/Reachable.antt =====
-- What holds of a peer in every state that a server reaches, whatever its peers send and in whatever
-- order they come.
use cisc468_python.Base.{Bool-cases, inl, inr, arith}
use cisc468_python.Runtime.{Runtime}
use cisc468_python.Node.{Node}
use cisc468_python.Server.Contacts.{Server}
use cisc468_python.Server.Contacts.Keeps.{IsKept}
use cisc468_python.Server.Dispatch.Keeps.{handle_connection-Keeps}
use cisc468_python.Server.Lifecycle.{
  Daemon, Connection, started, halted, connected, serve, Step, start, accept, stop, Reach, here,
  next,
}

module _ {κ} (r : Runtime) (server : Server) {P : Node → Type κ} (kept : IsKept r P) where
  serve-Keeps : (c : Connection) (n : Node) → P n → P (serve r server c n)
  unfolding serve connected
  serve-Keeps c n h = elim (Bool-cases c.secure) [
    | inl up ↦ rw up (
        handle_connection-Keeps r server kept c.host (connected c n)
          (kept.quiet.moves n (connected c n) (ground arith) h))
    | inr down ↦ rw down h
  ]

  Step-kept : {d e : Daemon} → Step r server d e → P d.node → P e.node
  unfolding started halted
  Step-kept (start d) h = h
  Step-kept (accept d c up) h = serve-Keeps c d.node h
  Step-kept (stop d) h = h

  -- What every connection keeps holds in every state that is reached.
  pub Reach-kept : {d e : Daemon} → Reach r server d e → P d.node → P e.node
  Reach-kept here h = h
  Reach-kept (next before step) h = Step-kept step (Reach-kept before h)
