-- ===== src/App/Serving.antt =====
-- `cmd_serve` and `cmd_discover` of p2pshare.py. The port is the one that the server's socket got; the
-- connections are those that come before the user interrupts the wait.
pub mod Restart
use cisc468_python.Base.{
  ℕ, Bytes, Str, codes, Bool, false, List, [], ◌∷◌, ◌++◌, Option, none, some, Exec, pure, gets,
  modify, ◌>>=◌, ◌>>◌, Result, ok, err, length,
}
use cisc468_python.Json.Dumps.{show_nat}
use cisc468_python.Runtime.{Runtime}
use cisc468_python.Crypto.Identity.{Identity}
use cisc468_python.Node.{Node}
use cisc468_python.Storage.Shares
use cisc468_python.Server.Contacts.{Server}
use cisc468_python.Server.Lifecycle.{Connection, serve}
use cisc468_python.Discovery
use cisc468_python.Discovery.{Advertiser, Event, Peer, discover_peers}
use cisc468_python.App.Opening.{load_stores}

-- The lines that are printed once the server runs.
banner : Identity → ℕ → Node → List Str
banner identity port n =
    []
    ∷ codes " P2P Share Server"
    ∷ (codes "  fingerprint : " ++ identity.fingerprint)
    ∷ (codes "  port        : " ++ show_nat port)
    ∷ (codes "  shared files: " ++ show_nat (length (Shares.all n.shares)))
    ∷ (codes "  contacts    : " ++ show_nat (length n.contacts))
    ∷ []
    ∷ codes "Ctrl+C to stop."
    ∷ []

-- What is seen from outside while the server runs: the lines, and the announcement.
pub record Serving : Type 0 where
  pub printed : List Str
  pub advertiser : Advertiser

abbrev pub server_of : Identity → ℕ → (Str → Str → Str → Bool) → Server
server_of identity port consent = record {
  identity = identity;
  actual_port = port;
  consent_cb = consent;
}

-- What `MDNSAdvertiser` has once it was started.
abbrev pub announced : Option Bytes → Bool → Identity → ℕ → Advertiser
announced address works identity port =
    Discovery.start address works
      (record { fingerprint = identity.fingerprint; port = port; info = none; registered = false })

module _ (r : Runtime) where
  unfoldable pub serve_all : Server → List Connection → Node → Node
  serve_all server [] n = n
  serve_all server (c ∷ cs) n = serve_all server cs (serve r server c n)

  -- The body of `cmd_serve` behind `load_stores`. `address` and `works` are what `MDNSAdvertiser`
  -- meets.
  unfoldable pub serve_peers :
      Option Bytes
      → Bool
      → Identity
      → ℕ
      → (Str → Str → Str → Bool)
      → List Connection
      → Exec Node Serving
  unfolding serve_all banner
  serve_peers address works identity port consent connections = do
    lines ← gets (banner identity port)
    modify (serve_all (server_of identity port consent) connections)
    pure (record { printed = lines; advertiser = announced address works identity port })

  -- `cmd_serve`
  unfoldable pub cmd_serve :
      Option Bytes → Bool → Str → ℕ → (Str → Str → Str → Bool) → List Connection → Exec Node Serving
  unfolding serve_peers
  cmd_serve address works password port consent connections = do
    identity ← load_stores r password
    serve_peers address works identity port consent connections

or_none : Option Str → Str
or_none none = codes "None"
or_none (some s) = s

peer_lines : List Peer → List Str
unfolding or_none
peer_lines [] = []
peer_lines (p ∷ ps) =
    (codes "  " ++ (p.host ++ (codes ":" ++ show_nat p.port)))
    ∷ (codes "    fingerprint: " ++ or_none p.fingerprint)
    ∷ peer_lines ps

found_lines : List Peer → List Str
unfolding peer_lines
found_lines [] = codes "No peers found." ∷ []
found_lines (p ∷ ps) =
    []
    ∷ (codes "Found " ++ (show_nat (length (p ∷ ps)) ++ codes " peer(s):"))
    ∷ []
    ∷ (peer_lines (p ∷ ps) ++ [] ∷ codes "Use: add-contact <host:port>" ∷ [])

-- `cmd_discover`, by the events that the browser saw, or the text of the exception that it raised
unfoldable pub cmd_discover : Result (List Event) → Str → List Str
unfolding found_lines
cmd_discover (ok events) message =
    codes "Scanning LAN for peers (5 s)..." ∷ found_lines (discover_peers events)
cmd_discover (err e) message =
    codes "Scanning LAN for peers (5 s)..." ∷ (codes "[ERROR] Discovery failed: " ++ message) ∷ []
