-- ===== src/App/Serving/Restart.antt =====
-- A server that ran from the first start of a peer on.
use cisc468_python.Base.{
  ℕ, Bytes, Str, Bool, true, false, List, [], ◌∷◌, Option, none, ok, ◌≡◌, refl, ap,
}
use cisc468_python.Runtime.{Runtime, IsLawful}
use cisc468_python.Node.{Node}
use cisc468_python.Server.Contacts.{Server}
use cisc468_python.Server.Lifecycle.{
  Daemon, Connection, started, serve, Reach, here, next, start, accept,
}
use cisc468_python.Crypto.Identity.{Identity, IsIdentity}
use cisc468_python.Crypto.Packing.{utf8}
use cisc468_python.Storage.Contacts.Loading.Reloaded.{ArePlain}
use cisc468_python.App.Opening.{load_stores, stopped}
use cisc468_python.App.Opening.First.{load_stores-RunsAs}
use cisc468_python.App.Opening.Serving.{load_stores-Reach}
use cisc468_python.App.Serving.{
  Serving, server_of, serve_all, serve_peers, cmd_serve, banner, announced,
}

module _ (r : Runtime) (server : Server) where
  -- The connections are steps of a running server.
  serve_all-Reach :
      (cs : List Connection) (d e : Daemon)
      → e.running ≡ true
      → e.listening ≡ true
      → Reach r server d e
      → Reach r server d (record e { node = serve_all r server cs e.node })
  unfolding serve_all
  serve_all-Reach [] d e runs listens reached = reached
  serve_all-Reach (c ∷ cs) d e runs listens reached =
      serve_all-Reach cs d (record e { node = serve r server c e.node }) runs listens
        (next reached (accept e c (rw (runs, listens) refl)))

module _ (r : Runtime) where
  cmd_serve_lem :
      (address : Option Bytes) (works : Bool) (password : Str) (port : ℕ)
      (consent : Str → Str → Str → Bool) (connections : List Connection) (n n₁ : Node)
      (identity : Identity)
      → load_stores r password n ≡ (ok identity, n₁)
      → (serving : Serving) × (cmd_serve r address works password port consent connections n
          ≡ (ok serving, serve_all r (server_of identity port consent) connections n₁))
  unfolding cmd_serve serve_peers
  cmd_serve_lem address works password port consent connections n n₁ identity opened = (
    record {
      printed = banner identity port n₁;
      advertiser = announced address works identity port;
    },
    rw opened refl,
  )

module _ (r : Runtime) (lawful : IsLawful r) where
  -- `serve` on a directory with no files, under a password that has an encoding, with any
  -- connections, in any order and with any frames: it makes an identity and returns; and if the
  -- contacts at its end are plain, the same password on what is left on disk opens that identity, and
  -- gives exactly the state in which the server ended.
  pub load_stores-cmd_serve :
      (address : Option Bytes) (works : Bool) (password secret : Str) (port : ℕ)
      (consent : Str → Str → Str → Bool) (connections : List Connection) (n : Node)
      → let (res, n') = cmd_serve r address works password port consent connections n in
        utf8 password ≡ ok secret
        → n.identity_file ≡ none
        → n.contacts_file ≡ none
        → n.shares_file ≡ none
        → ArePlain n'.contacts
        → (identity : Identity) × (serving : Serving) × (res ≡ ok serving)
          × IsIdentity r identity
          × (load_stores r password (stopped n') ≡ (ok identity, n'))
  unfolding started
  load_stores-cmd_serve address works password secret port consent connections n encodes absent
        no_contacts no_shares plain =
      let (identity, n₁, opened, is_id, runs, store, synced, _, _) =
        load_stores-RunsAs r lawful password n secret encodes absent no_contacts no_shares in
      let server = server_of identity port consent in
      let idle : Daemon = record {
        node = n₁;
        running = false;
        listening = false;
        cert_files = false;
      } in
      let reached =
        serve_all-Reach r server connections idle (started idle) refl refl
          (next here (start idle)) in
      let (serving, ran) =
        cmd_serve_lem r address works password port consent connections n n₁ identity opened in
      let last = ap (λ p. p.1) ran in
      (
        identity,
        serving,
        ap (λ p. p.0) ran,
        is_id,
        rw last (
            load_stores-Reach r password identity lawful server idle _ runs store synced reached
              (rw last at plain)),
      )
