-- ===== src/App/Opening/Serving.antt =====
-- A peer from its first start on: what `load_stores` sets up, serving keeps, and a new start restores.
use cisc468_python.Base.{Str, Option, ok, ◌≡◌, inl, inr, ◌∙◌, arith, Option-cases}
use cisc468_python.Json.{Json}
use cisc468_python.Runtime.{Runtime, IsLawful}
use cisc468_python.Crypto.Identity.{Identity}
use cisc468_python.Node.{Contact, Node, urandom}
use cisc468_python.Storage.Contacts
use cisc468_python.Storage.Contacts.{find}
use cisc468_python.Storage.Contacts.Invariant.{StoreOk}
use cisc468_python.Storage.Contacts.Loading.Reloaded.{ArePlain}
use cisc468_python.Storage.Shares.Spec.{IsSynced}
use cisc468_python.Server.Contacts.{Server}
use cisc468_python.Server.Contacts.Keeps.{IsKept}
use cisc468_python.Server.Safety.{StoreOk-IsKept}
use cisc468_python.Server.Lifecycle.{Daemon, Reach}
use cisc468_python.Server.Lifecycle.Reachable.{Reach-kept}
use cisc468_python.App.Keyfile
use cisc468_python.App.Opening.{load_stores, stopped}
use cisc468_python.App.Opening.Reopened.{RunsAs, load_stores-stopped}

-- Two states with the same files of the identity, and the same index of shared files.
record SameHome (n n' : Node) : Type 0 where
  identity_file : n'.identity_file ≡ n.identity_file
  salt_file : n'.salt_file ≡ n.salt_file
  file_key : n'.file_key ≡ n.file_key
  shares : n'.shares ≡ n.shares
  shares_file : n'.shares_file ≡ n.shares_file

module _ (r : Runtime) where
  add-SameHome : (c : Contact) (n : Node) → SameHome n (Contacts.add r c n).1
  unfolding Contacts.add urandom
  add-SameHome c n = ground arith

  mark_revoked-SameHome :
      (fp : Str) (s : Option Str) (n : Node) → SameHome n (Contacts.mark_revoked r fp s n).1
  unfolding Contacts.mark_revoked urandom
  mark_revoked-SameHome fp s n = elim (Option-cases (find fp n.contacts)) [
    | inl absent ↦ rw absent (ground arith)
    | inr (e, found) ↦ rw found (ground arith)
  ]

  update_address-SameHome :
      (fp host : Str) (port : Json) (n : Node)
      → SameHome n (Contacts.update_address r fp host port n).1
  unfolding Contacts.update_address urandom
  update_address-SameHome fp host port n = elim (Option-cases (find fp n.contacts)) [
    | inl absent ↦ rw absent (ground arith)
    | inr (e, found) ↦ rw found (ground arith)
  ]

module _ (r : Runtime) (password : Str) (identity : Identity) where
  record AtHome (n : Node) : Type 0 where
    runs : RunsAs r password identity n
    index : IsSynced n

  AtHome-SameHome : (n n' : Node) → SameHome n n' → AtHome n → AtHome n'
  unfolding Keyfile.load
  AtHome-SameHome n n' s h = record {
    runs = record {
      key_file = h.runs.key_file;
      salt = h.runs.salt;
      secret = h.runs.secret;
      written = s.identity_file ∙ h.runs.written;
      unlocks = rw s.identity_file h.runs.unlocks;
      salted = s.salt_file ∙ h.runs.salted;
      encodes = h.runs.encodes;
      key = s.file_key ∙ h.runs.key;
    };
    index = rw (s.shares, s.shares_file) h.index;
  }

  AtHome-IsKept : IsKept r AtHome
  AtHome-IsKept = record {
    quiet = record {
      moves = λ n n' s h.
          AtHome-SameHome n n'
            (record {
              identity_file = s.identity_file;
              salt_file = s.salt_file;
              file_key = s.file_key;
              shares = s.shares;
              shares_file = s.shares_file;
            })
            h;
    };
    adds = λ c _. record {
      at = λ n h. AtHome-SameHome n (Contacts.add r c n).1 (add-SameHome r c n) h;
    };
    revokes = λ fp s. record {
      at = λ n h.
          AtHome-SameHome n (Contacts.mark_revoked r fp s n).1 (mark_revoked-SameHome r fp s n) h;
    };
    relocates = λ fp host port. record {
      at = λ n h.
          AtHome-SameHome n (Contacts.update_address r fp host port n).1
            (update_address-SameHome r fp host port n) h;
    };
  }

  -- A server may be stopped at any time: after any connections, in any order and with any frames, the
  -- same password on what is left on disk gives the same identity and exactly the state in which the
  -- server was stopped. The server started from a well-formed state that ran as the identity under the
  -- password; the contacts at the end are plain.
  pub load_stores-Reach :
      (lawful : IsLawful r) (server : Server) (d e : Daemon)
      → RunsAs r password identity d.node
      → StoreOk r d.node
      → IsSynced d.node
      → Reach r server d e
      → ArePlain e.node.contacts
      → load_stores r password (stopped e.node) ≡ (ok identity, e.node)
  load_stores-Reach lawful server d e runs store index reached plain =
      let home =
        Reach-kept r server AtHome-IsKept reached (record { runs = runs; index = index }) in
      load_stores-stopped r password identity e.node home.runs
        (Reach-kept r server (StoreOk-IsKept r lawful) reached store) plain home.index
