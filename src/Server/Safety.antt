-- ===== src/Server/Safety.antt =====
-- What holds of the stores after any connections, whatever the peers send.
use cisc468_python.Base.{Str, ◌≡◌, some, true}
use cisc468_python.Base.Dict.{Dict, lookup}
use cisc468_python.Runtime.{Runtime, IsLawful}
use cisc468_python.Node.{Contact, Node}
use cisc468_python.Node.Quiet.{SameStores}
use cisc468_python.Storage.Contacts.Invariant.{
  StoreOk, add-StoreOk, mark_revoked-StoreOk, update_address-StoreOk,
}
use cisc468_python.Storage.Contacts.Trust.{
  TrustsOnly, TrustsOnly-refl, add-TrustsOnly, mark_revoked-TrustsOnly, update_address-TrustsOnly,
}
use cisc468_python.Server.Contacts.{Server}
use cisc468_python.Server.Contacts.Keeps.{IsKept}
use cisc468_python.Server.Dispatch.{handle_connection}
use cisc468_python.Server.Dispatch.Keeps.{handle_connection-Keeps}

module _ (r : Runtime) (lawful : IsLawful r) where
  pub record Trusted (before : Dict Contact) (n : Node) : Type 0 where
    pub store : StoreOk r n
    pub trusts : TrustsOnly before n.contacts

  StoreOk-quiet : (n n' : Node) → SameStores n n' → StoreOk r n → StoreOk r n'
  StoreOk-quiet n n' s h = record {
    keyed = rw s.contacts h.keyed;
    nodup = rw s.contacts h.nodup;
    synced = rw (s.contacts, s.contacts_file, s.file_key) h.synced;
  }

  pub StoreOk-IsKept : IsKept r (StoreOk r)
  StoreOk-IsKept = record {
    quiet = record { moves = StoreOk-quiet };
    adds = λ c unverified. record { at = add-StoreOk r lawful c };
    revokes = λ fp s. record { at = mark_revoked-StoreOk r lawful fp s };
    relocates = λ fp host port. record { at = update_address-StoreOk r lawful fp host port };
  }

  pub Trusted-IsKept : (before : Dict Contact) → IsKept r (Trusted before)
  Trusted-IsKept before = record {
    quiet = record {
      moves = λ n n' s h. record {
        store = StoreOk-quiet n n' s h.store;
        trusts = rw s.contacts h.trusts;
      };
    };
    adds = λ c unverified. record {
      at = λ n h. record {
        store = add-StoreOk r lawful c n h.store;
        trusts = add-TrustsOnly r before c n unverified h.trusts;
      };
    };
    revokes = λ fp s. record {
      at = λ n h. record {
        store = mark_revoked-StoreOk r lawful fp s n h.store;
        trusts = mark_revoked-TrustsOnly r before fp s n h.store.nodup h.trusts;
      };
    };
    relocates = λ fp host port. record {
      at = λ n h. record {
        store = update_address-StoreOk r lawful fp host port n h.store;
        trusts = update_address-TrustsOnly r before fp host port n h.store.nodup h.trusts;
      };
    };
  }

  -- After a connection from any host, whatever frames it sends and whatever goes wrong: the keys of
  -- the contact store are still unique, each over the contact with that fingerprint, and the
  -- contacts on disk decrypt to those in memory, if they did before.
  pub handle_connection-StoreOk :
      (server : Server) (host : Str) (n : Node)
      → StoreOk r n
      → StoreOk r (handle_connection r server host n)
  handle_connection-StoreOk server host n h =
      handle_connection-Keeps r server StoreOk-IsKept host n h

  -- No peer can make itself trusted: each contact that is verified after a connection was verified
  -- before it, under the same fingerprint and with the same public key, if the store was well formed.
  pub handle_connection-TrustsOnly :
      (server : Server) (host : Str) (n : Node) (fp : Str) (c : Contact)
      → StoreOk r n
      → lookup fp (handle_connection r server host n).contacts ≡ some c
      → c.verified ≡ true
      → (o : Contact) × (lookup fp n.contacts ≡ some o)
        × (o.verified ≡ true)
        × (o.raw_pub ≡ c.raw_pub)
  handle_connection-TrustsOnly server host n fp c h found verified =
      (handle_connection-Keeps r server (Trusted-IsKept n.contacts) host n
          (record { store = h; trusts = TrustsOnly-refl n.contacts })).trusts
        fp c found verified
