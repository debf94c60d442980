-- ===== src/Client/Transfer/Refusal.antt =====
-- A transfer that does not end with True stores nothing.
use cisc468_python.Base.{
  ℕ, Bytes, Bool, true, false, if◌then◌else◌, Option, none, some, Exec, pure, lift, continue, ◌>>=◌,
  ok, err, Result, ◌≡◌, ◌≢◌, ◌⊎◌, inl, inr, refl,
}
use cisc468_python.Base.Keeps.{Keeps, Keeps-lift}
use cisc468_python.Json.{Json}
use cisc468_python.Runtime.{Runtime}
use cisc468_python.Crypto.Session.{SessionKeys}
use cisc468_python.Crypto.Base64.{b64d}
use cisc468_python.Node.{Contact, Node, urandom}
use cisc468_python.Node.Quiet.{SameStores, SameStores-refl, SameStores-trans, SameStores-IsQuiet}
use cisc468_python.Storage.Received
use cisc468_python.Protocol.Quiet.{recv_frame-Keeps}
use cisc468_python.Protocol.{recv_frame}
use cisc468_python.Server.Contacts.{get_contact}
use cisc468_python.Server.Contacts.Keeps.{get_contact-Keeps}
use cisc468_python.Client.Transfer.{
  Start, Chunks, recv_chunks, store_content, finish_transfer, recv_content, check_manifest,
  check_owner, recv_transfer,
}
use cisc468_python.Client.Transfer.Receipt.{recv_chunks-Keeps}

-- `m` returns True, or it changes no store.
record Careful (m : Exec Node Bool) : Type 0 where
  at : (n : Node) → ((m n).0 ≡ ok true) ⊎ SameStores n (m n).1

-- `m` changes no store.
pub record Still {ℓ} {A : Type ℓ} (m : Exec Node A) : Type ℓ where
  pub keeps : (n : Node) → Keeps (SameStores n) m

Careful-false : Careful (pure false)
Careful-false = record { at = λ n. inr (SameStores-refl n) }

Careful-if :
    (b : Bool) (m k : Exec Node Bool) → Careful m → Careful k → Careful (if b then m else k)
Careful-if true m k hm hk = hm
Careful-if false m k hm hk = hk

module _ {ℓ} {A : Type ℓ} where
  pub Still-lift : (a : Result A) → Still (lift a)
  Still-lift a = record { keeps = λ n. Keeps-lift a }

  continue-Careful :
      (a : Result A) (k : A → Exec Node Bool) (n n₁ : Node)
      → ((a : A) → Careful (k a))
      → SameStores n n₁
      → ((continue a k n₁).0 ≡ ok true) ⊎ SameStores n (continue a k n₁).1
  continue-Careful (ok a) k n n₁ careful same = elim ((careful a).at n₁) [
    | inl done ↦ inl done
    | inr h ↦ inr (SameStores-trans n n₁ (k a n₁).1 same h)
  ]
  continue-Careful (err e) k n n₁ careful same = inr same

  Careful-bind :
      (m : Exec Node A) (k : A → Exec Node Bool)
      → Still m
      → ((a : A) → Careful (k a))
      → Careful (m >>= k)
  Careful-bind m k still careful = record {
    at = λ n.
        continue-Careful (m n).0 k n (m n).1 careful ((still.keeps n).at n (SameStores-refl n));
  }

pub Still-recv_frame : Still recv_frame
Still-recv_frame = record { keeps = λ n. recv_frame-Keeps (SameStores-IsQuiet n) }

Still-get_contact : (fp : Json) → Still (get_contact fp)
Still-get_contact fp = record { keeps = λ n. get_contact-Keeps fp }

ruleset careful_rules =
    (Careful-false, Careful-if, Careful-bind, Still-lift, Still-recv_frame, Still-get_contact)

module _ (r : Runtime) (session : SessionKeys) (s : Start) where
  store_content-Careful : (content : Bytes) → Careful (store_content r session s content)
  unfolding store_content Received.save urandom
  store_content-Careful content = Careful-if _ _ _ (record { at = λ n. inl refl }) Careful-false

  Still-recv_chunks : (left : ℕ) (chunks : Chunks) → Still (recv_chunks r session s left chunks)
  Still-recv_chunks left chunks = record {
    keeps = λ n. recv_chunks-Keeps r session s (SameStores-IsQuiet n) left chunks;
  }

  finish_transfer-Careful :
      (total : ℕ) (chunks : Option Chunks) → Careful (finish_transfer r session s total chunks)
  unfolding finish_transfer
  finish_transfer-Careful total none = Careful-false
  finish_transfer-Careful total (some chunks) =
      search (careful_rules, store_content-Careful) depth 12

  recv_content-Careful : Careful (recv_content r session s)
  unfolding recv_content
  recv_content-Careful = search (careful_rules, Still-recv_chunks, finish_transfer-Careful) depth 12

  check_manifest-Careful :
      (owner : Contact) (sig : Result Bytes) → Careful (check_manifest r session s owner sig)
  unfolding check_manifest
  check_manifest-Careful owner (err e) = Careful-false
  check_manifest-Careful owner (ok msig) = search (careful_rules, recv_content-Careful) depth 12

  check_owner-Careful : (owner : Option Contact) → Careful (check_owner r session s owner)
  unfolding check_owner
  check_owner-Careful none = Careful-false
  check_owner-Careful (some owner) = check_manifest-Careful owner (b64d s.manif_sig)

module _ (r : Runtime) (session : SessionKeys) (start_env : Json) where
  recv_transfer-Careful : Careful (recv_transfer r session start_env)
  unfolding recv_transfer
  recv_transfer-Careful = search (careful_rules, check_owner-Careful) depth 12

  pub recv_transfer_cases :
      (n : Node)
      → ((recv_transfer r session start_env n).0 ≡ ok true)
        ⊎ SameStores n (recv_transfer r session start_env n).1
  recv_transfer_cases n = recv_transfer-Careful.at n

  -- A transfer that ends in any other way than with True, by False or by an exception, leaves every
  -- store as it was: no file, no contact and no share changes.
  pub recv_transfer_refuses :
      (n : Node)
      → (recv_transfer r session start_env n).0 ≢ ok true
      → SameStores n (recv_transfer r session start_env n).1
  recv_transfer_refuses n other = elim (recv_transfer-Careful.at n) [
    | inl done ↦ absurd (other done)
    | inr same ↦ same
  ]
