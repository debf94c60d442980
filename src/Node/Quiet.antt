-- ===== src/Node/Quiet.antt =====
-- Invariants of a peer that the connection is no part of.
use cisc468_python.Base.{ℕ, ◌≡◌, ◌∙◌, ap, arith, Exec, Result}
use cisc468_python.Base.Keeps.{Keeps}
use cisc468_python.Runtime.{Runtime}
use cisc468_python.Node.{Node, urandom, uuid4}

-- All but the connection and the draws is the same.
pub record SameStores (n n' : Node) : Type 0 where
  pub contacts : n'.contacts ≡ n.contacts
  pub contacts_file : n'.contacts_file ≡ n.contacts_file
  pub file_key : n'.file_key ≡ n.file_key
  pub shares : n'.shares ≡ n.shares
  pub shares_file : n'.shares_file ≡ n.shares_file
  pub received : n'.received ≡ n.received
  pub listings : n'.listings ≡ n.listings
  pub disk : n'.disk ≡ n.disk
  pub identity_file : n'.identity_file ≡ n.identity_file
  pub salt_file : n'.salt_file ≡ n.salt_file

pub SameStores-refl : (n : Node) → SameStores n n
SameStores-refl n = ground arith

pub SameStores-trans : (n m k : Node) → SameStores n m → SameStores m k → SameStores n k
SameStores-trans n m k s t = record {
  contacts = t.contacts ∙ s.contacts;
  contacts_file = t.contacts_file ∙ s.contacts_file;
  file_key = t.file_key ∙ s.file_key;
  shares = t.shares ∙ s.shares;
  shares_file = t.shares_file ∙ s.shares_file;
  received = t.received ∙ s.received;
  listings = t.listings ∙ s.listings;
  disk = t.disk ∙ s.disk;
  identity_file = t.identity_file ∙ s.identity_file;
  salt_file = t.salt_file ∙ s.salt_file;
}

-- An invariant of which the connection is no part.
pub record IsQuiet {κ} (P : Node → Type κ) : Type κ where
  pub moves : (n n' : Node) → SameStores n n' → P n → P n'

pub SameStores-IsQuiet : (n : Node) → IsQuiet (SameStores n)
SameStores-IsQuiet n = record { moves = λ m k s h. SameStores-trans n m k h s }

-- A run of code that keeps every quiet invariant changes no store.
pub same_after {ℓ} :
    {A : Type ℓ} (m : Exec Node A) (n n' : Node) {a : Result A}
    → Keeps (SameStores n) m
    → m n ≡ (a, n')
    → SameStores n n'
same_after m n n' keeps h = rw (ap (λ p. p.1) h) at (keeps.at n (SameStores-refl n))

module _ {κ} (r : Runtime) {P : Node → Type κ} (quiet : IsQuiet P) where
  pub urandom-Keeps : (size : ℕ) → Keeps P (urandom r size)
  unfolding urandom
  urandom-Keeps size = record { at = λ n h. quiet.moves n (urandom r size n).1 (ground arith) h }

  pub uuid4-Keeps : Keeps P (uuid4 r)
  unfolding uuid4
  uuid4-Keeps = record { at = λ n h. quiet.moves n (uuid4 r n).1 (ground arith) h }
