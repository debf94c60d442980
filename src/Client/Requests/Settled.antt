-- ===== src/Client/Requests/Settled.antt =====
-- The two outcomes of a request, and how runs with such an outcome are put together.
use cisc468_python.Base.{
  codes, Bool, true, false, if◌then◌else◌, str_eq, Exec, Exn, pure, try, catch, continue, ◌>>=◌,
  Result, ok, err, ◌≡◌, ◌⊎◌, inl, inr, sym, ◌∙◌, ap, arith,
}
use cisc468_python.Json.{Json, str, set_field}
use cisc468_python.Runtime.{Runtime, py_str}
use cisc468_python.Crypto.Base64.{b64e}
use cisc468_python.Node.{Node}
use cisc468_python.Node.Quiet.{SameStores, SameStores-refl, SameStores-trans}
use cisc468_python.Storage.Contacts
use cisc468_python.Client.Transfer.{meta_of}
use cisc468_python.Client.Transfer.Receipt.{Receipt, load_same}
use cisc468_python.Client.Transfer.Refusal.{Still}

-- A run that returned True has a receipt, and any other one changed no store.
abbrev pub Outcome : Runtime → Node → Result Bool × Node → Type 0
Outcome r n (b, n') =
    ((b ≡ ok true) × ((start_env : Json) × Receipt r start_env n n')) ⊎ SameStores n n'

module _ (r : Runtime) where
  Receipt-after :
      (start_env : Json) (n n₁ n' : Node)
      → SameStores n n₁
      → Receipt r start_env n₁ n'
      → Receipt r start_env n n'
  Receipt-after start_env n n₁ n' same h = record {
    s = h.s;
    started = h.started;
    owner_name = h.owner_name;
    named = h.named;
    owner = h.owner;
    known = ap (Contacts.get h.owner_name) (sym same.contacts) ∙ h.known;
    owner_pub = h.owner_pub;
    has_pub = h.has_pub;
    msig = h.msig;
    has_sig = h.has_sig;
    signed = h.signed;
    content = h.content;
    hashed = h.hashed;
    nonce = h.nonce;
    loads = λ other.
        h.loads other
        ∙ ap
            (λ before.
              if str_eq (py_str r h.s.file_id) other
              then ok (h.content, set_field (codes "nonce") (str (b64e h.nonce)) (meta_of h.s))
              else before)
            (load_same r n n₁ other same);
    contacts = h.contacts ∙ same.contacts;
  }

  pub Outcome-after :
      (n n₁ : Node) (p : Result Bool × Node) → SameStores n n₁ → Outcome r n₁ p → Outcome r n p
  Outcome-after n n₁ (b, n') same (inl (done, (start_env, receipt))) =
      inl (done, (start_env, Receipt-after start_env n n₁ n' same receipt))
  Outcome-after n n₁ (b, n') same (inr h) = inr (SameStores-trans n n₁ n' same h)

-- Every run of `m` has one of the two outcomes.
pub record Settled (r : Runtime) (m : Exec Node Bool) : Type 0 where
  pub at : (n : Node) → Outcome r n (m n)

module _ (r : Runtime) where
  pub Settled-false : Settled r (pure false)
  Settled-false = record { at = λ n. inr (SameStores-refl n) }

  pub Settled-if :
      (b : Bool) (m k : Exec Node Bool) → Settled r m → Settled r k → Settled r (if b then m else k)
  Settled-if true m k hm hk = hm
  Settled-if false m k hm hk = hk

  continue-Settled {ℓ} :
      {A : Type ℓ} (a : Result A) (k : A → Exec Node Bool) (n n₁ : Node)
      → ((a : A) → Settled r (k a))
      → SameStores n n₁
      → Outcome r n (continue a k n₁)
  continue-Settled (ok a) k n n₁ settled same =
      Outcome-after r n n₁ (k a n₁) same ((settled a).at n₁)
  continue-Settled (err e) k n n₁ settled same = inr same

  pub Settled-bind {ℓ} :
      {A : Type ℓ} (m : Exec Node A) (k : A → Exec Node Bool)
      → Still m
      → ((a : A) → Settled r (k a))
      → Settled r (m >>= k)
  Settled-bind m k still settled = record {
    at = λ n.
        continue-Settled (m n).0 k n (m n).1 settled ((still.keeps n).at n (SameStores-refl n));
  }

  catch-Settled :
      (p : Result Bool × Node) (k : Exn → Exec Node Bool) (n : Node)
      → ((e : Exn) → Settled r (k e))
      → Outcome r n p
      → Outcome r n (catch p.0 k p.1)
  catch-Settled (ok b, n₁) k n settled h = h
  catch-Settled (err e, n₁) k n settled (inl (done, receipt)) = absurd (ground arith)
  catch-Settled (err e, n₁) k n settled (inr same) =
      Outcome-after r n n₁ (k e n₁) same ((settled e).at n₁)

  pub Settled-try :
      (m : Exec Node Bool) (k : Exn → Exec Node Bool)
      → Settled r m
      → ((e : Exn) → Settled r (k e))
      → Settled r (try m k)
  Settled-try m k hm hk = record { at = λ n. catch-Settled (m n) k n hk (hm.at n) }
