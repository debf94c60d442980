-- ===== src/Client/Transfer/Receipt.antt =====
-- What a client has checked of a file that it stored.
use cisc468_python.Base.{
  ℕ, zero, suc, Bytes, Str, codes, Bool, true, false, if◌then◌else◌, str_eq, Option, [], none, some,
  Exec, pure, lift, ok, err, Result, ◌≡◌, refl, ◌∙◌, sym, ap, arith, lift-ok, bind-ok, Bool-cases,
  inl, inr,
}
use cisc468_python.Base.Keeps.{Keeps, Keeps-bind, Keeps-lift, Keeps-pure, keeps_rules}
use cisc468_python.Json.{
  Json, str, null, bool, int, real, arr, obj, get, set_field, is_str, is_str_iff,
}
use cisc468_python.Runtime.{Runtime, IsLawful, py_str}
use cisc468_python.Crypto.Base64.{b64e, b64d}
use cisc468_python.Crypto.Session.{SessionKeys}
use cisc468_python.Node.{Contact, Node, urandom}
use cisc468_python.Node.Quiet.{SameStores, SameStores-IsQuiet, same_after, IsQuiet}
use cisc468_python.Storage.Contacts
use cisc468_python.Storage.Received
use cisc468_python.Storage.Received.{load-save}
use cisc468_python.Protocol.{recv_frame}
use cisc468_python.Protocol.Quiet.{recv_frame-Keeps}
use cisc468_python.Server.Contacts.{get_contact, raw_pub_bytes}
use cisc468_python.Client.Transfer.{
  Start, read_start, manifest_of, meta_of, rounds, Chunks, put_chunk, join_chunks, chunk_of,
  next_chunk, recv_chunks, store_content, finish_transfer, recv_content, check_manifest,
  check_owner, recv_transfer,
}

-- The stored file has the hash of a manifest that its owner, a contact, has signed. It is the only
-- file that changed.
pub record Receipt (r : Runtime) (start_env : Json) (n n' : Node) : Type 0 where
  pub s : Start
  pub started : read_start start_env ≡ ok s
  pub owner_name : Str
  pub named : s.owner_fp ≡ str owner_name
  pub owner : Contact
  pub known : Contacts.get owner_name n.contacts ≡ some owner
  pub owner_pub : Bytes
  pub has_pub : raw_pub_bytes owner ≡ ok owner_pub
  pub msig : Bytes
  pub has_sig : b64d s.manif_sig ≡ ok msig
  pub signed : r.ed25519_accepts owner_pub msig (manifest_of s) ≡ true
  pub content : Bytes
  pub hashed : s.exp_sha ≡ str (r.sha256_hex content)
  pub nonce : Bytes
  pub loads :
      (other : Str)
      → Received.load r other n' ≡ (
          if str_eq (py_str r s.file_id) other
          then ok (content, set_field (codes "nonce") (str (b64e nonce)) (meta_of s))
          else Received.load r other n)
  pub contacts : n'.contacts ≡ n.contacts

module _ {κ} (r : Runtime) (session : SessionKeys) (s : Start) {P : Node → Type κ}
    (quiet : IsQuiet P) where
  next_chunk-Keeps :
      (go : ℕ → Bytes → Exec Node (Option Chunks)) (chunk : Option (ℕ × Bytes))
      → ((i : ℕ) (plain : Bytes) → Keeps P (go i plain))
      → Keeps P (next_chunk r session s go chunk)
  unfolding next_chunk
  next_chunk-Keeps go none h = Keeps-pure none
  next_chunk-Keeps go (some (i, plain)) h = h i plain

  pub recv_chunks-Keeps :
      (left : ℕ) (chunks : Chunks) → Keeps P (recv_chunks r session s left chunks)
  unfolding recv_chunks
  recv_chunks-Keeps zero chunks = search keeps_rules
  recv_chunks-Keeps (suc left) chunks = Keeps-bind recv_frame _ (recv_frame-Keeps quiet) λ ce.
      Keeps-bind (lift (chunk_of r session s ce)) _ (Keeps-lift (chunk_of r session s ce)) λ chunk.
        next_chunk-Keeps (λ i plain. recv_chunks r session s left (put_chunk i plain chunks)) chunk
          (λ i plain. recv_chunks-Keeps left (put_chunk i plain chunks))

module _ (r : Runtime) where
  pub load_same :
      (n n' : Node) (name : Str)
      → SameStores n n'
      → Received.load r name n' ≡ Received.load r name n
  unfolding Received.load
  load_same n n' name h = rw (h.received, h.file_key) refl

-- What was received before the file was saved, and what `load` reads once it is.
record Saved (r : Runtime) (s : Start) (n n' : Node) : Type 0 where
  content : Bytes
  hashed : s.exp_sha ≡ str (r.sha256_hex content)
  nonce : Bytes
  loads :
      (other : Str)
      → Received.load r other n' ≡ (
          if str_eq (py_str r s.file_id) other
          then ok (content, set_field (codes "nonce") (str (b64e nonce)) (meta_of s))
          else Received.load r other n)
  contacts : n'.contacts ≡ n.contacts

module _ (r : Runtime) (lawful : IsLawful r) (session : SessionKeys) (s : Start) where
  store_content-Saved :
      (content : Bytes) (n n' : Node)
      → store_content r session s content n ≡ (ok true, n')
      → Saved r s n n'
  unfolding store_content
  store_content-Saved content n n' h = elim (Bool-cases (is_str s.exp_sha (r.sha256_hex content))) [
    | inl same ↦
        let run = rw same at h in
        let after : n' ≡ (Received.save r s.file_id content (meta_of s) n).1 =
          (unfold Received.save urandom in sym (ap (λ p. p.1) run)) in
        record {
          content = content;
          hashed = (is_str_iff s.exp_sha (r.sha256_hex content)).0 same;
          nonce = r.urandom n.draws 12;
          loads = λ other. rw after (load-save r lawful s.file_id other content (meta_of s) n);
          contacts = rw after (unfold Received.save urandom in refl);
        }
    | inr differ ↦ let run = rw differ at h in absurd (ground arith)
  ]

  Saved-after : (n n₁ n' : Node) → SameStores n n₁ → Saved r s n₁ n' → Saved r s n n'
  Saved-after n n₁ n' same h = record {
    content = h.content;
    hashed = h.hashed;
    nonce = h.nonce;
    loads = λ other.
        h.loads other
        ∙ ap
            (λ before.
              if str_eq (py_str r s.file_id) other
              then ok (h.content, set_field (codes "nonce") (str (b64e h.nonce)) (meta_of s))
              else before)
            (load_same r n n₁ other same);
    contacts = h.contacts ∙ same.contacts;
  }

  then_joined :
      (b : Bool) (m : Exec Node Bool) (n n' : Node)
      → (if b then m else pure false) n ≡ (ok true, n')
      → (b ≡ true) × (m n ≡ (ok true, n'))
  then_joined true m n n' h = (refl, h)
  then_joined false m n n' h = absurd (ground arith)

  finish_transfer-Saved :
      (total : ℕ) (chunks : Option Chunks) (n n' : Node)
      → finish_transfer r session s total chunks n ≡ (ok true, n')
      → Saved r s n n'
  unfolding finish_transfer
  finish_transfer-Saved total none n n' h = absurd (ground arith)
  finish_transfer-Saved total (some chunks) n n' h =
      let (done, n₁, got, h₁) = bind-ok recv_frame _ n h in
      let (t, typed, h₂) = lift-ok (get done (codes "type") null) _ n₁ h₁ in
      let (_, h₃) = then_joined (is_str t (codes "TRANSFER_DONE")) _ n₁ n' h₂ in
      let (content, joined, h₄) = lift-ok (join_chunks total 0 chunks) _ n₁ h₃ in
      Saved-after n n₁ n' (same_after recv_frame n n₁ (recv_frame-Keeps (SameStores-IsQuiet n)) got)
        (store_content-Saved content n₁ n' h₄)

  recv_content-Saved : (n n' : Node) → recv_content r session s n ≡ (ok true, n') → Saved r s n n'
  unfolding recv_content
  recv_content-Saved n n' h =
      let (total, counted, h₁) = lift-ok (rounds s.total_ch) _ n h in
      let (chunks, n₁, got, h₂) = bind-ok (recv_chunks r session s total []) _ n h₁ in
      Saved-after n n₁ n'
        (same_after (recv_chunks r session s total []) n n₁
          (recv_chunks-Keeps r session s (SameStores-IsQuiet n) total []) got)
        (finish_transfer-Saved total chunks n₁ n' h₂)

  -- What is known of the owner when the manifest was accepted.
  check_manifest-Saved :
      (owner : Contact) (sig : Result Bytes) (n n' : Node)
      → check_manifest r session s owner sig n ≡ (ok true, n')
      → (msig : Bytes) × (owner_pub : Bytes) × (sig ≡ ok msig)
        × (raw_pub_bytes owner ≡ ok owner_pub)
        × (r.ed25519_accepts owner_pub msig (manifest_of s) ≡ true)
        × Saved r s n n'
  unfolding check_manifest
  check_manifest-Saved owner (err e) n n' h = absurd (ground arith)
  check_manifest-Saved owner (ok msig) n n' h =
      let (owner_pub, decoded, h₁) = lift-ok (raw_pub_bytes owner) _ n h in
      let (accepted, h₂) =
        then_joined (r.ed25519_accepts owner_pub msig (manifest_of s)) _ n n' h₁ in
      (msig, owner_pub, refl, decoded, accepted, recv_content-Saved n n' h₂)

pub get_contact_lem :
    (fp : Json) (n n' : Node) (found : Option Contact)
    → get_contact fp n ≡ (ok found, n')
    → (name : Str) × (fp ≡ str name) × (Contacts.get name n.contacts ≡ found) × (n' ≡ n)
unfolding get_contact
get_contact_lem (str name) n n' found h = (name, refl, ground arith, ground arith)
get_contact_lem null n n' found h = absurd (ground arith)
get_contact_lem (bool b) n n' found h = absurd (ground arith)
get_contact_lem (int z) n n' found h = absurd (ground arith)
get_contact_lem (real t) n n' found h = absurd (ground arith)
get_contact_lem (arr xs) n n' found h = absurd (ground arith)
get_contact_lem (obj fs) n n' found h = absurd (ground arith)

module _ (r : Runtime) (lawful : IsLawful r) where
  check_owner-Receipt :
      (session : SessionKeys) (start_env : Json) (s : Start) (name : Str) (found : Option Contact)
      (n n' : Node)
      → read_start start_env ≡ ok s
      → s.owner_fp ≡ str name
      → Contacts.get name n.contacts ≡ found
      → check_owner r session s found n ≡ (ok true, n')
      → Receipt r start_env n n'
  unfolding check_owner
  check_owner-Receipt session start_env s name none n n' started named known h =
      absurd (ground arith)
  check_owner-Receipt session start_env s name (some owner) n n' started named known h =
      let (msig, owner_pub, has_sig, has_pub, signed, saved) =
        check_manifest-Saved r lawful session s owner (b64d s.manif_sig) n n' h in
      record {
        s = s;
        started = started;
        owner_name = name;
        named = named;
        owner = owner;
        known = known;
        owner_pub = owner_pub;
        has_pub = has_pub;
        msig = msig;
        has_sig = has_sig;
        signed = signed;
        content = saved.content;
        hashed = saved.hashed;
        nonce = saved.nonce;
        loads = saved.loads;
        contacts = saved.contacts;
      }

  pub recv_transfer-Receipt :
      (session : SessionKeys) (start_env : Json) (n n' : Node)
      → recv_transfer r session start_env n ≡ (ok true, n')
      → Receipt r start_env n n'
  unfolding recv_transfer
  recv_transfer-Receipt session start_env n n' h =
      let (s, started, h₁) = lift-ok (read_start start_env) _ n h in
      let (found, n₁, got, h₂) = bind-ok (get_contact s.owner_fp) _ n h₁ in
      let (name, named, known, same) = get_contact_lem s.owner_fp n n₁ found got in
      check_owner-Receipt session start_env s name found n n' started named known (rw same at h₂)
