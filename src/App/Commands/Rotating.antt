-- ===== src/App/Commands/Rotating.antt =====
-- What a key rotation leaves on disk.
use cisc468_python.Base.{Str, true, str_eq_refl, Option, ok, bind-ok, ◌≡◌, ◌∙◌, ap}
use cisc468_python.Base.Dict.{Dict}
use cisc468_python.Runtime.{Runtime, IsLawful}
use cisc468_python.Crypto.Identity.{Identity}
use cisc468_python.Node.{Node, Sealed, Received}
use cisc468_python.Node.Quiet.{IsQuiet}
use cisc468_python.Client.Contacts.{notify_key_rotation}
use cisc468_python.Client.Contacts.Quiet.{notify_key_rotation-Keeps}
use cisc468_python.App.Keyfile
use cisc468_python.App.Keyfile.{load-save_identity}
use cisc468_python.App.Keyfile.Files.{generate-ok, save-ok}
use cisc468_python.App.Commands.{rotate_key, rotate_confirmed}

-- The file of the identity loads under the password as `fresh`; the encrypted files are `contacts`
-- and `received`.
record OnDisk (r : Runtime) (password : Str) (fresh : Identity) (contacts : Option Sealed)
    (received : Dict Received) (n : Node) : Type 0 where
  loads : Keyfile.load r password n ≡ ok fresh
  contacts_file : n.contacts_file ≡ contacts
  files : n.received ≡ received

module _ (r : Runtime) where
  OnDisk-IsQuiet :
      (password : Str) (fresh : Identity) (contacts : Option Sealed) (received : Dict Received)
      → IsQuiet (OnDisk r password fresh contacts received)
  unfolding Keyfile.load
  OnDisk-IsQuiet password fresh contacts received = record {
    moves = λ n n' s h. record {
      loads = rw s.identity_file h.loads;
      contacts_file = s.contacts_file ∙ h.contacts_file;
      files = s.received ∙ h.files;
    };
  }

module _ (r : Runtime) (lawful : IsLawful r) where
  -- After `cmd_rotate_key` that was confirmed and ended without an error: the identity on disk is the
  -- new one, and loads under the new password; the encrypted contacts and the received files on disk
  -- are the very ones from before, so that nothing was encrypted anew.
  pub rotate_key-load :
      (identity : Identity) (new_pw : Str) (n n' : Node)
      → rotate_key r identity true new_pw new_pw n ≡ (ok tt, n')
      → (fresh : Identity) × ((Keyfile.generate r n).0 ≡ ok fresh)
        × (Keyfile.load r new_pw n' ≡ ok fresh)
        × (n'.contacts_file ≡ n.contacts_file)
        × (n'.received ≡ n.received)
  unfolding rotate_key rotate_confirmed
  rotate_key-load identity new_pw n n' h =
      let (fresh, n₁, generated, h₁) = bind-ok (Keyfile.generate r) _ n h in
      let (is_id, drawn) = generate-ok r n n₁ fresh generated in
      let h₂ = rw (str_eq_refl new_pw) at h₁ in
      let (_, n₂, saved, h₃) = bind-ok (Keyfile.save r fresh new_pw) _ n₁ h₂ in
      let (_, written) = save-ok r fresh new_pw n₁ n₂ saved in
      let (_, n₃, notified, h₄) = bind-ok (notify_key_rotation r identity fresh) _ n₂ h₃ in
      let before : OnDisk r new_pw fresh n.contacts_file n.received n₂ = record {
        loads = load-save_identity r lawful fresh new_pw n₁ n₂ is_id saved;
        contacts_file = ap (λ m. m.contacts_file) written ∙ ap (λ m. m.contacts_file) drawn;
        files = ap (λ m. m.received) written ∙ ap (λ m. m.received) drawn;
      } in
      let after : OnDisk r new_pw fresh n.contacts_file n.received n' =
        rw (ap (λ p. p.1) notified ∙ ap (λ p. p.1) h₄) at (
          (notify_key_rotation-Keeps (OnDisk-IsQuiet r new_pw fresh n.contacts_file n.received) r
              identity fresh).at
            n₂ before) in
      (fresh, ap (λ p. p.0) generated, after.loads, after.contacts_file, after.files)
