-- ===== src/Client/Contacts/Quiet.antt =====
-- The notices of a key rotation change no store.
use cisc468_python.Base.{List, [], ◌∷◌}
use cisc468_python.Base.Keeps.{Keeps, Keeps-if, Keeps-pure, keeps_rules}
use cisc468_python.Json.{Json}
use cisc468_python.Runtime.{Runtime}
use cisc468_python.Crypto.Identity.{Identity}
use cisc468_python.Node.{Contact, Node}
use cisc468_python.Node.Quiet.{IsQuiet}
use cisc468_python.Protocol.Quiet.{build_envelope-Keeps, send_frame-Keeps, recv_frame-Keeps}
use cisc468_python.Client.Contacts.{notify_one, notify_all, notify_key_rotation}
use cisc468_python.Client.Contacts.Adding.{connect-Keeps}

module _ {κ} {P : Node → Type κ} (quiet : IsQuiet P) where
  notify_one-Keeps : (env : Json) → Keeps P (notify_one env)
  unfolding notify_one
  notify_one-Keeps env =
      search (keeps_rules, connect-Keeps, send_frame-Keeps, recv_frame-Keeps) depth 12

  notify_all-Keeps : (env : Json) (contacts : List Contact) → Keeps P (notify_all env contacts)
  unfolding notify_all
  notify_all-Keeps env [] = Keeps-pure 0
  notify_all-Keeps env (c ∷ cs) =
      let rest = notify_all-Keeps env cs in
      Keeps-if c.revoked _ _ rest (search (keeps_rules, notify_one-Keeps) depth 12)

  pub notify_key_rotation-Keeps :
      (r : Runtime) (old_identity new_identity : Identity)
      → Keeps P (notify_key_rotation r old_identity new_identity)
  unfolding notify_key_rotation
  notify_key_rotation-Keeps r old_identity new_identity =
      search (keeps_rules, build_envelope-Keeps, notify_all-Keeps) depth 12
