-- ===== src/Client/Requests/Outcome.antt =====
-- What a request for a file comes to.
use cisc468_python.Base.{Str, inl, inr, ap}
use cisc468_python.Base.Keeps.{Keeps, keeps_rules}
use cisc468_python.Json.{Json}
use cisc468_python.Runtime.{Runtime, IsLawful}
use cisc468_python.Crypto.Session.{SessionKeys}
use cisc468_python.Node.{Contact, Node}
use cisc468_python.Node.Quiet.{SameStores-IsQuiet, IsQuiet}
use cisc468_python.Protocol.Quiet.{build_envelope-Keeps, send_frame-Keeps, recv_frame-Keeps}
use cisc468_python.Handshake.Quiet.{perform_handshake_initiator-Keeps}
use cisc468_python.Client.Contacts.Adding.{connect-Keeps}
use cisc468_python.Client.Contacts.{Client}
use cisc468_python.Client.Transfer.{recv_transfer}
use cisc468_python.Client.Transfer.Receipt.{recv_transfer-Receipt}
use cisc468_python.Client.Transfer.Refusal.{
  Still, Still-lift, Still-recv_frame, recv_transfer_cases,
}
use cisc468_python.Client.Requests.{ask}
use cisc468_python.Client.Requests.Settled.{
  Settled, Settled-false, Settled-if, Settled-bind, Settled-try,
}

module _ {κ} (r : Runtime) (client : Client) {P : Node → Type κ} (quiet : IsQuiet P) where
  ask-Keeps : (contact : Contact) (file_id : Str) → Keeps P (ask r client contact file_id)
  unfolding ask
  ask-Keeps contact file_id =
      search
        (
          keeps_rules,
          connect-Keeps,
          perform_handshake_initiator-Keeps r quiet,
          build_envelope-Keeps r quiet,
          send_frame-Keeps quiet,
          recv_frame-Keeps,
        )
        depth 16

module _ (r : Runtime) (lawful : IsLawful r) (client : Client) where
  Settled-recv_transfer :
      (session : SessionKeys) (start_env : Json) → Settled r (recv_transfer r session start_env)
  Settled-recv_transfer session start_env = record {
    at = λ n. elim (recv_transfer_cases r session start_env n) [
      | inl done ↦ inl (
        done,
        (
          start_env,
          recv_transfer-Receipt r lawful session start_env n (recv_transfer r session start_env n).1
              (ap (λ b. (b, (recv_transfer r session start_env n).1)) done),
        ),
      )
      | inr same ↦ inr same
    ];
  }

  Still-ask : (contact : Contact) (file_id : Str) → Still (ask r client contact file_id)
  Still-ask contact file_id = record {
    keeps = λ n. ask-Keeps r client (SameStores-IsQuiet n) contact file_id;
  }

  ruleset settled_rules = (
    Settled-false, Settled-if, Settled-bind, Settled-try, Settled-recv_transfer, Still-ask,
    Still-lift, Still-recv_frame,
  )
