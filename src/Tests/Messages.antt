-- ===== src/Tests/Messages.antt =====
-- The theorems on messages, signed bytes, the index of shared files, addresses and discovery at
-- concrete inputs.
use cisc468_python.Base.{
  Bytes, codes, false, List, [], ◌∷◌, ◌++◌, none, some, ok, ◌≡◌, ◌≢◌, inl, refl, arith,
}
use cisc468_python.Json.{Json, nat, text, null, obj, fields}
use cisc468_python.Json.Dumps.{compact_sorted, show_nat}
use cisc468_python.Json.Loads.Printed.{IsPlain, printed, ascii-IsScalar}
use cisc468_python.Storage.Shares.Spec.{
  Operation, adds, removes, operate_all, spec_run, index_of, IsSynced, operate_all-spec_run,
}
use cisc468_python.Protocol.Binding.{Manifest}
use cisc468_python.Protocol.Frame.{Stream, NoEmpty, flat, frame_bytes}
use cisc468_python.Protocol.Frame.Messages.{recv_messages, recv_messages-Sent}
use cisc468_python.App.Address.{parse_address, parse_new_address}
use cisc468_python.App.Address.Printed.{parse_bracketed}
use cisc468_python.Discovery.{
  ServiceInfo, Event, Advertiser, discover_peers, inet_ntoa, local_ip, service_of, start, removed,
}
use cisc468_python.Discovery.Finding.{IsDelivered, encoded_all, added_event, discover_peers-start}
use cisc468_python.Tests.Toy.{node_with}
use cisc468_python.Tests.Stores.{notes}
use cisc468_python.Tests.Running.{running}

-- Two messages in three segments, the second with its members out of order.
abbrev one : Json
one = obj (fields ((codes "v", nat 1) ∷ []))

abbrev two : Json
two = obj (fields ((codes "b", nat 2) ∷ (codes "a", null) ∷ []))

abbrev one_frame : Bytes
one_frame = 0 ∷ 0 ∷ 0 ∷ 7 ∷ codes "{\"v\":1}"

abbrev two_frame : Bytes
two_frame = 0 ∷ 0 ∷ 0 ∷ 16 ∷ codes "{\"a\":null,\"b\":2}"

abbrev pieces : Stream
pieces =
    (0 ∷ 0 ∷ 0 ∷ [])
    ∷ (7 ∷ codes "{\"v\":1}" ++ 0 ∷ 0 ∷ [])
    ∷ (0 ∷ 16 ∷ codes "{\"a\":null,\"b\":2}" ++ 9 ∷ [])
    ∷ []

one-framed : frame_bytes one ≡ ok one_frame
unfolding frame_bytes running
one-framed = refl

two-framed : frame_bytes two ≡ ok two_frame
unfolding frame_bytes running
two-framed = refl

one-IsPlain : IsPlain one
unfolding running
one-IsPlain = (ascii-IsScalar (codes "v") (omega arith), refl, tt, tt)

two-IsPlain : IsPlain two
unfolding running
two-IsPlain = (
  ascii-IsScalar (codes "b") (omega arith),
  refl,
  tt,
  (ascii-IsScalar (codes "a") (omega arith), refl, tt, tt),
)

glued : flat pieces ≡ (one_frame ++ (two_frame ++ [])) ++ 9 ∷ []
unfolding flat
glued = refl

recv_messages-Sent_example :
    (s' : Stream) × (recv_messages (λ t. t) 2 pieces
      ≡ some (printed compact_sorted one ∷ printed compact_sorted two ∷ [], s'))
    × (flat s' ≡ 9 ∷ [])
    × NoEmpty s'
recv_messages-Sent_example =
    recv_messages-Sent (λ t. t) (one ∷ two ∷ []) (one_frame ++ (two_frame ++ [])) (9 ∷ []) pieces
      (one-IsPlain, (two-IsPlain, tt))
      (one_frame, two_frame ++ [], one-framed, refl, (two_frame, [], two-framed, refl, refl))
      (omega arith) glued

abbrev manifest : Manifest
manifest = record {
  file_id = text "id-1";
  filename = text "notes.txt";
  original_owner = text "3";
  sha256_hex = text "00";
  size = nat 3;
  timestamp = text "t";
}

abbrev operations : List Operation
operations = adds notes ∷ removes (codes "id-2") ∷ removes (codes "id-1") ∷ []

operate_all-spec_run_example :
    let (answers, n') = operate_all operations (node_with []) in
    (answers ≡ (spec_run operations (index_of (node_with []))).0)
    × (index_of n' ≡ (spec_run operations (index_of (node_with []))).1)
    × IsSynced n'
operate_all-spec_run_example = operate_all-spec_run operations (node_with []) (inl (refl, refl))

parse_bracketed_example :
    (parse_new_address (codes "[::1]:80") ≡ some (codes "::1", 80))
    × (parse_address (codes "[::1]:80") ≡ some (codes "[::1]", 80))
unfolding show_nat
parse_bracketed_example = parse_bracketed (codes "::1") 80 (refl, (refl, (refl, tt)))

abbrev announcer : Advertiser
announcer = record { fingerprint = codes "ab12"; port = 7; info = none; registered = false }

abbrev service : ServiceInfo
service = service_of (codes "ab12") 7 (10 ∷ 0 ∷ 0 ∷ 5 ∷ [])

abbrev seen : ServiceInfo
seen = record service { properties = encoded_all service.properties }

-- An event before it, with no address, and one behind it, of a service that is gone.
abbrev broken : Event
broken = added_event (record service { addresses = [] })

abbrev gone : Event
gone = record { change = removed; info = some seen }

address_text : inet_ntoa (local_ip (some (10 ∷ 0 ∷ 0 ∷ 5 ∷ []))) ≡ ok (codes "10.0.0.5")
unfolding inet_ntoa local_ip running
address_text = refl

seen-IsDelivered : IsDelivered service seen
unfolding service_of
seen-IsDelivered = record { addresses = refl; port = refl; properties = refl }

not_empty : codes "ab12" ≢ []
not_empty e = cc

discover_peers-start_example :
    discover_peers (broken ∷ added_event seen ∷ gone ∷ [])
    ≡ discover_peers (broken ∷ [])
      ++ record { host = codes "10.0.0.5"; port = 7; fingerprint = some (codes "ab12") }
        ∷ discover_peers (gone ∷ [])
discover_peers-start_example =
    discover_peers-start announcer (some (10 ∷ 0 ∷ 0 ∷ 5 ∷ [])) (codes "10.0.0.5") seen
      (broken ∷ []) (gone ∷ []) address_text (omega arith) not_empty service (unfold start in refl)
      seen-IsDelivered
