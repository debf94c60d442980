-- ===== src/Discovery/Finding.antt =====
-- A peer that announces itself is found.
use cisc468_python.Base.{
  ℕ, Bytes, Str, str_eq, leb, true, false, ◌&&◌, List, [], ◌∷◌, ◌++◌, map, Option, none, some,
  Result, ok, All, ◌<◌, ◌≢◌, ◌≡◌, refl, sym, ap, ◌∙◌, arith, append_assoc, append-nil,
}
use cisc468_python.Json.Utf8.{decode_utf8_ascii}
use cisc468_python.Discovery.{
  Property, absent, bytes, str, ServiceInfo, appeared, removed, updated, StateChange, Event, Peer,
  inet_ntoa, no_surrogates, decode, peer_of, appended, on_added, change_on, on_change,
  discover_from, discover_peers, Advertiser, service_of, start, local_ip,
}

-- What one event adds.
seen : Event → List Peer
seen e = discover_peers (e ∷ [])

appended-front :
    (p : Result Peer) (front found : List Peer)
    → appended p (front ++ found) ≡ front ++ appended p found
unfolding appended
appended-front (ok peer) front found = append_assoc front found (peer ∷ [])
appended-front (Result.err e) front found = refl

on_change-front :
    (e : Event) (front found : List Peer)
    → on_change e (front ++ found) ≡ front ++ on_change e found
unfolding on_change
on_change-front e front found = change_on-front e.change e.info
  where
    on_added-front :
        (info : Option ServiceInfo) → on_added info (front ++ found) ≡ front ++ on_added info found
    on_added-front none = unfold on_added in refl
    on_added-front (some info) = unfold on_added in appended-front (peer_of info) front found

    change_on-front :
        (c : StateChange) (info : Option ServiceInfo)
        → change_on c info (front ++ found) ≡ front ++ change_on c info found
    change_on-front appeared info = unfold change_on in on_added-front info
    change_on-front removed info = unfold change_on in refl
    change_on-front updated info = unfold change_on in refl

-- The peers found before stay in front of those found later.
discover_from-front :
    (es : List Event) (front found : List Peer)
    → discover_from es (front ++ found) ≡ front ++ discover_from es found
unfolding discover_from
discover_from-front [] front found = refl
discover_from-front (e ∷ es) front found =
    ap (discover_from es) (on_change-front e front found)
    ∙ discover_from-front es front (on_change e found)

discover_from-append :
    (es fs : List Event) (found : List Peer)
    → discover_from (es ++ fs) found ≡ discover_from fs (discover_from es found)
unfolding discover_from
discover_from-append [] fs found = refl
discover_from-append (e ∷ es) fs found = discover_from-append es fs (on_change e found)

-- Every event is handled by itself: none hides what comes before or behind it.
discover_peers-append :
    (es fs : List Event) → discover_peers (es ++ fs) ≡ discover_peers es ++ discover_peers fs
unfolding discover_peers
discover_peers-append es fs =
    discover_from-append es fs []
    ∙ ap (discover_from fs) (sym (append-nil (discover_from es [])))
    ∙ discover_from-front fs (discover_from es []) []

-- What the package delivers of an announced service: the same addresses and port, and the properties
-- encoded. For ASCII texts the bytes are the characters.
abbrev pub encoded : Property → Property
encoded absent = absent
encoded (bytes b) = bytes b
encoded (str s) = bytes s

abbrev pub encoded_all : Option (List (Property × Property)) → Option (List (Property × Property))
encoded_all none = none
encoded_all (some props) = some (map (λ (k, v). (encoded k, encoded v)) props)

pub record IsDelivered (sent got : ServiceInfo) : Type 0 where
  pub addresses : got.addresses ≡ sent.addresses
  pub port : got.port ≡ sent.port
  pub properties : got.properties ≡ encoded_all sent.properties

no_surrogates_ascii : (s : Str) → All (λ c. c < 128) s → no_surrogates s ≡ ok s
unfolding no_surrogates
no_surrogates_ascii [] h = refl
no_surrogates_ascii (c ∷ s) (hc, h) =
    let low : (leb 55296 c && leb c 57343) ≡ false = ground arith in
    rw (low, no_surrogates_ascii s h) refl

decode_ascii : (s : Str) → All (λ c. c < 128) s → decode s ≡ ok s
unfolding decode
decode_ascii s h = rw (decode_utf8_ascii s h) (no_surrogates_ascii s h)

peer_of_parts :
    (address : Bytes) (host : Str) (port : ℕ) (c : ℕ) (fp : Str) (name : Str)
    → inet_ntoa address ≡ ok host
    → decode (c ∷ fp) ≡ ok (c ∷ fp)
    → peer_of (record {
      name = name;
      addresses = address ∷ [];
      port = port;
      properties = encoded_all (service_of (c ∷ fp) port address).properties;
    })
      ≡ ok (record { host = host; port = port; fingerprint = some (c ∷ fp) })
unfolding peer_of service_of str_eq
peer_of_parts address host port c fp name ntoa decoded = rw (ntoa, decoded) refl

service_peer :
    (fp : Str) (port : ℕ) (address : Bytes) (host : Str) (got : ServiceInfo)
    → inet_ntoa address ≡ ok host
    → All (λ c. c < 128) fp
    → fp ≢ []
    → IsDelivered (service_of fp port address) got
    → peer_of got ≡ ok (record { host = host; port = port; fingerprint = some fp })
unfolding service_of
service_peer [] port address host got ntoa ascii ne d = absurd (ne refl)
service_peer (c ∷ fp) port address host got ntoa ascii ne d =
    ap peer_of same
    ∙ peer_of_parts address host port c fp got.name ntoa (decode_ascii (c ∷ fp) ascii)
  where
    same : got ≡ record {
      name = got.name;
      addresses = address ∷ [];
      port = port;
      properties = encoded_all (service_of (c ∷ fp) port address).properties;
    }
    same = λ i. record {
      name = got.name;
      addresses = d.addresses i;
      port = d.port i;
      properties = d.properties i;
    }

abbrev pub added_event : ServiceInfo → Event
added_event info = record { change = appeared; info = some info }

seen-peer :
    (info : ServiceInfo) (peer : Peer)
    → peer_of info ≡ ok peer
    → discover_peers (added_event info ∷ []) ≡ peer ∷ []
unfolding discover_peers on_change on_added appended
seen-peer info peer h = rw h refl

-- A peer that has announced itself is found by whoever browses: if the package delivers the service
-- that `MDNSAdvertiser.start` registered for a fingerprint, which is an ASCII text and not empty, and
-- the event comes in time, then `discover_peers` returns that peer, with the address of the
-- announcing host, its port and its fingerprint, and beside it exactly the peers of the events before
-- and of those behind, however malformed any of them are.
pub discover_peers-start :
    (a : Advertiser) (ip : Option Bytes) (host : Str) (got : ServiceInfo)
    (before after : List Event)
    → inet_ntoa (local_ip ip) ≡ ok host
    → All (λ c. c < 128) a.fingerprint
    → a.fingerprint ≢ []
    → (sent : ServiceInfo) → (start ip true a).info ≡ some sent
    → IsDelivered sent got
    → discover_peers (before ++ added_event got ∷ after)
      ≡ discover_peers before
        ++ record { host = host; port = a.port; fingerprint = some a.fingerprint }
          ∷ discover_peers after
unfolding start
discover_peers-start a ip host got before after ntoa ascii ne sent registered d =
    let same : service_of a.fingerprint a.port (local_ip ip) ≡ sent = ground arith in
    let delivered : IsDelivered (service_of a.fingerprint a.port (local_ip ip)) got = rw same d in
    let found = service_peer a.fingerprint a.port (local_ip ip) host got ntoa ascii ne delivered in
    discover_peers-append before (added_event got ∷ after)
    ∙ ap (λ found. discover_peers before ++ found)
        (discover_peers-append (added_event got ∷ []) after
          ∙ ap (λ first. first ++ discover_peers after) (seen-peer got _ found))
