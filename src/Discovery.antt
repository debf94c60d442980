-- ===== src/Discovery.antt =====
-- discovery.py: announcing a peer and finding the announced ones. The package `zeroconf` delivers the
-- events and their information; a local address is given by its four bytes.
pub mod Finding
use cisc468_python.Base.{
  ℕ, Bytes, Str, codes, take, str_eq, if◌then◌else◌, leb, ltb, Bool, true, false, not, ◌&&◌, List,
  [], ◌∷◌, ◌++◌, Option, none, some, Result, ok, err, bind_result, unicode_error, os_error,
  index_error, attribute_error,
}
use cisc468_python.Json.Dumps.{show_nat, join}
use cisc468_python.Json.Utf8.{decode_utf8}

-- A key or value of the properties of a service.
pub data Property : Type 0 where
  absent : Property
  bytes : Bytes → Property
  str : Str → Property

-- `zeroconf.ServiceInfo`, as far as it is read and set. `none` for properties is Python's None.
pub record ServiceInfo : Type 0 where
  pub name : Str
  pub addresses : List Bytes
  pub port : ℕ
  pub properties : Option (List (Property × Property))

pub data StateChange : Type 0 where
  appeared removed updated : StateChange

-- A call of `on_change`: the change, and what `get_service_info` returns.
pub record Event : Type 0 where
  pub change : StateChange
  pub info : Option ServiceInfo

pub record Peer : Type 0 where
  pub host : Str
  pub port : ℕ
  -- None, if that is the value of the property
  pub fingerprint : Option Str

-- `socket.inet_ntoa`
unfoldable pub inet_ntoa : Bytes → Result Str
inet_ntoa (a ∷ b ∷ c ∷ d ∷ []) =
    ok (join (codes ".") (show_nat a ∷ show_nat b ∷ show_nat c ∷ show_nat d ∷ []))
inet_ntoa _ = err os_error

is_surrogate : ℕ → Bool
is_surrogate c = leb 55296 c && leb c 57343

no_surrogates : Str → Result Str
unfolding is_surrogate
no_surrogates [] = ok []
no_surrogates (c ∷ s) =
    let rest = no_surrogates s in
    if is_surrogate c then err unicode_error else bind_result rest (λ t. ok (c ∷ t))

-- `b.decode()`
unfoldable pub decode : Bytes → Result Str
unfolding no_surrogates
decode b = bind_result (decode_utf8 b) no_surrogates

same_key : Property → Property → Bool
same_key (bytes a) (bytes b) = str_eq a b
same_key (str a) (str b) = str_eq a b
same_key _ _ = false

-- `props.get(key, default)`
prop_get : Property → Property → List (Property × Property) → Property
unfolding same_key
prop_get key default [] = default
prop_get key default ((k, v) ∷ props) =
    let rest = prop_get key default props in if same_key k key then v else rest

-- `a or b`
prop_or : Property → Property → Property
prop_or (bytes (b ∷ s)) other = bytes (b ∷ s)
prop_or (str (c ∷ s)) other = str (c ∷ s)
prop_or _ other = other

-- `info.properties or {}`
prop_list : Option (List (Property × Property)) → List (Property × Property)
prop_list none = []
prop_list (some props) = props

-- `fp_raw.decode() if isinstance(fp_raw, bytes) else fp_raw`
fingerprint_text : Property → Result (Option Str)
fingerprint_text (bytes b) = bind_result (decode b) (λ t. ok (some t))
fingerprint_text (str t) = ok (some t)
fingerprint_text absent = ok none

first_address : List Bytes → Result Bytes
first_address [] = err index_error
first_address (a ∷ as') = ok a

-- The body of the `try` in `on_change`.
unfoldable pub peer_of : ServiceInfo → Result Peer
unfolding first_address prop_get prop_or prop_list fingerprint_text
peer_of info = bind_result (first_address info.addresses) λ address.
    bind_result (inet_ntoa address) λ host.
      let props = prop_list info.properties in
      bind_result
        (fingerprint_text (
          prop_or (prop_get (bytes (codes "fingerprint")) absent props)
            (prop_get (str (codes "fingerprint")) (bytes []) props)))
        λ fingerprint. ok (record { host = host; port = info.port; fingerprint = fingerprint })

appended : Result Peer → List Peer → List Peer
appended (ok peer) found = found ++ peer ∷ []
appended (err e) found = found

on_added : Option ServiceInfo → List Peer → List Peer
unfolding appended peer_of
on_added none found = found
on_added (some info) found = appended (peer_of info) found

change_on : StateChange → Option ServiceInfo → List Peer → List Peer
unfolding on_added
change_on appeared info found = on_added info found
change_on _ info found = found

-- `on_change`
unfoldable pub on_change : Event → List Peer → List Peer
unfolding change_on
on_change e found = change_on e.change e.info found

-- `discover_peers`: the events that come before the time is up.
unfoldable pub discover_from : List Event → List Peer → List Peer
unfolding on_change
discover_from [] found = found
discover_from (e ∷ es) found = discover_from es (on_change e found)

unfoldable pub discover_peers : List Event → List Peer
unfolding discover_from
discover_peers es = discover_from es []

-- `SERVICE_TYPE`
abbrev pub service_type : Str
service_type = codes "_cisc468._tcp.local."

pub record Advertiser : Type 0 where
  pub fingerprint : Str
  pub port : ℕ
  -- `_info`, and whether `_zeroconf` was set and the service registered
  pub info : Option ServiceInfo
  pub registered : Bool

unfoldable pub service_of : Str → ℕ → Bytes → ServiceInfo
service_of fingerprint port address = record {
  name = take 16 fingerprint ++ (codes "." ++ service_type);
  addresses = address ∷ [];
  port = port;
  properties = some (
      (str (codes "fingerprint"), str fingerprint) ∷ (str (codes "version"), str (codes "1")) ∷ []);
}

-- `_get_local_ip`, of the address that the socket has, if it could be connected
unfoldable pub local_ip : Option Bytes → Bytes
local_ip none = 127 ∷ 0 ∷ 0 ∷ 1 ∷ []
local_ip (some address) = address

-- `start`, by whether `Zeroconf(…)` and `register_service` return: an exception is logged.
unfoldable pub start : Option Bytes → Bool → Advertiser → Advertiser
unfolding service_of local_ip
start address works a = record a {
  info = some (service_of a.fingerprint a.port (local_ip address));
  registered = works;
}

unfoldable pub stop : Advertiser → Advertiser
stop a = record a { registered = false }
