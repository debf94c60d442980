-- ===== src/Protocol/Frame.antt =====
-- `send_frame` and `recv_frame` of protocol.py at the level of bytes: a frame is a length in
-- four bytes and that many bytes, which are a JSON text. A stream is what the coming calls of `recv` can
-- take from; `sock.recv` returns no more than the first segment, and the empty text at the end.
use cisc468_python.Base.{
  ℕ, zero, suc, ◌+◌, ◌-◌, ◌≤◌, ◌<◌, ◌^◌, Bytes, Str, Bool, true, false, if◌then◌else◌, ltb, lt→ltb,
  le→ltb, List, [], ◌∷◌, ◌++◌, Option, none, some, Result, ok, err, bind_result, value_error,
  connection_error, length, take, drop, length-append, take-append-drop, length-take,
  take-append_of_le, drop-append_of_le, take_all, drop_all, append-nil, append_assoc, All, ◌≡◌, ◌≢◌,
  refl, sym, ap, ◌∙◌, arith, min, take-append, drop-append, take-append_at, drop-append_at,
}
pub mod Reading
pub mod Delivery
pub mod Errors
pub mod Messages
use native.Mathlib.Decide.{dec_lt}
use cisc468_python.Json.{Json}
use cisc468_python.Json.Dumps.{dumps, compact_sorted}
use cisc468_python.Json.Loads.{loads_bytes}
use cisc468_python.Crypto.Packing.{pack_be, unpack_be, unpack_be-pack_be, length-pack_be}
use cisc468_python.Protocol.{max_frame}

abbrev pub Stream : Type 0
Stream = List Bytes

-- All that the stream has.
unfoldable pub flat : Stream → Bytes
flat [] = []
flat (x ∷ s) = x ++ flat s

-- A segment that arrives is not empty.
abbrev pub NoEmpty : Stream → Type 0
NoEmpty s = All (λ x. 0 < length x) s

push_back : Bytes → Stream → Stream
push_back [] s = s
push_back (b ∷ x) s = (b ∷ x) ∷ s

-- `sock.recv(n)`, and what is left
unfoldable pub recv : ℕ → Stream → Bytes × Stream
unfolding push_back
recv n [] = ([], [])
recv n (x ∷ s) = (take n x, push_back (drop n x) s)

is_empty : Bytes → Bool
is_empty [] = true
is_empty (b ∷ x) = false

-- The loop of `_recv_exact`. `none` means that the fuel ran out.
unfoldable pub recv_loop : ℕ → ℕ → Bytes → Stream → Option (Result Bytes × Stream)
unfolding recv is_empty
recv_loop zero n buf s = none
recv_loop (suc fuel) n buf s =
    let (chunk, s') = recv (n - length buf) s in
    let rest = recv_loop fuel n (buf ++ chunk) s' in
    if ltb (length buf) n
    then (if is_empty chunk then some (err connection_error, s') else rest)
    else some (ok buf, s)

-- Each round but the last adds a byte, so `n + 1` rounds are enough.
unfoldable pub recv_exact : ℕ → Stream → Option (Result Bytes × Stream)
recv_exact n s = recv_loop (suc n) n [] s

recv_body : Option (Result Bytes × Stream) → Option (Result Bytes × Stream)
recv_body none = none
recv_body (some (err e, s)) = some (err e, s)
recv_body (some (ok raw_len, s)) =
    if ltb max_frame (unpack_be raw_len)
    then some (err value_error, s)
    else recv_exact (unpack_be raw_len) s

-- `recv_frame` up to `json.loads`
unfoldable pub recv_raw : Stream → Option (Result Bytes × Stream)
unfolding recv_body
recv_raw s = recv_body (recv_exact 4 s)

parsed : (Str → Str) → Option (Result Bytes × Stream) → Option (Result Json × Stream)
parsed repr_float none = none
parsed repr_float (some (raw, s)) = some (bind_result raw (loads_bytes repr_float), s)

-- `recv_frame`
unfoldable pub recv_message : (Str → Str) → Stream → Option (Result Json × Stream)
unfolding parsed recv_raw
recv_message repr_float s = parsed repr_float (recv_raw s)

-- What `send_frame` hands to `sendall`.
unfoldable pub frame_bytes : Json → Result Bytes
frame_bytes envelope =
    let payload = dumps compact_sorted envelope in
    if ltb max_frame (length payload)
    then err value_error
    else ok (pack_be 4 (length payload) ++ payload)
