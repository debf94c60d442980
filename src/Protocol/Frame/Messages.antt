-- ===== src/Protocol/Frame/Messages.antt =====
-- A message that was sent is received: the frame, and the JSON text in it.
use cisc468_python.Base.{
  ℕ, zero, suc, Str, Bytes, List, [], ◌∷◌, ◌++◌, map, length, All, append_assoc, Option, none, some,
  Result, ok, err, ◌≡◌, refl, ◌∙◌, ap, arith,
}
use cisc468_python.Json.{Json}
use cisc468_python.Json.Dumps.{compact_sorted}
use cisc468_python.Json.Loads.Ascii.{loads_bytes-dumps}
use cisc468_python.Json.Loads.Printed.{IsPlain, compact_sorted-IsReadable, printed}
use cisc468_python.Protocol.Frame.{Stream, NoEmpty, flat, parsed, recv_message, frame_bytes}
use cisc468_python.Protocol.Frame.Delivery.{recv_raw-frame_bytes}

-- One message.
pub recv_message-frame_bytes :
    (repr_float : Str → Str) (envelope : Json) (frame more : Bytes) (s : Stream)
    → IsPlain envelope
    → frame_bytes envelope ≡ ok frame
    → NoEmpty s
    → flat s ≡ frame ++ more
    → (s' : Stream) × (recv_message repr_float s ≡ some (ok (printed compact_sorted envelope), s'))
      × (flat s' ≡ more)
      × NoEmpty s'
unfolding recv_message
recv_message-frame_bytes repr_float envelope frame more s plain sent h e =
    let (s', runs, left, h') = recv_raw-frame_bytes envelope frame more s sent h e in
    let read =
      loads_bytes-dumps compact_sorted (omega arith, tt) (omega arith, tt) repr_float
        compact_sorted-IsReadable envelope plain in
    (s', ap (parsed repr_float) runs ∙ ap (λ v. some (v, s')) read, left, h')

-- The bytes of some messages, one behind the other.
abbrev pub Sent : List Json → Bytes → Type 0
Sent [] bytes = bytes ≡ []
Sent (v ∷ vs) bytes =
    (frame : Bytes) × (rest : Bytes) × (frame_bytes v ≡ ok frame)
    × (bytes ≡ frame ++ rest)
    × Sent vs rest

with_message : Json → Option (List Json × Stream) → Option (List Json × Stream)
with_message v none = none
with_message v (some (vs, s)) = some (v ∷ vs, s)

-- So many calls of `recv_frame`, one after the other: what they return, if none raises.
and_more :
    Option (Result Json × Stream)
    → (Stream → Option (List Json × Stream))
    → Option (List Json × Stream)
unfolding with_message
and_more none next = none
and_more (some (err e, s)) next = none
and_more (some (ok v, s)) next = with_message v (next s)

unfoldable pub recv_messages : (Str → Str) → ℕ → Stream → Option (List Json × Stream)
unfolding and_more
recv_messages repr_float zero s = some ([], s)
recv_messages repr_float (suc k) s =
    and_more (recv_message repr_float s) (recv_messages repr_float k)

and_more-some :
    (next : Stream → Option (List Json × Stream)) (first : Option (Result Json × Stream)) (v : Json)
    (vs : List Json) (s s' : Stream)
    → first ≡ some (ok v, s)
    → next s ≡ some (vs, s')
    → and_more first next ≡ some (v ∷ vs, s')
unfolding and_more
and_more-some next first v vs s s' e h = rw (e, h) refl

-- Every message that was sent arrives, in the order of sending: from a stream that begins with the
-- frames of some envelopes, however the network cuts it, as many calls of `recv_frame` as there are
-- envelopes return them all, each with the members of its objects in the order of their keys, and
-- leave the stream behind the last. The envelopes have no floats, no surrogates and no key twice.
pub recv_messages-Sent :
    (repr_float : Str → Str) (envelopes : List Json) (bytes more : Bytes) (s : Stream)
    → All IsPlain envelopes
    → Sent envelopes bytes
    → NoEmpty s
    → flat s ≡ bytes ++ more
    → (s' : Stream) × (recv_messages repr_float (length envelopes) s
        ≡ some (map (printed compact_sorted) envelopes, s'))
      × (flat s' ≡ more)
      × NoEmpty s'
unfolding recv_messages
recv_messages-Sent repr_float [] bytes more s plain sent h e =
    (s, refl, e ∙ ap (λ b. b ++ more) sent, h)
recv_messages-Sent repr_float (v ∷ vs) bytes more s (hv, plain) (frame, rest, framed, cut, sent) h
      e =
    let joined = e ∙ ap (λ b. b ++ more) cut ∙ append_assoc frame rest more in
    let (s₁, first, left, h₁) =
      recv_message-frame_bytes repr_float v frame (rest ++ more) s hv framed h joined in
    let (s', others, left', h') =
      recv_messages-Sent repr_float vs rest more s₁ plain sent h₁ left in
    (
      s',
      and_more-some (recv_messages repr_float (length vs)) (recv_message repr_float s)
          (printed compact_sorted v) (map (printed compact_sorted) vs) s₁ s' first others,
      left',
      h',
    )
