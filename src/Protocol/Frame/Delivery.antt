-- ===== src/Protocol/Frame/Delivery.antt =====
-- A frame that was sent is received.
use cisc468_python.Base.{
  ℕ, ◌≤◌, Bytes, le→ltb, ◌++◌, some, ok, length, take, drop, length-append, append_assoc, ◌≡◌, refl,
  ap, ◌∙◌, arith, take-append, drop-append, take-append_at, drop-append_at,
}
use cisc468_python.Json.{Json}
use cisc468_python.Json.Dumps.{dumps, compact_sorted}
use cisc468_python.Crypto.Packing.{pack_be, unpack_be-pack_be, length-pack_be}
use cisc468_python.Protocol.{max_frame}
use cisc468_python.Protocol.Frame.{
  Stream, NoEmpty, flat, recv_exact, recv_body, recv_raw, frame_bytes,
}
use cisc468_python.Protocol.Frame.Reading.{recv_exact_total}

frame_bytes_parts :
    (envelope : Json) (frame : Bytes)
    → frame_bytes envelope ≡ ok frame
    → (length (dumps compact_sorted envelope) ≤ max_frame)
      × (frame
          ≡ pack_be 4 (length (dumps compact_sorted envelope)) ++ dumps compact_sorted envelope)
unfolding frame_bytes
frame_bytes_parts envelope frame h = (ground arith, ground arith)

recv_body_lem :
    (n : ℕ) (s : Stream) → n ≤ max_frame → recv_body (some (ok (pack_be 4 n), s)) ≡ recv_exact n s
unfolding recv_body
recv_body_lem n s h = rw (unpack_be-pack_be 4 n (omega arith), le→ltb n max_frame h) refl

recv_payload :
    (payload more : Bytes) (s : Stream)
    → length payload ≤ max_frame
    → NoEmpty s
    → flat s ≡ pack_be 4 (length payload) ++ (payload ++ more)
    → (s' : Stream) × (recv_raw s ≡ some (ok payload, s')) × (flat s' ≡ more) × NoEmpty s'
unfolding recv_raw
recv_payload payload more s fits h e =
    let head = pack_be 4 (length payload) in
    let long = ap length e ∙ length-append head (payload ++ more) in
    let (s₁, runs₁, left₁, h₁) =
      recv_exact_total 4 s h (omega (arith, long, length-pack_be 4 (length payload))) in
    let four = length-pack_be 4 (length payload) in
    let rest₁ = left₁ ∙ ap (drop 4) e ∙ drop-append_at 4 head (payload ++ more) four in
    let read₁ = ap (take 4) e ∙ take-append_at 4 head (payload ++ more) four in
    let (s₂, runs₂, left₂, h₂) =
      recv_exact_total (length payload) s₁ h₁
        (omega (arith, ap length rest₁, length-append payload more)) in
    (
      s₂,
      ap recv_body runs₁
          ∙ ap (λ x. recv_body (some (ok x, s₁))) read₁
          ∙ recv_body_lem (length payload) s₁ fits
          ∙ runs₂
          ∙ ap (λ x. some (ok x, s₂)) (ap (take (length payload)) rest₁ ∙ take-append payload more),
      left₂ ∙ ap (drop (length payload)) rest₁ ∙ drop-append payload more,
      h₂,
    )

-- A frame is received as it was sent, however the network cuts it: from a stream that begins with
-- the bytes that `send_frame` writes for an envelope, `recv_frame` reads the text of that envelope,
-- and leaves the stream behind it for the next call.
pub recv_raw-frame_bytes :
    (envelope : Json) (frame more : Bytes) (s : Stream)
    → frame_bytes envelope ≡ ok frame
    → NoEmpty s
    → flat s ≡ frame ++ more
    → (s' : Stream) × (recv_raw s ≡ some (ok (dumps compact_sorted envelope), s'))
      × (flat s' ≡ more)
      × NoEmpty s'
recv_raw-frame_bytes envelope frame more s sent h e =
    let (fits, bytes) = frame_bytes_parts envelope frame sent in
    let payload = dumps compact_sorted envelope in
    recv_payload payload more s fits h
      (e ∙ ap (λ x. x ++ more) bytes ∙ append_assoc (pack_be 4 (length payload)) payload more)
