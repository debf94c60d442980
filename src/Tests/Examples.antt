-- ===== src/Tests/Examples.antt =====
-- The theorems on primitives, frames, envelopes and stores at concrete inputs.
use cisc468_python.Base.{
  ℕ, ◌≤◌, ◌<◌, Bytes, codes, replicate, take, drop, length, true, false, [], ◌∷◌, ◌++◌, some, ok,
  err, value_error, connection_error, ◌≡◌, ◌⊎◌, refl, arith,
}
use cisc468_python.Json.{Json, nat, str, text, obj, fields, get}
use cisc468_python.Crypto.Base64.{b64e, b64d, b64d-b64e}
use cisc468_python.Crypto.Chunk.{
  encrypt_chunk, decrypt_chunk, decrypt_chunk-encrypt_chunk, chunk_nonce, chunk_nonce-injective,
}
use cisc468_python.Protocol.{in_signed_types, build_envelope_with, verify_envelope}
use cisc468_python.Protocol.Envelope.{
  IsSigned, verify_envelope-build_envelope, verify_envelope_sound,
}
use cisc468_python.Protocol.Frame.{Stream, NoEmpty, flat, recv_exact, recv_raw, frame_bytes}
use cisc468_python.Protocol.Frame.Reading.{recv_exact_total}
use cisc468_python.Protocol.Frame.Errors.{recv_exact_short, recv_raw_large}
use cisc468_python.Tests.Toy.{toy, toy-IsLawful, alice, alice-IsIdentity}
use cisc468_python.Tests.Running.{running}

b64d-b64e_example : b64d (str (b64e (104 ∷ 105 ∷ 33 ∷ 10 ∷ []))) ≡ ok (104 ∷ 105 ∷ 33 ∷ 10 ∷ [])
b64d-b64e_example = b64d-b64e (104 ∷ 105 ∷ 33 ∷ 10 ∷ []) (omega arith)

-- What is not in the alphabet is skipped, and what follows the padding is not read.
b64d_lenient : b64d (str (codes "aG\n k=!!")) ≡ ok (104 ∷ 105 ∷ [])
unfolding running
b64d_lenient = refl

b64e_text : b64e (104 ∷ 105 ∷ 33 ∷ []) ≡ codes "aGkh"
unfolding running
b64e_text = refl

abbrev base : Bytes
base = replicate 12 200

chunk_nonce-injective_example : ◌≡◌ {A = ℕ} 300 300
chunk_nonce-injective_example =
    chunk_nonce-injective base 300 300 refl (omega arith) (omega arith) (omega arith) refl

chunk_nonce_test : chunk_nonce base (nat 300) ≡ ok (replicate 10 200 ++ (201 ∷ 228 ∷ []))
unfolding running
chunk_nonce_test = refl

abbrev ciphertext : Bytes
ciphertext = 82 ∷ 104 ∷ 105 ∷ []

encrypted :
    encrypt_chunk toy (9 ∷ []) base (nat 0) (104 ∷ 105 ∷ []) (text "f") (nat 1) (text "t")
    ≡ ok ciphertext
unfolding running
encrypted = refl

decrypt_chunk-encrypt_chunk_example :
    decrypt_chunk toy (9 ∷ []) base (nat 0) ciphertext (text "f") (nat 1) (text "t")
    ≡ ok (104 ∷ 105 ∷ [])
decrypt_chunk-encrypt_chunk_example =
    decrypt_chunk-encrypt_chunk toy toy-IsLawful (9 ∷ []) base (104 ∷ 105 ∷ []) ciphertext (nat 0)
      (text "f") (nat 1) (text "t") encrypted

abbrev hello : Json
hello =
    build_envelope_with toy alice (codes "HELLO") (fields ((codes "port", nat 4000) ∷ []))
      (codes "m1")

verify_envelope-build_envelope_example : verify_envelope toy hello (1 ∷ 2 ∷ []) ≡ ok true
verify_envelope-build_envelope_example =
    verify_envelope-build_envelope toy toy-IsLawful alice (codes "HELLO")
      (fields ((codes "port", nat 4000) ∷ [])) (codes "m1") alice-IsIdentity

verify_envelope_sound_example :
    ((t : Json) × (get hello (codes "type") (text "") ≡ ok t) × (in_signed_types t ≡ ok false))
    ⊎ IsSigned toy hello (1 ∷ 2 ∷ [])
verify_envelope_sound_example =
    verify_envelope_sound toy hello (1 ∷ 2 ∷ []) verify_envelope-build_envelope_example

-- Three segments: a frame that is cut twice, and two bytes behind it.
abbrev tiny : Json
tiny = obj (fields ((codes "v", nat 1) ∷ []))

abbrev cut : Stream
cut = (0 ∷ 0 ∷ []) ∷ (0 ∷ 7 ∷ 123 ∷ 34 ∷ []) ∷ (118 ∷ 34 ∷ 58 ∷ 49 ∷ 125 ∷ 9 ∷ 9 ∷ []) ∷ []

abbrev tiny_frame : Bytes
tiny_frame = 0 ∷ 0 ∷ 0 ∷ 7 ∷ codes "{\"v\":1}"

framed : frame_bytes tiny ≡ ok tiny_frame
unfolding frame_bytes running
framed = refl

glued : flat cut ≡ tiny_frame ++ (9 ∷ 9 ∷ [])
unfolding flat
glued = refl

enough : 5 ≤ length (flat cut)
unfolding flat
enough = omega arith

recv_exact_total_example :
    (s' : Stream) × (recv_exact 5 cut ≡ some (ok (take 5 (flat cut)), s'))
    × (flat s' ≡ drop 5 (flat cut))
    × NoEmpty s'
recv_exact_total_example = recv_exact_total 5 cut (omega arith) enough

too_few : length (flat cut) < 20
unfolding flat
too_few = omega arith

recv_exact_short_example : recv_exact 20 cut ≡ some (err connection_error, [])
recv_exact_short_example = recv_exact_short 20 cut (omega arith) too_few

recv_raw_large_example :
    (s' : Stream) × (recv_raw ((1 ∷ 0 ∷ 0 ∷ 0 ∷ 5 ∷ []) ∷ []) ≡ some (err value_error, s'))
    × (flat s' ≡ 5 ∷ [])
recv_raw_large_example =
    recv_raw_large (1 ∷ 0 ∷ 0 ∷ 0 ∷ []) (5 ∷ []) ((1 ∷ 0 ∷ 0 ∷ 0 ∷ 5 ∷ []) ∷ []) (omega arith) refl
      (unfold flat in refl) (unfold running in omega arith)
