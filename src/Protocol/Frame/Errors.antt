-- ===== src/Protocol/Frame/Errors.antt =====
-- The frames that `recv_frame` refuses: a length above the limit, and a stream that ends early.
use cisc468_python.Base.{
  ℕ, zero, suc, ◌+◌, ◌-◌, ◌<◌, Bytes, [], ◌∷◌, ◌++◌, some, ok, err, value_error, connection_error,
  length, length-append, take, drop, take-append_at, drop-append_at, ◌≡◌, refl, ap, ◌∙◌, arith,
  lt→ltb,
}
use cisc468_python.Crypto.Packing.{unpack_be}
use cisc468_python.Protocol.{max_frame}
use cisc468_python.Protocol.Frame.{
  Stream, NoEmpty, flat, recv, recv_loop, recv_exact, recv_body, recv_raw,
}
use cisc468_python.Protocol.Frame.Reading.{recv-Takes, recv_loop_round, recv_exact_total}

recv_loop_closed :
    (f n : ℕ) (buf : Bytes)
    → length buf < n
    → recv_loop (suc f) n buf [] ≡ some (err connection_error, [])
unfolding recv_loop
recv_loop_closed f n buf h = rw (lt→ltb (length buf) n h) refl

recv_loop_short :
    (f n : ℕ) (buf : Bytes) (s : Stream)
    → NoEmpty s
    → n - length buf < f
    → length buf + length (flat s) < n
    → recv_loop f n buf s ≡ some (err connection_error, [])
recv_loop_short zero n buf s h hf hn = absurd (omega arith)
recv_loop_short (suc f) n buf [] h hf hn = recv_loop_closed f n buf (unfold flat in omega arith)
recv_loop_short (suc f) n buf (x ∷ s) h hf hn =
    let t =
      recv-Takes (n - length buf) (x ∷ s) (omega arith)
        (unfold flat in omega (arith, length-append x (flat s), h.0)) h in
    let chunk = (recv (n - length buf) (x ∷ s)).0 in
    let s' = (recv (n - length buf) (x ∷ s)).1 in
    recv_loop_round f n buf (x ∷ s) (omega arith) t.some_byte
    ∙ recv_loop_short f n (buf ++ chunk) s' t.no_empty
        (omega (arith, length-append buf chunk, t.some_byte))
        (omega (arith, length-append buf chunk, ap length t.front, length-append chunk (flat s')))

-- Reading `n` bytes from a stream that has fewer raises `ConnectionError`, however they are cut, and
-- does not wait for ever.
pub recv_exact_short :
    (n : ℕ) (s : Stream)
    → NoEmpty s
    → length (flat s) < n
    → recv_exact n s ≡ some (err connection_error, [])
unfolding recv_exact
recv_exact_short n s h hn = recv_loop_short (suc n) n [] s h (omega arith) (omega arith)

recv_body_large :
    (raw_len : Bytes) (s : Stream)
    → max_frame < unpack_be raw_len
    → recv_body (some (ok raw_len, s)) ≡ some (err value_error, s)
unfolding recv_body
recv_body_large raw_len s h = rw (lt→ltb max_frame (unpack_be raw_len) h) refl

-- A frame whose first four bytes announce more than 4 MB is refused with `ValueError` before any
-- byte behind those four is read: all of them are still in the stream.
pub recv_raw_large :
    (head more : Bytes) (s : Stream)
    → NoEmpty s
    → length head ≡ 4
    → flat s ≡ head ++ more
    → max_frame < unpack_be head
    → (s' : Stream) × (recv_raw s ≡ some (err value_error, s')) × (flat s' ≡ more)
unfolding recv_raw
recv_raw_large head more s h four e large =
    let (s₁, runs₁, left₁, h₁) =
      recv_exact_total 4 s h (omega (arith, ap length e, length-append head more)) in
    let read₁ = ap (take 4) e ∙ take-append_at 4 head more four in
    (
      s₁,
      ap recv_body runs₁
          ∙ ap (λ x. recv_body (some (ok x, s₁))) read₁
          ∙ recv_body_large head s₁ large,
      left₁ ∙ ap (drop 4) e ∙ drop-append_at 4 head more four,
    )
