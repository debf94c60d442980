-- ===== src/Protocol/Frame/Reading.antt =====
-- `_recv_exact` ends with the bytes that were asked for, however they are cut.
use cisc468_python.Base.{
  ℕ, zero, suc, ◌+◌, ◌-◌, ◌≤◌, ◌<◌, Bytes, false, lt→ltb, le→ltb, [], ◌∷◌, ◌++◌, some, ok, length,
  take, drop, length-append, take-append-drop, length-take, take-append_of_le, drop-append_of_le,
  append-nil, append_assoc, ◌≡◌, refl, sym, ap, ◌∙◌, arith,
}
use native.Mathlib.Decide.{dec_lt}
use cisc468_python.Protocol.Frame.{
  Stream, NoEmpty, flat, push_back, recv, is_empty, recv_loop, recv_exact,
}

flat-push_back : (x : Bytes) (s : Stream) → flat (push_back x s) ≡ x ++ flat s
unfolding flat push_back
flat-push_back [] s = refl
flat-push_back (b ∷ x) s = refl

push_back-NoEmpty : (x : Bytes) (s : Stream) → NoEmpty s → NoEmpty (push_back x s)
unfolding push_back
push_back-NoEmpty [] s h = h
push_back-NoEmpty (b ∷ x) s h = (omega arith, h)

-- `recv` takes bytes from the front, at least one if there is one.
pub record Takes (n : ℕ) (s : Stream) (chunk : Bytes) (s' : Stream) : Type 0 where
  pub front : flat s ≡ chunk ++ flat s'
  pub some_byte : 0 < length chunk
  pub at_most : length chunk ≤ n
  pub no_empty : NoEmpty s'

pub recv-Takes :
    (n : ℕ) (s : Stream)
    → 0 < n
    → 0 < length (flat s)
    → NoEmpty s
    → Takes n s (recv n s).0 (recv n s).1
unfolding recv flat
recv-Takes n [] hn hs h = absurd (omega arith)
recv-Takes n (x ∷ s) hn hs (hx, h) = record {
  front =
      ap (λ t. t ++ flat s) (sym (take-append-drop n x))
      ∙ append_assoc (take n x) (drop n x) (flat s)
      ∙ ap (λ t. take n x ++ t) (sym (flat-push_back (drop n x) s));
  some_byte = omega (arith, length-take n x);
  at_most = omega (arith, length-take n x);
  no_empty = push_back-NoEmpty (drop n x) s h;
}

-- The first `n` bytes of the stream were read, and the rest is left.
pub record Reads (n : ℕ) (s : Stream) (got : Bytes) (s' : Stream) : Type 0 where
  pub bytes : got ≡ take n (flat s)
  pub left : flat s' ≡ drop n (flat s)
  pub no_empty : NoEmpty s'

is_empty-of_pos : (x : Bytes) → 0 < length x → is_empty x ≡ false
unfolding is_empty
is_empty-of_pos [] h = absurd (omega arith)
is_empty-of_pos (b ∷ x) h = refl

-- One round of the loop that is not the last.
pub recv_loop_round :
    (f n : ℕ) (buf : Bytes) (s : Stream)
    → length buf < n
    → 0 < length (recv (n - length buf) s).0
    → recv_loop (suc f) n buf s
      ≡ recv_loop f n (buf ++ (recv (n - length buf) s).0) (recv (n - length buf) s).1
unfolding recv_loop
recv_loop_round f n buf s h k =
    rw (lt→ltb (length buf) n h, is_empty-of_pos (recv (n - length buf) s).0 k)

recv_loop_last :
    (f n : ℕ) (buf : Bytes) (s : Stream)
    → n ≤ length buf
    → recv_loop (suc f) n buf s ≡ some (ok buf, s)
unfolding recv_loop
recv_loop_last f n buf s h = rw (le→ltb n (length buf) h)

-- What the loop returns once it has `buf`.
abbrev Loops : ℕ → ℕ → Bytes → Stream → Type 0
Loops f n buf s =
    (s' : Stream) × (recv_loop f n buf s ≡ some (ok (buf ++ take (n - length buf) (flat s)), s'))
    × (flat s' ≡ drop (n - length buf) (flat s))
    × NoEmpty s'

loop_after :
    (f n : ℕ) (buf : Bytes) (s : Stream) (chunk : Bytes) (s' : Stream)
    → length buf < n
    → Takes (n - length buf) s chunk s'
    → recv_loop (suc f) n buf s ≡ recv_loop f n (buf ++ chunk) s'
    → Loops f n (buf ++ chunk) s'
    → Loops (suc f) n buf s
loop_after f n buf s chunk s' h t round (end, runs, left, no_empty) =
    let m = n - length buf in
    let got : buf ++ chunk ++ take (m - length chunk) (flat s') ≡ buf ++ take m (flat s) =
      append_assoc buf chunk (take (m - length chunk) (flat s'))
      ∙ ap (λ x. buf ++ x)
          (sym (take-append_of_le m chunk (flat s') t.at_most) ∙ ap (take m) (sym t.front)) in
    let less : n - length (buf ++ chunk) ≡ m - length chunk =
      omega (arith, length-append buf chunk) in
    (
      end,
      round ∙ rw less at runs ∙ ap (λ x. some (ok x, end)) got,
      left
          ∙ ap (λ k. drop k (flat s')) less
          ∙ sym (drop-append_of_le m chunk (flat s') t.at_most)
          ∙ ap (drop m) (sym t.front),
      no_empty,
    )

recv_loop_total :
    (f n : ℕ) (buf : Bytes) (s : Stream)
    → NoEmpty s
    → n - length buf < f
    → n ≤ length buf + length (flat s)
    → length buf ≤ n
    → Loops f n buf s
recv_loop_total zero n buf s h hf hn hb = absurd (omega arith)
recv_loop_total (suc f) n buf s h hf hn hb = elim (dec_lt (length buf) n) [
  | yes more ↦
      let t = recv-Takes (n - length buf) s (omega arith) (omega arith) h in
      let chunk = (recv (n - length buf) s).0 in
      let s' = (recv (n - length buf) s).1 in
      loop_after f n buf s chunk s' more t (recv_loop_round f n buf s more t.some_byte) (
        recv_loop_total f n (buf ++ chunk) s' t.no_empty
          (omega (arith, length-append buf chunk, t.some_byte))
          (omega (arith, length-append buf chunk, ap length t.front, length-append chunk (flat s')))
          (omega (arith, length-append buf chunk, t.at_most)))
  | no done ↦
      let none_left : n - length buf ≡ 0 = omega arith in
      (
        s,
        recv_loop_last f n buf s (omega arith)
            ∙ ap (λ x. some (ok x, s))
                (sym (ap (λ k. buf ++ take k (flat s)) none_left ∙ append-nil buf)),
        sym (ap (λ k. drop k (flat s)) none_left),
        h,
      )
]

-- However the network cuts the bytes, reading `n` of them from a stream that has so many ends, and
-- returns exactly the first `n`; what is left of the stream is what comes behind them.
pub recv_exact_total :
    (n : ℕ) (s : Stream)
    → NoEmpty s
    → n ≤ length (flat s)
    → (s' : Stream) × (recv_exact n s ≡ some (ok (take n (flat s)), s'))
      × (flat s' ≡ drop n (flat s))
      × NoEmpty s'
unfolding recv_exact
recv_exact_total n s h hn =
    let whole : n - 0 ≡ n = omega arith in
    rw whole at (recv_loop_total (suc n) n [] s h (omega arith) (omega arith) (omega arith))
