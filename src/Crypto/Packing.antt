-- ===== src/Crypto/Packing.antt =====
-- Byte strings: big-endian packing as `struct.pack` does it, the XOR of two byte strings, UTF-8.
use Prim.Native.Nat.{bit_xor}
use mathlib.Core.List.{foldl, foldl-append}
use native.Mathlib.Nat.{pow-suc}
use mathlib.Core.Path.{ap₂}
use cisc468_python.Base.{
  ℕ, zero, suc, ◌+◌, ◌*◌, ◌/◌, ◌%◌, ◌^◌, ◌<◌, ◌≤◌, Bytes, Str, ltb, leb, ◌==◌, if◌then◌else◌, Bool,
  true, ◌&&◌, [], ◌∷◌, ◌++◌, ◌≡◌, refl, arith, min, lt→ltb, length, length-append, All, bind_result,
  Result, ok, err, unicode_error,
}

-- The last `w` bytes of `n`, the highest first.
unfoldable pub pack_be : ℕ → ℕ → Bytes
pack_be zero n = []
pack_be (suc w) n = pack_be w (n / 256) ++ n % 256 ∷ []

unfoldable pub unpack_be : Bytes → ℕ
unpack_be = foldl (λ n b. n * 256 + b) 0

pub length-pack_be : (w n : ℕ) → length (pack_be w n) ≡ w
unfolding pack_be
length-pack_be zero n = refl
length-pack_be (suc w) n =
    omega (arith, length-append (pack_be w (n / 256)) (n % 256 ∷ []), length-pack_be w (n / 256))

unpack_be-concat : (s : Bytes) (b : ℕ) → unpack_be (s ++ b ∷ []) ≡ unpack_be s * 256 + b
unfolding unpack_be
unpack_be-concat s b = foldl-append (λ n c. n * 256 + c) 0 s (b ∷ [])

pub unpack_be-pack_be : (w n : ℕ) → n < 256 ^ w → unpack_be (pack_be w n) ≡ n
unfolding pack_be
unpack_be-pack_be zero n h = unfold unpack_be in omega arith
unpack_be-pack_be (suc w) n h = omega (
  arith,
  unpack_be-concat (pack_be w (n / 256)) (n % 256),
  unpack_be-pack_be w (n / 256) (omega (arith, pow-suc 256 w)),
)

-- Every number is a byte.
abbrev pub IsBytes : Bytes → Type 0
IsBytes s = All (λ b. b < 256) s

pub IsBytes-append : (s t : Bytes) → IsBytes s → IsBytes t → IsBytes (s ++ t)
IsBytes-append [] t h k = k
IsBytes-append (b ∷ s) t (hb, h) k = (hb, IsBytes-append s t h k)

pub pack_be-IsBytes : (w n : ℕ) → IsBytes (pack_be w n)
unfolding pack_be
pack_be-IsBytes zero n = tt
pack_be-IsBytes (suc w) n =
    IsBytes-append (pack_be w (n / 256)) (n % 256 ∷ []) (pack_be-IsBytes w (n / 256))
      (omega arith, tt)

-- `bytes(a ^ b for a, b in zip(s, t))`
unfoldable pub xor_bytes : Bytes → Bytes → Bytes
xor_bytes [] t = []
xor_bytes (a ∷ s) [] = []
xor_bytes (a ∷ s) (b ∷ t) = bit_xor a b ∷ xor_bytes s t

-- Whether XOR with `a` undoes itself at each number below `m`.
cancels : ℕ → ℕ → Bool
cancels a zero = true
cancels a (suc m) = let smaller = cancels a m in smaller && (bit_xor a (bit_xor a m) == m)

-- The same at each `a` below `m`, for all bytes.
all_cancel : ℕ → Bool
all_cancel zero = true
all_cancel (suc m) = let smaller = all_cancel m in smaller && cancels m 256

cancels_at : (a m b : ℕ) → b < m → cancels a m ≡ true → bit_xor a (bit_xor a b) ≡ b
unfolding cancels
cancels_at a zero b below h = absurd (omega arith)
cancels_at a (suc m) b below h = ground (arith, cancels_at a m b)

all_cancel_at : (m a : ℕ) → a < m → all_cancel m ≡ true → cancels a 256 ≡ true
unfolding all_cancel
all_cancel_at zero a below h = absurd (omega arith)
all_cancel_at (suc m) a below h = ground (arith, all_cancel_at m a)

bytes_cancel : all_cancel 256 ≡ true
unfolding all_cancel cancels
bytes_cancel = refl

xor_cancel : (a b : ℕ) → a < 256 → b < 256 → bit_xor a (bit_xor a b) ≡ b
xor_cancel a b ha hb = cancels_at a 256 b hb (all_cancel_at 256 a ha bytes_cancel)

pub length-xor_bytes : (s t : Bytes) → length (xor_bytes s t) ≡ min (length s) (length t)
unfolding xor_bytes
length-xor_bytes [] t = omega arith
length-xor_bytes (a ∷ s) [] = omega arith
length-xor_bytes (a ∷ s) (b ∷ t) = omega (arith, length-xor_bytes s t)

-- XOR with a key that is as long loses nothing.
pub xor_bytes_cancel :
    (k s : Bytes) → IsBytes k → IsBytes s → length s ≤ length k → xor_bytes k (xor_bytes k s) ≡ s
unfolding xor_bytes
xor_bytes_cancel [] [] hk hs le = refl
xor_bytes_cancel [] (b ∷ s) hk hs le = absurd (omega arith)
xor_bytes_cancel (a ∷ k) [] hk hs le = refl
xor_bytes_cancel (a ∷ k) (b ∷ s) (ha, hk) (hb, hs) le =
    ap₂ ◌∷◌ (xor_cancel a b ha hb) (xor_bytes_cancel k s hk hs (omega arith))

-- `s.encode()`: UTF-8, which has no form for a surrogate.
utf8_char : ℕ → Result Bytes
utf8_char c =
    if ltb c 128
    then ok (c ∷ [])
    else if ltb c 2048
    then ok ((192 + c / 64) ∷ (128 + c % 64) ∷ [])
    else if leb 55296 c && leb c 57343
    then err unicode_error
    else if ltb c 65536
    then ok ((224 + c / 4096) ∷ (128 + c / 64 % 64) ∷ (128 + c % 64) ∷ [])
    else ok ((240 + c / 262144) ∷ (128 + c / 4096 % 64) ∷ (128 + c / 64 % 64) ∷ (128 + c % 64) ∷ [])

unfoldable pub utf8 : Str → Result Bytes
unfolding utf8_char
utf8 [] = ok []
utf8 (c ∷ s) =
    let rest = utf8 s in bind_result (utf8_char c) (λ b. bind_result rest (λ bs. ok (b ++ bs)))

abbrev pub IsAscii : Str → Type 0
IsAscii s = All (λ c. c < 128) s

pub utf8_ascii : (s : Str) → IsAscii s → utf8 s ≡ ok s
unfolding utf8
utf8_ascii [] h = refl
utf8_ascii (c ∷ s) (hc, h) = rw (utf8_ascii s h, lt→ltb c 128 hc)
