-- ===== src/Crypto/Base64.antt =====
-- `b64e` and `b64d` of crypto_utils.py. `base64.b64decode` is read without validation, as it is
-- called: characters outside the alphabet are skipped, and what follows the padding is not read.
use cisc468_python.Base.{
  ℕ, ◌+◌, ◌-◌, ◌*◌, ◌/◌, ◌%◌, ◌<◌, Bytes, Str, ltb, lt→ltb, leb, ◌==◌, if◌then◌else◌, Bool, true,
  false, ◌&&◌, [], ◌∷◌, ◌≡◌, refl, ap, arith, length, Option, none, some, bind_result, Result, ok,
  err, value_error, type_error,
}
use mathlib.Core.Path.{ap₂}
use cisc468_python.Crypto.Packing.{IsBytes}
use cisc468_python.Json.{Json, str}

-- The character of a six-bit digit, and the digit of a character.
encode_char : ℕ → ℕ
encode_char d =
    if ltb d 26
    then 65 + d
    else if ltb d 52
    then 71 + d
    else if ltb d 62
    then d - 4
    else if d == 62
    then 43
    else 47

decode_char : ℕ → Option ℕ
decode_char c =
    if leb 65 c && leb c 90
    then some (c - 65)
    else if leb 97 c && leb c 122
    then some (c - 71)
    else if leb 48 c && leb c 57
    then some (c + 4)
    else if c == 43
    then some 62
    else if c == 47
    then some 63
    else none

decode_char-encode_char : (d : ℕ) → d < 64 → decode_char (encode_char d) ≡ some d
unfolding decode_char encode_char
decode_char-encode_char d h = ground arith

encode_char-ne-pad : (d : ℕ) → d < 64 → (encode_char d == 61) ≡ false
unfolding encode_char
encode_char-ne-pad d h = ground arith

encode_char-lt : (d : ℕ) → d < 64 → encode_char d < 128
unfolding encode_char
encode_char-lt d h = ground arith

-- `base64.b64encode(data).decode()`
unfoldable pub b64e : Bytes → Str
unfolding encode_char
b64e [] = []
b64e (a ∷ []) = encode_char (a / 4) ∷ encode_char (a % 4 * 16) ∷ 61 ∷ 61 ∷ []
b64e (a ∷ b ∷ []) =
    encode_char (a / 4) ∷ encode_char (a % 4 * 16 + b / 16) ∷ encode_char (b % 16 * 4) ∷ 61 ∷ []
b64e (a ∷ b ∷ c ∷ rest) =
    encode_char (a / 4)
    ∷ encode_char (a % 4 * 16 + b / 16)
    ∷ encode_char (b % 16 * 4 + c / 64)
    ∷ encode_char (c % 64)
    ∷ b64e rest

-- The bits that a digit leaves for the next byte, by its place in the group of four.
next_left : ℕ → ℕ → ℕ
next_left quad d =
    if quad == 0 then d else if quad == 1 then d % 16 else if quad == 2 then d % 4 else 0

-- The byte that a digit completes, if it does.
emit : ℕ → ℕ → ℕ → Result Bytes → Result Bytes
emit quad left d rest =
    if quad == 0
    then rest
    else bind_result rest λ bs. ok (
        (if quad == 1
          then left * 4 + d / 16
          else if quad == 2
          then left * 16 + d / 4
          else left * 64 + d)
        ∷ bs)

-- The loop of `binascii.a2b_base64`.
b64_loop : Str → ℕ → ℕ → ℕ → Result Bytes
unfolding decode_char next_left emit
b64_loop [] quad left pads = if quad == 0 then ok [] else err value_error
b64_loop (c ∷ s) quad left pads =
    let skipped = b64_loop s quad left pads in
    let padded = b64_loop s quad left (if leb 2 quad then pads + 1 else pads) in
    if c == 61
    then (if leb 2 quad && leb 4 (quad + pads + 1) then ok [] else padded)
    else elim (decode_char c) [
      | none ↦ skipped
      | some d ↦ emit quad left d (b64_loop s ((quad + 1) % 4) (next_left quad d) 0)
    ]

all_ascii : Str → Bool
all_ascii [] = true
all_ascii (c ∷ s) = ltb c 128 && all_ascii s

b64_text : Str → Result Bytes
unfolding b64_loop all_ascii
b64_text s = if all_ascii s then b64_loop s 0 0 0 else err value_error

-- `base64.b64decode(s)`, for `s` of any type
unfoldable pub b64d : Json → Result Bytes
unfolding b64_text
b64d (str s) = b64_text s
b64d _ = err type_error

-- One digit is read back as it was written.
b64_loop_digit :
    (d : ℕ) (s : Str) (quad left pads : ℕ)
    → d < 64
    → b64_loop (encode_char d ∷ s) quad left pads
      ≡ emit quad left d (b64_loop s ((quad + 1) % 4) (next_left quad d) 0)
unfolding b64_loop
b64_loop_digit d s quad left pads h = rw (encode_char-ne-pad d h, decode_char-encode_char d h)

pads_two : (left : ℕ) → b64_loop (61 ∷ 61 ∷ []) 2 left 0 ≡ ok []
unfolding b64_loop
pads_two left = refl

pads_one : (left : ℕ) → b64_loop (61 ∷ []) 3 left 0 ≡ ok []
unfolding b64_loop
pads_one left = refl

ok_three :
    {x x' y y' z z' : ℕ} (rest : Bytes)
    → x ≡ x'
    → y ≡ y'
    → z ≡ z'
    → ok (x ∷ y ∷ z ∷ rest) ≡ ok (x' ∷ y' ∷ z' ∷ rest)
ok_three rest p q r = cc

next_left_last : (d : ℕ) → next_left 3 d ≡ 0
unfolding next_left
next_left_last d = refl

b64_loop-b64e : (s : Bytes) → IsBytes s → b64_loop (b64e s) 0 0 0 ≡ ok s
unfolding b64e
b64_loop-b64e [] h = unfold b64_loop in refl
b64_loop-b64e (a ∷ []) (ha, h) =
    rw
      (
        b64_loop_digit (a / 4) (encode_char (a % 4 * 16) ∷ 61 ∷ 61 ∷ []) 0 0 0 (omega arith),
        b64_loop_digit (a % 4 * 16) (61 ∷ 61 ∷ []) 1 (next_left 0 (a / 4)) 0 (omega arith),
        pads_two,
      )
      (unfold emit next_left in ap (λ x. ok (x ∷ [])) (omega arith))
b64_loop-b64e (a ∷ b ∷ []) (ha, (hb, h)) =
    rw
      (
        b64_loop_digit (a / 4) _ 0 0 0 (omega arith),
        b64_loop_digit (a % 4 * 16 + b / 16) _ 1 (next_left 0 (a / 4)) 0 (omega arith),
        b64_loop_digit (b % 16 * 4) _ 2 (next_left 1 (a % 4 * 16 + b / 16)) 0 (omega arith),
        pads_one,
      )
      (unfold emit next_left in ap₂ (λ x y. ok (x ∷ y ∷ [])) (omega arith) (omega arith))
b64_loop-b64e (a ∷ b ∷ c ∷ rest) (ha, (hb, (hc, h))) =
    rw
      (
        b64_loop_digit (a / 4) _ 0 0 0 (omega arith),
        b64_loop_digit (a % 4 * 16 + b / 16) _ 1 (next_left 0 (a / 4)) 0 (omega arith),
        b64_loop_digit (b % 16 * 4 + c / 64) _ 2 (next_left 1 (a % 4 * 16 + b / 16)) 0
            (omega arith),
        b64_loop_digit (c % 64) _ 3 (next_left 2 (b % 16 * 4 + c / 64)) 0 (omega arith),
        next_left_last (c % 64),
        b64_loop-b64e rest h,
      )
      (unfold emit next_left in ok_three rest (omega arith) (omega arith) (omega arith))

all_ascii_digit : (d : ℕ) (s : Str) → d < 64 → all_ascii (encode_char d ∷ s) ≡ all_ascii s
unfolding all_ascii
all_ascii_digit d s h = rw (lt→ltb (encode_char d) 128 (encode_char-lt d h))

all_ascii-b64e : (s : Bytes) → IsBytes s → all_ascii (b64e s) ≡ true
unfolding b64e
all_ascii-b64e [] h = unfold all_ascii in refl
all_ascii-b64e (a ∷ []) (ha, h) =
    rw (all_ascii_digit (a / 4) _ (omega arith), all_ascii_digit (a % 4 * 16) _ (omega arith))
      (unfold all_ascii in refl)
all_ascii-b64e (a ∷ b ∷ []) (ha, (hb, h)) =
    rw
      (
        all_ascii_digit (a / 4) _ (omega arith),
        all_ascii_digit (a % 4 * 16 + b / 16) _ (omega arith),
        all_ascii_digit (b % 16 * 4) _ (omega arith),
      )
      (unfold all_ascii in refl)
all_ascii-b64e (a ∷ b ∷ c ∷ rest) (ha, (hb, (hc, h))) =
    rw
      (
        all_ascii_digit (a / 4) _ (omega arith),
        all_ascii_digit (a % 4 * 16 + b / 16) _ (omega arith),
        all_ascii_digit (b % 16 * 4 + c / 64) _ (omega arith),
        all_ascii_digit (c % 64) _ (omega arith),
      )
      (all_ascii-b64e rest h)

-- What `b64e` writes for a byte string, `b64d` reads back.
pub b64d-b64e : (s : Bytes) → IsBytes s → b64d (str (b64e s)) ≡ ok s
unfolding b64d
b64d-b64e s h = rw (b64_text, all_ascii-b64e s h) (b64_loop-b64e s h)

pub length-b64e : (s : Bytes) → length (b64e s) ≡ (length s + 2) / 3 * 4
unfolding b64e
length-b64e [] = omega arith
length-b64e (a ∷ []) = omega arith
length-b64e (a ∷ b ∷ []) = omega arith
length-b64e (a ∷ b ∷ c ∷ rest) = omega (arith, length-b64e rest)
