-- ===== src/Json/Utf8.antt =====
-- UTF-8 as `json.loads` decodes bytes: surrogates are let through.
use cisc468_python.Base.{
  ℕ, zero, suc, ◌+◌, ◌-◌, ◌*◌, Bytes, Str, if◌then◌else◌, ltb, leb, ◌&&◌, [], ◌∷◌, Result, ok, err,
  bind_result, unicode_error, All, ◌<◌, ◌≡◌, refl, lt→ltb,
}

continuation : ℕ → ℕ → ℕ → Str → Result Str
continuation low high c s = if leb low c && ltb c high then ok (c ∷ s) else err unicode_error

-- UTF-8, with surrogates let through: `more` bytes of a character are to come, of which `acc` is
-- the value so far and `low` the least that is not overlong.
utf8_rest : ℕ → ℕ → ℕ → Bytes → Result Str
unfolding continuation
utf8_rest zero acc low [] = ok []
utf8_rest (suc more) acc low [] = err unicode_error
utf8_rest zero acc low (b ∷ s) =
    let one = bind_result (utf8_rest 0 0 0 s) (λ t. ok (b ∷ t)) in
    let two = utf8_rest 1 (b - 192) 128 s in
    let three = utf8_rest 2 (b - 224) 2048 s in
    let four = utf8_rest 3 (b - 240) 65536 s in
    if ltb b 128
    then one
    else if leb 194 b && ltb b 224
    then two
    else if leb 224 b && ltb b 240
    then three
    else if leb 240 b && ltb b 245
    then four
    else err unicode_error
utf8_rest (suc zero) acc low (b ∷ s) =
    let c = acc * 64 + (b - 128) in
    let end_char = bind_result (utf8_rest 0 0 0 s) (continuation low 1114112 c) in
    if leb 128 b && ltb b 192 then end_char else err unicode_error
utf8_rest (suc (suc more)) acc low (b ∷ s) =
    let next = utf8_rest (suc more) (acc * 64 + (b - 128)) low s in
    if leb 128 b && ltb b 192 then next else err unicode_error

unfoldable pub decode_utf8 : Bytes → Result Str
unfolding utf8_rest
decode_utf8 s = utf8_rest 0 0 0 s

utf8_rest_ascii : (s : Bytes) → All (λ c. c < 128) s → utf8_rest 0 0 0 s ≡ ok s
unfolding utf8_rest
utf8_rest_ascii [] h = refl
utf8_rest_ascii (c ∷ s) (hc, h) = rw (lt→ltb c 128 hc, utf8_rest_ascii s h) refl

pub decode_utf8_ascii : (s : Bytes) → All (λ c. c < 128) s → decode_utf8 s ≡ ok s
unfolding decode_utf8
decode_utf8_ascii s h = utf8_rest_ascii s h
