-- ===== src/Storage/Hashing.antt =====
-- `sha256_file` of storage.py: a file hashed block by block. The state of `hashlib.sha256()` is what it
-- was fed: repeated calls of `update` are one call with all the bytes.
use cisc468_python.Base.{
  ℕ, zero, suc, ◌<◌, Bytes, Str, Bool, true, false, if◌then◌else◌, [], ◌∷◌, ◌++◌, Option, none,
  some, take, drop, length, length-drop, take-append-drop, append_assoc, append-nil, ◌≡◌, ap, ◌∙◌,
  sym, arith,
}
use cisc468_python.Runtime.{Runtime}

abbrev pub block_size : ℕ
block_size = 65536

no_bytes : Bytes → Bool
no_bytes [] = true
no_bytes (b ∷ s) = false

-- The loop, with what was fed so far and what is left of the file, for blocks of this size. `none`
-- means that the fuel ran out.
unfoldable pub feed : ℕ → ℕ → Bytes → Bytes → Option Bytes
unfolding no_bytes
feed size zero fed rest = none
feed size (suc fuel) fed rest =
    let more = feed size fuel (fed ++ take size rest) (drop size rest) in
    if no_bytes (take size rest) then some fed else more

hexdigest : Runtime → Option Bytes → Option Str
hexdigest r none = none
hexdigest r (some fed) = some (r.sha256_hex fed)

-- Each block but the last call of `read` has a byte, so one round more than bytes is enough.
unfoldable pub sha256_file : Runtime → Bytes → Option Str
unfolding hexdigest feed
sha256_file r content = hexdigest r (feed block_size (suc (length content)) [] content)

feed_all :
    (size fuel : ℕ) (fed rest : Bytes)
    → length rest < fuel
    → feed (suc size) fuel fed rest ≡ some (fed ++ rest)
unfolding feed
feed_all size zero fed rest h = absurd (omega arith)
feed_all size (suc fuel) fed [] h = ap some (sym (append-nil fed))
feed_all size (suc fuel) fed (b ∷ rest) h =
    feed_all size fuel (fed ++ b ∷ take size rest) (drop size rest)
      (omega (arith, length-drop size rest))
    ∙ ap some (
        append_assoc fed (b ∷ take size rest) (drop size rest)
        ∙ ap (λ t. fed ++ b ∷ t) (take-append-drop size rest))

-- The hash that `sha256_file` computes block by block is that of the whole content, whatever the
-- length of the file; the loop always comes to its end.
pub sha256_file-sha256_hex :
    (r : Runtime) (content : Bytes) → sha256_file r content ≡ some (r.sha256_hex content)
unfolding sha256_file hexdigest
sha256_file-sha256_hex r content =
    ap (hexdigest r) (feed_all 65535 (suc (length content)) [] content (omega arith))
