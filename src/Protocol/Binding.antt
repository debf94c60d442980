-- ===== src/Protocol/Binding.antt =====
-- What a signature binds: the bytes that are signed determine the values that they stand for.
use cisc468_python.Base.{ℕ, zero, suc, Bytes, codes, [], ◌∷◌, ◌≡◌}
use cisc468_python.Json.{Json, null, obj, Fields, end, field, fields}
use cisc468_python.Json.Dumps.{compact_sorted}
use cisc468_python.Json.Loads.Printed.{IsPlain, printed}
use cisc468_python.Protocol.{canonical_manifest}

-- What a manifest says: the arguments of `canonical_manifest`.
pub record Manifest : Type 0 where
  pub file_id : Json
  pub filename : Json
  pub original_owner : Json
  pub sha256_hex : Json
  pub size : Json
  pub timestamp : Json

abbrev pub IsPlainManifest : Manifest → Type 0
IsPlainManifest m =
    IsPlain m.file_id
    × IsPlain m.filename
    × IsPlain m.original_owner
    × IsPlain m.sha256_hex
    × IsPlain m.size
    × IsPlain m.timestamp

abbrev pub manifest_bytes : Manifest → Bytes
manifest_bytes m =
    canonical_manifest m.file_id m.filename m.original_owner m.sha256_hex m.size m.timestamp

abbrev pub SameManifest : Manifest → Manifest → Type 0
SameManifest m m' =
    (printed compact_sorted m.file_id ≡ printed compact_sorted m'.file_id)
    × (printed compact_sorted m.filename ≡ printed compact_sorted m'.filename)
    × (printed compact_sorted m.original_owner ≡ printed compact_sorted m'.original_owner)
    × (printed compact_sorted m.sha256_hex ≡ printed compact_sorted m'.sha256_hex)
    × (printed compact_sorted m.size ≡ printed compact_sorted m'.size)
    × (printed compact_sorted m.timestamp ≡ printed compact_sorted m'.timestamp)

abbrev manifest_object : Manifest → Json
manifest_object m = obj (
    fields (
      (codes "file_id", m.file_id)
      ∷ (codes "filename", m.filename)
      ∷ (codes "original_owner", m.original_owner)
      ∷ (codes "sha256_hex", m.sha256_hex)
      ∷ (codes "size", m.size)
      ∷ (codes "timestamp", m.timestamp)
      ∷ []))

nth_value : ℕ → Fields → Json
nth_value n end = null
nth_value zero (field k v fs) = v
nth_value (suc n) (field k v fs) = nth_value n fs

value_at : ℕ → Json → Json
unfolding nth_value
value_at n (obj fs) = nth_value n fs
value_at n v = v
