-- ===== src/Crypto/Session.antt =====
-- `SessionKeys` of crypto_utils.py.
use cisc468_python.Base.{
  ℕ, Bytes, Str, codes, Bool, true, false, if◌then◌else◌, ◌++◌, ◌≡◌, arith, Result, ok, err,
  bind_result,
}
use cisc468_python.Runtime.{Runtime}
use cisc468_python.Crypto.Packing.{xor_bytes, utf8}

pub record SessionKeys : Type 0 where
  pub tx_key : Bytes
  pub rx_key : Bytes
  pub tx_nonce_base : Bytes
  pub rx_nonce_base : Bytes

module _ (r : Runtime) where
  -- `derive_label`
  derive_label : Bytes → Bytes → Bytes → Str → ℕ → Bytes
  derive_label shared_secret salt info_base label length =
      r.hkdf length salt (info_base ++ label) shared_secret

  -- The choice at the end of `derive`: the responder swaps the directions.
  session_of : Bool → (Str → ℕ → Bytes) → SessionKeys
  session_of is_initiator label =
      if is_initiator
      then record {
        tx_key = label (codes "TX") 32;
        rx_key = label (codes "RX") 32;
        tx_nonce_base = label (codes "NTX") 12;
        rx_nonce_base = label (codes "NRX") 12;
      }
      else record {
        tx_key = label (codes "RX") 32;
        rx_key = label (codes "TX") 32;
        tx_nonce_base = label (codes "NRX") 12;
        rx_nonce_base = label (codes "NTX") 12;
      }

  -- `SessionKeys.derive`. The name of a peer that UTF-8 cannot encode makes it raise.
  unfoldable pub derive : Bytes → Bytes → Bytes → Str → Str → Bool → Result SessionKeys
  unfolding derive_label session_of
  derive shared_secret initiator_nonce responder_nonce initiator_fp responder_fp is_initiator =
      bind_result (utf8 (codes "CISC468-SESSION-V1" ++ (initiator_fp ++ responder_fp))) λ info_base.
        ok (
          session_of is_initiator
            (derive_label shared_secret (xor_bytes initiator_nonce responder_nonce) info_base))

-- The other end's view of the same keys.
abbrev pub mirror : SessionKeys → SessionKeys
mirror s = record {
  tx_key = s.rx_key;
  rx_key = s.tx_key;
  tx_nonce_base = s.rx_nonce_base;
  rx_nonce_base = s.tx_nonce_base;
}

abbrev pub mirror_result : Result SessionKeys → Result SessionKeys
mirror_result (ok s) = ok (mirror s)
mirror_result (err e) = err e

-- From the same secret, nonces and names, what the initiator derives is the mirror image of what
-- the responder derives: the keys and nonce bases of the two directions are swapped, and where
-- one end raises, so does the other.
pub derive-mirror :
    (r : Runtime) (secret initiator_nonce responder_nonce : Bytes) (initiator_fp responder_fp : Str)
    → derive r secret initiator_nonce responder_nonce initiator_fp responder_fp true
      ≡ mirror_result
          (derive r secret initiator_nonce responder_nonce initiator_fp responder_fp false)
unfolding derive
derive-mirror r secret initiator_nonce responder_nonce initiator_fp responder_fp = ground arith
