-- ===== src/Tests/Toy.antt =====
-- A concrete `Runtime`, not secure, that has the properties that are assumed of the real one.
use mathlib.Core.Option.{some-injective}
use cisc468_python.Base.{
  ℕ, zero, suc, ◌+◌, ◌%◌, ◌<◌, Bytes, codes, str_eq, str_eq_refl, ◌==◌, if◌then◌else◌, true, List,
  [], ◌∷◌, ◌++◌, Option, none, some, replicate, length, All, ◌≡◌, refl, ap, arith, Result,
}
use cisc468_python.Json.{Json, null}
use cisc468_python.Crypto.Identity.{Identity, IsIdentity, make_identity}
use cisc468_python.Node.{Node, missing}
use cisc468_python.Json.Dumps.{show_nat}
use cisc468_python.Runtime.{Runtime, IsLawful}

unfoldable pub sum : Bytes → ℕ
sum [] = 0
sum (b ∷ s) = b + sum s

abbrev pub digest : Bytes → ℕ
digest s = sum s % 256

unfoldable pub toy_open : Bytes → Bytes → Bytes → Bytes → Option Bytes
toy_open key nonce [] aad = none
toy_open key nonce (t ∷ m) aad = if t == digest (key ++ (nonce ++ aad)) then some m else none

-- Keys are their own public keys, a signature is a digest, a ciphertext is a tag and the plaintext.
abbrev pub toy : Runtime
toy = record {
  ed25519_public = λ seed. some seed;
  ed25519_sign = λ seed m. replicate 64 (digest (seed ++ m));
  ed25519_accepts = λ raw sig m. str_eq sig (replicate 64 (digest (raw ++ m)));
  x25519_public = λ a. digest a ∷ [];
  x25519_exchange = λ a p. some (replicate 32 (digest (digest a ∷ p)));
  hkdf = λ size salt info secret. replicate size (digest (salt ++ (info ++ secret)));
  argon2id = λ salt size time lanes memory password. replicate size (digest (salt ++ password));
  aes_gcm_seal = λ key nonce m aad. digest (key ++ (nonce ++ aad)) ∷ m;
  aes_gcm_open = toy_open;
  sha256_hex = λ m. show_nat (digest m);
  urandom = λ i size. replicate size (i % 256);
  uuid4 = λ i. codes "id-" ++ show_nat i;
  repr = λ v. codes "...";
  repr_float = λ s. s;
}

replicate-bytes : (n b : ℕ) → b < 256 → All (λ c. c < 256) (replicate n b)
replicate-bytes zero b h = tt
replicate-bytes (suc n) b h = (h, replicate-bytes n b h)

length-replicate : (n b : ℕ) → length (replicate n b) ≡ n
length-replicate zero b = refl
length-replicate (suc n) b = ap suc (length-replicate n b)

digest_comm : (a b : Bytes) → digest (digest a ∷ digest b ∷ []) ≡ digest (digest b ∷ digest a ∷ [])
unfolding sum
digest_comm a b = omega arith

toy_open-seal :
    (key nonce m aad : Bytes) → toy_open key nonce (digest (key ++ (nonce ++ aad)) ∷ m) aad ≡ some m
unfolding toy_open
toy_open-seal key nonce m aad = ground arith

abbrev pub alice : Identity
alice = record { seed = 1 ∷ 2 ∷ []; raw_pub = 1 ∷ 2 ∷ []; fingerprint = show_nat 3 }

abbrev pub bob : Identity
bob = record { seed = 5 ∷ 6 ∷ []; raw_pub = 5 ∷ 6 ∷ []; fingerprint = show_nat 11 }

pub alice-IsIdentity : IsIdentity toy alice
unfolding make_identity sum
alice-IsIdentity = refl

pub bob-IsIdentity : IsIdentity toy bob
unfolding make_identity sum
bob-IsIdentity = refl

-- A peer with no stores, these frames to come, and room for ten frames.
abbrev pub node_with : List (Result Json) → Node
node_with inbox = record {
  contacts = [];
  contacts_file = none;
  file_key = 7 ∷ [];
  shares = [];
  shares_file = none;
  received = [];
  listings = [];
  disk = λ p. missing;
  identity_file = none;
  salt_file = none;
  draws = 0;
  inbox = inbox;
  outbox = [];
  sendable = 10;
  dials = [];
}

abbrev pub last_sent : List Json → Json
last_sent [] = null
last_sent (v ∷ []) = v
last_sent (v ∷ w ∷ vs) = last_sent (w ∷ vs)

toy_accepts-sign :
    (seed raw m : Bytes)
    → some seed ≡ some raw
    → str_eq (replicate 64 (digest (seed ++ m))) (replicate 64 (digest (raw ++ m))) ≡ true
toy_accepts-sign seed raw m h =
    rw (some-injective seed raw h) (str_eq_refl (replicate 64 (digest (raw ++ m))))

pub toy-IsLawful : IsLawful toy
toy-IsLawful = record {
  accepts-sign = toy_accepts-sign;
  public-some = λ seed h. (seed, refl);
  exchange_comm = λ a b. ap (λ x. some (replicate 32 x)) (digest_comm a b);
  public-bytes = λ a. (omega arith, tt);
  urandom-bytes = λ i size. replicate-bytes size (i % 256) (omega arith);
  length-urandom = λ i size. length-replicate size (i % 256);
  length-sign = λ seed m. length-replicate 64 (digest (seed ++ m));
  sign-bytes = λ seed m. replicate-bytes 64 (digest (seed ++ m)) (omega arith);
  seal-bytes = λ key nonce m aad h. (omega arith, h);
  open-seal = toy_open-seal;
}
