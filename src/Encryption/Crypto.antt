-- ===== src/Encryption/Crypto.antt =====
-- The packages that nats-micro/src/encryption calls, as a parameter: X25519, HMAC-SHA256,
-- XChaCha20-Poly1305, base64 and serde_json, with the documented laws that the theorems rely on.
use nats_micro.Prelude.{◌+◌, ◌≡◌, List, Option, some, Str, length}
use mathlib.Core.List.{Perm}

-- Keys, nonces and tags are their bytes. A random value is an argument of the code that draws it.
pub record Crypto : Type 0 where
  -- `PublicKey::from(&secret)` and `secret.diffie_hellman(&public)`
  pub public_key : Str → Str
  pub diffie_hellman : Str → Str → Str
  -- the tag of a message under a key
  pub hmac : Str → Str → Str
  -- `encrypt` and `decrypt` of the cipher: key, nonce, text
  pub encrypt : Str → Str → Str → Option Str
  pub decrypt : Str → Str → Str → Option Str
  pub encode : Str → Str
  pub decode : Str → Option Str
  -- `to_vec` and `from_slice` of a map of strings; the entries of a `HashMap` come in some order
  pub to_vec : List (Str × Str) → Option Str
  pub from_slice : Str → Option (List (Str × Str))

pub record IsCrypto (c : Crypto) : Type 0 where
  pub dh_agrees :
      (a b : Str) → c.diffie_hellman a (c.public_key b) ≡ c.diffie_hellman b (c.public_key a)
  pub public_length : (secret : Str) → length (c.public_key secret) ≡ 32
  pub decrypt-encrypt :
      (key nonce plaintext ciphertext : Str)
      → c.encrypt key nonce plaintext ≡ some ciphertext
      → c.decrypt key nonce ciphertext ≡ some plaintext
  -- the ciphertext ends in a tag of 16 bytes
  pub encrypt_length :
      (key nonce plaintext ciphertext : Str)
      → c.encrypt key nonce plaintext ≡ some ciphertext
      → length ciphertext ≡ length plaintext + 16
  pub decode-encode : (s : Str) → c.decode (c.encode s) ≡ some s
  pub from_slice-to_vec :
      (m : List (Str × Str)) (json : Str)
      → c.to_vec m ≡ some json
      → (entries : List (Str × Str)) × (c.from_slice json ≡ some entries) × Perm entries m
