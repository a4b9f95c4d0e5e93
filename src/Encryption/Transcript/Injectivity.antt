-- ===== src/Encryption/Transcript/Injectivity.antt =====
-- The length prefixes of `update_signature_mac`, nats-micro/src/encryption/mod.rs.
use native.Mathlib.Nat.{pow-suc}
use mathlib.Core.List.{append_assoc, append-nil}
use nats_micro.Prelude.{
  ℕ, zero, suc, ◌/◌, ◌%◌, ◌^◌, ◌<◌, ◌≡◌, List, [], ◌∷◌, ◌++◌, Option, some, none, Str, bytes,
  length, length-append, arith, refl, ap, ◌∙◌, sym,
}
use nats_micro.Encryption.Transcript.{
  transcript_version, SignatureTranscript, to_be_bytes, update_len_prefixed, update_optional,
  update_signature_mac,
}

length-to_be_bytes : (n value : ℕ) → length (to_be_bytes n value) ≡ n
unfolding to_be_bytes
length-to_be_bytes zero value = omega arith
length-to_be_bytes (suc n) value = omega (
  arith,
  length-append (to_be_bytes n (value / 256)) (value % 256 ∷ []),
  length-to_be_bytes n (value / 256),
)

module _ {ℓ} {A : Type ℓ} where
  -- A text cut after equally many elements.
  pub append-cut :
      (xs ys : List A) (xs' ys' : List A)
      → length xs ≡ length xs'
      → xs ++ ys ≡ xs' ++ ys'
      → (xs ≡ xs') × (ys ≡ ys')
  append-cut [] ys [] ys' n e = (refl, e)
  append-cut [] ys (x ∷ xs') ys' n e = ground arith
  append-cut (x ∷ xs) ys [] ys' n e = ground arith
  append-cut (x ∷ xs) ys (x' ∷ xs') ys' n e = ground (arith, append-cut xs ys xs' ys')

to_be_bytes-injective :
    (n a b : ℕ) → a < 256 ^ n → b < 256 ^ n → to_be_bytes n a ≡ to_be_bytes n b → a ≡ b
unfolding to_be_bytes
to_be_bytes-injective zero a b la lb e = omega arith
to_be_bytes-injective (suc n) a b la lb e =
    let (high, low) =
      append-cut (to_be_bytes n (a / 256)) (a % 256 ∷ []) (to_be_bytes n (b / 256)) (b % 256 ∷ [])
        (length-to_be_bytes n (a / 256) ∙ sym (length-to_be_bytes n (b / 256))) e in
    let same : a % 256 ≡ b % 256 = ground arith in
    let above : a / 256 ≡ b / 256 =
      to_be_bytes-injective n (a / 256) (b / 256) (omega (arith, pow-suc 256 n))
        (omega (arith, pow-suc 256 n)) high in
    omega (arith, same, above)

prefixed_assoc :
    (label size value rest : Str)
    → label ++ (size ++ value) ++ rest ≡ label ++ (size ++ (value ++ rest))
prefixed_assoc label size value rest =
    append_assoc label (size ++ value) rest ∙ ap (λ t. label ++ t) (append_assoc size value rest)

-- A field of a length that a `u64` holds, and what follows it, can be read back.
update_len_prefixed-cut :
    (label value value' rest rest' : Str)
    → length value < 2 ^ 64
    → length value' < 2 ^ 64
    → update_len_prefixed label value ++ rest ≡ update_len_prefixed label value' ++ rest'
    → (value ≡ value') × (rest ≡ rest')
unfolding update_len_prefixed
update_len_prefixed-cut label value value' rest rest' small small' e =
    let size = to_be_bytes 8 (length value % 2 ^ 64) in
    let size' = to_be_bytes 8 (length value' % 2 ^ 64) in
    let (_, tail) =
      append-cut label (size ++ (value ++ rest)) label (size' ++ (value' ++ rest')) refl (
        sym (prefixed_assoc label size value rest) ∙ e ∙ prefixed_assoc label size' value' rest') in
    let (sizes, fields) =
      append-cut size (value ++ rest) size' (value' ++ rest')
        (length-to_be_bytes 8 (length value % 2 ^ 64)
          ∙ sym (length-to_be_bytes 8 (length value' % 2 ^ 64)))
        tail in
    let same : length value ≡ length value' = omega (
      arith,
      to_be_bytes-injective 8 (length value % 2 ^ 64) (length value' % 2 ^ 64) (omega arith)
          (omega arith) sizes,
    ) in
    append-cut value rest value' rest' same fields

-- An absent field is signed like an empty one.
abbrev pub signed : Option Str → Str
signed none = []
signed (some value) = value

update_optional-cut :
    (label : Str) (value value' : Option Str) (rest rest' : Str)
    → length (signed value) < 2 ^ 64
    → length (signed value') < 2 ^ 64
    → update_optional label value ++ rest ≡ update_optional label value' ++ rest'
    → (signed value ≡ signed value') × (rest ≡ rest')
unfolding update_optional
update_optional-cut label none none = update_len_prefixed-cut label [] []
update_optional-cut label none (some b) = update_len_prefixed-cut label [] b
update_optional-cut label (some a) none = update_len_prefixed-cut label a []
update_optional-cut label (some a) (some b) = update_len_prefixed-cut label a b

-- Every field has a length that a `u64` holds.
pub record IsSized (t : SignatureTranscript) : Type 0 where
  pub subject : length t.subject < 2 ^ 64
  pub ephemeral_pub : length t.ephemeral_pub < 2 ^ 64
  pub request_id : length (signed t.request_id) < 2 ^ 64
  pub client_version : length (signed t.client_version) < 2 ^ 64
  pub encrypted_headers_value : length (signed t.encrypted_headers_value) < 2 ^ 64
  pub payload : length t.payload < 2 ^ 64

-- The requests that one signature covers.
pub record SignedAlike (t u : SignatureTranscript) : Type 0 where
  pub subject : t.subject ≡ u.subject
  pub ephemeral_pub : t.ephemeral_pub ≡ u.ephemeral_pub
  pub request_id : signed t.request_id ≡ signed u.request_id
  pub client_version : signed t.client_version ≡ signed u.client_version
  pub encrypted_headers_value : signed t.encrypted_headers_value ≡ signed u.encrypted_headers_value
  pub payload : t.payload ≡ u.payload

-- Two requests with the same signed bytes agree in every field that the signature covers, but that
-- an absent request id, client version or encrypted headers value is signed like an empty one.
pub update_signature_mac-injective :
    (t u : SignatureTranscript)
    → IsSized t
    → IsSized u
    → update_signature_mac t ≡ update_signature_mac u
    → SignedAlike t u
unfolding update_signature_mac
update_signature_mac-injective t u st su e =
    let (_, e1) =
      update_len_prefixed-cut (bytes "version") transcript_version transcript_version _ _
        (omega arith) (omega arith) e in
    let (subject, e2) =
      update_len_prefixed-cut (bytes "subject") _ _ _ _ st.subject su.subject e1 in
    let (key, e3) =
      update_len_prefixed-cut (bytes "ephemeral-pub-key") _ _ _ _ st.ephemeral_pub su.ephemeral_pub
        e2 in
    let (id, e4) =
      update_optional-cut (bytes "request-id") _ _ _ _ st.request_id su.request_id e3 in
    let (version, e5) =
      update_optional-cut (bytes "client-version") _ _ _ _ st.client_version su.client_version e4 in
    let (headers, e6) =
      update_optional-cut (bytes "encrypted-headers") _ _ _ _ st.encrypted_headers_value
        su.encrypted_headers_value e5 in
    let (payload, _) =
      update_len_prefixed-cut (bytes "payload") _ _ [] [] st.payload su.payload
        (append-nil _ ∙ e6 ∙ sym (append-nil _)) in
    record {
      subject = subject;
      ephemeral_pub = key;
      request_id = id;
      client_version = version;
      encrypted_headers_value = headers;
      payload = payload;
    }
