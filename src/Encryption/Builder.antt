-- ===== src/Encryption/Builder.antt =====
-- nats-micro/src/encryption/mod.rs: `RequestBuilder`, which a client builds an encrypted request
-- with. The NATS client that `publish` and `nats_request` hand the result to is left out.
pub mod Built
use nats_micro.Prelude.{
  Bool, true, false, List, [], ◌∷◌, ◌++◌, Option, some, none, Str, bytes, is_empty, insert, ensure,
  not, if◌then◌else◌, Result, ok, err, ◌>>=◌, ◌>>◌,
}
use nats_micro.Headers.{HeaderMaps}
use nats_micro.Encryption.Crypto.{Crypto}
use nats_micro.Encryption.Transcript.{SignatureTranscript, compute_signature_for_transcript}
use nats_micro.Encryption.Envelope.{
  EncryptionError, encrypt_failed, invalid_header, reserved_header, EphemeralContext, encrypt,
}
use nats_micro.Encryption.Headers.{
  encrypted_headers_name, response_pub_key_name, signature_header_name,
  is_reserved_encryption_header_name,
}

abbrev pub client_version_header : Str
client_version_header = bytes "x-client-version"

pub record RequestBuilder : Type 0 where
  pub ctx : EphemeralContext
  pub plaintext_headers : List (Str × Str)
  pub encrypted_headers : List (Str × Str)
  pub payload : Option Str
  pub encrypt_payload : Bool

pub record BuiltRequest (H : Type 0) : Type 0 where
  pub headers : H
  pub payload : Str
  pub context : EphemeralContext

-- `collect()` to a `HashMap`: a later value of a key replaces the earlier.
unfoldable pub collect : List (Str × Str) → List (Str × Str) → List (Str × Str)
unfolding insert
collect map [] = map
collect map ((key, value) ∷ entries) = collect (insert key value map) entries

unfoldable pub request_builder : EphemeralContext → RequestBuilder
request_builder ctx = record {
  ctx = ctx;
  plaintext_headers = [];
  encrypted_headers = [];
  payload = none;
  encrypt_payload = false;
}

unfoldable pub plain_payload : RequestBuilder → Str → RequestBuilder
plain_payload builder payload = record builder { payload = some payload; encrypt_payload = false }

unfoldable pub encrypted_payload : RequestBuilder → Str → RequestBuilder
encrypted_payload builder payload = record builder {
  payload = some payload;
  encrypt_payload = true;
}

module _ {H : Type 0} (crypto : Crypto) (maps : HeaderMaps H) where
  unfoldable pub try_header : RequestBuilder → Str → Str → Result EncryptionError RequestBuilder
  try_header builder key value = do
    ensure (maps.is_name key) (invalid_header key)
    ensure (maps.is_value value) (invalid_header key)
    ok (record builder { plaintext_headers = builder.plaintext_headers ++ (key, value) ∷ [] })

  unfoldable pub try_encrypted_header :
      RequestBuilder → Str → Str → Result EncryptionError RequestBuilder
  unfolding is_reserved_encryption_header_name
  try_encrypted_header builder key value = do
    ensure (maps.is_name key) (invalid_header key)
    ensure (maps.is_value value) (invalid_header key)
    ensure (not (is_reserved_encryption_header_name key)) (reserved_header key)
    ok (record builder { encrypted_headers = builder.encrypted_headers ++ (key, value) ∷ [] })

  unfoldable pub try_bearer_token : RequestBuilder → Str → Result EncryptionError RequestBuilder
  unfolding try_encrypted_header
  try_bearer_token builder token =
      try_encrypted_header builder (bytes "authorization") (bytes "Bearer " ++ token)

  unfoldable pub insert_all : H → List (Str × Str) → H
  insert_all headers [] = headers
  insert_all headers ((key, value) ∷ entries) = insert_all (maps.insert headers key value) entries

  abbrev pub serialized : Option Str → Result EncryptionError Str
  serialized (some json) = ok json
  serialized none = err (encrypt_failed (bytes "serializing encrypted headers as JSON"))

  -- `encrypted_headers_value`, with the random nonce of its encryption.
  unfoldable pub seal_headers :
      EphemeralContext → List (Str × Str) → Str → Result EncryptionError (Option Str)
  unfolding collect encrypt
  seal_headers ctx [] nonce = ok none
  seal_headers ctx (entry ∷ entries) nonce = do
    json ← serialized (crypto.to_vec (collect [] (entry ∷ entries)))
    encrypted ← encrypt crypto ctx nonce json
    ok (some (crypto.encode encrypted))

  -- `final_payload`, with the random nonce of its encryption.
  unfoldable pub seal_payload :
      EphemeralContext → Option Str → Bool → Str → Result EncryptionError Str
  unfolding encrypt
  seal_payload ctx none encrypted nonce = ok []
  seal_payload ctx (some payload) encrypted nonce =
      if encrypted then encrypt crypto ctx nonce payload else ok payload

  abbrev pub insert_sealed : H → Option Str → H
  insert_sealed headers none = headers
  insert_sealed headers (some value) = maps.insert headers encrypted_headers_name value

  -- The headers before the signature.
  abbrev pub unsigned_headers : RequestBuilder → Option Str → H
  unsigned_headers builder sealed =
      insert_sealed
        (insert_all
          (maps.insert maps.new response_pub_key_name (crypto.encode builder.ctx.ephemeral_pub))
          builder.plaintext_headers)
        sealed

  abbrev pub client_transcript : RequestBuilder → Str → Option Str → Str → SignatureTranscript
  client_transcript builder subject sealed payload = record {
    subject = subject;
    ephemeral_pub = builder.ctx.ephemeral_pub;
    request_id = maps.get (unsigned_headers builder sealed) (bytes "x-request-id");
    client_version = maps.get (unsigned_headers builder sealed) client_version_header;
    encrypted_headers_value = sealed;
    payload = payload;
  }

  abbrev pub sign_request : RequestBuilder → Str → Option Str → Str → BuiltRequest H
  sign_request builder subject sealed payload = record {
    headers = maps.insert (unsigned_headers builder sealed) signature_header_name (
        crypto.encode (
          compute_signature_for_transcript crypto builder.ctx.keys.signature
            (client_transcript builder subject sealed payload)));
    payload = payload;
    context = builder.ctx;
  }

  unfoldable pub build_for_subject :
      RequestBuilder → Str → Str → Str → Result EncryptionError (BuiltRequest H)
  unfolding seal_headers seal_payload insert_all compute_signature_for_transcript
  build_for_subject builder subject headers_nonce payload_nonce = do
    sealed ← seal_headers builder.ctx builder.encrypted_headers headers_nonce
    payload ← seal_payload builder.ctx builder.payload builder.encrypt_payload payload_nonce
    ok (sign_request builder subject sealed payload)
