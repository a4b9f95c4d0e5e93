-- ===== src/Encryption/Transcript.antt =====
-- nats-micro/src/encryption/mod.rs: what a request signature signs.
pub mod Injectivity
use nats_micro.Prelude.{
  Bool, ℕ, zero, suc, ◌+◌, ◌/◌, ◌%◌, ◌^◌, ◌≡◌, List, [], ◌∷◌, ◌++◌, Option, some, none, Str, bytes,
  str_eq, length, if◌then◌else◌, Result, ok, err,
}
use nats_micro.Encryption.Crypto.{Crypto}

pub record SignatureTranscript : Type 0 where
  pub subject : Str
  pub ephemeral_pub : Str
  pub request_id : Option Str
  pub client_version : Option Str
  pub encrypted_headers_value : Option Str
  pub payload : Str

-- The last `n` bytes of a number, the most significant first.
unfoldable pub to_be_bytes : ℕ → ℕ → Str
to_be_bytes zero value = []
to_be_bytes (suc n) value = to_be_bytes n (value / 256) ++ value % 256 ∷ []

-- What `update_len_prefixed` feeds to the MAC.
unfoldable pub update_len_prefixed : Str → Str → Str
unfolding to_be_bytes
update_len_prefixed label value = label ++ (to_be_bytes 8 (length value % 2 ^ 64) ++ value)

unfoldable pub update_optional : Str → Option Str → Str
unfolding update_len_prefixed
update_optional label (some value) = update_len_prefixed label value
update_optional label none = update_len_prefixed label []

abbrev pub transcript_version : Str
transcript_version = bytes "nats-micro request signature v1"

-- The bytes that `update_signature_mac` feeds to the MAC.
unfoldable pub update_signature_mac : SignatureTranscript → Str
unfolding update_len_prefixed update_optional
update_signature_mac transcript =
    update_len_prefixed (bytes "version") transcript_version
    ++ (update_len_prefixed (bytes "subject") transcript.subject
        ++ (update_len_prefixed (bytes "ephemeral-pub-key") transcript.ephemeral_pub
            ++ (update_optional (bytes "request-id") transcript.request_id
                ++ (update_optional (bytes "client-version") transcript.client_version
                    ++ (update_optional (bytes "encrypted-headers")
                          transcript.encrypted_headers_value
                        ++ update_len_prefixed (bytes "payload") transcript.payload)))))

module _ (crypto : Crypto) where
  unfoldable pub compute_signature_for_transcript : Str → SignatureTranscript → Str
  unfolding update_signature_mac
  compute_signature_for_transcript signature_key transcript =
      crypto.hmac signature_key (update_signature_mac transcript)

  -- `verify_slice`: whether the signature is the tag.
  unfoldable pub verify_signature_for_transcript : Str → SignatureTranscript → Str → Bool
  unfolding update_signature_mac str_eq
  verify_signature_for_transcript signature_key transcript signature =
      str_eq (crypto.hmac signature_key (update_signature_mac transcript)) signature
