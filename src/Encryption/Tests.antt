-- ===== src/Encryption/Tests.antt =====
-- Runs of nats-micro/src/encryption and of its theorems on a toy cipher.
use nats_micro.Encryption.Refused.{taken, prepare-refuses_id, arrived}
use nats_micro.Encryption.Prepare.Authentic.{prepare-IsAuthentic, IsAuthentic}
use nats_micro.Encryption.Prepare.Chain.{prepared}
use nats_micro.Encryption.Prepare.{request_view, prepare, EncryptedRequest}
use nats_micro.Encryption.Envelope.RoundTrip.{decrypt-encrypt, decrypt_response-encrypt_response}
use nats_micro.Encryption.EndToEnd.{prepare-build_for_subject, addressed}
use nats_micro.Encryption.Headers.Lookup.{decrypt_header_overlay_iff, Opens, IsUnreserved}
use nats_micro.Request.{request_id_header, is_valid_request_id}
use nats_micro.Encryption.Builder.{
  client_transcript, RequestBuilder, collect, sign_request, build_for_subject, BuiltRequest,
}
use nats_micro.Encryption.Headers.{
  decrypt_header_overlay, is_reserved_encryption_header_name, EncryptedHeaderOverlay,
}
use nats_micro.Encryption.Envelope.{
  from_private_bytes, decrypt_response, decrypt, begin, build_response_envelope, encrypt,
  encrypt_response,
}
use nats_micro.Encryption.Transcript.Injectivity.{
  append-cut, update_signature_mac-injective, SignedAlike, IsSized,
}
use nats_micro.Encryption.Transcript.{SignatureTranscript, update_signature_mac}
use mathlib.Core.List.{List, Perm}
use nats_micro.Prelude.{◌↔◌, lookup, insert, str_lt}
use nats_micro.Encryption.Builder.{client_transcript, insert_all}
use nats_micro.Prelude.{
  inr, inl, Bool-cases, Option, Str, refl, bytes, some, none, [], ◌∷◌, ◌++◌, ◌≡◌, ◌≢◌, true, All,
  ok, arith, str_eq,
}
use nats_micro.Request
use nats_micro.Encryption.Toy.{toy, toy-IsCrypto, list_headers, list_headers-IsHeaderMaps, zeros}

abbrev transcript : SignatureTranscript
transcript = record {
  subject = bytes "a.b";
  ephemeral_pub = zeros 32;
  request_id = none;
  client_version = some (bytes "1");
  encrypted_headers_value = none;
  payload = bytes "hi";
}

abbrev blank_id : SignatureTranscript
blank_id = record transcript { request_id = some [] }

transcript-IsSized : IsSized transcript
transcript-IsSized = record {
  subject = omega arith;
  ephemeral_pub = omega arith;
  request_id = omega arith;
  client_version = omega arith;
  encrypted_headers_value = omega arith;
  payload = omega arith;
}

blank_id-IsSized : IsSized blank_id
blank_id-IsSized = record {
  subject = omega arith;
  ephemeral_pub = omega arith;
  request_id = omega arith;
  client_version = omega arith;
  encrypted_headers_value = omega arith;
  payload = omega arith;
}

update_signature_mac-injective_example : SignedAlike transcript blank_id
unfolding update_signature_mac
update_signature_mac-injective_example =
    update_signature_mac-injective transcript blank_id transcript-IsSized blank_id-IsSized refl

abbrev secret : Str
secret = bytes "service"

abbrev drawn : Str
drawn = bytes "client"

abbrev nonce : Str
nonce = zeros 24

decrypt-encrypt_example :
    decrypt toy (from_private_bytes toy secret) (zeros 32 ++ (nonce ++ (bytes "hi" ++ zeros 16)))
    ≡ ok (bytes "hi")
unfolding encrypt begin
decrypt-encrypt_example =
    decrypt-encrypt toy secret drawn nonce (bytes "hi")
      (zeros 32 ++ (nonce ++ (bytes "hi" ++ zeros 16))) toy-IsCrypto refl refl

decrypt_response-encrypt_response_example :
    decrypt_response toy
      (begin toy (from_private_bytes toy secret).public drawn)
      (nonce ++ (bytes "hi" ++ zeros 16))
    ≡ ok (bytes "hi")
unfolding encrypt_response build_response_envelope
decrypt_response-encrypt_response_example =
    decrypt_response-encrypt_response toy secret drawn nonce (bytes "hi")
      (nonce ++ (bytes "hi" ++ zeros 16)) toy-IsCrypto refl refl

abbrev overlay : EncryptedHeaderOverlay
overlay = (bytes "Token", bytes "1") ∷ (bytes "token", bytes "2") ∷ []

-- A request with a plain identifier and an encrypted token.
abbrev plain : List (Str × Str)
plain = (bytes "x-request-id", bytes "r-1") ∷ []

abbrev token : List (Str × Str)
token = (bytes "authorization", bytes "Bearer t") ∷ []

abbrev sealed : Str
sealed = zeros 32 ++ (nonce ++ (13 ∷ bytes "authorizationBearer t" ++ zeros 16))

abbrev sealed_body : Str
sealed_body = zeros 32 ++ (nonce ++ (bytes "hi" ++ zeros 16))

abbrev client_builder : List (Str × Str) → RequestBuilder
client_builder headers =
    addressed toy list_headers toy-IsCrypto list_headers-IsHeaderMaps secret drawn headers token
      (bytes "hi") true

abbrev built : BuiltRequest (List (Str × Str))
built = sign_request toy list_headers (client_builder plain) (bytes "a.b") (some sealed) sealed_body

taken_over :
    (o : Option Str) (id : Str)
    → Request.valid_id list_headers o ≡ o
    → o ≡ some id
    → is_valid_request_id id ≡ true
taken_over o id v e = elim (Bool-cases (is_valid_request_id id)) [
  | inl good ↦ good
  | inr bad ↦
      let lost : Request.valid_id list_headers (some id) ≡ some id = rw e at v in
      ground (arith, bad, lost)
]

prepare-build_for_subject_example :
    (done : EncryptedRequest (List (Str × Str))) × (prepare toy list_headers
        (from_private_bytes toy secret)
        (Request.new list_headers (bytes "a.b") none built.payload (some built.headers))
        true
      ≡ ok done)
    × ((request_view toy list_headers done).payload ≡ bytes "hi")
    × Perm done.overlay (collect [] token)
unfolding build_for_subject is_valid_request_id is_reserved_encryption_header_name lookup insert
    insert_all str_lt str_eq begin
prepare-build_for_subject_example =
    prepare-build_for_subject toy list_headers toy-IsCrypto list_headers-IsHeaderMaps secret drawn
      plain token (bytes "hi") true (bytes "a.b") nonce nonce none built refl refl
      ((refl, refl), tt) (refl, tt)
      (λ id e. taken_over (list_headers.get built.headers request_id_header) id refl e) refl

abbrev opened : EncryptedRequest (List (Str × Str))
opened =
    prepared toy list_headers (from_private_bytes toy secret)
      (Request.new list_headers (bytes "a.b") none built.payload (some built.headers)) true
      built.headers (zeros 32) (zeros 32) (some (bytes "hi")) token

prepare-IsAuthentic_example :
    IsAuthentic toy list_headers
      (Request.new list_headers (bytes "a.b") none built.payload (some built.headers))
      opened
    × (opened.keypair ≡ from_private_bytes toy secret)
unfolding prepare begin from_private_bytes Request.new lookup insert insert_all str_lt
    nats_micro.Encryption.Envelope.service_keys
    nats_micro.Encryption.Transcript.compute_signature_for_transcript
prepare-IsAuthentic_example =
    prepare-IsAuthentic toy list_headers (from_private_bytes toy secret)
      (Request.new list_headers (bytes "a.b") none built.payload (some built.headers)) true opened
      refl

decrypt_header_overlay_iff_example :
    (decrypt_header_overlay toy list_headers built.headers (zeros 32) ≡ ok token)
    ↔ (Opens toy list_headers built.headers (zeros 32) token × All (λ e. IsUnreserved e.0) token)
decrypt_header_overlay_iff_example =
    decrypt_header_overlay_iff toy list_headers built.headers (zeros 32) token

overlay_run : decrypt_header_overlay toy list_headers built.headers (zeros 32) ≡ ok token
unfolding decrypt_header_overlay begin lookup insert insert_all str_eq str_lt
overlay_run = refl

-- An identifier with a space.
abbrev spaced : List (Str × Str)
spaced = (bytes "x-request-id", bytes "r 1") ∷ []

abbrev misread : SignatureTranscript
misread =
    taken toy list_headers toy-IsCrypto list_headers-IsHeaderMaps secret drawn
      (client_builder spaced) (bytes "a.b") (some sealed) sealed_body none

abbrev signed_transcript : SignatureTranscript
signed_transcript =
    client_transcript toy list_headers (client_builder spaced) (bytes "a.b") (some sealed)
      sealed_body

misread-IsSized : IsSized misread
unfolding Request.new lookup insert insert_all str_lt str_eq is_valid_request_id begin
misread-IsSized = record {
  subject = omega arith;
  ephemeral_pub = omega arith;
  request_id = omega arith;
  client_version = omega arith;
  encrypted_headers_value = omega arith;
  payload = omega arith;
}

signed_transcript-IsSized : IsSized signed_transcript
unfolding lookup insert insert_all str_lt str_eq begin
signed_transcript-IsSized = record {
  subject = omega arith;
  ephemeral_pub = omega arith;
  request_id = omega arith;
  client_version = omega arith;
  encrypted_headers_value = omega arith;
  payload = omega arith;
}

prepare-refuses_id_example :
    prepare toy list_headers
      (from_private_bytes toy secret)
      (arrived toy list_headers toy-IsCrypto list_headers-IsHeaderMaps secret drawn
        (client_builder spaced)
        (bytes "a.b")
        (some sealed)
        sealed_body
        none)
      true
    ≢ ok opened
unfolding is_valid_request_id lookup insert insert_all str_lt str_eq
prepare-refuses_id_example =
    prepare-refuses_id toy list_headers toy-IsCrypto list_headers-IsHeaderMaps secret drawn
      (client_builder spaced) (bytes "a.b") sealed_body (bytes "r 1") (some sealed) none true opened
      refl ((refl, refl), tt) signed_transcript-IsSized misread-IsSized
      (λ same.
        (append-cut (client_builder spaced).ctx.keys.signature (update_signature_mac misread)
          (client_builder spaced).ctx.keys.signature (update_signature_mac signed_transcript) refl
          same).1)
      refl refl (ground arith)
