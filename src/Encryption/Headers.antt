-- ===== src/Encryption/Headers.antt =====
-- nats-micro/src/encryption/headers.rs: encrypted headers and the headers of the protocol itself.
pub mod Lookup
use nats_micro.Prelude.{
  ℕ, ◌+◌, Bool, true, false, ◌&&◌, ◌||◌, List, [], ◌∷◌, Option, some, none, Str, bytes, ◌==◌, leb,
  if◌then◌else◌, Result, ok, err, ◌>>=◌, length,
}
use nats_micro.Headers.{HeaderMaps}
use nats_micro.Encryption.Crypto.{Crypto}
use nats_micro.Encryption.Envelope.{
  EncryptionError, decrypt_failed, reserved_header, decrypt_with_encryption_key,
}

abbrev pub encrypted_headers_name : Str
encrypted_headers_name = bytes "x-encrypted-headers"

abbrev pub response_pub_key_name : Str
response_pub_key_name = bytes "x-ephemeral-pub-key"

abbrev pub signature_header_name : Str
signature_header_name = bytes "x-signature"

abbrev pub to_ascii_lowercase : ℕ → ℕ
to_ascii_lowercase b = if leb 65 b && leb b 90 then b + 32 else b

unfoldable pub eq_ignore_ascii_case : Str → Str → Bool
eq_ignore_ascii_case [] [] = true
eq_ignore_ascii_case [] (b ∷ t) = false
eq_ignore_ascii_case (a ∷ s) [] = false
eq_ignore_ascii_case (a ∷ s) (b ∷ t) =
    to_ascii_lowercase a == to_ascii_lowercase b && eq_ignore_ascii_case s t

-- `entries`, in their order.
abbrev pub EncryptedHeaderOverlay : Type 0
EncryptedHeaderOverlay = List (Str × Str)

unfoldable pub rfind : Str → EncryptedHeaderOverlay → Option Str
unfolding eq_ignore_ascii_case
rfind key [] = none
rfind key ((name, value) ∷ entries) = elim (rfind key entries) [
  | some later ↦ some later
  | none ↦ if eq_ignore_ascii_case name key then some value else none
]

unfoldable pub overlay_get : EncryptedHeaderOverlay → Str → Option Str
unfolding rfind
overlay_get overlay key = rfind key overlay

unfoldable pub is_reserved_encryption_header_name : Str → Bool
unfolding eq_ignore_ascii_case
is_reserved_encryption_header_name key =
    eq_ignore_ascii_case key encrypted_headers_name
    || eq_ignore_ascii_case key response_pub_key_name
    || eq_ignore_ascii_case key signature_header_name

-- `map.keys().find(..)`
unfoldable pub find_reserved : List (Str × Str) → Option Str
unfolding is_reserved_encryption_header_name
find_reserved [] = none
find_reserved ((name, value) ∷ entries) =
    let later = find_reserved entries in
    if is_reserved_encryption_header_name name then some name else later

module _ {H : Type 0} (crypto : Crypto) (maps : HeaderMaps H) where
  decode_key : Option Str → Result EncryptionError (Option Str)
  decode_key none = err (decrypt_failed (bytes "decoding x-ephemeral-pub-key header from base64"))
  decode_key (some decoded) =
      if length decoded == 32
      then ok (some decoded)
      else err (decrypt_failed (bytes "parsing x-ephemeral-pub-key header bytes"))

  unfoldable pub decode_response_pub_key : H → Result EncryptionError (Option Str)
  unfolding decode_key
  decode_response_pub_key headers = elim (maps.get headers response_pub_key_name) [
    | none ↦ ok none
    | some value ↦ decode_key (crypto.decode value)
  ]

  decode_blob : Option Str → Result EncryptionError (Option Str)
  decode_blob none = err (decrypt_failed (bytes "decoding x-encrypted-headers header from base64"))
  decode_blob (some decoded) = ok (some decoded)

  unfoldable pub decode_header_blob : H → Result EncryptionError (Option Str)
  unfolding decode_blob
  decode_header_blob headers = elim (maps.get headers encrypted_headers_name) [
    | none ↦ ok none
    | some value ↦ decode_blob (crypto.decode value)
  ]

  -- `map_err` on the decryption and on the JSON reader.
  abbrev pub decrypted : Result EncryptionError Str → Result EncryptionError Str
  decrypted (ok plaintext) = ok plaintext
  decrypted (err e) = err (decrypt_failed (bytes "decrypting encrypted headers payload"))

  abbrev pub deserialized : Option (List (Str × Str)) → Result EncryptionError (List (Str × Str))
  deserialized (some map) = ok map
  deserialized none = err (decrypt_failed (bytes "deserializing decrypted headers JSON"))

  abbrev pub unreserved : List (Str × Str) → Option Str → Result EncryptionError (List (Str × Str))
  unreserved map (some key) = err (reserved_header key)
  unreserved map none = ok map

  unfoldable pub decrypt_blob : Str → Option Str → Result EncryptionError EncryptedHeaderOverlay
  unfolding find_reserved decrypt_with_encryption_key
  decrypt_blob encryption_key none = ok []
  decrypt_blob encryption_key (some decoded) = do
    plaintext ← decrypted (decrypt_with_encryption_key crypto encryption_key decoded)
    map ← deserialized (crypto.from_slice plaintext)
    unreserved map (find_reserved map)

  -- `decrypt_headers` is the same code, and returns the map itself.
  unfoldable pub decrypt_header_overlay : H → Str → Result EncryptionError EncryptedHeaderOverlay
  unfolding decode_header_blob decrypt_blob
  decrypt_header_overlay headers encryption_key = do
    decoded ← decode_header_blob headers
    decrypt_blob encryption_key decoded
