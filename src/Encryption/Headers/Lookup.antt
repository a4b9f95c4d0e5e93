-- ===== src/Encryption/Headers/Lookup.antt =====
-- What the decrypted headers can hold, and how they are looked up.
use nats_micro.Encryption.Envelope.{EncryptionError, decrypt_with_encryption_key}
use nats_micro.Prelude.{
  Option-cases, ◌≢◌, ==_iff, ◌↔◌, map, ◌>>=◌, bind-ok, ok-injective, Bool-cases, ◌≡◌, true, false,
  List, [], ◌∷◌, ◌++◌, Option, some, none, Str, All, ok, arith, refl, ap, ◌⊎◌, inl, inr,
}
use nats_micro.Headers.{HeaderMaps}
use nats_micro.Encryption.Crypto.{Crypto}
use nats_micro.Encryption.Headers.{
  signature_header_name, bytes, response_pub_key_name, err, encrypted_headers_name,
  to_ascii_lowercase, Result, decrypted, deserialized, decode_header_blob, unreserved,
  EncryptedHeaderOverlay, eq_ignore_ascii_case, overlay_get, rfind, find_reserved,
  is_reserved_encryption_header_name, decrypt_header_overlay, decrypt_blob,
}

-- The last entry whose name is the key, but for the case of its letters, holds the value.
abbrev pub Finds : EncryptedHeaderOverlay → Str → Str → Type 0
Finds overlay key value =
    (before : EncryptedHeaderOverlay) × (name : Str) × (after : EncryptedHeaderOverlay) × (overlay
      ≡ before ++ (name, value) ∷ after)
    × (eq_ignore_ascii_case name key ≡ true)
    × All (λ e. eq_ignore_ascii_case e.0 key ≡ false) after

-- A lookup yields the value of the last entry whose name is the key, but for the case of its
-- letters, and `None` exactly if there is no such entry.
pub overlay_get-Finds :
    (overlay : EncryptedHeaderOverlay) (key : Str)
    → ((overlay_get overlay key ≡ none) × All (λ e. eq_ignore_ascii_case e.0 key ≡ false) overlay)
      ⊎ ((value : Str) × (overlay_get overlay key ≡ some value) × Finds overlay key value)
unfolding overlay_get rfind
overlay_get-Finds [] key = inl (refl, tt)
overlay_get-Finds ((name, value) ∷ entries) key = elim (overlay_get-Finds entries key) [
  | inr (later, found, (before, name', after, split, same, others)) ↦ inr (
    later,
    ground arith,
    ((name, value) ∷ before, name', after, ap (λ t. (name, value) ∷ t) split, same, others),
  )
  | inl (absent, others) ↦ elim (Bool-cases (eq_ignore_ascii_case name key)) [
    | inl same ↦ inr (value, ground arith, ([], name, entries, refl, same, others))
    | inr differs ↦ inl (ground arith, (differs, others))
  ]
]

-- Names that differ at most in the case of their letters.
eq_ignore_ascii_case_iff :
    (s t : Str)
    → (eq_ignore_ascii_case s t ≡ true) ↔ (map to_ascii_lowercase s ≡ map to_ascii_lowercase t)
unfolding eq_ignore_ascii_case
eq_ignore_ascii_case_iff [] [] = ground arith
eq_ignore_ascii_case_iff [] (b ∷ t) = ground arith
eq_ignore_ascii_case_iff (a ∷ s) [] = ground arith
eq_ignore_ascii_case_iff (a ∷ s) (b ∷ t) =
    ground
      (arith, ==_iff (to_ascii_lowercase a) (to_ascii_lowercase b), eq_ignore_ascii_case_iff s t)

-- In lower case, the name is none of the three that the encryption uses itself.
abbrev pub IsUnreserved : Str → Type 0
IsUnreserved name =
    (map to_ascii_lowercase name ≢ bytes "x-encrypted-headers")
    × (map to_ascii_lowercase name ≢ bytes "x-ephemeral-pub-key")
    × (map to_ascii_lowercase name ≢ bytes "x-signature")

is_reserved_encryption_header_name_iff :
    (name : Str) → (is_reserved_encryption_header_name name ≡ false) ↔ IsUnreserved name
unfolding is_reserved_encryption_header_name
is_reserved_encryption_header_name_iff name = ground (
  arith,
  eq_ignore_ascii_case_iff name encrypted_headers_name,
  eq_ignore_ascii_case_iff name response_pub_key_name,
  eq_ignore_ascii_case_iff name signature_header_name,
)

find_reserved_iff :
    (entries : List (Str × Str))
    → (find_reserved entries ≡ none) ↔ All (λ e. IsUnreserved e.0) entries
unfolding find_reserved
find_reserved_iff [] = (λ h. tt, λ h. refl)
find_reserved_iff ((name, value) ∷ entries) =
    ground (arith, is_reserved_encryption_header_name_iff name, find_reserved_iff entries)

module _ {H : Type 0} (crypto : Crypto) (maps : HeaderMaps H) where
  -- What the headers hold in their encrypted part: nothing without that header, and else the
  -- decoded, decrypted and deserialized entries.
  abbrev pub Opens : H → Str → EncryptedHeaderOverlay → Type 0
  Opens headers encryption_key overlay =
      ((maps.get headers (bytes "x-encrypted-headers") ≡ none) × (overlay ≡ []))
      ⊎ ((value : Str) × (decoded : Str) × (plaintext : Str) × (maps.get headers
              (bytes "x-encrypted-headers")
            ≡ some value)
          × (crypto.decode value ≡ some decoded)
          × (decrypt_with_encryption_key crypto encryption_key decoded ≡ ok plaintext)
          × (crypto.from_slice plaintext ≡ some overlay))

  decode_header_blob-ok :
      (headers : H) (decoded : Option Str)
      → decode_header_blob crypto maps headers ≡ ok decoded
      → ((maps.get headers (bytes "x-encrypted-headers") ≡ none) × (decoded ≡ none))
        ⊎ ((value : Str) × (text : Str) × (maps.get headers (bytes "x-encrypted-headers")
              ≡ some value)
            × (crypto.decode value ≡ some text)
            × (decoded ≡ some text))
  unfolding decode_header_blob
  decode_header_blob-ok headers decoded e =
      elim (Option-cases (maps.get headers (bytes "x-encrypted-headers"))) [
        | inl absent ↦ inl (absent, ground (arith, absent))
        | inr (value, given) ↦ elim (Option-cases (crypto.decode value)) [
          | inl broken ↦ ground arith
          | inr (text, read) ↦ inr (value, text, given, read, ground (arith, given, read))
        ]
      ]

  unreserved-ok :
      (map overlay : List (Str × Str)) (reserved : Option Str)
      → unreserved crypto maps map reserved ≡ ok overlay
      → (reserved ≡ none) × (map ≡ overlay)
  unreserved-ok map overlay none e = (refl, ok-injective e)
  unreserved-ok map overlay (some key) e = ground arith

  decrypted-ok :
      (r : Result EncryptionError Str) (plaintext : Str)
      → decrypted crypto maps r ≡ ok plaintext
      → r ≡ ok plaintext
  decrypted-ok (ok p) plaintext e = e
  decrypted-ok (err x) plaintext e = ground arith

  deserialized-ok :
      (r : Option (List (Str × Str))) (map : List (Str × Str))
      → deserialized crypto maps r ≡ ok map
      → r ≡ some map
  deserialized-ok (some m) map e = ap some (ok-injective e)
  deserialized-ok none map e = ground arith

  decrypt_blob-ok :
      (encryption_key decoded : Str) (overlay : EncryptedHeaderOverlay)
      → decrypt_blob crypto maps encryption_key (some decoded) ≡ ok overlay
      → (plaintext : Str) × (decrypt_with_encryption_key crypto encryption_key decoded
          ≡ ok plaintext)
        × (crypto.from_slice plaintext ≡ some overlay)
        × (find_reserved overlay ≡ none)
  unfolding decrypt_blob
  decrypt_blob-ok encryption_key decoded overlay e =
      let (plaintext, opened, read) =
        bind-ok (decrypted crypto maps (decrypt_with_encryption_key crypto encryption_key decoded))
          (λ plaintext. deserialized crypto maps (crypto.from_slice plaintext) >>= λ map.
            unreserved crypto maps map (find_reserved map))
          overlay e in
      let (map, parsed, checked) =
        bind-ok (deserialized crypto maps (crypto.from_slice plaintext))
          (λ map. unreserved crypto maps map (find_reserved map)) overlay read in
      let (free, same) = unreserved-ok map overlay (find_reserved map) checked in
      (
        plaintext,
        decrypted-ok (decrypt_with_encryption_key crypto encryption_key decoded) plaintext opened,
        rw same at (deserialized-ok (crypto.from_slice plaintext) map parsed),
        rw same at free,
      )

  to_Opens :
      (headers : H) (encryption_key : Str) (overlay : EncryptedHeaderOverlay) (decoded : Option Str)
      → decode_header_blob crypto maps headers ≡ ok decoded
      → decrypt_blob crypto maps encryption_key decoded ≡ ok overlay
      → Opens headers encryption_key overlay × All (λ e. IsUnreserved e.0) overlay
  to_Opens headers encryption_key overlay decoded there e =
      elim (decode_header_blob-ok headers decoded there) [
        | inl (absent, nothing) ↦
            let empty : [] ≡ overlay = unfold decrypt_blob in ok-injective (rw nothing at e) in
            rw (← empty) (inl (absent, refl), tt)
        | inr (value, text, given, read, same) ↦
            let (plaintext, opened, parsed, free) =
              decrypt_blob-ok encryption_key text overlay (rw same at e) in
            (
              inr (value, text, plaintext, given, read, opened, parsed),
              (find_reserved_iff overlay).0 free,
            )
      ]

  decode_header_blob-none :
      (headers : H)
      → maps.get headers (bytes "x-encrypted-headers") ≡ none
      → decode_header_blob crypto maps headers ≡ ok none
  unfolding decode_header_blob
  decode_header_blob-none headers absent = rw (decode_header_blob, absent) refl

  decode_header_blob-some :
      (headers : H) (value decoded : Str)
      → maps.get headers (bytes "x-encrypted-headers") ≡ some value
      → crypto.decode value ≡ some decoded
      → decode_header_blob crypto maps headers ≡ ok (some decoded)
  unfolding decode_header_blob
  decode_header_blob-some headers value decoded given read =
      rw (decode_header_blob, given, read) refl

  from_Opens :
      (headers : H) (encryption_key : Str) (overlay : EncryptedHeaderOverlay)
      → Opens headers encryption_key overlay
      → All (λ e. IsUnreserved e.0) overlay
      → decrypt_header_overlay crypto maps headers encryption_key ≡ ok overlay
  unfolding decrypt_header_overlay decrypt_blob
  from_Opens headers encryption_key overlay (inl (absent, empty)) free =
      rw (decode_header_blob-none headers absent, empty) refl
  from_Opens headers encryption_key overlay
        (inr (value, decoded, plaintext, given, read, opened, parsed)) free =
      rw
        (
          decode_header_blob-some headers value decoded given read,
          opened,
          parsed,
          (find_reserved_iff overlay).1 free,
        )
        refl

  -- Headers are decrypted to an overlay exactly if it is what their encrypted part holds (nothing
  -- without the header x-encrypted-headers), and no name in it, in lower case, is one of the three headers that the
  -- encryption uses itself: x-encrypted-headers, x-ephemeral-pub-key and x-signature.
  pub decrypt_header_overlay_iff :
      (headers : H) (encryption_key : Str) (overlay : EncryptedHeaderOverlay)
      → (decrypt_header_overlay crypto maps headers encryption_key ≡ ok overlay)
        ↔ (Opens headers encryption_key overlay × All (λ e. IsUnreserved e.0) overlay)
  unfolding decrypt_header_overlay
  decrypt_header_overlay_iff headers encryption_key overlay = (
    λ e.
        let (decoded, there, read) =
          bind-ok (decode_header_blob crypto maps headers)
            (λ decoded. decrypt_blob crypto maps encryption_key decoded) overlay e in
        to_Opens headers encryption_key overlay decoded there read,
    λ h. from_Opens headers encryption_key overlay h.0 h.1,
  )
