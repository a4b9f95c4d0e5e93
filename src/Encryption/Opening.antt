-- ===== src/Encryption/Opening.antt =====
-- The headers and the payload of a built request, as the service reads them.
use nats_micro.Encryption.Prepare.{body_or, decrypt_if, key_of_body, is_key_of_body}
use nats_micro.Encryption.Envelope.RoundTrip.{
  decrypt_aead-encrypt, encryption_key-begin, decrypt_with_encryption_key-parts, encrypt-envelope,
  begin-ephemeral_pub,
}
use nats_micro.Encryption.Builder.Built.{All-collect, seal_headers-ok}
use nats_micro.Encryption.Prepare.Steps.{
  decrypt_payload_once-ok, key_of_envelope, find_reserved-Perm, decrypt_header_overlay-ok,
  decrypt_header_overlay-none,
}
use nats_micro.Encryption.Headers.{
  decrypt_header_overlay, encrypted_headers_name, is_reserved_encryption_header_name,
}
use nats_micro.Encryption.Builder.{seal_payload, collect, seal_headers}
use nats_micro.Encryption.Envelope.{
  decrypt_aead, decrypt_with_encryption_key, encrypt, derive_encryption_key, begin,
  from_private_bytes, EphemeralContext, ServiceKeyPair,
}
use mathlib.Core.List.{Perm}
use mathlib.Core.List.Perm
use nats_micro.Prelude.{
  not, ◌&&◌, ok-injective, Bool, true, false, List, [], ◌∷◌, Option, some, none, Str, bytes, All,
  ◌≡◌, refl, ◌∙◌, ok, arith, ap, sym, length, ◌≤◌,
}
use nats_micro.Headers.{HeaderMaps, IsHeaderMaps}
use nats_micro.Encryption.Crypto.{Crypto, IsCrypto}

module _ {H : Type 0} (crypto : Crypto) (maps : HeaderMaps H) (laws : IsCrypto crypto)
    (map_laws : IsHeaderMaps maps) (secret ephemeral_secret : Str) where
  abbrev keypair : ServiceKeyPair
  keypair = from_private_bytes crypto secret

  abbrev client : EphemeralContext
  client = begin crypto keypair.public ephemeral_secret

  pub client_key_length : length client.ephemeral_pub ≡ 32
  client_key_length =
      rw (begin-ephemeral_pub crypto keypair.public ephemeral_secret)
        (laws.public_length ephemeral_secret)

  open-encrypt :
      (plaintext envelope nonce : Str)
      → length nonce ≡ 24
      → encrypt crypto client nonce plaintext ≡ ok envelope
      → decrypt_with_encryption_key crypto
          (derive_encryption_key crypto keypair client.ephemeral_pub)
          envelope
        ≡ ok plaintext
  open-encrypt plaintext envelope nonce ln e =
      let (ciphertext, sealed, same) = encrypt-envelope crypto client nonce plaintext envelope e in
      let long : 16 ≤ length ciphertext =
        omega
          (arith, laws.encrypt_length client.keys.encryption nonce plaintext ciphertext sealed) in
      ap
        (decrypt_with_encryption_key crypto
          (derive_encryption_key crypto keypair client.ephemeral_pub))
        same
      ∙ decrypt_with_encryption_key-parts crypto
          (derive_encryption_key crypto keypair client.ephemeral_pub) client.ephemeral_pub nonce
          ciphertext client_key_length ln long
      ∙ ap
          (λ k.
            decrypt_aead crypto (bytes "decrypting encryption-key request payload body") k nonce
              ciphertext)
          (encryption_key-begin crypto secret ephemeral_secret laws)
      ∙ decrypt_aead-encrypt crypto _ client.keys.encryption nonce plaintext ciphertext laws sealed

  -- The overlay that the service opens from the sealed headers.
  pub overlay-sealed :
      (headers : H) (sealed : Option Str) (entries : List (Str × Str)) (nonce : Str)
      → length nonce ≡ 24
      → All (λ e. is_reserved_encryption_header_name e.0 ≡ false) entries
      → seal_headers crypto maps client entries nonce ≡ ok sealed
      → maps.get headers encrypted_headers_name ≡ sealed
      → (overlay : List (Str × Str)) × (decrypt_header_overlay crypto maps headers
            (derive_encryption_key crypto keypair client.ephemeral_pub)
          ≡ ok overlay)
        × Perm overlay (collect [] entries)
  unfolding seal_headers collect
  overlay-sealed headers sealed [] nonce ln free e held = (
    [],
    decrypt_header_overlay-none crypto maps headers _ (held ∙ sym (ok-injective e)),
    Perm.rfl,
  )
  overlay-sealed headers sealed (entry ∷ entries) nonce ln free e held =
      let (json, envelope, written, encrypted, same) =
        seal_headers-ok crypto maps map_laws client entry entries nonce sealed e in
      let (parsed, read, permuted) =
        laws.from_slice-to_vec (collect [] (entry ∷ entries)) json written in
      let opened = open-encrypt json envelope nonce ln encrypted in
      (
        parsed,
        decrypt_header_overlay-ok crypto maps headers
            (derive_encryption_key crypto keypair client.ephemeral_pub) (crypto.encode envelope)
            envelope json parsed (held ∙ same) (laws.decode-encode envelope) opened read
            (find_reserved-Perm parsed (collect [] (entry ∷ entries)) permuted (
              All-collect (λ e. is_reserved_encryption_header_name e.0 ≡ false) [] (entry ∷ entries)
                tt free)),
        permuted,
      )

  -- What the service takes the payload for.
  pub payload-sealed :
      (text nonce sent : Str) (encrypted : Bool) (id : Option Str)
      → length nonce ≡ 24
      → seal_payload crypto maps client (some text) encrypted nonce ≡ ok sent
      → (plaintext : Option Str) × (encrypted
            && not (is_key_of_body client.ephemeral_pub (key_of_body sent))
          ≡ false)
        × (decrypt_if crypto maps encrypted
              (derive_encryption_key crypto keypair client.ephemeral_pub)
              sent
              id
            ≡ ok plaintext)
        × (body_or sent plaintext ≡ text)
  unfolding seal_payload
  payload-sealed text nonce sent false id ln e = (none, refl, refl, sym (ok-injective e))
  payload-sealed text nonce sent true id ln e =
      let (ciphertext, sealed, same) = encrypt-envelope crypto client nonce text sent e in
      let key = derive_encryption_key crypto keypair client.ephemeral_pub in
      let sealed' : crypto.encrypt key nonce text ≡ some ciphertext =
        rw (encryption_key-begin crypto secret ephemeral_secret laws) sealed in
      (
        some text,
        rw
            (
              same,
              key_of_envelope crypto maps client.ephemeral_pub nonce ciphertext client_key_length
                  ln,
            )
            refl,
        rw
            (
              same,
              decrypt_payload_once-ok crypto maps key client.ephemeral_pub nonce text ciphertext id
                  laws client_key_length ln sealed',
            )
            refl,
        refl,
      )
