-- ===== src/Client/Calls/Building.antt =====
-- The builder that an encrypted call hands its headers to.
use nats_micro.Prelude.{
  ◌>>=◌, arith, Bool, true, false, not, List, [], ◌∷◌, ◌++◌, Option, some, none, Str, ◌≡◌, refl,
  sym, ap, ◌∙◌, All, Result, ok, bind-ok, both-ok, ensure-ok, ok-injective,
}
use mathlib.Core.List.{append-nil, append_assoc}
use nats_micro.Headers.{HeaderMaps}
use nats_micro.Encryption.Crypto.{Crypto}
use nats_micro.Encryption.Envelope.{EphemeralContext, reserved_header, EncryptionError, begin}
use nats_micro.Encryption.Headers.{is_reserved_encryption_header_name}
use nats_micro.Encryption.Builder.{
  RequestBuilder, BuiltRequest, request_builder, plain_payload, encrypted_payload, try_header,
  try_encrypted_header, build_for_subject,
}
use nats_micro.Client.{Subject, as_str, HeaderEntries}
use nats_micro.Client.Calls.{
  encrypted_payload, with_payload, plain_payload, add_values, add_entries, add_plain_headers,
  add_optional, add_encrypted_headers, build_call, Draws,
}

-- A name with each of its values.
abbrev pub each : Str → List Str → List (Str × Str)
each name [] = []
each name (value ∷ rest) = (name, value) ∷ each name rest

abbrev pub flatten : List (Str × List Str) → List (Str × Str)
flatten [] = []
flatten ((name, given) ∷ entries) = each name given ++ flatten entries

abbrev pub with_plain : RequestBuilder → List (Str × Str) → RequestBuilder
with_plain builder added = record builder { plaintext_headers = builder.plaintext_headers ++ added }

abbrev pub with_sealed : RequestBuilder → List (Str × Str) → RequestBuilder
with_sealed builder added = record builder {
  encrypted_headers = builder.encrypted_headers ++ added;
}

not-true : (test : Bool) → not test ≡ true → test ≡ false
not-true true e = ground arith
not-true false e = refl

with_plain-nil : (builder : RequestBuilder) → builder ≡ with_plain builder []
with_plain-nil builder =
    ap (λ all. record builder { plaintext_headers = all })
      (sym (append-nil builder.plaintext_headers))

with_plain-append :
    (builder : RequestBuilder) (xs ys : List (Str × Str))
    → with_plain (with_plain builder xs) ys ≡ with_plain builder (xs ++ ys)
with_plain-append builder xs ys =
    ap (λ all. record builder { plaintext_headers = all })
      (append_assoc builder.plaintext_headers xs ys)

with_sealed-nil : (builder : RequestBuilder) → builder ≡ with_sealed builder []
with_sealed-nil builder =
    ap (λ all. record builder { encrypted_headers = all })
      (sym (append-nil builder.encrypted_headers))

with_sealed-append :
    (builder : RequestBuilder) (xs ys : List (Str × Str))
    → with_sealed (with_sealed builder xs) ys ≡ with_sealed builder (xs ++ ys)
with_sealed-append builder xs ys =
    ap (λ all. record builder { encrypted_headers = all })
      (append_assoc builder.encrypted_headers xs ys)

module _ {H : Type 0} (crypto : Crypto) (maps : HeaderMaps H) (values : HeaderEntries H) where
  with_payload-start :
      (ctx : EphemeralContext) (encrypt_payload : Bool) (text : Str)
      → with_payload crypto maps values (request_builder ctx) encrypt_payload text ≡ record {
        ctx = ctx;
        plaintext_headers = [];
        encrypted_headers = [];
        payload = some text;
        encrypt_payload = encrypt_payload;
      }
  unfolding request_builder plain_payload encrypted_payload
  with_payload-start ctx true text = refl
  with_payload-start ctx false text = refl

  try_header-ok :
      (builder : RequestBuilder) (key value : Str) (next : RequestBuilder)
      → try_header crypto maps builder key value ≡ ok next
      → next ≡ with_plain builder ((key, value) ∷ [])
  unfolding try_header
  try_header-ok builder key value next e =
      let (named, more) = both-ok _ _ next e in
      let (valued, last) = both-ok _ _ next more in sym (ok-injective last)

  add_values-ok :
      (builder : RequestBuilder) (name : Str) (given : List Str) (next : RequestBuilder)
      → add_values crypto maps values builder name given ≡ ok next
      → next ≡ with_plain builder (each name given)
  add_values-ok builder name [] next e = sym (ok-injective e) ∙ with_plain-nil builder
  add_values-ok builder name (value ∷ rest) next e =
      let (added, first, more) =
        bind-ok (try_header crypto maps builder name value)
          (λ added. add_values crypto maps values added name rest) next e in
      add_values-ok added name rest next more
      ∙ ap (λ b. with_plain b (each name rest)) (try_header-ok builder name value added first)
      ∙ with_plain-append builder ((name, value) ∷ []) (each name rest)

  add_entries-ok :
      (builder : RequestBuilder) (entries : List (Str × List Str)) (next : RequestBuilder)
      → add_entries crypto maps values builder entries ≡ ok next
      → next ≡ with_plain builder (flatten entries)
  add_entries-ok builder [] next e = sym (ok-injective e) ∙ with_plain-nil builder
  add_entries-ok builder ((name, given) ∷ entries) next e =
      let (added, first, more) =
        bind-ok (add_values crypto maps values builder name given)
          (λ added. add_entries crypto maps values added entries) next e in
      add_entries-ok added entries next more
      ∙ ap (λ b. with_plain b (flatten entries)) (add_values-ok builder name given added first)
      ∙ with_plain-append builder (each name given) (flatten entries)

  -- The plain headers of a call.
  abbrev pub plain_of : Option H → List (Str × Str)
  plain_of none = []
  plain_of (some headers) = flatten (values.entries headers)

  add_optional-ok :
      (builder : RequestBuilder) (headers : Option H) (next : RequestBuilder)
      → add_optional crypto maps values builder headers ≡ ok next
      → next ≡ with_plain builder (plain_of headers)
  unfolding add_plain_headers
  add_optional-ok builder none next e = sym (ok-injective e) ∙ with_plain-nil builder
  add_optional-ok builder (some headers) next e =
      add_entries-ok builder (values.entries headers) next e

  try_encrypted_header-ok :
      (builder : RequestBuilder) (key value : Str) (next : RequestBuilder)
      → try_encrypted_header crypto maps builder key value ≡ ok next
      → (next ≡ with_sealed builder ((key, value) ∷ []))
        × (is_reserved_encryption_header_name key ≡ false)
  unfolding try_encrypted_header
  try_encrypted_header-ok builder key value next e =
      let (named, more) = both-ok _ _ next e in
      let (valued, rest) = both-ok _ _ next more in
      let (free, last) = both-ok _ _ next rest in
      (
        sym (ok-injective last),
        not-true (is_reserved_encryption_header_name key)
            (ensure-ok (not (is_reserved_encryption_header_name key)) (reserved_header key) free),
      )

  -- Encrypted headers that are all added are not reserved.
  add_encrypted-ok :
      (builder : RequestBuilder) (entries : List (Str × Str)) (next : RequestBuilder)
      → add_encrypted_headers crypto maps values builder entries ≡ ok next
      → (next ≡ with_sealed builder entries)
        × All (λ e. is_reserved_encryption_header_name e.0 ≡ false) entries
  add_encrypted-ok builder [] next e = (sym (ok-injective e) ∙ with_sealed-nil builder, tt)
  add_encrypted-ok builder ((key, value) ∷ entries) next e =
      let (added, first, more) =
        bind-ok (try_encrypted_header crypto maps builder key value)
          (λ added. add_encrypted_headers crypto maps values added entries) next e in
      let (one, free) = try_encrypted_header-ok builder key value added first in
      let (others, all_free) = add_encrypted-ok added entries next more in
      (
        others
            ∙ ap (λ b. with_sealed b entries) one
            ∙ with_sealed-append builder ((key, value) ∷ []) entries,
        (free, all_free),
      )

  -- What a call builds, it builds for its plain and its encrypted headers, of which the latter are
  -- not reserved.
  pub build_call-ok :
      (recipient text : Str) (encrypt_payload : Bool) (headers : Option H)
      (encrypted_headers : List (Str × Str)) (subject : Subject) (draws : Draws)
      (built : BuiltRequest H)
      → build_call crypto maps values recipient text encrypt_payload headers encrypted_headers
          subject draws
        ≡ ok built
      → (build_for_subject crypto maps
            (record {
              ctx = begin crypto recipient draws.ephemeral_secret;
              plaintext_headers = plain_of headers;
              encrypted_headers = encrypted_headers;
              payload = some text;
              encrypt_payload = encrypt_payload;
            })
            (as_str subject)
            draws.headers_nonce
            draws.payload_nonce
          ≡ ok built)
        × All (λ e. is_reserved_encryption_header_name e.0 ≡ false) encrypted_headers
  unfolding build_call
  build_call-ok recipient text encrypt_payload headers encrypted_headers subject draws built e =
      let builder = request_builder (begin crypto recipient draws.ephemeral_secret) in
      let start = with_payload crypto maps values builder encrypt_payload text in
      let finish : RequestBuilder → Result EncryptionError (BuiltRequest H) = λ sealed.
        build_for_subject crypto maps sealed (as_str subject) draws.headers_nonce
          draws.payload_nonce in
      let (plain, added, more) =
        bind-ok (add_optional crypto maps values start headers)
          (λ plain. add_encrypted_headers crypto maps values plain encrypted_headers >>= finish)
          built e in
      let (sealed, sealing, last) =
        bind-ok (add_encrypted_headers crypto maps values plain encrypted_headers) finish built
          more in
      let (same, free) = add_encrypted-ok plain encrypted_headers sealed sealing in
      let whole =
        same
        ∙ ap (λ b. with_sealed b encrypted_headers)
            (add_optional-ok start headers plain added
              ∙ ap (λ b. with_plain b (plain_of headers))
                  (with_payload-start (begin crypto recipient draws.ephemeral_secret)
                    encrypt_payload text)) in
      (ap finish (sym whole) ∙ last, free)
