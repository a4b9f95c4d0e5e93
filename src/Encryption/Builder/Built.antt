-- ===== src/Encryption/Builder/Built.antt =====
-- The headers and the encrypted parts of a built request.
use nats_micro.Prelude.{
  insert, false, List, [], ◌∷◌, Option, some, none, Str, str_eq, All, All-mono, ◌≡◌, refl, ◌∙◌, ok,
  ◌>>=◌, bind-ok, ok-injective, arith, sym, All-insert, Option-cases, inl, inr,
}
use nats_micro.Headers.{HeaderMaps, IsHeaderMaps, get-insert_same, get-insert_other}
use nats_micro.Encryption.Crypto.{Crypto}
use nats_micro.Encryption.Envelope.{EphemeralContext, encrypt}
use nats_micro.Encryption.Headers.{encrypted_headers_name, response_pub_key_name}
use nats_micro.Encryption.Builder.{
  RequestBuilder, BuiltRequest, insert_all, insert_sealed, unsigned_headers, sign_request,
  build_for_subject, seal_headers, seal_payload, collect,
}

-- The plain headers leave the key and the encrypted headers alone.
abbrev pub IsPlain : List (Str × Str) → Type 0
IsPlain =
    All (λ e.
      (str_eq e.0 encrypted_headers_name ≡ false) × (str_eq e.0 response_pub_key_name ≡ false))

module _ {H : Type 0} (crypto : Crypto) (maps : HeaderMaps H) (laws : IsHeaderMaps maps) where
  insert_all-get :
      (headers : H) (entries : List (Str × Str)) (key : Str)
      → All (λ e. str_eq e.0 key ≡ false) entries
      → maps.get (insert_all crypto maps headers entries) key ≡ maps.get headers key
  unfolding insert_all
  insert_all-get headers [] key others = refl
  insert_all-get headers ((name, value) ∷ entries) key (other, others) =
      insert_all-get (maps.insert headers name value) entries key others
      ∙ get-insert_other laws headers name key value other

  insert_sealed-get :
      (headers : H) (sealed : Option Str) (key : Str)
      → str_eq encrypted_headers_name key ≡ false
      → maps.get (insert_sealed crypto maps headers sealed) key ≡ maps.get headers key
  insert_sealed-get headers none key other = refl
  insert_sealed-get headers (some value) key other =
      get-insert_other laws headers encrypted_headers_name key value other

  insert_sealed-same :
      (headers : H) (sealed : Option Str)
      → maps.get headers encrypted_headers_name ≡ none
      → maps.get (insert_sealed crypto maps headers sealed) encrypted_headers_name ≡ sealed
  insert_sealed-same headers none absent = absent
  insert_sealed-same headers (some value) absent =
      get-insert_same laws headers encrypted_headers_name value

  -- The headers before the signature hold the ephemeral key and the encrypted headers.
  pub unsigned_headers-get :
      (builder : RequestBuilder) (sealed : Option Str)
      → IsPlain builder.plaintext_headers
      → (maps.get (unsigned_headers crypto maps builder sealed) response_pub_key_name
          ≡ some (crypto.encode builder.ctx.ephemeral_pub))
        × (maps.get (unsigned_headers crypto maps builder sealed) encrypted_headers_name ≡ sealed)
  unfolding str_eq
  unsigned_headers-get builder sealed plain =
      let key = crypto.encode builder.ctx.ephemeral_pub in
      let first = maps.insert maps.new response_pub_key_name key in
      let entries = builder.plaintext_headers in
      let all = insert_all crypto maps first entries in
      (
        insert_sealed-get all sealed response_pub_key_name refl
            ∙ insert_all-get first entries response_pub_key_name
                (All-mono entries (λ e other. other.1) plain)
            ∙ get-insert_same laws maps.new response_pub_key_name key,
        insert_sealed-same all sealed (
            insert_all-get first entries encrypted_headers_name
              (All-mono entries (λ e other. other.0) plain)
            ∙ get-insert_other laws maps.new response_pub_key_name encrypted_headers_name key refl
            ∙ laws.get-new encrypted_headers_name),
      )

  -- A build that succeeds has sealed its headers and its payload, and signed both.
  pub build_for_subject-ok :
      (builder : RequestBuilder) (subject headers_nonce payload_nonce : Str)
      (built : BuiltRequest H)
      → build_for_subject crypto maps builder subject headers_nonce payload_nonce ≡ ok built
      → (sealed : Option Str) × (payload : Str) × (seal_headers crypto maps builder.ctx
            builder.encrypted_headers headers_nonce
          ≡ ok sealed)
        × (seal_payload crypto maps builder.ctx builder.payload builder.encrypt_payload
              payload_nonce
            ≡ ok payload)
        × (built ≡ sign_request crypto maps builder subject sealed payload)
  unfolding build_for_subject
  build_for_subject-ok builder subject headers_nonce payload_nonce built e =
      let sealing = seal_headers crypto maps builder.ctx builder.encrypted_headers headers_nonce in
      let paying =
        seal_payload crypto maps builder.ctx builder.payload builder.encrypt_payload
          payload_nonce in
      let (sealed, headers, more) =
        bind-ok sealing
          (λ sealed.
            paying >>= λ payload. ok (sign_request crypto maps builder subject sealed payload))
          built e in
      let (payload, paid, last) =
        bind-ok paying (λ payload. ok (sign_request crypto maps builder subject sealed payload))
          built more in
      (sealed, payload, headers, paid, sym (ok-injective last))

  -- Encrypted headers travel as the encoded envelope of their JSON.
  pub seal_headers-ok :
      (ctx : EphemeralContext) (entry : Str × Str) (entries : List (Str × Str)) (nonce : Str)
      (sealed : Option Str)
      → seal_headers crypto maps ctx (entry ∷ entries) nonce ≡ ok sealed
      → (json : Str) × (envelope : Str) × (crypto.to_vec (collect [] (entry ∷ entries)) ≡ some json)
        × (encrypt crypto ctx nonce json ≡ ok envelope)
        × (sealed ≡ some (crypto.encode envelope))
  unfolding seal_headers
  seal_headers-ok ctx entry entries nonce sealed e =
      elim (Option-cases (crypto.to_vec (collect [] (entry ∷ entries)))) [
        | inl refused ↦ ground arith
        | inr (json, written) ↦
            let (envelope, encrypted, last) =
              bind-ok (encrypt crypto ctx nonce json) (λ c. ok (some (crypto.encode c))) sealed
                (rw written at e) in
            (json, envelope, written, encrypted, sym (ok-injective last))
      ]

pub All-collect {κ} :
    (P : Str × Str → Type κ) (map entries : List (Str × Str))
    → All P map
    → All P entries
    → All P (collect map entries)
unfolding collect
All-collect P map [] kept new = kept
All-collect P map ((key, value) ∷ entries) kept (first, new) =
    All-collect P (insert key value map) entries (All-insert P key value map first kept) new
