-- ===== src/Response/Wire.antt =====
-- What a client can read off a reply.
use nats_micro.Prelude.{◌∙◌, Option, false, ◌≡◌, none, some, Str, bytes, refl, str_eq}
use nats_micro.Headers.{HeaderMaps, IsHeaderMaps}
use nats_micro.Headers.{get-insert_same, get-insert_other}
use nats_micro.Response.{insert_id, ErrorReply, Writers, service_error_headers}

module _ {H Value : Type 0} (maps : HeaderMaps H) (writers : Writers Value) where
  insert_id-get :
      (headers : H) (id : Option Str) (key : Str)
      → IsHeaderMaps maps
      → str_eq (bytes "x-request-id") key ≡ false
      → maps.get (insert_id maps writers headers id) key ≡ maps.get headers key
  insert_id-get headers none key laws differ = refl
  insert_id-get headers (some id) key laws differ =
      get-insert_other laws headers (bytes "x-request-id") key id differ

  insert_id-same :
      (headers : H) (id : Option Str)
      → IsHeaderMaps maps
      → maps.get headers (bytes "x-request-id") ≡ none
      → maps.get (insert_id maps writers headers id) (bytes "x-request-id") ≡ id
  insert_id-same headers none laws absent = absent
  insert_id-same headers (some id) laws absent =
      get-insert_same laws headers (bytes "x-request-id") id

  -- The headers of an error reply give back its message, code, kind and format, and its request id
  -- exactly if it has one.
  pub service_error_headers-get :
      (error : ErrorReply)
      → IsHeaderMaps maps
      → let headers = service_error_headers maps writers error in
        (maps.get headers (bytes "Nats-Service-Error") ≡ some error.message)
        × (maps.get headers (bytes "Nats-Service-Error-Code") ≡ some (writers.to_string error.code))
        × (maps.get headers (bytes "Nats-Micro-Error-Kind") ≡ some error.kind)
        × (maps.get headers (bytes "Nats-Micro-Error-Format") ≡ some (bytes "json-v1"))
        × (maps.get headers (bytes "x-request-id") ≡ error.request_id)
  unfolding service_error_headers str_eq
  service_error_headers-get error laws =
      let named = maps.insert maps.new (bytes "Nats-Service-Error") error.message in
      let code = writers.to_string error.code in
      let coded = maps.insert named (bytes "Nats-Service-Error-Code") code in
      let kinded = maps.insert coded (bytes "Nats-Micro-Error-Kind") error.kind in
      let formatted = maps.insert kinded (bytes "Nats-Micro-Error-Format") (bytes "json-v1") in
      let under_id : (key : Str)
          → str_eq (bytes "x-request-id") key ≡ false
          → maps.get (insert_id maps writers formatted error.request_id) key
            ≡ maps.get formatted key =
        λ key differ. insert_id-get formatted error.request_id key laws differ in
      let under_format = get-insert_other laws kinded (bytes "Nats-Micro-Error-Format") in
      let under_kind = get-insert_other laws coded (bytes "Nats-Micro-Error-Kind") in
      let under_code = get-insert_other laws named (bytes "Nats-Service-Error-Code") in
      let under_name = get-insert_other laws maps.new (bytes "Nats-Service-Error") in
      (
        under_id _ refl
            ∙ under_format _ _ refl
            ∙ under_kind _ _ refl
            ∙ under_code _ _ refl
            ∙ get-insert_same laws maps.new (bytes "Nats-Service-Error") error.message,
        under_id _ refl
            ∙ under_format _ _ refl
            ∙ under_kind _ _ refl
            ∙ get-insert_same laws named (bytes "Nats-Service-Error-Code") code,
        under_id _ refl
            ∙ under_format _ _ refl
            ∙ get-insert_same laws coded (bytes "Nats-Micro-Error-Kind") error.kind,
        under_id _ refl
            ∙ get-insert_same laws kinded (bytes "Nats-Micro-Error-Format") (bytes "json-v1"),
        insert_id-same formatted error.request_id laws (
            under_format _ _ refl
            ∙ under_kind _ _ refl
            ∙ under_code _ _ refl
            ∙ under_name _ _ refl
            ∙ laws.get-new (bytes "x-request-id")),
      )
