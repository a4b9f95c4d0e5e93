-- ===== src/Client/Tests.antt =====
-- Calls of a client, over header maps that are lists, with one value for a name or with several.
use mathlib.Core.List.Perm
use nats_micro.Request
use nats_micro.Client.Calls.Token.{bearer_token-get}
use nats_micro.Encryption.Headers.{is_reserved_encryption_header_name}
use nats_micro.Prelude.{
  str_lt, ◌+◌, ℕ, true, List, [], ◌∷◌, ◌++◌, Option, none, some, Str, bytes, str_eq, ◌≡◌, refl, sym,
  ap, ◌∙◌, ◌↔◌, Result, ok, err, lookup, insert, lookup-insert, arith, if◌then◌else◌, Bool-cases,
  inl, inr,
}
use mathlib.Core.List.{Perm}
use nats_micro.Errors.Response.{NatsErrorResponse, ServiceErrorMatch, untyped, ClientError}
use nats_micro.Response.{Response, payload, ErrorReply, Writers, optional_none}
use nats_micro.Request.{request_id_header, Request}
use nats_micro.Encryption.Toy.{toy, toy-IsCrypto, list_headers, list_headers-IsHeaderMaps, zeros}
use nats_micro.Encryption.Envelope.{encrypt_response, EncryptionError, begin, from_private_bytes}
use nats_micro.Encryption.Builder.{insert_all, BuiltRequest, collect}
use nats_micro.Encryption.Prepare.{EncryptedRequest, Rejection, request_view}
use nats_micro.Client
use nats_micro.Headers.{HeaderMaps}
use nats_micro.Client.{HeaderEntries, merge_headers, Subject}
use nats_micro.Client.Merging.{IsHeaderEntries, all_in, or_all, all_from, merge_headers-all}
use nats_micro.Client.Decoding.{Readers, bytes_decode, optional_json_decode}
use nats_micro.Client.Decoding.Answers.{answered, reply, expected, optional_json_decode-reply}
use nats_micro.Client.Calls.{bearer_token, EncryptedRequestCall, Draws, build_call, send_encrypted}
use nats_micro.Client.Calls.Sealed.{service, call_to, send_encrypted-call}
use nats_micro.Client.Connection.{ConnectOptions, OptionsBuilder, connect_inner}
use nats_micro.Client.Connection.Accepted.{Succeeds, IsKey, HasMode, IsPaired, connect_inner_iff}

abbrev Headers : Type 0
Headers = List (Str × Str)

abbrev singles : Headers → List (Str × List Str)
singles [] = []
singles ((key, value) ∷ headers) = (key, value ∷ []) ∷ singles headers

-- A second value of a name is not kept, and never read.
abbrev add_if_absent : Option Str → Headers → Str → Str → Headers
add_if_absent none headers key value = insert key value headers
add_if_absent (some first) headers key value = headers

abbrev list_entries : HeaderEntries Headers
list_entries = record {
  entries = singles;
  append = λ headers key value. add_if_absent (lookup key headers) headers key value;
}

-- Headers that keep all the values of a name.
abbrev MultiHeaders : Type 0
MultiHeaders = List (Str × List Str)

abbrev first_of : List Str → Option Str
first_of [] = none
first_of (value ∷ given) = some value

abbrev or_nil : Option (List Str) → List Str
or_nil none = []
or_nil (some given) = given

abbrev multi_headers : HeaderMaps MultiHeaders
multi_headers = record {
  new = [];
  get = λ headers key. first_of (or_nil (lookup key headers));
  insert = λ headers key value. insert key (value ∷ []) headers;
  is_name = λ text. true;
  is_value = λ text. true;
}

abbrev multi_entries : HeaderEntries MultiHeaders
multi_entries = record {
  entries = λ headers. headers;
  append = λ headers key value. insert key (or_nil (lookup key headers) ++ value ∷ []) headers;
}

all_in-lookup :
    (headers : MultiHeaders) (name : Str) → all_in headers name ≡ or_nil (lookup name headers)
unfolding lookup
all_in-lookup [] name = refl
all_in-lookup ((key, given) ∷ headers) name = elim (Bool-cases (str_eq key name)) [
  | inl same ↦ rw same refl
  | inr other ↦ rw other (all_in-lookup headers name)
]

all_in-insert :
    (headers : MultiHeaders) (key name : Str) (given : List Str)
    → all_in (insert key given headers) name
      ≡ (if str_eq key name then given else all_in headers name)
all_in-insert headers key name given =
    all_in-lookup (insert key given headers) name
    ∙ ap or_nil (lookup-insert key name given headers)
    ∙ elim (Bool-cases (str_eq key name)) [
      | inl same ↦ rw same refl
      | inr other ↦ rw other (sym (all_in-lookup headers name))
    ]

multi_entries-IsHeaderEntries : IsHeaderEntries multi_headers multi_entries
multi_entries-IsHeaderEntries = record {
  all-insert = λ headers key name value. all_in-insert headers key name (value ∷ []);
  all-append = λ headers key name value.
      all_in-insert headers key name (or_nil (lookup key headers) ++ value ∷ [])
      ∙ rw (← all_in-lookup headers key) refl;
}

abbrev defaults : MultiHeaders
defaults = (bytes "region", bytes "eu" ∷ []) ∷ (bytes "tenant", bytes "a" ∷ []) ∷ []

abbrev per_call : MultiHeaders
per_call = (bytes "tenant", bytes "b" ∷ bytes "c" ∷ []) ∷ []

merge_headers-all_example :
    all_from multi_entries
      (merge_headers multi_headers multi_entries (some defaults) (some per_call))
      (bytes "tenant")
    ≡ or_all
        (all_from multi_entries (some per_call) (bytes "tenant"))
        (all_from multi_entries (some defaults) (bytes "tenant"))
merge_headers-all_example =
    merge_headers-all multi_headers multi_entries multi_entries-IsHeaderEntries (some defaults)
      (some per_call) (bytes "tenant") (tt, tt)

abbrev writers : Writers Str
writers = record {
  wire_error = λ code kind message id. some message;
  error_response = λ error. some error.message;
  to_string = λ n. n ∷ [];
}

abbrev refusal : NatsErrorResponse Str
refusal = record {
  code = 404;
  kind = bytes "NOT_FOUND";
  message = bytes "no such order";
  request_id = [];
  details = none;
}

-- The only error that is read.
abbrev readers : Readers Str Str
readers = record {
  error_response = λ text. ok refusal;
  json = λ text. ok text;
  proto = λ text. ok text;
  from_utf8 = λ text. ok text;
}

abbrev unmatched : NatsErrorResponse Str → ServiceErrorMatch Str Str
unmatched response = untyped response

optional_json_decode-reply_example :
    optional_json_decode list_headers readers unmatched
      (answered list_headers writers (reply list_headers readers writers unmatched (err refusal)))
    ≡ expected list_headers readers writers unmatched (err refusal)
unfolding nats_micro.Response.from_nats_error
optional_json_decode-reply_example =
    optional_json_decode-reply list_headers readers writers unmatched (err refusal)
      list_headers-IsHeaderMaps refl

-- An encrypted call, of which the client sends no header of its own but a token.
abbrev secret : Str
secret = bytes "s"

abbrev draws : Draws
draws = record { ephemeral_secret = bytes "e"; headers_nonce = zeros 24; payload_nonce = zeros 24 }

abbrev token : List (Str × Str)
token = (bytes "authorization", bytes "Bearer t") ∷ []

abbrev or_empty : Result EncryptionError (BuiltRequest Headers) → BuiltRequest Headers
or_empty (ok built) = built
or_empty (err error) = record { headers = []; payload = []; context = begin toy [] [] }

built : BuiltRequest Headers
unfolding build_call
built = or_empty (
    build_call toy list_headers list_entries (from_private_bytes toy secret).public (bytes "hi")
      true (merge_headers list_headers list_entries none none) token (Subject.static (bytes "a.b"))
      draws)

no_id : list_headers.get built.headers request_id_header ≡ none
unfolding built build_call merge_headers lookup insert str_lt str_eq insert_all begin
    is_reserved_encryption_header_name
no_id = refl

no_value : (id : Str) → ◌≡◌ {A = Option Str} none (some id) → ⊥
no_value id e = ground arith

seals :
    (plaintext : Str)
    → encrypt_response toy
        (from_private_bytes toy secret)
        (zeros 24)
        plaintext
        (begin toy (from_private_bytes toy secret).public draws.ephemeral_secret).ephemeral_pub
      ≡ ok (zeros 24 ++ (plaintext ++ zeros 16))
unfolding encrypt_response begin from_private_bytes
seals plaintext = refl

-- The handler sends the text back.
abbrev echo : Request Headers → Result ErrorReply (Response Headers)
echo view = ok (payload view.payload)

abbrev refuse : Rejection → ErrorReply
refuse rejection = record { code = 400; kind = []; message = []; body = []; request_id = none }

abbrev decode : Client.ClientResponse Headers → Result (ClientError Str Str) Str
decode = bytes_decode list_headers readers unmatched

send_encrypted-call_example :
    (done : EncryptedRequest Headers) × ((request_view toy list_headers done).payload ≡ bytes "hi")
    × Perm done.overlay (collect [] token)
    × (send_encrypted toy list_headers list_entries
          (λ error. [])
          (service toy list_headers list_entries writers
            (λ error. [])
            refuse
            decode
            secret
            true
            true
            echo
            (some (bytes "r"))
            (zeros 24))
          decode
          (call_to toy list_headers list_entries writers
            (λ error. [])
            refuse
            decode
            secret
            (Subject.static (bytes "a.b"))
            (bytes "hi")
            none
            none
            token
            none
            true
            true)
          draws
        ≡ decode (answered list_headers writers (echo (request_view toy list_headers done))))
unfolding built build_call merge_headers
send_encrypted-call_example =
    send_encrypted-call toy list_headers list_entries writers (λ error. []) refuse decode secret
      (Subject.static (bytes "a.b")) (bytes "hi") none none token none true true draws built echo
      (some (bytes "r")) (zeros 24) toy-IsCrypto list_headers-IsHeaderMaps refl refl refl tt
      (λ id e. absurd (no_value id (sym no_id ∙ e))) refl
      (λ plaintext. (zeros 24 ++ (plaintext ++ zeros 16), seals plaintext)) (λ view. tt)

abbrev options : ConnectOptions
options = record {
  name = some (bytes "shop");
  no_echo = none;
  max_reconnects = some 0;
  connection_timeout_ms = none;
  auth = some (record { token = none; username = some (bytes "u"); password = some (bytes "p") });
  tls_required = none;
  tls_first = none;
  certificates = none;
  client_cert = none;
  client_key = none;
  ping_interval_ms = none;
  subscription_capacity = none;
  sender_capacity = none;
  inbox_prefix = none;
  request_timeout_ms = none;
  retry_on_initial_connect = none;
  ignore_discovered_servers = none;
  retain_servers_order = none;
  read_buffer_capacity = none;
  subject_prefix = none;
  recipient_public_key = some (zeros 32);
}

-- The number of settings, as the options.
abbrev counting : OptionsBuilder ℕ ℕ
counting = record {
  new = 0;
  name = λ o s. o + 1;
  no_echo = λ o. o + 1;
  max_reconnects = λ o n. o + 1;
  connection_timeout = λ o n. o + 1;
  token = λ o s. o + 1;
  user_and_password = λ o s p. o + 1;
  require_tls = λ o b. o + 1;
  tls_first = λ o. o + 1;
  add_root_certificates = λ o s. o + 1;
  add_client_certificate = λ o s k. o + 1;
  ping_interval = λ o n. o + 1;
  subscription_capacity = λ o n. o + 1;
  client_capacity = λ o n. o + 1;
  custom_inbox_prefix = λ o s. o + 1;
  request_timeout = λ o n. o + 1;
  retry_on_initial_connect = λ o. o + 1;
  ignore_discovered_servers = λ o. o + 1;
  retain_servers_order = λ o. o + 1;
  read_buffer_capacity = λ o n. o + 1;
  connect = λ o server. ok o;
}

connect_inner_iff_example :
    Succeeds (connect_inner {Value = Str} counting (λ n. []) (bytes "nats://a") options) ↔ (
      IsKey options.recipient_public_key
      × (HasMode options.auth × IsPaired options.client_cert options.client_key))
connect_inner_iff_example =
    connect_inner_iff Str counting (λ n. []) (bytes "nats://a") options (λ o. tt)

abbrev blank : EncryptedRequestCall Headers
blank =
    call_to toy list_headers list_entries writers (λ error. []) refuse decode secret
      (Subject.static (bytes "a.b")) (bytes "hi") none none [] none true true

abbrev authorized : EncryptedRequestCall Headers
authorized = record blank { encrypted_headers = token }

abbrev received_token : EncryptedRequest Headers
received_token = record {
  original = Request.new list_headers (bytes "a.b") none (bytes "hi") none;
  keypair = from_private_bytes toy secret;
  ephemeral_public_key = zeros 32;
  plaintext = none;
  overlay = token;
}

bearer_token-get_example :
    Request.get list_headers
      (request_view toy list_headers received_token).headers
      (bytes "authorization")
    ≡ some (bytes "Bearer t")
unfolding bearer_token is_reserved_encryption_header_name collect insert
bearer_token-get_example =
    bearer_token-get toy list_headers blank authorized (bytes "t") received_token tt refl Perm.rfl
