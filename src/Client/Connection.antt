-- ===== src/Client/Connection.antt =====
-- nats-micro/src/client/mod.rs: the options that a client connects with.
-- `async_nats::ConnectOptions` is a parameter, a record of its builder's methods; the callback that
-- counts reconnects is left out.
pub mod Accepted
use nats_micro.Prelude.{
  ℕ, ◌+◌, ◌*◌, Bool, true, false, not, ◌&&◌, ◌||◌, List, [], ◌∷◌, ◌++◌, Option, some, none, Str,
  bytes, is_some, length, ◌==◌, if◌then◌else◌, Result, ok, err, ◌>>=◌, ◌>>◌, ensure,
}
use nats_micro.Errors.Framework.{FrameworkError}
use nats_micro.Errors.Framework
use nats_micro.Errors.Response.{NatsErrorResponse, framework}

pub record AuthOptions : Type 0 where
  pub token : Option Str
  pub username : Option Str
  pub password : Option Str

pub record ConnectOptions : Type 0 where
  pub name : Option Str
  pub no_echo : Option Bool
  pub max_reconnects : Option ℕ
  pub connection_timeout_ms : Option ℕ
  pub auth : Option AuthOptions
  pub tls_required : Option Bool
  pub tls_first : Option Bool
  pub certificates : Option (List Str)
  pub client_cert : Option Str
  pub client_key : Option Str
  pub ping_interval_ms : Option ℕ
  pub subscription_capacity : Option ℕ
  pub sender_capacity : Option ℕ
  pub inbox_prefix : Option Str
  pub request_timeout_ms : Option ℕ
  pub retry_on_initial_connect : Option Bool
  pub ignore_discovered_servers : Option Bool
  pub retain_servers_order : Option Bool
  pub read_buffer_capacity : Option ℕ
  pub subject_prefix : Option Str
  pub recipient_public_key : Option Str

-- The builder of the package; a duration is a number of milliseconds.
pub record OptionsBuilder (O Connection : Type 0) : Type 0 where
  pub new : O
  pub name : O → Str → O
  pub no_echo : O → O
  pub max_reconnects : O → Option ℕ → O
  pub connection_timeout : O → ℕ → O
  pub token : O → Str → O
  pub user_and_password : O → Str → Str → O
  pub require_tls : O → Bool → O
  pub tls_first : O → O
  pub add_root_certificates : O → Str → O
  pub add_client_certificate : O → Str → Str → O
  pub ping_interval : O → ℕ → O
  pub subscription_capacity : O → ℕ → O
  pub client_capacity : O → ℕ → O
  pub custom_inbox_prefix : O → Str → O
  pub request_timeout : O → Option ℕ → O
  pub retry_on_initial_connect : O → O
  pub ignore_discovered_servers : O → O
  pub retain_servers_order : O → O
  pub read_buffer_capacity : O → ℕ → O
  -- a connection, or the text of the package's error
  pub connect : O → Str → Result Str Connection

pub record ConnectedClient (Connection : Type 0) : Type 0 where
  pub client : Connection
  pub subject_prefix : Option Str
  pub recipient : Option Str

-- `usize::try_from(value).unwrap_or(usize::MAX)`: a `u32` fits a `usize` of 32 or 64 bits.
unfoldable pub capacity : ℕ → ℕ
capacity value = value

-- `.unwrap_or(false)`, and an option that is set if it is given.
abbrev pub or_false : Option Bool → Bool
or_false none = false
or_false (some value) = value

abbrev pub or_empty : Option (List Str) → List Str
or_empty none = []
or_empty (some paths) = paths

abbrev pub if_given : {O A : Type 0} → Option A → (O → A → O) → O → O
if_given none set options = options
if_given (some value) set options = set options value

abbrev pub if_asked : {O : Type 0} → Option Bool → (O → O) → O → O
if_asked flag set options = if or_false flag then set options else options

-- `.ok_or_else(..)`
abbrev pub needed : {E A : Type 0} → Option A → E → Result E A
needed none error = err error
needed (some value) error = ok value

abbrev pub unlimited_if_zero : ℕ → Option ℕ
unlimited_if_zero n = if not (n == 0) then some (capacity n) else none

module _ {O Connection : Type 0} (builder : OptionsBuilder O Connection) where
  abbrev pub add_roots : List Str → O → O
  add_roots [] options = options
  add_roots (path ∷ paths) options = add_roots paths (builder.add_root_certificates options path)

  -- The settings before the authentication, between it and the client's certificate, and after.
  abbrev pub basic_settings : ConnectOptions → O → O
  basic_settings input options =
      let named = if_given input.name builder.name options in
      let quiet = if_asked input.no_echo builder.no_echo named in
      let bounded =
        if_given input.max_reconnects (λ o n. builder.max_reconnects o (unlimited_if_zero n))
          quiet in
      if_given input.connection_timeout_ms builder.connection_timeout bounded

  abbrev pub tls_settings : ConnectOptions → O → O
  tls_settings input options =
      let required = if_asked input.tls_required (λ o. builder.require_tls o true) options in
      let first = if_asked input.tls_first builder.tls_first required in
      add_roots (or_empty input.certificates) first

  abbrev pub last_settings : ConnectOptions → O → O
  last_settings input options =
      let pinged = if_given input.ping_interval_ms builder.ping_interval options in
      let subscribed =
        if_given input.subscription_capacity (λ o n. builder.subscription_capacity o (capacity n))
          pinged in
      let sending =
        if_given input.sender_capacity (λ o n. builder.client_capacity o (capacity n)) subscribed in
      let boxed = if_given input.inbox_prefix builder.custom_inbox_prefix sending in
      let timed =
        if_given input.request_timeout_ms (λ o n. builder.request_timeout o (some n)) boxed in
      let retrying =
        if_asked input.retry_on_initial_connect builder.retry_on_initial_connect timed in
      let ignoring =
        if_asked input.ignore_discovered_servers builder.ignore_discovered_servers retrying in
      let ordered = if_asked input.retain_servers_order builder.retain_servers_order ignoring in
      if_given input.read_buffer_capacity builder.read_buffer_capacity ordered

module _ {Value O Connection : Type 0} (builder : OptionsBuilder O Connection) where
  abbrev pub apply_userpass :
      Bool → Option Str → Option Str → O → Result (NatsErrorResponse Value) O
  apply_userpass false username password options = ok options
  apply_userpass true username password options = do
    user ← needed username (
        framework FrameworkError.auth_username_required
          (bytes "username is required when password is provided"))
    pass ← needed password (
        framework FrameworkError.auth_password_required
          (bytes "password is required when username is provided"))
    ok (builder.user_and_password options user pass)

  unfoldable pub apply_auth : O → AuthOptions → Result (NatsErrorResponse Value) O
  unfolding framework
  apply_auth options auth = do
    let has_token = is_some auth.token
    let has_userpass = is_some auth.username || is_some auth.password
    ensure (not (has_token && has_userpass)) (
        framework FrameworkError.auth_mode_conflict
          (bytes "choose either token or username/password authentication"))
    apply_userpass has_userpass auth.username auth.password
        (if_given auth.token builder.token options)

  -- The message also says how many bytes were received.
  unfoldable pub parse_recipient_public_key :
      (ℕ → Str) → Option Str → Result (NatsErrorResponse Value) (Option Str)
  unfolding framework
  parse_recipient_public_key to_string none = ok none
  parse_recipient_public_key to_string (some key) =
      if length key == 32
      then ok (some key)
      else err (
          framework FrameworkError.missing_recipient_pubkey (
            bytes "recipient_public_key must contain 32 bytes, received "
            ++ to_string (length key)))

  abbrev pub apply_optional_auth : Option AuthOptions → O → Result (NatsErrorResponse Value) O
  apply_optional_auth none options = ok options
  apply_optional_auth (some auth) options = apply_auth options auth

  abbrev pub add_client : Option Str → Option Str → O → Result (NatsErrorResponse Value) O
  add_client (some cert) (some key) options = ok (builder.add_client_certificate options cert key)
  add_client none none options = ok options
  add_client (some cert) none options = err (
      framework FrameworkError.client_cert_key_mismatch
        (bytes "TLS client authentication requires both client_cert and client_key"))
  add_client none (some key) options = err (
      framework FrameworkError.client_cert_key_mismatch
        (bytes "TLS client authentication requires both client_cert and client_key"))

  abbrev pub connected : Str → Result Str Connection → Result (NatsErrorResponse Value) Connection
  connected server (ok client) = ok client
  connected server (err error) = err (
      framework FrameworkError.client_connect_failed
        (bytes "failed to connect to NATS server `" ++ server ++ bytes "`: " ++ error))

  unfoldable pub connect_inner :
      (ℕ → Str)
      → Str
      → ConnectOptions
      → Result (NatsErrorResponse Value) (ConnectedClient Connection)
  unfolding apply_auth parse_recipient_public_key framework capacity
  connect_inner to_string server input = do
    recipient ← parse_recipient_public_key to_string input.recipient_public_key
    authenticated ← apply_optional_auth input.auth (basic_settings builder input builder.new)
    certified ←
        add_client input.client_cert input.client_key (tls_settings builder input authenticated)
    client ← connected server (builder.connect (last_settings builder input certified) server)
    ok (record { client = client; subject_prefix = input.subject_prefix; recipient = recipient })
