-- ===== src/Client/Connection/Accepted.antt =====
-- Which options a client connects with.
use nats_micro.Prelude.{
  arith, ◌>>=◌, Option, some, none, Str, ◌≡◌, ◌↔◌, length, ◌==◌, ==_iff, Result, ok, err, ℕ,
  Bool-cases, inl, inr,
}
use nats_micro.Client.Connection.{
  AuthOptions, ConnectOptions, OptionsBuilder, apply_auth, parse_recipient_public_key,
  apply_optional_auth, add_client, connect_inner, basic_settings, tls_settings, last_settings,
  connected,
}

-- A token, or a user name and a password, or none of them.
abbrev pub IsMode : Option Str → Option Str → Option Str → Type 0
IsMode none none none = Unit
IsMode none (some username) (some password) = Unit
IsMode (some token) none none = Unit
IsMode none (some username) none = ⊥
IsMode none none (some password) = ⊥
IsMode (some token) (some username) password = ⊥
IsMode (some token) none (some password) = ⊥

abbrev pub HasMode : Option AuthOptions → Type 0
HasMode none = Unit
HasMode (some auth) = IsMode auth.token auth.username auth.password

-- Both, or neither.
abbrev pub IsPaired : Option Str → Option Str → Type 0
IsPaired none none = Unit
IsPaired (some cert) (some key) = Unit
IsPaired none (some key) = ⊥
IsPaired (some cert) none = ⊥

abbrev pub IsKey : Option Str → Type 0
IsKey none = Unit
IsKey (some key) = length key ≡ 32

-- The step has a result.
abbrev pub Succeeds : {E A : Type 0} → Result E A → Type 0
Succeeds (ok value) = Unit
Succeeds (err error) = ⊥

-- A chain whose second step succeeds on the same condition, whatever the first yields.
bind-Succeeds :
    {E A B : Type 0} (P Q : Type 0) (m : Result E A) (f : A → Result E B)
    → (Succeeds m ↔ P)
    → ((a : A) → Succeeds (f a) ↔ Q)
    → Succeeds (m >>= f) ↔ (P × Q)
bind-Succeeds P Q (ok a) f first second = (λ h. (first.0 tt, (second a).0 h), λ h. (second a).1 h.1)
bind-Succeeds P Q (err e) f first second = (λ h. absurd h, λ h. first.1 h.0)

last-Succeeds :
    {E A B : Type 0} (P : Type 0) (m : Result E A) (f : A → Result E B)
    → (Succeeds m ↔ P)
    → ((a : A) → Succeeds (f a))
    → Succeeds (m >>= f) ↔ P
last-Succeeds P (ok a) f first second = (λ h. first.0 tt, λ h. second a)
last-Succeeds P (err e) f first second = first

module _ (Value : Type 0) {O Connection : Type 0} (builder : OptionsBuilder O Connection) where
  apply_auth-IsMode :
      (options : O) (token username password : Option Str)
      → Succeeds (
          apply_auth {Value = Value} builder options
            (record { token = token; username = username; password = password }))
        ↔ IsMode token username password
  unfolding apply_auth
  apply_auth-IsMode options none none none = (λ h. h, λ h. h)
  apply_auth-IsMode options none (some username) (some password) = (λ h. h, λ h. h)
  apply_auth-IsMode options (some token) none none = (λ h. h, λ h. h)
  apply_auth-IsMode options none (some username) none = (λ h. h, λ h. h)
  apply_auth-IsMode options none none (some password) = (λ h. h, λ h. h)
  apply_auth-IsMode options (some token) (some username) password = (λ h. h, λ h. h)
  apply_auth-IsMode options (some token) none (some password) = (λ h. h, λ h. h)

  apply_optional_auth-HasMode :
      (auth : Option AuthOptions) (options : O)
      → Succeeds (apply_optional_auth {Value = Value} builder auth options) ↔ HasMode auth
  apply_optional_auth-HasMode none options = (λ h. h, λ h. h)
  apply_optional_auth-HasMode (some auth) options =
      apply_auth-IsMode options auth.token auth.username auth.password

  add_client-IsPaired :
      (cert key : Option Str) (options : O)
      → Succeeds (add_client {Value = Value} builder cert key options) ↔ IsPaired cert key
  add_client-IsPaired none none options = (λ h. h, λ h. h)
  add_client-IsPaired (some cert) (some key) options = (λ h. h, λ h. h)
  add_client-IsPaired none (some key) options = (λ h. h, λ h. h)
  add_client-IsPaired (some cert) none options = (λ h. h, λ h. h)

  parse_recipient_public_key-IsKey :
      (to_string : ℕ → Str) (key : Option Str)
      → Succeeds (parse_recipient_public_key {Value = Value} builder to_string key) ↔ IsKey key
  unfolding parse_recipient_public_key
  parse_recipient_public_key-IsKey to_string none = (λ h. h, λ h. h)
  parse_recipient_public_key-IsKey to_string (some key) = elim (Bool-cases (length key == 32)) [
    | inl long ↦ rw long (λ h. (==_iff (length key) 32).0 long, λ h. tt)
    | inr other ↦ rw other (λ h. absurd h, λ h. ground (arith, (==_iff (length key) 32).1 h))
  ]

  connected-Succeeds :
      {B : Type 0} (server : Str) (made : Result Str Connection) (f : Connection → B)
      → Succeeds made
      → Succeeds (connected {Value = Value} builder server made >>= λ client. ok (f client))
  connected-Succeeds server (ok client) f reached = tt
  connected-Succeeds server (err error) f reached = absurd reached

  -- Where the server can be reached, a client is made exactly if the recipient's key has 32 bytes,
  -- the authentication is a token, or a user name and a password, or neither, and a client
  -- certificate comes with its key.
  pub connect_inner_iff :
      (to_string : ℕ → Str) (server : Str) (input : ConnectOptions)
      → ((options : O) → Succeeds (builder.connect options server))
      → Succeeds (connect_inner {Value = Value} builder to_string server input) ↔ (
          IsKey input.recipient_public_key
          × (HasMode input.auth × IsPaired input.client_cert input.client_key))
  unfolding connect_inner
  connect_inner_iff to_string server input reached =
      bind-Succeeds _ _ _ _ (parse_recipient_public_key-IsKey to_string input.recipient_public_key)
        (λ recipient.
          bind-Succeeds _ _ _ _
            (apply_optional_auth-HasMode input.auth (basic_settings builder input builder.new))
            (λ options.
              last-Succeeds _ _ _
                (add_client-IsPaired input.client_cert input.client_key
                  (tls_settings builder input options))
                (λ certified.
                  connected-Succeeds server
                    (builder.connect (last_settings builder input certified) server) _
                    (reached (last_settings builder input certified)))))
