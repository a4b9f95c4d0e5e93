-- ===== src/Macros/Options.antt =====
-- nats-micro-macros/src/service: durations (args.rs), the kinds of attributes, and defaults
-- (parse.rs).
use nats_micro.Prelude.{
  ℕ, ◌+◌, ◌*◌, ◌-◌, ◌^◌, Bool, true, false, List, [], ◌∷◌, Option, none, some, Str, bytes, str_eq,
  is_empty, ltb, if◌then◌else◌, Result, ok, err, ◌>>=◌, ◌>>◌, ensure,
}
use nats_micro.Contract.{is_ascii_digit}
use nats_micro.Macros.Template.{OperationKind, request, publish, subscribe, consumer, TemplateError}
use nats_micro.Macros.Model.{
  SynError, in_template, duration_without_number, duration_unit, duration_too_large, AuthIntent,
  no_auth, optional_auth, required_auth,
}

-- `value.split_at(split)`, where `split` is the place of the first character that is no digit.
abbrev pub digits_of : Str → Str × Str
digits_of [] = ([], [])
digits_of (b ∷ value) =
    let (number, unit) = digits_of value in
    if is_ascii_digit b then (b ∷ number, unit) else ([], b ∷ value)

abbrev pub decimal : ℕ → Str → ℕ
decimal value [] = value
decimal value (b ∷ number) = decimal (value * 10 + (b - 48)) number

-- `number.parse::<u64>()` of a text that is all digits
abbrev pub parse_u64 : Str → Option ℕ
parse_u64 number =
    if is_empty number
    then none
    else if ltb (decimal 0 number) (2 ^ 64)
    then some (decimal 0 number)
    else none

abbrev pub multiplier : Str → Option ℕ
multiplier unit =
    if str_eq unit (bytes "ms")
    then some 1
    else if str_eq unit (bytes "s")
    then some 1000
    else if str_eq unit (bytes "m")
    then some 60000
    else none

abbrev pub or_error {ℓ} : {A : Type ℓ} → SynError → Option A → Result SynError A
or_error error none = err error
or_error error (some a) = ok a

unfoldable pub parse_duration_ms : Str → Result SynError ℕ
parse_duration_ms value = do
  let parts = digits_of value
  number ← or_error duration_without_number (parse_u64 (parts.0))
  factor ← or_error duration_unit (multiplier (parts.1))
  ensure (ltb (number * factor) (2 ^ 64)) duration_too_large
  ok (number * factor)

unfoldable pub operation_kind : Str → Option OperationKind
operation_kind path =
    if str_eq path (bytes "request")
    then some request
    else if str_eq path (bytes "publish")
    then some publish
    else if str_eq path (bytes "subscribe")
    then some subscribe
    else if str_eq path (bytes "consumer")
    then some consumer
    else none

abbrev pub or_value {ℓ} : {A : Type ℓ} → A → Option A → A
or_value default none = default
or_value default (some a) = a

abbrev pub or_option {ℓ} : {A : Type ℓ} → Option A → Option A → Option A
or_option none other = other
or_option (some a) other = some a

abbrev pub is_no_auth : AuthIntent → Bool
is_no_auth no_auth = true
is_no_auth optional_auth = false
is_no_auth required_auth = false

-- `str.split('.').next().unwrap_or("0")`
abbrev pub first_part : List Str → Str
first_part [] = bytes "0"
first_part (part ∷ parts) = part

abbrev pub lift_template : {A : Type 0} → Result TemplateError A → Result SynError A
lift_template (ok a) = ok a
lift_template (err error) = err (in_template error)
