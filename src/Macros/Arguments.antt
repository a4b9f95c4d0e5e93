-- ===== src/Macros/Arguments.antt =====
-- nats-micro-macros/src/service/classify.rs: `classify_arguments`, and the header attributes of the
-- arguments.
use nats_micro.Prelude.{
  ℕ, Bool, true, false, not, List, [], ◌∷◌, Option, none, some, Str, bytes, str_eq, if◌then◌else◌,
  Result, ok, err, ◌>>=◌, ◌>>◌, ensure,
}
use nats_micro.Macros.Model.{
  Shape, path_type, reference_type, tuple_type, unsupported, other_type, Syn, SynError,
  receiver_argument, pattern_argument, header_parameter, header_type, without_state_type,
  payload_shape, second_payload, duplicate_header, in_attribute, WireCodec, ArgumentKind, state,
  state_ref, subject_param, header_param, headers, request_meta, auth, payload, ArgumentModel,
  FnArg, receiver, typed,
}
use nats_micro.Macros.Classify.{
  last_ident, last_type_argument, is_state_reference, auth_inner, classify_payload, option_inner,
  inner_of, is_str_reference, or_else_ty,
}
use nats_micro.Macros.Paths.{is_named}

-- `parse_header_attr`, over the `#[header]` attributes that are left.
unfoldable pub parse_header_attr : Option Str → List (Option Str) → Result SynError (Option Str)
parse_header_attr header [] = ok header
parse_header_attr none (none ∷ attrs) = err in_attribute
parse_header_attr none (some name ∷ attrs) = parse_header_attr (some name) attrs
parse_header_attr (some name) (attr ∷ attrs) = err duplicate_header

abbrev pub find_placeholder : List (Str × ℕ) → Str → Option (Str × ℕ)
find_placeholder [] ident = none
find_placeholder ((name, segment) ∷ placeholders) ident =
    if str_eq ident name then some (name, segment) else find_placeholder placeholders ident

abbrev pub is_some {ℓ} : {A : Type ℓ} → Option A → Bool
is_some none = false
is_some (some a) = true

module _ {Ty : Type 0} where
  abbrev pub is_unsupported : Shape Ty → Bool
  is_unsupported (path_type qself leading_colon segments) = false
  is_unsupported (reference_type lifetime mutability elem) = false
  is_unsupported (tuple_type elems) = false
  is_unsupported unsupported = true
  is_unsupported other_type = false

module _ {Ty : Type 0} (syn : Syn Ty) where
  -- The last branches: whether a payload was seen before is passed along.
  unfoldable pub payload_kind : Ty → WireCodec → Bool → Result SynError (ArgumentKind Ty × Bool)
  unfolding classify_payload
  payload_kind ty default_codec payload_seen = do
    ensure (not (is_unsupported (syn.shape ty))) payload_shape
    ensure (not payload_seen) second_payload
    model ← classify_payload syn ty default_codec
    ok (payload model, true)

  abbrev pub auth_or_payload :
      Ty → WireCodec → Bool → Option (Ty × Bool) → Result SynError (ArgumentKind Ty × Bool)
  auth_or_payload ty default_codec payload_seen none = payload_kind ty default_codec payload_seen
  auth_or_payload ty default_codec payload_seen (some (claims, optional)) =
      ok (auth claims optional, payload_seen)

  abbrev pub projected : Option Ty → Bool → Result SynError (ArgumentKind Ty × Bool)
  projected none payload_seen = err without_state_type
  projected (some inner) payload_seen = ok (state_ref inner, payload_seen)

  -- The kind of an argument that is no placeholder and has no header.
  unfoldable pub plain_kind : Ty → Ty → WireCodec → Bool → Result SynError (ArgumentKind Ty × Bool)
  unfolding is_state_reference last_ident last_type_argument auth_inner payload_kind
  plain_kind ty state_type default_codec payload_seen = do
    is_state ← is_state_reference syn ty state_type
    let ident = last_ident syn ty
    if is_state
        then ok (state, payload_seen)
        else if is_named ident (bytes "StateRef")
        then projected (last_type_argument syn ty) payload_seen
        else if is_named ident (bytes "Headers")
        then ok (headers, payload_seen)
        else if is_named ident (bytes "RequestMeta")
        then ok (request_meta, payload_seen)
        else auth_or_payload ty default_codec payload_seen (auth_inner syn ty)

  unfoldable pub argument_kind :
      Ty
      → Ty
      → WireCodec
      → Bool
      → Option Str
      → Option (Str × ℕ)
      → Result SynError (ArgumentKind Ty × Bool)
  unfolding inner_of is_str_reference plain_kind
  argument_kind ty state_type default_codec payload_seen none (some (name, segment)) =
      ok (subject_param name segment, payload_seen)
  argument_kind ty state_type default_codec payload_seen (some header) (some (name, segment)) =
      err header_parameter
  argument_kind ty state_type default_codec payload_seen (some name) none = do
    ensure (is_str_reference syn (or_else_ty syn ty (option_inner syn ty))) header_type
    ok (header_param name (is_some (option_inner syn ty)), payload_seen)
  argument_kind ty state_type default_codec payload_seen none none =
      plain_kind ty state_type default_codec payload_seen

  -- One round of the loop: the argument, and whether a payload has been seen.
  unfoldable pub classify_argument :
      Ty → List (Str × ℕ) → WireCodec → Bool → FnArg Ty → Result SynError (ArgumentModel Ty × Bool)
  unfolding parse_header_attr argument_kind
  classify_argument state_type placeholders default_codec payload_seen receiver =
      err receiver_argument
  classify_argument state_type placeholders default_codec payload_seen (typed none ty attrs) =
      err pattern_argument
  classify_argument state_type placeholders default_codec payload_seen
        (typed (some ident) ty attrs) =
      do
        header ← parse_header_attr none attrs
        (kind, seen) ←
            argument_kind ty state_type default_codec payload_seen header
              (find_placeholder placeholders ident)
        ok (record { ident = ident; ty = ty; kind = kind }, seen)

  unfoldable pub classify_arguments :
      Ty
      → List (Str × ℕ)
      → WireCodec
      → Bool
      → List (FnArg Ty)
      → Result SynError (List (ArgumentModel Ty))
  unfolding classify_argument
  classify_arguments state_type placeholders default_codec payload_seen [] = ok []
  classify_arguments state_type placeholders default_codec payload_seen (input ∷ inputs) = do
    (argument, seen) ← classify_argument state_type placeholders default_codec payload_seen input
    arguments ← classify_arguments state_type placeholders default_codec seen inputs
    ok (argument ∷ arguments)
