-- ===== src/Macros/Policy.antt =====
-- The authentication policy of an accepted operation, beside the arguments of its handler.
use nats_micro.Contract.Spec.{AuthPolicy}
use nats_micro.Prelude.{
  inr, any_iff, inl, Any, Bool-cases, ◌↔◌, ◌≡◌, refl, ap, Bool, true, false, List, [], ◌∷◌, Option,
  none, some, Str, All, arith, ok, if◌then◌else◌,
}
use nats_micro.Macros.Template.{is_consumer}
use nats_micro.Macros.Model.{
  ArgumentKind, ArgumentModel, state, state_ref, subject_param, header_param, headers, request_meta,
  auth, payload, payload, header_param, subject_param, state_ref, auth, ArgumentModel, ArgumentKind,
  Syn, AuthIntent, no_auth, optional_auth, required_auth, OperationModel, MethodModel, ordinary,
  ServiceModel,
}
use nats_micro.Macros.Validate.{
  has_auth, validate_auth, validate_operation, validate_methods, validate_service,
}
use nats_micro.Macros.Checks.{is_auth, Features, inferred_auth, check_auth}
use nats_micro.Macros.Metadata.{operation_spec, operations_of, auth_policy, policy_tokens}

-- An argument of the handler is an `Auth<T>`, or with `true` an `Option<Auth<T>>`.
abbrev pub TakesAuth : {Ty : Type 0} → Bool → OperationModel Ty → Type 0
TakesAuth {Ty = Ty} optional op =
    Any (λ (argument : ArgumentModel Ty). (claims : Ty) × (argument.kind ≡ auth claims optional))
      op.arguments

is_auth_iff :
    {Ty : Type 0} (wanted : Bool) (kind : ArgumentKind Ty)
    → (is_auth wanted kind ≡ true) ↔ ((claims : Ty) × (kind ≡ auth claims wanted))
is_auth_iff wanted state = (λ h. ground arith, λ h. ground (arith, h.1))
is_auth_iff wanted (state_ref ty) = (λ h. ground arith, λ h. ground (arith, h.1))
is_auth_iff wanted (subject_param name segment) = (λ h. ground arith, λ h. ground (arith, h.1))
is_auth_iff wanted (header_param name optional) = (λ h. ground arith, λ h. ground (arith, h.1))
is_auth_iff wanted headers = (λ h. ground arith, λ h. ground (arith, h.1))
is_auth_iff wanted request_meta = (λ h. ground arith, λ h. ground (arith, h.1))
is_auth_iff wanted (payload model) = (λ h. ground arith, λ h. ground (arith, h.1))
is_auth_iff true (auth claims true) = (λ h. (claims, refl), λ h. refl)
is_auth_iff true (auth claims false) = (λ h. ground arith, λ h. ground (arith, h.1))
is_auth_iff false (auth claims true) = (λ h. ground arith, λ h. ground (arith, h.1))
is_auth_iff false (auth claims false) = (λ h. (claims, refl), λ h. refl)

has_auth_iff :
    {Ty : Type 0} (optional : Bool) (op : OperationModel Ty)
    → (has_auth optional op.arguments ≡ true) ↔ TakesAuth optional op
has_auth_iff optional op =
    any_iff (λ argument. is_auth optional argument.kind) _
      (λ argument. is_auth_iff optional argument.kind) op.arguments

-- The intent that the arguments of a handler show.
abbrev intent_of : {Ty : Type 0} → OperationModel Ty → AuthIntent
intent_of op = inferred_auth (has_auth false op.arguments) (has_auth true op.arguments)

-- What a policy says of the arguments of a handler.
abbrev pub Fits : {Ty : Type 0} → AuthPolicy → OperationModel Ty → Type 0
Fits policy op =
    ((policy ≡ AuthPolicy.required) ↔ TakesAuth false op)
    × ((policy ≡ AuthPolicy.optional) ↔ ((¬ TakesAuth false op) × TakesAuth true op))
    × ((policy ≡ AuthPolicy.none) ↔ ((¬ TakesAuth false op) × (¬ TakesAuth true op)))

refuted : {A : Type 0} (b : Bool) → (b ≡ true) ↔ A → b ≡ false → ¬ A
refuted b same is_false given = ground (arith, same.1 given)

tokens-Fits : {Ty : Type 0} (op : OperationModel Ty) → Fits (policy_tokens (intent_of op)) op
tokens-Fits op =
    let plain = has_auth_iff false op in
    let opt = has_auth_iff true op in
    elim (Bool-cases (has_auth false op.arguments)) [
      | inl required ↦
          let takes = plain.0 required in
          rw required (
            (λ h. takes, λ h. refl),
            (λ h. ground arith, λ h. absurd (h.0 takes)),
            (λ h. ground arith, λ h. absurd (h.0 takes)),
          )
      | inr not_required ↦
          let none_plain = refuted _ plain not_required in
          elim (Bool-cases (has_auth true op.arguments)) [
            | inl optional ↦
                let takes = opt.0 optional in
                rw (not_required, optional)
                  (
                    (λ h. ground arith, λ h. absurd (none_plain h)),
                    (λ h. (none_plain, takes), λ h. refl),
                    (λ h. ground arith, λ h. absurd (h.1 takes)),
                  )
            | inr not_optional ↦
                let none_optional = refuted _ opt not_optional in
                rw (not_required, not_optional)
                  (
                    (λ h. ground arith, λ h. absurd (none_plain h)),
                    (λ h. ground arith, λ h. absurd (none_optional h.1)),
                    (λ h. (none_plain, none_optional), λ h. refl),
                  )
          ]
    ]

checked_intent :
    (declared : AuthIntent) (required optional : Bool)
    → check_auth declared required optional ≡ ok tt
    → declared ≡ inferred_auth required optional
checked_intent no_auth true true h = absurd (ground arith)
checked_intent no_auth true false h = absurd (ground arith)
checked_intent no_auth false true h = absurd (ground arith)
checked_intent no_auth false false h = refl
checked_intent optional_auth true true h = absurd (ground arith)
checked_intent optional_auth true false h = absurd (ground arith)
checked_intent optional_auth false true h = refl
checked_intent optional_auth false false h = absurd (ground arith)
checked_intent required_auth true true h = refl
checked_intent required_auth true false h = refl
checked_intent required_auth false true h = absurd (ground arith)
checked_intent required_auth false false h = absurd (ground arith)

module _ {Ty : Type 0} (syn : Syn Ty) (features : Features) (model : ServiceModel Ty) where
  policy_of_checked :
      (op : OperationModel Ty) (given : Option AuthIntent)
      → op.options.auth ≡ given
      → validate_auth model op ≡ ok tt
      → auth_policy op ≡ policy_tokens (intent_of op)
  unfolding validate_auth auth_policy
  policy_of_checked op none e h = rw e refl
  policy_of_checked op (some intent) e h = rw e (
      ap policy_tokens (
        checked_intent intent (has_auth false op.arguments) (has_auth true op.arguments)
          (rw e at h)))

  abbrev pub HasPolicy : OperationModel Ty → Type 0
  HasPolicy op = Fits (operation_spec syn op model.args.name model.args.version).auth op

  validate_operation-HasPolicy :
      (op : OperationModel Ty) → validate_operation syn features model op ≡ ok tt → HasPolicy op
  unfolding validate_operation operation_spec
  validate_operation-HasPolicy op h =
      let same : auth_policy op ≡ policy_tokens (intent_of op) =
        policy_of_checked op op.options.auth refl (ground arith) in
      rw same (tokens-Fits op)

  policy_op :
      (names subjects : List Str) (op : OperationModel Ty) (methods : List (MethodModel Ty))
      → ((names subjects : List Str)
          → validate_methods syn features model names subjects methods ≡ ok tt
          → All HasPolicy (operations_of methods))
      → validate_methods syn features model names subjects (MethodModel.request op ∷ methods)
        ≡ ok tt
      → HasPolicy op × All HasPolicy (operations_of methods)
  unfolding validate_methods
  policy_op names subjects op methods ih h = (
    validate_operation-HasPolicy op (ground arith),
    ih (op.method.ident ∷ names)
        (if is_consumer op.kind then subjects else op.subject.pattern ∷ subjects) (ground arith),
  )

  validate_methods-HasPolicy :
      (names subjects : List Str) (methods : List (MethodModel Ty))
      → validate_methods syn features model names subjects methods ≡ ok tt
      → All HasPolicy (operations_of methods)
  unfolding validate_methods operations_of
  validate_methods-HasPolicy names subjects [] h = tt
  validate_methods-HasPolicy names subjects (ordinary method ∷ methods) h =
      validate_methods-HasPolicy names subjects methods h
  validate_methods-HasPolicy names subjects (MethodModel.request op ∷ methods) h =
      policy_op names subjects op methods (λ n s. validate_methods-HasPolicy n s methods) h
  validate_methods-HasPolicy names subjects (MethodModel.publish op ∷ methods) h =
      policy_op names subjects op methods (λ n s. validate_methods-HasPolicy n s methods) h
  validate_methods-HasPolicy names subjects (MethodModel.subscribe op ∷ methods) h =
      policy_op names subjects op methods (λ n s. validate_methods-HasPolicy n s methods) h
  validate_methods-HasPolicy names subjects (MethodModel.consumer op ∷ methods) h =
      policy_op names subjects op methods (λ n s. validate_methods-HasPolicy n s methods) h

  -- In the specification of a service that the macro accepts, an operation's policy is `required`
  -- exactly if an argument of its handler is classified as an `Auth<T>`, `optional` exactly if none
  -- is and one is classified as an `Option<Auth<T>>`, and `none` exactly if there is neither,
  -- whatever the attribute and the service's default declare.
  pub validate_service-HasPolicy :
      validate_service syn features model ≡ ok tt → All HasPolicy (operations_of model.methods)
  unfolding validate_service
  validate_service-HasPolicy h = validate_methods-HasPolicy [] [] model.methods (ground arith)
