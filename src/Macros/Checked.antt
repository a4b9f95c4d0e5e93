-- ===== src/Macros/Checked.antt =====
-- What the checks of a service's model (nats-micro-macros/src/service/validate.rs) establish.
use mathlib.Core.List.{append-nil}
use nats_micro.Prelude.{
  AreFresh, AreFresh-cons_iff, ◌==◌, ℕ, ◌<◌, ◌≡◌, sym, ◌∙◌, ◌≢◌, Bool, true, false, not, ◌||◌, List,
  [], ◌∷◌, map, Option, none, some, Str, all, length, All, Distinct, contains, contains_iff, arith,
  ok, both-ok, bind-ok, ok-injective, Bool-cases, inl, inr, if◌then◌else◌,
}
use nats_micro.Subject.{split}
use nats_micro.Subject.Splitting.{join, join-split}
use nats_micro.Contract.{is_number}
use nats_micro.Contract.Semver.{IsSemver, is_number_iff}
use nats_micro.Macros.Template.{is_consumer}
use nats_micro.Macros.Model.{Syn, SynError, OperationModel, MethodModel, ordinary, ServiceModel}
use nats_micro.Macros.Options.{or_value, or_error}
use nats_micro.Macros.Validate.{validate_consumer, validate_operation, validate_methods}
use nats_micro.Macros.Checks.{Features, validate_version, validate_token, validate_subject}
use nats_micro.Macros.Metadata.{operations_of, served}

pub validate_token-ne : (value : Str) → validate_token value ≡ ok tt → value ≢ []
unfolding validate_token
validate_token-ne [] h = cc
validate_token-ne (b ∷ value) h = λ e. cc

validate_subject-ne : (value : Str) → validate_subject value ≡ ok tt → value ≢ []
unfolding validate_subject
validate_subject-ne [] h = cc
validate_subject-ne (b ∷ value) h = λ e. cc

three_parts :
    (parts : List Str)
    → length parts ≡ 3
    → all is_number parts ≡ true
    → (version : Str) → version ≡ join parts
    → IsSemver version
three_parts [] n h version e = absurd (omega arith)
three_parts (a ∷ []) n h version e = absurd (omega arith)
three_parts (a ∷ b ∷ []) n h version e = absurd (omega arith)
three_parts (a ∷ b ∷ c ∷ []) n h version e = (
  a,
  b,
  c,
  [],
  e ∙ sym (append-nil (join (a ∷ b ∷ c ∷ []))),
  (is_number_iff a).0 (ground arith),
  (is_number_iff b).0 (ground arith),
  (is_number_iff c).0 (ground arith),
  tt,
)
three_parts (a ∷ b ∷ c ∷ d ∷ parts) n h version e = absurd (omega arith)

pub validate_version-IsSemver :
    (version : Str) → validate_version version ≡ ok tt → IsSemver version
unfolding validate_version
validate_version-IsSemver version h =
    three_parts (split version) (ground arith) (ground arith) version (sym (join-split version))

-- What a consumer names.
abbrev pub IsText : Option Str → Type 0
IsText none = ⊥
IsText (some text) = text ≢ []

named-IsText :
    (error : SynError) (text : Option Str) (value : Str)
    → or_error error text ≡ ok value
    → validate_token value ≡ ok tt
    → IsText text
named-IsText error none value h k = cc
named-IsText error (some text) value h k = validate_token-ne text (rw (ok-injective h) k)

module _ {Ty : Type 0} where
  abbrev IsBound : OperationModel Ty → Type 0
  IsBound op = IsText op.options.stream × IsText op.options.durable

  -- What the checks of one operation leave to say.
  pub record IsChecked (op : OperationModel Ty) : Type 0 where
    pub addressed : op.subject.pattern ≢ []
    pub concurrent : 0 < or_value 256 op.options.concurrency
    pub bound : is_consumer op.kind ≡ true → IsBound op

  validate_consumer-IsBound : (op : OperationModel Ty) → validate_consumer op ≡ ok tt → IsBound op
  unfolding validate_consumer
  validate_consumer-IsBound op h =
      let (stream, e, h1) = bind-ok (or_error _ op.options.stream) _ tt h in
      let (durable, f, h2) = bind-ok (or_error _ op.options.durable) _ tt h1 in
      let (filter, h3) = both-ok _ _ tt h2 in
      let (named, h4) = both-ok (validate_token stream) _ tt h3 in
      let (kept, h5) = both-ok (validate_token durable) _ tt h4 in
      (
        named-IsText _ op.options.stream stream e named,
        named-IsText _ op.options.durable durable f kept,
      )

module _ {Ty : Type 0} (syn : Syn Ty) (features : Features) (model : ServiceModel Ty) where
  positive :
      (d : ℕ) (given : Option ℕ) → not (or_value d given == 0) ≡ true → 0 < or_value 256 given
  positive d none h = omega arith
  positive d (some n) h = ground arith

  if_consumer :
      (is : Bool) (op : OperationModel Ty)
      → (if is then validate_consumer op else ok tt) ≡ ok tt
      → is ≡ true
      → IsBound op
  if_consumer true op h e = validate_consumer-IsBound op h
  if_consumer false op h e = cc

  validate_operation-IsChecked :
      (op : OperationModel Ty) → validate_operation syn features model op ≡ ok tt → IsChecked op
  unfolding validate_operation
  validate_operation-IsChecked op h = record {
    addressed = ground (arith, validate_subject-ne op.subject.pattern);
    concurrent = positive model.args.defaults.concurrency op.options.concurrency (ground arith);
    bound = λ e. if_consumer (is_consumer op.kind) op (ground arith) e;
  }

  abbrev pattern_of : OperationModel Ty → Str
  pattern_of op = op.subject.pattern

  -- The operations are checked, and the subjects of those that are served are new and distinct.
  abbrev pub AreChecked : List Str → List (OperationModel Ty) → Type 0
  AreChecked subjects ops =
      All IsChecked ops
      × Distinct (map pattern_of (served ops))
      × AreFresh subjects (map pattern_of (served ops))

  AreChecked-cons :
      (subjects : List Str) (op : OperationModel Ty) (ops : List (OperationModel Ty))
      → IsChecked op
      → (is_consumer op.kind || not (contains subjects op.subject.pattern)) ≡ true
      → AreChecked (if is_consumer op.kind then subjects else op.subject.pattern ∷ subjects) ops
      → AreChecked subjects (op ∷ ops)
  unfolding served
  AreChecked-cons subjects op ops checked new rest = elim (Bool-cases (is_consumer op.kind)) [
    | inl consumes ↦
        let (all, apart, fresh) : AreChecked subjects ops = rw consumes at rest in
        ((checked, all), rw consumes apart, rw consumes fresh)
    | inr serves ↦
        let (all, apart, fresh) : AreChecked (op.subject.pattern ∷ subjects) ops =
          rw serves at rest in
        let (others, old) =
          (AreFresh-cons_iff op.subject.pattern subjects (map pattern_of (served ops))).0 fresh in
        let free : contains subjects op.subject.pattern ≡ false = ground arith in
        (
          (checked, all),
          rw serves (others, apart),
          rw serves ((contains_iff subjects op.subject.pattern).0 free, old),
        )
  ]

  accepted_op :
      (names subjects : List Str) (op : OperationModel Ty) (methods : List (MethodModel Ty))
      → ((names subjects : List Str)
          → validate_methods syn features model names subjects methods ≡ ok tt
          → AreChecked subjects (operations_of methods))
      → validate_methods syn features model names subjects (MethodModel.request op ∷ methods)
        ≡ ok tt
      → AreChecked subjects (op ∷ operations_of methods)
  unfolding validate_methods
  accepted_op names subjects op methods ih h =
      AreChecked-cons subjects op (operations_of methods)
        (validate_operation-IsChecked op (ground arith)) (ground arith)
        (ih (op.method.ident ∷ names)
          (if is_consumer op.kind then subjects else op.subject.pattern ∷ subjects) (ground arith))

  pub validate_methods-AreChecked :
      (names subjects : List Str) (methods : List (MethodModel Ty))
      → validate_methods syn features model names subjects methods ≡ ok tt
      → AreChecked subjects (operations_of methods)
  unfolding validate_methods operations_of served
  validate_methods-AreChecked names subjects [] h = (tt, tt, tt)
  validate_methods-AreChecked names subjects (MethodModel.request op ∷ methods) h =
      accepted_op names subjects op methods (λ n s. validate_methods-AreChecked n s methods) h
  validate_methods-AreChecked names subjects (MethodModel.publish op ∷ methods) h =
      accepted_op names subjects op methods (λ n s. validate_methods-AreChecked n s methods) h
  validate_methods-AreChecked names subjects (MethodModel.subscribe op ∷ methods) h =
      accepted_op names subjects op methods (λ n s. validate_methods-AreChecked n s methods) h
  validate_methods-AreChecked names subjects (MethodModel.consumer op ∷ methods) h =
      accepted_op names subjects op methods (λ n s. validate_methods-AreChecked n s methods) h
  validate_methods-AreChecked names subjects (ordinary method ∷ methods) h =
      validate_methods-AreChecked names subjects methods h
