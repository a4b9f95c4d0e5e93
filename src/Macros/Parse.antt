-- ===== src/Macros/Parse.antt =====
-- nats-micro-macros/src/service/parse.rs: how the model of a service is built. The attributes'
-- options come parsed, but for their durations (args.rs).
use nats_micro.Macros.Options.{
  or_error, operation_kind, or_value, or_option, is_no_auth, first_part, lift_template,
}
use nats_micro.Prelude.{
  ℕ, suc, Bool, true, false, not, ◌||◌, List, [], ◌∷◌, ◌++◌, Option, none, some, Str, bytes,
  if◌then◌else◌, Result, ok, err, ◌>>=◌, ◌>>◌, ensure,
}
use nats_micro.Subject.{split}
use nats_micro.Macros.Template.{
  OperationKind, request, publish, subscribe, consumer, SubjectModel, is_consumer,
  parse_subject_template,
}
use nats_micro.Macros.Model.{
  Shape, path_type, reference_type, tuple_type, unsupported, other_type, PathSegment, Syn, SynError,
  in_attribute, trait_impl, generic_impl, unnamed_service, qualified_service, several_operations,
  not_async, Defaults, OperationOptions, FnArg, receiver, typed, Attribute, Method, ItemImpl,
  OperationModel, MethodModel, ordinary, ServiceArgs, ServiceModel,
}
use nats_micro.Macros.Classify.{classify_response}
use nats_micro.Macros.Arguments.{classify_arguments}

module _ {Ty : Type 0} where
  -- Its operation attributes, with the kinds that they name.
  unfoldable pub operation_attrs : List (Attribute Ty) → List (OperationKind × Attribute Ty)
  unfolding operation_kind
  operation_attrs [] = []
  operation_attrs (attr ∷ attrs) = elim (operation_kind attr.path) [
    | none ↦ operation_attrs attrs
    | some kind ↦ (kind, attr) ∷ operation_attrs attrs
  ]

  -- `attrs.retain(|attr| operation_kind(attr).is_none())`
  unfoldable pub other_attrs : List (Attribute Ty) → List (Attribute Ty)
  unfolding operation_kind
  other_attrs [] = []
  other_attrs (attr ∷ attrs) = elim (operation_kind attr.path) [
    | none ↦ attr ∷ other_attrs attrs
    | some kind ↦ other_attrs attrs
  ]

  unfoldable pub clean_parameter_attrs : List (FnArg Ty) → List (FnArg Ty)
  clean_parameter_attrs [] = []
  clean_parameter_attrs (receiver ∷ inputs) = receiver ∷ clean_parameter_attrs inputs
  clean_parameter_attrs (typed ident ty headers ∷ inputs) =
      typed ident ty [] ∷ clean_parameter_attrs inputs

  -- The defaults of the service are put where the operation says nothing.
  unfoldable pub with_defaults : Defaults → OperationOptions Ty → OperationOptions Ty
  with_defaults defaults options = record options {
    concurrency = some (or_value defaults.concurrency options.concurrency);
    timeout_ms = or_option options.timeout_ms defaults.timeout_ms;
    queue = or_option options.queue defaults.queue;
    auth = or_option options.auth (if is_no_auth defaults.auth then none else some defaults.auth);
  }

  abbrev pub local_subject : Str → OperationKind → OperationOptions Ty → Str
  local_subject ident kind options =
      if is_consumer kind
      then or_value [] (or_option options.filter options.subject)
      else or_value ident options.subject

  unfoldable pub subject_template : ServiceArgs Ty → Str → OperationKind → OperationOptions Ty → Str
  unfolding split
  subject_template args ident kind options =
      let local = local_subject ident kind options in
      if is_consumer kind
      then local
      else args.prefix ++ bytes ".v" ++ first_part (split args.version) ++ bytes "." ++ local

  abbrev pub method_model : OperationKind → OperationModel Ty → MethodModel Ty
  method_model request model = MethodModel.request model
  method_model publish model = MethodModel.publish model
  method_model subscribe model = MethodModel.subscribe model
  method_model consumer model = MethodModel.consumer model

  -- `MethodModel::operation`
  unfoldable pub operation : MethodModel Ty → Option (OperationModel Ty)
  operation (MethodModel.request model) = some model
  operation (MethodModel.publish model) = some model
  operation (MethodModel.subscribe model) = some model
  operation (MethodModel.consumer model) = some model
  operation (ordinary method) = none

  -- The loop of `assign_indexes`, with its two counters.
  unfoldable pub assign_indexes : ℕ → ℕ → List (MethodModel Ty) → List (MethodModel Ty)
  assign_indexes operations consumers [] = []
  assign_indexes operations consumers (MethodModel.request model ∷ methods) =
      MethodModel.request (record model { operation_index = some operations })
      ∷ assign_indexes (suc operations) consumers methods
  assign_indexes operations consumers (MethodModel.publish model ∷ methods) =
      MethodModel.publish (record model { operation_index = some operations })
      ∷ assign_indexes (suc operations) consumers methods
  assign_indexes operations consumers (MethodModel.subscribe model ∷ methods) =
      MethodModel.subscribe (record model { operation_index = some operations })
      ∷ assign_indexes (suc operations) consumers methods
  assign_indexes operations consumers (MethodModel.consumer model ∷ methods) =
      MethodModel.consumer (record model { consumer_index = some consumers })
      ∷ assign_indexes operations (suc consumers) methods
  assign_indexes operations consumers (ordinary method ∷ methods) =
      ordinary method ∷ assign_indexes operations consumers methods

module _ {Ty : Type 0} (syn : Syn Ty) where
  abbrev pub named_by : Bool → List (PathSegment Ty) → Result SynError Str
  named_by qself [] = err qualified_service
  named_by qself (segment ∷ []) = if qself then err qualified_service else ok segment.ident
  named_by qself (segment ∷ next ∷ segments) = err qualified_service

  unfoldable pub service_ident : Shape Ty → Result SynError Str
  service_ident (path_type qself leading_colon segments) = named_by qself segments
  service_ident (reference_type lifetime mutability elem) = err unnamed_service
  service_ident (tuple_type elems) = err unnamed_service
  service_ident unsupported = err unnamed_service
  service_ident other_type = err unnamed_service

  unfoldable pub build_subject :
      ServiceArgs Ty → Str → OperationKind → OperationOptions Ty → Result SynError SubjectModel
  unfolding subject_template parse_subject_template
  build_subject args ident kind options =
      lift_template
        (parse_subject_template syn.is_ident kind (subject_template args ident kind options))

  abbrev pub is_publish : OperationKind → Bool
  is_publish request = false
  is_publish publish = true
  is_publish subscribe = false
  is_publish consumer = false

  unfoldable pub build_operation :
      ServiceArgs Ty
      → Method Ty
      → OperationKind
      → Attribute Ty
      → Result SynError (OperationModel Ty)
  unfolding with_defaults build_subject classify_arguments classify_response other_attrs
      clean_parameter_attrs
  build_operation args method kind attr = do
    ensure (method.is_async || is_publish kind) not_async
    parsed ← or_error in_attribute attr.options
    let options = with_defaults args.defaults parsed
    subject ← build_subject args method.ident kind options
    arguments ←
        classify_arguments syn args.state_type subject.placeholders args.defaults.codec false
          method.inputs
    ok (record {
      kind = kind;
      method = record method {
        attrs = other_attrs method.attrs;
        inputs = clean_parameter_attrs method.inputs;
      };
      options = options;
      subject = subject;
      arguments = arguments;
      response = classify_response syn method options kind;
      operation_index = none;
      consumer_index = none;
    })

  abbrev pub build_method :
      ServiceArgs Ty
      → Method Ty
      → List (OperationKind × Attribute Ty)
      → Result SynError (MethodModel Ty)
  build_method args method [] = ok (ordinary method)
  build_method args method ((kind, attr) ∷ []) = do
    model ← build_operation args method kind attr
    ok (method_model kind model)
  build_method args method (first ∷ second ∷ attrs) = err several_operations

  unfoldable pub build_methods :
      ServiceArgs Ty → List (Method Ty) → Result SynError (List (MethodModel Ty))
  unfolding operation_attrs build_operation
  build_methods args [] = ok []
  build_methods args (method ∷ functions) = do
    model ← build_method args method (operation_attrs method.attrs)
    models ← build_methods args functions
    ok (model ∷ models)

  unfoldable pub build_model : ServiceArgs Ty → ItemImpl Ty → Result SynError (ServiceModel Ty)
  unfolding service_ident build_methods
  build_model args item_impl = do
    ensure (not item_impl.is_trait) trait_impl
    ensure (not item_impl.is_generic) generic_impl
    ident ← service_ident (syn.shape item_impl.self_ty)
    methods ← build_methods args item_impl.functions
    ok (record {
      args = args;
      service_ident = ident;
      state_type = args.state_type;
      methods = methods;
    })
