-- ===== src/Macros/Indexes.antt =====
-- `assign_indexes` on what `build_model` gives, beside the lists of the specification.
use nats_micro.Prelude.{
  All-mono, subst, ℕ, suc, ◌+◌, ◌≡◌, refl, true, false, List, [], ◌∷◌, map, some, Str, get_elem?,
  All, arith, ok, bind-ok, ok-injective,
}
use nats_micro.Macros.Template.{OperationKind, request, publish, subscribe, consumer, is_consumer}
use nats_micro.Macros.Model.{
  Syn, Attribute, Method, ItemImpl, OperationModel, MethodModel, ordinary, ServiceArgs,
  ServiceModel,
}
use nats_micro.Macros.Parse.{
  build_operation, build_method, build_methods, build_model, operation_attrs, method_model,
  assign_indexes,
}
use nats_micro.Contract.Spec.{OperationSpec, ConsumerSpec, ServiceSpec}
use nats_micro.Macros.Metadata.{
  operation_spec, consumer_spec, operations_of, served, consumed, service_spec,
}

module _ {Ty : Type 0} where
  -- An operation has the kind of its constructor.
  abbrev IsTagged : OperationKind → OperationModel Ty → Type 0
  IsTagged kind op = op.kind ≡ kind

  abbrev IsBuilt : MethodModel Ty → Type 0
  IsBuilt (MethodModel.request op) = IsTagged request op
  IsBuilt (MethodModel.publish op) = IsTagged publish op
  IsBuilt (MethodModel.subscribe op) = IsTagged subscribe op
  IsBuilt (MethodModel.consumer op) = IsTagged consumer op
  IsBuilt (ordinary method) = Unit

  method_model-IsBuilt :
      (kind : OperationKind) (op : OperationModel Ty)
      → IsTagged kind op
      → IsBuilt (method_model kind op)
  method_model-IsBuilt request op h = h
  method_model-IsBuilt publish op h = h
  method_model-IsBuilt subscribe op h = h
  method_model-IsBuilt consumer op h = h

module _ {Ty : Type 0} (syn : Syn Ty) (args : ServiceArgs Ty) where
  build_operation-IsTagged :
      (method : Method Ty) (kind : OperationKind) (attr : Attribute Ty) (op : OperationModel Ty)
      → build_operation syn args method kind attr ≡ ok op
      → IsTagged kind op
  unfolding build_operation
  build_operation-IsTagged method kind attr op h = ground arith

  build_method-IsBuilt :
      (method : Method Ty) (attrs : List (OperationKind × Attribute Ty)) (model : MethodModel Ty)
      → build_method syn args method attrs ≡ ok model
      → IsBuilt model
  build_method-IsBuilt method [] model h = subst IsBuilt (ok-injective h) tt
  build_method-IsBuilt method ((kind, attr) ∷ []) model h =
      let (op, made, e) = bind-ok (build_operation syn args method kind attr) _ model h in
      subst IsBuilt (ok-injective e)
        (method_model-IsBuilt kind op (build_operation-IsTagged method kind attr op made))
  build_method-IsBuilt method (first ∷ second ∷ attrs) model h = absurd (ground arith)

  build_methods-IsBuilt :
      (functions : List (Method Ty)) (models : List (MethodModel Ty))
      → build_methods syn args functions ≡ ok models
      → All IsBuilt models
  unfolding build_methods
  build_methods-IsBuilt [] models h = subst (All IsBuilt) (ok-injective h) tt
  build_methods-IsBuilt (method ∷ functions) models h =
      let (model, made, h1) =
        bind-ok (build_method syn args method (operation_attrs method.attrs)) _ models h in
      let (others, rest, h2) = bind-ok (build_methods syn args functions) _ models h1 in
      subst (All IsBuilt) (ok-injective h2) (
        build_method-IsBuilt method (operation_attrs method.attrs) model made,
        build_methods-IsBuilt functions others rest,
      )

  pub build_model-IsBuilt :
      (item_impl : ItemImpl Ty) (model : ServiceModel Ty)
      → build_model syn args item_impl ≡ ok model
      → (model.args ≡ args) × All IsBuilt model.methods
  unfolding build_model
  build_model-IsBuilt item_impl model h =
      (ground arith, ground (arith, build_methods-IsBuilt item_impl.functions model.methods))

module _ {Ty : Type 0} (syn : Syn Ty) (name version : Str) where
  abbrev specs : List (OperationModel Ty) → List OperationSpec
  specs ops = map (λ op. operation_spec syn op name version) (served ops)

  abbrev consumer_specs : List (OperationModel Ty) → List ConsumerSpec
  consumer_specs ops = map (λ op. consumer_spec syn op name version) (consumed ops)

  -- The index of an operation, counted from those before, is its place in its list.
  abbrev IsPlaced : ℕ → ℕ → List (OperationModel Ty) → OperationModel Ty → Type 0
  IsPlaced operations consumers ops op =
      (is_consumer op.kind ≡ false
        → (place : ℕ) × (op.operation_index ≡ some (operations + place))
          × (get_elem? (specs ops) place ≡ some (operation_spec syn op name version)))
      × (is_consumer op.kind ≡ true
          → (place : ℕ) × (op.consumer_index ≡ some (consumers + place))
            × (get_elem? (consumer_specs ops) place ≡ some (consumer_spec syn op name version)))

  IsPlaced-later_served :
      (n m : ℕ) (first : OperationModel Ty) (ops : List (OperationModel Ty))
      (op : OperationModel Ty)
      → is_consumer first.kind ≡ false
      → IsPlaced (suc n) m ops op
      → IsPlaced n m (first ∷ ops) op
  unfolding served consumed
  IsPlaced-later_served n m first ops op serves (a, b) = (
    λ s. let (place, e, f) = a s in (suc place, ground arith, rw serves f),
    λ c. let (place, e, f) = b c in (place, e, rw serves f),
  )

  IsPlaced-later_consumed :
      (n m : ℕ) (first : OperationModel Ty) (ops : List (OperationModel Ty))
      (op : OperationModel Ty)
      → is_consumer first.kind ≡ true
      → IsPlaced n (suc m) ops op
      → IsPlaced n m (first ∷ ops) op
  unfolding served consumed
  IsPlaced-later_consumed n m first ops op consumes (a, b) = (
    λ s. let (place, e, f) = a s in (place, e, rw consumes f),
    λ c. let (place, e, f) = b c in (suc place, ground arith, rw consumes f),
  )

  IsPlaced-first_served :
      (n m : ℕ) (op : OperationModel Ty) (ops : List (OperationModel Ty))
      → is_consumer op.kind ≡ false
      → op.operation_index ≡ some n
      → IsPlaced n m (op ∷ ops) op
  unfolding served consumed
  IsPlaced-first_served n m op ops serves e = (λ s. (0, ground arith, rw serves refl), λ c. cc)

  IsPlaced-first_consumed :
      (n m : ℕ) (op : OperationModel Ty) (ops : List (OperationModel Ty))
      → is_consumer op.kind ≡ true
      → op.consumer_index ≡ some m
      → IsPlaced n m (op ∷ ops) op
  unfolding served consumed
  IsPlaced-first_consumed n m op ops consumes e =
      (λ s. cc, λ c. (0, ground arith, rw consumes refl))

  assigned_served :
      (n m : ℕ) (op : OperationModel Ty) (ops : List (OperationModel Ty))
      → is_consumer op.kind ≡ false
      → op.operation_index ≡ some n
      → All (IsPlaced (suc n) m ops) ops
      → All (IsPlaced n m (op ∷ ops)) (op ∷ ops)
  assigned_served n m op ops serves e h = (
    IsPlaced-first_served n m op ops serves e,
    All-mono ops (λ o. IsPlaced-later_served n m op ops o serves) h,
  )

  assign_indexes-IsPlaced :
      (n m : ℕ) (methods : List (MethodModel Ty))
      → All IsBuilt methods
      → All
          (IsPlaced n m (operations_of (assign_indexes n m methods)))
          (operations_of (assign_indexes n m methods))
  unfolding assign_indexes operations_of
  assign_indexes-IsPlaced n m [] h = tt
  assign_indexes-IsPlaced n m (MethodModel.request op ∷ methods) (kind, h) =
      assigned_served n m (record op { operation_index = some n })
        (operations_of (assign_indexes (suc n) m methods)) (rw kind refl) refl
        (assign_indexes-IsPlaced (suc n) m methods h)
  assign_indexes-IsPlaced n m (MethodModel.publish op ∷ methods) (kind, h) =
      assigned_served n m (record op { operation_index = some n })
        (operations_of (assign_indexes (suc n) m methods)) (rw kind refl) refl
        (assign_indexes-IsPlaced (suc n) m methods h)
  assign_indexes-IsPlaced n m (MethodModel.subscribe op ∷ methods) (kind, h) =
      assigned_served n m (record op { operation_index = some n })
        (operations_of (assign_indexes (suc n) m methods)) (rw kind refl) refl
        (assign_indexes-IsPlaced (suc n) m methods h)
  assign_indexes-IsPlaced n m (MethodModel.consumer op ∷ methods) (kind, h) =
      let indexed : OperationModel Ty = record op { consumer_index = some m } in
      let ops = operations_of (assign_indexes n (suc m) methods) in
      let consumes : is_consumer op.kind ≡ true = rw kind refl in
      (
        IsPlaced-first_consumed n m indexed ops consumes refl,
        All-mono ops (λ o. IsPlaced-later_consumed n m indexed ops o consumes)
            (assign_indexes-IsPlaced n (suc m) methods h),
      )
  assign_indexes-IsPlaced n m (ordinary method ∷ methods) (u, h) =
      assign_indexes-IsPlaced n m methods h

-- The model after `assign_indexes`.
abbrev pub indexed_model : {Ty : Type 0} → ServiceModel Ty → ServiceModel Ty
indexed_model model = record model { methods = assign_indexes 0 0 model.methods }

module _ {Ty : Type 0} (syn : Syn Ty) where
  abbrev pub IsMarked : ServiceSpec → Str → Str → OperationModel Ty → Type 0
  IsMarked spec name version op =
      (is_consumer op.kind ≡ false
        → (index : ℕ) × (op.operation_index ≡ some index)
          × (get_elem? spec.operations index ≡ some (operation_spec syn op name version)))
      × (is_consumer op.kind ≡ true
          → (index : ℕ) × (op.consumer_index ≡ some index)
            × (get_elem? spec.consumers index ≡ some (consumer_spec syn op name version)))

  IsMarked-of_placed :
      (name version : Str) (ops : List (OperationModel Ty)) (op : OperationModel Ty)
      → IsPlaced syn name version 0 0 ops op
      → (spec : ServiceSpec) → spec.operations ≡ specs syn name version ops
      → spec.consumers ≡ consumer_specs syn name version ops
      → IsMarked spec name version op
  IsMarked-of_placed name version ops op (a, b) spec e f = (
    λ s. let (place, at, got) = a s in (place, ground arith, rw e got),
    λ c. let (place, at, got) = b c in (place, ground arith, rw f got),
  )

  -- Every operation of a service that is built has an index, and at that index of the
  -- specification's operations, or of its consumers if it is one, stands its own specification: so
  -- a marker, which is an index, names the operation that it is generated for.
  pub assign_indexes-IsMarked :
      (args : ServiceArgs Ty) (item_impl : ItemImpl Ty) (model : ServiceModel Ty)
      → build_model syn args item_impl ≡ ok model
      → All
          (IsMarked (service_spec syn (indexed_model model)) args.name args.version)
          (operations_of (indexed_model model).methods)
  unfolding service_spec
  assign_indexes-IsMarked args item_impl model h =
      let (same, built) = build_model-IsBuilt syn args item_impl model h in
      let ops = operations_of (assign_indexes 0 0 model.methods) in
      All-mono ops
        (λ op placed.
          IsMarked-of_placed args.name args.version ops op placed
            (service_spec syn (indexed_model model)) (rw same refl) (rw same refl))
        (assign_indexes-IsPlaced syn args.name args.version 0 0 model.methods built)
