-- ===== src/Macros/Tests.antt =====
-- A service that the macro expands, with the trees of syn as small texts.
use nats_micro.Subject.{segment, subject_matches}
use nats_micro.Subject.Params.{Pieces}
use nats_micro.Prelude.{
  true, false, List, [], ◌∷◌, none, some, Str, bytes, str_eq, if◌then◌else◌, ◌≡◌, refl, All, Result,
  ok, err, not, is_empty, ℕ,
}
use nats_micro.Macros.Model
use nats_micro.Macros.Model.{
  Syn, Shape, path_type, reference_type, tuple_type, no_arguments, ItemImpl, Method, Attribute,
  FnArg, typed, receiver, OperationOptions, ServiceArgs, ServiceModel, Defaults, no_auth,
  json_codec,
}
use nats_micro.Macros.Parse.{build_model}
use nats_micro.Macros.Validate.{validate_service}
use nats_micro.Macros.Checks.{Features}
use nats_micro.Macros.Metadata.{service_spec, operations_of}
use nats_micro.Macros.Template.{OperationKind, SubjectModel, parse_subject_template, client_subject}
use nats_micro.Macros.Template.Filling.{client_subject-IsRouted}
use nats_micro.Macros.Template.Parsed.{display}
use nats_micro.Macros.Accepted.{validate_service-validate_contract}
use nats_micro.Macros.Indexes.{assign_indexes-IsMarked, IsMarked, indexed_model}
use nats_micro.Macros.Policy.{validate_service-HasPolicy, HasPolicy}
use nats_micro.Contract.{validate_contract, document_of}

-- A type is its text: `()`, a reference to `str`, or one name.
abbrev shape_of : Str → Shape Str
shape_of text =
    if is_empty text
    then tuple_type []
    else if str_eq text (bytes "& str")
    then reference_type none false (bytes "str")
    else path_type false false (record { ident = text; arguments = no_arguments } ∷ [])

abbrev syn : Syn Str
syn = record {
  shape = shape_of;
  text = λ text. text;
  unit = [];
  is_ident = λ text. not (is_empty text);
}

abbrev no_options : OperationOptions Str
no_options = record {
  subject = none;
  queue = none;
  concurrency = none;
  timeout_ms = none;
  auth = none;
  response = none;
  stream = none;
  durable = none;
  filter = none;
  ack_wait_ms = none;
  max_deliver = none;
  backoff_ms = [];
}

abbrev method : Str → Str → OperationOptions Str → List (FnArg Str) → Method Str
method ident path options inputs = record {
  ident = ident;
  is_async = true;
  attrs = record { path = path; options = some options } ∷ [];
  inputs = inputs;
  output = some (bytes "String");
}

-- `#[request(subject = "orders.{id}")] async fn get(id: &str)`, and a consumer.
abbrev get : Method Str
get =
    method (bytes "get") (bytes "request")
      (record no_options { subject = some (bytes "orders.{id}") })
      (typed (some (bytes "id")) (bytes "& str") [] ∷ [])

abbrev placed : Method Str
placed =
    method (bytes "placed") (bytes "consumer")
      (record no_options {
        filter = some (bytes "orders.placed");
        stream = some (bytes "ORDERS");
        durable = some (bytes "worker");
      })
      []

abbrev args : ServiceArgs Str
args = record {
  name = bytes "shop";
  version = bytes "1.0.0";
  description = [];
  prefix = bytes "shop";
  state_type = bytes "State";
  defaults = record {
    concurrency = 4;
    queue = none;
    timeout_ms = none;
    auth = no_auth;
    codec = json_codec;
  };
  napi = false;
}

abbrev item_impl : ItemImpl Str
item_impl = record {
  is_trait = false;
  is_generic = false;
  self_ty = bytes "Shop";
  functions = get ∷ placed ∷ [];
}

abbrev features : Features
features = record { json = true; protobuf = false; encryption = false; napi = false }

abbrev or_none : Result Model.SynError (ServiceModel Str) → ServiceModel Str
or_none (ok model) = model
or_none (err error) = record { args = args; service_ident = []; state_type = []; methods = [] }

built : ServiceModel Str
unfolding build_model
built = or_none (build_model syn args item_impl)

assign_indexes-IsMarked_example :
    All
      (IsMarked syn (service_spec syn (indexed_model built)) args.name args.version)
      (operations_of (indexed_model built).methods)
unfolding built build_model str_eq
assign_indexes-IsMarked_example = assign_indexes-IsMarked syn args item_impl built refl

validate_service-validate_contract_example :
    validate_contract (document_of (service_spec syn built)) ≡ ok tt
unfolding built build_model validate_service nats_micro.Macros.Checks.validate_version str_eq
    nats_micro.Macros.Checks.validate_token nats_micro.Macros.Checks.validate_subject
    nats_micro.Macros.Validate.validate_methods nats_micro.Macros.Validate.validate_operation
    nats_micro.Macros.Validate.check_placeholders nats_micro.Macros.Validate.check_arguments
    nats_micro.Macros.Validate.validate_auth nats_micro.Macros.Validate.validate_response
    nats_micro.Macros.Validate.validate_consumer
validate_service-validate_contract_example =
    validate_service-validate_contract syn features built refl

validate_service-HasPolicy_example :
    All (HasPolicy syn features built) (operations_of built.methods)
unfolding built build_model validate_service nats_micro.Macros.Checks.validate_version str_eq
    nats_micro.Macros.Checks.validate_token nats_micro.Macros.Checks.validate_subject
    nats_micro.Macros.Validate.validate_methods nats_micro.Macros.Validate.validate_operation
    nats_micro.Macros.Validate.check_placeholders nats_micro.Macros.Validate.check_arguments
    nats_micro.Macros.Validate.validate_auth nats_micro.Macros.Validate.validate_response
    nats_micro.Macros.Validate.validate_consumer
validate_service-HasPolicy_example = validate_service-HasPolicy syn features built refl

abbrev template : Str
template = bytes "shop.v1.orders.{id}"

abbrev subject : SubjectModel
subject = record {
  template = template;
  pattern = bytes "shop.v1.orders.*";
  placeholders = (bytes "id", 3) ∷ [];
}

-- The client passes `42`, in two pieces.
abbrev passed : Str → Pieces
passed name = bytes "4" ∷ bytes "2" ∷ []

client_subject-IsRouted_example :
    (subject_matches subject.pattern (client_subject passed subject) ≡ true)
    × All
        (λ (p : Str × ℕ). segment (client_subject passed subject) p.1 ≡ some (display (passed p.0)))
        subject.placeholders
unfolding parse_subject_template client_subject str_eq
client_subject-IsRouted_example =
    client_subject-IsRouted passed OperationKind.request template refl syn.is_ident subject refl
      (refl, tt) refl
