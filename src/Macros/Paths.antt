-- ===== src/Macros/Paths.antt =====
-- nats-micro-macros/src/service/classify.rs: the last segment of a type's path, and its arguments.
use nats_micro.Prelude.{
  Bool, true, false, not, ◌&&◌, List, [], ◌∷◌, Option, none, some, Str, str_eq, ◌==◌, if◌then◌else◌,
}
use nats_micro.Macros.Model.{
  Argument, type_argument, other_argument, Arguments, no_arguments, angle_bracketed, parenthesized,
  PathSegment, Shape, path_type, reference_type, tuple_type, unsupported, other_type,
}

abbrev pub is_named : Option Str → Str → Bool
is_named none name = false
is_named (some ident) name = str_eq ident name

module _ {Ty : Type 0} where
  abbrev pub last_segment : List (PathSegment Ty) → Option (PathSegment Ty)
  last_segment [] = none
  last_segment (segment ∷ []) = some segment
  last_segment (segment ∷ next ∷ segments) = last_segment (next ∷ segments)

  abbrev pub segments_of : Shape Ty → List (PathSegment Ty)
  segments_of (path_type qself leading_colon segments) = segments
  segments_of (reference_type lifetime mutability elem) = []
  segments_of (tuple_type elems) = []
  segments_of unsupported = []
  segments_of other_type = []

  abbrev pub type_arguments : List (Argument Ty) → List Ty
  type_arguments [] = []
  type_arguments (type_argument ty ∷ arguments) = ty ∷ type_arguments arguments
  type_arguments (other_argument ∷ arguments) = type_arguments arguments

  abbrev pub bracketed_types : Arguments Ty → List Ty
  bracketed_types no_arguments = []
  bracketed_types (angle_bracketed arguments) = type_arguments arguments
  bracketed_types parenthesized = []

  abbrev pub first : List Ty → Option Ty
  first [] = none
  first (ty ∷ tys) = some ty

  abbrev pub first_two : List Ty → Option (Ty × Ty)
  first_two [] = none
  first_two (ty ∷ []) = none
  first_two (ty ∷ next ∷ tys) = some (ty, next)

  abbrev pub has_no_arguments : Arguments Ty → Bool
  has_no_arguments no_arguments = true
  has_no_arguments (angle_bracketed arguments) = false
  has_no_arguments parenthesized = false

  abbrev pub is_one_ident : List (PathSegment Ty) → Str → Bool
  is_one_ident [] name = false
  is_one_ident (segment ∷ []) name = has_no_arguments segment.arguments && str_eq segment.ident name
  is_one_ident (segment ∷ next ∷ segments) name = false

  -- `path.is_ident(name)`, of syn
  abbrev pub path_is_ident : Shape Ty → Str → Bool
  path_is_ident (path_type qself leading_colon segments) name =
      not leading_colon && is_one_ident segments name
  path_is_ident (reference_type lifetime mutability elem) name = false
  path_is_ident (tuple_type elems) name = false
  path_is_ident unsupported name = false
  path_is_ident other_type name = false

  abbrev pub ident_of : Option (PathSegment Ty) → Option Str
  ident_of none = none
  ident_of (some segment) = some segment.ident

  abbrev pub types_of : Option (PathSegment Ty) → List Ty
  types_of none = []
  types_of (some segment) = bracketed_types segment.arguments

-- `value.replace(' ', "")`
abbrev pub without_spaces : Str → Str
without_spaces [] = []
without_spaces (b ∷ s) = if b == b' ' then without_spaces s else b ∷ without_spaces s
