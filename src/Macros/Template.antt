-- ===== src/Macros/Template.antt =====
-- nats-micro-macros/src/service/parse.rs: subject templates, and the subject that the client which
-- client.rs generates builds from one. `is_ident` says whether syn parses a text as an `Ident`.
pub mod Filled
pub mod Filling
pub mod Parsed
use nats_micro.Prelude.{
  ℕ, suc, ◌-◌, Bool, true, false, not, ◌&&◌, ◌||◌, List, [], ◌∷◌, ◌++◌, Option, none, some, Str,
  bytes, str_eq, any, take, drop, length, is_empty, ◌==◌, if◌then◌else◌, Result, ok, err, ◌>>=◌,
}
use nats_micro.Subject.{dot, split, full_wildcard, token_wildcard}
use nats_micro.Subject.Splitting.{join}
use nats_micro.Subject.Params.{Pieces, push_subject_param}

pub data OperationKind : Type 0 where
  request publish subscribe consumer : OperationKind

pub record SubjectModel : Type 0 where
  pub template : Str
  pub pattern : Str
  pub placeholders : List (Str × ℕ)

-- Of an error the text it names is kept.
pub data TemplateError : Type 0 where
  empty_segment : TemplateError
  invalid_segment : Str → TemplateError
  invalid_placeholder : Str → TemplateError
  raw_wildcard : TemplateError

abbrev pub open_brace : ℕ
open_brace = b'{'

abbrev pub close_brace : ℕ
close_brace = b'}'

abbrev pub starts_with : ℕ → Str → Bool
starts_with c [] = false
starts_with c (b ∷ s) = b == c

abbrev pub ends_with : ℕ → Str → Bool
ends_with c [] = false
ends_with c (b ∷ []) = b == c
ends_with c (b ∷ d ∷ s) = ends_with c (d ∷ s)

abbrev pub is_wildcard : Str → Bool
is_wildcard segment = str_eq segment token_wildcard || str_eq segment full_wildcard

-- `matches!(kind, OperationKind::Request | OperationKind::Publish)`
abbrev pub is_called : OperationKind → Bool
is_called request = true
is_called publish = true
is_called subscribe = false
is_called consumer = false

abbrev pub is_consumer : OperationKind → Bool
is_consumer request = false
is_consumer publish = false
is_consumer subscribe = false
is_consumer consumer = true

-- What a round of the loop pushes: a placeholder's name, or the segment itself.
pub data Part : Type 0 where
  placeholder : Str → Part
  literal : Str → Part

-- `&segment[1..segment.len() - 1]`
abbrev pub inside : Str → Str
inside segment = take (length segment - 2) (drop 1 segment)

abbrev pub pattern_of : Part → Str
pattern_of (placeholder name) = token_wildcard
pattern_of (literal segment) = segment

abbrev pub noted : Part → ℕ → List (Str × ℕ)
noted (placeholder name) index = (name, index) ∷ []
noted (literal segment) index = []

module _ (is_ident : Str → Bool) where
  unfoldable pub parse_placeholder : Str → Result TemplateError Part
  parse_placeholder segment =
      if not (starts_with open_brace segment) || not (ends_with close_brace segment)
      then err (invalid_segment segment)
      else if is_ident (inside segment)
      then ok (placeholder (inside segment))
      else err (invalid_placeholder (inside segment))

  unfoldable pub parse_literal : OperationKind → Str → Result TemplateError Part
  parse_literal kind segment =
      if any (λ b. b == open_brace || b == close_brace) segment
      then err (invalid_segment segment)
      else if is_called kind && is_wildcard segment
      then err raw_wildcard
      else ok (literal segment)

  unfoldable pub parse_segment : OperationKind → Str → Result TemplateError Part
  unfolding parse_placeholder parse_literal
  parse_segment kind segment =
      if is_empty segment
      then err empty_segment
      else if starts_with open_brace segment || ends_with close_brace segment
      then parse_placeholder segment
      else parse_literal kind segment

  -- The loop over the segments that are left, with its two vectors.
  unfoldable pub parse_segments :
      OperationKind
      → ℕ
      → List Str
      → List Str
      → List (Str × ℕ)
      → Result TemplateError (List Str × List (Str × ℕ))
  unfolding parse_segment
  parse_segments kind index [] pattern placeholders = ok (pattern, placeholders)
  parse_segments kind index (segment ∷ segments) pattern placeholders = do
    part ← parse_segment kind segment
    parse_segments kind (suc index) segments (pattern ++ pattern_of part ∷ [])
        (placeholders ++ noted part index)

  unfoldable pub parse_subject_template : OperationKind → Str → Result TemplateError SubjectModel
  unfolding parse_segments split
  parse_subject_template kind template =
      if is_empty template
      then ok (record { template = []; pattern = []; placeholders = [] })
      else do
        (pattern, placeholders) ← parse_segments kind 0 (split template) [] []
        ok (record { template = template; pattern = join pattern; placeholders = placeholders })

-- `value.strip_suffix('}')`
abbrev pub strip_suffix : Str → Option Str
strip_suffix [] = none
strip_suffix (b ∷ []) = if b == close_brace then some [] else none
strip_suffix (b ∷ d ∷ s) = elim (strip_suffix (d ∷ s)) [ none ↦ none | some t ↦ some (b ∷ t) ]

-- `segment.strip_prefix('{').and_then(|value| value.strip_suffix('}'))`
abbrev pub braced : Str → Option Str
braced [] = none
braced (b ∷ s) = if b == open_brace then strip_suffix s else none

-- `args` gives the argument that bears a placeholder's name, as it is displayed.
module _ (args : Str → Pieces) where
  abbrev pub write_part : Str → Str → Option Str → Str
  write_part subject segment none = subject ++ segment
  write_part subject segment (some name) = push_subject_param subject (args name)

  unfoldable pub write_segment : Str → Str → Str
  unfolding push_subject_param
  write_segment subject segment = write_part subject segment (braced segment)

  -- The statements that the client runs, one or two for each segment.
  unfoldable pub write_segments : ℕ → Str → List Str → Str
  unfolding write_segment
  write_segments index subject [] = subject
  write_segments index subject (segment ∷ segments) =
      write_segments (suc index)
        (write_segment (if index == 0 then subject else subject ++ dot ∷ []) segment) segments

  unfoldable pub client_subject : SubjectModel → Str
  unfolding write_segments split
  client_subject model =
      if is_empty model.placeholders
      then model.pattern
      else write_segments 0 [] (split model.template)
