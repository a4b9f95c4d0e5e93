-- ===== src/Macros/Template/Parsed.antt =====
-- What the parts of a subject template are, once it has been parsed.
use mathlib.Core.List.{append-nil, append_assoc}
use nats_micro.Prelude.{
  ℕ, suc, ◌-◌, ◌≡◌, refl, ap, ◌∙◌, sym, Bool, true, false, List, [], ◌∷◌, ◌++◌, none, some, Str,
  length, take, arith, ok, bind-ok, if◌then◌else◌, ok-injective,
}
use nats_micro.Subject.{segment, token_wildcard}
use nats_micro.Subject.Params.{Pieces, push_subject_param}
use nats_micro.Macros.Template.{
  OperationKind, Part, placeholder, literal, starts_with, ends_with, open_brace, close_brace,
  inside, is_called, is_wildcard, parse_segment, parse_segments, strip_suffix, braced, pattern_of,
  noted,
}

abbrev pub display : Pieces → Str
display value = push_subject_param [] value

pub push-display : (value : Pieces) (s : Str) → push_subject_param s value ≡ s ++ display value
unfolding push_subject_param
push-display [] s = rw append-nil
push-display (v ∷ value) s =
    push-display value (s ++ v)
    ∙ append_assoc s v (display value)
    ∙ ap (◌++◌ s) (sym (push-display value v))

strip_suffix_lem :
    (s : Str)
    → strip_suffix s ≡ (if ends_with close_brace s then some (take (length s - 1) s) else none)
strip_suffix_lem [] = refl
strip_suffix_lem (b ∷ []) = ground arith
strip_suffix_lem (b ∷ d ∷ s) = ground (arith, strip_suffix_lem (d ∷ s))

-- What a parsed segment says of the segment as the client reads it.
abbrev Reads : OperationKind → Str → Part → Type 0
Reads kind segment (placeholder name) = braced segment ≡ some name
Reads kind segment (literal text) =
    (braced segment ≡ none)
    × (text ≡ segment)
    × (is_called kind ≡ true → is_wildcard segment ≡ false)

braced_none : (segment : Str) → starts_with open_brace segment ≡ false → braced segment ≡ none
braced_none [] h = refl
braced_none (b ∷ s) h = ground arith

braced-inside :
    (segment : Str)
    → starts_with open_brace segment ≡ true
    → ends_with close_brace segment ≡ true
    → braced segment ≡ some (inside segment)
braced-inside [] h k = cc
braced-inside (b ∷ []) h k = ground arith
braced-inside (b ∷ d ∷ s) h k = ground (arith, strip_suffix_lem (d ∷ s))

module _ (is_ident : Str → Bool) where
  parse_segment-Reads :
      (kind : OperationKind) (segment : Str) (part : Part)
      → parse_segment is_ident kind segment ≡ ok part
      → Reads kind segment part
  unfolding parse_segment
  parse_segment-Reads kind segment (placeholder name) h = ground (arith, braced-inside segment)
  parse_segment-Reads kind segment (literal text) h = ground (arith, braced_none segment)

-- The segments of a template from the `index`-th on, the segments of its pattern, and the
-- placeholders noted for them.
pub data Parsed (kind : OperationKind) : ℕ → List Str → List Str → List (Str × ℕ) → Type 0 where
  stop : {index : ℕ} → Parsed kind index [] [] []
  name :
      {index : ℕ} (segment key : Str) {segments pattern : List Str} {places : List (Str × ℕ)}
      → braced segment ≡ some key
      → Parsed kind (suc index) segments pattern places
      → Parsed kind index (segment ∷ segments) (token_wildcard ∷ pattern) ((key, index) ∷ places)
  text :
      {index : ℕ} (segment : Str) {segments pattern : List Str} {places : List (Str × ℕ)}
      → braced segment ≡ none
      → (is_called kind ≡ true → is_wildcard segment ≡ false)
      → Parsed kind (suc index) segments pattern places
      → Parsed kind index (segment ∷ segments) (segment ∷ pattern) places

-- The two vectors of the loop grow by what the segments that are left give.
abbrev pub Grows :
    OperationKind → ℕ → List Str → List Str → List (Str × ℕ) → List Str × List (Str × ℕ) → Type 0
Grows kind index segments pattern places result =
    (rest : List Str) × (more : List (Str × ℕ)) × Parsed kind index segments rest more
    × (result.0 ≡ pattern ++ rest)
    × (result.1 ≡ places ++ more)

Grows-part :
    (kind : OperationKind) (index : ℕ) (segment : Str) (segments pattern : List Str)
    (places : List (Str × ℕ)) (part : Part) (result : List Str × List (Str × ℕ))
    → Reads kind segment part
    → Grows kind
        (suc index)
        segments
        (pattern ++ pattern_of part ∷ [])
        (places ++ noted part index)
        result
    → Grows kind index (segment ∷ segments) pattern places result
Grows-part kind index segment segments pattern places (placeholder key) result reads
      (rest, more, parsed, e, f) =
    (
      token_wildcard ∷ rest,
      (key, index) ∷ more,
      name segment key reads parsed,
      e ∙ append_assoc pattern (token_wildcard ∷ []) rest,
      f ∙ append_assoc places ((key, index) ∷ []) more,
    )
Grows-part kind index segment segments pattern places (literal same) result (plain, e', called)
      (rest, more, parsed, e, f) =
    (
      segment ∷ rest,
      more,
      text segment plain called parsed,
      e ∙ rw e' (append_assoc pattern (segment ∷ []) rest),
      f ∙ rw append-nil refl,
    )

module _ (is_ident : Str → Bool) where
  pub parse_segments-Grows :
      (kind : OperationKind) (index : ℕ) (segments pattern : List Str) (places : List (Str × ℕ))
      (result : List Str × List (Str × ℕ))
      → parse_segments is_ident kind index segments pattern places ≡ ok result
      → Grows kind index segments pattern places result
  unfolding parse_segments
  parse_segments-Grows kind index [] pattern places result h =
      let same = ok-injective h in
      (
        [],
        [],
        stop,
        ap (λ r. r.0) (sym same) ∙ sym (append-nil pattern),
        ap (λ r. r.1) (sym same) ∙ sym (append-nil places),
      )
  parse_segments-Grows kind index (segment ∷ segments) pattern places result h =
      let (part, read, rest) = bind-ok (parse_segment is_ident kind segment) _ result h in
      Grows-part kind index segment segments pattern places part result
        (parse_segment-Reads is_ident kind segment part read)
        (parse_segments-Grows kind (suc index) segments (pattern ++ pattern_of part ∷ [])
          (places ++ noted part index) result rest)
