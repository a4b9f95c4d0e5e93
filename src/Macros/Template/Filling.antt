-- ===== src/Macros/Template/Filling.antt =====
-- A subject template beside the subjects that its client builds: what the placeholders become.
use nats_micro.Macros.Template.Filled.{
  filled, write_segments-join, Parsed-Matches, Parsed-HasNoDot, Holds, Parsed-Holds, Parsed-plain,
  Parsed-split, IsRouted,
}
use nats_micro.Macros.Template.Parsed.{display, Parsed, Grows, parse_segments-Grows}
use nats_micro.Prelude.{
  subst, ℕ, ◌-◌, ◌≡◌, refl, ap, ◌∙◌, Bool, true, List, [], ◌∷◌, map, some, Str, All, All-mono,
  is_empty, get_elem?, arith, ok, bind-ok, Bool-cases, inl, inr, ok-injective,
}
use nats_micro.Subject.{split}
use nats_micro.Subject.Splitting.{join, split-ne-nil}
use nats_micro.Subject.Joining.{HasNoDot, split-HasNoDot, split-join}
use nats_micro.Subject.Segments.{segment-split}
use nats_micro.Subject.Words.{is_placed}
use nats_micro.Subject.Matching.{Matches, end, token, subject_matches_iff}
use nats_micro.Subject.Matching
use nats_micro.Subject.Params.{Pieces}
use nats_micro.Macros.Template.{
  OperationKind, SubjectModel, is_called, parse_segments, parse_subject_template, client_subject,
  noted,
}

-- The text of an argument.
module _ (args : Str → Pieces) (kind : OperationKind) (template : Str)
    (called : is_called kind ≡ true) where
  abbrev model_of : List Str → List (Str × ℕ) → SubjectModel
  model_of pattern places = record {
    template = template;
    pattern = join pattern;
    placeholders = places;
  }

  at_place :
      (first : Str) (segments : List Str) (p : Str × ℕ)
      → Holds args kind 0 (first ∷ segments) p
      → get_elem? (map (filled args) (first ∷ segments)) p.1 ≡ some (display (args p.0))
  at_place first segments p h =
      let same : p.1 - 0 ≡ p.1 = omega arith in
      subst (λ i. get_elem? (map (filled args) (first ∷ segments)) i ≡ some (display (args p.0)))
        same h.1

  client_subject-join :
      (first : Str) (segments pattern : List Str) (places : List (Str × ℕ))
      → split template ≡ first ∷ segments
      → Parsed kind 0 (first ∷ segments) pattern places
      → client_subject args (model_of pattern places) ≡ join (map (filled args) (first ∷ segments))
  unfolding client_subject
  client_subject-join first segments pattern [] e parsed =
      ap join (Parsed-plain args kind parsed refl)
  client_subject-join first segments pattern (place ∷ places) e parsed =
      rw e (write_segments-join args first segments)

  model_of-IsRouted :
      (first : Str) (segments pattern : List Str) (places : List (Str × ℕ))
      → split template ≡ first ∷ segments
      → Parsed kind 0 (first ∷ segments) pattern places
      → All (λ (p : Str × ℕ). HasNoDot (display (args p.0))) places
      → is_placed 0 (client_subject args (model_of pattern places)) ≡ true
      → IsRouted args (model_of pattern places)
  model_of-IsRouted first segments pattern places e parsed given placed =
      let subject = client_subject args (model_of pattern places) in
      let free : All HasNoDot (first ∷ segments) =
        subst (All HasNoDot) e (split-HasNoDot template) in
      let parts : split subject ≡ map (filled args) (first ∷ segments) =
        ap split (client_subject-join first segments pattern places e parsed)
        ∙ split-join (filled args first) (map (filled args) segments)
            (Parsed-HasNoDot args kind parsed free given) in
      (
        (subject_matches_iff (join pattern) subject).1
            (rw (Parsed-split kind parsed free, parts) (Parsed-Matches args kind called parsed)),
        All-mono places
            (λ p h. segment-split subject p.1 placed ∙ rw parts (at_place first segments p h))
            (Parsed-Holds args kind parsed),
      )

  parsed-IsRouted :
      (segments : List Str) (result : List Str × List (Str × ℕ))
      → split template ≡ segments
      → Grows kind 0 segments [] [] result
      → All (λ (p : Str × ℕ). HasNoDot (display (args p.0))) result.1
      → is_placed 0 (client_subject args (model_of result.0 result.1)) ≡ true
      → IsRouted args (model_of result.0 result.1)
  parsed-IsRouted [] result e grows given placed = absurd (split-ne-nil template e)
  parsed-IsRouted (first ∷ segments) result e (rest, more, parsed, same, noted) given placed =
      model_of-IsRouted first segments result.0 result.1 e (rw (same, noted) parsed) given placed

  empty-IsRouted : IsRouted args (record { template = []; pattern = []; placeholders = [] })
  unfolding client_subject split
  empty-IsRouted =
      ((subject_matches_iff [] []).1 (Matching.literal [] [] (ground arith) refl end), tt)

  -- For the template of a request or publish operation: the subject that the client builds matches
  -- the pattern that the service listens on, and at each placeholder's segment the service reads
  -- the argument that the client passed. It needs that no argument contains a dot, and a subject
  -- whose continuation bytes neither come first nor follow an ASCII byte.
  pub client_subject-IsRouted :
      (is_ident : Str → Bool) (model : SubjectModel)
      → parse_subject_template is_ident kind template ≡ ok model
      → All (λ (p : Str × ℕ). HasNoDot (display (args p.0))) model.placeholders
      → is_placed 0 (client_subject args model) ≡ true
      → IsRouted args model
  unfolding parse_subject_template
  client_subject-IsRouted is_ident model h given placed = elim (Bool-cases (is_empty template)) [
    | inl none_left ↦
        let same = ok-injective (rw none_left at h) in subst (IsRouted args) same empty-IsRouted
    | inr some_left ↦
        let (result, read, made) =
          bind-ok (parse_segments is_ident kind 0 (split template) [] []) _ (model)
            (rw some_left at h) in
        let same = ok-injective made in
        subst (IsRouted args) same (
          parsed-IsRouted (split template) result refl
            (parse_segments-Grows is_ident kind 0 (split template) [] [] result read)
            (rw (← same) at given) (rw (← same) at placed))
  ]
