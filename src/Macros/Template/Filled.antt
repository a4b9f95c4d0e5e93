-- ===== src/Macros/Template/Filled.antt =====
-- The segments of a template with the client's arguments put in.
use nats_micro.Macros.Template.Parsed.{display, push-display, Parsed, stop, name, text}
use mathlib.Core.List.{append-nil, append_assoc}
use nats_micro.Prelude.{
  ℕ, suc, ◌-◌, ◌≤◌, ◌≡◌, refl, ap, ◌∙◌, sym, true, false, List, [], ◌∷◌, ◌++◌, map, Option, none,
  some, Str, str_eq_iff, All, All-mono, is_empty, get_elem?, arith, Option-cases, ◌==◌, inl, inr,
}
use nats_micro.Subject.{dot, split, segment, subject_matches, full_wildcard, token_wildcard}
use nats_micro.Subject.Splitting.{join}
use nats_micro.Subject.Joining.{HasNoDot, split-join}
use nats_micro.Subject.Matching.{Matches, end, token, subject_matches_iff}
use nats_micro.Subject.Matching
use nats_micro.Subject.Params.{Pieces}
use nats_micro.Macros.Template.{
  OperationKind, SubjectModel, is_called, braced, write_segment, write_segments, client_subject,
}

module _ (args : Str → Pieces) where
  abbrev or_display : Str → Option Str → Str
  or_display segment none = segment
  or_display segment (some key) = display (args key)

  -- What a segment becomes in the subject.
  abbrev pub filled : Str → Str
  filled segment = or_display segment (braced segment)

  abbrev dotted : List Str → Str
  dotted [] = []
  dotted (w ∷ ws) = dot ∷ (w ++ dotted ws)

  join-dotted : (w : Str) (ws : List Str) → join (w ∷ ws) ≡ w ++ dotted ws
  join-dotted w [] = sym (append-nil w)
  join-dotted w (v ∷ ws) = ap (λ s. w ++ dot ∷ s) (join-dotted v ws)

  write_segment_lem :
      (subject segment : Str) → write_segment args subject segment ≡ subject ++ filled segment
  unfolding write_segment
  write_segment_lem subject segment = elim (Option-cases (braced segment)) [
    | inl plain ↦ rw plain refl
    | inr (key, e) ↦ rw e (push-display (args key) subject)
  ]

  write_segments_lem :
      (index : ℕ) (subject : Str) (segments : List Str)
      → write_segments args (suc index) subject segments ≡ subject ++ dotted (map filled segments)
  unfolding write_segments
  write_segments_lem index subject [] = sym (append-nil subject)
  write_segments_lem index subject (segment ∷ segments) =
      let later : (suc index == 0) ≡ false = ground arith in
      rw later (
        write_segments_lem (suc index) (write_segment args (subject ++ dot ∷ []) segment) segments
        ∙ rw (write_segment_lem (subject ++ dot ∷ []) segment) (
            append_assoc (subject ++ dot ∷ []) (filled segment) (dotted (map filled segments))
            ∙ append_assoc subject (dot ∷ []) (filled segment ++ dotted (map filled segments))))

  -- The client's statements write the segments, filled, with dots between them.
  pub write_segments-join :
      (segment : Str) (segments : List Str)
      → write_segments args 0 [] (segment ∷ segments) ≡ join (map filled (segment ∷ segments))
  unfolding write_segments
  write_segments-join segment segments =
      write_segments_lem 0 (write_segment args [] segment) segments
      ∙ rw (write_segment_lem [] segment) (sym (join-dotted (filled segment) (map filled segments)))

module _ (args : Str → Pieces) (kind : OperationKind) where
  pub Parsed-Matches :
      {index : ℕ} {segments pattern : List Str} {places : List (Str × ℕ)}
      → is_called kind ≡ true
      → Parsed kind index segments pattern places
      → Matches pattern (map (filled args) segments)
  Parsed-Matches called stop = end
  Parsed-Matches called (name segment key {segments} e parsed) =
      token token_wildcard (filled args segment) refl (Parsed-Matches called parsed)
  Parsed-Matches called (text segment {segments} {pattern} plain free parsed) =
      Matching.literal segment (filled args segment)
        (λ full. ground (arith, free called, str_eq_iff segment full_wildcard)) (rw plain refl)
        (Parsed-Matches called parsed)

  pub Parsed-HasNoDot :
      {index : ℕ} {segments pattern : List Str} {places : List (Str × ℕ)}
      → Parsed kind index segments pattern places
      → All HasNoDot segments
      → All (λ (p : Str × ℕ). HasNoDot (display (args p.0))) places
      → All HasNoDot (map (filled args) segments)
  Parsed-HasNoDot stop free given = tt
  Parsed-HasNoDot (name segment key e parsed) free given =
      (rw e given.0, Parsed-HasNoDot parsed free.1 given.1)
  Parsed-HasNoDot (text segment plain called parsed) free given =
      (rw plain free.0, Parsed-HasNoDot parsed free.1 given)

  -- Each placeholder is noted with the place of its segment.
  abbrev pub Holds : ℕ → List Str → Str × ℕ → Type 0
  Holds index segments place =
      (index ≤ place.1)
      × (get_elem? (map (filled args) segments) (place.1 - index) ≡ some (display (args place.0)))

  Holds-later :
      (index : ℕ) (segment : Str) (segments : List Str) (place : Str × ℕ)
      → Holds (suc index) segments place
      → Holds index (segment ∷ segments) place
  Holds-later index segment segments place h =
      let next : place.1 - index ≡ suc (place.1 - suc index) = omega (arith, h.0) in
      (omega (arith, h.0), rw next h.1)

  pub Parsed-Holds :
      {index : ℕ} {segments pattern : List Str} {places : List (Str × ℕ)}
      → Parsed kind index segments pattern places
      → All (Holds index segments) places
  Parsed-Holds stop = tt
  Parsed-Holds {index} (name segment key {segments} {pattern} {places} e parsed) =
      let here : index - index ≡ 0 = omega arith in
      (
        (omega arith, rw (here, e) refl),
        All-mono places (Holds-later index segment segments) (Parsed-Holds parsed),
      )
  Parsed-Holds {index} (text segment {segments} {pattern} {places} plain called parsed) =
      All-mono places (Holds-later index segment segments) (Parsed-Holds parsed)

  pub Parsed-plain :
      {index : ℕ} {segments pattern : List Str} {places : List (Str × ℕ)}
      → Parsed kind index segments pattern places
      → is_empty places ≡ true
      → pattern ≡ map (filled args) segments
  Parsed-plain stop none_noted = refl
  Parsed-plain (name segment key e parsed) none_noted = cc
  Parsed-plain (text segment plain called parsed) none_noted =
      rw plain (ap (◌∷◌ segment) (Parsed-plain parsed none_noted))

module _ (kind : OperationKind) where
  Parsed-pattern :
      {index : ℕ} {segments pattern : List Str} {places : List (Str × ℕ)}
      → Parsed kind index segments pattern places
      → All HasNoDot segments
      → All HasNoDot pattern
  Parsed-pattern stop free = tt
  Parsed-pattern (name segment key e parsed) free = (refl, Parsed-pattern parsed free.1)
  Parsed-pattern (text segment plain called parsed) free = (free.0, Parsed-pattern parsed free.1)

  pub Parsed-split :
      {index : ℕ} {first : Str} {segments pattern : List Str} {places : List (Str × ℕ)}
      → Parsed kind index (first ∷ segments) pattern places
      → All HasNoDot (first ∷ segments)
      → split (join pattern) ≡ pattern
  Parsed-split (name segment key {segments} {pattern} e parsed) free =
      split-join token_wildcard pattern (refl, Parsed-pattern parsed free.1)
  Parsed-split (text segment {segments} {pattern} plain called parsed) free =
      split-join segment pattern (free.0, Parsed-pattern parsed free.1)

-- What the client's subject promises of the template that it was built from.
abbrev pub IsRouted : (Str → Pieces) → SubjectModel → Type 0
IsRouted args model =
    (subject_matches model.pattern (client_subject args model) ≡ true)
    × All (λ (p : Str × ℕ). segment (client_subject args model) p.1 ≡ some (display (args p.0)))
        model.placeholders
