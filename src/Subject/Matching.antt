-- ===== src/Subject/Matching.antt =====
-- `subject_matches` beside a relation between pattern and subject segments.
use nats_micro.Prelude.{
  ℕ, zero, suc, ◌≡◌, refl, ◌≢◌, ◌↔◌, ◌⊎◌, true, List, [], ◌∷◌, some, arith, Str, get_elem?,
  str_eq_iff, All, inl, inr,
}
use nats_micro.Subject.{
  split, full_wildcard, token_wildcard, matches_from, subject_matches, segment,
}
use nats_micro.Subject.Splitting.{split-injective}
use nats_micro.Subject.Segments.{segment-split}
use nats_micro.Subject.Words.{is_placed}

-- The NATS rules: `>` stands last and takes one segment or more, `*` takes exactly one, and any
-- other token takes itself.
pub data Matches : List Str → List Str → Type 0 where
  end : Matches [] []
  tail : (p s : Str) (ss : List Str) → p ≡ full_wildcard → Matches (p ∷ []) (s ∷ ss)
  token :
      (p s : Str) {ps ss : List Str}
      → p ≡ token_wildcard
      → Matches ps ss
      → Matches (p ∷ ps) (s ∷ ss)
  literal :
      (p s : Str) {ps ss : List Str}
      → p ≢ full_wildcard
      → p ≡ s
      → Matches ps ss
      → Matches (p ∷ ps) (s ∷ ss)

wildcards_differ : ◌≢◌ {A = Str} token_wildcard full_wildcard
wildcards_differ = ground arith

matches_from_step :
    (p s : Str) (ps ss : List Str)
    → matches_from (p ∷ ps) (s ∷ ss) ≡ true
    → ((p ≡ full_wildcard) × (ps ≡ []))
      ⊎ ((p ≢ full_wildcard) × ((p ≡ token_wildcard) ⊎ (p ≡ s)) × (matches_from ps ss ≡ true))
unfolding matches_from
matches_from_step p s [] ss h =
    ground (arith, str_eq_iff p full_wildcard, str_eq_iff p token_wildcard, str_eq_iff p s)
matches_from_step p s (q ∷ ps) ss h =
    ground (arith, str_eq_iff p full_wildcard, str_eq_iff p token_wildcard, str_eq_iff p s)

matches_from_sound : (ps ss : List Str) → matches_from ps ss ≡ true → Matches ps ss
unfolding matches_from
matches_from_sound [] [] h = end
matches_from_sound [] (s ∷ ss) h = cc
matches_from_sound (p ∷ ps) [] h = cc
matches_from_sound (p ∷ ps) (s ∷ ss) h = elim (matches_from_step p s ps ss h) [
  | inl (full, last) ↦ rw last (tail p s ss full)
  | inr (other, inl any, rest) ↦ token p s any (matches_from_sound ps ss rest)
  | inr (other, inr same, rest) ↦ literal p s other same (matches_from_sound ps ss rest)
]

matches_from_complete : {ps ss : List Str} → Matches ps ss → matches_from ps ss ≡ true
unfolding matches_from
matches_from_complete end = refl
matches_from_complete (tail p s ss full) = ground (arith, str_eq_iff p full_wildcard)
matches_from_complete (token p s {ps} {ss} any rest) = ground (
  arith,
  str_eq_iff p full_wildcard,
  str_eq_iff p token_wildcard,
  wildcards_differ,
  matches_from_complete rest,
)
matches_from_complete (literal p s {ps} {ss} other same rest) = ground (
  arith,
  str_eq_iff p full_wildcard,
  str_eq_iff p token_wildcard,
  str_eq_iff p s,
  matches_from_complete rest,
)

-- The loop answers `true` exactly for a subject whose segments match the segments of the pattern.
pub subject_matches_iff :
    (pattern subject : Str)
    → (subject_matches pattern subject ≡ true) ↔ Matches (split pattern) (split subject)
unfolding subject_matches
subject_matches_iff pattern subject =
    (matches_from_sound (split pattern) (split subject), matches_from_complete)

abbrev pub IsLiteral : List Str → Type 0
IsLiteral = All (λ p. (p ≢ token_wildcard) × (p ≢ full_wildcard))

Matches-eq : {ps ss : List Str} → Matches ps ss → IsLiteral ps → ps ≡ ss
Matches-eq end l = refl
Matches-eq (tail p s ss full) l = absurd (l.0.1 full)
Matches-eq (token p s any rest) l = absurd (l.0.0 any)
Matches-eq (literal p s other same rest) l = cc (Matches-eq rest l.1)

Matches_self : (ps : List Str) → IsLiteral ps → Matches ps ps
Matches_self [] l = end
Matches_self (p ∷ ps) l = literal p p l.0.1 refl (Matches_self ps l.1)

-- A pattern with no wildcard segment matches itself and nothing else.
pub subject_matches-literal_iff :
    (pattern subject : Str)
    → IsLiteral (split pattern)
    → (subject_matches pattern subject ≡ true) ↔ (pattern ≡ subject)
subject_matches-literal_iff pattern subject l =
    let (to, from) = subject_matches_iff pattern subject in
    (
      λ h. split-injective pattern subject (Matches-eq (to h) l),
      λ e. from (rw (← e) (Matches_self (split pattern) l)),
    )

Matches-get :
    {ps ss : List Str}
    → Matches ps ss
    → (n : ℕ) (w : Str) → get_elem? ps n ≡ some w
    → w ≢ token_wildcard
    → w ≢ full_wildcard
    → get_elem? ss n ≡ some w
Matches-get end n w e h k = cc
Matches-get (tail p s ss full) zero w e h k = ground arith
Matches-get (tail p s ss full) (suc n) w e h k = cc
Matches-get (token p s any rest) zero w e h k = ground arith
Matches-get (token p s any rest) (suc n) w e h k = Matches-get rest n w e h k
Matches-get (literal p s other same rest) zero w e h k = ground arith
Matches-get (literal p s other same rest) (suc n) w e h k = Matches-get rest n w e h k

-- In a subject that matches, every segment at which the pattern has a literal is that literal, as
-- `segment` reads both.
pub segment-subject_matches :
    (pattern subject w : Str) (n : ℕ)
    → is_placed 0 pattern ≡ true
    → is_placed 0 subject ≡ true
    → subject_matches pattern subject ≡ true
    → segment pattern n ≡ some w
    → w ≢ token_wildcard
    → w ≢ full_wildcard
    → segment subject n ≡ some w
segment-subject_matches pattern subject w n p s m at h k = rw (segment-split subject n s) (
    Matches-get ((subject_matches_iff pattern subject).0 m) n w
      (rw (segment-split pattern n p) at at) h k)
