-- ===== src/Contract/Semver.antt =====
-- `valid_semver` beside the grammar of versions.
use mathlib.Core.List.{append-nil, append_assoc}
use nats_micro.Prelude.{
  ◌≤◌, ◌≡◌, refl, ap, sym, ◌∙◌, ◌≢◌, ◌↔◌, ◌⊎◌, inl, inr, true, List, [], ◌∷◌, ◌++◌, Str, all, All,
  arith, Bool-cases,
}
use nats_micro.Subject.{dot, split}
use nats_micro.Subject.Splitting.{join, join-split}
use nats_micro.Subject.Joining.{HasNoDot, split-join}
use nats_micro.Contract.{
  is_ascii_digit, is_number, opens_suffix, core_of, are_three_numbers, valid_semver,
}

-- One ASCII digit or more.
abbrev pub IsNumber : Str → Type 0
IsNumber part = (part ≢ []) × All (λ b. (48 ≤ b) × (b ≤ 57)) part

-- Nothing, or a pre-release or build part.
abbrev pub IsSuffix : Str → Type 0
IsSuffix [] = Unit
IsSuffix (b ∷ s) = (b ≡ b'-') ⊎ (b ≡ b'+')

-- MAJOR.MINOR.PATCH and a suffix.
abbrev pub IsSemver : Str → Type 0
IsSemver version =
    (major : Str) × (minor : Str) × (patch : Str) × (suffix : Str) × (version
      ≡ join (major ∷ minor ∷ patch ∷ []) ++ suffix)
    × IsNumber major
    × IsNumber minor
    × IsNumber patch
    × IsSuffix suffix

digits_iff : (part : Str) → (all is_ascii_digit part ≡ true) ↔ All (λ b. (48 ≤ b) × (b ≤ 57)) part
digits_iff [] = (λ h. tt, λ h. refl)
digits_iff (b ∷ part) = (
  λ h. ((ground arith, ground arith), (digits_iff part).0 (ground arith)),
  λ h. ground (arith, (digits_iff part).1 h.1),
)

pub is_number_iff : (part : Str) → (is_number part ≡ true) ↔ IsNumber part
is_number_iff [] = (λ h. cc, λ h. absurd (h.0 refl))
is_number_iff (b ∷ part) =
    (λ h. (λ e. cc, (digits_iff (b ∷ part)).0 h), λ h. (digits_iff (b ∷ part)).1 h.1)

IsNumber-HasNoDot : (part : Str) → All (λ b. (48 ≤ b) × (b ≤ 57)) part → HasNoDot part
IsNumber-HasNoDot [] h = refl
IsNumber-HasNoDot (b ∷ part) h = ground (arith, IsNumber-HasNoDot part h.1)

core_of_suffix : (suffix : Str) → IsSuffix suffix → core_of suffix ≡ []
unfolding core_of
core_of_suffix [] h = refl
core_of_suffix (b ∷ s) h = ground arith

core_of_digits :
    (part rest : Str)
    → All (λ b. (48 ≤ b) × (b ≤ 57)) part
    → core_of (part ++ rest) ≡ part ++ core_of rest
unfolding core_of
core_of_digits [] rest h = refl
core_of_digits (b ∷ part) rest h = ground (arith, core_of_digits part rest h.1)

core_of-dot : (rest : Str) → core_of (dot ∷ rest) ≡ dot ∷ core_of rest
unfolding core_of
core_of-dot rest = refl

core_of_rest :
    (version : Str) → (suffix : Str) × (version ≡ core_of version ++ suffix) × IsSuffix suffix
unfolding core_of
core_of_rest [] = ([], refl, tt)
core_of_rest (b ∷ version) = elim (Bool-cases (opens_suffix b)) [
  | inl opens ↦ (b ∷ version, rw opens refl, ground arith)
  | inr other ↦ let (suffix, e, h) = core_of_rest version in (suffix, rw other (ap (◌∷◌ b) e), h)
]

are_three_numbers_parts :
    (parts : List Str)
    → (are_three_numbers parts ≡ true)
    → (major : Str) × (minor : Str) × (patch : Str) × (parts ≡ major ∷ minor ∷ patch ∷ [])
      × IsNumber major
      × IsNumber minor
      × IsNumber patch
are_three_numbers_parts [] h = cc
are_three_numbers_parts (a ∷ []) h = cc
are_three_numbers_parts (a ∷ b ∷ []) h = cc
are_three_numbers_parts (a ∷ b ∷ c ∷ []) h = (
  a,
  b,
  c,
  refl,
  (is_number_iff a).0 (ground arith),
  (is_number_iff b).0 (ground arith),
  (is_number_iff c).0 (ground arith),
)
are_three_numbers_parts (a ∷ b ∷ c ∷ d ∷ parts) h = cc

core_of_parts :
    (major minor patch suffix : Str)
    → IsNumber major
    → IsNumber minor
    → IsNumber patch
    → IsSuffix suffix
    → core_of (join (major ∷ minor ∷ patch ∷ []) ++ suffix) ≡ join (major ∷ minor ∷ patch ∷ [])
core_of_parts major minor patch suffix ha hb hc opens =
    rw
      (
        append_assoc major (dot ∷ (minor ++ dot ∷ patch)) suffix,
        append_assoc minor (dot ∷ patch) suffix,
        core_of_digits major (dot ∷ (minor ++ (dot ∷ (patch ++ suffix)))) ha.1,
        core_of-dot (minor ++ (dot ∷ (patch ++ suffix))),
        core_of_digits minor (dot ∷ (patch ++ suffix)) hb.1,
        core_of-dot (patch ++ suffix),
        core_of_digits patch suffix hc.1,
        core_of_suffix suffix opens,
        append-nil patch,
      )
      refl

from_parts :
    (major minor patch suffix : Str)
    → IsNumber major
    → IsNumber minor
    → IsNumber patch
    → IsSuffix suffix
    → valid_semver (join (major ∷ minor ∷ patch ∷ []) ++ suffix) ≡ true
unfolding valid_semver
from_parts major minor patch suffix ha hb hc opens =
    ap (λ core. are_three_numbers (split core))
      (core_of_parts major minor patch suffix ha hb hc opens)
    ∙ ap are_three_numbers (
        split-join major (minor ∷ patch ∷ []) (
          IsNumber-HasNoDot major ha.1,
          (IsNumber-HasNoDot minor hb.1, (IsNumber-HasNoDot patch hc.1, tt)),
        ))
    ∙ ground (arith, is_number_iff major, is_number_iff minor, is_number_iff patch)

-- A version is accepted exactly if it is MAJOR.MINOR.PATCH in digits, with nothing behind or a
-- suffix that `-` or `+` opens.
pub valid_semver_iff : (version : Str) → (valid_semver version ≡ true) ↔ IsSemver version
unfolding valid_semver
valid_semver_iff version = (
  λ h.
      let (a, b, c, parts, ha, hb, hc) = are_three_numbers_parts (split (core_of version)) h in
      let (suffix, e, opens) = core_of_rest version in
      (
        a,
        b,
        c,
        suffix,
        e ∙ ap (λ s. s ++ suffix) (sym (join-split (core_of version)) ∙ ap join parts),
        ha,
        hb,
        hc,
        opens,
      ),
  λ (a, b, c, suffix, e, ha, hb, hc, opens). rw e (from_parts a b c suffix ha hb hc opens),
)
