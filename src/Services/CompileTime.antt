-- ===== src/Services/CompileTime.antt =====
-- `assert_services_compatible`, which runs at compile time, beside the check at start.
use mathlib.Core.List.{append-nil}
use nats_micro.Prelude.{
  AreFresh-cons_iff, AreFresh-nil, ℕ, zero, suc, ◌≡◌, refl, ap, ◌≢◌, ◌↔◌, Bool, true, ◌&&◌, List,
  [], ◌∷◌, ◌++◌, map, Str, length, All, Distinct, AreFresh, arith, ok, ◌==◌,
}
use nats_micro.Contract.Spec.{OperationSpec, ConsumerSpec, ServiceSpec}
use nats_micro.Services.{
  apart_from, all_apart, const_eq_from, const_str_eq, same_subject, same_consumer,
  assert_services_compatible, validate_service_set,
}
use nats_micro.Services.Compatible.{validate_service_set_iff}
use nats_micro.Services.Registered.{Distinct-append_iff}

-- The loop on two texts, one byte further, is the loop on what follows their first bytes.
const_eq_from-cons :
    (rounds index a b : ℕ) (left right : Str)
    → const_eq_from rounds (suc index) (a ∷ left) (b ∷ right)
      ≡ const_eq_from rounds index left right
unfolding const_eq_from
const_eq_from-cons zero index a b left right = refl
const_eq_from-cons (suc rounds) index a b left right =
    ground (arith, const_eq_from-cons rounds (suc index) a b left right)

const_str_eq-cons :
    (a b : ℕ) (left right : Str)
    → const_str_eq (a ∷ left) (b ∷ right) ≡ (a == b && const_str_eq left right)
unfolding const_str_eq
const_str_eq-cons a b left right = ground (arith, const_eq_from-cons (length left) 0 a b left right)

const_str_eq_iff : (left right : Str) → (const_str_eq left right ≡ true) ↔ (left ≡ right)
unfolding const_str_eq
const_str_eq_iff [] [] = (λ h. refl, λ h. refl)
const_str_eq_iff [] (b ∷ right) = (λ h. absurd (ground arith), λ h. absurd (ground arith))
const_str_eq_iff (a ∷ left) [] = (λ h. absurd (ground arith), λ h. absurd (ground arith))
const_str_eq_iff (a ∷ left) (b ∷ right) =
    let step = const_str_eq-cons a b left right in
    let (to, from) = const_str_eq_iff left right in
    (λ h. ground (arith, to (ground arith)), λ h. ground (arith, from (ground arith)))

module _ {A K : Type 0} (same : A → A → Bool) (key : A → K)
    (same_iff : (a b : A) → (same a b ≡ true) ↔ (key a ≡ key b)) where
  apart_from_iff :
      (left : A) (rights : List A)
      → (apart_from same left rights ≡ true) ↔ All (λ y. key left ≢ y) (map key rights)
  unfolding apart_from
  apart_from_iff left [] = (λ h. tt, λ h. refl)
  apart_from_iff left (right ∷ rights) =
      let (to, from) = apart_from_iff left rights in
      (
        λ h. (λ e. ground (arith, same_iff left right), to (ground arith)),
        λ h. ground (arith, same_iff left right, from h.1),
      )

  all_apart_iff :
      (lefts rights : List A)
      → (all_apart same lefts rights ≡ true) ↔ AreFresh (map key rights) (map key lefts)
  unfolding all_apart
  all_apart_iff [] rights = (λ h. tt, λ h. refl)
  all_apart_iff (left ∷ lefts) rights =
      let (to, from) = all_apart_iff lefts rights in
      (
        λ h. ((apart_from_iff left rights).0 (ground arith), to (ground arith)),
        λ h. ground (arith, (apart_from_iff left rights).1 h.0, from h.1),
      )

abbrev subject_of : OperationSpec → Str
subject_of operation = operation.subject

abbrev key_of : ConsumerSpec → Str × Str
key_of consumer = (consumer.stream, consumer.durable)

same_consumer_iff :
    (left right : ConsumerSpec)
    → (same_consumer left right ≡ true)
      ↔ (◌≡◌ {A = Str × Str} (left.stream, left.durable) (right.stream, right.durable))
same_consumer_iff left right =
    let (to, from) = const_str_eq_iff left.stream right.stream in
    let (to', from') = const_str_eq_iff left.durable right.durable in
    (
      λ h. ground (arith, to (ground arith), to' (ground arith)),
      λ h. ground (arith, from (ap (λ p. p.0) h), from' (ap (λ p. p.1) h)),
    )

AreFresh-sym {ℓ} : {A : Type ℓ} (xs ys : List A) → AreFresh xs ys → AreFresh ys xs
AreFresh-sym xs [] h = AreFresh-nil xs
AreFresh-sym xs (y ∷ ys) h = (AreFresh-cons_iff y ys xs).1 (h.0, AreFresh-sym xs ys h.1)

-- Two lists are distinct together if each is and none of the left is in the right.
apart_iff {ℓ} :
    {A : Type ℓ} (xs ys : List A)
    → Distinct (xs ++ (ys ++ [])) ↔ (Distinct (xs ++ []) × Distinct (ys ++ []) × AreFresh ys xs)
apart_iff xs ys =
    let (to, from) = Distinct-append_iff xs ys in
    rw (append-nil xs, append-nil ys)
      (
        λ h. let (a, b, c) = to h in (a, c, AreFresh-sym xs ys b),
        λ h. from (h.0, AreFresh-sym ys xs h.2, h.1),
      )

compatible_iff :
    (left right : ServiceSpec)
    → (assert_services_compatible left right ≡ true) ↔ (
        AreFresh (map subject_of right.operations) (map subject_of left.operations)
        × AreFresh (map key_of right.consumers) (map key_of left.consumers))
unfolding assert_services_compatible
compatible_iff left right =
    let (to, from) =
      all_apart_iff same_subject subject_of (λ a b. const_str_eq_iff a.subject b.subject)
        left.operations right.operations in
    let (to', from') =
      all_apart_iff same_consumer key_of same_consumer_iff left.consumers right.consumers in
    (λ h. (to (ground arith), to' (ground arith)), λ h. ground (arith, from h.0, from' h.1))

-- The check at start accepts two services exactly if it accepts each of them and the compile-time
-- assertion on the two holds.
pub validate_service_set-compatible :
    (left right : ServiceSpec)
    → (validate_service_set (left ∷ right ∷ []) ≡ ok tt) ↔ (
        (validate_service_set (left ∷ []) ≡ ok tt)
        × (validate_service_set (right ∷ []) ≡ ok tt)
        × (assert_services_compatible left right ≡ true))
validate_service_set-compatible left right =
    let (to, from) = validate_service_set_iff (left ∷ right ∷ []) in
    let (to_left, from_left) = validate_service_set_iff (left ∷ []) in
    let (to_right, from_right) = validate_service_set_iff (right ∷ []) in
    let (to_apart, from_apart) = compatible_iff left right in
    let (split, merge) =
      apart_iff (map subject_of left.operations) (map subject_of right.operations) in
    let (split', merge') = apart_iff (map key_of left.consumers) (map key_of right.consumers) in
    (
      λ h.
          let (a, b) = to h in
          let (l, r, f) = split a in
          let (l', r', f') = split' b in
          (from_left (l, l'), from_right (r, r'), from_apart (f, f')),
      λ h.
          let (l, l') = to_left h.0 in
          let (r, r') = to_right h.1 in
          let (f, f') = to_apart h.2 in from (merge (l, r, f), merge' (l', r', f')),
    )
