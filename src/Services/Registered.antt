-- ===== src/Services/Registered.antt =====
-- What `register` has done when it succeeds.
use nats_micro.Prelude.{
  subst, ◌≡◌, refl, ap, ◌≢◌, ◌↔◌, Bool, true, List, [], ◌∷◌, ◌++◌, map, none, Str, str_eq_iff, All,
  Distinct, AreFresh, AreFresh-cons_iff, AreFresh-nil, arith, ok, Option-cases, inl, inr,
  ok-injective,
}
use nats_micro.Contract.Spec.{OperationSpec, ConsumerSpec, ServiceSpec}
use nats_micro.Services.{StartError, pair_eq, find, register, operation_entry, consumer_entry}

module _ {ℓ} {A : Type ℓ} where
  pub All-append_iff : (P : A → Type ℓ) (xs ys : List A) → All P (xs ++ ys) ↔ (All P xs × All P ys)
  All-append_iff P [] ys = (λ h. (tt, h), λ h. h.1)
  All-append_iff P (x ∷ xs) ys =
      let (to, from) = All-append_iff P xs ys in
      (λ h. let (a, b) = to h.1 in ((h.0, a), b), λ h. (h.0.0, from (h.0.1, h.1)))

  pub Distinct-append_iff :
      (xs ys : List A) → Distinct (xs ++ ys) ↔ (Distinct xs × AreFresh xs ys × Distinct ys)
  Distinct-append_iff [] ys = (λ h. (tt, AreFresh-nil ys, h), λ h. h.2)
  Distinct-append_iff (x ∷ xs) ys =
      let (to, from) = Distinct-append_iff xs ys in
      let (to_fresh, from_fresh) = AreFresh-cons_iff x xs ys in
      let (to_all, from_all) = All-append_iff (λ y. x ≢ y) xs ys in
      (
        λ h.
            let (a, b, c) = to h.1 in
            let (new, others) = to_all h.0 in ((new, a), from_fresh (others, b), c),
        λ h. let (others, b) = to_fresh h.1 in (from_all (h.0.0, others), from (h.0.1, b, h.2)),
      )

module _ {K V : Type 0} where
  abbrev pub keys : List (K × V) → List K
  keys [] = []
  keys ((key, value) ∷ entries) = key ∷ keys entries

module _ {K V : Type 0} (eq : K → K → Bool) (eq_iff : (a b : K) → (eq a b ≡ true) ↔ (a ≡ b))
    (error : K → V → V → StartError) where
  find-none_iff :
      (key : K) (known : List (K × V))
      → (find eq key known ≡ none) ↔ All (λ t. key ≢ t) (keys known)
  find-none_iff key [] = (λ h. tt, λ h. refl)
  find-none_iff key ((other, value) ∷ known) = (
    λ h. (
      λ e. ground (arith, eq_iff key other),
      (find-none_iff key known).0 (ground (arith, eq_iff key other)),
    ),
    λ h. ground (arith, eq_iff key other, (find-none_iff key known).1 h.1),
  )

  -- What is known after the entries of a service were taken in.
  abbrev Grown : List (K × V) → List (K × V) → List (K × V) → Type 0
  Grown known entries result =
      (ws : List K)
      → AreFresh (keys result) ws ↔ (AreFresh (keys known) ws × AreFresh (keys entries) ws)

  abbrev IsNew : List (K × V) → List (K × V) → Type 0
  IsNew known entries = AreFresh (keys known) (keys entries) × Distinct (keys entries)

  Grown-cons :
      (key : K) (value : V) (known entries result : List (K × V))
      → Grown ((key, value) ∷ known) entries result
      → Grown known ((key, value) ∷ entries) result
  Grown-cons key value known entries result h ws =
      let (to, from) = h ws in
      let (to_known, from_known) = AreFresh-cons_iff key (keys known) ws in
      let (to_entries, from_entries) = AreFresh-cons_iff key (keys entries) ws in
      (
        λ f. let (a, b) = to f in let (c, d) = to_known a in (d, from_entries (c, b)),
        λ (a, b). let (c, d) = to_entries b in from (from_known (c, a), d),
      )

  pub register-ok :
      (known entries result : List (K × V))
      → register eq error known entries ≡ ok result
      → IsNew known entries × Grown known entries result
  unfolding register
  register-ok known [] result h = (
    (tt, tt),
    λ ws.
        subst (λ r. AreFresh (keys r) ws ↔ (AreFresh (keys known) ws × AreFresh [] ws))
          (ok-injective h) (λ f. (f, AreFresh-nil ws), λ f. f.0),
  )
  register-ok known ((key, value) ∷ entries) result h = elim (Option-cases (find eq key known)) [
    | inl new ↦
        let rest : register eq error ((key, value) ∷ known) entries ≡ ok result = ground arith in
        let ((fresh, apart), grown) = register-ok ((key, value) ∷ known) entries result rest in
        let (others, old) = (AreFresh-cons_iff key (keys known) (keys entries)).0 fresh in
        (
          (((find-none_iff key known).0 new, old), (others, apart)),
          Grown-cons key value known entries result grown,
        )
    | inr (other, taken) ↦ absurd (ground arith)
  ]

  pub register_new :
      (known entries : List (K × V))
      → IsNew known entries
      → (result : List (K × V)) × (register eq error known entries ≡ ok result)
  unfolding register
  register_new known [] h = (known, refl)
  register_new known ((key, value) ∷ entries) ((new, old), (others, apart)) =
      let free : find eq key known ≡ none = (find-none_iff key known).1 new in
      let (result, e) =
        register_new ((key, value) ∷ known) entries
          ((AreFresh-cons_iff key (keys known) (keys entries)).1 (others, old), apart) in
      (result, ground arith)

pub pair_eq_iff : (a b : Str × Str) → (pair_eq a b ≡ true) ↔ (a ≡ b)
pair_eq_iff (a, b) (c, d) = (
  λ h. ground (arith, str_eq_iff a c, str_eq_iff b d),
  λ h. ground (arith, str_eq_iff a c, str_eq_iff b d),
)

-- The subjects and the consumers' keys of all services.
abbrev pub all_subjects : List ServiceSpec → List Str
all_subjects [] = []
all_subjects (service ∷ services) =
    map (λ operation. operation.subject) service.operations ++ all_subjects services

abbrev pub all_consumers : List ServiceSpec → List (Str × Str)
all_consumers [] = []
all_consumers (service ∷ services) =
    map (λ consumer. (consumer.stream, consumer.durable)) service.consumers
    ++ all_consumers services

pub operation_keys :
    (name : Str) (operations : List OperationSpec)
    → keys (map (operation_entry name) operations) ≡ map (λ operation. operation.subject) operations
operation_keys name [] = refl
operation_keys name (operation ∷ operations) =
    ap (◌∷◌ operation.subject) (operation_keys name operations)

pub consumer_keys :
    (name : Str) (consumers : List ConsumerSpec)
    → keys (map (consumer_entry name) consumers)
      ≡ map (λ consumer. (consumer.stream, consumer.durable)) consumers
consumer_keys name [] = refl
consumer_keys name (consumer ∷ consumers) =
    ap (◌∷◌ (consumer.stream, consumer.durable)) (consumer_keys name consumers)
