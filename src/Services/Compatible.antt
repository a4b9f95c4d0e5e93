-- ===== src/Services/Compatible.antt =====
-- The services of an application beside one another, as `validate_service_set` takes them at start.
use nats_micro.Services.Registered.{
  All-append_iff, Distinct-append_iff, keys, register-ok, register_new, pair_eq_iff, all_subjects,
  all_consumers, operation_keys, consumer_keys,
}
use nats_micro.Prelude.{
  subst, ◌≡◌, refl, ◌↔◌, List, [], ◌∷◌, ◌++◌, map, Str, str_eq, str_eq_iff, Distinct, AreFresh,
  AreFresh-nil, ok, bind-ok, ok-injective,
}
use nats_micro.Contract.Spec.{ServiceSpec}
use nats_micro.Services.{
  duplicate_subject, duplicate_consumer, pair_eq, register, ServiceSetValidator, operation_entry,
  consumer_entry, add, validate_all, validate_service_set,
}

module _ {ℓ} {A : Type ℓ} where
  -- New to what is known, and without repetition.
  abbrev IsFree : List A → List A → Type ℓ
  IsFree known ws = AreFresh known ws × Distinct ws

  IsFree-append :
      (known xs ys : List A)
      → IsFree known xs
      → AreFresh xs ys
      → IsFree known ys
      → IsFree known (xs ++ ys)
  IsFree-append known xs ys (a, b) c (d, e) =
      ((All-append_iff _ xs ys).1 (a, d), (Distinct-append_iff xs ys).1 (b, c, e))

  IsFree-parts :
      (known xs ys : List A)
      → IsFree known (xs ++ ys)
      → IsFree known xs × AreFresh xs ys × IsFree known ys
  IsFree-parts known xs ys (a, b) =
      let (f, g) = (All-append_iff _ xs ys).0 a in
      let (c, d, e) = (Distinct-append_iff xs ys).0 b in ((f, c), d, (g, e))

abbrev subjects_in : ServiceSpec → List Str
subjects_in service = map (λ operation. operation.subject) service.operations

abbrev consumers_in : ServiceSpec → List (Str × Str)
consumers_in service = map (λ consumer. (consumer.stream, consumer.durable)) service.consumers

-- What a validator knows, and what is free for it.
abbrev AreFree : ServiceSetValidator → List Str → List (Str × Str) → Type 0
AreFree validator subjects consumers =
    IsFree (keys validator.operations) subjects × IsFree (keys validator.consumers) consumers

-- A validator that has taken in what it did not know.
abbrev Knows : ServiceSetValidator → ServiceSpec → ServiceSetValidator → Type 0
Knows validator service added =
    ((ws : List Str)
      → AreFresh (keys added.operations) ws
        ↔ (AreFresh (keys validator.operations) ws × AreFresh (subjects_in service) ws))
    × ((ws : List (Str × Str))
        → AreFresh (keys added.consumers) ws
          ↔ (AreFresh (keys validator.consumers) ws × AreFresh (consumers_in service) ws))

add-ok :
    (validator added : ServiceSetValidator) (service : ServiceSpec)
    → add validator service ≡ ok added
    → AreFree validator (subjects_in service) (consumers_in service) × Knows validator service added
unfolding add
add-ok validator added service h =
    let entries = map (operation_entry service.name) service.operations in
    let others = map (consumer_entry service.name) service.consumers in
    let (ops, e, h1) =
      bind-ok (register str_eq duplicate_subject validator.operations entries) _ added h in
    let (cons, f, h2) =
      bind-ok (register pair_eq duplicate_consumer validator.consumers others) _ added h1 in
    let (new, grown) =
      register-ok str_eq str_eq_iff duplicate_subject validator.operations entries ops e in
    let (new_cons, grown_cons) =
      register-ok pair_eq pair_eq_iff duplicate_consumer validator.consumers others cons f in
    subst
      (λ v.
        AreFree validator (subjects_in service) (consumers_in service) × Knows validator service v)
      (ok-injective h2)
      (rw
        (
          ← operation_keys service.name service.operations,
          ← consumer_keys service.name service.consumers,
        )
        ((new, new_cons), (grown, grown_cons)))

add_free :
    (validator : ServiceSetValidator) (service : ServiceSpec)
    → AreFree validator (subjects_in service) (consumers_in service)
    → (added : ServiceSetValidator) × (add validator service ≡ ok added)
unfolding add
add_free validator service (new, new_cons) =
    let entries = map (operation_entry service.name) service.operations in
    let others = map (consumer_entry service.name) service.consumers in
    let (ops, e) =
      register_new str_eq str_eq_iff duplicate_subject validator.operations entries
        (rw (operation_keys service.name service.operations) new) in
    let (cons, f) =
      register_new pair_eq pair_eq_iff duplicate_consumer validator.consumers others
        (rw (consumer_keys service.name service.consumers) new_cons) in
    (record { operations = ops; consumers = cons }, rw (e, f) refl)

validate_all_iff :
    (validator : ServiceSetValidator) (services : List ServiceSpec)
    → (validate_all validator services ≡ ok tt)
      ↔ AreFree validator (all_subjects services) (all_consumers services)
unfolding validate_all
validate_all_iff validator [] = (λ h. ((tt, tt), (tt, tt)), λ h. refl)
validate_all_iff validator (service ∷ services) = (
  λ h.
      let (added, e, rest) = bind-ok (add validator service) _ tt h in
      let ((free, free_cons), (grown, grown_cons)) = add-ok validator added service e in
      let ((fresh, apart), (fresh_cons, apart_cons)) = (validate_all_iff added services).0 rest in
      let (a, b) = (grown (all_subjects services)).0 fresh in
      let (c, d) = (grown_cons (all_consumers services)).0 fresh_cons in
      (
        IsFree-append _ (subjects_in service) (all_subjects services) free b (a, apart),
        IsFree-append _ (consumers_in service) (all_consumers services) free_cons d (c, apart_cons),
      ),
  λ (free, free_cons).
      let (here, b, (a, apart)) =
        IsFree-parts _ (subjects_in service) (all_subjects services) free in
      let (here_cons, d, (c, apart_cons)) =
        IsFree-parts _ (consumers_in service) (all_consumers services) free_cons in
      let (added, e) = add_free validator service (here, here_cons) in
      let (known, (grown, grown_cons)) = add-ok validator added service e in
      rw e (
        (validate_all_iff added services).1 (
          ((grown (all_subjects services)).1 (a, b), apart),
          ((grown_cons (all_consumers services)).1 (c, d), apart_cons),
        )),
)

-- An application's services are accepted exactly if no two of all their operations have the same
-- subject, and no two of all their consumers the same stream and durable name, within a service
-- or across services.
pub validate_service_set_iff :
    (services : List ServiceSpec)
    → (validate_service_set services ≡ ok tt)
      ↔ (Distinct (all_subjects services) × Distinct (all_consumers services))
unfolding validate_service_set
validate_service_set_iff services =
    let (to, from) = validate_all_iff (record { operations = []; consumers = [] }) services in
    (
      λ h. let (a, b) = to h in (a.1, b.1),
      λ (a, b).
          from
            ((AreFresh-nil (all_subjects services), a), (AreFresh-nil (all_consumers services), b)),
    )
