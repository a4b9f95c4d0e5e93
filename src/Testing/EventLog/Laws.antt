-- ===== src/Testing/EventLog/Laws.antt =====
-- The selections of an event log.
use nats_micro.Prelude.{
  ◌≢◌, ℕ, ◌+◌, ◌≡◌, ◌↔◌, refl, Bool, List, [], ◌∷◌, ◌++◌, Option, Str, str_eq, str_eq_iff, length,
  length-append, select, ok, err, if◌then◌else◌, arith,
}
use nats_micro.Testing.EventLog.{
  CapturedEvent, EventLog, not_single, on_subject, record_event, count, single_of, single,
  clear_selection,
}

select-append {ℓ} :
    {A : Type ℓ} (p : A → Bool) (xs ys : List A) → select p (xs ++ ys) ≡ select p xs ++ select p ys
select-append p [] ys = refl
select-append p (x ∷ xs) ys = ground (arith, select-append p xs ys)

module _ {HeaderMap : Type 0} where
  -- Recording an event adds one to the count of its own subject, and nothing to any other.
  pub count-record_event :
      (events : EventLog HeaderMap) (subject other payload : Str) (headers : Option HeaderMap)
      → count (record_event events subject payload headers) other
        ≡ (if str_eq subject other then count events other + 1 else count events other)
  unfolding count record_event
  count-record_event events subject other payload headers = ground (
    arith,
    select-append (on_subject other) events
        (record { subject = subject; payload = payload; headers = headers } ∷ []),
    length-append (select (on_subject other) events)
        (record { subject = subject; payload = payload; headers = headers } ∷ []),
    length-append (select (on_subject other) events) [],
  )

  -- Clearing a selection empties it and leaves the count of every other subject.
  pub count-clear_selection :
      (events : EventLog HeaderMap) (subject other : Str)
      → count (clear_selection events subject) other
        ≡ (if str_eq subject other then 0 else count events other)
  unfolding count clear_selection
  count-clear_selection [] subject other = ground arith
  count-clear_selection (e ∷ events) subject other = ground (
    arith,
    count-clear_selection events subject other,
    str_eq_iff e.subject subject,
    str_eq_iff e.subject other,
    str_eq_iff subject other,
  )

  single_of_iff :
      (es : List (CapturedEvent HeaderMap)) (e : CapturedEvent HeaderMap)
      → (single_of es ≡ ok e) ↔ (es ≡ e ∷ [])
  unfolding single_of
  single_of_iff [] e = ground arith
  single_of_iff (d ∷ []) e = ground arith
  single_of_iff (d ∷ f ∷ es) e = ground arith

  single_of_fails :
      (es : List (CapturedEvent HeaderMap)) (n : ℕ)
      → (single_of es ≡ err (not_single n)) ↔ ((n ≡ length es) × (length es ≢ 1))
  unfolding single_of
  single_of_fails [] n = ground arith
  single_of_fails (d ∷ []) n = ground arith
  single_of_fails (d ∷ f ∷ es) n = ground arith

  -- `single` returns an event exactly if it is the only one on the subject; it fails exactly if
  -- the count is not one, and then reports the count.
  pub single_iff :
      (events : EventLog HeaderMap) (subject : Str)
      → ((e : CapturedEvent HeaderMap)
          → (single events subject ≡ ok e) ↔ (select (on_subject subject) events ≡ e ∷ []))
        × ((n : ℕ)
            → (single events subject ≡ err (not_single n))
              ↔ ((n ≡ count events subject) × (count events subject ≢ 1)))
  unfolding single count
  single_iff events subject = (
    single_of_iff (select (on_subject subject) events),
    single_of_fails (select (on_subject subject) events),
  )
