-- ===== src/Testing/EventLog.antt =====
-- nats-micro-testing/src/lib.rs: `EventLog` and `EventSelection`. The mutex gives each operation
-- the whole log, so an operation is a function of it. `HeaderMap` is async_nats'.
pub mod Laws
use nats_micro.Prelude.{
  ℕ, ◌≡◌, Bool, not, List, [], ◌∷◌, ◌++◌, Option, Str, str_eq, length, select, Result, ok, err,
  ensure, ◌>>=◌, ◌>>◌, ◌==◌, map,
}

pub record CapturedEvent (HeaderMap : Type 0) : Type 0 where
  pub subject : Str
  pub payload : Str
  pub headers : Option HeaderMap

abbrev pub EventLog : Type 0 → Type 0
EventLog HeaderMap = List (CapturedEvent HeaderMap)

-- The two ways in which a selection fails.
pub data SelectionError : Type 0 where
  not_single : ℕ → SelectionError
  undecodable : SelectionError

module _ {HeaderMap : Type 0} where
  unfoldable pub record_event :
      EventLog HeaderMap → Str → Str → Option HeaderMap → EventLog HeaderMap
  record_event events subject payload headers =
      events ++ record { subject = subject; payload = payload; headers = headers } ∷ []

  -- The test that the selection's methods share.
  abbrev pub on_subject : Str → CapturedEvent HeaderMap → Bool
  on_subject subject event = str_eq event.subject subject

  unfoldable pub count : EventLog HeaderMap → Str → ℕ
  count events subject = length (select (on_subject subject) events)

  single_of : List (CapturedEvent HeaderMap) → Result SelectionError (CapturedEvent HeaderMap)
  single_of [] = err (not_single 0)
  single_of (event ∷ []) = ok event
  single_of (event ∷ other ∷ events) = err (not_single (length (event ∷ other ∷ events)))

  unfoldable pub single : EventLog HeaderMap → Str → Result SelectionError (CapturedEvent HeaderMap)
  unfolding single_of
  single events subject = single_of (select (on_subject subject) events)

  -- `single_json` and `single_proto`: `decode` is serde's or prost's.
  unfoldable pub single_decoded {ℓ} :
      {T : Type ℓ} → (Str → Option T) → EventLog HeaderMap → Str → Result SelectionError T
  unfolding single
  single_decoded decode events subject = do
    event ← single events subject
    elim (decode event.payload) [ Option.none ↦ err undecodable | Option.some value ↦ ok value ]

  unfoldable pub selection_headers :
      EventLog HeaderMap → Str → Result SelectionError (Option HeaderMap)
  unfolding single
  selection_headers events subject = do event ← single events subject; ok event.headers

  -- `EventLog::clear`
  unfoldable pub clear : EventLog HeaderMap → EventLog HeaderMap
  clear events = []

  unfoldable pub clear_selection : EventLog HeaderMap → Str → EventLog HeaderMap
  clear_selection events subject = select (λ event. not (on_subject subject event)) events
