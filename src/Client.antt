-- ===== src/Client.antt =====
-- nats-micro/src/client: the transport of a client (transport.rs), and the headers of a call
-- (v2.rs). The NATS client is a parameter.
pub mod Calls
pub mod Connection
pub mod Decoding
pub mod Failures
pub mod Merging
mod Tests
use nats_micro.Prelude.{ℕ, List, [], ◌∷◌, Option, none, some, Str, Result, ok, err, ◌>>=◌}
use nats_micro.Headers.{HeaderMaps}
use nats_micro.Errors.Transport
use nats_micro.Errors.Transport.{TransportError}

pub data Subject : Type 0 where
  static borrowed owned : Str → Subject

unfoldable pub as_str : Subject → Str
as_str (static value) = value
as_str (borrowed value) = value
as_str (owned value) = value

pub record ClientRequest (H : Type 0) : Type 0 where
  pub subject : Subject
  pub payload : Str
  pub headers : Option H
  pub timeout : Option ℕ

pub record ClientResponse (H : Type 0) : Type 0 where
  pub payload : Str
  pub headers : Option H

-- `ClientTransport`: what a request is answered with, and whether a message is published.
pub record ClientTransport (H : Type 0) : Type 0 where
  pub request : ClientRequest H → Result TransportError (ClientResponse H)
  pub publish : Subject → Str → Option H → Result TransportError (Unit {0})

-- The kinds of errors of the package async_nats.
pub data RequestErrorKind : Type 0 where
  timed_out no_responders invalid_subject max_payload_exceeded other : RequestErrorKind

pub data PublishErrorKind : Type 0 where
  send publish_invalid_subject publish_max_payload_exceeded : PublishErrorKind

-- `async_nats::Client`: `send_request`, and the two calls that publish.
pub record NatsClient (H : Type 0) : Type 0 where
  pub send_request : Str → Str → Option H → Option ℕ → Result RequestErrorKind (ClientResponse H)
  pub publish_with_headers : Str → H → Str → Result PublishErrorKind (Unit {0})
  pub publish_plain : Str → Str → Result PublishErrorKind (Unit {0})

unfoldable pub request_error : RequestErrorKind → TransportError
request_error timed_out = Transport.timeout
request_error no_responders = Transport.no_responders
request_error invalid_subject = Transport.nats_request_failed
request_error max_payload_exceeded = Transport.nats_request_failed
request_error other = Transport.nats_request_failed

unfoldable pub publish_error : PublishErrorKind → TransportError
publish_error send = Transport.disconnected
publish_error publish_invalid_subject = Transport.transport_error
publish_error publish_max_payload_exceeded = Transport.transport_error

abbrev pub map_err : {A B E : Type 0} → (A → B) → Result A E → Result B E
map_err f (ok value) = ok value
map_err f (err error) = err (f error)

module _ {H : Type 0} (client : NatsClient H) where
  abbrev pub nats_publish : Subject → Str → Option H → Result TransportError (Unit {0})
  nats_publish subject payload none =
      map_err publish_error (client.publish_plain (as_str subject) payload)
  nats_publish subject payload (some headers) =
      map_err publish_error (client.publish_with_headers (as_str subject) headers payload)

  unfoldable pub nats_transport : ClientTransport H
  unfolding request_error publish_error as_str
  nats_transport = record {
    request = λ r.
        map_err request_error
          (client.send_request (as_str r.subject) r.payload r.headers r.timeout);
    publish = nats_publish;
  }

-- The iteration over an `async_nats::HeaderMap`, by name, and its `append`.
pub record HeaderEntries (H : Type 0) : Type 0 where
  pub entries : H → List (Str × List Str)
  pub append : H → Str → Str → H

module _ {H : Type 0} (maps : HeaderMaps H) (values : HeaderEntries H) where
  -- The values of one name: the first is inserted, and the others are appended.
  abbrev pub append_all : H → Str → List Str → H
  append_all merged name [] = merged
  append_all merged name (value ∷ rest) = append_all (values.append merged name value) name rest

  abbrev pub insert_values : H → Str → List Str → H
  insert_values merged name [] = merged
  insert_values merged name (value ∷ rest) = append_all (maps.insert merged name value) name rest

  unfoldable pub merge_entries : H → List (Str × List Str) → H
  merge_entries merged [] = merged
  merge_entries merged ((name, given) ∷ entries) =
      merge_entries (insert_values merged name given) entries

  unfoldable pub merge_headers : Option H → Option H → Option H
  unfolding merge_entries
  merge_headers none none = none
  merge_headers none (some headers) = some headers
  merge_headers (some defaults) none = some defaults
  merge_headers (some defaults) (some headers) =
      some (merge_entries defaults (values.entries headers))
