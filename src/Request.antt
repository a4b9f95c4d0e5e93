-- ===== src/Request.antt =====
-- nats-micro/src/request.rs: the borrowed view of a request. The body of a request whose payload
-- was decrypted, and the overlay of its decrypted headers, come from the encryption module.
pub mod View
mod Tests
use nats_micro.Prelude.{
  ℕ, Bool, true, false, ◌&&◌, ◌||◌, not, Option, some, none, Str, bytes, leb, ◌==◌, length,
  is_empty, all, if◌then◌else◌,
}
use nats_micro.Headers.{HeaderMaps}
use nats_micro.Encryption.Headers.{EncryptedHeaderOverlay, overlay_get}

abbrev pub request_id_header : Str
request_id_header = bytes "x-request-id"

abbrev pub max_request_id_len : ℕ
max_request_id_len = 128

abbrev pub is_ascii_alphanumeric : ℕ → Bool
is_ascii_alphanumeric b = leb 48 b && leb b 57 || (leb 65 b && leb b 90) || (leb 97 b && leb b 122)

-- `-` `_` `.` `:` `/` `@`
abbrev pub is_id_punctuation : ℕ → Bool
is_id_punctuation b = b == 45 || b == 95 || b == 46 || b == 58 || b == 47 || b == 64

unfoldable pub is_valid_request_id : Str → Bool
is_valid_request_id value =
    not (is_empty value)
    && leb (length value) max_request_id_len
    && all (λ b. is_ascii_alphanumeric b || is_id_punctuation b) value

pub record Headers (H : Type 0) : Type 0 where
  pub inner : Option H
  pub overlay : Option EncryptedHeaderOverlay

-- `generated` is the `OnceLock`.
pub record RequestId : Type 0 where
  pub existing : Option Str
  pub generated : Option Str

-- The identifier, and the cell after the call; `uuid` is what `now_v7` would yield.
unfoldable pub get_or_generate : RequestId → Str → Str × RequestId
get_or_generate id uuid = elim id.existing [
  | some value ↦ (value, id)
  | none ↦ elim id.generated [
    | some value ↦ (value, id)
    | none ↦ (uuid, record id { generated = some uuid })
  ]
]

pub record Request (H : Type 0) : Type 0 where
  pub subject : Str
  pub reply : Option Str
  pub payload : Str
  pub headers : Headers H
  pub request_id : RequestId

module _ {H : Type 0} (maps : HeaderMaps H) where
  abbrev pub inner_get : Option H → Str → Option Str
  inner_get none name = none
  inner_get (some headers) name = maps.get headers name

  abbrev pub overlaid : Option EncryptedHeaderOverlay → Str → Option Str
  overlaid none name = none
  overlaid (some overlay) name = overlay_get overlay name

  abbrev pub or_inner : Headers H → Str → Option Str → Option Str
  or_inner headers name (some value) = some value
  or_inner headers name none = inner_get headers.inner name

  unfoldable pub get : Headers H → Str → Option Str
  unfolding overlay_get
  get headers name = or_inner headers name (overlaid headers.overlay name)

  abbrev pub valid_id : Option Str → Option Str
  valid_id none = none
  valid_id (some value) = if is_valid_request_id value then some value else none

  unfoldable pub request_id_of : Headers H → RequestId
  unfolding get is_valid_request_id
  request_id_of headers = record {
    existing = valid_id (get headers request_id_header);
    generated = none;
  }

  unfoldable pub new : Str → Option Str → Str → Option H → Request H
  unfolding request_id_of
  new subject reply payload headers =
      let view : Headers H = record { inner = headers; overlay = none } in
      record {
        subject = subject;
        reply = reply;
        payload = payload;
        headers = view;
        request_id = request_id_of view;
      }

  unfoldable pub with_body_and_overlay : Request H → Str → EncryptedHeaderOverlay → Request H
  unfolding request_id_of
  with_body_and_overlay request payload overlay =
      let view : Headers H = record { inner = request.headers.inner; overlay = some overlay } in
      record {
        subject = request.subject;
        reply = request.reply;
        payload = payload;
        headers = view;
        request_id = request_id_of view;
      }
