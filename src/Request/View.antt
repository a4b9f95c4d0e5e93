-- ===== src/Request/View.antt =====
-- What a handler sees of a request.
use nats_micro.Prelude.{
  Bool-cases, ◌≡◌, ◌≤◌, true, Option, some, none, Str, arith, length, ◌⊎◌, inl, inr, Option-cases,
}
use nats_micro.Headers.{HeaderMaps}
use nats_micro.Encryption.Headers.{EncryptedHeaderOverlay, overlay_get}
use nats_micro.Request.{
  RequestId, Request, get, get_or_generate, is_valid_request_id, new, request_id_of,
  with_body_and_overlay, request_id_header, inner_get,
}

-- A request's identifier does not change once it was asked for: later calls return what the first
-- one returned, whatever UUIDs they would draw.
pub get_or_generate-stable :
    (id : RequestId) (uuid later : Str)
    → get_or_generate (get_or_generate id uuid).1 later
      ≡ ((get_or_generate id uuid).0, (get_or_generate id uuid).1)
unfolding get_or_generate
get_or_generate-stable id uuid later = elim (Option-cases id.existing) [
  | inr (value, held) ↦ ground arith
  | inl absent ↦ elim (Option-cases id.generated) [
    | inr (value, held) ↦ ground arith
    | inl empty ↦ ground arith
  ]
]

module _ {H : Type 0} (maps : HeaderMaps H) where
  -- A decrypted header hides the plain header of its name; the other headers are the plain ones.
  pub get-with_body_and_overlay :
      (request : Request H) (payload name : Str) (overlay : EncryptedHeaderOverlay)
      → ((value : Str) × (overlay_get overlay name ≡ some value)
          × (get maps (with_body_and_overlay maps request payload overlay).headers name
              ≡ some value))
        ⊎ ((overlay_get overlay name ≡ none)
            × (get maps (with_body_and_overlay maps request payload overlay).headers name
                ≡ inner_get maps request.headers.inner name))
  unfolding get with_body_and_overlay
  get-with_body_and_overlay request payload name overlay =
      elim (Option-cases (overlay_get overlay name)) [
        | inr (value, found) ↦ inl (value, found, ground arith)
        | inl absent ↦ inr (absent, ground arith)
      ]

  -- The identifier of an incoming request, if it has one, stands in its header, is not empty, and
  -- is at most 128 bytes long.
  pub new-existing :
      (subject payload id : Str) (reply : Option Str) (headers : H)
      → (new maps subject reply payload (some headers)).request_id.existing ≡ some id
      → (maps.get headers request_id_header ≡ some id)
        × (1 ≤ length id)
        × (length id ≤ 128)
        × (is_valid_request_id id ≡ true)
  unfolding new request_id_of get is_valid_request_id
  new-existing subject payload id reply headers e =
      elim (Option-cases (maps.get headers request_id_header)) [
        | inl absent ↦ ground arith
        | inr (value, found) ↦ elim (Bool-cases (is_valid_request_id value)) [
          | inr bad ↦ ground arith
          | inl good ↦ let same : value ≡ id = ground arith in ground (arith, same)
        ]
      ]
