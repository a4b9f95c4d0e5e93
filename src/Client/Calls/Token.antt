-- ===== src/Client/Calls/Token.antt =====
-- A bearer token, from the client's call to the headers that the service's handler reads.
use mathlib.Core.List.{
  Perm, Mem, not-mem-nil, mem-cons_self, mem-cons_of_mem, eq-or-mem_of_mem-cons,
}
use mathlib.Core.List.Perm
use mathlib.Core.Logic.Or
use mathlib.Core.Bool.{Bool-set}
use nats_micro.Prelude.{
  Bool-cases, str_lt, Bool, true, false, not, ◌||◌, List, [], ◌∷◌, ◌++◌, some, Str, bytes, str_eq,
  str_eq_iff, str_eq_refl, ◌≡◌, refl, sym, ap, ◌∙◌, All, All-mono, All-split, All-insert, insert,
  arith, inl, inr, Result, ok, both-ok, ensure, ◌>>◌, ok-injective, subst,
}
use nats_micro.Headers.{HeaderMaps}
use nats_micro.Request.{get}
use nats_micro.Request.View.{get-with_body_and_overlay}
use nats_micro.Encryption.Crypto.{Crypto}
use nats_micro.Encryption.Headers.{
  EncryptedHeaderOverlay, overlay_get, eq_ignore_ascii_case, is_reserved_encryption_header_name,
}
use nats_micro.Encryption.Headers.Lookup.{overlay_get-Finds}
use nats_micro.Encryption.Builder.{collect}
use nats_micro.Encryption.Builder.Built.{All-collect}
use nats_micro.Encryption.Prepare.{EncryptedRequest, request_view, body_or}
use nats_micro.Client.Calls.{
  EncryptedRequestCall, ClientBuildError, reserved_name, validate_header, bearer_token,
}

module _ {A : Type 0} (test : A → Bool) (b : Bool) where
  All-Mem : (xs : List A) → All (λ x. test x ≡ b) xs → (a : A) → Mem a xs → test a ≡ b
  All-Mem [] h a m = absurd (not-mem-nil m)
  All-Mem (x ∷ xs) (first, others) a m =
      Or.elim (Bool-set (test a) b) (eq-or-mem_of_mem-cons m) (λ same. rw same first)
        (λ later. All-Mem xs others a later)

  Mem-All : (xs : List A) → ((a : A) → Mem a xs → test a ≡ b) → All (λ x. test x ≡ b) xs
  Mem-All [] h = tt
  Mem-All (x ∷ xs) h = (h x mem-cons_self, Mem-All xs (λ a m. h a (mem-cons_of_mem x m)))

  -- What a test says of all the elements does not depend on their order.
  All-Perm : (xs ys : List A) → Perm xs ys → All (λ x. test x ≡ b) ys → All (λ x. test x ≡ b) xs
  All-Perm xs ys p h = Mem-All xs (λ a m. All-Mem ys h a ((Perm.mem_iff p).0 m))

collect-append :
    (map xs ys : List (Str × Str)) → collect map (xs ++ ys) ≡ collect (collect map xs) ys
unfolding collect
collect-append map [] ys = refl
collect-append map ((key, value) ∷ xs) ys = collect-append (insert key value map) xs ys

insert-All :
    (P : Str × Str → Type 0) (key value : Str) (map : List (Str × Str))
    → All P (insert key value map)
    → P (key, value)
unfolding insert
insert-All P key value [] h = h.0
insert-All P key value ((other, w) ∷ map) h = elim (Bool-cases (str_eq other key)) [
  | inl same ↦ (rw same at h).0
  | inr differs ↦ elim (Bool-cases (str_lt key other)) [
    | inl before ↦ (rw (differs, before) at h).0
    | inr after ↦ insert-All P key value map ((rw (differs, after) at h).1)
  ]
]

abbrev authorization : Str
authorization = bytes "authorization"

-- No other name of the list is that of the token, but for the case of its letters.
abbrev pub HasNoToken : List (Str × Str) → Type 0
HasNoToken = All (λ e. eq_ignore_ascii_case e.0 authorization ≡ false)

-- An entry under the token's name has the token.
abbrev is_token : Str → Str × Str → Bool
is_token token (name, value) = not (eq_ignore_ascii_case name authorization) || str_eq value token

collect-is_token :
    (token : Str) (headers : List (Str × Str))
    → HasNoToken headers
    → All (λ e. is_token token e ≡ true) (insert authorization token (collect [] headers))
unfolding eq_ignore_ascii_case
collect-is_token token headers apart =
    All-insert (λ e. is_token token e ≡ true) authorization token (collect [] headers)
      (rw (str_eq_refl token) refl)
      (All-collect (λ e. is_token token e ≡ true) [] headers tt
        (All-mono headers (λ e differs. rw differs refl) apart))

-- The one entry of its name is found in the overlay, in whatever order it was read.
overlay_get-token :
    (token : Str) (headers : List (Str × Str)) (overlay : EncryptedHeaderOverlay)
    → HasNoToken headers
    → Perm overlay (insert authorization token (collect [] headers))
    → overlay_get overlay authorization ≡ some token
unfolding eq_ignore_ascii_case
overlay_get-token token headers overlay apart p =
    let held = insert authorization token (collect [] headers) in
    elim (overlay_get-Finds overlay authorization) [
      | inl (absent, others) ↦
          let all =
            All-Perm (λ e. eq_ignore_ascii_case e.0 authorization) false held overlay (Perm.symm p)
              others in
          let none_held =
            insert-All (λ e. eq_ignore_ascii_case e.0 authorization ≡ false) authorization token
              (collect [] headers) all in
          ground (arith, none_held)
      | inr (value, found, (before, name, after, parts, same, later)) ↦
          let tokens =
            All-Perm (is_token token) true overlay held p (collect-is_token token headers apart) in
          let (here, others) =
            All-split (λ e. is_token token e ≡ true) before after (name, value)
              (subst (All (λ e. is_token token e ≡ true)) parts tokens) in
          found ∙ ap some ((str_eq_iff value token).0 (rw same at here))
    ]

module _ {H : Type 0} (crypto : Crypto) (maps : HeaderMaps H) where
  bearer_token-ok :
      (call authorized : EncryptedRequestCall H) (token : Str)
      → bearer_token maps call token ≡ ok authorized
      → authorized.encrypted_headers
        ≡ call.encrypted_headers ++ (authorization, bytes "Bearer " ++ token) ∷ []
  unfolding bearer_token
  bearer_token-ok call authorized token e =
      let bearer = bytes "Bearer " ++ token in
      let extended : EncryptedRequestCall H = record call {
        encrypted_headers = call.encrypted_headers ++ (authorization, bearer) ∷ [];
      } in
      let unreserved : Result ClientBuildError (Unit {0}) =
        ensure (not (is_reserved_encryption_header_name authorization))
          (record { name = authorization; fault = reserved_name }) in
      let (valid, more) =
        both-ok (validate_header maps authorization bearer) (unreserved >> ok extended) authorized
          e in
      let (free, last) = both-ok unreserved (ok extended) authorized more in
      sym (ap (λ (c : EncryptedRequestCall H). c.encrypted_headers) (ok-injective last))

  -- A token that a call is given is read by the handler under `authorization`, whatever order the map
  -- of the decrypted headers is read in, and over a plain header of that name. It needs that no header
  -- encrypted before has this name but for the case of its letters: of two such entries the code
  -- yields the one that is read last.
  pub bearer_token-get :
      (call authorized : EncryptedRequestCall H) (token : Str) (done : EncryptedRequest H)
      → HasNoToken call.encrypted_headers
      → bearer_token maps call token ≡ ok authorized
      → Perm done.overlay (collect [] authorized.encrypted_headers)
      → get maps (request_view crypto maps done).headers (bytes "authorization")
        ≡ some (bytes "Bearer " ++ token)
  unfolding request_view collect
  bearer_token-get call authorized token done apart e p =
      let bearer = bytes "Bearer " ++ token in
      let map : collect [] authorized.encrypted_headers
          ≡ insert authorization bearer (collect [] call.encrypted_headers) =
        ap (collect []) (bearer_token-ok call authorized token e)
        ∙ collect-append [] call.encrypted_headers ((authorization, bearer) ∷ []) in
      let found =
        overlay_get-token bearer call.encrypted_headers done.overlay apart
          (subst (Perm done.overlay) map p) in
      elim (get-with_body_and_overlay maps done.original
        (body_or done.original.payload done.plaintext) authorization done.overlay) [
          | inl (value, same, got) ↦ got ∙ sym same ∙ found
          | inr (absent, got) ↦ ground (arith, absent, found)
        ]
