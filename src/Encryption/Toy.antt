-- ===== src/Encryption/Toy.antt =====
-- Concrete packages for the tests: a cipher that hides nothing, and header maps that are lists.
use mathlib.Core.List.{Perm}
use mathlib.Core.List.Perm
use nats_micro.Prelude.{
  ℕ, zero, suc, ◌+◌, ◌-◌, ◌≡◌, true, List, [], ◌∷◌, ◌++◌, Option, some, none, Str, take, drop,
  length, take-append, drop-append, length-append, arith, refl, ap, lookup, insert, lookup-insert,
}
use nats_micro.Headers.{HeaderMaps, IsHeaderMaps}
use nats_micro.Encryption.Crypto.{Crypto, IsCrypto}
use nats_micro.Encryption.Envelope.RoundTrip.{take-append_at}

abbrev pub zeros : ℕ → Str
zeros zero = []
zeros (suc n) = 0 ∷ zeros n

-- A map of one entry, or of none.
abbrev pub write_map : List (Str × Str) → Option Str
write_map [] = some []
write_map ((key, value) ∷ []) = some (length key ∷ (key ++ value))
write_map ((key, value) ∷ entry ∷ entries) = none

abbrev pub read_map : Str → Option (List (Str × Str))
read_map [] = some []
read_map (n ∷ s) = some ((take n s, drop n s) ∷ [])

abbrev pub toy : Crypto
toy = record {
  public_key = λ secret. zeros 32;
  diffie_hellman = λ secret public. zeros 32;
  hmac = λ key message. key ++ message;
  encrypt = λ key nonce plaintext. some (plaintext ++ zeros 16);
  decrypt = λ key nonce ciphertext. some (take (length ciphertext - 16) ciphertext);
  encode = λ s. s;
  decode = λ s. some s;
  to_vec = write_map;
  from_slice = read_map;
}

toy_decrypts :
    (plaintext ciphertext : Str)
    → ◌≡◌ {A = Option Str} (some (plaintext ++ zeros 16)) (some ciphertext)
    → take (length ciphertext - 16) ciphertext ≡ plaintext
toy_decrypts plaintext ciphertext e =
    let same : plaintext ++ zeros 16 ≡ ciphertext = ground arith in
    rw (← same) (
      take-append_at (length (plaintext ++ zeros 16) - 16) plaintext (zeros 16)
        (omega (arith, length-append plaintext (zeros 16))))

toy_grows :
    (plaintext ciphertext : Str)
    → ◌≡◌ {A = Option Str} (some (plaintext ++ zeros 16)) (some ciphertext)
    → length ciphertext ≡ length plaintext + 16
toy_grows plaintext ciphertext e =
    let same : plaintext ++ zeros 16 ≡ ciphertext = ground arith in
    rw (← same) (omega (arith, length-append plaintext (zeros 16)))

toy_reads :
    (m : List (Str × Str)) (json : Str)
    → write_map m ≡ some json
    → (entries : List (Str × Str)) × (read_map json ≡ some entries) × Perm entries m
toy_reads [] json e = let same : [] ≡ json = ground arith in ([], rw (← same) refl, Perm.rfl)
toy_reads ((key, value) ∷ []) json e =
    let same : length key ∷ (key ++ value) ≡ json = ground arith in
    ((key, value) ∷ [], rw (← same, take-append key value, drop-append key value) refl, Perm.rfl)
toy_reads ((key, value) ∷ entry ∷ entries) json e = ground arith

pub toy-IsCrypto : IsCrypto toy
toy-IsCrypto = record {
  dh_agrees = λ a b. refl;
  public_length = λ secret. refl;
  decrypt-encrypt =
      λ key nonce plaintext ciphertext e. ap some (toy_decrypts plaintext ciphertext e);
  encrypt_length = λ key nonce plaintext ciphertext e. toy_grows plaintext ciphertext e;
  decode-encode = λ s. refl;
  from_slice-to_vec = toy_reads;
}

abbrev pub list_headers : HeaderMaps (List (Str × Str))
list_headers = record {
  new = [];
  get = λ headers key. lookup key headers;
  insert = λ headers key value. insert key value headers;
  is_name = λ name. true;
  is_value = λ value. true;
}

pub list_headers-IsHeaderMaps : IsHeaderMaps list_headers
unfolding lookup
list_headers-IsHeaderMaps = record {
  get-new = λ key. refl;
  get-insert = λ headers key other value. lookup-insert key other value headers;
}
