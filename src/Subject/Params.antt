-- ===== src/Subject/Params.antt =====
-- `subject_param_len` and `push_subject_param`: the length of a parameter is computed before the
-- subject is built, so that the subject is allocated once.
use nats_micro.Prelude.{
  ℕ, ◌+◌, ◌%◌, ◌^◌, ◌<◌, ◌≡◌, List, [], ◌∷◌, ◌++◌, arith, Str, length, length-append,
}

-- A `Display` value, by the texts that it writes in turn.
abbrev pub Pieces : Type 0
Pieces = List Str

-- `LengthWriter::write_str`, on `usize`.
pub write_str : ℕ → Str → ℕ
write_str count value = (count + length value) % 2 ^ 64

pub write_pieces : ℕ → Pieces → ℕ
unfolding write_str
write_pieces count [] = count
write_pieces count (v ∷ value) = write_pieces (write_str count v) value

unfoldable pub subject_param_len : Pieces → ℕ
unfolding write_pieces
subject_param_len value = write_pieces 0 value

unfoldable pub push_subject_param : Str → Pieces → Str
push_subject_param subject [] = subject
push_subject_param subject (v ∷ value) = push_subject_param (subject ++ v) value

total : Pieces → ℕ
total [] = 0
total (v ∷ value) = length v + total value

write_pieces-total :
    (value : Pieces) (count : ℕ)
    → count + total value < 2 ^ 64
    → write_pieces count value ≡ count + total value
unfolding write_pieces total
write_pieces-total [] count h = omega arith
write_pieces-total (v ∷ value) count h =
    omega (arith, write_pieces-total value ((count + length v) % 2 ^ 64))

length-push :
    (value : Pieces) (subject : Str)
    → length (push_subject_param subject value) ≡ length subject + total value
unfolding push_subject_param total
length-push [] subject = omega arith
length-push (v ∷ value) subject =
    omega (arith, length-push value (subject ++ v), length-append subject v)

-- Where the subject's final length fits a `usize`, pushing a parameter makes it longer by exactly
-- the length computed beforehand.
pub length-push_subject_param :
    (subject : Str) (value : Pieces)
    → length (push_subject_param subject value) < 2 ^ 64
    → length (push_subject_param subject value) ≡ length subject + subject_param_len value
unfolding subject_param_len
length-push_subject_param subject value h =
    omega (arith, length-push value subject, write_pieces-total value 0)
