-- ===== src/Subject/Words.antt =====
-- Places between the characters of a subject, and the segments from a place on.
use mathlib.Core.List.{append_assoc, append-nil}
use nats_micro.Prelude.{
  ℕ, suc, ◌+◌, ◌-◌, ◌<◌, ◌≡◌, refl, ap, sym, ◌∙◌, ◌≢◌, Bool, true, false, ◌&&◌, List, [], ◌∷◌, ◌++◌,
  some, none, arith, Str, length, length-append, get_elem?, get_elem?-append, drop-append,
  take-append, take, drop, ltb, if◌then◌else◌,
}
use nats_micro.Subject.Splitting.{split-ne-nil}
use nats_micro.Subject.{dot, split, cons_head, is_continuation, is_char_boundary, get_range}

-- A continuation byte neither opens a text nor follows an ASCII byte (`prev` is the byte before
-- the text). Every `str` has this property, since it is UTF-8.
abbrev pub is_placed : ℕ → Str → Bool
is_placed prev [] = true
is_placed prev (b ∷ s) =
    (if ltb prev 128 then (if is_continuation b then false else true) else true) && is_placed b s

abbrev pub prepend : Str → List Str → List Str
prepend cur [] = cur ∷ []
prepend cur (w ∷ ws) = (cur ++ w) ∷ ws

pub boundary_at_end : (pre s : Str) → s ≡ pre → is_char_boundary s (length pre) ≡ true
unfolding is_char_boundary
boundary_at_end pre s e = ground (arith, ap length e)

pub boundary_at_byte :
    (pre : Str) (b : ℕ) (suf s : Str)
    → s ≡ pre ++ b ∷ suf
    → is_continuation b ≡ false
    → is_char_boundary s (length pre) ≡ true
unfolding is_char_boundary
boundary_at_byte pre b suf s e h =
    ground (arith, ap (λ t. get_elem? t (length pre)) e, get_elem?-append pre (b ∷ suf))

pub boundary_of_placed :
    (prev : ℕ) (pre suf s : Str)
    → s ≡ pre ++ suf
    → prev < 128
    → is_placed prev suf ≡ true
    → is_char_boundary s (length pre) ≡ true
boundary_of_placed prev pre [] s e lt h = boundary_at_end pre s (e ∙ append-nil pre)
boundary_of_placed prev pre (b ∷ suf) s e lt h = boundary_at_byte pre b suf s e (ground arith)

pub slice_lem :
    (pre cur suf : Str)
    → take (length pre + length cur - length pre) (drop (length pre) (pre ++ (cur ++ suf))) ≡ cur
slice_lem pre cur suf =
    let size : length pre + length cur - length pre ≡ length cur = omega arith in
    rw (size, drop-append pre (cur ++ suf)) (take-append cur suf)

pub get_range_lem :
    (pre cur suf s : Str)
    → s ≡ pre ++ (cur ++ suf)
    → is_char_boundary s (length pre) ≡ true
    → is_char_boundary s (length pre + length cur) ≡ true
    → get_range s (length pre) (length pre + length cur) ≡ some cur
unfolding get_range
get_range_lem pre cur suf s e h k = ground (
  arith,
  ap length e,
  length-append pre (cur ++ suf),
  length-append cur suf,
  slice_lem pre cur suf,
  ap (λ t. take (length pre + length cur - length pre) (drop (length pre) t)) e,
)

-- What the loop computes, at the words that the rest of the text completes.
abbrev pub words_from : Str → Str → List Str
words_from cur suf = prepend cur (split suf)

pub end_lem : (cur : Str) (n : ℕ) → get_elem? (words_from cur []) (suc n) ≡ none
unfolding split
end_lem cur n = refl

pub split-dot : (c : ℕ) (suf : Str) → c ≡ dot → split (c ∷ suf) ≡ [] ∷ split suf
unfolding split
split-dot c suf e = ground arith

pub split_byte : (c : ℕ) (suf : Str) → c ≢ dot → split (c ∷ suf) ≡ cons_head c (split suf)
unfolding split
split_byte c suf e = ground arith

pub prepend-nil : (ws : List Str) → ws ≢ [] → prepend [] ws ≡ ws
prepend-nil [] h = absurd (h refl)
prepend-nil (w ∷ ws) h = refl

pub prepend-cons_head :
    (cur : Str) (c : ℕ) (ws : List Str) → prepend cur (cons_head c ws) ≡ prepend (cur ++ c ∷ []) ws
prepend-cons_head cur c [] = refl
prepend-cons_head cur c (w ∷ ws) = ap (λ v. v ∷ ws) (sym (append_assoc cur (c ∷ []) w))

pub words_from-dot :
    (cur : Str) (c : ℕ) (suf : Str) → c ≡ dot → words_from cur (c ∷ suf) ≡ cur ∷ words_from [] suf
words_from-dot cur c suf e =
    rw (split-dot c suf e, prepend-nil (split suf) (split-ne-nil suf), append-nil cur)

pub words_from_byte :
    (cur : Str) (c : ℕ) (suf : Str)
    → c ≢ dot
    → words_from cur (c ∷ suf) ≡ words_from (cur ++ c ∷ []) suf
words_from_byte cur c suf e = rw (split_byte c suf e) (prepend-cons_head cur c (split suf))
