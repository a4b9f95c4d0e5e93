-- ===== src/Subject/Joining.antt =====
-- Words with no dot, written with dots between them, and split again.
use mathlib.Core.List.{append-nil}
use nats_micro.Prelude.{
  ℕ, ◌≡◌, refl, ap, sym, ◌∙◌, ◌≢◌, false, List, [], ◌∷◌, ◌++◌, Str, any, All, arith, ◌==◌,
  Bool-cases, inl, inr,
}
use nats_micro.Subject.{dot, split, cons_head}
use nats_micro.Subject.Splitting.{join, split-ne-nil}
use nats_micro.Subject.Words.{prepend, prepend-nil, split-dot, split_byte}

abbrev pub HasNoDot : Str → Type 0
HasNoDot s = any (λ b. b == dot) s ≡ false

All-cons_head : (c : ℕ) (ws : List Str) → c ≢ dot → All HasNoDot ws → All HasNoDot (cons_head c ws)
All-cons_head c [] e h = (ground arith, tt)
All-cons_head c (w ∷ ws) e h = (ground (arith, h.0), h.1)

pub split-HasNoDot : (s : Str) → All HasNoDot (split s)
unfolding split
split-HasNoDot [] = (refl, tt)
split-HasNoDot (c ∷ s) = elim (Bool-cases (c == dot)) [
  | inl at ↦ rw at (refl, split-HasNoDot s)
  | inr other ↦ rw other (All-cons_head c (split s) (ground arith) (split-HasNoDot s))
]

cons_head-prepend :
    (c : ℕ) (w : Str) (ws : List Str) → cons_head c (prepend w ws) ≡ prepend (c ∷ w) ws
cons_head-prepend c w [] = refl
cons_head-prepend c w (v ∷ ws) = refl

pub split-append : (w s : Str) → HasNoDot w → split (w ++ s) ≡ prepend w (split s)
split-append [] s h = sym (prepend-nil (split s) (split-ne-nil s))
split-append (c ∷ w) s h =
    split_byte c (w ++ s) (ground arith)
    ∙ ap (cons_head c) (split-append w s (ground arith))
    ∙ cons_head-prepend c w (split s)

split_word : (w : Str) → HasNoDot w → split w ≡ w ∷ []
unfolding split
split_word w h = rw (← append-nil w) (split-append w [] h ∙ rw (append-nil w) refl)

pub split-join : (w : Str) (ws : List Str) → All HasNoDot (w ∷ ws) → split (join (w ∷ ws)) ≡ w ∷ ws
split-join w [] h = split_word w h.0
split-join w (v ∷ ws) h =
    split-append w (dot ∷ join (v ∷ ws)) h.0
    ∙ rw (split-dot dot (join (v ∷ ws)) refl, split-join v ws h.1, append-nil w) refl
