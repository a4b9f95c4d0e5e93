-- ===== src/Subject/Splitting.antt =====
-- What splitting at dots gives.
use nats_micro.Prelude.{ℕ, ◌≡◌, refl, ap, ◌≢◌, List, [], ◌∷◌, ◌++◌, arith, Str, ◌∙◌, sym}
use nats_micro.Subject.{dot, split, cons_head}

-- `split` never gives the empty list, and its words written with dots between them are the text.
abbrev pub join : List Str → Str
join [] = []
join (w ∷ []) = w
join (w ∷ v ∷ ws) = w ++ dot ∷ join (v ∷ ws)

pub split-ne-nil : (s : Str) → split s ≢ []
unfolding split
split-ne-nil [] = ground arith
split-ne-nil (c ∷ s) = ground (arith, split-ne-nil s)

join-cons_head : (c : ℕ) (ws : List Str) → join (cons_head c ws) ≡ c ∷ join ws
join-cons_head c [] = refl
join-cons_head c (w ∷ []) = refl
join-cons_head c (w ∷ v ∷ ws) = refl

join-cons_nil : (ws : List Str) → ws ≢ [] → join ([] ∷ ws) ≡ dot ∷ join ws
join-cons_nil [] h = absurd (h refl)
join-cons_nil (w ∷ ws) h = refl

pub join-split : (s : Str) → join (split s) ≡ s
unfolding split
join-split [] = refl
join-split (c ∷ s) =
    ground
      (arith, join-split s, join-cons_head c (split s), join-cons_nil (split s), split-ne-nil s)

pub split-injective : (s t : Str) → split s ≡ split t → s ≡ t
split-injective s t e = sym (join-split s) ∙ ap join e ∙ join-split t
