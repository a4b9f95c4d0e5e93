-- ===== src/Prelude/Sets.antt =====
-- `HashSet<&str>` and `BTreeSet<String>`, where the program only inserts and tests: the list of
-- what was inserted.
use mathlib.Core.Path.{◌≡◌, refl, sym}
use mathlib.Core.Logic.{◌≢◌, ◌↔◌}
use mathlib.Core.Bool.{Bool, false}
use mathlib.Core.List.{List, [], ◌∷◌}
use native.Mathlib.Omega.{arith}
use nats_micro.Prelude.Lists.{any, All}
use nats_micro.Prelude.Text.{Str, str_eq, str_eq_iff}

abbrev pub contains : List Str → Str → Bool
contains set s = any (str_eq s) set

pub contains_iff : (set : List Str) (s : Str) → (contains set s ≡ false) ↔ All (λ t. s ≢ t) set
contains_iff [] s = (λ h. tt, λ h. refl)
contains_iff (t ∷ set) s = (
  λ h. (λ e. ground (arith, str_eq_iff s t), (contains_iff set s).0 (ground arith)),
  λ h. ground (arith, str_eq_iff s t, (contains_iff set s).1 h.1),
)

-- No two elements are equal.
abbrev pub Distinct {ℓ} : {A : Type ℓ} → List A → Type ℓ
Distinct [] = Unit
Distinct (x ∷ xs) = All (λ y. x ≢ y) xs × Distinct xs

module _ {ℓ} {A : Type ℓ} where
  -- None of the second list is in the first.
  abbrev pub AreFresh : List A → List A → Type ℓ
  AreFresh seen = All (λ s. All (λ t. s ≢ t) seen)

  pub AreFresh-cons_iff :
      (x : A) (seen ws : List A) → AreFresh (x ∷ seen) ws ↔ (All (λ y. x ≢ y) ws × AreFresh seen ws)
  AreFresh-cons_iff x seen [] = (λ h. (tt, tt), λ h. tt)
  AreFresh-cons_iff x seen (w ∷ ws) =
      let (to, from) = AreFresh-cons_iff x seen ws in
      (
        λ h. let (a, b) = to h.1 in ((λ e. h.0.0 (sym e), a), (h.0.1, b)),
        λ h. ((λ e. h.0.0 (sym e), h.1.0), from (h.0.1, h.1.1)),
      )

  pub AreFresh-nil : (ws : List A) → AreFresh [] ws
  AreFresh-nil [] = tt
  AreFresh-nil (w ∷ ws) = (tt, AreFresh-nil ws)
