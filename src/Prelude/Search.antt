-- ===== src/Prelude/Search.antt =====
-- `iter().position(..)` and `VecDeque::remove(..)` in turn take out the first element that passes.
use Prim.Native.Nat.{ℕ, suc}
use mathlib.Core.Path.{◌≡◌, refl, ap}
use mathlib.Core.Logic.{◌⊎◌, inl, inr}
use mathlib.Core.Bool.{Bool, true, false}
use mathlib.Core.List.{List, [], ◌∷◌}
use mathlib.Core.Option.{Option, none, some}
use native.Mathlib.Omega.{arith}
use nats_micro.Prelude.Tests.{Bool-cases}
use nats_micro.Prelude.Lists.{position, remove, select, All, length}

module _ {ℓ} {A : Type ℓ} (p : A → Bool) where
  -- The first element that passes, and the others in their order.
  pub data Extract : List A → Option (A × List A) → Type ℓ where
    missing : Extract [] none
    hit : (x : A) {xs : List A} → p x ≡ true → Extract (x ∷ xs) (some (x, xs))
    pass :
        (x : A) {xs ys : List A} {y : A}
        → p x ≡ false
        → Extract xs (some (y, ys))
        → Extract (x ∷ xs) (some (y, x ∷ ys))
    pass_none : (x : A) {xs : List A} → p x ≡ false → Extract xs none → Extract (x ∷ xs) none

  abbrev pub Positioned : List A → Type ℓ
  Positioned xs =
      ((position p xs ≡ none) × Extract xs none)
      ⊎ ((i : ℕ) × (y : A) × (ys : List A) × (position p xs ≡ some i)
          × (remove xs i ≡ some (y, ys))
          × Extract xs (some (y, ys)))

  pub position-remove : (xs : List A) → Positioned xs
  position-remove [] = inl (refl, missing)
  position-remove (x ∷ xs) = elim (Bool-cases (p x)) [
    | inl yes_x ↦ inr (0, x, xs, ground arith, refl, hit x yes_x)
    | inr no_x ↦ elim (position-remove xs) [
      | inl (e, m) ↦ inl (ground arith, pass_none x no_x m)
      | inr (i, y, ys, e, r, m) ↦ inr (suc i, y, x ∷ ys, ground arith, ground arith, pass x no_x m)
    ]
  ]

  pub Extract-passes : {xs ys : List A} {y : A} → Extract xs (some (y, ys)) → p y ≡ true
  Extract-passes (hit x h) = h
  Extract-passes (pass x h m) = Extract-passes m

  pub select-Extract :
      {xs ys : List A} {y : A} → Extract xs (some (y, ys)) → select p xs ≡ y ∷ select p ys
  select-Extract (hit x h) = ground arith
  select-Extract (pass x h m) = ground (arith, select-Extract m)

  pub select-Extract-none : {xs : List A} → Extract xs none → select p xs ≡ []
  select-Extract-none missing = refl
  select-Extract-none (pass_none x h m) = ground (arith, select-Extract-none m)

  pub select-Extract_other :
      (q : A → Bool) {xs ys : List A} {y : A}
      → Extract xs (some (y, ys))
      → q y ≡ false
      → select q xs ≡ select q ys
  select-Extract_other q (hit x h) e = ground arith
  select-Extract_other q (pass x h m) e = ground (arith, select-Extract_other q m e)

  pub length-Extract :
      {xs ys : List A} {y : A} → Extract xs (some (y, ys)) → length xs ≡ suc (length ys)
  length-Extract (hit x h) = refl
  length-Extract (pass x h m) = ap suc (length-Extract m)

  pub All-Extract {κ} :
      (P : A → Type κ) {xs ys : List A} {y : A}
      → Extract xs (some (y, ys))
      → All P xs
      → P y × All P ys
  All-Extract P (hit x h) a = a
  All-Extract P (pass x h m) (a, as_) = let (py, rest) = All-Extract P m as_ in (py, (a, rest))

  pub All-Extract-none : {xs : List A} → Extract xs none → All (λ x. p x ≡ false) xs
  All-Extract-none missing = tt
  All-Extract-none (pass_none x h m) = (h, All-Extract-none m)
