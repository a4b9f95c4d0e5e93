-- ===== src/Prelude/Maps.antt =====
-- `BTreeMap<String, V>` as the list of its entries in key order.
use mathlib.Core.Path.{◌≡◌, refl}
use mathlib.Core.Bool.{Bool, true, false, ◌&&◌}
use mathlib.Core.List.{List, [], ◌∷◌}
use mathlib.Core.Option.{Option, none, some}
use native.Mathlib.Omega.{arith}
use nats_micro.Prelude.Tests.{if◌then◌else◌, ltb, ◌==◌}
use nats_micro.Prelude.Lists.{All}
use nats_micro.Prelude.Text.{Str, str_eq, str_eq_iff}

-- The byte order of `str`.
unfoldable pub str_lt : Str → Str → Bool
str_lt [] [] = false
str_lt [] (b ∷ t) = true
str_lt (a ∷ s) [] = false
str_lt (a ∷ s) (b ∷ t) = let rest = str_lt s t in if ltb a b then true else a == b && rest

module _ {ℓ} {V : Type ℓ} where
  unfoldable pub lookup : Str → List (Str × V) → Option V
  lookup k [] = none
  lookup k ((j, v) ∷ m) = if str_eq j k then some v else lookup k m

  unfoldable pub insert : Str → V → List (Str × V) → List (Str × V)
  insert k v [] = (k, v) ∷ []
  insert k v ((j, w) ∷ m) =
      let rest = insert k v m in
      if str_eq j k then (k, v) ∷ m else if str_lt k j then (k, v) ∷ (j, w) ∷ m else (j, w) ∷ rest

  pub lookup-insert :
      (k j : Str) (v : V) (m : List (Str × V))
      → lookup j (insert k v m) ≡ (if str_eq k j then some v else lookup j m)
  unfolding lookup insert
  lookup-insert k j v [] = refl
  lookup-insert k j v ((i, w) ∷ m) =
      ground (arith, str_eq_iff k j, str_eq_iff i k, str_eq_iff i j, lookup-insert k j v m)

  abbrev pub values : List (Str × V) → List V
  values [] = []
  values ((k, v) ∷ m) = v ∷ values m

module _ {ℓ κ} {V : Type ℓ} (P : Str × V → Type κ) where
  pub All-insert :
      (k : Str) (v : V) (m : List (Str × V)) → P (k, v) → All P m → All P (insert k v m)
  unfolding insert
  All-insert k v [] h a = (h, tt)
  All-insert k v ((j, w) ∷ m) h a = ground (arith, All-insert k v m h a.1)

module _ {ℓ} {V : Type ℓ} where
  -- A map that gains a key keeps what the others hold.
  pub lookup-insert_new :
      (k j : Str) (v w : V) (m : List (Str × V))
      → lookup k m ≡ none
      → lookup j m ≡ some w
      → lookup j (insert k v m) ≡ some w
  lookup-insert_new k j v w m new old = ground (arith, lookup-insert k j v m, str_eq_iff k j)
