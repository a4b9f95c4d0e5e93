-- ===== src/Errors/Tables.antt =====
-- nats-micro-shared/src/lib.rs: the lookup that `define_error_code_enum!` writes for each table.
use nats_micro.Prelude.{
  ◌≡◌, List, [], ◌∷◌, Option, some, none, Str, str_eq, str_eq_iff, if◌then◌else◌, arith,
}

module _ {V : Type 0} (as_code : V → Str) where
  -- The arms of `match code { $($code => Some($variant),)+ _ => None }`, from a table's row on.
  unfoldable pub find_code : List V → Str → Option V
  find_code [] code = none
  find_code (v ∷ vs) code = if str_eq (as_code v) code then some v else find_code vs code

  pub find_code_sound :
      (vs : List V) (code : Str) (v : V) → find_code vs code ≡ some v → as_code v ≡ code
  unfolding find_code
  find_code_sound [] code v e = cc
  find_code_sound (w ∷ vs) code v e =
      ground (arith, str_eq_iff (as_code w) code, find_code_sound vs code v)
