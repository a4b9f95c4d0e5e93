-- ===== src/Headers.antt =====
-- `async_nats::HeaderMap`, a package's type, as a parameter: its operations, and the laws that the
-- theorems rely on. The accessors in nats-micro/src go through it.
use nats_micro.Prelude.{
  ◌≡◌, Bool, Option, some, none, Str, str_eq, if◌then◌else◌, str_eq_refl, false, refl,
}

pub record HeaderMaps (H : Type 0) : Type 0 where
  pub new : H
  pub get : H → Str → Option Str
  pub insert : H → Str → Str → H
  -- whether a text parses as a `HeaderName`, and as a `HeaderValue`
  pub is_name : Str → Bool
  pub is_value : Str → Bool

pub record IsHeaderMaps {H : Type 0} (m : HeaderMaps H) : Type 0 where
  pub get-new : (key : Str) → m.get m.new key ≡ none
  pub get-insert :
      (headers : H) (key other value : Str)
      → m.get (m.insert headers key value) other
        ≡ (if str_eq key other then some value else m.get headers other)

module _ {H : Type 0} {maps : HeaderMaps H} (laws : IsHeaderMaps maps) where
  pub get-insert_same :
      (headers : H) (key value : Str) → maps.get (maps.insert headers key value) key ≡ some value
  get-insert_same headers key value =
      rw (laws.get-insert headers key key value, str_eq_refl key) refl

  pub get-insert_other :
      (headers : H) (key other value : Str)
      → str_eq key other ≡ false
      → maps.get (maps.insert headers key value) other ≡ maps.get headers other
  get-insert_other headers key other value differ =
      rw (laws.get-insert headers key other value, differ) refl
