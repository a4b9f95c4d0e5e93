-- ===== src/Client/Merging.antt =====
-- `merge_headers`, as all its values are read afterwards.
use nats_micro.Prelude.{
  ◌≡◌, refl, ap, sym, ◌∙◌, ◌≢◌, List, [], ◌∷◌, ◌++◌, Option, none, some, Str, str_eq, str_eq_iff,
  str_eq_refl, All, Distinct, if◌then◌else◌, Bool-cases, inl, inr,
}
use mathlib.Core.List.{append-nil, append_assoc}
use nats_micro.Headers.{HeaderMaps}
use nats_micro.Client.{HeaderEntries, append_all, insert_values, merge_entries, merge_headers}

-- All the values under a name, in their order.
abbrev pub all_in : List (Str × List Str) → Str → List Str
all_in [] name = []
all_in ((key, values) ∷ entries) name = if str_eq key name then values else all_in entries name

-- The values of a call, or those of the client where the call has none.
abbrev pub or_all : List Str → List Str → List Str
or_all [] others = others
or_all (value ∷ values) others = value ∷ values

abbrev pub names_of : List (Str × List Str) → List Str
names_of [] = []
names_of ((key, values) ∷ entries) = key ∷ names_of entries

all_in-none :
    (key : Str) (entries : List (Str × List Str))
    → All (λ other. key ≢ other) (names_of entries)
    → all_in entries key ≡ []
all_in-none key [] new = refl
all_in-none key ((other, values) ∷ entries) (differ, new) = elim (Bool-cases (str_eq other key)) [
  | inl same ↦ absurd (differ (sym ((str_eq_iff other key).0 same)))
  | inr apart ↦ rw apart (all_in-none key entries new)
]

-- `insert` replaces all the values of a name, and `append` adds one after them; both leave the other
-- names alone.
pub record IsHeaderEntries {H : Type 0} (maps : HeaderMaps H) (values : HeaderEntries H)
    : Type 0 where
  pub all-insert :
      (headers : H) (key name value : Str)
      → all_in (values.entries (maps.insert headers key value)) name
        ≡ (if str_eq key name then value ∷ [] else all_in (values.entries headers) name)
  pub all-append :
      (headers : H) (key name value : Str)
      → all_in (values.entries (values.append headers key value)) name ≡ (
          if str_eq key name
          then all_in (values.entries headers) key ++ value ∷ []
          else all_in (values.entries headers) name)

-- The values that headers, which there may not be, have under a name.
abbrev pub all_from : {H : Type 0} → HeaderEntries H → Option H → Str → List Str
all_from values none name = []
all_from values (some headers) name = all_in (values.entries headers) name

module _ {H : Type 0} (maps : HeaderMaps H) (values : HeaderEntries H)
    (laws : IsHeaderEntries maps values) where
  append_all-all :
      (headers : H) (key name : Str) (rest : List Str)
      → all_in (values.entries (append_all maps values headers key rest)) name ≡ (
          if str_eq key name
          then all_in (values.entries headers) key ++ rest
          else all_in (values.entries headers) name)
  append_all-all headers key name [] = elim (Bool-cases (str_eq key name)) [
    | inl same ↦
        rw (same, append-nil (all_in (values.entries headers) key))
          (ap (all_in (values.entries headers)) (sym ((str_eq_iff key name).0 same)))
    | inr other ↦ rw other refl
  ]
  append_all-all headers key name (value ∷ rest) =
      let later = append_all-all (values.append headers key value) key name rest in
      elim (Bool-cases (str_eq key name)) [
        | inl same ↦
            let added : all_in (values.entries (values.append headers key value)) key
                ≡ all_in (values.entries headers) key ++ value ∷ [] =
              laws.all-append headers key key value ∙ rw (str_eq_refl key) refl in
            later
            ∙ rw (same, added, append_assoc (all_in (values.entries headers) key) (value ∷ []) rest)
                refl
        | inr other ↦ later ∙ rw other (laws.all-append headers key name value ∙ rw other refl)
      ]

  insert_values-all :
      (headers : H) (key name : Str) (given : List Str)
      → all_in (values.entries (insert_values maps values headers key given)) name ≡ (
          if str_eq key name
          then or_all given (all_in (values.entries headers) name)
          else all_in (values.entries headers) name)
  insert_values-all headers key name [] = elim (Bool-cases (str_eq key name)) [
    | inl same ↦ rw same refl
    | inr other ↦ rw other refl
  ]
  insert_values-all headers key name (value ∷ rest) =
      let later = append_all-all (maps.insert headers key value) key name rest in
      elim (Bool-cases (str_eq key name)) [
        | inl same ↦
            let first : all_in (values.entries (maps.insert headers key value)) key ≡ value ∷ [] =
              laws.all-insert headers key key value ∙ rw (str_eq_refl key) refl in
            later ∙ rw (same, first) refl
        | inr other ↦ later ∙ rw other (laws.all-insert headers key name value ∙ rw other refl)
      ]

  -- One name of the call's headers, among others that differ from it.
  merge_one :
      (headers : H) (key name : Str) (given : List Str) (entries : List (Str × List Str))
      → All (λ other. key ≢ other) (names_of entries)
      → or_all
          (all_in entries name)
          (all_in (values.entries (insert_values maps values headers key given)) name)
        ≡ or_all (all_in ((key, given) ∷ entries) name) (all_in (values.entries headers) name)
  merge_one headers key name given entries new =
      ap (or_all (all_in entries name)) (insert_values-all headers key name given)
      ∙ elim (Bool-cases (str_eq key name)) [
        | inl same ↦
            let absent : all_in entries name ≡ [] =
              sym (ap (all_in entries) ((str_eq_iff key name).0 same))
              ∙ all_in-none key entries new in
            rw (same, absent) refl
        | inr other ↦ rw other refl
      ]

  merge_entries-all :
      (headers : H) (entries : List (Str × List Str)) (name : Str)
      → Distinct (names_of entries)
      → all_in (values.entries (merge_entries maps values headers entries)) name
        ≡ or_all (all_in entries name) (all_in (values.entries headers) name)
  unfolding merge_entries
  merge_entries-all headers [] name apart = refl
  merge_entries-all headers ((key, given) ∷ entries) name (new, apart) =
      merge_entries-all (insert_values maps values headers key given) entries name apart
      ∙ merge_one headers key name given entries new

  -- A map of headers iterates each name once.
  abbrev pub HasDistinctNames : Option H → Type 0
  HasDistinctNames none = Unit
  HasDistinctNames (some headers) = Distinct (names_of (values.entries headers))

  or_all-none : (given : List Str) → or_all given [] ≡ given
  or_all-none [] = refl
  or_all-none (value ∷ given) = refl

  -- Where the call's headers list each name once, the merged headers have, under every name, exactly
  -- the values that the call gives, all of them in their order, or those of the client's defaults
  -- where the call gives none under that name.
  pub merge_headers-all :
      (defaults per_call : Option H) (name : Str)
      → HasDistinctNames per_call
      → all_from values (merge_headers maps values defaults per_call) name
        ≡ or_all (all_from values per_call name) (all_from values defaults name)
  unfolding merge_headers
  merge_headers-all none none name apart = refl
  merge_headers-all none (some headers) name apart =
      sym (or_all-none (all_in (values.entries headers) name))
  merge_headers-all (some defaults) none name apart = refl
  merge_headers-all (some defaults) (some headers) name apart =
      merge_entries-all defaults (values.entries headers) name apart
