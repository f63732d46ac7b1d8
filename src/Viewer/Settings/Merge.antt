-- ===== src/Viewer/Settings/Merge.antt =====
-- What the merged settings hold at each key.
use v3xctrl.Base.{
  ◌≡◌, refl, String, Option, none, some, List, [], ◌∷◌, ◌==◌, string_eq, arith, if◌then◌else◌,
  Bool-cases, inl, inr,
}
use v3xctrl.Viewer.Settings.{
  Value, null, scalar, arr, dict, Fields, end, field, get_field, put_field, merge, merge_value,
}

-- No key stands twice, as in any Python dict.
abbrev pub UniqueFields : Fields → Type 0
UniqueFields end = Unit
UniqueFields (field k v d) = (get_field k d ≡ none) × UniqueFields d

pub get_field-put_field :
    (k j : String) (v : Value) (d : Fields)
    → get_field j (put_field k v d) ≡ (if k == j then some v else get_field j d)
unfolding get_field put_field
get_field-put_field k j v end = refl
get_field-put_field k j v (field i w d) = ground (
  arith,
  string_eq.same_iff i k,
  string_eq.same_iff i j,
  string_eq.same_iff k j,
  get_field-put_field k j v d,
)

-- The value at a key from the loaded one and the default.
abbrev pub merged : Option Value → Option Value → Option Value
merged none base = base
merged (some v) base = some (merge_value v base)

-- One step: the default where the file has none, else what becomes of the file's value.
pub get_field-merge :
    (override base : Fields) (k : String)
    → UniqueFields override
    → get_field k (merge override base) ≡ merged (get_field k override) (get_field k base)
unfolding merge get_field
get_field-merge end base k u = refl
get_field-merge (field j v rest) base k u =
    let base' = put_field j (merge_value v (get_field j base)) base in
    let ih = get_field-merge rest base' k u.1 in
    let put = get_field-put_field j k (merge_value v (get_field j base)) base in
    elim (Bool-cases (j == k)) [
      | inl e ↦ ground (arith, string_eq.same_iff j k)
      | inr e ↦ ground arith
    ]

-- What stands at a path of keys: nothing, a dict, a value that is none, or such a value before the
-- path's end.
pub data Found : Type 0 where
  absent branch blocked : Found
  leaf : Value → Found

pub find : List String → Option Value → Found
find [] none = absent
find [] (some (dict d)) = branch
find [] (some null) = leaf null
find [] (some (scalar n)) = leaf (scalar n)
find [] (some (arr xs)) = leaf (arr xs)
find (k ∷ path) none = absent
find (k ∷ path) (some (dict d)) = find path (get_field k d)
find (k ∷ path) (some null) = blocked
find (k ∷ path) (some (scalar n)) = blocked
find (k ∷ path) (some (arr xs)) = blocked

-- The value at the path, if it is there and no dict.
pub leaf_of : Found → Option Value
leaf_of (leaf v) = some v
leaf_of absent = none
leaf_of branch = none
leaf_of blocked = none

-- The first layer decides, unless it has nothing there.
pub over : Found → Found → Option Value
unfolding leaf_of
over absent f = leaf_of f
over (leaf v) f = some v
over branch f = none
over blocked f = none

-- No key stands twice in any dict, as in Python; lists are not looked into.
unfoldable mutual
  pub IsUnique : Value → Type 0
  IsUnique (dict d) = AreUnique d
  IsUnique null = Unit {0}
  IsUnique (scalar n) = Unit {0}
  IsUnique (arr xs) = Unit {0}

  pub AreUnique : Fields → Type 0
  AreUnique end = Unit {0}
  AreUnique (field k v d) = (get_field k d ≡ none) × IsUnique v × AreUnique d
