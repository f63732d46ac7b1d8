-- ===== src/Viewer/Settings.antt =====
-- src/v3xctrl_ui/core/Settings.py: the merge of the loaded settings into the defaults, the removal of
-- None before they are written, and the access by key. The file, TOML and the names of pygame's keys
-- are other people's.
pub mod Merge
use v3xctrl.Base.{ℕ, String, Bool, true, false, Option, none, some, ◌==◌, string_eq, if◌then◌else◌}

-- What TOML holds; `scalar` is a text, a number or a flag.
mutual
  pub data Value : Type 0 where
    null : Value
    scalar : ℕ → Value
    arr : Items → Value
    dict : Fields → Value

  pub data Items : Type 0 where
    nil : Items
    cons : Value → Items → Items

  pub data Fields : Type 0 where
    end : Fields
    field : String → Value → Fields → Fields

-- d.get(k)
unfoldable pub get_field : String → Fields → Option Value
get_field k end = none
get_field k (field j v d) = if j == k then some v else get_field k d

-- d[k] = v
unfoldable pub put_field : String → Value → Fields → Fields
put_field k v end = field k v end
put_field k v (field j w d) = if j == k then field j v d else field j w (put_field k v d)

-- `if key in self.settings: del self.settings[key]`
unfoldable pub delete_field : String → Fields → Fields
delete_field k end = end
delete_field k (field j w d) = let rest = delete_field k d in if j == k then d else field j w rest

-- _merge, with the override first: the loop over its items, and what one item becomes.
unfoldable mutual
  pub merge : Fields → Fields → Fields
  merge end base = base
  merge (field key value rest) base =
      merge rest (put_field key (merge_value value (get_field key base)) base)

  pub merge_value : Value → Option Value → Value
  merge_value (dict override) (some (dict base)) = dict (merge override base)
  merge_value (dict override) (some null) = dict override
  merge_value (dict override) (some (scalar n)) = dict override
  merge_value (dict override) (some (arr xs)) = dict override
  merge_value (dict override) none = dict override
  merge_value null base = null
  merge_value (scalar n) base = scalar n
  merge_value (arr xs) base = arr xs

-- _remove_none
unfoldable mutual
  pub remove_none : Value → Value
  remove_none null = null
  remove_none (scalar n) = scalar n
  remove_none (arr xs) = arr (remove_none_items xs)
  remove_none (dict d) = dict (remove_none_fields d)

  pub remove_none_items : Items → Items
  remove_none_items nil = nil
  remove_none_items (cons null xs) = remove_none_items xs
  remove_none_items (cons (scalar n) xs) = cons (scalar n) (remove_none_items xs)
  remove_none_items (cons (arr ys) xs) = cons (arr (remove_none_items ys)) (remove_none_items xs)
  remove_none_items (cons (dict d) xs) = cons (dict (remove_none_fields d)) (remove_none_items xs)

  pub remove_none_fields : Fields → Fields
  remove_none_fields end = end
  remove_none_fields (field k null d) = remove_none_fields d
  remove_none_fields (field k (scalar n) d) = field k (scalar n) (remove_none_fields d)
  remove_none_fields (field k (arr xs) d) =
      field k (arr (remove_none_items xs)) (remove_none_fields d)
  remove_none_fields (field k (dict e) d) =
      field k (dict (remove_none_fields e)) (remove_none_fields d)

pub record Settings : Type 0 where
  pub settings : Fields

-- load: `loaded` is what the file holds, if there is one.
unfoldable pub load : Fields → Option Fields → Settings
load defaults none = record { settings = defaults }
load defaults (some loaded) = record { settings = merge loaded defaults }

-- get, set and delete of Settings
unfoldable pub get_setting : String → Value → Settings → Value
get_setting key default s = elim (get_field key s.settings) [ none ↦ default | some v ↦ v ]

unfoldable pub set_setting : String → Value → Settings → Settings
set_setting key value s = record { settings = put_field key value s.settings }

unfoldable pub delete_setting : String → Settings → Settings
delete_setting key s = record { settings = delete_field key s.settings }
