-- ===== src/Utils.antt =====
-- utils/stringBoolCMap.go and utils/stringInt64CMap.go, which differ in the type of the values and its
-- zero. Each method holds the mutex for all of its body, so it is one step. A map is the list of its
-- entries; the latest entry of a key stands first.
pub mod Laws
use caddy_docker_proxy.Prelude.{
  Option, none, some, [], ◌∷◌, Entries, find_key, if◌then◌else◌, Text, text_eq,
}

pub record CMap (V : Type 0) : Type 0 where
  pub internal : Entries V

module _ {V : Type 0} where
  -- NewStringBoolCMap, NewStringInt64CMap
  abbrev pub new_cmap : CMap V
  new_cmap = record { internal = [] }

  -- `m.internal[key] = value`
  unfoldable pub set_value : Text → V → CMap V → CMap V
  set_value key value m = record { internal = (key, value) ∷ m.internal }

  abbrev pub or_zero : V → Option V → V
  or_zero zero_value none = zero_value
  or_zero zero_value (some value) = value

  -- `m.internal[key]`; the first argument is the zero value.
  unfoldable pub get_value : V → Text → CMap V → V
  unfolding find_key
  get_value zero_value key m = or_zero zero_value (find_key key m.internal)

  unfoldable pub without_key : Text → Entries V → Entries V
  unfolding text_eq
  without_key key [] = []
  without_key key ((k, v) ∷ es) =
      let rest = without_key key es in if text_eq k key then rest else (k, v) ∷ rest

  -- `delete(m.internal, key)`
  unfoldable pub delete_value : Text → CMap V → CMap V
  unfolding without_key
  delete_value key m = record { internal = without_key key m.internal }
