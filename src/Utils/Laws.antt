-- ===== src/Utils/Laws.antt =====
-- The laws of the concurrent maps.
use caddy_docker_proxy.Prelude.{
  ◌≡◌, refl, inl, inr, none, [], ◌∷◌, arith, Entries, find_key, if◌then◌else◌, Bool-cases, Text,
  text_eq, text_eq_iff,
}
use caddy_docker_proxy.Utils.{CMap, set_value, get_value, without_key, delete_value}

module _ {V : Type 0} where
  -- A key reads as what was set last, and the other keys as before.
  pub get_value-set_value :
      (zero_value : V) (j k : Text) (v : V) (m : CMap V)
      → get_value zero_value j (set_value k v m)
        ≡ (if text_eq k j then v else get_value zero_value j m)
  unfolding get_value set_value find_key
  get_value-set_value zero_value j k v m = elim (Bool-cases (text_eq k j)) [
    | inl e ↦ rw e refl
    | inr e ↦ rw e refl
  ]

  find_key-without_key :
      (j k : Text) (es : Entries V)
      → find_key j (without_key k es) ≡ (if text_eq k j then none else find_key j es)
  unfolding without_key find_key
  find_key-without_key j k [] = elim (Bool-cases (text_eq k j)) [
    | inl e ↦ rw e refl
    | inr e ↦ rw e refl
  ]
  find_key-without_key j k ((l, v) ∷ es) =
      ground (arith, find_key-without_key j k es, text_eq_iff l k, text_eq_iff k j, text_eq_iff l j)

  -- A deleted key reads as the zero value, and the other keys as before.
  pub get_value-delete_value :
      (zero_value : V) (j k : Text) (m : CMap V)
      → get_value zero_value j (delete_value k m)
        ≡ (if text_eq k j then zero_value else get_value zero_value j m)
  unfolding get_value delete_value
  get_value-delete_value zero_value j k m =
      rw (find_key-without_key j k m.internal)
        (elim (Bool-cases (text_eq k j)) [ inl e ↦ rw e refl | inr e ↦ rw e refl ])
