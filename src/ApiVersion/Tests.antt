-- ===== src/ApiVersion/Tests.antt =====
-- Runs of package apiversion, and its theorems at concrete inputs.
use gobase.Base.{
  ℕ, ◌-◌, ◌^◌, ◌≡◌, refl, ◌↔◌, true, [], ◌∷◌, length, nat_comparable, bool_comparable,
  list_comparable,
}
use gobase.Base.Int.{pos}
use gobase.Base.Text.{codes}
use gobase.ApiVersion.{new_ver, lt, atoi}
use gobase.ApiVersion.Order.{Precedes, lt_iff}

abbrev wide : ℕ
wide = 2 ^ 63 - 1

numbers : (new_ver wide (codes "1.12.x.4")).parts ≡ pos 1 ∷ pos 12 ∷ []
unfolding new_ver atoi
numbers = refl

nine_parts : length (new_ver wide (codes "1.2.3.4.5.6.7.8.9")).parts ≡ 9
unfolding new_ver atoi
nine_parts = refl

ten_parts : length (new_ver wide (codes "1.2.3.4.5.6.7.8.9.10")).parts ≡ 8
unfolding new_ver atoi
ten_parts = refl

lt_iff_example :
    (lt (pos 1 ∷ pos 2 ∷ []) (pos 1 ∷ pos 3 ∷ []) ≡ true)
    ↔ Precedes (pos 1 ∷ pos 2 ∷ []) (pos 1 ∷ pos 3 ∷ [])
lt_iff_example = lt_iff (pos 1 ∷ pos 2 ∷ []) (pos 1 ∷ pos 3 ∷ [])
