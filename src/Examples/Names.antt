-- ===== src/Examples/Names.antt =====
-- Names with a hash whose digits are all 0.
use exalsius_operator.Naming.{bounded_name, waypoint_name, is_alnum}
use exalsius_operator.Naming.Bounds.{IsHex, bounded_name_fits, waypoint_name_fits}
use exalsius_operator.Prelude.{
  ℕ, zero, suc, ◌*◌, ◌≤◌, ◌≡◌, refl, true, [], ◌∷◌, arith, Text, bytes, length, all,
}

abbrev zeros : ℕ → Text
zeros zero = []
zeros (suc n) = b'0' ∷ b'0' ∷ zeros n

abbrev zero_hash : ℕ → Text → Text
zero_hash n t = zeros n

length-zeros : (n : ℕ) → length (zeros n) ≡ 2 * n
length-zeros zero = refl
length-zeros (suc n) = omega (arith, length-zeros n)

zeros_alnum : (n : ℕ) → all is_alnum (zeros n) ≡ true
unfolding is_alnum
zeros_alnum zero = refl
zeros_alnum (suc n) = zeros_alnum n

zero_hash-IsHex : IsHex zero_hash
zero_hash-IsHex = record { digits = λ n t. length-zeros n; alnum = λ n t. zeros_alnum n }

abbrev long_name : Text
long_name = bytes "wsd-a-cluster-deployment-with-a-long-name-a-workspace-with-a-long-name"

bounded_name_fits_example : length (bounded_name zero_hash long_name) ≤ 63
bounded_name_fits_example = bounded_name_fits zero_hash zero_hash-IsHex long_name

waypoint_name_fits_example : length (waypoint_name zero_hash long_name) ≤ 63
waypoint_name_fits_example = waypoint_name_fits zero_hash zero_hash-IsHex long_name
