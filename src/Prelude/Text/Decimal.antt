-- ===== src/Prelude/Text/Decimal.antt =====
-- The length and the digits of a number that is printed in decimal.
use connect_es.Prelude.{
  ℕ, zero, suc, ◌+◌, ◌*◌, ◌/◌, ◌%◌, ◌≤◌, ◌<◌, ◌↔◌, arith, [], ◌∷◌, length, length-append,
}
use connect_es.Prelude.Text.{show_fuel, show_nat}

abbrev pub power_of_ten : ℕ → ℕ
power_of_ten zero = 1
power_of_ten (suc k) = 10 * power_of_ten k

power_of_ten_pos : (k : ℕ) → 1 ≤ power_of_ten k
power_of_ten_pos zero = omega arith
power_of_ten_pos (suc k) = omega (arith, power_of_ten_pos k)

show_fuel_pos : (f n : ℕ) → n < f → 1 ≤ length (show_fuel f n)
unfolding show_fuel
show_fuel_pos zero n h = absurd (omega (arith, h))
show_fuel_pos (suc f) n h =
    ground (arith, length-append (show_fuel f (n / 10)) ((48 + n % 10) ∷ []))

length-show_fuel :
    (f n k : ℕ) → n < f → (length (show_fuel f n) ≤ suc k) ↔ (n < power_of_ten (suc k))
unfolding show_fuel
length-show_fuel zero n k h = absurd (omega (arith, h))
length-show_fuel (suc f) n zero h =
    ground
      (arith, show_fuel_pos f (n / 10), length-append (show_fuel f (n / 10)) ((48 + n % 10) ∷ []))
length-show_fuel (suc f) n (suc k) h = ground (
  arith,
  length-show_fuel f (n / 10) k,
  length-append (show_fuel f (n / 10)) ((48 + n % 10) ∷ []),
  power_of_ten_pos k,
)

-- A number is printed with at least one digit, and with `k + 1` digits at most if it is below that
-- power of ten.
pub length-show_nat :
    (n k : ℕ)
    → (1 ≤ length (show_nat n)) × ((length (show_nat n) ≤ suc k) ↔ (n < power_of_ten (suc k)))
unfolding show_nat
length-show_nat n k =
    (show_fuel_pos (n + 1) n (omega arith), length-show_fuel (n + 1) n k (omega arith))
