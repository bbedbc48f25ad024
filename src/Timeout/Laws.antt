-- ===== src/Timeout/Laws.antt =====
-- A server reads the timeout that a client sends.
use connect_es.Prelude.{
  ℕ, zero, suc, ◌+◌, ◌*◌, ◌/◌, ◌%◌, ◌≤◌, ◌≡◌, refl, ap, ◌∙◌, true, none, some, [], ◌∷◌, ◌++◌, arith,
  ltb, leb, if◌then◌else◌, length,
}
use connect_es.Prelude.Text.{Text, codes, show_fuel, show_nat, parse_digits-show_nat}
use connect_es.Prelude.Text.Decimal.{power_of_ten, length-show_nat}
use connect_es.Timeout.{
  all_digits, digits_within, argument_error, exceeded, parse_timeout, print_timeout, split_unit,
  grpc_error, parse_grpc_timeout, print_grpc_timeout, unit_of, read_grpc,
}

all_digits-append :
    (s t : Text) → all_digits s ≡ true → all_digits t ≡ true → all_digits (s ++ t) ≡ true
all_digits-append [] t a b = b
all_digits-append (c ∷ s) t a b = ground (arith, all_digits-append s t)

all_digits-show_fuel : (f n : ℕ) → all_digits (show_fuel f n) ≡ true
unfolding show_fuel
all_digits-show_fuel zero n = refl
all_digits-show_fuel (suc f) n = ground (
  arith,
  all_digits-show_fuel f (n / 10),
  all_digits-append (show_fuel f (n / 10)) ((48 + n % 10) ∷ []),
)

all_digits-show_nat : (n : ℕ) → all_digits (show_nat n) ≡ true
unfolding show_nat
all_digits-show_nat n = all_digits-show_fuel (n + 1) n

digits_within-true :
    (max : ℕ) (s : Text)
    → 1 ≤ length s
    → all_digits s ≡ true
    → digits_within max s ≡ leb (length s) max
unfolding digits_within
digits_within-true max [] pos d = absurd (omega (arith, pos))
digits_within-true max (c ∷ s) pos d = ground (arith, d)

-- A printed number is a timeout of at most `k + 1` digits exactly if it is below that power of ten.
digits_within-show_nat :
    (k n : ℕ) → digits_within (suc k) (show_nat n) ≡ ltb n (power_of_ten (suc k))
digits_within-show_nat k n =
    let (pos, fits) = length-show_nat n k in
    digits_within-true (suc k) (show_nat n) pos (all_digits-show_nat n) ∙ ground (arith, fits)

-- The timeout of a Connect client is read by the server: below 10^10 milliseconds, which are ten
-- digits, the server gets it, with an error exactly if it exceeds the server's maximum; from there
-- on the server answers `InvalidArgument`.
pub parse_timeout-print_timeout :
    (n max : ℕ)
    → parse_timeout (some (print_timeout n)) max ≡ (
        if ltb n 10000000000
        then (if ltb max n
            then record { timeout = some n; error = exceeded (show_nat n) max }
            else record { timeout = some n; error = none })
        else record {
          timeout = none;
          error =
              argument_error
                (codes "protocol error: invalid connect timeout value: " ++ show_nat n);
        })
unfolding parse_timeout print_timeout
parse_timeout-print_timeout n max = rw (digits_within-show_nat 9 n, parse_digits-show_nat n) refl

split_unit-append : (s : Text) (c : ℕ) → split_unit (s ++ c ∷ []) ≡ (s, some c)
split_unit-append [] c = refl
split_unit-append (a ∷ []) c = refl
split_unit-append (a ∷ b ∷ s) c = ap (λ (s, u). (a ∷ s, u)) (split_unit-append (b ∷ s) c)

ltb-scaled : (max n : ℕ) → ltb (max * 1000000) (1000000 * n) ≡ ltb max n
ltb-scaled max n = ground arith

-- The timeout of a gRPC client, in milliseconds, is read by the server if it is below 10^8, which
-- are the eight digits of the protocol, with an error exactly if it exceeds the server's maximum.
-- The client sends a longer timeout all the same, and the server answers `InvalidArgument`.
pub parse_grpc_timeout-print_grpc_timeout :
    (show_ms : ℕ → Text) (n max : ℕ)
    → parse_grpc_timeout show_ms (some (print_grpc_timeout n)) max ≡ (
        if ltb n 100000000
        then (if ltb max n
            then record {
              timeout = some (1000000 * n);
              error = exceeded (show_ms (1000000 * n)) max;
            }
            else record { timeout = some (1000000 * n); error = none })
        else grpc_error show_ms (show_nat n ++ codes "m"))
unfolding parse_grpc_timeout print_grpc_timeout read_grpc
parse_grpc_timeout-print_grpc_timeout show_ms n max =
    ap (λ (s, u). read_grpc show_ms (print_grpc_timeout n) s (unit_of u) max)
      (split_unit-append (show_nat n) b'm')
    ∙ rw (digits_within-show_nat 7 n, parse_digits-show_nat n, ltb-scaled max n) refl
