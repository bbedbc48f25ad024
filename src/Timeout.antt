-- ===== src/Timeout.antt =====
-- The timeout headers: parse-timeout.ts of packages/connect/src/protocol-connect and of
-- packages/connect/src/protocol-grpc, and their printing in request-header.ts of the same folders.
pub mod Laws
use connect_es.Prelude.{
  ℕ, ◌*◌, Bool, true, false, ◌&&◌, Option, none, some, [], ◌∷◌, ◌++◌, ltb, leb, ◌==◌, if◌then◌else◌,
  length,
}
use connect_es.Prelude.Text.{Text, codes, is_digit, show_nat, parse_digits}
use connect_es.Code.{invalid_argument}
use connect_es.ConnectError.{ConnectError, new_error}

-- What `parseTimeout` returns, with a timeout in the unit of the parser.
pub record Timeout : Type 0 where
  pub timeout : Option ℕ
  pub error : Option ConnectError

abbrev pub all_digits : Text → Bool
all_digits [] = true
all_digits (c ∷ s) = is_digit c && all_digits s

-- `\d{1,max}`, for a whole text.
pub digits_within : ℕ → Text → Bool
digits_within max [] = false
digits_within max (c ∷ s) = leb (length (c ∷ s)) max && all_digits (c ∷ s)

abbrev pub argument_error : Text → Option ConnectError
argument_error message = some (new_error message invalid_argument [])

pub exceeded : Text → ℕ → Option ConnectError
exceeded timeout max =
    argument_error (codes "timeout " ++ (timeout ++ (codes "ms must be <= " ++ show_nat max)))

-- `parseTimeout` of the Connect protocol, in milliseconds; `none` is `null`.
unfoldable pub parse_timeout : Option Text → ℕ → Timeout
unfolding digits_within exceeded
parse_timeout none max = record { timeout = none; error = none }
parse_timeout (some value) max =
    let timeout = parse_digits 0 value in
    if digits_within 10 value
    then (if ltb max timeout
        then record { timeout = some timeout; error = exceeded (show_nat timeout) max }
        else record { timeout = some timeout; error = none })
    else record {
      timeout = none;
      error = argument_error (codes "protocol error: invalid connect timeout value: " ++ value);
    }

-- The header that a Connect client sends.
unfoldable pub print_timeout : ℕ → Text
print_timeout timeout_ms = show_nat timeout_ms

-- `unitToMultiplicand`, in nanoseconds; a unit that the regular expression refuses has none.
abbrev pub unit_ns : ℕ → Option ℕ
unit_ns c =
    if c == b'H'
    then some (60 * 60 * 1000 * 1000000)
    else if c == b'M'
    then some (60 * 1000 * 1000000)
    else if c == b'S'
    then some (1000 * 1000000)
    else if c == b'm'
    then some 1000000
    else if c == b'u'
    then some 1000
    else if c == b'n'
    then some 1
    else none

-- The groups of `/^(\d{1,8})([HMSmun])$/`: the digits, and the last character.
abbrev pub split_unit : Text → Text × Option ℕ
split_unit [] = ([], none)
split_unit (c ∷ []) = ([], some c)
split_unit (c ∷ d ∷ s) = let (digits, unit) = split_unit (d ∷ s) in (c ∷ digits, unit)

abbrev unit_of : Option ℕ → Option ℕ
unit_of none = none
unit_of (some c) = unit_ns c

module _ (show_ms : ℕ → Text) where
  pub grpc_error : Text → Timeout
  grpc_error value = record {
    timeout = none;
    error = argument_error (codes "protocol error: invalid grpc timeout value: " ++ value);
  }

  read_grpc : Text → Text → Option ℕ → ℕ → Timeout
  unfolding digits_within exceeded grpc_error
  read_grpc value digits none max = grpc_error value
  read_grpc value digits (some multiplicand) max =
      let timeout = multiplicand * parse_digits 0 digits in
      if digits_within 8 digits
      then (if ltb (max * 1000000) timeout
          then record { timeout = some timeout; error = exceeded (show_ms timeout) max }
          else record { timeout = some timeout; error = none })
      else grpc_error value

  -- `parseTimeout` of the gRPC protocol, in nanoseconds, where the code has a floating point number
  -- of milliseconds, which `show_ms` prints.
  unfoldable pub parse_grpc_timeout : Option Text → ℕ → Timeout
  unfolding read_grpc
  parse_grpc_timeout none max = record { timeout = none; error = none }
  parse_grpc_timeout (some value) max =
      let (digits, unit) = split_unit value in read_grpc value digits (unit_of unit) max

-- The header that a gRPC client sends.
unfoldable pub print_grpc_timeout : ℕ → Text
print_grpc_timeout timeout_ms = show_nat timeout_ms ++ codes "m"
