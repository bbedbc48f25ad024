-- ===== src/Tests/Codes.antt =====
-- Codes, errors, limits and timeouts at concrete inputs.
use connect_es.Prelude.{ℕ, ◌/◌, ◌≡◌, refl, none, some}
use connect_es.Prelude.Text.{Text, codes, show_nat}
use connect_es.Code.{permission_denied, foreign}
use connect_es.Code.Names.{code_to_string, code_from_string}
use connect_es.Timeout.{
  parse_timeout, print_timeout, grpc_error, parse_grpc_timeout, print_grpc_timeout,
}
use connect_es.Timeout.Laws.{parse_timeout-print_timeout, parse_grpc_timeout-print_grpc_timeout}

snake_case : code_to_string permission_denied ≡ codes "permission_denied"
unfolding code_to_string
snake_case = refl

code_from_string_constructor :
    code_from_string (codes "constructor")
    ≡ some (foreign (codes "function Object() { [native code] }"))
unfolding code_from_string
code_from_string_constructor = refl

parse_timeout-print_timeout_example :
    parse_timeout (some (print_timeout 2500)) 3000 ≡ record { timeout = some 2500; error = none }
parse_timeout-print_timeout_example = parse_timeout-print_timeout 2500 3000

abbrev show_ms : ℕ → Text
show_ms ns = show_nat (ns / 1000000)

-- A client's timeout of more than 27 hours is refused.
parse_grpc_timeout-print_grpc_timeout_example :
    parse_grpc_timeout show_ms (some (print_grpc_timeout 100000000)) 200000000
    ≡ grpc_error show_ms (codes "100000000m")
unfolding show_nat
parse_grpc_timeout-print_grpc_timeout_example =
    parse_grpc_timeout-print_grpc_timeout show_ms 100000000 200000000
