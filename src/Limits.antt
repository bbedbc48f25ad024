-- ===== src/Limits.antt =====
-- packages/connect/src/protocol/limit-io.ts: the limits on message sizes.
use connect_es.Prelude.{
  ℕ, ◌≤◌, ◌<◌, ◌≡◌, refl, ◌↔◌, Bool, ◌||◌, Option, ◌++◌, arith, ltb, if◌then◌else◌, lt→ltb, or_else,
}
use connect_es.Prelude.Text.{Text, codes, show_nat}
use connect_es.Code.{resource_exhausted, internal}
use connect_es.ConnectError.{Reason, HasCode, Result, ok, err, ◌>>◌, raise}

abbrev pub max_read_max_bytes : ℕ
max_read_max_bytes = 0xffffffff

abbrev pub max_write_max_bytes : ℕ
max_write_max_bytes = max_read_max_bytes

abbrev pub default_compress_min_bytes : ℕ
default_compress_min_bytes = 1024

pub record IoLimits : Type 0 where
  pub read_max_bytes : ℕ
  pub write_max_bytes : ℕ
  pub compress_min_bytes : ℕ

limit_message : Text → ℕ → ℕ → Text
limit_message option value max =
    option ++ (codes " " ++ (show_nat value ++ (codes " must be >= 1 and <= " ++ show_nat max)))

-- `x < 1 || x > max` fails with `Internal`.
check_limit : Text → ℕ → ℕ → Result (Unit {0})
unfolding limit_message
check_limit option value max =
    if ltb value 1 || ltb max value then raise (limit_message option value max) internal else ok tt

-- `validateReadWriteMaxBytes`; `none` is `undefined`.
unfoldable pub validate_read_write_max_bytes : Option ℕ → Option ℕ → Option ℕ → Result IoLimits
unfolding check_limit
validate_read_write_max_bytes read write compress = do
  let write_max_bytes = or_else write max_write_max_bytes
  let read_max_bytes = or_else read max_read_max_bytes
  let compress_min_bytes = or_else compress default_compress_min_bytes
  check_limit (codes "writeMaxBytes") write_max_bytes max_write_max_bytes
  check_limit (codes "readMaxBytes") read_max_bytes max_read_max_bytes
  ok (record {
    read_max_bytes = read_max_bytes;
    write_max_bytes = write_max_bytes;
    compress_min_bytes = compress_min_bytes;
  })

-- `assertWriteMaxBytes`
unfoldable pub assert_write_max_bytes : ℕ → ℕ → Result (Unit {0})
assert_write_max_bytes write_max_bytes bytes_written =
    if ltb write_max_bytes bytes_written
    then raise
        (codes "message size "
          ++ (show_nat bytes_written
              ++ (codes " is larger than configured writeMaxBytes " ++ show_nat write_max_bytes)))
        resource_exhausted
    else ok tt

-- `assertReadMaxBytes`
unfoldable pub assert_read_max_bytes : ℕ → ℕ → Bool → Result (Unit {0})
assert_read_max_bytes read_max_bytes bytes_read total_size_known =
    if ltb read_max_bytes bytes_read
    then raise
        (if total_size_known
          then codes "message size "
            ++ (show_nat bytes_read
                ++ (codes " is larger than configured readMaxBytes " ++ show_nat read_max_bytes))
          else codes "message size is larger than configured readMaxBytes "
            ++ show_nat read_max_bytes)
        resource_exhausted
    else ok tt

-- The range that both limits must lie in.
abbrev pub InRange : ℕ → Type 0
InRange n = (1 ≤ n) × (n ≤ 0xffffffff)

check_limit_ok :
    (option : Text) (value : ℕ) → InRange value → check_limit option value 0xffffffff ≡ ok tt
unfolding check_limit
check_limit_ok option value h = ground arith

check_limit_sound :
    (option : Text) (value : ℕ) → check_limit option value 0xffffffff ≡ ok tt → InRange value
unfolding check_limit raise
check_limit_sound option value h = ground arith

-- Valid limits are exactly those in the range from 1 to 2^32 - 1, after the defaults; they are
-- returned with the defaults filled in, and `compressMinBytes` is not checked.
pub validate_read_write_max_bytes_iff :
    (read write compress : Option ℕ) (l : IoLimits)
    → (validate_read_write_max_bytes read write compress ≡ ok l) ↔ (
        InRange (or_else read 0xffffffff)
        × InRange (or_else write 0xffffffff)
        × (l ≡ record {
          read_max_bytes = or_else read 0xffffffff;
          write_max_bytes = or_else write 0xffffffff;
          compress_min_bytes = or_else compress 1024;
        }))
unfolding validate_read_write_max_bytes
validate_read_write_max_bytes_iff read write compress l = ground (
  arith,
  check_limit_ok (codes "writeMaxBytes") (or_else write 0xffffffff),
  check_limit_ok (codes "readMaxBytes") (or_else read 0xffffffff),
  check_limit_sound (codes "writeMaxBytes") (or_else write 0xffffffff),
  check_limit_sound (codes "readMaxBytes") (or_else read 0xffffffff),
)

pub assert_read_max_bytes-ok :
    (max n : ℕ) (known : Bool) → n ≤ max → assert_read_max_bytes max n known ≡ ok tt
unfolding assert_read_max_bytes
assert_read_max_bytes-ok max n known h = ground arith

pub assert_read_max_bytes-large :
    (max n : ℕ) (known : Bool)
    → max < n
    → (r : Reason) × (assert_read_max_bytes max n known ≡ err r) × HasCode resource_exhausted r
unfolding assert_read_max_bytes raise
assert_read_max_bytes-large max n known h = rw (lt→ltb max n h) (_, refl, refl)
