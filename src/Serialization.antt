-- ===== src/Serialization.antt =====
-- packages/connect/src/protocol/serialization.ts: messages to bytes, in the binary format and as JSON.
-- What a message type of @bufbuild/protobuf does with its options is a parameter.
pub mod Laws
use connect_es.Prelude.{ℕ, Bool, true, List, [], ◌++◌, if◌then◌else◌, length}
use connect_es.Prelude.Text.{Text, codes}
use connect_es.Prelude.Text.Utf8.{encode, decode}
use connect_es.Code.{invalid_argument, internal}
use connect_es.ConnectError.{
  js_error, other_value, Reason, connect_error, thrown, new_error, from, Result, ok, err,
  map_result, ◌>>◌, ◌>>=◌,
}
use connect_es.Limits.{assert_write_max_bytes, assert_read_max_bytes}
use connect_es.AsyncIterable.Envelopes.{Serialization}

-- `MessageType` with the methods of its messages, each of which may throw.
pub record MessageType (T : Type 0) : Type 0 where
  pub from_binary : List ℕ → Result T
  pub to_binary : T → Result (List ℕ)
  pub from_json_string : Text → Result T
  pub to_json_string : T → Result Text

-- `e instanceof Error ? e.message : String(e)`
abbrev pub message_of : Reason → Text
message_of (connect_error e) = e.message
message_of (thrown (js_error name text)) = text
message_of (thrown (other_value text)) = text

abbrev catch_with {ℓ} : {A : Type ℓ} → (Reason → Reason) → Result A → Result A
catch_with f (ok a) = ok a
catch_with f (err r) = err (f r)

module _ {T : Type 0} where
  -- `createBinarySerialization`
  pub create_binary_serialization : MessageType T → Serialization T
  unfolding new_error
  create_binary_serialization t = record {
    parse = λ bytes.
        catch_with
          (λ r.
            connect_error (new_error (codes "parse binary: " ++ message_of r) invalid_argument []))
          (t.from_binary bytes);
    serialize = λ value.
        catch_with
          (λ r. connect_error (new_error (codes "serialize binary: " ++ message_of r) internal []))
          (t.to_binary value);
  }

  -- `createJsonSerialization`, with the encoder and the decoder of the platform.
  pub create_json_serialization : MessageType T → Serialization T
  unfolding from encode decode
  create_json_serialization t = record {
    parse = λ bytes.
        catch_with (λ r. connect_error (from r invalid_argument))
          (t.from_json_string (decode bytes));
    serialize = λ value.
        catch_with (λ r. connect_error (from r internal))
          (map_result encode (t.to_json_string value));
  }

  -- `limitSerialization`
  pub limit_serialization : ℕ → ℕ → Serialization T → Serialization T
  unfolding assert_write_max_bytes assert_read_max_bytes
  limit_serialization write_max_bytes read_max_bytes s = record {
    serialize = λ value. s.serialize value >>= λ bytes.
        assert_write_max_bytes write_max_bytes (length bytes) >> ok bytes;
    parse = λ bytes. assert_read_max_bytes read_max_bytes (length bytes) true >> s.parse bytes;
  }

  -- `getI` and `getO` of `createMethodSerializationLookup`, for one of the two message types.
  unfoldable pub serialization_lookup : MessageType T → ℕ → ℕ → Bool → Serialization T
  unfolding create_binary_serialization create_json_serialization limit_serialization
  serialization_lookup t write_max_bytes read_max_bytes binary =
      limit_serialization write_max_bytes read_max_bytes
        (if binary then create_binary_serialization t else create_json_serialization t)
