-- ===== src/Tests/Envelopes.antt =====
-- Envelopes and the transforms at concrete inputs.
use connect_es.Prelude.{
  ltb, if◌then◌else◌, ℕ, ◌≤◌, ◌≡◌, refl, ◌↔◌, none, some, List, [], ◌∷◌, ◌++◌, arith, length,
}
use connect_es.Code.{invalid_argument, resource_exhausted, data_loss}
use connect_es.ConnectError.{Reason, HasCode, ok, raise}
use connect_es.Compression.{Compression}
use connect_es.Stream.{Stream, done, fails, next, of_list, ending, then_stream, contents}
use connect_es.Envelope.{
  Bytes, EnvelopedMessage, be32, encode_envelope, encode_envelopes, envelope_compress,
}
use connect_es.Envelope.Encode.{encodings, encode_envelopes_lem}
use connect_es.Envelope.Reader.{enqueued, pull, read_messages}
use connect_es.Envelope.Reader.Laws.{read_messages-encode_envelopes}
use connect_es.Envelope.Reader.Defects.{pull_truncated, pull_stuck}
use connect_es.AsyncIterable.Split.{transform_split_envelope, transform_join_envelopes}
use connect_es.AsyncIterable.Split.Chunks.{transform_split_envelope-contents}
use connect_es.AsyncIterable.Split.RoundTrip.{split-join_envelopes}
use connect_es.AsyncIterable.Split.Errors.{split_truncated, split_too_large}
use connect_es.AsyncIterable.ReadAll.{number, parse_length_hint, read_all_bytes}
use connect_es.AsyncIterable.ReadAll.Laws.{Agrees, read_all_bytes_iff}
use connect_es.AsyncIterable.Envelopes.{
  Serialization, Parsed, message, end_stream, serialize_one, transform_serialize_envelope_end,
  transform_parse_envelope_end, transform_compress_envelope, transform_decompress_envelope,
}
use connect_es.AsyncIterable.Envelopes.Flags.{Inverts}
use connect_es.AsyncIterable.Envelopes.RoundTrip.{IsFaithful, messages_round_trip}

abbrev small : EnvelopedMessage
small = record { flags = 2; payload = 7 ∷ 8 ∷ [] }

abbrev empty_one : EnvelopedMessage
empty_one = record { flags = 0; payload = [] }

abbrev two : List EnvelopedMessage
two = small ∷ empty_one ∷ []

abbrev two_bytes : Bytes
two_bytes = 2 ∷ 0 ∷ 0 ∷ 0 ∷ 2 ∷ 7 ∷ 8 ∷ 0 ∷ 0 ∷ 0 ∷ 0 ∷ 0 ∷ []

two_encoded : encode_envelopes two ≡ two_bytes
unfolding encode_envelopes
two_encoded = refl

abbrev chunks : Stream Bytes
chunks = next (2 ∷ 0 ∷ 0 ∷ []) (next (0 ∷ 2 ∷ 7 ∷ []) (next (8 ∷ 0 ∷ 0 ∷ 0 ∷ 0 ∷ 0 ∷ []) done))

encode_envelopes_example : encode_envelopes two ≡ encodings two
encode_envelopes_example = encode_envelopes_lem two

read_messages_example : read_messages 3 [] chunks ≡ of_list two
unfolding encode_envelopes
read_messages_example = read_messages-encode_envelopes two chunks (omega arith) refl refl

abbrev cut_chunks : Stream Bytes
cut_chunks = next (2 ∷ 0 ∷ 0 ∷ []) (
    next (0 ∷ 2 ∷ 7 ∷ [])
      (next (8 ∷ 0 ∷ 0 ∷ 0 ∷ 0 ∷ 0 ∷ 2 ∷ 0 ∷ 0 ∷ 0 ∷ 9 ∷ 1 ∷ []) (next (2 ∷ []) done)))

pull_truncated_example :
    read_messages 4 [] cut_chunks ≡ of_list (two ++ record { flags = 2; payload = 1 ∷ 2 ∷ [] } ∷ [])
unfolding encode_envelopes
pull_truncated_example =
    pull_truncated 2 9 (1 ∷ 2 ∷ []) (omega arith) (omega arith) two cut_chunks (omega arith) refl
      refl

pull_stuck_example : pull (0 ∷ (be32 0xfffffffb ++ 1 ∷ [])) done ≡ record {
  outcome = enqueued empty_one;
  buffer = 0 ∷ (be32 0xfffffffb ++ 1 ∷ []);
  source = done;
}
pull_stuck_example = pull_stuck 0 (1 ∷ []) done

split_chunks_example :
    transform_split_envelope 100 chunks ≡ transform_split_envelope 100 (next two_bytes done)
split_chunks_example = transform_split_envelope-contents 100 chunks

split_join_example : transform_split_envelope 100 chunks ≡ of_list two
unfolding transform_join_envelopes
split_join_example = split-join_envelopes 100 two chunks (omega arith) (omega arith) refl refl

split_truncated_example :
    (r : Reason) × (transform_split_envelope 100 (next (2 ∷ 0 ∷ 0 ∷ 0 ∷ 2 ∷ 7 ∷ []) done)
      ≡ then_stream done (fails r))
    × HasCode invalid_argument r
unfolding encode_envelope
split_truncated_example =
    split_truncated 100 [] small (2 ∷ 0 ∷ 0 ∷ 0 ∷ 2 ∷ 7 ∷ []) (8 ∷ [])
      (next (2 ∷ 0 ∷ 0 ∷ 0 ∷ 2 ∷ 7 ∷ []) done) (omega arith) tt (omega arith) refl (λ e. cc)
      (λ e. cc) refl refl

split_too_large_example :
    (r : Reason) × (transform_split_envelope 1 (next (2 ∷ 0 ∷ 0 ∷ 0 ∷ 2 ∷ []) done)
      ≡ then_stream done (fails r))
    × HasCode resource_exhausted r
split_too_large_example =
    split_too_large 1 [] small [] (next (2 ∷ 0 ∷ 0 ∷ 0 ∷ 2 ∷ []) done) (omega arith) tt
      (omega arith) (omega arith) (omega arith) refl refl

read_all_example : (read_all_bytes chunks 100 (number 12) ≡ ok two_bytes) ↔ (
    (ending chunks ≡ none)
    × (two_bytes ≡ contents chunks)
    × (length two_bytes ≤ 100)
    × Agrees (parse_length_hint (number 12)) (length two_bytes))
read_all_example = read_all_bytes_iff chunks 100 (number 12) two_bytes

-- A compression that puts a byte in front, and refuses what is above the limit.
abbrev prefixing : Compression
prefixing = record {
  name = [];
  compress = λ b. ok (1 ∷ b);
  decompress = λ b max. elim b [
    | [] ↦ raise [] data_loss
    | x ∷ b' ↦ if ltb max (length b') then raise ([]) resource_exhausted else ok b'
  ];
}

prefixing-Inverts : Inverts (some prefixing) 100
prefixing-Inverts b z fits h = ground arith

abbrev squeezed : EnvelopedMessage
squeezed = record { flags = 3; payload = 1 ∷ 7 ∷ 8 ∷ [] }

abbrev raw : Serialization Bytes
raw = record { serialize = λ b. ok b; parse = λ b. ok b }

raw-IsFaithful : IsFaithful raw
raw-IsFaithful v b h = ground arith

abbrev conversation : List (Parsed Bytes Bytes)
conversation = message (7 ∷ 8 ∷ []) ∷ end_stream [] ∷ []

abbrev sent_chunks : Stream Bytes
sent_chunks = next (1 ∷ 0 ∷ 0 ∷ 0 ∷ 3 ∷ 1 ∷ 7 ∷ []) (next (8 ∷ 3 ∷ 0 ∷ 0 ∷ 0 ∷ 1 ∷ 1 ∷ []) done)

messages_round_trip_example :
    transform_parse_envelope_end raw 2 raw (
      transform_decompress_envelope (some prefixing) 100 (transform_split_envelope 100 sent_chunks))
    ≡ of_list conversation
unfolding serialize_one envelope_compress transform_join_envelopes transform_compress_envelope
    transform_serialize_envelope_end
messages_round_trip_example =
    messages_round_trip raw 2 raw raw-IsFaithful raw-IsFaithful (omega arith) (some prefixing) 0 100
      prefixing-Inverts conversation sent_chunks (omega arith)
      (
        (
          record { flags = 0; payload = 7 ∷ 8 ∷ [] },
          record { flags = 1; payload = 1 ∷ 7 ∷ 8 ∷ [] },
          refl,
          omega arith,
          refl,
          omega arith,
        ),
        (
          (
            record { flags = 2; payload = [] },
            record { flags = 3; payload = 1 ∷ [] },
            refl,
            omega arith,
            refl,
            omega arith,
          ),
          tt,
        ),
      )
      refl refl

abbrev one_value : Stream ℕ
one_value = next 5 done
