-- ===== src/Connect/Ends.antt =====
-- The end of a stream of the Connect protocol: the message that the handler makes of it, and what the
-- transport makes of that message.
use connect_es.Prelude.{
  ◌≡◌, refl, sym, ap, ◌∙◌, subst, false, Option, none, some, List, [], ◌∷◌, ◌++◌, append-nil,
  append_assoc,
}
use connect_es.Prelude.Text.Utf8.{encode}
use connect_es.Prelude.Text.Utf8.Decode.{decode-encode}
use connect_es.Headers.{Headers}
use connect_es.Headers.Order.{IsCanonical, set-last}
use connect_es.ConnectError.{ConnectError, Reason, connect_error, from, ok}
use connect_es.Stream.{Stream, done, next}
use connect_es.AsyncIterable.Envelopes.Plain.{with_end}
use connect_es.AsyncIterable.Envelopes.Ended.{finished}
use connect_es.EndStream.{sent_metadata, end_stream_to_json}
use connect_es.EndStream.Laws.{
  NoProto, IsSendable, arriving, end_stream_from_json-end_stream_to_json,
}
use connect_es.RequestHeader.{map_option}
use connect_es.RunCall.{aborted_stream}
use connect_es.Envelope.{Bytes, EnvelopedMessage}
use connect_es.Handler.{shown_error}
use connect_es.Connect.{
  Platform, end_stream_flag, failed_parse, parsed_end, end_stream_serialization,
}
use connect_es.Connect.Handler.{set_fields}
use connect_es.Connect.StreamHandler.{end_stream_message}
use connect_es.Connect.Transport.{read_chunks}
use connect_es.Connect.UnaryErrors.{IsPrinted}

-- The fields of a canonical list are set one behind the other.
set_fields-last : (g h : Headers) → IsCanonical (g ++ h) → set_fields h g ≡ g ++ h
unfolding set_fields
set_fields-last g [] c = sym (append-nil g)
set_fields-last g ((k, v) ∷ h) c =
    let snoc = append_assoc g ((k, v) ∷ []) h in
    ap (set_fields h) (set-last g k v h c)
    ∙ set_fields-last (g ++ (k, v) ∷ []) h (subst IsCanonical (sym snoc) c)
    ∙ snoc

-- The trailers that a client keeps.
abbrev pub kept_trailer : Headers → Option ConnectError → Headers
kept_trailer metadata none = metadata
kept_trailer metadata (some e) = []

pub read_chunks-finished :
    {O : Type 0} (ms : List O) (metadata : Headers) (error : Option ConnectError)
    → IsCanonical metadata
    → read_chunks false [] (finished ms (metadata, error))
      ≡ (with_end ms (map_option connect_error error), kept_trailer metadata error)
unfolding read_chunks
read_chunks-finished [] metadata none c = ap (λ t. (done, t)) (set_fields-last [] metadata c)
read_chunks-finished [] metadata (some e) c = refl
read_chunks-finished {O} (m ∷ ms) metadata error c =
    ap (λ (read : Stream O × Headers). (next m read.0, read.1))
      (read_chunks-finished ms metadata error c)

-- Errors of Connect stay as they are.
pub aborted_stream-ended :
    {O : Type 0} (ms : List O) (error : Option ConnectError)
    → aborted_stream (with_end ms (map_option connect_error error))
      ≡ with_end ms (map_option connect_error error)
unfolding from
aborted_stream-ended [] none = refl
aborted_stream-ended [] (some e) = refl
aborted_stream-ended (m ∷ ms) error = ap (next m) (aborted_stream-ended ms error)

module _ (p : Platform) (trailer : Headers) (result : Option Reason) where
  -- The metadata and the error that arrive.
  abbrev pub all_metadata : Headers
  all_metadata = sent_metadata trailer (map_option shown_error result)

  abbrev pub arrived : Option ConnectError
  arrived = arriving p.to_json all_metadata (map_option shown_error result)

  abbrev pub last : EnvelopedMessage
  last = record {
    flags = end_stream_flag;
    payload =
        encode (
          p.stringify (end_stream_to_json p.enc p.to_json trailer (map_option shown_error result)));
  }

  pub end_stream_message_lem : end_stream_message p trailer result ≡ ok (some last)
  unfolding end_stream_message
  end_stream_message_lem = refl

  pub parse-last :
      ((b : Bytes) → p.dec (p.enc b) ≡ some b)
      → IsCanonical all_metadata
      → NoProto all_metadata
      → IsSendable p.to_json (map_option shown_error result)
      → IsPrinted p (end_stream_to_json p.enc p.to_json trailer (map_option shown_error result))
      → (end_stream_serialization p).parse last.payload ≡ ok (all_metadata, arrived)
  unfolding end_stream_serialization
  parse-last base64 canonical no_proto sendable printed =
      let j = end_stream_to_json p.enc p.to_json trailer (map_option shown_error result) in
      ap (λ t. failed_parse p (parsed_end p (p.parse_json t)))
        (decode-encode (p.stringify j) printed.scalars printed.unmarked)
      ∙ ap (λ o. failed_parse p (parsed_end p o)) printed.read
      ∙ ap (failed_parse p) (
          end_stream_from_json-end_stream_to_json p.enc p.dec p.to_json base64 trailer
            (map_option shown_error result) canonical no_proto sendable)
