-- ===== src/Grpc/Status.antt =====
-- The status of a call over gRPC: what the handler writes, and what the client reads.
use connect_es.Prelude.{
  ◌≡◌, refl, ap, ◌∙◌, subst, inl, inr, Bool, true, false, Option, none, some, List, [], ◌∷◌,
}
use connect_es.Headers.{Headers, get, has}
use connect_es.ConnectError.{Reason, connect_error, from, Result, ok, err, map_result, ◌>>◌, ◌>>=◌}
use connect_es.Compression.{Compression}
use connect_es.TrailerStatus.{
  header_grpc_status, header_status_details, grpc_status_ok, Protobuf, throw_found,
  validate_trailer,
}
use connect_es.TrailerStatus.RoundTrip.{
  find_trailer_error-none, find_trailer_error-set_trailer_status,
}
use connect_es.TrailerStatus.Sendable.{IsFaithful, IsSendable, arrived_error}
use connect_es.RequestHeader.{header_grpc_encoding, map_option, name_of}
use connect_es.ValidateResponse.{
  response_compression, found_status, validate_grpc_response, with_response_compression,
  validate_grpc_response_with_compression,
}
use connect_es.Handler.{HandlerContext, Left, shown_error}
use connect_es.Grpc.Handler.{end_trailer}
use connect_es.Grpc.Negotiated.{Knows, response_compression-Knows}
use connect_es.Stream.{next, of_list, then_stream}
use connect_es.AsyncIterable.Envelopes.Plain.{with_end}
use connect_es.RunCall.{aborted_stream}
use connect_es.Grpc.Transport.{status_after}

-- How the stream of a client ends: with the error that the trailers show.
abbrev pub status_reason : Headers → Option Reason → Option Reason
status_reason trailer none = none
status_reason trailer (some r) = some (connect_error (arrived_error trailer (shown_error r)))

-- An implementation that leaves the fields of the protocol alone in its context.
pub record Keeps (c : HandlerContext) (left : Left) : Type 0 where
  pub encoding : get header_grpc_encoding left.header ≡ get header_grpc_encoding c.response_header
  pub header_status : get header_grpc_status left.header ≡ get header_grpc_status c.response_header
  pub header_details :
      get header_status_details left.header ≡ get header_status_details c.response_header
  pub status : get header_grpc_status left.trailer ≡ get header_grpc_status c.response_trailer
  pub details :
      get header_status_details left.trailer ≡ get header_status_details c.response_trailer

-- What a thrown reason shows can be sent.
abbrev pub Shows : Option Reason → Type 0
Shows none = Unit {0}
Shows (some r) = IsSendable (shown_error r)

abbrev pub thrown_status : Option Reason → Result (Unit {0})
thrown_status none = ok tt
thrown_status (some r) = err r

-- The status follows the messages.
pub then_stream-with_end :
    {O : Type 0} (trailer : Headers) (outs : List O) (result : Option Reason)
    → then_stream (of_list outs) (status_after (thrown_status (status_reason trailer result)))
      ≡ with_end outs (status_reason trailer result)
then_stream-with_end trailer [] none = refl
then_stream-with_end trailer [] (some r) = refl
then_stream-with_end trailer (a ∷ rest) result =
    ap (next a) (then_stream-with_end trailer rest result)

-- An error of Connect stays as it is.
pub aborted_stream-with_end :
    {O : Type 0} (trailer : Headers) (outs : List O) (result : Option Reason)
    → aborted_stream (with_end outs (status_reason trailer result))
      ≡ with_end outs (status_reason trailer result)
unfolding from
aborted_stream-with_end trailer [] none = refl
aborted_stream-with_end trailer [] (some r) = refl
aborted_stream-with_end trailer (a ∷ rest) result =
    ap (next a) (aborted_stream-with_end trailer rest result)

module _ (p : Protobuf) (f : IsFaithful p) where
  -- The trailers at the end of the body, and what a client finds in them.
  pub end_trailer_lem :
      (trailer : Headers) (result : Option Reason)
      → get header_grpc_status trailer ≡ some grpc_status_ok
      → get header_status_details trailer ≡ none
      → Shows result
      → (h : Headers) × (end_trailer p result trailer ≡ ok h)
        × (validate_trailer p h ≡ thrown_status (status_reason h result))
  unfolding end_trailer validate_trailer
  end_trailer_lem trailer none status details s = (
    trailer,
    refl,
    ap (λ r. r >>= throw_found p) (find_trailer_error-none p f trailer details (inr status)),
  )
  end_trailer_lem trailer (some r) status details s =
      let (h, written, found) =
        find_trailer_error-set_trailer_status p f trailer (some (shown_error r)) details
          (λ e same. subst IsSendable (cc) s) in
      (h, written, ap (λ r. r >>= throw_found p) found)

  -- The head of the response.
  found_status_lem :
      (h : Headers)
      → get header_grpc_status h ≡ none
      → get header_status_details h ≡ none
      → found_status p h ≡ ok false
  unfolding found_status validate_trailer has get
  found_status_lem h status details =
      ap (λ r. (r >>= throw_found p) >> ok (has header_grpc_status h))
        (find_trailer_error-none p f h details (inl status))
      ∙ ap (λ o. ok (elim o as (λ x. Bool) [ none ↦ false | some v ↦ true ])) status

  pub checked_head :
      (accept : List Compression) (compression : Option Compression) (h : Headers)
      → get header_grpc_encoding h ≡ map_option name_of compression
      → get header_grpc_status h ≡ none
      → get header_status_details h ≡ none
      → Knows accept compression
      → validate_grpc_response_with_compression p accept 200 h ≡ ok (false, compression)
  unfolding validate_grpc_response_with_compression validate_grpc_response
  checked_head accept compression h encoding status details k =
      ap (λ r. r >>= with_response_compression p accept h) (found_status_lem h status details)
      ∙ ap (λ o. map_result (λ c. (false, c)) (response_compression accept o h)) encoding
      ∙ ap (map_result (λ c. (false, c))) (response_compression-Knows accept compression h k)
