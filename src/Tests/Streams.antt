-- ===== src/Tests/Streams.antt =====
-- A streaming call over the Connect protocol at a concrete input: two numbers are echoed with a
-- compression, and the implementation then throws.
use connect_es.Prelude.{ℕ, ◌≡◌, refl, true, false, none, some, [], ◌∷◌, arith, if◌then◌else◌}
use connect_es.Prelude.Text.{Text, codes, text_eq, show_nat, parse_digits}
use connect_es.Headers.{get}
use connect_es.Compression.{negotiate_response}
use connect_es.ConnectError.{connect_error, ok}
use connect_es.Envelope.{EnvelopedMessage, envelope_compress}
use connect_es.Prelude.Text.Utf8.{encode}
use connect_es.Stream.{Stream, done, fails, next, of_list}
use connect_es.AsyncIterable.Envelopes.Plain.{with_end}
use connect_es.EndStream.{sent_metadata, end_stream_to_json}
use connect_es.Universal.{bidi_streaming, UniversalHandler}
use connect_es.UniversalClient.{create_method_url, handler_for, universal_handler_client}
use connect_es.Handler.{
  HandlerOptions, HandlerContext, unchanged, Output, MethodImpl, bidi_streaming_impl, shown_error,
}
use connect_es.Handler.Invoke.{transform_invoke_implementation}
use connect_es.Timeout.{parse_timeout, print_timeout}
use connect_es.Grpc.Transport.{TransportOptions}
use connect_es.Connect.{Platform}
use connect_es.Connect.UnaryErrors.{IsPrinted}
use connect_es.Connect.Ends.{last}
use connect_es.Connect.StreamHandler.{stream_context, stream_handle}
use connect_es.Connect.Transport.{connect_stream}
use connect_es.Connect.Served.{context_at}
use connect_es.Connect.Call.{connect_stream_call}
use connect_es.Tests.Calls.{
  numbers, path, server, new_number, pathname, client, prefixing-Inverts, prefixing-IsKnown, user,
  sent_once,
}
use connect_es.Tests.Unary.{enc, no_json, missing}

abbrev end_text : Text
end_text =
    codes
      "{\"error\":{\"code\":\"not_found\",\"message\":\"no such user\"},\"metadata\":{\"x-id\":[\"7\"]}}"

-- A platform that prints and parses the JSON of this end.
abbrev platform : Platform
platform = record {
  enc = enc;
  dec = λ s. some s;
  to_json = no_json;
  stringify = λ j. end_text;
  parse_json = λ s.
      if text_eq s end_text then some (end_stream_to_json enc no_json [] (some missing)) else none;
  search_params = λ url name. none;
}

end-IsPrinted : IsPrinted platform (end_stream_to_json enc no_json [] (some missing))
end-IsPrinted = record { scalars = ground arith; unmarked = refl; read = refl }

abbrev strict : HandlerOptions
strict = record server { require_connect_protocol_header = true }

abbrev echo : Stream ℕ → Stream (Output ℕ ℕ)
echo done = fails (connect_error missing)
echo (fails r) = fails r
echo (next n s) = next (Output.message n) (echo s)

abbrev impl : MethodImpl ℕ ℕ ℕ
impl = bidi_streaming_impl (λ s c. (echo s, unchanged c))

abbrev handler : UniversalHandler
handler = record {
  handle = stream_handle platform numbers numbers new_number strict impl;
  protocol_names = codes "connect" ∷ [];
  service = 1;
  method = record { identity = 2; kind = bidi_streaming };
  request_path = path;
  allowed_methods = codes "POST" ∷ [];
  supported_content_type = λ t. true;
}

abbrev caller : TransportOptions
caller = record client { http_client = universal_handler_client pathname (handler ∷ []) }

-- The context that the handler makes.
abbrev context : HandlerContext
context =
    context_at platform numbers numbers new_number strict impl caller false false bidi_streaming
      (codes "echo.Service") (codes "Echo") (some 500) user (of_list (7 ∷ 8 ∷ []))

abbrev end_envelope : EnvelopedMessage
end_envelope = record {
  flags = 3;
  payload = 1 ∷ (last platform [] (some (connect_error missing))).payload;
}

connect_stream_call_example :
    connect_stream platform numbers numbers false false bidi_streaming caller []
      (codes "echo.Service")
      (codes "Echo")
      (some 500)
      user
      (of_list (7 ∷ 8 ∷ []))
    ≡ ok (record {
      header = context.response_header;
      message = with_end (7 ∷ 8 ∷ []) (some (connect_error missing));
      trailer = [];
    })
unfolding get show_nat parse_digits handler_for create_method_url parse_timeout print_timeout
    connect_es.Compression.acceptable negotiate_response transform_invoke_implementation shown_error
    envelope_compress encode stream_context sent_metadata
connect_stream_call_example =
    connect_stream_call platform (λ b. refl) numbers numbers new_number strict impl caller false
      false bidi_streaming pathname (handler ∷ []) handler (codes "echo.Service") (codes "Echo")
      (some 500) user (7 ∷ 8 ∷ []) (7 ∷ 8 ∷ []) (some (connect_error missing)) (unchanged context)
      end_envelope refl refl refl refl (ground arith, tt) prefixing-IsKnown prefixing-IsKnown refl
      refl refl refl (omega arith) (omega arith) prefixing-Inverts prefixing-Inverts
      (sent_once 7, (sent_once 8, tt)) (sent_once 7, (sent_once 8, tt)) (refl, refl) refl
      (omega arith) (omega arith, omega arith) (refl, (refl, (tt, tt))) (refl, tt) (tt, tt)
      end-IsPrinted
