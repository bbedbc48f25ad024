-- ===== src/Handler/Invoke.antt =====
-- packages/connect/src/protocol/invoke-implementation.ts
use connect_es.Prelude.{[], ◌++◌}
use connect_es.Prelude.Text.{Text, codes}
use connect_es.Code.{invalid_argument}
use connect_es.ConnectError.{Reason, connect_error, new_error, Result, ok, err, map_result}
use connect_es.Stream.{Stream, done, fails, next, then_stream}
use connect_es.Handler.{
  HandlerContext, Left, unchanged, Output, normalize, MethodImpl, unary_impl, server_streaming_impl,
  client_streaming_impl, bidi_streaming_impl,
}

missing : Text → Reason
unfolding new_error
missing kind = connect_error (
    new_error (codes "protocol error: missing input message for " ++ (kind ++ codes " method"))
      invalid_argument [])

extra : Text → Reason
unfolding new_error
extra kind = connect_error (
    new_error
      (codes "protocol error: received extra input message for " ++ (kind ++ codes " method"))
      invalid_argument [])

module _ {O P : Type 0} (new_type : P → O) where
  -- `normalizeIterable`
  abbrev pub normalize_iterable : Stream (Output O P) → Stream O
  normalize_iterable done = done
  normalize_iterable (fails r) = fails r
  normalize_iterable (next a s) = next (normalize new_type a) (normalize_iterable s)

  abbrev yield_result : Result (Output O P) → Stream O → Stream O
  yield_result (ok o) s = next (normalize new_type o) s
  yield_result (err r) s = fails r

  client_output : Result (Output O P) × Left → Stream O × Left
  client_output (r, left) = (yield_result r done, left)

  bidi_output : Stream (Output O P) × Left → Stream O × Left
  bidi_output (s, left) = (normalize_iterable s, left)

module _ {I O : Type 0} where
  -- `if (input2.done !== true)`
  abbrev no_more : Text → Stream I → Stream O
  unfolding extra
  no_more kind done = done
  no_more kind (fails r) = fails r
  no_more kind (next a s) = fails (extra kind)

module _ {I O P : Type 0} (new_type : P → O) where
  unary_output : Result (Output O P) × Left → Stream I → Stream O × Left
  unfolding no_more
  unary_output (r, left) rest = (yield_result new_type r (no_more (codes "unary") rest), left)

  server_output : Stream (Output O P) × Left → Stream I → Stream O × Left
  unfolding no_more
  server_output (s, left) rest =
      (then_stream (normalize_iterable new_type s) (no_more (codes "server-streaming") rest), left)

  -- `transformInvokeImplementation`
  unfoldable pub transform_invoke_implementation :
      MethodImpl I O P → HandlerContext → Stream I → Stream O × Left
  unfolding unary_output server_output client_output bidi_output missing
  transform_invoke_implementation (unary_impl f) c done =
      (fails (missing (codes "unary")), unchanged c)
  transform_invoke_implementation (unary_impl f) c (fails r) = (fails r, unchanged c)
  transform_invoke_implementation (unary_impl f) c (next a s) = unary_output (f a c) s
  transform_invoke_implementation (server_streaming_impl f) c done =
      (fails (missing (codes "server-streaming")), unchanged c)
  transform_invoke_implementation (server_streaming_impl f) c (fails r) = (fails r, unchanged c)
  transform_invoke_implementation (server_streaming_impl f) c (next a s) = server_output (f a c) s
  transform_invoke_implementation (client_streaming_impl f) c s = client_output new_type (f s c)
  transform_invoke_implementation (bidi_streaming_impl f) c s = bidi_output new_type (f s c)

  -- `invokeUnaryImplementation`
  unfoldable pub invoke_unary_implementation :
      (I → HandlerContext → Result (Output O P) × Left) → HandlerContext → I → Result O × Left
  invoke_unary_implementation f c input =
      let (r, left) = f input c in (map_result (normalize new_type) r, left)
