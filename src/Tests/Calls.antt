-- ===== src/Tests/Calls.antt =====
-- A streaming call over gRPC at a concrete input: two numbers are echoed with a compression, and the
-- implementation then throws.
use connect_es.Prelude.{
  ◌<◌, ltb, length, ◌≤◌, ℕ, ◌≡◌, refl, subst, Bool, true, false, some, List, [], ◌∷◌, arith,
  if◌then◌else◌, drop,
}
use connect_es.Prelude.Text.{Text, codes, text_eq}
use connect_es.Code.{data_loss, resource_exhausted}
use connect_es.Headers.{Headers}
use connect_es.Compression.{Compression, find_by_name}
use connect_es.ConnectError.{Reason, HasCode, err, connect_error, ok, raise}
use connect_es.Stream.{Stream, done, fails, next, of_list}
use connect_es.AsyncIterable.Envelopes.{message}
use connect_es.AsyncIterable.Envelopes.Flags.{Inverts}
use connect_es.Serialization.{MessageType, serialization_lookup}
use connect_es.Universal.{bidi_streaming, UniversalHandler}
use connect_es.UniversalClient.{universal_handler_client}
use connect_es.Handler.{
  HandlerOptions, HandlerContext, unchanged, Output, message, MethodImpl, bidi_streaming_impl,
}
use connect_es.Grpc.Handler.{grpc_handle}
use connect_es.Grpc.Transport.{TransportOptions}
use connect_es.Grpc.Negotiated.{IsKnown}
use connect_es.Grpc.Stages.{context_at}
use connect_es.Tests.Codec.{codec}
use connect_es.Tests.Statuses.{missing}
use connect_es.Envelope.{Bytes, EnvelopedMessage, envelope_compress}
use connect_es.AsyncIterable.Split.RoundTrip.{Fits}
use connect_es.Serialization.Laws.{IsFaithfulType, parse-serialize}
use connect_es.Prelude.Text.Utf8.{IsScalars, skip_bom}

-- Numbers as messages.
abbrev pub numbers : MessageType ℕ
numbers = record {
  from_binary = λ b. elim b [ [] ↦ raise (codes "premature EOF") data_loss | n ∷ rest ↦ ok n ];
  to_binary = λ n. ok (n ∷ []);
  from_json_string = λ s. elim s [ [] ↦ raise (codes "no JSON") data_loss | n ∷ rest ↦ ok n ];
  to_json_string = λ n. ok (n ∷ []);
}

-- A compression that puts a byte in front, and refuses what is above the limit.
abbrev pub prefixing : Compression
prefixing = record {
  name = codes "prefix";
  compress = λ b. ok (1 ∷ b);
  decompress = λ b max. elim b [
    | [] ↦ raise [] data_loss
    | x ∷ rest ↦
        if ltb max (length rest) then raise (codes "too large") resource_exhausted else ok rest
  ];
}

abbrev pub path : Text
path = codes "/echo.Service/Echo"

abbrev pub server : HandlerOptions
server = record {
  accept_compression = prefixing ∷ [];
  compress_min_bytes = 0;
  read_max_bytes = 100;
  write_max_bytes = 100;
  max_timeout_ms = 1000;
  require_connect_protocol_header = false;
}

abbrev echo : Stream ℕ → Stream (Output ℕ ℕ)
echo done = fails (connect_error missing)
echo (fails r) = fails r
echo (next n s) = next (message n) (echo s)

abbrev impl : MethodImpl ℕ ℕ ℕ
impl = bidi_streaming_impl (λ s c. (echo s, unchanged c))

abbrev pub show_ms : ℕ → Text
show_ms n = []

abbrev pub new_number : ℕ → ℕ
new_number n = n

abbrev handler : UniversalHandler
handler = record {
  handle = grpc_handle codec show_ms numbers numbers new_number server impl;
  protocol_names = codes "grpc" ∷ [];
  service = 1;
  method = record { identity = 2; kind = bidi_streaming };
  request_path = path;
  allowed_methods = codes "POST" ∷ [];
  supported_content_type = λ t. true;
}

-- The path behind "https://example.com".
abbrev pub pathname : Text → Text
pathname url = drop 19 url

abbrev pub client : TransportOptions
client = record {
  http_client = universal_handler_client pathname (handler ∷ []);
  base_url = codes "https://example.com/";
  use_binary_format = true;
  accept_compression = prefixing ∷ [];
  send_compression = some prefixing;
  compress_min_bytes = 0;
  read_max_bytes = 100;
  write_max_bytes = 100;
}

pub prefixing-Inverts : Inverts (some prefixing) 100
prefixing-Inverts b z small h = ground arith

pub prefixing-IsKnown : IsKnown (prefixing ∷ []) prefixing
unfolding find_by_name
prefixing-IsKnown = record { found = refl; proper = refl; visible = ground arith }

abbrev pub user : Headers
user = (codes "x-id", codes "7") ∷ []

-- The context that the handler makes.
abbrev context : HandlerContext
context =
    context_at codec show_ms numbers numbers new_number server impl client (codes "echo.Service")
      (codes "Echo") (some 500) user (of_list (7 ∷ 8 ∷ []))

pub sent_once :
    (n : ℕ)
    → (payload : Bytes) × (sent : EnvelopedMessage) × ((serialization_lookup numbers 100 100
            true).serialize
          n
        ≡ ok payload)
      × (length payload ≤ 100)
      × (envelope_compress (record { flags = 0; payload = payload }) (some prefixing) 0 ≡ ok sent)
      × Fits 100 sent
      × ((serialization_lookup numbers 100 100 true).parse payload ≡ ok n)
unfolding serialization_lookup envelope_compress
sent_once n = (
  n ∷ [],
  record { flags = 1; payload = 1 ∷ n ∷ [] },
  refl,
  omega arith,
  refl,
  (omega arith, omega arith),
  refl,
)

-- Truth values as messages.
abbrev flags : MessageType Bool
flags = record {
  from_binary = λ b. ok (elim b [ [] ↦ false | n ∷ rest ↦ true ]);
  to_binary = λ v. ok (if v then 1 ∷ [] else []);
  from_json_string = λ s. ok (text_eq s (codes "true"));
  to_json_string = λ v. ok (if v then codes "true" else codes "false");
}

from_binary-to_binary :
    (v : Bool) (b : List ℕ) → flags.to_binary v ≡ ok b → flags.from_binary b ≡ ok v
from_binary-to_binary true b h =
    let same : 1 ∷ [] ≡ b = cc in subst (λ b. flags.from_binary b ≡ ok true) same refl
from_binary-to_binary false b h =
    let same : [] ≡ b = cc in subst (λ b. flags.from_binary b ≡ ok false) same refl

json_lem :
    (v : Bool) (s : Text)
    → flags.to_json_string v ≡ ok s
    → (flags.from_json_string s ≡ ok v) × IsScalars s × (skip_bom s ≡ s)
json_lem true s h =
    let same : codes "true" ≡ s = cc in
    subst (λ s. (flags.from_json_string s ≡ ok true) × IsScalars s × (skip_bom s ≡ s)) same
      (refl, ground arith, refl)
json_lem false s h =
    let same : codes "false" ≡ s = cc in
    subst (λ s. (flags.from_json_string s ≡ ok false) × IsScalars s × (skip_bom s ≡ s)) same
      (refl, ground arith, refl)

flags-IsFaithful : IsFaithfulType flags
flags-IsFaithful = record {
  binary = from_binary-to_binary;
  json = λ v s h. (json_lem v s h).0;
  scalars = λ v s h. let (a, b, c) = json_lem v s h in (b, c);
}

parse-serialize_example :
    (4 ≤ 10)
    × (4 ≤ 4 → (serialization_lookup flags 10 4 false).parse (codes "true") ≡ ok true)
    × (4 < 4
        → (r : Reason) × ((serialization_lookup flags 10 4 false).parse (codes "true") ≡ err r)
          × HasCode resource_exhausted r)
unfolding serialization_lookup
parse-serialize_example =
    parse-serialize flags flags-IsFaithful true (codes "true") false 10 3 10 4 refl
