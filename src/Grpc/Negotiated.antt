-- ===== src/Grpc/Negotiated.antt =====
-- The compressions and the serializations of a call, as both sides agree on them.
use connect_es.Prelude.{
  ◌≡◌, refl, ap, ◌∙◌, subst, inl, inr, false, Option, none, some, List, Bool-cases, if_false,
}
use connect_es.Prelude.Text.{Text, codes, text_eq, text_eq_sound, to_lower}
use connect_es.Prelude.Text.Uri.Laws.{IsVisible}
use connect_es.Headers.{Headers}
use connect_es.ConnectError.{ok}
use connect_es.Compression.{
  Compression, find_by_name, negotiate_request, negotiate_response, compression_negotiate,
}
use connect_es.RequestHeader.{map_option, name_of}
use connect_es.ValidateResponse.{found_or_error, response_compression}
use connect_es.RequestHeader.Reading.{IsVisibleOption}
use connect_es.Compression.{Negotiated}
use connect_es.RequestHeader.{accepted_names}
use connect_es.AsyncIterable.Envelopes.{Serialization}
use connect_es.Serialization.{MessageType, serialization_lookup}
use connect_es.Handler.{HandlerOptions}
use connect_es.Grpc.Transport.{TransportOptions}

abbrev pub of_client : {T : Type 0} → MessageType T → TransportOptions → Serialization T
of_client type client =
    serialization_lookup type client.write_max_bytes client.read_max_bytes client.use_binary_format

abbrev pub of_server :
    {T : Type 0} → MessageType T → HandlerOptions → TransportOptions → Serialization T
of_server type server client =
    serialization_lookup type server.write_max_bytes server.read_max_bytes client.use_binary_format

-- What both sides agree on.
abbrev pub agreed : HandlerOptions → TransportOptions → Negotiated
agreed server client = record {
  request = client.send_compression;
  response =
      negotiate_response server.accept_compression client.send_compression
        (accepted_names client.accept_compression);
  error = none;
}

-- A compression, if there is one, that is available under its name, which is not that of the identity.
pub record IsKnown (available : List Compression) (c : Compression) : Type 0 where
  pub found : find_by_name c.name available ≡ some c
  pub proper : text_eq (to_lower c.name) (codes "identity") ≡ false
  pub visible : IsVisible c.name

abbrev pub Knows : List Compression → Option Compression → Type 0
Knows available none = Unit {0}
Knows available (some c) = IsKnown available c

not_identity :
    (s : Text)
    → text_eq (to_lower s) (codes "identity") ≡ false
    → text_eq s (codes "identity") ≡ false
not_identity s h = elim (Bool-cases (text_eq s (codes "identity"))) [
  | inr other ↦ other
  | inl same ↦
      let h' : text_eq (to_lower (codes "identity")) (codes "identity") ≡ false =
        subst (λ s. text_eq (to_lower s) (codes "identity") ≡ false)
          (text_eq_sound s (codes "identity") same) h in
      absurd cc
]

-- A server that knows the compression of the request takes it, without an error.
pub compression_negotiate-Knows :
    (available : List Compression) (send : Option Compression) (accepted : Option Text)
    (name : Text)
    → Knows available send
    → compression_negotiate available (map_option name_of send) accepted name ≡ record {
      request = send;
      response = negotiate_response available send accepted;
      error = none;
    }
unfolding compression_negotiate negotiate_request
compression_negotiate-Knows available none accepted name k = refl
compression_negotiate-Knows available (some c) accepted name k =
    rw (not_identity c.name k.proper, k.found) refl

-- A client that knows the compression of the response finds it.
pub response_compression-Knows :
    (accept : List Compression) (c : Option Compression) (headers : Headers)
    → Knows accept c
    → response_compression accept (map_option name_of c) headers ≡ ok c
unfolding response_compression
response_compression-Knows accept none headers k = refl
response_compression-Knows accept (some c) headers k =
    if_false _ _ k.proper ∙ ap (λ o. found_or_error o c.name headers) k.found

pub name-IsVisible :
    (available : List Compression) (c : Option Compression)
    → Knows available c
    → IsVisibleOption (map_option name_of c)
name-IsVisible available none k = tt
name-IsVisible available (some c) k = k.visible
