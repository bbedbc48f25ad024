-- ===== src/Compression.antt =====
-- packages/connect/src/protocol/compression.ts: compressions and their negotiation.
pub mod Laws
use connect_es.Prelude.{
  ℕ, true, false, Option, none, some, List, [], ◌∷◌, ◌++◌, map, ◌==◌, if◌then◌else◌, find?,
}
use connect_es.Prelude.Text.{Text, codes, text_eq, trim}
use connect_es.Code.{unimplemented}
use connect_es.Headers.{set}
use connect_es.ConnectError.{ConnectError, new_error, Result}

abbrev pub compressed_flag : ℕ
compressed_flag = 1

-- The interface `Compression`; both methods may throw.
pub record Compression : Type 0 where
  pub name : Text
  pub compress : List ℕ → Result (List ℕ)
  pub decompress : List ℕ → ℕ → Result (List ℕ)

-- `available.find((c) => c.name === name)`
unfoldable pub find_by_name : Text → List Compression → Option Compression
find_by_name name available = find? (λ c. text_eq c.name name) available

-- `names.join(",")`
unfoldable pub join_comma : List Text → Text
join_comma [] = []
join_comma (n ∷ []) = n
join_comma (n ∷ m ∷ ns) = n ++ (codes "," ++ join_comma (m ∷ ns))

-- `s.split(",")`, from the part read so far.
split_comma_from : Text → Text → List Text
split_comma_from part [] = part ∷ []
split_comma_from part (c ∷ s) = elim (c == b',') [
  | true ↦ part ∷ split_comma_from [] s
  | false ↦ split_comma_from (part ++ c ∷ []) s
]

unfoldable pub split_comma : Text → List Text
unfolding split_comma_from
split_comma s = split_comma_from [] s

pub record Negotiated : Type 0 where
  pub request : Option Compression
  pub response : Option Compression
  pub error : Option ConnectError

abbrev found_or {ℓ} : {A : Type ℓ} → Option A → Option A → Option A
found_or none rest = rest
found_or (some c) rest = some c

-- The loop over the accepted names: the first one that is available.
unfoldable pub first_available : List Compression → List Text → Option Compression
unfolding find_by_name
first_available available [] = none
first_available available (name ∷ names) =
    let rest = first_available available names in found_or (find_by_name name available) rest

-- `available.map((c) => c.name).join(",")`
unfoldable pub acceptable : List Compression → Text
unfolding join_comma
acceptable available = join_comma (map (λ (c : Compression). c.name) available)

-- The error for an encoding that is not available.
unknown_compression : List Compression → Text → Text → ConnectError
unfolding acceptable new_error set
unknown_compression available requested header_name =
    new_error
      (codes "unknown compression \""
        ++ (requested ++ (codes "\": supported encodings are " ++ acceptable available)))
      unimplemented (set header_name (acceptable available) [])

abbrev answer_request :
    Option Compression → List Compression → Text → Text → Option Compression × Option ConnectError
answer_request (some found) available requested header_name = (some found, none)
answer_request none available requested header_name =
    (none, some (unknown_compression available requested header_name))

-- The branch on the requested encoding: the request's compression and the error.
unfoldable pub negotiate_request :
    List Compression → Option Text → Text → Option Compression × Option ConnectError
unfolding find_by_name unknown_compression
negotiate_request available none header_name = (none, none)
negotiate_request available (some requested) header_name =
    if text_eq requested (codes "identity")
    then (none, none)
    else answer_request (find_by_name requested available) available requested header_name

-- The branch on the accepted encodings.
unfoldable pub negotiate_response :
    List Compression → Option Compression → Option Text → Option Compression
unfolding first_available split_comma
negotiate_response available request none = request
negotiate_response available request (some []) = request
negotiate_response available request (some (c ∷ accepted)) =
    first_available available (map trim (split_comma (c ∷ accepted)))

-- `compressionNegotiate`
unfoldable pub compression_negotiate :
    List Compression → Option Text → Option Text → Text → Negotiated
unfolding negotiate_request negotiate_response
compression_negotiate available requested accepted header_name =
    let (request, error) = negotiate_request available requested header_name in
    record {
      request = request;
      response = negotiate_response available request accepted;
      error = error;
    }
