-- ===== src/Tests/Negotiation.antt =====
-- The negotiation of compressions at concrete inputs.
use connect_es.Prelude.{none, some, List, [], ◌∷◌}
use connect_es.Prelude.Text.{Text, codes}
use connect_es.ConnectError.{ok}
use connect_es.Compression.{
  Compression, find_by_name, split_comma, first_available, negotiate_request, negotiate_response,
}
use connect_es.Compression.Laws.{
  Request, Response, negotiate_request-Request, negotiate_response-Response,
}

abbrev named : Text → Compression
named name = record { name = name; compress = λ b. ok b; decompress = λ b max. ok b }

abbrev available : List Compression
available = named (codes "gzip") ∷ named (codes "br") ∷ []

negotiate_request-Request_example :
    Request available (some (codes "br")) (codes "Accept-Encoding") (some (named (codes "br"))) none
unfolding negotiate_request find_by_name
negotiate_request-Request_example =
    negotiate_request-Request available (some (codes "br")) (codes "Accept-Encoding")

negotiate_response-Response_example :
    Response available none (some (codes "zstd, gzip")) (some (named (codes "gzip")))
unfolding negotiate_response first_available find_by_name split_comma
negotiate_response-Response_example =
    negotiate_response-Response available none (some (codes "zstd, gzip"))
