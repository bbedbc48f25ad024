-- ===== src/Tests/ContentTypes.antt =====
-- Content types and the negotiation of the protocol at concrete inputs.
use connect_es.Prelude.{◌≡◌, Option, none, some, List, [], ◌∷◌, map}
use connect_es.Prelude.Text.{Text, codes}
use connect_es.ContentType.{content_type_unary, content_type_stream}
use connect_es.ContentType.Matcher.{
  Supported, regular_expression, matcher, content_type_matcher, match_all,
}
use connect_es.ContentType.Matcher.Cached.{matches, IsSound, match_all-matches}
use connect_es.ConnectError.{ok}
use connect_es.Universal.{
  unary, json, UniversalServerRequest, status_only, UniversalHandler, negotiating_handler,
}
use connect_es.Universal.Negotiation.{Outcome, negotiating_handler-Outcome}
use connect_es.Json.{null}

abbrev unary_json : Text
unary_json = codes "application/json; charset=UTF-8"

-- A matcher of the types for unary calls and of another matcher, which is asked twice.
abbrev both : List Supported
unfolding content_type_matcher
both =
    regular_expression content_type_unary
    ∷ matcher (content_type_matcher (regular_expression content_type_stream ∷ []))
    ∷ []

abbrev asked : List (Option Text)
asked = some unary_json ∷ none ∷ some unary_json ∷ some (codes "text/plain") ∷ []

match_all-matches_example :
    ((match_all (content_type_matcher both) asked).0 ≡ map (matches both) asked)
    × IsSound (match_all (content_type_matcher both) asked).1
match_all-matches_example = match_all-matches both asked

abbrev echo : UniversalHandler
echo = record {
  handle = λ req. ok (status_only 200);
  protocol_names = codes "connect" ∷ [];
  service = 1;
  method = record { identity = 2; kind = unary };
  request_path = codes "/echo.Service/Echo";
  allowed_methods = codes "POST" ∷ [];
  supported_content_type = content_type_unary;
}

abbrev request : UniversalServerRequest
request = record {
  http_version = codes "1.1";
  url = codes "https://example.com/echo.Service/Echo";
  method = codes "POST";
  header = (codes "content-type", unary_json) ∷ [];
  body = json null;
}

negotiating_handler-Outcome_example :
    Outcome (echo ∷ []) request echo.method (negotiating_handler echo.method (echo ∷ []) request)
negotiating_handler-Outcome_example = negotiating_handler-Outcome (echo ∷ []) request echo.method
