-- ===== src/ContentType/Matcher.antt =====
-- packages/connect/src/protocol/content-type-matcher.ts: a test of content types that remembers its
-- results.
pub mod Cached
use connect_es.Prelude.{
  ℕ, Bool, false, Option, none, some, List, [], ◌∷◌, ◌++◌, ltb, if◌then◌else◌, length, any,
}
use connect_es.Prelude.Text.{Text, text_eq}

-- `ContentTypeMatcher`: what `supported` holds, and the map of the closure.
pub record Matcher : Type 0 where
  pub supported : List (Text → Bool)
  pub cache : List (Text × Bool)

-- `contentTypeMatcherCacheSize`
abbrev pub cache_size : ℕ
cache_size = 1024

-- An argument of `contentTypeMatcher`.
pub data Supported : Type 0 where
  regular_expression : (Text → Bool) → Supported
  matcher : Matcher → Supported

pub collect : List (Text → Bool) → List Supported → List (Text → Bool)
collect previous [] = previous
collect previous (regular_expression re ∷ rest) = collect (previous ++ re ∷ []) rest
collect previous (matcher m ∷ rest) = collect (previous ++ m.supported) rest

-- `contentTypeMatcher`
unfoldable pub content_type_matcher : List Supported → Matcher
unfolding collect
content_type_matcher supported = record { supported = collect [] supported; cache = [] }

-- `cache.get(contentType)`
pub cached : Text → List (Text × Bool) → Option Bool
cached key [] = none
cached key ((k, found) ∷ cache) = if text_eq k key then some found else cached key cache

abbrev pub is_supported : List (Text → Bool) → Text → Bool
is_supported supported content_type = any (λ re. re content_type) supported

-- `cache.set(contentType, ok)`, if there is room; the key is not in the map.
remember : Text → Bool → Matcher → Matcher
remember key found m =
    if ltb (length m.cache) cache_size then record m { cache = m.cache ++ (key, found) ∷ [] } else m

abbrev look_up : Option Bool → Text → Matcher → Bool × Matcher
unfolding remember
look_up (some found) content_type m = (found, m)
look_up none content_type m =
    let found = is_supported m.supported content_type in (found, remember content_type found m)

-- The function `match`.
unfoldable pub match : Matcher → Option Text → Bool × Matcher
unfolding look_up cached
match m none = (false, m)
match m (some []) = (false, m)
match m (some (c ∷ content_type)) = look_up (cached (c ∷ content_type) m.cache) (c ∷ content_type) m

-- Calls one after the other, with their results.
unfoldable pub match_all : Matcher → List (Option Text) → List Bool × Matcher
unfolding match
match_all m [] = ([], m)
match_all m (t ∷ ts) =
    let (found, m') = match m t in let (rest, m'') = match_all m' ts in (found ∷ rest, m'')
