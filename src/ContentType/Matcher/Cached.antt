-- ===== src/ContentType/Matcher/Cached.antt =====
-- The memory of a matcher shows in nothing but its size.
use connect_es.Prelude.{
  if◌then◌else◌, ◌≤◌, ◌≡◌, refl, sym, ap, ◌∙◌, inl, inr, Bool, true, false, ◌||◌, ◌++◌, any, Option,
  none, some, List, [], ◌∷◌, map, arith, ltb, ltb→lt, Bool-cases, Option-cases, if_intro, length,
  length-append, All, All-append,
}
use connect_es.Prelude.Text.{Text, text_eq, text_eq_sound}
use connect_es.ContentType.Matcher.{
  Matcher, cache_size, Supported, regular_expression, matcher, collect, content_type_matcher,
  cached, is_supported, match, match_all, remember, look_up,
}

-- What a matcher of regular expressions alone stands for.
answer : List (Text → Bool) → Option Text → Bool
answer supported none = false
answer supported (some []) = false
answer supported (some (c ∷ content_type)) = is_supported supported (c ∷ content_type)

-- What a matcher stands for, by the arguments that it is made from: regular expressions, and other
-- matchers with their regular expressions.
pub fits : Text → Supported → Bool
fits content_type (regular_expression re) = re content_type
fits content_type (matcher m) = is_supported m.supported content_type

pub matches : List Supported → Option Text → Bool
unfolding fits
matches supported none = false
matches supported (some []) = false
matches supported (some (c ∷ content_type)) = any (fits (c ∷ content_type)) supported

any-append :
    (t : Text) (res more : List (Text → Bool))
    → is_supported (res ++ more) t ≡ (is_supported res t || is_supported more t)
any-append t [] more = refl
any-append t (re ∷ res) more = elim (Bool-cases (re t)) [
  | inl same ↦ rw same refl
  | inr other ↦ rw other (any-append t res more)
]

or_nil : (a : Bool) → a ≡ (a || false)
or_nil true = refl
or_nil false = refl

or_cons : (a b c : Bool) → ((a || b) || c) ≡ (a || (if b then true else c))
or_cons true b c = refl
or_cons false true c = refl
or_cons false false c = refl

one_of : (b : Bool) → (if b then true else false) ≡ b
one_of true = refl
one_of false = refl

is_supported-collect :
    (t : Text) (previous : List (Text → Bool)) (supported : List Supported)
    → is_supported (collect previous supported) t
      ≡ (is_supported previous t || any (fits t) supported)
unfolding collect fits
is_supported-collect t previous [] = or_nil (is_supported previous t)
is_supported-collect t previous (regular_expression re ∷ rest) =
    is_supported-collect t (previous ++ re ∷ []) rest
    ∙ ap (λ b. b || any (fits t) rest) (any-append t previous (re ∷ []))
    ∙ ap (λ b. (is_supported previous t || b) || any (fits t) rest) (one_of (re t))
    ∙ or_cons (is_supported previous t) (re t) (any (fits t) rest)
is_supported-collect t previous (matcher m ∷ rest) =
    is_supported-collect t (previous ++ m.supported) rest
    ∙ ap (λ b. b || any (fits t) rest) (any-append t previous m.supported)
    ∙ or_cons (is_supported previous t) (is_supported m.supported t) (any (fits t) rest)

answer-matches :
    (supported : List Supported) (content_type : Option Text)
    → answer (content_type_matcher supported).supported content_type
      ≡ matches supported content_type
unfolding content_type_matcher answer matches
answer-matches supported none = refl
answer-matches supported (some []) = refl
answer-matches supported (some (c ∷ t)) = is_supported-collect (c ∷ t) [] supported

-- All that is remembered is right, and there is not too much of it.
pub record IsSound (m : Matcher) : Type 0 where
  pub right : All (λ (key, found). found ≡ is_supported m.supported key) m.cache
  pub bounded : length m.cache ≤ cache_size

cached-right :
    (supported : List (Text → Bool)) (key : Text) (cache : List (Text × Bool)) (found : Bool)
    → All (λ (key, found). found ≡ is_supported supported key) cache
    → cached key cache ≡ some found
    → found ≡ is_supported supported key
unfolding cached
cached-right supported key [] found right e = absurd cc
cached-right supported key ((k, f) ∷ cache) found (r, right) e = elim (Bool-cases (text_eq k key)) [
  | inl same ↦
      let hit : f ≡ found = let e' = rw (same, cached) at e in cc in
      sym hit ∙ r ∙ ap (is_supported supported) (text_eq_sound k key same)
  | inr other ↦ cached-right supported key cache found right (rw (other, cached) at e)
]

remember-IsSound :
    (key : Text) (m : Matcher) → IsSound m → IsSound (remember key (is_supported m.supported key) m)
unfolding remember
remember-IsSound key m s =
    if_intro IsSound (ltb (length m.cache) cache_size)
      (λ room. record {
        right = All-append _ m.cache _ s.right (refl, tt);
        bounded = omega (
          arith,
          length-append m.cache ((key, is_supported m.supported key) ∷ []),
          ltb→lt _ _ room,
        );
      })
      (λ full. s)

remember-supported :
    (key : Text) (f : Bool) (m : Matcher) → (remember key f m).supported ≡ m.supported
unfolding remember
remember-supported key f m =
    if_intro (λ (r : Matcher). r.supported ≡ m.supported) (ltb (length m.cache) cache_size)
      (λ room. refl) (λ full. refl)

-- One call: its result, and the matcher after it.
match_lem :
    (m : Matcher) (content_type : Option Text)
    → IsSound m
    → ((match m content_type).0 ≡ answer m.supported content_type)
      × IsSound (match m content_type).1
      × ((match m content_type).1.supported ≡ m.supported)
unfolding match look_up answer
match_lem m none s = (refl, s, refl)
match_lem m (some []) s = (refl, s, refl)
match_lem m (some (c ∷ t)) s = elim (Option-cases (cached (c ∷ t) m.cache)) [
  | inl missing ↦ rw missing (
    refl,
    remember-IsSound (c ∷ t) m s,
    remember-supported (c ∷ t) (is_supported m.supported (c ∷ t)) m,
  )
  | inr (found, hit) ↦ rw hit (cached-right m.supported (c ∷ t) m.cache found s.right hit, s, refl)
]

match_all_lem :
    (m : Matcher) (types : List (Option Text))
    → IsSound m
    → ((match_all m types).0 ≡ map (answer m.supported) types) × IsSound (match_all m types).1
unfolding match_all
match_all_lem m [] s = (refl, s)
match_all_lem m (t ∷ ts) s =
    let (found, sound, same) = match_lem m t s in
    let (rest, sound') = match_all_lem (match m t).1 ts sound in
    (
      ap (λ f. f ∷ (match_all (match m t).1 ts).0) found
          ∙ ap (λ r. answer m.supported t ∷ r) (rest ∙ ap (λ s. map (answer s) ts) same),
      sound',
    )

map-answer :
    (supported : List Supported) (types : List (Option Text))
    → map (answer (content_type_matcher supported).supported) types ≡ map (matches supported) types
map-answer supported [] = refl
map-answer supported (t ∷ ts) =
    ap (λ b. b ∷ map (answer (content_type_matcher supported).supported) ts)
      (answer-matches supported t)
    ∙ ap (λ r. matches supported t ∷ r) (map-answer supported ts)

-- Any sequence of calls of a new matcher answers each content type as a matcher without memory
-- does: whether it is there, is not empty, and fits one of the regular expressions that the
-- matcher was made from, or one of another matcher that it was made from. The memory holds right
-- answers only, and at most 1024 of them.
pub match_all-matches :
    (supported : List Supported) (types : List (Option Text))
    → let m = content_type_matcher supported in
      ((match_all m types).0 ≡ map (matches supported) types) × IsSound (match_all m types).1
unfolding content_type_matcher
match_all-matches supported types =
    let (found, sound) =
      match_all_lem (content_type_matcher supported) types
        (record { right = tt; bounded = omega arith }) in
    (found ∙ map-answer supported types, sound)
