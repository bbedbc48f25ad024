-- ===== src/TrailerMux/Fields.antt =====
-- Single fields through the muxing and the demuxing.
use connect_es.Prelude.{
  ◌≡◌, refl, sym, ap, ◌∙◌, subst, false, Option, none, some, [], ◌++◌, if_false,
}
use connect_es.Prelude.Text.{Text, to_lower, starts_with, starts_with-append}
use connect_es.Headers.{Headers, normalize_value, find_at, set_at, get, set}
use connect_es.Headers.Order.{IsCanonical, set_at-IsCanonical, set_at-All}
use connect_es.TrailerMux.{prefix, trailer_demux, trailer_mux}
use connect_es.TrailerMux.Laws.{
  or_from, mux_fields-trailer, mux_fields-other, mux_fields-IsCanonical, demux_fields-trailer,
  demux_fields-header, NoPrefix, find_at-prefixed,
}

-- A field of the headers is not changed by the trailers.
pub get-trailer_mux :
    (name : Text) (h t : Headers)
    → starts_with (to_lower name) prefix ≡ false
    → IsCanonical t
    → get name (trailer_mux h t) ≡ get name h
unfolding trailer_mux get
get-trailer_mux name h t p c = mux_fields-other (to_lower name) t h p c

or_from-none : (o : Option Text) → or_from o none ≡ o
or_from-none none = refl
or_from-none (some v) = refl

-- What is read from the trailers, and from the headers, that come out.
pub get-trailer_demux :
    (name : Text) (m : Headers)
    → IsCanonical m
    → (get name (trailer_demux m).1 ≡ find_at (prefix ++ to_lower name) m)
      × (starts_with (to_lower name) prefix ≡ false → get name (trailer_demux m).0 ≡ get name m)
unfolding get trailer_demux find_at
get-trailer_demux name m c =
    let k = to_lower name in
    (
      demux_fields-trailer k m [] [] c ∙ or_from-none (find_at (prefix ++ k) m),
      λ plain. demux_fields-header k m [] [] c ∙ or_from-none _ ∙ if_false _ _ plain,
    )

-- A field of the trailers among the headers.
pub find_at-trailer_mux :
    (name : Text) (h t : Headers)
    → IsCanonical t
    → NoPrefix h
    → find_at (prefix ++ to_lower name) (trailer_mux h t) ≡ get name t
unfolding trailer_mux get
find_at-trailer_mux name h t c np =
    let k = to_lower name in
    mux_fields-trailer k t h c
    ∙ ap (or_from (find_at k t)) (find_at-prefixed (prefix ++ k) h (starts_with-append prefix k) np)
    ∙ or_from-none (find_at k t)

pub trailer_mux-IsCanonical :
    (h t : Headers) → IsCanonical h → IsCanonical t → IsCanonical (trailer_mux h t)
unfolding trailer_mux
trailer_mux-IsCanonical h t ch ct = mux_fields-IsCanonical t h ct ch

-- A visible value that is set keeps the headers as a `Headers` object holds them.
pub set-IsCanonical :
    (k v : Text) (h : Headers)
    → to_lower (to_lower k) ≡ to_lower k
    → normalize_value v ≡ v
    → IsCanonical h
    → IsCanonical (set k v h)
unfolding set
set-IsCanonical k v h l n c =
    subst (λ w. IsCanonical (set_at (to_lower k) w h)) (sym n)
      (set_at-IsCanonical (to_lower k) v h l n c)

pub set-NoPrefix :
    (k v : Text) (h : Headers)
    → starts_with (to_lower k) prefix ≡ false
    → NoPrefix h
    → NoPrefix (set k v h)
unfolding set
set-NoPrefix k v h p np =
    set_at-All (λ k. starts_with k prefix ≡ false) (to_lower k) (normalize_value v) h p np
