-- ===== src/EndStream/Laws.antt =====
-- The message that ends a stream is read back.
use connect_es.Prelude.{
  ℕ, ◌≡◌, refl, sym, ap, ◌∙◌, subst, false, Option, none, some, List, [], ◌∷◌, ◌++◌, map,
  append-nil, append_assoc, if_false, All,
}
use connect_es.Prelude.Text.{Text, codes, text_eq}
use connect_es.Code.{IsMember}
use connect_es.Headers.{Headers}
use connect_es.Headers.Order.{IsCanonical, append-last}
use connect_es.Json.{Json, get_field}
use connect_es.ConnectError.{Message, ConnectError, new_error_with, ok, map_result}
use connect_es.ErrorJson.Laws.{received, HasDebug, error_from_json-error_to_json}
use connect_es.EndStream.{
  end_stream_from_json, sent_metadata, end_stream_to_json, parse_error, strings, append_values,
  read_values, read_entries, read_metadata, read_error, metadata_fields, metadata_field,
  error_field,
}

-- No field has the name "__proto__".
abbrev pub NoProto : Headers → Type 0
NoProto h = All (λ (k, v). text_eq k (codes "__proto__") ≡ false) h

-- An error that arrives as it was sent.
abbrev pub IsSendable : (Message → Option Json) → Option ConnectError → Type 0
IsSendable to_json none = Unit {0}
IsSendable to_json (some e) = IsMember e.code × All (HasDebug to_json) e.details

-- The error as it arrives, with the metadata of the message.
abbrev pub arriving : (Message → Option Json) → Headers → Option ConnectError → Option ConnectError
arriving to_json metadata none = none
arriving to_json metadata (some e) =
    some (record (new_error_with e.raw_message e.code (some metadata) none none) {
      details = map (received to_json) e.details;
    })

read_entries-metadata_fields :
    (g h : Headers)
    → IsCanonical (g ++ h)
    → NoProto h
    → read_entries (metadata_fields h) (some g) ≡ some (g ++ h)
unfolding read_entries read_values metadata_fields strings append_values
read_entries-metadata_fields g [] c np = ap some (sym (append-nil g))
read_entries-metadata_fields g ((k, v) ∷ h) c (named, np) =
    let snoc = append_assoc g ((k, v) ∷ []) h in
    ap (λ fs. read_entries fs (some g)) (if_false _ _ named)
    ∙ ap (λ g. read_entries (metadata_fields h) (some g)) (append-last g k v h c)
    ∙ read_entries-metadata_fields (g ++ (k, v) ∷ []) h (subst IsCanonical (sym snoc) c) np
    ∙ ap some snoc

module _ (enc : List ℕ → Text) (dec : Text → Option (List ℕ)) (to_json : Message → Option Json)
    (base64 : (b : List ℕ) → dec (enc b) ≡ some b) where
  read_metadata-error_field :
      (h : Headers) (error : Option ConnectError)
      → IsCanonical h
      → NoProto h
      → read_metadata
          (get_field (codes "metadata") (error_field enc to_json error (metadata_field h)))
        ≡ some h
  unfolding error_field metadata_field read_metadata
  read_metadata-error_field [] none c np = refl
  read_metadata-error_field [] (some e) c np = refl
  read_metadata-error_field (f ∷ h) none c np = read_entries-metadata_fields [] (f ∷ h) c np
  read_metadata-error_field (f ∷ h) (some e) c np = read_entries-metadata_fields [] (f ∷ h) c np

  read_error-error_field :
      (h : Headers) (error : Option ConnectError)
      → IsSendable to_json error
      → read_error dec
          (some h)
          (get_field (codes "error") (error_field enc to_json error (metadata_field h)))
        ≡ ok (h, arriving to_json h error)
  unfolding error_field metadata_field read_error
  read_error-error_field [] none s = refl
  read_error-error_field (f ∷ h) none s = refl
  read_error-error_field h (some e) (member, debug) =
      ap (map_result (λ e. (h, some e)))
        (error_from_json-error_to_json enc dec to_json base64 e (some h) parse_error member debug)

  -- The message that ends a stream is read back: the metadata is that of the response with that of
  -- the error behind it, and the error is as it was sent, with all this metadata. The metadata is as
  -- a `Headers` object holds it and has no field "__proto__"; decoding base64 inverts encoding it;
  -- the code of the error is one of the enum, and the JSON of each detail is an object, an array or
  -- `null`.
  pub end_stream_from_json-end_stream_to_json :
      (metadata : Headers) (error : Option ConnectError)
      → IsCanonical (sent_metadata metadata error)
      → NoProto (sent_metadata metadata error)
      → IsSendable to_json error
      → end_stream_from_json dec (end_stream_to_json enc to_json metadata error)
        ≡ ok (sent_metadata metadata error, arriving to_json (sent_metadata metadata error) error)
  unfolding end_stream_from_json end_stream_to_json
  end_stream_from_json-end_stream_to_json metadata error c np s =
      let sent = sent_metadata metadata error in
      ap
        (λ m.
          read_error dec m
            (get_field (codes "error") (error_field enc to_json error (metadata_field sent))))
        (read_metadata-error_field sent error c np)
      ∙ read_error-error_field sent error s
