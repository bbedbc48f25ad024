-- ===== src/TrailerStatus/RoundTrip.antt =====
-- A status is read back from the trailers.
use connect_es.Prelude.{
  ◌≡◌, refl, sym, ap, ◌∙◌, subst, ◌⊎◌, inl, inr, Option, none, some, List, [], ◌∷◌, map, or_else,
  if_false, All,
}
use connect_es.Prelude.Text.{Text}
use connect_es.Prelude.Text.Uri.Laws.{encode_uri_component_lem}
use connect_es.Code.{IsMember}
use connect_es.Headers.{Headers, normalize_value, get, set}
use connect_es.BinaryHeader.{
  strip_padding, encode_binary_header, or_data_loss, decode_binary_header,
}
use connect_es.ConnectError.{
  Detail, outgoing, incoming, ConnectError, new_error_with, ok, map_result, ◌>>=◌,
}
use connect_es.TrailerStatus.{
  header_grpc_status, header_grpc_message, header_status_details, grpc_status_ok, Protobuf,
  code_text, uri_error, received, packed, status_of, set_trailer_status, find_trailer_error,
  set_details, status_error, grpc_error, from_status, from_details,
}
use connect_es.Prelude.Text.Uri.{decode_uri_component}
use connect_es.Headers.Laws.{get-set}
use connect_es.Headers.Visible.{normalize_value-IsVisible}
use connect_es.TrailerStatus.Sendable.{
  IsEncodable, IsFaithful, IsTyped, IsSendable, arrived_detail, arrived, received-type_url,
  code_of-code_text,
}

module _ (p : Protobuf) (f : IsFaithful p) where
  received-packed :
      (ds : List Detail) → All IsTyped ds → map received (map (packed p) ds) ≡ map arrived_detail ds
  unfolding packed
  received-packed [] h = refl
  received-packed (outgoing m ∷ ds) (h, hs) =
      ap (λ a. received a ∷ map received (map (packed p) ds)) (f.pack m)
      ∙ ap (λ d. d ∷ map received (map (packed p) ds)) (received-type_url m.type_name m.binary h)
      ∙ ap (λ ds. incoming m.type_name m.binary none ∷ ds) (received-packed ds hs)
  received-packed (incoming type value debug ∷ ds) (h, hs) =
      ap (λ d. d ∷ map received (map (packed p) ds)) (received-type_url type value h)
      ∙ ap (λ ds. incoming type value none ∷ ds) (received-packed ds hs)

  status_error-status_of :
      (h : Headers) (e : ConnectError)
      → All IsTyped e.details
      → status_error p h (status_of p e) ≡ arrived h (some e)
  unfolding status_error status_of
  status_error-status_of h e typed =
      ap
        (λ ds.
          some (record (new_error_with e.raw_message e.code (some h) none none) { details = ds }))
        (received-packed e.details typed)

  status_of-IsEncodable : (e : ConnectError) → IsSendable e → IsEncodable (status_of p e)
  unfolding status_of
  status_of-IsEncodable e s =
      (λ c same. let e' : e.code ≡ c = cc in subst IsMember e' s.member, s.scalars)

  -- The trailers without details.
  plain_trailer :
      (target : Headers) (e : ConnectError) (m : Text)
      → IsMember e.code
      → get header_status_details target ≡ none
      → normalize_value m ≡ m
      → decode_uri_component m ≡ some e.raw_message
      → let h = set header_grpc_message m (set header_grpc_status (code_text e.code) target) in
        find_trailer_error p h ≡ ok (some (new_error_with e.raw_message e.code (some h) none none))
  unfolding find_trailer_error from_details from_status grpc_error
  plain_trailer target e m member absent visible decoded =
      let g = set header_grpc_status (code_text e.code) target in
      let h = set header_grpc_message m g in
      let (not_ok, read) = code_of-code_text e.code member in
      let details : get header_status_details h ≡ none =
        get-set header_grpc_message header_status_details m g
        ∙ get-set header_grpc_status header_status_details (code_text e.code) target
        ∙ absent in
      let status : get header_grpc_status h ≡ some (normalize_value (code_text e.code)) =
        get-set header_grpc_message header_grpc_status m g
        ∙ get-set header_grpc_status header_grpc_status (code_text e.code) target in
      let message : get header_grpc_message h ≡ some m =
        get-set header_grpc_message header_grpc_message m g ∙ ap some visible in
      ap (from_details p h) details
      ∙ ap (λ s. from_status p h s (get header_grpc_message h)) status
      ∙ if_false _ _ not_ok
      ∙ ap (grpc_error p h (normalize_value (code_text e.code)) (get header_grpc_message h)) read
      ∙ ap
          (λ o.
            map_result (λ m. some (new_error_with m e.code (some h) none none))
              (uri_error (decode_uri_component (or_else o []))))
          message
      ∙ ap (λ o. map_result (λ m. some (new_error_with m e.code (some h) none none)) (uri_error o))
          decoded

  -- The trailers with details.
  details_trailer :
      (target : Headers) (e : ConnectError) (d : Detail) (ds : List Detail)
      → e.details ≡ d ∷ ds
      → IsSendable e
      → (h : Headers) × (set_details p e (d ∷ ds) target ≡ ok h)
        × (find_trailer_error p h ≡ ok (arrived h (some e)))
  unfolding set_details find_trailer_error from_details encode_binary_header decode_binary_header
  details_trailer target e d ds split s =
      let (b, written, read) = f.binary (status_of p e) (status_of-IsEncodable e s) in
      let value = strip_padding (p.enc b) in
      let h = set header_status_details value target in
      let details : get header_status_details h ≡ some value =
        get-set header_status_details header_status_details value target
        ∙ ap some (normalize_value-IsVisible value (f.visible b)) in
      (
        h,
        ap
            (λ r.
              map_result (λ v. set header_status_details v target)
                (map_result (λ b. strip_padding (p.enc b)) r))
            written,
        ap (from_details p h) details
            ∙ ap (λ r. map_result (status_error p h) (or_data_loss (r >>= p.from_binary)))
                (f.base64 b)
            ∙ ap (λ r. map_result (status_error p h) (or_data_loss r)) read
            ∙ ap ok (status_error-status_of h e s.typed),
      )

  set_details_lem :
      (target : Headers) (e : ConnectError) (m : Text) (ds : List Detail)
      → e.details ≡ ds
      → IsSendable e
      → get header_status_details target ≡ none
      → normalize_value m ≡ m
      → decode_uri_component m ≡ some e.raw_message
      → let g = set header_grpc_message m (set header_grpc_status (code_text e.code) target) in
        (h : Headers) × (set_details p e ds g ≡ ok h)
        × (find_trailer_error p h ≡ ok (arrived h (some e)))
  unfolding set_details new_error_with
  set_details_lem target e m [] split s absent visible decoded =
      let g = set header_grpc_message m (set header_grpc_status (code_text e.code) target) in
      (
        g,
        refl,
        plain_trailer target e m s.member absent visible decoded
            ∙ ap
                (λ ds. ok (
                  some (record (new_error_with e.raw_message e.code (some g) none none) {
                    details = map arrived_detail ds;
                  })))
                (sym split),
      )
  set_details_lem target e m (d ∷ ds) split s absent visible decoded =
      details_trailer (set header_grpc_message m (set header_grpc_status (code_text e.code) target))
        e d ds split s

  -- Headers without details: no status, or that of success, is no error.
  pub find_trailer_error-none :
      (h : Headers)
      → get header_status_details h ≡ none
      → (get header_grpc_status h ≡ none) ⊎ (get header_grpc_status h ≡ some grpc_status_ok)
      → find_trailer_error p h ≡ ok none
  unfolding find_trailer_error from_details from_status
  find_trailer_error-none h details (inl absent) =
      ap (from_details p h) details ∙ ap (λ s. from_status p h s (get header_grpc_message h)) absent
  find_trailer_error-none h details (inr same) =
      ap (from_details p h) details ∙ ap (λ s. from_status p h s (get header_grpc_message h)) same

  -- The status of a call, an error or none, is set in trailers that hold no details yet, and is found
  -- in them again: the error with its code, its message and its details, and the trailers as metadata.
  -- The code is one of the enum, the message is made of code points, and no name of a detail's type
  -- holds a slash; @bufbuild/protobuf decodes what it has encoded.
  pub find_trailer_error-set_trailer_status :
      (target : Headers) (error : Option ConnectError)
      → get header_status_details target ≡ none
      → ((e : ConnectError) → error ≡ some e → IsSendable e)
      → (h : Headers) × (set_trailer_status p target error ≡ ok h)
        × (find_trailer_error p h ≡ ok (arrived h error))
  unfolding set_trailer_status find_trailer_error from_details from_status
  find_trailer_error-set_trailer_status target none absent s =
      let h = set header_grpc_status grpc_status_ok target in
      (
        h,
        refl,
        ap (from_details p h)
              (get-set header_grpc_status header_status_details grpc_status_ok target ∙ absent)
            ∙ ap (λ o. from_status p h o (get header_grpc_message h))
                (get-set header_grpc_status header_grpc_status grpc_status_ok target),
      )
  find_trailer_error-set_trailer_status target (some e) absent s =
      let sendable = s e refl in
      let (m, encoded, visible, decoded) =
        encode_uri_component_lem e.raw_message sendable.scalars in
      let (h, written, found) =
        set_details_lem target e m e.details refl sendable absent
          (normalize_value-IsVisible m visible) decoded in
      (
        h,
        ap
              (λ o. uri_error o >>= λ m.
                set_details p e e.details
                  (set header_grpc_message m (set header_grpc_status (code_text e.code) target)))
              encoded
            ∙ written,
        found,
      )
