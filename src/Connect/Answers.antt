-- ===== src/Connect/Answers.antt =====
-- What the client of a unary call reads from the answer of the handler.
use connect_es.Prelude.{
  ℕ, ◌≤◌, ◌≡◌, refl, sym, ap, ◌∙◌, Bool, true, false, Option, none, some, List, [], ◌∷◌, append-nil,
  leb, if◌then◌else◌, if_false, length, All,
}
use connect_es.Prelude.Text.{Text, text_eq, to_lower, show_nat}
use connect_es.Headers.{Headers, get, set}
use connect_es.Headers.Laws.{get-set}
use connect_es.Headers.Order.{IsCanonical}
use connect_es.Compression.{Compression}
use connect_es.ConnectError.{Result, ok, map_result, ◌>>=◌}
use connect_es.AsyncIterable.Envelopes.Flags.{Inverts}
use connect_es.AsyncIterable.ReadAll.{text, read_all_bytes}
use connect_es.AsyncIterable.ReadAll.Laws.{read_all_bytes_iff}
use connect_es.AsyncIterable.ReadAll.Hint.{parse_length_hint-show_nat}
use connect_es.Stream.{done, next}
use connect_es.TrailerMux.{trailer_mux}
use connect_es.TrailerMux.Fields.{get-trailer_mux}
use connect_es.RequestHeader.{
  header_content_type, header_unary_encoding, set_if, map_option, name_of,
}
use connect_es.RequestHeader.Reading.{
  IsVisibleOption, or_option, get-set_if_self, get-set_if_other, show_nat-IsVisible, or_none,
}
use connect_es.Headers.Visible.{normalize_value-IsVisible}
use connect_es.GetRequest.{header_unary_content_length}
use connect_es.Handler.{HandlerOptions, HandlerContext, Left, Output}
use connect_es.Connect.{Platform}
use connect_es.Connect.Handler.{Answer, unary_reply, set_fields, unary_response}
use connect_es.Connect.UnaryBody.{length_hint, decompressed}
use connect_es.Universal.{UniversalServerResponse}
use connect_es.Serialization.{MessageType}
use connect_es.Json.{Json}

-- The compression that is applied to a body, for its length.
abbrev pub used_for : Option Compression → Bool → Option Compression
used_for none long = none
used_for (some c) long = if long then some c else none

abbrev pub compressed : Option Compression → List ℕ → Result (List ℕ)
compressed none b = ok b
compressed (some c) b = c.compress b

abbrev pub reply_with : Answer → Option Compression → List ℕ → UniversalServerResponse
reply_with a used z =
    unary_reply a (set_if header_unary_encoding (map_option name_of used) a.left.header) z

-- No field of the name.
abbrev pub Lacks : Text → Headers → Type 0
Lacks name h = All (λ (k, v). text_eq (to_lower k) (to_lower name) ≡ false) h

pub get-set_fields :
    (name : Text) (m h : Headers) → Lacks name m → get name (set_fields m h) ≡ get name h
unfolding set_fields
get-set_fields name [] h l = refl
get-set_fields name ((k, v) ∷ m) h (l, ls) =
    get-set_fields name m (set k v h) ls ∙ get-set k name v h ∙ if_false _ _ l

decompressed-compressed :
    (used : Option Compression) (max : ℕ) (b z : List ℕ)
    → length b ≤ max
    → Inverts used max
    → compressed used b ≡ ok z
    → decompressed used max z ≡ ok b
decompressed-compressed none max b z n i e = sym e
decompressed-compressed (some c) max b z n i e = i b z n e

reply_at :
    (c : Compression) (a : Answer) (z : List ℕ) (long : Bool)
    → compressed (used_for (some c) long) a.body ≡ ok z
    → (if long
        then map_result
            (unary_reply a (set header_unary_encoding c.name a.left.header))
            (c.compress a.body)
        else ok (unary_reply a a.left.header a.body))
      ≡ ok (reply_with a (used_for (some c) long) z)
unfolding set_if
reply_at c a z true e =
    ap (map_result (unary_reply a (set header_unary_encoding c.name a.left.header))) e
reply_at c a z false e = ap (map_result (unary_reply a a.left.header)) e

module _ {I O P : Type 0} (p : Platform) (input : MessageType I) (from_json : Json → Result I)
    (output : MessageType O) (new_type : P → O) (opt : HandlerOptions) (no_side_effects : Bool)
    (impl : I → HandlerContext → Result (Output O P) × Left) where
  pub unary_response_lem :
      (c : Option Compression) (a : Answer) (z : List ℕ)
      → compressed (used_for c (leb opt.compress_min_bytes (length a.body))) a.body ≡ ok z
      → unary_response p input from_json output new_type opt no_side_effects impl c a
        ≡ ok (reply_with a (used_for c (leb opt.compress_min_bytes (length a.body))) z)
  unfolding unary_response set_if
  unary_response_lem none a z e = ap (map_result (unary_reply a a.left.header)) e
  unary_response_lem (some c) a z e = reply_at c a z (leb opt.compress_min_bytes (length a.body)) e

module _ (a : Answer) (used : Option Compression) (z : List ℕ) (c : IsCanonical a.left.trailer)
    (plain : get header_unary_encoding a.left.header ≡ none)
    (visible : IsVisibleOption (map_option name_of used)) where
  abbrev header : Headers
  header = set_if header_unary_encoding (map_option name_of used) a.left.header

  abbrev pub sent_header : Headers
  sent_header =
      set header_unary_content_length (show_nat (length z)) (trailer_mux header a.left.trailer)

  pub encoding_lem : get header_unary_encoding sent_header ≡ map_option name_of used
  encoding_lem =
      get-set header_unary_content_length header_unary_encoding (show_nat (length z)) _
      ∙ get-trailer_mux header_unary_encoding header a.left.trailer refl c
      ∙ get-set_if_self header_unary_encoding (map_option name_of used) a.left.header visible
      ∙ ap (or_option (map_option name_of used)) plain
      ∙ or_none (map_option name_of used)

  pub type_lem : get header_content_type sent_header ≡ get header_content_type a.left.header
  type_lem =
      get-set header_unary_content_length header_content_type (show_nat (length z)) _
      ∙ get-trailer_mux header_content_type header a.left.trailer refl c
      ∙ get-set_if_other header_unary_encoding header_content_type (map_option name_of used)
          a.left.header refl

  length_lem : get header_unary_content_length sent_header ≡ some (show_nat (length z))
  length_lem =
      get-set header_unary_content_length header_unary_content_length (show_nat (length z)) _
      ∙ ap some (normalize_value-IsVisible (show_nat (length z)) (show_nat-IsVisible (length z)))

  pub bytes_lem :
      (max : ℕ)
      → length z ≤ max
      → length a.body ≤ max
      → Inverts used max
      → compressed used a.body ≡ ok z
      → (read_all_bytes
            (next z done)
            max
            (length_hint (get header_unary_content_length sent_header))
          >>= decompressed used max)
        ≡ ok a.body
  bytes_lem max small whole i e =
      ap (λ h. read_all_bytes (next z done) max (length_hint h) >>= decompressed used max)
        length_lem
      ∙ ap (λ r. r >>= decompressed used max)
          ((read_all_bytes_iff (next z done) max (text (show_nat (length z))) z).1
            (refl, sym (append-nil z), small, parse_length_hint-show_nat (length z)))
      ∙ decompressed-compressed used max a.body z whole i e
