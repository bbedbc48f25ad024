-- ===== src/Universal/Negotiation.antt =====
-- The outcome of negotiating the protocol.
use connect_es.Prelude.{
  ◌≡◌, subst, sym, refl, ap, ◌∙◌, inl, inr, Bool, true, false, ◌&&◌, some, List, [], ◌∷◌,
  Bool-cases, or_else, if_true, and_left, and_right, filter?, NonePass, FirstPass, filter?-nil,
  filter?-cons,
}
use connect_es.Prelude.Text.{Text, codes, starts_with}
use connect_es.Headers.{get}
use connect_es.ConnectError.{Result, ok}
use connect_es.Universal.{
  is_bidi, UniversalServerRequest, UniversalServerResponse, response_unsupported_media_type,
  response_method_not_allowed, response_version_not_supported, MethodInfo, UniversalHandler, allows,
  first_match, by_content_type, negotiating_handler,
}

-- The handlers of the method are chosen by the content type: not a single one that is asked without it.
abbrev pub ByType : Text → List UniversalHandler → Type 0
ByType [] (h ∷ []) = ⊥
ByType _ _ = Unit {0}

-- The `Content-Type` of a request, or the empty text.
abbrev pub content_type_of : UniversalServerRequest → Text
unfolding get
content_type_of req = or_else (get (codes "Content-Type") req.header) []

module _ (handlers : List UniversalHandler) (req : UniversalServerRequest) where
  -- A request for a method of HTTP and a content type: no handler has the method; a single handler has
  -- it, and there is no content type; otherwise no handler of the method has the type; or the first one that has
  -- both answers.
  pub data Selected (content_type : Text) (r : Result UniversalServerResponse) : Type 0 where
    no_method :
        NonePass (allows req.method) handlers
        → r ≡ ok response_method_not_allowed
        → Selected content_type r
    only :
        (h : UniversalHandler)
        → FirstPass (allows req.method) handlers h []
        → content_type ≡ []
        → r ≡ h.handle req
        → Selected content_type r
    no_type :
        (h : UniversalHandler) (hs : List UniversalHandler)
        → FirstPass (allows req.method) handlers h hs
        → ByType content_type (h ∷ hs)
        → NonePass (λ h. h.supported_content_type content_type) (h ∷ hs)
        → r ≡ ok response_unsupported_media_type
        → Selected content_type r
    first :
        (h : UniversalHandler) (rest : List UniversalHandler)
        → ByType content_type (filter? (allows req.method) handlers)
        → FirstPass
            (λ h. h.supported_content_type content_type)
            (filter? (allows req.method) handlers)
            h
            rest
        → r ≡ h.handle req
        → Selected content_type r

  abbrev supports : Text → UniversalHandler → Bool
  supports t h = h.supported_content_type t

  first_match-Selected :
      (t : Text) (h : UniversalHandler) (hs fit : List UniversalHandler)
      → filter? (allows req.method) handlers ≡ h ∷ hs
      → ByType t (h ∷ hs)
      → filter? (supports t) (h ∷ hs) ≡ fit
      → Selected t (first_match fit req)
  unfolding first_match
  first_match-Selected t h hs [] e b f =
      no_type h hs (filter?-cons (allows req.method) handlers h hs e) b
        (filter?-nil (supports t) (h ∷ hs) f) refl
  first_match-Selected t h hs (g ∷ rest) e b f =
      first g rest (subst (ByType t) (sym e) b)
        (filter?-cons (supports t) (filter? (allows req.method) handlers) g rest
          (ap (filter? (supports t)) e ∙ f))
        refl

  by_content_type-Selected :
      (t : Text) (allowed : List UniversalHandler)
      → filter? (allows req.method) handlers ≡ allowed
      → Selected t (by_content_type allowed t req)
  unfolding by_content_type
  by_content_type-Selected t [] e = no_method (filter?-nil (allows req.method) handlers e) refl
  by_content_type-Selected [] (h ∷ []) e =
      only h (filter?-cons (allows req.method) handlers h [] e) refl refl
  by_content_type-Selected (c ∷ t) (h ∷ []) e = first_match-Selected (c ∷ t) h [] _ e tt refl
  by_content_type-Selected [] (h ∷ g ∷ hs) e = first_match-Selected [] h (g ∷ hs) _ e tt refl
  by_content_type-Selected (c ∷ t) (h ∷ g ∷ hs) e =
      first_match-Selected (c ∷ t) h (g ∷ hs) _ e tt refl

  -- The outcome of a request.
  pub data Outcome (method : MethodInfo) (r : Result UniversalServerResponse) : Type 0 where
    no_version :
        is_bidi method.kind ≡ true
        → starts_with req.http_version (codes "1.") ≡ true
        → r
          ≡ ok (record response_version_not_supported {
            header = some ((codes "connection", codes "close") ∷ []);
          })
        → Outcome method r
    selected :
        (is_bidi method.kind && starts_with req.http_version (codes "1.")) ≡ false
        → Selected (content_type_of req) r
        → Outcome method r

  -- A request over HTTP/1 for a method that streams both ways is refused with 505 and closes the
  -- connection. Any other one is answered with 405 if no handler has the HTTP method, by the only
  -- handler that has it if there is no content type, with 415 if none of them has the content type, and
  -- otherwise by the first handler that has both.
  pub negotiating_handler-Outcome :
      (method : MethodInfo) → Outcome method (negotiating_handler method handlers req)
  unfolding negotiating_handler
  negotiating_handler-Outcome method =
      elim (Bool-cases (is_bidi method.kind && starts_with req.http_version (codes "1."))) [
        | inl old ↦ no_version (and_left _ _ old) (and_right _ _ old) (if_true _ _ old)
        | inr rest ↦ selected rest (rw rest (by_content_type-Selected (content_type_of req) _ refl))
      ]
