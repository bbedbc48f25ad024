-- ===== src/Json.antt =====
-- JSON values, as `JSON.parse` returns them (`JsonValue` of @bufbuild/protobuf).
use connect_es.Prelude.{ℕ, Bool, true, false, Option, none, some, List, [], ◌∷◌, if◌then◌else◌}
use connect_es.Prelude.Text.{Text, text_eq}

mutual
  pub data Json : Type 0 where
    null : Json
    bool : Bool → Json
    num : ℕ → Json
    str : Text → Json
    arr : Items → Json
    obj : Fields → Json

  pub data Items : Type 0 where
    nil : Items
    cons : Json → Items → Items

  -- The own enumerable fields, in order.
  pub data Fields : Type 0 where
    end : Fields
    field : Text → Json → Fields → Fields

-- An own property; `none` is `undefined`. `JSON.parse` keeps the last of several equal keys.
abbrev pub get_field : Text → Fields → Option Json
get_field k end = none
get_field k (field j v fs) = if text_eq j k then some v else get_field k fs

-- `k in o`, for a key that `Object.prototype` does not have.
abbrev pub has_field : Text → Fields → Bool
has_field k end = false
has_field k (field j v fs) = if text_eq j k then true else has_field k fs

abbrev pub items : Items → List Json
items nil = []
items (cons v vs) = v ∷ items vs

abbrev pub of_list : List Json → Items
of_list [] = nil
of_list (v ∷ vs) = cons v (of_list vs)
