-- ===== src/Examples/Validating.antt =====
-- A validator of the keywords that the tools of native/src/server.rs rely on.
use repl_mcp.Config.Normal.{is_some}
use repl_mcp.Base.{
  String, Option, ◌≡◌, Bool, some, true, arith, none, ◌&&◌, false, false≢true, if◌then◌else◌, ◌==◌,
  Bool-cases, refl, string_eq, inl, subst, Option-cases, sym, ==_sound, inr,
}
use repl_mcp.Json.{
  Value, Items, Fields, and_then, is_object, get, get_str, lookup, str, object, cons, field, array,
  end, nil,
}
use repl_mcp.Server.Route.Schema.{IsValidator, has_word, has_item}

abbrev pub fits_items : Items → Fields → Bool
fits_items nil fields = true
fits_items (cons (str key) rest) fields = is_some (lookup key fields) && fits_items rest fields
fits_items (cons _ rest) fields = fits_items rest fields

abbrev pub fits_required : Option Value → Fields → Bool
fits_required (some (array words)) fields = fits_items words fields
fits_required _ fields = true

abbrev pub is_text : Value → Bool
is_text (str s) = true
is_text _ = false

abbrev pub fits_type : Option String → Value → Bool
fits_type none v = true
fits_type (some t) v =
    if t == "string" then is_text v else if t == "object" then is_object v else true

abbrev pub fits_given : Option String → Option Value → Bool
fits_given t none = true
fits_given t (some v) = fits_type t v

abbrev pub fits_fields : Fields → Fields → Bool
fits_fields end fields = true
fits_fields (field key schema rest) fields =
    fits_given (get_str "type" schema) (lookup key fields) && fits_fields rest fields

abbrev pub fits_properties : Option Value → Fields → Bool
fits_properties (some (object properties)) fields = fits_fields properties fields
fits_properties _ fields = true

abbrev pub validates : Value → Value → Bool
validates schema (object fields) =
    fits_required (get "required" schema) fields && fits_properties (get "properties" schema) fields
validates schema _ = true

item_there :
    (key : String) (words : Items) (fields : Fields)
    → has_item key words ≡ true
    → fits_items words fields ≡ true
    → (v : Value) × (lookup key fields ≡ some v)
item_there key nil fields listed fits = absurd (false≢true listed)
item_there key (cons (str k) rest) fields listed fits = elim (Bool-cases (k == key)) [
  | inl same ↦ elim (Option-cases (lookup key fields)) [
    | inl missing ↦ absurd (
        ground (
          arith,
          fits,
          missing,
          subst (λ j. is_some (lookup j fields) ≡ true) (==_sound k key same)
              (ground (arith, fits)),
        ))
    | inr there ↦ there
  ]
  | inr other ↦ item_there key rest fields (ground (arith, listed, other)) (ground (arith, fits))
]
item_there key (cons _ rest) fields listed fits = item_there key rest fields listed fits

required_there :
    (key : String) (o : Option Value) (fields : Fields)
    → has_word key o ≡ true
    → fits_required o fields ≡ true
    → (v : Value) × (lookup key fields ≡ some v)
required_there key (some (array words)) fields listed fits = item_there key words fields listed fits
required_there key _ fields listed fits = absurd (false≢true listed)

field_fits :
    (key t : String) (properties fields : Fields) (v : Value)
    → and_then (lookup key properties) (get_str "type") ≡ some t
    → fits_fields properties fields ≡ true
    → lookup key fields ≡ some v
    → fits_type (some t) v ≡ true
field_fits key t end fields v typed fits there = absurd (ground (arith, typed))
field_fits key t (field k schema rest) fields v typed fits there = elim (Bool-cases (k == key)) [
  | inl same ↦
      let given : fits_given (get_str "type" schema) (lookup k fields) ≡ true =
        ground (arith, fits) in
      let here : lookup k fields ≡ some v =
        subst (λ j. lookup j fields ≡ some v) (sym (==_sound k key same)) there in
      let type : get_str "type" schema ≡ some t = simp same at typed in
      subst (λ o. fits_type o v ≡ true) type
        (subst (λ o. fits_given (get_str "type" schema) o ≡ true) here given)
  | inr other ↦ field_fits key t rest fields v (simp other at typed) (ground (arith, fits)) there
]

property_fits :
    (key t : String) (o : Option Value) (fields : Fields) (v : Value)
    → and_then (and_then o (get key)) (get_str "type") ≡ some t
    → fits_properties o fields ≡ true
    → lookup key fields ≡ some v
    → fits_type (some t) v ≡ true
property_fits key t (some (object properties)) fields v typed fits there =
    field_fits key t properties fields v typed fits there
property_fits key t _ fields v typed fits there = absurd (ground (arith, typed))

text_of : (v : Value) → is_text v ≡ true → (s : String) × (v ≡ str s)
text_of (str s) h = (s, refl)
text_of _ h = absurd (false≢true h)

fields_in : (v : Value) → is_object v ≡ true → (inner : Fields) × (v ≡ object inner)
fields_in (object inner) h = (inner, refl)
fields_in _ h = absurd (false≢true h)

pub validates-IsValidator : IsValidator validates
validates-IsValidator = record {
  present = λ schema fields key accepted required.
      required_there key (get "required" schema) fields required (ground (arith, accepted));
  is_text = λ schema fields key v accepted typed there. text_of v (
      property_fits key "string" (get "properties" schema) fields v typed (ground (arith, accepted))
        there);
  has_fields = λ schema fields key v accepted typed there. fields_in v (
      property_fits key "object" (get "properties" schema) fields v typed (ground (arith, accepted))
        there);
}
