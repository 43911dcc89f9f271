-- ===== src/Submissions/Validate/Laws.antt =====
-- Which payloads a widget accepts, and what is kept of them.
use flyrank_capstone_lead_ca.Prelude.{
  ◌≤◌, ◌≡◌, ◌↔◌, ◌⊎◌, refl, sym, ◌∙◌, inl, inr, String, Bool, true, false, Option, none, List, [],
  ◌∷◌, ◌++◌, Dict, lookup, contains, len, strip, has_char, split, starts_with, arith, All,
  Bool-cases,
}
use flyrank_capstone_lead_ca.Config.{Settings}
use flyrank_capstone_lead_ca.Errors.{FieldError, ok}
use flyrank_capstone_lead_ca.Python.{is_float}
use flyrank_capstone_lead_ca.Models.{WidgetField, FieldType, Widget}
use flyrank_capstone_lead_ca.Schemas.{Value}
use flyrank_capstone_lead_ca.Submissions.Validate.{
  fields_or_empty, declare, is_blank, value_text, last_of, bad_email, type_error_of, Outcome, blank,
  rejected, cleaned, check_field, unknown_keys, add_outcome, check_fields, raise_or_return,
  validate_against_widget,
}

-- What a text has to look like for each type of field.
abbrev pub WellTyped : FieldType → String → Type 0
WellTyped FieldType.email t =
    (has_char b'@' t ≡ true) × (has_char b'.' (last_of (split b'@' t)) ≡ true)
WellTyped FieldType.number t = is_float t ≡ true
WellTyped FieldType.url t = (starts_with t "http://" ≡ true) ⊎ (starts_with t "https://" ≡ true)
WellTyped _ t = Unit

-- A value that a field accepts: blank where the field is optional, and otherwise a text that after
-- stripping is short enough and looks like its type.
abbrev pub Fits : Settings → WidgetField → Option Value → Type 0
Fits s spec value =
    ((is_blank value ≡ true) × (spec.required ≡ false))
    ⊎ ((is_blank value ≡ false)
        × (len (strip (value_text value)) ≤ s.max_field_length)
        × WellTyped spec.type (strip (value_text value)))

abbrev pub kept : Outcome → Bool
kept blank = true
kept (rejected message) = false
kept (cleaned t) = true

type_error_of-none : (t : FieldType) (x : String) → type_error_of t x ≡ none → WellTyped t x
unfolding type_error_of bad_email
type_error_of-none FieldType.email x h = ground arith
type_error_of-none FieldType.number x h = ground arith
type_error_of-none FieldType.url x h = ground arith
type_error_of-none FieldType.text x h = tt
type_error_of-none FieldType.tel x h = tt
type_error_of-none FieldType.textarea x h = tt

none-type_error_of : (t : FieldType) (x : String) → WellTyped t x → type_error_of t x ≡ none
unfolding type_error_of bad_email
none-type_error_of FieldType.email x h = ground arith
none-type_error_of FieldType.number x h = ground arith
none-type_error_of FieldType.url x h = ground arith
none-type_error_of FieldType.text x h = refl
none-type_error_of FieldType.tel x h = refl
none-type_error_of FieldType.textarea x h = refl

Fits-kept :
    (s : Settings) (spec : WidgetField) (value : Option Value)
    → kept (check_field s spec value) ≡ true
    → Fits s spec value
unfolding check_field
Fits-kept s spec value h = elim (Bool-cases (is_blank value)) [
  | inl b ↦ inl (b, ground arith)
  | inr b ↦
      inr (b, ground arith, type_error_of-none spec.type (strip (value_text value)) (ground arith))
]

pub kept-Fits :
    (s : Settings) (spec : WidgetField) (value : Option Value)
    → Fits s spec value
    → kept (check_field s spec value) ≡ true
unfolding check_field
kept-Fits s spec value (inl (b, r)) = ground arith
kept-Fits s spec value (inr (b, l, w)) =
    ground (arith, none-type_error_of spec.type (strip (value_text value)) w)

-- A payload that a widget accepts: every key is declared, and every declared field fits.
abbrev pub Conforms : Settings → Dict WidgetField → Dict Value → Type 0
Conforms s declared lead =
    All (λ e. contains e.0 declared ≡ true) lead × All (λ d. Fits s d.1 (lookup d.0 lead)) declared

known_of_none :
    (declared : Dict WidgetField) (lead : Dict Value)
    → unknown_keys declared lead ≡ []
    → All (λ e. contains e.0 declared ≡ true) lead
unfolding unknown_keys
known_of_none declared [] h = tt
known_of_none declared ((key, v) ∷ lead) h = elim (Bool-cases (contains key declared)) [
  | inl e ↦ (e, known_of_none declared lead (ground arith))
  | inr e ↦ absurd (ground arith)
]

none_of_known :
    (declared : Dict WidgetField) (lead : Dict Value)
    → All (λ e. contains e.0 declared ≡ true) lead
    → unknown_keys declared lead ≡ []
unfolding unknown_keys
none_of_known declared [] h = refl
none_of_known declared ((key, v) ∷ lead) (e, h) = rw e (none_of_known declared lead h)

no_error_of :
    (name : String) (o : Outcome) (r : List FieldError × Dict String)
    → (add_outcome name o r).0 ≡ []
    → (kept o ≡ true) × (r.0 ≡ [])
no_error_of name blank r h = (refl, h)
no_error_of name (rejected message) r h = absurd (cc)
no_error_of name (cleaned t) r h = (refl, h)

errors-add_outcome :
    (name : String) (o : Outcome) (r : List FieldError × Dict String)
    → kept o ≡ true
    → (add_outcome name o r).0 ≡ r.0
errors-add_outcome name blank r h = refl
errors-add_outcome name (rejected message) r h = absurd (cc)
errors-add_outcome name (cleaned t) r h = refl

Fits-check_fields :
    (s : Settings) (declared : Dict WidgetField) (lead : Dict Value)
    → (check_fields s declared lead).0 ≡ []
    → All (λ d. Fits s d.1 (lookup d.0 lead)) declared
unfolding check_fields
Fits-check_fields s [] lead h = tt
Fits-check_fields s ((name, spec) ∷ declared) lead h =
    let (here, later) =
      no_error_of name (check_field s spec (lookup name lead)) (check_fields s declared lead) h in
    (Fits-kept s spec (lookup name lead) here, Fits-check_fields s declared lead later)

check_fields-Fits :
    (s : Settings) (declared : Dict WidgetField) (lead : Dict Value)
    → All (λ d. Fits s d.1 (lookup d.0 lead)) declared
    → (check_fields s declared lead).0 ≡ []
unfolding check_fields
check_fields-Fits s [] lead h = refl
check_fields-Fits s ((name, spec) ∷ declared) lead (f, h) =
    errors-add_outcome name (check_field s spec (lookup name lead)) (check_fields s declared lead)
      (kept-Fits s spec (lookup name lead) f)
    ∙ check_fields-Fits s declared lead h

split_nil : (xs ys : List FieldError) → xs ++ ys ≡ [] → (xs ≡ []) × (ys ≡ [])
split_nil [] ys h = (refl, h)
split_nil (x ∷ xs) ys h = absurd (cc)

raise_or_return-ok :
    (es : List FieldError) (cs cs' : Dict String)
    → raise_or_return es cs ≡ ok cs'
    → (es ≡ []) × (cs ≡ cs')
raise_or_return-ok [] cs cs' h = (refl, cc)
raise_or_return-ok (e ∷ es) cs cs' h = absurd (cc)

-- `declared` of `validate_against_widget`
abbrev pub declared_fields : Widget → Dict WidgetField
declared_fields widget = declare (fields_or_empty widget.fields) []

module _ (s : Settings) (widget : Widget) (lead : Dict Value) where
  pub ok-validate :
      {cs : Dict String}
      → validate_against_widget s widget lead ≡ ok cs
      → Conforms s (declared_fields widget) lead
        × (cs ≡ (check_fields s (declared_fields widget) lead).1)
  unfolding validate_against_widget
  ok-validate {cs} h =
      let (none_, same) =
        raise_or_return-ok
          (unknown_keys (declared_fields widget) lead
            ++ (check_fields s (declared_fields widget) lead).0)
          _ cs h in
      let (known, fits) = split_nil (unknown_keys (declared_fields widget) lead) _ none_ in
      (
        (
          known_of_none (declared_fields widget) lead known,
          Fits-check_fields s (declared_fields widget) lead fits,
        ),
        sym same,
      )

  validate-ok :
      Conforms s (declared_fields widget) lead
      → validate_against_widget s widget lead ≡ ok (check_fields s (declared_fields widget) lead).1
  unfolding validate_against_widget
  validate-ok (known, fits) =
      rw
        (
          none_of_known (declared_fields widget) lead known,
          check_fields-Fits s (declared_fields widget) lead fits,
        )
        refl

  -- Validation returns exactly for the payloads whose keys are all declared by the widget and whose
  -- declared fields all fit: blank only where optional, and otherwise, stripped, no longer than the
  -- limit and of the form of the field's type.
  pub validate_iff :
      ((cs : Dict String) × (validate_against_widget s widget lead ≡ ok cs))
      ↔ Conforms s (declared_fields widget) lead
  validate_iff = (
    λ r. (ok-validate r.1).0,
    λ c. ((check_fields s (declared_fields widget) lead).1, validate-ok c),
  )
