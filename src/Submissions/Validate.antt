-- ===== src/Submissions/Validate.antt =====
-- `validate_against_widget` of app/services/submission_service.py.
pub mod Laws
pub mod Kept
use flyrank_capstone_lead_ca.Prelude.{
  ℕ, String, append, Bool, true, false, not, ◌&&◌, ◌||◌, Option, none, some, List, [], ◌∷◌, ◌++◌,
  map, Dict, lookup, insert, contains, len, leb, ltb, is_empty, strip, has_char, split, starts_with,
  ◌==◌, if◌then◌else◌,
}
use flyrank_capstone_lead_ca.Config.{Settings}
use flyrank_capstone_lead_ca.Errors.{FieldError, errors, app, Result, ok, err}
use flyrank_capstone_lead_ca.Python.{show, is_float}
use flyrank_capstone_lead_ca.Models.{WidgetField, FieldType, Widget}
use flyrank_capstone_lead_ca.Schemas.{Value, null, bool, number, text, nested}

abbrev pub fields_or_empty : Option (List WidgetField) → List WidgetField
fields_or_empty none = []
fields_or_empty (some fs) = fs

-- `{f["name"]: f for f in fields}`, from the fields that are left and what was collected
unfoldable pub declare : List WidgetField → Dict WidgetField → Dict WidgetField
declare [] d = d
declare (f ∷ fs) d = declare fs (insert f.name f d)

-- `str(value)`
abbrev pub str_of : Value → String
str_of null = "None"
str_of (bool true) = "True"
str_of (bool false) = "False"
str_of (number n) = n
str_of (text t) = t
str_of (nested n) = n

-- `value is None or (isinstance(value, str) and value.strip() == "")`
abbrev pub is_blank : Option Value → Bool
is_blank none = true
is_blank (some null) = true
is_blank (some (text t)) = strip t == ""
is_blank (some _) = false

abbrev pub value_text : Option Value → String
value_text none = "None"
value_text (some v) = str_of v

-- `text.split("@")[-1]`
abbrev pub last_of : List String → String
last_of [] = ""
last_of (p ∷ []) = p
last_of (p ∷ q ∷ ps) = last_of (q ∷ ps)

-- `"@" not in text or "." not in text.split("@")[-1]`
unfoldable pub bad_email : String → Bool
unfolding has_char split
bad_email t = not (has_char b'@' t) || not (has_char b'.' (last_of (split b'@' t)))

-- The test of the text by the declared type: the message of the error.
unfoldable pub type_error_of : FieldType → String → Option String
unfolding bad_email is_float
type_error_of FieldType.email t = if bad_email t then some "must be a valid email address" else none
type_error_of FieldType.number t = if is_float t then none else some "must be a number"
type_error_of FieldType.url t =
    if starts_with t "http://" || starts_with t "https://"
    then none
    else some "must start with http:// or https://"
type_error_of FieldType.text t = none
type_error_of FieldType.tel t = none
type_error_of FieldType.textarea t = none

-- What one round of the loop over the declared fields does.
pub data Outcome : Type 0 where
  blank : Outcome
  rejected : String → Outcome
  cleaned : String → Outcome

abbrev pub or_cleaned : Option String → String → Outcome
or_cleaned none t = cleaned t
or_cleaned (some message) t = rejected message

unfoldable pub check_field : Settings → WidgetField → Option Value → Outcome
unfolding type_error_of len strip
check_field s spec value =
    if spec.required && is_blank value
    then rejected "this field is required"
    else if is_blank value
    then blank
    else if ltb s.max_field_length (len (strip (value_text value)))
    then rejected (append "must be at most " (append (show s.max_field_length) " characters"))
    else or_cleaned (type_error_of spec.type (strip (value_text value))) (strip (value_text value))

abbrev pub field_error : String → String → FieldError
field_error name message = record { field = name; message = message }

-- `for key in data: if key not in declared: …`
unfoldable pub unknown_keys : Dict WidgetField → Dict Value → List FieldError
unknown_keys declared [] = []
unknown_keys declared ((key, v) ∷ lead) =
    let rest = unknown_keys declared lead in
    if contains key declared then rest else field_error key "unknown field for this widget" ∷ rest

abbrev pub add_outcome :
    String → Outcome → List FieldError × Dict String → List FieldError × Dict String
add_outcome name blank (es, cs) = (es, cs)
add_outcome name (rejected message) (es, cs) = (field_error name message ∷ es, cs)
add_outcome name (cleaned t) (es, cs) = (es, (name, t) ∷ cs)

-- The loop over `declared.items()`: the errors and the cleaned members, both in the order of the
-- fields. The names of a dict are distinct, so `cleaned[name] = text` always adds at the end.
unfoldable pub check_fields :
    Settings → Dict WidgetField → Dict Value → List FieldError × Dict String
unfolding check_field lookup
check_fields s [] lead = ([], [])
check_fields s ((name, spec) ∷ declared) lead =
    add_outcome name (check_field s spec (lookup name lead)) (check_fields s declared lead)

abbrev pub raise_or_return : List FieldError → Dict String → Result (Dict String)
raise_or_return [] cs = ok cs
raise_or_return (e ∷ es) cs =
    err
      (app (record { message = "validation_failed"; status_code = 422; detail = errors (e ∷ es) }))

unfoldable pub validate_against_widget : Settings → Widget → Dict Value → Result (Dict String)
unfolding declare unknown_keys check_fields insert
validate_against_widget s widget lead =
    let declared = declare (fields_or_empty widget.fields) [] in
    let (es, cs) = check_fields s declared lead in
    raise_or_return (unknown_keys declared lead ++ es) cs
