-- ===== src/Submissions/Validate/Kept.antt =====
-- What is kept of a payload that a widget accepts.
use flyrank_capstone_lead_ca.Prelude.{
  ◌≡◌, refl, ◌∙◌, inl, inr, String, Bool, true, false, Option, none, some, List, [], ◌∷◌, Dict, All,
  lookup, insert, lookup-insert, strip, arith, ◌==◌, eq_iff, if◌then◌else◌, Bool-cases,
}
use mathlib.Core.Path.{subst}
use flyrank_capstone_lead_ca.Config.{Settings}
use flyrank_capstone_lead_ca.Errors.{FieldError, ok}
use flyrank_capstone_lead_ca.Models.{WidgetField, Widget}
use flyrank_capstone_lead_ca.Schemas.{Value}
use flyrank_capstone_lead_ca.Submissions.Validate.{
  fields_or_empty, declare, is_blank, value_text, Outcome, blank, cleaned, check_field, add_outcome,
  check_fields, validate_against_widget,
}
use flyrank_capstone_lead_ca.Submissions.Validate.Laws.{
  kept, Fits, declared_fields, kept-Fits, ok-validate,
}

-- No key stands twice.
abbrev Distinct : Dict WidgetField → Type 0
Distinct [] = Unit
Distinct ((k, v) ∷ d) = (lookup k d ≡ none) × Distinct d

insert-Distinct :
    (k : String) (v : WidgetField) (d : Dict WidgetField) → Distinct d → Distinct (insert k v d)
unfolding insert lookup
insert-Distinct k v [] h = (refl, tt)
insert-Distinct k v ((j, w) ∷ d) (n, h) = elim (Bool-cases (j == k)) [
  | inl e ↦ rw e (n, h)
  | inr e ↦
      rw e (
        rw (lookup-insert k j v d) (ground (arith, eq_iff k j, eq_iff j k)),
        insert-Distinct k v d h,
      )
]

declare-Distinct :
    (fs : List WidgetField) (d : Dict WidgetField) → Distinct d → Distinct (declare fs d)
unfolding declare
declare-Distinct [] d h = h
declare-Distinct (f ∷ fs) d h =
    declare-Distinct fs (insert f.name f d) (insert-Distinct f.name f d h)

-- What is kept of a field's value.
abbrev pub kept_text : Option WidgetField → Option Value → Option String
kept_text none value = none
kept_text (some spec) value = if is_blank value then none else some (strip (value_text value))

outcome_of_kept :
    (s : Settings) (spec : WidgetField) (value : Option Value)
    → kept (check_field s spec value) ≡ true
    → check_field s spec value
      ≡ (if is_blank value then blank else cleaned (strip (value_text value)))
unfolding check_field
outcome_of_kept s spec value h = ground arith

lookup-add_outcome :
    (name n : String) (o : Outcome) (r : List FieldError × Dict String) (b : Bool) (t : String)
    → o ≡ (if b then blank else cleaned t)
    → lookup name (add_outcome n o r).1
      ≡ (if b then lookup name r.1 else if n == name then some t else lookup name r.1)
unfolding lookup
lookup-add_outcome name n o r true t e = rw e
lookup-add_outcome name n o r false t e = rw e

kept_step :
    (n name : String) (spec : WidgetField) (declared : Dict WidgetField) (lead : Dict Value)
    (rest : Option String)
    → lookup n declared ≡ none
    → rest ≡ kept_text (lookup name declared) (lookup name lead)
    → (if is_blank (lookup n lead)
        then rest
        else if n == name
        then some (strip (value_text (lookup n lead)))
        else rest)
      ≡ kept_text (if n == name then some spec else lookup name declared) (lookup name lead)
kept_step n name spec declared lead rest fresh ih = elim (Bool-cases (n == name)) [
  | inl e ↦
      subst
        (λ m.
          (rest ≡ kept_text (lookup m declared) (lookup m lead))
          → (if is_blank (lookup n lead)
              then rest
              else if n == name
              then some (strip (value_text (lookup n lead)))
              else rest)
            ≡ kept_text (if n == name then some spec else lookup m declared) (lookup m lead))
        ((eq_iff n name).0 e) (λ ih'. rw e (same_name ih')) ih
  | inr e ↦ rw e (ground arith)
]
  where
    same_name :
        rest ≡ kept_text (lookup n declared) (lookup n lead)
        → (if is_blank (lookup n lead) then rest else some (strip (value_text (lookup n lead))))
          ≡ (if is_blank (lookup n lead) then none else some (strip (value_text (lookup n lead))))
    same_name ih' = ground arith

lookup-check_fields :
    (s : Settings) (declared : Dict WidgetField) (lead : Dict Value) (name : String)
    → Distinct declared
    → All (λ d. Fits s d.1 (lookup d.0 lead)) declared
    → lookup name (check_fields s declared lead).1
      ≡ kept_text (lookup name declared) (lookup name lead)
unfolding check_fields lookup
lookup-check_fields s [] lead name d h = refl
lookup-check_fields s ((n, spec) ∷ declared) lead name (fresh, d) (f, h) =
    lookup-add_outcome name n (check_field s spec (lookup n lead)) (check_fields s declared lead) _
      _ (outcome_of_kept s spec (lookup n lead) (kept-Fits s spec (lookup n lead) f))
    ∙ kept_step n name spec declared lead _ fresh (lookup-check_fields s declared lead name d h)

-- After a payload was accepted, the cleaned data has, under every name, the stripped text of the
-- value if the widget declares the name and the value is not blank, and nothing otherwise.
pub lookup-validate :
    (s : Settings) (widget : Widget) (lead : Dict Value) (name : String) {cs : Dict String}
    → validate_against_widget s widget lead ≡ ok cs
    → lookup name cs ≡ kept_text (lookup name (declared_fields widget)) (lookup name lead)
lookup-validate s widget lead name h =
    let (conforms, same) = ok-validate s widget lead h in
    rw same (
      lookup-check_fields s (declared_fields widget) lead name
        (declare-Distinct (fields_or_empty widget.fields) [] tt) conforms.1)
