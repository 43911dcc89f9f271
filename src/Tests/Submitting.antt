-- ===== src/Tests/Submitting.antt =====
-- The theorems on submissions at concrete requests.
use flyrank_capstone_lead_ca.Prelude.{
  ◌≡◌, refl, String, List, [], ◌∷◌, where_, lookup, insert, len, strip, has_char, split, ◌↔◌,
}
use flyrank_capstone_lead_ca.Config.{defaults}
use flyrank_capstone_lead_ca.Errors.{uncaught, integrity_error, ok, err}
use flyrank_capstone_lead_ca.Models.{Submission, Tables}
use flyrank_capstone_lead_ca.Session.{opened, write_all, flush, commit, apply}
use flyrank_capstone_lead_ca.Submissions.Validate.{
  declare, check_field, check_fields, unknown_keys, type_error_of, bad_email,
  validate_against_widget,
}
use flyrank_capstone_lead_ca.Submissions.Validate.Laws.{Conforms, declared_fields, validate_iff}
use flyrank_capstone_lead_ca.Submissions.Validate.Kept.{kept_text, lookup-validate}
use flyrank_capstone_lead_ca.Submissions.Create.{
  effects, store, find_by_idempotency_key, create_submission,
}
use flyrank_capstone_lead_ca.Submissions.Create.Atomic.{
  row, with_submission, IsAtomic, create_submission-IsAtomic,
}
use flyrank_capstone_lead_ca.Submissions.Create.Replay.{
  create_submission_replay, create_submission_race, create_submission_empty_key,
}
use flyrank_capstone_lead_ca.Tests.Samples.{
  widget, tables, unique_engine, unique_engine-EnforcesKeys, offline, stamp, lead_payload, keyed,
}

accepted_lead :
    validate_against_widget defaults widget lead_payload.lead ≡ ok (("email", "ann@mail.org") ∷ [])
unfolding validate_against_widget declare check_field check_fields unknown_keys type_error_of
    bad_email lookup insert len strip has_char split
accepted_lead = refl

create_submission-IsAtomic_example :
    IsAtomic unique_engine defaults stamp widget offline
      (λ t. t)
      (keyed "abc")
      tables
      (validate_against_widget defaults widget lead_payload.lead)
      (create_submission unique_engine defaults stamp widget offline
        (λ t. t)
        lead_payload
        (keyed "abc")
        (opened tables))
create_submission-IsAtomic_example =
    create_submission-IsAtomic unique_engine defaults stamp widget offline (λ t. t) (keyed "abc")
      tables lead_payload

abbrev ann : Submission
ann =
    row unique_engine defaults stamp widget offline (λ t. t) (keyed "abc") tables
      (("email", "ann@mail.org") ∷ [])

abbrev with_ann : Tables
with_ann = with_submission tables ann (effects defaults stamp widget ann)

stored_first :
    create_submission unique_engine defaults stamp widget offline
      (λ t. t)
      lead_payload
      (keyed "abc")
      (opened tables)
    ≡ (ok ann, opened with_ann)
unfolding create_submission find_by_idempotency_key store effects flush commit write_all apply
    where_
stored_first = rw accepted_lead refl

create_submission_replay_example :
    create_submission unique_engine defaults stamp widget offline
      (λ t. t)
      lead_payload
      (keyed "abc")
      (opened with_ann)
    ≡ (ok ann, opened with_ann)
create_submission_replay_example =
    create_submission_replay unique_engine defaults unique_engine-EnforcesKeys widget "abc" refl
      stamp stamp offline offline (λ t. t) (λ t. t) lead_payload lead_payload (keyed "abc")
      (keyed "abc") tables ann (opened with_ann) (("email", "ann@mail.org") ∷ []) refl refl
      stored_first accepted_lead

create_submission_race_example :
    create_submission unique_engine defaults stamp widget offline
      (λ t. with_ann)
      lead_payload
      (keyed "abc")
      (opened tables)
    ≡ (ok ann, opened with_ann)
unfolding where_
create_submission_race_example =
    create_submission_race unique_engine defaults stamp widget offline (λ t. with_ann) lead_payload
      (keyed "abc") tables "abc" ann (("email", "ann@mail.org") ∷ []) refl refl accepted_lead refl
      refl refl

abbrev blank_key : Submission
blank_key =
    row unique_engine defaults stamp widget offline (λ t. t) (keyed "") tables
      (("email", "ann@mail.org") ∷ [])

abbrev with_blank_key : Tables
with_blank_key = with_submission tables blank_key (effects defaults stamp widget blank_key)

create_submission_empty_key_example :
    create_submission unique_engine defaults stamp widget offline
      (λ t. t)
      lead_payload
      (keyed "")
      (opened with_blank_key)
    ≡ (err (uncaught integrity_error), opened with_blank_key)
unfolding where_
create_submission_empty_key_example =
    create_submission_empty_key unique_engine defaults stamp widget offline (λ t. t) lead_payload
      (keyed "") with_blank_key (("email", "ann@mail.org") ∷ []) refl accepted_lead refl

lookup-validate_example :
    lookup "email" (("email", "ann@mail.org") ∷ [])
    ≡ kept_text (lookup "email" (declared_fields widget)) (lookup "email" lead_payload.lead)
lookup-validate_example = lookup-validate defaults widget lead_payload.lead "email" accepted_lead

validate_iff_example :
    ((cs : List (String × String)) × (validate_against_widget defaults widget lead_payload.lead
        ≡ ok cs))
    ↔ Conforms defaults (declared_fields widget) lead_payload.lead
validate_iff_example = validate_iff defaults widget lead_payload.lead
