-- ===== src/Errors.antt =====
-- app/errors.py: domain errors, what else a handler can raise, and the status that the server answers.
use flyrank_capstone_lead_ca.Prelude.{
  ◌≡◌, ◌⊎◌, refl, inl, inr, ℕ, String, append, List, [], ◌∷◌, map, is_empty, ◌==◌, if◌then◌else◌,
}
use flyrank_capstone_lead_ca.Python.{show}

pub record FieldError : Type 0 where
  pub field : String
  pub message : String

-- The values that the source passes as `detail`.
pub data Detail : Type 0 where
  no_detail : Detail
  errors : List FieldError → Detail
  rate : String → ℕ → Detail

pub record AppError : Type 0 where
  pub message : String
  pub status_code : ℕ
  pub detail : Detail

-- Exceptions that no handler of the application catches.
pub data Exception : Type 0 where
  index_error value_error type_error integrity_error data_error multiple_results : Exception

pub data Error : Type 0 where
  app : AppError → Error
  uncaught : Exception → Error

pub data Result {ℓ} (A : Type ℓ) : Type ℓ where
  ok : A → Result A
  err : Error → Result A

pub Result-cases :
    {A : Type 0} (r : Result A) → ((a : A) × (r ≡ ok a)) ⊎ ((x : Error) × (r ≡ err x))
Result-cases (ok a) = inl (a, refl)
Result-cases (err x) = inr (x, refl)

-- `AppError(message, status_code=status)`
abbrev pub app_error : String → ℕ → Error
app_error message status =
    app (record { message = message; status_code = status; detail = no_detail })

-- The status of the response: `_app_error` for a domain error, and the server's 500 for the rest.
abbrev pub status_of : Error → ℕ
status_of (app e) = e.status_code
status_of (uncaught x) = 500

-- `_json`: the answer's status and its content, in which a detail that is `None` is left out.
pub record ErrorResponse : Type 0 where
  pub status : ℕ
  pub error : String
  pub detail : Detail

abbrev pub json_of : AppError → ErrorResponse
json_of e = record { status = e.status_code; error = e.message; detail = e.detail }

-- `_http_error`, the handler of the framework's own exceptions.
abbrev pub http_error : ℕ → String → ErrorResponse
http_error status_code detail = record { status = status_code; error = detail; detail = no_detail }

-- One step of the path to a value that pydantic refused.
pub data LocPart : Type 0 where
  member : String → LocPart
  position : ℕ → LocPart

-- What the handlers read of an error of pydantic: its type, its path and its message.
pub record PydanticError : Type 0 where
  pub kind : String
  pub loc : List LocPart
  pub msg : String

abbrev pub part_text : LocPart → String
part_text (member t) = t
part_text (position n) = show n

-- `".".join(str(part) for part in loc)`
unfoldable pub dotted : List LocPart → String
unfolding show
dotted [] = ""
dotted (p ∷ []) = part_text p
dotted (p ∷ q ∷ ps) = append (part_text p) (append "." (dotted (q ∷ ps)))

abbrev pub or_body : String → String
or_body t = if is_empty t then "body" else t

abbrev pub rest_of : List LocPart → List LocPart
rest_of [] = []
rest_of (p ∷ ps) = ps

unfoldable pub field_name : PydanticError → String
unfolding dotted
field_name e = if e.kind == "json_invalid" then "body" else or_body (dotted (rest_of e.loc))

-- The answer of a handler: the status, the text and the field errors.
abbrev pub named : PydanticError → FieldError
named e = record { field = field_name e; message = e.msg }

-- `_validation_error`; the type of each error, which the answer repeats, is left out.
unfoldable pub validation_error : List PydanticError → AppError
unfolding field_name
validation_error es = record {
  message = "validation_failed";
  status_code = 422;
  detail = errors (map named es);
}
