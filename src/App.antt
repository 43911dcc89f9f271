-- ===== src/App.antt =====
-- `limit_body_size` of app/main.py: the middleware before every route.
pub mod Process
use flyrank_capstone_lead_ca.Prelude.{
  ℕ, ◌≤◌, ◌≡◌, ◌⊎◌, ◌↔◌, refl, inl, inr, String, append, Bool, true, false, ◌||◌, Option, none,
  some, ltb, arith, Bool-cases, ◌==◌, if◌then◌else◌,
}
use flyrank_capstone_lead_ca.Config.{Settings}
use flyrank_capstone_lead_ca.Python.{show, int_of}

-- An answer of the middleware itself.
pub record Refusal : Type 0 where
  pub status : ℕ
  pub error : String
  pub detail : Option String

abbrev pub has_body : String → Bool
has_body method = method == "POST" || method == "PATCH" || method == "PUT"

abbrev pub too_large : Settings → Refusal
too_large s = record {
  status = 413;
  error = "payload_too_large";
  detail = some (append "body must be at most " (append (show s.max_body_bytes) " bytes"));
}

abbrev pub no_number : Refusal
no_number = record { status = 400; error = "invalid Content-Length header"; detail = none }

-- The test of the header's number, `none` where it is no number.
abbrev pub check_length : Settings → Option (Bool × ℕ) → Option Refusal
check_length s none = some no_number
check_length s (some (true, n)) = none
check_length s (some (false, n)) = if ltb s.max_body_bytes n then some (too_large s) else none

abbrev pub check_header : Settings → Option String → Option Refusal
check_header s none = none
check_header s (some t) = check_length s (int_of t)

-- `none` where the request goes on to its route.
unfoldable pub limit_body_size : Settings → String → Option String → Option Refusal
unfolding show int_of
limit_body_size s method content_length =
    if has_body method then check_header s content_length else none

-- What lets a request pass: a method without a body, no header, or a header that is a number which is
-- negative or within the limit.
abbrev pub Passes : Settings → String → Option String → Type 0
Passes s method content_length =
    (has_body method ≡ false)
    ⊎ (content_length ≡ none)
    ⊎ ((t : String) × (negative : Bool) × (n : ℕ) × (content_length ≡ some t)
        × (int_of t ≡ some (negative, n))
        × ((negative ≡ true) ⊎ (n ≤ s.max_body_bytes)))

Passes-check_length :
    (s : Settings) (method t : String) (o : Option (Bool × ℕ))
    → int_of t ≡ o
    → check_length s o ≡ none
    → Passes s method (some t)
Passes-check_length s method t none e h = absurd (cc)
Passes-check_length s method t (some (true, n)) e h = inr (inr (t, true, n, refl, e, inl refl))
Passes-check_length s method t (some (false, n)) e h =
    inr (inr (t, false, n, refl, e, inr (ground arith)))

Passes-check_header :
    (s : Settings) (method : String) (content_length : Option String)
    → check_header s content_length ≡ none
    → Passes s method content_length
Passes-check_header s method none h = inr (inl refl)
Passes-check_header s method (some t) h = Passes-check_length s method t (int_of t) refl h

limit_body_size-Passes :
    (s : Settings) (method : String) (content_length : Option String)
    → Passes s method content_length
    → limit_body_size s method content_length ≡ none
unfolding limit_body_size
limit_body_size-Passes s method content_length (inl h) = rw h
limit_body_size-Passes s method content_length (inr (inl h)) = rw h (ground arith)
limit_body_size-Passes s method content_length (inr (inr (t, true, n, h, e, _))) =
    rw (h, e) (ground arith)
limit_body_size-Passes s method content_length (inr (inr (t, false, n, h, e, inl f))) = absurd (cc)
limit_body_size-Passes s method content_length (inr (inr (t, false, n, h, e, inr k))) =
    rw (h, e) (ground arith)

-- The middleware lets a request on exactly when its method has no body, it has no Content-Length,
-- or that header is an integer that is negative or at most the limit.
pub limit_body_size_iff :
    (s : Settings) (method : String) (content_length : Option String)
    → (limit_body_size s method content_length ≡ none) ↔ Passes s method content_length
unfolding limit_body_size
limit_body_size_iff s method content_length = (
  λ h. elim (Bool-cases (has_body method)) [
    | inl e ↦ Passes-check_header s method content_length (rw e at h)
    | inr e ↦ inl e
  ],
  limit_body_size-Passes s method content_length,
)
