-- ===== src/Invariant/Calls.antt =====
-- Parts of a call of which nothing is needed but that they keep the invariant, and those that only
-- app/services/submission_service.py has.
use flyrank_capstone_lead_ca.Prelude.{Option, none, some}
use flyrank_capstone_lead_ca.Errors.{Error, Result, ok, err}
use flyrank_capstone_lead_ca.Models.{Submission, Tables}
use flyrank_capstone_lead_ca.Session.{Engine, Session, Action, lift, select, ◌>>=◌}
use flyrank_capstone_lead_ca.Submissions.Create.{wait, resume, try_else}
use flyrank_capstone_lead_ca.Invariant.{
  Invariant, Anything, OnOk, OnSome, Sound, Ensures, Preserves, lift-Ensures, select-Ensures,
  option-Ensures, bind-Ensures,
}

OnOk-Anything : {A : Type 0} (r : Result A) → OnOk Anything r
OnOk-Anything (ok a) = tt
OnOk-Anything (err x) = tt

OnSome-Anything : {A : Type 0} (o : Option A) → OnSome Anything o
OnSome-Anything none = tt
OnSome-Anything (some a) = tt

module _ {e : Engine} (i : Invariant e) where
  -- A query, a result and a choice of which nothing is needed.
  pub select-Preserves : {A : Type 0} (query : Tables → A) → Preserves i (select query)
  select-Preserves query = select-Ensures i Anything query (λ _ _. tt)

  pub lift-Preserves : {A : Type 0} (r : Result A) → Preserves i (lift r)
  lift-Preserves r = lift-Ensures i Anything r (OnOk-Anything r)

  pub option-Preserves :
      {A B : Type 0} (f : Option A → Action B)
      → Preserves i (f none)
      → ((a : A) → Preserves i (f (some a)))
      → (o : Option A) → Preserves i (f o)
  option-Preserves f h g o =
      option-Ensures i Anything Anything f h (λ a _. g a) o (OnSome-Anything o)

  pub then-Preserves :
      {A B : Type 0} (m : Action A) (f : A → Action B)
      → Preserves i m
      → ((a : A) → Preserves i (f a))
      → Preserves i (m >>= f)
  then-Preserves m f h g = bind-Ensures i Anything Anything m f h (λ a _. g a)

  -- What other requests commit meanwhile keeps the invariant too.
  pub wait-Preserves :
      (others : Tables → Tables)
      → ((t : Tables) → i.holds t → i.holds (others t))
      → Preserves i (wait others)
  unfolding Ensures
  wait-Preserves others keeps z h = (
    record { saved = keeps z.saved h.saved; seen = keeps z.seen h.seen; pending = h.pending },
    tt,
  )

  resume-Sound :
      (r : Result (Unit {0})) (rest : Action Submission) (handler : Error → Action Submission)
      (z : Session)
      → Preserves i rest
      → ((x : Error) → Preserves i (handler x))
      → Sound i z
      → Sound i (resume r rest handler z).1 × OnOk Anything (resume r rest handler z).0
  unfolding Ensures
  resume-Sound (ok a) rest handler z g k s = g z s
  resume-Sound (err x) rest handler z g k s = k x z s

  pub try_else-Preserves :
      (m : Action (Unit {0})) (rest : Action Submission) (handler : Error → Action Submission)
      → Preserves i m
      → Preserves i rest
      → ((x : Error) → Preserves i (handler x))
      → Preserves i (try_else m rest handler)
  unfolding Ensures
  try_else-Preserves m rest handler h g k z s =
      resume-Sound (m z).0 rest handler (m z).1 g k (h z s).0
