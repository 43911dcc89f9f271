-- ===== src/Invariant/Requests.antt =====
-- What the requests of app/routers/auth.py and app/routers/public.py keep, and the batches of
-- app/outbox/worker.py.
use flyrank_capstone_lead_ca.Prelude.{ℕ, refl, String, Option, none, some, List, [], ◌∷◌}
use flyrank_capstone_lead_ca.Config.{Settings}
use flyrank_capstone_lead_ca.Errors.{
  Error, app, uncaught, index_error, value_error, type_error, integrity_error, data_error,
  multiple_results,
}
use flyrank_capstone_lead_ca.Models.{Widget, Submission, OutboxEvent, Tables}
use flyrank_capstone_lead_ca.Session.{
  add_tenant, add_submission, add_event, set_event, add_spam, scalar_one_or_none, Engine, ◌>>◌,
}
use flyrank_capstone_lead_ca.Enrichment.{Network, enrich_ip}
use flyrank_capstone_lead_ca.Schemas.{SubmissionCreate}
use flyrank_capstone_lead_ca.Submissions.Validate.{validate_against_widget}
use flyrank_capstone_lead_ca.Submissions.Create.{
  Stamp, Context, matching, find_by_idempotency_key, record_spam, new_submission, effects,
  add_events, wait, found_or_raise, recover, existing_or, store, create_submission,
}
use flyrank_capstone_lead_ca.Outbox.Handlers.{Outbound}
use flyrank_capstone_lead_ca.Outbox.Worker.{
  Claiming, claim_due_events, process_event, Counts, zero_counts, count, process_all,
  process_due_events,
}
use flyrank_capstone_lead_ca.Auth.{
  Crypto, RegisterRequest, hash_password, with_email, refuse_existing, new_tenant,
  create_access_token, register,
}
use flyrank_capstone_lead_ca.Invariant.{
  Invariant, Anything, Preserves, pure-Ensures, raise-Ensures, add-Preserves, if-Ensures,
  flush-Preserves, commit-Preserves, rollback-Preserves,
}
use flyrank_capstone_lead_ca.Invariant.Editing.{add-commit-Ensures}
use flyrank_capstone_lead_ca.Invariant.Calls.{
  select-Preserves, lift-Preserves, option-Preserves, then-Preserves, wait-Preserves,
  try_else-Preserves,
}

module _ {e : Engine} (i : Invariant e) where
  find_by_idempotency_key-Preserves :
      (widget_id : ℕ) (key : Option String) → Preserves i (find_by_idempotency_key widget_id key)
  unfolding find_by_idempotency_key
  find_by_idempotency_key-Preserves widget_id none = pure-Ensures i Anything none tt
  find_by_idempotency_key-Preserves widget_id (some key) =
      if-Ensures i Anything _ _ _ (pure-Ensures i Anything none tt) (
        then-Preserves i _ _
          (select-Preserves i (λ (t : Tables). matching widget_id key t.submissions))
          (λ rows. lift-Preserves i (scalar_one_or_none rows)))

  add_events-Preserves : (rs : List OutboxEvent) → Preserves i (add_events rs)
  add_events-Preserves [] = pure-Ensures i Anything tt tt
  add_events-Preserves (r ∷ rs) =
      then-Preserves i _ _ (add-Preserves i (add_event r) (i.allows_event r))
        (λ u. add_events-Preserves rs)

  recover-Preserves :
      (widget_id : ℕ) (key : Option String) (x : Error) → Preserves i (recover widget_id key x)
  recover-Preserves widget_id key (uncaught integrity_error) =
      then-Preserves i _ _ (rollback-Preserves i) (λ u.
        then-Preserves i _ _ (find_by_idempotency_key-Preserves widget_id key) (
          option-Preserves i found_or_raise (raise-Ensures i Anything (uncaught integrity_error))
            (λ r. pure-Ensures i Anything r tt)))
  recover-Preserves widget_id key (uncaught index_error) = raise-Ensures i Anything _
  recover-Preserves widget_id key (uncaught value_error) = raise-Ensures i Anything _
  recover-Preserves widget_id key (uncaught type_error) = raise-Ensures i Anything _
  recover-Preserves widget_id key (uncaught data_error) = raise-Ensures i Anything _
  recover-Preserves widget_id key (uncaught multiple_results) = raise-Ensures i Anything _
  recover-Preserves widget_id key (app x) = raise-Ensures i Anything _

  store-Preserves :
      (s : Settings) (st : Stamp) (widget : Widget) (key : Option String) (r : Submission)
      → i.allows (add_submission r)
      → Preserves i (store e s st widget key r)
  unfolding store
  store-Preserves s st widget key r a =
      then-Preserves i _ _ (add-Preserves i (add_submission r) a) (λ u.
        try_else-Preserves i _ _ _ (flush-Preserves i)
          (then-Preserves i _ _ (add_events-Preserves (effects s st widget r))
            (λ v. then-Preserves i _ _ (commit-Preserves i) (λ w. pure-Ensures i Anything r tt)))
          (recover-Preserves widget.id key))

  pub create_submission-Preserves :
      (s : Settings) (st : Stamp) (widget : Widget) (net : Network) (others : Tables → Tables)
      (payload : SubmissionCreate) (c : Context)
      → i.knows widget
      → ((t : Tables) → i.holds t → i.holds (others t))
      → Preserves i (create_submission e s st widget net others payload c)
  unfolding create_submission
  create_submission-Preserves s st widget net others payload c known keeps =
      then-Preserves i _ _ (lift-Preserves i (validate_against_widget s widget payload.lead))
        (λ cleaned.
          let new = new_submission st widget c cleaned (enrich_ip net s c.ip) in
          let rest = wait others >> store e s st widget c.idempotency_key new in
          then-Preserves i _ _ (find_by_idempotency_key-Preserves widget.id c.idempotency_key) (
            option-Preserves i (λ existing. existing_or existing rest)
              (then-Preserves i _ _ (wait-Preserves i others keeps) (λ u.
                store-Preserves s st widget c.idempotency_key new
                  (i.allows_submission widget new known refl refl)))
              (λ r. pure-Ensures i Anything r tt)))

  pub record_spam-Preserves :
      (st : Stamp) (widget : Widget) (ip : Option String) (reason : String)
      → Preserves i (record_spam e st widget ip reason)
  unfolding record_spam
  record_spam-Preserves st widget ip reason =
      then-Preserves i _ _ (add-Preserves i (add_spam _) (i.allows_spam _))
        (λ u. commit-Preserves i)

  process_all-Preserves :
      (out : Outbound) (s : Settings) (clock : OutboxEvent → ℕ) (rs : List OutboxEvent) (c : Counts)
      → Preserves i (process_all out s clock rs c)
  unfolding process_all
  process_all-Preserves out s clock [] c = pure-Ensures i Anything c tt
  process_all-Preserves out s clock (r ∷ rs) c =
      let (o, r') = process_event out s (clock r) r in
      then-Preserves i _ _ (add-Preserves i (set_event r') (i.allows_outcome r'))
        (λ u. process_all-Preserves out s clock rs (count o c))

  pub process_due_events-Preserves :
      (out : Outbound) (s : Settings) (clock : OutboxEvent → ℕ) (q : Claiming) (now limit : ℕ)
      → Preserves i (process_due_events out s clock e q now limit)
  unfolding process_due_events
  process_due_events-Preserves out s clock q now limit =
      then-Preserves i _ _ (select-Preserves i (claim_due_events q now limit)) (λ claimed.
        then-Preserves i _ _ (process_all-Preserves out s clock claimed zero_counts) (λ counts.
          then-Preserves i _ _ (commit-Preserves i) (λ u. pure-Ensures i Anything counts tt)))

  pub register-Preserves :
      (c : Crypto) (s : Settings) (id salt now : ℕ) (p : RegisterRequest)
      → Preserves i (register c s e id salt now p)
  unfolding register
  register-Preserves c s id salt now p =
      then-Preserves i _ _ (select-Preserves i (with_email (c.lower p.email))) (λ rows.
        then-Preserves i _ _ (lift-Preserves i (scalar_one_or_none rows)) (λ existing.
          then-Preserves i _ _
            (option-Preserves i refuse_existing (pure-Ensures i Anything tt tt)
              (λ a. raise-Ensures i Anything _) existing)
            (λ u. then-Preserves i _ _ (lift-Preserves i (hash_password c salt p.password)) (λ h.
              add-commit-Ensures i Anything (add_tenant (new_tenant c id now p h)) _
                (i.allows_tenant (new_tenant c id now p h))
                (pure-Ensures i Anything (create_access_token c s now (new_tenant c id now p h))
                  tt)))))
