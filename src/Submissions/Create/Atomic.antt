-- ===== src/Submissions/Create/Atomic.antt =====
-- A submission and its side effects are stored together or not at all.
use flyrank_capstone_lead_ca.Prelude.{
  ℕ, ◌≡◌, ◌⊎◌, refl, ◌∙◌, inl, inr, String, Option, none, some, List, [], ◌∷◌, ◌++◌, map, arith,
  Option-cases, Bool-cases, is_empty, Dict,
}
use mathlib.Core.List.{append-nil, append_assoc}
use flyrank_capstone_lead_ca.Config.{Settings}
use flyrank_capstone_lead_ca.Errors.{uncaught, Exception, integrity_error, Result, ok, err}
use flyrank_capstone_lead_ca.Models.{Widget, Submission, OutboxEvent, Tables}
use flyrank_capstone_lead_ca.Session.{
  Write, add_submission, add_event, Engine, Session, opened, Action, apply, write_all, flush,
  commit, scalar_one_or_none, continue, ◌>>=◌, ◌>>◌,
}
use flyrank_capstone_lead_ca.Enrichment.{Network, enrich_ip}
use flyrank_capstone_lead_ca.Submissions.Validate.{validate_against_widget}
use flyrank_capstone_lead_ca.Schemas.{SubmissionCreate}
use flyrank_capstone_lead_ca.Submissions.Create.{
  Stamp, Context, matching, find_by_idempotency_key, new_submission, effects, add_events,
  found_or_raise, recover, store, create_submission, existing_or, wait,
}

-- The tables with one submission and the events that it queues.
abbrev pub with_submission : Tables → Submission → List OutboxEvent → Tables
with_submission t r events = record t {
  submissions = t.submissions ++ r ∷ [];
  outbox_events = t.outbox_events ++ events;
}

add_events_lem :
    (rs : List OutboxEvent) (s : Session)
    → add_events rs s ≡ (ok tt, record s { pending = s.pending ++ map add_event rs })
add_events_lem [] s = rw append-nil
add_events_lem (r ∷ rs) s =
    rw (add_events_lem rs (record s { pending = s.pending ++ add_event r ∷ [] }), append_assoc) refl

module _ (e : Engine) where
  -- Writing events changes the one table, if all are accepted.
  write_all-events :
      (rs : List OutboxEvent) (t t' : Tables)
      → write_all e (map add_event rs) t ≡ ok t'
      → t' ≡ record t { outbox_events = t.outbox_events ++ rs }
  unfolding write_all apply
  write_all-events [] t t' h = rw append-nil (ground arith)
  write_all-events (r ∷ rs) t t' h = elim (Option-cases (e.refusal t (add_event r))) [
    | inl n ↦
        write_all-events rs (apply t (add_event r)) t' (ground arith)
        ∙ (rw (append_assoc t.outbox_events (r ∷ []) rs) refl)
    | inr (x, n) ↦ absurd (ground arith)
  ]

-- How the call ends, on the tables `t` that were committed before it wrote: with a row that `t`
-- has under the key, and nothing written; with a new row, and it and its events written; or with
-- an error, and nothing written.
abbrev pub Settles :
    Engine
    → List OutboxEvent
    → Tables
    → ℕ
    → Option String
    → Submission
    → Result Submission × Session
    → Type 0
Settles e events t widget_id key new (ok r, s') =
    ((s'.saved ≡ t) × (k : String) × (key ≡ some k) × (matching widget_id k t.submissions ≡ r ∷ []))
    ⊎ ((s'.saved ≡ with_submission t new events)
        × (r ≡ new)
        × (e.refusal t (add_submission new) ≡ none))
Settles e events t widget_id key new (err x, s') = s'.saved ≡ t

scalar-some :
    (rs : List Submission) (r : Submission) → scalar_one_or_none rs ≡ ok (some r) → rs ≡ r ∷ []
scalar-some [] r h = absurd (cc)
scalar-some (a ∷ []) r h = cc
scalar-some (a ∷ b ∷ rs) r h = absurd (cc)

-- The lookup changes nothing, and what it finds is the one row of the key.
pub find_lem :
    (widget_id : ℕ) (key : Option String) (s : Session)
    → (find_by_idempotency_key widget_id key s).1 ≡ s
unfolding find_by_idempotency_key
find_lem widget_id none s = refl
find_lem widget_id (some k) s = ground arith

find-some :
    (widget_id : ℕ) (key : Option String) (s : Session) (r : Submission)
    → (find_by_idempotency_key widget_id key s).0 ≡ ok (some r)
    → (k : String) × (key ≡ some k) × (matching widget_id k s.seen.submissions ≡ r ∷ [])
unfolding find_by_idempotency_key
find-some widget_id none s r h = absurd (cc)
find-some widget_id (some k) s r h = elim (Bool-cases (is_empty k)) [
  | inl e ↦ absurd (ground arith)
  | inr e ↦ (k, refl, scalar-some _ r (ground arith))
]

module _ (e : Engine) (s : Settings) (st : Stamp) (widget : Widget) (t : Tables)
    (key : Option String) (new : Submission) where
  abbrev events : List OutboxEvent
  events = effects s st widget new

  abbrev inserted : Tables
  inserted = apply t (add_submission new)

  abbrev committed : Result Tables → Result Submission × Session
  committed (ok t') = (ok new, opened t')
  committed (err x) = (err x, record { saved = t; seen = inserted; pending = map add_event events })

  store_accepted :
      e.refusal t (add_submission new) ≡ none
      → store e s st widget key new (opened t)
        ≡ committed (write_all e (map add_event events) inserted)
  unfolding store flush commit write_all
  store_accepted h = rw (h, add_events_lem) (ground arith)

  pub store_refused :
      (x : Exception)
      → e.refusal t (add_submission new) ≡ some x
      → store e s st widget key new (opened t)
        ≡ recover widget.id key
            (uncaught x)
            (record { saved = t; seen = t; pending = add_submission new ∷ [] })
  unfolding store flush write_all
  store_refused x h = rw h

  committed-Settles :
      (r : Result Tables)
      → e.refusal t (add_submission new) ≡ none
      → write_all e (map add_event events) inserted ≡ r
      → Settles e events t widget.id key new (committed r)
  unfolding apply
  committed-Settles (ok t') n h = inr (write_all-events e events inserted t' h, refl, n)
  committed-Settles (err x) n h = refl

  found-Settles :
      (r : Result (Option Submission))
      → (find_by_idempotency_key widget.id key (opened t)).0 ≡ r
      → Settles e events t widget.id key new (continue r found_or_raise (opened t))
  found-Settles (ok none) h = refl
  found-Settles (ok (some a)) h =
      let (k, named, only) = find-some widget.id key (opened t) a h in inl (refl, k, named, only)
  found-Settles (err x) h = refl

  -- After the rollback the session is as it was opened.
  recover-Settles :
      (x : Exception) (ws : List Write)
      → Settles e events t widget.id key new
          (recover widget.id key (uncaught x) (record { saved = t; seen = t; pending = ws }))
  recover-Settles integrity_error ws = rw (find_lem widget.id key (opened t)) (found-Settles _ refl)
  recover-Settles _ ws = refl

  store-Settles : Settles e events t widget.id key new (store e s st widget key new (opened t))
  store-Settles = elim (Option-cases (e.refusal t (add_submission new))) [
    | inl n ↦ rw (store_accepted n) (committed-Settles _ n refl)
    | inr (x, n) ↦ rw (store_refused x n) (recover-Settles x _)
  ]

module _ (e : Engine) (s : Settings) (st : Stamp) (widget : Widget) (net : Network)
    (others : Tables → Tables) (c : Context) (t : Tables) where
  abbrev pub row : Dict String → Submission
  row cleaned = new_submission st widget c cleaned (enrich_ip net s c.ip)

  -- What the call may do, by what validation says. A refused payload raises and touches nothing. For
  -- an accepted one the call settles on the tables at its start, or, having waited for the network,
  -- on the tables that the others had made of them meanwhile.
  abbrev pub IsAtomic : Result (Dict String) → Result Submission × Session → Type 0
  IsAtomic (err x) out = out ≡ (err x, opened t)
  IsAtomic (ok cleaned) out =
      Settles e (effects s st widget (row cleaned)) t widget.id c.idempotency_key (row cleaned) out
      ⊎ Settles e (effects s st widget (row cleaned)) (others t) widget.id c.idempotency_key
          (row cleaned) out

  abbrev after_lookup : Dict String → Option Submission → Action Submission
  after_lookup cleaned existing =
      existing_or existing (wait others >> store e s st widget c.idempotency_key (row cleaned))

  after_lookup-IsAtomic :
      (cleaned : Dict String) (r : Result (Option Submission))
      → (find_by_idempotency_key widget.id c.idempotency_key (opened t)).0 ≡ r
      → IsAtomic (ok cleaned) (continue r (after_lookup cleaned) (opened t))
  after_lookup-IsAtomic cleaned (ok none) h =
      inr (store-Settles e s st widget (others t) c.idempotency_key (row cleaned))
  after_lookup-IsAtomic cleaned (ok (some a)) h =
      let (k, named, only) = find-some widget.id c.idempotency_key (opened t) a h in
      inl (inl (refl, k, named, only))
  after_lookup-IsAtomic cleaned (err x) h = inl refl

  validated-IsAtomic :
      (r : Result (Dict String))
      → IsAtomic r (
          continue r
            (λ cleaned.
              find_by_idempotency_key widget.id c.idempotency_key >>= after_lookup cleaned)
            (opened t))
  validated-IsAtomic (ok cleaned) =
      rw (find_lem widget.id c.idempotency_key (opened t)) (after_lookup-IsAtomic cleaned _ refl)
  validated-IsAtomic (err x) = refl

  -- For every engine, network and activity of others meanwhile, on a freshly opened session: a
  -- payload that validation refuses raises its error and changes nothing. For an accepted one the
  -- call ends in one of three ways. It returns the one row that is committed under its key, and has
  -- written nothing; it returns a new row, and what is committed is that row together with exactly
  -- the events that the widget asks for; or it raises, and has committed nothing.
  pub create_submission-IsAtomic :
      (payload : SubmissionCreate)
      → IsAtomic
          (validate_against_widget s widget payload.lead)
          (create_submission e s st widget net others payload c (opened t))
  unfolding create_submission
  create_submission-IsAtomic payload =
      validated-IsAtomic (validate_against_widget s widget payload.lead)
