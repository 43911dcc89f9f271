-- ===== src/Outbox/Worker/Batches.antt =====
-- app/outbox/worker.py over time: the batches of one worker, and the events that they deliver or give
-- up.
use flyrank_capstone_lead_ca.Prelude.{
  ℕ, ◌+◌, ◌≤◌, ◌<◌, ◌≡◌, refl, ap, inl, inr, min, Bool-cases, none, some, List, [], ◌∷◌, ◌++◌,
  arith, leb, sym, ◌∙◌, map, map_id, All-map, All-mono, where_, nat_eq, length, All, if◌then◌else◌,
}
use flyrank_capstone_lead_ca.Config.{Settings}
use flyrank_capstone_lead_ca.Models.{OutboxEvent, EventStatus, Tables}
use flyrank_capstone_lead_ca.Session.{Engine, opened}
use flyrank_capstone_lead_ca.Outbox.Worker.{Claiming, process_due_events}
use flyrank_capstone_lead_ca.Outbox.Worker.Rounds.{
  Round, visit, visit-id, IsAlone, TakesOutcomes, HasOwnIds, process_due_events-visit,
}
use flyrank_capstone_lead_ca.Outbox.Worker.Lifecycle.{
  drain, InRange, Raises, Completes, Timely, drain_raising, drain_delivers,
}

-- The batches, one after the other, on a freshly opened session each.
unfoldable pub batches : Settings → Engine → Claiming → ℕ → List Round → Tables → Tables
batches s e q limit [] t = t
batches s e q limit (m ∷ ms) t =
    batches s e q limit ms
      (process_due_events m.out s (λ r. m.clock r.id) e q m.now limit (opened t)).1.saved

map-drain :
    (s : Settings) (m : Round) (ms : List Round) (rows : List OutboxEvent)
    → map (drain s ms) (map (visit s m) rows) ≡ map (drain s (m ∷ ms)) rows
unfolding drain
map-drain s m ms [] = refl
map-drain s m ms (r ∷ rows) = ap (λ rs. drain s ms (visit s m r) ∷ rs) (map-drain s m ms rows)

map-drain_none : (s : Settings) (rows : List OutboxEvent) → map (drain s []) rows ≡ rows
unfolding drain
map-drain_none s rows = map_id rows

length-map :
    (f : OutboxEvent → OutboxEvent) (rows : List OutboxEvent) → length (map f rows) ≡ length rows
length-map f [] = refl
length-map f (r ∷ rows) = omega (arith, length-map f rows)

visit-HasOwnIds :
    (s : Settings) (m : Round) (rows : List OutboxEvent)
    → HasOwnIds rows
    → HasOwnIds (map (visit s m) rows)
visit-HasOwnIds s m rows h =
    All-map (λ x. All (λ c. c.id ≡ x.id → c ≡ x) (map (visit s m) rows)) (visit s m) rows
      (All-mono (λ x. All (λ c. c.id ≡ x.id → c ≡ x) rows) _
        (λ x own.
          All-map (λ c. c.id ≡ (visit s m x).id → c ≡ visit s m x) (visit s m) rows
            (All-mono (λ c. c.id ≡ x.id → c ≡ x) _
              (λ c same ids. ap (visit s m) (same (sym (visit-id s m c) ∙ ids ∙ visit-id s m x)))
              rows own))
        rows h)

where-map :
    (f : OutboxEvent → OutboxEvent) (id : ℕ)
    → ((r : OutboxEvent) → (f r).id ≡ r.id)
    → (rows : List OutboxEvent)
    → where_ (λ r. nat_eq r.id id) (map f rows) ≡ map f (where_ (λ r. nat_eq r.id id) rows)
unfolding where_
where-map f id h [] = refl
where-map f id h (r ∷ rows) = elim (Bool-cases (nat_eq r.id id)) [
  | inl e ↦ let e' = ap (λ i. nat_eq i id) (h r) ∙ e in rw (e', e, where-map f id h rows) refl
  | inr e ↦ let e' = ap (λ i. nat_eq i id) (h r) ∙ e in rw (e', e, where-map f id h rows) refl
]

drain-id : (s : Settings) (ms : List Round) (r : OutboxEvent) → (drain s ms r).id ≡ r.id
unfolding drain
drain-id s [] r = refl
drain-id s (m ∷ ms) r = drain-id s ms (visit s m r) ∙ visit-id s m r

module _ (s : Settings) (e : Engine) (q : Claiming) (limit : ℕ) (takes : TakesOutcomes e)
    (alone : IsAlone q) where
  -- Where one worker runs alone, the engine takes the outcomes, an event's id is no other event's,
  -- and a batch has room for the whole outbox: a sequence of batches makes of every event what it
  -- makes of the event by itself, handled in each batch at whose time it is pending and due.
  batches-drain :
      (ms : List Round) (t : Tables)
      → HasOwnIds t.outbox_events
      → length t.outbox_events ≤ limit
      → (batches s e q limit ms t).outbox_events ≡ map (drain s ms) t.outbox_events
  unfolding batches
  batches-drain [] t own small = sym (map-drain_none s t.outbox_events)
  batches-drain (m ∷ ms) t own small =
      let t' : Tables = record t { outbox_events = map (visit s m) t.outbox_events } in
      let one = process_due_events-visit s e q limit takes alone m t own small in
      let rest =
        batches-drain ms t' (visit-HasOwnIds s m t.outbox_events own)
          (omega (arith, length-map (visit s m) t.outbox_events)) in
      ap (λ z. (batches s e q limit ms z).outbox_events) one
      ∙ rest
      ∙ map-drain s m ms t.outbox_events

  pub event_after :
      (ms : List Round) (t : Tables) (r : OutboxEvent)
      → HasOwnIds t.outbox_events
      → length t.outbox_events ≤ limit
      → where_ (λ x. nat_eq x.id r.id) t.outbox_events ≡ r ∷ []
      → where_ (λ x. nat_eq x.id r.id) (batches s e q limit ms t).outbox_events ≡ drain s ms r ∷ []
  event_after ms t r own small only =
      ap (where_ (λ x. nat_eq x.id r.id)) (batches-drain ms t own small)
      ∙ where-map (drain s ms) r.id (drain-id s ms) t.outbox_events
      ∙ ap (map (drain s ms)) only

  -- Where one worker runs alone, the engine takes the outcomes, an event's id is no other event's,
  -- and a batch has room for the whole outbox: a pending event whose handler raises in every batch,
  -- each of which comes when the event is due, is tried in each of them until its attempts are used
  -- up, and in no batch after that. It then has the maximum of attempts and is failed; before that it
  -- is pending, with one more attempt for each batch. The times of all retries are to be times that
  -- Python can represent.
  pub batches_raising :
      (ms : List Round) (t : Tables) (r : OutboxEvent)
      → HasOwnIds t.outbox_events
      → length t.outbox_events ≤ limit
      → where_ (λ x. nat_eq x.id r.id) t.outbox_events ≡ r ∷ []
      → r.status ≡ EventStatus.pending
      → r.attempts < r.max_attempts
      → Timely s r.id r.max_attempts r.attempts r.next_attempt_at ms
      → All (Raises s r) ms
      → InRange s ms t.outbox_events
      → (r' : OutboxEvent) × (where_
            (λ x. nat_eq x.id r.id)
            (batches s e q limit ms t).outbox_events
          ≡ r' ∷ [])
        × (r'.attempts ≡ min r.max_attempts (r.attempts + length ms))
        × (r'.status ≡ (
            if leb r.max_attempts (r.attempts + length ms)
            then EventStatus.failed
            else EventStatus.pending))
  batches_raising ms t r own small only p h d a range =
      let (tries, state) = drain_raising s ms r p h d a in
      (drain s ms r, event_after ms t r own small only, tries, state)

  -- Where one worker runs alone, the engine takes the outcomes, an event's id is no other event's,
  -- and a batch has room for the whole outbox: a pending event whose handler raises in the batches
  -- `before`, which leave it an attempt, and returns in the next one, each of these at a time at which
  -- the event is due, is delivered there, with that batch's time and number of attempts and no
  -- error, and no later batch changes that. The times of all retries are to be times that Python can
  -- represent.
  pub batches_deliver :
      (before after : List Round) (m : Round) (t : Tables) (r : OutboxEvent)
      → HasOwnIds t.outbox_events
      → length t.outbox_events ≤ limit
      → where_ (λ x. nat_eq x.id r.id) t.outbox_events ≡ r ∷ []
      → r.status ≡ EventStatus.pending
      → r.attempts + length before < r.max_attempts
      → Timely s r.id r.max_attempts r.attempts r.next_attempt_at (before ++ m ∷ [])
      → All (Raises s r) before
      → Completes s r m
      → InRange s (before ++ m ∷ after) t.outbox_events
      → (r' : OutboxEvent) × (where_
            (λ x. nat_eq x.id r.id)
            (batches s e q limit (before ++ m ∷ after) t).outbox_events
          ≡ r' ∷ [])
        × (r'.status ≡ EventStatus.delivered)
        × (r'.attempts ≡ r.attempts + length before + 1)
        × (r'.delivered_at ≡ some (m.clock r.id))
        × (r'.last_error ≡ none)
  batches_deliver before after m t r own small only p h d a c range =
      let (state, tries, time, error) = drain_delivers s before after m r p h d a c in
      (
        drain s (before ++ m ∷ after) r,
        event_after (before ++ m ∷ after) t r own small only,
        state,
        tries,
        time,
        error,
      )
