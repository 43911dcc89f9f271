-- ===== src/Outbox/Worker/Lifecycle.antt =====
-- The life of one event: pending, until it is delivered or has used up its attempts.
use flyrank_capstone_lead_ca.Prelude.{
  ◌∙◌, ℕ, ◌+◌, ◌≤◌, ◌<◌, ◌≡◌, refl, ap, inl, inr, min, Bool-cases, String, true, false, none, some,
  List, [], ◌∷◌, ◌++◌, arith, leb, length, All, if◌then◌else◌, is_some,
}
use flyrank_capstone_lead_ca.Config.{Settings}
use flyrank_capstone_lead_ca.Models.{OutboxEvent, EventStatus}
use flyrank_capstone_lead_ca.Outbox.Handlers.{Delivery, completed, raised, Outbound, handle}
use flyrank_capstone_lead_ca.Outbox.Worker.{is_pending, backoff_delay, conclude, process_event}
use flyrank_capstone_lead_ca.Outbox.Worker.Rounds.{Round, visit}

-- What a status says of the attempts made, of the last error and of the delivery.
abbrev pub Accounted : EventStatus → OutboxEvent → Type 0
Accounted EventStatus.pending r = (r.attempts < r.max_attempts) × (r.delivered_at ≡ none)
Accounted EventStatus.delivered r =
    (1 ≤ r.attempts)
    × (r.attempts ≤ r.max_attempts)
    × (r.last_error ≡ none)
    × (is_some r.delivered_at ≡ true)
Accounted EventStatus.failed r =
    (r.attempts ≡ r.max_attempts) × (is_some r.last_error ≡ true) × (r.delivered_at ≡ none)

abbrev pub IsAccounted : OutboxEvent → Type 0
IsAccounted r = Accounted r.status r

-- Handling a pending event keeps its books, whatever the handler does: a delivered event has between
-- one attempt and the maximum, no error and a delivery time; a failed one has exactly the maximum
-- of attempts and its last error; a pending one has attempts left.
pub conclude-IsAccounted :
    (s : Settings) (now : ℕ) (r : OutboxEvent) (d : Delivery)
    → r.status ≡ EventStatus.pending
    → IsAccounted r
    → IsAccounted (conclude s now r d).1
unfolding conclude
conclude-IsAccounted s now r (completed text) p h = ground arith
conclude-IsAccounted s now r (raised text) p h = ground arith

-- The latest time that Python's `datetime` has: the end of the year 9999, in microseconds.
abbrev pub last_time : ℕ
last_time = 253_402_300_799_999_999

-- What each batch makes of one event.
unfoldable pub drain : Settings → List Round → OutboxEvent → OutboxEvent
drain s [] r = r
drain s (m ∷ ms) r = drain s ms (visit s m r)

module _ (s : Settings) where
  -- The handler of an event raises, or returns, in a round.
  abbrev pub Raises : OutboxEvent → Round → Type 0
  Raises r m = (x : String) × (handle m.out s r.event_type r.payload ≡ raised x)

  abbrev pub Completes : OutboxEvent → Round → Type 0
  Completes r m = (x : String) × (handle m.out s r.event_type r.payload ≡ completed x)

  -- Each batch claims when the event of an id, which has `tries` attempts, is due: not before `due`,
  -- and after a failed attempt that is not its last, not before the time of it and the delay after
  -- it.
  unfoldable pub Timely : ℕ → ℕ → ℕ → ℕ → List Round → Type 0
  Timely id most tries due [] = Unit
  Timely id most tries due (m ∷ ms) =
      (due ≤ m.now)
      × (tries + 1 < most
          → Timely id most (tries + 1) (m.clock id + backoff_delay s (tries + 1)) ms)

  -- Whatever is retried in the batches, the time of the retry is one that Python can represent: the
  -- longest delay of every event, after every batch.
  abbrev pub InRange : List Round → List OutboxEvent → Type 0
  InRange ms rows =
      All (λ m. All (λ r. m.clock r.id + backoff_delay s r.max_attempts ≤ last_time) rows) ms

  abbrev retried : ℕ → String → OutboxEvent → OutboxEvent
  retried now x r = record r {
    attempts = r.attempts + 1;
    last_error = some x;
    next_attempt_at = now + backoff_delay s (r.attempts + 1);
  }

  abbrev buried : String → OutboxEvent → OutboxEvent
  buried x r = record r {
    attempts = r.attempts + 1;
    last_error = some x;
    status = EventStatus.failed;
  }

  abbrev pub arrived : ℕ → OutboxEvent → OutboxEvent
  arrived now r = record r {
    attempts = r.attempts + 1;
    status = EventStatus.delivered;
    delivered_at = some now;
    last_error = none;
  }

  process_event-retry :
      (now : ℕ) (out : Outbound) (r : OutboxEvent) (x : String)
      → handle out s r.event_type r.payload ≡ raised x
      → leb r.max_attempts (r.attempts + 1) ≡ false
      → (process_event out s now r).1 ≡ retried now x r
  unfolding process_event
  process_event-retry now out r x h few = rw (h, few)

  process_event-buried :
      (now : ℕ) (out : Outbound) (r : OutboxEvent) (x : String)
      → handle out s r.event_type r.payload ≡ raised x
      → leb r.max_attempts (r.attempts + 1) ≡ true
      → (process_event out s now r).1 ≡ buried x r
  unfolding process_event
  process_event-buried now out r x h last = rw (h, last)

  process_event-arrived :
      (now : ℕ) (out : Outbound) (r : OutboxEvent) (x : String)
      → handle out s r.event_type r.payload ≡ completed x
      → (process_event out s now r).1 ≡ arrived now r
  unfolding process_event
  process_event-arrived now out r x h = rw h

  visit_due :
      (m : Round) (r r' : OutboxEvent)
      → r.status ≡ EventStatus.pending
      → r.next_attempt_at ≤ m.now
      → (process_event m.out s (m.clock r.id) r).1 ≡ r'
      → visit s m r ≡ r'
  unfolding visit
  visit_due m r r' p d h =
      let pending : is_pending r.status ≡ true = ap is_pending p in
      let due : leb r.next_attempt_at m.now ≡ true = ground arith in rw (pending, due) h

  drain_done : (ms : List Round) (r : OutboxEvent) → is_pending r.status ≡ false → drain s ms r ≡ r
  unfolding drain visit
  drain_done [] r h = refl
  drain_done (m ∷ ms) r h = rw h (drain_done ms r h)

  drain_step :
      (m : Round) (ms : List Round) (r r' : OutboxEvent)
      → visit s m r ≡ r'
      → drain s (m ∷ ms) r ≡ drain s ms r'
  unfolding drain
  drain_step m ms r r' h = ap (drain s ms) h

  pub drain_raising :
      (ms : List Round) (r : OutboxEvent)
      → r.status ≡ EventStatus.pending
      → r.attempts < r.max_attempts
      → Timely r.id r.max_attempts r.attempts r.next_attempt_at ms
      → All (Raises r) ms
      → ((drain s ms r).attempts ≡ min r.max_attempts (r.attempts + length ms))
        × ((drain s ms r).status ≡ (
            if leb r.max_attempts (r.attempts + length ms)
            then EventStatus.failed
            else EventStatus.pending))
  unfolding Timely
  drain_raising [] r p h d a = unfold drain in (omega arith, ground arith)
  drain_raising (m ∷ ms) r p h d ((x, e), a) =
      elim (Bool-cases (leb r.max_attempts (r.attempts + 1))) [
        | inl last ↦
            rw
              (
                drain_step m ms r (buried x r) (
                    visit_due m r (buried x r) p d.0
                      (process_event-buried (m.clock r.id) m.out r x e last)),
                drain_done ms (buried x r) refl,
              )
              (ground arith, ground arith)
        | inr more ↦
            let next = retried (m.clock r.id) x r in
            let (tries, state) = drain_raising ms next p (ground arith) (d.1 (ground arith)) a in
            rw
              (drain_step m ms r next
                (visit_due m r next p d.0 (process_event-retry (m.clock r.id) m.out r x e more)))
              (omega arith, ground arith)
      ]

  pub drain_delivers :
      (before after : List Round) (m : Round) (r : OutboxEvent)
      → r.status ≡ EventStatus.pending
      → r.attempts + length before < r.max_attempts
      → Timely r.id r.max_attempts r.attempts r.next_attempt_at (before ++ m ∷ [])
      → All (Raises r) before
      → Completes r m
      → let r' = drain s (before ++ m ∷ after) r in
        (r'.status ≡ EventStatus.delivered)
        × (r'.attempts ≡ r.attempts + length before + 1)
        × (r'.delivered_at ≡ some (m.clock r.id))
        × (r'.last_error ≡ none)
  unfolding Timely
  drain_delivers [] after m r p h d a (x, e) =
      let done = arrived (m.clock r.id) r in
      rw
        (
          drain_step m after r done
              (visit_due m r done p d.0 (process_event-arrived (m.clock r.id) m.out r x e)),
          drain_done after done refl,
        )
        (refl, omega arith, refl, refl)
  drain_delivers (m' ∷ before) after m r p h d ((x, e), a) c =
      let next = retried (m'.clock r.id) x r in
      let step =
        visit_due m' r next p d.0
          (process_event-retry (m'.clock r.id) m'.out r x e (ground arith)) in
      let (state, tries, time, error) =
        drain_delivers before after m next p (omega arith) (d.1 (omega arith)) a c in
      rw (drain_step m' (before ++ m ∷ after) r next step) (state, omega arith, time, error)

  -- One round in which the event is due and its handler returns.
  pub drain_first :
      (m : Round) (r : OutboxEvent)
      → r.status ≡ EventStatus.pending
      → r.next_attempt_at ≤ m.now
      → Completes r m
      → drain s (m ∷ []) r ≡ arrived (m.clock r.id) r
  drain_first m r p d (x, e) =
      let done = arrived (m.clock r.id) r in
      drain_step m [] r done
        (visit_due m r done p d (process_event-arrived (m.clock r.id) m.out r x e))
      ∙ drain_done [] done refl
