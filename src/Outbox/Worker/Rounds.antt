-- ===== src/Outbox/Worker/Rounds.antt =====
-- Batches of one worker, one after the other, and what each makes of every event.
use flyrank_capstone_lead_ca.Prelude.{
  ℕ, ◌≤◌, ◌≡◌, refl, sym, ap, ◌∙◌, Bool, true, false, not, ◌&&◌, none, List, [], ◌∷◌, map, arith,
  length, All, All-where, All-where_, any, where_, nat_eq, inl, inr, Bool-cases, length-where-le,
  if◌then◌else◌,
}
use mathlib.Core.List.{Permᴰ}
use mathlib.Core.List.Permᴰ
use flyrank_capstone_lead_ca.Prelude.{
  All-mono, All-Perm, any-Perm, length-Perm, take_all, where_same, map_same, map_id,
}
use flyrank_capstone_lead_ca.Config.{Settings}
use flyrank_capstone_lead_ca.Errors.{ok}
use flyrank_capstone_lead_ca.Models.{OutboxEvent, Tables}
use flyrank_capstone_lead_ca.Session.{set_event, Engine, opened, apply, write_all, replace_event}
use flyrank_capstone_lead_ca.Outbox.Handlers.{Outbound}
use flyrank_capstone_lead_ca.Outbox.Worker.{
  is_due, Claiming, claim_due_events, conclude, process_event, process_due_events,
}
use flyrank_capstone_lead_ca.Outbox.Worker.Batch.{replace_all, handled, process_due_events_lem}

-- One worker alone: nobody else holds a lock, and `ORDER BY` only sorts.
pub record IsAlone (q : Claiming) : Type 0 where
  pub sorts : (rows : List OutboxEvent) → Permᴰ (q.by_next_attempt rows) rows
  pub unlocked : (r : OutboxEvent) → q.locked r ≡ false

-- The engine takes the outcomes that the worker writes.
abbrev pub TakesOutcomes : Engine → Type 0
TakesOutcomes e = (t : Tables) (r : OutboxEvent) → e.refusal t (set_event r) ≡ none

-- An event's id is no other event's.
abbrev pub HasOwnIds : List OutboxEvent → Type 0
HasOwnIds rows = All (λ x. All (λ c. c.id ≡ x.id → c ≡ x) rows) rows

-- A batch: the time at which it claims, the time at which it handles the event with an id, and the
-- outside world that it meets.
pub record Round : Type 0 where
  pub now : ℕ
  pub clock : ℕ → ℕ
  pub out : Outbound

abbrev has_id : ℕ → OutboxEvent → Bool
has_id id c = nat_eq c.id id

-- What a list of rows written anew makes of one row.
unfoldable replaced : List OutboxEvent → OutboxEvent → OutboxEvent
replaced [] x = x
replaced (r ∷ rs) x = replaced rs (replace_event r x)

replace_all-map : (rs rows : List OutboxEvent) → replace_all rs rows ≡ map (replaced rs) rows
unfolding replace_all replaced
replace_all-map [] rows = sym (map_id rows)
replace_all-map (r ∷ rs) rows = replace_all-map rs (map (replace_event r) rows) ∙ (map-map rows)
  where
    map-map :
        (xs : List OutboxEvent)
        → map (replaced rs) (map (replace_event r) xs)
          ≡ map (λ x. replaced rs (replace_event r x)) xs
    map-map [] = refl
    map-map (x ∷ xs) = ap (λ ys. replaced rs (replace_event r x) ∷ ys) (map-map xs)

module _ (p : OutboxEvent → Bool) where
  -- A row that is selected is found by its id among those selected.
  selected_found :
      (rows : List OutboxEvent)
      → All (λ x. p x ≡ true → any (has_id x.id) (where_ p rows) ≡ true) rows
  unfolding where_
  selected_found [] = tt
  selected_found (y ∷ rows) = (
    λ h. rw h (ground arith),
    All-mono _ _ (λ x h k. ground (arith, h k)) rows (selected_found rows),
  )

  unselected_missed :
      (x : OutboxEvent) (cs : List OutboxEvent)
      → All (λ c. c.id ≡ x.id → c ≡ x) cs
      → All (λ c. p c ≡ true) cs
      → p x ≡ false
      → any (has_id x.id) cs ≡ false
  unselected_missed x [] own h n = refl
  unselected_missed x (c ∷ cs) own h n = elim (Bool-cases (nat_eq c.id x.id)) [
    | inl e ↦ let same : c ≡ x = own.0 (ground arith) in absurd (cc (sym (ap p same) ∙ h.0, n))
    | inr e ↦ rw e (unselected_missed x cs own.1 h.1 n)
  ]

module _ (s : Settings) where
  handled-id :
      (out : Outbound) (clock : OutboxEvent → ℕ) (r : OutboxEvent)
      → (handled out s clock r).id ≡ r.id
  unfolding process_event conclude
  handled-id out clock r = ground arith

  -- A batch and one event: it is handled if it is pending and due.
  unfoldable pub visit : Round → OutboxEvent → OutboxEvent
  visit m r = if is_due m.now r then (process_event m.out s (m.clock r.id) r).1 else r

  pub visit-id : (m : Round) (r : OutboxEvent) → (visit m r).id ≡ r.id
  unfolding visit
  visit-id m r = elim (Bool-cases (is_due m.now r)) [
    | inl e ↦ rw e (handled-id m.out (λ x. m.clock x.id) r)
    | inr e ↦ rw e refl
  ]

  -- Handled rows written over one row: the row's own new state, if it is among them.
  replaced-handled :
      (out : Outbound) (clock : OutboxEvent → ℕ) (x y : OutboxEvent) (cs : List OutboxEvent)
      → y.id ≡ x.id
      → All (λ c. c.id ≡ x.id → c ≡ x) cs
      → replaced (map (handled out s clock) cs) y
        ≡ (if any (has_id x.id) cs then handled out s clock x else y)
  unfolding replaced
  replaced-handled out clock x y [] same own = refl
  replaced-handled out clock x y (c ∷ cs) same own = elim (Bool-cases (nat_eq c.id x.id)) [
    | inl e ↦
        let this : c ≡ x = own.0 (ground arith) in
        let again =
          replaced-handled out clock x (handled out s clock x) cs (handled-id out clock x) own.1 in
        let taken =
          replace_taken (handled out s clock c) y
            (same ∙ sym (ap (λ (o : OutboxEvent). o.id) this) ∙ sym (handled-id out clock c)) in
        rw e (
          ap (replaced (map (handled out s clock) cs)) (taken ∙ ap (handled out s clock) this)
          ∙ again
          ∙ either (any (has_id x.id) cs) (handled out s clock x))
    | inr e ↦
        let kept = replace_kept (handled out s clock c) y (
          ap (λ i. nat_eq i (handled out s clock c).id) same
          ∙ ap (nat_eq x.id) (handled-id out clock c)
          ∙ other c.id x.id e) in
        rw e (
          ap (replaced (map (handled out s clock) cs)) kept
          ∙ replaced-handled out clock x y cs same own.1)
  ]
    where
      either : (b : Bool) (z : OutboxEvent) → (if b then z else z) ≡ z
      either true z = refl
      either false z = refl

      replace_taken : (new old : OutboxEvent) → old.id ≡ new.id → replace_event new old ≡ new
      replace_taken new old h = ground arith

      replace_kept :
          (new old : OutboxEvent) → nat_eq old.id new.id ≡ false → replace_event new old ≡ old
      replace_kept new old h = rw h

      other : (i j : ℕ) → nat_eq i j ≡ false → nat_eq j i ≡ false
      other i j h = ground arith

  module _ (e : Engine) (q : Claiming) (limit : ℕ) (takes : TakesOutcomes e)
      (alone : IsAlone q) where
    abbrev by_id : Round → OutboxEvent → ℕ
    by_id m r = m.clock r.id

    write_all_taken :
        (rs : List OutboxEvent) (t : Tables)
        → write_all e (map set_event rs) t
          ≡ ok (record t { outbox_events = replace_all rs t.outbox_events })
    unfolding write_all apply replace_all
    write_all_taken [] t = refl
    write_all_taken (r ∷ rs) t = rw (takes t r) (write_all_taken rs (apply t (set_event r)))

    claimed-Perm :
        (now : ℕ) (t : Tables)
        → length t.outbox_events ≤ limit
        → Permᴰ (claim_due_events q now limit t) (where_ (is_due now) t.outbox_events)
    unfolding claim_due_events
    claimed-Perm now t small =
        let free =
          where_same (λ r. is_due now r && not (q.locked r)) (is_due now)
            (λ r. rw (alone.unlocked r) (ground arith)) t.outbox_events in
        let sorted = alone.sorts (where_ (is_due now) t.outbox_events) in
        let few =
          take_all limit (q.by_next_attempt (where_ (is_due now) t.outbox_events))
            (omega (arith, length-Perm sorted, length-where-le (is_due now) t.outbox_events)) in
        rw (free, few) sorted

    visited :
        (m : Round) (t : Tables) (x : OutboxEvent)
        → length t.outbox_events ≤ limit
        → All (λ c. c.id ≡ x.id → c ≡ x) t.outbox_events
        → (is_due m.now x ≡ true → any (has_id x.id) (where_ (is_due m.now) t.outbox_events) ≡ true)
        → replaced (map (handled m.out s (by_id m)) (claim_due_events q m.now limit t)) x
          ≡ visit m x
    unfolding visit
    visited m t x small own found =
        let perm = claimed-Perm m.now t small in
        let selected = All-where_ (λ c. c.id ≡ x.id → c ≡ x) (is_due m.now) t.outbox_events own in
        let written =
          replaced-handled m.out (by_id m) x x (claim_due_events q m.now limit t) refl
            (All-Perm (λ c. c.id ≡ x.id → c ≡ x) (Permᴰ.symm perm) selected) in
        let same = any-Perm (has_id x.id) perm in
        elim (Bool-cases (is_due m.now x)) [
          | inl d ↦ rw (written, same, found d, d) refl
          | inr d ↦
              rw
                (
                  written,
                  same,
                  unselected_missed (is_due m.now) x (where_ (is_due m.now) t.outbox_events)
                      selected (All-where (is_due m.now) t.outbox_events) d,
                  d,
                )
                refl
        ]

    -- Where one worker runs alone, the engine takes the outcomes, an event's id is no other event's,
    -- and the batch has room for the whole outbox: the batch commits what it makes of each event that
    -- is pending and due, and nothing else.
    pub process_due_events-visit :
        (m : Round) (t : Tables)
        → HasOwnIds t.outbox_events
        → length t.outbox_events ≤ limit
        → (process_due_events m.out s (by_id m) e q m.now limit (opened t)).1.saved
          ≡ record t { outbox_events = map (visit m) t.outbox_events }
    process_due_events-visit m t own small =
        let cs = claim_due_events q m.now limit t in
        let rows = map (handled m.out s (by_id m)) cs in
        let all =
          All_both _ _ t.outbox_events own (selected_found (is_due m.now) t.outbox_events) in
        let pointwise =
          All-mono _ (λ x. replaced rows x ≡ visit m x) (λ x h. visited m t x small h.0 h.1)
            t.outbox_events all in
        rw
          (
            process_due_events_lem m.out s (by_id m) e q m.now limit t,
            write_all_taken rows t,
            replace_all-map rows t.outbox_events,
            map_same (replaced rows) (visit m) t.outbox_events pointwise,
          )
          refl
      where
        All_both :
            (P Q : OutboxEvent → Type 0) (xs : List OutboxEvent)
            → All P xs
            → All Q xs
            → All (λ x. P x × Q x) xs
        All_both P Q [] h k = tt
        All_both P Q (x ∷ xs) h k = ((h.0, k.0), All_both P Q xs h.1 k.1)
