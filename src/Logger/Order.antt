-- ===== src/Logger/Order.antt =====
-- The way of a record through the logger of src/utils/logger.cpp.
use mo_driver_pc_ether_cat.Common.{
  ℕ, zero, suc, ◌+◌, ◌*◌, ◌≤◌, ◌<◌, length, ◌≡◌, refl, sym, ap, ◌∙◌, Bool-cases, true, ◌⊎◌, inl,
  inr, ◌&&◌, not, List, [], ◌∷◌, ◌++◌, arith, if◌then◌else◌,
}
use mo_driver_pc_ether_cat.Logger.{
  LogRecord, Sinks, Logger, new_logger, enqueue, log, write_to_sinks, worker_step, destroy, wanted,
}

-- A call of Log; the second half of one, if other steps came between its halves; a step of the
-- worker, of a setter, or of the destructor.
pub data LogStep : Type 0 where
  call : LogRecord → LogStep
  enter : LogRecord → LogStep
  work : LogStep
  set : (Sinks → Sinks) → LogStep
  end : LogStep

abbrev pub step : LogStep → Logger → Logger
step (call r) l = log r l
step (enter r) l = enqueue r l
step work l = worker_step l
step (set f) l = record l { sinks = f l.sinks }
step end l = destroy l

-- The logger after a history, whose last step stands first.
unfoldable pub after_steps : List LogStep → Logger
after_steps [] = new_logger
after_steps (s ∷ ss) = step s (after_steps ss)

-- The records of the history that were wanted by a sink and came before the end, oldest first.
unfoldable pub accepted : List LogStep → List LogRecord
accepted [] = []
accepted (call r ∷ ss) =
    if wanted (after_steps ss).sinks r.level && not (after_steps ss).shutdown
    then accepted ss ++ r ∷ []
    else accepted ss
accepted (enter r ∷ ss) = if (after_steps ss).shutdown then accepted ss else accepted ss ++ r ∷ []
accepted (_ ∷ ss) = accepted ss

List-cases :
    (xs : List LogRecord) → (xs ≡ []) ⊎ ((x : LogRecord) × (ys : List LogRecord) × (xs ≡ x ∷ ys))
List-cases [] = inl refl
List-cases (x ∷ xs) = inr (x, xs, refl)

append_assoc : (xs ys zs : List LogRecord) → (xs ++ ys) ++ zs ≡ xs ++ (ys ++ zs)
append_assoc [] ys zs = refl
append_assoc (x ∷ xs) ys zs = ap (◌∷◌ x) (append_assoc xs ys zs)

-- What has been written, what the worker holds and what waits, in this order.
abbrev pub in_flight : Logger → List LogRecord
in_flight l = l.written ++ (l.batch ++ l.queue)

appended :
    (l : Logger) (r : LogRecord)
    → l.written ++ (l.batch ++ (l.queue ++ r ∷ [])) ≡ in_flight l ++ r ∷ []
appended l r =
    let one = append_assoc l.batch l.queue (r ∷ []) in
    let all = append_assoc l.written (l.batch ++ l.queue) (r ∷ []) in cc (one, all)

in_flight-log :
    (r : LogRecord) (l : Logger)
    → in_flight (log r l)
      ≡ (if wanted l.sinks r.level && not l.shutdown then in_flight l ++ r ∷ [] else in_flight l)
unfolding log enqueue
in_flight-log r l = ground (arith, appended l r)

in_flight-enqueue :
    (r : LogRecord) (l : Logger)
    → in_flight (enqueue r l) ≡ (if l.shutdown then in_flight l else in_flight l ++ r ∷ [])
unfolding enqueue
in_flight-enqueue r l = ground (arith, appended l r)

handed_over :
    (l : Logger) (r : LogRecord) (rs : List LogRecord)
    → (l.written ++ r ∷ []) ++ (rs ++ l.queue) ≡ l.written ++ (r ∷ (rs ++ l.queue))
handed_over l r rs = append_assoc l.written (r ∷ []) (rs ++ l.queue)

append-nil : (xs : List LogRecord) → xs ++ [] ≡ xs
append-nil [] = refl
append-nil (x ∷ xs) = ap (◌∷◌ x) (append-nil xs)

in_flight-worker_step : (l : Logger) → in_flight (worker_step l) ≡ in_flight l
unfolding worker_step write_to_sinks
in_flight-worker_step l = elim (List-cases l.batch) [
  | inl e ↦ ground (arith, e, append-nil l.queue)
  | inr (r, rs, e) ↦ ground (arith, e, handed_over l r rs)
]

pub after_steps-accepted : (ss : List LogStep) → in_flight (after_steps ss) ≡ accepted ss
unfolding after_steps accepted destroy
after_steps-accepted [] = refl
after_steps-accepted (call r ∷ ss) = cc (in_flight-log r (after_steps ss), after_steps-accepted ss)
after_steps-accepted (enter r ∷ ss) =
    cc (in_flight-enqueue r (after_steps ss), after_steps-accepted ss)
after_steps-accepted (work ∷ ss) = in_flight-worker_step (after_steps ss) ∙ after_steps-accepted ss
after_steps-accepted (set f ∷ ss) = after_steps-accepted ss
after_steps-accepted (end ∷ ss) = after_steps-accepted ss

-- A worker that has ended has found nothing left, and nothing comes after it.
Drained : Logger → Type 0
Drained l = (l.batch ≡ []) × (l.queue ≡ []) × (l.shutdown ≡ true)

worker_step-Drained :
    (l : Logger)
    → (l.stopped ≡ true → Drained l)
    → (worker_step l).stopped ≡ true
    → Drained (worker_step l)
unfolding worker_step write_to_sinks Drained
worker_step-Drained l k h = elim (Bool-cases l.stopped) [
  | inl e ↦ (let d = k e in ground (arith, e, d))
  | inr e ↦ (elim (List-cases l.batch) [
    | inl b ↦ (elim (List-cases l.queue) [
      | inl q ↦ ground (arith, e, b, q, h)
      | inr q ↦ (let f = q.2 in ground (arith, e, b, f, h))
    ])
    | inr b ↦ (let f = b.2 in ground (arith, e, f, h))
  ])
]

log-Drained :
    (r : LogRecord) (l : Logger)
    → (l.stopped ≡ true → Drained l)
    → (log r l).stopped ≡ true
    → Drained (log r l)
unfolding log enqueue Drained
log-Drained r l k h =
    let s : l.stopped ≡ true = ground (arith, h) in let d = k s in ground (arith, d)

drained : (ss : List LogStep) → (after_steps ss).stopped ≡ true → Drained (after_steps ss)
unfolding after_steps enqueue destroy Drained
drained [] h = cc
drained (call r ∷ ss) h = log-Drained r (after_steps ss) (drained ss) h
drained (enter r ∷ ss) h = ground (arith, drained ss)
drained (work ∷ ss) h = worker_step-Drained (after_steps ss) (drained ss) h
drained (set f ∷ ss) h = drained ss h
drained (end ∷ ss) h = let d = drained ss h in (d.0, d.1, refl)

emptied : (w b q : List LogRecord) → b ≡ [] → q ≡ [] → w ++ (b ++ q) ≡ w
emptied w b q e f = rw (e, f) (append-nil w)

-- The worker ends only when nothing is left: then every record that was accepted is written.
pub stopped-accepted :
    (ss : List LogStep) → (after_steps ss).stopped ≡ true → (after_steps ss).written ≡ accepted ss
unfolding Drained
stopped-accepted ss h =
    let d = drained ss h in
    let l = after_steps ss in
    sym (emptied l.written l.batch l.queue d.0 d.1) ∙ after_steps-accepted ss

-- The worker alone, for a number of steps.
unfoldable pub works : ℕ → Logger → Logger
works zero l = l
works (suc n) l = works n (worker_step l)

stays_stopped : (n : ℕ) (l : Logger) → l.stopped ≡ true → (works n l).stopped ≡ true
unfolding works worker_step
stays_stopped zero l h = h
stays_stopped (suc n) l h = stays_stopped n (worker_step l) (ground (arith, h))

-- What the worker has still to do, in steps.
abbrev pub pending : Logger → ℕ
pending l = length l.batch + 2 * length l.queue + 1

worker_step-pending :
    (l : Logger)
    → l.shutdown ≡ true
    → ((worker_step l).stopped ≡ true)
      ⊎ (((worker_step l).shutdown ≡ true) × (pending (worker_step l) < pending l))
unfolding worker_step write_to_sinks
worker_step-pending l h = elim (Bool-cases l.stopped) [
  | inl e ↦ inl (ground (arith, e))
  | inr e ↦ (elim (List-cases l.batch) [
    | inl b ↦ (elim (List-cases l.queue) [
      | inl q ↦ inl (ground (arith, e, b, q, h))
      | inr q ↦ (let f = q.2 in inr (ground (arith, e, b, f, h), ground (arith, e, b, f, h)))
    ])
    | inr b ↦ (let f = b.2 in inr (ground (arith, e, f, h), ground (arith, e, f, h)))
  ])
]

-- Once the destructor has begun, the worker ends: two steps for each record that waits, one for
-- each that it holds, and one more are enough.
pub works-stopped :
    (n : ℕ) (l : Logger) → l.shutdown ≡ true → pending l ≤ n → (works n l).stopped ≡ true
unfolding works
works-stopped zero l h k = absurd (omega arith)
works-stopped (suc n) l h k = elim (worker_step-pending l h) [
  | inl e ↦ stays_stopped n (worker_step l) e
  | inr e ↦ works-stopped n (worker_step l) e.0 (let m = e.1 in omega arith)
]
