-- ===== src/Eventlog/Reporter/Waking.antt =====
-- No wake-up is lost: calls that wait are always on their way to a flush.
use wekango.Base.{
  ℕ, Bool, true, false, not, ◌||◌, List, Option, ◌≡◌, refl, ap, arith, leb, Bool-cases, inl, inr,
}
use wekango.Bson.{Fields}
use wekango.Eventlog.Values.{Printer}
use wekango.Eventlog.Usage.{UsageRow, UsageAccumulator, drain_at, new_usage_accumulator}
use wekango.Eventlog.Usage.Totals.{total, IsConsistent, add-IsConsistent}
use wekango.Eventlog.Reporter.{
  Worker, waiting, measuring, flushing, last_flushing, reporting, last_reporting, stopped, Reporter,
  new_reporter, add_event, close, measure, size, WorkerStep, stop_received, wake_received, measured,
  tick_received, drained, last_drained, reported, last_reported, Step, added, closing, works, Reach,
  start, next,
}

-- The worker is about to drain.
abbrev pub is_due : Worker → Bool
is_due flushing = true
is_due last_flushing = true
is_due _ = false

-- The worker has taken a token: it drains next, or arms the timer.
abbrev pub is_weighing : Worker → Bool
is_weighing measuring = true
is_weighing _ = false

-- The worker has received `stop`.
abbrev pub is_last : Worker → Bool
is_last last_flushing = true
is_last (last_reporting rows) = true
is_last stopped = true
is_last _ = false

pub implied : (a b : Bool) → (not a || b) ≡ true → a ≡ true → b ≡ true
implied a b h t = ground arith

imply : (a b : Bool) → b ≡ true → (not a || b) ≡ true
imply a b h = ground arith

pub data IsAwake (r : Reporter) : Type 0 where
  empty : total r.pending ≡ 0 → IsAwake r
  token : r.wake ≡ true → is_last r.worker ≡ false → IsAwake r
  armed : r.timer ≡ true → is_last r.worker ≡ false → IsAwake r
  weighing : r.worker ≡ measuring → IsAwake r
  due : is_due r.worker ≡ true → IsAwake r

pub record IsSound (r : Reporter) : Type 0 where
  pub consistent : IsConsistent r.pending
  pub awake : IsAwake r
  pub stopping : (not (is_last r.worker) || r.closed) ≡ true

drained-IsConsistent : (now : ℕ) (acc : UsageAccumulator) → IsConsistent (drain_at now acc).0
unfolding drain_at
drained-IsConsistent now acc = record { ordered = refl; distinct = tt; bounded = omega arith }

total-drained : (now : ℕ) (acc : UsageAccumulator) → total (drain_at now acc).0 ≡ 0
unfolding drain_at
total-drained now acc = refl

new-IsSound : IsSound new_reporter
unfolding new_reporter new_usage_accumulator
new-IsSound = record {
  consistent = record { ordered = refl; distinct = tt; bounded = omega arith };
  awake = empty refl;
  stopping = refl;
}

add_event-IsSound :
    (p : Printer) (event : Fields) (r : Reporter) → IsSound r → IsSound (add_event p event r)
unfolding add_event
add_event-IsSound p event r s = elim (Bool-cases r.closed) [
  | inl shut ↦ simp shut s
  | inr open_still ↦ simp open_still (record {
    consistent = add-IsConsistent p event r.pending s.consistent;
    awake = token refl (elim (Bool-cases (is_last r.worker)) [
      | inl last ↦ cc (implied (is_last r.worker) r.closed s.stopping last)
      | inr on ↦ on
    ]);
    stopping = rw open_still at s.stopping;
  })
]

close-IsSound : (r : Reporter) → IsSound r → IsSound (close r)
unfolding close
close-IsSound r s = record {
  consistent = s.consistent;
  awake = elim s.awake [
    | empty idle ↦ empty idle
    | token h on ↦ token h on
    | armed h on ↦ armed h on
    | weighing h ↦ weighing h
    | due h ↦ due h
  ];
  stopping = imply (is_last r.worker) true refl;
}

measure-IsSound : (r : Reporter) → r.worker ≡ measuring → IsSound r → IsSound (measure r)
unfolding measure
measure-IsSound r at s = elim (Bool-cases (leb 200 (size r.pending))) [
  | inl many ↦ rw many (record { consistent = s.consistent; awake = due refl; stopping = refl })
  | inr few ↦
      rw few (record { consistent = s.consistent; awake = armed refl refl; stopping = refl })
]

back-IsAwake :
    (rows : List (Option UsageRow)) (r : Reporter)
    → r.worker ≡ reporting rows
    → IsAwake r
    → IsAwake (record r { worker = waiting })
back-IsAwake rows r at (empty idle) = empty idle
back-IsAwake rows r at (token h on) = token h refl
back-IsAwake rows r at (armed h on) = armed h refl
back-IsAwake rows r at (weighing h) = cc
back-IsAwake rows r at (due h) = cc (ap is_due at)

end-IsAwake :
    (rows : List (Option UsageRow)) (r : Reporter)
    → r.worker ≡ last_reporting rows
    → IsAwake r
    → IsAwake (record r { worker = stopped })
end-IsAwake rows r at (empty idle) = empty idle
end-IsAwake rows r at (token h on) = cc (ap is_last at)
end-IsAwake rows r at (armed h on) = cc (ap is_last at)
end-IsAwake rows r at (weighing h) = cc
end-IsAwake rows r at (due h) = cc (ap is_due at)

pub WorkerStep-IsSound : {r u : Reporter} → WorkerStep r u → IsSound r → IsSound u
WorkerStep-IsSound (stop_received r at shut) s = record {
  consistent = s.consistent;
  awake = due refl;
  stopping = shut;
}
WorkerStep-IsSound (wake_received r at woken) s = record {
  consistent = s.consistent;
  awake = weighing refl;
  stopping = refl;
}
WorkerStep-IsSound (measured r at) s = measure-IsSound r at s
WorkerStep-IsSound (tick_received r at fired) s = record {
  consistent = s.consistent;
  awake = due refl;
  stopping = refl;
}
WorkerStep-IsSound (drained now r at) s = record {
  consistent = drained-IsConsistent now r.pending;
  awake = empty (total-drained now r.pending);
  stopping = refl;
}
WorkerStep-IsSound (last_drained now r at) s = record {
  consistent = drained-IsConsistent now r.pending;
  awake = empty (total-drained now r.pending);
  stopping = implied (is_last r.worker) r.closed s.stopping (ap is_last at);
}
WorkerStep-IsSound (reported rows r at) s = record {
  consistent = s.consistent;
  awake = back-IsAwake rows r at s.awake;
  stopping = refl;
}
WorkerStep-IsSound (last_reported rows r at) s = record {
  consistent = s.consistent;
  awake = end-IsAwake rows r at s.awake;
  stopping = implied (is_last r.worker) r.closed s.stopping (ap is_last at);
}

Step-IsSound : {p : Printer} {r u : Reporter} → Step p r u → IsSound r → IsSound u
Step-IsSound {p} (added event r) s = add_event-IsSound p event r s
Step-IsSound (closing r) s = close-IsSound r s
Step-IsSound (works w) s = WorkerStep-IsSound w s

-- In every reachable state the calls that the accumulator holds are not forgotten: it holds none,
-- or there is a wake-up token or an armed timer and the worker has not yet received `stop`, or the
-- worker has taken a token and is about to look at the size, or it is about to drain. The rows are
-- consistent, and the worker receives `stop` only once the reporter is closed.
pub Reach-IsSound : (p : Printer) (r : Reporter) → Reach p r → IsSound r
Reach-IsSound p r start = new-IsSound
Reach-IsSound p r (next q st) = Step-IsSound st (Reach-IsSound p _ q)
