-- ===== src/Eventlog/Reporter/Quiet.antt =====
-- A worker that is left alone comes to rest, with nothing left behind.
use wekango.Base.{
  ℕ, zero, suc, ◌+◌, ◌≤◌, ◌<◌, Bool, true, false, ◌≡◌, ◌⊎◌, refl, ap, arith, leb, Bool-cases, inl,
  inr,
}
use wekango.Eventlog.Values.{Printer}
use wekango.Eventlog.Usage.Totals.{total}
use wekango.Eventlog.Reporter.{
  Worker, waiting, measuring, flushing, last_flushing, reporting, last_reporting, stopped, Reporter,
  measure, size, WorkerStep, stop_received, wake_received, measured, tick_received, drained,
  last_drained, reported, last_reported, Reach,
}
use wekango.Eventlog.Reporter.Waking.{
  implied, IsSound, IsAwake, empty, token, armed, weighing, due, is_due, is_last, Reach-IsSound,
  WorkerStep-IsSound,
}

-- So many steps of the worker, while no other goroutine acts.
pub data Alone : ℕ → Reporter → Reporter → Type 0 where
  here : (r : Reporter) → Alone 0 r r
  onward : {n : ℕ} {r s u : Reporter} → WorkerStep r s → Alone n s u → Alone (suc n) r u

-- An upper bound of the steps that the worker can still take.
abbrev phase : Worker → ℕ
phase waiting = 3
phase measuring = 7
phase flushing = 5
phase last_flushing = 2
phase (reporting rows) = 4
phase (last_reporting rows) = 1
phase stopped = 0

abbrev weight : ℕ → Bool → ℕ
weight n true = n
weight n false = 0

abbrev rank : Reporter → ℕ
rank r = phase r.worker + weight 5 r.wake + weight 3 r.timer

weight_le : (n : ℕ) (b : Bool) → weight n b ≤ n
weight_le n true = omega arith
weight_le n false = omega arith

phase_le : (w : Worker) → phase w ≤ 7
phase_le waiting = omega arith
phase_le measuring = omega arith
phase_le flushing = omega arith
phase_le last_flushing = omega arith
phase_le (reporting rows) = omega arith
phase_le (last_reporting rows) = omega arith
phase_le stopped = omega arith

rank-measure : (r : Reporter) → r.worker ≡ measuring → rank (measure r) < rank r
unfolding measure
rank-measure r at = elim (Bool-cases (leb 200 (size r.pending))) [
  | inl many ↦ rw many (omega (arith, ap phase at))
  | inr few ↦ rw few (omega (arith, ap phase at))
]

rank_falls : {r u : Reporter} → WorkerStep r u → rank u < rank r
rank_falls (stop_received r at shut) = omega (arith, ap phase at)
rank_falls (wake_received r at woken) = omega (arith, ap phase at, ap (weight 5) woken)
rank_falls (measured r at) = rank-measure r at
rank_falls (tick_received r at fired) = omega (arith, ap phase at, ap (weight 3) fired)
rank_falls (drained now r at) = omega (arith, ap phase at)
rank_falls (last_drained now r at) = omega (arith, ap phase at)
rank_falls (reported rows r at) = omega (arith, ap phase at)
rank_falls (last_reported rows r at) = omega (arith, ap phase at)

Alone-rank : {n : ℕ} {r u : Reporter} → Alone n r u → n + rank u ≤ rank r
Alone-rank (here r) = omega arith
Alone-rank (onward st rest) = omega (arith, rank_falls st, Alone-rank rest)

Alone-IsSound : {n : ℕ} {r u : Reporter} → Alone n r u → IsSound r → IsSound u
Alone-IsSound (here r) s = s
Alone-IsSound (onward st rest) s = Alone-IsSound rest (WorkerStep-IsSound st s)

-- The worker waits for what others do, or it has ended.
pub data IsAtRest (r : Reporter) : Type 0 where
  open_still : r.worker ≡ waiting → r.closed ≡ false → r.wake ≡ false → r.timer ≡ false → IsAtRest r
  ended : r.worker ≡ stopped → r.closed ≡ true → IsAtRest r

abbrev Progress : Reporter → Type 0
Progress r = ((u : Reporter) × WorkerStep r u) ⊎ IsAtRest r

progress_waiting : (r : Reporter) → r.worker ≡ waiting → Progress r
progress_waiting r at = elim (Bool-cases r.closed) [
  | inl shut ↦ inl (_, stop_received r at shut)
  | inr on ↦ elim (Bool-cases r.wake) [
    | inl woken ↦ inl (_, wake_received r at woken)
    | inr asleep ↦ elim (Bool-cases r.timer) [
      | inl fired ↦ inl (_, tick_received r at fired)
      | inr unset ↦ inr (open_still at on asleep unset)
    ]
  ]
]

progress : (w : Worker) (r : Reporter) → r.worker ≡ w → IsSound r → Progress r
progress waiting r at s = progress_waiting r at
progress measuring r at s = inl (_, measured r at)
progress flushing r at s = inl (_, drained 0 r at)
progress last_flushing r at s = inl (_, last_drained 0 r at)
progress (reporting rows) r at s = inl (_, reported rows r at)
progress (last_reporting rows) r at s = inl (_, last_reported rows r at)
progress stopped r at s =
    inr (ended at (implied (is_last r.worker) r.closed s.stopping (ap is_last at)))

rest_empty : (r : Reporter) → IsAwake r → IsAtRest r → total r.pending ≡ 0
rest_empty r (empty none_left) e = none_left
rest_empty r (token h on) (open_still at o w t) = cc
rest_empty r (token h on) (ended at o) = cc (ap is_last at)
rest_empty r (armed h on) (open_still at o w t) = cc
rest_empty r (armed h on) (ended at o) = cc (ap is_last at)
rest_empty r (weighing h) (open_still at o w t) = cc
rest_empty r (weighing h) (ended at o) = cc
rest_empty r (due h) (open_still at o w t) = cc (ap is_due at)
rest_empty r (due h) (ended at o) = cc (ap is_due at)

-- A run of the worker alone to a state of rest, in which nothing is pending.
pub record IsSettling (r : Reporter) : Type 0 where
  pub steps : ℕ
  pub last : Reporter
  pub run : Alone steps r last
  pub resting : IsAtRest last
  pub nothing_left : total last.pending ≡ 0

rank_le : (r : Reporter) → rank r ≤ 15
rank_le r = omega (arith, phase_le r.worker, weight_le 5 r.wake, weight_le 3 r.timer)

-- Whatever the runtime picks, the worker takes at most fifteen steps while no other goroutine acts.
pub Alone-le : (n : ℕ) (r u : Reporter) → Alone n r u → n ≤ 15
Alone-le n r u run = omega (arith, Alone-rank run, rank_le r)

settled : (r : Reporter) → IsSound r → IsAtRest r → IsSettling r
settled r s e = record {
  steps = 0;
  last = r;
  run = here r;
  resting = e;
  nothing_left = rest_empty r s.awake e;
}

one_more : {r u : Reporter} → WorkerStep r u → IsSettling u → IsSettling r
one_more st z = record {
  steps = suc z.steps;
  last = z.last;
  run = onward st z.run;
  resting = z.resting;
  nothing_left = z.nothing_left;
}

settle_from : (bound : ℕ) (r : Reporter) → rank r < bound → IsSound r → IsSettling r
settle_from zero r low s = absurd (omega arith)
settle_from (suc bound) r low s = elim (progress r.worker r refl s) [
  | inr resting ↦ settled r s resting
  | inl (u, st) ↦
      one_more st (settle_from bound u (omega (arith, rank_falls st)) (WorkerStep-IsSound st s))
]

-- From every reachable state the worker alone comes to a state of rest in which no call is pending:
-- it waits with no token and no timer, or, when the reporter was closed, it has stopped, so `Close`
-- returns.
pub Reach-IsSettling : (p : Printer) (r : Reporter) → Reach p r → IsSettling r
Reach-IsSettling p r q = settle_from 16 r (omega (arith, rank_le r)) (Reach-IsSound p r q)
