-- ===== src/Eventlog/Reporter/Ledger.antt =====
-- What a reporter promises, and that the worker with its channels keeps it.
use wekango.Base.{
  ℕ, ◌+◌, Bool, true, false, ◌≡◌, refl, sym, ap, ◌∙◌, arith, if◌then◌else◌, if-true, if-false, leb,
  Bool-cases, inl, inr,
}
use mathlib.Core.Path.{subst}
use wekango.Bson.{Fields}
use wekango.Bson.Truth.{truthy}
use wekango.Bson.Fetch.{get}
use wekango.Eventlog.Values.{Printer}
use wekango.Eventlog.Usage.{UsageAccumulator, add, drain_at}
use wekango.Eventlog.Usage.Totals.{total, row_total, IsConsistent, add-total, drain_at-total}
use wekango.Eventlog.Reporter.{
  Worker, measuring, reporting, last_reporting, Reporter, add_event, close, measure, size,
  WorkerStep, stop_received, wake_received, measured, tick_received, drained, last_drained,
  reported, last_reported, Step, added, closing, works, Reach,
}
use wekango.Eventlog.Reporter.Waking.{Reach-IsSound}

-- The abstract reporter: a number of calls that wait, one of calls that are being reported, and
-- whether it is closed.
pub record Book : Type 0 where
  pub waiting_calls : ℕ
  pub carried_calls : ℕ
  pub shut : Bool

pub data Turn : Book → Book → Type 0 where
  idle : (b : Book) → Turn b b
  -- a call with a route name
  accept : (b : Book) → b.shut ≡ false → Turn b (record b { waiting_calls = b.waiting_calls + 1 })
  shut_down : (b : Book) → Turn b (record b { shut = true })
  -- all that wait are taken at once, when none is being reported
  carry :
      (b : Book)
      → b.carried_calls ≡ 0
      → Turn b (record b { waiting_calls = 0; carried_calls = b.waiting_calls })
  deliver : (b : Book) → Turn b (record b { carried_calls = 0 })

abbrev pub carried : Worker → ℕ
carried (reporting rows) = row_total rows
carried (last_reporting rows) = row_total rows
carried _ = 0

abbrev pub book : Reporter → Book
book r = record {
  waiting_calls = total r.pending;
  carried_calls = carried r.worker;
  shut = r.closed;
}

at_waiting : (b : Book) (n : ℕ) → b.waiting_calls ≡ n → Turn b (record b { waiting_calls = n })
at_waiting b n same = subst (λ k. Turn b (record b { waiting_calls = k })) same (idle b)

at_carried : (b : Book) (n : ℕ) → b.carried_calls ≡ n → Turn b (record b { carried_calls = n })
at_carried b n same = subst (λ k. Turn b (record b { carried_calls = k })) same (idle b)

accepted :
    (b : Book) (named : Bool) (n : ℕ)
    → b.shut ≡ false
    → n ≡ b.waiting_calls + (if named then 1 else 0)
    → Turn b (record b { waiting_calls = n })
accepted b true n on same =
    subst (λ k. Turn b (record b { waiting_calls = k })) (sym same) (accept b on)
accepted b false n on same = at_waiting b n (omega arith)

add_event-Turn :
    (p : Printer) (event : Fields) (r : Reporter) → Turn (book r) (book (add_event p event r))
unfolding add_event
add_event-Turn p event r = elim (Bool-cases r.closed) [
  | inl done ↦ subst (λ u. Turn (book r) (book u)) (sym (if-true r.closed _ _ done)) (idle (book r))
  | inr on ↦
      subst (λ u. Turn (book r) (book u)) (sym (if-false r.closed _ _ on))
        (accepted (book r) (truthy (get "name" event)) (total (add p event r.pending).0) on
          (add-total p event r.pending))
]

measure-Turn : (r : Reporter) → r.worker ≡ measuring → Turn (book r) (book (measure r))
unfolding measure
measure-Turn r at = elim (Bool-cases (leb 200 (size r.pending))) [
  | inl many ↦ rw many (at_carried (book r) 0 (ap carried at))
  | inr few ↦ rw few (at_carried (book r) 0 (ap carried at))
]

carry_all :
    (b : Book) (now : ℕ) (acc : UsageAccumulator)
    → b.waiting_calls ≡ total acc
    → b.carried_calls ≡ 0
    → IsConsistent acc
    → Turn b (record b {
      waiting_calls = total (drain_at now acc).0;
      carried_calls = row_total (drain_at now acc).1;
    })
unfolding drain_at
carry_all b now acc same none_carried c =
    subst (λ k. Turn b (record b { waiting_calls = 0; carried_calls = k }))
      (same ∙ sym (drain_at-total now acc c)) (carry b none_carried)

WorkerStep-Turn :
    {r u : Reporter} → WorkerStep r u → IsConsistent r.pending → Turn (book r) (book u)
WorkerStep-Turn (stop_received r at shut) c = at_carried (book r) 0 (ap carried at)
WorkerStep-Turn (wake_received r at woken) c = at_carried (book r) 0 (ap carried at)
WorkerStep-Turn (measured r at) c = measure-Turn r at
WorkerStep-Turn (tick_received r at fired) c = at_carried (book r) 0 (ap carried at)
WorkerStep-Turn (drained now r at) c = carry_all (book r) now r.pending refl (ap carried at) c
WorkerStep-Turn (last_drained now r at) c = carry_all (book r) now r.pending refl (ap carried at) c
WorkerStep-Turn (reported rows r at) c = deliver (book r)
WorkerStep-Turn (last_reported rows r at) c = deliver (book r)

-- Each step of the system from a reachable state is a turn of the abstract reporter, or changes
-- nothing that it sees: it takes a call with a route name while it is open, it is shut, it takes all
-- waiting calls into one report when no other is under way, or it ends a report. No step loses a
-- waiting call or reports one twice.
pub Step-Turn : (p : Printer) (r u : Reporter) → Reach p r → Step p r u → Turn (book r) (book u)
unfolding close
Step-Turn p r u q (added event _) = add_event-Turn p event r
Step-Turn p r u q (closing _) = shut_down (book r)
Step-Turn p r u q (works w) = WorkerStep-Turn w (Reach-IsSound p r q).consistent
