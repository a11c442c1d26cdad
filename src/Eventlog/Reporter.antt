-- ===== src/Eventlog/Reporter.antt =====
-- internal/eventlog/reporter.go: the worker that batches API traffic, as a state machine. `Add` and
-- the locked part of `Close` are steps of any other goroutine. The worker's `select` waits, and what it does then is
-- cut where it takes the accumulator's mutex, so that other goroutines act in between.
pub mod Flush
pub mod Waking
pub mod Ledger
pub mod Quiet
use wekango.Base.{ℕ, Bool, true, false, List, [], Option, leb, length, if◌then◌else◌, ◌≡◌}
use wekango.Bson.{Fields}
use wekango.Eventlog.Values.{Printer}
use wekango.Eventlog.Usage.{
  UsageRow, UsageAccumulator, new_usage_accumulator, max_tracked_default, add, drain_at,
}

-- Where the worker stands. A flush is about to drain in `flushing`, and holds its rows in
-- `reporting`; the `last_` ones are those of the flush after `stop`.
pub data Worker : Type 0 where
  waiting measuring flushing last_flushing : Worker
  reporting last_reporting : List (Option UsageRow) → Worker
  stopped : Worker

-- `wake` is a channel with room for one token; `timer` tells whether there is a timer whose tick
-- is yet to be received; `closed` also stands for the closed channel `stop`, and the worker
-- that is `stopped` for the closed channel `done`.
pub record Reporter : Type 0 where
  pub pending : UsageAccumulator
  pub wake : Bool
  pub timer : Bool
  pub closed : Bool
  pub worker : Worker

-- `newReporter`
unfoldable pub new_reporter : Reporter
unfolding new_usage_accumulator
new_reporter = record {
  pending = new_usage_accumulator max_tracked_default;
  wake = false;
  timer = false;
  closed = false;
  worker = waiting;
}

-- `(*UsageAccumulator).Size`
abbrev pub size : UsageAccumulator → ℕ
size acc = length acc.pending

-- `(*Reporter).Add`
unfoldable pub add_event : Printer → Fields → Reporter → Reporter
unfolding add
add_event p event r =
    if r.closed then r else record r { pending = (add p event r.pending).0; wake = true }

-- `(*Reporter).Close`, before it waits for `done`
unfoldable pub close : Reporter → Reporter
close r = record r { closed = true }

-- The case of `wake`, after the token was taken.
unfoldable pub measure : Reporter → Reporter
measure r =
    if leb 200 (size r.pending)
    then record r { worker = flushing }
    else record r { worker = waiting; timer = true }

-- The steps of the worker. The runtime picks any case of `select` that is ready.
pub data WorkerStep : Reporter → Reporter → Type 0 where
  stop_received :
      (r : Reporter)
      → r.worker ≡ waiting
      → r.closed ≡ true
      → WorkerStep r (record r { worker = last_flushing })
  wake_received :
      (r : Reporter)
      → r.worker ≡ waiting
      → r.wake ≡ true
      → WorkerStep r (record r { wake = false; worker = measuring })
  measured : (r : Reporter) → r.worker ≡ measuring → WorkerStep r (measure r)
  tick_received :
      (r : Reporter)
      → r.worker ≡ waiting
      → r.timer ≡ true
      → WorkerStep r (record r { timer = false; worker = flushing })
  drained :
      (now : ℕ) (r : Reporter)
      → r.worker ≡ flushing
      → WorkerStep r (record r {
        pending = (drain_at now r.pending).0;
        worker = reporting (drain_at now r.pending).1;
      })
  last_drained :
      (now : ℕ) (r : Reporter)
      → r.worker ≡ last_flushing
      → WorkerStep r (record r {
        pending = (drain_at now r.pending).0;
        worker = last_reporting (drain_at now r.pending).1;
      })
  reported :
      (rows : List (Option UsageRow)) (r : Reporter)
      → r.worker ≡ reporting rows
      → WorkerStep r (record r { worker = waiting })
  last_reported :
      (rows : List (Option UsageRow)) (r : Reporter)
      → r.worker ≡ last_reporting rows
      → WorkerStep r (record r { worker = stopped })

-- A step of the whole system.
pub data Step (p : Printer) : Reporter → Reporter → Type 0 where
  added : (event : Fields) (r : Reporter) → Step p r (add_event p event r)
  closing : (r : Reporter) → Step p r (close r)
  works : {r s : Reporter} → WorkerStep r s → Step p r s

pub data Reach (p : Printer) : Reporter → Type 0 where
  start : Reach p new_reporter
  next : {r s : Reporter} → Reach p r → Step p r s → Reach p s
