-- ===== src/Eventlog/Usage/Totals.antt =====
-- No call is lost between `Add` and `Drain`, and the number of rows is bounded.
use wekango.Base.{
  ℕ, ◌+◌, ◌≤◌, String, false, List, [], ◌∷◌, ◌++◌, ◌==◌, Option, none, some, arith, ◌≡◌, refl, ap,
  ◌∙◌, eq_refl, leb, Bool-cases, inl, inr, if◌then◌else◌, length, All,
}
use native.Mathlib.Nat.{zero-add}
use wekango.Base.Map.{
  Map, lookup, sum_of, sum_of-insert-some, sum_of-insert-none, keys-differ, keys, IsDistinct,
  keys-insert-none, keys-insert-some, IsDistinct-insert, length-insert, length-insert-some,
}
use wekango.Bson.{Fields}
use wekango.Bson.Truth.{truthy}
use wekango.Bson.Fetch.{get}
use wekango.Eventlog.Values.{Printer}
use wekango.Eventlog.Usage.{
  UsageRow, UsageAccumulator, new_usage_accumulator, event_key, repeat_row, first_row, add_keyed,
  add, rows_of, overflow_row, drain_at,
}

-- The calls that the rows count.
abbrev pub sum : Map UsageRow → ℕ
sum m = sum_of (λ row. row.count) m

abbrev row_count : Option UsageRow → ℕ
row_count none = 0
row_count (some row) = row.count

abbrev pub row_total : List (Option UsageRow) → ℕ
row_total [] = 0
row_total (r ∷ rows) = row_count r + row_total rows

abbrev pub total : UsageAccumulator → ℕ
total acc = sum acc.pending + acc.overflow

-- `order` lists the keys of `pending`, each once, and there are at most `max_tracked`.
pub record IsConsistent (acc : UsageAccumulator) : Type 0 where
  pub ordered : keys acc.pending ≡ acc.order
  pub distinct : IsDistinct acc.pending
  pub bounded : length acc.pending ≤ acc.max_tracked

rows_of-cons :
    (k : String) (row : UsageRow) (m : Map UsageRow) (ks : List String)
    → All (λ j. (k == j) ≡ false) ks
    → rows_of ((k, row) ∷ m) ks ≡ rows_of m ks
unfolding lookup
rows_of-cons k row m [] h = refl
rows_of-cons k row m (j ∷ ks) h = rw h.0 (ap (λ r. lookup j m ∷ r) (rows_of-cons k row m ks h.1))

row_total-rows_of : (m : Map UsageRow) → IsDistinct m → row_total (rows_of m (keys m)) ≡ sum m
unfolding lookup
row_total-rows_of [] h = refl
row_total-rows_of ((k, row) ∷ m) h =
    rw (eq_refl k, rows_of-cons k row m (keys m) (keys-differ k m h.0))
      (omega (arith, row_total-rows_of m h.1))

row_total-append :
    (xs ys : List (Option UsageRow)) → row_total (xs ++ ys) ≡ row_total xs + row_total ys
row_total-append [] ys = omega arith
row_total-append (x ∷ xs) ys = omega (arith, row_total-append xs ys)

count-repeat_row :
    (p : Printer) (event : Fields) (row : UsageRow) → (repeat_row p event row).count ≡ row.count + 1
unfolding repeat_row
count-repeat_row p event row = ground arith

module _ (p : Printer) (event : Fields) where
  add_keyed-total :
      (key : String) (o : Option UsageRow) (acc : UsageAccumulator)
      → lookup key acc.pending ≡ o
      → total (add_keyed p key event o acc).0 ≡ total acc + 1
  unfolding first_row
  add_keyed-total key (some row) acc found = omega (
    arith,
    sum_of-insert-some (λ row. row.count) key (repeat_row p event row) row acc.pending found,
    count-repeat_row p event row,
  )
  add_keyed-total key none acc found =
      ground
        (arith, sum_of-insert-none (λ row. row.count) key (first_row p event) acc.pending found)

  add_keyed-IsConsistent :
      (key : String) (o : Option UsageRow) (acc : UsageAccumulator)
      → lookup key acc.pending ≡ o
      → IsConsistent acc
      → IsConsistent (add_keyed p key event o acc).0
  add_keyed-IsConsistent key (some row) acc found c = record {
    ordered = keys-insert-some key (repeat_row p event row) row acc.pending found ∙ c.ordered;
    distinct = IsDistinct-insert key (repeat_row p event row) acc.pending c.distinct;
    bounded =
        omega
          (arith, c.bounded, length-insert-some key (repeat_row p event row) row acc.pending found);
  }
  add_keyed-IsConsistent key none acc found c =
      elim (Bool-cases (leb acc.max_tracked (length acc.pending))) [
        | inl full ↦
            rw full (record { ordered = c.ordered; distinct = c.distinct; bounded = c.bounded })
        | inr room ↦ rw room (record {
          ordered =
              keys-insert-none key (first_row p event) acc.pending found
              ∙ ap (λ ks. ks ++ key ∷ []) c.ordered;
          distinct = IsDistinct-insert key (first_row p event) acc.pending c.distinct;
          bounded = ground (arith, length-insert key (first_row p event) acc.pending);
        })
      ]

  pub add-total :
      (acc : UsageAccumulator)
      → total (add p event acc).0 ≡ total acc + (if truthy (get "name" event) then 1 else 0)
  unfolding add
  add-total acc =
      ground
        (arith, add_keyed-total (event_key p event) (lookup (event_key p event) acc.pending) acc)

  -- A call keeps the accumulator consistent: its order lists the keys of its rows, each once, and
  -- the rows are at most as many as it may track.
  pub add-IsConsistent :
      (acc : UsageAccumulator) → IsConsistent acc → IsConsistent (add p event acc).0
  unfolding add
  add-IsConsistent acc c = elim (Bool-cases (truthy (get "name" event))) [
    | inl named ↦ rw named (
        add_keyed-IsConsistent (event_key p event) (lookup (event_key p event) acc.pending) acc refl
          c)
    | inr unnamed ↦ rw unnamed c
  ]

-- A sequence of calls.
pub add_all : Printer → List Fields → UsageAccumulator → UsageAccumulator
add_all p [] acc = acc
add_all p (event ∷ events) acc = add_all p events (add p event acc).0

abbrev pub named : List Fields → ℕ
named [] = 0
named (event ∷ events) = (if truthy (get "name" event) then 1 else 0) + named events

add_all-total :
    (p : Printer) (events : List Fields) (acc : UsageAccumulator)
    → total (add_all p events acc) ≡ total acc + named events
unfolding add_all
add_all-total p [] acc = omega arith
add_all-total p (event ∷ events) acc =
    omega (arith, add_all-total p events (add p event acc).0, add-total p event acc)

add_all-IsConsistent :
    (p : Printer) (events : List Fields) (acc : UsageAccumulator)
    → IsConsistent acc
    → IsConsistent (add_all p events acc)
unfolding add_all
add_all-IsConsistent p [] acc c = c
add_all-IsConsistent p (event ∷ events) acc c =
    add_all-IsConsistent p events (add p event acc).0 (add-IsConsistent p event acc c)

pub drain_at-total :
    (now : ℕ) (acc : UsageAccumulator)
    → IsConsistent acc
    → row_total (drain_at now acc).1 ≡ total acc
unfolding drain_at
drain_at-total now acc c = rw (← c.ordered) (
    ground (
      arith,
      row_total-append (rows_of acc.pending (keys acc.pending))
          (some (overflow_row now acc (rows_of acc.pending (keys acc.pending))) ∷ []),
      row_total-rows_of acc.pending c.distinct,
    ))

-- Whatever calls come after a fresh accumulator, and in whatever order, the rows that a drain gives
-- count exactly the calls with a route name: none is lost, and none is counted twice, also past the
-- limit on tracked rows.
pub drain_at-add_all :
    (p : Printer) (limit now : ℕ) (events : List Fields)
    → row_total (drain_at now (add_all p events (new_usage_accumulator limit))).1 ≡ named events
unfolding new_usage_accumulator
drain_at-add_all p limit now events =
    let fresh : IsConsistent (new_usage_accumulator limit) = record {
      ordered = refl;
      distinct = tt;
      bounded = omega arith;
    } in
    drain_at-total now (add_all p events (new_usage_accumulator limit))
      (add_all-IsConsistent p events (new_usage_accumulator limit) fresh)
    ∙ add_all-total p events (new_usage_accumulator limit)
    ∙ zero-add (named events)
