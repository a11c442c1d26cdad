-- ===== src/Eventlog/Usage.antt =====
-- internal/eventlog/usage.go: the accumulator of API calls. The mutex makes each call one step. A row
-- is a record, `row_document` is the document that it stands for, and counts are unbounded.
pub mod Totals
use wekango.Base.{
  ℕ, ◌+◌, String, Bool, true, false, List, [], ◌∷◌, ◌++◌, Option, none, some, leb, ltb,
  if◌then◌else◌, length,
}
use wekango.Base.Int.{pos}
use wekango.Base.Map.{Map, lookup, insert}
use wekango.Base.Text.{◌⊕◌}
use wekango.Base.Decimal.{decimal}
use wekango.Bson.{Value, null, int, str, time, Fields, end, field}
use wekango.Bson.Truth.{truthy}
use wekango.Bson.Fetch.{find, get}
use wekango.Eventlog.Values.{Printer, usage_string, usage_later}

abbrev pub max_tracked_default : ℕ
max_tracked_default = 500

abbrev pub unmatched : String
unmatched = "(no route)"

unfoldable pub usage_key : String → String → String
usage_key name user_id = user_id ⊕ "\0" ⊕ name

pub record UsageRow : Type 0 where
  pub name : Value
  pub user_id : Value
  pub ip : Value
  pub location : Value
  pub count : ℕ
  pub first_at : Option Value
  pub at : Option Value

pub record UsageAccumulator : Type 0 where
  pub max_tracked : ℕ
  pub pending : Map UsageRow
  pub order : List String
  pub overflow : ℕ

-- `NewUsageAccumulator`
unfoldable pub new_usage_accumulator : ℕ → UsageAccumulator
new_usage_accumulator limit = record { max_tracked = limit; pending = []; order = []; overflow = 0 }

abbrev truthy_or : Value → Value → Value
truthy_or fallback v = if truthy v then v else fallback

module _ (p : Printer) where
  abbrev pub event_key : Fields → String
  event_key event =
      usage_key (usage_string p (get "name" event))
        (usage_string p (truthy_or (str "") (get "userId" event)))

  -- Both times are there, and the event's is later.
  abbrev is_newer : Option Value → Option Value → Bool
  is_newer (some new_at) (some old_at) = usage_later p new_at old_at
  is_newer _ _ = false

  -- A further call of a tracked row.
  unfoldable pub repeat_row : Fields → UsageRow → UsageRow
  unfolding find get truthy
  repeat_row event row =
      if is_newer (find "at" event) row.at
      then record row {
        count = row.count + 1;
        at = find "at" event;
        ip = truthy_or row.ip (get "ip" event);
        location = truthy_or row.location (get "location" event);
      }
      else record row { count = row.count + 1 }

  unfoldable pub first_row : Fields → UsageRow
  unfolding find get truthy
  first_row event = record {
    name = get "name" event;
    user_id = truthy_or (str "") (get "userId" event);
    ip = truthy_or (str "") (get "ip" event);
    location = truthy_or null (get "location" event);
    count = 1;
    first_at = find "at" event;
    at = find "at" event;
  }

  abbrev pub add_keyed :
      String → Fields → Option UsageRow → UsageAccumulator → UsageAccumulator × Bool
  add_keyed key event (some row) acc =
      (record acc { pending = insert key (repeat_row event row) acc.pending }, true)
  add_keyed key event none acc =
      if leb acc.max_tracked (length acc.pending)
      then (record acc { overflow = acc.overflow + 1 }, false)
      else (
        record acc {
          pending = insert key (first_row event) acc.pending;
          order = acc.order ++ key ∷ [];
        },
        true,
      )

  -- `Add`
  unfoldable pub add : Fields → UsageAccumulator → UsageAccumulator × Bool
  unfolding repeat_row first_row usage_key usage_string get truthy lookup insert
  add event acc =
      if truthy (get "name" event)
      then add_keyed (event_key event) event (lookup (event_key event) acc.pending) acc
      else (acc, false)

abbrev rows_of : Map UsageRow → List String → List (Option UsageRow)
rows_of pending [] = []
rows_of pending (key ∷ order) = lookup key pending ∷ rows_of pending order

-- `row["firstAt"]` of the first row, if there is one.
abbrev overflow_first : ℕ → List (Option UsageRow) → Option Value
overflow_first now [] = some (time now)
overflow_first now (none ∷ rest) = none
overflow_first now (some row ∷ rest) = row.first_at

abbrev overflow_row : ℕ → UsageAccumulator → List (Option UsageRow) → UsageRow
overflow_row now acc rows = record {
  name = str (unmatched ⊕ " (over " ⊕ decimal acc.max_tracked ⊕ " tracked)");
  user_id = str "";
  ip = str "";
  location = null;
  count = acc.overflow;
  first_at = overflow_first now rows;
  at = some (time now);
}

abbrev with_overflow : ℕ → UsageAccumulator → List (Option UsageRow) → List (Option UsageRow)
with_overflow now acc rows =
    if ltb 0 acc.overflow then rows ++ some (overflow_row now acc rows) ∷ [] else rows

-- `DrainAt`: the rows in order of insertion, and the emptied accumulator.
unfoldable pub drain_at : ℕ → UsageAccumulator → UsageAccumulator × List (Option UsageRow)
unfolding lookup decimal
drain_at now acc = (
  record acc { pending = []; order = []; overflow = 0 },
  with_overflow now acc (rows_of acc.pending acc.order),
)

abbrev optional : String → Option Value → Fields → Fields
optional key none rest = rest
optional key (some v) rest = field key v rest

unfoldable pub row_document : UsageRow → Fields
row_document row = field "name" row.name (
    field "userId" row.user_id (
      field "ip" row.ip (
        field "location" row.location (
          field "count" (int (pos row.count))
            (optional "firstAt" row.first_at (optional "at" row.at end))))))
