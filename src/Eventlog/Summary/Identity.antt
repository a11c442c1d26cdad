-- ===== src/Eventlog/Summary/Identity.antt =====
-- internal/eventlog/summary.go: the filter that finds the row of an event, and the row that an upsert
-- inserts when there is none.
use wekango.Base.{Option, none, some}
use wekango.Bson.{Value, Fields}
use wekango.Bson.Fetch.{get, map_of}

abbrev or_before : Option Value → Option Value → Option Value
or_before none before = before
or_before (some v) before = some v

-- What the update gives to a row only when it inserts it.
abbrev pub inserted_by : Fields → Fields
inserted_by update = map_of (get "$setOnInsert" update)
