-- ===== src/Eventlog/Reporter/Flush.antt =====
-- internal/eventlog/reporter.go: what a flush does with the rows that it drained. A panic in a fold
-- is recovered and discards the rest, as an error does, so a fold that panics is one that fails.
use wekango.Base.{
  ℕ, suc, String, List, [], ◌∷◌, ◌++◌, ◌==◌, Option, none, some, ◌≡◌, refl, ap, sym, ◌∙◌,
  if◌then◌else◌, map, take, not, ◌&&◌,
}
use wekango.Base.Int.{pos}
use wekango.Base.Map.{Map, lookup, insert}
use wekango.Base.Exec.{Result, ok, err, Exec}
use wekango.Bson.{Value, null, str, int, doc_of, arr, go_slice, of_items, Fields, end, fields}
use wekango.Bson.Fetch.{get, put, listed, as_str}
use wekango.Env.{Env, Error}
use wekango.Eventlog.Usage.{UsageRow, row_document}

-- The fields `fold` and `names` of a reporter, and `ctx.Err()` of the context of a flush.
pub record Sink : Type 1 where
  pub World : Type 0
  pub fold : Fields → Exec World Error Unit
  pub names : Option (List String → Exec World Error (Map String))
  pub context_error : World → Option Error

-- A row as the code reads it: a missing one is a nil map.
abbrev pub row_map : Option UsageRow → Fields
row_map none = end
row_map (some row) = row_document row

abbrev pub add_id : Option String → List String → List String
add_id none ids = ids
add_id (some id) ids = if not (id == "") && not (listed id ids) then ids ++ id ∷ [] else ids

-- The user ids of the rows, each once, in the order of their first rows.
unfoldable pub ids_from : List String → List (Option UsageRow) → List String
unfolding row_document get
ids_from ids [] = ids
ids_from ids (row ∷ rows) = ids_from (add_id (as_str (get "userId" (row_map row))) ids) rows

abbrev or_blank : Option String → String
or_blank none = ""
or_blank (some s) = s

abbrev with_location : Value → Fields → Fields
with_location null event = event
with_location location event = put "location" location event

unfoldable pub report_event : Map String → Option UsageRow → Fields
unfolding row_document get put lookup
report_event names row =
    let r = row_map row in
    with_location (get "location" r) (
      put "username" (str (or_blank (lookup (or_blank (as_str (get "userId" r))) names))) (
        fields (
          ("stream", str "api")
          ∷ ("api", get "name" r)
          ∷ ("apiUserId", get "userId" r)
          ∷ ("userId", get "userId" r)
          ∷ ("ip", get "ip" r)
          ∷ ("count", get "count" r)
          ∷ ("at", get "at" r)
          ∷ [])))

module _ (s : Sink) where
  abbrev after_fold : (s.World → s.World) → Result Error Unit × s.World → s.World
  after_fold rest (ok done, w) = rest w
  after_fold rest (err e, w) = w

  abbrev unless_done : (s.World → s.World) → Option Error → s.World → s.World
  unless_done go none w = go w
  unless_done go (some e) w = w

  -- The second loop of `flush`
  unfoldable pub report_rows : Map String → List (Option UsageRow) → s.World → s.World
  unfolding report_event
  report_rows names [] w = w
  report_rows names (row ∷ rows) w =
      unless_done (λ v. after_fold (report_rows names rows) (s.fold (report_event names row) v))
        (s.context_error w) w

  abbrev with_names : List (Option UsageRow) → Result Error (Map String) × s.World → s.World
  with_names rows (ok names, w) = report_rows names rows w
  with_names rows (err e, w) = w

  abbrev named_report :
      Option (List String → Exec s.World Error (Map String))
      → List (Option UsageRow)
      → s.World
      → s.World
  named_report none rows w = report_rows [] rows w
  named_report (some ask) [] w = w
  named_report (some ask) (row ∷ rows) w =
      with_names (row ∷ rows) (ask (ids_from [] (row ∷ rows)) w)

  -- `flush`, after the drain
  unfoldable pub report : List (Option UsageRow) → s.World → s.World
  unfolding report_rows ids_from
  report rows w = named_report s.names rows w

-- The struct that `cursor.Decode` fills: the identifier and the name.
abbrev pub Decoder : Type 0
Decoder = Fields → Result Error (String × String)

abbrev note_user : Map String → Result Error (String × String) → Result Error (Map String)
note_user out (err e) = err e
note_user out (ok (id, username)) = ok (insert id username out)

unfoldable pub users_from :
    Decoder → Map String → List (Result Error Fields) → Result Error (Map String)
unfolding insert
users_from decode out [] = ok out
users_from decode out (err e ∷ rest) = err e
users_from decode out (ok document ∷ rest) = elim (note_user out (decode document)) [
  | err e ↦ err e
  | ok longer ↦ users_from decode longer rest
]

abbrev read_users :
    {W : Type 0}
    → Decoder
    → Result Error (List (Result Error Fields))
    → W
    → Result Error (Map String) × W
read_users decode (err e) w = (err e, w)
read_users decode (ok documents) w = (users_from decode [] documents, w)

-- The function `names` of `NewDatabaseReporter`
unfoldable pub database_names :
    (env : Env) → Decoder → List String → Exec env.World Error (Map String)
unfolding users_from
database_names env decode [] w = (ok [], w)
database_names env decode (id ∷ ids) w =
    let (r, v) =
      env.cursor "users"
        (fields (("_id", doc_of (("$in", arr go_slice (of_items (map str (id ∷ ids)))) ∷ [])) ∷ []))
        (record { order = end; projection = fields (("username", int (pos 1)) ∷ []) }) w in
    read_users decode r v

-- The folds of events in order, whatever they answer.
pub fold_all : (s : Sink) → List Fields → s.World → s.World
fold_all s [] w = w
fold_all s (event ∷ events) w = fold_all s events (s.fold event w).1

-- A report leaves the world in the state that the folds of some first events leave, in order.
pub record IsPrefix (s : Sink) (events : List Fields) (w v : s.World) : Type 0 where
  pub count : ℕ
  pub outcome : v ≡ fold_all s (take count events) w

module _ (s : Sink) where
  stop_here : (events : List Fields) (w : s.World) → IsPrefix s events w w
  unfolding fold_all
  stop_here events w = record { count = 0; outcome = refl }

  after_fold-IsPrefix :
      (event : Fields) (events : List Fields) (go : s.World → s.World) (r : Result Error Unit)
      (w v : s.World)
      → (s.fold event w) ≡ (r, v)
      → ((u : s.World) → IsPrefix s events u (go u))
      → IsPrefix s (event ∷ events) w (after_fold s go (r, v))
  unfolding fold_all
  after_fold-IsPrefix event events go (ok done) w v ran later =
      let p = later v in
      record {
        count = suc p.count;
        outcome = p.outcome ∙ ap (λ q. fold_all s (take p.count events) q.1) (sym ran);
      }
  after_fold-IsPrefix event events go (err e) w v ran later = record {
    count = 1;
    outcome = ap (λ q. q.1) (sym ran);
  }

  unless_done-IsPrefix :
      (event : Fields) (events : List Fields) (go : s.World → s.World) (o : Option Error)
      (w : s.World)
      → ((u : s.World) → IsPrefix s events u (go u))
      → IsPrefix s (event ∷ events) w (unless_done s (λ v. after_fold s go (s.fold event v)) o w)
  unless_done-IsPrefix event events go (some e) w later = stop_here (event ∷ events) w
  unless_done-IsPrefix event events go none w later =
      after_fold-IsPrefix event events go (s.fold event w).0 w (s.fold event w).1 refl later

  -- A flush folds the events of its rows one after the other, in their order, each at most once: the
  -- first that fails, or the end of its time, leaves out all later ones and nothing else.
  pub report_rows-IsPrefix :
      (names : Map String) (rows : List (Option UsageRow)) (w : s.World)
      → IsPrefix s (map (report_event names) rows) w (report_rows s names rows w)
  unfolding report_rows
  report_rows-IsPrefix names [] w = stop_here [] w
  report_rows-IsPrefix names (row ∷ rows) w =
      unless_done-IsPrefix (report_event names row) (map (report_event names) rows)
        (report_rows s names rows) (s.context_error w) w (report_rows-IsPrefix names rows)
