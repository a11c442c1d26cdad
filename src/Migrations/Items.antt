-- ===== src/Migrations/Items.antt =====
-- internal/migrations/fields.go: `fieldString` and `fieldNumber`, and the repairs that move the items of
-- a checklist and the board of a custom field. A cursor is the list of what it gives; a run that
-- fails returns no counts here.
pub mod Resume
use wekango.Base.{
  ℕ, ◌+◌, String, Bool, true, false, List, [], ◌∷◌, ◌==◌, Option, none, some, length, if◌then◌else◌,
}
use wekango.Base.Text.{◌⊕◌, trim_space, join}
use wekango.Base.Int.{pos}
use wekango.Base.Exec.{Result, ok, err, Exec, pure, fail, lift, ◌>>=◌, ◌>>◌}
use wekango.Bson.{
  Value, null, bool, int, double, str, time, oid, nil_obj, nil_arr, arr, obj, Items, nil, cons,
  Fields, end, fields, doc_of, arr_of,
}
use wekango.Bson.Truth.{truthy}
use wekango.Bson.Fetch.{find, get, map_of, elements, listed}
use wekango.Env.{Error, FindOptions}
use wekango.Migrations.Runner.{Counts}
use wekango.Migrations.Fields.{field_exists}
use wekango.Random.{field_random_id}
use wekango.Migrations.Structure.{Tools, W, slice_stable, drawn, or_nan, nan}

abbrev text_of_bool : Bool → String
text_of_bool true = "true"
text_of_bool false = "false"

abbrev title_or : Value → Value
title_or title = if truthy title then title else str "Checklist"

abbrev card_or : Value → Value
card_or card = if truthy card then card else str ""

abbrev filled : Fields
filled = fields (("items.0", doc_of (("$exists", bool true) ∷ [])) ∷ [])

abbrev with_board : Fields
with_board = fields (("boardId", doc_of (("$exists", bool true) ∷ [])) ∷ [])

abbrev whole : FindOptions
whole = record { order = end; projection = end }

module _ (t : Tools) where
  unfoldable mutual
    unfolding join

    pub field_string : Value → String
    field_string null = "null"
    field_string (str s) = s
    field_string (oid hex) = hex
    field_string (obj k d) = "[object Object]"
    field_string (nil_obj k) = "[object Object]"
    field_string (arr k vs) = join "," (field_strings vs)
    field_string (nil_arr k) = ""
    field_string v = t.sprint v

    -- The elements, with nothing for a nil.
    pub field_strings : Items → List String
    field_strings nil = []
    field_strings (cons null vs) = "" ∷ field_strings vs
    field_strings (cons v vs) = field_string v ∷ field_strings vs

  abbrev number_of : Value → ℕ
  number_of (int n) = t.env.of_int n
  number_of (double x) = x
  number_of (bool b) = t.env.of_int (pos 1)
  number_of (str s) = if trim_space s == "" then 0 else or_nan t (t.env.parse (trim_space s))
  number_of _ = nan t

  unfoldable pub field_number : Value → ℕ
  unfolding truthy trim_space
  field_number v = if truthy v then number_of v else 0

  abbrev string_or : Option Value → String
  string_or none = "undefined"
  string_or (some v) = field_string v

  unfoldable pub field_item_key : Fields → String
  unfolding field_string find get truthy
  field_item_key d =
      string_or (find "title" d)
      ⊕ "\0"
      ⊕ string_or (find "sort" d)
      ⊕ "\0"
      ⊕ text_of_bool (truthy (get "isFinished" d))

  -- `RunCustomFieldsBoardIDs`, the update of one field
  abbrev boards_update : Fields → List Value → Fields
  boards_update doc [] = fields (
      ("$unset", doc_of (("boardId", str "") ∷ []))
      ∷ ("$set", doc_of (("boardIds", arr_of (str (field_string (get "boardId" doc)) ∷ [])) ∷ []))
      ∷ [])
  boards_update doc (v ∷ vs) = fields (("$unset", doc_of (("boardId", str "") ∷ [])) ∷ [])

  abbrev of_document : Fields → Fields
  of_document doc = fields (("_id", get "_id" doc) ∷ [])

  unfoldable pub move_boards : ℕ → List (Result Error Fields) → Exec (W t) Error Counts
  unfolding field_string get
  move_boards fixed [] = pure (record { fixed = fixed; unresolved = 0 })
  move_boards fixed (err e ∷ rest) = fail e
  move_boards fixed (ok doc ∷ rest) =
      t.env.update_one "customFields" (of_document doc)
        (boards_update doc (elements (get "boardIds" doc))) false
      >> move_boards (fixed + 1) rest

  unfoldable pub run_custom_fields_board_ids : Exec (W t) Error Counts
  unfolding move_boards
  run_custom_fields_board_ids = do
    docs ← t.env.cursor "customFields" with_board whole
    move_boards 0 docs

  unfoldable pub check_checklist_items_embedded : Exec (W t) Error Bool
  unfolding field_exists
  check_checklist_items_embedded = field_exists t.env "checklists" filled

  -- `RunChecklistItemsEmbedded`: the order of the items, and the keys of those that exist.
  unfoldable pub sorts_before : Value → Value → Bool
  unfolding field_number map_of get
  sorts_before a b =
      t.env.less
        (t.env.sub (field_number (get "sort" (map_of a))) (field_number (get "sort" (map_of b)))) 0

  unfoldable pub keys_from : List String → List (Result Error Fields) → Result Error (List String)
  unfolding field_item_key
  keys_from seen [] = ok seen
  keys_from seen (err e ∷ rest) = err e
  keys_from seen (ok item ∷ rest) = keys_from (field_item_key item ∷ seen) rest

  abbrev pub item_doc : ℕ → Fields → String → ℕ → Fields → Fields
  item_doc now checklist id i item = fields (
      ("_id", str id)
      ∷ ("title", title_or (get "title" item))
      ∷ ("sort", int (pos i))
      ∷ ("isFinished", bool (truthy (get "isFinished" item)))
      ∷ ("checklistId", str (field_string (get "_id" checklist)))
      ∷ ("cardId", str (field_string (card_or (get "cardId" checklist))))
      ∷ ("createdAt", time now)
      ∷ ("modifiedAt", time now)
      ∷ [])

  abbrev pub add_new : List String → Fields → List Fields → List Fields
  add_new seen doc docs = if listed (field_item_key doc) seen then docs else doc ∷ docs

  abbrev next_id : Exec (W t) Error String
  next_id w = let (r, v) = field_random_id t.env t.rounds w in (drawn t r, v)

  -- The documents of the items from a position on that do not exist yet.
  unfoldable pub item_docs :
      ℕ → Fields → List String → ℕ → List Value → Exec (W t) Error (List Fields)
  unfolding field_item_key field_string field_random_id map_of get truthy
  item_docs now checklist seen i [] = pure []
  item_docs now checklist seen i (raw ∷ items) = do
    id ← next_id
    docs ← item_docs now checklist seen (i + 1) items
    pure (add_new seen (item_doc now checklist id i (map_of raw)) docs)

  abbrev insert_docs : List Fields → Exec (W t) Error Unit
  insert_docs [] = pure tt
  insert_docs (doc ∷ docs) = t.env.insert_many "checklistItems" (doc ∷ docs)

  abbrev key_fields : FindOptions
  key_fields = record {
    order = end;
    projection =
        fields (("title", int (pos 1)) ∷ ("sort", int (pos 1)) ∷ ("isFinished", int (pos 1)) ∷ []);
  }

  -- One checklist, with what it adds to `Fixed`.
  unfoldable pub move_items : ℕ → Fields → Exec (W t) Error ℕ
  unfolding item_docs keys_from sorts_before slice_stable field_string get
  move_items now checklist = do
    rows ←
        t.env.cursor "checklistItems"
          (fields (("checklistId", str (field_string (get "_id" checklist))) ∷ [])) key_fields
    seen ← lift (keys_from [] rows)
    docs ←
        item_docs now checklist seen 0
          (slice_stable sorts_before (elements (get "items" checklist)))
    insert_docs docs
    t.env.update_one "checklists" (of_document checklist)
        (fields (("$unset", doc_of (("items", int (pos 1)) ∷ [])) ∷ [])) false
    pure (length docs)

  unfoldable pub move_checklists : ℕ → ℕ → List (Result Error Fields) → Exec (W t) Error Counts
  unfolding move_items
  move_checklists now fixed [] = pure (record { fixed = fixed; unresolved = 0 })
  move_checklists now fixed (err e ∷ rest) = fail e
  move_checklists now fixed (ok checklist ∷ rest) =
      move_items now checklist >>= λ n. move_checklists now (fixed + n) rest

  abbrev read_clock : Exec (W t) Error ℕ
  read_clock w = let (now, v) = t.env.now w in (ok now, v)

  unfoldable pub run_checklist_items_embedded : Exec (W t) Error Counts
  unfolding move_checklists
  run_checklist_items_embedded = do
    now ← read_clock
    checklists ← t.env.cursor "checklists" filled whole
    move_checklists now 0 checklists
