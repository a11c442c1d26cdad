-- ===== src/Api/Lists.antt =====
-- `boardLists` and `boardSwimlanes` of internal/api/board_reads.go.
use wekango.Base.{
  ℕ, ◌%◌, ◌*◌, ◌^◌, String, false, ◌||◌, Option, none, some, List, [], ◌∷◌, map, ◌==◌, eqb,
  if◌then◌else◌,
}
use wekango.Base.Exec.{pure, or_else, ◌>>=◌, ◌>>◌}
use wekango.Base.Int.{ℤ, pos}
use wekango.Base.Map.{Map, lookup, insert}
use wekango.Bson.{Value, null, bool, int, double, str, date, time, Fields, end, fields}
use wekango.Bson.Truth.{truthy, double_is_nan}
use wekango.Bson.Fetch.{get, put, as_str, board_read_fields}
use wekango.Bson.Json.{json_document}
use wekango.Env.{Error, FindOptions}
use wekango.Api.Service.{Service, Request, Response, Handler, reply}
use wekango.Api.Errors.{board_read_internal, board_read_legacy_error}
use wekango.Api.Boards.{no_options, array_of}
use wekango.Api.Access.{board_read_access}

module _ (s : Service) where
  abbrev float_of : Option ℤ → Option ℕ
  float_of none = none
  float_of (some n) = some (s.of_int n)

  -- `boardReadDate`: the time of a value in milliseconds, as a float.
  unfoldable pub board_read_date : Value → Option ℕ
  board_read_date (date ms) = some (s.of_int ms)
  board_read_date (time t) = some (s.of_int (s.unix_milli t))
  board_read_date (int n) = some (s.of_int n)
  board_read_date (double x) =
      if double_is_nan x || eqb (x % 2 ^ 63) (2047 * 2 ^ 52) then none else some x
  board_read_date (str t) = float_of (s.parse_date t)
  board_read_date _ = none

  abbrev keep_newer : String → ℕ → Option ℕ → Map ℕ → Map ℕ
  keep_newer id t none newest = insert id t newest
  keep_newer id t (some previous) newest = if s.less previous t then insert id t newest else newest

  abbrev pub newer : String → Option ℕ → Map ℕ → Map ℕ
  newer id none newest = newest
  newer id (some t) newest = keep_newer id t (lookup id newest) newest

  abbrev note_card : Option String → Fields → Map ℕ → Map ℕ
  note_card none card newest = newest
  note_card (some id) card newest =
      if id == ""
      then newest
      else newer id (board_read_date (get "dateLastActivity" card))
          (newer id (board_read_date (get "modifiedAt" card)) newest)

  -- The loop that fills `newest`, by list.
  unfoldable pub newest_from : List Fields → Map ℕ → Map ℕ
  unfolding board_read_date get lookup insert
  newest_from [] newest = newest
  newest_from (card ∷ rest) newest =
      newest_from rest (note_card (as_str (get "listId" card)) card newest)

  abbrev modified_value : Option ℕ → Value
  modified_value none = null
  modified_value (some t) =
      if s.less (s.of_int (pos 8640000000000000)) (t % 2 ^ 63) then null else date (s.to_int t)

  abbrev cards_modified : Option String → Map ℕ → Value
  cards_modified none newest = null
  cards_modified (some id) newest = modified_value (lookup id newest)

  -- The document that `boardLists` answers for a list.
  unfoldable pub list_entry : Map ℕ → Fields → Fields
  unfolding truthy get put board_read_fields lookup
  list_entry newest l = put "cardsModifiedAt" (cards_modified (as_str (get "_id" l)) newest) (
      put "modifiedAt" (if truthy (get "modifiedAt" l) then get "modifiedAt" l else null)
        (board_read_fields l ("_id" ∷ "title" ∷ [])))

  abbrev pub open_in : String → Fields
  open_in bid = fields (("boardId", str bid) ∷ ("archived", bool false) ∷ [])

  abbrev legacy_internal : Error → Response
  legacy_internal e = board_read_legacy_error board_read_internal

  abbrev card_dates : FindOptions
  card_dates = record {
    order = end;
    projection = fields (
        ("listId", int (pos 1))
        ∷ ("modifiedAt", int (pos 1))
        ∷ ("dateLastActivity", int (pos 1))
        ∷ []);
  }

  unfoldable pub board_lists : Request → Handler s Response
  unfolding board_read_access newest_from list_entry json_document
  board_lists r = do
    let bid = r.path_value "boardID"
    or_else board_read_legacy_error (board_read_access s r bid)
    lists ← or_else legacy_internal (s.find "lists" (open_in bid) no_options)
    cards ← or_else legacy_internal (s.find "cards" (fields (("boardId", str bid) ∷ [])) card_dates)
    let newest = newest_from cards []
    pure (reply 200 (json_document s.format (array_of (map (list_entry newest) lists))))

  unfoldable pub board_swimlanes : Request → Handler s Response
  unfolding board_read_access board_read_fields json_document
  board_swimlanes r = do
    let bid = r.path_value "boardID"
    or_else board_read_legacy_error (board_read_access s r bid)
    docs ← or_else legacy_internal (s.find "swimlanes" (open_in bid) no_options)
    pure (
        reply 200 (
          json_document s.format
            (array_of (map (λ d. board_read_fields d ("_id" ∷ "title" ∷ [])) docs))))
