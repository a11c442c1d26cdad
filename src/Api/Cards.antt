-- ===== src/Api/Cards.antt =====
-- The handlers of internal/api/board_reads.go that answer one list or swimlane, and those for cards.
use wekango.Base.{String, false, Option, none, some, List, [], ◌∷◌, map}
use wekango.Base.Exec.{pure, or_else, ◌>>=◌, ◌>>◌}
use wekango.Bson.{bool, str, obj, doc_m, end, fields}
use wekango.Bson.Fetch.{get, as_str, board_read_fields}
use wekango.Bson.Json.{json_document}
use wekango.Env.{Error, no_documents, failure as other_error}
use wekango.Api.Service.{Service, Request, Response, Handler, reply, empty}
use wekango.Api.Errors.{board_read_internal, board_read_legacy_error, board_read_card_error}
use wekango.Api.Boards.{sorted, array_of}
use wekango.Api.Access.{board_read_access, by_id}

module _ (s : Service) where
  abbrev pub nothing : Response
  nothing = record { status = 200; headers = []; body = empty }

  abbrev child_error : Error → Response
  child_error no_documents = nothing
  child_error (other_error message) = board_read_legacy_error board_read_internal

  -- `boardReadChild`: a missing child is an empty 200.
  unfoldable pub board_read_child : String → String → Request → Handler s Response
  unfolding board_read_access json_document
  board_read_child coll key r = do
    let bid = r.path_value "boardID"
    or_else board_read_legacy_error (board_read_access s r bid)
    d ← or_else child_error (
        s.find_one coll
          (fields (
            ("_id", str (r.path_value key)) ∷ ("boardId", str bid) ∷ ("archived", bool false) ∷ []))
          end)
    pure (reply 200 (json_document s.format (obj doc_m d)))

  unfoldable pub board_list : Request → Handler s Response
  unfolding board_read_child
  board_list r = board_read_child "lists" "listID" r

  unfoldable pub board_swimlane : Request → Handler s Response
  unfolding board_read_child
  board_swimlane r = board_read_child "swimlanes" "swimlaneID" r

  abbrev card_keys : String → List String
  card_keys other =
      "_id" ∷ "title" ∷ "description" ∷ other ∷ "receivedAt" ∷ "startAt" ∷ "dueAt" ∷ "endAt"
      ∷ "assignees" ∷ "sort" ∷ []

  abbrev card_internal : Error → Response
  card_internal e = board_read_card_error board_read_internal

  -- `boardReadCards`
  unfoldable pub board_read_cards : String → String → String → Request → Handler s Response
  unfolding board_read_access board_read_card_error board_read_fields json_document
  board_read_cards scope path_key other r = do
    let bid = r.path_value "boardID"
    or_else board_read_card_error (board_read_access s r bid)
    docs ← or_else card_internal (
        s.find "cards"
          (fields (
            ("boardId", str bid)
            ∷ (scope, str (r.path_value path_key))
            ∷ ("archived", bool false)
            ∷ []))
          sorted)
    pure (
        reply 200 (
          json_document s.format
            (array_of (map (λ d. board_read_fields d (card_keys other)) docs))))

  unfoldable pub list_cards : Request → Handler s Response
  unfolding board_read_cards
  list_cards r = board_read_cards "listId" "listID" "swimlaneId" r

  unfoldable pub swimlane_cards : Request → Handler s Response
  unfolding board_read_cards
  swimlane_cards r = board_read_cards "swimlaneId" "swimlaneID" "listId" r

  abbrev pub card_error : Error → Response
  card_error no_documents = reply 404 (obj doc_m (fields (("error", str "Card not found") ∷ [])))
  card_error (other_error message) = board_read_card_error board_read_internal

  abbrev str_or_empty : Option String → String
  str_or_empty none = ""
  str_or_empty (some t) = t

  unfoldable pub card_by_id : Request → Handler s Response
  unfolding board_read_access board_read_card_error get json_document
  card_by_id r = do
    d ← or_else card_error (s.find_one "cards" (by_id (r.path_value "cardID")) end)
    or_else board_read_card_error (board_read_access s r (str_or_empty (as_str (get "boardId" d))))
    pure (reply 200 (json_document s.format (obj doc_m d)))

  abbrev scoped_error : Error → Response
  scoped_error no_documents = nothing
  scoped_error (other_error message) = board_read_card_error board_read_internal

  unfoldable pub scoped_card : Request → Handler s Response
  unfolding board_read_access board_read_card_error json_document
  scoped_card r = do
    let bid = r.path_value "boardID"
    or_else board_read_card_error (board_read_access s r bid)
    d ← or_else scoped_error (
        s.find_one "cards"
          (fields (
            ("_id", str (r.path_value "cardID"))
            ∷ ("boardId", str bid)
            ∷ ("listId", str (r.path_value "listID"))
            ∷ ("archived", bool false)
            ∷ []))
          end)
    pure (reply 200 (json_document s.format (obj doc_m d)))
