-- ===== src/Api/Router.antt =====
-- `New` of internal/api/api.go with `registerBoardReads` and `registerUserReads`: the routes, and what
-- is done around each. A request is one step here, on the state that all share.
pub mod Denied
pub mod Counted
use wekango.Base.{
  ℕ, String, Bool, true, not, ◌&&◌, ◌||◌, List, [], ◌∷◌, ◌++◌, ◌==◌, Option, none, some,
  if◌then◌else◌,
}
use wekango.Base.Map.{Map, lookup, keys}
use wekango.Base.Affix.{strip_prefix, is_cut}
use wekango.Eventlog.Reporter.{Reporter, add_event}
use wekango.Api.Throttle.{Attempt}
use wekango.Api.Service.{Service, Request, Response, Handler, respond, empty}
use wekango.Api.Access.{board}
use wekango.Api.Boards.{public_boards, board_counts}
use wekango.Api.Lists.{board_lists, board_swimlanes}
use wekango.Api.Cards.{
  board_list, board_swimlane, list_cards, swimlane_cards, card_by_id, scoped_card,
}
use wekango.Api.Users.{self_user, users_list, user_by_id, user_boards}
use wekango.Api.Login.{login}
use wekango.Api.Logout.{logout}
use wekango.Api.Usage.{Words, is_api_request, usage_user_id, usage_event}

-- What `net/http` does: the choice among the registered patterns, which sets the pattern of the
-- request and its path values, the answer where none fits, and `http.Error`. `counts` tells
-- whether there is a usage reporter.
pub record Site : Type 1 where
  pub service : Service
  pub words : Words
  pub counts : Bool
  pub select : List String → Request → Option Request
  pub unmatched : Request → Response
  pub http_error : String → ℕ → Response

module _ (s : Service) where
  -- `registerBoardReads`, `registerUserReads` and the board route of `New`
  abbrev pub read_routes : Map (Request → Handler s Response)
  read_routes =
      ("GET /api/users/{userID}/boards", user_boards s)
      ∷ ("GET /api/boards", public_boards s)
      ∷ ("GET /api/boards_count", board_counts s)
      ∷ ("GET /api/boards/{boardID}/lists", board_lists s)
      ∷ ("GET /api/boards/{boardID}/lists/{listID}", board_list s)
      ∷ ("GET /api/boards/{boardID}/swimlanes", board_swimlanes s)
      ∷ ("GET /api/boards/{boardID}/swimlanes/{swimlaneID}", board_swimlane s)
      ∷ ("GET /api/boards/{boardID}/lists/{listID}/cards", list_cards s)
      ∷ ("GET /api/boards/{boardID}/swimlanes/{swimlaneID}/cards", swimlane_cards s)
      ∷ ("GET /api/cards/{cardID}", card_by_id s)
      ∷ ("GET /api/boards/{boardID}/lists/{listID}/cards/{cardID}", scoped_card s)
      ∷ ("GET /api/user", self_user s)
      ∷ ("GET /api/users", users_list s)
      ∷ ("GET /api/users/{userID}", user_by_id s)
      ∷ ("GET /api/user/{$}", self_user s)
      ∷ ("GET /api/users/{$}", users_list s)
      ∷ ("GET /api/users/{userID}/{$}", user_by_id s)
      ∷ ("GET /api/boards/{boardID}", board s)
      ∷ []

  -- The answers that need the throttle, or nothing.
  abbrev pub account_patterns : List String
  account_patterns =
      "POST /users/login" ∷ "POST /users/logout" ∷ "OPTIONS /users/login" ∷ "OPTIONS /users/logout"
      ∷ []

  abbrev pub patterns : List String
  patterns = keys read_routes ++ account_patterns

abbrev pub allowed : Response
allowed = record { status = 200; headers = []; body = empty }

module _ (site : Site) where
  abbrev s : Service
  s = site.service

  pub record Shared : Type 0 where
    pub attempts : Map Attempt
    pub reporter : Reporter
    pub world : s.World

  abbrev pub read_with :
      Option (Request → Handler s Response) → Request → s.World → Response × s.World
  read_with none r w = (site.unmatched r, w)
  read_with (some handler) r w = respond s (handler r) w

  abbrev quietly : Map Attempt → Response × s.World → Response × Map Attempt × s.World
  quietly attempts (response, w) = (response, attempts, w)

  -- `mux.ServeHTTP`, after the choice of a pattern.
  unfoldable pub dispatch : Request → Map Attempt → s.World → Response × Map Attempt × s.World
  unfolding login logout user_boards public_boards board_counts board_lists board_list
      board_swimlanes board_swimlane list_cards swimlane_cards card_by_id scoped_card self_user
      users_list user_by_id board lookup
  dispatch r attempts w =
      if r.pattern == "POST /users/login"
      then login s r attempts w
      else if r.pattern == "POST /users/logout"
      then quietly attempts (respond s (logout s r) w)
      else if r.pattern == "OPTIONS /users/login" || r.pattern == "OPTIONS /users/logout"
      then (allowed, attempts, w)
      else quietly attempts (read_with (lookup r.pattern (read_routes s)) r w)

  abbrev routed :
      Option Request → Request → Map Attempt → s.World → Response × Map Attempt × s.World
  routed none r attempts w = (site.unmatched r, attempts, w)
  routed (some chosen) r attempts w = dispatch chosen attempts w

  abbrev pattern_of : Option Request → Request → Request
  pattern_of none r = record r { pattern = "" }
  pattern_of (some chosen) r = chosen

  abbrev no_store : Response → Response
  no_store answer = record answer {
    headers = ("Cache-Control", "no-store") ∷ ("Pragma", "no-cache") ∷ answer.headers;
  }

  abbrev with_answer : Shared → Response × Map Attempt × s.World → Response × Shared
  with_answer shared (answer, attempts, w) =
      (no_store answer, record shared { attempts = attempts; world = w })

  -- `recordUsage`
  unfoldable pub record_usage : Request → String → Shared → Shared
  unfolding usage_event add_event
  record_usage r user_id shared =
      let (now, w) = s.now shared.world in
      record shared {
        reporter =
            add_event site.words.places.printer (usage_event s site.words r user_id now)
              shared.reporter;
        world = w;
      }

  abbrev after_record : Request → String → Response × Shared → Response × Shared
  after_record r user_id (answer, shared) = (answer, record_usage r user_id shared)

  abbrev plain : Request → Shared → Response × Shared
  plain r shared =
      with_answer shared (routed (site.select (patterns s) r) r shared.attempts shared.world)

  abbrev counted : Request → Shared → Response × Shared
  counted r shared =
      let (user_id, w) = usage_user_id s r shared.world in
      after_record (pattern_of (site.select (patterns s) r) r) user_id
        (plain r (record shared { world = w }))

  abbrev is_disabled : Request → Bool
  is_disabled r = is_cut (strip_prefix "/api" r.path) && not s.with_api

  -- The handler that `New` returns
  unfoldable pub serve : Request → Shared → Response × Shared
  unfolding dispatch record_usage usage_user_id is_api_request strip_prefix
  serve r shared =
      if is_disabled r
      then (
        no_store
            (site.http_error "WeKan API is disabled. Set WITH_API=true and restart WeKan." 403),
        shared,
      )
      else if site.counts && is_api_request r.uri
      then counted r shared
      else plain r shared
