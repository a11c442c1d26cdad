-- ===== src/Api/Router/Denied.antt =====
-- internal/api: what a request gets that authenticates as no account.
use wekango.Base.{
  String, Bool, false, ◌||◌, ◌==◌, ◌≡◌, refl, sym, Option, none, some, Bool-cases, inl, inr,
}
use mathlib.Core.Path.{subst}
use wekango.Base.Map.{Map, lookup, AllValues, lookup-AllValues}
use wekango.Base.Exec.{
  Result, err, Exec, or_else, pure, ◌>>=◌, or_else-eq-err, >>=-eq-err, >>=_ends, or_else-err_inv,
}
use wekango.Bson.{end}
use wekango.Env.{Error}
use wekango.Api.Throttle.{Attempt}
use wekango.Api.Service.{Service, Request, Response, Handler, answer, failure}
use wekango.Api.Errors.{
  BoardReadError, board_read_unauthorized, board_read_public_error, board_read_legacy_error,
  board_read_card_error,
}
use wekango.Api.Auth.{authenticate}
use wekango.Api.Access.{board_read_user, board_read_access, board_read_admin, board, by_id}
use wekango.Api.Boards.{public_boards, board_counts}
use wekango.Api.Lists.{board_lists, board_swimlanes}
use wekango.Api.Cards.{
  board_read_child, board_list, board_swimlane, board_read_cards, list_cards, swimlane_cards,
  card_by_id, scoped_card, card_error,
}
use wekango.Api.Users.{self_user, users_list, user_by_id, user_boards}
use wekango.Api.Router.{Site, dispatch, read_routes, read_with}

infixr 20 ◌&◌
abbrev ◌&◌ : {A B : Type 0} → A → B → A × B
x & y = (x, y)

-- An answer that no document of the database is part of: the refusals of the handlers, and the
-- answers to a card that is not found, for which `cardByID` looks before it authenticates.
pub data IsRefusal (site : Site) (r : Request) : Response → Type 0 where
  public_refusal : IsRefusal site r (board_read_public_error board_read_unauthorized)
  legacy_refusal : IsRefusal site r (board_read_legacy_error board_read_unauthorized)
  card_refusal : IsRefusal site r (board_read_card_error board_read_unauthorized)
  board_refusal : IsRefusal site r (failure 401 "Unauthorized" "Unauthorized")
  card_failure : (e : Error) → IsRefusal site r (card_error site.service e)
  no_route : IsRefusal site r (site.unmatched r)

module _ (site : Site) (r : Request)
    (denied : (w : site.service.World)
      → (e : Error) × ((authenticate site.service r w).0 ≡ err e)) where
  abbrev s : Service
  s = site.service

  user_denied : (w : s.World) → (board_read_user s r w).0 ≡ err board_read_unauthorized
  unfolding board_read_user
  user_denied w =
      >>=-eq-err (or_else (λ e. board_read_unauthorized) (authenticate s r)) (λ found. pure found.0)
        w (or_else-eq-err (λ e. board_read_unauthorized) (authenticate s r) w (denied w).1)

  access_denied :
      (id : String) (w : s.World) → (board_read_access s r id w).0 ≡ err board_read_unauthorized
  unfolding board_read_access
  access_denied id w = >>=-eq-err (board_read_user s r) _ w (user_denied w)

  admin_denied :
      (w : s.World)
      → (board_read_admin s r w).0 ≡ err (board_read_public_error board_read_unauthorized)
  unfolding board_read_admin
  admin_denied w =
      >>=-eq-err (or_else board_read_public_error (board_read_user s r)) _ w
        (or_else-eq-err board_read_public_error (board_read_user s r) w (user_denied w))

  abbrev IsRefused : Result Response Response → Type 0
  IsRefused result = IsRefusal site r (answer result)

  -- A handler whose first step is denied.
  stops :
      {A : Type 0} (m : Exec s.World Response A) (f : A → Handler s Response) (w : s.World)
      {e : Response}
      → (m w).0 ≡ err e
      → IsRefusal site r e
      → IsRefused ((m >>= f) w).0
  stops m f w h refusal = rw (>>=-eq-err m f w h) refusal

  stops_at :
      (to_response : BoardReadError → Response) (id : String) (f : Unit → Handler s Response)
      (w : s.World)
      → IsRefusal site r (to_response board_read_unauthorized)
      → IsRefused ((or_else to_response (board_read_access s r id) >>= f) w).0
  stops_at to_response id f w refusal =
      stops (or_else to_response (board_read_access s r id)) f w
        (or_else-eq-err to_response (board_read_access s r id) w (access_denied id w)) refusal

  abbrev IsClosed : (Request → Handler s Response) → Type 0
  IsClosed handler = (w : s.World) → IsRefused (handler r w).0

  public_boards-IsClosed : IsClosed (public_boards s)
  unfolding public_boards
  public_boards-IsClosed w = stops (board_read_admin s r) _ w (admin_denied w) public_refusal

  board_counts-IsClosed : IsClosed (board_counts s)
  unfolding board_counts
  board_counts-IsClosed w = stops (board_read_admin s r) _ w (admin_denied w) public_refusal

  users_list-IsClosed : IsClosed (users_list s)
  unfolding users_list
  users_list-IsClosed w = stops (board_read_admin s r) _ w (admin_denied w) public_refusal

  user_by_id-IsClosed : IsClosed (user_by_id s)
  unfolding user_by_id
  user_by_id-IsClosed w = stops (board_read_admin s r) _ w (admin_denied w) public_refusal

  board_lists-IsClosed : IsClosed (board_lists s)
  unfolding board_lists
  board_lists-IsClosed w =
      stops_at board_read_legacy_error (r.path_value "boardID") _ w legacy_refusal

  board_swimlanes-IsClosed : IsClosed (board_swimlanes s)
  unfolding board_swimlanes
  board_swimlanes-IsClosed w =
      stops_at board_read_legacy_error (r.path_value "boardID") _ w legacy_refusal

  board_read_child-IsClosed : (coll key : String) → IsClosed (board_read_child s coll key)
  unfolding board_read_child
  board_read_child-IsClosed coll key w =
      stops_at board_read_legacy_error (r.path_value "boardID") _ w legacy_refusal

  board_read_cards-IsClosed :
      (scope key other : String) → IsClosed (board_read_cards s scope key other)
  unfolding board_read_cards
  board_read_cards-IsClosed scope key other w =
      stops_at board_read_card_error (r.path_value "boardID") _ w card_refusal

  scoped_card-IsClosed : IsClosed (scoped_card s)
  unfolding scoped_card
  scoped_card-IsClosed w = stops_at board_read_card_error (r.path_value "boardID") _ w card_refusal

  card_by_id-IsClosed : IsClosed (card_by_id s)
  unfolding card_by_id
  card_by_id-IsClosed w =
      >>=_ends IsRefused
        (or_else (card_error s) (s.find_one "cards" (by_id (r.path_value "cardID")) end)) _ w
        (λ e h.
          let (d, same) =
            or_else-err_inv (card_error s) (s.find_one "cards" (by_id (r.path_value "cardID")) end)
              w h in
          subst (λ x. IsRefusal site r x) (sym same) (card_failure d))
        (λ d v. stops_at board_read_card_error _ _ v card_refusal)

  user_boards-IsClosed : IsClosed (user_boards s)
  unfolding user_boards
  user_boards-IsClosed w =
      stops (or_else board_read_public_error (board_read_user s r)) _ w
        (or_else-eq-err board_read_public_error (board_read_user s r) w (user_denied w))
        public_refusal

  self_user-IsClosed : IsClosed (self_user s)
  unfolding self_user
  self_user-IsClosed w =
      stops (or_else board_read_public_error (board_read_user s r)) _ w
        (or_else-eq-err board_read_public_error (board_read_user s r) w (user_denied w))
        public_refusal

  board-IsClosed : IsClosed (board s)
  unfolding board
  board-IsClosed w =
      stops (or_else (λ e. failure 401 "Unauthorized" "Unauthorized") (authenticate s r)) _ w
        (or_else-eq-err (λ e. failure 401 "Unauthorized" "Unauthorized") (authenticate s r) w
          (denied w).1)
        board_refusal

  routes-AreClosed : AllValues IsClosed (read_routes s)
  unfolding board_list board_swimlane list_cards swimlane_cards
  routes-AreClosed =
      user_boards-IsClosed
      & public_boards-IsClosed
      & board_counts-IsClosed
      & board_lists-IsClosed
      & board_read_child-IsClosed "lists" "listID"
      & board_swimlanes-IsClosed
      & board_read_child-IsClosed "swimlanes" "swimlaneID"
      & board_read_cards-IsClosed "listId" "listID" "swimlaneId"
      & board_read_cards-IsClosed "swimlaneId" "swimlaneID" "listId"
      & card_by_id-IsClosed
      & scoped_card-IsClosed
      & self_user-IsClosed
      & users_list-IsClosed
      & user_by_id-IsClosed
      & self_user-IsClosed
      & users_list-IsClosed
      & user_by_id-IsClosed
      & board-IsClosed
      & tt

  read_with-IsRefusal :
      (o : Option (Request → Handler s Response)) (w : s.World)
      → lookup r.pattern (read_routes s) ≡ o
      → IsRefusal site r (read_with site o r w).0
  read_with-IsRefusal none w found = no_route
  read_with-IsRefusal (some handler) w found =
      lookup-AllValues IsClosed r.pattern (read_routes s) routes-AreClosed found w

  -- The routes of login, logout and their preflights.
  abbrev pub is_account_route : Bool
  is_account_route =
      r.pattern == "POST /users/login"
      || r.pattern == "POST /users/logout"
      || r.pattern == "OPTIONS /users/login"
      || r.pattern == "OPTIONS /users/logout"

  -- Where a request authenticates as no account, whatever the database answers, every route but those
  -- of login and logout, and also the lack of a route, gives an answer that no document is part of.
  pub dispatch-IsRefusal :
      (attempts : Map Attempt) (w : s.World)
      → is_account_route ≡ false
      → IsRefusal site r (dispatch site r attempts w).0
  unfolding dispatch
  dispatch-IsRefusal attempts w other = elim (Bool-cases (r.pattern == "POST /users/login")) [
    | inl login_route ↦ cc (rw login_route at other)
    | inr a ↦ elim (Bool-cases (r.pattern == "POST /users/logout")) [
      | inl logout_route ↦ cc (rw (a, logout_route) at other)
      | inr b ↦
          let c : (r.pattern == "OPTIONS /users/login" || r.pattern == "OPTIONS /users/logout")
              ≡ false =
            rw (a, b) at other in
          rw (a, b, c) (read_with-IsRefusal (lookup r.pattern (read_routes s)) w refl)
    ]
  ]
