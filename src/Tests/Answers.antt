-- ===== src/Tests/Answers.antt =====
-- What is answered to the outside: addresses, users, boards, logins and usage.
use wekango.Base.{◌<◌, ◌⊎◌, eqb, true, false, List, [], ◌∷◌, ◌++◌, ◌≡◌, refl, arith, length, All}
use wekango.Base.Exec.{ok}
use wekango.Base.Map.{Map}
use wekango.Base.Int.{pos}
use wekango.Base.Text.{trim_js, split, split_from, join, words, equal_fold}
use wekango.Bson.{str, bool, Fields, fields, doc_of}
use wekango.Bson.Fetch.{find, get, put, remove, as_map}
use wekango.Clientip.{resolve, chain}
use wekango.Clientip.Laws.{IsAddress, resolve_trusted}
use wekango.Api.Throttle.{Attempt}
use wekango.Api.Service.{Request, object, Response, reply, Service}
use wekango.Api.Auth.{authenticate, login_disabled}
use wekango.Api.Access.{board_read_user, board_read_admin}
use wekango.Api.Boards.{visible_summaries}
use wekango.Api.Boards.Laws.{IsSummary, visible_summaries-IsSummary}
use wekango.Api.Users.{
  self_user, self_answer, admin_answer, user_read_memberships, user_by_id, memberships,
  first_member, user_read_strict_id,
}
use wekango.Api.Users.Laws.{Lacks, IsAdmin, self_user-Lacks, user_by_id-Lacks}
use wekango.Api.Credentials.{decode_body, credentials}
use wekango.Api.Login.{login_attempt, find_login_user, verify, issue, login}
use wekango.Api.Login.Laws.{SignedIn, login_attempt-SignedIn, throttled, IsRefused, login-IsRefused}
use wekango.Eventlog.Values.{Printer}
use wekango.Eventlog.Usage.{UsageAccumulator, new_usage_accumulator, add, drain_at}
use wekango.Eventlog.Usage.Totals.{
  add_all, named, row_total, IsConsistent, add-IsConsistent, drain_at-add_all,
}
use wekango.Tests.Fixture.{service, request, database, ada, clock, board_doc}

outer : IsAddress "10.0.0.2"
unfolding trim_js
outer = record {
  no_comma = (refl, (refl, (refl, (refl, (refl, (refl, (refl, (refl, tt))))))));
  trimmed = refl;
  filled = λ e. cc;
}

resolve_trusted_example :
    resolve (("1.2.3.4, 9.9.9.9" ∷ []) ++ "10.0.0.2" ∷ "10.0.0.2" ∷ []) "10.0.0.1:80" (pos 2)
    ≡ "10.0.0.2"
resolve_trusted_example =
    resolve_trusted "1.2.3.4, 9.9.9.9" [] ("10.0.0.2" ∷ []) "10.0.0.2" "10.0.0.1:80" outer
      (outer, tt)

short_chain : length (chain ("1.2.3.4" ∷ [])) < 2
unfolding chain split split_from join trim_js
short_chain = omega arith

visible_summaries-IsSummary_example :
    All (IsSummary (board_doc ∷ [])) (visible_summaries (board_doc ∷ []))
visible_summaries-IsSummary_example = visible_summaries-IsSummary (board_doc ∷ [])

abbrev report_of : List Fields
report_of = fields (("isActive", bool true) ∷ ("boardId", str "b1") ∷ []) ∷ []

abbrev signing_in : Request
signing_in = record request {
  method = "POST";
  path = "/users/login";
  first = object (fields (("username", str "ada") ∷ ("password", str "secret") ∷ []));
}

abbrev signed_in : Response
signed_in =
    reply 200
      (doc_of (("id", str "ada") ∷ ("token", str "token") ∷ ("tokenExpires", str "time") ∷ []))

signs_in : (login_attempt service signing_in clock).0 ≡ ok signed_in
unfolding login_attempt decode_body credentials find_login_user verify issue
signs_in = refl

login_attempt-SignedIn_example : SignedIn service signing_in clock
login_attempt-SignedIn_example = login_attempt-SignedIn service signing_in signed_in clock signs_in

abbrev account : Fields
account = fields (("_id", str "ada") ∷ ("services", doc_of []) ∷ [])

abbrev my_answer : Response
my_answer = self_answer service.format report_of account

answers_me : (self_user service request clock).0 ≡ ok my_answer
unfolding self_user board_read_user authenticate words equal_fold login_disabled
    user_read_memberships memberships first_member user_read_strict_id get put remove find as_map
answers_me = refl

self_user-Lacks_example : Lacks "services" my_answer
self_user-Lacks_example = self_user-Lacks service request my_answer clock answers_me

abbrev governed : Service
governed = record service { decode_user = λ d. ok (record ada { is_admin = true }) }

abbrev their_answer : Response
their_answer = admin_answer service.format report_of account

answers_admin : (user_by_id governed request clock).0 ≡ ok their_answer
unfolding user_by_id board_read_admin board_read_user authenticate words equal_fold login_disabled
    user_read_memberships memberships first_member user_read_strict_id get put remove find as_map
answers_admin = refl

user_by_id-Lacks_example :
    IsAdmin governed request clock
    × Lacks "services" their_answer
    × Lacks "sessionData" their_answer
user_by_id-Lacks_example = user_by_id-Lacks governed request their_answer clock answers_admin

printer : Printer
printer = record { sprint = λ v. "?"; floats = database.floats; unix_milli = λ t. pos t }

abbrev called : Fields
called = fields (("name", str "GET /api/boards") ∷ ("userId", str "ada") ∷ [])

abbrev events : List Fields
events = called ∷ fields [] ∷ called ∷ fields (("name", str "GET /api/users") ∷ []) ∷ []

drain_at-add_all_example :
    row_total (drain_at 7 (add_all printer events (new_usage_accumulator 1))).1 ≡ named events
drain_at-add_all_example = drain_at-add_all printer 1 7 events

abbrev empty_accumulator : UsageAccumulator
empty_accumulator = record { max_tracked = 1; pending = []; order = []; overflow = 0 }

empty-IsConsistent : IsConsistent empty_accumulator
empty-IsConsistent = record { ordered = refl; distinct = tt; bounded = omega arith }

add-IsConsistent_example : IsConsistent (add printer called empty_accumulator).0
add-IsConsistent_example = add-IsConsistent printer called empty_accumulator empty-IsConsistent

abbrev locked : Attempt
locked = record { failures = 2; since = 990; until = 1090; busy = false }

abbrev barred : Map Attempt
barred = ("10.0.0.1", locked) ∷ []

login-IsRefused_example :
    ((throttled service signing_in barred clock).1 ≡ true)
      × (eqb (login service signing_in barred clock).0.status 429 ≡ false)
    ⊎ ((throttled service signing_in barred clock).1 ≡ false)
      × IsRefused service
          (throttled service signing_in barred clock).0
          clock
          (login service signing_in barred clock)
login-IsRefused_example = login-IsRefused service signing_in barred clock
