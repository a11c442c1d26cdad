-- ===== src/Tests/Router.antt =====
-- Requests through the routes.
use wekango.Base.{ℕ, ◌+◌, true, false, [], ◌≡◌, refl, none, some, if◌then◌else◌}
use wekango.Base.Text.{words}
use wekango.Base.Exec.{err}
use wekango.Env.{Error}
use wekango.Eventlog.Reporter.{new_reporter}
use wekango.Eventlog.Geo.{float_prefix}
use wekango.Eventlog.Values.{Printer}
use wekango.Api.Service.{Request, text}
use wekango.Api.Auth.{authenticate, unauthorized}
use wekango.Api.Usage.{usage_route, is_api_request}
use wekango.Api.Router.{Site, Shared, serve, dispatch}
use wekango.Api.Router.Denied.{IsRefusal, dispatch-IsRefusal}
use wekango.Api.Router.Counted.{held, is_counted, held-serve}
use wekango.Tests.Fixture.{service, request, database, clock}

abbrev printer : Printer
printer = record { sprint = λ v. "?"; floats = database.floats; unix_milli = database.unix_milli }

abbrev site : Site
site = record {
  service = service;
  words = record {
    to_upper = λ s. s;
    to_lower = λ s. s;
    places = record { printer = printer; unescape = λ s. none; upper = λ s. s };
  };
  counts = true;
  select = λ patterns r. some r;
  unmatched = λ r. record { status = 404; headers = []; body = text "404 page not found\n" };
  http_error = λ message status. record { status = status; headers = []; body = text message };
}

abbrev stranger : Request
stranger = record request { authorization = ""; pattern = "GET /api/users" }

stranger_denied : (w : ℕ) → (e : Error) × ((authenticate service stranger w).0 ≡ err e)
unfolding authenticate words
stranger_denied w = (unauthorized, refl)

dispatch-IsRefusal_example : IsRefusal site stranger (dispatch site stranger [] clock).0
dispatch-IsRefusal_example = dispatch-IsRefusal site stranger stranger_denied [] clock refl

abbrev shared : Shared site
shared = record { attempts = []; reporter = new_reporter; world = clock }

new_open : shared.reporter.closed ≡ false
unfolding new_reporter
new_open = refl

held-serve_example :
    held site (serve site request shared).1
    ≡ held site shared + (if is_counted site request then 1 else 0)
held-serve_example = held-serve site request shared new_open

counted : is_counted site request ≡ true
unfolding is_api_request
counted = refl

-- A trailing slash is the same route, and the parameters have their public names.
public : usage_route "GET /api/users/{userID}/{$}" ≡ "/api/users/:userId"
unfolding usage_route
public = refl

number : float_prefix "-12.50e3km" ≡ "-12.50e3"
unfolding float_prefix
number = refl

half_number : float_prefix "7.e" ≡ "7."
unfolding float_prefix
half_number = refl
