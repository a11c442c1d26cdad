-- ===== src/Api/Router/Counted.antt =====
-- internal/api: each call of the API is counted once, whatever its answer.

use wekango.Base.{
  ℕ, ◌+◌, String, Bool, true, false, not, ◌&&◌, ◌==◌, ◌≡◌, refl, sym, ap, ◌∙◌, arith, Option, none,
  some, if◌then◌else◌, if-false, Bool-cases, inl, inr, eq_iff,
}
use text.Mathlib.TextLemmas.{append-eq-nil_iff, cons-append, cons-ne-nil}
use wekango.Base.Text.{◌⊕◌}
use wekango.Bson.{obj, doc_m, Fields}
use wekango.Bson.Truth.{truthy}
use wekango.Bson.Fetch.{find, get, find-put}
use wekango.Eventlog.Values.{Printer}
use wekango.Eventlog.Usage.Totals.{total, add-total}
use wekango.Eventlog.Geo.{location_from_headers}
use wekango.Eventlog.Reporter.{Reporter, add_event}
use wekango.Api.Service.{Service, Request}
use wekango.Api.Usage.{Words, usage_event, usage_user_id, is_api_request, lowered, put_location}
use wekango.Api.Router.{Site, Shared, plain, record_usage, is_disabled, serve, patterns, pattern_of}

blank_between : (a b : String) → ((a ⊕ " " ⊕ b) == "") ≡ false
blank_between a b = elim (Bool-cases ((a ⊕ " " ⊕ b) == "")) [
  | inl same ↦
      let parts = (append-eq-nil_iff {p = a} {q = " " ⊕ b}).0 ((eq_iff (a ⊕ " " ⊕ b) "").0 same) in
      absurd (cons-ne-nil _ _ (sym (cons-append _ String.[] b) ∙ parts.1))
  | inr differ ↦ differ
]

find-put_location :
    (o : Option Fields) (event : Fields) → find "name" (put_location o event) ≡ find "name" event
find-put_location none event = refl
find-put_location (some location) event = find-put "location" "name" (obj doc_m location) event

-- A usage event has a name.
usage_event_named :
    (s : Service) (ws : Words) (r : Request) (user_id : String) (now : ℕ)
    → truthy (get "name" (usage_event s ws r user_id now)) ≡ true
unfolding usage_event get truthy find
usage_event_named s ws r user_id now =
    rw (find-put_location (location_from_headers ws.places (lowered ws r.headers)))
      (ap not (blank_between _ _))

-- The calls that the reporter holds, which `Close` or a flush of its worker has yet to report.
abbrev pub held : (site : Site) → Shared site → ℕ
held site shared = total shared.reporter.pending

total-add_event :
    (p : Printer) (event : Fields) (r : Reporter)
    → r.closed ≡ false
    → truthy (get "name" event) ≡ true
    → total (add_event p event r).pending ≡ total r.pending + 1
unfolding add_event
total-add_event p event r on named =
    ap (λ (u : Reporter). total u.pending) (if-false r.closed _ _ on)
    ∙ add-total p event r.pending
    ∙ rw named refl

-- Whether the request is one that a reporter counts.
abbrev pub is_counted : Site → Request → Bool
is_counted site r = not (is_disabled site r) && site.counts && is_api_request r.uri

module _ (site : Site) where
  held-record_usage :
      (r : Request) (user_id : String) (shared : Shared site)
      → shared.reporter.closed ≡ false
      → held site (record_usage site r user_id shared) ≡ held site shared + 1
  unfolding record_usage
  held-record_usage r user_id shared on =
      let now = (site.service.now shared.world).0 in
      total-add_event site.words.places.printer (usage_event site.service site.words r user_id now)
        shared.reporter on (usage_event_named site.service site.words r user_id now)

  -- While the reporter is open, a request adds one to the calls that it holds if the API is enabled
  -- for it and its address is one of the API, whatever its route, its account and its answer; every
  -- other request adds none.
  pub held-serve :
      (r : Request) (shared : Shared site)
      → shared.reporter.closed ≡ false
      → held site (serve site r shared).1 ≡ held site shared + (if is_counted site r then 1 else 0)
  unfolding serve
  held-serve r shared on = elim (Bool-cases (is_disabled site r)) [
    | inl off ↦ rw off (omega arith)
    | inr open_api ↦ elim (Bool-cases (site.counts && is_api_request r.uri)) [
      | inl counting ↦
          rw (open_api, counting)
            (let (user_id, w) = usage_user_id site.service r shared.world in
              let chosen = site.select (patterns site.service) r in
              held-record_usage (pattern_of site chosen r) user_id
                (plain site r (record shared { world = w })).1 on)
      | inr quiet ↦ rw (open_api, quiet) (omega arith)
    ]
  ]
