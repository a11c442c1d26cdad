-- ===== src/Tests/Guard.antt =====
-- Security events as they are stored.
use wekango.Base.{String, true, not, ◌&&◌, [], ◌∷◌, ◌==◌, ◌≡◌, refl, some}
use wekango.Bson.{null, str, Fields, fields}
use wekango.Bson.Truth.{summary_truthy}
use wekango.Bson.Fetch.{get, is_str}
use wekango.Eventlog.Summary.{summary_string}
use wekango.Eventlog.Numbers.{Numbers, radix_from}
use wekango.Eventlog.Security.{should_block_security_account, is_severe}
use wekango.Eventlog.Security.Format.{sanitize_security_detail, clean, clean_from}
use wekango.Eventlog.Security.Format.Tidy.{IsStorable, sanitize_security_detail-IsStorable}
use wekango.Eventlog.Security.Document.{
  SecurityContext, security_document, security_fields, account_of,
}
use wekango.Eventlog.Security.Document.Decision.{should_block-security_document}
use wekango.Eventlog.Security.Reporter.{
  SecurityReporter, new_security_reporter, record_event, start, next, recorded, closing, IsJoined,
  SecurityReach-IsJoined,
}
use wekango.Tests.Fixture.{database}
use wekango.Tests.Summary.{formats}

abbrev numbers : Numbers
numbers = record {
  printer = record {
    sprint = λ v. "?";
    floats = database.floats;
    unix_milli = database.unix_milli;
  };
  of_big = λ k. k;
}

abbrev ragged : String
ragged = " \ttwo \n\n words  "

cleaned : clean ragged ≡ "two words"
unfolding clean_from
cleaned = refl

sanitize_security_detail-IsStorable_example :
    IsStorable formats (sanitize_security_detail formats (str ragged))
sanitize_security_detail-IsStorable_example =
    sanitize_security_detail-IsStorable formats (str ragged)

abbrev attack : Fields
attack = fields (("action", str "blocked") ∷ ("key", str "injection.sql") ∷ [])

abbrev actor : SecurityContext
actor = record { user_id = "eve"; ip = "10.0.0.9"; location = null }

should_block-security_document_example :
    should_block_security_account formats (security_document formats numbers attack actor 7) ≡ (
      summary_truthy (account_of formats numbers (security_fields formats numbers attack actor))
      && not (
          summary_string formats
            (account_of formats numbers (security_fields formats numbers attack actor))
          == "")
      && is_str (get "action" (security_fields formats numbers attack actor)) "blocked"
      && is_severe (get "severity" (security_fields formats numbers attack actor)))
should_block-security_document_example =
    should_block-security_document formats numbers attack actor 7

abbrev told : SecurityReporter
told = record_event formats numbers attack actor 7 new_security_reporter

SecurityReach-IsJoined_example : IsJoined (record told { closed = true })
SecurityReach-IsJoined_example =
    SecurityReach-IsJoined formats numbers (record told { closed = true })
      (next (next start (recorded attack actor 7 new_security_reporter)) (closing told))

octal : radix_from 8 "17" 0 ≡ some 15
unfolding radix_from
octal = refl
