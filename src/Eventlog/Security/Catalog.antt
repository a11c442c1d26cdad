-- ===== src/Eventlog/Security/Catalog.antt =====
-- internal/eventlog/security_catalog.go: the kinds of security events.
use wekango.Base.{String, [], ◌∷◌, Option, none, some}
use wekango.Base.Map.{Map, lookup}
use wekango.Bson.{str, Fields, fields}

-- `securityCategoryEntry`
pub record SecurityCategoryEntry : Type 0 where
  pub category : String
  pub bleed : String
  pub severity : String
  pub cwe : String

abbrev entry : String → String → String → String → String → String × SecurityCategoryEntry
entry key category bleed severity cwe =
    (key, record { category = category; bleed = bleed; severity = severity; cwe = cwe })

-- `securityCategories`
unfoldable pub security_categories : Map SecurityCategoryEntry
security_categories =
    entry "ssrf.redirect" "ssrf" "RedirectBleed" "high" "CWE-918"
    ∷ entry "ssrf.attachment" "ssrf" "LiveBleed" "high" "CWE-918"
    ∷ entry "ssrf.fetch" "ssrf" "DnsBleed" "high" "CWE-918"
    ∷ entry "ssrf.webhook" "ssrf" "IntegrationBleed" "high" "CWE-918"
    ∷ entry "xss.source" "xss" "SourceBleed" "high" "CWE-79"
    ∷ entry "xss.mime" "xss" "MimeBleed" "high" "CWE-79"
    ∷ entry "xss.input" "xss" "InputBleed" "medium" "CWE-79"
    ∷ entry "spoofing.xff" "spoofing" "MetricsBleed" "medium" "CWE-290"
    ∷ entry "authz.export" "authz" "ImpersonateBleed" "high" "CWE-863"
    ∷ entry "authn.import" "authn" "ImportBleed" "critical" "CWE-306"
    ∷ entry "authn.miniprofile" "authn" "MiniProfileBleed" "medium" "CWE-306"
    ∷ entry "authz.board" "authz" "BoardBleed" "high" "CWE-863"
    ∷ entry "authz.position-history" "authz" "PositionHistoryBleed" "high" "CWE-639"
    ∷ entry "auth-race.cas" "auth-race" "CasBleed" "high" "CWE-362"
    ∷ entry "authn.cas-link" "authn" "CasBleed" "medium" "CWE-287"
    ∷ entry "auth-race.oidc" "auth-race" "OIDCBleed" "high" "CWE-362"
    ∷ entry "brute.invite" "brute-force" "InviteBleed" "high" "CWE-307"
    ∷ entry "brute.login" "brute-force" "BruteBleed" "medium" "CWE-307"
    ∷ entry "brute.account-recovery" "brute-force" "ResetBleed" "high" "CWE-307"
    ∷ entry "brute.lockout" "brute-force" "JamBleed" "high" "CWE-307"
    ∷ entry "injection.shell" "injection" "ScannerBleed" "high" "CWE-78"
    ∷ entry "file.mime" "file" "MimeBleed" "high" "CWE-434"
    ∷ entry "file.name" "file" "FileBleed" "medium" "CWE-73"
    ∷ entry "file.sanitize" "file" "FileBleed" "info" "CWE-73"
    ∷ entry "file.content" "file" "FileBleed" "medium" "CWE-79"
    ∷ entry "file.malware" "file" "MalwareBleed" "high" "CWE-509"
    ∷ entry "file.size" "file" "SpaceBleed" "low" "CWE-400"
    ∷ entry "file.disk" "file" "FloppyBleed" "low" "CWE-400"
    ∷ entry "file.avatar-url" "ssrf" "RedirectBleed" "high" "CWE-918"
    ∷ entry "file.policy" "file" "PolicyBleed" "info" ""
    ∷ entry "authz.canary" "authz" "CanaryBleed" "medium" "CWE-863"
    ∷ entry "authz.checklist" "authz" "ChecklistBleed" "high" "CWE-863"
    ∷ entry "authz.comment" "authz" "CommentBleed" "medium" "CWE-639"
    ∷ entry "authz.file-path" "authz" "PathBleed" "high" "CWE-22"
    ∷ entry "authz.parent" "authz" "ParentBleed" "high" "CWE-862"
    ∷ entry "authz.share" "authz" "RevokeBleed" "high" "CWE-863"
    ∷ entry "authz.readonly" "authz" "ReadOnlyBleed" "medium" "CWE-863"
    ∷ entry "authz.calendar" "authz" "CalendarBleed" "medium" "CWE-863"
    ∷ entry "authz.assigned" "authz" "AssignedBleed" "medium" "CWE-863"
    ∷ entry "authz.tenant" "authz" "TenantBleed" "medium" "CWE-862"
    ∷ entry "authz.search-session" "authz" "SessionBleed" "medium" "CWE-639"
    ∷ entry "authz.database" "authz" "DatabaseBleed" "high" "CWE-863"
    ∷ entry "authz.swimlane-create" "authz" "SwimlaneBleed" "medium" "CWE-862"
    ∷ entry "authz.rule-destination" "authz" "RuleBleed" "high" "CWE-862"
    ∷ entry "authz.card-delete" "authz" "PurgeBleed" "critical" "CWE-639"
    ∷ entry "authz.card-member" "authz" "GuestBleed" "high" "CWE-639"
    ∷ entry "authz.board-list" "authz" "StaleBleed" "medium" "CWE-863"
    ∷ entry "spoofing.author" "spoofing" "AuthorBleed" "medium" "CWE-345"
    ∷ entry "authz.register" "authz" "SignupBleed" "critical" "CWE-862"
    ∷ entry "authn.authentication-method" "authn" "MembershipBleed" "high" "CWE-200"
    ∷ entry "injection.nosql" "injection" "SelectorBleed" "high" "CWE-943"
    ∷ entry "injection.sql" "injection" "EscapeBleed" "critical" "CWE-89"
    ∷ entry "integrity.history" "integrity" "HistoryIntegrity" "critical" "CWE-345"
    ∷ entry "integrity.file" "integrity" "StorageBleed" "high" "CWE-353"
    ∷ []

-- What stands for a key that is not in the catalog.
abbrev pub or_unknown : Option SecurityCategoryEntry → SecurityCategoryEntry
or_unknown none = record { category = "unknown"; bleed = "Generic"; severity = "info"; cwe = "" }
or_unknown (some e) = e

abbrev pub entry_fields : SecurityCategoryEntry → Fields
entry_fields e = fields (
    ("category", str e.category)
    ∷ ("bleed", str e.bleed)
    ∷ ("severity", str e.severity)
    ∷ ("cwe", str e.cwe)
    ∷ [])

-- `SecurityCategory`
unfoldable pub security_category : String → Fields
unfolding lookup security_categories
security_category key = entry_fields (or_unknown (lookup key security_categories))
