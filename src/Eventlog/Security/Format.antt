-- ===== src/Eventlog/Security/Format.antt =====
-- internal/eventlog/security_format.go: the detail of a security event as it is stored.
pub mod Tidy
use Prim.Native.Char.{char, code}
use Prim.Native.String
use wekango.Base.{ℕ, ◌-◌, String, Bool, true, false, ◌||◌, leb, ltb, eqb, if◌then◌else◌}
use wekango.Base.Text.{◌⊕◌, is_js_space}
use wekango.Base.Units.{units, take_units}
use wekango.Bson.{Value}
use wekango.Bson.Truth.{summary_null}
use wekango.Eventlog.Summary.{Formats, summary_string}

abbrev pub max_security_detail : ℕ
max_security_detail = 500

-- A control character, or a text of one character that `geoTrim` empties.
unfoldable pub is_gap : ℕ → Bool
unfolding is_js_space
is_gap r = leb r 0x1f || eqb r 0x7f || is_js_space r

-- `out.WriteByte(' ')` if one is due
abbrev pub write_blank : Bool → String → String
write_blank true s = String.◌∷◌ (char b' ' tt) s
write_blank false s = s

-- The loop, from a state in which something was written, and in which a blank is due.
unfoldable pub clean_from : Bool → Bool → String → String
unfolding is_gap
clean_from started space String.[] = ""
clean_from started space (String.◌∷◌ c s) =
    let skipped = clean_from started started s in
    let kept = clean_from true false s in
    if is_gap (code c) then skipped else write_blank space (String.◌∷◌ c kept)

abbrev pub clean : String → String
clean s = clean_from false false s

abbrev pub shorten : String → String
shorten s =
    if ltb max_security_detail (units s) then take_units (max_security_detail - 1) s ⊕ "…" else s

-- `SanitizeSecurityDetail`
unfoldable pub sanitize_security_detail : Formats → Value → String
unfolding summary_null summary_string clean_from units take_units
sanitize_security_detail f v = if summary_null v then "" else shorten (clean (summary_string f v))
