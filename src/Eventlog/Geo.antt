-- ===== src/Eventlog/Geo.antt =====
-- internal/eventlog/geo.go: the location that a proxy's headers claim, and its labels.
use Prim.Native.Char.{Char, code}
use wekango.Base.{
  ℕ, ◌-◌, ◌/◌, ◌%◌, ◌^◌, String, Bool, true, false, not, ◌&&◌, ◌||◌, List, [], ◌∷◌, ◌==◌, Option,
  none, some, eqb, if◌then◌else◌,
}
use wekango.Base.Text.{◌⊕◌, within, trim_js, contains_code}
use wekango.Bson.{Value, int, double, str, Fields, fields}
use wekango.Bson.Truth.{truthy}
use wekango.Bson.Fetch.{get, put, as_str}
use wekango.Random.{letter_at}
use wekango.Eventlog.Values.{Printer, usage_string}

-- `url.PathUnescape` with its check of UTF-8, none where either fails, and the upper case of
-- golang.org/x/text.
pub record Places : Type 0 where
  pub printer : Printer
  pub unescape : String → Option String
  pub upper : String → String

pub record GeoSource : Type 0 where
  pub country : String
  pub city : String
  pub region : String
  pub lat : String
  pub lon : String
  pub via : String

abbrev source : String → String → String → String → String → String → GeoSource
source country city region lat lon via = record {
  country = country;
  city = city;
  region = region;
  lat = lat;
  lon = lon;
  via = via;
}

abbrev pub geo_sources : List GeoSource
geo_sources =
    source "cf-ipcountry" "cf-ipcity" "cf-region" "cf-iplatitude" "cf-iplongitude" "Cloudflare"
    ∷ source "fastly-client-country-code" "fastly-client-city" "fastly-client-region"
        "fastly-client-lat" "fastly-client-lon" "Fastly"
    ∷ source "cloudfront-viewer-country" "cloudfront-viewer-city"
        "cloudfront-viewer-country-region-name" "cloudfront-viewer-latitude"
        "cloudfront-viewer-longitude" "CloudFront"
    ∷ source "x-vercel-ip-country" "x-vercel-ip-city" "x-vercel-ip-country-region"
        "x-vercel-ip-latitude" "x-vercel-ip-longitude" "Vercel"
    ∷ source "x-client-geo-country" "x-client-geo-city" "x-client-geo-region" "" "" "Google Cloud"
    ∷ source "x-geoip-country" "x-geoip-city" "x-geoip-region" "x-geoip-latitude"
        "x-geoip-longitude" "proxy"
    ∷ []

-- The longest run of digits, and the rest.
abbrev with_digit : Char → String × String → String × String
with_digit c (run, rest) = (String.◌∷◌ c run, rest)

unfoldable pub digits : String → String × String
digits String.[] = ("", "")
digits (String.◌∷◌ c s) =
    let more = digits s in
    if within b'0' b'9' (code c) then with_digit c more else ("", String.◌∷◌ c s)

abbrev sign : String → String × String
sign String.[] = ("", "")
sign (String.◌∷◌ c s) =
    if eqb (code c) b'+' || eqb (code c) b'-' then (String.◌∷◌ c "", s) else ("", String.◌∷◌ c s)

-- `\.[0-9]*`, and the rest; nothing where no point follows.
abbrev fraction : String → String × String
fraction String.[] = ("", "")
fraction (String.◌∷◌ c s) =
    if eqb (code c) b'.' then with_digit c (digits s) else ("", String.◌∷◌ c s)

-- The digits with their point: none where there is no digit.
abbrev mantissa_of : String → String × String → Option (String × String)
mantissa_of whole (point, rest) =
    if whole == "" && (point == "" || point == ".") then none else some (whole ⊕ point, rest)

abbrev mantissa : String × String → Option (String × String)
mantissa (whole, rest) = mantissa_of whole (fraction rest)

abbrev exponent_of : Char → String × String → String
exponent_of c (mark, rest) =
    let run = (digits rest).0 in if run == "" then "" else String.◌∷◌ c (mark ⊕ run)

abbrev exponent : String → String
exponent String.[] = ""
exponent (String.◌∷◌ c s) =
    if eqb (code c) b'e' || eqb (code c) b'E' then exponent_of c (sign s) else ""

abbrev number_from : String → Option (String × String) → String
number_from mark none = ""
number_from mark (some (number, rest)) = mark ⊕ number ⊕ exponent rest

-- `geoFloatPrefix`: the prefix that it finds, empty for none.
unfoldable pub float_prefix : String → String
unfolding digits
float_prefix s = let (mark, rest) = sign s in number_from mark (mantissa (digits rest))

abbrev is_finite : ℕ → Bool
is_finite x = not (eqb (x / 2 ^ 52 % 2 ^ 11) 2047)

abbrev finite : Option ℕ → Option ℕ
finite none = none
finite (some x) = if is_finite x then some x else none

abbrev put_text : String → String → Fields → Fields
put_text key value location = if value == "" then location else put key (str value) location

abbrev put_coordinates : Option ℕ → Option ℕ → Fields → Fields
put_coordinates (some lat) (some lon) location =
    put "longitude" (double lon) (put "latitude" (double lat) location)
put_coordinates _ _ location = location

module _ (p : Places) where
  abbrev unescaped : String → Option String → String
  unescaped s none = s
  unescaped s (some t) = t

  abbrev decode_text : String → String
  decode_text s = if contains_code b'%' s then unescaped s (p.unescape s) else s

  abbrev decode : Option String → String
  decode none = ""
  decode (some s) = decode_text (trim_js s)

  -- `geoDecode`
  unfoldable pub geo_decode : Value → String
  unfolding trim_js contains_code
  geo_decode v = decode (as_str v)

  abbrev parsed : String → Option ℕ
  parsed prefix = if prefix == "" then none else finite (p.printer.floats.parse prefix)

  -- `geoNumber`
  unfoldable pub geo_number : Value → Option ℕ
  unfolding float_prefix usage_string trim_js
  geo_number v = parsed (float_prefix (trim_js (usage_string p.printer v)))

  abbrev coordinate : String → Fields → Option ℕ
  coordinate header headers = if header == "" then none else geo_number (get header headers)

  abbrev located : GeoSource → String → String → String → Fields → Fields
  located s country city region headers =
      put_coordinates (coordinate s.lat headers) (coordinate s.lon headers) (
        put_text "region" region
          (put_text "city" city (put_text "country" country (fields (("via", str s.via) ∷ [])))))

  abbrev is_vague : String → String → String → Bool
  is_vague country city region =
      city == "" && region == "" && (country == "" || country == "XX" || country == "T1")

  unfoldable pub location_from : List GeoSource → Fields → Option Fields
  unfolding geo_decode geo_number get put
  location_from [] headers = none
  location_from (s ∷ sources) headers =
      let country = geo_decode (get s.country headers) in
      let city = geo_decode (get s.city headers) in
      let region = geo_decode (get s.region headers) in
      let later = location_from sources headers in
      if is_vague country city region then later else some (located s country city region headers)

  -- `LocationFromHeaders`
  unfoldable pub location_from_headers : Fields → Option Fields
  unfolding location_from
  location_from_headers headers = location_from geo_sources headers

  abbrev beside : Value → Value → String
  beside place country =
      if truthy country
      then usage_string p.printer place ⊕ ", " ⊕ usage_string p.printer country
      else usage_string p.printer place

  unfoldable pub location_label : Fields → String
  unfolding usage_string truthy get
  location_label location =
      let country = get "country" location in
      if truthy (get "city" location)
      then beside (get "city" location) country
      else if truthy (get "region" location)
      then beside (get "region" location) country
      else if truthy country
      then usage_string p.printer country
      else ""

  -- The twenty-six regional indicators.
  abbrev indicators : String
  indicators = "🇦🇧🇨🇩🇪🇫🇬🇭🇮🇯🇰🇱🇲🇳🇴🇵🇶🇷🇸🇹🇺🇻🇼🇽🇾🇿"

  abbrev indicator : Char → String
  indicator c = letter_at (code c - b'A') indicators

  abbrev flag_of : String → String
  flag_of (String.◌∷◌ c (String.◌∷◌ d String.[])) =
      if within b'A' b'Z' (code c)
        && within b'A' b'Z' (code d)
        && not (eqb (code c) b'X' && eqb (code d) b'X')
      then indicator c ⊕ indicator d
      else ""
  flag_of _ = ""

  unfoldable pub country_flag : Value → String
  unfolding usage_string trim_js truthy letter_at
  country_flag v = if truthy v then flag_of (p.upper (trim_js (usage_string p.printer v))) else ""

  unfoldable pub place_of : List String → Fields → String
  unfolding usage_string truthy get
  place_of [] location = ""
  place_of (key ∷ keys) location =
      let later = place_of keys location in
      if truthy (get key location) then usage_string p.printer (get key location) else later

  unfoldable pub office_label : Fields → Fields
  unfolding country_flag place_of get
  office_label location = fields (
      ("flag", str (country_flag (get "country" location)))
      ∷ ("text", str (place_of ("city" ∷ "region" ∷ "country" ∷ []) location))
      ∷ [])

abbrev geo_is_number : Value → Bool
geo_is_number (int n) = true
geo_is_number (double x) = true
geo_is_number _ = false

unfoldable pub has_coordinates : Fields → Bool
unfolding get
has_coordinates location =
    geo_is_number (get "latitude" location) && geo_is_number (get "longitude" location)
