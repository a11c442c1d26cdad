-- ===== src/Tests/Fixture.antt =====
-- A service over a scripted database: two users, one board, and a clock that stands at `clock`.
use wekango.Base.{ℕ, ◌+◌, ◌-◌, ltb, String, true, false, none, [], ◌∷◌, ◌==◌, if◌then◌else◌}
use wekango.Base.Int.{ℤ, pos, negsuc}
use wekango.Base.Exec.{Result, ok, err}
use wekango.Bson.{Value, bool, str, Fields, end, fields, doc_of, arr_of, null}
use wekango.Env.{Env, Error, no_documents}
use wekango.Api.Throttle.{Limits}
use wekango.Api.Service.{Service, Request, User, eof}

abbrev pub clock : ℕ
clock = 1000

abbrev pub ada : User
ada = record {
  id = "ada";
  is_admin = false;
  disabled = null;
  method = "password";
  bcrypt = "stored";
  argon2 = "";
  tokens = record { hash = "hash"; when = 900 } ∷ [];
  security_block = null;
  email = none;
  two_factor = none;
  other = end;
}

abbrev pub member : Value
member = doc_of (("userId", str "ada") ∷ ("isActive", bool true) ∷ [])

abbrev pub board_doc : Fields
board_doc = fields (
    ("_id", str "b1")
    ∷ ("title", str "Plan")
    ∷ ("type", str "board")
    ∷ ("members", arr_of (member ∷ []))
    ∷ [])

abbrev script : String → Result Error Fields
script collection =
    if collection == "users"
    then ok (fields (("_id", str "ada") ∷ ("services", doc_of []) ∷ []))
    else if collection == "boards"
    then ok board_doc
    else err no_documents

abbrev int_bits : ℤ → ℕ
int_bits (pos n) = n
int_bits (negsuc n) = 0

abbrev pub database : Env
database = record {
  World = ℕ;
  find_one = λ c f p w. (script c, w);
  find = λ c f o w. (ok (board_doc ∷ []), w);
  cursor = λ c f o w. (ok (ok board_doc ∷ []), w);
  count_documents = λ c f w. (ok 1, w);
  distinct = λ c k f w. (ok [], w);
  update_one = λ c f u b w. (ok (record { matched = 1; modified = 1 }), w);
  update_many = λ c f u w. (ok (record { matched = 2; modified = 2 }), w);
  insert_one = λ c d w. (ok tt, w);
  insert_many = λ c d w. (ok tt, w);
  delete_one = λ c f w. (ok tt, w);
  now = λ w. (clock, w);
  random = λ n w. (ok (7 ∷ []), w);
  sha256 = λ t. [];
  base64_std = λ bytes. "hash";
  base64_raw_url = λ bytes. "token";
  hex = λ bytes. "hex";
  bcrypt_matches = λ stored given. true;
  floats = record {
    of_int = int_bits;
    to_int = λ x. pos x;
    add = λ x y. x + y;
    sub = λ x y. x - y;
    less = ltb;
    floor = λ x. x;
    parse = λ t. none;
  };
  unix_milli = λ t. pos t;
  parse_date = λ t. none;
}

abbrev pub limits : Limits
limits = record { expiration = 500; max_failures = 2; window = 60; lockout = 100 }

abbrev pub service : Service
service = record {
  env = database;
  format = record { of_date = λ ms. "date"; of_time = λ t. "time" };
  decode_user = λ d. ok ada;
  limits = limits;
  with_api = true;
  trusted_header = true;
  forwarded_count = 0;
  dummy = "dummy";
}

abbrev pub request : Request
request = record {
  method = "GET";
  path = "/api/boards/b1";
  uri = "/api/boards/b1";
  pattern = "GET /api/boards/{boardID}";
  authorization = "Bearer token";
  access_token = "";
  content_type = "";
  path_value = λ key. "b1";
  form = none;
  first = eof;
  second = eof;
  ingress_ip = "10.0.0.1";
  forwarded_for = [];
  remote = "10.0.0.1:5000";
  headers = [];
}
