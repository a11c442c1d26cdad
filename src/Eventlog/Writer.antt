-- ===== src/Eventlog/Writer.antt =====
-- internal/eventlog/writer.go: the writer that folds an event into its row of the collection eventlog.
-- The gate lets one fold run at a time, so a fold is one step on the writer and the world.
pub mod Cap
pub mod Cache
pub mod Once
use Prim.Native.String
use wekango.Base.{
  ℕ, ◌+◌, ◌*◌, String, Bool, true, not, ◌&&◌, [], ◌∷◌, ◌==◌, Option, none, some, ltb, leb, eqb,
  length, if◌then◌else◌,
}
use wekango.Base.Int.{ℤ, pos}
use wekango.Base.Map.{Map, lookup, insert, delete}
use wekango.Base.Units.{take_units}
use wekango.Base.Affix.{strip_prefix, strip_suffix, is_cut, trim_prefix, trim_suffix}
use wekango.Base.Exec.{Result, ok, err, Exec}
use wekango.Bson.{Value, int, str, date, time, obj, doc_m, Fields, end, field, fields}
use wekango.Bson.Truth.{writer_truthy}
use wekango.Bson.Fetch.{find, get, put, put_all, remove, map_of}
use wekango.Env.{Env, Error, no_documents, failure, wrap}
use wekango.Random.{event_id}
use wekango.Eventlog.Summary.{Formats, classify_address}
use wekango.Eventlog.Summary.Updates.{ActorChanges, actor_update, summary_identity, summary_update}

abbrev collection : String
collection = "eventlog"

abbrev pub max_cached_rows : ℕ
max_cached_rows = 500

abbrev pub username_cache_max : ℕ
username_cache_max = 1000

-- `usernameCacheTTL`, in nanoseconds
abbrev username_cache_ttl : ℕ
username_cache_ttl = 60 * 1000000000

pub record UsernameEntry : Type 0 where
  pub username : String
  pub at : ℕ

-- `Writer`. A map of known actors is shared by the cache and the fold that fills it: the fold writes
-- it back.
pub record Writer : Type 0 where
  pub known_actors : Map (Map Bool)
  pub usernames : Map UsernameEntry

-- What a writer calls, and the rounds that the identifier of a row may take.
pub record WriterEnv : Type 1 where
  pub env : Env
  pub formats : Formats
  -- `ctx.Err()`
  pub context_error : env.World → Option Error
  -- `DateTime.Time()`
  pub of_unix_milli : ℤ → ℕ
  -- `json.Marshal` of a `bson.M`
  pub marshal : Fields → Result Error String
  -- the decoding of a user into a struct with the field `username`
  pub decode_username : Fields → Result Error String
  pub rounds : ℕ

-- `NewWriter`
abbrev pub new_writer : Writer
new_writer = record { known_actors = []; usernames = [] }

pub record State (World : Type 0) : Type 0 where
  pub writer : Writer
  pub world : World

-- `float64` of 1
abbrev pub once : ℕ
once = 0x3ff0000000000000

abbrev pub remember_username : String → String → ℕ → Map UsernameEntry → Map UsernameEntry
remember_username key username at usernames =
    insert key (record { username = username; at = at })
      (if leb username_cache_max (length usernames) then [] else usernames)

abbrev pub remember_actors : String → Map Bool → Map (Map Bool) → Map (Map Bool)
remember_actors key known cache =
    insert key known (if leb max_cached_rows (length cache) then [] else cache)

-- The keys of a row's actors.
unfoldable pub known_from : Map Bool → Fields → Map Bool
unfolding insert
known_from known end = known
known_from known (field actor v d) = known_from (insert actor true known) d

-- The actor of a field of `$inc`, if it is the count of one.
unfoldable pub actor_of : String → Option String
unfolding strip_prefix strip_suffix
actor_of name =
    let actor = trim_suffix ".count" (trim_prefix "actors." name) in
    if is_cut (strip_prefix "actors." name)
      && is_cut (strip_suffix ".count" name)
      && eqb (String.len actor) 16
    then some actor
    else none

abbrev pub mark_one : Option String → Map Bool → Map Bool
mark_one none known = known
mark_one (some actor) known = insert actor true known

-- The last loop of `Fold`
unfoldable pub mark : Map Bool → Fields → Map Bool
unfolding actor_of insert
mark known end = known
mark known (field name v d) = mark (mark_one (actor_of name) known) d

module _ (e : WriterEnv) where
  abbrev pub Now : Type 0
  Now = State e.env.World

  abbrev keep_username : String → ℕ → String → Exec Now Error String
  keep_username key now username s = (
    ok username,
    record s {
      writer = record s.writer {
        usernames = remember_username key username now s.writer.usernames;
      };
    },
  )

  abbrev decoded_username : String → ℕ → Result Error String → Exec Now Error String
  decoded_username key now (ok username) s = keep_username key now username s
  decoded_username key now (err no_documents) s = keep_username key now "" s
  decoded_username key now (err (failure m)) s = (err (failure m), s)

  abbrev decode_found : Result Error Fields → Result Error String
  decode_found (ok user) = e.decode_username user
  decode_found (err problem) = err problem

  abbrev read_username : String → ℕ → Value → Exec Now Error String
  read_username key now user_id s =
      let (r, w) =
        e.env.find_one "users" (fields (("_id", user_id) ∷ []))
          (fields (("username", int (pos 1)) ∷ [])) s.world in
      decoded_username key now (decode_found r) (record s { world = w })

  abbrev cached_username : String → ℕ → Value → Option UsernameEntry → Exec Now Error String
  cached_username key now user_id none s = read_username key now user_id s
  cached_username key now user_id (some entry) s =
      if ltb now (entry.at + username_cache_ttl)
      then (ok entry.username, s)
      else read_username key now user_id s

  -- `usernameFor`
  unfoldable pub username_for : Value → Exec Now Error String
  unfolding insert lookup
  username_for user_id s =
      let key = e.formats.sprint user_id in
      let (now, w) = e.env.now s.world in
      cached_username key now user_id (lookup key s.writer.usernames) (record s { world = w })

  -- The steps of `Fold` on the event, before its row is looked for.
  abbrev put_username : Result Error String → Fields → Fields
  put_username (err problem) evt = evt
  put_username (ok username) evt =
      if username == "" then evt else put "username" (str (take_units 100 username)) evt

  unfoldable pub with_username : Fields → Now → Fields × Now
  unfolding username_for get put take_units writer_truthy
  with_username evt s =
      if writer_truthy (get "userId" evt) && not (writer_truthy (get "username" evt))
      then (let (r, s') = username_for (get "userId" evt) s in (put_username r evt, s'))
      else (evt, s)

  abbrev put_text : String → String → Fields → Fields
  put_text name value evt = if value == "" then evt else put name (str value) evt

  abbrev put_family : String × String → Fields → Fields
  put_family (v4, v6) evt = put_text "ipv6" v6 (put_text "ipv4" v4 evt)

  unfoldable pub with_addresses : Fields → Fields
  unfolding classify_address get put writer_truthy
  with_addresses evt =
      if writer_truthy (get "ip" evt)
        && not (writer_truthy (get "ipv4" evt))
        && not (writer_truthy (get "ipv6" evt))
      then put_family (classify_address e.formats (get "ip" evt)) evt
      else evt

  abbrev when_of : Option Value → ℕ → ℕ
  when_of (some (time t)) now = t
  when_of (some (date ms)) now = e.of_unix_milli ms
  when_of _ now = now

  -- The known actors of the row, read where the cache has none.
  abbrev load_actors : String → Fields → Exec Now Error (Map Bool)
  load_actors key row s =
      let known = known_from [] (map_of (get "actors" row)) in
      (
        ok known,
        record s {
          writer = record s.writer {
            known_actors = remember_actors key known s.writer.known_actors;
          };
        },
      )

  abbrev found_actors : String → Result Error Fields → Exec Now Error (Map Bool)
  found_actors key (ok row) s = load_actors key row s
  found_actors key (err no_documents) s = load_actors key end s
  found_actors key (err (failure m)) s = (err (wrap "eventlog actors: " (failure m)), s)

  abbrev cached_actors : String → Fields → Option (Map Bool) → Exec Now Error (Map Bool)
  cached_actors key identity (some known) s = (ok known, s)
  cached_actors key identity none s =
      let (r, w) =
        e.env.find_one collection identity (fields (("actors", int (pos 1)) ∷ [])) s.world in
      found_actors key r (record s { world = w })

  unfoldable pub actors_known : String → Fields → Exec Now Error (Map Bool)
  unfolding lookup insert known_from get map_of
  actors_known key identity s = cached_actors key identity (lookup key s.writer.known_actors) s

  -- The update of the row.
  unfoldable pub row_update : Fields → ℕ → ActorChanges → String → Fields
  unfolding summary_update get put put_all map_of
  row_update evt when actors id =
      let summary = summary_update e.formats evt when once in
      fields (
        ("$set", obj doc_m (put_all (map_of (get "$set" summary)) actors.set))
        ∷ ("$setOnInsert", obj doc_m (put "_id" (str id) (map_of (get "$setOnInsert" summary))))
        ∷ ("$inc", obj doc_m (put_all (map_of (get "$inc" summary)) actors.inc))
        ∷ [])

  -- After the upsert. A failed one makes the next fold of the row read its actors again.
  abbrev pub written :
      String → Map Bool → Fields → {A : Type 0} → Result Error A → Exec Now Error (Option Unit)
  written key known inc (err problem) s = (
    err (wrap "eventlog fold: " problem),
    record s { writer = record s.writer { known_actors = delete key s.writer.known_actors } },
  )
  written key known inc (ok result) s = (
    ok (some tt),
    record s {
      writer = record s.writer { known_actors = insert key (mark known inc) s.writer.known_actors };
    },
  )

  abbrev pub write_row :
      Fields
      → ℕ
      → Fields
      → String
      → Map Bool
      → Result Error (Option String)
      → Exec Now Error (Option Unit)
  write_row evt when identity key known (err problem) s = (err problem, s)
  write_row evt when identity key known (ok none) s = (ok none, s)
  write_row evt when identity key known (ok (some id)) s =
      let actors = actor_update e.formats when once known evt in
      let (r, w) =
        e.env.update_one collection identity (row_update evt when actors id) true s.world in
      written key known actors.inc r (record s { world = w })

  unfoldable pub fold_row :
      Fields → ℕ → Fields → String → Result Error (Map Bool) → Exec Now Error (Option Unit)
  unfolding event_id row_update mark insert delete actor_update
  fold_row evt when identity key (err problem) s = (err problem, s)
  fold_row evt when identity key (ok known) s =
      let (r, w) = event_id e.env e.rounds s.world in
      write_row evt when identity key known r (record s { world = w })

  abbrev pub fold_keyed : Fields → ℕ → Fields → Result Error String → Exec Now Error (Option Unit)
  fold_keyed evt when identity (err problem) s = (err (wrap "eventlog identity: " problem), s)
  fold_keyed evt when identity (ok key) s =
      let (known, s') = actors_known key identity s in fold_row evt when identity key known s'

  abbrev fold_event : Fields → ℕ → Exec Now Error (Option Unit)
  fold_event evt when s =
      let identity = summary_identity evt in fold_keyed evt when identity (e.marshal identity) s

  abbrev fold_open : Fields → Option Error → Exec Now Error (Option Unit)
  fold_open doc (some problem) s = (err problem, s)
  fold_open doc none s =
      let (now, w) = e.env.now s.world in
      let (evt, s') = with_username (remove "at" doc) (record s { world = w }) in
      fold_event (with_addresses evt) (when_of (find "at" doc) now) s'

  -- `Fold`, once it has the gate: none where the rounds did not suffice for an identifier.
  unfoldable pub fold : Fields → Exec Now Error (Option Unit)
  unfolding with_username with_addresses actors_known fold_row summary_identity find remove
  fold doc s = fold_open doc (e.context_error s.world) s
