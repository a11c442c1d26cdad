-- ===== src/Eventlog/Writer/Cache.antt =====
-- internal/eventlog/writer.go: the two caches of a writer stay bounded.
use wekango.Base.{
  ℕ, ◌+◌, ◌≤◌, String, Bool, not, ◌&&◌, [], ◌≡◌, refl, ◌∙◌, arith, Option, none, some,
  if◌then◌else◌, ltb, leb, length, Bool-cases, inl, inr, eq_refl,
}
use wekango.Base.Map.{Map, lookup, length-insert, length-insert-some, length-delete, lookup-insert}
use wekango.Base.Exec.{Result, ok, err}
use wekango.Bson.{Value, Fields, end}
use wekango.Bson.Truth.{writer_truthy}
use wekango.Bson.Fetch.{get, find, remove}
use wekango.Env.{Error, no_documents, failure}
use wekango.Eventlog.Summary.Updates.{summary_identity}
use wekango.Eventlog.Writer.{
  Writer, WriterEnv, State, Now, UsernameEntry, max_cached_rows, username_cache_max,
  remember_username, remember_actors, mark, decoded_username, read_username, cached_username,
  username_for, with_username, with_addresses, when_of, load_actors, found_actors, cached_actors,
  actors_known, written, write_row, fold_row, fold_keyed, fold_event, fold_open, fold,
  username_cache_ttl,
}

abbrev pub IsBounded : Writer → Type 0
IsBounded w = (length w.known_actors ≤ max_cached_rows) × (length w.usernames ≤ username_cache_max)

length-remember_username :
    (key name : String) (at : ℕ) (m : Map UsernameEntry)
    → length (remember_username key name at m) ≤ username_cache_max
length-remember_username key name at m = elim (Bool-cases (leb username_cache_max (length m))) [
  | inl full ↦ rw full (
      omega (arith, length-insert {V = UsernameEntry} key (record { username = name; at = at }) []))
  | inr room ↦ rw room (
      ground (arith, length-insert {V = UsernameEntry} key (record { username = name; at = at }) m))
]

length-remember_actors :
    (key : String) (known : Map Bool) (m : Map (Map Bool))
    → length (remember_actors key known m) ≤ max_cached_rows
length-remember_actors key known m = elim (Bool-cases (leb max_cached_rows (length m))) [
  | inl full ↦ rw full (omega (arith, length-insert key known []))
  | inr room ↦ rw room (ground (arith, length-insert key known m))
]

lookup-remember_actors :
    (key : String) (known : Map Bool) (m : Map (Map Bool))
    → lookup key (remember_actors key known m) ≡ some known
lookup-remember_actors key known m =
    lookup-insert key key known (if leb max_cached_rows (length m) then [] else m)
    ∙ rw (eq_refl key) refl

-- The cache has what a fold was given of its row.
abbrev Holds : {W : Type 0} → String → Result Error (Map Bool) → State W → Type 0
Holds key (err e) s = Unit
Holds key (ok known) s = lookup key s.writer.known_actors ≡ some known

module _ (e : WriterEnv) where
  decoded_username-IsBounded :
      (key : String) (now : ℕ) (r : Result Error String) (s : Now e)
      → IsBounded s.writer
      → IsBounded (decoded_username e key now r s).1.writer
  decoded_username-IsBounded key now (ok name) s b =
      (b.0, length-remember_username key name now s.writer.usernames)
  decoded_username-IsBounded key now (err no_documents) s b =
      (b.0, length-remember_username key "" now s.writer.usernames)
  decoded_username-IsBounded key now (err (failure m)) s b = b

  read_username-IsBounded :
      (key : String) (now : ℕ) (id : Value) (s : Now e)
      → IsBounded s.writer
      → IsBounded (read_username e key now id s).1.writer
  read_username-IsBounded key now id s b = decoded_username-IsBounded key now _ _ b

  cached_username-IsBounded :
      (key : String) (now : ℕ) (id : Value) (o : Option UsernameEntry) (s : Now e)
      → IsBounded s.writer
      → IsBounded (cached_username e key now id o s).1.writer
  cached_username-IsBounded key now id none s b = read_username-IsBounded key now id s b
  cached_username-IsBounded key now id (some entry) s b =
      elim (Bool-cases (ltb now (entry.at + username_cache_ttl))) [
        | inl recent ↦ rw recent b
        | inr stale ↦ rw stale (read_username-IsBounded key now id s b)
      ]

  username_for-IsBounded :
      (id : Value) (s : Now e) → IsBounded s.writer → IsBounded (username_for e id s).1.writer
  unfolding username_for
  username_for-IsBounded id s b =
      let key = e.formats.sprint id in
      let (now, w) = e.env.now s.world in
      cached_username-IsBounded key now id (lookup key s.writer.usernames) (record s { world = w })
        b

  with_username-IsBounded :
      (evt : Fields) (s : Now e) → IsBounded s.writer → IsBounded (with_username e evt s).1.writer
  unfolding with_username
  with_username-IsBounded evt s b =
      elim (Bool-cases
        (writer_truthy (get "userId" evt) && not (writer_truthy (get "username" evt)))) [
          | inl asked ↦ rw asked (username_for-IsBounded (get "userId" evt) s b)
          | inr known ↦ rw known b
        ]

  load_actors-Holds :
      (key : String) (row : Fields) (s : Now e)
      → IsBounded s.writer
      → IsBounded (load_actors e key row s).1.writer
        × Holds key (load_actors e key row s).0 (load_actors e key row s).1
  load_actors-Holds key row s b = (
    (length-remember_actors key _ s.writer.known_actors, b.1),
    lookup-remember_actors key _ s.writer.known_actors,
  )

  found_actors-Holds :
      (key : String) (r : Result Error Fields) (s : Now e)
      → IsBounded s.writer
      → IsBounded (found_actors e key r s).1.writer
        × Holds key (found_actors e key r s).0 (found_actors e key r s).1
  found_actors-Holds key (ok row) s b = load_actors-Holds key row s b
  found_actors-Holds key (err no_documents) s b = load_actors-Holds key end s b
  found_actors-Holds key (err (failure m)) s b = (b, tt)

  cached_actors-Holds :
      (key : String) (identity : Fields) (o : Option (Map Bool)) (s : Now e)
      → lookup key s.writer.known_actors ≡ o
      → IsBounded s.writer
      → IsBounded (cached_actors e key identity o s).1.writer
        × Holds key (cached_actors e key identity o s).0 (cached_actors e key identity o s).1
  cached_actors-Holds key identity (some known) s held b = (b, held)
  cached_actors-Holds key identity none s held b = found_actors-Holds key _ _ b

  written-IsBounded :
      (key : String) (known : Map Bool) (inc : Fields) {A : Type 0} (r : Result Error A) (s : Now e)
      → IsBounded s.writer
      → lookup key s.writer.known_actors ≡ some known
      → IsBounded (written e key known inc r s).1.writer
  written-IsBounded key known inc (err problem) s b held =
      (omega (arith, b.0, length-delete key s.writer.known_actors), b.1)
  written-IsBounded key known inc (ok done) s b held = (
    omega (arith, b.0, length-insert-some key (mark known inc) known s.writer.known_actors held),
    b.1,
  )

  write_row-IsBounded :
      (evt : Fields) (when : ℕ) (identity : Fields) (key : String) (known : Map Bool)
      (r : Result Error (Option String)) (s : Now e)
      → IsBounded s.writer
      → lookup key s.writer.known_actors ≡ some known
      → IsBounded (write_row e evt when identity key known r s).1.writer
  write_row-IsBounded evt when identity key known (err problem) s b held = b
  write_row-IsBounded evt when identity key known (ok none) s b held = b
  write_row-IsBounded evt when identity key known (ok (some id)) s b held =
      written-IsBounded key known _ _ _ b held

  fold_row-IsBounded :
      (evt : Fields) (when : ℕ) (identity : Fields) (key : String) (r : Result Error (Map Bool))
      (s : Now e)
      → IsBounded s.writer × Holds key r s
      → IsBounded (fold_row e evt when identity key r s).1.writer
  unfolding fold_row
  fold_row-IsBounded evt when identity key (err problem) s b = b.0
  fold_row-IsBounded evt when identity key (ok known) s b =
      write_row-IsBounded evt when identity key known _ _ b.0 b.1

  fold_keyed-IsBounded :
      (evt : Fields) (when : ℕ) (identity : Fields) (r : Result Error String) (s : Now e)
      → IsBounded s.writer
      → IsBounded (fold_keyed e evt when identity r s).1.writer
  unfolding actors_known
  fold_keyed-IsBounded evt when identity (err problem) s b = b
  fold_keyed-IsBounded evt when identity (ok key) s b =
      fold_row-IsBounded evt when identity key _ _
        (cached_actors-Holds key identity (lookup key s.writer.known_actors) s refl b)

  fold_event-IsBounded :
      (evt : Fields) (when : ℕ) (s : Now e)
      → IsBounded s.writer
      → IsBounded (fold_event e evt when s).1.writer
  fold_event-IsBounded evt when s b =
      let identity = summary_identity evt in
      fold_keyed-IsBounded evt when identity (e.marshal identity) s b

  fold_open-IsBounded :
      (doc : Fields) (o : Option Error) (s : Now e)
      → IsBounded s.writer
      → IsBounded (fold_open e doc o s).1.writer
  fold_open-IsBounded doc (some problem) s b = b
  fold_open-IsBounded doc none s b =
      let (now, w) = e.env.now s.world in
      let (evt, s') = with_username e (remove "at" doc) (record s { world = w }) in
      fold_event-IsBounded (with_addresses e evt) (when_of e (find "at" doc) now) s'
        (with_username-IsBounded (remove "at" doc) (record s { world = w }) b)

  -- A fold, whatever its event and whatever the database answers, keeps the writer's caches within
  -- their limits: the actors of 500 rows and the names of 1000 users.
  pub fold-IsBounded :
      (doc : Fields) (s : Now e) → IsBounded s.writer → IsBounded (fold e doc s).1.writer
  unfolding fold
  fold-IsBounded doc s b = fold_open-IsBounded doc (e.context_error s.world) s b
