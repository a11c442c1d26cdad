-- ===== src/Migrations/Runner/Gate.antt =====
-- internal/migrations/upgrade.go: the version gate of `Run` and the marker that closes it.
use wekango.Base.{
  String, Bool, true, false, List, [], ◌∷◌, ◌≡◌, refl, ◌==◌, Option, none, some, if◌then◌else◌,
  arith, eq_iff, Bool-cases, inl, inr, ◌⊎◌,
}
use wekango.Base.Exec.{ok}
use wekango.Base.Map.{lookup}
use wekango.Base.Int.{pos}
use wekango.Bson.{bool, int, Fields, end, fields, doc_of}
use wekango.Migrations.Runner.{
  Step, LastCheck, skipped, Progress, State, UpgradeOptions, Installation, has_name, names,
  of_status, pending_steps, skip_all, marker_collection,
}
use wekango.Migrations.Runner.Run.{
  is_gated, run, marker_filter, write_last, with_last, closed, W, update_failed,
}
use wekango.Migrations.Runner.Settled.{is_settled}

-- What the run leaves as the last check.
abbrev pub checked_version : Option LastCheck → Option String
checked_version none = none
checked_version (some last) = some last.version

abbrev stamped_if : Bool → UpgradeOptions → Progress → Option String
stamped_if clean opts p =
    if clean then some opts.app_version else checked_version p.state.last_check

module _ (inst : Installation) (opts : UpgradeOptions) (p : Progress) (w : W inst) where
  abbrev stamp_if : Bool → Progress × W inst
  stamp_if clean =
      let (updated, v) = write_last inst opts w in
      if clean then (update_failed inst updated (with_last inst opts p w), v) else (p, w)

-- Either the version of the last check is as before, or the run has stamped its own and the step
-- has settled.
abbrev pub Seals : String → UpgradeOptions → State → Progress → Type 0
Seals name opts before p =
    (checked_version p.state.last_check ≡ checked_version before.last_check)
    ⊎ (checked_version p.state.last_check ≡ some opts.app_version) × (is_settled name p ≡ true)

skipped-lookup :
    (name : String) (l : List String)
    → has_name name l ≡ true
    → lookup name (skip_all (pending_steps l)) ≡ some (of_status skipped)
unfolding has_name lookup
skipped-lookup name [] h = ground arith
skipped-lookup name (n ∷ l) h = elim (Bool-cases (n == name)) [
  | inl same ↦ rw same refl
  | inr apart ↦ rw apart (skipped-lookup name l (ground arith))
]

abbrev with_product : Fields
with_product = fields (("productName", doc_of (("$exists", bool true) ∷ [])) ∷ [])

abbrev product_only : Fields
product_only = fields (("productName", int (pos 1)) ∷ [])

-- The world after the marker, the clock, the product name and the clock were read, and nothing else.
abbrev pub after_reads : (inst : Installation) → W inst → W inst
after_reads inst w =
    let marked = (inst.env.find_one marker_collection (marker_filter inst) end w).1 in
    let begun = (inst.env.now marked).1 in
    (inst.env.now (inst.env.find_one "settings" with_product product_only begun).1).1

-- A run of the version that the marker names, without force, runs no step and writes nothing: it only
-- reads the marker, the product name and the clock. It reports every registered step as skipped, in
-- order, and nothing as run; the state says that the run was gated and has ended, and shows each step
-- as skipped.
pub run-gated :
    (inst : Installation) (steps : List (Step (W inst))) (opts : UpgradeOptions) (state : State)
    (w : W inst) (marker : Fields) (last : LastCheck) (name : String)
    → inst.context_error w ≡ none
    → (inst.env.find_one marker_collection (marker_filter inst) end w).0 ≡ ok marker
    → inst.decode_marker marker ≡ ok (some last)
    → last.version ≡ opts.app_version
    → opts.force ≡ false
    → has_name name (names steps) ≡ true
    → let e = (run inst steps opts state w).0 in
      (e.result ≡ record { ran = []; skipped = names steps; results = []; gated = true })
      × (e.state.is_running ≡ false)
      × (e.state.gated ≡ true)
      × (lookup name e.state.steps ≡ some (of_status skipped))
      × ((run inst steps opts state w).1 ≡ after_reads inst w)
unfolding run closed is_gated
run-gated inst steps opts state w marker last name alive found decoded version lazy known =
    let same : (last.version == opts.app_version) ≡ true =
      (eq_iff last.version opts.app_version).1 version in
    rw (alive, found, decoded, lazy, same)
      (refl, refl, refl, skipped-lookup name (names steps) known, refl)
