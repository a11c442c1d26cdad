-- ===== src/Eventlog/Security/Reporter.antt =====
-- internal/eventlog/security.go: `SecurityReporter`, whose effects run beside the requests. `Record` has
-- one step under the mutex; an effect that panics ends as one that returns.
use wekango.Base.{
  ℕ, ◌+◌, ◌-◌, Bool, true, false, List, [], ◌∷◌, ◌++◌, ◌≡◌, ◌⊎◌, refl, ap, arith, if◌then◌else◌,
  length, length-append, Bool-cases, inl, inr,
}
use wekango.Bson.{Fields}
use wekango.Eventlog.Summary.{Formats}
use wekango.Eventlog.Numbers.{Numbers}
use wekango.Eventlog.Security.Document.{SecurityContext, security_document, clone_fields}

-- What a goroutine of `Record` does with the document.
pub data Effect : Type 0 where
  folds blocks : Fields → Effect

-- `pending` counts as the wait group does, `running` holds the goroutines that were started and have
-- not ended, and `joined` tells that a call of `Close` has returned.
pub record SecurityReporter : Type 0 where
  pub closed : Bool
  pub pending : ℕ
  pub running : List Effect
  pub joined : Bool

-- `NewSecurityReporter`
abbrev pub new_security_reporter : SecurityReporter
new_security_reporter = record { closed = false; pending = 0; running = []; joined = false }

-- `Record`, for a document
abbrev pub admit : Fields → SecurityReporter → SecurityReporter
admit doc r =
    if r.closed
    then r
    else record r { pending = r.pending + 2; running = r.running ++ folds doc ∷ blocks doc ∷ [] }

-- `Record`
unfoldable pub record_event :
    Formats → Numbers → Fields → SecurityContext → ℕ → SecurityReporter → SecurityReporter
unfolding security_document clone_fields
record_event f n evt actor now r = admit (clone_fields (security_document f n evt actor now)) r

pub data SecurityStep (f : Formats) (n : Numbers)
    : SecurityReporter → SecurityReporter → Type 0 where
  recorded :
      (evt : Fields) (actor : SecurityContext) (now : ℕ) (r : SecurityReporter)
      → SecurityStep f n r (record_event f n evt actor now r)
  -- an effect ends, and counts itself out
  ended :
      (before after : List Effect) (effect : Effect) (r : SecurityReporter)
      → r.running ≡ before ++ effect ∷ after
      → SecurityStep f n r (record r { pending = r.pending - 1; running = before ++ after })
  closing : (r : SecurityReporter) → SecurityStep f n r (record r { closed = true })
  -- the wait of `Close` ends
  waited :
      (r : SecurityReporter)
      → r.closed ≡ true
      → r.pending ≡ 0
      → SecurityStep f n r (record r { joined = true })

pub data SecurityReach (f : Formats) (n : Numbers) : SecurityReporter → Type 0 where
  start : SecurityReach f n new_security_reporter
  next : {r u : SecurityReporter} → SecurityReach f n r → SecurityStep f n r u → SecurityReach f n u

-- The wait group counts what runs, and once `Close` has returned nothing runs and nothing will.
pub record IsJoined (r : SecurityReporter) : Type 0 where
  pub counted : r.pending ≡ length r.running
  pub ended_all : (r.joined ≡ false) ⊎ (r.closed ≡ true) × (length r.running ≡ 0)

admit-IsJoined : (doc : Fields) (r : SecurityReporter) → IsJoined r → IsJoined (admit doc r)
admit-IsJoined doc r h = elim (Bool-cases r.closed) [
  | inl shut ↦ simp shut h
  | inr on ↦ simp on (record {
    counted = omega (arith, h.counted, length-append r.running (folds doc ∷ blocks doc ∷ []));
    ended_all = elim h.ended_all [ inl waits ↦ inl waits | inr past ↦ cc past.0 ];
  })
]

length-ended :
    (before after : List Effect) (effect : Effect)
    → length (before ++ effect ∷ after) ≡ length (before ++ after) + 1
length-ended before after effect =
    omega (arith, length-append before (effect ∷ after), length-append before after)

SecurityStep-IsJoined :
    {f : Formats} {n : Numbers} {r u : SecurityReporter}
    → SecurityStep f n r u
    → IsJoined r
    → IsJoined u
unfolding record_event
SecurityStep-IsJoined {f} {n} (recorded evt actor now r) h =
    admit-IsJoined (clone_fields (security_document f n evt actor now)) r h
SecurityStep-IsJoined (ended before after effect r here) h = record {
  counted = omega (arith, h.counted, ap length here, length-ended before after effect);
  ended_all = elim h.ended_all [
    | inl waits ↦ inl waits
    | inr past ↦
        inr (past.0, omega (arith, past.1, ap length here, length-ended before after effect))
  ];
}
SecurityStep-IsJoined (closing r) h = record {
  counted = h.counted;
  ended_all = elim h.ended_all [ inl waits ↦ inl waits | inr past ↦ inr (refl, past.1) ];
}
SecurityStep-IsJoined (waited r shut none_left) h = record {
  counted = h.counted;
  ended_all = inr (shut, omega (arith, h.counted));
}

-- Whatever the order in which events are recorded, effects end and `Close` is called, the wait group
-- counts exactly the effects that run, and once a call of `Close` has returned no effect runs, and
-- the reporter admits none, so storage can be closed.
pub SecurityReach-IsJoined :
    (f : Formats) (n : Numbers) (r : SecurityReporter) → SecurityReach f n r → IsJoined r
SecurityReach-IsJoined f n r start = record { counted = refl; ended_all = inl refl }
SecurityReach-IsJoined f n r (next q st) = SecurityStep-IsJoined st (SecurityReach-IsJoined f n _ q)
