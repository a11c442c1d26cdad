-- ===== src/Tests/Summary.antt =====
-- Event summaries.
use wekango.Base.{String, Bool, true, [], ◌∷◌}
use wekango.Base.Map.{Map}
use wekango.Base.Text.{◌⊕◌}
use wekango.Bson.{str, Fields, fields}
use wekango.Eventlog.Summary.{Formats}
use wekango.Tests.Fixture.{database}

abbrev pub formats : Formats
formats = record {
  sprint = λ v. "?";
  format_f = λ x. "1";
  format_e = λ x. "1e+21";
  floats = database.floats;
  hash8 = λ s. "0123456789abcdef";
}

abbrev pub event : Fields
event = fields (("stream", str "security") ∷ ("username", str "ada") ∷ ("ip", str "10.0.0.2") ∷ [])

-- Ten entries whose keys are a prefix with a digit.
abbrev ten : String → Map Bool → Map Bool
ten t known =
    (t ⊕ "0", true)
    ∷ (t ⊕ "1", true)
    ∷ (t ⊕ "2", true)
    ∷ (t ⊕ "3", true)
    ∷ (t ⊕ "4", true)
    ∷ (t ⊕ "5", true)
    ∷ (t ⊕ "6", true)
    ∷ (t ⊕ "7", true)
    ∷ (t ⊕ "8", true)
    ∷ (t ⊕ "9", true)
    ∷ known

abbrev full : Map Bool
full = ten "a" (ten "b" (ten "c" (ten "d" (ten "e" []))))
