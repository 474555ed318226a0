-- ===== src/Api/Conditions.antt =====
-- Cluster API's conditions library, which is not part of the repository: its operations on a list
-- of conditions in a representation `C`, with what their documentation promises.
use cluster_api_provider_inc.Prelude.{
  String, ◌≡◌, refl, Bool, true, false, Option, none, some, List, ◌==◌, if◌then◌else◌,
}
use cluster_api_provider_inc.Maps.{GoMap, lookup, insert, lookup-insert}

pub data Severity : Type 0 where
  error warning info unset : Severity

-- A condition without its time of transition.
pub record Condition : Type 0 where
  pub status : Bool
  pub reason : String
  pub severity : Severity
  pub message : String

abbrev pub is_true : Option Condition → Bool
is_true none = false
is_true (some c) = c.status

abbrev pub condition_true : Condition
condition_true = record { status = true; reason = ""; severity = unset; message = "" }

abbrev pub condition_false : String → Severity → String → Condition
condition_false reason severity message = record {
  status = false;
  reason = reason;
  severity = severity;
  message = message;
}

-- conditions.Get, conditions.MarkTrue, conditions.MarkFalse (as one `mark`), the list that
-- GetConditions returns, and conditions.SetSummary for one condition type and the step counter flag.
pub record ConditionLibrary (C : Type 0) : Type 0 where
  pub get : String → C → Option Condition
  pub mark : String → Condition → C → C
  pub entries : C → List (String × Condition)
  pub set_summary : String → Bool → C → C
  pub get-mark :
      (t s : String) (c : Condition) (cs : C)
      → get s (mark t c cs) ≡ (if t == s then some c else get s cs)
  -- The summary is written to the Ready condition alone.
  pub get-set_summary :
      (t s : String) (steps : Bool) (cs : C)
      → ("Ready" == s) ≡ false
      → get s (set_summary t steps cs) ≡ get s cs

-- The promises can be kept: conditions in a map, with the summarised condition as the summary.
abbrev pub summary : Option Condition → GoMap Condition → GoMap Condition
summary none cs = cs
summary (some c) cs = insert "Ready" c cs

pub summary-get :
    (o : Option Condition) (s : String) (cs : GoMap Condition)
    → ("Ready" == s) ≡ false
    → lookup s (summary o cs) ≡ lookup s cs
summary-get none s cs h = refl
summary-get (some c) s cs h = rw (lookup-insert, h)

abbrev pub map_conditions : ConditionLibrary (GoMap Condition)
map_conditions = record {
  get = lookup;
  mark = insert;
  entries = λ cs. cs;
  set_summary = λ t steps cs. summary (lookup t cs) cs;
  get-mark = λ t s c cs. lookup-insert t s c cs;
  get-set_summary = λ t s steps cs h. summary-get (lookup t cs) s cs h;
}
