-- ===== src/Operations/Scope.antt =====
-- `validate_scope` of operations_reporting/scope.py: the population that a report is about.
use amt_trust_check_radar_la.Base.{
  String, Bool, true, false, ◌&&◌, not, Option, none, some, [], ◌∷◌, str_eq, if◌then◌else◌, ◌==◌,
}
use amt_trust_check_radar_la.Python.{
  Value, int, text, dict, Dict, pos, lookup, same_keys, is_text, is_uuid4, mem_key,
}

abbrev pub selected_dev : String
selected_dev = "selected_dev"

-- `COVERAGE[population]`
abbrev coverage_of : String → Option String
coverage_of s =
    if str_eq s "environment_customer"
    then some "environment_completeness_unqualified"
    else if str_eq s selected_dev
    then some "selected_subset_not_environment_total"
    else none

abbrev is_one : Value → Bool
is_one (int (pos n)) = n == 1
is_one _ = false

abbrev is_generation : Value → Bool
is_generation (text s) = is_uuid4 s
is_generation _ = false

abbrev covers : Value → Option String → Bool
covers v none = false
covers v (some s) = is_text s v

abbrev is_population : Value → Value → Bool
is_population (text s) coverage = covers coverage (coverage_of s)
is_population _ coverage = false

abbrev pub is_environment : String → Bool
is_environment s = mem_key s ("dev" ∷ "uat" ∷ "prod" ∷ [])

abbrev is_scope : Dict → String → Bool
is_scope d environment =
    same_keys d ("schemaVersion" ∷ "population" ∷ "generation" ∷ "sourceContract" ∷ "coverage" ∷ [])
    && is_one (lookup "schemaVersion" d)
    && is_population (lookup "population" d) (lookup "coverage" d)
    && is_generation (lookup "generation" d)
    && is_text "authority-receipt-capture-v2" (lookup "sourceContract" d)
    && is_environment environment
    && not (is_text selected_dev (lookup "population" d) && not (str_eq environment "dev"))

abbrev checked_scope : Dict → Bool → Option Dict
checked_scope d true = some d
checked_scope d false = none

unfoldable pub validate_scope : Value → String → Option Dict
unfolding same_keys is_uuid4
validate_scope (dict d) environment = checked_scope d (is_scope d environment)
validate_scope _ environment = none
