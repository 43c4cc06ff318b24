-- ===== src/Findings.antt =====
-- src/across_orchestrator/findings.py: the states of findings, how a report's state is read off them,
-- and when a report has passed. Texts are taken stripped, in lower case and with underscores, as
-- `_state_token` makes them.
pub mod Verdict
use across_orchestrator.Base.{
  ℕ, zero, suc, ◌+◌, ◌-◌, ◌*◌, ◌/◌, ◌≤◌, ◌<◌, max, min, String, ◌≡◌, refl, sym, ap, ◌∙◌, subst, ◌≢◌,
  ◌↔◌, ◌⊎◌, inl, inr, Bool, true, false, not, ◌&&◌, ◌||◌, Option, none, some, List, [], ◌∷◌, ◌++◌,
  map, arith, eq_iff, ltb, leb, text_ltb, if◌then◌else◌, Eq, ◌==◌, nat_Eq, string_Eq, holds,
  holds-some, is_some, get_or, Bool-cases, Option-cases, length, any, all, All, contains, subset,
}
use across_orchestrator.Dict.{get}

pub data FindingState : Type 0 where
  pass auto_fix_available ask_user blocked no_op failed : FindingState

abbrev pub same_state : FindingState → FindingState → Bool
same_state pass pass = true
same_state auto_fix_available auto_fix_available = true
same_state ask_user ask_user = true
same_state blocked blocked = true
same_state no_op no_op = true
same_state failed failed = true
same_state _ _ = false

instance abbrev pub finding_state_Eq : Eq FindingState
finding_state_Eq = record { test = same_state }

-- `FINDING_STATES` and `_STATE_ALIASES` in one table.
abbrev state_aliases : List (String × FindingState)
state_aliases =
    ("pass", pass)
    ∷ ("auto_fix_available", auto_fix_available)
    ∷ ("ask_user", ask_user)
    ∷ ("blocked", blocked)
    ∷ ("no_op", no_op)
    ∷ ("failed", failed)
    ∷ ("ok", pass)
    ∷ ("passed", pass)
    ∷ ("ready", pass)
    ∷ ("completed", pass)
    ∷ ("success", pass)
    ∷ ("succeeded", pass)
    ∷ ("fixed", pass)
    ∷ ("auto_fix", auto_fix_available)
    ∷ ("autofix", auto_fix_available)
    ∷ ("fix_available", auto_fix_available)
    ∷ ("needs_fix", auto_fix_available)
    ∷ ("needs_user", ask_user)
    ∷ ("needs_input", ask_user)
    ∷ ("user_input", ask_user)
    ∷ ("manual", ask_user)
    ∷ ("attention", ask_user)
    ∷ ("partial", ask_user)
    ∷ ("warning", ask_user)
    ∷ ("warn", ask_user)
    ∷ ("needs_attention", ask_user)
    ∷ ("environment_blocked", blocked)
    ∷ ("skipped", no_op)
    ∷ ("not_applicable", no_op)
    ∷ ("none", no_op)
    ∷ ("noop", no_op)
    ∷ ("error", failed)
    ∷ ("failure", failed)
    ∷ ("fail", failed)
    ∷ []

abbrev severity_states : List (String × FindingState)
severity_states =
    ("blocker", blocked)
    ∷ ("critical", blocked)
    ∷ ("error", blocked)
    ∷ ("high", blocked)
    ∷ ("blocking", blocked)
    ∷ ("warn", no_op)
    ∷ ("warning", no_op)
    ∷ ("medium", no_op)
    ∷ ("low", no_op)
    ∷ ("info", no_op)
    ∷ []

-- The state that a text names, if it names one.
unfoldable pub named_state : Option String → Option FindingState
named_state none = none
named_state (some text) = get text state_aliases

severity_state : Option String → FindingState
severity_state none = failed
severity_state (some text) = get_or (get text severity_states) failed

abbrev from_passed : Option Bool → Option String → FindingState
from_passed (some true) severity = pass
from_passed (some false) severity = failed
from_passed none severity = severity_state severity

unfoldable pub normalize_finding_state :
    Option String → Option String → Option Bool → Option String → FindingState
unfolding severity_state
normalize_finding_state value status passed severity =
    get_or (named_state value) (get_or (named_state status) (from_passed passed severity))

-- `normalize_finding_state(value)`
unfoldable pub read_state : Option String → FindingState
unfolding normalize_finding_state
read_state value = normalize_finding_state value none none none

-- `state in _TERMINAL_OK_STATES`
abbrev pub is_ok_state : FindingState → Bool
is_ok_state pass = true
is_ok_state no_op = true
is_ok_state _ = false

-- The states of the findings of a list, `None` for a finding without one.
unfoldable pub states_of : List (Option String) → List FindingState
states_of items = map read_state items

-- What is left when no finding asks for anything.
abbrev pub settled_state : List FindingState → Option FindingState → FindingState
settled_state states report =
    if is_some report && not (any is_ok_state (get_or report failed ∷ []))
    then get_or report failed
    else if holds report no_op && not (length states == 0) && all (λ s. s == no_op) states
    then no_op
    else if not (length states == 0) && all is_ok_state states
    then (if contains states pass then pass else no_op)
    else get_or report failed

unfoldable pub aggregate_states : List FindingState → Option FindingState → FindingState
aggregate_states states report =
    if contains states failed
    then failed
    else if contains states blocked
    then blocked
    else if contains states ask_user
    then ask_user
    else if contains states auto_fix_available
    then auto_fix_available
    else settled_state states report

-- The report's state is a text where there is one.
abbrev pub report_state_of : Option String → Option FindingState
report_state_of none = none
report_state_of (some text) = some (read_state (some text))

unfoldable pub aggregate_finding_state : List (Option String) → Option String → FindingState
unfolding aggregate_states states_of read_state
aggregate_finding_state findings report =
    aggregate_states (states_of findings) (report_state_of report)

-- What `quality_report_passed` reads of a report. A finding is given by its state.
pub record QualityReport : Type 0 where
  pub finding_state : Option String
  pub findings : Option (List (Option String))
  pub normalized_findings : Option (List (Option String))
  pub passed : Option Bool
  pub status : Option String

abbrev either_findings :
    Option (List (Option String)) → Option (List (Option String)) → List (Option String)
either_findings (some (f ∷ fs)) other = f ∷ fs
either_findings _ other = get_or other []

unfoldable pub quality_report_passed : QualityReport → Bool
unfolding aggregate_finding_state read_state normalize_finding_state
quality_report_passed r =
    if is_some r.finding_state
    then is_ok_state (read_state r.finding_state)
    else if is_some r.findings || is_some r.normalized_findings
    then is_ok_state
        (aggregate_finding_state (either_findings r.findings r.normalized_findings) none)
    else if is_some r.passed
    then holds_true r.passed
    else is_ok_state (normalize_finding_state none r.status none none)
  where
    holds_true : Option Bool → Bool
    holds_true (some b) = b
    holds_true none = false

unfoldable pub finding_state_failed : Option String → Bool
unfolding read_state
finding_state_failed value = not (is_ok_state (read_state value))
