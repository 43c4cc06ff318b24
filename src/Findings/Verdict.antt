-- ===== src/Findings/Verdict.antt =====
-- When the findings of a report let it pass.
use across_orchestrator.Base.{
  String, ◌≡◌, refl, ◌↔◌, true, false, Option, none, some, List, [], ◌∷◌, arith, ◌==◌, nat_Eq,
  string_Eq, length, all, contains,
}
use across_orchestrator.Findings.{
  FindingState, pass, auto_fix_available, ask_user, blocked, no_op, failed, finding_state_Eq,
  is_ok_state, states_of, settled_state, aggregate_states, report_state_of, aggregate_finding_state,
}

contains-bad :
    (x : FindingState) (states : List FindingState)
    → is_ok_state x ≡ false
    → all is_ok_state states ≡ true
    → contains states x ≡ false
contains-bad x [] h k = refl
contains-bad x (y ∷ ys) h k = ground (arith, contains-bad x ys)

all_ok :
    (states : List FindingState)
    → contains states failed ≡ false
    → contains states blocked ≡ false
    → contains states ask_user ≡ false
    → contains states auto_fix_available ≡ false
    → all is_ok_state states ≡ true
all_ok [] f b u a = refl
all_ok (pass ∷ ys) f b u a = all_ok ys f b u a
all_ok (no_op ∷ ys) f b u a = all_ok ys f b u a
all_ok (failed ∷ ys) f b u a = cc
all_ok (blocked ∷ ys) f b u a = cc
all_ok (ask_user ∷ ys) f b u a = cc
all_ok (auto_fix_available ∷ ys) f b u a = cc

-- The report's state, where it has one, is acceptable, and there is a state at all.
abbrev pub Acceptable : List FindingState → Option FindingState → Type 0
Acceptable states none = (length states == 0) ≡ false
Acceptable states (some r) = is_ok_state r ≡ true

settled_ok :
    (states : List FindingState) (report : Option FindingState)
    → all is_ok_state states ≡ true
    → Acceptable states report
    → is_ok_state (settled_state states report) ≡ true
settled_ok states none h a = ground arith
settled_ok states (some r) h a = ground arith

settled_needs :
    (states : List FindingState) (report : Option FindingState)
    → is_ok_state (settled_state states report) ≡ true
    → Acceptable states report
settled_needs states none h = ground arith
settled_needs states (some r) h = ground arith

aggregate_states-ok :
    (states : List FindingState) (report : Option FindingState)
    → all is_ok_state states ≡ true
    → Acceptable states report
    → is_ok_state (aggregate_states states report) ≡ true
unfolding aggregate_states
aggregate_states-ok states report h a =
    rw
      (
        contains-bad failed states refl h,
        contains-bad blocked states refl h,
        contains-bad ask_user states refl h,
        contains-bad auto_fix_available states refl h,
      )
      (settled_ok states report h a)

aggregate_states_needs :
    (states : List FindingState) (report : Option FindingState)
    → is_ok_state (aggregate_states states report) ≡ true
    → (all is_ok_state states ≡ true) × Acceptable states report
unfolding aggregate_states
aggregate_states_needs states report h = ground (arith, all_ok states, settled_needs states report)

-- The state of a report and its findings is `pass` or `no_op` exactly if all findings are, and the
-- report's own state is, or it has none and there is a finding.
pub aggregate_finding_state_iff :
    (findings : List (Option String)) (report : Option String)
    → (is_ok_state (aggregate_finding_state findings report) ≡ true) ↔ (
        (all is_ok_state (states_of findings) ≡ true)
        × Acceptable (states_of findings) (report_state_of report))
unfolding aggregate_finding_state
aggregate_finding_state_iff findings report = (
  aggregate_states_needs (states_of findings) (report_state_of report),
  λ (h, a). aggregate_states-ok (states_of findings) (report_state_of report) h a,
)
