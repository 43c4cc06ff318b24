-- ===== src/Examples/FindingRuns.antt =====
-- Reports with findings.
use across_orchestrator.Findings.Verdict.{Acceptable, aggregate_finding_state_iff}
use across_orchestrator.Base.{◌≡◌, ◌↔◌, true, some, [], ◌∷◌, nat_Eq, string_Eq, all}
use across_orchestrator.Findings.{
  finding_state_Eq, is_ok_state, states_of, report_state_of, aggregate_finding_state,
}

aggregate_finding_state_iff_example :
    (is_ok_state (aggregate_finding_state (some "ok" ∷ some "skipped" ∷ []) (some "passed")) ≡ true)
    ↔ ((all is_ok_state (states_of (some "ok" ∷ some "skipped" ∷ [])) ≡ true)
        × Acceptable
            (states_of (some "ok" ∷ some "skipped" ∷ []))
            (report_state_of (some "passed")))
aggregate_finding_state_iff_example =
    aggregate_finding_state_iff (some "ok" ∷ some "skipped" ∷ []) (some "passed")
