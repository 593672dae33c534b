-- ===== src/Slo/Examples.antt =====
-- Service levels of concrete windows.
use modelforge_ai.Base.{ℕ, ◌≤◌, ◌≡◌, refl, none, List, [], ◌∷◌, true}
use modelforge_ai.Base.Int.{pos}
use modelforge_ai.Slo.Status.{SloTargets}
use modelforge_ai.Slo.Rollup.{
  Definition, Request, Rows, rollup_slo_windows, roll_groups, roll_group, group_requests,
  push_request, group_status, grant_credit, write_credit, write_window,
}
use modelforge_ai.Slo.Status.{status_of, compute_window_status, compute_credit_micros}
use modelforge_ai.Slo.Percentile.{percentile, sort_values, insert_value}
use modelforge_ai.Slo.Credits.{IsUnique}
use modelforge_ai.Slo.Once.{credits_of, roll_all, rollup_slo_windows-pays_once}

abbrev targets : SloTargets
targets = record {
  availability_pct = pos 99;
  latency_p95_ms = pos 500;
  at_risk_availability_pct = none;
  at_risk_latency_p95_ms = none;
}

abbrev fast : Definition
fast = record {
  id = "d1";
  name = "fast";
  latency_p95_ms = 100;
  availability_pct = 99;
  window_minutes = 1;
  credit_micros = pos 5_000;
}

abbrev slow_request : Request
slow_request = record {
  customer_id = "ada";
  succeeded = true;
  latency_ms = 400;
  created_at = 61_000;
}

abbrev empty : Rows
empty = record { windows = []; credits = [] }

-- The same minute, rolled up twice.
abbrev rolls : List (ℕ × List Request)
rolls = (62_000, slow_request ∷ []) ∷ (63_000, slow_request ∷ slow_request ∷ []) ∷ []

rollup_slo_windows-pays_once_example :
    (credits_of "ada" (roll_all 1 (λ t. "t") (fast ∷ []) rolls empty).credits ≤ 1)
    × IsUnique (roll_all 1 (λ t. "t") (fast ∷ []) rolls empty).credits
rollup_slo_windows-pays_once_example =
    rollup_slo_windows-pays_once 1 (λ t. "t") 61_000 "ada" (fast ∷ []) rolls empty
      ((refl, tt), ((refl, tt), tt)) tt

-- Of the two, one pays.
paid_one : credits_of "ada" (roll_all 1 (λ t. "t") (fast ∷ []) rolls empty).credits ≡ 1
unfolding roll_all rollup_slo_windows roll_groups roll_group group_requests push_request
    group_status grant_credit write_credit write_window percentile compute_window_status
    compute_credit_micros status_of sort_values insert_value
paid_one = refl
