-- ===== src/Slo/Credits.antt =====
-- The credits that rollupSloWindows of apps/gateway/src/lib/modernJobs.ts leaves behind.
use Prim.Native.String.{String}
use modelforge_ai.Base.{
  ℕ, ◌≡◌, inl, inr, ◌<◌, true, false, not, ◌&&◌, Option, none, some, List, [], ◌∷◌, arith, ltb,
  Bool-cases,
}
use modelforge_ai.Base.Text.{◌==◌, text_eq}
use modelforge_ai.Base.Preds.{any, filter}
use modelforge_ai.Base.Result.{Result-cases}
use modelforge_ai.Slo.Status.{SloWindowStatus, is_breached, by_input, compute_credit_micros}
use modelforge_ai.Slo.Rollup.{
  Definition, Request, ServiceCredit, Rows, Run, done, threw, then_run, rows_of, is_credit,
  write_credit, group_status, credit_reason, grant_credit, roll_group, roll_groups,
  rollup_slo_windows, group_requests, in_window,
}

-- No two credits for one customer and one reason, and none over nothing.
abbrev pub IsUnique : List ServiceCredit → Type 0
IsUnique [] = Unit
IsUnique (c ∷ cs) =
    (any (is_credit c.customer_id c.reason) cs ≡ false) × (0 < c.amount_micros) × IsUnique cs

pub write_credit-IsUnique :
    (c : ServiceCredit) (cs : List ServiceCredit) → IsUnique cs → IsUnique (write_credit c cs)
unfolding write_credit
write_credit-IsUnique c cs u = elim (Bool-cases (any (is_credit c.customer_id c.reason) cs)) [
  | inl seen ↦ rw seen u
  | inr fresh ↦ elim (Bool-cases (ltb 0 c.amount_micros)) [
    | inl positive ↦ rw (fresh, positive) (fresh, ground arith, u)
    | inr nothing ↦ rw (fresh, nothing) u
  ]
]

then_run-IsUnique :
    (r : Run) (f : Rows → Run)
    → IsUnique (rows_of r).credits
    → ((s : Rows) → IsUnique s.credits → IsUnique (rows_of (f s)).credits)
    → IsUnique (rows_of (then_run r f)).credits
then_run-IsUnique (done s) f u h = h s u
then_run-IsUnique (threw e s) f u h = u

module _ (scale : ℕ) (iso : ℕ → String) (now : ℕ) where
  grant_credit-IsUnique :
      (d : Definition) (customer : Option String) (status : SloWindowStatus) (s : Rows)
      → IsUnique s.credits
      → IsUnique (rows_of (grant_credit scale iso d now customer status s)).credits
  unfolding grant_credit
  grant_credit-IsUnique d none status s u = u
  grant_credit-IsUnique d (some customer) status s u =
      elim (Bool-cases (is_breached status && not (customer == ""))) [
        | inr quiet ↦ rw quiet u
        | inl due ↦
            elim (Result-cases (compute_credit_micros (by_input true d.credit_micros none))) [
              | inl (amount, priced) ↦
                  rw (due, priced)
                    (write_credit-IsUnique
                      (record {
                        customer_id = customer;
                        reason = credit_reason scale iso d now;
                        amount_micros = amount;
                      })
                      s.credits u)
              | inr (e, refused) ↦ rw (due, refused) u
            ]
      ]

  roll_group-IsUnique :
      (d : Definition) (customer : Option String) (rows : List Request) (s : Rows)
      → IsUnique s.credits
      → IsUnique (rows_of (roll_group scale iso d now customer rows s)).credits
  unfolding roll_group
  roll_group-IsUnique d customer rows s u = elim (Result-cases (group_status scale iso d rows)) [
    | inl (status, rated) ↦ rw (IsUnique, rated) (grant_credit-IsUnique d customer status _ u)
    | inr (e, refused) ↦ rw (IsUnique, refused) u
  ]

  roll_groups-IsUnique :
      (d : Definition) (gs : List (Option String × List Request)) (s : Rows)
      → IsUnique s.credits
      → IsUnique (rows_of (roll_groups scale iso d now gs s)).credits
  unfolding roll_groups
  roll_groups-IsUnique d [] s u = u
  roll_groups-IsUnique d ((c, rows) ∷ gs) s u =
      then_run-IsUnique (roll_group scale iso d now c rows s) (roll_groups scale iso d now gs)
        (roll_group-IsUnique d c rows s u) (roll_groups-IsUnique d gs)

  -- A rollup, whether it runs to the end or throws on the way, leaves no two credits for one customer and
  -- one reason, and none over nothing, if there were none before.
  pub rollup_slo_windows-IsUnique :
      (ds : List Definition) (requests : List Request) (s : Rows)
      → IsUnique s.credits
      → IsUnique (rows_of (rollup_slo_windows scale iso ds requests now s)).credits
  unfolding rollup_slo_windows
  rollup_slo_windows-IsUnique [] requests s u = u
  rollup_slo_windows-IsUnique (d ∷ ds) requests s u =
      let rows = filter (in_window scale iso d now) requests in
      let groups = group_requests rows ((none, rows) ∷ []) in
      then_run-IsUnique (roll_groups scale iso d now groups s)
        (rollup_slo_windows scale iso ds requests now) (roll_groups-IsUnique d groups s u)
        (rollup_slo_windows-IsUnique ds requests)
