-- ===== src/Slo/Rollup.antt =====
-- rollupSloWindows of apps/gateway/src/lib/modernJobs.ts: for each definition, the requests of the
-- current window are grouped by customer (`null` for all of them), each group's status is recorded,
-- and a breach earns a credit once. Targets are in units of which there are `scale` to a percent;
-- `iso` is Date.prototype.toISOString.
use Prim.Native.String.{String, ◌++◌ as ◌+++◌}
use modelforge_ai.Base.{
  ℕ, ◌+◌, ◌*◌, ◌/◌, Bool, true, false, not, ◌&&◌, Option, none, some, List, [], ◌∷◌, ◌++◌, map,
  if◌then◌else◌, ltb, leb, length,
}
use modelforge_ai.Base.Int.{ℤ, pos}
use modelforge_ai.Base.Text.{◌==◌, text_eq, nat_eq}
use modelforge_ai.Base.Preds.{filter, any}
use modelforge_ai.Base.Result.{Result, ok, err}
use modelforge_ai.Slo.Status.{
  SloWindowStatus, finite, SloError, is_breached, compute_window_status, by_input,
  compute_credit_micros,
}
use modelforge_ai.Slo.Percentile.{percentile}

pub record Definition : Type 0 where
  pub id : String
  pub name : String
  pub latency_p95_ms : ℕ
  pub availability_pct : ℕ
  pub window_minutes : ℕ
  pub credit_micros : ℤ

-- `succeeded` is `status === "SUCCEEDED"`.
pub record Request : Type 0 where
  pub customer_id : String
  pub succeeded : Bool
  pub latency_ms : ℕ
  pub created_at : ℕ

-- The row's availabilityPct is left out: it is the percentage of `success_count` in `request_count`, and
-- 100 for no requests.
pub record SloWindow : Type 0 where
  pub definition_id : String
  pub customer_id : Option String
  pub window_start : ℕ
  pub window_end : ℕ
  pub request_count : ℕ
  pub success_count : ℕ
  pub breach_count : ℕ
  pub p95_latency_ms : ℕ
  pub status : SloWindowStatus

pub record ServiceCredit : Type 0 where
  pub customer_id : String
  pub reason : String
  pub amount_micros : ℕ

-- The rows that a rollup writes.
pub record Rows : Type 0 where
  pub windows : List SloWindow
  pub credits : List ServiceCredit

-- What a rollup leaves behind, and whether it has thrown: what was written before stays.
pub data Run : Type 0 where
  done : Rows → Run
  threw : SloError → Rows → Run

abbrev pub then_run : Run → (Rows → Run) → Run
then_run (done s) f = f s
then_run (threw e s) f = threw e s

abbrev pub rows_of : Run → Rows
rows_of (done s) = s
rows_of (threw e s) = s

abbrev pub same_customer : Option String → Option String → Bool
same_customer none none = true
same_customer (some a) (some b) = a == b
same_customer _ _ = false

-- `bucket.push(request)` in the bucket of a customer, which is made where there is none.
unfoldable pub push_request :
    Request → List (Option String × List Request) → List (Option String × List Request)
push_request r [] = (some r.customer_id, r ∷ []) ∷ []
push_request r ((c, rows) ∷ gs) =
    let rest = push_request r gs in
    if same_customer (some r.customer_id) c then (c, rows ++ (r ∷ [])) ∷ gs else (c, rows) ∷ rest

unfoldable pub group_requests :
    List Request → List (Option String × List Request) → List (Option String × List Request)
group_requests [] gs = gs
group_requests (r ∷ rs) gs = group_requests rs (push_request r gs)

abbrev pub succeeded_rows : List Request → List Request
succeeded_rows rows = filter (λ r. r.succeeded) rows

abbrev pub is_window : String → Option String → ℕ → SloWindow → Bool
is_window definition customer start w =
    w.definition_id == definition && same_customer w.customer_id customer && w.window_start == start

-- The upsert, and for `null` the find and update or create.
unfoldable pub write_window : SloWindow → List SloWindow → List SloWindow
write_window w [] = w ∷ []
write_window w (v ∷ vs) =
    let rest = write_window w vs in
    if is_window w.definition_id w.customer_id w.window_start v then w ∷ vs else v ∷ rest

abbrev pub is_credit : String → String → ServiceCredit → Bool
is_credit customer reason c = c.customer_id == customer && c.reason == reason

-- `if (!existing && amount > 0n)`
unfoldable pub write_credit : ServiceCredit → List ServiceCredit → List ServiceCredit
write_credit c credits =
    if any (is_credit c.customer_id c.reason) credits
    then credits
    else (if ltb 0 c.amount_micros then c ∷ credits else credits)

module _ (scale : ℕ) (iso : ℕ → String) where
  abbrev pub window_ms : Definition → ℕ
  window_ms d = d.window_minutes * 60_000

  -- Math.floor(now / windowMs) * windowMs
  abbrev pub window_start : Definition → ℕ → ℕ
  window_start d now = now / window_ms d * window_ms d

  abbrev pub in_window : Definition → ℕ → Request → Bool
  in_window d now r =
      leb (window_start d now) r.created_at && ltb r.created_at (window_start d now + window_ms d)

  -- The status of a group: the availability is a quotient by the number of rows, so that number is
  -- multiplied into the units; without rows it is 100 %.
  unfoldable pub group_status : Definition → List Request → Result SloError SloWindowStatus
  group_status d rows =
      let p95 = percentile (map (λ r. r.latency_ms) (succeeded_rows rows)) 95 in
      let n = if length rows == 0 then 1 else length rows in
      let successes = if length rows == 0 then 1 else length (succeeded_rows rows) in
      compute_window_status (scale * n) (finite (pos (100 * scale * successes))) (finite (pos p95))
        (record {
          availability_pct = pos (d.availability_pct * n);
          latency_p95_ms = pos d.latency_p95_ms;
          at_risk_availability_pct = none;
          at_risk_latency_p95_ms = none;
        })

  abbrev pub credit_reason : Definition → ℕ → String
  credit_reason d now = "SLO " +++ d.name +++ " breached for window " +++ iso (window_start d now)

  abbrev pub window_row :
      Definition → ℕ → Option String → List Request → SloWindowStatus → SloWindow
  window_row d now customer rows status = record {
    definition_id = d.id;
    customer_id = customer;
    window_start = window_start d now;
    window_end = window_start d now + window_ms d;
    request_count = length rows;
    success_count = length (succeeded_rows rows);
    breach_count = if is_breached status then 1 else 0;
    p95_latency_ms = percentile (map (λ r. r.latency_ms) (succeeded_rows rows)) 95;
    status = status;
  }

  -- The credit of a breach; the empty id is falsy.
  unfoldable pub grant_credit : Definition → ℕ → Option String → SloWindowStatus → Rows → Run
  grant_credit d now none status s = done s
  grant_credit d now (some customer) status s =
      if is_breached status && not (customer == "")
      then (elim (compute_credit_micros (by_input true d.credit_micros none)) [
        | err e ↦ threw e s
        | ok amount ↦ done (record s {
          credits =
              write_credit
                (record {
                  customer_id = customer;
                  reason = credit_reason d now;
                  amount_micros = amount;
                })
                s.credits;
        })
      ])
      else done s

  unfoldable pub roll_group : Definition → ℕ → Option String → List Request → Rows → Run
  roll_group d now customer rows s = elim (group_status d rows) [
    | err e ↦ threw e s
    | ok status ↦
        grant_credit d now customer status
          (record s { windows = write_window (window_row d now customer rows status) s.windows })
  ]

  unfoldable pub roll_groups : Definition → ℕ → List (Option String × List Request) → Rows → Run
  roll_groups d now [] s = done s
  roll_groups d now ((c, rows) ∷ gs) s = then_run (roll_group d now c rows s) (roll_groups d now gs)

  unfoldable pub rollup_slo_windows : List Definition → List Request → ℕ → Rows → Run
  rollup_slo_windows [] requests now s = done s
  rollup_slo_windows (d ∷ ds) requests now s =
      let rows = filter (in_window d now) requests in
      then_run (roll_groups d now (group_requests rows ((none, rows) ∷ [])) s)
        (rollup_slo_windows ds requests now)
