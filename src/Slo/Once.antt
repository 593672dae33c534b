-- ===== src/Slo/Once.antt =====
-- How often rollupSloWindows of apps/gateway/src/lib/modernJobs.ts pays for a window that is rolled up again.
use Prim.Native.String.{String, ◌++◌ as ◌+++◌}
use modelforge_ai.Base.{
  ℕ, suc, ◌+◌, ◌≤◌, ◌≡◌, refl, sym, ap, subst, inl, inr, true, false, not, ◌&&◌, Option, none, some,
  List, [], ◌∷◌, map, arith, ltb, length, Bool-cases, if◌then◌else◌,
}
use modelforge_ai.Base.Text.{◌==◌, text_eq, beq_refl, eq_of_beq}
use modelforge_ai.Base.Preds.{any, filter, All, In}
use modelforge_ai.Base.Result.{Result-cases}
use modelforge_ai.Slo.Status.{SloWindowStatus, is_breached, by_input, compute_credit_micros}
use modelforge_ai.Slo.Rollup.{
  Definition, Request, ServiceCredit, Rows, Run, done, threw, then_run, rows_of, is_credit,
  write_credit, group_status, credit_reason, window_start, grant_credit, roll_group, roll_groups,
  rollup_slo_windows, group_requests, in_window,
}
use modelforge_ai.Slo.Credits.{IsUnique, rollup_slo_windows-IsUnique}

-- The credits of a customer, whatever they are for.
abbrev pub credits_of : String → List ServiceCredit → ℕ
credits_of customer [] = 0
credits_of customer (c ∷ cs) =
    if c.customer_id == customer then credits_of customer cs + 1 else credits_of customer cs

-- How many of the reasons have given the customer a credit.
abbrev paid : String → List String → List ServiceCredit → ℕ
paid customer [] cs = 0
paid customer (r ∷ rs) cs =
    if any (is_credit customer r) cs then paid customer rs cs + 1 else paid customer rs cs

paid-length :
    (customer : String) (rs : List String) (cs : List ServiceCredit)
    → paid customer rs cs ≤ length rs
paid-length customer [] cs = omega arith
paid-length customer (r ∷ rs) cs = ground (arith, paid-length customer rs cs)

-- A credit more.
paid-cons :
    (customer : String) (rs : List String) (c : ServiceCredit) (cs : List ServiceCredit)
    → paid customer rs cs ≤ paid customer rs (c ∷ cs)
paid-cons customer [] c cs = omega arith
paid-cons customer (r ∷ rs) c cs = ground (arith, paid-cons customer rs c cs)

paid_more :
    (rs : List String) (c : ServiceCredit) (cs : List ServiceCredit)
    → In c.reason rs
    → any (is_credit c.customer_id c.reason) cs ≡ false
    → paid c.customer_id rs cs + 1 ≤ paid c.customer_id rs (c ∷ cs)
paid_more [] c cs m fresh = absurd m.1
paid_more (r ∷ rs) c cs (inl e) fresh = rw (← e) (
    ground
      (arith, fresh, paid-cons c.customer_id rs c cs, beq_refl c.customer_id, beq_refl c.reason))
paid_more (r ∷ rs) c cs (inr m) fresh = ground (arith, fresh, paid_more rs c cs m fresh)

module _ (customer : String) (rs : List String) (base : ℕ) where
  -- Beyond those that the customer had, there is no credit but one for a reason.
  abbrev IsOnce : Rows → Type 0
  IsOnce s = credits_of customer s.credits ≤ base + paid customer rs s.credits

  write_credit-IsOnce :
      (c : ServiceCredit) (cs : List ServiceCredit)
      → In c.reason rs
      → credits_of customer cs ≤ base + paid customer rs cs
      → credits_of customer (write_credit c cs) ≤ base + paid customer rs (write_credit c cs)
  unfolding write_credit
  write_credit-IsOnce c cs m h = elim (Bool-cases (any (is_credit c.customer_id c.reason) cs)) [
    | inl seen ↦ rw seen h
    | inr fresh ↦ elim (Bool-cases (ltb 0 c.amount_micros)) [
      | inr nothing ↦ rw (fresh, nothing) h
      | inl positive ↦
          rw (fresh, positive)
            (elim (Bool-cases (c.customer_id == customer)) [
              | inr other ↦ rw other (omega (arith, paid-cons customer rs c cs))
              | inl same ↦
                  let e : c.customer_id ≡ customer = eq_of_beq c.customer_id customer same in
                  rw same (
                    omega (
                      arith,
                      subst (λ x. paid x rs cs + 1 ≤ paid x rs (c ∷ cs)) e
                          (paid_more rs c cs m fresh),
                    ))
            ])
    ]
  ]

  then_run-IsOnce :
      (r : Run) (f : Rows → Run)
      → IsOnce (rows_of r)
      → ((s : Rows) → IsOnce s → IsOnce (rows_of (f s)))
      → IsOnce (rows_of (then_run r f))
  then_run-IsOnce (done s) f u h = h s u
  then_run-IsOnce (threw e s) f u h = u

  module _ (scale : ℕ) (iso : ℕ → String) (now : ℕ) where
    grant_credit-IsOnce :
        (d : Definition) (who : Option String) (status : SloWindowStatus) (s : Rows)
        → In (credit_reason scale iso d now) rs
        → IsOnce s
        → IsOnce (rows_of (grant_credit scale iso d now who status s))
    unfolding grant_credit
    grant_credit-IsOnce d none status s m u = u
    grant_credit-IsOnce d (some who) status s m u =
        elim (Bool-cases (is_breached status && not (who == ""))) [
          | inr quiet ↦ rw quiet u
          | inl due ↦
              elim (Result-cases (compute_credit_micros (by_input true d.credit_micros none))) [
                | inl (amount, priced) ↦
                    rw (due, priced)
                      (write_credit-IsOnce
                        (record {
                          customer_id = who;
                          reason = credit_reason scale iso d now;
                          amount_micros = amount;
                        })
                        s.credits m u)
                | inr (e, refused) ↦ rw (due, refused) u
              ]
        ]

    roll_group-IsOnce :
        (d : Definition) (who : Option String) (rows : List Request) (s : Rows)
        → In (credit_reason scale iso d now) rs
        → IsOnce s
        → IsOnce (rows_of (roll_group scale iso d now who rows s))
    unfolding roll_group
    roll_group-IsOnce d who rows s m u = elim (Result-cases (group_status scale iso d rows)) [
      | inl (status, rated) ↦ rw (IsOnce, rows_of, rated) (grant_credit-IsOnce d who status _ m u)
      | inr (e, refused) ↦ rw (IsOnce, rows_of, refused) u
    ]

    roll_groups-IsOnce :
        (d : Definition) (gs : List (Option String × List Request)) (s : Rows)
        → In (credit_reason scale iso d now) rs
        → IsOnce s
        → IsOnce (rows_of (roll_groups scale iso d now gs s))
    unfolding roll_groups
    roll_groups-IsOnce d [] s m u = u
    roll_groups-IsOnce d ((c, rows) ∷ gs) s m u =
        then_run-IsOnce (roll_group scale iso d now c rows s) (roll_groups scale iso d now gs)
          (roll_group-IsOnce d c rows s m u) (λ s' u'. roll_groups-IsOnce d gs s' m u')

    rollup-IsOnce :
        (ds : List Definition) (requests : List Request) (s : Rows)
        → All (λ d. In (credit_reason scale iso d now) rs) ds
        → IsOnce s
        → IsOnce (rows_of (rollup_slo_windows scale iso ds requests now s))
    unfolding rollup_slo_windows
    rollup-IsOnce [] requests s m u = u
    rollup-IsOnce (d ∷ ds) requests s (m, ms) u =
        let rows = filter (in_window scale iso d now) requests in
        let groups = group_requests rows ((none, rows) ∷ []) in
        then_run-IsOnce (roll_groups scale iso d now groups s)
          (rollup_slo_windows scale iso ds requests now) (roll_groups-IsOnce d groups s m u)
          (λ s' u'. rollup-IsOnce ds requests s' ms u')

-- One rollup after the other, each at its time and over the requests of that time; what one that throws has
-- written stays.
unfoldable pub roll_all : ℕ → (ℕ → String) → List Definition → List (ℕ × List Request) → Rows → Rows
roll_all scale iso ds [] s = s
roll_all scale iso ds ((now, requests) ∷ rolls) s =
    roll_all scale iso ds rolls (rows_of (rollup_slo_windows scale iso ds requests now s))

module _ (scale : ℕ) (iso : ℕ → String) (first : ℕ) where
  -- The time falls in the window of the definition in which the first one falls.
  abbrev pub InWindow : ℕ → Definition → Type 0
  InWindow now d = window_start scale iso d now ≡ window_start scale iso d first

  abbrev reasons : List Definition → List String
  reasons ds = map (λ d. credit_reason scale iso d first) ds

  All-reasons :
      (now : ℕ) (rs : List String) (ds : List Definition)
      → All (InWindow now) ds
      → ((r : String) → In r (reasons ds) → In r rs)
      → All (λ d. In (credit_reason scale iso d now) rs) ds
  All-reasons now rs [] w sub = tt
  All-reasons now rs (d ∷ ds) (e, w) sub = (
    subst (λ t. In ("SLO " +++ d.name +++ " breached for window " +++ iso t) rs) (sym e)
        (sub _ (inl refl)),
    All-reasons now rs ds w (λ r m. sub r (inr m)),
  )

  roll_all-IsOnce :
      (customer : String) (base : ℕ) (ds : List Definition) (rolls : List (ℕ × List Request))
      (s : Rows)
      → All (λ (r : ℕ × List Request). All (InWindow r.0) ds) rolls
      → IsOnce customer (reasons ds) base s
      → IsOnce customer (reasons ds) base (roll_all scale iso ds rolls s)
  unfolding roll_all
  roll_all-IsOnce customer base ds [] s w u = u
  roll_all-IsOnce customer base ds ((now, requests) ∷ rolls) s (w, ws) u =
      roll_all-IsOnce customer base ds rolls _ ws (
        rollup-IsOnce customer (reasons ds) base scale iso now ds requests s
          (All-reasons now (reasons ds) ds w (λ r m. m)) u)

  length-reasons : (ds : List Definition) → length (reasons ds) ≡ length ds
  length-reasons [] = refl
  length-reasons (d ∷ ds) = ap suc (length-reasons ds)

  roll_all-IsUnique :
      (ds : List Definition) (rolls : List (ℕ × List Request)) (s : Rows)
      → IsUnique s.credits
      → IsUnique (roll_all scale iso ds rolls s).credits
  unfolding roll_all
  roll_all-IsUnique ds [] s u = u
  roll_all-IsUnique ds ((now, requests) ∷ rolls) s u =
      roll_all-IsUnique ds rolls _ (rollup_slo_windows-IsUnique scale iso now ds requests s u)

  -- Where there are no two credits for one customer and one reason, and none over nothing: however often
  -- the windows of the definitions are rolled up, at whatever times within the same windows and over
  -- whatever requests, and whether a rollup runs to the end or throws on the way, a customer gets no more
  -- than one credit for each definition, and there are no such credits afterwards either.
  pub rollup_slo_windows-pays_once :
      (customer : String) (ds : List Definition) (rolls : List (ℕ × List Request)) (s : Rows)
      → All (λ (r : ℕ × List Request). All (InWindow r.0) ds) rolls
      → IsUnique s.credits
      → (credits_of customer (roll_all scale iso ds rolls s).credits
          ≤ credits_of customer s.credits + length ds)
        × IsUnique (roll_all scale iso ds rolls s).credits
  rollup_slo_windows-pays_once customer ds rolls s w u =
      let end = roll_all scale iso ds rolls s in
      (
        omega (
          arith,
          roll_all-IsOnce customer (credits_of customer s.credits) ds rolls s w (omega arith),
          paid-length customer (reasons ds) end.credits,
          length-reasons ds,
        ),
        roll_all-IsUnique ds rolls s u,
      )
