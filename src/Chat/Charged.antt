-- ===== src/Chat/Charged.antt =====
-- What a chat request costs its customer (apps/gateway/src/routes/v1.ts with lib/quotaLedger.ts and
-- lib/usage.ts): it reserves, and is then metered, or fails.
use Prim.Native.String.{String, ◌++◌}
use text.Mathlib.TextLemmas.{append_assoc}
use modelforge_ai.Base.{◌+◌, ◌≡◌, refl, sym, ap, ◌∙◌, subst, true, none, some, ltb}
use modelforge_ai.Base.Int.{ℤ, pos, ◌+ℤ◌, ◌≤ℤ◌, ltb_ℤ}
use modelforge_ai.Base.Text.{text_eq}
use modelforge_ai.Base.Result.{ok}
use modelforge_ai.Quota.Tables.{Db, Ledger, LedgerEntry, find_entry, find_ledger}
use modelforge_ai.Quota.Operations.{
  World, ReserveQuotaInput, commit_quota, release_quota, reserve_tx, commit_tx, release_tx,
}
use modelforge_ai.Quota.Keys.{IsQuiet, run_quiet, commit_tx-key}
use modelforge_ai.Quota.Amounts.{reserve_tx-within_limit}
use modelforge_ai.Quota.Cycle.{
  IsFresh, ledger_before, next_key_new, commit_tx_total, release_tx_total, reserve_tx-commit_tx,
  reserve_tx-release_tx,
}
use modelforge_ai.Quota.Usage.{
  UsageJob, commit_key, persist_usage_event, persist_usage_event-counts_once,
}
use modelforge_ai.Requests.Execution.{finalize_inference_request}
use modelforge_ai.Access.QuotaCheck.{disabled, bump_quota_cache}
use modelforge_ai.Chat.Errors.{Thrown}
use modelforge_ai.Chat.Settlement.{
  Gateway, Surroundings, MeterInput, success_fields, meter_commit, usage_job, enqueue_usage,
  meter_cache, meter_quota, meter_usage, finalize_and_meter, Underway, failure_release,
  settle_failure,
}

-- A customer's ledger has these balances.
pub record HasBalances (customer : String) (used reserved : ℤ) (db : Db) : Type 0 where
  pub ledger : Ledger
  pub of_customer : find_ledger customer db ≡ some ledger
  pub is_used : ledger.tokens_used ≡ used
  pub is_reserved : ledger.tokens_reserved ≡ reserved

same_key : (i : MeterInput) → (meter_commit i).idempotency_key ≡ commit_key (usage_job i)
same_key i = sym (append_assoc i.execution_id ":usage" ":commit")

-- A usage job whose tokens are committed leaves the balances.
persist_usage_event-HasBalances :
    (w : World) (job : UsageJob) (db : Db) (e : LedgerEntry) (used reserved : ℤ)
    → find_entry (commit_key job) db ≡ some e
    → HasBalances job.customer_id used reserved db
    → HasBalances job.customer_id used reserved (persist_usage_event w job db)
unfolding find_ledger
persist_usage_event-HasBalances w job db e used reserved known b =
    let (same, _) = persist_usage_event-counts_once w job db b.ledger e known b.of_customer in
    record {
      ledger = b.ledger;
      of_customer = rw same b.of_customer;
      is_used = b.is_used;
      is_reserved = b.is_reserved;
    }

module _ (s : Surroundings) (quiet : IsQuiet s.world) where
  -- Where the commit goes through and there is no Redis, what is left is the job, persisted.
  meter_quiet :
      (i : MeterInput) (g : Gateway) (r : LedgerEntry) (db' : Db)
      → ltb 0 i.reserved_tokens ≡ true
      → g.cache ≡ disabled
      → commit_tx (meter_commit i) g.ledger ≡ ok (r, db')
      → meter_usage s i (meter_quota s i g) ≡ (
        none,
        record g { ledger = persist_usage_event s.usage_world (usage_job i) db'; cache = disabled },
      )
  unfolding meter_usage meter_quota meter_cache enqueue_usage bump_quota_cache commit_quota
  meter_quiet i g r db' held off k =
      let committed = run_quiet s.world (commit_tx (meter_commit i)) g.ledger r db' quiet k in
      let quota : meter_quota s i g ≡ (none, record g { ledger = db' }) =
        rw (held, committed (i.execution_id ++ ":usage:commit")) refl in
      let usage : enqueue_usage s (usage_job i) (record g { ledger = db' }) ≡ (
        none,
        record g { ledger = persist_usage_event s.usage_world (usage_job i) db'; cache = disabled },
      ) =
        rw off (
          ap
            (λ x. (
              none,
              record g { ledger = persist_usage_event s.usage_world (usage_job i) db'; cache = x },
            ))
            off) in
      ap (meter_usage s i) quota ∙ ap (meter_cache s i) usage

  module _ (w : World) (q : ReserveQuotaInput) (db : Db) (r : LedgerEntry) (db' : Db) where
    -- A request that reserves a positive number of tokens under a positive limit, with keys that are new,
    -- and is then metered, undisturbed, without Redis and with its row in the store, is charged the
    -- tokens of its prompt and its completion once, though both commitQuota and the usage job count
    -- them; and what its customer has reserved is what it was.
    pub finalize_and_meter-charges :
        (i : MeterInput) (g : Gateway)
        → IsFresh q.request_id q.idempotency_key (i.execution_id ++ ":usage:commit") db
        → ltb_ℤ (pos 0) q.limit ≡ true
        → ltb_ℤ (pos 0) q.estimated_tokens ≡ true
        → reserve_tx w q db ≡ ok (r, db')
        → i.customer_id ≡ q.customer_id
        → i.execution_id ≡ q.request_id
        → ltb 0 i.reserved_tokens ≡ true
        → g.ledger ≡ db'
        → g.cache ≡ disabled
        → (finalize_inference_request i.execution_id (success_fields i) s.now g.store).0 ≡ none
        → ((finalize_and_meter s i g).0 ≡ none)
          × HasBalances i.customer_id
              ((ledger_before w q db).tokens_used +ℤ pos (i.prompt_tokens + i.completion_tokens))
              (ledger_before w q db).tokens_reserved
              (finalize_and_meter s i g).1.ledger
    unfolding finalize_and_meter
    finalize_and_meter-charges i g fresh limited asked h customer request held here off stored =
        let c = meter_commit i in
        let (l, found, _, _) = reserve_tx-within_limit w q db r db' limited fresh.new_key h in
        let new : find_entry c.idempotency_key db' ≡ none =
          next_key_new w q db r db' c.idempotency_key fresh limited asked h in
        let (e, db'', k) = commit_tx_total c db' l new (rw customer found) in
        let (l', found', used, reserved) =
          reserve_tx-commit_tx w q db r db' c.idempotency_key fresh limited asked h c e db''
            customer request refl k in
        let known : find_entry (commit_key (usage_job i)) db'' ≡ some e =
          subst (λ key. find_entry key db'' ≡ some e) (same_key i) (commit_tx-key db' e db'' c k) in
        let balances =
          persist_usage_event-HasBalances s.usage_world (usage_job i) db'' e _ _ known (record {
            ledger = l';
            of_customer = subst (λ x. find_ledger x db'' ≡ some l') (sym customer) found';
            is_used = used;
            is_reserved = reserved;
          }) in
        let g' : Gateway = record g {
          store = (finalize_inference_request i.execution_id (success_fields i) s.now g.store).1;
        } in
        let whole : finalize_and_meter s i g ≡ (
          none,
          record g' {
            ledger = persist_usage_event s.usage_world (usage_job i) db'';
            cache = disabled;
          },
        ) =
          rw stored (meter_quiet i g' e db'' held off (rw here k)) in
        subst
          (λ end.
            (end.0 ≡ none)
            × HasBalances i.customer_id
                ((ledger_before w q db).tokens_used +ℤ pos (i.prompt_tokens + i.completion_tokens))
                (ledger_before w q db).tokens_reserved end.1.ledger)
          (sym whole) (refl, balances)

    -- A request that reserves a positive number of tokens under a positive limit, with keys that are new,
    -- and then fails before it is metered, undisturbed, leaves its customer's balances as they were, if
    -- the reserved tokens were not negative.
    pub settle_failure-HasBalances :
        (u : Underway) (t : Thrown) (g : Gateway)
        → IsFresh q.request_id q.idempotency_key (q.request_id ++ ":release") db
        → ltb_ℤ (pos 0) q.limit ≡ true
        → ltb_ℤ (pos 0) q.estimated_tokens ≡ true
        → reserve_tx w q db ≡ ok (r, db')
        → pos 0 ≤ℤ (ledger_before w q db).tokens_reserved
        → u.customer_id ≡ q.customer_id
        → u.execution_id ≡ some q.request_id
        → pos u.reserved_tokens ≡ q.estimated_tokens
        → ltb 0 u.reserved_tokens ≡ true
        → g.ledger ≡ db'
        → HasBalances q.customer_id
            (ledger_before w q db).tokens_used
            (ledger_before w q db).tokens_reserved
            (settle_failure s u t g).ledger
    unfolding settle_failure release_quota
    settle_failure-HasBalances u t g fresh limited asked h nonneg customer request amount held
          here =
        let (l, found, _, _) = reserve_tx-within_limit w q db r db' limited fresh.new_key h in
        let c = failure_release q.request_id u in
        let new : find_entry c.idempotency_key db' ≡ none =
          next_key_new w q db r db' c.idempotency_key fresh limited asked h in
        let (e, db'', k) = release_tx_total c db' l new (rw customer found) in
        let (l', found', used, reserved) =
          reserve_tx-release_tx w q db r db' c.idempotency_key fresh limited asked h c e db'' nonneg
            customer amount refl k in
        let released : (release_quota s.world c g.ledger).1 ≡ db'' =
          rw (here, run_quiet s.world (release_tx c) db' e db'' quiet k c.idempotency_key) refl in
        let whole : (settle_failure s u t g).ledger ≡ db'' = rw (request, held, released) refl in
        record {
          ledger = l';
          of_customer = rw whole found';
          is_used = used;
          is_reserved = reserved;
        }
