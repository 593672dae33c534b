-- ===== src/Chat/Twice.antt =====
-- What becomes of the ledger where a chat request fails after its tokens are committed
-- (apps/gateway/src/routes/v1.ts): the catch releases the reservation again.
use Prim.Native.String.{String, ◌++◌}
use modelforge_ai.Base.{
  ◌≡◌, refl, sym, ap, ◌∙◌, subst, inl, inr, true, false, none, some, ltb, ◌+◌, if◌then◌else◌,
}
use modelforge_ai.Base.Int.{ℤ, pos, ◌+ℤ◌, ◌-ℤ◌, ltb_ℤ}
use modelforge_ai.Base.Text.{◌==◌, text_eq}
use modelforge_ai.Base.Result.{ok}
use modelforge_ai.Quota.Tables.{Db, LedgerEntry, find_entry, find_ledger}
use modelforge_ai.Quota.Operations.{
  World, ReserveQuotaInput, CommitQuotaInput, commit_quota, release_quota, reserve_tx, commit_tx,
  release_tx,
}
use modelforge_ai.Quota.Post.{posted, commit_tx_cases}
use modelforge_ai.Quota.Keys.{IsQuiet, run_quiet}
use modelforge_ai.Quota.Amounts.{reserve_tx-within_limit, release_tx-moves, release-lt}
use modelforge_ai.Quota.Cycle.{
  IsFresh, no_change, ledger_before, next_key_new, commit_tx_total, release_tx_total,
  reserve_tx-commit_tx,
}
use modelforge_ai.Requests.Execution.{finalize_inference_request}
use modelforge_ai.Access.QuotaCheck.{Cache, up}
use modelforge_ai.Chat.Errors.{Thrown}
use modelforge_ai.Chat.Charged.{HasBalances}
use modelforge_ai.Chat.Settlement.{
  Gateway, Surroundings, MeterInput, queue_error, success_fields, meter_commit, usage_job,
  enqueue_usage, meter_cache, meter_quota, meter_usage, finalize_and_meter, Underway,
  failure_release, settle_failure,
}

-- Another key stays new when a commit is written.
commit_tx-new :
    (c : CommitQuotaInput) (db : Db) (r : LedgerEntry) (db' : Db) (key : String)
    → find_entry key db ≡ none
    → (c.idempotency_key == key) ≡ false
    → commit_tx c db ≡ ok (r, db')
    → find_entry key db' ≡ none
unfolding find_entry posted
commit_tx-new c db r db' key new apart h = elim (commit_tx_cases c db r db' h) [
  | inl f ↦ rw f.same new
  | inr p ↦ rw (p.written.is_posted, apart) new
]

-- What a release leaves of the reserved tokens.
abbrev pub still_reserved : ℤ → ℤ → ℤ
still_reserved held asked = held +ℤ (pos 0 -ℤ (if ltb_ℤ held asked then held else asked))

module _ (s : Surroundings) (quiet : IsQuiet s.world) where
  -- Where the commit goes through and the queue throws, the commit stays.
  meter_unqueued :
      (i : MeterInput) (g : Gateway) (cache : Cache) (r : LedgerEntry) (db' : Db)
      → ltb 0 i.reserved_tokens ≡ true
      → g.cache ≡ up cache
      → s.add_job (usage_job i) g.queued ≡ none
      → commit_tx (meter_commit i) g.ledger ≡ ok (r, db')
      → meter_usage s i (meter_quota s i g) ≡ (some queue_error, record g { ledger = db' })
  unfolding meter_usage meter_quota meter_cache enqueue_usage commit_quota
  meter_unqueued i g cache r db' held on fails k =
      let committed = run_quiet s.world (commit_tx (meter_commit i)) g.ledger r db' quiet k in
      let quota : meter_quota s i g ≡ (none, record g { ledger = db' }) =
        rw (held, committed (i.execution_id ++ ":usage:commit")) refl in
      let usage : enqueue_usage s (usage_job i) (record g { ledger = db' })
          ≡ (some queue_error, record g { ledger = db' }) =
        rw (on, fails) (ap (λ x. (some queue_error, record g { ledger = db'; cache = x })) on) in
      ap (meter_usage s i) quota ∙ ap (meter_cache s i) usage

  module _ (w : World) (q : ReserveQuotaInput) (db : Db) (r : LedgerEntry) (db' : Db) where
    -- A request that reserves a positive number of tokens under a positive limit, with keys that are new,
    -- is answered, and fails to queue its usage job, undisturbed and with its row in the store, is charged
    -- the tokens of its prompt and its completion; and though the commit has taken its reservation back,
    -- the catch releases it again: of the positive number of tokens that were reserved before the request,
    -- as many as it had reserved are taken, or all where these are fewer, so that fewer are left.
    pub settle_failure-takes_others :
        (i : MeterInput) (u : Underway) (t : Thrown) (g : Gateway) (cache : Cache)
        → IsFresh q.request_id q.idempotency_key (i.execution_id ++ ":usage:commit") db
        → IsFresh q.request_id q.idempotency_key (q.request_id ++ ":release") db
        → (i.execution_id ++ ":usage:commit" == q.request_id ++ ":release") ≡ false
        → ltb_ℤ (pos 0) q.limit ≡ true
        → ltb_ℤ (pos 0) q.estimated_tokens ≡ true
        → reserve_tx w q db ≡ ok (r, db')
        → ltb_ℤ (pos 0) (ledger_before w q db).tokens_reserved ≡ true
        → i.customer_id ≡ q.customer_id
        → i.execution_id ≡ q.request_id
        → ltb 0 i.reserved_tokens ≡ true
        → u.customer_id ≡ q.customer_id
        → u.execution_id ≡ some q.request_id
        → ltb 0 u.reserved_tokens ≡ true
        → pos u.reserved_tokens ≡ q.estimated_tokens
        → g.ledger ≡ db'
        → g.cache ≡ up cache
        → s.add_job (usage_job i) g.queued ≡ none
        → (finalize_inference_request i.execution_id (success_fields i) s.now g.store).0 ≡ none
        → ((finalize_and_meter s i g).0 ≡ some queue_error)
          × HasBalances q.customer_id
              ((ledger_before w q db).tokens_used +ℤ pos (i.prompt_tokens + i.completion_tokens))
              (still_reserved (ledger_before w q db).tokens_reserved q.estimated_tokens)
              (settle_failure s u t (finalize_and_meter s i g).1).ledger
          × (ltb_ℤ
                (still_reserved (ledger_before w q db).tokens_reserved q.estimated_tokens)
                (ledger_before w q db).tokens_reserved
              ≡ true)
    unfolding finalize_and_meter settle_failure release_quota
    settle_failure-takes_others i u t g cache fresh fresh' apart limited asked h others customer
          request held customer' request' held' taken here on fails stored =
        let c = meter_commit i in
        let d = failure_release q.request_id u in
        let (l, found, _, _) = reserve_tx-within_limit w q db r db' limited fresh.new_key h in
        let new : find_entry c.idempotency_key db' ≡ none =
          next_key_new w q db r db' c.idempotency_key fresh limited asked h in
        let new' : find_entry d.idempotency_key db' ≡ none =
          next_key_new w q db r db' d.idempotency_key fresh' limited asked h in
        let of_i = subst (λ x. find_ledger x db' ≡ some l) (sym customer) found in
        let (e, db2, k) = commit_tx_total c db' l new of_i in
        let (l2, found2, used2, reserved2) =
          reserve_tx-commit_tx w q db r db' c.idempotency_key fresh limited asked h c e db2 customer
            request refl k in
        let of_u = subst (λ x. find_ledger x db2 ≡ some l2) (sym customer') found2 in
        let new2 = commit_tx-new c db' e db2 d.idempotency_key new' apart k in
        let (e3, db3, k3) = release_tx_total d db2 l2 new2 of_u in
        let (l3, found3, (used3, reserved3, _)) = release_tx-moves d db2 e3 db3 l2 new2 of_u k3 in
        let g' : Gateway = record g {
          store = (finalize_inference_request i.execution_id (success_fields i) s.now g.store).1;
        } in
        let whole : finalize_and_meter s i g ≡ (some queue_error, record g' { ledger = db2 }) =
          rw stored (meter_unqueued i g' cache e db2 held on fails (rw here k)) in
        let released : (release_quota s.world d db2).1 ≡ db3 =
          rw (run_quiet s.world (release_tx d) db2 e3 db3 quiet k3 d.idempotency_key) refl in
        let settled : (settle_failure s u t (record g' { ledger = db2 })).ledger ≡ db3 =
          rw (request', held', released) refl in
        (
          ap (λ end. end.0) whole,
          record {
            ledger = l3;
            of_customer =
                subst (λ x. find_ledger q.customer_id x ≡ some l3)
                  (sym (ap (λ end. (settle_failure s u t end.1).ledger) whole ∙ settled))
                  (subst (λ x. find_ledger x db3 ≡ some l3) customer' found3);
            is_used = used3 ∙ no_change l2.tokens_used ∙ used2;
            is_reserved =
                reserved3
                ∙ ap (λ n. still_reserved n d.reserved_tokens) reserved2
                ∙ ap (still_reserved (ledger_before w q db).tokens_reserved) taken;
          },
          release-lt (ledger_before w q db).tokens_reserved q.estimated_tokens others asked,
        )
