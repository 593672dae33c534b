-- ===== src/Access/QuotaCheck.antt =====
-- quotaMiddleware and bumpQuotaCache of apps/gateway/src/middleware/quotaCheck.ts.
-- The cache is Redis: its keys are "quota:" and a customer's id, of which the model keeps the id,
-- and its values are the printed numbers. A database
-- that does not answer is `none`.
use Prim.Native.String.{String}
use modelforge_ai.Base.{
  ℕ, ◌≡◌, refl, sym, ap, ◌∙◌, inl, inr, Bool, true, false, not, ◌&&◌, ◌||◌, Option, none, some,
  List, arith, if◌then◌else◌, Bool-cases, Option-cases,
}
use modelforge_ai.Base.Int.{ℤ, pos, ◌+ℤ◌, ltb_ℤ}
use modelforge_ai.Base.Text.{◌==◌, text_eq, eq_of_beq}
use modelforge_ai.Base.Assoc.{lookup, insert}
use modelforge_ai.Base.Result.{Result, ok, err}
use modelforge_ai.Quota.Tables.{Ledger, Db, find_ledger}
use modelforge_ai.Access.Auth.{AuthContext, BillingMode, usage, subscription, Rejection, reject}

abbrev pub Cache : Type 0
Cache = List (String × ℤ)

-- ledger?.tokensUsed ?? 0n
abbrev pub used_of : Option Ledger → ℤ
used_of none = pos 0
used_of (some l) = l.tokens_used

-- a >= b
abbrev pub geb_ℤ : ℤ → ℤ → Bool
geb_ℤ a b = not (ltb_ℤ a b)

abbrev pub is_zero : ℤ → Bool
is_zero n = not (ltb_ℤ n (pos 0)) && not (ltb_ℤ (pos 0) n)

abbrev pub is_usage : BillingMode → Bool
is_usage usage = true
is_usage subscription = false

-- The plan has no quota: `auth.billingMode === "USAGE" || auth.monthlyTokenQuota === 0n`.
abbrev pub is_unlimited : AuthContext → Bool
is_unlimited auth = is_usage auth.billing_mode || is_zero auth.monthly_token_quota

-- Redis: switched off by `isRedisEnabled()`, not answering, or the entries it has.
pub data Redis : Type 0 where
  disabled down : Redis
  up : Cache → Redis

-- The tokens used, as the cache has them; on a miss they are read from the ledger and cached.
unfoldable pub cached_used : String → Option Db → Cache → Option (ℤ × Redis)
cached_used customer db cache = elim (lookup customer cache) [
  | some used ↦ some (used, up cache)
  | none ↦ elim db [
    | none ↦ none
    | some rows ↦
        let used = used_of (find_ledger customer rows) in
        some (used, up (insert customer used cache))
  ]
]

-- Nothing, when a store that is asked does not answer.
unfoldable pub used_tokens : String → Option Db → Redis → Option (ℤ × Redis)
used_tokens customer none disabled = none
used_tokens customer (some rows) disabled = some (used_of (find_ledger customer rows), disabled)
used_tokens customer db down = none
used_tokens customer db (up cache) = cached_used customer db cache

-- `used >= auth.monthlyTokenQuota`
abbrev pub within_quota : AuthContext → ℤ → Result Rejection (Unit {0})
within_quota auth used =
    if geb_ℤ used auth.monthly_token_quota
    then err (reject 429 "quota_exceeded" "Monthly token quota exhausted")
    else ok tt

unfoldable pub quota_middleware :
    Option AuthContext → Option Db → Redis → Result Rejection (Unit {0}) × Redis
quota_middleware none db redis = (err (reject 401 "authentication_error" "Unauthenticated"), redis)
quota_middleware (some auth) db redis =
    if is_unlimited auth then (ok tt, redis) else (elim (used_tokens auth.customer_id db redis) [
      | none ↦ (err (reject 503 "server_error" "Quota service unavailable"), redis)
      | some (used, redis') ↦ (within_quota auth used, redis')
    ])

-- Nothing, when Redis throws.
unfoldable pub bump_quota_cache : String → ℕ → Redis → Option Redis
bump_quota_cache customer tokens disabled = some disabled
bump_quota_cache customer tokens down = none
bump_quota_cache customer tokens (up cache) = elim (lookup customer cache) [
  | none ↦ some (up cache)
  | some used ↦ some (up (insert customer (used +ℤ pos tokens) cache))
]

-- What the cache says of a customer is what the ledger says.
abbrev pub IsFresh : Db → Cache → Type 0
IsFresh db cache =
    (customer : String) (used : ℤ)
    → lookup customer cache ≡ some used
    → used ≡ used_of (find_ledger customer db)

abbrev pub IsFreshRedis : Db → Redis → Type 0
IsFreshRedis db disabled = Unit
IsFreshRedis db down = Unit
IsFreshRedis db (up cache) = IsFresh db cache

insert-IsFresh :
    (db : Db) (customer : String) (cache : Cache)
    → IsFresh db cache
    → IsFresh db (insert customer (used_of (find_ledger customer db)) cache)
insert-IsFresh db customer cache fresh other used h = elim (Bool-cases (customer == other)) [
  | inl same ↦
      let e : customer ≡ other = eq_of_beq customer other same in
      let stored : used_of (find_ledger customer db) ≡ used = ground (arith, h, same) in
      sym stored ∙ ap (λ c. used_of (find_ledger c db)) e
  | inr different ↦ fresh other used (ground (arith, h, different))
]

cached_used-fresh :
    (db : Db) (customer : String) (cache : Cache)
    → IsFresh db cache
    → (redis : Redis) × (cached_used customer (some db) cache
        ≡ some (used_of (find_ledger customer db), redis))
      × IsFreshRedis db redis
unfolding cached_used
cached_used-fresh db customer cache fresh = elim (Option-cases (lookup customer cache)) [
  | inl miss ↦ (
    up (insert customer (used_of (find_ledger customer db)) cache),
    rw (cached_used, miss) refl,
    insert-IsFresh db customer cache fresh,
  )
  | inr (used, hit) ↦ (up cache, rw (cached_used, hit, sym (fresh customer used hit)) refl, fresh)
]

missed_hit :
    (customer other : String) (cache : Cache) (used : ℤ)
    → lookup customer cache ≡ none
    → (customer == other) ≡ true
    → lookup other cache ≡ some used
    → ⊥
missed_hit customer other cache used miss equal h =
    let e : customer ≡ other = eq_of_beq customer other equal in
    let q : lookup customer cache ≡ some used = ap (λ c. lookup c cache) e ∙ h in cc

-- With a cache whose entries agree with the ledger, the middleware answers as it does without
-- Redis, and leaves a cache that agrees with the ledger.
pub quota_middleware-fresh :
    (auth : AuthContext) (db : Db) (cache : Cache)
    → IsFresh db cache
    → ((quota_middleware (some auth) (some db) (up cache)).0
        ≡ (quota_middleware (some auth) (some db) disabled).0)
      × IsFreshRedis db (quota_middleware (some auth) (some db) (up cache)).1
unfolding quota_middleware used_tokens
quota_middleware-fresh auth db cache fresh = elim (Bool-cases (is_unlimited auth)) [
  | inl unlimited ↦ rw unlimited (refl, fresh)
  | inr limited ↦
      let (redis, read, fresh') = cached_used-fresh db auth.customer_id cache fresh in
      rw (limited, read) (refl, fresh')
]

-- Adding a request's tokens to the cache keeps it in agreement with the ledger, when the ledger of
-- that customer, and of no other, has grown by as many.
pub bump_quota_cache-fresh :
    (before after : Db) (customer : String) (tokens : ℕ) (cache : Cache)
    → IsFresh before cache
    → used_of (find_ledger customer after) ≡ used_of (find_ledger customer before) +ℤ pos tokens
    → ((other : String)
        → (customer == other) ≡ false
        → used_of (find_ledger other after) ≡ used_of (find_ledger other before))
    → (redis : Redis) × (bump_quota_cache customer tokens (up cache) ≡ some redis)
      × IsFreshRedis after redis
unfolding bump_quota_cache
bump_quota_cache-fresh before after customer tokens cache fresh grown same =
    elim (Option-cases (lookup customer cache)) [
      | inl miss ↦ (
        up cache,
        rw (bump_quota_cache, miss) refl,
        λ other used h. elim (Bool-cases (customer == other)) [
          | inl equal ↦ absurd (missed_hit customer other cache used miss equal h)
          | inr apart ↦ fresh other used h ∙ sym (same other apart)
        ],
      )
      | inr (used, hit) ↦ (
        up (insert customer (used +ℤ pos tokens) cache),
        rw (bump_quota_cache, hit) refl,
        λ other u h. elim (Bool-cases (customer == other)) [
          | inl equal ↦
              let e : customer ≡ other = eq_of_beq customer other equal in
              let bumped : used +ℤ pos tokens ≡ u = ground (arith, h, equal) in
              sym bumped
              ∙ ap (λ n. n +ℤ pos tokens) (fresh customer used hit)
              ∙ sym grown
              ∙ ap (λ c. used_of (find_ledger c after)) e
          | inr apart ↦ fresh other u (ground (arith, h, apart)) ∙ sym (same other apart)
        ],
      )
    ]
