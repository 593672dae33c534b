-- ===== src/Limiter/Expiry.antt =====
-- The concurrency count of apps/gateway/src/middleware/quota.ts with Redis, where its key expires.
use Prim.Native.String.{String}
use modelforge_ai.Base.{
  ℕ, zero, suc, ◌+◌, ◌≤◌, ◌<◌, ◌≡◌, refl, sym, ap, subst, ◌∙◌, inl, inr, Bool, true, false, ◌&&◌,
  Option, none, some, arith, Bool-cases,
}
use modelforge_ai.Base.Int.{ℤ, pos, negsuc, ◌+ℤ◌, ltb_ℤ}
use modelforge_ai.Base.Text.{text_eq, beq_refl}
use modelforge_ai.Base.Assoc.{lookup, insert}
use modelforge_ai.Limiter.Memory.{conc_key}
use modelforge_ai.Limiter.Redis.{
  RedisValue, Redis, get, incr_by, decr, pexpire, incr_with_expiry, conc_ms, redis_acquire_conc,
  if_live, is_one, is_live,
}

get-insert :
    (now : ℕ) (key : String) (v : RedisValue) (m : Redis)
    → get now key (insert key v m) ≡ if_live now (some v)
unfolding get
get-insert now key v m = rw (beq_refl key) refl

-- n requests that come one after the other: whether all get a slot, and the database.
unfoldable pub acquire_times : ℕ → String → ℕ → ℕ → Redis → Bool × Redis
acquire_times zero id max_concurrent now m = (true, m)
acquire_times (suc n) id max_concurrent now m =
    let (first, after) = redis_acquire_conc id max_concurrent now m in
    let (rest, last) = acquire_times n id max_concurrent now after in (first && rest, last)

acquired_first :
    (id : String) (max_concurrent now : ℕ) (m : Redis)
    → get now (conc_key id) m ≡ none
    → 0 < max_concurrent
    → redis_acquire_conc id max_concurrent now m ≡ (
      true,
      insert
          (conc_key id)
          (record { value = pos 1; expires_at = some (now + conc_ms) })
          (insert (conc_key id) (record { value = pos 1; expires_at = none }) m),
    )
unfolding redis_acquire_conc incr_with_expiry incr_by pexpire ◌+ℤ◌
acquired_first id max_concurrent now m h lt =
    let room : ltb_ℤ (pos max_concurrent) (pos 1) ≡ false = ground arith in
    rw (h, get-insert now (conc_key id) (record { value = pos 1; expires_at = none }) m, room) refl

get-live :
    (now : ℕ) (key : String) (m : Redis) (v : RedisValue)
    → get now key m ≡ some v
    → is_live now v.expires_at ≡ true
unfolding get
get-live now key m v h = live (lookup key m) h
  where
    live : (o : Option RedisValue) → if_live now o ≡ some v → is_live now v.expires_at ≡ true
    live none k = cc
    live (some w) k = elim (Bool-cases (is_live now w.expires_at)) [
      | inl yes_live ↦
          let e : some w ≡ some v = rw yes_live at k in
          let f : w ≡ v = cc in
          subst (λ (x : RedisValue). is_live now x.expires_at ≡ true) f yes_live
      | inr gone ↦ let e = rw gone at k in cc
    ]

get_inserted :
    (now : ℕ) (key : String) (v : RedisValue) (m : Redis)
    → is_live now v.expires_at ≡ true
    → get now key (insert key v m) ≡ some v
get_inserted now key v m h = get-insert now key v m ∙ rw h refl

abbrev raised : RedisValue → RedisValue
raised v = record v { value = v.value +ℤ pos 1 }

-- The count of the requests is n.
abbrev pub HasCount : ℕ → String → ℤ → Redis → Type 0
HasCount now id n m = (v : RedisValue) × ((get now (conc_key id) m ≡ some v) × (v.value ≡ n))

-- A count that is below the limit goes up by one.
acquired_next :
    (id : String) (max_concurrent now : ℕ) (n : ℤ) (m : Redis)
    → HasCount now id n m
    → ltb_ℤ (pos max_concurrent) (n +ℤ pos 1) ≡ false
    → (after : Redis) × ((redis_acquire_conc id max_concurrent now m ≡ (true, after))
        × HasCount now id (n +ℤ pos 1) after)
unfolding redis_acquire_conc incr_with_expiry incr_by pexpire
acquired_next id max_concurrent now n m (v, (h, e)) room =
    let live = get-live now (conc_key id) m v h in
    let stored = get_inserted now (conc_key id) (raised v) m live in
    let room' : ltb_ℤ (pos max_concurrent) (v.value +ℤ pos 1) ≡ false =
      subst (λ k. ltb_ℤ (pos max_concurrent) (k +ℤ pos 1) ≡ false) (sym e) room in
    elim (Bool-cases (is_one (v.value +ℤ pos 1))) [
      | inl one ↦ (
        insert (conc_key id) (record (raised v) { expires_at = some (now + conc_ms) })
            (insert (conc_key id) (raised v) m),
        (
          rw (h, one, stored, room') refl,
          (
            record (raised v) { expires_at = some (now + conc_ms) },
            (get_inserted now (conc_key id) _ _ (ground arith), ap (λ k. k +ℤ pos 1) e),
          ),
        ),
      )
      | inr more ↦ (
        insert (conc_key id) (raised v) m,
        (rw (h, more, room') refl, (raised v, (stored, ap (λ k. k +ℤ pos 1) e))),
      )
    ]

pos_raised : (j : ℕ) → pos j +ℤ pos 1 ≡ pos (j + 1)
unfolding ◌+ℤ◌
pos_raised j = ground arith

zero_raised : negsuc 0 +ℤ pos 1 ≡ pos 0
unfolding ◌+ℤ◌
zero_raised = refl

acquire_times-all :
    (k j : ℕ) (id : String) (max_concurrent now : ℕ) (m : Redis)
    → HasCount now id (pos j) m
    → j + k ≤ max_concurrent
    → (acquire_times k id max_concurrent now m).0 ≡ true
unfolding acquire_times
acquire_times-all zero j id max_concurrent now m h le = refl
acquire_times-all (suc k) j id max_concurrent now m h le =
    let room : ltb_ℤ (pos max_concurrent) (pos j +ℤ pos 1) ≡ false =
      rw (pos_raised j) (ground arith) in
    let (after, (e, counted)) = acquired_next id max_concurrent now (pos j) m h room in
    let counted' = subst (λ n. HasCount now id n after) (pos_raised j) counted in
    rw e (acquire_times-all k (j + 1) id max_concurrent now after counted' (omega arith))

released_late :
    (id : String) (now later : ℕ) (m : Redis)
    → now + conc_ms ≤ later
    → HasCount later id (negsuc 0) (
        decr later
          (conc_key id)
          (insert (conc_key id) (record { value = pos 1; expires_at = some (now + conc_ms) }) m))
unfolding incr_by ◌+ℤ◌
released_late id now later m h =
    let gone : is_live later (some (now + conc_ms)) ≡ false = ground arith in
    let missed : get later (conc_key id)
          (insert (conc_key id) (record { value = pos 1; expires_at = some (now + conc_ms) }) m)
        ≡ none =
      get-insert later (conc_key id) _ m ∙ rw gone refl in
    (
      record { value = negsuc 0; expires_at = none },
      (
        rw missed (
            get_inserted later (conc_key id) (record { value = negsuc 0; expires_at = none }) _
              refl),
        refl,
      ),
    )

-- Where no request of a key runs and the limit is positive: a request is let through, and if it ends two
-- minutes later or more, when the count has expired, then one request more than the limit gets a slot at
-- once, although all of them run.
pub redis_acquire_conc_exceeds :
    (id : String) (max_concurrent now later : ℕ) (m : Redis)
    → get now (conc_key id) m ≡ none
    → 0 < max_concurrent
    → now + conc_ms ≤ later
    → ((redis_acquire_conc id max_concurrent now m).0 ≡ true)
      × ((acquire_times
            (suc max_concurrent)
            id
            max_concurrent
            later
            (decr later (conc_key id) (redis_acquire_conc id max_concurrent now m).1)).0
          ≡ true)
unfolding acquire_times
redis_acquire_conc_exceeds id max_concurrent now later m h lt le =
    let first = acquired_first id max_concurrent now m h lt in
    let low =
      released_late id now later
        (insert (conc_key id) (record { value = pos 1; expires_at = none }) m) le in
    let room : ltb_ℤ (pos max_concurrent) (negsuc 0 +ℤ pos 1) ≡ false =
      rw zero_raised (ground arith) in
    let (after, (e, counted)) = acquired_next id max_concurrent later (negsuc 0) _ low room in
    let counted' = subst (λ n. HasCount later id n after) zero_raised counted in
    (
      rw first refl,
      rw (first, e)
          (acquire_times-all max_concurrent 0 id max_concurrent later after counted' (omega arith)),
    )
