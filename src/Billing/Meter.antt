-- ===== src/Billing/Meter.antt =====
-- Usage by kind: packages/platform/src/metering.ts.
use Prim.Native.String.{String}
use text.Mathlib.Text.{starts_with}
use modelforge_ai.Base.{
  ℕ, ◌+◌, ◌≡◌, refl, sym, ap, ◌∙◌, true, false, List, [], ◌∷◌, ◌++◌ as append, arith, ◌⊎◌, inl, inr,
  Bool-cases, if◌then◌else◌, max,
}
use modelforge_ai.Base.Int.{ℤ, pos, ◌+ℤ◌, ◌≤ℤ◌, ltb_ℤ}
use modelforge_ai.Base.Text.{◌==◌, text_eq}

pub data MeterKind : Type 0 where
  llm stt neo4j_read neo4j_write neo4j_storage : MeterKind

unfoldable pub classify_usage_slug : String → MeterKind
classify_usage_slug slug =
    if starts_with slug "stt:"
    then stt
    else (if slug == "neo4j:read"
        then neo4j_read
        else (if slug == "neo4j:write"
            then neo4j_write
            else (if slug == "neo4j:storage" then neo4j_storage else llm)))

-- A plan's quota of 0 is no limit; otherwise the bonus is added to it.
unfoldable pub effective_monthly_quota : ℤ → ℤ → ℤ
effective_monthly_quota plan bonus =
    if ltb_ℤ (pos 0) plan then plan +ℤ (if ltb_ℤ (pos 0) bonus then bonus else pos 0) else pos 0

pub record UsageEvent : Type 0 where
  pub model_slug : String
  pub prompt_tokens : ℕ
  pub completion_tokens : ℕ

-- The variables of the loop.
pub record Totals : Type 0 where
  pub llm_prompt : ℕ
  pub llm_completion : ℕ
  pub stt_billable : ℕ
  pub neo4j_reads : ℕ
  pub neo4j_writes : ℕ
  pub neo4j_store_bytes : ℕ

abbrev pub no_totals : Totals
no_totals = record {
  llm_prompt = 0;
  llm_completion = 0;
  stt_billable = 0;
  neo4j_reads = 0;
  neo4j_writes = 0;
  neo4j_store_bytes = 0;
}

-- The cases of the switch.
unfoldable pub count_event : MeterKind → UsageEvent → Totals → Totals
count_event stt e t = record t { stt_billable = t.stt_billable + e.prompt_tokens }
count_event neo4j_read e t = record t { neo4j_reads = t.neo4j_reads + max 1 e.prompt_tokens }
count_event neo4j_write e t = record t { neo4j_writes = t.neo4j_writes + max 1 e.prompt_tokens }
count_event neo4j_storage e t = record t {
  neo4j_store_bytes = max t.neo4j_store_bytes e.prompt_tokens;
}
count_event llm e t = record t {
  llm_prompt = t.llm_prompt + e.prompt_tokens;
  llm_completion = t.llm_completion + e.completion_tokens;
}

unfoldable pub sum_events : List UsageEvent → Totals → Totals
sum_events [] t = t
sum_events (e ∷ es) t = sum_events es (count_event (classify_usage_slug e.model_slug) e t)

pub record Summary : Type 0 where
  pub totals : Totals
  pub llm_total : ℕ
  -- sttSeconds is the quotient of the two.
  pub stt_seconds_numerator : ℕ
  pub stt_seconds_denominator : ℕ

unfoldable pub summarize_usage_events : List UsageEvent → ℕ → Summary
summarize_usage_events events stt_units_per_sec =
    let t = sum_events events no_totals in
    record {
      totals = t;
      llm_total = t.llm_prompt + t.llm_completion;
      stt_seconds_numerator = t.stt_billable;
      stt_seconds_denominator = max 1 stt_units_per_sec;
    }

-- What the totals of two parts add up to.
abbrev pub merged : Totals → Totals → Totals
merged a b = record {
  llm_prompt = a.llm_prompt + b.llm_prompt;
  llm_completion = a.llm_completion + b.llm_completion;
  stt_billable = a.stt_billable + b.stt_billable;
  neo4j_reads = a.neo4j_reads + b.neo4j_reads;
  neo4j_writes = a.neo4j_writes + b.neo4j_writes;
  neo4j_store_bytes = max a.neo4j_store_bytes b.neo4j_store_bytes;
}

count_event-merged :
    (k : MeterKind) (e : UsageEvent) (a b : Totals)
    → count_event k e (merged a b) ≡ merged a (count_event k e b)
unfolding count_event
count_event-merged stt e a b = ground arith
count_event-merged _ e a b = ground arith

sum_events-merged :
    (es : List UsageEvent) (a b : Totals) → sum_events es (merged a b) ≡ merged a (sum_events es b)
unfolding sum_events
sum_events-merged [] a b = refl
sum_events-merged (e ∷ es) a b =
    rw (count_event-merged (classify_usage_slug e.model_slug) e a b)
      (sum_events-merged es a (count_event (classify_usage_slug e.model_slug) e b))

sum_events-append :
    (xs ys : List UsageEvent) (t : Totals)
    → sum_events (append xs ys) t ≡ sum_events ys (sum_events xs t)
unfolding sum_events
sum_events-append [] ys t = refl
sum_events-append (x ∷ xs) ys t =
    sum_events-append xs ys (count_event (classify_usage_slug x.model_slug) x t)

merged-none : (t : Totals) → merged t no_totals ≡ t
merged-none t = ground arith

-- The usage of two periods is the sum of theirs for tokens, reads and writes, and the greater of the
-- two for the bytes stored.
pub summarize-append :
    (xs ys : List UsageEvent) (units : ℕ)
    → (summarize_usage_events (append xs ys) units).totals
      ≡ merged (summarize_usage_events xs units).totals (summarize_usage_events ys units).totals
unfolding summarize_usage_events
summarize-append xs ys units =
    let t = sum_events xs no_totals in
    sum_events-append xs ys no_totals
    ∙ ap (sum_events ys) (sym (merged-none t))
    ∙ sum_events-merged ys t no_totals

-- A bonus never takes away from a limited plan, and never limits an unlimited one.
pub effective_monthly_quota-bonus :
    (plan bonus : ℤ)
    → ((ltb_ℤ (pos 0) plan ≡ true) × (plan ≤ℤ effective_monthly_quota plan bonus))
      ⊎ ((ltb_ℤ (pos 0) plan ≡ false) × (effective_monthly_quota plan bonus ≡ pos 0))
unfolding effective_monthly_quota ◌+ℤ◌
effective_monthly_quota-bonus plan bonus = elim (Bool-cases (ltb_ℤ (pos 0) plan)) [
  | inl limited ↦ inl (limited, ground arith)
  | inr unlimited ↦ inr (unlimited, ground arith)
]
