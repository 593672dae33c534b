-- ===== src/Voice/Installing.antt =====
-- One install at a time (apps/gateway/src/lib/voice/modelJobs.ts).
use Prim.Native.String.{String}
use modelforge_ai.Base.{
  ℕ, ◌≡◌, refl, ap, subst, ◌⊎◌, inl, inr, true, false, Option, none, some, List, [], ◌∷◌,
  Bool-cases,
}
use modelforge_ai.Base.Text.{◌==◌, text_eq, eq_of_beq, beq_refl}
use modelforge_ai.Base.Assoc.{lookup, insert}
use modelforge_ai.Voice.Install.{
  SttProviderId, VoiceModelJob, failed, Installs, InstallInput, is_allowed_model, job_of,
  is_unfinished, is_running, new_job, add_job, ends_at_once, begin_job, succeeded, Work, done,
  throws_before, throws_after, end_job, set_job, clear_if_active, write_runtime, finish_job,
  end_found, end_work, start_stt_model_install, InstallEvent, starts, ends, install_step,
  run_installs,
}

abbrev IsAllowedRuntime : Option (SttProviderId × String) → Type 0
IsAllowedRuntime none = Unit
IsAllowedRuntime (some (provider, model)) = is_allowed_model provider model ≡ true

-- A job that is not finished is the active one; each job, and the configuration, has a model of the catalog
-- of its provider.
pub record IsOrderly (s : Installs) : Type 0 where
  pub single :
      (id : String) (job : VoiceModelJob)
      → lookup id s.jobs ≡ some job
      → is_unfinished job.status ≡ true
      → s.active_install_id ≡ some id
  pub allowed :
      (id : String) (job : VoiceModelJob)
      → lookup id s.jobs ≡ some job
      → is_allowed_model job.provider job.model ≡ true
  pub activated : IsAllowedRuntime s.runtime

running_job :
    (s : Installs) (id : String) (job : VoiceModelJob)
    → s.active_install_id ≡ some id
    → lookup id s.jobs ≡ some job
    → is_running (job_of s.active_install_id s) ≡ is_unfinished job.status
running_job s id job h k = rw h (rw k refl)

lookup-insert_cases :
    (id other : String) (new job : VoiceModelJob) (m : List (String × VoiceModelJob))
    → lookup other (insert id new m) ≡ some job
    → ((id ≡ other) × (new ≡ job)) ⊎ (((id == other) ≡ false) × (lookup other m ≡ some job))
lookup-insert_cases id other new job m h = elim (Bool-cases (id == other)) [
  | inl same ↦ let k = rw same at h in inl (eq_of_beq id other same, cc)
  | inr differs ↦ inr (differs, rw differs at h)
]

add_job-IsOrderly :
    (s : Installs) (job : VoiceModelJob)
    → IsOrderly s
    → is_running (job_of s.active_install_id s) ≡ false
    → is_allowed_model job.provider job.model ≡ true
    → IsOrderly (add_job job s)
add_job-IsOrderly s job r idle fits = record {
  single = λ other found h unfinished. elim (lookup-insert_cases job.id other job found s.jobs h) [
    | inl (e, _) ↦ ap (λ x. some x) e
    | inr (_, before) ↦
        let running = running_job s other found (r.single other found before unfinished) before in
        cc
  ];
  allowed = λ other found h. elim (lookup-insert_cases job.id other job found s.jobs h) [
    | inl (_, e) ↦ subst (λ (x : VoiceModelJob). is_allowed_model x.provider x.model ≡ true) e fits
    | inr (_, before) ↦ r.allowed other found before
  ];
  activated = r.activated;
}

write_runtime-IsOrderly :
    (s : Installs) (job : VoiceModelJob)
    → IsOrderly s
    → is_allowed_model job.provider job.model ≡ true
    → IsOrderly (write_runtime job s)
write_runtime-IsOrderly s job r fits = elim (Bool-cases job.activate_on_success) [
  | inl goes ↦ rw goes (record { single = r.single; allowed = r.allowed; activated = fits })
  | inr stays ↦ rw stays r
]

set_job-IsOrderly :
    (s : Installs) (id : String) (job : VoiceModelJob)
    → IsOrderly s
    → is_unfinished job.status ≡ false
    → is_allowed_model job.provider job.model ≡ true
    → IsOrderly (set_job id job s)
set_job-IsOrderly s id job r finished fits = record {
  single = λ other found h unfinished. elim (lookup-insert_cases id other job found s.jobs h) [
    | inl (_, e) ↦
        let k : is_unfinished found.status ≡ false =
          subst (λ (x : VoiceModelJob). is_unfinished x.status ≡ false) e finished in
        cc
    | inr (differs, before) ↦ rw (r.single other found before unfinished) (kept other differs)
  ];
  allowed = λ other found h. elim (lookup-insert_cases id other job found s.jobs h) [
    | inl (_, e) ↦ subst (λ (x : VoiceModelJob). is_allowed_model x.provider x.model ≡ true) e fits
    | inr (_, before) ↦ r.allowed other found before
  ];
  activated = r.activated;
}
  where
    kept : (other : String) → (id == other) ≡ false → clear_if_active id (some other) ≡ some other
    kept other h = elim (Bool-cases (other == id)) [
      | inl same ↦ let k : (id == other) ≡ true = rw (eq_of_beq other id same) (beq_refl id) in cc
      | inr differs ↦ rw differs refl
    ]

finish_job-IsOrderly :
    (s : Installs) (id : String) (job : VoiceModelJob) (work : Work) (now : ℕ)
    → IsOrderly s
    → is_allowed_model job.provider job.model ≡ true
    → IsOrderly (finish_job id job work now s)
finish_job-IsOrderly s id job done now r fits =
    set_job-IsOrderly (write_runtime job s) id _ (write_runtime-IsOrderly s job r fits) refl fits
finish_job-IsOrderly s id job (throws_before message) now r fits =
    set_job-IsOrderly s id (end_job failed (some message) now job) r refl fits
finish_job-IsOrderly s id job (throws_after message) now r fits =
    set_job-IsOrderly (write_runtime job s) id (end_job failed (some message) now job)
      (write_runtime-IsOrderly s job r fits) refl fits

end_work-IsOrderly :
    (s : Installs) (id : String) (work : Work) (now : ℕ)
    → IsOrderly s
    → IsOrderly (end_work id work now s)
unfolding end_work
end_work-IsOrderly s id work now r = found (lookup id s.jobs) (λ job h. r.allowed id job h)
  where
    found :
        (o : Option VoiceModelJob)
        → ((job : VoiceModelJob) → o ≡ some job → is_allowed_model job.provider job.model ≡ true)
        → IsOrderly (end_found id work now o s)
    found none h = r
    found (some job) h = elim (Bool-cases (is_unfinished job.status)) [
      | inl going ↦ rw going (finish_job-IsOrderly s id job work now r (h job refl))
      | inr over ↦ rw over r
    ]

begin_job-IsOrderly :
    (s : Installs) (job : VoiceModelJob) (now : ℕ)
    → IsOrderly s
    → is_running (job_of s.active_install_id s) ≡ false
    → is_allowed_model job.provider job.model ≡ true
    → IsOrderly (begin_job job now s).1
begin_job-IsOrderly s job now r idle fits =
    let added = add_job-IsOrderly s job r idle fits in
    elim (Bool-cases (ends_at_once job)) [
      | inl at_once ↦ rw at_once (
          set_job-IsOrderly (add_job job s) job.id (end_job succeeded none now job) added refl fits)
      | inr goes_on ↦ rw goes_on added
    ]

module _ (trim : String → String) where
  start_stt_model_install-IsOrderly :
      (s : Installs) (id : String) (input : InstallInput) (now : ℕ)
      → IsOrderly s
      → IsOrderly (start_stt_model_install trim id input now s).1
  unfolding start_stt_model_install
  start_stt_model_install-IsOrderly s id input now r =
      elim (Bool-cases (is_allowed_model input.provider (trim input.model))) [
        | inr unknown ↦ rw unknown r
        | inl fits ↦ elim (Bool-cases (is_running (job_of s.active_install_id s))) [
          | inl busy ↦ rw (fits, busy) r
          | inr idle ↦
              rw (fits, idle)
                (begin_job-IsOrderly s (new_job id input (trim input.model) now) now r idle fits)
        ]
      ]

  -- Over any sequence of starts and ends of work, in any order: a job that is not finished is the active one,
  -- so that there is one at most; and every job, as well as the configuration that is written, has a model of
  -- the catalog of its provider; if that was so before.
  pub run_installs-IsOrderly :
      (es : List InstallEvent) (s : Installs) → IsOrderly s → IsOrderly (run_installs trim es s)
  unfolding run_installs install_step
  run_installs-IsOrderly [] s r = r
  run_installs-IsOrderly (starts id input now ∷ es) s r =
      run_installs-IsOrderly es _ (start_stt_model_install-IsOrderly s id input now r)
  run_installs-IsOrderly (ends id work now ∷ es) s r =
      run_installs-IsOrderly es _ (end_work-IsOrderly s id work now r)
