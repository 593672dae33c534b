-- ===== src/Voice/Install.antt =====
-- The installs of models of apps/gateway/src/lib/voice/modelJobs.ts: startSttModelInstall, and the background
-- work of a job, which goes on when it is answered. The map of jobs is an association list, ids are generated,
-- trimming is a parameter, messages are left out but for the errors, and times are milliseconds.
use Prim.Native.String.{String}
use modelforge_ai.Base.{
  ℕ, Bool, true, false, not, ◌&&◌, Option, none, some, List, [], ◌∷◌, if◌then◌else◌,
}
use modelforge_ai.Base.Text.{◌==◌, text_eq}
use modelforge_ai.Base.Preds.{any}
use modelforge_ai.Base.Assoc.{lookup, insert}
use modelforge_ai.Base.Result.{Result, ok, err}

pub data SttProviderId : Type 0 where
  faster_whisper nemo hf_space : SttProviderId

pub data JobStatus : Type 0 where
  queued downloading succeeded failed : JobStatus

pub record VoiceModelJob : Type 0 where
  pub id : String
  pub provider : SttProviderId
  pub model : String
  pub status : JobStatus
  pub activate_on_success : Bool
  pub error : Option String
  pub started_at : ℕ
  pub finished_at : Option ℕ

-- The voice runtime that an install writes, and the cache of providers.
pub record Installs : Type 0 where
  pub jobs : List (String × VoiceModelJob)
  pub active_install_id : Option String
  pub runtime : Option (SttProviderId × String)

pub data InstallError : Type 0 where
  unsupported_model in_progress : InstallError

pub record InstallInput : Type 0 where
  pub provider : SttProviderId
  pub model : String
  pub activate_on_success : Option Bool

abbrev pub whisper_models : List String
whisper_models =
    "tiny" ∷ "base" ∷ "small" ∷ "medium" ∷ "large-v2" ∷ "large-v3" ∷ "distil-large-v3"
    ∷ "bengaliAI/tugstugi_bengaliai-regional-asr_whisper-medium" ∷ []

abbrev pub nemo_models : List String
nemo_models = "kazalbrur/bangla-stt-conformer-120m-dialects" ∷ []

abbrev pub hf_space_models : List String
hf_space_models = "bengaliAI/regional_bengali-asr_tugstugi_whisper-medium" ∷ []

-- The ids of the catalog.
unfoldable pub catalog_for_provider : SttProviderId → List String
catalog_for_provider nemo = nemo_models
catalog_for_provider hf_space = hf_space_models
catalog_for_provider faster_whisper = whisper_models

unfoldable pub is_allowed_model : SttProviderId → String → Bool
is_allowed_model provider model = any (λ id. id == model) (catalog_for_provider provider)

unfoldable pub get_voice_model_job : String → Installs → Option VoiceModelJob
get_voice_model_job id s = lookup id s.jobs

abbrev pub job_of : Option String → Installs → Option VoiceModelJob
job_of none s = none
job_of (some id) s = lookup id s.jobs

unfoldable pub get_active_voice_model_install : Installs → Option VoiceModelJob
get_active_voice_model_install s = job_of s.active_install_id s

-- `queued` or `downloading`
abbrev pub is_unfinished : JobStatus → Bool
is_unfinished queued = true
is_unfinished downloading = true
is_unfinished _ = false

abbrev pub is_running : Option VoiceModelJob → Bool
is_running none = false
is_running (some job) = is_unfinished job.status

-- `activateOnSuccess !== false`
abbrev pub unless_false : Option Bool → Bool
unless_false none = true
unless_false (some b) = b

abbrev pub is_hf_space : SttProviderId → Bool
is_hf_space hf_space = true
is_hf_space nemo = false
is_hf_space faster_whisper = false

-- The job as the synchronous beginning of its work leaves it: set to `downloading`.
abbrev pub new_job : String → InstallInput → String → ℕ → VoiceModelJob
new_job id input model now = record {
  id = id;
  provider = input.provider;
  model = model;
  status = downloading;
  activate_on_success = unless_false input.activate_on_success;
  error = none;
  started_at = now;
  finished_at = none;
}

abbrev pub add_job : VoiceModelJob → Installs → Installs
add_job job s = record s { jobs = insert job.id job s.jobs; active_install_id = some job.id }

-- How the download and the write of the configuration go: `none`, or the message of what is thrown, before
-- or behind the write of the configuration.
pub data Work : Type 0 where
  done : Work
  throws_before throws_after : String → Work

abbrev pub end_job : JobStatus → Option String → ℕ → VoiceModelJob → VoiceModelJob
end_job status error now job = record job { status = status; error = error; finished_at = some now }

-- if (activeInstallId === job.id) activeInstallId = null
abbrev pub clear_if_active : String → Option String → Option String
clear_if_active id none = none
clear_if_active id (some other) = if other == id then none else some other

abbrev pub set_job : String → VoiceModelJob → Installs → Installs
set_job id job s = record s {
  jobs = insert id job s.jobs;
  active_install_id = clear_if_active id s.active_install_id;
}

-- A Space that is not activated awaits nothing: its work has ended when the job is answered.
abbrev pub ends_at_once : VoiceModelJob → Bool
ends_at_once job = is_hf_space job.provider && not job.activate_on_success

-- The answered job, and the installs.
abbrev pub begin_job : VoiceModelJob → ℕ → Installs → Result InstallError VoiceModelJob × Installs
begin_job job now s =
    if ends_at_once job
    then (
      ok (end_job succeeded none now job),
      set_job job.id (end_job succeeded none now job) (add_job job s),
    )
    else (ok job, add_job job s)

abbrev pub write_runtime : VoiceModelJob → Installs → Installs
write_runtime job s =
    if job.activate_on_success then record s { runtime = some (job.provider, job.model) } else s

abbrev pub finish_job : String → VoiceModelJob → Work → ℕ → Installs → Installs
finish_job id job done now s = set_job id (end_job succeeded none now job) (write_runtime job s)
finish_job id job (throws_before message) now s =
    set_job id (end_job failed (some message) now job) s
finish_job id job (throws_after message) now s =
    set_job id (end_job failed (some message) now job) (write_runtime job s)

abbrev pub end_found : String → Work → ℕ → Option VoiceModelJob → Installs → Installs
end_found id work now none s = s
end_found id work now (some job) s =
    if is_unfinished job.status then finish_job id job work now s else s

-- The work of a job comes to its end; it does so once.
unfoldable pub end_work : String → Work → ℕ → Installs → Installs
end_work id work now s = end_found id work now (lookup id s.jobs) s

-- What happens to the installs: a start with a generated id, or the end of some work.
pub data InstallEvent : Type 0 where
  starts : String → InstallInput → ℕ → InstallEvent
  ends : String → Work → ℕ → InstallEvent

module _ (trim : String → String) where
  unfoldable pub start_stt_model_install :
      String → InstallInput → ℕ → Installs → Result InstallError VoiceModelJob × Installs
  start_stt_model_install id input now s =
      if not (is_allowed_model input.provider (trim input.model))
      then (err unsupported_model, s)
      else if is_running (job_of s.active_install_id s)
      then (err in_progress, s)
      else begin_job (new_job id input (trim input.model) now) now s

  unfoldable pub start_whisper_model_install :
      String → InstallInput → ℕ → Installs → Result InstallError VoiceModelJob × Installs
  start_whisper_model_install id input now s =
      start_stt_model_install id (record input { provider = faster_whisper }) now s

  unfoldable pub install_step : InstallEvent → Installs → Installs
  install_step (starts id input now) s = (start_stt_model_install id input now s).1
  install_step (ends id work now) s = end_work id work now s

  unfoldable pub run_installs : List InstallEvent → Installs → Installs
  run_installs [] s = s
  run_installs (e ∷ es) s = run_installs es (install_step e s)
