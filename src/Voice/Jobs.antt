-- ===== src/Voice/Jobs.antt =====
-- The theorem on installs (apps/gateway/src/lib/voice/modelJobs.ts) at a concrete input.
use Prim.Native.String.{String}
use modelforge_ai.Base.{◌≡◌, refl, none, some, List, [], ◌∷◌}
use modelforge_ai.Voice.Install.{
  Installs, InstallInput, InstallEvent, starts, ends, done, throws_before, faster_whisper,
  run_installs, install_step, start_stt_model_install, end_work, is_allowed_model,
  catalog_for_provider,
}
use modelforge_ai.Voice.Installing.{IsOrderly, run_installs-IsOrderly}

abbrev no_installs : Installs
no_installs = record { jobs = []; active_install_id = none; runtime = none }

abbrev plain : String → String
plain s = s

abbrev asks : String → InstallInput
asks model = record { provider = faster_whisper; model = model; activate_on_success = none }

-- A second start while the first goes on is refused.
abbrev two_installs : List InstallEvent
two_installs =
    starts "j1" (asks "tiny") 10
    ∷ starts "j2" (asks "base") 20
    ∷ ends "j1" done 30
    ∷ starts "j3" (asks "small") 40
    ∷ ends "j3" (throws_before "no disk") 50
    ∷ []

no_installs-IsOrderly : IsOrderly no_installs
no_installs-IsOrderly = record {
  single = λ id job h k. cc;
  allowed = λ id job h. cc;
  activated = tt;
}

run_installs-IsOrderly_example : IsOrderly (run_installs plain two_installs no_installs)
run_installs-IsOrderly_example =
    run_installs-IsOrderly plain two_installs no_installs no_installs-IsOrderly

two_installs_run :
    (run_installs plain two_installs no_installs).runtime ≡ some (faster_whisper, "tiny")
unfolding run_installs install_step start_stt_model_install end_work is_allowed_model
    catalog_for_provider
two_installs_run = refl
