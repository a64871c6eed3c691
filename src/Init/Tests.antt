-- ===== src/Init/Tests.antt =====
-- Runs of the theorems on the start of the module at concrete inputs.
use elden_ring_windowed_hdr.Common.{
  ℕ, ltb, ◌≡◌, ◌≤◌, ◌<◌, ◌↔◌, ◌⊎◌, ◌+◌, Bool, true, false, Option, none, some, List, [], ◌∷◌, ◌++◌,
  ◌==◌, if◌then◌else◌, arith, ok,
}
use elden_ring_windowed_hdr.Config.Modes.{codes, Config, default_config}
use elden_ring_windowed_hdr.Init.Start.{
  Action, start_initialization, spawn_thread, initialization_thread, act, run, loaded,
  start_initialization_lem,
}
use elden_ring_windowed_hdr.Init.Wait.{at, elden_ring_windowed_hdr_init}
use elden_ring_windowed_hdr.Init.Finished.{elden_ring_windowed_hdr_init_lem}
use elden_ring_windowed_hdr.Init.Initialize.{
  Answers, InstallationReport, install_imports, prepare, initialize, is_elden_ring, is_windowed_hdr,
  synchronizes_color_space,
}
use elden_ring_windowed_hdr.Init.Enabled.{
  enabled, overrides, Needed, initialize_lem, initialize_safe,
}

-- two threads race for the start, and the one that loses comes again after the end
abbrev race : List Action
race =
    start_initialization
    ∷ start_initialization
    ∷ spawn_thread true
    ∷ initialization_thread true
    ∷ []

start_initialization_lem_example :
    ((run race loaded).succeeded + (run race loaded).failed ≤ 1)
    × (((run race loaded).init_state ≡ 2) ↔ ((run race loaded).succeeded ≡ 1))
    × (2 ≤ (run race loaded).init_state
        → run (race ++ (start_initialization ∷ [])) loaded ≡ run race loaded)
start_initialization_lem_example = start_initialization_lem race (start_initialization ∷ [])

-- the initialization that DllMain starts ends before the fourth poll
abbrev attach : List Action
attach = start_initialization ∷ spawn_thread true ∷ []

abbrev slow : ℕ → List Action
slow n = if n == 3 then initialization_thread true ∷ [] else []

-- a clock that stands still between two of its ticks
abbrev coarse : ℕ → ℕ
coarse n = if ltb n 5 then 0 else 15000

elden_ring_windowed_hdr_init_lem_example :
    (b : Bool) × (elden_ring_windowed_hdr_init 6 attach slow coarse ≡ some b)
    × (b ≡ true
        → (n : ℕ) × ((at slow (act start_initialization (run attach loaded)) n).succeeded ≡ 1))
    × ((n : ℕ)
        → coarse n < 15000
        → (at slow (act start_initialization (run attach loaded)) n).init_state ≡ 2
        → b ≡ true)
elden_ring_windowed_hdr_init_lem_example =
    elden_ring_windowed_hdr_init_lem attach slow coarse 5 (λ n. ground arith) (omega arith)

-- everything succeeds, in the default mode; the targets are a number
abbrev answers : Answers ℕ
answers = record {
  dll_module = 1;
  dll_path = true;
  logger = true;
  exe_path = some (some (codes "ELDENRING.EXE"));
  metadata = some 100;
  executable_hash = some (codes "00");
  config = some (default_config, true);
  targets = λ size hash. some 7;
  installed = some (record { dxgi_factory_imports = 1; amd_ags_imports = 0 });
  menu_gate = λ t force changes. true;
  availability_observer = λ t. true;
  config_observer = λ t. true;
  backend_observer = λ t. true;
}

initialize_lem_example :
    ((enabled ((initialize answers).0) ≡ some true) ↔ (
      (c : Config) × (t : ℕ) × (installed : InstallationReport) × (prepare answers ≡ ok (c, some t))
      × (answers.installed ≡ some installed)
      × (synchronizes_color_space c.mode ≡ true)
      × Needed answers c.mode t installed
      × (overrides ((initialize answers).0) ≡ is_windowed_hdr c.mode)
      × ((initialize answers).1 ≡ ok tt)))
    × (enabled ((initialize answers).0) ≡ none → overrides ((initialize answers).0) ≡ false)
initialize_lem_example = initialize_lem answers true

initialize_safe_example :
    (((initialize answers).0 ≡ [])
      ⊎ ((name : Option (List ℕ)) × (answers.exe_path ≡ some name) × (is_elden_ring name ≡ true)))
    × ((c : Config)
        → prepare answers ≡ ok (c, none)
        → (initialize answers).0 ≡ install_imports ∷ [])
initialize_safe_example = initialize_safe answers
