-- ===== src/Init/Initialize.antt =====
-- src/lib.rs: `initialize`: which hooks it tries to install, and what it enables. What each call
-- answers is a field of `Answers`; the log lines are left out.
use elden_ring_windowed_hdr.Common.{
  ℕ, Bool, true, false, not, ◌&&◌, ◌||◌, Option, none, some, List, [], ◌∷◌, ◌++◌, ◌==◌,
  if◌then◌else◌, Result, ok, err, ◌>>=◌, ◌>>◌, guard, ok_or,
}
use elden_ring_windowed_hdr.Config.Modes.{
  codes, Mode, observe, unlock_hdr_menu, emulate_hdr_fullscreen_state, emulate_hdr_and_set_pq,
  windowed_hdr, Config,
}
use elden_ring_windowed_hdr.Config.Text.{eq_ignore_ascii_case}

pub data InitError : Type 0 where
  no_module : InitError
  no_dll_path : InitError
  no_logger : InitError
  no_exe_path : InitError
  unexpected_executable : InitError
  no_metadata : InitError
  no_hash : InitError
  bad_config : InitError
  not_installed : InitError
  no_factory_imports : InitError

-- src/dxgi.rs
pub record InstallationReport : Type 0 where
  pub dxgi_factory_imports : ℕ
  pub amd_ags_imports : ℕ

-- `is_elden_ring` on the file name, none where the path has none in Unicode
abbrev pub is_elden_ring : Option (List ℕ) → Bool
is_elden_ring none = false
is_elden_ring (some name) = eq_ignore_ascii_case name (codes "eldenring.exe")

abbrev pub is_windowed_hdr : Mode → Bool
is_windowed_hdr windowed_hdr = true
is_windowed_hdr _ = false

abbrev pub emulates_fullscreen_state : Mode → Bool
emulates_fullscreen_state emulate_hdr_fullscreen_state = true
emulates_fullscreen_state emulate_hdr_and_set_pq = true
emulates_fullscreen_state windowed_hdr = true
emulates_fullscreen_state _ = false

abbrev pub synchronizes_color_space : Mode → Bool
synchronizes_color_space emulate_hdr_and_set_pq = true
synchronizes_color_space windowed_hdr = true
synchronizes_color_space _ = false

abbrev pub forces_menu : Mode → Bool
forces_menu unlock_hdr_menu = true
forces_menu emulate_hdr_fullscreen_state = true
forces_menu emulate_hdr_and_set_pq = true
forces_menu _ = false

abbrev pub changes_behavior : Mode → Bool
changes_behavior observe = false
changes_behavior _ = true

-- The calls with an effect on the process, and those that enable a behavior.
pub data Effect (T : Type 0) : Type 0 where
  install_imports : Effect T
  install_menu_gate : T → (force changes : Bool) → Effect T
  install_availability_observer : T → Effect T
  install_config_observer : T → Effect T
  install_backend_observer : T → Effect T
  enable_windowed_availability_override : Effect T
  enable_backend_experiment : (synchronize : Bool) → Effect T

-- What the calls of `initialize` answer: none, or false, where they fail. `T` is `GameTargets`,
-- which `initialize` only hands on.
pub record Answers (T : Type 0) : Type 0 where
  pub dll_module : ℕ
  pub dll_path : Bool
  pub logger : Bool
  pub exe_path : Option (Option (List ℕ))
  pub metadata : Option ℕ
  pub executable_hash : Option (List ℕ)
  pub config : Option (Config × Bool)
  pub targets : ℕ → List ℕ → Option T
  pub installed : Option InstallationReport
  pub menu_gate : T → Bool → Bool → Bool
  pub availability_observer : T → Bool
  pub config_observer : T → Bool
  pub backend_observer : T → Bool

module _ {T : Type 0} where
  -- up to `game_compat::resolve`
  unfoldable pub prepare : Answers T → Result InitError (Config × Option T)
  prepare a =
      guard (not (a.dll_module == 0)) no_module
      >> (guard a.dll_path no_dll_path
          >> (guard a.logger no_logger
              >> (ok_or a.exe_path no_exe_path >>= λ exe_path.
                  guard (is_elden_ring exe_path) unexpected_executable
                  >> (ok_or a.metadata no_metadata >>= λ size.
                      ok_or a.executable_hash no_hash >>= λ hash.
                      ok_or a.config bad_config >>= λ c. ok (c.0, a.targets size hash)))))

  -- whether a hook that needs the targets is installed
  abbrev pub hooked : Option T → (T → Bool) → Bool
  hooked none install = false
  hooked (some t) install = install t

  -- the installations that are tried once the targets are known
  abbrev pub attempts : Mode → Option T → List (Effect T)
  attempts mode none = []
  attempts mode (some t) =
      install_menu_gate t (forces_menu mode) (changes_behavior mode)
      ∷ ((if is_windowed_hdr mode then install_availability_observer t ∷ [] else [])
          ++ (install_config_observer t ∷ install_backend_observer t ∷ []))

  -- `hdr_backend_experiment_enabled`
  abbrev pub experiment_enabled : Answers T → Mode → Option T → InstallationReport → Bool
  experiment_enabled a mode targets installed =
      emulates_fullscreen_state mode
      && (hooked targets (λ t. a.menu_gate t (forces_menu mode) (changes_behavior mode))
          && ((not (is_windowed_hdr mode)
                || (is_windowed_hdr mode && hooked targets a.availability_observer))
              && (hooked targets a.config_observer
                  && (hooked targets a.backend_observer
                      && not (installed.dxgi_factory_imports == 0)))))

  -- from `dxgi::install` on
  unfoldable pub install_hooks :
      Answers T
      → Mode
      → Option T
      → InstallationReport
      → List (Effect T) × Result InitError (Unit {0})
  install_hooks a mode targets installed = (
    install_imports
        ∷ (attempts mode targets
            ++ (if experiment_enabled a mode targets installed
                then (if is_windowed_hdr mode
                    then enable_windowed_availability_override ∷ []
                    else [])
                  ++ (enable_backend_experiment (synchronizes_color_space mode) ∷ [])
                else [])),
    if installed.dxgi_factory_imports == 0 then err no_factory_imports else ok tt,
  )

  unfoldable pub initialize : Answers T → List (Effect T) × Result InitError (Unit {0})
  initialize a = elim (prepare a) [
    | err e ↦ ([], err e)
    | ok (config, targets) ↦ elim a.installed [
      | none ↦ (install_imports ∷ [], err not_installed)
      | some installed ↦ install_hooks a config.mode targets installed
    ]
  ]
