-- ===== src/Init/Enabled.antt =====
-- src/lib.rs: what must hold before `initialize` touches the process, and before it enables the
-- change of the game's behavior.
use elden_ring_windowed_hdr.Common.{
  ℕ, ◌≡◌, ◌≢◌, refl, ap, ◌⊎◌, inl, inr, ◌↔◌, Bool, true, false, Option, none, some, List, [], ◌∷◌,
  if◌then◌else◌, arith, Bool-cases, Option-cases, ok, Result-cases,
}
use elden_ring_windowed_hdr.Config.Modes.{
  Mode, observe, unlock_hdr_menu, emulate_hdr_fullscreen_state, emulate_hdr_and_set_pq,
  windowed_hdr, Config,
}
use elden_ring_windowed_hdr.Init.Initialize.{
  InstallationReport, Effect, install_imports, enable_windowed_availability_override,
  enable_backend_experiment, Answers, prepare, experiment_enabled, install_hooks, initialize,
  is_elden_ring, is_windowed_hdr, emulates_fullscreen_state, synchronizes_color_space, forces_menu,
  changes_behavior,
}

windowed-mode : (mode : Mode) → is_windowed_hdr mode ≡ true → mode ≡ windowed_hdr
windowed-mode windowed_hdr h = refl
windowed-mode observe h = absurd (ground (arith, h))
windowed-mode unlock_hdr_menu h = absurd (ground (arith, h))
windowed-mode emulate_hdr_fullscreen_state h = absurd (ground (arith, h))
windowed-mode emulate_hdr_and_set_pq h = absurd (ground (arith, h))

module _ {T : Type 0} where
  -- the preparation ends well only in the game's own executable
  prepare-ok :
      (a : Answers T) (c : Config × Option T)
      → prepare a ≡ ok c
      → (name : Option (List ℕ)) × (a.exe_path ≡ some name) × (is_elden_ring name ≡ true)
  unfolding prepare
  prepare-ok a c h = elim (Option-cases a.exe_path) [
    | inl e ↦ absurd (ground (arith, h, e))
    | inr (name, e) ↦ (name, e, ground (arith, h, e))
  ]

  -- the argument of the first `enable_backend_experiment`, if there is one
  abbrev pub enabled : List (Effect T) → Option Bool
  enabled [] = none
  enabled (enable_backend_experiment sync ∷ es) = some sync
  enabled (_ ∷ es) = enabled es

  -- whether the windowed override is enabled
  abbrev pub overrides : List (Effect T) → Bool
  overrides [] = false
  overrides (enable_windowed_availability_override ∷ es) = true
  overrides (_ ∷ es) = overrides es

  -- the two tests on what follows an installation, by the mode and the targets
  enabled-install_hooks :
      (a : Answers T) (mode : Mode) (targets : Option T) (installed : InstallationReport)
      → (enabled ((install_hooks a mode targets installed).0) ≡ (
          if experiment_enabled a mode targets installed
          then some (synchronizes_color_space mode)
          else none))
        × (overrides ((install_hooks a mode targets installed).0)
            ≡ (if experiment_enabled a mode targets installed then is_windowed_hdr mode else false))
  unfolding install_hooks
  enabled-install_hooks a observe none installed = (ground arith, ground arith)
  enabled-install_hooks a observe (some t) installed = (ground arith, ground arith)
  enabled-install_hooks a windowed_hdr none installed = (ground arith, ground arith)
  enabled-install_hooks a windowed_hdr (some t) installed = (ground arith, ground arith)
  enabled-install_hooks a _ none installed = (ground arith, ground arith)
  enabled-install_hooks a _ (some t) installed = (ground arith, ground arith)

  -- what the experiment has needed, once the targets are known
  abbrev pub Needed : Answers T → Mode → T → InstallationReport → Type 0
  Needed a mode t installed =
      (emulates_fullscreen_state mode ≡ true)
      × (a.menu_gate t (forces_menu mode) (changes_behavior mode) ≡ true)
      × (mode ≡ windowed_hdr → a.availability_observer t ≡ true)
      × (a.config_observer t ≡ true)
      × (a.backend_observer t ≡ true)
      × (installed.dxgi_factory_imports ≢ 0)

  experiment-Needed :
      (a : Answers T) (mode : Mode) (targets : Option T) (installed : InstallationReport)
      → experiment_enabled a mode targets installed ≡ true
      → (t : T) × (targets ≡ some t) × Needed a mode t installed
  experiment-Needed a mode none installed h = absurd (ground (arith, h))
  experiment-Needed a mode (some t) installed h = (
    t,
    refl,
    (
      ground (arith, h),
      ground (arith, h),
      (λ e. let w : is_windowed_hdr mode ≡ true = ap is_windowed_hdr e in ground (arith, h, w)),
      ground (arith, h),
      ground (arith, h),
      λ z. ground (arith, h, z),
    ),
  )

  Needed-experiment :
      (a : Answers T) (mode : Mode) (t : T) (installed : InstallationReport)
      → Needed a mode t installed
      → experiment_enabled a mode (some t) installed ≡ true
  Needed-experiment a mode t installed (emulates, menu, availability, config, backend, imports) =
      elim (Bool-cases (is_windowed_hdr mode)) [
        | inl w ↦ ground (
          arith,
          emulates,
          menu,
          config,
          backend,
          imports,
          w,
          availability (windowed-mode mode w),
        )
        | inr w ↦ ground (arith, emulates, menu, config, backend, imports, w)
      ]

  initialize-installs :
      (a : Answers T) (c : Config) (targets : Option T) (installed : InstallationReport)
      → prepare a ≡ ok (c, targets)
      → a.installed ≡ some installed
      → initialize a ≡ install_hooks a c.mode targets installed
  unfolding initialize
  initialize-installs a c targets installed p i = ground (arith, p, i)

  initialize-reaches :
      (a : Answers T) (sync : Bool)
      → enabled ((initialize a).0) ≡ some sync
      → (c : Config) × (targets : Option T) × (installed : InstallationReport) × (prepare a
          ≡ ok (c, targets))
        × (a.installed ≡ some installed)
  unfolding initialize
  initialize-reaches a sync h = elim (Result-cases (prepare a)) [
    | inl (e, p) ↦ absurd (ground (arith, h, p))
    | inr ((c, targets), p) ↦ elim (Option-cases a.installed) [
      | inl i ↦ absurd (ground (arith, h, p, i))
      | inr (installed, i) ↦ (c, targets, installed, p, i)
    ]
  ]

  no-override :
      (a : Answers T) → enabled ((initialize a).0) ≡ none → overrides ((initialize a).0) ≡ false
  unfolding initialize
  no-override a h = elim (Result-cases (prepare a)) [
    | inl (e, p) ↦ ground (arith, p)
    | inr ((c, targets), p) ↦ elim (Option-cases a.installed) [
      | inl i ↦ ground (arith, p, i)
      | inr (installed, i) ↦ ground (
        arith,
        p,
        i,
        h,
        initialize-installs a c targets installed p i,
        enabled-install_hooks a c.mode targets installed,
      )
    ]
  ]

  -- `initialize` enables the backend experiment exactly when all of this holds: it got through to
  -- the installation, which installed the hooks of at least one factory import; the targets are
  -- resolved; the mode is one of the three that emulate the fullscreen state; the menu gate, the
  -- configuration observer and the backend observer are hooked, and in the windowed mode the
  -- availability observer too. It then synchronizes the color space as the mode says, enables the
  -- windowed override exactly in the windowed mode, and returns Ok; where it does not enable the
  -- experiment, it does not enable the override.
  pub initialize_lem :
      (a : Answers T) (sync : Bool)
      → ((enabled ((initialize a).0) ≡ some sync) ↔ (
          (c : Config) × (t : T) × (installed : InstallationReport) × (prepare a ≡ ok (c, some t))
          × (a.installed ≡ some installed)
          × (synchronizes_color_space c.mode ≡ sync)
          × Needed a c.mode t installed
          × (overrides ((initialize a).0) ≡ is_windowed_hdr c.mode)
          × ((initialize a).1 ≡ ok tt)))
        × (enabled ((initialize a).0) ≡ none → overrides ((initialize a).0) ≡ false)
  unfolding install_hooks
  initialize_lem a sync = ((only, if_needed), no-override a)
    where
      Enabled : Type 0
      Enabled =
          (c : Config) × (t : T) × (installed : InstallationReport) × (prepare a ≡ ok (c, some t))
          × (a.installed ≡ some installed)
          × (synchronizes_color_space c.mode ≡ sync)
          × Needed a c.mode t installed
          × (overrides ((initialize a).0) ≡ is_windowed_hdr c.mode)
          × ((initialize a).1 ≡ ok tt)

      only : enabled ((initialize a).0) ≡ some sync → Enabled
      only h =
          let (c, targets, installed, p, i) = initialize-reaches a sync h in
          let same = initialize-installs a c targets installed p i in
          let (switch, override) = enabled-install_hooks a c.mode targets installed in
          let test : experiment_enabled a c.mode targets installed ≡ true =
            ground (arith, h, same, switch) in
          let (t, known, needed) = experiment-Needed a c.mode targets installed test in
          (
            c,
            t,
            installed,
            ground (arith, p, known),
            i,
            ground (arith, h, same, switch, test),
            needed,
            ground (arith, same, override, test),
            ground (arith, same, needed),
          )

      if_needed : Enabled → enabled ((initialize a).0) ≡ some sync
      if_needed (c, t, installed, p, i, sy, needed, _, _) = ground (
        arith,
        initialize-installs a c (some t) installed p i,
        enabled-install_hooks a c.mode (some t) installed,
        Needed-experiment a c.mode t installed needed,
        sy,
      )

  -- `initialize` touches nothing in an executable that is not the game's by name, and where the
  -- targets are not resolved it tries the import hooks at most.
  pub initialize_safe :
      (a : Answers T)
      → (((initialize a).0 ≡ [])
          ⊎ ((name : Option (List ℕ)) × (a.exe_path ≡ some name) × (is_elden_ring name ≡ true)))
        × ((c : Config) → prepare a ≡ ok (c, none) → (initialize a).0 ≡ install_imports ∷ [])
  unfolding initialize install_hooks
  initialize_safe a = (touched, λ c p. untargeted c p)
    where
      touched :
          ((initialize a).0 ≡ [])
          ⊎ ((name : Option (List ℕ)) × (a.exe_path ≡ some name) × (is_elden_ring name ≡ true))
      touched = elim (Result-cases (prepare a)) [
        | inl (e, p) ↦ inl (ground (arith, p))
        | inr (c, p) ↦ inr (prepare-ok a c p)
      ]

      untargeted : (c : Config) → prepare a ≡ ok (c, none) → (initialize a).0 ≡ install_imports ∷ []
      untargeted c p = elim (Option-cases a.installed) [
        | inl i ↦ ground (arith, p, i)
        | inr (installed, i) ↦
            let off : experiment_enabled a c.mode none installed ≡ false = ground arith in
            ground (arith, p, i, off)
      ]
