-- ===== src/Init/Start.antt =====
-- src/lib.rs: `INIT_STATE`, and the threads that race for it: `start_initialization` and
-- `initialization_thread`, one atomic action at a time.
use elden_ring_windowed_hdr.Common.{
  ℕ, ◌≡◌, ◌≤◌, refl, ◌+◌, ◌-◌, ◌⊎◌, inl, inr, Bool, true, false, List, [], ◌∷◌, ◌++◌, ◌==◌,
  if◌then◌else◌, arith, Bool-cases, ◌↔◌, ◌∙◌, ap,
}

-- The shared byte, the threads that have claimed the start and not yet spawned, the spawned
-- threads whose initialization has not ended, and the initializations that have returned Ok and
-- those that have not.
pub record Start : Type 0 where
  pub init_state : ℕ
  pub claimed : ℕ
  pub running : ℕ
  pub succeeded : ℕ
  pub failed : ℕ

abbrev pub loaded : Start
loaded = record { init_state = 0; claimed = 0; running = 0; succeeded = 0; failed = 0 }

-- One atomic action of some thread: the exchange of `start_initialization`, its `spawn_thread`
-- with the store that follows a failure, and the end of `initialize` with the store that follows.
pub data Action : Type 0 where
  start_initialization : Action
  spawn_thread : (spawned : Bool) → Action
  initialization_thread : (returned_ok : Bool) → Action

-- An action that no thread can take changes nothing.
unfoldable pub act : Action → Start → Start
act start_initialization s =
    if s.init_state == 0 then record s { init_state = 1; claimed = s.claimed + 1 } else s
act (spawn_thread spawned) s =
    if s.claimed == 0
    then s
    else if spawned
    then record s { claimed = s.claimed - 1; running = s.running + 1 }
    else record s { claimed = s.claimed - 1; init_state = 3 }
act (initialization_thread returned_ok) s =
    if s.running == 0
    then s
    else if returned_ok
    then record s { running = s.running - 1; succeeded = s.succeeded + 1; init_state = 2 }
    else record s { running = s.running - 1; failed = s.failed + 1; init_state = 3 }

abbrev pub run : List Action → Start → Start
run [] s = s
run (a ∷ actions) s = run actions (act a s)

pub run-append :
    (actions more : List Action) (s : Start) → run (actions ++ more) s ≡ run more (run actions s)
run-append [] more s = refl
run-append (a ∷ actions) more s = run-append actions more (act a s)

-- Nothing is under way, and the byte tells how far the start is.
abbrev pub IsSettled : Start → Type 0
IsSettled s =
    (s.claimed ≡ 0)
    × (s.running ≡ 0)
    × (((s.init_state ≡ 2) × (s.succeeded ≡ 1) × (s.failed ≡ 0))
        ⊎ ((s.init_state ≡ 3) × (s.succeeded ≡ 0) × (s.failed ≤ 1)))

abbrev pub IsUnderWay : Start → Type 0
IsUnderWay s = (s.init_state ≡ 1) × (s.claimed + s.running ≡ 1) × (s.succeeded ≡ 0) × (s.failed ≡ 0)

abbrev pub IsUntouched : Start → Type 0
IsUntouched s =
    (s.init_state ≡ 0) × (s.claimed ≡ 0) × (s.running ≡ 0) × (s.succeeded ≡ 0) × (s.failed ≡ 0)

abbrev pub IsOrderly : Start → Type 0
IsOrderly s = IsUntouched s ⊎ (IsUnderWay s ⊎ IsSettled s)

act-IsOrderly : (a : Action) (s : Start) → IsOrderly s → IsOrderly (act a s)
unfolding act
act-IsOrderly start_initialization s (inl h) = inr (inl (ground (arith, h)))
act-IsOrderly start_initialization s (inr (inl h)) = inr (inl (ground (arith, h)))
act-IsOrderly start_initialization s (inr (inr h)) = inr (inr (ground (arith, h)))
act-IsOrderly (spawn_thread true) s (inl h) = inl (ground (arith, h))
act-IsOrderly (spawn_thread true) s (inr (inl h)) = inr (inl (ground (arith, h)))
act-IsOrderly (spawn_thread true) s (inr (inr h)) = inr (inr (ground (arith, h)))
act-IsOrderly (spawn_thread false) s (inl h) = inl (ground (arith, h))
act-IsOrderly (spawn_thread false) s (inr (inl h)) = elim (Bool-cases (s.claimed == 0)) [
  | inl t ↦ inr (inl (ground (arith, h, t)))
  | inr t ↦ inr (inr (ground (arith, h, t)))
]
act-IsOrderly (spawn_thread false) s (inr (inr h)) = inr (inr (ground (arith, h)))
act-IsOrderly (initialization_thread ok) s (inl h) = inl (ground (arith, h))
act-IsOrderly (initialization_thread true) s (inr (inl h)) = elim (Bool-cases (s.running == 0)) [
  | inl t ↦ inr (inl (ground (arith, h, t)))
  | inr t ↦ inr (inr (ground (arith, h, t)))
]
act-IsOrderly (initialization_thread false) s (inr (inl h)) = elim (Bool-cases (s.running == 0)) [
  | inl t ↦ inr (inl (ground (arith, h, t)))
  | inr t ↦ inr (inr (ground (arith, h, t)))
]
act-IsOrderly (initialization_thread ok) s (inr (inr h)) = inr (inr (ground (arith, h)))

pub run-IsOrderly : (actions : List Action) (s : Start) → IsOrderly s → IsOrderly (run actions s)
run-IsOrderly [] s orderly = orderly
run-IsOrderly (a ∷ actions) s orderly = run-IsOrderly actions (act a s) (act-IsOrderly a s orderly)

act-settled : (a : Action) (s : Start) → IsSettled s → act a s ≡ s
unfolding act
act-settled start_initialization s h = ground (arith, h)
act-settled (spawn_thread spawned) s h = ground (arith, h)
act-settled (initialization_thread ok) s h = ground (arith, h)

pub run-settled : (actions : List Action) (s : Start) → IsSettled s → run actions s ≡ s
run-settled [] s h = refl
run-settled (a ∷ actions) s h = ap (run actions) (act-settled a s h) ∙ run-settled actions s h

-- However the threads that load, start and initialize the module interleave from its loading on,
-- `initialize` has ended at most once; the byte is 2 exactly when it has returned Ok; and once the
-- byte is 2 or 3 no further action of any thread changes anything.
pub start_initialization_lem :
    (actions more : List Action)
    → ((run actions loaded).succeeded + (run actions loaded).failed ≤ 1)
      × (((run actions loaded).init_state ≡ 2) ↔ ((run actions loaded).succeeded ≡ 1))
      × (2 ≤ (run actions loaded).init_state → run (actions ++ more) loaded ≡ run actions loaded)
start_initialization_lem actions more =
    go (run-IsOrderly actions loaded (inl (refl, refl, refl, refl, refl)))
  where
    s : Start
    s = run actions loaded

    go :
        IsOrderly s
        → (s.succeeded + s.failed ≤ 1)
          × ((s.init_state ≡ 2) ↔ (s.succeeded ≡ 1))
          × (2 ≤ s.init_state → run (actions ++ more) loaded ≡ s)
    go (inl h) = (
      ground (arith, h),
      ((λ e. ground (arith, h, e)), λ e. ground (arith, h, e)),
      λ l. absurd (ground (arith, h, l)),
    )
    go (inr (inl h)) = (
      ground (arith, h),
      ((λ e. ground (arith, h, e)), λ e. ground (arith, h, e)),
      λ l. absurd (ground (arith, h, l)),
    )
    go (inr (inr h)) = (
      ground (arith, h),
      ((λ e. ground (arith, h, e)), λ e. ground (arith, h, e)),
      λ l. run-append actions more loaded ∙ run-settled more s h,
    )
