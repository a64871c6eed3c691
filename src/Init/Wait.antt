-- ===== src/Init/Wait.antt =====
-- src/lib.rs: `elden_ring_windowed_hdr_init` and `wait_for_initialization`. What the other threads
-- do between two polls, and the milliseconds that have passed at each poll, are arguments.
use elden_ring_windowed_hdr.Common.{
  ℕ, zero, suc, Bool, true, false, Option, none, some, List, ◌==◌, leb, if◌then◌else◌,
}
use elden_ring_windowed_hdr.Init.Start.{Start, loaded, Action, start_initialization, act, run}

-- The loop of `wait_for_initialization` from one poll on, on fuel; `seen` is the byte at each
-- poll. None means that the fuel ran out.
unfoldable pub wait_for_initialization : ℕ → (ℕ → ℕ) → (ℕ → ℕ) → ℕ → Option Bool
wait_for_initialization zero seen clock n = none
wait_for_initialization (suc fuel) seen clock n =
    let rest = wait_for_initialization fuel seen clock (suc n) in
    if seen n == 2
    then some true
    else if seen n == 3
    then some false
    else if leb 15000 (clock n)
    then some false
    else rest

-- The state at a poll, where `schedule` gives the actions of the other threads before each.
abbrev pub at : (ℕ → List Action) → Start → ℕ → Start
at schedule s zero = run (schedule zero) s
at schedule s (suc n) = run (schedule (suc n)) (at schedule s n)

-- `elden_ring_windowed_hdr_init`, after the actions `before` of the threads that the loader ran
unfoldable pub elden_ring_windowed_hdr_init :
    ℕ → List Action → (ℕ → List Action) → (ℕ → ℕ) → Option Bool
elden_ring_windowed_hdr_init fuel before schedule clock =
    wait_for_initialization fuel
      (λ n. (at schedule (act start_initialization (run before loaded)) n).init_state) clock 0
