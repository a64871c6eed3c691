-- ===== src/SwapChains/Hooks.antt =====
-- src/dxgi.rs: the hooks on a swap chain, as far as they change the module's state or call
-- SetColorSpace1. An original function that is missing makes a hook return -1 and do nothing.
use elden_ring_windowed_hdr.Common.{
  ℕ, Bool, false, not, ◌&&◌, Option, none, some, ◌==◌, if◌then◌else◌, Result, ok, err,
}
use elden_ring_windowed_hdr.ColorSpace.Machine.{
  ManagedColorSpaceTransition, begin_transition, finish_transition, observe_external_set,
}
use elden_ring_windowed_hdr.SwapChains.Device.{Device, inspect_windowed_hdr_candidate}
use elden_ring_windowed_hdr.SwapChains.Registry.{
  SwapChainState, Dxgi, entry, modify, ensure_swap_chain_state, note_active_swap_chain,
  note_active_swap_chain_reconfigured, advance_swap_chain_generation, log_swap_chain_state,
  note_first_present, released,
}

abbrev pub is_ok_true {ℓ} : {E : Type ℓ} → Result E Bool → Bool
is_ok_true (ok b) = b
is_ok_true (err e) = false

-- The call of SetColorSpace1 for a transition that began, if it is made: what was set, and whether
-- the call succeeded.
unfoldable pub perform : Device → ℕ → ManagedColorSpaceTransition → Option (ℕ × Bool)
perform device swap_chain t =
    if t.enabling_hdr && not (is_ok_true (inspect_windowed_hdr_candidate device swap_chain))
    then none
    else elim (device.set_color_space swap_chain t.target_color_space) [
      | none ↦ none
      | some succeeded ↦ some (t.target_color_space, succeeded)
    ]

abbrev pub call_succeeded : Option (ℕ × Bool) → Bool
call_succeeded none = false
call_succeeded (some (c, succeeded)) = succeeded

unfoldable pub began : SwapChainState → SwapChainState
began s = record s { managed_color_space = (begin_transition s.managed_color_space).0 }

unfoldable pub finished : ManagedColorSpaceTransition → Bool → SwapChainState → SwapChainState
finished t succeeded s = record s {
  observed_color_space = if succeeded then t.target_color_space else s.observed_color_space;
  managed_color_space = finish_transition s.managed_color_space t succeeded;
}

pub record Applied : Type 0 where
  pub dxgi : Dxgi
  pub call : Option (ℕ × Bool)

-- The rest of `apply_managed_color_space_before_present` once a transition began, or none. The
-- entry that `query_swap_chain_interface` makes for the interface it got is a default one, as a
-- missing one is taken to be.
unfoldable pub carry_out : Device → Dxgi → ℕ → Option ManagedColorSpaceTransition → Applied
carry_out device d swap_chain none = record { dxgi = d; call = none }
carry_out device d swap_chain (some t) =
    let call = perform device swap_chain t in
    record { dxgi = modify d swap_chain (finished t (call_succeeded call)); call = call }

-- `apply_managed_color_space_before_present`, with the call of SetColorSpace1 that it made.
unfoldable pub apply_managed_color_space_before_present : Device → Dxgi → ℕ → Applied
apply_managed_color_space_before_present device d swap_chain =
    if d.states_poisoned
    then record { dxgi = d; call = none }
    else carry_out device (modify d swap_chain began) swap_chain
        (begin_transition (entry d swap_chain).managed_color_space).1

-- `present_hook` and `present1_hook`; `original` tells whether the saved function was found
unfoldable pub present_hook : Device → Dxgi → ℕ → Bool → Applied
present_hook device d swap_chain original =
    let a = apply_managed_color_space_before_present device d swap_chain in
    if original
    then record { dxgi = note_first_present device a.dxgi swap_chain; call = a.call }
    else record { dxgi = d; call = none }

-- `set_fullscreen_state_hook`, `resize_buffers_hook` and `resize_buffers1_hook`: `result` tells
-- whether the saved function was found, and whether it succeeded.
unfoldable pub reconfiguring_hook : Device → Dxgi → ℕ → Option Bool → Dxgi
reconfiguring_hook device d swap_chain result = elim result [
  | none ↦ d
  | some succeeded ↦
      if succeeded
      then log_swap_chain_state device (advance_swap_chain_generation d swap_chain) swap_chain
      else d
]

unfoldable pub resize_target_hook : Device → Dxgi → ℕ → Option Bool → Dxgi
resize_target_hook device d swap_chain result = elim result [
  | none ↦ d
  | some succeeded ↦
      if succeeded
      then note_active_swap_chain_reconfigured (log_swap_chain_state device d swap_chain) swap_chain
      else d
]

unfoldable pub observed : ℕ → SwapChainState → SwapChainState
observed color_space s = record s {
  observed_color_space = color_space;
  managed_color_space = (observe_external_set s.managed_color_space color_space).0;
}

unfoldable pub set_color_space1_hook : Dxgi → ℕ → ℕ → Option Bool → Dxgi
set_color_space1_hook d swap_chain color_space result = elim result [
  | none ↦ d
  | some succeeded ↦ if succeeded then modify d swap_chain (observed color_space) else d
]

-- `capture_swap_chain`: the creation succeeded with `swap_chain`, and `patched` tells whether
-- `patch_swap_chain` did
unfoldable pub capture_swap_chain : Device → Dxgi → Bool → ℕ → Bool → Dxgi
capture_swap_chain device d created swap_chain patched =
    if created && not (swap_chain == 0) && patched
    then log_swap_chain_state device
        (note_active_swap_chain (ensure_swap_chain_state d swap_chain) swap_chain) swap_chain
    else d

-- `swap_chain_release_hook`: `remaining` is none where the record or its saved Release is missing
unfoldable pub swap_chain_release_hook : Dxgi → ℕ → Option ℕ → Dxgi
swap_chain_release_hook d object remaining = elim remaining [
  | none ↦ d
  | some n ↦ released d object n
]
