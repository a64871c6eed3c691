-- ===== src/SwapChains/Tests.antt =====
-- src/dxgi.rs: the theorems on the hooks at concrete calls.
use elden_ring_windowed_hdr.Common.{
  ◌≡◌, ◌⊎◌, refl, true, false, is_some, List, [], ◌∷◌, arith, if◌then◌else◌,
}
use elden_ring_windowed_hdr.ColorSpace.Machine.{
  ManagedColorSpaceTransition, request, begin_transition,
}
use elden_ring_windowed_hdr.ColorSpace.Lifecycle.{Reach, fresh}
use elden_ring_windowed_hdr.ColorSpace.Debt.{IsRelinquished}
use elden_ring_windowed_hdr.SwapChains.Device.{
  Device, inspect_windowed_hdr_candidate, windowed_hdr_candidate_is_eligible, IsInspected,
  inspect_positive,
}
use elden_ring_windowed_hdr.SwapChains.Registry.{
  initial, entry, modify, next_revision, request_managed_hdr_color_space, requested,
  note_active_swap_chain, log_swap_chain_state, ensure_swap_chain_state,
}
use elden_ring_windowed_hdr.SwapChains.Hooks.{
  present_hook, apply_managed_color_space_before_present, carry_out, perform, began,
  capture_swap_chain,
}
use elden_ring_windowed_hdr.SwapChains.Frame.{Op, capture, present, request_hdr, apply, apply_frame}
use elden_ring_windowed_hdr.SwapChains.Lifecycles.{run, chain, run_consistent}
use elden_ring_windowed_hdr.SwapChains.Revision.{
  active_after, outdates, revision_tracks, same_revision, outdating_calls,
}
use elden_ring_windowed_hdr.SwapChains.Present.{Reason, present-Reason, present_failure}
use elden_ring_windowed_hdr.SwapChains.Samples.{hdr_display, stubborn_display}

-- swap chain 7 captured and asked to be driven as HDR
abbrev asked : List (Device × Op)
asked = (hdr_display, capture true 7 true) ∷ (hdr_display, request_hdr 7 true) ∷ []

inspect_positive_example : IsInspected hdr_display 7
unfolding inspect_windowed_hdr_candidate windowed_hdr_candidate_is_eligible
inspect_positive_example = inspect_positive hdr_display 7 refl

present-Reason_example : Reason hdr_display 7 12 (entry (run initial asked) 7).managed_color_space
unfolding present_hook apply_managed_color_space_before_present carry_out perform
    inspect_windowed_hdr_candidate windowed_hdr_candidate_is_eligible run apply capture_swap_chain
    request_managed_hdr_color_space modify request requested note_active_swap_chain
    log_swap_chain_state begin_transition began ensure_swap_chain_state
present-Reason_example = present-Reason hdr_display (run initial asked) 7 true 12 true refl

-- the transition that the next Present begins
abbrev to_pq : ManagedColorSpaceTransition
to_pq = record { target_color_space = 12; enabling_hdr = true; request_epoch = 1 }

present_failure_example :
    let m' =
      (entry
        (present_hook stubborn_display (run initial asked) 7 true).dxgi
        7).managed_color_space in
    (m'.failure_latched ≡ true)
    × (m'.desired_hdr ≡ false)
    × (m'.transition_pending ≡ true)
    × (m'.transition_in_progress ≡ false)
    × (m'.restore_color_space
        ≡ (entry (run initial asked) 7).managed_color_space.restore_color_space)
unfolding perform inspect_windowed_hdr_candidate windowed_hdr_candidate_is_eligible run apply
    capture_swap_chain request_managed_hdr_color_space modify request requested
    note_active_swap_chain log_swap_chain_state begin_transition ensure_swap_chain_state
present_failure_example =
    present_failure stubborn_display (run initial asked) 7 to_pq refl refl refl refl

run_consistent_example :
    let s = entry (run initial asked) 7 in
    Reach fresh (chain s)
    × (IsRelinquished s.managed_color_space
        ⊎ ((s.managed_color_space.transition_in_progress ≡ false)
            × (is_some s.managed_color_space.restore_color_space ≡ true
                → s.managed_color_space.desired_hdr ≡ false
                → s.managed_color_space.failure_latched ≡ false
                → s.managed_color_space.transition_pending ≡ true)))
run_consistent_example = run_consistent asked 7

revision_tracks_example :
    ((apply hdr_display initial (capture true 7 true)).active_swap_chain
      ≡ active_after initial.active_swap_chain (capture true 7 true))
    × ((apply hdr_display initial (capture true 7 true)).active_revision ≡ (
        if outdates initial.active_swap_chain (capture true 7 true)
        then next_revision initial.active_revision
        else initial.active_revision))
revision_tracks_example = revision_tracks hdr_display initial (capture true 7 true)

same_revision_example : outdating_calls 0 ((hdr_display, request_hdr 7 true) ∷ []) ≡ 0
unfolding run apply request_managed_hdr_color_space modify requested request
same_revision_example =
    same_revision ((hdr_display, request_hdr 7 true) ∷ []) initial (omega arith) (omega arith) refl

apply_frame_example :
    entry (apply hdr_display (run initial asked) (present 8 true)) 7 ≡ entry (run initial asked) 7
apply_frame_example = apply_frame hdr_display (run initial asked) (present 8 true) 7 (omega arith)
