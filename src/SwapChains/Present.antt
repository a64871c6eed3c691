-- ===== src/SwapChains/Present.antt =====
-- src/dxgi.rs: what a Present does to the color space of the swap chain.
use elden_ring_windowed_hdr.Common.{
  ℕ, ◌≡◌, refl, sym, ap, ◌∙◌, inl, inr, Bool, true, false, Option, none, some, Result, ok, err,
  arith, Bool-cases,
}
use elden_ring_windowed_hdr.ColorSpace.Machine.{
  ManagedColorSpaceState, ManagedColorSpaceTransition, begin_transition, finish_transition, pq,
}
use elden_ring_windowed_hdr.SwapChains.Device.{
  Device, InspectError, inspect_windowed_hdr_candidate, IsInspected, inspect_positive,
}
use elden_ring_windowed_hdr.SwapChains.Registry.{
  Dxgi, entry, modify, log_swap_chain_state, note_first_present, signed,
}
use elden_ring_windowed_hdr.SwapChains.Hooks.{
  carry_out, apply_managed_color_space_before_present, present_hook, perform, call_succeeded,
  is_ok_true, began, finished,
}
use elden_ring_windowed_hdr.SwapChains.Frame.{entry-modify, modify_rest}

-- A Present sets a color space for one of two reasons.
pub data Reason (device : Device) (swap_chain c : ℕ) (m : ManagedColorSpaceState) : Type 0 where
  enables :
      c ≡ pq → m.desired_hdr ≡ true → IsInspected device swap_chain → Reason device swap_chain c m
  restores : m.restore_color_space ≡ some c → m.desired_hdr ≡ false → Reason device swap_chain c m

ok_true : (r : Result InspectError Bool) → is_ok_true r ≡ true → r ≡ ok true
ok_true (ok true) e = refl
ok_true (ok false) e = cc
ok_true (err x) e = cc

begin_enables :
    (m : ManagedColorSpaceState) (t : ManagedColorSpaceTransition)
    → (begin_transition m).1 ≡ some t
    → t.enabling_hdr ≡ true
    → (t.target_color_space ≡ pq) × (m.desired_hdr ≡ true)
unfolding begin_transition
begin_enables m t e h = ground arith

begin_restores :
    (m : ManagedColorSpaceState) (t : ManagedColorSpaceTransition)
    → (begin_transition m).1 ≡ some t
    → t.enabling_hdr ≡ false
    → (m.restore_color_space ≡ some t.target_color_space) × (m.desired_hdr ≡ false)
unfolding begin_transition
begin_restores m t e h = ground arith

perform_target :
    (device : Device) (k : ℕ) (t : ManagedColorSpaceTransition) (c : ℕ) (succeeded : Bool)
    → perform device k t ≡ some (c, succeeded)
    → c ≡ t.target_color_space
unfolding perform
perform_target device k t c succeeded e = ground arith

perform-IsInspected :
    (device : Device) (k : ℕ) (t : ManagedColorSpaceTransition) {r : ℕ × Bool}
    → t.enabling_hdr ≡ true
    → perform device k t ≡ some r
    → IsInspected device k
unfolding perform
perform-IsInspected device k t h e =
    elim (Bool-cases (is_ok_true (inspect_windowed_hdr_candidate device k))) [
      | inl yes_ ↦
          inspect_positive device k (ok_true (inspect_windowed_hdr_candidate device k) yes_)
      | inr no_ ↦ ground arith
    ]

perform-Reason :
    (device : Device) (k : ℕ) (m : ManagedColorSpaceState) (t : ManagedColorSpaceTransition) (c : ℕ)
    (succeeded : Bool)
    → (begin_transition m).1 ≡ some t
    → perform device k t ≡ some (c, succeeded)
    → Reason device k c m
perform-Reason device k m t c succeeded b e = elim (Bool-cases t.enabling_hdr) [
  | inl on ↦
      enables (perform_target device k t c succeeded e ∙ (begin_enables m t b on).0)
        (begin_enables m t b on).1 (perform-IsInspected device k t on e)
  | inr off ↦
      restores
        ((begin_restores m t b off).0 ∙ ap some (sym (perform_target device k t c succeeded e)))
        (begin_restores m t b off).1
]

carry_out-Reason :
    (device : Device) (d : Dxgi) (k : ℕ) (m : ManagedColorSpaceState)
    (o : Option ManagedColorSpaceTransition) (c : ℕ) (succeeded : Bool)
    → (begin_transition m).1 ≡ o
    → (carry_out device d k o).call ≡ some (c, succeeded)
    → Reason device k c m
unfolding carry_out
carry_out-Reason device d k m none c succeeded b e = cc
carry_out-Reason device d k m (some t) c succeeded b e = perform-Reason device k m t c succeeded b e

-- A Present that calls SetColorSpace1 either sets PQ, where HDR is wanted and an inspection at that
-- moment found every prerequisite of windowed HDR, or sets exactly the captured baseline, where
-- HDR is not wanted.
pub present-Reason :
    (device : Device) (d : Dxgi) (k : ℕ) (original : Bool) (c : ℕ) (succeeded : Bool)
    → (present_hook device d k original).call ≡ some (c, succeeded)
    → Reason device k c (entry d k).managed_color_space
unfolding present_hook apply_managed_color_space_before_present
present-Reason device d k false c succeeded e = cc
present-Reason device d k true c succeeded e = elim (Bool-cases d.states_poisoned) [
  | inl bad ↦ ground arith
  | inr good ↦
      carry_out-Reason device (modify d k began) k (entry d k).managed_color_space
        (begin_transition (entry d k).managed_color_space).1 c succeeded refl (ground arith)
]

-- the entry's color-space state is left alone by what is only logged
managed-log :
    (device : Device) (d : Dxgi) (k : ℕ)
    → (entry (log_swap_chain_state device d k) k).managed_color_space
      ≡ (entry d k).managed_color_space
unfolding log_swap_chain_state
managed-log device d k = go (device.description k)
  where
    go :
        (o : Option _)
        → (entry (elim o [ none ↦ d | some x ↦ modify d k (signed x) ]) k).managed_color_space
          ≡ (entry d k).managed_color_space
    go none = refl
    go (some x) = ground (arith, entry-modify d k (signed x) k)

managed-first_present :
    (device : Device) (d : Dxgi) (k : ℕ)
    → (entry (note_first_present device d k) k).managed_color_space
      ≡ (entry d k).managed_color_space
unfolding note_first_present
managed-first_present device d k = ground (
  arith,
  managed-log device (modify d k (λ s. record s { first_present_logged = true })) k,
  entry-modify d k (λ s. record s { first_present_logged = true }) k,
  entry-modify d k (λ s. s) k,
)

finish_failed_lem :
    (m : ManagedColorSpaceState) (t : ManagedColorSpaceTransition)
    → (begin_transition m).1 ≡ some t
    → t.enabling_hdr ≡ true
    → let m' = finish_transition (begin_transition m).0 t false in
      (m'.failure_latched ≡ true)
      × (m'.desired_hdr ≡ false)
      × (m'.transition_pending ≡ true)
      × (m'.transition_in_progress ≡ false)
      × (m'.restore_color_space ≡ m.restore_color_space)
unfolding begin_transition finish_transition
finish_failed_lem m t b h = ground arith

-- A Present that cannot switch to PQ, because the inspection or the call of SetColorSpace1 fails,
-- latches the failure, gives HDR up, and schedules the restoration of the unchanged baseline.
pub present_failure :
    (device : Device) (d : Dxgi) (k : ℕ) (t : ManagedColorSpaceTransition)
    → d.states_poisoned ≡ false
    → (begin_transition (entry d k).managed_color_space).1 ≡ some t
    → t.enabling_hdr ≡ true
    → call_succeeded (perform device k t) ≡ false
    → let m' = (entry (present_hook device d k true).dxgi k).managed_color_space in
      (m'.failure_latched ≡ true)
      × (m'.desired_hdr ≡ false)
      × (m'.transition_pending ≡ true)
      × (m'.transition_in_progress ≡ false)
      × (m'.restore_color_space ≡ (entry d k).managed_color_space.restore_color_space)
unfolding present_hook
present_failure device d k t p b h f =
    rw
      (
        managed-first_present device (apply_managed_color_space_before_present device d k).dxgi k,
        managed,
      )
      (finish_failed_lem (entry d k).managed_color_space t b h)
  where
    managed :
        (entry (apply_managed_color_space_before_present device d k).dxgi k).managed_color_space
        ≡ finish_transition (begin_transition (entry d k).managed_color_space).0 t false
    managed =
        unfold apply_managed_color_space_before_present carry_out began finished in
        ground (
          arith,
          entry-modify d k began k,
          entry-modify (modify d k began) k (finished t (call_succeeded (perform device k t))) k,
          modify_rest d k began,
        )
