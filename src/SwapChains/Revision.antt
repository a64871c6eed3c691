-- ===== src/SwapChains/Revision.antt =====
-- src/dxgi.rs: the revision of the active swap chain, by which game_hdr.rs knows whether an
-- inspection is out of date.
use elden_ring_windowed_hdr.Common.{
  ℕ, suc, ◌+◌, ◌%◌, ◌^◌, ◌<◌, ◌≤◌, List, [], ◌∷◌, length, ◌≡◌, refl, Bool, true, false, not, ◌&&◌,
  Option, none, some, ◌==◌, if◌then◌else◌, arith,
}
use elden_ring_windowed_hdr.SwapChains.Device.{Device}
use elden_ring_windowed_hdr.SwapChains.Registry.{
  SwapChainState, Dxgi, entry, modify, ensure_swap_chain_state, note_active_swap_chain,
  next_revision, note_active_swap_chain_reconfigured, advance_swap_chain_generation,
  log_swap_chain_state, note_first_present, request_managed_hdr_color_space, requested, advanced,
  signed, released,
}
use elden_ring_windowed_hdr.SwapChains.Hooks.{
  carry_out, apply_managed_color_space_before_present, present_hook, reconfiguring_hook,
  resize_target_hook, set_color_space1_hook, capture_swap_chain, swap_chain_release_hook, began,
  observed,
}
use elden_ring_windowed_hdr.SwapChains.Frame.{
  Op, capture, present, reconfigure, resize_target, set_color_space, release, request_hdr,
  backend_chain, apply, modify_rest,
}
use elden_ring_windowed_hdr.SwapChains.Lifecycles.{run}
use elden_ring_windowed_hdr.ColorSpace.Machine.{ManagedColorSpaceTransition, begin_transition}

abbrev succeeded : Option Bool → Bool
succeeded none = false
succeeded (some b) = b

abbrev last_reference : Option ℕ → Bool
last_reference none = false
last_reference (some n) = n == 0

-- Whether a call makes an inspection of the active swap chain out of date: it puts another swap
-- chain in its place, reconfigures it, or releases it.
abbrev pub outdates : ℕ → Op → Bool
outdates active (capture created c patched) =
    created && patched && not (c == 0) && not (active == c)
outdates active (present c original) = false
outdates active (reconfigure c result) = succeeded result && active == c
outdates active (resize_target c result) = succeeded result && active == c
outdates active (set_color_space c color_space result) = false
outdates active (release c remaining) = last_reference remaining && active == c
outdates active (request_hdr c hdr) = false
outdates active (backend_chain c) = not (c == 0) && not (active == c)

-- the swap chain that is active after a call
abbrev pub active_after : ℕ → Op → ℕ
active_after active (capture created c patched) =
    if created && patched && not (c == 0) then c else active
active_after active (present c original) = active
active_after active (reconfigure c result) = active
active_after active (resize_target c result) = active
active_after active (set_color_space c color_space result) = active
active_after active (release c remaining) =
    if last_reference remaining && active == c then 0 else active
active_after active (request_hdr c hdr) = active
active_after active (backend_chain c) = if c == 0 then active else c

-- both atomics of the module
abbrev pub Marks : Dxgi → Dxgi → Type 0
Marks d d' = (d'.active_swap_chain ≡ d.active_swap_chain) × (d'.active_revision ≡ d.active_revision)

modify-Marks : (d : Dxgi) (k : ℕ) (f : SwapChainState → SwapChainState) → Marks d (modify d k f)
modify-Marks d k f = ((modify_rest d k f).1, (modify_rest d k f).2)

log-Marks : (device : Device) (d : Dxgi) (k : ℕ) → Marks d (log_swap_chain_state device d k)
unfolding log_swap_chain_state
log-Marks device d k = go (device.description k)
  where
    go :
        (o : Option _)
        → Marks d (elim o [ none ↦ d | some description ↦ modify d k (signed description) ])
    go none = (refl, refl)
    go (some description) = modify-Marks d k (signed description)

first_present-Marks : (device : Device) (d : Dxgi) (k : ℕ) → Marks d (note_first_present device d k)
unfolding note_first_present
first_present-Marks device d k = ground (
  arith,
  modify-Marks d k (λ s. s),
  modify-Marks d k (λ s. record s { first_present_logged = true }),
  log-Marks device (modify d k (λ s. record s { first_present_logged = true })) k,
)

carry_out-Marks :
    (device : Device) (d : Dxgi) (k : ℕ) (o : Option ManagedColorSpaceTransition)
    → Marks d (carry_out device d k o).dxgi
unfolding carry_out
carry_out-Marks device d k none = (refl, refl)
carry_out-Marks device d k (some t) = modify-Marks d k _

applied-Marks :
    (device : Device) (d : Dxgi) (k : ℕ)
    → Marks d (apply_managed_color_space_before_present device d k).dxgi
unfolding apply_managed_color_space_before_present
applied-Marks device d k = ground (
  arith,
  modify-Marks d k began,
  carry_out-Marks device (modify d k began) k (begin_transition (entry d k).managed_color_space).1,
)

present-Marks :
    (device : Device) (d : Dxgi) (k : ℕ) (original : Bool)
    → Marks d (present_hook device d k original).dxgi
unfolding present_hook
present-Marks device d k original = ground (
  arith,
  applied-Marks device d k,
  first_present-Marks device (apply_managed_color_space_before_present device d k).dxgi k,
)

request-Marks :
    (device : Device) (d : Dxgi) (k : ℕ) (hdr : Bool)
    → Marks d (request_managed_hdr_color_space device d k hdr).0
unfolding request_managed_hdr_color_space
request-Marks device d k hdr = ground (arith, modify-Marks d k (requested hdr))

-- Every call leaves exactly the swap chain active that its meaning says, and advances the revision
-- by one exactly if it puts another swap chain in the place of the active one, reconfigures the
-- active one or releases it.
pub revision_tracks :
    (device : Device) (d : Dxgi) (op : Op)
    → ((apply device d op).active_swap_chain ≡ active_after d.active_swap_chain op)
      × ((apply device d op).active_revision ≡ (
          if outdates d.active_swap_chain op
          then next_revision d.active_revision
          else d.active_revision))
unfolding apply capture_swap_chain ensure_swap_chain_state note_active_swap_chain reconfiguring_hook
    advance_swap_chain_generation note_active_swap_chain_reconfigured resize_target_hook
    set_color_space1_hook swap_chain_release_hook released
revision_tracks device d (capture created c patched) = ground (
  arith,
  modify-Marks d c (λ s. s),
  log-Marks device (note_active_swap_chain (ensure_swap_chain_state d c) c) c,
)
revision_tracks device d (present c original) = present-Marks device d c original
revision_tracks device d (reconfigure c none) = (refl, refl)
revision_tracks device d (reconfigure c (some b)) =
    ground
      (arith, modify-Marks d c advanced, log-Marks device (advance_swap_chain_generation d c) c)
revision_tracks device d (resize_target c none) = (refl, refl)
revision_tracks device d (resize_target c (some b)) = ground (arith, log-Marks device d c)
revision_tracks device d (set_color_space c x none) = (refl, refl)
revision_tracks device d (set_color_space c x (some b)) =
    ground (arith, modify-Marks d c (observed x))
revision_tracks device d (release c none) = (refl, refl)
revision_tracks device d (release c (some n)) = ground arith
revision_tracks device d (request_hdr c hdr) = request-Marks device d c hdr
revision_tracks device d (backend_chain c) = ground arith

-- how many of the calls make an inspection of the active swap chain out of date
pub outdating_calls : ℕ → List (Device × Op) → ℕ
outdating_calls active [] = 0
outdating_calls active ((device, op) ∷ calls) =
    let rest = outdating_calls (active_after active op) calls in
    if outdates active op then suc rest else rest

outdating_calls-le :
    (calls : List (Device × Op)) (active : ℕ) → outdating_calls active calls ≤ length calls
unfolding outdating_calls
outdating_calls-le [] active = omega arith
outdating_calls-le ((device, op) ∷ calls) active =
    ground (arith, outdating_calls-le calls (active_after active op))

pub run_revision :
    (calls : List (Device × Op)) (d : Dxgi)
    → d.active_revision < 2 ^ 64
    → (run d calls).active_revision
      ≡ (d.active_revision + outdating_calls d.active_swap_chain calls) % 2 ^ 64
unfolding run outdating_calls
run_revision [] d h = omega arith
run_revision ((device, op) ∷ calls) d h =
    let bounded : (apply device d op).active_revision < 2 ^ 64 =
      ground (arith, revision_tracks device d op) in
    let (active, revision) = revision_tracks device d op in
    rw (run_revision calls (apply device d op) bounded, active) (ground (arith, revision))

-- Over fewer than 2 ^ 64 calls, if the revision is the same before and after, no call in between
-- replaced, reconfigured or released the active swap chain.
pub same_revision :
    (calls : List (Device × Op)) (d : Dxgi)
    → d.active_revision < 2 ^ 64
    → length calls < 2 ^ 64
    → (run d calls).active_revision ≡ d.active_revision
    → outdating_calls d.active_swap_chain calls ≡ 0
same_revision calls d h n e =
    omega (arith, run_revision calls d h, outdating_calls-le calls d.active_swap_chain)
