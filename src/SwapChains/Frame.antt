-- ===== src/SwapChains/Frame.antt =====
-- src/dxgi.rs: the calls that reach the module, and which entry of the map each of them changes.
use elden_ring_windowed_hdr.Common.{
  ℕ, ◌≡◌, ◌≢◌, refl, ◌∙◌, Bool, true, false, not, ◌&&◌, Option, none, some, ◌==◌, if◌then◌else◌,
  lookup-insert, lookup-remove, arith,
}
use elden_ring_windowed_hdr.ColorSpace.Machine.{ManagedColorSpaceTransition, begin_transition}
use elden_ring_windowed_hdr.SwapChains.Device.{Device}
use elden_ring_windowed_hdr.SwapChains.Registry.{
  SwapChainState, Dxgi, entry, modify, ensure_swap_chain_state, note_active_swap_chain,
  note_active_swap_chain_reconfigured, advance_swap_chain_generation, log_swap_chain_state,
  note_first_present, request_managed_hdr_color_space, requested, advanced, signed, released,
}
use elden_ring_windowed_hdr.SwapChains.Hooks.{
  Applied, carry_out, apply_managed_color_space_before_present, present_hook, reconfiguring_hook,
  resize_target_hook, set_color_space1_hook, capture_swap_chain, swap_chain_release_hook, began,
  observed,
}

-- One call, with what the original function answered.
pub data Op : Type 0 where
  capture : (created : Bool) → (swap_chain : ℕ) → (patched : Bool) → Op
  present : (swap_chain : ℕ) → (original : Bool) → Op
  reconfigure : (swap_chain : ℕ) → (result : Option Bool) → Op
  resize_target : (swap_chain : ℕ) → (result : Option Bool) → Op
  set_color_space : (swap_chain : ℕ) → (color_space : ℕ) → (result : Option Bool) → Op
  release : (swap_chain : ℕ) → (remaining : Option ℕ) → Op
  request_hdr : (swap_chain : ℕ) → (hdr : Bool) → Op
  backend_chain : (swap_chain : ℕ) → Op

abbrev pub subject : Op → ℕ
subject (capture created c patched) = c
subject (present c original) = c
subject (reconfigure c result) = c
subject (resize_target c result) = c
subject (set_color_space c color_space result) = c
subject (release c remaining) = c
subject (request_hdr c hdr) = c
subject (backend_chain c) = c

unfoldable pub apply : Device → Dxgi → Op → Dxgi
apply device d (capture created c patched) = capture_swap_chain device d created c patched
apply device d (present c original) = (present_hook device d c original).dxgi
apply device d (reconfigure c result) = reconfiguring_hook device d c result
apply device d (resize_target c result) = resize_target_hook device d c result
apply device d (set_color_space c color_space result) = set_color_space1_hook d c color_space result
apply device d (release c remaining) = swap_chain_release_hook d c remaining
apply device d (request_hdr c hdr) = (request_managed_hdr_color_space device d c hdr).0
apply device d (backend_chain c) = note_active_swap_chain d c

module _ (d : Dxgi) (k : ℕ) (f : SwapChainState → SwapChainState) where
  pub entry-modify :
      (j : ℕ)
      → entry (modify d k f) j
        ≡ (if not d.states_poisoned && k == j then f (entry d k) else entry d j)
  unfolding modify
  entry-modify j = ground (arith, lookup-insert k j (f (entry d k)) d.states)

  pub modify_rest :
      ((modify d k f).states_poisoned ≡ d.states_poisoned)
      × ((modify d k f).active_swap_chain ≡ d.active_swap_chain)
      × ((modify d k f).active_revision ≡ d.active_revision)
  unfolding modify
  modify_rest = ground arith

  pub entry-modify_ne : (j : ℕ) → k ≢ j → entry (modify d k f) j ≡ entry d j
  entry-modify_ne j ne = ground (arith, entry-modify j)

-- The registry is changed at most at `k`.
abbrev pub SameBut : ℕ → Dxgi → Dxgi → Type 0
SameBut k d d' = (j : ℕ) → k ≢ j → entry d' j ≡ entry d j

modify-SameBut :
    (k : ℕ) (d d' : Dxgi) (f : SwapChainState → SwapChainState)
    → SameBut k d d'
    → SameBut k d (modify d' k f)
modify-SameBut k d d' f h j ne = entry-modify_ne d' k f j ne ∙ h j ne

active-SameBut :
    (k : ℕ) (d d' : Dxgi) (c r : ℕ)
    → SameBut k d d'
    → SameBut k d (record d' { active_swap_chain = c; active_revision = r })
active-SameBut k d d' c r h j ne = h j ne

note_active-SameBut :
    (k : ℕ) (d d' : Dxgi) (c : ℕ) → SameBut k d d' → SameBut k d (note_active_swap_chain d' c)
unfolding note_active_swap_chain
note_active-SameBut k d d' c h j ne = ground (arith, h j ne)

note_reconfigured-SameBut :
    (k : ℕ) (d d' : Dxgi) (c : ℕ)
    → SameBut k d d'
    → SameBut k d (note_active_swap_chain_reconfigured d' c)
unfolding note_active_swap_chain_reconfigured
note_reconfigured-SameBut k d d' c h j ne = ground (arith, h j ne)

log-SameBut :
    (device : Device) (k : ℕ) (d d' : Dxgi)
    → SameBut k d d'
    → SameBut k d (log_swap_chain_state device d' k)
unfolding log_swap_chain_state
log-SameBut device k d d' h = go (device.description k)
  where
    go :
        (o : Option _)
        → SameBut k d (elim o [ none ↦ d' | some description ↦ modify d' k (signed description) ])
    go none = h
    go (some description) = modify-SameBut k d d' (signed description) h

-- a branch on a test keeps what both branches keep
if-SameBut :
    (k : ℕ) (d x y : Dxgi) (b : Bool)
    → SameBut k d x
    → SameBut k d y
    → SameBut k d (if b then x else y)
if-SameBut k d x y true h g = h
if-SameBut k d x y false h g = g

same-SameBut : (k : ℕ) (d : Dxgi) → SameBut k d d
same-SameBut k d j ne = refl

capture-SameBut :
    (device : Device) (d : Dxgi) (created : Bool) (c : ℕ) (patched : Bool)
    → SameBut c d (capture_swap_chain device d created c patched)
unfolding capture_swap_chain ensure_swap_chain_state
capture-SameBut device d created c patched =
    if-SameBut c d _ _ (created && not (c == 0) && patched)
      (log-SameBut device c d _
        (note_active-SameBut c d _ c (modify-SameBut c d d (λ s. s) (same-SameBut c d))))
      (same-SameBut c d)

first_present-SameBut :
    (device : Device) (k : ℕ) (d d' : Dxgi)
    → SameBut k d d'
    → SameBut k d (note_first_present device d' k)
unfolding note_first_present
first_present-SameBut device k d d' h = if-SameBut k d _ _ d'.states_poisoned h (
    if-SameBut k d _ _ (entry d' k).first_present_logged (modify-SameBut k d d' _ h)
      (log-SameBut device k d _ (modify-SameBut k d d' _ h)))

carry_out-SameBut :
    (device : Device) (d d' : Dxgi) (k : ℕ) (o : Option ManagedColorSpaceTransition)
    → SameBut k d d'
    → SameBut k d (carry_out device d' k o).dxgi
unfolding carry_out
carry_out-SameBut device d d' k none h = h
carry_out-SameBut device d d' k (some t) h = modify-SameBut k d d' _ h

if_applied-SameBut :
    (k : ℕ) (d : Dxgi) (x y : Applied) (b : Bool)
    → SameBut k d x.dxgi
    → SameBut k d y.dxgi
    → SameBut k d (if b then x else y).dxgi
if_applied-SameBut k d x y true h g = h
if_applied-SameBut k d x y false h g = g

applied-SameBut :
    (device : Device) (d : Dxgi) (k : ℕ)
    → SameBut k d (apply_managed_color_space_before_present device d k).dxgi
unfolding apply_managed_color_space_before_present
applied-SameBut device d k = if_applied-SameBut k d _ _ d.states_poisoned (same-SameBut k d) (
    carry_out-SameBut device d _ k (begin_transition (entry d k).managed_color_space).1
      (modify-SameBut k d d began (same-SameBut k d)))

present-SameBut :
    (device : Device) (d : Dxgi) (k : ℕ) (original : Bool)
    → SameBut k d (present_hook device d k original).dxgi
unfolding present_hook
present-SameBut device d k true = first_present-SameBut device k d _ (applied-SameBut device d k)
present-SameBut device d k false = same-SameBut k d

reconfiguring-SameBut :
    (device : Device) (d : Dxgi) (k : ℕ) (result : Option Bool)
    → SameBut k d (reconfiguring_hook device d k result)
unfolding reconfiguring_hook advance_swap_chain_generation
reconfiguring-SameBut device d k none = same-SameBut k d
reconfiguring-SameBut device d k (some false) = same-SameBut k d
reconfiguring-SameBut device d k (some true) =
    log-SameBut device k d _
      (note_reconfigured-SameBut k d _ k (modify-SameBut k d d advanced (same-SameBut k d)))

resize_target-SameBut :
    (device : Device) (d : Dxgi) (k : ℕ) (result : Option Bool)
    → SameBut k d (resize_target_hook device d k result)
unfolding resize_target_hook
resize_target-SameBut device d k none = same-SameBut k d
resize_target-SameBut device d k (some false) = same-SameBut k d
resize_target-SameBut device d k (some true) =
    note_reconfigured-SameBut k d _ k (log-SameBut device k d d (same-SameBut k d))

set_color_space-SameBut :
    (d : Dxgi) (k c : ℕ) (result : Option Bool) → SameBut k d (set_color_space1_hook d k c result)
unfolding set_color_space1_hook
set_color_space-SameBut d k c none = same-SameBut k d
set_color_space-SameBut d k c (some false) = same-SameBut k d
set_color_space-SameBut d k c (some true) = modify-SameBut k d d (observed c) (same-SameBut k d)

release-SameBut :
    (d : Dxgi) (k : ℕ) (remaining : Option ℕ) → SameBut k d (swap_chain_release_hook d k remaining)
unfolding swap_chain_release_hook released
release-SameBut d k none j ne = refl
release-SameBut d k (some n) j ne = ground (arith, lookup-remove k j d.states)

request-SameBut :
    (device : Device) (d : Dxgi) (k : ℕ) (hdr : Bool)
    → SameBut k d (request_managed_hdr_color_space device d k hdr).0
unfolding request_managed_hdr_color_space
request-SameBut device d k hdr j ne = ground (arith, entry-modify_ne d k (requested hdr) j ne)

-- A call on one swap chain leaves the state of every other as it was.
pub apply_frame :
    (device : Device) (d : Dxgi) (op : Op) (j : ℕ)
    → subject op ≢ j
    → entry (apply device d op) j ≡ entry d j
unfolding apply
apply_frame device d (capture created c patched) = capture-SameBut device d created c patched
apply_frame device d (present c original) = present-SameBut device d c original
apply_frame device d (reconfigure c result) = reconfiguring-SameBut device d c result
apply_frame device d (resize_target c result) = resize_target-SameBut device d c result
apply_frame device d (set_color_space c x result) = set_color_space-SameBut d c x result
apply_frame device d (release c remaining) = release-SameBut d c remaining
apply_frame device d (request_hdr c hdr) = request-SameBut device d c hdr
apply_frame device d (backend_chain c) = note_active-SameBut c d d c (same-SameBut c d)
