-- ===== src/SwapChains/Lifecycles.antt =====
-- src/dxgi.rs: the hooks drive each swap chain's color-space machine only by its own calls, so that
-- what holds in every interleaving of those calls holds of every entry of the map.
use elden_ring_windowed_hdr.Common.{
  ℕ, ◌≡◌, refl, sym, subst, ◌⊎◌, Bool, true, false, not, ◌&&◌, Option, none, some, List, [], ◌∷◌,
  ◌==◌, if◌then◌else◌, lookup, remove, lookup-remove, arith, is_some,
}
use elden_ring_windowed_hdr.ColorSpace.Machine.{ManagedColorSpaceTransition, begin_transition}
use elden_ring_windowed_hdr.ColorSpace.Lifecycle.{
  ManagedChain, fresh, ask, start, complete, external, own, foreign, asked, started, completed,
  reconfigured, Reach, here, next,
}
use elden_ring_windowed_hdr.ColorSpace.Lifecycle
use elden_ring_windowed_hdr.ColorSpace.Debt.{IsRelinquished, Reach-IsConsistent}
use elden_ring_windowed_hdr.SwapChains.Device.{Device}
use elden_ring_windowed_hdr.SwapChains.Registry.{
  SwapChainState, Dxgi, initial, or_default, entry, modify, ensure_swap_chain_state,
  note_active_swap_chain, next_revision, note_active_swap_chain_reconfigured,
  advance_swap_chain_generation, log_swap_chain_state, note_first_present,
  request_managed_hdr_color_space, requested, advanced, signed, released,
}
use elden_ring_windowed_hdr.SwapChains.Hooks.{
  Applied, carry_out, apply_managed_color_space_before_present, present_hook, reconfiguring_hook,
  resize_target_hook, set_color_space1_hook, capture_swap_chain, swap_chain_release_hook, began,
  finished, perform, call_succeeded, observed,
}
use elden_ring_windowed_hdr.SwapChains.Frame.{
  Op, capture, present, reconfigure, resize_target, set_color_space, release, request_hdr,
  backend_chain, apply, entry-modify, modify_rest,
}

-- an entry as a state of the color-space machine, between two calls
abbrev pub chain : SwapChainState → ManagedChain
chain s = record {
  managed = s.managed_color_space;
  observed_color_space = s.observed_color_space;
  in_flight = [];
}

abbrev pub IsLive : Dxgi → Type 0
IsLive d = (j : ℕ) → Reach fresh (chain (entry d j))

-- A change of one entry keeps the others, and itself follows the machine.
modify-IsLive :
    (d : Dxgi) (k : ℕ) (f : SwapChainState → SwapChainState)
    → (Reach fresh (chain (entry d k)) → Reach fresh (chain (f (entry d k))))
    → IsLive d
    → IsLive (modify d k f)
modify-IsLive d k f step live j = rw (entry-modify d k f j) (at (not d.states_poisoned && k == j))
  where
    at : (b : Bool) → Reach fresh (chain (if b then f (entry d k) else entry d j))
    at true = step (live k)
    at false = live j

if-IsLive : (x y : Dxgi) (b : Bool) → IsLive x → IsLive y → IsLive (if b then x else y)
if-IsLive x y true h g = h
if-IsLive x y false h g = g

note_active-IsLive : (d : Dxgi) (c : ℕ) → IsLive d → IsLive (note_active_swap_chain d c)
unfolding note_active_swap_chain
note_active-IsLive d c h =
    if-IsLive _ _ (c == 0) h (if-IsLive _ _ (d.active_swap_chain == c) h (λ j. h j))

note_reconfigured-IsLive :
    (d : Dxgi) (c : ℕ) → IsLive d → IsLive (note_active_swap_chain_reconfigured d c)
unfolding note_active_swap_chain_reconfigured
note_reconfigured-IsLive d c h = if-IsLive _ _ (d.active_swap_chain == c) (λ j. h j) h

log-IsLive :
    (device : Device) (d : Dxgi) (k : ℕ) → IsLive d → IsLive (log_swap_chain_state device d k)
unfolding log_swap_chain_state
log-IsLive device d k h = go (device.description k)
  where
    go :
        (o : Option _)
        → IsLive (elim o [ none ↦ d | some description ↦ modify d k (signed description) ])
    go none = h
    go (some description) = modify-IsLive d k (signed description) (λ r. r) h

first_present-IsLive :
    (device : Device) (d : Dxgi) (k : ℕ) → IsLive d → IsLive (note_first_present device d k)
unfolding note_first_present
first_present-IsLive device d k h = if-IsLive _ _ d.states_poisoned h (
    if-IsLive _ _ (entry d k).first_present_logged (modify-IsLive d k _ (λ r. r) h)
      (log-IsLive device _ k (modify-IsLive d k _ (λ r. r) h)))

modify-modify-IsLive :
    (d : Dxgi) (k : ℕ) (f g : SwapChainState → SwapChainState)
    → IsLive (modify d k (λ s. g (f s)))
    → IsLive (modify (modify d k f) k g)
modify-modify-IsLive d k f g h j = subst (λ s. Reach fresh (chain s)) same (h j)
  where
    same : entry (modify d k (λ s. g (f s))) j ≡ entry (modify (modify d k f) k g) j
    same = ground (
      arith,
      entry-modify d k (λ s. g (f s)) j,
      entry-modify (modify d k f) k g j,
      entry-modify d k f k,
      entry-modify d k f j,
      modify_rest d k f,
    )

cycle-Reach :
    (s : SwapChainState) (t : ManagedColorSpaceTransition) (succeeded : Bool)
    → (begin_transition s.managed_color_space).1 ≡ some t
    → Reach fresh (chain s)
    → Reach fresh (chain (finished t succeeded (began s)))
unfolding start complete finished began
cycle-Reach s t succeeded e r =
    next (next r (own (started (chain s))))
      (own (completed (start (chain s)) [] t [] succeeded (rw e)))

-- where no transition begins, nothing is in flight
began-Reach :
    (s : SwapChainState)
    → (begin_transition s.managed_color_space).1 ≡ none
    → Reach fresh (chain s)
    → Reach fresh (chain (began s))
unfolding start began
began-Reach s e r =
    subst
      (λ ts. Reach fresh (record (chain s) {
        managed = (begin_transition s.managed_color_space).0;
        in_flight = Lifecycle.cons_option ts [];
      }))
      e (next r (own (started (chain s))))

carry_out-IsLive :
    (device : Device) (d : Dxgi) (k : ℕ) (o : Option ManagedColorSpaceTransition)
    → (begin_transition (entry d k).managed_color_space).1 ≡ o
    → IsLive d
    → IsLive (carry_out device (modify d k began) k o).dxgi
unfolding carry_out
carry_out-IsLive device d k none e h = modify-IsLive d k began (began-Reach (entry d k) e) h
carry_out-IsLive device d k (some t) e h =
    modify-modify-IsLive d k began (finished t (call_succeeded (perform device k t)))
      (modify-IsLive d k _ (cycle-Reach (entry d k) t (call_succeeded (perform device k t)) e) h)

applied-IsLive :
    (device : Device) (d : Dxgi) (k : ℕ)
    → IsLive d
    → IsLive (apply_managed_color_space_before_present device d k).dxgi
unfolding apply_managed_color_space_before_present
applied-IsLive device d k h = at d.states_poisoned
  where
    o : Option ManagedColorSpaceTransition
    o = (begin_transition (entry d k).managed_color_space).1

    at :
        (b : Bool)
        → IsLive (
            Applied.dxgi (
              if b
              then record { dxgi = d; call = none }
              else carry_out device (modify d k began) k o))
    at true = h
    at false = carry_out-IsLive device d k o refl h

present-IsLive :
    (device : Device) (d : Dxgi) (k : ℕ) (original : Bool)
    → IsLive d
    → IsLive (present_hook device d k original).dxgi
unfolding present_hook
present-IsLive device d k true h = first_present-IsLive device _ k (applied-IsLive device d k h)
present-IsLive device d k false h = h

capture-IsLive :
    (device : Device) (d : Dxgi) (created : Bool) (c : ℕ) (patched : Bool)
    → IsLive d
    → IsLive (capture_swap_chain device d created c patched)
unfolding capture_swap_chain ensure_swap_chain_state
capture-IsLive device d created c patched h =
    if-IsLive _ _ (created && not (c == 0) && patched)
      (log-IsLive device _ c (note_active-IsLive _ c (modify-IsLive d c (λ s. s) (λ r. r) h))) h

advanced-Reach : (s : SwapChainState) → Reach fresh (chain s) → Reach fresh (chain (advanced s))
unfolding advanced Lifecycle.reconfigure
advanced-Reach s r = next r (own (reconfigured (chain s)))

reconfiguring-IsLive :
    (device : Device) (d : Dxgi) (k : ℕ) (result : Option Bool)
    → IsLive d
    → IsLive (reconfiguring_hook device d k result)
unfolding reconfiguring_hook advance_swap_chain_generation
reconfiguring-IsLive device d k none h = h
reconfiguring-IsLive device d k (some false) h = h
reconfiguring-IsLive device d k (some true) h =
    log-IsLive device _ k
      (note_reconfigured-IsLive _ k (modify-IsLive d k advanced (advanced-Reach (entry d k)) h))

resize_target-IsLive :
    (device : Device) (d : Dxgi) (k : ℕ) (result : Option Bool)
    → IsLive d
    → IsLive (resize_target_hook device d k result)
unfolding resize_target_hook
resize_target-IsLive device d k none h = h
resize_target-IsLive device d k (some false) h = h
resize_target-IsLive device d k (some true) h =
    note_reconfigured-IsLive _ k (log-IsLive device d k h)

observed-Reach :
    (s : SwapChainState) (c : ℕ) → Reach fresh (chain s) → Reach fresh (chain (observed c s))
unfolding observed external
observed-Reach s c r = next r (foreign (chain s) c)

set_color_space-IsLive :
    (d : Dxgi) (k c : ℕ) (result : Option Bool)
    → IsLive d
    → IsLive (set_color_space1_hook d k c result)
unfolding set_color_space1_hook
set_color_space-IsLive d k c none h = h
set_color_space-IsLive d k c (some false) h = h
set_color_space-IsLive d k c (some true) h =
    modify-IsLive d k (observed c) (observed-Reach (entry d k) c) h

-- a released swap chain starts afresh
remove-IsLive : (d : Dxgi) (k : ℕ) → IsLive d → IsLive (record d { states = remove k d.states })
remove-IsLive d k h j = rw (lookup-remove k j d.states) (at (k == j))
  where
    at : (b : Bool) → Reach fresh (chain (or_default (if b then none else lookup j d.states)))
    at true = here
    at false = h j

abbrev retire : Dxgi → ℕ → Dxgi
retire d k =
    if d.active_swap_chain == k
    then record d { active_swap_chain = 0; active_revision = next_revision d.active_revision }
    else d

retire-IsLive : (d : Dxgi) (k : ℕ) → IsLive d → IsLive (retire d k)
retire-IsLive d k h = if-IsLive _ _ (d.active_swap_chain == k) (λ j. h j) h

released-IsLive : (d : Dxgi) (k n : ℕ) → IsLive d → IsLive (released d k n)
unfolding released
released-IsLive d k n h = if-IsLive _ _ (not (n == 0)) h (
    if-IsLive _ _ (retire d k).states_poisoned (retire-IsLive d k h)
      (remove-IsLive (retire d k) k (retire-IsLive d k h)))

release-IsLive :
    (d : Dxgi) (k : ℕ) (remaining : Option ℕ)
    → IsLive d
    → IsLive (swap_chain_release_hook d k remaining)
unfolding swap_chain_release_hook
release-IsLive d k none h = h
release-IsLive d k (some n) h = released-IsLive d k n h

requested-Reach :
    (s : SwapChainState) (hdr : Bool)
    → Reach fresh (chain s)
    → Reach fresh (chain (requested hdr s))
unfolding requested ask
requested-Reach s hdr r = next r (own (asked (chain s) hdr))

request_state :
    (device : Device) (d : Dxgi) (k : ℕ) (hdr : Bool)
    → (request_managed_hdr_color_space device d k hdr).0 ≡ (
        if not (k == 0) && device.captured k && not d.states_poisoned
        then modify d k (requested hdr)
        else d)
unfolding request_managed_hdr_color_space
request_state device d k hdr = ground arith

request-IsLive :
    (device : Device) (d : Dxgi) (k : ℕ) (hdr : Bool)
    → IsLive d
    → IsLive (request_managed_hdr_color_space device d k hdr).0
request-IsLive device d k hdr h = subst IsLive (sym (request_state device d k hdr)) (
    if-IsLive _ _ (not (k == 0) && device.captured k && not d.states_poisoned)
      (modify-IsLive d k (requested hdr) (requested-Reach (entry d k) hdr) h) h)

pub apply-IsLive : (device : Device) (d : Dxgi) (op : Op) → IsLive d → IsLive (apply device d op)
unfolding apply
apply-IsLive device d (capture created c patched) = capture-IsLive device d created c patched
apply-IsLive device d (present c original) = present-IsLive device d c original
apply-IsLive device d (reconfigure c result) = reconfiguring-IsLive device d c result
apply-IsLive device d (resize_target c result) = resize_target-IsLive device d c result
apply-IsLive device d (set_color_space c x result) = set_color_space-IsLive d c x result
apply-IsLive device d (release c remaining) = release-IsLive d c remaining
apply-IsLive device d (request_hdr c hdr) = request-IsLive device d c hdr
apply-IsLive device d (backend_chain c) = note_active-IsLive d c

-- Calls in sequence, each with what DXGI answers at its moment.
unfoldable pub run : Dxgi → List (Device × Op) → Dxgi
run d [] = d
run d ((device, op) ∷ calls) = run (apply device d op) calls

run-IsLive : (calls : List (Device × Op)) (d : Dxgi) → IsLive d → IsLive (run d calls)
unfolding run
run-IsLive [] d h = h
run-IsLive ((device, op) ∷ calls) d h =
    run-IsLive calls (apply device d op) (apply-IsLive device d op h)

-- After any sequence of calls from the start of the module, whatever DXGI answers: the color-space
-- state of every swap chain is one that the machine reaches from a fresh one, so that the module
-- has given the swap chain up, or nothing is in progress and a baseline that HDR no longer needs
-- is scheduled for restoration unless a failure is latched.
pub run_consistent :
    (calls : List (Device × Op)) (j : ℕ)
    → let s = entry (run initial calls) j in
      Reach fresh (chain s)
      × (IsRelinquished s.managed_color_space
          ⊎ ((s.managed_color_space.transition_in_progress ≡ false)
              × (is_some s.managed_color_space.restore_color_space ≡ true
                  → s.managed_color_space.desired_hdr ≡ false
                  → s.managed_color_space.failure_latched ≡ false
                  → s.managed_color_space.transition_pending ≡ true)))
run_consistent calls j = let r = run-IsLive calls initial (λ _. here) j in (r, Reach-IsConsistent r)
