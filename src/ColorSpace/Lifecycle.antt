-- ===== src/ColorSpace/Lifecycle.antt =====
-- src/dxgi.rs: the calls that reach one swap chain's `ManagedColorSpaceState`, from the render
-- thread (`apply_managed_color_space_before_present`), the backend query
-- (`request_managed_hdr_color_space`), the resize hooks (`advance_swap_chain_generation`) and other
-- components (`set_color_space1_hook`). The lock is released between the start and the end of a
-- transition, so that any call may fall between the two.
use elden_ring_windowed_hdr.Common.{
  ℕ, ◌≡◌, Bool, Option, none, some, List, [], ◌∷◌, ◌++◌, if◌then◌else◌,
}
use elden_ring_windowed_hdr.ColorSpace.Machine.{
  ManagedColorSpaceState, ManagedColorSpaceTransition, default, request, begin_transition,
  finish_transition, reapply_after_reconfiguration, observe_external_set,
}

-- The two fields of `SwapChainState` that the calls read and write, with the transitions that
-- `begin_transition` has handed out and that are not finished.
pub record ManagedChain : Type 0 where
  pub managed : ManagedColorSpaceState
  pub observed_color_space : ℕ
  pub in_flight : List ManagedColorSpaceTransition

abbrev pub fresh : ManagedChain
fresh = record { managed = default; observed_color_space = 0; in_flight = [] }

-- `request_managed_hdr_color_space` under the lock
unfoldable pub ask : ManagedChain → Bool → ManagedChain
ask s hdr = record s { managed = (request s.managed hdr s.observed_color_space).0 }

abbrev pub cons_option {ℓ} : {A : Type ℓ} → Option A → List A → List A
cons_option none xs = xs
cons_option (some x) xs = x ∷ xs

-- the first critical section of `apply_managed_color_space_before_present`
unfoldable pub start : ManagedChain → ManagedChain
start s =
    let (m, t) = begin_transition s.managed in
    record s { managed = m; in_flight = cons_option t s.in_flight }

-- the second: `t` leaves the transitions in flight, of which `rest` stay
unfoldable pub complete :
    ManagedChain
    → ManagedColorSpaceTransition
    → List ManagedColorSpaceTransition
    → Bool
    → ManagedChain
complete s t rest succeeded = record {
  managed = finish_transition s.managed t succeeded;
  observed_color_space = if succeeded then t.target_color_space else s.observed_color_space;
  in_flight = rest;
}

-- `advance_swap_chain_generation`, as far as it concerns the color space
unfoldable pub reconfigure : ManagedChain → ManagedChain
reconfigure s = record s { managed = reapply_after_reconfiguration s.managed }

-- a successful call of another component through `set_color_space1_hook`
unfoldable pub external : ManagedChain → ℕ → ManagedChain
external s c = record {
  managed = (observe_external_set s.managed c).0;
  observed_color_space = c;
  in_flight = s.in_flight;
}

-- One call that this module makes on its own account.
pub data Managed : ManagedChain → ManagedChain → Type 0 where
  asked : (s : ManagedChain) (hdr : Bool) → Managed s (ask s hdr)
  started : (s : ManagedChain) → Managed s (start s)
  completed :
      (s : ManagedChain) (before : List ManagedColorSpaceTransition)
      (t : ManagedColorSpaceTransition) (after : List ManagedColorSpaceTransition)
      (succeeded : Bool)
      → s.in_flight ≡ before ++ t ∷ after
      → Managed s (complete s t (before ++ after) succeeded)
  reconfigured : (s : ManagedChain) → Managed s (reconfigure s)

-- One call of any kind.
pub data Step : ManagedChain → ManagedChain → Type 0 where
  own : {s s' : ManagedChain} → Managed s s' → Step s s'
  foreign : (s : ManagedChain) (c : ℕ) → Step s (external s c)

pub data Reach (s : ManagedChain) : ManagedChain → Type 0 where
  here : Reach s s
  next : {t u : ManagedChain} → Reach s t → Step t u → Reach s u

-- The runs in which no other component sets the color space.
pub data ManagedReach (s : ManagedChain) : ManagedChain → Type 0 where
  here : ManagedReach s s
  next : {t u : ManagedChain} → ManagedReach s t → Managed t u → ManagedReach s u
