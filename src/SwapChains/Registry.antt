-- ===== src/SwapChains/Registry.antt =====
-- src/dxgi.rs: `SwapChainState`, the map of them, the active swap chain with its revision, and the
-- functions that change these. Log lines and the flags that only thin them out are left out.
use elden_ring_windowed_hdr.Common.{
  ℕ, ◌+◌, ◌%◌, ◌^◌, Bool, true, false, not, Option, none, some, List, [], ◌==◌, if◌then◌else◌,
  lookup, insert, remove, Result, ok, err,
}
use elden_ring_windowed_hdr.ColorSpace.Machine.{
  ManagedColorSpaceState, default, request, reapply_after_reconfiguration,
}
use elden_ring_windowed_hdr.SwapChains.Device.{Device, SwapChainDesc}

pub record SwapChainSignature : Type 0 where
  pub width : ℕ
  pub height : ℕ
  pub format : ℕ
  pub buffer_count : ℕ
  pub windowed : Bool
  pub swap_effect : ℕ
  pub flags : ℕ

pub record SwapChainState : Type 0 where
  pub first_present_logged : Bool
  pub generation : ℕ
  pub last_signature : Option SwapChainSignature
  pub observed_color_space : ℕ
  pub managed_color_space : ManagedColorSpaceState

abbrev pub default_state : SwapChainState
default_state = record {
  first_present_logged = false;
  generation = 0;
  last_signature = none;
  observed_color_space = 0;
  managed_color_space = default;
}

-- The statics of the module: a pointer is its address, 0 is null.
pub record Dxgi : Type 0 where
  pub active_swap_chain : ℕ
  pub active_revision : ℕ
  pub states : List (ℕ × SwapChainState)
  pub states_poisoned : Bool

abbrev pub initial : Dxgi
initial = record {
  active_swap_chain = 0;
  active_revision = 1;
  states = [];
  states_poisoned = false;
}

-- `fetch_add(1)` on an `AtomicUsize`
abbrev pub next_revision : ℕ → ℕ
next_revision r = (r + 1) % 2 ^ 64

abbrev pub or_default : Option SwapChainState → SwapChainState
or_default none = default_state
or_default (some s) = s

-- `states.entry(swap_chain as usize).or_default()`
abbrev pub entry : Dxgi → ℕ → SwapChainState
entry d swap_chain = or_default (lookup swap_chain d.states)

-- a change of that entry under the lock; nothing happens if the lock is poisoned
unfoldable pub modify : Dxgi → ℕ → (SwapChainState → SwapChainState) → Dxgi
modify d swap_chain f =
    if d.states_poisoned
    then d
    else record d { states = insert swap_chain (f (entry d swap_chain)) d.states }

unfoldable pub ensure_swap_chain_state : Dxgi → ℕ → Dxgi
ensure_swap_chain_state d swap_chain = modify d swap_chain (λ s. s)

unfoldable pub note_active_swap_chain : Dxgi → ℕ → Dxgi
note_active_swap_chain d swap_chain =
    if swap_chain == 0 then d else if d.active_swap_chain == swap_chain then d else record d {
      active_swap_chain = swap_chain;
      active_revision = next_revision d.active_revision;
    }

unfoldable pub note_active_swap_chain_reconfigured : Dxgi → ℕ → Dxgi
note_active_swap_chain_reconfigured d swap_chain =
    if d.active_swap_chain == swap_chain
    then record d { active_revision = next_revision d.active_revision }
    else d

-- the change of one entry in `advance_swap_chain_generation`
unfoldable pub advanced : SwapChainState → SwapChainState
advanced s = record s {
  generation = (s.generation + 1) % 2 ^ 64;
  first_present_logged = false;
  last_signature = none;
  managed_color_space = reapply_after_reconfiguration s.managed_color_space;
}

unfoldable pub advance_swap_chain_generation : Dxgi → ℕ → Dxgi
advance_swap_chain_generation d swap_chain =
    note_active_swap_chain_reconfigured (modify d swap_chain advanced) swap_chain

pub record ActiveSwapChainSnapshot : Type 0 where
  pub swap_chain : ℕ
  pub revision : ℕ

-- Read at one moment; the loop of the source repeats the reads until no other thread came between.
unfoldable pub active_swap_chain_snapshot : Dxgi → Option ActiveSwapChainSnapshot
active_swap_chain_snapshot d =
    if d.active_swap_chain == 0
    then none
    else some (record { swap_chain = d.active_swap_chain; revision = d.active_revision })

unfoldable pub swap_chain_revision : Dxgi → ℕ → ℕ
swap_chain_revision d swap_chain =
    if d.active_swap_chain == swap_chain then d.active_revision else 0

abbrev pub signature_of : SwapChainDesc → SwapChainSignature
signature_of description = record {
  width = description.width;
  height = description.height;
  format = description.format;
  buffer_count = description.buffer_count;
  windowed = not (description.windowed == 0);
  swap_effect = description.swap_effect;
  flags = description.flags;
}

abbrev pub signed : SwapChainDesc → SwapChainState → SwapChainState
signed description s = record s { last_signature = some (signature_of description) }

-- What `log_swap_chain_state` changes: the signature that was logged last.
unfoldable pub log_swap_chain_state : Device → Dxgi → ℕ → Dxgi
log_swap_chain_state device d swap_chain = elim (device.description swap_chain) [
  | none ↦ d
  | some description ↦ modify d swap_chain (signed description)
]

-- The first Present of a generation reads and logs the state of the swap chain.
unfoldable pub note_first_present : Device → Dxgi → ℕ → Dxgi
note_first_present device d swap_chain =
    if d.states_poisoned
    then d
    else if (entry d swap_chain).first_present_logged
    then modify d swap_chain (λ s. s)
    else log_swap_chain_state device
        (modify d swap_chain (λ s. record s { first_present_logged = true })) swap_chain

pub data RequestError : Type 0 where
  null_swap_chain : RequestError
  not_captured : RequestError
  lock_poisoned : RequestError

-- the locked part of `request_managed_hdr_color_space`
unfoldable pub requested : Bool → SwapChainState → SwapChainState
requested hdr s = record s {
  managed_color_space = (request s.managed_color_space hdr s.observed_color_space).0;
}

unfoldable pub request_managed_hdr_color_space :
    Device → Dxgi → ℕ → Bool → Dxgi × Result RequestError Bool
request_managed_hdr_color_space device d swap_chain hdr =
    let s = entry d swap_chain in
    if swap_chain == 0
    then (d, err null_swap_chain)
    else if not (device.captured swap_chain)
    then (d, err not_captured)
    else if d.states_poisoned
    then (d, err lock_poisoned)
    else (
      modify d swap_chain (requested hdr),
      ok (request s.managed_color_space hdr s.observed_color_space).1,
    )

-- the end of `release_shadow_object` for a swap chain, where `remaining` is the reference count
-- that the original Release returned
unfoldable pub released : Dxgi → ℕ → ℕ → Dxgi
released d object remaining =
    if not (remaining == 0)
    then d
    else let d' =
        if d.active_swap_chain == object
        then record d { active_swap_chain = 0; active_revision = next_revision d.active_revision }
        else d in
      if d'.states_poisoned then d' else record d' { states = remove object d'.states }
