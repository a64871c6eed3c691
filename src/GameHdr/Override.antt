-- ===== src/GameHdr/Override.antt =====
-- src/game_hdr.rs: when the hooks make the game believe in HDR, and what they then ask of the swap
-- chain.
use elden_ring_windowed_hdr.Common.{
  ℕ, ◌≡◌, ◌≢◌, Bool, true, false, not, ◌&&◌, some, is_some, subst, sym, if◌then◌else◌, arith,
}
use elden_ring_windowed_hdr.ColorSpace.Machine.{ManagedColorSpaceState, request}
use elden_ring_windowed_hdr.SwapChains.Device.{Device}
use elden_ring_windowed_hdr.SwapChains.Frame.{entry-modify, modify_rest}
use elden_ring_windowed_hdr.SwapChains.Registry.{
  Dxgi, entry, swap_chain_revision, note_active_swap_chain, request_managed_hdr_color_space,
  requested,
}
use elden_ring_windowed_hdr.GameHdr.Statics.{HdrCandidateCache, Backend}
use elden_ring_windowed_hdr.GameHdr.Candidate.{candidate_is_eligible}
use elden_ring_windowed_hdr.GameHdr.Query.{
  BackendObject, Requested, accept, raise, lower, report, answer_query,
  hdr_backend_actual_query_hook, may_override,
}

-- whether the module holds a baseline of the swap chain and wants it in PQ
abbrev pub wants_hdr : Dxgi → ℕ → Bool
wants_hdr d swap_chain =
    is_some (entry d swap_chain).managed_color_space.restore_color_space
    && (entry d swap_chain).managed_color_space.desired_hdr

requested_wants :
    (s : ManagedColorSpaceState) (hdr : Bool) (c : ℕ)
    → (is_some (request s hdr c).0.restore_color_space && (request s hdr c).0.desired_hdr)
      ≡ (if hdr && s.failure_latched then is_some s.restore_color_space && s.desired_hdr else hdr)
unfolding request
requested_wants s hdr c = ground arith

pub hooked_query :
    (device : Device) (b : Backend) (cache : HdrCandidateCache) (dxgi : Dxgi) (live : ℕ)
    (native_actual : Bool) (o : BackendObject)
    → b.original ≢ 0
    → hdr_backend_actual_query_hook device b cache dxgi live native_actual (some o)
      ≡ answer_query device b cache dxgi live native_actual o
unfolding hdr_backend_actual_query_hook
hooked_query device b cache dxgi live native_actual o h = ground arith

module _ (device : Device) (k : ℕ) (nz : k ≢ 0) (cap : device.captured k ≡ true) where
  request_wants :
      (d : Dxgi) (hdr : Bool)
      → d.states_poisoned ≡ false
      → wants_hdr (request_managed_hdr_color_space device d k hdr).0 k
        ≡ (if hdr && (entry d k).managed_color_space.failure_latched then wants_hdr d k else hdr)
  unfolding request_managed_hdr_color_space requested
  request_wants d hdr sane = ground (
    arith,
    entry-modify d k (requested hdr) k,
    requested_wants (entry d k).managed_color_space hdr (entry d k).observed_color_space,
  )

  request_accepted :
      (d : Dxgi) (hdr logged : Bool)
      → d.states_poisoned ≡ false
      → ((accept logged (request_managed_hdr_color_space device d k hdr)).accepted
          ≡ not (hdr && (entry d k).managed_color_space.failure_latched))
        × ((accept logged (request_managed_hdr_color_space device d k hdr)).dxgi
            ≡ (request_managed_hdr_color_space device d k hdr).0)
        × ((accept logged (request_managed_hdr_color_space device d k hdr)).dxgi.states_poisoned
            ≡ false)
  unfolding request_managed_hdr_color_space request
  request_accepted d hdr logged sane = ground (arith, modify_rest d k (requested hdr))

  raise_wants :
      (b : Backend) (d : Dxgi) (eligible : Bool)
      → b.color_space_sync_enabled ≡ true
      → d.states_poisoned ≡ false
      → ((raise device b d k eligible).dxgi.states_poisoned ≡ false)
        × ((raise device b d k eligible).accepted ≡ true
            → wants_hdr (raise device b d k eligible).dxgi k ≡ true)
  unfolding raise
  raise_wants b d true sync sane =
      ground (arith, request_accepted d true b.request_error_logged sane, request_wants d true sane)
  raise_wants b d false sync sane = ground arith

  lower_wants :
      (b : Backend) (r : Requested)
      → b.color_space_sync_enabled ≡ true
      → r.dxgi.states_poisoned ≡ false
      → (r.accepted ≡ true → wants_hdr r.dxgi k ≡ true)
      → wants_hdr (lower device b k r).dxgi k ≡ (lower device b k r).accepted
  unfolding lower
  lower_wants b r sync sane w =
      ground
        (arith, request_accepted r.dxgi false r.error_logged sane, request_wants r.dxgi false sane)

note_active-sane :
    (d : Dxgi) (k : ℕ)
    → d.states_poisoned ≡ false
    → (note_active_swap_chain d k).states_poisoned ≡ false
unfolding note_active_swap_chain
note_active-sane d k h = ground arith

answer_agrees :
    (device : Device) (b : Backend) (cache : HdrCandidateCache) (dxgi : Dxgi) (live : ℕ)
    (native_actual : Bool) (o : BackendObject)
    → o.swap_chain ≢ 0
    → device.captured o.swap_chain ≡ true
    → b.color_space_sync_enabled ≡ true
    → dxgi.states_poisoned ≡ false
    → wants_hdr (answer_query device b cache dxgi live native_actual o).dxgi o.swap_chain
      ≡ (answer_query device b cache dxgi live native_actual o).overridden
unfolding answer_query report
answer_agrees device b cache dxgi live native_actual o nz cap sync sane =
    lower_wants device o.swap_chain nz cap b (raise device b d o.swap_chain eligible) sync
      (raise_wants device o.swap_chain nz cap b d eligible sync sane').0
      (raise_wants device o.swap_chain nz cap b d eligible sync sane').1
  where
    d : Dxgi
    d = note_active_swap_chain dxgi o.swap_chain

    sane' : d.states_poisoned ≡ false
    sane' = note_active-sane dxgi o.swap_chain sane

    eligible : Bool
    eligible =
        (if may_override b live o native_actual
          then candidate_is_eligible device cache o.swap_chain (swap_chain_revision d o.swap_chain)
          else (cache, false)).1

-- With color-space synchronization on, for a captured swap chain and a lock that is not poisoned,
-- the query hook answers that it overrides exactly when, afterwards, the module holds a baseline
-- of the swap chain and wants it in PQ.
pub query_agrees :
    (device : Device) (b : Backend) (cache : HdrCandidateCache) (dxgi : Dxgi) (live : ℕ)
    (native_actual : Bool) (o : BackendObject)
    → b.original ≢ 0
    → o.swap_chain ≢ 0
    → device.captured o.swap_chain ≡ true
    → b.color_space_sync_enabled ≡ true
    → dxgi.states_poisoned ≡ false
    → wants_hdr
        (hdr_backend_actual_query_hook device b cache dxgi live native_actual (some o)).dxgi
        o.swap_chain
      ≡ (hdr_backend_actual_query_hook device b cache dxgi live native_actual (some o)).overridden
query_agrees device b cache dxgi live native_actual o hooked nz cap sync sane =
    subst (λ a. wants_hdr a.dxgi o.swap_chain ≡ a.overridden)
      (sym (hooked_query device b cache dxgi live native_actual o hooked))
      (answer_agrees device b cache dxgi live native_actual o nz cap sync sane)
