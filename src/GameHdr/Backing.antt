-- ===== src/GameHdr/Backing.antt =====
-- src/game_hdr.rs: what an override and an answer of the hooks rest on.
use elden_ring_windowed_hdr.Common.{
  ℕ, ◌≡◌, ◌≢◌, Bool, true, false, not, ◌&&◌, ◌||◌, ◌==◌, if◌then◌else◌, arith, List, ◌∷◌,
}
use elden_ring_windowed_hdr.SwapChains.Device.{Device, IsInspected}
use elden_ring_windowed_hdr.SwapChains.Registry.{
  Dxgi, swap_chain_revision, note_active_swap_chain, active_swap_chain_snapshot,
}
use elden_ring_windowed_hdr.GameHdr.Statics.{HdrCandidateCache, Availability, Backend}
use elden_ring_windowed_hdr.GameHdr.Candidate.{
  Call, left, origin, found, candidate_is_eligible, candidate_is_eligible_lem,
}
use elden_ring_windowed_hdr.GameHdr.Hooks.{hdr_common_availability_hook, check_active}
use elden_ring_windowed_hdr.GameHdr.Query.{QueryAnswer, BackendObject, may_override}

-- what the query hook does with the cache
look :
    Device
    → Backend
    → HdrCandidateCache
    → Dxgi
    → ℕ
    → Bool
    → BackendObject
    → HdrCandidateCache × Bool
look device b cache d live native_actual o =
    if may_override b live o native_actual
    then candidate_is_eligible device cache o.swap_chain (swap_chain_revision d o.swap_chain)
    else (cache, false)

-- the call of `candidate_is_eligible` that the query hook makes
abbrev pub asked : Device → Dxgi → BackendObject → Call
asked device dxgi o = record {
  device = device;
  swap_chain = o.swap_chain;
  revision = swap_chain_revision (note_active_swap_chain dxgi o.swap_chain) o.swap_chain;
}

-- the calls of it so far, after one of the query hook
abbrev pub calls_after : Bool → Bool → Call → List Call → List Call
calls_after makes poisoned c calls = if makes && not poisoned then c ∷ calls else calls

-- What the query hook owes for an override: it may be made, and the inspection that the answer
-- rests on, the first of the latest ones in a row of this swap chain at this revision, found a
-- candidate.
abbrev pub Backed : Device → Backend → List Call → Dxgi → ℕ → Bool → BackendObject → Type 0
Backed device b calls dxgi live native_actual o =
    (may_override b live o native_actual ≡ true)
    × IsInspected (origin calls (asked device dxgi o)).device o.swap_chain
    × ((origin calls (asked device dxgi o)).swap_chain ≡ o.swap_chain)
    × ((origin calls (asked device dxgi o)).revision ≡ (asked device dxgi o).revision)

-- the answer of the query hook, and the calls that its cache is then left by
abbrev pub Answered :
    Device → Backend → Bool → List Call → Dxgi → ℕ → Bool → BackendObject → QueryAnswer → Type 0
Answered device b poisoned calls dxgi live native_actual o a =
    (a.actual ≡ (native_actual || a.overridden))
    × (a.overridden ≡ true → Backed device b calls dxgi live native_actual o)
    × (a.cache
        ≡ left poisoned (
            calls_after (may_override b live o native_actual) poisoned (asked device dxgi o) calls))

-- the call of `candidate_is_eligible` that the availability hook makes
abbrev pub asked_active : Device → Dxgi → Call
asked_active device dxgi = record {
  device = device;
  swap_chain = dxgi.active_swap_chain;
  revision = dxgi.active_revision;
}

-- Whatever calls of `candidate_is_eligible` there were before, the availability hook answers that
-- HDR is available exactly when the game's own function does, or when the windowed mode is on, a
-- swap chain is active, the lock of the cache is not poisoned, and the inspection was positive
-- that was made at the first of the latest calls in a row, this one included, for the active swap
-- chain at its present revision; the cache is then the one after the calls, with this one if it
-- was made.
pub availability_lem :
    (device : Device) (a : Availability) (poisoned : Bool) (calls : List Call) (dxgi : Dxgi)
    (native_eligible : Bool)
    → a.original ≢ 0
    → ((hdr_common_availability_hook device a (left poisoned calls) dxgi native_eligible).eligible
        ≡ (native_eligible
            || a.windowed_enabled
              && not (dxgi.active_swap_chain == 0)
              && not poisoned
              && found (origin calls (asked_active device dxgi))))
      × ((hdr_common_availability_hook device a (left poisoned calls) dxgi native_eligible).cache
          ≡ left poisoned (
              calls_after
                (not native_eligible && a.windowed_enabled && not (dxgi.active_swap_chain == 0))
                poisoned
                (asked_active device dxgi)
                calls))
unfolding hdr_common_availability_hook check_active active_swap_chain_snapshot
availability_lem device a poisoned calls dxgi native_eligible hooked =
    let truth = candidate_is_eligible_lem poisoned calls (asked_active device dxgi) in
    (ground (arith, truth.0), ground (arith, truth.1))
