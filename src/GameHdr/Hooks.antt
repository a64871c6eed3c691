-- ===== src/GameHdr/Hooks.antt =====
-- src/game_hdr.rs: the hooks on the menu's predicate and on the availability query. What the original function answers is an argument; `original`
-- in the state is the address of the saved function, 0 while there is none.
use elden_ring_windowed_hdr.Common.{
  ℕ, ◌+◌, Bool, true, false, not, ◌&&◌, ◌||◌, Option, none, some, is_some, ◌==◌, if◌then◌else◌,
}
use elden_ring_windowed_hdr.SwapChains.Device.{Device}
use elden_ring_windowed_hdr.SwapChains.Registry.{
  Dxgi, ActiveSwapChainSnapshot, active_swap_chain_snapshot,
}
use elden_ring_windowed_hdr.GameHdr.Statics.{
  MenuGate, Availability, HdrCandidateCache, LogLine, detail, throttle, bit, next_sequence,
}
use elden_ring_windowed_hdr.GameHdr.Candidate.{candidate_is_eligible}

abbrev pub max_initial_gate_logs : ℕ
max_initial_gate_logs = 8

abbrev pub max_initial_availability_logs : ℕ
max_initial_availability_logs = 12

pub record GateAnswer : Type 0 where
  pub gate : MenuGate
  pub grayed : Bool
  pub line : LogLine

-- `original_grayed` is what the original predicate answers
unfoldable pub hdr_menu_gate_hook : MenuGate → Bool → GateAnswer
hdr_menu_gate_hook g original_grayed =
    let effective_grayed = original_grayed && not g.unlock in
    let sequence = next_sequence g.sequence in
    let state = bit original_grayed 0 + bit effective_grayed 1 + bit g.unlock 2 in
    if g.original == 0 then record { gate = g; grayed = true; line = detail } else record {
      gate = record g { sequence = sequence; last_state = state };
      grayed = effective_grayed;
      line = throttle max_initial_gate_logs sequence (not (state == g.last_state));
    }

abbrev pub object_of : Option ActiveSwapChainSnapshot → ℕ
object_of none = 0
object_of (some s) = s.swap_chain

abbrev pub revision_of : Option ActiveSwapChainSnapshot → ℕ
revision_of none = 0
revision_of (some s) = s.revision

-- whether the active swap chain is inspected, and what the inspection finds
unfoldable pub check_active :
    Device → HdrCandidateCache → Bool → Option ActiveSwapChainSnapshot → HdrCandidateCache × Bool
check_active device cache wanted none = (cache, false)
check_active device cache wanted (some s) =
    if wanted then candidate_is_eligible device cache s.swap_chain s.revision else (cache, false)

pub record AvailabilityAnswer : Type 0 where
  pub availability : Availability
  pub cache : HdrCandidateCache
  pub eligible : Bool
  pub line : LogLine

unfoldable pub hdr_common_availability_hook :
    Device → Availability → HdrCandidateCache → Dxgi → Bool → AvailabilityAnswer
hdr_common_availability_hook device a cache dxgi native_eligible =
    let active = active_swap_chain_snapshot dxgi in
    let wanted = a.windowed_enabled && not native_eligible in
    let (cache', windowed_candidate) = check_active device cache wanted active in
    let effective_eligible = native_eligible || (a.windowed_enabled && windowed_candidate) in
    let sequence = next_sequence a.sequence in
    let object = object_of active in
    let revision = revision_of active in
    let state =
      bit native_eligible 0
      + bit windowed_candidate 1
      + bit effective_eligible 2
      + bit a.windowed_enabled 3
      + bit (wanted && is_some active) 4
      + bit (is_some active) 5 in
    if a.original == 0
    then record { availability = a; cache = cache; eligible = false; line = detail }
    else record {
      availability = record a {
        sequence = sequence;
        last_object = object;
        last_revision = revision;
        last_state = state;
      };
      cache = cache';
      eligible = effective_eligible;
      line = throttle max_initial_availability_logs sequence (
          not (object == a.last_object)
          || not (revision == a.last_revision)
          || not (state == a.last_state));
    }
