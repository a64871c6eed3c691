-- ===== src/GameHdr/Tests.antt =====
-- src/game_hdr.rs: the theorems on the hooks at concrete calls.
use elden_ring_windowed_hdr.Common.{
  ◌≡◌, ◌≤◌, refl, true, false, not, ◌&&◌, ◌||◌, some, ◌==◌, if◌then◌else◌, arith, List, [], ◌∷◌,
}
use elden_ring_windowed_hdr.SwapChains.Device.{Device}
use elden_ring_windowed_hdr.SwapChains.Registry.{Dxgi, initial}
use elden_ring_windowed_hdr.SwapChains.Samples.{hdr_display}
use elden_ring_windowed_hdr.GameHdr.Statics.{MenuGate, Availability, Backend, u8_max}
use elden_ring_windowed_hdr.GameHdr.Candidate.{
  empty_cache, Call, left, origin, found, candidate_is_eligible, candidate_is_eligible_lem,
}
use elden_ring_windowed_hdr.GameHdr.Hooks.{hdr_menu_gate_hook, hdr_common_availability_hook}
use elden_ring_windowed_hdr.GameHdr.Query.{BackendObject, hdr_backend_actual_query_hook}
use elden_ring_windowed_hdr.GameHdr.Override.{wants_hdr, query_agrees}
use elden_ring_windowed_hdr.GameHdr.Backing.{asked_active, calls_after, availability_lem}
use elden_ring_windowed_hdr.GameHdr.Throttle.{logged, gate_lem}

abbrev gate : MenuGate
gate = record { original = 0x140001000; unlock = true; sequence = 0; last_state = u8_max }

abbrev availability : Availability
availability = record {
  original = 0x140002000;
  windowed_enabled = true;
  sequence = 0;
  last_object = 0;
  last_revision = 0;
  last_state = u8_max;
}

abbrev backend : Backend
backend = record {
  original = 0x140003000;
  experiment_enabled = true;
  color_space_sync_enabled = true;
  request_error_logged = false;
  sequence = 0;
  last_object = 0;
  last_state = u8_max;
}

-- a backend that requests HDR on swap chain 7
abbrev requesting : BackendObject
requesting = record { address = 0x5000; disabled = 0; capability_flags = 4; swap_chain = 7 }

abbrev with_7 : Dxgi
with_7 = record initial { active_swap_chain = 7 }

-- two earlier calls: the latest found swap chain 7 a candidate at revision 1
abbrev earlier : List Call
earlier =
    record { device = hdr_display; swap_chain = 7; revision = 1 }
    ∷ record { device = hdr_display; swap_chain = 9; revision = 1 }
    ∷ []

-- the same display once it is full screen
abbrev exclusive : Device
exclusive = record hdr_display { fullscreen = λ c. some true }

abbrev again : Call
again = record { device = exclusive; swap_chain = 7; revision = 1 }

gate_lem_example :
    ((hdr_menu_gate_hook gate true).grayed ≡ (true && not gate.unlock))
    × (logged gate true 1000 ≤ 10)
gate_lem_example = gate_lem gate true 1000 (omega arith) (omega arith)

candidate_is_eligible_lem_example :
    ((candidate_is_eligible exclusive (left false earlier) 7 1).1
      ≡ (not false && found (origin earlier again)))
    × ((candidate_is_eligible exclusive (left false earlier) 7 1).0
        ≡ left false (if false then earlier else again ∷ earlier))
    × ((origin earlier again).swap_chain ≡ again.swap_chain)
    × ((origin earlier again).revision ≡ again.revision)
candidate_is_eligible_lem_example = candidate_is_eligible_lem false earlier again

availability_lem_example :
    ((hdr_common_availability_hook exclusive availability
        (left false earlier)
        with_7
        false).eligible
      ≡ (false
          || availability.windowed_enabled
            && not (with_7.active_swap_chain == 0)
            && not false
            && found (origin earlier (asked_active exclusive with_7))))
    × ((hdr_common_availability_hook exclusive availability (left false earlier) with_7 false).cache
        ≡ left false (
            calls_after
              (not false && availability.windowed_enabled && not (with_7.active_swap_chain == 0))
              false
              (asked_active exclusive with_7)
              earlier))
availability_lem_example =
    availability_lem exclusive availability false earlier with_7 false (omega arith)

query_agrees_example :
    wants_hdr
      (hdr_backend_actual_query_hook hdr_display backend empty_cache initial 1 false
        (some requesting)).dxgi
      7
    ≡ (hdr_backend_actual_query_hook hdr_display backend empty_cache initial 1 false
        (some requesting)).overridden
query_agrees_example =
    query_agrees hdr_display backend empty_cache initial 1 false requesting (omega arith)
      (omega arith) refl refl refl
