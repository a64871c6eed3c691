-- ===== src/GameHdr/Query.antt =====
-- src/game_hdr.rs: the hooks on the backend's query of the actual HDR state and on the copy of the
-- graphics settings. What the original functions do is an argument; `original` in the state is the
-- address of the saved function, 0 while there is none.
use elden_ring_windowed_hdr.Common.{
  ℕ, ◌+◌, Bool, true, false, not, ◌&&◌, ◌||◌, Option, none, some, List, get_or, same_bytes, ltb,
  ◌==◌, if◌then◌else◌, Result, ok, err, bit_and,
}
use elden_ring_windowed_hdr.SwapChains.Device.{Device}
use elden_ring_windowed_hdr.SwapChains.Registry.{
  Dxgi, swap_chain_revision, note_active_swap_chain, request_managed_hdr_color_space, RequestError,
}
use elden_ring_windowed_hdr.GameHdr.Statics.{
  HdrCandidateCache, Backend, Config, LogLine, detail, silent, suppressing, throttle, bit,
  next_sequence, u8_max,
}
use elden_ring_windowed_hdr.GameHdr.Candidate.{candidate_is_eligible}

abbrev pub max_initial_backend_query_logs : ℕ
max_initial_backend_query_logs = 12

abbrev pub max_unchanged_apply_logs : ℕ
max_unchanged_apply_logs = 8

-- What the backend object holds: its address, the inverse of the request at +0x30, the capability
-- flags at +0x32, and the swap chain in its first field.
pub record BackendObject : Type 0 where
  pub address : ℕ
  pub disabled : ℕ
  pub capability_flags : ℕ
  pub swap_chain : ℕ

-- `HDR_BACKEND_HDR_CAPABILITY_FLAG`
abbrev pub capable : ℕ → Bool
capable flags = not (bit_and flags 0x04 == 0)

-- `matches!(live_hdr, LIVE_HDR_UNKNOWN | 1)`
abbrev pub live_hdr_allows_request : ℕ → Bool
live_hdr_allows_request live = live == u8_max || live == 1

-- the tests of the query hook before the candidate is inspected
abbrev pub may_override : Backend → ℕ → BackendObject → Bool → Bool
may_override b live o native_actual =
    b.experiment_enabled
    && o.disabled == 0
    && live_hdr_allows_request live
    && capable o.capability_flags
    && not native_actual

-- a request for the managed color space: the registry, whether it was accepted, and whether an
-- error has been logged by now
pub record Requested : Type 0 where
  pub dxgi : Dxgi
  pub accepted : Bool
  pub error_logged : Bool

abbrev pub accept : Bool → Dxgi × Result RequestError Bool → Requested
accept logged (d, ok accepted) = record { dxgi = d; accepted = accepted; error_logged = logged }
accept logged (d, err e) = record { dxgi = d; accepted = false; error_logged = true }

-- the body of the first `if`, with whether the candidate was eligible
unfoldable pub raise : Device → Backend → Dxgi → ℕ → Bool → Requested
raise device b d swap_chain eligible =
    if not eligible
    then record { dxgi = d; accepted = false; error_logged = b.request_error_logged }
    else if b.color_space_sync_enabled
    then accept b.request_error_logged (request_managed_hdr_color_space device d swap_chain true)
    else record { dxgi = d; accepted = true; error_logged = b.request_error_logged }

-- the body of the second `if`: `r` is what the first left, `accepted` whether it overrode
unfoldable pub lower : Device → Backend → ℕ → Requested → Requested
lower device b swap_chain r =
    if b.color_space_sync_enabled && not r.accepted
    then record (accept r.error_logged
        (request_managed_hdr_color_space device r.dxgi swap_chain false)) { accepted = false }
    else r

pub record QueryAnswer : Type 0 where
  pub backend : Backend
  pub cache : HdrCandidateCache
  pub dxgi : Dxgi
  pub actual : Bool
  pub overridden : Bool
  pub line : LogLine

-- the end of the query hook: the statics of the observer, the log and the result
unfoldable pub report :
    Backend → HdrCandidateCache → ℕ → BackendObject → Bool → Requested → QueryAnswer
report b cache live o native_actual r =
    let sequence = next_sequence b.sequence in
    let actual = native_actual || r.accepted in
    let state =
      bit (o.disabled == 0) 0
      + bit native_actual 1
      + bit actual 2
      + bit r.accepted 3
      + bit b.experiment_enabled 4
      + bit (capable o.capability_flags) 5
      + bit (live_hdr_allows_request live) 6
      + bit b.color_space_sync_enabled 7 in
    record {
      backend = record b {
        request_error_logged = r.error_logged;
        sequence = sequence;
        last_object = o.address;
        last_state = state;
      };
      cache = cache;
      dxgi = r.dxgi;
      actual = actual;
      overridden = r.accepted;
      line =
          throttle max_initial_backend_query_logs sequence
            (not (o.address == b.last_object) || not (state == b.last_state));
    }

-- The query hook on a backend object that is there, once a trampoline is saved.
unfoldable pub answer_query :
    Device → Backend → HdrCandidateCache → Dxgi → ℕ → Bool → BackendObject → QueryAnswer
answer_query device b cache dxgi live native_actual o =
    let d = note_active_swap_chain dxgi o.swap_chain in
    let inspected =
      if may_override b live o native_actual
      then candidate_is_eligible device cache o.swap_chain (swap_chain_revision d o.swap_chain)
      else (cache, false) in
    report b inspected.0 live o native_actual
      (lower device b o.swap_chain (raise device b d o.swap_chain inspected.1))

-- `native_actual` is what the original function answers about the object; none is the null pointer
unfoldable pub hdr_backend_actual_query_hook :
    Device → Backend → HdrCandidateCache → Dxgi → ℕ → Bool → Option BackendObject → QueryAnswer
hdr_backend_actual_query_hook device b cache dxgi live native_actual object =
    let refused : QueryAnswer = record {
      backend = b;
      cache = cache;
      dxgi = dxgi;
      actual = false;
      overridden = false;
      line = detail;
    } in
    if b.original == 0 then refused else elim object [
      | none ↦ refused
      | some o ↦ answer_query device b cache dxgi live native_actual o
    ]

pub record ApplyAnswer : Type 0 where
  pub config : Config
  pub forwarded : Bool
  pub destination : List ℕ
  pub line : LogLine

-- `HDR_DESTINATION_OFFSET`
abbrev pub hdr_destination_offset : ℕ
hdr_destination_offset = 0x1B

-- The copy of the settings: `after` is the destination once the original routine returned; `valid`
-- is whether neither pointer is null.
unfoldable pub graphics_config_apply_hook : Config → Bool → List ℕ → List ℕ → ApplyAnswer
graphics_config_apply_hook c valid before after =
    let index = c.unchanged_count in
    let seen = record c {
      live_hdr_setting = get_or after hdr_destination_offset 0;
      apply_sequence = next_sequence c.apply_sequence;
    } in
    if c.original == 0
    then record { config = c; forwarded = false; destination = before; line = detail }
    else if not valid
    then record { config = c; forwarded = true; destination = after; line = detail }
    else if not (same_bytes before after)
    then record { config = seen; forwarded = true; destination = after; line = detail }
    else record {
      config = record seen { unchanged_count = next_sequence index };
      forwarded = true;
      destination = after;
      line =
          if ltb index max_unchanged_apply_logs
          then detail
          else if index == max_unchanged_apply_logs
          then suppressing
          else silent;
    }
