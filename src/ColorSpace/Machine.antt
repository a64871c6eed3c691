-- ===== src/ColorSpace/Machine.antt =====
-- src/dxgi.rs, `impl ManagedColorSpaceState`. A method that mutates `self` returns the new record.
use elden_ring_windowed_hdr.Common.{
  ℕ, ◌+◌, ◌%◌, ◌^◌, Bool, true, false, not, ◌&&◌, ◌||◌, Option, none, some, ◌==◌, if◌then◌else◌,
  is_some,
}

abbrev pub sdr : ℕ  -- DXGI_COLOR_SPACE_RGB_FULL_G22_NONE_P709
sdr = 0

abbrev pub pq : ℕ  -- DXGI_COLOR_SPACE_RGB_FULL_G2084_NONE_P2020
pq = 12

-- `u64::wrapping_add(1)`
abbrev pub next_epoch : ℕ → ℕ
next_epoch e = (e + 1) % 2 ^ 64

pub record ManagedColorSpaceState : Type 0 where
  pub restore_color_space : Option ℕ
  pub desired_hdr : Bool
  pub transition_pending : Bool
  pub transition_in_progress : Bool
  pub failure_latched : Bool
  pub request_epoch : ℕ

abbrev pub default : ManagedColorSpaceState
default = record {
  restore_color_space = none;
  desired_hdr = false;
  transition_pending = false;
  transition_in_progress = false;
  failure_latched = false;
  request_epoch = 0;
}

pub record ManagedColorSpaceTransition : Type 0 where
  pub target_color_space : ℕ
  pub enabling_hdr : Bool
  pub request_epoch : ℕ

-- the state after `request(hdr, current)` when it is not refused
accept_request : ManagedColorSpaceState → Bool → ℕ → ManagedColorSpaceState
accept_request s true current = elim s.restore_color_space [
  | none ↦ record s {
    restore_color_space = some current;
    desired_hdr = true;
    transition_pending = true;
    request_epoch = next_epoch s.request_epoch;
  }
  | some _ ↦
      if not s.desired_hdr
      then record s {
        desired_hdr = true;
        transition_pending = true;
        request_epoch = next_epoch s.request_epoch;
      }
      else s
]
accept_request s false current =
    if is_some s.restore_color_space && s.desired_hdr
    then record s {
      desired_hdr = false;
      transition_pending = true;
      request_epoch = next_epoch s.request_epoch;
    }
    else s

unfoldable pub request : ManagedColorSpaceState → Bool → ℕ → ManagedColorSpaceState × Bool
unfolding accept_request
request s hdr current =
    if hdr && s.failure_latched then (s, false) else (accept_request s hdr current, true)

unfoldable pub begin_transition :
    ManagedColorSpaceState → ManagedColorSpaceState × Option ManagedColorSpaceTransition
begin_transition s =
    if not s.transition_pending || s.transition_in_progress
    then (s, none)
    else elim s.restore_color_space [
      | none ↦ (s, none)
      | some restore ↦ (
        record s { transition_pending = false; transition_in_progress = true },
        some (record {
          target_color_space = if s.desired_hdr then pq else restore;
          enabling_hdr = s.desired_hdr;
          request_epoch = s.request_epoch;
        }),
      )
    ]

-- the early return of `finish_transition` on success
finish_ok : ManagedColorSpaceState → ManagedColorSpaceTransition → ManagedColorSpaceState
finish_ok s t =
    if t.request_epoch == s.request_epoch && not t.enabling_hdr
    then record s { restore_color_space = none }
    else s

finish_failed : ManagedColorSpaceState → ManagedColorSpaceTransition → ManagedColorSpaceState
finish_failed s t =
    if t.request_epoch == s.request_epoch && t.enabling_hdr
    then record s {
      failure_latched = true;
      desired_hdr = false;
      transition_pending = true;
      request_epoch = next_epoch s.request_epoch;
    }
    else record s { failure_latched = true }

unfoldable pub finish_transition :
    ManagedColorSpaceState → ManagedColorSpaceTransition → Bool → ManagedColorSpaceState
unfolding finish_ok finish_failed
finish_transition s t succeeded =
    let s' = record s { transition_in_progress = false } in
    if succeeded then finish_ok s' t else finish_failed s' t

unfoldable pub reapply_after_reconfiguration : ManagedColorSpaceState → ManagedColorSpaceState
reapply_after_reconfiguration s =
    if is_some s.restore_color_space && not s.failure_latched
    then record s { transition_pending = true }
    else s

-- `observe_external_set` once a baseline is captured
observe_captured : ManagedColorSpaceState → ℕ → ℕ → ManagedColorSpaceState × Bool
observe_captured s restore requested =
    if requested == (if s.desired_hdr then pq else restore)
    then (
      record s {
        transition_pending = false;
        restore_color_space = if not s.desired_hdr then none else s.restore_color_space;
      },
      false,
    )
    else (
      record s {
        restore_color_space = none;
        desired_hdr = false;
        transition_pending = false;
        transition_in_progress = false;
        failure_latched = true;
        request_epoch = next_epoch s.request_epoch;
      },
      true,
    )

unfoldable pub observe_external_set : ManagedColorSpaceState → ℕ → ManagedColorSpaceState × Bool
unfolding observe_captured
observe_external_set s requested = elim s.restore_color_space [
  | none ↦ (s, false)
  | some restore ↦ observe_captured s restore requested
]
