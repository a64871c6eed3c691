-- ===== src/GameHdr/Statics.antt =====
-- src/game_hdr.rs: the statics of the module, one record for the hooks of each game function. What
-- the hooks log is the kind of line; the texts are left out.
use elden_ring_windowed_hdr.Common.{ℕ, ◌+◌, ◌%◌, ◌^◌, Bool, ◌||◌, Option, leb, ◌==◌, if◌then◌else◌}

-- `u8::MAX`: no state yet, and `LIVE_HDR_UNKNOWN`
abbrev pub u8_max : ℕ
u8_max = 255

pub record MenuGate : Type 0 where
  pub original : ℕ
  pub unlock : Bool
  pub sequence : ℕ
  pub last_state : ℕ

pub record Availability : Type 0 where
  pub original : ℕ
  pub windowed_enabled : Bool
  pub sequence : ℕ
  pub last_object : ℕ
  pub last_revision : ℕ
  pub last_state : ℕ

pub record HdrCandidateCache : Type 0 where
  pub object : ℕ
  pub revision : ℕ
  pub eligible : Option Bool
  pub poisoned : Bool

pub record Backend : Type 0 where
  pub original : ℕ
  pub experiment_enabled : Bool
  pub color_space_sync_enabled : Bool
  pub request_error_logged : Bool
  pub sequence : ℕ
  pub last_object : ℕ
  pub last_state : ℕ

pub record Config : Type 0 where
  pub original : ℕ
  pub apply_sequence : ℕ
  pub unchanged_count : ℕ
  pub live_hdr_setting : ℕ

-- What a hook logs about a call: nothing, the call, or that repeated calls are no longer logged.
pub data LogLine : Type 0 where
  silent : LogLine
  detail : LogLine
  suppressing : LogLine

-- The rule that the three observers share, with the sequence number of the call.
unfoldable pub throttle : ℕ → ℕ → Bool → LogLine
throttle limit sequence changed =
    if leb sequence limit || changed
    then detail
    else if sequence == limit + 1
    then suppressing
    else silent

-- `u8::from(bool) << k`
abbrev pub bit : Bool → ℕ → ℕ
bit b k = if b then 2 ^ k else 0

-- `fetch_add(1) + 1` on an `AtomicUsize`
abbrev pub next_sequence : ℕ → ℕ
next_sequence n = (n + 1) % 2 ^ 64
