-- ===== src/GameHdr/Throttle.antt =====
-- src/game_hdr.rs: how much the menu's hook logs over many calls, and what it answers.
use elden_ring_windowed_hdr.Common.{
  ℕ, zero, suc, ◌≡◌, ◌≢◌, ◌+◌, ◌-◌, ◌^◌, ◌<◌, ◌≤◌, sym, ◌∙◌, Bool, not, ◌&&◌, arith,
}
use elden_ring_windowed_hdr.GameHdr.Statics.{
  MenuGate, LogLine, silent, detail, suppressing, throttle,
}
use elden_ring_windowed_hdr.GameHdr.Hooks.{hdr_menu_gate_hook}

-- one for a call that is logged
abbrev pub lines_of : LogLine → ℕ
lines_of silent = 0
lines_of detail = 1
lines_of suppressing = 1

-- the lines logged by `n` calls of the hook at which the original predicate answers the same
unfoldable pub logged : MenuGate → Bool → ℕ → ℕ
logged g grayed zero = 0
logged g grayed (suc n) =
    lines_of (hdr_menu_gate_hook g grayed).line + logged (hdr_menu_gate_hook g grayed).gate grayed n

abbrev pub state_of : MenuGate → Bool → ℕ
state_of g grayed = (hdr_menu_gate_hook g grayed).gate.last_state

gate_step :
    (g : MenuGate) (grayed : Bool)
    → g.original ≢ 0
    → g.sequence + 1 < 2 ^ 64
    → ((hdr_menu_gate_hook g grayed).gate.original ≡ g.original)
      × ((hdr_menu_gate_hook g grayed).gate.sequence ≡ g.sequence + 1)
      × ((hdr_menu_gate_hook g grayed).gate.last_state
          ≡ state_of (hdr_menu_gate_hook g grayed).gate grayed)
unfolding hdr_menu_gate_hook
gate_step g grayed hooked fits = ground arith

unchanged_lines :
    (g : MenuGate) (grayed : Bool)
    → g.original ≢ 0
    → g.sequence + 1 < 2 ^ 64
    → g.last_state ≡ state_of g grayed
    → lines_of (hdr_menu_gate_hook g grayed).line + (9 - (g.sequence + 1)) ≤ 9 - g.sequence
unfolding hdr_menu_gate_hook throttle
unchanged_lines g grayed hooked fits same = ground arith

settled_logged :
    (n : ℕ) (g : MenuGate) (grayed : Bool)
    → g.original ≢ 0
    → g.sequence + n < 2 ^ 64
    → g.last_state ≡ state_of g grayed
    → logged g grayed n ≤ 9 - g.sequence
unfolding logged
settled_logged zero g grayed hooked fits same = ground arith
settled_logged (suc n) g grayed hooked fits same = omega (
  arith,
  unchanged_lines g grayed hooked (omega arith) same,
  step.1,
  settled_logged n (hdr_menu_gate_hook g grayed).gate grayed (λ z. hooked (sym step.0 ∙ z))
      (omega (arith, step.1)) step.2,
)
  where
    step :
        ((hdr_menu_gate_hook g grayed).gate.original ≡ g.original)
        × ((hdr_menu_gate_hook g grayed).gate.sequence ≡ g.sequence + 1)
        × ((hdr_menu_gate_hook g grayed).gate.last_state
            ≡ state_of (hdr_menu_gate_hook g grayed).gate grayed)
    step = gate_step g grayed hooked (omega arith)

lines_of_le : (l : LogLine) → lines_of l ≤ 1
lines_of_le silent = omega arith
lines_of_le detail = omega arith
lines_of_le suppressing = omega arith

-- Once the hook is installed and while its counter does not wrap, it answers that the entry is
-- grayed only if the original does and the unlock is off, and however often it is called with the
-- original predicate answering the same, it writes at most ten lines to the log.
pub gate_lem :
    (g : MenuGate) (grayed : Bool) (n : ℕ)
    → g.original ≢ 0
    → g.sequence + n < 2 ^ 64
    → ((hdr_menu_gate_hook g grayed).grayed ≡ (grayed && not g.unlock)) × (logged g grayed n ≤ 10)
unfolding logged hdr_menu_gate_hook
gate_lem g grayed zero hooked fits = (ground arith, omega arith)
gate_lem g grayed (suc n) hooked fits = (
  ground arith,
  omega (
    arith,
    lines_of_le (hdr_menu_gate_hook g grayed).line,
    settled_logged n (hdr_menu_gate_hook g grayed).gate grayed (λ z. hooked (sym step.0 ∙ z))
        (omega (arith, step.1)) step.2,
  ),
)
  where
    step :
        ((hdr_menu_gate_hook g grayed).gate.original ≡ g.original)
        × ((hdr_menu_gate_hook g grayed).gate.sequence ≡ g.sequence + 1)
        × ((hdr_menu_gate_hook g grayed).gate.last_state
            ≡ state_of (hdr_menu_gate_hook g grayed).gate grayed)
    step = gate_step g grayed hooked (omega arith)
