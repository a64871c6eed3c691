-- ===== src/SwapChains/Device.antt =====
-- src/dxgi.rs: what the module asks of DXGI about a swap chain, and the test that decides whether
-- it may be driven as HDR in a window. DXGI itself is a parameter: what it answers at one moment.
use elden_ring_windowed_hdr.Common.{
  ℕ, ◌≤◌, ◌≡◌, ◌≢◌, ◌⊎◌, ◌↔◌, Bool, true, false, not, ◌&&◌, ◌||◌, Result, ok, ◌>>=◌, ◌>>◌, guard,
  ok_or, Option, some, none, refl, leb, ◌==◌, bit_and, arith,
}
use elden_ring_windowed_hdr.ColorSpace.Machine.{pq}

-- the fields of `SwapChainDesc` that are read
pub record SwapChainDesc : Type 0 where
  pub width : ℕ
  pub height : ℕ
  pub format : ℕ
  pub buffer_count : ℕ
  pub windowed : ℕ
  pub swap_effect : ℕ
  pub flags : ℕ

-- the fields of `OutputDesc1` that are tested
pub record OutputDesc1 : Type 0 where
  pub attached_to_desktop : ℕ
  pub bits_per_color : ℕ
  pub color_space : ℕ

-- DXGI_SWAP_CHAIN_COLOR_SPACE_SUPPORT_FLAG_PRESENT
abbrev support_present : ℕ
support_present = 1

unfoldable pub windowed_hdr_candidate_is_eligible : SwapChainDesc → Bool → OutputDesc1 → ℕ → Bool
windowed_hdr_candidate_is_eligible description fullscreen output pq_support =
    description.format == 24
    && leb 2 description.buffer_count
    && not (description.windowed == 0)
    && not fullscreen
    && (description.swap_effect == 3 || description.swap_effect == 4)
    && not (output.attached_to_desktop == 0)
    && leb 10 output.bits_per_color
    && output.color_space == pq
    && not (bit_and pq_support support_present == 0)

pub data InspectError : Type 0 where
  null_swap_chain : InspectError
  not_captured : InspectError
  query_failed : InspectError

-- The answers of DXGI at one moment, by swap-chain pointer; `none` is a failed HRESULT.
-- `captured` is `find_shadow_record`, and `set_color_space` the call of SetColorSpace1 that
-- `set_color_space_without_observer` makes: `some true` if its HRESULT is not negative.
pub record Device : Type 0 where
  pub captured : ℕ → Bool
  pub description : ℕ → Option SwapChainDesc
  pub fullscreen : ℕ → Option Bool
  pub output : ℕ → Option OutputDesc1
  pub pq_support : ℕ → Option ℕ
  pub set_color_space : ℕ → ℕ → Option Bool

unfoldable pub inspect_windowed_hdr_candidate : Device → ℕ → Result InspectError Bool
inspect_windowed_hdr_candidate d swap_chain = do
  guard (not (swap_chain == 0)) null_swap_chain
  guard (d.captured swap_chain) not_captured
  description ← ok_or (d.description swap_chain) query_failed
  fullscreen ← ok_or (d.fullscreen swap_chain) query_failed
  output ← ok_or (d.output swap_chain) query_failed
  pq_support ← ok_or (d.pq_support swap_chain) query_failed
  ok (windowed_hdr_candidate_is_eligible description fullscreen output pq_support)

-- What a swap chain and its output must be for windowed HDR.
pub record IsCandidate (description : SwapChainDesc) (fullscreen : Bool) (output : OutputDesc1)
    (pq_support : ℕ) : Type 0 where
  pub ten_bit : description.format ≡ 24
  pub buffered : 2 ≤ description.buffer_count
  pub in_window : description.windowed ≢ 0
  pub not_exclusive : fullscreen ≡ false
  pub flips : (description.swap_effect ≡ 3) ⊎ (description.swap_effect ≡ 4)
  pub on_desktop : output.attached_to_desktop ≢ 0
  pub deep : 10 ≤ output.bits_per_color
  pub hdr_output : output.color_space ≡ pq
  pub presentable : bit_and pq_support 1 ≢ 0

eligible_iff :
    (description : SwapChainDesc) (fullscreen : Bool) (output : OutputDesc1) (pq_support : ℕ)
    → (windowed_hdr_candidate_is_eligible description fullscreen output pq_support ≡ true)
      ↔ IsCandidate description fullscreen output pq_support
unfolding windowed_hdr_candidate_is_eligible
eligible_iff description fullscreen output pq_support = (λ h. ground arith, λ h. ground arith)

-- What DXGI must have answered for a positive inspection.
pub record IsInspected (d : Device) (swap_chain : ℕ) : Type 0 where
  pub not_null : swap_chain ≢ 0
  pub is_captured : d.captured swap_chain ≡ true
  pub desc : SwapChainDesc
  pub exclusive : Bool
  pub target : OutputDesc1
  pub support : ℕ
  pub described : d.description swap_chain ≡ some desc
  pub fullscreen_read : d.fullscreen swap_chain ≡ some exclusive
  pub output_read : d.output swap_chain ≡ some target
  pub support_read : d.pq_support swap_chain ≡ some support
  pub candidate : IsCandidate desc exclusive target support

module _ (d : Device) (swap_chain : ℕ) where
  -- An inspection is positive only of a captured swap chain, in a window, in a 10-bit flip-model
  -- format, on an attached HDR10 output, for which DXGI answered every query and supports PQ.
  pub inspect_positive :
      inspect_windowed_hdr_candidate d swap_chain ≡ ok true → IsInspected d swap_chain
  unfolding inspect_windowed_hdr_candidate
  inspect_positive h =
      go (d.description swap_chain) (d.fullscreen swap_chain) (d.output swap_chain)
        (d.pq_support swap_chain) refl refl refl refl
    where
      go :
          (a : Option SwapChainDesc) (b : Option Bool) (c : Option OutputDesc1) (e : Option ℕ)
          → d.description swap_chain ≡ a
          → d.fullscreen swap_chain ≡ b
          → d.output swap_chain ≡ c
          → d.pq_support swap_chain ≡ e
          → IsInspected d swap_chain
      go none b c e p q r s = ground arith
      go (some a) none c e p q r s = ground arith
      go (some a) (some b) none e p q r s = ground arith
      go (some a) (some b) (some c) none p q r s = ground arith
      go (some a) (some b) (some c) (some e) p q r s = record {
        not_null = ground arith;
        is_captured = ground arith;
        desc = a;
        exclusive = b;
        target = c;
        support = e;
        described = p;
        fullscreen_read = q;
        output_read = r;
        support_read = s;
        candidate = (eligible_iff a b c e).0 (ground arith);
      }
