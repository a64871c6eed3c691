-- ===== src/Compat/References.antt =====
-- src/game_compat.rs: the references to a vtable that the search counts are the LEA instructions
-- in the executable sections that load its address.
use elden_ring_windowed_hdr.Common.{
  ℕ, zero, suc, ◌≡◌, ◌≢◌, ◌≤◌, ◌+◌, ◌-◌, ◌*◌, ◌%◌, ◌^◌, refl, sym, ap, ◌∙◌, inl, inr, Bool, true,
  false, ◌&&◌, Option, none, some, List, [], ◌∷◌, length, take, drop, get_or, ltb, leb, ◌==◌,
  if◌then◌else◌, ok, ◌>>=◌, arith, bind-ok, guard-ok, ok_or, ok_or-ok, Bool-cases, Result-cases,
  ◌⊎◌, from_le_bytes, bit_and,
}
use elden_ring_windowed_hdr.Patch.Memory.{Memory, read}
use elden_ring_windowed_hdr.Compat.Image.{
  Section, LoadedImage, misaligned_vtable, no_locator_slot, vtable_not_data, not_the_gate,
  checked_sub, read_usize, is_executable_section, is_readable_non_executable, va_to_rva,
  relative_target, same_target, section_bytes,
}
use elden_ring_windowed_hdr.Compat.Exact.{length-read, take-read}
use elden_ring_windowed_hdr.Compat.Caller.{drop-read}
use elden_ring_windowed_hdr.Compat.Described.{validate-gate}
use elden_ring_windowed_hdr.Compat.Vtable.{
  VtableMatch, validate_menu_gate_vtable, lea_target, candidate_of, add_candidate, add_found,
  scan_vtables, find_vtables, only_candidate,
}

-- The displacement of an instruction that ends at `next` leads to the target, within 64 bits.
abbrev pub lands : ℕ → ℕ → ℕ → Bool
lands next displacement target =
    if ltb displacement (2 ^ 31)
    then ltb (next + displacement) (2 ^ 64) && next + displacement == target
    else leb (2 ^ 32 - displacement) next && next - (2 ^ 32 - displacement) == target

-- a LEA with a 64-bit operand, relative to the instruction pointer, that loads the target's address
abbrev pub loads_at : Memory → ℕ → ℕ → Bool
loads_at m rva target =
    bit_and (m rva) 0xF8 == 0x48
    && (m (rva + 1) == 0x8D
        && (bit_and (m (rva + 2)) 0xC7 == 5
            && lands (rva + 7) (from_le_bytes (read m (rva + 3) 4)) target))

-- how many of the seven-byte windows of a range are such an instruction
abbrev pub loads_in : Memory → ℕ → ℕ → ℕ → ℕ
loads_in m target rva zero = 0
loads_in m target rva (suc n) =
    (if leb 7 (suc n) && loads_at m rva target then 1 else 0) + loads_in m target (rva + 1) n

-- how many there are in the executable sections
abbrev pub loads_of : LoadedImage → ℕ → List Section → ℕ
loads_of image target [] = 0
loads_of image target (s ∷ sections) =
    (if bit_and s.characteristics 0x20000000 == 0
      then 0
      else loads_in image.memory target s.rva s.size)
    + loads_of image target sections

-- the count of the candidate at an RVA
count_of : ℕ → List VtableMatch → ℕ
count_of target [] = 0
count_of target (c ∷ cs) = if c.rva == target then c.reference_count else count_of target cs

lands_lem :
    (next displacement target : ℕ)
    → same_target (relative_target next displacement) target ≡ lands next displacement target
unfolding relative_target
lands_lem next displacement target = ground arith

add_candidate-count_of :
    (target : ℕ) (v : VtableMatch) (cs : List VtableMatch)
    → v.reference_count ≡ 1
    → count_of target (add_candidate v cs) ≡ (if v.rva == target then 1 else 0) + count_of target cs
unfolding count_of
add_candidate-count_of target v [] one = ground (arith, one)
add_candidate-count_of target v (c ∷ cs) one =
    ground (arith, one, add_candidate-count_of target v cs one)

get_or-read : (m : Memory) (a n i : ℕ) → suc i ≤ n → get_or (read m a n) i 0 ≡ m (a + i)
unfolding read
get_or-read m a zero i h = absurd (omega (arith, h))
get_or-read m a (suc n) zero h = ap m (omega arith)
get_or-read m a (suc n) (suc i) h =
    get_or-read m (a + 1) n i (omega (arith, h)) ∙ ap m (omega arith)

-- the tests on seven bytes that are those of the memory
lea_bytes :
    (m : Memory) (target a : ℕ) (bytes : List ℕ)
    → 7 ≤ length bytes
    → get_or bytes 0 0 ≡ m a
    → get_or bytes 1 0 ≡ m (a + 1)
    → get_or bytes 2 0 ≡ m (a + 2)
    → take 4 (drop 3 bytes) ≡ read m (a + 3) 4
    → same_target (lea_target a bytes) target ≡ loads_at m a target
lea_bytes m target a bytes long b0 b1 b2 operand =
    rw (sym b0, sym b1, sym b2, sym operand)
      (ground (arith, long, lands_lem (a + 7) (from_le_bytes (take 4 (drop 3 bytes))) target))

lea_target_lem :
    (m : Memory) (target a n : ℕ)
    → same_target (lea_target a (read m a (suc n))) target ≡ (leb 7 (suc n) && loads_at m a target)
lea_target_lem m target a n = elim (Bool-cases (leb 7 (suc n))) [
  | inr short ↦ ground (arith, short, length-read m a (suc n))
  | inl t ↦
      let long : 7 ≤ suc n = ground (arith, t) in
      let first : a + 0 ≡ a = omega arith in
      let same =
        lea_bytes m target a (read m a (suc n)) (omega (arith, long, length-read m a (suc n)))
          (get_or-read m a (suc n) 0 (omega (arith, long)) ∙ ap m first)
          (get_or-read m a (suc n) 1 (omega (arith, long)))
          (get_or-read m a (suc n) 2 (omega (arith, long)))
          (ap (λ l. take 4 l) (drop-read m a 3 (suc n) (omega (arith, long)))
            ∙ take-read m (a + 3) 4 (suc n - 3) (omega (arith, long))) in
      same ∙ sym (ap (λ b. b && loads_at m a target) t)
]

section_bytes_sound :
    (image : LoadedImage) (s : Section) (bytes : List ℕ)
    → section_bytes image s ≡ ok bytes
    → bytes ≡ read image.memory s.rva s.size
unfolding section_bytes
section_bytes_sound image s bytes h = ground (arith, h)

-- The image, and the RVA of the menu's gate.
module _ (image : LoadedImage) (gate_rva : ℕ) where
  -- the tests before the call of `validate_menu_gate_vtable` are among its own
  abbrev Tested : ℕ → Type 0
  Tested target =
      (slot : ℕ) × (pointer : ℕ) × (target % 8 ≡ 0)
      × (checked_sub target 8 ≡ some slot)
      × (is_readable_non_executable image slot 56 ≡ true)
      × (read_usize image (target + 8 * 2) ≡ ok pointer)
      × (same_target (va_to_rva image pointer) gate_rva ≡ true)

  validated-Tested :
      (target : ℕ) (v : VtableMatch)
      → validate_menu_gate_vtable image target gate_rva ≡ ok v
      → Tested target
  unfolding validate_menu_gate_vtable
  validated-Tested target v h =
      let (aligned, h1) = guard-ok (target % 8 == 0) misaligned_vtable _ v h in
      let (slot, before, h2) = bind-ok (ok_or (checked_sub target 8) no_locator_slot) _ v h1 in
      let (readable, h3) =
        guard-ok (is_readable_non_executable image slot 56) vtable_not_data _ v h2 in
      let (pointer, read, h4) = bind-ok (read_usize image (target + 8 * 2)) _ v h3 in
      let (gate, h5) =
        guard-ok (same_target (va_to_rva image pointer) gate_rva) not_the_gate _ v h4 in
      (
        slot,
        pointer,
        ground (arith, aligned),
        ok_or-ok (checked_sub target 8) no_locator_slot slot before,
        readable,
        read,
        gate,
      )

  -- a round meets a vtable exactly where all checks on it pass
  candidate_of-valid :
      (target : ℕ) (v : VtableMatch)
      → validate_menu_gate_vtable image target gate_rva ≡ ok v
      → candidate_of image gate_rva (some target) ≡ some v
  candidate_of-valid target v valid =
      let (slot, pointer, aligned, before, readable, read, gate) =
        validated-Tested target v valid in
      rw before (ground (arith, aligned, readable, read, gate, valid))

  met-validated :
      (target : ℕ) (v : VtableMatch)
      → candidate_of image gate_rva (some target) ≡ some v
      → validate_menu_gate_vtable image target gate_rva ≡ ok v
  met-validated target v h = elim (Result-cases (validate_menu_gate_vtable image target gate_rva)) [
    | inl (e, failed) ↦ absurd (ground (arith, h, failed))
    | inr (w, taken) ↦ let same : w ≡ v = ground (arith, h, taken) in taken ∙ ap ok same
  ]

  module _ (target : ℕ) (w : VtableMatch)
      (valid : validate_menu_gate_vtable image target gate_rva ≡ ok w) where
    -- a round counts the vtable exactly if the instruction loads its address
    round_count :
        (o : Option ℕ) (cs : List VtableMatch)
        → count_of target (add_found (candidate_of image gate_rva o) cs)
          ≡ (if same_target o target then 1 else 0) + count_of target cs
    round_count none cs = omega arith
    round_count (some t) cs =
        go (candidate_of image gate_rva (some t)) refl (Bool-cases (t == target))
      where
        go :
            (o : Option VtableMatch)
            → candidate_of image gate_rva (some t) ≡ o
            → ((t == target) ≡ true) ⊎ ((t == target) ≡ false)
            → count_of target (add_found o cs) ≡ (if t == target then 1 else 0) + count_of target cs
        go (some v) e c =
            let (at, one, slots, located) =
              (validate-gate image gate_rva t v (met-validated t v e)).0 in
            add_candidate-count_of target v cs one
            ∙ ap (λ x. (if x == target then 1 else 0) + count_of target cs) at
        go none e (inr far) = rw far (omega arith)
        go none e (inl near) =
            let it : t ≡ target = ground (arith, near) in
            absurd (
              ground (
                arith,
                sym e
                    ∙ ap (λ x. candidate_of image gate_rva (some x)) it
                    ∙ candidate_of-valid target w valid,
              ))

    scan_count :
        (rva n : ℕ) (cs : List VtableMatch)
        → count_of target (scan_vtables image gate_rva (read image.memory rva n) rva cs)
          ≡ loads_in image.memory target rva n + count_of target cs
    unfolding read
    scan_count rva zero cs = omega arith
    scan_count rva (suc n) cs =
        scan_count (rva + 1) n (
          add_found (candidate_of image gate_rva (lea_target rva (read image.memory rva (suc n))))
            cs)
        ∙ ap (λ k. loads_in image.memory target (rva + 1) n + k)
            (round_count (lea_target rva (read image.memory rva (suc n))) cs)
        ∙ ap
            (λ b.
              loads_in image.memory target (rva + 1) n
              + ((if b then 1 else 0) + count_of target cs))
            (lea_target_lem image.memory target rva n)
        ∙ omega arith

    sections_count :
        (sections : List Section) (cs ds : List VtableMatch)
        → find_vtables image gate_rva sections cs ≡ ok ds
        → count_of target ds ≡ loads_of image target sections + count_of target cs
    sections_count [] cs ds h =
        let same : cs ≡ ds = ground (arith, h) in sym (ap (count_of target) same) ∙ omega arith
    sections_count (s ∷ sections) cs ds h = elim (Bool-cases (is_executable_section s)) [
      | inr t ↦ sections_count sections cs ds (ground (arith, h, t)) ∙ ground (arith, t)
      | inl t ↦
          let chain : (section_bytes image s >>= λ bytes.
          find_vtables image gate_rva sections (scan_vtables image gate_rva bytes s.rva cs))
              ≡ ok ds =
            ground (arith, h, t) in
          let (bytes, got, rest) = bind-ok (section_bytes image s) _ ds chain in
          sections_count sections (scan_vtables image gate_rva bytes s.rva cs) ds rest
          ∙ ap
              (λ l.
                loads_of image target sections
                + count_of target (scan_vtables image gate_rva l s.rva cs))
              (section_bytes_sound image s bytes got)
          ∙ ap (λ k. loads_of image target sections + k) (scan_count s.rva s.size cs)
          ∙ ground (arith, t)
    ]

    -- the only candidate has the count of all instructions that load its address
    pub references_lem :
        (cs : List VtableMatch) (v : VtableMatch)
        → v.rva ≡ target
        → find_vtables image gate_rva image.sections [] ≡ ok cs
        → only_candidate cs ≡ ok v
        → v.reference_count ≡ loads_of image target image.sections
    unfolding count_of
    references_lem [] v at found only = absurd (ground (arith, only))
    references_lem (c ∷ d ∷ cs) v at found only = absurd (ground (arith, only))
    references_lem (c ∷ []) v at found only =
        let same : c ≡ v = ground (arith, only) in
        let counted = sections_count image.sections [] (c ∷ []) found in
        let here : c.rva ≡ target = ap (λ x. x.rva) same ∙ at in
        sym (ap (λ x. x.reference_count) same) ∙ ground (arith, counted, here)

    -- with one candidate, a vtable that passes all checks and is not it is not referred to
    pub others_lem :
        (cs : List VtableMatch) (v : VtableMatch)
        → v.rva ≢ target
        → find_vtables image gate_rva image.sections [] ≡ ok cs
        → only_candidate cs ≡ ok v
        → loads_of image target image.sections ≡ 0
    unfolding count_of
    others_lem [] v other found only = absurd (ground (arith, only))
    others_lem (c ∷ d ∷ cs) v other found only = absurd (ground (arith, only))
    others_lem (c ∷ []) v other found only =
        let same : c ≡ v = ground (arith, only) in
        let counted = sections_count image.sections [] (c ∷ []) found in
        let there : c.rva ≡ v.rva = ap (λ x. x.rva) same in ground (arith, counted, there, other)
