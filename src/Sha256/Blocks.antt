-- ===== src/Sha256/Blocks.antt =====
-- src/sha256.rs: the loop over whole blocks, for any input and any split of it.
use elden_ring_windowed_hdr.Common.{
  ℕ, zero, suc, ◌≤◌, ◌<◌, ◌≡◌, refl, sym, ◌∙◌, Bool-cases, inl, inr, List, ◌++◌, length, take, drop,
  leb, leb-true, leb-false, arith, length-drop, length-append, take-append_le, drop-append_le,
}
use elden_ring_windowed_hdr.Sha256.Compress.{Words, compress}
use elden_ring_windowed_hdr.Sha256.Hasher.{whole_blocks}

-- enough fuel: every round takes 64 bytes
abbrev pub consume : Words → List ℕ → Words × List ℕ
consume state input = whole_blocks (length input) state input

whole_blocks_short :
    (fuel : ℕ) (state : Words) (input : List ℕ)
    → length input < 64
    → whole_blocks fuel state input ≡ (state, input)
unfolding whole_blocks
whole_blocks_short zero state input h = refl
whole_blocks_short (suc fuel) state input h = rw (leb-false 64 (length input) h)

whole_blocks_fuel :
    (f g : ℕ) (state : Words) (input : List ℕ)
    → length input ≤ f
    → length input ≤ g
    → whole_blocks f state input ≡ whole_blocks g state input
unfolding whole_blocks
whole_blocks_fuel zero g state input p q = sym (whole_blocks_short g state input (omega arith))
whole_blocks_fuel (suc f) zero state input p q =
    whole_blocks_short (suc f) state input (omega arith)
whole_blocks_fuel (suc f) (suc g) state input p q = elim (Bool-cases (leb 64 (length input))) [
  | inl more ↦ rw more (
      whole_blocks_fuel f g (compress state (take 64 input)) (drop 64 input)
        (ground (arith, length-drop 64 input)) (ground (arith, length-drop 64 input)))
  | inr done ↦ rw done
]

pub consume_short :
    (state : Words) (input : List ℕ) → length input < 64 → consume state input ≡ (state, input)
consume_short state input h = whole_blocks_short (length input) state input h

whole_blocks_step :
    (fuel : ℕ) (state : Words) (input : List ℕ)
    → 64 ≤ length input
    → whole_blocks (suc fuel) state input
      ≡ whole_blocks fuel (compress state (take 64 input)) (drop 64 input)
unfolding whole_blocks
whole_blocks_step fuel state input h = rw (leb-true 64 (length input) h)

pub consume_step :
    (state : Words) (input : List ℕ)
    → 64 ≤ length input
    → consume state input ≡ consume (compress state (take 64 input)) (drop 64 input)
consume_step state input h =
    whole_blocks_fuel (length input) (suc (length input)) state input (omega arith) (omega arith)
    ∙ whole_blocks_step (length input) state input h
    ∙ whole_blocks_fuel (length input) (length (drop 64 input)) (compress state (take 64 input))
        (drop 64 input) (omega (arith, length-drop 64 input)) (omega arith)

whole_blocks_rest :
    (fuel : ℕ) (state : Words) (input : List ℕ)
    → length input ≤ fuel
    → length (whole_blocks fuel state input).1 < 64
unfolding whole_blocks
whole_blocks_rest zero state input h = omega arith
whole_blocks_rest (suc fuel) state input h = elim (Bool-cases (leb 64 (length input))) [
  | inl more ↦ rw more (
      whole_blocks_rest fuel (compress state (take 64 input)) (drop 64 input)
        (ground (arith, length-drop 64 input)))
  | inr done ↦ rw done (ground arith)
]

pub consume_rest : (state : Words) (input : List ℕ) → length (consume state input).1 < 64
consume_rest state input = whole_blocks_rest (length input) state input (omega arith)

whole_blocks-append :
    (fuel : ℕ) (state : Words) (xs ys : List ℕ)
    → let r = whole_blocks fuel state xs in consume state (xs ++ ys) ≡ consume r.0 (r.1 ++ ys)
unfolding whole_blocks
whole_blocks-append zero state xs ys = refl
whole_blocks-append (suc fuel) state xs ys = elim (Bool-cases (leb 64 (length xs))) [
  | inl more ↦
      let long : 64 ≤ length xs = ground arith in
      rw more (
        consume_step state (xs ++ ys) (omega (arith, length-append {0} xs ys))
        ∙ rw (take-append_le 64 xs ys long, drop-append_le 64 xs ys long)
            (whole_blocks-append fuel (compress state (take 64 xs)) (drop 64 xs) ys))
  | inr done ↦ rw done
]

-- A stream may be cut anywhere: what is left of the first part is read before the second.
pub consume-append :
    (state : Words) (xs ys : List ℕ)
    → let r = consume state xs in consume state (xs ++ ys) ≡ consume r.0 (r.1 ++ ys)
consume-append state xs ys = whole_blocks-append (length xs) state xs ys
