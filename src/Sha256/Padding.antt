-- ===== src/Sha256/Padding.antt =====
-- src/sha256.rs: `finalize` against the padding of FIPS 180-4, and the digest of a whole stream.
use elden_ring_windowed_hdr.Common.{
  ℕ, zero, suc, ◌+◌, ◌-◌, ◌*◌, ◌%◌, ◌^◌, ◌≤◌, ◌<◌, ◌≡◌, refl, sym, ap, ap₂, ◌∙◌, Bool-cases, inl,
  inr, true, false, List, [], ◌∷◌, ◌++◌, length, take, drop, replicate, ltb, if◌then◌else◌, arith,
  length-drop, length-append, length-replicate, take_all, drop_all,
}
use mathlib.Core.List.{append-nil, append_assoc}
use native.Mathlib.Decide.{dec_lt}
use elden_ring_windowed_hdr.Sha256.Compress.{Words, initial_state, compress}
use elden_ring_windowed_hdr.Sha256.Hasher.{
  Sha256, new, final_state, finalize, finalize_lem, splice, be_bytes_64, length-be_bytes_64,
  state_bytes,
}
use elden_ring_windowed_hdr.Sha256.Blocks.{consume, consume_short, consume_step, consume-append}
use elden_ring_windowed_hdr.Sha256.Chunks.{
  IsHolding, length-splice, take-splice, updates, updates-IsHolding, updates-length_bytes,
  new-IsHolding, flatten,
}

-- the zeros that bring a message of `n` bytes and its marker to 56 modulo 64
unfoldable pub zeros_after : ℕ → ℕ
zeros_after n = if ltb 56 (n % 64 + 1) then 119 - n % 64 else 55 - n % 64

abbrev pub tail : ℕ → ℕ → List ℕ
tail zeros bits = 0x80 ∷ (replicate zeros 0 ++ be_bytes_64 bits)

-- FIPS 180-4: the marker, zeros and the length in bits are appended to the message, and the padded
-- message is compressed block by block.
unfoldable pub digest_of : List ℕ → List ℕ
digest_of message =
    state_bytes
      (consume initial_state
        (message ++ tail (zeros_after (length message)) (length message % 2 ^ 64 * 8 % 2 ^ 64))).0

-- A block of exactly 64 bytes is compressed and nothing is left.
consume_block :
    (state : Words) (block : List ℕ)
    → length block ≡ 64
    → consume state block ≡ (compress state block, [])
consume_block state block e =
    consume_step state block (omega arith)
    ∙ ap₂ (λ x y. consume (compress state x) y) (take_all 64 block (omega arith))
        (drop_all 64 block (omega arith))
    ∙ consume_short (compress state block) [] (omega arith)

consume_two :
    (state : Words) (x y : List ℕ)
    → length x ≡ 64
    → length y ≡ 64
    → (consume state (x ++ y)).0 ≡ compress (compress state x) y
consume_two state x y ex ey =
    rw (consume-append state x y, consume_block state x ex, consume_block (compress state x) y ey)

-- A splice that reaches the end of the block.
splice_end :
    (block : List ℕ) (at : ℕ) (bytes : List ℕ)
    → length block ≤ at + length bytes
    → splice block at bytes ≡ take at block ++ bytes
splice_end block at bytes h =
    ap (λ t. take at block ++ (bytes ++ t)) (drop_all (at + length bytes) block h)
    ∙ ap (λ t. take at block ++ t) (append-nil bytes)

module _ (block kept : List ℕ) (at : ℕ) (kept_eq : take at block ≡ kept) (at_eq : at ≡ length kept)
    (short : length kept < 64) (full : length block ≡ 64) where
  abbrev marked : List ℕ
  marked = splice block at (0x80 ∷ [])

  length-marked : length marked ≡ 64
  length-marked = length-splice block at (0x80 ∷ []) (omega arith) ∙ full

  take-marked : take (at + 1) marked ≡ kept ++ 0x80 ∷ []
  take-marked =
      take-splice block at (at + 1) (0x80 ∷ []) (omega arith) refl
      ∙ ap (λ t. t ++ 0x80 ∷ []) kept_eq

  zeroed-take :
      (m n : ℕ)
      → n ≡ at + 1 + m
      → n ≤ 64
      → take n (splice marked (at + 1) (replicate m 0)) ≡ kept ++ 0x80 ∷ replicate m 0
  zeroed-take m n e le =
      take-splice marked (at + 1) n (replicate m 0) (omega (arith, length-marked))
        (omega (arith, length-replicate {A = ℕ} m 0))
      ∙ ap (λ t. t ++ replicate m 0) take-marked
      ∙ append_assoc kept (0x80 ∷ []) (replicate m 0)

  length-zeroed : (m : ℕ) → at + 1 + m ≤ 64 → length (splice marked (at + 1) (replicate m 0)) ≡ 64
  length-zeroed m le =
      length-splice marked (at + 1) (replicate m 0)
        (omega (arith, length-marked, length-replicate {A = ℕ} m 0))
      ∙ length-marked

  -- the marker, the zeros and the length fit the block
  one_block :
      (bits : ℕ)
      → at + 1 ≤ 56
      → splice (splice marked (at + 1) (replicate (56 - (at + 1)) 0)) 56 (be_bytes_64 bits)
        ≡ kept ++ tail (55 - length kept) bits
  one_block bits le =
      splice_end (splice marked (at + 1) (replicate (56 - (at + 1)) 0)) 56 (be_bytes_64 bits)
        (omega (arith, length-zeroed (56 - (at + 1)) (omega arith), length-be_bytes_64 bits))
      ∙ ap (λ t. t ++ be_bytes_64 bits) (zeroed-take (56 - (at + 1)) 56 (omega arith) (omega arith))
      ∙ append_assoc kept (0x80 ∷ replicate (56 - (at + 1)) 0) (be_bytes_64 bits)
      ∙ ap (λ k. kept ++ tail k bits) (omega arith)

  -- the zeros fill the block
  first_block :
      at + 1 ≤ 64
      → splice marked (at + 1) (replicate (64 - (at + 1)) 0)
        ≡ kept ++ 0x80 ∷ replicate (63 - length kept) 0
  first_block le =
      sym (
        take_all 64 (splice marked (at + 1) (replicate (64 - (at + 1)) 0))
          (omega (arith, length-zeroed (64 - (at + 1)) (omega arith))))
      ∙ zeroed-take (64 - (at + 1)) 64 (omega arith) (omega arith)
      ∙ ap (λ k. kept ++ 0x80 ∷ replicate k 0) (omega arith)

-- 119 - n zeros are those that fill the first block and the 56 of the second
replicate-add {ℓ} :
    {A : Type ℓ} (a : A) (m n k : ℕ) → k ≡ m + n → replicate m a ++ replicate n a ≡ replicate k a
replicate-add a zero n k e = let e' : n ≡ k = omega arith in ap (λ i. replicate i a) e'
replicate-add a (suc m) n zero e = absurd (omega arith)
replicate-add a (suc m) n (suc k) e = ap (◌∷◌ a) (replicate-add a m n k (omega arith))

split_tail :
    (kept : List ℕ) (bits : ℕ)
    → length kept < 64
    → (kept ++ 0x80 ∷ replicate (63 - length kept) 0) ++ (replicate 56 0 ++ be_bytes_64 bits)
      ≡ kept ++ tail (119 - length kept) bits
split_tail kept bits h =
    append_assoc kept (0x80 ∷ replicate (63 - length kept) 0) (replicate 56 0 ++ be_bytes_64 bits)
    ∙ ap (λ t. kept ++ 0x80 ∷ t)
        (sym (append_assoc (replicate (63 - length kept) 0) (replicate 56 0) (be_bytes_64 bits))
          ∙ ap (λ t. t ++ be_bytes_64 bits)
              (replicate-add 0 (63 - length kept) 56 (119 - length kept) (omega arith)))

length-tail :
    (kept : List ℕ) (zeros bits : ℕ) → length (kept ++ tail zeros bits) ≡ length kept + 9 + zeros
length-tail kept zeros bits = omega (
  arith,
  length-append {0} kept (tail zeros bits),
  length-append {0} (replicate zeros 0) (be_bytes_64 bits),
  length-replicate {A = ℕ} zeros 0,
  length-be_bytes_64 bits,
)

seal_one :
    (h : Sha256) (state : Words) (kept : List ℕ)
    → IsHolding h state kept
    → length kept < 56
    → final_state h
      ≡ (consume state (kept ++ tail (55 - length kept) (h.length_bytes * 8 % 2 ^ 64))).0
unfolding final_state
seal_one h state kept w lt =
    rw
      (
        short_block,
        consume_block state (kept ++ tail (55 - length kept) bits)
            (omega (arith, length-tail kept (55 - length kept) bits)),
      )
      (ap₂ compress w.state_eq (
        one_block h.block kept h.block_len w.kept_eq w.kept_length w.short w.block_length bits
          (omega arith)))
  where
    bits : ℕ
    bits = h.length_bytes * 8 % 2 ^ 64

    short_block : ltb 56 (h.block_len + 1) ≡ false
    short_block = ground arith

seal_two :
    (h : Sha256) (state : Words) (kept : List ℕ)
    → IsHolding h state kept
    → 56 ≤ length kept
    → final_state h
      ≡ (consume state (kept ++ tail (119 - length kept) (h.length_bytes * 8 % 2 ^ 64))).0
unfolding final_state
seal_two h state kept w ge =
    rw
      (
        long_block,
        ← split_tail kept bits w.short,
        consume_two state first (replicate 56 0 ++ be_bytes_64 bits)
            (omega (
              arith,
              length-append {0} kept (0x80 ∷ replicate (63 - length kept) 0),
              length-replicate {A = ℕ} (63 - length kept) 0,
            ))
            (omega (
              arith,
              length-append {0} (replicate 56 0) (be_bytes_64 bits),
              length-be_bytes_64 bits,
            )),
      )
      (ap₂ compress
        (ap₂ compress w.state_eq (
          first_block h.block kept h.block_len w.kept_eq w.kept_length w.short w.block_length
            (omega arith)))
        (splice_end (replicate 64 0) 56 (be_bytes_64 bits)
          (omega (arith, length-be_bytes_64 bits))))
  where
    bits : ℕ
    bits = h.length_bytes * 8 % 2 ^ 64

    first : List ℕ
    first = kept ++ 0x80 ∷ replicate (63 - length kept) 0

    long_block : ltb 56 (h.block_len + 1) ≡ true
    long_block = ground arith

-- What is left of a message is its length modulo 64.
whole_blocks_mod :
    (fuel : ℕ) (state : Words) (input : List ℕ)
    → length input ≤ fuel
    → length (consume state input).1 ≡ length input % 64
whole_blocks_mod zero state input h = rw (consume_short state input (omega arith)) (omega arith)
whole_blocks_mod (suc fuel) state input h = elim (dec_lt (length input) 64) [
  | yes lt ↦ rw (consume_short state input lt) (omega arith)
  | no ge ↦ rw (consume_step state input (omega arith)) (
      omega (
        arith,
        whole_blocks_mod fuel (compress state (take 64 input)) (drop 64 input)
            (omega (arith, length-drop {0} 64 input)),
        length-drop {0} 64 input,
      ))
]

final_state_lem :
    (h : Sha256) (state : Words) (kept : List ℕ) (n : ℕ)
    → IsHolding h state kept
    → length kept ≡ n % 64
    → final_state h ≡ (consume state (kept ++ tail (zeros_after n) (h.length_bytes * 8 % 2 ^ 64))).0
unfolding zeros_after
final_state_lem h state kept n w e = elim (Bool-cases (ltb 56 (n % 64 + 1))) [
  | inl long ↦ rw (long, ← e) (seal_two h state kept w (ground arith))
  | inr short ↦ rw (short, ← e) (seal_one h state kept w (ground arith))
]

-- However a message is cut into the chunks given to `update`, `finalize` returns the SHA-256 digest
-- of the whole message.
pub finalize-updates :
    (chunks : List (List ℕ)) → finalize (updates new chunks) ≡ digest_of (flatten chunks)
unfolding digest_of
finalize-updates chunks =
    finalize_lem (updates new chunks)
    ∙ ap state_bytes (
        final_state_lem (updates new chunks) r.0 r.1 (length message)
          (updates-IsHolding chunks new initial_state [] new-IsHolding)
          (whole_blocks_mod (length message) initial_state message (omega arith))
        ∙ ap (λ b. (consume r.0 (r.1 ++ tail (zeros_after (length message)) (b * 8 % 2 ^ 64))).0)
            count
        ∙ sym (
            ap (λ (p : Words × List ℕ). p.0)
              (consume-append initial_state message
                (tail (zeros_after (length message)) (length message % 2 ^ 64 * 8 % 2 ^ 64)))))
  where
    message : List ℕ
    message = flatten chunks

    r : Words × List ℕ
    r = consume initial_state message

    count : (updates new chunks).length_bytes ≡ length message % 2 ^ 64
    count =
        updates-length_bytes chunks new (unfold new in omega arith) ∙ (unfold new in omega arith)
