-- ===== src/Sha256/Hasher.antt =====
-- src/sha256.rs: `struct Sha256`, `update` and `finalize`. Bytes are numbers below 256; slices of
-- the 64-byte block are written as the source writes them, so that stale bytes stay in it.
use elden_ring_windowed_hdr.Common.{
  ℕ, zero, suc, ◌+◌, ◌-◌, ◌*◌, ◌/◌, ◌%◌, ◌^◌, min, not, List, [], ◌∷◌, ◌++◌, length, take, drop,
  replicate, ◌≡◌, refl, ltb, leb, ◌==◌, if◌then◌else◌,
}
use elden_ring_windowed_hdr.Sha256.Compress.{Words, initial_state, compress}

pub record Sha256 : Type 0 where
  pub state : Words
  pub block : List ℕ
  pub block_len : ℕ
  pub length_bytes : ℕ

unfoldable pub new : Sha256
new = record { state = initial_state; block = replicate 64 0; block_len = 0; length_bytes = 0 }

-- `block[at..at + bytes.len()].copy_from_slice(bytes)`
abbrev pub splice : List ℕ → ℕ → List ℕ → List ℕ
splice block at bytes = take at block ++ (bytes ++ drop (at + length bytes) block)

-- `while input.len() >= 64`, on fuel: the state and the input that is left
unfoldable pub whole_blocks : ℕ → Words → List ℕ → Words × List ℕ
whole_blocks zero state input = (state, input)
whole_blocks (suc fuel) state input =
    let rest = whole_blocks fuel (compress state (take 64 input)) (drop 64 input) in
    if leb 64 (length input) then rest else (state, input)

-- the end of `update`: the loop, and the bytes that are kept
unfoldable pub absorb : Sha256 → List ℕ → Sha256
absorb h input =
    let (state, rest) = whole_blocks (length input) h.state input in
    record h { state = state; block = splice h.block 0 rest; block_len = length rest }

-- the branch of `update` in which bytes of an earlier call are waiting
unfoldable pub fill : Sha256 → List ℕ → Sha256
unfolding absorb
fill h input =
    let count = min (64 - h.block_len) (length input) in
    let block = splice h.block h.block_len (take count input) in
    let filled = record h { block = block; block_len = h.block_len + count } in
    if not (filled.block_len == 64)
    then filled
    else absorb (record filled { state = compress h.state block; block_len = 0 }) (drop count input)

unfoldable pub update : Sha256 → List ℕ → Sha256
unfolding fill absorb whole_blocks
update h input =
    let h' = record h { length_bytes = (h.length_bytes + length input % 2 ^ 64) % 2 ^ 64 } in
    if h.block_len == 0 then absorb h' input else fill h' input

unfoldable pub be_bytes_32 : ℕ → List ℕ
be_bytes_32 w = (w / 2 ^ 24 % 256) ∷ (w / 2 ^ 16 % 256) ∷ (w / 2 ^ 8 % 256) ∷ (w % 256) ∷ []

unfoldable pub be_bytes_64 : ℕ → List ℕ
unfolding be_bytes_32
be_bytes_64 w = be_bytes_32 (w / 2 ^ 32) ++ be_bytes_32 w

unfoldable pub state_bytes : Words → List ℕ
unfolding be_bytes_32
state_bytes s =
    be_bytes_32 s.a
    ++ (be_bytes_32 s.b
        ++ (be_bytes_32 s.c
            ++ (be_bytes_32 s.d
                ++ (be_bytes_32 s.e ++ (be_bytes_32 s.f ++ (be_bytes_32 s.g ++ be_bytes_32 s.h))))))

-- `finalize` up to the last `compress`: the state and the block before the length is written
unfoldable pub pad : Words → List ℕ → ℕ → Words × List ℕ
pad state block block_len =
    if ltb 56 block_len
    then (compress state (splice block block_len (replicate (64 - block_len) 0)), replicate 64 0)
    else (state, splice block block_len (replicate (56 - block_len) 0))

-- the state after the last `compress`
unfoldable pub final_state : Sha256 → Words
unfolding pad
final_state h =
    let bit_length = h.length_bytes * 8 % 2 ^ 64 in
    let (state, block) = pad h.state (splice h.block h.block_len (0x80 ∷ [])) (h.block_len + 1) in
    compress state (splice block 56 (be_bytes_64 bit_length))

unfoldable pub finalize : Sha256 → List ℕ
unfolding final_state state_bytes be_bytes_64
finalize h = state_bytes (final_state h)

pub length-be_bytes_64 : (w : ℕ) → length (be_bytes_64 w) ≡ 8
unfolding be_bytes_64
length-be_bytes_64 w = refl

pub finalize_lem : (h : Sha256) → finalize h ≡ state_bytes (final_state h)
unfolding finalize
finalize_lem h = refl
