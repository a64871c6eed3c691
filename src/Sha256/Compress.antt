-- ===== src/Sha256/Compress.antt =====
-- src/sha256.rs: the constants and `compress`. A `u32` is a number below 2 ^ 32.
use elden_ring_windowed_hdr.Common.{
  ℕ, zero, suc, ◌+◌, ◌-◌, ◌*◌, ◌/◌, ◌%◌, ◌^◌, List, [], ◌∷◌, bit_and, bit_or, bit_xor, get_or, set,
  replicate,
}

pub record Words : Type 0 where
  pub a : ℕ
  pub b : ℕ
  pub c : ℕ
  pub d : ℕ
  pub e : ℕ
  pub f : ℕ
  pub g : ℕ
  pub h : ℕ

abbrev pub initial_state : Words
initial_state = record {
  a = 0x6a09e667;
  b = 0xbb67ae85;
  c = 0x3c6ef372;
  d = 0xa54ff53a;
  e = 0x510e527f;
  f = 0x9b05688c;
  g = 0x1f83d9ab;
  h = 0x5be0cd19;
}

abbrev pub round_constants : List ℕ
round_constants =
    0x428a2f98 ∷ 0x71374491 ∷ 0xb5c0fbcf ∷ 0xe9b5dba5 ∷ 0x3956c25b ∷ 0x59f111f1 ∷ 0x923f82a4
    ∷ 0xab1c5ed5 ∷ 0xd807aa98 ∷ 0x12835b01 ∷ 0x243185be ∷ 0x550c7dc3 ∷ 0x72be5d74 ∷ 0x80deb1fe
    ∷ 0x9bdc06a7 ∷ 0xc19bf174 ∷ 0xe49b69c1 ∷ 0xefbe4786 ∷ 0x0fc19dc6 ∷ 0x240ca1cc ∷ 0x2de92c6f
    ∷ 0x4a7484aa ∷ 0x5cb0a9dc ∷ 0x76f988da ∷ 0x983e5152 ∷ 0xa831c66d ∷ 0xb00327c8 ∷ 0xbf597fc7
    ∷ 0xc6e00bf3 ∷ 0xd5a79147 ∷ 0x06ca6351 ∷ 0x14292967 ∷ 0x27b70a85 ∷ 0x2e1b2138 ∷ 0x4d2c6dfc
    ∷ 0x53380d13 ∷ 0x650a7354 ∷ 0x766a0abb ∷ 0x81c2c92e ∷ 0x92722c85 ∷ 0xa2bfe8a1 ∷ 0xa81a664b
    ∷ 0xc24b8b70 ∷ 0xc76c51a3 ∷ 0xd192e819 ∷ 0xd6990624 ∷ 0xf40e3585 ∷ 0x106aa070 ∷ 0x19a4c116
    ∷ 0x1e376c08 ∷ 0x2748774c ∷ 0x34b0bcb5 ∷ 0x391c0cb3 ∷ 0x4ed8aa4a ∷ 0x5b9cca4f ∷ 0x682e6ff3
    ∷ 0x748f82ee ∷ 0x78a5636f ∷ 0x84c87814 ∷ 0x8cc70208 ∷ 0x90befffa ∷ 0xa4506ceb ∷ 0xbef9a3f7
    ∷ 0xc67178f2 ∷ []

abbrev pub wrapping_add : ℕ → ℕ → ℕ
wrapping_add x y = (x + y) % 2 ^ 32

abbrev pub rotate_right : ℕ → ℕ → ℕ
rotate_right x k = bit_or (x / 2 ^ k) (x * 2 ^ (32 - k) % 2 ^ 32)

-- `u32::from_be_bytes` of four bytes of the block
word_at : List ℕ → ℕ → ℕ
word_at block offset =
    get_or block offset 0 * 2 ^ 24
    + get_or block (offset + 1) 0 * 2 ^ 16
    + get_or block (offset + 2) 0 * 2 ^ 8
    + get_or block (offset + 3) 0

-- the loop over the first 16 words, with the rounds left and the index
load_words : ℕ → ℕ → List ℕ → List ℕ → List ℕ
unfolding word_at
load_words zero index block schedule = schedule
load_words (suc n) index block schedule =
    load_words n (index + 1) block (set schedule index (word_at block (index * 4)))

schedule_word : List ℕ → ℕ → ℕ
schedule_word schedule index =
    let x = get_or schedule (index - 15) 0 in
    let y = get_or schedule (index - 2) 0 in
    let s0 = bit_xor (bit_xor (rotate_right x 7) (rotate_right x 18)) (x / 2 ^ 3) in
    let s1 = bit_xor (bit_xor (rotate_right y 17) (rotate_right y 19)) (y / 2 ^ 10) in
    wrapping_add
      (wrapping_add (wrapping_add (get_or schedule (index - 16) 0) s0)
        (get_or schedule (index - 7) 0))
      s1

-- `for index in 16..64`
extend_words : ℕ → ℕ → List ℕ → List ℕ
unfolding schedule_word
extend_words zero index schedule = schedule
extend_words (suc n) index schedule =
    extend_words n (index + 1) (set schedule index (schedule_word schedule index))

round : ℕ → ℕ → Words → Words
round constant word s =
    let sum1 = bit_xor (bit_xor (rotate_right s.e 6) (rotate_right s.e 11)) (rotate_right s.e 25) in
    let choice = bit_xor (bit_and s.e s.f) (bit_and (2 ^ 32 - 1 - s.e) s.g) in
    let temporary1 =
      wrapping_add (wrapping_add (wrapping_add (wrapping_add s.h sum1) choice) constant) word in
    let sum0 = bit_xor (bit_xor (rotate_right s.a 2) (rotate_right s.a 13)) (rotate_right s.a 22) in
    let majority = bit_xor (bit_xor (bit_and s.a s.b) (bit_and s.a s.c)) (bit_and s.b s.c) in
    let temporary2 = wrapping_add sum0 majority in
    record {
      a = wrapping_add temporary1 temporary2;
      b = s.a;
      c = s.b;
      d = s.c;
      e = wrapping_add s.d temporary1;
      f = s.e;
      g = s.f;
      h = s.g;
    }

-- `for index in 0..64`, over the constants and the schedule together
rounds : List ℕ → List ℕ → Words → Words
unfolding round
rounds [] schedule s = s
rounds (k ∷ ks) [] s = s
rounds (k ∷ ks) (w ∷ ws) s = rounds ks ws (round k w s)

unfoldable pub compress : Words → List ℕ → Words
unfolding load_words extend_words rounds
compress state block =
    let schedule = extend_words 48 16 (load_words 16 0 block (replicate 64 0)) in
    let s = rounds round_constants schedule state in
    record {
      a = wrapping_add state.a s.a;
      b = wrapping_add state.b s.b;
      c = wrapping_add state.c s.c;
      d = wrapping_add state.d s.d;
      e = wrapping_add state.e s.e;
      f = wrapping_add state.f s.f;
      g = wrapping_add state.g s.g;
      h = wrapping_add state.h s.h;
    }
