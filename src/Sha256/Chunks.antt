-- ===== src/Sha256/Chunks.antt =====
-- src/sha256.rs: what `update` keeps between two calls.
use elden_ring_windowed_hdr.Common.{
  ℕ, ◌+◌, ◌-◌, ◌%◌, ◌^◌, ◌≤◌, ◌<◌, min, ◌≡◌, refl, sym, ap, ap₂, ◌∙◌, subst, Bool-cases, inl, inr,
  true, false, List, [], ◌∷◌, ◌++◌, length, take, drop, ◌==◌, arith, length-drop, length-append,
  length-take, take-append_le, take-append, drop-append, take_all, drop_all,
}
use mathlib.Core.List.{append-nil, append_assoc}
use native.Mathlib.Decide.{dec_lt}
use elden_ring_windowed_hdr.Sha256.Compress.{Words, initial_state, compress}
use elden_ring_windowed_hdr.Sha256.Hasher.{Sha256, new, update, splice, absorb, fill}
use elden_ring_windowed_hdr.Sha256.Blocks.{
  consume, consume_short, consume_step, consume_rest, consume-append,
}

-- The hasher has compressed whole blocks into `state` and holds the bytes `kept`, short of a block.
pub record IsHolding (h : Sha256) (state : Words) (kept : List ℕ) : Type 0 where
  pub state_eq : h.state ≡ state
  pub kept_eq : take h.block_len h.block ≡ kept
  pub kept_length : h.block_len ≡ length kept
  pub short : length kept < 64
  pub block_length : length h.block ≡ 64

pub length-splice :
    (block : List ℕ) (at : ℕ) (bytes : List ℕ)
    → at + length bytes ≤ length block
    → length (splice block at bytes) ≡ length block
length-splice block at bytes h = omega (
  arith,
  length-append {0} (take at block) (bytes ++ drop (at + length bytes) block),
  length-append {0} bytes (drop (at + length bytes) block),
  length-take {0} at block,
  length-drop {0} (at + length bytes) block,
)

-- What stands before the end of a splice.
pub take-splice :
    (block : List ℕ) (at n : ℕ) (bytes : List ℕ)
    → at ≤ length block
    → n ≡ at + length bytes
    → take n (splice block at bytes) ≡ take at block ++ bytes
take-splice block at n bytes h e =
    take-append n (length bytes) (take at block) (bytes ++ drop (at + length bytes) block)
      (omega (arith, length-take {0} at block))
    ∙ ap (λ t. take at block ++ t)
        (take-append_le (length bytes) bytes (drop (at + length bytes) block) (omega arith)
          ∙ take_all (length bytes) bytes (omega arith))

absorb-IsHolding :
    (h : Sha256) (input : List ℕ)
    → length h.block ≡ 64
    → let r = consume h.state input in IsHolding (absorb h input) r.0 r.1
unfolding absorb
absorb-IsHolding h input e = record {
  state_eq = refl;
  kept_eq = take-splice h.block 0 (length rest) rest (omega arith) (omega arith);
  kept_length = refl;
  short = consume_rest h.state input;
  block_length = length-splice h.block 0 rest (omega (arith, consume_rest h.state input)) ∙ e;
}
  where
    rest : List ℕ
    rest = (consume h.state input).1

-- Short of a block, the new bytes are only kept.
fill_short-IsHolding :
    (h : Sha256) (state : Words) (kept input : List ℕ)
    → IsHolding h state kept
    → length kept + length input < 64
    → let r = consume state (kept ++ input) in IsHolding (fill h input) r.0 r.1
unfolding fill
fill_short-IsHolding h state kept input w lt =
    rw
      (
        consume_short state (kept ++ input) (omega (arith, length-append {0} kept input)),
        all,
        take_all (length input) input (omega arith),
        open_block,
      )
      (record {
        state_eq = w.state_eq;
        kept_eq =
            take-splice h.block h.block_len (h.block_len + length input) input (omega arith) refl
            ∙ ap (λ t. t ++ input) w.kept_eq;
        kept_length = omega (arith, length-append {0} kept input);
        short = omega (arith, length-append {0} kept input);
        block_length = length-splice h.block h.block_len input (omega arith) ∙ w.block_length;
      })
  where
    all : min (64 - h.block_len) (length input) ≡ length input
    all = omega arith

    open_block : (h.block_len + length input == 64) ≡ false
    open_block = ground arith

-- the hasher when the new bytes have completed the block and it is compressed
abbrev completed : Sha256 → List ℕ → Sha256
completed h input =
    let block = splice h.block h.block_len (take (64 - h.block_len) input) in
    record h { state = compress h.state block; block = block; block_len = 0 }

fill_full_lem :
    (h : Sha256) (input : List ℕ)
    → h.block_len ≤ 64
    → 64 ≤ h.block_len + length input
    → fill h input ≡ absorb (completed h input) (drop (64 - h.block_len) input)
unfolding fill
fill_full_lem h input le ge = rw (count, full)
  where
    count : min (64 - h.block_len) (length input) ≡ 64 - h.block_len
    count = omega arith

    full : (h.block_len + (64 - h.block_len) == 64) ≡ true
    full = ground arith

completed_block :
    (h : Sha256) (state : Words) (kept input : List ℕ)
    → IsHolding h state kept
    → 64 ≤ length kept + length input
    → (completed h input).block ≡ take 64 (kept ++ input)
completed_block h state kept input w ge =
    ap₂ ◌++◌ w.kept_eq (
      ap (λ t. take n input ++ t)
        (drop_all (h.block_len + length (take n input)) h.block
          (omega (arith, length-take {0} n input)))
      ∙ append-nil (take n input))
    ∙ sym (take-append 64 n kept input (omega arith))
  where
    n : ℕ
    n = 64 - h.block_len

-- A block that the new bytes complete is compressed, and the rest is absorbed.
fill_full-IsHolding :
    (h : Sha256) (state : Words) (kept input : List ℕ)
    → IsHolding h state kept
    → 64 ≤ length kept + length input
    → let r = consume state (kept ++ input) in IsHolding (fill h input) r.0 r.1
fill_full-IsHolding h state kept input w ge =
    rw (fill_full_lem h input (omega arith) (omega arith)) (
      subst (λ r. IsHolding (absorb (completed h input) (drop n input)) r.0 r.1) same
        (absorb-IsHolding (completed h input) (drop n input) (
          length-splice h.block h.block_len (take n input) (omega (arith, length-take {0} n input))
          ∙ w.block_length)))
  where
    n : ℕ
    n = 64 - h.block_len

    same : consume (completed h input).state (drop n input) ≡ consume state (kept ++ input)
    same =
        ap₂ consume (ap₂ compress w.state_eq (completed_block h state kept input w ge))
          (sym (drop-append 64 n kept input (omega arith)))
        ∙ sym (consume_step state (kept ++ input) (omega (arith, length-append {0} kept input)))

-- `length_bytes` is not part of what is held
counted-IsHolding :
    (h : Sha256) (state : Words) (kept : List ℕ) (n : ℕ)
    → IsHolding h state kept
    → IsHolding (record h { length_bytes = n }) state kept
counted-IsHolding h state kept n w = record {
  state_eq = w.state_eq;
  kept_eq = w.kept_eq;
  kept_length = w.kept_length;
  short = w.short;
  block_length = w.block_length;
}

nothing_kept : (kept : List ℕ) → 0 ≡ length kept → kept ≡ []
nothing_kept [] h = refl
nothing_kept (x ∷ kept) h = absurd (omega arith)

absorb_first-IsHolding :
    (h : Sha256) (state : Words) (kept input : List ℕ)
    → IsHolding h state kept
    → h.block_len ≡ 0
    → let r = consume state (kept ++ input) in IsHolding (absorb h input) r.0 r.1
absorb_first-IsHolding h state kept input w z =
    subst (λ r. IsHolding (absorb h input) r.0 r.1)
      (ap₂ consume w.state_eq (sym (ap (λ k. k ++ input) (nothing_kept kept (omega arith)))))
      (absorb-IsHolding h input w.block_length)

fill-IsHolding :
    (h : Sha256) (state : Words) (kept input : List ℕ)
    → IsHolding h state kept
    → let r = consume state (kept ++ input) in IsHolding (fill h input) r.0 r.1
fill-IsHolding h state kept input w = elim (dec_lt (length kept + length input) 64) [
  | yes lt ↦ fill_short-IsHolding h state kept input w lt
  | no ge ↦ fill_full-IsHolding h state kept input w (omega arith)
]

-- `update` reads the new bytes behind those that are kept.
pub update-IsHolding :
    (h : Sha256) (state : Words) (kept input : List ℕ)
    → IsHolding h state kept
    → let r = consume state (kept ++ input) in IsHolding (update h input) r.0 r.1
unfolding update
update-IsHolding h state kept input w = elim (Bool-cases (h.block_len == 0)) [
  | inl first ↦ rw first (absorb_first-IsHolding h' state kept input w' (ground arith))
  | inr more ↦ rw more (fill-IsHolding h' state kept input w')
]
  where
    h' : Sha256
    h' = record h { length_bytes = (h.length_bytes + length input % 2 ^ 64) % 2 ^ 64 }

    w' : IsHolding h' state kept
    w' = counted-IsHolding h state kept h'.length_bytes w

pub update-length_bytes :
    (h : Sha256) (input : List ℕ)
    → (update h input).length_bytes ≡ (h.length_bytes + length input % 2 ^ 64) % 2 ^ 64
unfolding update
update-length_bytes h input = ground arith

pub new-IsHolding : IsHolding new initial_state []
unfolding new
new-IsHolding = record {
  state_eq = refl;
  kept_eq = refl;
  kept_length = refl;
  short = omega arith;
  block_length = refl;
}

-- a hasher that is fed several times
unfoldable pub updates : Sha256 → List (List ℕ) → Sha256
updates h [] = h
updates h (c ∷ cs) = updates (update h c) cs

abbrev pub flatten {ℓ} : {A : Type ℓ} → List (List A) → List A
flatten [] = []
flatten (x ∷ xs) = x ++ flatten xs

pub updates-IsHolding :
    (chunks : List (List ℕ)) (h : Sha256) (state : Words) (kept : List ℕ)
    → IsHolding h state kept
    → let r = consume state (kept ++ flatten chunks) in IsHolding (updates h chunks) r.0 r.1
unfolding updates
updates-IsHolding [] h state kept w = rw (append-nil, consume_short state kept w.short) w
updates-IsHolding (c ∷ cs) h state kept w =
    rw (← append_assoc, consume-append state (kept ++ c) (flatten cs))
      (updates-IsHolding cs (update h c) (consume state (kept ++ c)).0 (consume state (kept ++ c)).1
        (update-IsHolding h state kept c w))

pub updates-length_bytes :
    (chunks : List (List ℕ)) (h : Sha256)
    → h.length_bytes < 2 ^ 64
    → (updates h chunks).length_bytes ≡ (h.length_bytes + length (flatten chunks)) % 2 ^ 64
unfolding updates
updates-length_bytes [] h b = omega arith
updates-length_bytes (c ∷ cs) h b = omega (
  arith,
  updates-length_bytes cs (update h c) (omega (arith, update-length_bytes h c)),
  update-length_bytes h c,
  length-append {0} c (flatten cs),
)
