-- ===== src/Compat/Layout.antt =====
-- src/game_compat.rs: what the reads and the tests on the sections say of the bytes of the image,
-- in terms of its sections and its memory.
use elden_ring_windowed_hdr.Common.{
  ℕ, ◌≡◌, ◌≢◌, ◌≤◌, ◌<◌, ◌+◌, ◌-◌, ◌^◌, ◌⊎◌, inl, inr, Bool, true, some, List, [], ◌∷◌, ok, arith,
  Bool-cases, Memᴰ, refl, ltb, from_le_bytes, bit_and,
}
use elden_ring_windowed_hdr.Patch.Memory.{read}
use elden_ring_windowed_hdr.Compat.Image.{
  Section, LoadedImage, any_section, contains, bytes_at, read_usize, is_executable,
  is_readable_non_executable, va_to_rva, relative_target,
}

-- a section of the image holds a range of bytes
abbrev pub Within : Section → ℕ → ℕ → Type 0
Within s rva length = (s.rva ≤ rva) × (rva + length ≤ s.rva + s.size) × (rva + length < 2 ^ 64)

-- the range lies in a section that can be read and not executed
abbrev pub IsData : LoadedImage → ℕ → ℕ → Type 0
IsData image rva length =
    (s : Section) × Memᴰ s image.sections
    × Within s rva length
    × (bit_and s.characteristics 0x40000000 ≢ 0)
    × (bit_and s.characteristics 0x20000000 ≡ 0)

-- the range lies in a section that can be executed
abbrev pub IsCode : LoadedImage → ℕ → ℕ → Type 0
IsCode image rva length =
    (s : Section) × Memᴰ s image.sections
    × Within s rva length
    × (bit_and s.characteristics 0x20000000 ≢ 0)

-- the eight bytes hold the address at which the loaded image has the target
abbrev pub PointsTo : LoadedImage → ℕ → ℕ → Type 0
PointsTo image slot target =
    (from_le_bytes (read image.memory slot 8) ≡ image.base + target) × (target < image.size)

-- a displacement of 32 bits with a sign leads from the end of an instruction to the target
abbrev pub Leads : ℕ → ℕ → ℕ → Type 0
Leads next displacement target =
    ((displacement < 2 ^ 31) × (target ≡ next + displacement))
    ⊎ ((2 ^ 31 ≤ displacement) × (target + (2 ^ 32 - displacement) ≡ next))

contains-Within : (s : Section) (rva n : ℕ) → contains s rva n ≡ true → Within s rva n
unfolding contains
contains-Within s rva n h = ground (arith, h)

any_section-Memᴰ :
    (f : Section → Bool) (sections : List Section)
    → any_section f sections ≡ true
    → (s : Section) × Memᴰ s sections × (f s ≡ true)
any_section-Memᴰ f [] h = absurd (ground (arith, h))
any_section-Memᴰ f (s ∷ sections) h = elim (Bool-cases (f s)) [
  | inl t ↦ (s, Memᴰ.head refl, t)
  | inr t ↦
      let (s', member, here) = any_section-Memᴰ f sections (ground (arith, h, t)) in
      (s', Memᴰ.tail member, here)
]

pub IsData-sound :
    (image : LoadedImage) (rva n : ℕ)
    → is_readable_non_executable image rva n ≡ true
    → IsData image rva n
unfolding is_readable_non_executable
IsData-sound image rva n h =
    let (s, member, t) = any_section-Memᴰ _ image.sections h in
    (s, member, contains-Within s rva n (ground (arith, t)), ground (arith, t), ground (arith, t))

pub IsCode-sound :
    (image : LoadedImage) (rva n : ℕ) → is_executable image rva n ≡ true → IsCode image rva n
unfolding is_executable
IsCode-sound image rva n h =
    let (s, member, t) = any_section-Memᴰ _ image.sections h in
    (s, member, contains-Within s rva n (ground (arith, t)), ground (arith, t))

pub Leads-sound :
    (next displacement target : ℕ)
    → relative_target next displacement ≡ some target
    → Leads next displacement target
unfolding relative_target
Leads-sound next displacement target h = elim (Bool-cases (ltb displacement (2 ^ 31))) [
  | inl t ↦ inl (ground (arith, t), ground (arith, t, h))
  | inr t ↦ inr (ground (arith, t), ground (arith, t, h))
]

pub bytes_at_sound :
    (image : LoadedImage) (rva n : ℕ) (bytes : List ℕ)
    → bytes_at image rva n ≡ ok bytes
    → bytes ≡ read image.memory rva n
unfolding bytes_at
bytes_at_sound image rva n bytes h = ground (arith, h)

-- a pointer that was read, and found to lead into the image
pub points_sound :
    (image : LoadedImage) (slot pointer target : ℕ)
    → read_usize image slot ≡ ok pointer
    → va_to_rva image pointer ≡ some target
    → PointsTo image slot target
unfolding read_usize bytes_at va_to_rva
points_sound image slot pointer target r v = (ground (arith, r, v), ground (arith, v))
