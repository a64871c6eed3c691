-- ===== src/Compat/Image.antt =====
-- src/game_compat.rs: the sections of the loaded image, and reads that stay within them.
use elden_ring_windowed_hdr.Common.{
  ℕ, ◌+◌, ◌-◌, ◌^◌, Bool, false, not, ◌&&◌, ◌||◌, Option, none, some, List, [], ◌∷◌, ltb, leb, ◌==◌,
  if◌then◌else◌, Result, ok, err, bit_and, from_le_bytes,
}
use elden_ring_windowed_hdr.Patch.Memory.{Memory, read}

pub record Section : Type 0 where
  pub rva : ℕ
  pub size : ℕ
  pub characteristics : ℕ

-- The byte at each RVA, and what `range_is_readable` answers about a range of RVAs.
pub record LoadedImage : Type 0 where
  pub base : ℕ
  pub size : ℕ
  pub sections : List Section
  pub memory : Memory
  pub range_is_readable : ℕ → ℕ → Bool

pub data CompatError : Type 0 where
  section_unreadable : CompatError
  outside_sections : CompatError
  unreadable : CompatError
  not_unique : CompatError
  no_prologue : CompatError
  relocation_overflow : CompatError
  invalid_cookie : CompatError
  callers : CompatError
  misaligned_vtable : CompatError
  no_locator_slot : CompatError
  vtable_not_data : CompatError
  not_the_gate : CompatError
  locator_outside : CompatError
  locator_not_data : CompatError
  bad_locator : CompatError
  bad_descriptors : CompatError
  string_outside : CompatError
  string_unterminated : CompatError
  string_not_ascii : CompatError
  not_the_lambda : CompatError
  entry_outside : CompatError
  entry_not_code : CompatError
  few_references : CompatError
  unexpected_rva : CompatError
  unexpected_entries : CompatError

-- `checked_add` on usize
abbrev pub checked_add : ℕ → ℕ → Option ℕ
checked_add a b = if ltb (a + b) (2 ^ 64) then some (a + b) else none

-- `checked_sub` on usize
abbrev pub checked_sub : ℕ → ℕ → Option ℕ
checked_sub a b = if leb b a then some (a - b) else none

-- `zip` and the comparison of the two ends
abbrev pub ends_within : Option ℕ → Option ℕ → Bool
ends_within none other = false
ends_within (some end) none = false
ends_within (some end) (some section_end) = leb end section_end

unfoldable pub contains : Section → ℕ → ℕ → Bool
contains s rva length =
    leb s.rva rva && ends_within (checked_add rva length) (checked_add s.rva s.size)

-- `IMAGE_SCN_MEM_READ`
abbrev pub is_readable : Section → Bool
is_readable s = not (bit_and s.characteristics 0x40000000 == 0)

-- `IMAGE_SCN_MEM_EXECUTE`
abbrev pub is_executable_section : Section → Bool
is_executable_section s = not (bit_and s.characteristics 0x20000000 == 0)

abbrev pub any_section : (Section → Bool) → List Section → Bool
any_section f [] = false
any_section f (s ∷ sections) = f s || any_section f sections

unfoldable pub section_bytes : LoadedImage → Section → Result CompatError (List ℕ)
section_bytes image s =
    if not (is_readable s) || not (image.range_is_readable s.rva s.size)
    then err section_unreadable
    else ok (read image.memory s.rva s.size)

unfoldable pub bytes_at : LoadedImage → ℕ → ℕ → Result CompatError (List ℕ)
bytes_at image rva length =
    if not (any_section (λ s. contains s rva length && is_readable s) image.sections)
    then err outside_sections
    else if not (image.range_is_readable rva length)
    then err unreadable
    else ok (read image.memory rva length)

abbrev pub map_ok : (List ℕ → ℕ) → Result CompatError (List ℕ) → Result CompatError ℕ
map_ok f (ok bytes) = ok (f bytes)
map_ok f (err e) = err e

unfoldable pub read_usize : LoadedImage → ℕ → Result CompatError ℕ
read_usize image rva = map_ok from_le_bytes (bytes_at image rva 8)

unfoldable pub is_executable : LoadedImage → ℕ → ℕ → Bool
is_executable image rva length =
    any_section (λ s. contains s rva length && is_executable_section s) image.sections

unfoldable pub is_readable_non_executable : LoadedImage → ℕ → ℕ → Bool
is_readable_non_executable image rva length =
    any_section (λ s. contains s rva length && is_readable s && not (is_executable_section s))
      image.sections

unfoldable pub va_to_rva : LoadedImage → ℕ → Option ℕ
va_to_rva image address = elim (checked_sub address image.base) [
  | none ↦ none
  | some rva ↦ if ltb rva image.size then some rva else none
]

-- `relative_target`, where `displacement` holds the bits of an i32
unfoldable pub relative_target : ℕ → ℕ → Option ℕ
relative_target next_instruction_rva displacement =
    if ltb displacement (2 ^ 31)
    then checked_add next_instruction_rva displacement
    else checked_sub next_instruction_rva (2 ^ 32 - displacement)

-- `== Some(rva)`
abbrev pub same_target : Option ℕ → ℕ → Bool
same_target none rva = false
same_target (some target) rva = target == rva
