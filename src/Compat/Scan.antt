-- ===== src/Compat/Scan.antt =====
-- src/game_compat.rs: the search of the executable sections.
use elden_ring_windowed_hdr.Common.{
  ℕ, ◌+◌, Bool, true, false, not, ◌&&◌, none, some, List, [], ◌∷◌, ◌++◌, length, take, drop, leb,
  ◌==◌, if◌then◌else◌, Result, ok, err, same_bytes, get_or, from_le_bytes,
}
use elden_ring_windowed_hdr.Compat.Image.{
  Section, LoadedImage, CompatError, section_bytes, is_executable_section, checked_add, not_unique,
  relative_target, same_target,
}

pub record SignatureSegment : Type 0 where
  pub offset : ℕ
  pub bytes : List ℕ

pub record Signature : Type 0 where
  pub length : ℕ
  pub segments : List SignatureSegment

-- one segment of a signature of the given length
abbrev pub segment_matches : ℕ → List ℕ → SignatureSegment → Bool
segment_matches total bytes s = elim (checked_add s.offset (length s.bytes)) [
  | none ↦ false
  | some end ↦ leb end total && same_bytes (take (length s.bytes) (drop s.offset bytes)) s.bytes
]

abbrev pub all_match : ℕ → List ℕ → List SignatureSegment → Bool
all_match total bytes [] = true
all_match total bytes (s ∷ segments) =
    segment_matches total bytes s && all_match total bytes segments

unfoldable pub matches : Signature → List ℕ → Bool
matches g bytes = leb g.length (length bytes) && all_match g.length bytes g.segments

-- The loop over the offsets of one section: the RVAs at which a window of `width` bytes passes the
-- test; `rva` is that of the first byte.
unfoldable pub scan : (ℕ → List ℕ → Bool) → ℕ → List ℕ → ℕ → List ℕ
scan test width [] rva = []
scan test width (b ∷ bytes) rva =
    let rest = scan test width bytes (rva + 1) in
    if leb width (length (b ∷ bytes)) && test rva (take width (b ∷ bytes)) then rva ∷ rest else rest

-- the hits of a section before those of the sections behind it
abbrev pub collect : List ℕ → Result CompatError (List ℕ) → Result CompatError (List ℕ)
collect hits (ok more) = ok (hits ++ more)
collect hits (err e) = err e

-- the loop over the sections
unfoldable pub find_in :
    (ℕ → List ℕ → Bool) → ℕ → LoadedImage → List Section → Result CompatError (List ℕ)
find_in test width image [] = ok []
find_in test width image (s ∷ sections) =
    let others = find_in test width image sections in
    if not (is_executable_section s) then others else elim (section_bytes image s) [
      | err e ↦ err e
      | ok bytes ↦ collect (scan test width bytes s.rva) others
    ]

unfoldable pub find_signature : LoadedImage → Signature → Result CompatError (List ℕ)
find_signature image g = find_in (λ rva bytes. matches g bytes) g.length image image.sections

-- the CALL at an RVA, with the 32-bit displacement behind it
abbrev pub calls : ℕ → ℕ → List ℕ → Bool
calls target_rva call_rva bytes =
    get_or bytes 0 0 == 0xE8
    && same_target (relative_target (call_rva + 5) (from_le_bytes (take 4 (drop 1 bytes))))
        target_rva

unfoldable pub find_direct_calls_to : LoadedImage → ℕ → Result CompatError (List ℕ)
find_direct_calls_to image target_rva = find_in (calls target_rva) 5 image image.sections

unfoldable pub require_unique : List ℕ → Result CompatError ℕ
require_unique [] = err not_unique
require_unique (single ∷ []) = ok single
require_unique (x ∷ y ∷ more) = err not_unique
