-- ===== src/Compat/Targets.antt =====
-- src/game_compat.rs: the checks on the code that was found.
use elden_ring_windowed_hdr.Common.{
  ℕ, ◌+◌, ◌%◌, Bool, false, not, ◌&&◌, ◌||◌, Option, none, some, List, [], ◌∷◌, take, drop, get_or,
  ◌==◌, if◌then◌else◌, Result, ok, err, same_bytes, from_le_bytes,
}
use elden_ring_windowed_hdr.Compat.Image.{
  LoadedImage, CompatError, no_prologue, relocation_overflow, invalid_cookie, bytes_at,
  relative_target, same_target, is_readable_non_executable,
}

-- the 19 bytes of the predicate around its call
abbrev pub is_gate_body : List ℕ → Bool
is_gate_body body =
    same_bytes (take 4 body) (0x48 ∷ 0x83 ∷ 0xEC ∷ 0x28 ∷ [])
    && get_or body 4 0 == 0xE8
    && same_bytes (drop 9 body)
        (0x84 ∷ 0xC0 ∷ 0x0F ∷ 0x94 ∷ 0xC0 ∷ 0x48 ∷ 0x83 ∷ 0xC4 ∷ 0x28 ∷ 0xC3 ∷ [])

abbrev pub gate_body_test : ℕ → ℕ → Result CompatError (List ℕ) → Result CompatError Bool
gate_body_test gate_rva availability_rva (err e) = err e
gate_body_test gate_rva availability_rva (ok body) =
    if not (is_gate_body body)
    then ok false
    else ok (
        same_target (relative_target (gate_rva + 9) (from_le_bytes (take 4 (drop 5 body))))
          availability_rva)

unfoldable pub menu_gate_body_matches : LoadedImage → ℕ → ℕ → Result CompatError Bool
menu_gate_body_matches image gate_rva availability_rva =
    gate_body_test gate_rva availability_rva (bytes_at image gate_rva 19)

abbrev pub cookie_test : LoadedImage → Option ℕ → Result CompatError ℕ
cookie_test image none = err relocation_overflow
cookie_test image (some cookie_rva) =
    if not (cookie_rva % 8 == 0) || not (is_readable_non_executable image cookie_rva 8)
    then err invalid_cookie
    else ok cookie_rva

abbrev pub prologue_test : LoadedImage → ℕ → Result CompatError (List ℕ) → Result CompatError ℕ
prologue_test image availability_rva (err e) = err e
prologue_test image availability_rva (ok prologue) =
    if not (same_bytes (take 7 prologue) (0x48 ∷ 0x83 ∷ 0xEC ∷ 0x48 ∷ 0x48 ∷ 0x8B ∷ 0x05 ∷ []))
      || not (same_bytes (drop 11 prologue) (0x48 ∷ 0x33 ∷ 0xC4 ∷ []))
    then err no_prologue
    else cookie_test image
        (relative_target (availability_rva + 11) (from_le_bytes (take 4 (drop 7 prologue))))

unfoldable pub resolve_security_cookie : LoadedImage → ℕ → Result CompatError ℕ
resolve_security_cookie image availability_rva =
    prologue_test image availability_rva (bytes_at image availability_rva 14)
