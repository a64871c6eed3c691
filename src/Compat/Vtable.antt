-- ===== src/Compat/Vtable.antt =====
-- src/game_compat.rs: the vtable of the menu gate and its run-time type information.
use elden_ring_windowed_hdr.Common.{
  ℕ, zero, suc, ◌+◌, ◌-◌, ◌*◌, ◌%◌, min, Bool, true, not, ◌&&◌, ◌||◌, Option, none, some, List, [],
  ◌∷◌, length, take, drop, get_or, ltb, leb, ◌==◌, if◌then◌else◌, Result, ok, err, ◌>>=◌, ◌>>◌,
  guard, ok_or, same_bytes, from_le_bytes, bit_and,
}
use elden_ring_windowed_hdr.Config.Modes.{codes}
use elden_ring_windowed_hdr.Compat.Image.{
  Section, LoadedImage, CompatError, misaligned_vtable, no_locator_slot, vtable_not_data,
  not_the_gate, locator_outside, locator_not_data, bad_locator, bad_descriptors, string_outside,
  string_unterminated, string_not_ascii, not_the_lambda, entry_outside, entry_not_code,
  few_references, not_unique, checked_sub, contains, is_readable, bytes_at, read_usize,
  is_executable, is_executable_section, is_readable_non_executable, va_to_rva, relative_target,
  same_target, section_bytes,
}

pub record VtableMatch : Type 0 where
  pub rva : ℕ
  pub complete_object_locator_rva : ℕ
  pub entries : List ℕ
  pub reference_count : ℕ
  pub rtti_name : List ℕ

-- the bytes before the first zero
abbrev pub before_zero : List ℕ → Option (List ℕ)
before_zero [] = none
before_zero (b ∷ bytes) =
    let rest = before_zero bytes in
    if b == 0 then some [] else elim rest [ none ↦ none | some name ↦ some (b ∷ name) ]

abbrev pub is_ascii : List ℕ → Bool
is_ascii [] = true
is_ascii (b ∷ bytes) = ltb b 128 && is_ascii bytes

abbrev pub find_section : ℕ → List Section → Option Section
find_section rva [] = none
find_section rva (s ∷ sections) =
    let rest = find_section rva sections in
    if contains s rva 1 && is_readable s then some s else rest

unfoldable pub read_ascii_c_string : LoadedImage → ℕ → ℕ → Result CompatError (List ℕ)
read_ascii_c_string image rva maximum =
    ok_or (find_section rva image.sections) string_outside >>= λ s.
    bytes_at image rva (min (s.rva + s.size - rva) maximum) >>= λ bytes.
    ok_or (before_zero bytes) string_unterminated >>= λ name.
    guard (is_ascii name) string_not_ascii >> ok name

-- `u8::is_ascii_hexdigit`
abbrev pub is_hex_digit : ℕ → Bool
is_hex_digit b = (leb 48 b && leb b 57) || ((leb 65 b && leb b 70) || (leb 97 b && leb b 102))

abbrev pub all_hex : List ℕ → Bool
all_hex [] = true
all_hex (b ∷ bytes) = is_hex_digit b && all_hex bytes

-- The prefix has 26 bytes, the suffix 34 and the hash between them 32.
unfoldable pub is_hdr_menu_lambda_rtti_name : List ℕ → Bool
is_hdr_menu_lambda_rtti_name name =
    length name == 92
    && (same_bytes (take 26 name) (codes ".?AV?$_Func_impl@V<lambda_")
        && (all_hex (take 32 (drop 26 name))
            && same_bytes (drop 58 name) (codes ">@@V?$allocator@H@std@@_N$$V@std@@")))

-- a field of the Complete Object Locator
abbrev pub dword : ℕ → List ℕ → ℕ
dword index locator = from_le_bytes (take 4 (drop (4 * index) locator))

-- the checks of one entry
unfoldable pub read_entry : LoadedImage → ℕ → ℕ → Result CompatError ℕ
read_entry image vtable_rva index = read_usize image (vtable_rva + 8 * index) >>= λ pointer.
    ok_or (va_to_rva image pointer) entry_outside >>= λ rva.
    guard (is_executable image rva 1) entry_not_code >> ok rva

-- the loop over the entries, from an index on
abbrev pub read_entries : LoadedImage → ℕ → ℕ → ℕ → Result CompatError (List ℕ)
read_entries image vtable_rva zero index = ok []
read_entries image vtable_rva (suc count) index = read_entry image vtable_rva index >>= λ rva.
    read_entries image vtable_rva count (suc index) >>= λ rest. ok (rva ∷ rest)

abbrev pub locator_fields : ℕ → List ℕ → Bool
locator_fields locator_rva locator =
    dword 0 locator == 1
    && (dword 1 locator == 0 && (dword 2 locator == 0 && dword 5 locator == locator_rva))

abbrev pub has_descriptors : LoadedImage → List ℕ → Bool
has_descriptors image locator =
    is_readable_non_executable image (dword 3 locator) 17
    && is_readable_non_executable image (dword 4 locator) 4

-- from the Complete Object Locator on
unfoldable pub validate_locator : LoadedImage → ℕ → ℕ → Result CompatError VtableMatch
validate_locator image vtable_rva locator_rva =
    guard (is_readable_non_executable image locator_rva 24) locator_not_data
    >> (bytes_at image locator_rva 24 >>= λ locator.
        guard (locator_fields locator_rva locator) bad_locator
        >> (guard (has_descriptors image locator) bad_descriptors
            >> (read_ascii_c_string image (dword 3 locator + 16) 160 >>= λ name.
                guard (is_hdr_menu_lambda_rtti_name name) not_the_lambda
                >> (read_entries image vtable_rva 6 0 >>= λ entries. ok (record {
                  rva = vtable_rva;
                  complete_object_locator_rva = locator_rva;
                  entries = entries;
                  reference_count = 1;
                  rtti_name = name;
                })))))

unfoldable pub validate_menu_gate_vtable : LoadedImage → ℕ → ℕ → Result CompatError VtableMatch
validate_menu_gate_vtable image vtable_rva gate_rva =
    guard (vtable_rva % 8 == 0) misaligned_vtable
    >> (ok_or (checked_sub vtable_rva 8) no_locator_slot >>= λ locator_slot_rva.
        guard (is_readable_non_executable image locator_slot_rva 56) vtable_not_data
        >> (read_usize image (vtable_rva + 8 * 2) >>= λ gate_pointer.
            guard (same_target (va_to_rva image gate_pointer) gate_rva) not_the_gate
            >> (read_usize image locator_slot_rva >>= λ locator_pointer.
                ok_or (va_to_rva image locator_pointer) locator_outside >>= λ locator_rva.
                validate_locator image vtable_rva locator_rva)))

-- the tests on the seven bytes of a LEA, and where it points
abbrev pub lea_target : ℕ → List ℕ → Option ℕ
lea_target rva bytes =
    if not (leb 7 (length bytes))
      || (not (bit_and (get_or bytes 0 0) 0xF8 == 0x48)
          || (not (get_or bytes 1 0 == 0x8D) || not (bit_and (get_or bytes 2 0) 0xC7 == 0x05)))
    then none
    else relative_target (rva + 7) (from_le_bytes (take 4 (drop 3 bytes)))

-- `let Ok(_) = _ else { continue }`
abbrev pub ok_only : Result CompatError VtableMatch → Option VtableMatch
ok_only (err e) = none
ok_only (ok v) = some v

abbrev pub gate_slot : LoadedImage → ℕ → ℕ → Result CompatError ℕ → Option VtableMatch
gate_slot image gate_rva target_rva (err e) = none
gate_slot image gate_rva target_rva (ok gate_pointer) =
    if not (same_target (va_to_rva image gate_pointer) gate_rva)
    then none
    else ok_only (validate_menu_gate_vtable image target_rva gate_rva)

abbrev pub lea_checks : LoadedImage → ℕ → ℕ → Option ℕ → Option VtableMatch
lea_checks image gate_rva target_rva none = none
lea_checks image gate_rva target_rva (some locator_slot_rva) =
    if not (target_rva % 8 == 0) || not (is_readable_non_executable image locator_slot_rva 56)
    then none
    else gate_slot image gate_rva target_rva (read_usize image (target_rva + 8 * 2))

-- one round of the inner loop: the vtable that the bytes point at, if it is the gate's
abbrev pub candidate_of : LoadedImage → ℕ → Option ℕ → Option VtableMatch
candidate_of image gate_rva none = none
candidate_of image gate_rva (some target_rva) =
    lea_checks image gate_rva target_rva (checked_sub target_rva 8)

abbrev pub add_candidate : VtableMatch → List VtableMatch → List VtableMatch
add_candidate v [] = v ∷ []
add_candidate v (c ∷ candidates) =
    let rest = add_candidate v candidates in
    if c.rva == v.rva
    then record c { reference_count = c.reference_count + 1 } ∷ candidates
    else c ∷ rest

abbrev pub add_found : Option VtableMatch → List VtableMatch → List VtableMatch
add_found none candidates = candidates
add_found (some v) candidates = add_candidate v candidates

-- the loop over the offsets of a section
abbrev pub scan_vtables : LoadedImage → ℕ → List ℕ → ℕ → List VtableMatch → List VtableMatch
scan_vtables image gate_rva [] rva candidates = candidates
scan_vtables image gate_rva (b ∷ bytes) rva candidates =
    scan_vtables image gate_rva bytes (rva + 1)
      (add_found (candidate_of image gate_rva (lea_target rva (b ∷ bytes))) candidates)

-- the loop over the sections
abbrev pub find_vtables :
    LoadedImage → ℕ → List Section → List VtableMatch → Result CompatError (List VtableMatch)
find_vtables image gate_rva [] candidates = ok candidates
find_vtables image gate_rva (s ∷ sections) candidates =
    if not (is_executable_section s)
    then find_vtables image gate_rva sections candidates
    else (section_bytes image s >>= λ bytes.
        find_vtables image gate_rva sections (scan_vtables image gate_rva bytes s.rva candidates))

abbrev pub only_candidate : List VtableMatch → Result CompatError VtableMatch
only_candidate [] = err not_unique
only_candidate (c ∷ []) = if ltb c.reference_count 2 then err few_references else ok c
only_candidate (c ∷ d ∷ more) = err not_unique

unfoldable pub resolve_menu_gate_vtable : LoadedImage → ℕ → Result CompatError VtableMatch
resolve_menu_gate_vtable image gate_rva =
    find_vtables image gate_rva image.sections [] >>= λ candidates. only_candidate candidates
