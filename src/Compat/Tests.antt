-- ===== src/Compat/Tests.antt =====
-- src/game_compat.rs: the theorems on the search at a small image.
use elden_ring_windowed_hdr.Common.{
  ℕ, ◌≢◌, ok, ◌≤◌, ◌++◌, take, drop, replicate, le_bytes, ltb, if◌then◌else◌, ◌≡◌, ◌-◌, ◌+◌, ◌↔◌,
  refl, true, some, List, [], ◌∷◌, get_or, arith, Memᴰ, from_le_bytes, same_bytes,
}
use elden_ring_windowed_hdr.Patch.Memory.{read}
use elden_ring_windowed_hdr.Compat.Image.{
  LoadedImage, read_usize, va_to_rva, is_executable, bytes_at, contains, section_bytes,
  relative_target, is_readable_non_executable,
}
use elden_ring_windowed_hdr.Compat.Scan.{
  find_direct_calls_to, Signature, find_signature, find_in, scan, matches, require_unique,
}
use elden_ring_windowed_hdr.Compat.Targets.{menu_gate_body_matches, resolve_security_cookie}
use elden_ring_windowed_hdr.Compat.Exact.{Match, find_signature_lem, unique_target}
use elden_ring_windowed_hdr.Config.Modes.{codes}
use elden_ring_windowed_hdr.Compat.Vtable.{
  VtableMatch, read_ascii_c_string, is_hdr_menu_lambda_rtti_name, read_entry, validate_locator,
  validate_menu_gate_vtable, resolve_menu_gate_vtable,
}
use elden_ring_windowed_hdr.Compat.References.{loads_of}
use elden_ring_windowed_hdr.Compat.Rtti.{HasEntries, HasLocator, HasName}
use elden_ring_windowed_hdr.Compat.Validated.{resolve_menu_gate_vtable_lem}
use elden_ring_windowed_hdr.Config.Text.{eq_ignore_ascii_case}
use elden_ring_windowed_hdr.Compat.Builds.{KnownBuild, known_build}
use elden_ring_windowed_hdr.Compat.Resolve.{GameTargets, find_gate, bundle, resolve}
use elden_ring_windowed_hdr.Compat.Resolved.{Resolved, SameAs, resolve_lem}
use elden_ring_windowed_hdr.Compat.Caller.{LoadsCookie, cookie_sound}

-- the menu's predicate, some padding, and the start of the availability function
abbrev code : List ℕ
code =
    0x48 ∷ 0x83 ∷ 0xEC ∷ 0x28 ∷ 0xE8 ∷ 0x17 ∷ 0x00 ∷ 0x00 ∷ 0x00 ∷ 0x84 ∷ 0xC0 ∷ 0x0F ∷ 0x94 ∷ 0xC0
    ∷ 0x48 ∷ 0x83 ∷ 0xC4 ∷ 0x28 ∷ 0xC3 ∷ 0xCC ∷ 0xCC ∷ 0xCC ∷ 0xCC ∷ 0xCC ∷ 0xCC ∷ 0xCC ∷ 0xCC
    ∷ 0xCC ∷ 0xCC ∷ 0xCC ∷ 0xCC ∷ 0xCC ∷ 0x48 ∷ 0x83 ∷ 0xEC ∷ 0x48 ∷ 0x48 ∷ 0x8B ∷ 0x05 ∷ 0xD5
    ∷ 0x0F ∷ 0x00 ∷ 0x00 ∷ 0x48 ∷ 0x33 ∷ 0xC4 ∷ []

-- code at 0x1000 and data at 0x2000
abbrev image : LoadedImage
image = record {
  base = 0x140000000;
  size = 0x3000;
  sections =
      record { rva = 0x1000; size = 46; characteristics = 0x60000000 }
      ∷ record { rva = 0x2000; size = 16; characteristics = 0x40000000 }
      ∷ [];
  memory = λ x. get_or code (x - 0x1000) 0;
  range_is_readable = λ rva n. true;
}

-- the start of the availability function, but for the displacement
abbrev prologue : Signature
prologue = record {
  length = 14;
  segments =
      record { offset = 0; bytes = 0x48 ∷ 0x83 ∷ 0xEC ∷ 0x48 ∷ 0x48 ∷ 0x8B ∷ 0x05 ∷ [] }
      ∷ record { offset = 11; bytes = 0x48 ∷ 0x33 ∷ 0xC4 ∷ [] }
      ∷ [];
}

find_signature_lem_example : Memᴰ {A = ℕ} 0x1020 (0x1020 ∷ []) ↔ Match image prologue 0x1020
unfolding find_signature find_in scan matches section_bytes read same_bytes
find_signature_lem_example =
    find_signature_lem image prologue (0x1020 ∷ []) (omega arith) refl 0x1020

unique_target_example :
    Match image prologue 0x1020 × ((r' : ℕ) → Match image prologue r' → r' ≡ 0x1020)
unfolding find_signature find_in scan matches section_bytes read require_unique same_bytes
unique_target_example = unique_target image prologue (0x1020 ∷ []) 0x1020 (omega arith) refl refl

cookie_sound_example : LoadsCookie image 0x1020 0x2000
unfolding resolve_security_cookie bytes_at contains read relative_target from_le_bytes
    is_readable_non_executable same_bytes
cookie_sound_example = cookie_sound image 0x1020 0x2000 refl

-- two instructions that load the address of a vtable, and two functions behind them
abbrev loads : List ℕ
loads =
    0x48 ∷ 0x8D ∷ 0x05 ∷ 0x01 ∷ 0x10 ∷ 0x00 ∷ 0x00 ∷ 0x48 ∷ 0x8D ∷ 0x05 ∷ 0xFA ∷ 0x0F ∷ 0x00 ∷ 0x00
    ∷ 0xC3 ∷ 0xC3 ∷ []

abbrev name : List ℕ
name =
    codes
      ".?AV?$_Func_impl@V<lambda_a057e0ed719cb0e74a1562f63717e283>@@V?$allocator@H@std@@_N$$V@std@@"

abbrev function : ℕ → List ℕ
function rva = le_bytes 8 (0x140000000 + rva)

-- the vtable with its slot, its locator, and the descriptors
abbrev tables : List ℕ
tables =
    function 0x2040
    ++ (function 0x100E
        ++ (function 0x100E
            ++ (function 0x100F
                ++ (function 0x100E
                    ++ (function 0x100E
                        ++ (function 0x100E
                            ++ (replicate 8 0
                                ++ (le_bytes 4 1
                                    ++ (le_bytes 4 0
                                        ++ (le_bytes 4 0
                                            ++ (le_bytes 4 0x2060
                                                ++ (le_bytes 4 0x2058
                                                    ++ (le_bytes 4 0x2040
                                                        ++ (replicate 8 0
                                                            ++ (replicate 16 0
                                                            ++ (name ++ (0 ∷ [])))))))))))))))))

abbrev typed : LoadedImage
typed = record {
  base = 0x140000000;
  size = 0x3000;
  sections =
      record { rva = 0x1000; size = 16; characteristics = 0x60000000 }
      ∷ record { rva = 0x2000; size = 0xCD; characteristics = 0x40000000 }
      ∷ [];
  memory = λ x. if ltb x 0x2000 then get_or loads (x - 0x1000) 0 else get_or tables (x - 0x2000) 0;
  range_is_readable = λ rva n. true;
}

abbrev menu_vtable : VtableMatch
menu_vtable = record {
  rva = 0x2008;
  complete_object_locator_rva = 0x2040;
  entries = 0x100E ∷ 0x100E ∷ 0x100F ∷ 0x100E ∷ 0x100E ∷ 0x100E ∷ [];
  reference_count = 2;
  rtti_name = name;
}

resolve_menu_gate_vtable_lem_example :
    (menu_vtable.reference_count ≡ loads_of typed menu_vtable.rva typed.sections)
    × (2 ≤ menu_vtable.reference_count)
    × HasEntries typed menu_vtable.rva 0x100F menu_vtable.entries
    × HasLocator typed menu_vtable.rva menu_vtable.complete_object_locator_rva
    × HasName typed menu_vtable.complete_object_locator_rva menu_vtable.rtti_name
    × ((other : ℕ) (w : VtableMatch)
        → menu_vtable.rva ≢ other
        → validate_menu_gate_vtable typed other 0x100F ≡ ok w
        → loads_of typed other typed.sections ≡ 0)
unfolding resolve_menu_gate_vtable validate_menu_gate_vtable validate_locator read_entry
    read_ascii_c_string is_hdr_menu_lambda_rtti_name bytes_at read_usize contains section_bytes read
    va_to_rva is_executable is_readable_non_executable relative_target from_le_bytes le_bytes
    same_bytes
resolve_menu_gate_vtable_lem_example = resolve_menu_gate_vtable_lem typed 0x100F menu_vtable refl

-- the three functions, a gate with its caller, and two loads of the vtable
abbrev whole_code : List ℕ
whole_code =
    0x48 ∷ 0x83 ∷ 0xEC ∷ 0x48 ∷ 0x48 ∷ 0x8B ∷ 0x05 ∷ 0x2D ∷ 0x10 ∷ 0x00 ∷ 0x00 ∷ 0x48 ∷ 0x33 ∷ 0xC4
    ∷ 0x48 ∷ 0x89 ∷ 0x44 ∷ 0x24 ∷ 0x30 ∷ 0xE8 ∷ 0x00 ∷ 0x00 ∷ 0x00 ∷ 0x00 ∷ 0x84 ∷ 0xC0 ∷ 0x74
    ∷ 0x35 ∷ 0x33 ∷ 0xC0 ∷ 0x48 ∷ 0x8D ∷ 0x4C ∷ 0x24 ∷ 0x20 ∷ 0xB2 ∷ 0x01 ∷ 0x48 ∷ 0x89 ∷ 0x44
    ∷ 0x24 ∷ 0x20 ∷ 0x89 ∷ 0x44 ∷ 0x24 ∷ 0x28 ∷ 0xE8 ∷ 0x00 ∷ 0x00 ∷ 0x00 ∷ 0x00 ∷ 0x84 ∷ 0xC0
    ∷ 0x75 ∷ 0x1A ∷ 0x38 ∷ 0x44 ∷ 0x24 ∷ 0x20 ∷ 0x74 ∷ 0x14 ∷ 0xB0 ∷ 0x01 ∷ 0x48 ∷ 0x8B ∷ 0x4C
    ∷ 0x24 ∷ 0x30 ∷ 0x48 ∷ 0x33 ∷ 0xCC ∷ 0xE8 ∷ 0x00 ∷ 0x00 ∷ 0x00 ∷ 0x00 ∷ 0x48 ∷ 0x83 ∷ 0xC4
    ∷ 0x48 ∷ 0xC3 ∷ 0x32 ∷ 0xC0 ∷ 0x48 ∷ 0x8B ∷ 0x4C ∷ 0x24 ∷ 0x30 ∷ 0x48 ∷ 0x33 ∷ 0xCC ∷ 0xE8
    ∷ 0x00 ∷ 0x00 ∷ 0x00 ∷ 0x00 ∷ 0x48 ∷ 0x83 ∷ 0xC4 ∷ 0x48 ∷ 0xC3 ∷ 0x48 ∷ 0x83 ∷ 0xEC ∷ 0x28
    ∷ 0xE8 ∷ 0x92 ∷ 0xFF ∷ 0xFF ∷ 0xFF ∷ 0x84 ∷ 0xC0 ∷ 0x0F ∷ 0x94 ∷ 0xC0 ∷ 0x48 ∷ 0x83 ∷ 0xC4
    ∷ 0x28 ∷ 0xC3 ∷ 0xE8 ∷ 0x83 ∷ 0xFF ∷ 0xFF ∷ 0xFF ∷ 0x48 ∷ 0x8D ∷ 0x05 ∷ 0x84 ∷ 0x0F ∷ 0x00
    ∷ 0x00 ∷ 0x48 ∷ 0x8D ∷ 0x05 ∷ 0x7D ∷ 0x0F ∷ 0x00 ∷ 0x00 ∷ 0xC3 ∷ 0x40 ∷ 0x53 ∷ 0x48 ∷ 0x83
    ∷ 0xEC ∷ 0x20 ∷ 0x0F ∷ 0xB6 ∷ 0x02 ∷ 0x48 ∷ 0x8B ∷ 0xDA ∷ 0x88 ∷ 0x01 ∷ 0x0F ∷ 0xB6 ∷ 0x42
    ∷ 0x01 ∷ 0x88 ∷ 0x41 ∷ 0x01 ∷ 0x0F ∷ 0xB6 ∷ 0x42 ∷ 0x02 ∷ 0x88 ∷ 0x41 ∷ 0x02 ∷ 0x0F ∷ 0xB6
    ∷ 0x42 ∷ 0x03 ∷ 0x88 ∷ 0x41 ∷ 0x03 ∷ 0x00 ∷ 0x00 ∷ 0x00 ∷ 0x00 ∷ 0x00 ∷ 0x00 ∷ 0x00 ∷ 0x00
    ∷ 0x00 ∷ 0x00 ∷ 0x00 ∷ 0x00 ∷ 0x00 ∷ 0x00 ∷ 0x00 ∷ 0x00 ∷ 0x00 ∷ 0x00 ∷ 0x00 ∷ 0x00 ∷ 0x00
    ∷ 0x00 ∷ 0x00 ∷ 0x00 ∷ 0x00 ∷ 0x00 ∷ 0x00 ∷ 0x00 ∷ 0x00 ∷ 0x00 ∷ 0x00 ∷ 0x00 ∷ 0x00 ∷ 0x00
    ∷ 0x00 ∷ 0x00 ∷ 0x00 ∷ 0x00 ∷ 0x00 ∷ 0x00 ∷ 0x00 ∷ 0x00 ∷ 0x00 ∷ 0x00 ∷ 0x00 ∷ 0x00 ∷ 0x00
    ∷ 0x00 ∷ 0x00 ∷ 0x00 ∷ 0x00 ∷ 0x00 ∷ 0x00 ∷ 0x00 ∷ 0x00 ∷ 0x00 ∷ 0x00 ∷ 0x00 ∷ 0x00 ∷ 0x00
    ∷ 0x00 ∷ 0x00 ∷ 0x00 ∷ 0x00 ∷ 0x00 ∷ 0x00 ∷ 0x00 ∷ 0x00 ∷ 0x00 ∷ 0x00 ∷ 0x00 ∷ 0x00 ∷ 0x00
    ∷ 0x00 ∷ 0x00 ∷ 0x00 ∷ 0x00 ∷ 0x00 ∷ 0x00 ∷ 0x00 ∷ 0x00 ∷ 0x00 ∷ 0x00 ∷ 0x00 ∷ 0x00 ∷ 0x00
    ∷ 0x00 ∷ 0x00 ∷ 0x00 ∷ 0x00 ∷ 0x00 ∷ 0x00 ∷ 0x00 ∷ 0x00 ∷ 0x00 ∷ 0x00 ∷ 0x00 ∷ 0x00 ∷ 0x00
    ∷ 0x00 ∷ 0x00 ∷ 0x00 ∷ 0x00 ∷ 0x00 ∷ 0x00 ∷ 0x00 ∷ 0x00 ∷ 0x00 ∷ 0x00 ∷ 0x00 ∷ 0x00 ∷ 0x00
    ∷ 0x00 ∷ 0x00 ∷ 0x00 ∷ 0x00 ∷ 0x00 ∷ 0x00 ∷ 0x00 ∷ 0x00 ∷ 0x00 ∷ 0x00 ∷ 0x00 ∷ 0x00 ∷ 0x00
    ∷ 0x00 ∷ 0x00 ∷ 0x00 ∷ 0x00 ∷ 0x00 ∷ 0x00 ∷ 0x00 ∷ 0x00 ∷ 0x00 ∷ 0x00 ∷ 0x00 ∷ 0x00 ∷ 0x00
    ∷ 0x00 ∷ 0x00 ∷ 0x00 ∷ 0x00 ∷ 0x00 ∷ 0x00 ∷ 0x00 ∷ 0x00 ∷ 0x00 ∷ 0x00 ∷ 0x00 ∷ 0x00 ∷ 0x00
    ∷ 0x00 ∷ 0x00 ∷ 0x00 ∷ 0x00 ∷ 0x00 ∷ 0x00 ∷ 0x00 ∷ 0x00 ∷ 0x00 ∷ 0x00 ∷ 0x0F ∷ 0xB6 ∷ 0x42
    ∷ 0x15 ∷ 0x88 ∷ 0x41 ∷ 0x1B ∷ 0x00 ∷ 0x00 ∷ 0x00 ∷ 0x00 ∷ 0x00 ∷ 0x00 ∷ 0x00 ∷ 0x00 ∷ 0x00
    ∷ 0x00 ∷ 0x00 ∷ 0x00 ∷ 0x00 ∷ 0x00 ∷ 0x00 ∷ 0x00 ∷ 0x00 ∷ 0x00 ∷ 0x00 ∷ 0x00 ∷ 0x00 ∷ 0x00
    ∷ 0x00 ∷ 0x00 ∷ 0x00 ∷ 0x00 ∷ 0x00 ∷ 0x00 ∷ 0x00 ∷ 0x00 ∷ 0x00 ∷ 0x00 ∷ 0x00 ∷ 0x00 ∷ 0x00
    ∷ 0x00 ∷ 0x00 ∷ 0x00 ∷ 0x00 ∷ 0x00 ∷ 0x00 ∷ 0x00 ∷ 0x0F ∷ 0xB6 ∷ 0x42 ∷ 0x60 ∷ 0x88 ∷ 0x41
    ∷ 0x22 ∷ 0x0F ∷ 0xB6 ∷ 0x42 ∷ 0x61 ∷ 0x88 ∷ 0x41 ∷ 0x23 ∷ 0x40 ∷ 0x53 ∷ 0x57 ∷ 0x48 ∷ 0x83
    ∷ 0xEC ∷ 0x28 ∷ 0xF6 ∷ 0x41 ∷ 0x32 ∷ 0x04 ∷ 0x48 ∷ 0x8B ∷ 0xFA ∷ 0x48 ∷ 0x8B ∷ 0xD9 ∷ 0x75
    ∷ 0x09 ∷ 0x32 ∷ 0xC0 ∷ 0x48 ∷ 0x83 ∷ 0xC4 ∷ 0x28 ∷ 0x5F ∷ 0x5B ∷ 0xC3 ∷ 0x00 ∷ 0x00 ∷ 0x00
    ∷ 0x00 ∷ 0x00 ∷ 0x00 ∷ 0x00 ∷ 0x00 ∷ 0x00 ∷ 0x00 ∷ 0x00 ∷ 0x00 ∷ 0x00 ∷ 0x00 ∷ 0x00 ∷ 0x00
    ∷ 0x00 ∷ 0x00 ∷ 0x00 ∷ 0x00 ∷ 0x00 ∷ 0x00 ∷ 0x00 ∷ 0x00 ∷ 0x00 ∷ 0x00 ∷ 0x00 ∷ 0x00 ∷ 0x00
    ∷ 0x00 ∷ 0x00 ∷ 0x00 ∷ 0x00 ∷ 0x00 ∷ 0x00 ∷ 0x48 ∷ 0x8B ∷ 0x01 ∷ 0xFF ∷ 0x50 ∷ 0x58 ∷ 0x85
    ∷ 0xC0 ∷ 0x74 ∷ 0x0E ∷ 0x8B ∷ 0xC8 ∷ 0xE8 ∷ []

abbrev whole_tables : List ℕ
whole_tables =
    function 0x2040
    ++ (function 0x108b
        ++ (function 0x108b
            ++ (function 0x1065
                ++ (function 0x108b ++ (function 0x108b ++ (function 0x108b ++ drop 56 tables))))))

abbrev whole : LoadedImage
whole = record {
  base = 0x140000000;
  size = 0x3000;
  sections =
      record { rva = 0x1000; size = 475; characteristics = 0x60000000 }
      ∷ record { rva = 0x2000; size = 0xCD; characteristics = 0x40000000 }
      ∷ [];
  memory = λ x.
      if ltb x 0x2000 then get_or whole_code (x - 0x1000) 0 else get_or whole_tables (x - 0x2000) 0;
  range_is_readable = λ rva n. true;
}

abbrev whole_targets : GameTargets
whole_targets = record {
  menu_gate_vtable_rva = 0x2008;
  menu_gate_complete_object_locator_rva = 0x2040;
  menu_gate_invoke_rva = 0x1065;
  menu_gate_entries = 0x108b ∷ 0x108b ∷ 0x1065 ∷ 0x108b ∷ 0x108b ∷ 0x108b ∷ [];
  menu_gate_invoke_bytes = take 19 (drop 101 whole_code);
  common_availability_rva = 0x1000;
  common_availability_prologue = take 14 whole_code;
  security_cookie_rva = 0x2038;
  graphics_config_apply_rva = 0x108c;
  graphics_config_apply_prologue = take 14 (drop 140 whole_code);
  backend_actual_query_rva = 0x118f;
  backend_actual_query_prologue = take 14 (drop 399 whole_code);
}

resolve_lem_example :
    Resolved whole whole_targets
    × ((build : KnownBuild)
        → known_build 100 (codes "00") ≡ some build
        → SameAs build whole_targets)
unfolding resolve bundle find_gate find_direct_calls_to find_signature find_in scan matches
    require_unique menu_gate_body_matches resolve_security_cookie known_build eq_ignore_ascii_case
    resolve_menu_gate_vtable validate_menu_gate_vtable validate_locator read_entry
    read_ascii_c_string is_hdr_menu_lambda_rtti_name bytes_at read_usize contains section_bytes read
    va_to_rva is_executable is_readable_non_executable relative_target from_le_bytes le_bytes
    same_bytes
resolve_lem_example = resolve_lem whole 100 (codes "00") whole_targets refl
