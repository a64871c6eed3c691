-- ===== src/Compat/Builds.antt =====
-- src/game_compat.rs: the signatures of the game's functions, and the builds that are known.
use elden_ring_windowed_hdr.Common.{ℕ, Option, none, some, List, [], ◌∷◌, ◌&&◌, ◌==◌, if◌then◌else◌}
use elden_ring_windowed_hdr.Config.Modes.{codes}
use elden_ring_windowed_hdr.Config.Text.{eq_ignore_ascii_case}
use elden_ring_windowed_hdr.Compat.Scan.{Signature}

abbrev pub availability_signature : Signature
availability_signature = record {
  length = 101;
  segments =
      record { offset = 0; bytes = 0x48 ∷ 0x83 ∷ 0xEC ∷ 0x48 ∷ 0x48 ∷ 0x8B ∷ 0x05 ∷ [] }
      ∷ record {
        offset = 11;
        bytes = 0x48 ∷ 0x33 ∷ 0xC4 ∷ 0x48 ∷ 0x89 ∷ 0x44 ∷ 0x24 ∷ 0x30 ∷ 0xE8 ∷ [];
      }
      ∷ record {
        offset = 24;
        bytes =
            0x84 ∷ 0xC0 ∷ 0x74 ∷ 0x35 ∷ 0x33 ∷ 0xC0 ∷ 0x48 ∷ 0x8D ∷ 0x4C ∷ 0x24 ∷ 0x20 ∷ 0xB2 ∷ 0x01
            ∷ 0x48 ∷ 0x89 ∷ 0x44 ∷ 0x24 ∷ 0x20 ∷ 0x89 ∷ 0x44 ∷ 0x24 ∷ 0x28 ∷ 0xE8 ∷ [];
      }
      ∷ record {
        offset = 51;
        bytes =
            0x84 ∷ 0xC0 ∷ 0x75 ∷ 0x1A ∷ 0x38 ∷ 0x44 ∷ 0x24 ∷ 0x20 ∷ 0x74 ∷ 0x14 ∷ 0xB0 ∷ 0x01 ∷ 0x48
            ∷ 0x8B ∷ 0x4C ∷ 0x24 ∷ 0x30 ∷ 0x48 ∷ 0x33 ∷ 0xCC ∷ 0xE8 ∷ [];
      }
      ∷ record {
        offset = 76;
        bytes =
            0x48 ∷ 0x83 ∷ 0xC4 ∷ 0x48 ∷ 0xC3 ∷ 0x32 ∷ 0xC0 ∷ 0x48 ∷ 0x8B ∷ 0x4C ∷ 0x24 ∷ 0x30 ∷ 0x48
            ∷ 0x33 ∷ 0xCC ∷ 0xE8 ∷ [];
      }
      ∷ record { offset = 96; bytes = 0x48 ∷ 0x83 ∷ 0xC4 ∷ 0x48 ∷ 0xC3 ∷ [] }
      ∷ [];
}

abbrev pub graphics_config_signature : Signature
graphics_config_signature = record {
  length = 259;
  segments =
      record {
        offset = 0;
        bytes =
            0x40 ∷ 0x53 ∷ 0x48 ∷ 0x83 ∷ 0xEC ∷ 0x20 ∷ 0x0F ∷ 0xB6 ∷ 0x02 ∷ 0x48 ∷ 0x8B ∷ 0xDA ∷ 0x88
            ∷ 0x01 ∷ 0x0F ∷ 0xB6 ∷ 0x42 ∷ 0x01 ∷ 0x88 ∷ 0x41 ∷ 0x01 ∷ 0x0F ∷ 0xB6 ∷ 0x42 ∷ 0x02
            ∷ 0x88 ∷ 0x41 ∷ 0x02 ∷ 0x0F ∷ 0xB6 ∷ 0x42 ∷ 0x03 ∷ 0x88 ∷ 0x41 ∷ 0x03 ∷ [];
      }
      ∷ record { offset = 196; bytes = 0x0F ∷ 0xB6 ∷ 0x42 ∷ 0x15 ∷ 0x88 ∷ 0x41 ∷ 0x1B ∷ [] }
      ∷ record {
        offset = 245;
        bytes =
            0x0F ∷ 0xB6 ∷ 0x42 ∷ 0x60 ∷ 0x88 ∷ 0x41 ∷ 0x22 ∷ 0x0F ∷ 0xB6 ∷ 0x42 ∷ 0x61 ∷ 0x88 ∷ 0x41
            ∷ 0x23 ∷ [];
      }
      ∷ [];
}

abbrev pub backend_actual_signature : Signature
backend_actual_signature = record {
  length = 76;
  segments =
      record {
        offset = 0;
        bytes =
            0x40 ∷ 0x53 ∷ 0x57 ∷ 0x48 ∷ 0x83 ∷ 0xEC ∷ 0x28 ∷ 0xF6 ∷ 0x41 ∷ 0x32 ∷ 0x04 ∷ 0x48 ∷ 0x8B
            ∷ 0xFA ∷ 0x48 ∷ 0x8B ∷ 0xD9 ∷ 0x75 ∷ 0x09 ∷ 0x32 ∷ 0xC0 ∷ 0x48 ∷ 0x83 ∷ 0xC4 ∷ 0x28
            ∷ 0x5F ∷ 0x5B ∷ 0xC3 ∷ [];
      }
      ∷ record { offset = 63; bytes = 0x48 ∷ 0x8B ∷ 0x01 ∷ 0xFF ∷ 0x50 ∷ 0x58 ∷ [] }
      ∷ record { offset = 69; bytes = 0x85 ∷ 0xC0 ∷ 0x74 ∷ 0x0E ∷ 0x8B ∷ 0xC8 ∷ 0xE8 ∷ [] }
      ∷ [];
}

pub record KnownTargets : Type 0 where
  pub menu_gate_vtable_rva : ℕ
  pub menu_gate_complete_object_locator_rva : ℕ
  pub menu_gate_invoke_rva : ℕ
  pub menu_gate_entries : List ℕ
  pub common_availability_rva : ℕ
  pub security_cookie_rva : ℕ
  pub graphics_config_apply_rva : ℕ
  pub backend_actual_query_rva : ℕ

pub record KnownBuild : Type 0 where
  pub size : ℕ
  pub sha256 : List ℕ
  pub expected : KnownTargets

-- the names of the builds, which are only logged, are left out
abbrev pub known_builds : List KnownBuild
known_builds =
    record {
      size = 86998096;
      sha256 = codes "34102B1C08BB5F769A724427A6F70FE29B3B732C31CF73693F861C48D3492DDB";
      expected = record {
        menu_gate_vtable_rva = 0x02B12248;
        menu_gate_complete_object_locator_rva = 0x0331D7F8;
        menu_gate_invoke_rva = 0x00961A00;
        menu_gate_entries =
            0x0095E1A0 ∷ 0x00963910 ∷ 0x00961A00 ∷ 0x009654A0 ∷ 0x00960630 ∷ 0x00962530 ∷ [];
        common_availability_rva = 0x00952870;
        security_cookie_rva = 0x03C5ADB0;
        graphics_config_apply_rva = 0x0025C7B0;
        backend_actual_query_rva = 0x01E9D6D0;
      };
    }
    ∷ record {
      size = 87024720;
      sha256 = codes "D1A84083C6C7C7902162FF098F7D86812839AA6B3575959398857E539C488134";
      expected = record {
        menu_gate_vtable_rva = 0x02B152C8;
        menu_gate_complete_object_locator_rva = 0x03320AB8;
        menu_gate_invoke_rva = 0x00962B30;
        menu_gate_entries =
            0x0095F2C0 ∷ 0x00964A30 ∷ 0x00962B30 ∷ 0x00966620 ∷ 0x00961750 ∷ 0x009636B0 ∷ [];
        common_availability_rva = 0x00953A10;
        security_cookie_rva = 0x03C5EE10;
        graphics_config_apply_rva = 0x0025C780;
        backend_actual_query_rva = 0x01E9F4D0;
      };
    }
    ∷ []

abbrev pub find_build : ℕ → List ℕ → List KnownBuild → Option KnownBuild
find_build size hash [] = none
find_build size hash (build ∷ builds) =
    let rest = find_build size hash builds in
    if build.size == size && eq_ignore_ascii_case build.sha256 hash then some build else rest

unfoldable pub known_build : ℕ → List ℕ → Option KnownBuild
known_build size hash = find_build size hash known_builds
