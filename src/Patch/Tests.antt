-- ===== src/Patch/Tests.antt =====
-- src/game_hdr.rs: the theorems on the installation at a concrete function.
use elden_ring_windowed_hdr.Common.{
  ℕ, ◌≡◌, ◌-◌, ◌+◌, ◌≤◌, ◌⊎◌, refl, true, false, some, List, [], ◌∷◌, ◌++◌, get_or, arith, err,
  same_bytes, le_bytes, from_le_bytes,
}
use elden_ring_windowed_hdr.Patch.Memory.{
  read, write, Outcome, write_memory, protect_failed, flush_failed,
}
use elden_ring_windowed_hdr.Patch.Install.{
  absolute_jump, Os, Process, install_verified_inline_hook, install_hook, with_trampoline, patched,
  verify, patch_failed,
}
use elden_ring_windowed_hdr.Patch.Success.{Installed, install_success}
use elden_ring_windowed_hdr.Patch.Availability.{
  build_availability_trampoline, resolved_cookie, checked_add_signed,
  install_verified_availability_hook, availability_success,
}
use elden_ring_windowed_hdr.Patch.Failure.{install_failure, flush_failure_orphans}

-- the first 14 bytes of the function at 100
abbrev prologue : List ℕ
prologue = 72 ∷ 131 ∷ 236 ∷ 72 ∷ 1 ∷ 2 ∷ 3 ∷ 4 ∷ 5 ∷ 6 ∷ 7 ∷ 8 ∷ 9 ∷ 10 ∷ []

abbrev game : Process
game = record { memory = λ x. get_or prologue (x - 100) 0; original = 0 }

abbrev succeeds : Outcome
succeeds = record { unprotected = true; flushed = true; restored = true }

-- an allocation at 1000, and nothing fails
abbrev willing : Os
willing = record {
  allocation = some 1000;
  made_executable = true;
  patching = succeeds;
  restoring = succeeds;
  meanwhile = λ m. m;
}

abbrev protected_os : Os
protected_os = record willing {
  patching = record { unprotected = false; flushed = true; restored = true };
}

abbrev unflushed_os : Os
unflushed_os = record willing {
  patching = record { unprotected = true; flushed = false; restored = true };
}

elsewhere : (a : ℕ) → willing.allocation ≡ some a → (100 + 14 ≤ a) ⊎ (a + 28 ≤ 100)
elsewhere a e = ground arith

install_success_example :
    (read game.memory 100 14 ≡ prologue)
    × Installed
        (install_verified_inline_hook willing game 100 prologue 0x180001000).0
        100
        0x180001000
        1000
        (prologue ++ absolute_jump (100 + 14))
unfolding install_verified_inline_hook install_hook with_trampoline patched verify write_memory read
    write same_bytes absolute_jump le_bytes
install_success_example =
    install_success willing game 100 prologue 0x180001000 1000 refl (λ h. ground arith) elsewhere
      (λ a m e. refl) refl

install_failure_example :
    ((install_verified_inline_hook protected_os game 100 prologue 0x180001000).0.original ≡ 0)
    × (read
          (install_verified_inline_hook protected_os game 100 prologue 0x180001000).0.memory
          100
          14
        ≡ read game.memory 100 14)
unfolding install_verified_inline_hook install_hook with_trampoline patched verify write_memory read
    write same_bytes absolute_jump le_bytes
install_failure_example =
    install_failure protected_os game 100 prologue 0x180001000 (patch_failed protect_failed) refl
      elsewhere refl refl refl refl refl refl

flush_failure_orphans_example :
    ((install_verified_inline_hook unflushed_os game 100 prologue 0x180001000).1
      ≡ err (patch_failed flush_failed))
    × ((install_verified_inline_hook unflushed_os game 100 prologue 0x180001000).0.original ≡ 0)
    × (read
          (install_verified_inline_hook unflushed_os game 100 prologue 0x180001000).0.memory
          100
          14
        ≡ absolute_jump 0x180001000)
unfolding read same_bytes absolute_jump le_bytes
flush_failure_orphans_example =
    flush_failure_orphans unflushed_os game 100 prologue 0x180001000 1000 refl (omega arith) refl
      refl refl refl refl refl refl

-- the first 14 bytes of the availability function, whose cookie is at 1111
abbrev cookie_prologue : List ℕ
cookie_prologue =
    0x48 ∷ 0x83 ∷ 0xEC ∷ 0x48 ∷ 0x48 ∷ 0x8B ∷ 0x05 ∷ 0xE8 ∷ 0x03 ∷ 0x00 ∷ 0x00 ∷ 0x48 ∷ 0x33 ∷ 0xC4
    ∷ []

abbrev game_2 : Process
game_2 = record { memory = λ x. get_or cookie_prologue (x - 100) 0; original = 0 }

-- the trampoline lies between the function and its cookie
elsewhere_34 : (a : ℕ) → willing.allocation ≡ some a → (100 + 14 ≤ a) ⊎ (a + 34 ≤ 100)
elsewhere_34 a e = ground arith

availability_success_example :
    (read game_2.memory 100 14 ≡ cookie_prologue)
    × (resolved_cookie 100 cookie_prologue ≡ some 1111)
    × Installed
        (install_verified_availability_hook willing game_2 100 cookie_prologue 0x180001000 1111).0
        100
        0x180001000
        1000
        (build_availability_trampoline 1111 (100 + 14))
unfolding install_verified_availability_hook build_availability_trampoline resolved_cookie
    checked_add_signed from_le_bytes install_hook with_trampoline patched verify write_memory read
    write same_bytes absolute_jump le_bytes
availability_success_example =
    availability_success willing game_2 100 cookie_prologue 0x180001000 1111 1000 refl
      (λ h. ground arith) elsewhere_34 (λ a m e. refl) refl
