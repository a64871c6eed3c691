-- ===== src/Patch/Install.antt =====
-- src/game_hdr.rs: `absolute_jump` and `install_verified_inline_hook`.
use elden_ring_windowed_hdr.Common.{
  ℕ, ◌+◌, Bool, not, Option, none, some, List, ◌∷◌, ◌++◌, length, same_bytes, le_bytes, ◌==◌,
  if◌then◌else◌, Result, ok, err,
}
use elden_ring_windowed_hdr.Patch.Memory.{Memory, read, write, Outcome, WriteError, write_memory}

-- `ABSOLUTE_JUMP_LENGTH`
abbrev pub absolute_jump_length : ℕ
absolute_jump_length = 14

-- jmp qword ptr [rip+0], then the 64-bit destination
unfoldable pub absolute_jump : ℕ → List ℕ
absolute_jump destination = 0xFF ∷ 0x25 ∷ 0 ∷ 0 ∷ 0 ∷ 0 ∷ le_bytes 8 destination

-- What Windows and the other threads do while a hook is installed: the address of the new
-- allocation, whether it could be made executable, what the calls around the patch and around its
-- removal answer, and how the other threads change the memory between the patch and its check.
pub record Os : Type 0 where
  pub allocation : Option ℕ
  pub made_executable : Bool
  pub patching : Outcome
  pub restoring : Outcome
  pub meanwhile : Memory → Memory

-- The memory, and the saved address of the original function, 0 while there is none.
pub record Process : Type 0 where
  pub memory : Memory
  pub original : ℕ

pub data InstallError : Type 0 where
  present_without_trampoline : InstallError
  prologue_mismatch : InstallError
  allocation_failed : InstallError
  protection_failed : InstallError
  already_initialized : InstallError
  relocation_overflow : InstallError
  relocation_mismatch : InstallError
  patch_failed : WriteError → InstallError
  verification_failed : Option WriteError → InstallError

-- `compare_exchange(trampoline, null)`
abbrev pub withdraw : ℕ → ℕ → ℕ
withdraw trampoline original = if original == trampoline then 0 else original

-- the check of the installed bytes, once the patch was written without an error
unfoldable pub verify : Os → Process → ℕ → List ℕ → List ℕ → ℕ → Process × Result InstallError ℕ
verify os p target expected patch trampoline =
    let restored = write_memory os.restoring p.memory target expected in
    if not (same_bytes (read p.memory target (length patch)) patch)
    then (
      record { memory = restored.0; original = withdraw trampoline p.original },
      err (verification_failed restored.1),
    )
    else (p, ok trampoline)

-- the check of the installed bytes, or the withdrawal of the trampoline after a failed write
unfoldable pub patched :
    Os → Process → Option WriteError → ℕ → List ℕ → List ℕ → ℕ → Process × Result InstallError ℕ
patched os p (some e) target expected patch trampoline =
    (record p { original = withdraw trampoline p.original }, err (patch_failed e))
patched os p none target expected patch trampoline =
    verify os (record p { memory = os.meanwhile p.memory }) target expected patch trampoline

-- the rest, with an allocation
unfoldable pub with_trampoline :
    Os → Process → ℕ → List ℕ → List ℕ → List ℕ → ℕ → Process × Result InstallError ℕ
with_trampoline os p target expected patch code trampoline =
    let built = write p.memory trampoline code in
    let w = write_memory os.patching built target patch in
    if not os.made_executable
    then (record p { memory = built }, err protection_failed)
    else if not (p.original == 0)
    then (record p { memory = built }, err already_initialized)
    else patched os (record { memory = w.0; original = trampoline }) w.1 target expected patch
        trampoline

-- the trampoline of `install_verified_inline_hook`
abbrev pub inline_trampoline : ℕ → List ℕ → List ℕ
inline_trampoline target expected = expected ++ absolute_jump (target + length expected)

-- The installation, with the code of the trampoline as an argument. `expected` has 14 bytes.
unfoldable pub install_hook :
    Os → Process → ℕ → List ℕ → ℕ → List ℕ → Process × Result InstallError ℕ
install_hook os p target expected replacement code =
    let patch = absolute_jump replacement in
    let actual = read p.memory target (length expected) in
    if same_bytes actual patch
    then if p.original == 0 then (p, err present_without_trampoline) else (p, ok p.original)
    else if not (same_bytes actual expected)
    then (p, err prologue_mismatch)
    else elim os.allocation [
      | none ↦ (p, err allocation_failed)
      | some trampoline ↦ with_trampoline os p target expected patch code trampoline
    ]

unfoldable pub install_verified_inline_hook :
    Os → Process → ℕ → List ℕ → ℕ → Process × Result InstallError ℕ
install_verified_inline_hook os p target expected replacement =
    install_hook os p target expected replacement (inline_trampoline target expected)
