-- ===== src/Patch/Availability.antt =====
-- src/game_hdr.rs: `install_verified_availability_hook`, whose trampoline relocates the load of the
-- security cookie.
use elden_ring_windowed_hdr.Common.{
  ℕ, ◌≡◌, ◌≢◌, sym, ap, subst, ◌∙◌, ◌+◌, ◌-◌, ◌^◌, ◌⊎◌, inl, inr, true, false, not, ◌||◌, Option,
  none, some, List, [], ◌∷◌, ◌++◌, length, length-append, length-le_bytes, take, drop, same_bytes,
  same_bytes_sound, same_bytes_refl, le_bytes, from_le_bytes, ltb, leb, ◌==◌, if◌then◌else◌, Result,
  ok, err, arith, Bool-cases, Option-cases,
}
use elden_ring_windowed_hdr.Patch.Memory.{Memory, read}
use elden_ring_windowed_hdr.Patch.Install.{
  absolute_jump, Os, Process, InstallError, relocation_overflow, relocation_mismatch, install_hook,
}
use elden_ring_windowed_hdr.Patch.Success.{
  Apart, Installed, install_hook-Installed, length-absolute_jump,
}

-- sub rsp, 48h; mov rax, the cookie's address; mov rax, [rax]; xor rax, rsp; then the jump back
unfoldable pub build_availability_trampoline : ℕ → ℕ → List ℕ
build_availability_trampoline security_cookie_address return_address =
    (0x48 ∷ 0x83 ∷ 0xEC ∷ 0x48 ∷ 0x48 ∷ 0xB8 ∷ [])
    ++ (le_bytes 8 security_cookie_address
        ++ ((0x48 ∷ 0x8B ∷ 0x00 ∷ 0x48 ∷ 0x33 ∷ 0xC4 ∷ []) ++ absolute_jump return_address))

-- `checked_add_signed` on usize, where `displacement` holds the bits of an i32
unfoldable pub checked_add_signed : ℕ → ℕ → Option ℕ
checked_add_signed a displacement =
    if ltb displacement (2 ^ 31)
    then if ltb (a + displacement) (2 ^ 64) then some (a + displacement) else none
    else if leb (2 ^ 32 - displacement) a
    then some (a - (2 ^ 32 - displacement))
    else none

-- where the load in the prologue at `target` points
unfoldable pub resolved_cookie : ℕ → List ℕ → Option ℕ
resolved_cookie target prologue =
    checked_add_signed (target + 11) (from_le_bytes (take 4 (drop 7 prologue)))

-- The bytes are compared with the patch and with the prologue before the cookie is resolved; where
-- they decide, `install_hook` returns at once.
unfoldable pub install_verified_availability_hook :
    Os → Process → ℕ → List ℕ → ℕ → ℕ → Process × Result InstallError ℕ
install_verified_availability_hook os p target expected replacement expected_cookie =
    let actual = read p.memory target (length expected) in
    let install =
      install_hook os p target expected replacement
        (build_availability_trampoline expected_cookie (target + length expected)) in
    if same_bytes actual (absolute_jump replacement) || not (same_bytes actual expected)
    then install
    else elim (resolved_cookie target expected) [
      | none ↦ (p, err relocation_overflow)
      | some cookie ↦ if cookie == expected_cookie then install else (p, err relocation_mismatch)
    ]

length-build_availability_trampoline :
    (cookie return_address : ℕ) → length (build_availability_trampoline cookie return_address) ≡ 34
unfolding build_availability_trampoline
length-build_availability_trampoline cookie return_address = omega (
  arith,
  length-append {0} (le_bytes 8 cookie)
      ((0x48 ∷ 0x8B ∷ 0x00 ∷ 0x48 ∷ 0x33 ∷ 0xC4 ∷ []) ++ absolute_jump return_address),
  length-le_bytes 8 cookie,
  length-absolute_jump return_address,
)

-- Where the allocation does not meet the patched bytes, the other threads leave it alone, and the
-- patch was not there before, a successful installation over 14 expected bytes has found exactly
-- those bytes, whose load points at the expected cookie, and leaves the jump to the replacement at
-- the function and, at the saved address, the trampoline that loads that same cookie and jumps
-- back behind the bytes.
pub availability_success :
    (os : Os) (p : Process) (target : ℕ) (expected : List ℕ) (replacement cookie t : ℕ)
    → length expected ≡ 14
    → read p.memory target 14 ≢ absolute_jump replacement
    → ((a : ℕ) → os.allocation ≡ some a → Apart target 14 a 34)
    → ((a : ℕ) (m : Memory) → os.allocation ≡ some a → read (os.meanwhile m) a 34 ≡ read m a 34)
    → (install_verified_availability_hook os p target expected replacement cookie).1 ≡ ok t
    → (read p.memory target 14 ≡ expected)
      × (resolved_cookie target expected ≡ some cookie)
      × Installed
          (install_verified_availability_hook os p target expected replacement cookie).0
          target
          replacement
          t
          (build_availability_trampoline cookie (target + length expected))
unfolding install_verified_availability_hook
availability_success os p target expected replacement cookie t len fresh apart quiet h = (
  g.0,
  pointed (Option-cases (resolved_cookie target expected)),
  subst (λ q. Installed q target replacement t code) (ap (λ r. r.0) (sym same)) g.1,
)
  where
    code : List ℕ
    code = build_availability_trampoline cookie (target + length expected)

    n : 34 ≡ length code
    n = sym (length-build_availability_trampoline cookie (target + length expected))

    same :
        install_verified_availability_hook os p target expected replacement cookie
        ≡ install_hook os p target expected replacement code
    same = ground arith

    g :
        (read p.memory target 14 ≡ expected)
        × Installed (install_hook os p target expected replacement code).0 target replacement t code
    g =
        install_hook-Installed os p target expected replacement t code len fresh
          (λ a e. subst (λ k. Apart target 14 a k) n (apart a e))
          (λ a m e. subst (λ k. read (os.meanwhile m) a k ≡ read m a k) n (quiet a m e))
          (ap (λ r. r.1) (sym same) ∙ h)

    actual : read p.memory target (length expected) ≡ expected
    actual = ap (λ k. read p.memory target k) len ∙ g.0

    matches : same_bytes (read p.memory target (length expected)) expected ≡ true
    matches = ap (λ l. same_bytes l expected) actual ∙ same_bytes_refl expected

    differs :
        same_bytes (read p.memory target (length expected)) (absolute_jump replacement) ≡ false
    differs = unlike (
        Bool-cases
          (same_bytes (read p.memory target (length expected)) (absolute_jump replacement)))
      where
        unlike :
            (same_bytes (read p.memory target (length expected)) (absolute_jump replacement) ≡ true)
              ⊎ (same_bytes (read p.memory target (length expected)) (absolute_jump replacement)
                  ≡ false)
            → same_bytes (read p.memory target (length expected)) (absolute_jump replacement)
              ≡ false
        unlike (inl e) = absurd (fresh (g.0 ∙ (sym actual ∙ same_bytes_sound _ _ e)))
        unlike (inr e) = e

    pointed :
        (resolved_cookie target expected ≡ none)
          ⊎ ((c : ℕ) × (resolved_cookie target expected ≡ some c))
        → resolved_cookie target expected ≡ some cookie
    pointed (inl e) = ground (arith, differs, matches)
    pointed (inr (c, e)) = ground (arith, differs, matches, e)
