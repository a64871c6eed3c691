-- ===== src/Patch/Success.antt =====
-- src/game_hdr.rs: what an installed inline hook looks like.
use elden_ring_windowed_hdr.Common.{
  ℕ, ◌≡◌, ◌≢◌, refl, sym, ap, subst, ◌∙◌, ◌+◌, ◌≤◌, true, false, Option, none, some, List, ◌++◌,
  length, length-append, length-le_bytes, same_bytes, same_bytes_sound, ok, arith, ◌⊎◌, inl, inr,
  Bool-cases,
}
use elden_ring_windowed_hdr.Patch.Memory.{
  Memory, read, write, WriteError, write_memory, read-write, read-write_apart,
}
use elden_ring_windowed_hdr.Patch.Install.{
  absolute_jump, Os, Process, verify, patched, with_trampoline, install_hook, inline_trampoline,
  install_verified_inline_hook,
}

pub length-absolute_jump : (d : ℕ) → length (absolute_jump d) ≡ 14
unfolding absolute_jump
length-absolute_jump d = omega (arith, length-le_bytes 8 d)

-- Two ranges do not meet.
abbrev pub Apart : ℕ → ℕ → ℕ → ℕ → Type 0
Apart a n b m = (a + n ≤ b) ⊎ (b + m ≤ a)

-- The hook is in place: the trampoline is saved, the function starts with the jump to the
-- replacement, and the trampoline holds `code`.
abbrev pub Installed : Process → ℕ → ℕ → ℕ → List ℕ → Type 0
Installed p target replacement trampoline code =
    (p.original ≡ trampoline)
    × (read p.memory target 14 ≡ absolute_jump replacement)
    × (read p.memory trampoline (length code) ≡ code)

module _ (os : Os) (target : ℕ) (expected : List ℕ) (replacement : ℕ) (code : List ℕ) where
  verify_ok :
      (p : Process) (trampoline t : ℕ)
      → (verify os p target expected (absolute_jump replacement) trampoline).1 ≡ ok t
      → (t ≡ trampoline)
        × ((verify os p target expected (absolute_jump replacement) trampoline).0 ≡ p)
        × (read p.memory target 14 ≡ absolute_jump replacement)
  unfolding verify
  verify_ok p trampoline t h = (
    ground arith,
    ground arith,
    ap (λ n. read p.memory target n) (sym (length-absolute_jump replacement))
        ∙ same_bytes_sound _ _ (ground arith),
  )

  patched_ok :
      (p : Process) (e : Option WriteError) (trampoline t : ℕ)
      → (patched os p e target expected (absolute_jump replacement) trampoline).1 ≡ ok t
      → (t ≡ trampoline)
        × ((patched os p e target expected (absolute_jump replacement) trampoline).0
            ≡ record p { memory = os.meanwhile p.memory })
        × (read (os.meanwhile p.memory) target 14 ≡ absolute_jump replacement)
  unfolding patched
  patched_ok p none trampoline t h =
      verify_ok (record p { memory = os.meanwhile p.memory }) trampoline t h
  patched_ok p (some e) trampoline t h = ground arith

  patched_is_none :
      (p : Process) (e : Option WriteError) (trampoline t : ℕ)
      → (patched os p e target expected (absolute_jump replacement) trampoline).1 ≡ ok t
      → e ≡ none
  unfolding patched
  patched_is_none p none trampoline t h = refl
  patched_is_none p (some e) trampoline t h = ground arith

  -- the state in which the patch is checked
  written : Process → ℕ → Process
  written p trampoline = record {
    memory =
        (write_memory os.patching (write p.memory trampoline code) target
          (absolute_jump replacement)).0;
    original = trampoline;
  }

  outcome : Process → ℕ → Option WriteError
  outcome p trampoline =
      (write_memory os.patching (write p.memory trampoline code) target
        (absolute_jump replacement)).1

  written_lem :
      (p : Process) (trampoline : ℕ)
      → Apart target 14 trampoline (length code)
      → outcome p trampoline ≡ none
      → read (written p trampoline).memory trampoline (length code) ≡ code
  unfolding written outcome write_memory
  written_lem p trampoline apart h =
      ap (λ m. read m trampoline (length code)) (ground arith)
      ∙ (read-write_apart (write p.memory trampoline code) target (absolute_jump replacement)
            trampoline (length code) (ground (arith, length-absolute_jump replacement))
          ∙ read-write p.memory trampoline code)

  with_trampoline-patched :
      (p : Process) (trampoline t : ℕ)
      → (with_trampoline os p target expected (absolute_jump replacement) code trampoline).1 ≡ ok t
      → with_trampoline os p target expected (absolute_jump replacement) code trampoline
        ≡ patched os
            (written p trampoline)
            (outcome p trampoline)
            target
            expected
            (absolute_jump replacement)
            trampoline
  unfolding with_trampoline written outcome
  with_trampoline-patched p trampoline t h = ground arith

  pub with_trampoline_ok :
      (p : Process) (trampoline t : ℕ)
      → Apart target 14 trampoline (length code)
      → ((m : Memory)
          → read (os.meanwhile m) trampoline (length code) ≡ read m trampoline (length code))
      → (with_trampoline os p target expected (absolute_jump replacement) code trampoline).1 ≡ ok t
      → Installed
          (with_trampoline os p target expected (absolute_jump replacement) code trampoline).0
          target
          replacement
          t
          code
  unfolding written
  with_trampoline_ok p trampoline t apart quiet h =
      subst (λ q. Installed q target replacement t code) (sym (ap (λ r. r.0) e ∙ checked.1))
        (
          sym checked.0,
          checked.2,
          ap (λ k. read (os.meanwhile (written p trampoline).memory) k (length code)) checked.0
              ∙ (quiet (written p trampoline).memory ∙ kept),
        )
    where
      e :
          with_trampoline os p target expected (absolute_jump replacement) code trampoline
          ≡ patched os
              (written p trampoline)
              (outcome p trampoline)
              target
              expected
              (absolute_jump replacement)
              trampoline
      e = with_trampoline-patched p trampoline t h

      h' :
          (patched os
            (written p trampoline)
            (outcome p trampoline)
            target
            expected
            (absolute_jump replacement)
            trampoline).1
          ≡ ok t
      h' = sym (ap (λ r. r.1) e) ∙ h

      checked :
          (t ≡ trampoline)
          × ((patched os
                (written p trampoline)
                (outcome p trampoline)
                target
                expected
                (absolute_jump replacement)
                trampoline).0
              ≡ record (written p trampoline) {
                memory = os.meanwhile (written p trampoline).memory;
              })
          × (read (os.meanwhile (written p trampoline).memory) target 14
              ≡ absolute_jump replacement)
      checked = patched_ok (written p trampoline) (outcome p trampoline) trampoline t h'

      kept : read (written p trampoline).memory trampoline (length code) ≡ code
      kept = written_lem p trampoline apart (patched_is_none _ _ trampoline t h')

pub length-inline_trampoline :
    (target : ℕ) (expected : List ℕ)
    → length expected ≡ 14
    → length (inline_trampoline target expected) ≡ 28
length-inline_trampoline target expected h = omega (
  arith,
  h,
  length-append {0} expected (absolute_jump (target + length expected)),
  length-absolute_jump (target + length expected),
)

-- the same for any code of the trampoline
pub install_hook-Installed :
    (os : Os) (p : Process) (target : ℕ) (expected : List ℕ) (replacement t : ℕ) (code : List ℕ)
    → length expected ≡ 14
    → read p.memory target 14 ≢ absolute_jump replacement
    → ((a : ℕ) → os.allocation ≡ some a → Apart target 14 a (length code))
    → ((a : ℕ) (m : Memory)
        → os.allocation ≡ some a
        → read (os.meanwhile m) a (length code) ≡ read m a (length code))
    → (install_hook os p target expected replacement code).1 ≡ ok t
    → (read p.memory target 14 ≡ expected)
      × Installed (install_hook os p target expected replacement code).0 target replacement t code
unfolding install_hook
install_hook-Installed os p target expected replacement t code len fresh apart quiet h =
    go os.allocation refl
  where
    fresh' : read p.memory target (length expected) ≢ absolute_jump replacement
    fresh' z = fresh (ap (λ n. read p.memory target n) (sym len) ∙ z)

    different :
        (same_bytes (read p.memory target (length expected)) (absolute_jump replacement) ≡ true)
          ⊎ (same_bytes (read p.memory target (length expected)) (absolute_jump replacement)
              ≡ false)
        → same_bytes (read p.memory target (length expected)) (absolute_jump replacement) ≡ false
    different (inl e) = absurd (fresh' (same_bytes_sound _ _ e))
    different (inr e) = e

    changed :
        same_bytes (read p.memory target (length expected)) (absolute_jump replacement) ≡ false
    changed = different (
        Bool-cases
          (same_bytes (read p.memory target (length expected)) (absolute_jump replacement)))

    found : same_bytes (read p.memory target (length expected)) expected ≡ true
    found = ground (arith, changed)

    reduced :
        (a : ℕ)
        → os.allocation ≡ some a
        → install_hook os p target expected replacement code
          ≡ with_trampoline os p target expected (absolute_jump replacement) code a
    reduced a e = ground (arith, changed, found)

    go :
        (o : Option ℕ)
        → os.allocation ≡ o
        → (read p.memory target 14 ≡ expected)
          × Installed
              (install_hook os p target expected replacement code).0
              target
              replacement
              t
              code
    go none e = ground (arith, changed, found)
    go (some a) e = (
      ap (λ n. read p.memory target n) (sym len) ∙ same_bytes_sound _ _ found,
      subst (λ q. Installed q target replacement t code) (ap (λ r. r.0) (sym (reduced a e)))
          (with_trampoline_ok os target expected replacement code p a t (apart a e)
            (λ m. quiet a m e) (ap (λ r. r.1) (sym (reduced a e)) ∙ h)),
    )

-- Where the allocation does not meet the patched bytes, the other threads leave it alone, and the
-- patch was not there before, a successful installation over 14 expected bytes has found exactly
-- those bytes, and leaves the jump to the replacement at the function and, at the saved address,
-- the expected bytes followed by the jump back behind them.
pub install_success :
    (os : Os) (p : Process) (target : ℕ) (expected : List ℕ) (replacement t : ℕ)
    → length expected ≡ 14
    → read p.memory target 14 ≢ absolute_jump replacement
    → ((a : ℕ) → os.allocation ≡ some a → Apart target 14 a 28)
    → ((a : ℕ) (m : Memory) → os.allocation ≡ some a → read (os.meanwhile m) a 28 ≡ read m a 28)
    → (install_verified_inline_hook os p target expected replacement).1 ≡ ok t
    → (read p.memory target 14 ≡ expected)
      × Installed
          (install_verified_inline_hook os p target expected replacement).0
          target
          replacement
          t
          (expected ++ absolute_jump (target + 14))
unfolding install_verified_inline_hook
install_success os p target expected replacement t len fresh apart quiet h =
    let n = sym (length-inline_trampoline target expected len) in
    let g =
      install_hook-Installed os p target expected replacement t (inline_trampoline target expected)
        len fresh (λ a e. subst (λ k. Apart target 14 a k) n (apart a e))
        (λ a m e. subst (λ k. read (os.meanwhile m) a k ≡ read m a k) n (quiet a m e)) h in
    (
      g.0,
      subst
          (λ k.
            Installed (install_verified_inline_hook os p target expected replacement).0 target
              replacement t (expected ++ absolute_jump (target + k)))
          len g.1,
    )
