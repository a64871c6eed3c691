-- ===== src/Patch/Failure.antt =====
-- src/game_hdr.rs: what a failed installation of an inline hook leaves behind.
use elden_ring_windowed_hdr.Common.{
  ℕ, ◌≡◌, ◌≢◌, refl, sym, ap, subst, ◌∙◌, true, false, Option, none, some, List, [], ◌∷◌, length,
  same_bytes, same_bytes_sound, same_bytes_refl, ◌==◌, Result, err, arith, ◌⊎◌, inl, inr,
  Bool-cases, Option-cases,
}
use elden_ring_windowed_hdr.Patch.Memory.{
  Memory, read, write, Outcome, WriteError, write_memory, read-write, read-write_apart,
  flush_failed, is_empty,
}
use elden_ring_windowed_hdr.Patch.Install.{
  absolute_jump, Os, Process, InstallError, verify, patched, with_trampoline, install_hook,
  inline_trampoline, install_verified_inline_hook, patch_failed, protection_failed,
  already_initialized,
}
use elden_ring_windowed_hdr.Patch.Success.{Apart, length-absolute_jump, length-inline_trampoline}

absolute_jump-filled : (d : ℕ) → is_empty (absolute_jump d) ≡ false
unfolding absolute_jump
absolute_jump-filled d = refl

-- a write over the expected bytes, when nothing fails
write_memory_all :
    (o : Outcome) (m : Memory) (address : ℕ) (bytes : List ℕ)
    → address ≢ 0
    → is_empty bytes ≡ false
    → o.unprotected ≡ true
    → o.flushed ≡ true
    → o.restored ≡ true
    → write_memory o m address bytes ≡ (write m address bytes, none)
unfolding write_memory
write_memory_all o m address bytes nz ne u f r = ground arith

-- a write that can fail only before it changes the memory
write_memory_or :
    (o : Outcome) (m : Memory) (address : ℕ) (bytes : List ℕ)
    → o.flushed ≡ true
    → o.restored ≡ true
    → ((write_memory o m address bytes).1 ≡ none × address ≢ 0)
      ⊎ ((write_memory o m address bytes).1 ≢ none × (write_memory o m address bytes).0 ≡ m)
unfolding write_memory
write_memory_or o m address bytes f r = ground arith

module _ (os : Os) (target : ℕ) (expected : List ℕ) (replacement : ℕ) (code : List ℕ)
    (len : length expected ≡ 14) where
  verify_err :
      (p : Process) (trampoline : ℕ) (e : InstallError)
      → target ≢ 0
      → os.restoring.unprotected ≡ true
      → os.restoring.flushed ≡ true
      → os.restoring.restored ≡ true
      → p.original ≡ trampoline
      → (verify os p target expected (absolute_jump replacement) trampoline).1 ≡ err e
      → ((verify os p target expected (absolute_jump replacement) trampoline).0.original ≡ 0)
        × (read
              (verify os p target expected (absolute_jump replacement) trampoline).0.memory
              target
              14
            ≡ expected)
  unfolding verify
  verify_err p trampoline e nz u f r at h = (
    ground arith,
    ap (λ m. read m target 14) rewritten
        ∙ (ap (λ n. read (write p.memory target expected) target n) (sym len)
            ∙ read-write p.memory target expected),
  )
    where
      filled : (bytes : List ℕ) → length bytes ≡ 14 → is_empty bytes ≡ false
      filled [] z = ground arith
      filled (b ∷ bytes) z = refl

      rewritten :
          (verify os p target expected (absolute_jump replacement) trampoline).0.memory
          ≡ write p.memory target expected
      rewritten = ground (
        arith,
        write_memory_all os.restoring p.memory target expected nz (filled expected len) u f r,
      )

  -- after the first write
  patched_err :
      (p : Process) (o : Option WriteError) (trampoline : ℕ) (e : InstallError)
      → os.restoring.unprotected ≡ true
      → os.restoring.flushed ≡ true
      → os.restoring.restored ≡ true
      → p.original ≡ trampoline
      → (o ≡ none × target ≢ 0) ⊎ (o ≢ none × read p.memory target 14 ≡ expected)
      → (patched os p o target expected (absolute_jump replacement) trampoline).1 ≡ err e
      → ((patched os p o target expected (absolute_jump replacement) trampoline).0.original ≡ 0)
        × (read
              (patched os p o target expected (absolute_jump replacement) trampoline).0.memory
              target
              14
            ≡ expected)
  unfolding patched
  patched_err p none trampoline e u f r at (inl z) h =
      verify_err (record p { memory = os.meanwhile p.memory }) trampoline e z.1 u f r at h
  patched_err p none trampoline e u f r at (inr z) h = absurd (z.0 refl)
  patched_err p (some x) trampoline e u f r at (inl z) h = ground arith
  patched_err p (some x) trampoline e u f r at (inr z) h = (ground arith, z.1)

  with_trampoline_err :
      (p : Process) (trampoline : ℕ) (e : InstallError)
      → os.patching.flushed ≡ true
      → os.patching.restored ≡ true
      → os.restoring.unprotected ≡ true
      → os.restoring.flushed ≡ true
      → os.restoring.restored ≡ true
      → Apart target 14 trampoline (length code)
      → read p.memory target 14 ≡ expected
      → (with_trampoline os p target expected (absolute_jump replacement) code trampoline).1 ≡ err e
      → ((with_trampoline os p target expected
            (absolute_jump replacement)
            code
            trampoline).0.original
          ≡ p.original)
        × (read
              (with_trampoline os p target expected
                (absolute_jump replacement)
                code
                trampoline).0.memory
              target
              14
            ≡ expected)
  unfolding with_trampoline
  with_trampoline_err p trampoline e wf wr u f r apart before h =
      go (Bool-cases os.made_executable) (Bool-cases (p.original == 0))
    where
      built : Memory
      built = write p.memory trampoline code

      kept : read built target 14 ≡ expected
      kept = read-write_apart p.memory trampoline code target 14 apart ∙ before

      w : Memory × Option WriteError
      w = write_memory os.patching built target (absolute_jump replacement)

      ready :
          (w.1 ≡ none × target ≢ 0) ⊎ (w.1 ≢ none × w.0 ≡ built)
          → (w.1 ≡ none × target ≢ 0) ⊎ (w.1 ≢ none × read w.0 target 14 ≡ expected)
      ready (inl z) = inl z
      ready (inr z) = inr (z.0, ap (λ m. read m target 14) z.1 ∙ kept)

      Kept : Process × Result InstallError ℕ → Type 0
      Kept q = (q.0.original ≡ p.original) × (read q.0.memory target 14 ≡ expected)

      go :
          (os.made_executable ≡ true) ⊎ (os.made_executable ≡ false)
          → ((p.original == 0) ≡ true) ⊎ ((p.original == 0) ≡ false)
          → Kept (with_trampoline os p target expected (absolute_jump replacement) code trampoline)
      go (inr z) c = subst Kept (sym same) (refl, kept)
        where
          same :
              with_trampoline os p target expected (absolute_jump replacement) code trampoline
              ≡ (record p { memory = built }, err protection_failed)
          same = ground arith
      go (inl z) (inr y) = subst Kept (sym same) (refl, kept)
        where
          same :
              with_trampoline os p target expected (absolute_jump replacement) code trampoline
              ≡ (record p { memory = built }, err already_initialized)
          same = ground arith
      go (inl z) (inl y) = subst Kept (sym same) (result.0 ∙ ground arith, result.1)
        where
          same :
              with_trampoline os p target expected (absolute_jump replacement) code trampoline
              ≡ patched os
                  (record { memory = w.0; original = trampoline })
                  w.1
                  target
                  expected
                  (absolute_jump replacement)
                  trampoline
          same = ground arith

          result :
              ((patched os
                  (record { memory = w.0; original = trampoline })
                  w.1
                  target
                  expected
                  (absolute_jump replacement)
                  trampoline).0.original
                ≡ 0)
              × (read
                    (patched os
                      (record { memory = w.0; original = trampoline })
                      w.1
                      target
                      expected
                      (absolute_jump replacement)
                      trampoline).0.memory
                    target
                    14
                  ≡ expected)
          result =
              patched_err (record { memory = w.0; original = trampoline }) w.1 trampoline e u f r
                refl
                (ready (write_memory_or os.patching built target (absolute_jump replacement) wf wr))
                (ap (λ q. q.1) (sym same) ∙ h)

-- Where the allocation does not meet the patched bytes and Windows neither fails to flush and
-- restore after the patch nor fails to write the prologue back, a failed installation over 14
-- expected bytes leaves the function's first 14 bytes and the saved address as they were.
pub install_failure :
    (os : Os) (p : Process) (target : ℕ) (expected : List ℕ) (replacement : ℕ) (e : InstallError)
    → length expected ≡ 14
    → ((a : ℕ) → os.allocation ≡ some a → Apart target 14 a 28)
    → os.patching.flushed ≡ true
    → os.patching.restored ≡ true
    → os.restoring.unprotected ≡ true
    → os.restoring.flushed ≡ true
    → os.restoring.restored ≡ true
    → (install_verified_inline_hook os p target expected replacement).1 ≡ err e
    → ((install_verified_inline_hook os p target expected replacement).0.original ≡ p.original)
      × (read (install_verified_inline_hook os p target expected replacement).0.memory target 14
          ≡ read p.memory target 14)
unfolding install_verified_inline_hook install_hook
install_failure os p target expected replacement e len apart wf wr u f r h =
    go
      (Bool-cases (same_bytes (read p.memory target (length expected)) (absolute_jump replacement)))
      (Bool-cases (same_bytes (read p.memory target (length expected)) expected))
      (Option-cases os.allocation)
  where
    Kept : Process × Result InstallError ℕ → Type 0
    Kept q = (q.0.original ≡ p.original) × (read q.0.memory target 14 ≡ read p.memory target 14)

    unchanged :
        (install_verified_inline_hook os p target expected replacement).0 ≡ p
        → Kept (install_verified_inline_hook os p target expected replacement)
    unchanged z = (ap (λ q. q.original) z, ap (λ q. read q.memory target 14) z)

    go :
        (same_bytes (read p.memory target (length expected)) (absolute_jump replacement) ≡ true)
          ⊎ (same_bytes (read p.memory target (length expected)) (absolute_jump replacement)
              ≡ false)
        → (same_bytes (read p.memory target (length expected)) expected ≡ true)
          ⊎ (same_bytes (read p.memory target (length expected)) expected ≡ false)
        → (os.allocation ≡ none) ⊎ ((a : ℕ) × (os.allocation ≡ some a))
        → Kept (install_verified_inline_hook os p target expected replacement)
    go (inl x) y o = unchanged (ground arith)
    go (inr x) (inr y) o = unchanged (ground arith)
    go (inr x) (inl y) (inl o) = unchanged (ground arith)
    go (inr x) (inl y) (inr (a, o)) = subst Kept (sym same) (result.0, result.1 ∙ sym before)
      where
        before : read p.memory target 14 ≡ expected
        before = ap (λ n. read p.memory target n) (sym len) ∙ same_bytes_sound _ _ y

        same :
            install_verified_inline_hook os p target expected replacement
            ≡ with_trampoline os p target expected
                (absolute_jump replacement)
                (inline_trampoline target expected)
                a
        same = ground arith

        result :
            ((with_trampoline os p target expected
                (absolute_jump replacement)
                (inline_trampoline target expected)
                a).0.original
              ≡ p.original)
            × (read
                  (with_trampoline os p target expected
                    (absolute_jump replacement)
                    (inline_trampoline target expected)
                    a).0.memory
                  target
                  14
                ≡ expected)
        result =
            with_trampoline_err os target expected replacement (inline_trampoline target expected)
              len p a e wf wr u f r
              (subst (λ n. Apart target 14 a n) (sym (length-inline_trampoline target expected len))
                (apart a o))
              before (ap (λ q. q.1) (sym same) ∙ h)

-- Where the function starts with the expected 14 bytes, which are not the jump, no trampoline is
-- saved, an allocation succeeds and is made executable, and the code is unprotected, a failure of
-- the flush after the patch makes the installation an error with no saved trampoline, while the
-- function starts with the jump to the hook.
pub flush_failure_orphans :
    (os : Os) (p : Process) (target : ℕ) (expected : List ℕ) (replacement a : ℕ)
    → length expected ≡ 14
    → target ≢ 0
    → p.original ≡ 0
    → read p.memory target 14 ≡ expected
    → same_bytes expected (absolute_jump replacement) ≡ false
    → os.allocation ≡ some a
    → os.made_executable ≡ true
    → os.patching.unprotected ≡ true
    → os.patching.flushed ≡ false
    → ((install_verified_inline_hook os p target expected replacement).1
        ≡ err (patch_failed flush_failed))
      × ((install_verified_inline_hook os p target expected replacement).0.original ≡ 0)
      × (read (install_verified_inline_hook os p target expected replacement).0.memory target 14
          ≡ absolute_jump replacement)
unfolding install_verified_inline_hook install_hook with_trampoline patched write_memory
flush_failure_orphans os p target expected replacement a len nz free before fresh alloc exec unprot
      unflushed =
    subst Orphaned (sym same) (
      refl,
      ground arith,
      ap (λ n. read (write built target (absolute_jump replacement)) target n)
            (sym (length-absolute_jump replacement))
          ∙ read-write built target (absolute_jump replacement),
    )
  where
    Orphaned : Process × Result InstallError ℕ → Type 0
    Orphaned q =
        (q.1 ≡ err (patch_failed flush_failed))
        × (q.0.original ≡ 0)
        × (read q.0.memory target 14 ≡ absolute_jump replacement)

    built : Memory
    built = write p.memory a (inline_trampoline target expected)

    actual : read p.memory target (length expected) ≡ expected
    actual = ap (λ n. read p.memory target n) len ∙ before

    differs :
        same_bytes (read p.memory target (length expected)) (absolute_jump replacement) ≡ false
    differs = ap (λ l. same_bytes l (absolute_jump replacement)) actual ∙ fresh

    matches : same_bytes (read p.memory target (length expected)) expected ≡ true
    matches = ap (λ l. same_bytes l expected) actual ∙ same_bytes_refl expected

    same : install_verified_inline_hook os p target expected replacement ≡ (
      record { memory = write built target (absolute_jump replacement); original = 0 },
      err (patch_failed flush_failed),
    )
    same = ground (arith, differs, matches, absolute_jump-filled replacement)
