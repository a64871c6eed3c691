-- ===== src/Patch/Memory.antt =====
-- src/windows.rs: `write_memory` on the bytes of the process. What VirtualProtect and
-- FlushInstructionCache answer is an argument.
use elden_ring_windowed_hdr.Common.{
  ℕ, zero, suc, ◌≡◌, refl, ◌+◌, ◌≤◌, ◌<◌, Bool, true, false, not, ◌||◌, Option, none, some, List,
  [], ◌∷◌, length, ◌==◌, if◌then◌else◌, arith, ap₂, ◌∙◌, ◌⊎◌, inl, inr,
}

abbrev pub Memory : Type 0
Memory = ℕ → ℕ

unfoldable pub read : Memory → ℕ → ℕ → List ℕ
read m address zero = []
read m address (suc n) = m address ∷ read m (address + 1) n

-- `ptr::copy_nonoverlapping`
unfoldable pub write : Memory → ℕ → List ℕ → Memory
write m address [] x = m x
write m address (b ∷ bytes) x = if x == address then b else write m (address + 1) bytes x

pub write_below :
    (m : Memory) (address : ℕ) (bytes : List ℕ) (x : ℕ)
    → x < address
    → write m address bytes x ≡ m x
unfolding write
write_below m address [] x h = refl
write_below m address (b ∷ bytes) x h =
    ground (arith, write_below m (address + 1) bytes x (omega (arith, h)))

pub write_above :
    (m : Memory) (address : ℕ) (bytes : List ℕ) (x : ℕ)
    → address + length bytes ≤ x
    → write m address bytes x ≡ m x
unfolding write
write_above m address [] x h = refl
write_above m address (b ∷ bytes) x h =
    ground (arith, write_above m (address + 1) bytes x (omega (arith, h)))

-- two memories that agree on a range read the same there
pub read_same :
    (m m' : Memory) (address n : ℕ)
    → ((x : ℕ) → address ≤ x → x < address + n → m' x ≡ m x)
    → read m' address n ≡ read m address n
unfolding read
read_same m m' address zero h = refl
read_same m m' address (suc n) h =
    ap₂ (λ b bs. b ∷ bs) (h address (omega arith) (omega arith))
      (read_same m m' (address + 1) n (λ x lo hi. h x (omega (arith, lo)) (omega (arith, hi))))

pub read-write :
    (m : Memory) (address : ℕ) (bytes : List ℕ)
    → read (write m address bytes) address (length bytes) ≡ bytes
unfolding read write
read-write m address [] = refl
read-write m address (b ∷ bytes) =
    ap₂ (λ x xs. x ∷ xs) (ground arith)
      (read_same (write m (address + 1) bytes) (write m address (b ∷ bytes)) (address + 1)
          (length bytes) (λ x lo hi. ground arith)
        ∙ read-write m (address + 1) bytes)

pub read-write_apart :
    (m : Memory) (address : ℕ) (bytes : List ℕ) (at n : ℕ)
    → (at + n ≤ address) ⊎ (address + length bytes ≤ at)
    → read (write m address bytes) at n ≡ read m at n
read-write_apart m address bytes at n (inl h) =
    read_same m (write m address bytes) at n
      (λ x lo hi. write_below m address bytes x (omega (arith, h, hi)))
read-write_apart m address bytes at n (inr h) =
    read_same m (write m address bytes) at n
      (λ x lo hi. write_above m address bytes x (omega (arith, h, lo)))

-- What the calls around one patch answer: VirtualProtect, FlushInstructionCache, and the
-- VirtualProtect that restores the protection.
pub record Outcome : Type 0 where
  pub unprotected : Bool
  pub flushed : Bool
  pub restored : Bool

pub data WriteError : Type 0 where
  invalid_range : WriteError
  protect_failed : WriteError
  flush_failed : WriteError
  restore_failed : WriteError

abbrev pub is_empty : List ℕ → Bool
is_empty [] = true
is_empty (b ∷ bytes) = false

-- `none` is `Ok(())`
unfoldable pub write_memory : Outcome → Memory → ℕ → List ℕ → Memory × Option WriteError
write_memory o m address bytes =
    if address == 0 || is_empty bytes
    then (m, some invalid_range)
    else if not o.unprotected
    then (m, some protect_failed)
    else if not o.flushed
    then (write m address bytes, some flush_failed)
    else if not o.restored
    then (write m address bytes, some restore_failed)
    else (write m address bytes, none)
