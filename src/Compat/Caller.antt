-- ===== src/Compat/Caller.antt =====
-- src/game_compat.rs: what the checks on the found code guarantee.
use elden_ring_windowed_hdr.Common.{
  ℕ, zero, suc, ◌≡◌, ◌≢◌, ◌≤◌, ◌+◌, ◌-◌, ◌%◌, refl, sym, ap, ap₂, ◌∙◌, Bool, true, false, Option,
  none, List, get_or, not, ◌&&◌, some, [], ◌∷◌, take, drop, if◌then◌else◌, Result, ok, err,
  same_bytes, same_bytes_sound, from_le_bytes, arith, ◌⊎◌, inl, inr,
}
use elden_ring_windowed_hdr.Patch.Memory.{Memory, read}
use elden_ring_windowed_hdr.Compat.Image.{
  LoadedImage, CompatError, unreadable, outside_sections, any_section, contains, is_readable,
  bytes_at, relative_target, same_target, is_readable_non_executable,
}
use elden_ring_windowed_hdr.Compat.Layout.{IsData, Leads, IsData-sound, Leads-sound}
use elden_ring_windowed_hdr.Compat.Exact.{take-read}
use elden_ring_windowed_hdr.Compat.Targets.{
  menu_gate_body_matches, resolve_security_cookie, gate_body_test, prologue_test, is_gate_body,
}

read_eq : (m : Memory) (a b n k : ℕ) → a ≡ b → n ≡ k → read m a n ≡ read m b k
read_eq m a b n k p q = ap₂ (λ x y. read m x y) p q

pub drop-read : (m : Memory) (a k n : ℕ) → k ≤ n → drop k (read m a n) ≡ read m (a + k) (n - k)
unfolding read
drop-read m a zero n h = read_eq m a (a + 0) n (n - 0) (omega arith) (omega arith)
drop-read m a (suc k) zero h = ground arith
drop-read m a (suc k) (suc n) h =
    drop-read m (a + 1) k n (omega (arith, h))
    ∙ read_eq m (a + 1 + k) (a + suc k) (n - k) (suc n - suc k) (omega arith) (omega arith)

err≢ok {ℓ} : {A : Type ℓ} {e : CompatError} {x : A} → Result.err e ≢ ok x
err≢ok h = ground arith

bytes_at_cases :
    (image : LoadedImage) (rva n : ℕ)
    → (bytes_at image rva n ≡ ok (read image.memory rva n))
      ⊎ ((e : CompatError) × (bytes_at image rva n ≡ err e))
unfolding bytes_at
bytes_at_cases image rva n =
    go (any_section (λ s. contains s rva n && is_readable s) image.sections)
      (image.range_is_readable rva n)
  where
    go :
        (found readable : Bool)
        → ((if not found
              then err outside_sections
              else if not readable
              then err unreadable
              else ok (read image.memory rva n))
            ≡ ok (read image.memory rva n))
          ⊎ ((e : CompatError) × ((if not found
                  then err outside_sections
                  else if not readable
                  then err unreadable
                  else ok (read image.memory rva n))
                ≡ err e))
    go true true = inl refl
    go true false = inr (unreadable, refl)
    go false readable = inr (outside_sections, refl)

prologue_ok :
    (image : LoadedImage) (a cookie : ℕ)
    → prologue_test image a (ok (read image.memory a 14)) ≡ ok cookie
    → (cookie % 8 ≡ 0)
      × (is_readable_non_executable image cookie 8 ≡ true)
      × (relative_target (a + 11) (from_le_bytes (take 4 (drop 7 (read image.memory a 14))))
          ≡ some cookie)
      × (same_bytes
            (take 7 (read image.memory a 14))
            (0x48 ∷ 0x83 ∷ 0xEC ∷ 0x48 ∷ 0x48 ∷ 0x8B ∷ 0x05 ∷ [])
          ≡ true)
      × (same_bytes (drop 11 (read image.memory a 14)) (0x48 ∷ 0x33 ∷ 0xC4 ∷ []) ≡ true)
prologue_ok image a cookie h = ground arith

-- The 19 bytes of the gate: a CALL of the availability function between the expected bytes.
abbrev pub IsGate : LoadedImage → ℕ → ℕ → Type 0
IsGate image gate_rva availability_rva =
    (read image.memory gate_rva 4 ≡ 0x48 ∷ 0x83 ∷ 0xEC ∷ 0x28 ∷ [])
    × (image.memory (gate_rva + 4) ≡ 0xE8)
    × Leads (gate_rva + 9) (from_le_bytes (read image.memory (gate_rva + 5) 4)) availability_rva
    × (read image.memory (gate_rva + 9) 10
        ≡ 0x84 ∷ 0xC0 ∷ 0x0F ∷ 0x94 ∷ 0xC0 ∷ 0x48 ∷ 0x83 ∷ 0xC4 ∷ 0x28 ∷ 0xC3 ∷ [])

same_target-eq : (o : Option ℕ) (rva : ℕ) → same_target o rva ≡ true → o ≡ some rva
same_target-eq none rva h = absurd (ground (arith, h))
same_target-eq (some t) rva h = ap some (ground (arith, h))

body_ok :
    (g a : ℕ) (body : List ℕ)
    → gate_body_test g a (ok body) ≡ ok true
    → (is_gate_body body ≡ true)
      × (same_target (relative_target (g + 9) (from_le_bytes (take 4 (drop 5 body)))) a ≡ true)
body_ok g a body h = ground arith

fifth : (m : Memory) (g : ℕ) → get_or (read m g 19) 4 0 ≡ m (g + 4)
unfolding read
fifth m g = ap m (omega arith)

pub IsGate-sound :
    (image : LoadedImage) (gate_rva availability_rva : ℕ)
    → menu_gate_body_matches image gate_rva availability_rva ≡ ok true
    → IsGate image gate_rva availability_rva
unfolding menu_gate_body_matches
IsGate-sound image g a h =
    let (body, target) =
      body_ok g a (read image.memory g 19) (read_ok (bytes_at_cases image g 19)) in
    (
      sym (take-read image.memory g 4 19 (omega arith))
          ∙ same_bytes_sound _ _ (ground (arith, body)),
      sym (fifth image.memory g) ∙ ground (arith, body),
      Leads-sound (g + 9) (from_le_bytes (read image.memory (g + 5) 4)) a (
          ap (λ l. relative_target (g + 9) (from_le_bytes l)) (sym operand)
          ∙ same_target-eq _ a target),
      sym (drop-read image.memory g 9 19 (omega arith))
          ∙ same_bytes_sound _ _ (ground (arith, body)),
    )
  where
    read_ok :
        (bytes_at image g 19 ≡ ok (read image.memory g 19))
          ⊎ ((e : CompatError) × (bytes_at image g 19 ≡ err e))
        → gate_body_test g a (ok (read image.memory g 19)) ≡ ok true
    read_ok (inl e) = ap (λ r. gate_body_test g a r) (sym e) ∙ h
    read_ok (inr (e, q)) = absurd (err≢ok (sym (ap (λ r. gate_body_test g a r) q) ∙ h))

    operand : take 4 (drop 5 (read image.memory g 19)) ≡ read image.memory (g + 5) 4
    operand =
        ap (λ l. take 4 l) (drop-read image.memory g 5 19 (omega arith))
        ∙ take-read image.memory (g + 5) 4 14 (omega arith)

-- The cookie is aligned data, and where the load in the prologue of the availability function
-- points, of which every other byte is the expected one.
abbrev pub LoadsCookie : LoadedImage → ℕ → ℕ → Type 0
LoadsCookie image availability_rva cookie =
    (cookie % 8 ≡ 0)
    × IsData image cookie 8
    × Leads (availability_rva + 11) (from_le_bytes (read image.memory (availability_rva + 7) 4))
        cookie
    × (read image.memory availability_rva 7 ≡ 0x48 ∷ 0x83 ∷ 0xEC ∷ 0x48 ∷ 0x48 ∷ 0x8B ∷ 0x05 ∷ [])
    × (read image.memory (availability_rva + 11) 3 ≡ 0x48 ∷ 0x33 ∷ 0xC4 ∷ [])

-- A resolved security cookie is aligned, lies in a section that can be read and not executed, and
-- is where the load in the prologue of the availability function leads, forwards or backwards;
-- the other bytes of that prologue are the expected ones.
pub cookie_sound :
    (image : LoadedImage) (availability_rva cookie : ℕ)
    → resolve_security_cookie image availability_rva ≡ ok cookie
    → LoadsCookie image availability_rva cookie
unfolding resolve_security_cookie
cookie_sound image a cookie h = (
  found.0,
  IsData-sound image cookie 8 found.1,
  Leads-sound (a + 11) (from_le_bytes (read image.memory (a + 7) 4)) cookie
      (ap (λ l. relative_target (a + 11) (from_le_bytes l)) (sym operand) ∙ found.2),
  sym (take-read image.memory a 7 14 (omega arith)) ∙ same_bytes_sound _ _ found.3,
  sym (drop-read image.memory a 11 14 (omega arith)) ∙ same_bytes_sound _ _ found.4,
)
  where
    read_ok :
        (bytes_at image a 14 ≡ ok (read image.memory a 14))
          ⊎ ((e : CompatError) × (bytes_at image a 14 ≡ err e))
        → prologue_test image a (ok (read image.memory a 14)) ≡ ok cookie
    read_ok (inl e) = ap (λ r. prologue_test image a r) (sym e) ∙ h
    read_ok (inr (e, q)) = absurd (err≢ok (sym (ap (λ r. prologue_test image a r) q) ∙ h))

    found :
        (cookie % 8 ≡ 0)
        × (is_readable_non_executable image cookie 8 ≡ true)
        × (relative_target (a + 11) (from_le_bytes (take 4 (drop 7 (read image.memory a 14))))
            ≡ some cookie)
        × (same_bytes
              (take 7 (read image.memory a 14))
              (0x48 ∷ 0x83 ∷ 0xEC ∷ 0x48 ∷ 0x48 ∷ 0x8B ∷ 0x05 ∷ [])
            ≡ true)
        × (same_bytes (drop 11 (read image.memory a 14)) (0x48 ∷ 0x33 ∷ 0xC4 ∷ []) ≡ true)
    found = prologue_ok image a cookie (read_ok (bytes_at_cases image a 14))

    operand : take 4 (drop 7 (read image.memory a 14)) ≡ read image.memory (a + 7) 4
    operand =
        ap (λ l. take 4 l) (drop-read image.memory a 7 14 (omega arith))
        ∙ take-read image.memory (a + 7) 4 7 (omega arith)
