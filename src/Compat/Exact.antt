-- ===== src/Compat/Exact.antt =====
-- src/game_compat.rs: a search finds exactly the places that match, and a unique one is the only one.
use mathlib.Core.List.Memᴰ
use elden_ring_windowed_hdr.Common.{
  ℕ, zero, suc, ◌≡◌, ◌≤◌, ◌<◌, ◌+◌, ◌↔◌, ◌⊎◌, inl, inr, refl, sym, ap, ◌∙◌, subst, Bool, true,
  false, true≢false, not, ◌&&◌, ◌||◌, List, [], ◌∷◌, ◌++◌, length, take, leb, ◌==◌, if◌then◌else◌,
  Result, ok, err, arith, Bool-cases, ==_iff, Memᴰ, Memᴰ-append,
}
use elden_ring_windowed_hdr.Patch.Memory.{Memory, read}
use elden_ring_windowed_hdr.Compat.Image.{
  Section, LoadedImage, CompatError, section_unreadable, section_bytes, is_readable,
  is_executable_section,
}
use elden_ring_windowed_hdr.Compat.Scan.{
  scan, collect, find_in, Signature, matches, find_signature, require_unique,
}

-- An executable section holds, at `r`, a window that passes the test.
abbrev pub Hit : (ℕ → List ℕ → Bool) → ℕ → LoadedImage → List Section → ℕ → Type 0
Hit test width image sections r =
    (s : Section) × Memᴰ s sections
    × (is_executable_section s ≡ true)
    × (s.rva ≤ r)
    × (r + width ≤ s.rva + s.size)
    × (test r (read image.memory r width) ≡ true)

pub length-read : (m : Memory) (a n : ℕ) → length (read m a n) ≡ n
unfolding read
length-read m a zero = refl
length-read m a (suc n) = ap (λ k. suc k) (length-read m (a + 1) n)

pub take-read : (m : Memory) (a w n : ℕ) → w ≤ n → take w (read m a n) ≡ read m a w
unfolding read
take-read m a zero n h = refl
take-read m a (suc w) zero h = ground arith
take-read m a (suc w) (suc n) h = ap (λ l. m a ∷ l) (take-read m (a + 1) w n (omega (arith, h)))

module _ (test : ℕ → List ℕ → Bool) (width : ℕ) (wide : 0 < width) (m : Memory) where
  abbrev Passes : ℕ → ℕ → ℕ → Type 0
  Passes a n r = (a ≤ r) × (r + width ≤ a + n) × (test r (read m r width) ≡ true)

  -- whether the loop keeps the first offset
  keeps : (a n : ℕ) → Bool
  keeps a n = leb width (length (read m a (suc n))) && test a (take width (read m a (suc n)))

  keeps_iff : (a n : ℕ) → (keeps a n ≡ true) ↔ ((width ≤ suc n) × (test a (read m a width) ≡ true))
  unfolding keeps
  keeps_iff a n = (
    λ h. (fits (ground arith), ap (test a) (sym (window (fits (ground arith)))) ∙ ground arith),
    λ h. ground (arith, length-read m a (suc n), ap (test a) (window h.0)),
  )
    where
      fits : leb width (length (read m a (suc n))) ≡ true → width ≤ suc n
      fits l = ground (arith, length-read m a (suc n))

      window : width ≤ suc n → take width (read m a (suc n)) ≡ read m a width
      window l = take-read m a width (suc n) l

  scan_sound : (a n r : ℕ) → Memᴰ r (scan test width (read m a n) a) → Passes a n r
  unfolding scan keeps read
  scan_sound a zero r h = absurd (Memᴰ.not-nil h)
  scan_sound a (suc n) r h = go (keeps a n) refl (scan_sound (a + 1) n r) h
    where
      later : Passes (a + 1) n r → Passes a (suc n) r
      later p = (omega (arith, p.0), omega (arith, p.1), p.2)

      first : r ≡ a → keeps a n ≡ true → Passes a (suc n) r
      first e k =
          subst (λ x. Passes a (suc n) x) (sym e)
            (omega arith, omega (arith, ((keeps_iff a n).0 k).0), ((keeps_iff a n).0 k).1)

      go :
          (b : Bool)
          → keeps a n ≡ b
          → (Memᴰ r (scan test width (read m (a + 1) n) (a + 1)) → Passes (a + 1) n r)
          → Memᴰ r (
              if b
              then a ∷ scan test width (read m (a + 1) n) (a + 1)
              else scan test width (read m (a + 1) n) (a + 1))
          → Passes a (suc n) r
      go false k ih z = later (ih z)
      go true k ih z = elim (Memᴰ.cases_cons z) [ inl e ↦ first e k | inr t ↦ later (ih t) ]

  scan_complete : (a n r : ℕ) → Passes a n r → Memᴰ r (scan test width (read m a n) a)
  unfolding scan keeps read
  scan_complete a zero r h = ground (arith, h.0, h.1)
  scan_complete a (suc n) r h =
      go (keeps a n) refl (scan_complete (a + 1) n r) (Bool-cases (r == a))
    where
      go :
          (b : Bool)
          → keeps a n ≡ b
          → (Passes (a + 1) n r → Memᴰ r (scan test width (read m (a + 1) n) (a + 1)))
          → ((r == a) ≡ true) ⊎ ((r == a) ≡ false)
          → Memᴰ r (
              if b
              then a ∷ scan test width (read m (a + 1) n) (a + 1)
              else scan test width (read m (a + 1) n) (a + 1))
      go true k ih (inl e) = Memᴰ.head ((==_iff r a).0 e)
      go true k ih (inr e) = Memᴰ.tail (ih (ground (arith, h.0), ground (arith, h.1), h.2))
      go false k ih (inr e) = ih (ground (arith, h.0), ground (arith, h.1), h.2)
      go false k ih (inl e) = absurd (true≢false (sym now ∙ k))
        where
          now : keeps a n ≡ true
          now = (keeps_iff a n).1 (
            ground (arith, h.1),
            subst (λ x. test x (read m x width) ≡ true) ((==_iff r a).0 e) h.2,
          )

abbrev hits_of : Result CompatError (List ℕ) → List ℕ
hits_of (ok hits) = hits
hits_of (err e) = []

collect_ok :
    (hits : List ℕ) (r : Result CompatError (List ℕ)) (all : List ℕ)
    → collect hits r ≡ ok all
    → (more : List ℕ) × (r ≡ ok more) × (hits ++ more ≡ all)
collect_ok hits (ok more) all e = (more, refl, ap hits_of e)
collect_ok hits (err x) all e = ground arith

module _ (test : ℕ → List ℕ → Bool) (width : ℕ) (wide : 0 < width) (image : LoadedImage) where
  -- the first section of the loop
  find_in_cons :
      (s : Section) (sections : List Section) (all : List ℕ)
      → find_in test width image (s ∷ sections) ≡ ok all
      → ((is_executable_section s ≡ false) × (find_in test width image sections ≡ ok all))
        ⊎ ((is_executable_section s ≡ true)
            × (more : List ℕ) × (find_in test width image sections ≡ ok more)
            × (scan test width (read image.memory s.rva s.size) s.rva ++ more ≡ all))
  unfolding find_in section_bytes
  find_in_cons s sections all e =
      go (is_executable_section s)
        (not (is_readable s) || not (image.range_is_readable s.rva s.size)) refl e
    where
      others : Result CompatError (List ℕ)
      others = find_in test width image sections

      bytes : List ℕ
      bytes = read image.memory s.rva s.size

      go :
          (executable bad : Bool)
          → is_executable_section s ≡ executable
          → (if not executable
              then others
              else elim (if bad then err section_unreadable else ok bytes) [
                | err x ↦ err x
                | ok found ↦ collect (scan test width found s.rva) others
              ])
            ≡ ok all
          → ((is_executable_section s ≡ false) × (others ≡ ok all))
            ⊎ ((is_executable_section s ≡ true)
                × (more : List ℕ) × (others ≡ ok more)
                × (scan test width bytes s.rva ++ more ≡ all))
      go false bad x h = inl (x, h)
      go true true x h = ground arith
      go true false x h =
          let c = collect_ok (scan test width bytes s.rva) others all h in inr (x, c.0, c.1, c.2)

  find_in_sound :
      (sections : List Section) (all : List ℕ)
      → find_in test width image sections ≡ ok all
      → (r : ℕ) → Memᴰ r all
      → Hit test width image sections r
  unfolding find_in
  find_in_sound [] all e r h = absurd (Memᴰ.not-nil (subst (λ l. Memᴰ r l) (sym (ap hits_of e)) h))
  find_in_sound (s ∷ sections) all e r h = elim (find_in_cons s sections all e) [
    | inl z ↦ behind (find_in_sound sections all z.1 r h)
    | inr z ↦
        elim (Memᴰ-append (scan test width (read image.memory s.rva s.size) s.rva) z.1
          (subst (λ l. Memᴰ r l) (sym z.3) h)) [
            | inl m ↦ here z.0 (scan_sound test width wide image.memory s.rva s.size r m)
            | inr m ↦ behind (find_in_sound sections z.1 z.2 r m)
          ]
  ]
    where
      behind : Hit test width image sections r → Hit test width image (s ∷ sections) r
      behind (t, m, x, lo, hi, p) = (t, Memᴰ.tail m, x, lo, hi, p)

      here :
          is_executable_section s ≡ true
          → Passes test width wide image.memory s.rva s.size r
          → Hit test width image (s ∷ sections) r
      here x (lo, hi, p) = (s, Memᴰ.head refl, x, lo, hi, p)

  find_in_complete :
      (sections : List Section) (all : List ℕ)
      → find_in test width image sections ≡ ok all
      → (r : ℕ) → Hit test width image sections r
      → Memᴰ r all
  unfolding find_in
  find_in_complete [] all e r (t, m, x, lo, hi, p) = absurd (Memᴰ.not-nil m)
  find_in_complete (s ∷ sections) all e r (t, m, x, lo, hi, p) =
      elim (find_in_cons s sections all e) [
        | inl z ↦ elim (Memᴰ.cases_cons m) [
          | inl q ↦ absurd (true≢false (sym x ∙ (ap (λ u. is_executable_section u) q ∙ z.0)))
          | inr n ↦ find_in_complete sections all z.1 r (t, n, x, lo, hi, p)
        ]
        | inr z ↦
            subst (λ l. Memᴰ r l) z.3
              (elim (Memᴰ.cases_cons m) [
                | inl q ↦ Memᴰ.append_left z.1 (
                    scan_complete test width wide image.memory s.rva s.size r (
                      subst (λ u. u.rva ≤ r) q lo,
                      subst (λ u. r + width ≤ u.rva + u.size) q hi,
                      p,
                    ))
                | inr n ↦
                    Memᴰ.append_right (scan test width (read image.memory s.rva s.size) s.rva)
                      (find_in_complete sections z.1 z.2 r (t, n, x, lo, hi, p))
              ])
      ]

unique_single :
    (hits : List ℕ) (r : ℕ)
    → require_unique hits ≡ ok r
    → Memᴰ r hits × ((r' : ℕ) → Memᴰ r' hits → r' ≡ r)
unfolding require_unique
unique_single [] r e = ground arith
unique_single (x ∷ []) r e = (Memᴰ.head (sym same), λ r' m. only r' (Memᴰ.cases_cons m))
  where
    value : Result CompatError ℕ → ℕ
    value (ok v) = v
    value (err z) = 0

    same : x ≡ r
    same = ap value e

    only : (r' : ℕ) → (r' ≡ x) ⊎ Memᴰ r' [] → r' ≡ r
    only r' (inl q) = q ∙ same
    only r' (inr n) = absurd (Memᴰ.not-nil n)
unique_single (x ∷ y ∷ hits) r e = ground arith

-- the windows of the executable sections that match a signature
abbrev pub Match : LoadedImage → Signature → ℕ → Type 0
Match image g r = Hit (λ rva bytes. matches g bytes) g.length image image.sections r

-- A completed search for a signature that is not empty lists an RVA exactly when the window there
-- lies in an executable section and matches.
pub find_signature_lem :
    (image : LoadedImage) (g : Signature) (hits : List ℕ)
    → 0 < g.length
    → find_signature image g ≡ ok hits
    → (r : ℕ) → Memᴰ r hits ↔ Match image g r
unfolding find_signature
find_signature_lem image g hits wide e r = (
  find_in_sound (λ rva bytes. matches g bytes) g.length wide image image.sections hits e r,
  find_in_complete (λ rva bytes. matches g bytes) g.length wide image image.sections hits e r,
)

-- When a completed search for a signature that is not empty is found unique, the RVA taken is a
-- match in an executable section, and every match there is is at that RVA.
pub unique_target :
    (image : LoadedImage) (g : Signature) (hits : List ℕ) (r : ℕ)
    → 0 < g.length
    → find_signature image g ≡ ok hits
    → require_unique hits ≡ ok r
    → Match image g r × ((r' : ℕ) → Match image g r' → r' ≡ r)
unique_target image g hits r wide e u =
    let single = unique_single hits r u in
    (
      (find_signature_lem image g hits wide e r).0 single.0,
      λ r' h. single.1 r' ((find_signature_lem image g hits wide e r').1 h),
    )
