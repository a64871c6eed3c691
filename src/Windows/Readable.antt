-- ===== src/Windows/Readable.antt =====
-- src/windows.rs: `range_is_readable` ends, and answers whether every byte of the range is readable.
use elden_ring_windowed_hdr.Common.{
  ℕ, zero, suc, bit_and, ◌≡◌, ◌≢◌, ◌≤◌, ◌<◌, ◌↔◌, refl, sym, ap, ◌∙◌, ◌+◌, ◌^◌, ◌⊎◌, inl, inr, Bool,
  true, false, Option, none, some, ltb, arith, Bool-cases, Option-cases,
}
use elden_ring_windowed_hdr.Windows.Regions.{
  Region, Query, is_readable_region, advance, walk, range_is_readable,
}

-- What VirtualQuery documents: it reports pages from the one that holds the address on, which end
-- within the address space, and it reports the same state and protection for every address in
-- them; the base and the size may be others, since they start at the page that is asked for.
pub record IsRegionQuery (query : Query) : Type 0 where
  pub inside :
      (x : ℕ) (r : Region)
      → query x ≡ some r
      → (r.base_address ≤ x)
        × (x < r.base_address + r.region_size)
        × (r.base_address + r.region_size < 2 ^ 64)
  pub alike :
      (x y : ℕ) (r : Region)
      → query x ≡ some r
      → r.base_address ≤ y
      → y < r.base_address + r.region_size
      → (r' : Region) × (query y ≡ some r') × (r'.state ≡ r.state) × (r'.protect ≡ r.protect)

-- the byte at an address can be read
abbrev readable_answer : Option Region → Bool
readable_answer none = false
readable_answer (some r) = is_readable_region r

abbrev AllAnswered : Query → ℕ → ℕ → Type 0
AllAnswered query current end = (x : ℕ) → current ≤ x → x < end → readable_answer (query x) ≡ true

alike_readable :
    (r r' : Region)
    → r'.state ≡ r.state
    → r'.protect ≡ r.protect
    → is_readable_region r ≡ true
    → is_readable_region r' ≡ true
alike_readable r r' state protect h = rw (state, protect) h

module _ (query : Query) (documented : IsRegionQuery query) where
  -- a round that returns false has met a byte that cannot be read
  advance-none :
      (current end : ℕ) → advance query current end ≡ none → readable_answer (query current) ≡ false
  unfolding advance
  advance-none current end h = go (query current) refl
    where
      go : (o : Option Region) → query current ≡ o → readable_answer (query current) ≡ false
      go none e = ap readable_answer e
      go (some r) e = ground (arith, documented.inside current r e)

  -- a round that goes on has passed readable bytes only, at least one
  advance-some :
      (current end next : ℕ)
      → current < end
      → advance query current end ≡ some next
      → (current < next) × (next ≤ end) × AllAnswered query current next
  unfolding advance
  advance-some current end next lt h = go (query current) refl
    where
      go :
          (o : Option Region)
          → query current ≡ o
          → (current < next) × (next ≤ end) × AllAnswered query current next
      go none e = ground arith
      go (some r) e = (
        ground (arith, documented.inside current r e),
        ground (arith, documented.inside current r e),
        λ x lo hi.
            let (r', here, state, protect) =
              documented.alike current x r e (ground (arith, documented.inside current r e))
                (ground (arith, documented.inside current r e)) in
            ap readable_answer here ∙ alike_readable r r' state protect (ground arith),
      )

  -- With fuel for every byte that is left the loop ends, and what it answers is right.
  walk_lem :
      (fuel current end : ℕ)
      → end ≤ current + fuel
      → (b : Bool) × (walk fuel query current end ≡ some b)
        × ((b ≡ true) ↔ AllAnswered query current end)
  unfolding walk
  walk_lem zero current end enough =
      (true, ground arith, ((λ _ x lo hi. absurd (omega arith)), λ _. refl))
  walk_lem (suc fuel) current end enough =
      split (Bool-cases (ltb current end)) (Option-cases (advance query current end))
        λ next. walk_lem fuel next end
    where
      Answered : Type 0
      Answered =
          (b : Bool) × (walk (suc fuel) query current end ≡ some b)
          × ((b ≡ true) ↔ AllAnswered query current end)

      later :
          (next : ℕ)
          → ltb current end ≡ true
          → advance query current end ≡ some next
          → (current < next) × (next ≤ end) × AllAnswered query current next
          → ((b : Bool) × (walk fuel query next end ≡ some b)
              × ((b ≡ true) ↔ AllAnswered query next end))
          → Answered
      later next lt e (gt, le, passed) (b, eq, (sound, complete)) = (
        b,
        ground (arith, lt, e, eq),
        (
          (λ h x lo hi. elim (Bool-cases (ltb x next)) [
            | inl near ↦ passed x lo (ground (arith, near))
            | inr far ↦ sound h x (ground (arith, far)) hi
          ]),
          λ all. complete λ x lo hi. all x (omega (arith, lo, gt)) hi,
        ),
      )

      split :
          (ltb current end ≡ true) ⊎ (ltb current end ≡ false)
          → (advance query current end ≡ none)
            ⊎ ((next : ℕ) × (advance query current end ≡ some next))
          → ((next : ℕ)
              → end ≤ next + fuel
              → (b : Bool) × (walk fuel query next end ≡ some b)
                × ((b ≡ true) ↔ AllAnswered query next end))
          → Answered
      split (inr ge) o rest = (
        true,
        ground (arith, ge),
        ((λ _ x lo hi. absurd (ground (arith, ge, lo, hi))), λ _. refl),
      )
      split (inl lt) (inl e) rest = (
        false,
        ground (arith, lt, e),
        (
          (λ h. ground (arith, h)),
          λ all. sym (advance-none current end e) ∙ all current (omega arith) (ground (arith, lt)),
        ),
      )
      split (inl lt) (inr (next, e)) rest =
          let passed = advance-some current end next (ground (arith, lt)) e in
          later next lt e passed (rest next (omega (arith, enough, passed)))

-- The page of a byte is committed; it is neither PAGE_NOACCESS nor PAGE_GUARD; and it is
-- PAGE_READONLY, PAGE_READWRITE or PAGE_WRITECOPY, or PAGE_EXECUTE_READ, PAGE_EXECUTE_READWRITE or
-- PAGE_EXECUTE_WRITECOPY.
abbrev pub IsReadable : Option Region → Type 0
IsReadable none = ⊥
IsReadable (some r) =
    (r.state ≡ 0x1000)
    × (bit_and r.protect (0x01 + 0x100) ≡ 0)
    × (bit_and r.protect (0x02 + 0x04 + 0x08 + 0x20 + 0x40 + 0x80) ≢ 0)

-- Every byte of a range can be read.
abbrev pub AllReadable : Query → ℕ → ℕ → Type 0
AllReadable query current end = (x : ℕ) → current ≤ x → x < end → IsReadable (query x)

IsReadable-iff : (o : Option Region) → (readable_answer o ≡ true) ↔ IsReadable o
IsReadable-iff none = ((λ h. ground (arith, h)), λ h. absurd h)
IsReadable-iff (some r) = ((λ h. ground (arith, h)), λ h. ground (arith, h))

-- The loop of range_is_readable ends within as many rounds as the range has bytes. On a range
-- that is neither null nor empty and ends within the address space the answer is true exactly
-- when every byte of the range is in a committed page that can be read. VirtualQuery
-- reports pages from that of the address on, all of one state and protection.
pub range_is_readable_lem :
    (query : Query) (address size : ℕ)
    → IsRegionQuery query
    → 0 < address
    → 0 < size
    → address + size < 2 ^ 64
    → (b : Bool) × (range_is_readable query address size ≡ some b)
      × ((b ≡ true) ↔ AllReadable query address (address + size))
unfolding range_is_readable
range_is_readable_lem query address size documented nonnull nonempty fits =
    let (b, eq, right) = walk_lem query documented size address (address + size) (omega arith) in
    (
      b,
      ground (arith, eq),
      (
        (λ t x lo hi. (IsReadable-iff (query x)).0 (right.0 t x lo hi)),
        λ all. right.1 λ x lo hi. (IsReadable-iff (query x)).1 (all x lo hi),
      ),
    )
