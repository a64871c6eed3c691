-- ===== src/Windows/Tests.antt =====
-- Runs of the theorems on regions at concrete inputs.
use elden_ring_windowed_hdr.Common.{
  ℕ, ◌≤◌, ◌<◌, ◌+◌, ◌^◌, refl, inl, inr, ◌∙◌, Bool-cases, ◌≡◌, ◌↔◌, Bool, true, none, some, ltb,
  if◌then◌else◌, arith,
}
use elden_ring_windowed_hdr.Windows.Regions.{Region, Query, range_is_readable}
use elden_ring_windowed_hdr.Windows.Readable.{IsRegionQuery, AllReadable, range_is_readable_lem}

-- two pages of data, of which each query reports those from its own page on, and a guard page
abbrev three_pages : Query
three_pages x =
    if ltb x 0x1000
    then none
    else if ltb x 0x2000
    then some (record { base_address = 0x1000; region_size = 0x2000; state = 0x1000; protect = 4 })
    else if ltb x 0x3000
    then some (record { base_address = 0x2000; region_size = 0x1000; state = 0x1000; protect = 4 })
    else if ltb x 0x4000
    then some
        (record { base_address = 0x3000; region_size = 0x1000; state = 0x1000; protect = 0x104 })
    else none

three_pages-inside :
    (x : ℕ) (r : Region)
    → three_pages x ≡ some r
    → (r.base_address ≤ x)
      × (x < r.base_address + r.region_size)
      × (r.base_address + r.region_size < 2 ^ 64)
three_pages-inside x r e = ground arith

-- the pages of data are alike
three_pages-data :
    (x : ℕ)
    → 0x1000 ≤ x
    → x < 0x3000
    → (r : Region) × (three_pages x ≡ some r) × (r.state ≡ 0x1000) × (r.protect ≡ 4)
three_pages-data x lo hi = elim (Bool-cases (ltb x 0x2000)) [
  | inl t ↦ (
    record { base_address = 0x1000; region_size = 0x2000; state = 0x1000; protect = 4 },
    ground (arith, t, lo),
    refl,
    refl,
  )
  | inr t ↦ (
    record { base_address = 0x2000; region_size = 0x1000; state = 0x1000; protect = 4 },
    ground (arith, t, hi),
    refl,
    refl,
  )
]

three_pages-guard :
    (x : ℕ)
    → 0x3000 ≤ x
    → x < 0x4000
    → (r : Region) × (three_pages x ≡ some r) × (r.state ≡ 0x1000) × (r.protect ≡ 0x104)
three_pages-guard x lo hi = (
  record { base_address = 0x3000; region_size = 0x1000; state = 0x1000; protect = 0x104 },
  ground (arith, lo, hi),
  refl,
  refl,
)

three_pages-alike :
    (x y : ℕ) (r : Region)
    → three_pages x ≡ some r
    → r.base_address ≤ y
    → y < r.base_address + r.region_size
    → (r' : Region) × (three_pages y ≡ some r') × (r'.state ≡ r.state) × (r'.protect ≡ r.protect)
three_pages-alike x y r e lo hi = elim (Bool-cases (ltb x 0x3000)) [
  | inl t ↦
      let (r', e', s', p') = three_pages-data y (ground (arith, t, e)) (ground (arith, t, e)) in
      (r', e', s' ∙ ground (arith, t, e), p' ∙ ground (arith, t, e))
  | inr t ↦
      let (r', e', s', p') = three_pages-guard y (ground (arith, t, e)) (ground (arith, t, e)) in
      (r', e', s' ∙ ground (arith, t, e), p' ∙ ground (arith, t, e))
]

three_pages-IsRegionQuery : IsRegionQuery three_pages
three_pages-IsRegionQuery = record { inside = three_pages-inside; alike = three_pages-alike }

range_is_readable_lem_example :
    (b : Bool) × (range_is_readable three_pages 0x1ff8 16 ≡ some b)
    × ((b ≡ true) ↔ AllReadable three_pages 0x1ff8 0x2008)
range_is_readable_lem_example =
    range_is_readable_lem three_pages 0x1ff8 16 three_pages-IsRegionQuery (omega arith)
      (omega arith) (omega arith)
