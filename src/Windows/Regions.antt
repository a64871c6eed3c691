-- ===== src/Windows/Regions.antt =====
-- src/windows.rs: `range_is_readable`, `address_is_executable` and
-- `clone_memory_region_containing`. What VirtualQuery answers about an address is an argument.
use elden_ring_windowed_hdr.Common.{
  ℕ, zero, suc, ◌+◌, ◌-◌, ◌^◌, min, Bool, true, false, not, ◌&&◌, ◌||◌, Option, none, some, ltb,
  leb, ◌==◌, if◌then◌else◌, bit_and, Result, ok, err,
}

-- `MemoryBasicInformation`, the fields that are read
pub record Region : Type 0 where
  pub base_address : ℕ
  pub region_size : ℕ
  pub state : ℕ
  pub protect : ℕ

-- VirtualQuery: none where it does not fill the structure
abbrev pub Query : Type 0
Query = ℕ → Option Region

-- MEM_COMMIT, and neither PAGE_NOACCESS nor PAGE_GUARD
abbrev pub is_committed : Region → Bool
is_committed r = r.state == 0x1000 && bit_and r.protect 0x101 == 0

-- the tests on the region in the loop of `range_is_readable`
abbrev pub is_readable_region : Region → Bool
is_readable_region r = is_committed r && not (bit_and r.protect 0xEE == 0)

abbrev is_executable_region : Region → Bool
is_executable_region r = is_committed r && not (bit_and r.protect 0xF0 == 0)

abbrev executable_answer : Option Region → Bool
executable_answer none = false
executable_answer (some r) = is_executable_region r

unfoldable pub address_is_executable : Query → ℕ → Bool
address_is_executable query address =
    if address == 0 then false else executable_answer (query address)

-- one round of the loop: where it goes on, or none where it returns false
unfoldable pub advance : Query → ℕ → ℕ → Option ℕ
advance query current end = elim (query current) [
  | none ↦ none
  | some r ↦
      if not (is_readable_region r)
      then none
      else if leb (2 ^ 64) (r.base_address + r.region_size)
      then none
      else if leb (r.base_address + r.region_size) current
      then none
      else some (min (r.base_address + r.region_size) end)
]

-- The loop, on fuel; none means that the fuel ran out.
unfoldable pub walk : ℕ → Query → ℕ → ℕ → Option Bool
walk zero query current end = if ltb current end then none else some true
walk (suc fuel) query current end =
    if ltb current end
    then elim (advance query current end) [
      | none ↦ some false
      | some next ↦ walk fuel query next end
    ]
    else some true

-- `range_is_readable`; every round goes on by a byte at least
unfoldable pub range_is_readable : Query → ℕ → ℕ → Option Bool
range_is_readable query address size =
    if address == 0 || size == 0
    then some false
    else if leb (2 ^ 64) (address + size)
    then some false
    else walk size query address (address + size)

pub data CloneError : Type 0 where
  null_address : CloneError
  query_failed : CloneError
  not_committed : CloneError
  outside_region : CloneError
  beyond_region : CloneError
  size_overflow : CloneError
  too_large : CloneError
  allocation_failed : CloneError

-- the clone's allocation, the address of the copy, and the size of the allocation
pub record Clone : Type 0 where
  pub region : ℕ
  pub address : ℕ
  pub size : ℕ

-- The pointers of the process, by the address at which they lie.
abbrev pub Slots : Type 0
Slots = ℕ → ℕ

-- `write_bytes` and `copy_nonoverlapping` into the clone
unfoldable pub copied : Slots → ℕ → ℕ → ℕ → ℕ → Slots
copied m clone padding base size x =
    if ltb x clone
    then m x
    else if ltb x (clone + padding)
    then 0
    else if ltb x (clone + padding + size)
    then m (base + (x - (clone + padding)))
    else m x

-- the checks and the copy once the region is known
unfoldable pub clone_region :
    Slots → Option ℕ → ℕ → ℕ → ℕ → ℕ → Region → Slots × Result CloneError Clone
clone_region m allocation address before after maximum r =
    let offset = address - r.base_address in
    let padding = before - offset in
    if not (is_committed r) || r.region_size == 0
    then (m, err not_committed)
    else if ltb address r.base_address
    then (m, err outside_region)
    else if leb (2 ^ 64) (offset + after)
    then (m, err size_overflow)
    else if ltb r.region_size (offset + after)
    then (m, err beyond_region)
    else if leb (2 ^ 64) (r.region_size + padding)
    then (m, err size_overflow)
    else if ltb maximum (r.region_size + padding)
    then (m, err too_large)
    else elim allocation [
      | none ↦ (m, err allocation_failed)
      | some clone ↦ (
        copied m clone padding r.base_address r.region_size,
        ok (record {
          region = clone;
          address = clone + (padding + offset);
          size = r.region_size + padding;
        }),
      )
    ]

unfoldable pub clone_memory_region_containing :
    Slots → Query → Option ℕ → ℕ → ℕ → ℕ → ℕ → Slots × Result CloneError Clone
clone_memory_region_containing m query allocation address before after maximum =
    if address == 0 then (m, err null_address) else elim (query address) [
      | none ↦ (m, err query_failed)
      | some r ↦ clone_region m allocation address before after maximum r
    ]
