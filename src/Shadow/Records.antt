-- ===== src/Shadow/Records.antt =====
-- src/dxgi.rs: the records of the installed shadow vtables, and how a hook finds the function that
-- it calls through. A function's address and a pointer are numbers, and 0 is null.
use elden_ring_windowed_hdr.Common.{
  ℕ, zero, suc, ◌+◌, ◌*◌, Bool, false, not, ◌&&◌, Option, none, some, List, [], ◌∷◌, leb, ◌==◌,
  if◌then◌else◌, get_or, Result, ok, err,
}
use elden_ring_windowed_hdr.Shadow.Tables.{ShadowKind, same_kind, Hook, shadow_replacement}
use elden_ring_windowed_hdr.Windows.Regions.{Slots, CloneError}

pub record ShadowGeneration : Type 0 where
  pub vtable : ℕ
  pub entry_count : ℕ
  pub entry_capacity : ℕ
  pub region_base : ℕ
  pub region_size : ℕ

-- `originals` is none where its pointer is null; the generations are the latest first.
pub record ShadowRecord : Type 0 where
  pub object : ℕ
  pub kind : ShadowKind
  pub active : Bool
  pub entry_count : ℕ
  pub root_original_vtable : ℕ
  pub live_root_slots : Bool
  pub originals : Option (List ℕ)
  pub generations : List ShadowGeneration

-- The process's pointers, and the records from `SHADOW_RECORDS` on.
pub record Shadows : Type 0 where
  pub slots : Slots
  pub records : List ShadowRecord

pub data ShadowError : Type 0 where
  lock_poisoned : ShadowError
  null_object : ShadowError
  null_vtable : ShadowError
  no_usable_vtable : ShadowError
  outside_vtable : Hook → ShadowError
  vtable_overflow : ShadowError
  not_cloned : CloneError → ShadowError
  outside_allocation : ShadowError
  invalid_offset : ShadowError
  null_entry : Hook → ShadowError
  already_replaced : Hook → ShadowError
  not_protected : ShadowError
  not_exchanged : ShadowError
  vtable_changed : ShadowError
  no_room : ShadowError
  no_originals : ShadowError

-- the address of the slot at an index of a vtable
abbrev pub slot : ℕ → ℕ → ℕ
slot vtable index = vtable + 8 * index

abbrev pub stored : Slots → ℕ → ℕ → Slots
stored m address value x = if x == address then value else m x

-- the slice of the first slots of a vtable, as a list of its own
abbrev pub entries : Slots → ℕ → ℕ → List ℕ
entries m vtable zero = []
entries m vtable (suc count) = m vtable ∷ entries m (vtable + 8) count

unfoldable pub object_vtable : Slots → ℕ → Result ShadowError ℕ
object_vtable m object =
    if object == 0
    then err null_object
    else if m object == 0
    then err null_vtable
    else ok (m object)

-- the test of `find_shadow_record` on one record
abbrev pub matches : ℕ → ShadowKind → ShadowRecord → Bool
matches object kind r = r.object == object && (same_kind r.kind kind && r.active)

unfoldable pub find_shadow_record : ℕ → ShadowKind → List ShadowRecord → Option ShadowRecord
find_shadow_record object kind [] = none
find_shadow_record object kind (r ∷ rs) =
    let rest = find_shadow_record object kind rs in if matches object kind r then some r else rest

-- stores through the pointer that `find_shadow_record` returns
unfoldable pub update_record :
    ℕ → ShadowKind → (ShadowRecord → ShadowRecord) → List ShadowRecord → List ShadowRecord
update_record object kind f [] = []
update_record object kind f (r ∷ rs) =
    let rest = update_record object kind f rs in
    if matches object kind r then f r ∷ rs else r ∷ rest

unfoldable pub find_shadow_generation : ℕ → List ShadowGeneration → Option ShadowGeneration
find_shadow_generation vtable [] = none
find_shadow_generation vtable (g ∷ gs) =
    let rest = find_shadow_generation vtable gs in if g.vtable == vtable then some g else rest

abbrev pub publish_shadow_generation : ShadowGeneration → ShadowRecord → ShadowRecord
publish_shadow_generation g r = record r { generations = g ∷ r.generations }

-- `then` of a bool on a pointer that is not null
abbrev pub nonnull : ℕ → Option ℕ
nonnull p = if p == 0 then none else some p

abbrev saved_entry : Option (List ℕ) → ℕ → Option ℕ
saved_entry none index = none
saved_entry (some originals) index = nonnull (get_or originals index 0)

unfoldable pub load_saved_record_function : ShadowRecord → ℕ → Option ℕ
load_saved_record_function r index =
    if leb r.entry_count index then none else saved_entry r.originals index

-- Where the linker has put each of the module's functions.
module _ (address : Hook → ℕ) where
  -- whether `shadow_replacement` of the index is this pointer
  abbrev pub is_own : ShadowKind → ℕ → ℕ → Bool
  is_own kind index p = elim (shadow_replacement kind index) [
    | none ↦ false
    | some hook ↦ p == address hook
  ]

  unfoldable pub load_record_function : Slots → ShadowRecord → ℕ → Option ℕ
  load_record_function m r index = elim (load_saved_record_function r index) [
    | none ↦ none
    | some saved ↦
        let current_root = m (slot r.root_original_vtable index) in
        nonnull (
          if r.live_root_slots
          then (if not (current_root == 0) && not (is_own r.kind index current_root)
              then current_root
              else saved)
          else saved)
  ]

  unfoldable pub load_object_function : Shadows → ℕ → ShadowKind → ℕ → Option ℕ
  load_object_function s object kind index = elim (find_shadow_record object kind s.records) [
    | none ↦ none
    | some r ↦ load_record_function s.slots r index
  ]

-- `release_shadow_object`, as far as it changes the records: the object's own Release answers
-- `remaining`.
unfoldable pub release_shadow_object : ℕ → ℕ → ShadowKind → Shadows → ℕ × Shadows
release_shadow_object remaining object kind s = elim (find_shadow_record object kind s.records) [
  | none ↦ (0, s)
  | some r ↦ elim (load_saved_record_function r 2) [
    | none ↦ (0, s)
    | some function ↦
        if remaining == 0
        then (
          remaining,
          record s {
            records = update_record object kind (λ q. record q { active = false }) s.records;
          },
        )
        else (remaining, s)
  ]
]
