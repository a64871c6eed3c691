-- ===== src/Shadow/Install.antt =====
-- src/dxgi.rs: `install_shadow_vtable` and `expand_owned_shadow`. What the system does in one call,
-- and what another thread does to the object meanwhile, are the fields of `ShadowOs`.
use elden_ring_windowed_hdr.Common.{
  ℕ, ◌-◌, ◌*◌, ◌/◌, ◌%◌, ◌^◌, Bool, true, false, not, ◌&&◌, ◌||◌, Option, none, some, List, [], ◌∷◌,
  ◌++◌, ltb, leb, ◌==◌, if◌then◌else◌, get_or, take, drop, Result, ok, err,
}
use elden_ring_windowed_hdr.Shadow.Tables.{ShadowKind, Hook, VtableHook}
use elden_ring_windowed_hdr.Shadow.Records.{
  ShadowGeneration, ShadowRecord, Shadows, ShadowError, lock_poisoned, no_usable_vtable,
  outside_vtable, vtable_overflow, not_cloned, outside_allocation, invalid_offset, null_entry,
  already_replaced, not_protected, not_exchanged, vtable_changed, no_room, no_originals, slot,
  stored, entries, object_vtable, find_shadow_record, update_record, find_shadow_generation,
  publish_shadow_generation,
}
use elden_ring_windowed_hdr.Windows.Regions.{Slots, Query, Clone, clone_memory_region_containing}

-- `winner` is the vtable that another thread has put into the object before the exchange, if any.
pub record ShadowOs : Type 0 where
  pub poisoned : Bool
  pub query : Query
  pub allocation : Option ℕ
  pub in_dxgi : Bool
  pub read_only : Bool
  pub read_write : Bool
  pub winner : Option ℕ

-- the first hook outside the table, as an error
abbrev pub outside_fault : ℕ → List VtableHook → Option ShadowError
outside_fault entry_count [] = none
outside_fault entry_count (h ∷ hooks) =
    let rest = outside_fault entry_count hooks in
    if leb entry_count h.index then some (outside_vtable h.hook) else rest

abbrev pub raced : ShadowOs → ℕ → Slots → Slots
raced os object m = elim os.winner [ none ↦ m | some w ↦ stored m object w ]

-- the table of the originals after an expansion
abbrev pub extended : Slots → List ℕ → ShadowGeneration → ℕ → List ℕ
extended m originals g entry_count =
    take g.entry_count originals ++ drop g.entry_count (entries m g.vtable entry_count)

-- Where the linker has put each of the module's functions.
module _ (address : Hook → ℕ) where
  -- the first hook whose original entry is null or its own replacement, as an error
  abbrev pub entry_fault : List ℕ → List VtableHook → Option ShadowError
  entry_fault originals [] = none
  entry_fault originals (h ∷ hooks) =
      let rest = entry_fault originals hooks in
      if get_or originals h.index 0 == 0
      then some (null_entry h.hook)
      else if get_or originals h.index 0 == address h.hook
      then some (already_replaced h.hook)
      else rest

  abbrev pub write_hooks : Slots → ℕ → List VtableHook → Slots
  write_hooks m shadow [] = m
  write_hooks m shadow (h ∷ hooks) =
      write_hooks (stored m (slot shadow h.index) (address h.hook)) shadow hooks

  -- the second loop of `expand_owned_shadow`: a slot that held another function already stays
  abbrev pub extend_hooks : ℕ → Slots → ℕ → List VtableHook → Slots
  extend_hooks old_entry_count m shadow [] = m
  extend_hooks old_entry_count m shadow (h ∷ hooks) =
      let current = m (slot shadow h.index) in
      extend_hooks old_entry_count
        (if ltb h.index old_entry_count && not (current == address h.hook)
          then m
          else if not (current == address h.hook)
          then stored m (slot shadow h.index) (address h.hook)
          else m)
        shadow hooks

  unfoldable pub expand_owned_shadow :
      ShadowOs
      → ShadowRecord
      → ShadowGeneration
      → ℕ
      → List VtableHook
      → Shadows
      → Shadows × Result ShadowError (Unit {0})
  expand_owned_shadow os r g entry_count hooks s =
      if ltb g.entry_capacity entry_count then (s, err no_room) else elim r.originals [
        | none ↦ (s, err no_originals)
        | some originals ↦ elim (entry_fault (extended s.slots originals g entry_count) hooks) [
          | some e ↦ (s, err e)
          | none ↦ if not os.read_write then (s, err not_protected) else (
            record {
              slots = extend_hooks g.entry_count s.slots g.vtable hooks;
              records =
                  update_record r.object r.kind
                    (λ q.
                      publish_shadow_generation (record g { entry_count = entry_count })
                        (record q {
                          originals = some (extended s.slots originals g entry_count);
                          entry_count = entry_count;
                        }))
                    s.records;
            },
            if os.read_only then ok tt else err not_protected,
          )
        ]
      ]

  -- from `publish_shadow_record` on: `m` are the slots with the hooks written
  unfoldable pub exchange :
      ShadowOs → ℕ → ℕ → Clone → ShadowRecord → Shadows → Shadows × Result ShadowError (Unit {0})
  exchange os object current c r s =
      let m = raced os object s.slots in
      let retired : Shadows = record {
        slots = m;
        records = record r { active = false } ∷ s.records;
      } in
      if object == 0 || not (object % 8 == 0)
      then (retired, err not_exchanged)
      else if not (m object == current)
      then (retired, err vtable_changed)
      else (
        record {
          slots = stored m object c.address;
          records =
              publish_shadow_generation
                (record {
                  vtable = c.address;
                  entry_count = r.entry_count;
                  entry_capacity = (c.size - (c.address - c.region)) / 8;
                  region_base = c.region;
                  region_size = c.size;
                })
                r
              ∷ s.records;
        },
        ok tt,
      )

  -- from the clone on
  unfoldable pub install_clone :
      ShadowOs
      → ℕ
      → ShadowKind
      → ℕ
      → List VtableHook
      → ℕ
      → Clone
      → Shadows
      → Shadows × Result ShadowError (Unit {0})
  install_clone os object kind entry_count hooks current c s =
      let originals = entries s.slots c.address entry_count in
      let written = write_hooks s.slots c.address hooks in
      if ltb c.address c.region
      then (s, err outside_allocation)
      else if ltb c.size (c.address - c.region)
      then (s, err invalid_offset)
      else elim (entry_fault originals hooks) [
        | some e ↦ (s, err e)
        | none ↦
            if not os.read_only
            then (record s { slots = written }, err not_protected)
            else exchange os object current c
                (record {
                  object = object;
                  kind = kind;
                  active = true;
                  entry_count = entry_count;
                  root_original_vtable = current;
                  live_root_slots = os.in_dxgi;
                  originals = some originals;
                  generations = [];
                })
                (record s { slots = written })
      ]

  -- for an object without a record
  unfoldable pub install_root :
      ShadowOs
      → ℕ
      → ShadowKind
      → ℕ
      → List VtableHook
      → ℕ
      → Shadows
      → Shadows × Result ShadowError (Unit {0})
  install_root os object kind entry_count hooks current s =
      if leb (2 ^ 64) (entry_count * 8)
      then (s, err vtable_overflow)
      else let (m, outcome) =
          clone_memory_region_containing s.slots os.query os.allocation current 8 (entry_count * 8)
            0x100000 in
        elim outcome [
          | err e ↦ (record s { slots = m }, err (not_cloned e))
          | ok c ↦ install_clone os object kind entry_count hooks current c (record s { slots = m })
        ]

  -- for an object that has a record
  unfoldable pub install_again :
      ShadowOs
      → ShadowRecord
      → ℕ
      → List VtableHook
      → ℕ
      → Shadows
      → Shadows × Result ShadowError (Unit {0})
  install_again os r entry_count hooks current s =
      elim (find_shadow_generation current r.generations) [
        | none ↦ (s, ok tt)
        | some g ↦
            if leb entry_count g.entry_count
            then (s, ok tt)
            else expand_owned_shadow os r g entry_count hooks s
      ]

  -- once the object's vtable is read and the hooks are within the table
  unfoldable pub install_checked :
      ShadowOs
      → ℕ
      → ShadowKind
      → ℕ
      → List VtableHook
      → ℕ
      → Shadows
      → Shadows × Result ShadowError (Unit {0})
  install_checked os object kind entry_count hooks current s =
      elim (find_shadow_record object kind s.records) [
        | some r ↦ install_again os r entry_count hooks current s
        | none ↦ install_root os object kind entry_count hooks current s
      ]

  unfoldable pub install_shadow_vtable :
      ShadowOs
      → ℕ
      → ShadowKind
      → ℕ
      → List VtableHook
      → Shadows
      → Shadows × Result ShadowError (Unit {0})
  install_shadow_vtable os object kind entry_count hooks s =
      if os.poisoned then (s, err lock_poisoned) else elim (object_vtable s.slots object) [
        | err e ↦ (s, err e)
        | ok current ↦
            if entry_count == 0
            then (s, err no_usable_vtable)
            else elim (outside_fault entry_count hooks) [
              | some e ↦ (s, err e)
              | none ↦ install_checked os object kind entry_count hooks current s
            ]
      ]
