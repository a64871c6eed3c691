-- ===== src/Shadow/Fresh.antt =====
-- src/dxgi.rs: the first installation on an object, and the expansion of a shadow.
use elden_ring_windowed_hdr.Common.{
  ℕ, ◌≡◌, ◌≢◌, ◌<◌, ◌≤◌, sym, ap, subst, ◌∙◌, ◌+◌, ◌-◌, ◌*◌, ◌/◌, ◌%◌, ◌⊎◌, true, false, none, some,
  List, [], ◌∷◌, get_or, arith, ok,
}
use elden_ring_windowed_hdr.Shadow.Tables.{
  ShadowKind, same_kind_refl, Hook, VtableHook, hooks_of, Interface, vtable_len, listed,
  hooks_agree, factory0, factory1, factory2, factory3, factory4, factory5, factory6, factory7,
  swap_chain0, swap_chain1, swap_chain2, swap_chain3, swap_chain4,
}
use elden_ring_windowed_hdr.Shadow.Records.{
  ShadowRecord, Shadows, load_saved_record_function, nonnull, slot, stored, entries, object_vtable,
  find_shadow_record,
}
use elden_ring_windowed_hdr.Shadow.Install.{
  ShadowOs, entry_fault, write_hooks, exchange, install_clone, install_root, install_checked,
  install_shadow_vtable,
}
use elden_ring_windowed_hdr.Shadow.Writes.{
  hooks_of-IsDistinct, outside_fault-none, get_or-entries, hooked, write_hooks_lem,
  write_hooks_frame, entry_fault-callable,
}
use elden_ring_windowed_hdr.Windows.Regions.{
  Slots, Region, Clone, copied, is_committed, clone_region, clone_memory_region_containing,
}

-- What a first installation needs: an object that has no record, whose vtable lies with a table's
-- length of slots in a committed region that has room in a megabyte, a system that provides a
-- clone that fits in the address space and is not where the object is, and original entries that
-- are neither null nor the hooks.
pub record IsReady (address : Hook → ℕ) (os : ShadowOs) (object : ℕ) (k : ShadowKind)
    (f : Interface k) (s : Shadows) (r : Region) (clone : ℕ) : Type 0 where
  pub unpoisoned : os.poisoned ≡ false
  pub alone : os.winner ≡ none
  pub protects : os.read_only ≡ true
  pub aligned : (object ≢ 0) × (object % 8 ≡ 0)
  pub fresh : find_shadow_record object k s.records ≡ none
  pub table : s.slots object ≢ 0
  pub region : os.query (s.slots object) ≡ some r
  pub committed : is_committed r ≡ true
  pub start : r.base_address ≤ s.slots object
  pub end : s.slots object + 8 * vtable_len f ≤ r.base_address + r.region_size
  pub room : r.region_size + 8 ≤ 0x100000
  pub allocated : os.allocation ≡ some clone
  pub apart : (object < clone) ⊎ (clone + (r.region_size + 8) ≤ object)
  pub callable :
      (i : ℕ) (h : Hook)
      → listed (hooks_of k (vtable_len f)) i ≡ some h
      → (s.slots (slot (s.slots object) i) ≢ 0) × (s.slots (slot (s.slots object) i) ≢ address h)

-- every table is short
vtable_len-small : {k : ShadowKind} (f : Interface k) → (0 < vtable_len f) × (vtable_len f < 42)
unfolding vtable_len
vtable_len-small factory0 = (omega arith, omega arith)
vtable_len-small factory1 = (omega arith, omega arith)
vtable_len-small factory2 = (omega arith, omega arith)
vtable_len-small factory3 = (omega arith, omega arith)
vtable_len-small factory4 = (omega arith, omega arith)
vtable_len-small factory5 = (omega arith, omega arith)
vtable_len-small factory6 = (omega arith, omega arith)
vtable_len-small factory7 = (omega arith, omega arith)
vtable_len-small swap_chain0 = (omega arith, omega arith)
vtable_len-small swap_chain1 = (omega arith, omega arith)
vtable_len-small swap_chain2 = (omega arith, omega arith)
vtable_len-small swap_chain3 = (omega arith, omega arith)
vtable_len-small swap_chain4 = (omega arith, omega arith)

-- a listed index is within the table
listed-within :
    {k : ShadowKind} (f : Interface k) (i : ℕ) (h : Hook)
    → listed (hooks_of k (vtable_len f)) i ≡ some h
    → i < vtable_len f
listed-within f i h e = ground (arith, hooks_agree f i, e)

-- The records and the slots that a first installation leaves.
module _ (address : Hook → ℕ) (os : ShadowOs) (object : ℕ) (k : ShadowKind) (f : Interface k)
    (s : Shadows) (r : Region) (clone : ℕ) (ready : IsReady address os object k f s r clone) where
  abbrev shadow : ℕ
  shadow = clone + ((8 - (s.slots object - r.base_address)) + (s.slots object - r.base_address))

  abbrev cloned : Clone
  cloned = record {
    region = clone;
    address = shadow;
    size = r.region_size + (8 - (s.slots object - r.base_address));
  }

  abbrev copy : Slots
  copy = copied s.slots clone (8 - (s.slots object - r.base_address)) r.base_address r.region_size

  clone-copy :
      clone_memory_region_containing s.slots os.query os.allocation
        (s.slots object)
        8
        (vtable_len f * 8)
        0x100000
      ≡ (copy, ok cloned)
  unfolding clone_memory_region_containing clone_region
  clone-copy = ground (
    arith,
    ready.table,
    ready.region,
    ready.committed,
    ready.start,
    ready.end,
    ready.room,
    ready.allocated,
    vtable_len-small f,
  )

  copy-table : (i : ℕ) → i < vtable_len f → copy (slot shadow i) ≡ s.slots (slot (s.slots object) i)
  unfolding copied
  copy-table i lt =
      let at : r.base_address
            + ((shadow + 8 * i) - (clone + (8 - (s.slots object - r.base_address))))
          ≡ s.slots object + 8 * i =
        omega (arith, ready.start) in
      ground (arith, at, ready.start, ready.end, lt)

  copy-outside : (x : ℕ) → (x < clone) ⊎ (clone + (r.region_size + 8) ≤ x) → copy x ≡ s.slots x
  unfolding copied
  copy-outside x out = ground (arith, out)

  abbrev hooks : List VtableHook
  hooks = hooks_of k (vtable_len f)

  abbrev written : Slots
  written = write_hooks address copy shadow hooks

  written-table :
      (i : ℕ)
      → i < vtable_len f
      → written (slot shadow i)
        ≡ hooked address (listed hooks i) (s.slots (slot (s.slots object) i))
  written-table i lt =
      write_hooks_lem address copy shadow hooks i (hooks_of-IsDistinct f)
      ∙ ap (hooked address (listed hooks i)) (copy-table i lt)

  written-outside :
      (x : ℕ) → (x < clone) ⊎ (clone + (r.region_size + 8) ≤ x) → written x ≡ s.slots x
  written-outside x out =
      write_hooks_frame address copy shadow hooks x
        (λ i h e z. absurd (ground (arith, out, z, listed-within f i h e, ready.start, ready.end)))
        (hooks_of-IsDistinct f)
      ∙ copy-outside x out

  unfaulted : entry_fault address (entries copy shadow (vtable_len f)) hooks ≡ none
  unfaulted =
      entry_fault-callable address (entries copy shadow (vtable_len f)) hooks
        (λ i h e.
          let lt = listed-within f i h e in
          let original : get_or (entries copy shadow (vtable_len f)) i 0
              ≡ s.slots (slot (s.slots object) i) =
            get_or-entries copy shadow (vtable_len f) i lt ∙ copy-table i lt in
          subst (λ p. (p ≢ 0) × (p ≢ address h)) (sym original) (ready.callable i h e))
        (hooks_of-IsDistinct f)

  abbrev installed_record : ShadowRecord
  installed_record = record {
    object = object;
    kind = k;
    active = true;
    entry_count = vtable_len f;
    root_original_vtable = s.slots object;
    live_root_slots = os.in_dxgi;
    originals = some (entries copy shadow (vtable_len f));
    generations =
        record {
          vtable = shadow;
          entry_count = vtable_len f;
          entry_capacity = (cloned.size - (shadow - clone)) / 8;
          region_base = clone;
          region_size = cloned.size;
        }
        ∷ [];
  }

  abbrev final : Shadows
  final = record { slots = stored written object shadow; records = installed_record ∷ s.records }

  install_clone-final :
      install_clone address os object k
        (vtable_len f)
        hooks
        (s.slots object)
        cloned
        (record s { slots = copy })
      ≡ (final, ok tt)
  unfolding install_clone exchange
  install_clone-final = ground (
    arith,
    unfaulted,
    ready.protects,
    ready.alone,
    ready.aligned,
    ready.start,
    ready.end,
    written-outside object ready.apart,
  )

  install-final : install_shadow_vtable address os object k (vtable_len f) hooks s ≡ (final, ok tt)
  unfolding install_shadow_vtable install_checked install_root object_vtable
  install-final = ground (
    arith,
    install_clone-final,
    clone-copy,
    ready.unpoisoned,
    ready.table,
    ready.aligned,
    ready.fresh,
    outside_fault-none f,
    vtable_len-small f,
  )

  stored-slot :
      (i : ℕ)
      → i < vtable_len f
      → final.slots (slot shadow i)
        ≡ hooked address (listed hooks i) (s.slots (slot (s.slots object) i))
  stored-slot i lt = ground (arith, ready.apart, written-table i lt, lt, ready.start, ready.end)

  saved-slot :
      (i : ℕ)
      → i < vtable_len f
      → load_saved_record_function installed_record i ≡ nonnull (s.slots (slot (s.slots object) i))
  unfolding load_saved_record_function
  saved-slot i lt =
      ground (arith, lt, get_or-entries copy shadow (vtable_len f) i lt, copy-table i lt)

  found-record : find_shadow_record object k final.records ≡ some installed_record
  unfolding find_shadow_record
  found-record = ground (arith, same_kind_refl k)

-- The first installation on an object succeeds where the object, the system and the original table
-- are as it needs. Then the object's vtable is the shadow. Each slot of the shadow holds its hook
-- where the interface's list has one, and what the object's table held where it has none. The
-- object's record gives, for each slot, what the object's table held. No pointer outside the
-- clone changes but the object's own, so that the original table and its other objects keep
-- theirs.
pub install_shadow_vtable_lem :
    (address : Hook → ℕ) (os : ShadowOs) (object : ℕ) (k : ShadowKind) (f : Interface k)
    (s : Shadows) (r : Region) (clone : ℕ)
    → IsReady address os object k f s r clone
    → (shadow : ℕ) × (t : Shadows) × (q : ShadowRecord) × (install_shadow_vtable address os object k
          (vtable_len f)
          (hooks_of k (vtable_len f))
          s
        ≡ (t, ok tt))
      × (t.slots object ≡ shadow)
      × ((i : ℕ)
          → i < vtable_len f
          → t.slots (slot shadow i)
            ≡ hooked address
                (listed (hooks_of k (vtable_len f)) i)
                (s.slots (slot (s.slots object) i)))
      × (find_shadow_record object k t.records ≡ some q)
      × ((i : ℕ)
          → i < vtable_len f
          → load_saved_record_function q i ≡ nonnull (s.slots (slot (s.slots object) i)))
      × ((x : ℕ)
          → (x < clone) ⊎ (clone + (r.region_size + 8) ≤ x)
          → x ≢ object
          → t.slots x ≡ s.slots x)
install_shadow_vtable_lem address os object k f s r clone ready = (
  shadow address os object k f s r clone ready,
  final address os object k f s r clone ready,
  installed_record address os object k f s r clone ready,
  install-final address os object k f s r clone ready,
  ground arith,
  stored-slot address os object k f s r clone ready,
  found-record address os object k f s r clone ready,
  saved-slot address os object k f s r clone ready,
  λ x out other. ground (arith, other, written-outside address os object k f s r clone ready x out),
)
