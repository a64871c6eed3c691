-- ===== src/Shadow/Tests.antt =====
-- Runs of the theorems on the shadow vtables at a concrete object.
use elden_ring_windowed_hdr.Common.{
  ℕ, ◌≡◌, ◌≢◌, ◌<◌, ◌≤◌, refl, ◌+◌, ◌⊎◌, inl, true, false, none, some, [], ◌∷◌, ltb, ◌==◌,
  if◌then◌else◌, arith, ok,
}
use elden_ring_windowed_hdr.Shadow.Tables.{
  swap_chain, Hook, present, hooks_of, swap_chain_hooks, swap_chain0, swap_chain4, vtable_len,
  listed, shadow_replacement,
}
use elden_ring_windowed_hdr.Shadow.Records.{
  ShadowGeneration, ShadowRecord, Shadows, slot, entries, nonnull, object_vtable,
  find_shadow_record, find_shadow_generation, load_saved_record_function, load_object_function,
}
use elden_ring_windowed_hdr.Shadow.Install.{
  ShadowOs, exchange, install_clone, install_root, install_checked, install_shadow_vtable,
  expand_owned_shadow,
}
use elden_ring_windowed_hdr.Shadow.Writes.{hooked}
use elden_ring_windowed_hdr.Shadow.Fresh.{IsReady, install_shadow_vtable_lem}
use elden_ring_windowed_hdr.Shadow.Expand.{expand_owned_shadow_lem}
use elden_ring_windowed_hdr.Shadow.Reach.{Reach, start, installed, load_object_function_lem}
use elden_ring_windowed_hdr.Windows.Regions.{
  Slots, Region, copied, clone_region, clone_memory_region_containing,
}

-- all hooks at 50000; a swap chain at 8 with its table at 1000; the clone goes to 100000
abbrev address : Hook → ℕ
address h = 50000

abbrev pointers : Slots
pointers x = if x == 8 then 1000 else x + 1

abbrev region : Region
region = record { base_address = 1000; region_size = 400; state = 0x1000; protect = 2 }

abbrev os : ShadowOs
os = record {
  poisoned = false;
  query = λ x. if ltb x 1000 then none else if ltb x 1400 then some region else none;
  allocation = some 100000;
  in_dxgi = true;
  read_only = true;
  read_write = true;
  winner = none;
}

abbrev before : Shadows
before = record { slots = pointers; records = [] }

abbrev after : Shadows
after =
    (install_shadow_vtable address os 8 swap_chain (vtable_len swap_chain0)
      (hooks_of swap_chain (vtable_len swap_chain0)) before).0

abbrev generation : ShadowGeneration
generation = record {
  vtable = 100008;
  entry_count = 18;
  entry_capacity = 50;
  region_base = 100000;
  region_size = 408;
}

abbrev known : ShadowRecord
known = record {
  object = 8;
  kind = swap_chain;
  active = true;
  entry_count = 18;
  root_original_vtable = 1000;
  live_root_slots = true;
  originals = some (entries pointers 1000 18);
  generations = generation ∷ [];
}

after-Reach : Reach address after
after-Reach = installed os 8 swap_chain swap_chain0 before (start pointers)

after-known : find_shadow_record 8 swap_chain after.records ≡ some known
unfolding install_shadow_vtable install_checked install_root install_clone exchange
    clone_memory_region_containing clone_region copied object_vtable find_shadow_record vtable_len
    hooks_of swap_chain_hooks
after-known = refl

before-IsReady : IsReady address os 8 swap_chain swap_chain0 before region 100000
unfolding vtable_len hooks_of swap_chain_hooks find_shadow_record
before-IsReady = record {
  unpoisoned = refl;
  alone = refl;
  protects = refl;
  aligned = (omega arith, refl);
  fresh = refl;
  table = omega arith;
  region = refl;
  committed = refl;
  start = omega arith;
  end = omega arith;
  room = omega arith;
  allocated = refl;
  apart = inl (omega arith);
  callable = λ i h e. (λ z. ground (arith, z), λ z. ground (arith, z));
}

load_object_function_lem_example :
    (p : ℕ) × (load_object_function address after 8 swap_chain 8 ≡ some p)
    × (p ≢ 0)
    × (p ≢ address present)
unfolding shadow_replacement
load_object_function_lem_example =
    load_object_function_lem address after 8 swap_chain known 8 present after-Reach after-known
      (omega arith) refl

install_shadow_vtable_lem_example :
    (shadow : ℕ) × (t : Shadows) × (q : ShadowRecord) × (install_shadow_vtable address os 8
        swap_chain
        (vtable_len swap_chain0)
        (hooks_of swap_chain (vtable_len swap_chain0))
        before
      ≡ (t, ok tt))
    × (t.slots 8 ≡ shadow)
    × ((i : ℕ)
        → i < vtable_len swap_chain0
        → t.slots (slot shadow i)
          ≡ hooked address
              (listed (hooks_of swap_chain (vtable_len swap_chain0)) i)
              (pointers (slot (pointers 8) i)))
    × (find_shadow_record 8 swap_chain t.records ≡ some q)
    × ((i : ℕ)
        → i < vtable_len swap_chain0
        → load_saved_record_function q i ≡ nonnull (pointers (slot (pointers 8) i)))
    × ((x : ℕ) → (x < 100000) ⊎ (100408 ≤ x) → x ≢ 8 → t.slots x ≡ pointers x)
install_shadow_vtable_lem_example =
    install_shadow_vtable_lem address os 8 swap_chain swap_chain0 before region 100000
      before-IsReady

expand_owned_shadow_lem_example :
    (t : Shadows) × (q : ShadowRecord) × ((expand_owned_shadow address os known generation
        (vtable_len swap_chain4)
        (hooks_of swap_chain (vtable_len swap_chain4))
        after).0
      ≡ t)
    × ((i : ℕ)
        → t.slots (slot 100008 i) ≡ (
            if ltb i 18
            then after.slots (slot 100008 i)
            else hooked address
                (listed (hooks_of swap_chain (vtable_len swap_chain4)) i)
                (after.slots (slot 100008 i))))
    × (find_shadow_record 8 swap_chain t.records ≡ some q)
    × (q.entry_count ≡ vtable_len swap_chain4)
    × ((i : ℕ)
        → i < vtable_len swap_chain4
        → load_saved_record_function q i ≡ (
            if ltb i 18
            then load_saved_record_function known i
            else nonnull (after.slots (slot 100008 i))))
    × ((x : ℕ)
        → ((i : ℕ) (h : Hook)
            → listed (hooks_of swap_chain (vtable_len swap_chain4)) i ≡ some h
            → x ≢ slot 100008 i)
        → t.slots x ≡ after.slots x)
unfolding find_shadow_generation expand_owned_shadow install_shadow_vtable install_checked
    install_root install_clone exchange clone_memory_region_containing clone_region copied
    object_vtable find_shadow_record vtable_len hooks_of swap_chain_hooks
expand_owned_shadow_lem_example =
    expand_owned_shadow_lem address os known generation swap_chain4 100008 after after-Reach
      after-known refl refl
