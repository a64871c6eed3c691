-- ===== src/Shadow/Reach.antt =====
-- src/dxgi.rs: what a hook calls through, after any sequence of installations and releases, while
-- other code writes to the process's pointers as it likes.
use elden_ring_windowed_hdr.Common.{
  ℕ, ◌≡◌, ◌≢◌, ◌<◌, sym, subst, inl, inr, not, ◌&&◌, some, [], get_or, ◌==◌, arith, Bool-cases,
}
use elden_ring_windowed_hdr.Shadow.Tables.{
  ShadowKind, Hook, hooks_of, Interface, vtable_len, listed, shadow_replacement, hooks_agree,
}
use elden_ring_windowed_hdr.Shadow.Records.{
  ShadowRecord, Shadows, slot, is_own, find_shadow_record, load_saved_record_function,
  load_record_function, load_object_function, release_shadow_object,
}
use elden_ring_windowed_hdr.Shadow.Install.{ShadowOs, install_shadow_vtable}
use elden_ring_windowed_hdr.Shadow.Sound.{IsSound, AllSound, find-IsSound}
use elden_ring_windowed_hdr.Shadow.Preserve.{install-AllSound, release-AllSound}
use elden_ring_windowed_hdr.Windows.Regions.{Slots}

-- The states that the hooks can meet.
pub data Reach (address : Hook → ℕ) : Shadows → Type 0 where
  start : (m : Slots) → Reach address (record { slots = m; records = [] })
  installed :
      (os : ShadowOs) (object : ℕ) (k : ShadowKind) (f : Interface k) (s : Shadows)
      → Reach address s
      → Reach address (
          (install_shadow_vtable address os object k
            (vtable_len f)
            (hooks_of k (vtable_len f))
            s).0)
  released :
      (remaining object : ℕ) (k : ShadowKind) (s : Shadows)
      → Reach address s
      → Reach address ((release_shadow_object remaining object k s).1)
  others : (m : Slots) (s : Shadows) → Reach address s → Reach address (record s { slots = m })

module _ (address : Hook → ℕ) where
  pub Reach-AllSound : (s : Shadows) → Reach address s → AllSound address s.records
  Reach-AllSound _ (start m) = tt
  Reach-AllSound _ (installed os object k f s way) =
      install-AllSound address os object k f s (Reach-AllSound s way)
  Reach-AllSound _ (released remaining object k s way) =
      release-AllSound address remaining object k s (Reach-AllSound s way)
  Reach-AllSound _ (others m s way) = Reach-AllSound s way

  -- a sound record has something to call at each hooked index, which is not the hook
  load_record_function_sound :
      (m : Slots) (r : ShadowRecord) (i : ℕ) (h : Hook)
      → IsSound address r
      → i < r.entry_count
      → shadow_replacement r.kind i ≡ some h
      → (p : ℕ) × (load_record_function address m r i ≡ some p) × (p ≢ 0) × (p ≢ address h)
  unfolding load_record_function load_saved_record_function
  load_record_function_sound m r i h own lt here =
      let table : listed (hooks_of r.kind (vtable_len own.interface)) i ≡ some h =
        ground (arith, hooks_agree own.interface i, own.counts, lt, here) in
      let (live, other) = own.callable i h table in
      let saved : load_saved_record_function r i ≡ some (get_or own.originals i 0) =
        ground (arith, own.holds, lt, live) in
      let root = m (slot r.root_original_vtable i) in
      elim (Bool-cases
        (r.live_root_slots && (not (root == 0) && not (is_own address r.kind i root)))) [
          | inl t ↦ (
            root,
            ground (arith, saved, t),
            (λ z. ground (arith, t, z)),
            λ z. ground (arith, t, here, z),
          )
          | inr t ↦ (get_or own.originals i 0, ground (arith, saved, t, live), live, other)
        ]

  -- Whatever sequence of installations and releases has run, with the system's calls succeeding
  -- or failing, other threads winning the exchange and other code writing any pointers between
  -- them, a hook that looks up the function behind its own slot of an object that has a record
  -- finds one, if the record has the slot; it is not null and it is not the hook itself.
  pub load_object_function_lem :
      (s : Shadows) (object : ℕ) (k : ShadowKind) (r : ShadowRecord) (i : ℕ) (h : Hook)
      → Reach address s
      → find_shadow_record object k s.records ≡ some r
      → i < r.entry_count
      → shadow_replacement k i ≡ some h
      → (p : ℕ) × (load_object_function address s object k i ≡ some p) × (p ≢ 0) × (p ≢ address h)
  unfolding load_object_function
  load_object_function_lem s object k r i h way found lt here =
      let (own, kind, at) =
        find-IsSound address object k s.records r (Reach-AllSound s way) found in
      rw (found, load_object_function)
        (load_record_function_sound s.slots r i h own lt
          (subst (λ l. shadow_replacement l i ≡ some h) (sym kind) here))
