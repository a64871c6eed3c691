-- ===== src/Shadow/Preserve.antt =====
-- src/dxgi.rs: every installation of a shadow vtable keeps the records sound.
use elden_ring_windowed_hdr.Common.{
  ℕ, length-append, length-take, length-drop, ◌≡◌, ◌<◌, refl, sym, ap, ◌∙◌, subst, ◌≤◌, inl, inr,
  not, none, some, List, length, ltb, leb, ◌==◌, arith, Bool-cases, Option-cases, Result-cases,
}
use elden_ring_windowed_hdr.Shadow.Tables.{
  ShadowKind, Hook, VtableHook, hooks_of, Interface, vtable_len,
}
use elden_ring_windowed_hdr.Shadow.Records.{
  object_vtable, ShadowGeneration, ShadowRecord, Shadows, find_shadow_record,
  find_shadow_generation, publish_shadow_generation, load_saved_record_function,
  release_shadow_object,
}
use elden_ring_windowed_hdr.Shadow.Install.{
  ShadowOs, entry_fault, extended, expand_owned_shadow, install_again, install_checked,
  install_shadow_vtable, outside_fault,
}
use elden_ring_windowed_hdr.Windows.Regions.{Slots}
use elden_ring_windowed_hdr.Shadow.Sound.{
  find_shadow_generation-vtable, publish-OneVtable, length-entries, IsSound, AllSound,
  entry_fault-none, find-IsSound, update-AllSound,
}
use elden_ring_windowed_hdr.Shadow.Published.{retired-IsSound, install_root-AllSound}

-- Where the linker has put each of the module's functions.
module _ (address : Hook → ℕ) where
  -- the originals after an expansion are as many as the table's slots
  length-extended :
      (m : Slots) (originals : List ℕ) (g : ShadowGeneration) (count : ℕ)
      → length originals ≡ g.entry_count
      → g.entry_count ≤ count
      → length (extended m originals g count) ≡ count
  length-extended m originals g count all le =
      rw length-append (rw length-take (rw length-drop (rw length-entries (omega arith))))

  -- the preserved slice is the whole table of the originals
  pub length-preserved :
      (r : ShadowRecord) (g : ShadowGeneration) (originals : List ℕ) (v : ℕ)
      → IsSound address r
      → r.originals ≡ some originals
      → find_shadow_generation v r.generations ≡ some g
      → length originals ≡ g.entry_count
  length-preserved r g originals v sound held found =
      let same : sound.originals ≡ originals = ground (arith, held, sound.holds) in
      ap length (sym same)
      ∙ sound.complete
      ∙ sym sound.counts
      ∙ sym ((sound.generations v v g g found found).1)

  expanded-IsSound :
      (m : Slots) (r : ShadowRecord) (g : ShadowGeneration) (f : Interface r.kind)
      (originals : List ℕ) (v : ℕ)
      → IsSound address r
      → r.originals ≡ some originals
      → find_shadow_generation v r.generations ≡ some g
      → g.entry_count < vtable_len f
      → entry_fault address (extended m originals g (vtable_len f)) (hooks_of r.kind (vtable_len f))
        ≡ none
      → IsSound address (
          publish_shadow_generation
            (record g { entry_count = vtable_len f })
            (record r {
              originals = some (extended m originals g (vtable_len f));
              entry_count = vtable_len f;
            }))
  expanded-IsSound m r g f originals v sound held found lt free = record {
    interface = f;
    originals = extended m originals g (vtable_len f);
    counts = refl;
    holds = refl;
    complete =
        length-extended m originals g (vtable_len f)
          (length-preserved r g originals v sound held found) (omega (arith, lt));
    callable = λ i h l. entry_fault-none address _ _ i h free l;
    generations =
        publish-OneVtable (record g { entry_count = vtable_len f }) r.generations
          λ w h e.
            (sound.generations w v h g e found).0
            ∙ sym (find_shadow_generation-vtable v r.generations g found);
  }

  expand-AllSound :
      (os : ShadowOs) (r : ShadowRecord) (g : ShadowGeneration) (f : Interface r.kind) (v : ℕ)
      (s : Shadows)
      → AllSound address s.records
      → IsSound address r
      → find_shadow_record r.object r.kind s.records ≡ some r
      → find_shadow_generation v r.generations ≡ some g
      → g.entry_count < vtable_len f
      → AllSound address (
          (expand_owned_shadow address os r g
            (vtable_len f)
            (hooks_of r.kind (vtable_len f))
            s).0.records)
  unfolding expand_owned_shadow
  expand-AllSound os r g f v s sound own here found lt =
      elim (Bool-cases (ltb g.entry_capacity (vtable_len f))) [
        | inl t ↦ rw t sound
        | inr a ↦ elim (Option-cases (entry_fault address table hooks)) [
          | inr (e, t) ↦ rw (a, own.holds, t) sound
          | inl d ↦ elim (Bool-cases (not os.read_write)) [
            | inl t ↦ rw (a, own.holds, d, t) sound
            | inr w ↦
                rw (a, own.holds, d, w)
                  (update-AllSound address r.object r.kind change s.records
                    (λ q e _.
                      let same : r ≡ q = ground (arith, here, e) in
                      subst (λ x. IsSound address (change x)) same
                        (expanded-IsSound s.slots r g f own.originals v own own.holds found lt d))
                    sound)
          ]
        ]
      ]
    where
      table : List ℕ
      table = extended s.slots own.originals g (vtable_len f)

      hooks : List VtableHook
      hooks = hooks_of r.kind (vtable_len f)

      change : ShadowRecord → ShadowRecord
      change q =
          publish_shadow_generation (record g { entry_count = vtable_len f })
            (record q { originals = some table; entry_count = vtable_len f })

  install_again-AllSound :
      (os : ShadowOs) (object : ℕ) (k : ShadowKind) (f : Interface k) (r : ShadowRecord)
      (current : ℕ) (s : Shadows)
      → AllSound address s.records
      → find_shadow_record object k s.records ≡ some r
      → AllSound address (
          (install_again address os r
            (vtable_len f)
            (hooks_of k (vtable_len f))
            current
            s).0.records)
  unfolding install_again
  install_again-AllSound os object k f r current s sound here =
      elim (Option-cases (find_shadow_generation current r.generations)) [
        | inl t ↦ rw (t, install_again) sound
        | inr (g, t) ↦ elim (Bool-cases (leb (vtable_len f) g.entry_count)) [
          | inl b ↦ rw (t, install_again, b) sound
          | inr b ↦
              let (own, kind, at) = find-IsSound address object k s.records r sound here in
              rw (t, install_again, b)
                (subst
                  (λ l.
                    (j : Interface l)
                    → find_shadow_record object l s.records ≡ some r
                    → g.entry_count < vtable_len j
                    → AllSound address (
                        (expand_owned_shadow address os r g (vtable_len j)
                          (hooks_of l (vtable_len j)) s).0.records))
                  kind
                  (λ j e lt.
                    expand-AllSound os r g j current s sound own
                      (subst (λ o. find_shadow_record o r.kind s.records ≡ some r) (sym at) e) t lt)
                  f here (ground (arith, b)))
        ]
      ]

  -- Every installation of the hooks of an interface keeps the records sound.
  pub install-AllSound :
      (os : ShadowOs) (object : ℕ) (k : ShadowKind) (f : Interface k) (s : Shadows)
      → AllSound address s.records
      → AllSound address (
          (install_shadow_vtable address os object k
            (vtable_len f)
            (hooks_of k (vtable_len f))
            s).0.records)
  unfolding install_shadow_vtable install_checked
  install-AllSound os object k f s sound = elim (Bool-cases os.poisoned) [
    | inl t ↦ rw t sound
    | inr p ↦ elim (Result-cases (object_vtable s.slots object)) [
      | inl (e, t) ↦ rw (p, t) sound
      | inr (current, o) ↦ elim (Bool-cases (vtable_len f == 0)) [
        | inl t ↦ rw (p, o, t) sound
        | inr n ↦ elim (Option-cases (outside_fault (vtable_len f) (hooks_of k (vtable_len f)))) [
          | inr (e, t) ↦ rw (p, o, n, t) sound
          | inl c ↦ elim (Option-cases (find_shadow_record object k s.records)) [
            | inr (r, t) ↦
                rw (p, o, n, c, install_checked, t)
                  (install_again-AllSound os object k f r current s sound t)
            | inl t ↦
                rw (p, o, n, c, install_checked, t)
                  (install_root-AllSound address os object k f current s sound)
          ]
        ]
      ]
    ]
  ]

  pub release-AllSound :
      (remaining object : ℕ) (k : ShadowKind) (s : Shadows)
      → AllSound address s.records
      → AllSound address ((release_shadow_object remaining object k s).1.records)
  unfolding release_shadow_object
  release-AllSound remaining object k s sound =
      elim (Option-cases (find_shadow_record object k s.records)) [
        | inl t ↦ rw (t, release_shadow_object) sound
        | inr (r, t) ↦ elim (Option-cases (load_saved_record_function r 2)) [
          | inl u ↦ rw (t, release_shadow_object, u) sound
          | inr (p, u) ↦ elim (Bool-cases (remaining == 0)) [
            | inr b ↦ rw (t, release_shadow_object, u, b) sound
            | inl b ↦
                rw (t, release_shadow_object, u, b)
                  (update-AllSound address object k _ s.records
                    (λ q e own. retired-IsSound address q own) sound)
          ]
        ]
      ]
