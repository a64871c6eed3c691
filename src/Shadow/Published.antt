-- ===== src/Shadow/Published.antt =====
-- src/dxgi.rs: a first installation of a shadow vtable keeps the records sound.
use elden_ring_windowed_hdr.Common.{
  ℕ, ◌≡◌, refl, subst, ◌||◌, ◌%◌, ◌-◌, ◌^◌, ◌*◌, inl, inr, false, not, [], ◌∷◌, ltb, leb, ◌==◌,
  arith, Bool-cases, Option-cases, Result-cases,
}
use elden_ring_windowed_hdr.Shadow.Tables.{ShadowKind, Hook, hooks_of, Interface, vtable_len}
use elden_ring_windowed_hdr.Shadow.Records.{
  ShadowGeneration, ShadowRecord, Shadows, entries, find_shadow_generation,
  publish_shadow_generation,
}
use elden_ring_windowed_hdr.Shadow.Install.{
  ShadowOs, entry_fault, exchange, install_clone, install_root, raced,
}
use elden_ring_windowed_hdr.Windows.Regions.{Clone, clone_memory_region_containing}
use elden_ring_windowed_hdr.Shadow.Sound.{
  OneVtable, publish-OneVtable, length-entries, IsSound, AllSound, entry_fault-none,
}

-- Where the linker has put each of the module's functions.
module _ (address : Hook → ℕ) where
  -- a record without generations stays sound when it is retired, and when one is published
  pub retired-IsSound :
      (r : ShadowRecord) → IsSound address r → IsSound address (record r { active = false })
  retired-IsSound r sound = record {
    interface = sound.interface;
    originals = sound.originals;
    counts = sound.counts;
    holds = sound.holds;
    complete = sound.complete;
    callable = sound.callable;
    generations = sound.generations;
  }

  published-IsSound :
      (g : ShadowGeneration) (r : ShadowRecord)
      → IsSound address r
      → r.generations ≡ []
      → g.entry_count ≡ r.entry_count
      → IsSound address (publish_shadow_generation g r)
  unfolding find_shadow_generation
  published-IsSound g r sound none_yet count = record {
    interface = sound.interface;
    originals = sound.originals;
    counts = sound.counts;
    holds = sound.holds;
    complete = sound.complete;
    callable = sound.callable;
    generations =
        subst (λ n. OneVtable n (g ∷ r.generations)) count
          (publish-OneVtable g r.generations λ v h e. absurd (ground (arith, e, none_yet)));
  }

  exchange-AllSound :
      (os : ShadowOs) (object current : ℕ) (c : Clone) (r : ShadowRecord) (s : Shadows)
      → AllSound address s.records
      → IsSound address r
      → r.generations ≡ []
      → AllSound address ((exchange address os object current c r s).0.records)
  unfolding exchange
  exchange-AllSound os object current c r s sound fresh none_yet =
      elim (Bool-cases (object == 0 || not (object % 8 == 0))) [
        | inl t ↦ rw t (retired-IsSound r fresh, sound)
        | inr f ↦ elim (Bool-cases (not (raced os object s.slots object == current))) [
          | inl t ↦ rw (f, t) (retired-IsSound r fresh, sound)
          | inr g ↦ rw (f, g) (published-IsSound _ r fresh none_yet refl, sound)
        ]
      ]

  -- The installations of one interface by one call.
  module _ (os : ShadowOs) (object : ℕ) (k : ShadowKind) (f : Interface k) where
    install_clone-AllSound :
        (current : ℕ) (c : Clone) (s : Shadows)
        → AllSound address s.records
        → AllSound address (
            (install_clone address os object k
              (vtable_len f)
              (hooks_of k (vtable_len f))
              current
              c
              s).0.records)
    unfolding install_clone find_shadow_generation
    install_clone-AllSound current c s sound = elim (Bool-cases (ltb c.address c.region)) [
      | inl t ↦ rw t sound
      | inr a ↦ elim (Bool-cases (ltb c.size (c.address - c.region))) [
        | inl t ↦ rw (a, t) sound
        | inr b ↦
            elim (Option-cases (
              entry_fault address (entries s.slots c.address (vtable_len f))
                (hooks_of k (vtable_len f)))) [
                  | inr (e, t) ↦ rw (a, b, t) sound
                  | inl d ↦ elim (Bool-cases (not os.read_only)) [
                    | inl t ↦ rw (a, b, d, t) sound
                    | inr w ↦
                        rw (a, b, d, w)
                          (exchange-AllSound os object current c _ _ sound
                            (record {
                              interface = f;
                              originals = entries s.slots c.address (vtable_len f);
                              counts = refl;
                              holds = refl;
                              complete = length-entries s.slots c.address (vtable_len f);
                              callable = λ i h l. entry_fault-none address _ _ i h d l;
                              generations = λ v x g h e. absurd (ground (arith, e));
                            })
                            refl)
                  ]
                ]
      ]
    ]

    pub install_root-AllSound :
        (current : ℕ) (s : Shadows)
        → AllSound address s.records
        → AllSound address (
            (install_root address os object k
              (vtable_len f)
              (hooks_of k (vtable_len f))
              current
              s).0.records)
    unfolding install_root
    install_root-AllSound current s sound = elim (Bool-cases (leb (2 ^ 64) (vtable_len f * 8))) [
      | inl t ↦ rw t sound
      | inr a ↦
          elim (Result-cases
            (clone_memory_region_containing s.slots os.query os.allocation current 8
              (vtable_len f * 8) 0x100000).1) [
                | inl (e, t) ↦ rw (a, t) sound
                | inr (c, t) ↦ rw (a, t) (install_clone-AllSound current c _ sound)
              ]
    ]
