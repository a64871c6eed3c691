-- ===== src/Compat/Validated.antt =====
-- src/game_compat.rs: what a vtable that is taken for the menu gate's has been checked for.
use elden_ring_windowed_hdr.Common.{
  ℕ, ◌≡◌, ◌≢◌, ◌≤◌, refl, ap, subst, ◌∙◌, ◌+◌, Option, none, some, List, [], ◌∷◌, ◌==◌, arith, ok,
  ◌>>=◌, bind-ok, inl, inr, Bool-cases, Result-cases,
}
use elden_ring_windowed_hdr.Compat.Image.{
  Section, LoadedImage, is_executable_section, section_bytes,
}
use elden_ring_windowed_hdr.Compat.Vtable.{
  VtableMatch, validate_menu_gate_vtable, lea_target, candidate_of, add_candidate, add_found,
  scan_vtables, find_vtables, only_candidate, resolve_menu_gate_vtable,
}
use elden_ring_windowed_hdr.Compat.Described.{Points, validate-gate}
use elden_ring_windowed_hdr.Compat.References.{loads_of, references_lem, others_lem}
use elden_ring_windowed_hdr.Compat.Rtti.{
  HasEntries, HasLocator, HasName, entries_sound, locator_sound, name_sound,
}

-- The image, and the RVA of the menu's gate.
module _ (image : LoadedImage) (gate_rva : ℕ) where
  -- a candidate has been validated, apart from the count of its references
  abbrev Candidate : VtableMatch → Type 0
  Candidate c =
      validate_menu_gate_vtable image c.rva gate_rva ≡ ok (record c { reference_count = 1 })

  abbrev Candidates : List VtableMatch → Type 0
  Candidates [] = Unit {0}
  Candidates (c ∷ cs) = Candidate c × Candidates cs

  validated-Candidate :
      (vtable_rva : ℕ) (v : VtableMatch)
      → validate_menu_gate_vtable image vtable_rva gate_rva ≡ ok v
      → Candidate v
  validated-Candidate vtable_rva v h =
      let (at, one, slots, located) = (validate-gate image gate_rva vtable_rva v h).0 in
      let same : v ≡ record v { reference_count = 1 } =
        ap (λ n. record v { reference_count = n }) one in
      ap (λ x. validate_menu_gate_vtable image x gate_rva) at ∙ h ∙ ap ok same

  candidate_of-Candidate :
      (target : Option ℕ) (v : VtableMatch)
      → candidate_of image gate_rva target ≡ some v
      → Candidate v
  candidate_of-Candidate none v h = absurd (ground (arith, h))
  candidate_of-Candidate (some target_rva) v h =
      elim (Result-cases (validate_menu_gate_vtable image target_rva gate_rva)) [
        | inl (e, failed) ↦ absurd (ground (arith, h, failed))
        | inr (w, taken) ↦
            let same : w ≡ v = ground (arith, h, taken) in
            subst Candidate same (validated-Candidate target_rva w taken)
      ]

  add_candidate-Candidates :
      (v : VtableMatch) (cs : List VtableMatch)
      → Candidate v
      → Candidates cs
      → Candidates (add_candidate v cs)
  add_candidate-Candidates v [] valid all = (valid, tt)
  add_candidate-Candidates v (c ∷ cs) valid (first, all) =
      let rest = add_candidate-Candidates v cs valid all in
      elim (Bool-cases (c.rva == v.rva)) [ inl t ↦ rw t (first, all) | inr t ↦ rw t (first, rest) ]

  scan_vtables-Candidates :
      (bytes : List ℕ) (rva : ℕ) (cs : List VtableMatch)
      → Candidates cs
      → Candidates (scan_vtables image gate_rva bytes rva cs)
  scan_vtables-Candidates [] rva cs all = all
  scan_vtables-Candidates (b ∷ bytes) rva cs all =
      scan_vtables-Candidates bytes (rva + 1) _
        (found (candidate_of image gate_rva (lea_target rva (b ∷ bytes))) refl)
    where
      found :
          (o : Option VtableMatch)
          → candidate_of image gate_rva (lea_target rva (b ∷ bytes)) ≡ o
          → Candidates (add_found o cs)
      found none e = all
      found (some v) e =
          add_candidate-Candidates v cs (candidate_of-Candidate (lea_target rva (b ∷ bytes)) v e)
            all

  find_vtables-Candidates :
      (sections : List Section) (cs ds : List VtableMatch)
      → Candidates cs
      → find_vtables image gate_rva sections cs ≡ ok ds
      → Candidates ds
  find_vtables-Candidates [] cs ds all h =
      let same : cs ≡ ds = ground (arith, h) in subst Candidates same all
  find_vtables-Candidates (s ∷ sections) cs ds all h = elim (Bool-cases (is_executable_section s)) [
    | inr t ↦ find_vtables-Candidates sections cs ds all (ground (arith, h, t))
    | inl t ↦
        let chain : (section_bytes image s >>= λ bytes.
        find_vtables image gate_rva sections (scan_vtables image gate_rva bytes s.rva cs))
            ≡ ok ds =
          ground (arith, h, t) in
        let (bytes, read, rest) = bind-ok (section_bytes image s) _ ds chain in
        find_vtables-Candidates sections (scan_vtables image gate_rva bytes s.rva cs) ds
          (scan_vtables-Candidates bytes s.rva cs all) rest
  ]

  only_candidate-Candidate :
      (cs : List VtableMatch) (v : VtableMatch)
      → Candidates cs
      → only_candidate cs ≡ ok v
      → Candidate v × (2 ≤ v.reference_count)
  only_candidate-Candidate [] v all h = absurd (ground (arith, h))
  only_candidate-Candidate (c ∷ []) v (first, _) h =
      let same : c ≡ v = ground (arith, h) in
      let enough : 2 ≤ c.reference_count = ground (arith, h) in
      subst (λ x. Candidate x × (2 ≤ x.reference_count)) same (first, enough)
  only_candidate-Candidate (c ∷ d ∷ cs) v all h = absurd (ground (arith, h))

  -- A resolved vtable is aligned, and at least two LEA instructions of the executable sections
  -- load its address, as many as its count says. It has six entries, each of which is where its
  -- slot points, in an executable section; the third is the gate. The slot before them points to
  -- its Complete Object Locator, which names itself and leads to the name of the menu's lambda. No
  -- such instruction loads the address of another vtable that passes all checks.
  pub resolve_menu_gate_vtable_lem :
      (v : VtableMatch)
      → resolve_menu_gate_vtable image gate_rva ≡ ok v
      → (v.reference_count ≡ loads_of image v.rva image.sections)
        × (2 ≤ v.reference_count)
        × HasEntries image v.rva gate_rva v.entries
        × HasLocator image v.rva v.complete_object_locator_rva
        × HasName image v.complete_object_locator_rva v.rtti_name
        × ((other : ℕ) (w : VtableMatch)
            → v.rva ≢ other
            → validate_menu_gate_vtable image other gate_rva ≡ ok w
            → loads_of image other image.sections ≡ 0)
  unfolding resolve_menu_gate_vtable
  resolve_menu_gate_vtable_lem v h =
      let (cs, found, only) = bind-ok (find_vtables image gate_rva image.sections []) _ v h in
      let (candidate, twice) =
        only_candidate-Candidate cs v (find_vtables-Candidates image.sections [] cs tt found)
          only in
      let (described, aligned, gate, slotted) = validate-gate image gate_rva v.rva _ candidate in
      let (at, one, slots, located) = described in
      (
        references_lem image gate_rva v.rva _ candidate cs v refl found only,
        twice,
        entries_sound image v.rva v gate_rva aligned slots.0
            (λ i rva e.
              let from_zero : 0 + i ≡ i = omega arith in
              subst (λ n. Points image v.rva n rva) from_zero (slots.1 i rva e))
            gate,
        locator_sound image v.rva v slotted located,
        name_sound image v.rva v located,
        λ other w apart valid. others_lem image gate_rva other w valid cs v apart found only,
      )
