-- ===== src/Compat/Described.antt =====
-- src/game_compat.rs: what a vtable that passes the checks is known to hold.
use elden_ring_windowed_hdr.Common.{
  ℕ, zero, suc, ◌≡◌, ◌<◌, refl, ap, sym, subst, ◌∙◌, ◌+◌, ◌*◌, ◌%◌, true, some, List, [], ◌∷◌,
  length, get_elem?, ◌==◌, arith, ok, ok_or, bind-ok, guard-ok, ok_or-ok,
}
use elden_ring_windowed_hdr.Compat.Image.{
  LoadedImage, misaligned_vtable, no_locator_slot, vtable_not_data, not_the_gate, locator_outside,
  locator_not_data, bad_locator, bad_descriptors, not_the_lambda, entry_outside, entry_not_code,
  checked_sub, bytes_at, read_usize, is_executable, is_readable_non_executable, va_to_rva,
  same_target,
}
use elden_ring_windowed_hdr.Compat.Vtable.{
  VtableMatch, read_ascii_c_string, is_hdr_menu_lambda_rtti_name, dword, locator_fields,
  has_descriptors, read_entry, read_entries, validate_locator, validate_menu_gate_vtable,
}

module _ (image : LoadedImage) (vtable_rva : ℕ) where
  -- the slot holds a pointer to executable code at the RVA
  abbrev pub Points : ℕ → ℕ → Type 0
  Points index rva =
      (pointer : ℕ) × (read_usize image (vtable_rva + 8 * index) ≡ ok pointer)
      × (va_to_rva image pointer ≡ some rva)
      × (is_executable image rva 1 ≡ true)

  read_entry-Points :
      (index rva : ℕ) → read_entry image vtable_rva index ≡ ok rva → Points index rva
  unfolding read_entry
  read_entry-Points index rva h =
      let (pointer, read, found) = bind-ok (read_usize image (vtable_rva + 8 * index)) _ rva h in
      let (r, at, guarded) = bind-ok (ok_or (va_to_rva image pointer) entry_outside) _ rva found in
      let (code, same) = guard-ok (is_executable image r 1) entry_not_code (ok r) rva guarded in
      let it : r ≡ rva = ground (arith, same) in
      (
        pointer,
        read,
        ok_or-ok (va_to_rva image pointer) entry_outside rva (at ∙ ap ok it),
        subst (λ q. is_executable image q 1 ≡ true) it code,
      )

  -- the entries from an index on, each with its slot
  abbrev pub Slots : ℕ → ℕ → List ℕ → Type 0
  Slots count index entries =
      (length entries ≡ count)
      × ((i rva : ℕ) → get_elem? entries i ≡ some rva → Points (index + i) rva)

  slots-cons :
      (count index rva : ℕ) (entries : List ℕ)
      → Points index rva
      → Slots count (suc index) entries
      → Slots (suc count) index (rva ∷ entries)
  slots-cons count index rva entries first (len, rest) = (ap suc len, at)
    where
      at : (i r : ℕ) → get_elem? (rva ∷ entries) i ≡ some r → Points (index + i) r
      at zero r e =
          let here : index ≡ index + 0 = omega arith in
          let it : rva ≡ r = ground (arith, e) in
          subst (λ q. Points q r) here (subst (Points index) it first)
      at (suc i) r e =
          let here : suc index + i ≡ index + suc i = omega arith in
          subst (λ q. Points q r) here (rest i r e)

  read_entries-Slots :
      (count index : ℕ) (entries : List ℕ)
      → read_entries image vtable_rva count index ≡ ok entries
      → Slots count index entries
  read_entries-Slots zero index entries h =
      let empty : [] ≡ entries = ground (arith, h) in
      subst (Slots 0 index) empty (refl, λ i rva z. absurd (ground (arith, z)))
  read_entries-Slots (suc count) index entries h =
      let (first, read, more) = bind-ok (read_entry image vtable_rva index) _ entries h in
      let (rest, others, whole) =
        bind-ok (read_entries image vtable_rva count (suc index)) _ entries more in
      let it : first ∷ rest ≡ entries = ground (arith, whole) in
      subst (Slots (suc count) index) it (
        slots-cons count index first rest (read_entry-Points index first read)
          (read_entries-Slots count (suc index) rest others))

  -- What the Complete Object Locator of a match has been checked for: it names itself, and the
  -- type whose name it leads to is that of the menu's lambda.
  abbrev pub Located : VtableMatch → Type 0
  Located v =
      (locator : List ℕ) × (bytes_at image v.complete_object_locator_rva 24 ≡ ok locator)
      × (dword 5 locator ≡ v.complete_object_locator_rva)
      × (read_ascii_c_string image (dword 3 locator + 16) 160 ≡ ok v.rtti_name)
      × (is_hdr_menu_lambda_rtti_name v.rtti_name ≡ true)
      × (is_readable_non_executable image v.complete_object_locator_rva 24 ≡ true)
      × (locator_fields v.complete_object_locator_rva locator ≡ true)
      × (has_descriptors image locator ≡ true)

  -- the slot before the vtable leads to the locator
  abbrev pub Slotted : VtableMatch → Type 0
  Slotted v =
      (slot : ℕ) × (pointer : ℕ) × (slot + 8 ≡ vtable_rva)
      × (is_readable_non_executable image slot 56 ≡ true)
      × (read_usize image slot ≡ ok pointer)
      × (va_to_rva image pointer ≡ some v.complete_object_locator_rva)

  abbrev pub Described : VtableMatch → Type 0
  Described v = (v.rva ≡ vtable_rva) × (v.reference_count ≡ 1) × Slots 6 0 v.entries × Located v

  validate_locator-Described :
      (locator_rva : ℕ) (v : VtableMatch)
      → validate_locator image vtable_rva locator_rva ≡ ok v
      → Described v × (v.complete_object_locator_rva ≡ locator_rva)
  unfolding validate_locator
  validate_locator-Described locator_rva v h =
      let (readable, h1) =
        guard-ok (is_readable_non_executable image locator_rva 24) locator_not_data _ v h in
      let (locator, read, h2) = bind-ok (bytes_at image locator_rva 24) _ v h1 in
      let (fields, h3) = guard-ok (locator_fields locator_rva locator) bad_locator _ v h2 in
      let (descriptors, h4) = guard-ok (has_descriptors image locator) bad_descriptors _ v h3 in
      let (name, named, h5) =
        bind-ok (read_ascii_c_string image (dword 3 locator + 16) 160) _ v h4 in
      let (lambda, h6) = guard-ok (is_hdr_menu_lambda_rtti_name name) not_the_lambda _ v h5 in
      let (entries, slots, h7) = bind-ok (read_entries image vtable_rva 6 0) _ v h6 in
      subst (λ x. Described x × (x.complete_object_locator_rva ≡ locator_rva)) (ground (arith, h7))
        (
          (
            refl,
            refl,
            read_entries-Slots 6 0 entries slots,
            (locator, read, ground (arith, fields), named, lambda, readable, fields, descriptors),
          ),
          refl,
        )

get_elem?-some : (i : ℕ) (xs : List ℕ) → i < length xs → (x : ℕ) × (get_elem? xs i ≡ some x)
get_elem?-some i [] h = absurd (omega (arith, h))
get_elem?-some zero (x ∷ xs) h = (x, refl)
get_elem?-some (suc i) (x ∷ xs) h = get_elem?-some i xs (omega (arith, h))

checked_sub-back : (rva slot : ℕ) → checked_sub rva 8 ≡ some slot → slot + 8 ≡ rva
checked_sub-back rva slot h = ground (arith, h)

-- The image, and the RVA of the menu's gate.
module _ (image : LoadedImage) (gate_rva : ℕ) where
  pub validate-gate :
      (vtable_rva : ℕ) (v : VtableMatch)
      → validate_menu_gate_vtable image vtable_rva gate_rva ≡ ok v
      → Described image vtable_rva v
        × (vtable_rva % 8 ≡ 0)
        × (get_elem? v.entries 2 ≡ some gate_rva)
        × Slotted image vtable_rva v
  unfolding validate_menu_gate_vtable
  validate-gate vtable_rva v h =
      let (aligned, h1) = guard-ok (vtable_rva % 8 == 0) misaligned_vtable _ v h in
      let (slot, before, h2) = bind-ok (ok_or (checked_sub vtable_rva 8) no_locator_slot) _ v h1 in
      let (readable, h3) =
        guard-ok (is_readable_non_executable image slot 56) vtable_not_data _ v h2 in
      let (gate_pointer, read, h4) = bind-ok (read_usize image (vtable_rva + 8 * 2)) _ v h3 in
      let (gate, h5) =
        guard-ok (same_target (va_to_rva image gate_pointer) gate_rva) not_the_gate _ v h4 in
      let (locator_pointer, read', h6) = bind-ok (read_usize image slot) _ v h5 in
      let (locator_rva, at, h7) =
        bind-ok (ok_or (va_to_rva image locator_pointer) locator_outside) _ v h6 in
      let (described, it_is) = validate_locator-Described image vtable_rva locator_rva v h7 in
      let (len, slots) = described.2 in
      let (third, here) = get_elem?-some 2 v.entries (omega (arith, len)) in
      let (pointer, again, target, code) = slots 2 third here in
      let it : third ≡ gate_rva = ground (arith, read, again, target, gate) in
      let leads : va_to_rva image locator_pointer ≡ some v.complete_object_locator_rva =
        ok_or-ok (va_to_rva image locator_pointer) locator_outside locator_rva at
        ∙ ap some (sym it_is) in
      let back : slot + 8 ≡ vtable_rva =
        checked_sub-back vtable_rva slot
          (ok_or-ok (checked_sub vtable_rva 8) no_locator_slot slot before) in
      (
        described,
        ground (arith, aligned),
        here ∙ ap some it,
        (slot, locator_pointer, back, readable, read', leads),
      )
