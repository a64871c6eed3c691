-- ===== src/Compat/Rtti.antt =====
-- src/game_compat.rs: what the checks on a vtable say of the bytes of the image: of its slots, of
-- its Complete Object Locator, and of the name of its type.
use elden_ring_windowed_hdr.Common.{
  ℕ, zero, suc, ◌≡◌, ◌≤◌, ◌+◌, ◌-◌, ◌*◌, ◌%◌, refl, sym, ap, subst, ◌∙◌, Bool, true, some, List, [],
  ◌∷◌, length, take, drop, get_elem?, ok, ok_or, bind-ok, guard-ok, ok_or-ok, arith, inl, inr,
  Bool-cases, ◌==◌, from_le_bytes, same_bytes, same_bytes_sound, min, Option-cases, ◌&&◌, ==_iff,
}
use elden_ring_windowed_hdr.Config.Modes.{codes}
use elden_ring_windowed_hdr.Patch.Memory.{Memory, read}
use elden_ring_windowed_hdr.Compat.Image.{
  LoadedImage, is_readable_non_executable, bytes_at, string_outside, string_unterminated,
  string_not_ascii,
}
use elden_ring_windowed_hdr.Compat.Layout.{
  IsData, IsCode, PointsTo, IsData-sound, IsCode-sound, points_sound, bytes_at_sound,
}
use elden_ring_windowed_hdr.Compat.Exact.{take-read}
use elden_ring_windowed_hdr.Compat.Caller.{drop-read}
use elden_ring_windowed_hdr.Compat.Vtable.{
  VtableMatch, before_zero, is_ascii, all_hex, read_ascii_c_string, find_section,
  is_hdr_menu_lambda_rtti_name, dword,
}
use elden_ring_windowed_hdr.Compat.Described.{Points, Located, Slotted}

-- four bytes as a number, the lowest first
abbrev pub u32_at : LoadedImage → ℕ → ℕ
u32_at image rva = from_le_bytes (read image.memory rva 4)

-- Six entries, each of which is where its slot points, in a section that can be executed; the third
-- is the gate.
abbrev pub HasEntries : LoadedImage → ℕ → ℕ → List ℕ → Type 0
HasEntries image vtable_rva gate_rva entries =
    (vtable_rva % 8 ≡ 0)
    × (length entries ≡ 6)
    × ((i rva : ℕ)
        → get_elem? entries i ≡ some rva
        → PointsTo image (vtable_rva + 8 * i) rva × IsCode image rva 1)
    × (get_elem? entries 2 ≡ some gate_rva)

-- The slot before the six entries is data with them, and points to the locator; the locator is
-- data, of the 64-bit format, of a whole object, and names itself, and its descriptors are data.
abbrev pub HasLocator : LoadedImage → ℕ → ℕ → Type 0
HasLocator image vtable_rva locator_rva =
    (slot : ℕ) × (slot + 8 ≡ vtable_rva)
    × IsData image slot 56
    × PointsTo image slot locator_rva
    × IsData image locator_rva 24
    × (u32_at image locator_rva ≡ 1)
    × (u32_at image (locator_rva + 4) ≡ 0)
    × (u32_at image (locator_rva + 8) ≡ 0)
    × (u32_at image (locator_rva + 20) ≡ locator_rva)
    × IsData image (u32_at image (locator_rva + 12)) 17
    × IsData image (u32_at image (locator_rva + 16)) 4

-- The type descriptor that the locator leads to has the name of the menu's lambda, of 92 bytes
-- with a zero behind them.
abbrev pub HasName : LoadedImage → ℕ → List ℕ → Type 0
HasName image locator_rva name =
    (read image.memory (u32_at image (locator_rva + 12) + 16) 92 ≡ name)
    × (image.memory (u32_at image (locator_rva + 12) + 16 + 92) ≡ 0)
    × (take 26 name ≡ codes ".?AV?$_Func_impl@V<lambda_")
    × (all_hex (take 32 (drop 26 name)) ≡ true)
    × (drop 58 name ≡ codes ">@@V?$allocator@H@std@@_N$$V@std@@")

and-true : (b c : Bool) → (b && c) ≡ true → (b ≡ true) × (c ≡ true)
and-true b c h = ground arith

-- the four tests on a name
lambda_name :
    (name : List ℕ)
    → is_hdr_menu_lambda_rtti_name name ≡ true
    → (length name ≡ 92)
      × (take 26 name ≡ codes ".?AV?$_Func_impl@V<lambda_")
      × (all_hex (take 32 (drop 26 name)) ≡ true)
      × (drop 58 name ≡ codes ">@@V?$allocator@H@std@@_N$$V@std@@")
unfolding is_hdr_menu_lambda_rtti_name
lambda_name name h =
    let (long, others) = and-true (length name == 92) _ h in
    let (prefix, more) = and-true (same_bytes (take 26 name) _) _ others in
    let (hash, suffix) = and-true (all_hex (take 32 (drop 26 name))) _ more in
    (
      (==_iff (length name) 92).0 long,
      same_bytes_sound _ _ prefix,
      hash,
      same_bytes_sound _ _ suffix,
    )

before_zero-read :
    (m : Memory) (a n : ℕ) (name : List ℕ)
    → before_zero (read m a n) ≡ some name
    → (read m a (length name) ≡ name) × (m (a + length name) ≡ 0)
unfolding read
before_zero-read m a zero name h = absurd (ground (arith, h))
before_zero-read m a (suc n) name h = elim (Bool-cases (m a == 0)) [
  | inl t ↦
      let empty : [] ≡ name = ground (arith, h, t) in
      subst (λ l. (read m a (length l) ≡ l) × (m (a + length l) ≡ 0)) empty
        (refl, subst (λ x. m x ≡ 0) first (ground (arith, t)))
  | inr t ↦ elim (Option-cases (before_zero (read m (a + 1) n))) [
    | inl e ↦ absurd (ground (arith, h, t, e))
    | inr (rest, e) ↦
        let (same, end) = before_zero-read m (a + 1) n rest e in
        let it : m a ∷ rest ≡ name = ground (arith, h, t, e) in
        subst (λ l. (read m a (length l) ≡ l) × (m (a + length l) ≡ 0)) it
          (ap (λ l. m a ∷ l) same, subst (λ x. m x ≡ 0) (next (length rest)) end)
  ]
]
  where
    first : a ≡ a + 0
    first = omega arith

    next : (k : ℕ) → a + 1 + k ≡ a + suc k
    next k = omega arith

c_string_sound :
    (image : LoadedImage) (rva maximum : ℕ) (name : List ℕ)
    → read_ascii_c_string image rva maximum ≡ ok name
    → (read image.memory rva (length name) ≡ name) × (image.memory (rva + length name) ≡ 0)
unfolding read_ascii_c_string
c_string_sound image rva maximum name h =
    let (s, found, h1) =
      bind-ok (ok_or (find_section rva image.sections) string_outside) _ name h in
    let n = min (s.rva + s.size - rva) maximum in
    let (bytes, got, h2) = bind-ok (bytes_at image rva n) _ name h1 in
    let (name', cut, h3) = bind-ok (ok_or (before_zero bytes) string_unterminated) _ name h2 in
    let (ascii, h4) = guard-ok (is_ascii name') string_not_ascii (ok name') name h3 in
    let it : name' ≡ name = ground (arith, h4) in
    before_zero-read image.memory rva n name (
      ap before_zero (sym (bytes_at_sound image rva n bytes got))
      ∙ ok_or-ok (before_zero bytes) string_unterminated name' cut
      ∙ ap some it)

dword_lem :
    (m : Memory) (a k : ℕ)
    → 4 * k + 4 ≤ 24
    → dword k (read m a 24) ≡ from_le_bytes (read m (a + 4 * k) 4)
dword_lem m a k h =
    ap (λ l. from_le_bytes (take 4 l)) (drop-read m a (4 * k) 24 (omega (arith, h)))
    ∙ ap from_le_bytes (take-read m (a + 4 * k) 4 (24 - 4 * k) (omega (arith, h)))

module _ (image : LoadedImage) (vtable_rva : ℕ) (v : VtableMatch) where
  IsData-at :
      {d d' : ℕ} (n : ℕ) → d' ≡ d → is_readable_non_executable image d n ≡ true → IsData image d' n
  IsData-at {d} n e h = subst (λ x. IsData image x n) (sym e) (IsData-sound image d n h)

  pub locator_sound :
      Slotted image vtable_rva v
      → Located image vtable_rva v
      → HasLocator image vtable_rva v.complete_object_locator_rva
  locator_sound (slot, pointer, back, readable, got, leads)
        (locator, got_locator, itself, named, lambda, readable_data, fields, descriptors) =
      let l = v.complete_object_locator_rva in
      let same = bytes_at_sound image l 24 locator got_locator in
      let at : (k n : ℕ) → 4 * k + 4 ≤ 24 → dword k locator ≡ n → u32_at image (l + 4 * k) ≡ n =
        λ k n h e. sym (ap (dword k) same ∙ dword_lem image.memory l k h) ∙ e in
      let first : l + 4 * 0 ≡ l = omega arith in
      (
        slot,
        back,
        IsData-sound image slot 56 readable,
        points_sound image slot pointer l got leads,
        IsData-sound image l 24 readable_data,
        sym (ap (u32_at image) first) ∙ at 0 1 (omega arith) (ground (arith, fields)),
        at 1 0 (omega arith) (ground (arith, fields)),
        at 2 0 (omega arith) (ground (arith, fields)),
        at 5 l (omega arith) itself,
        IsData-at 17 (at 3 (dword 3 locator) (omega arith) refl) (and-true _ _ descriptors).0,
        IsData-at 4 (at 4 (dword 4 locator) (omega arith) refl) (and-true _ _ descriptors).1,
      )

  name_at :
      (name : List ℕ) (d d' : ℕ)
      → d ≡ d'
      → length name ≡ 92
      → read image.memory (d + 16) (length name) ≡ name
      → read image.memory (d' + 16) 92 ≡ name
  name_at name d d' e long h =
      subst (λ k. read image.memory (d' + 16) k ≡ name) long
        (subst (λ x. read image.memory (x + 16) (length name) ≡ name) e h)

  zero_at :
      (name : List ℕ) (d d' : ℕ)
      → d ≡ d'
      → length name ≡ 92
      → image.memory (d + 16 + length name) ≡ 0
      → image.memory (d' + 16 + 92) ≡ 0
  zero_at name d d' e long h =
      subst (λ k. image.memory (d' + 16 + k) ≡ 0) long
        (subst (λ x. image.memory (x + 16 + length name) ≡ 0) e h)

  pub name_sound :
      Located image vtable_rva v → HasName image v.complete_object_locator_rva v.rtti_name
  name_sound (locator, got_locator, itself, named, lambda, readable_data, fields, descriptors) =
      let l = v.complete_object_locator_rva in
      let descriptor : dword 3 locator ≡ u32_at image (l + 12) =
        ap (dword 3) (bytes_at_sound image l 24 locator got_locator)
        ∙ dword_lem image.memory l 3 (omega arith) in
      let (same, end) = c_string_sound image (dword 3 locator + 16) 160 v.rtti_name named in
      let (long, prefix, hash, suffix) = lambda_name v.rtti_name lambda in
      (
        name_at v.rtti_name (dword 3 locator) (u32_at image (l + 12)) descriptor long same,
        zero_at v.rtti_name (dword 3 locator) (u32_at image (l + 12)) descriptor long end,
        prefix,
        hash,
        suffix,
      )

  pub entries_sound :
      (gate_rva : ℕ)
      → vtable_rva % 8 ≡ 0
      → length v.entries ≡ 6
      → ((i rva : ℕ) → get_elem? v.entries i ≡ some rva → Points image vtable_rva i rva)
      → get_elem? v.entries 2 ≡ some gate_rva
      → HasEntries image vtable_rva gate_rva v.entries
  entries_sound gate_rva aligned len slots gate = (
    aligned,
    len,
    (λ i rva e.
        let (pointer, got, leads, code) = slots i rva e in
        (
          points_sound image (vtable_rva + 8 * i) pointer rva got leads,
          IsCode-sound image rva 1 code,
        )),
    gate,
  )
