-- ===== src/Shadow/Writes.antt =====
-- src/dxgi.rs: what the loops that write the hooks into a shadow do to its slots.
use elden_ring_windowed_hdr.Common.{
  ℕ, zero, suc, ◌≡◌, ◌≢◌, ◌<◌, refl, ap, ◌∙◌, ◌+◌, ◌⊎◌, inl, inr, true, false, not, ◌&&◌, Option,
  none, some, List, [], ◌∷◌, get_or, ltb, ◌==◌, if◌then◌else◌, arith, Bool-cases,
}
use elden_ring_windowed_hdr.Shadow.Tables.{
  ShadowKind, Hook, VtableHook, hooks_of, factory_hooks, swap_chain_hooks, Interface, factory0,
  factory1, factory2, factory3, factory4, factory5, factory6, factory7, swap_chain0, swap_chain1,
  swap_chain2, swap_chain3, swap_chain4, vtable_len, listed,
}
use elden_ring_windowed_hdr.Shadow.Records.{slot, stored, entries}
use elden_ring_windowed_hdr.Shadow.Install.{outside_fault, entry_fault, write_hooks, extend_hooks}
use elden_ring_windowed_hdr.Windows.Regions.{Slots}

-- No index is listed twice.
abbrev pub IsDistinct : List VtableHook → Type 0
IsDistinct [] = Unit {0}
IsDistinct (h ∷ hooks) = (listed hooks h.index ≡ none) × IsDistinct hooks

pub hooks_of-IsDistinct :
    {k : ShadowKind} (f : Interface k) → IsDistinct (hooks_of k (vtable_len f))
unfolding hooks_of factory_hooks swap_chain_hooks vtable_len
hooks_of-IsDistinct factory0 = (refl, (refl, (refl, tt)))
hooks_of-IsDistinct factory1 = (refl, (refl, (refl, tt)))
hooks_of-IsDistinct factory2 = (refl, (refl, (refl, (refl, (refl, (refl, tt))))))
hooks_of-IsDistinct factory3 = (refl, (refl, (refl, (refl, (refl, (refl, tt))))))
hooks_of-IsDistinct factory4 = (refl, (refl, (refl, (refl, (refl, (refl, tt))))))
hooks_of-IsDistinct factory5 = (refl, (refl, (refl, (refl, (refl, (refl, tt))))))
hooks_of-IsDistinct factory6 = (refl, (refl, (refl, (refl, (refl, (refl, tt))))))
hooks_of-IsDistinct factory7 = (refl, (refl, (refl, (refl, (refl, (refl, tt))))))
hooks_of-IsDistinct swap_chain0 = (refl, (refl, (refl, (refl, (refl, (refl, tt))))))
hooks_of-IsDistinct swap_chain1 = (refl, (refl, (refl, (refl, (refl, (refl, (refl, tt)))))))
hooks_of-IsDistinct swap_chain2 = (refl, (refl, (refl, (refl, (refl, (refl, (refl, tt)))))))
hooks_of-IsDistinct swap_chain3 =
    (refl, (refl, (refl, (refl, (refl, (refl, (refl, (refl, (refl, (refl, tt))))))))))
hooks_of-IsDistinct swap_chain4 =
    (refl, (refl, (refl, (refl, (refl, (refl, (refl, (refl, (refl, (refl, (refl, tt)))))))))))

listed-tail :
    (h : VtableHook) (hooks : List VtableHook) (i : ℕ) (k : Hook)
    → listed hooks h.index ≡ none
    → listed hooks i ≡ some k
    → listed (h ∷ hooks) i ≡ some k
listed-tail h hooks i k first e = split (Bool-cases (i == h.index))
  where
    split : ((i == h.index) ≡ true) ⊎ ((i == h.index) ≡ false) → listed (h ∷ hooks) i ≡ some k
    split (inl t) =
        let same : i ≡ h.index = ground (arith, t) in absurd (ground (arith, first, e, same))
    split (inr f) = ground (arith, f, e)

-- every hook of an interface is within its table
pub outside_fault-none :
    {k : ShadowKind} (f : Interface k)
    → outside_fault (vtable_len f) (hooks_of k (vtable_len f)) ≡ none
unfolding hooks_of factory_hooks swap_chain_hooks vtable_len
outside_fault-none factory0 = refl
outside_fault-none _ = refl

pub get_or-entries :
    (m : Slots) (vtable count i : ℕ)
    → i < count
    → get_or (entries m vtable count) i 0 ≡ m (slot vtable i)
get_or-entries m vtable zero i lt = absurd (omega (arith, lt))
get_or-entries m vtable (suc count) zero lt = ap m (omega arith)
get_or-entries m vtable (suc count) (suc i) lt =
    get_or-entries m (vtable + 8) count i (omega (arith, lt)) ∙ ap m (omega arith)

-- Where the linker has put each of the module's functions.
module _ (address : Hook → ℕ) where
  -- what a hooked slot holds, or else what it held
  abbrev pub hooked : Option Hook → ℕ → ℕ
  hooked none p = p
  hooked (some h) p = address h

  pub write_hooks_lem :
      (m : Slots) (vtable : ℕ) (hooks : List VtableHook) (i : ℕ)
      → IsDistinct hooks
      → write_hooks address m vtable hooks (slot vtable i)
        ≡ hooked (listed hooks i) (m (slot vtable i))
  write_hooks_lem m vtable [] i distinct = refl
  write_hooks_lem m vtable (h ∷ hooks) i (first, distinct) =
      write_hooks_lem (stored m (slot vtable h.index) (address h.hook)) vtable hooks i distinct
      ∙ split (Bool-cases (i == h.index))
    where
      split :
          ((i == h.index) ≡ true) ⊎ ((i == h.index) ≡ false)
          → hooked
              (listed hooks i)
              (stored m (slot vtable h.index) (address h.hook) (slot vtable i))
            ≡ hooked (listed (h ∷ hooks) i) (m (slot vtable i))
      split (inl t) = let same : i ≡ h.index = ground (arith, t) in ground (arith, t, first, same)
      split (inr f) = ground (arith, f)

  pub write_hooks_frame :
      (m : Slots) (vtable : ℕ) (hooks : List VtableHook) (x : ℕ)
      → ((i : ℕ) (h : Hook) → listed hooks i ≡ some h → x ≢ slot vtable i)
      → IsDistinct hooks
      → write_hooks address m vtable hooks x ≡ m x
  write_hooks_frame m vtable [] x off distinct = refl
  write_hooks_frame m vtable (h ∷ hooks) x off (first, distinct) =
      write_hooks_frame (stored m (slot vtable h.index) (address h.hook)) vtable hooks x
        (λ i k e z. off i k (listed-tail h hooks i k first e) z) distinct
      ∙ ground (arith, off h.index h.hook (ground arith))

  abbrev next : ℕ → Slots → ℕ → VtableHook → Slots
  next old m vtable h =
      if ltb h.index old && not (m (slot vtable h.index) == address h.hook)
      then m
      else if not (m (slot vtable h.index) == address h.hook)
      then stored m (slot vtable h.index) (address h.hook)
      else m

  pub extend_hooks_lem :
      (old : ℕ) (m : Slots) (vtable : ℕ) (hooks : List VtableHook) (i : ℕ)
      → IsDistinct hooks
      → extend_hooks address old m vtable hooks (slot vtable i)
        ≡ (if ltb i old then m (slot vtable i) else hooked (listed hooks i) (m (slot vtable i)))
  extend_hooks_lem old m vtable [] i distinct = ground arith
  extend_hooks_lem old m vtable (h ∷ hooks) i (first, distinct) =
      extend_hooks_lem old (next old m vtable h) vtable hooks i distinct
      ∙ split (Bool-cases (i == h.index))
    where
      split :
          ((i == h.index) ≡ true) ⊎ ((i == h.index) ≡ false)
          → (if ltb i old
              then next old m vtable h (slot vtable i)
              else hooked (listed hooks i) (next old m vtable h (slot vtable i)))
            ≡ (if ltb i old
                then m (slot vtable i)
                else hooked (listed (h ∷ hooks) i) (m (slot vtable i)))
      split (inl t) = let same : i ≡ h.index = ground (arith, t) in ground (arith, t, first, same)
      split (inr f) = ground (arith, f)

  -- a slot that a loop may write is a listed one that is not yet hooked
  pub extend_hooks_frame :
      (old : ℕ) (m : Slots) (vtable : ℕ) (hooks : List VtableHook) (x : ℕ)
      → ((i : ℕ) (h : Hook) → listed hooks i ≡ some h → x ≢ slot vtable i)
      → IsDistinct hooks
      → extend_hooks address old m vtable hooks x ≡ m x
  extend_hooks_frame old m vtable [] x off distinct = refl
  extend_hooks_frame old m vtable (h ∷ hooks) x off (first, distinct) =
      extend_hooks_frame old (next old m vtable h) vtable hooks x
        (λ i k e z. off i k (listed-tail h hooks i k first e) z) distinct
      ∙ ground (arith, off h.index h.hook (ground arith))

  -- the checks pass where every listed entry can be called
  pub entry_fault-callable :
      (originals : List ℕ) (hooks : List VtableHook)
      → ((i : ℕ) (h : Hook)
          → listed hooks i ≡ some h
          → (get_or originals i 0 ≢ 0) × (get_or originals i 0 ≢ address h))
      → IsDistinct hooks
      → entry_fault address originals hooks ≡ none
  entry_fault-callable originals [] callable distinct = refl
  entry_fault-callable originals (h ∷ hooks) callable (first, distinct) = ground (
    arith,
    callable h.index h.hook (ground arith),
    entry_fault-callable originals hooks (λ i k e. callable i k (listed-tail h hooks i k first e))
        distinct,
  )
