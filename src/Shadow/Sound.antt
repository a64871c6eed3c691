-- ===== src/Shadow/Sound.antt =====
-- src/dxgi.rs: what holds of the records of the shadow vtables at all times.
use elden_ring_windowed_hdr.Common.{
  ℕ, zero, suc, ◌≡◌, ◌≢◌, refl, sym, ap, subst, ◌+◌, ◌⊎◌, inl, inr, true, false, none, some, List,
  [], ◌∷◌, length, get_or, ◌==◌, arith, Bool-cases,
}
use elden_ring_windowed_hdr.Shadow.Tables.{
  ShadowKind, factory, swap_chain, same_kind, Hook, VtableHook, hooks_of, Interface, vtable_len,
  listed,
}
use elden_ring_windowed_hdr.Shadow.Records.{
  ShadowGeneration, ShadowRecord, entries, matches, find_shadow_record, update_record,
  find_shadow_generation,
}
use elden_ring_windowed_hdr.Shadow.Install.{entry_fault}
use elden_ring_windowed_hdr.Windows.Regions.{Slots}

pub same_kind_sound : (k l : ShadowKind) → same_kind k l ≡ true → k ≡ l
same_kind_sound factory factory h = refl
same_kind_sound factory swap_chain h = ground (arith, h)
same_kind_sound swap_chain factory h = ground (arith, h)
same_kind_sound swap_chain swap_chain h = refl

-- All generations of a record are of one vtable, and the latest has as many entries as the record.
abbrev pub OneVtable : ℕ → List ShadowGeneration → Type 0
OneVtable entry_count gs =
    (v w : ℕ) (g h : ShadowGeneration)
    → find_shadow_generation v gs ≡ some g
    → find_shadow_generation w gs ≡ some h
    → (v ≡ w) × (g.entry_count ≡ entry_count)

pub find_shadow_generation-vtable :
    (v : ℕ) (gs : List ShadowGeneration) (g : ShadowGeneration)
    → find_shadow_generation v gs ≡ some g
    → g.vtable ≡ v
unfolding find_shadow_generation
find_shadow_generation-vtable v [] g e = ground (arith, e)
find_shadow_generation-vtable v (h ∷ gs) g e =
    split (Bool-cases (h.vtable == v)) λ f. find_shadow_generation-vtable v gs g f
  where
    split :
        ((h.vtable == v) ≡ true) ⊎ ((h.vtable == v) ≡ false)
        → (find_shadow_generation v gs ≡ some g → g.vtable ≡ v)
        → g.vtable ≡ v
    split (inl t) rest = ground (arith, t, e)
    split (inr f) rest = rest (ground (arith, f, e))

-- publishing a generation of the vtable that the others are of
pub publish-OneVtable :
    (g : ShadowGeneration) (gs : List ShadowGeneration)
    → ((v : ℕ) (h : ShadowGeneration) → find_shadow_generation v gs ≡ some h → v ≡ g.vtable)
    → OneVtable g.entry_count (g ∷ gs)
unfolding find_shadow_generation
publish-OneVtable g gs same v w h k eh ek =
    split (Bool-cases (g.vtable == v)) (Bool-cases (g.vtable == w))
  where
    split :
        ((g.vtable == v) ≡ true) ⊎ ((g.vtable == v) ≡ false)
        → ((g.vtable == w) ≡ true) ⊎ ((g.vtable == w) ≡ false)
        → (v ≡ w) × (h.entry_count ≡ g.entry_count)
    split (inl a) (inl b) = (ground (arith, a, b), ground (arith, a, eh))
    split (inl a) (inr b) = absurd (ground (arith, a, b, same w k (ground (arith, b, ek))))
    split (inr a) q = absurd (ground (arith, a, same v h (ground (arith, a, eh))))

pub length-entries : (m : Slots) (vtable count : ℕ) → length (entries m vtable count) ≡ count
length-entries m vtable zero = refl
length-entries m vtable (suc count) = ap suc (length-entries m (vtable + 8) count)

-- Where the linker has put each of the module's functions.
module _ (address : Hook → ℕ) where
  -- Every hooked index of an interface has an original that is neither null nor the hook itself.
  abbrev pub IsCallable : (k : ShadowKind) → Interface k → List ℕ → Type 0
  IsCallable k f originals =
      (i : ℕ) (h : Hook)
      → listed (hooks_of k (vtable_len f)) i ≡ some h
      → (get_or originals i 0 ≢ 0) × (get_or originals i 0 ≢ address h)

  -- A record is of a known interface, and its originals can be called.
  pub record IsSound (r : ShadowRecord) : Type 0 where
    pub interface : Interface r.kind
    pub originals : List ℕ
    pub counts : r.entry_count ≡ vtable_len interface
    pub holds : r.originals ≡ some originals
    pub complete : length originals ≡ vtable_len interface
    pub callable : IsCallable r.kind interface originals
    pub generations : OneVtable r.entry_count r.generations

  abbrev pub AllSound : List ShadowRecord → Type 0
  AllSound [] = Unit {0}
  AllSound (r ∷ rs) = IsSound r × AllSound rs

  pub entry_fault-none :
      (originals : List ℕ) (hooks : List VtableHook) (i : ℕ) (h : Hook)
      → entry_fault address originals hooks ≡ none
      → listed hooks i ≡ some h
      → (get_or originals i 0 ≢ 0) × (get_or originals i 0 ≢ address h)
  entry_fault-none originals [] i h e l = absurd (ground (arith, l))
  entry_fault-none originals (k ∷ hooks) i h e l =
      split (Bool-cases (i == k.index)) λ e' l'. entry_fault-none originals hooks i h e' l'
    where
      Callable : Type 0
      Callable = (get_or originals i 0 ≢ 0) × (get_or originals i 0 ≢ address h)

      split :
          ((i == k.index) ≡ true) ⊎ ((i == k.index) ≡ false)
          → (entry_fault address originals hooks ≡ none → listed hooks i ≡ some h → Callable)
          → Callable
      split (inl t) rest =
          let here : i ≡ k.index = ground (arith, t) in
          let hook : k.hook ≡ h = ground (arith, t, l) in
          (λ z. ground (arith, e, here, z), λ z. ground (arith, e, here, hook, z))
      split (inr f) rest = rest (ground (arith, e)) (ground (arith, f, l))

  -- what a search finds is in the list, matches, and is sound
  pub find-IsSound :
      (object : ℕ) (kind : ShadowKind) (rs : List ShadowRecord) (r : ShadowRecord)
      → AllSound rs
      → find_shadow_record object kind rs ≡ some r
      → IsSound r × (r.kind ≡ kind) × (r.object ≡ object)
  unfolding find_shadow_record
  find-IsSound object kind [] r sound e = absurd (ground (arith, e))
  find-IsSound object kind (q ∷ rs) r sound e =
      split (Bool-cases (matches object kind q)) (find-IsSound object kind rs r (sound.1))
    where
      Found : ShadowRecord → Type 0
      Found p = IsSound p × (p.kind ≡ kind) × (p.object ≡ object)

      split :
          (matches object kind q ≡ true) ⊎ (matches object kind q ≡ false)
          → (find_shadow_record object kind rs ≡ some r → Found r)
          → Found r
      split (inl t) rest =
          let same : q ≡ r = ground (arith, t, e) in
          subst Found same
            (sound.0, same_kind_sound q.kind kind (ground (arith, t)), ground (arith, t))
      split (inr f) rest = rest (ground (arith, f, e))

  pub update-AllSound :
      (object : ℕ) (kind : ShadowKind) (change : ShadowRecord → ShadowRecord)
      (rs : List ShadowRecord)
      → ((r : ShadowRecord)
          → find_shadow_record object kind rs ≡ some r
          → IsSound r
          → IsSound (change r))
      → AllSound rs
      → AllSound (update_record object kind change rs)
  unfolding find_shadow_record update_record
  update-AllSound object kind change [] keeps sound = tt
  update-AllSound object kind change (q ∷ rs) keeps sound =
      split (Bool-cases (matches object kind q))
        λ k. update-AllSound object kind change rs k (sound.1)
    where
      split :
          (matches object kind q ≡ true) ⊎ (matches object kind q ≡ false)
          → (((r : ShadowRecord)
                → find_shadow_record object kind rs ≡ some r
                → IsSound r
                → IsSound (change r))
              → AllSound (update_record object kind change rs))
          → AllSound (update_record object kind change (q ∷ rs))
      split (inl t) rest =
          let same : update_record object kind change (q ∷ rs) ≡ change q ∷ rs =
            ground (arith, t) in
          subst AllSound (sym same) (keeps q (ground (arith, t)) (sound.0), sound.1)
      split (inr f) rest =
          let same : update_record object kind change (q ∷ rs)
              ≡ q ∷ update_record object kind change rs =
            ground (arith, f) in
          subst AllSound (sym same) (sound.0, rest λ r e. keeps r (ground (arith, f, e)))
