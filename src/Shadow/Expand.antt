-- ===== src/Shadow/Expand.antt =====
-- src/dxgi.rs: the expansion of a shadow to an interface with a longer table.
use elden_ring_windowed_hdr.Common.{
  ℕ, zero, suc, ◌≡◌, ◌≢◌, ◌<◌, refl, ap, subst, ◌∙◌, ◌⊎◌, inl, inr, true, false, some, List, [],
  ◌∷◌, ◌++◌, get_or, take, drop, length, ltb, if◌then◌else◌, arith, Bool-cases, ok,
}
use elden_ring_windowed_hdr.Shadow.Tables.{
  ShadowKind, Hook, hooks_of, Interface, vtable_len, listed,
}
use elden_ring_windowed_hdr.Shadow.Records.{
  ShadowGeneration, ShadowRecord, Shadows, slot, entries, nonnull, matches, find_shadow_record,
  update_record, find_shadow_generation, publish_shadow_generation, load_saved_record_function,
}
use elden_ring_windowed_hdr.Shadow.Install.{ShadowOs, extend_hooks, extended, expand_owned_shadow}
use elden_ring_windowed_hdr.Shadow.Writes.{
  hooks_of-IsDistinct, get_or-entries, hooked, extend_hooks_lem, extend_hooks_frame,
}
use elden_ring_windowed_hdr.Shadow.Sound.{find-IsSound, find_shadow_generation-vtable}
use elden_ring_windowed_hdr.Shadow.Reach.{Reach, Reach-AllSound}
use elden_ring_windowed_hdr.Shadow.Preserve.{length-preserved}

find-update :
    (object : ℕ) (kind : ShadowKind) (change : ShadowRecord → ShadowRecord) (rs : List ShadowRecord)
    (r : ShadowRecord)
    → ((q : ShadowRecord) → matches object kind (change q) ≡ matches object kind q)
    → find_shadow_record object kind rs ≡ some r
    → find_shadow_record object kind (update_record object kind change rs) ≡ some (change r)
unfolding find_shadow_record update_record
find-update object kind change [] r same found = ground (arith, found)
find-update object kind change (q ∷ rs) r same found =
    split (Bool-cases (matches object kind q)) λ f. find-update object kind change rs r same f
  where
    split :
        (matches object kind q ≡ true) ⊎ (matches object kind q ≡ false)
        → (find_shadow_record object kind rs ≡ some r
            → find_shadow_record object kind (update_record object kind change rs)
              ≡ some (change r))
        → find_shadow_record object kind (update_record object kind change (q ∷ rs))
          ≡ some (change r)
    split (inl t) rest =
        let it : q ≡ r = ground (arith, t, found) in
        rw (t, find_shadow_record, same q, t) (ap (λ x. some (change x)) it)
    split (inr t) rest = ground (arith, t, rest (ground (arith, t, found)))

drop_none : (n : ℕ) → drop {A = ℕ} n [] ≡ []
drop_none zero = refl
drop_none (suc n) = refl

-- the originals below the old count are kept, and those above are what the shadow holds
get_or-take-append :
    (n : ℕ) (xs ys : List ℕ) (i : ℕ)
    → length xs ≡ n
    → get_or (take n xs ++ drop n ys) i 0 ≡ (if ltb i n then get_or xs i 0 else get_or ys i 0)
get_or-take-append zero [] ys i e = ground arith
get_or-take-append zero (x ∷ xs) ys i e = absurd (omega (arith, e))
get_or-take-append (suc n) [] ys i e = absurd (omega (arith, e))
get_or-take-append (suc n) (x ∷ xs) [] zero e = ground arith
get_or-take-append (suc n) (x ∷ xs) (y ∷ ys) zero e = ground arith
get_or-take-append (suc n) (x ∷ xs) [] (suc i) e =
    ground (arith, get_or-take-append n xs [] i (omega (arith, e)), drop_none n)
get_or-take-append (suc n) (x ∷ xs) (y ∷ ys) (suc i) e =
    ground (arith, get_or-take-append n xs ys i (omega (arith, e)))

-- Where the linker has put each of the module's functions; the system, the record with its
-- generation that the object uses, and the longer interface.
module _ (address : Hook → ℕ) (os : ShadowOs) (r : ShadowRecord) (g : ShadowGeneration)
    (f : Interface r.kind) (s : Shadows) where
  abbrev table : List ℕ → List ℕ
  table originals = extended s.slots originals g (vtable_len f)

  abbrev change : List ℕ → ShadowRecord → ShadowRecord
  change originals q =
      publish_shadow_generation (record g { entry_count = vtable_len f })
        (record q { originals = some (table originals); entry_count = vtable_len f })

  -- what an expansion that succeeds leaves
  abbrev after : List ℕ → Shadows
  after originals = record {
    slots = extend_hooks address g.entry_count s.slots g.vtable (hooks_of r.kind (vtable_len f));
    records = update_record r.object r.kind (change originals) s.records;
  }

  expand-after :
      (originals : List ℕ)
      → r.originals ≡ some originals
      → (expand_owned_shadow address os r g (vtable_len f) (hooks_of r.kind (vtable_len f)) s).1
        ≡ ok tt
      → (expand_owned_shadow address os r g (vtable_len f) (hooks_of r.kind (vtable_len f)) s).0
        ≡ after originals
  unfolding expand_owned_shadow
  expand-after originals held fine = ground (arith, held, fine)

  saved-slot :
      (originals : List ℕ) (i : ℕ)
      → length originals ≡ g.entry_count
      → i < vtable_len f
      → load_saved_record_function (change originals r) i
        ≡ nonnull (if ltb i g.entry_count then get_or originals i 0 else s.slots (slot g.vtable i))
  unfolding load_saved_record_function
  saved-slot originals i all lt = ground (
    arith,
    lt,
    get_or-entries s.slots g.vtable (vtable_len f) i lt,
    get_or-take-append g.entry_count originals (entries s.slots g.vtable (vtable_len f)) i all,
  )

-- In every state that installations and releases lead to, an expansion of the object's shadow that
-- reports success leaves each slot below the old count of entries as it was, also where another
-- module has put its own function over the hook; from that count on the slots hold the longer
-- interface's hooks, or what they held where it has none. The object's record has the new count,
-- gives the same function as before below the old count, and from there on what the shadow held.
-- No pointer but the hooked slots changes.
pub expand_owned_shadow_lem :
    (address : Hook → ℕ) (os : ShadowOs) (r : ShadowRecord) (g : ShadowGeneration)
    (f : Interface r.kind) (v : ℕ) (s : Shadows)
    → Reach address s
    → find_shadow_record r.object r.kind s.records ≡ some r
    → find_shadow_generation v r.generations ≡ some g
    → (expand_owned_shadow address os r g (vtable_len f) (hooks_of r.kind (vtable_len f)) s).1
      ≡ ok tt
    → (t : Shadows) × (q : ShadowRecord) × ((expand_owned_shadow address os r g
          (vtable_len f)
          (hooks_of r.kind (vtable_len f))
          s).0
        ≡ t)
      × ((i : ℕ)
          → t.slots (slot v i) ≡ (
              if ltb i g.entry_count
              then s.slots (slot v i)
              else hooked address (listed (hooks_of r.kind (vtable_len f)) i) (s.slots (slot v i))))
      × (find_shadow_record r.object r.kind t.records ≡ some q)
      × (q.entry_count ≡ vtable_len f)
      × ((i : ℕ)
          → i < vtable_len f
          → load_saved_record_function q i ≡ (
              if ltb i g.entry_count
              then load_saved_record_function r i
              else nonnull (s.slots (slot v i))))
      × ((x : ℕ)
          → ((i : ℕ) (h : Hook) → listed (hooks_of r.kind (vtable_len f)) i ≡ some h → x ≢ slot v i)
          → t.slots x ≡ s.slots x)
unfolding load_saved_record_function
expand_owned_shadow_lem address os r g f v s way found generation fine =
    let own =
      (find-IsSound address r.object r.kind s.records r (Reach-AllSound address s way) found).0 in
    let at : g.vtable ≡ v = find_shadow_generation-vtable v r.generations g generation in
    let all = length-preserved address r g own.originals v own own.holds generation in
    let count : g.entry_count ≡ r.entry_count = (own.generations v v g g generation generation).1 in
    (
      after address os r g f s own.originals,
      change address os r g f s own.originals r,
      expand-after address os r g f s own.originals own.holds fine,
      (λ i.
          subst
            (λ w.
              extend_hooks address g.entry_count s.slots g.vtable (hooks_of r.kind (vtable_len f))
                (slot w i)
              ≡ (if ltb i g.entry_count
                  then s.slots (slot w i)
                  else hooked address (listed (hooks_of r.kind (vtable_len f)) i)
                      (s.slots (slot w i))))
            at
            (extend_hooks_lem address g.entry_count s.slots g.vtable
              (hooks_of r.kind (vtable_len f)) i (hooks_of-IsDistinct f))),
      find-update r.object r.kind (change address os r g f s own.originals) s.records r (λ q. refl)
          found,
      refl,
      (λ i lt.
          ground
            (arith, saved-slot address os r g f s own.originals i all lt, own.holds, count, at)),
      λ x off.
          extend_hooks_frame address g.entry_count s.slots g.vtable (hooks_of r.kind (vtable_len f))
            x (λ i h e z. off i h e (z ∙ ap (λ w. slot w i) at)) (hooks_of-IsDistinct f),
    )
