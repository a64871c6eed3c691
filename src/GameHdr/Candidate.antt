-- ===== src/GameHdr/Candidate.antt =====
-- src/game_hdr.rs: `candidate_is_eligible`, which inspects a swap chain once for each revision.
use elden_ring_windowed_hdr.Common.{
  ℕ, ◌≡◌, refl, Bool, true, false, not, List, [], ◌∷◌, ◌&&◌, Option, none, some, ◌==◌,
  if◌then◌else◌, arith, Option-cases, ap, sym, ◌∙◌, inl, inr,
}
use elden_ring_windowed_hdr.SwapChains.Device.{Device, inspect_windowed_hdr_candidate}
use elden_ring_windowed_hdr.SwapChains.Hooks.{is_ok_true}
use elden_ring_windowed_hdr.GameHdr.Statics.{HdrCandidateCache}

abbrev pub empty_cache : HdrCandidateCache
empty_cache = record { object = 0; revision = 0; eligible = none; poisoned = false }

-- the inspection under the lock, after the key was stored
refresh : Device → HdrCandidateCache → ℕ → ℕ → HdrCandidateCache × Bool
refresh device cache swap_chain revision =
    let eligible = is_ok_true (inspect_windowed_hdr_candidate device swap_chain) in
    (record cache { object = swap_chain; revision = revision; eligible = some eligible }, eligible)

-- the early return on a hit
cached : Option Bool → HdrCandidateCache × Bool → HdrCandidateCache → HdrCandidateCache × Bool
cached none miss cache = miss
cached (some eligible) miss cache = (cache, eligible)

unfoldable pub candidate_is_eligible : Device → HdrCandidateCache → ℕ → ℕ → HdrCandidateCache × Bool
unfolding refresh cached
candidate_is_eligible device cache swap_chain revision =
    if cache.poisoned
    then (cache, false)
    else if cache.object == swap_chain && cache.revision == revision
    then cached cache.eligible (refresh device cache swap_chain revision) cache
    else refresh device cache swap_chain revision

-- A call of `candidate_is_eligible`, by either hook: what DXGI would answer at that moment, the
-- swap chain, and its revision.
pub record Call : Type 0 where
  pub device : Device
  pub swap_chain : ℕ
  pub revision : ℕ

-- The cache after a list of calls, the latest first. The lock that guards it may have been
-- poisoned since.
pub cache_after : List Call → HdrCandidateCache
cache_after [] = empty_cache
cache_after (c ∷ calls) =
    (candidate_is_eligible c.device (cache_after calls) c.swap_chain c.revision).0

abbrev pub left : Bool → List Call → HdrCandidateCache
left poisoned calls = record (cache_after calls) { poisoned = poisoned }

abbrev pub same_key : Call → Call → Bool
same_key c c' = c.swap_chain == c'.swap_chain && c.revision == c'.revision

-- The first of the calls in a row for the swap chain and the revision of the latest call: the
-- first argument is the calls before it.
pub origin : List Call → Call → Call
origin [] c = c
origin (c' ∷ calls) c = if same_key c' c then origin calls c' else c

-- what an inspection finds at the moment of a call
abbrev pub found : Call → Bool
found c = is_ok_true (inspect_windowed_hdr_candidate c.device c.swap_chain)

pub origin-key :
    (calls : List Call) (c : Call)
    → ((origin calls c).swap_chain ≡ c.swap_chain) × ((origin calls c).revision ≡ c.revision)
unfolding origin
origin-key [] c = (refl, refl)
origin-key (c' ∷ calls) c = ground (arith, origin-key calls c')

-- the cache is that of the first of the calls in a row
abbrev Cached : List Call → Call → HdrCandidateCache → Type 0
Cached calls c cache =
    (cache.object ≡ c.swap_chain)
    × (cache.revision ≡ c.revision)
    × (cache.eligible ≡ some (found (origin calls c)))
    × (cache.poisoned ≡ false)

first-Cached : (c : Call) → Cached [] c (cache_after (c ∷ []))
unfolding origin cache_after candidate_is_eligible
first-Cached c = ground arith

next-Cached :
    (calls : List Call) (c c' : Call) (cache : HdrCandidateCache)
    → Cached calls c' cache
    → Cached (c' ∷ calls) c (candidate_is_eligible c.device cache c.swap_chain c.revision).0
unfolding origin candidate_is_eligible
next-Cached calls c c' cache h = ground (arith, h)

cache_after-Cached : (calls : List Call) (c : Call) → Cached calls c (cache_after (c ∷ calls))
unfolding cache_after
cache_after-Cached [] c = first-Cached c
cache_after-Cached (c' ∷ calls) c =
    next-Cached calls c c' (cache_after (c' ∷ calls)) (cache_after-Cached calls c')

not-poisoned : (calls : List Call) → left false calls ≡ cache_after calls
unfolding cache_after
not-poisoned [] = refl
not-poisoned (c ∷ calls) =
    ap (λ p. record (cache_after (c ∷ calls)) { poisoned = p }) (sym (cache_after-Cached calls c).3)

answer_poisoned :
    (calls : List Call) (c : Call)
    → candidate_is_eligible c.device (left true calls) c.swap_chain c.revision
      ≡ (left true calls, false)
unfolding candidate_is_eligible
answer_poisoned calls c = refl

-- what a call answers is what the cache then holds
answer_held :
    (c : Call) (cache : HdrCandidateCache) (b : Bool)
    → cache.poisoned ≡ false
    → (candidate_is_eligible c.device cache c.swap_chain c.revision).0.eligible ≡ some b
    → (candidate_is_eligible c.device cache c.swap_chain c.revision).1 ≡ b
unfolding candidate_is_eligible
answer_held c cache b h e = elim (Option-cases cache.eligible) [
  | inl n ↦ ground arith
  | inr s ↦ ground (arith, s.1)
]

cache_after-poisoned : (calls : List Call) → (cache_after calls).poisoned ≡ false
unfolding cache_after
cache_after-poisoned [] = refl
cache_after-poisoned (c ∷ calls) = (cache_after-Cached calls c).3

answer_found :
    (calls : List Call) (c : Call)
    → (candidate_is_eligible c.device (cache_after calls) c.swap_chain c.revision).1
      ≡ found (origin calls c)
unfolding cache_after
answer_found calls c =
    answer_held c (cache_after calls) (found (origin calls c)) (cache_after-poisoned calls)
      (cache_after-Cached calls c).2

-- After any calls, a call answers what the inspection found that was made at the first of the
-- calls in a row, this one included, for the same swap chain and the same revision, and the
-- cache is then the one after these calls; with a poisoned lock it answers false and leaves the
-- cache.
pub candidate_is_eligible_lem :
    (poisoned : Bool) (calls : List Call) (c : Call)
    → ((candidate_is_eligible c.device (left poisoned calls) c.swap_chain c.revision).1
        ≡ (not poisoned && found (origin calls c)))
      × ((candidate_is_eligible c.device (left poisoned calls) c.swap_chain c.revision).0
          ≡ left poisoned (if poisoned then calls else c ∷ calls))
      × ((origin calls c).swap_chain ≡ c.swap_chain)
      × ((origin calls c).revision ≡ c.revision)
unfolding cache_after
candidate_is_eligible_lem true calls c = (
  ap (λ x. x.1) (answer_poisoned calls c),
  ap (λ x. x.0) (answer_poisoned calls c),
  (origin-key calls c).0,
  (origin-key calls c).1,
)
candidate_is_eligible_lem false calls c = (
  ap (λ m. (candidate_is_eligible c.device m c.swap_chain c.revision).1) (not-poisoned calls)
      ∙ answer_found calls c,
  ap (λ m. (candidate_is_eligible c.device m c.swap_chain c.revision).0) (not-poisoned calls)
      ∙ sym (not-poisoned (c ∷ calls)),
  (origin-key calls c).0,
  (origin-key calls c).1,
)
