-- ===== src/ColorSpace/Settled.antt =====
-- What the color space is when nothing is pending or in flight.
use elden_ring_windowed_hdr.Common.{
  ℕ, ◌≡◌, refl, subst, Bool, true, false, Option, none, some, List, [], ◌∷◌, ◌++◌, arith,
}
use elden_ring_windowed_hdr.ColorSpace.Machine.{
  ManagedColorSpaceState, ManagedColorSpaceTransition, request, begin_transition, finish_transition,
  reapply_after_reconfiguration, pq, next_epoch,
}
use elden_ring_windowed_hdr.ColorSpace.Lifecycle.{
  ManagedChain, fresh, ask, start, complete, reconfigure, Managed, asked, started, completed,
  reconfigured, ManagedReach, here, next,
}

abbrev Settled : List ManagedColorSpaceTransition → ManagedColorSpaceState → ℕ → Type 0
Settled [] m observed =
    (m.transition_in_progress ≡ false)
    × (m.desired_hdr ≡ true → m.transition_pending ≡ false → observed ≡ pq)
Settled (t ∷ []) m observed =
    (m.transition_in_progress ≡ true)
    × (m.desired_hdr ≡ true
        → m.transition_pending ≡ false
        → (t.enabling_hdr ≡ true)
          × (t.target_color_space ≡ pq)
          × (t.request_epoch ≡ m.request_epoch))
Settled (t ∷ u ∷ ts) m observed = ⊥

abbrev IsSettled : ManagedChain → Type 0
IsSettled s = Settled s.in_flight s.managed s.observed_color_space

ask-Settled :
    (s : ManagedChain) (ts : List ManagedColorSpaceTransition) (hdr : Bool)
    → Settled ts s.managed s.observed_color_space
    → Settled ts (ask s hdr).managed s.observed_color_space
unfolding ask request
ask-Settled s [] hdr h = ground arith
ask-Settled s (t ∷ []) hdr h = ground arith
ask-Settled s (t ∷ u ∷ ts) hdr h = absurd h

reconfigure-Settled :
    (s : ManagedChain) (ts : List ManagedColorSpaceTransition)
    → Settled ts s.managed s.observed_color_space
    → Settled ts (reconfigure s).managed s.observed_color_space
unfolding reconfigure reapply_after_reconfiguration
reconfigure-Settled s [] h = ground arith
reconfigure-Settled s (t ∷ []) h = ground arith
reconfigure-Settled s (t ∷ u ∷ ts) h = absurd h

start-Settled : (s : ManagedChain) → IsSettled s → IsSettled (start s)
unfolding start begin_transition
start-Settled s = at s.in_flight
  where
    at :
        (ts : List ManagedColorSpaceTransition)
        → Settled ts s.managed s.observed_color_space
        → IsSettled (start (record s { in_flight = ts }))
    at [] h = ground arith
    at (t ∷ []) h = ground arith
    at (t ∷ u ∷ ts) h = absurd h

finish-Settled :
    (s : ManagedChain) (t : ManagedColorSpaceTransition) (succeeded : Bool)
    → Settled (t ∷ []) s.managed s.observed_color_space
    → IsSettled (complete s t [] succeeded)
unfolding complete finish_transition
finish-Settled s t succeeded h = ground arith

complete-Settled :
    (s : ManagedChain) (ts before : List ManagedColorSpaceTransition)
    (t : ManagedColorSpaceTransition) (after : List ManagedColorSpaceTransition) (succeeded : Bool)
    → ts ≡ before ++ t ∷ after
    → Settled ts s.managed s.observed_color_space
    → IsSettled (complete s t (before ++ after) succeeded)
complete-Settled s (u ∷ v ∷ ts) before t after succeeded e h = absurd h
complete-Settled s [] [] t after succeeded e h = cc
complete-Settled s [] (x ∷ before) t after succeeded e h = cc
complete-Settled s (u ∷ []) [] t [] succeeded e h =
    let same : u ≡ t = cc in
    finish-Settled s t succeeded
      (subst (λ x. Settled (x ∷ []) s.managed s.observed_color_space) same h)
complete-Settled s (u ∷ []) [] t (x ∷ after) succeeded e h = cc
complete-Settled s (u ∷ []) (x ∷ []) t after succeeded e h = cc
complete-Settled s (u ∷ []) (x ∷ y ∷ before) t after succeeded e h = cc

Managed-Settled : {s s' : ManagedChain} → Managed s s' → IsSettled s → IsSettled s'
unfolding ask reconfigure
Managed-Settled (asked s hdr) h = ask-Settled s s.in_flight hdr h
Managed-Settled (started s) h = start-Settled s h
Managed-Settled (completed s before t after succeeded e) h =
    complete-Settled s s.in_flight before t after succeeded e h
Managed-Settled (reconfigured s) h = reconfigure-Settled s s.in_flight h

ManagedReach-Settled : {s : ManagedChain} → ManagedReach fresh s → IsSettled s
ManagedReach-Settled here = ground arith
ManagedReach-Settled (next r st) = Managed-Settled st (ManagedReach-Settled r)

Settled-pq :
    (s : ManagedChain) (ts : List ManagedColorSpaceTransition)
    → Settled ts s.managed s.observed_color_space
    → ts ≡ []
    → s.managed.transition_pending ≡ false
    → s.managed.desired_hdr ≡ true
    → s.observed_color_space ≡ pq
Settled-pq s [] h e p d = ground arith
Settled-pq s (t ∷ ts) h e p d = cc

-- In every run without calls of other components, from a fresh swap chain: when HDR is wanted, and
-- no transition is pending or in flight, the color space last set is PQ.
pub wanted_hdr_settles :
    {s : ManagedChain}
    → ManagedReach fresh s
    → s.in_flight ≡ []
    → s.managed.transition_pending ≡ false
    → s.managed.desired_hdr ≡ true
    → s.observed_color_space ≡ pq
wanted_hdr_settles {s} r e p d = Settled-pq s s.in_flight (ManagedReach-Settled r) e p d

abbrev pub IsIdle : ManagedChain → Type 0
IsIdle s =
    (s.managed.restore_color_space ≡ none)
    × (s.managed.failure_latched ≡ false)
    × (s.managed.transition_in_progress ≡ false)

-- one request followed by a successful transition before the next Present
abbrev pub cycle : ManagedChain → Bool → Option ManagedChain
cycle s hdr =
    let s' = ask s hdr in
    elim (begin_transition s'.managed).1 [
      | none ↦ none
      | some t ↦ some (complete (start s') t s.in_flight true)
    ]

-- the state after a completed cycle
abbrev cycled : ManagedChain → ℕ → Bool → Option ℕ → ℕ → ManagedChain
cycled s observed hdr restore epoch = record {
  managed = record {
    restore_color_space = restore;
    desired_hdr = hdr;
    transition_pending = false;
    transition_in_progress = false;
    failure_latched = false;
    request_epoch = epoch;
  };
  observed_color_space = observed;
  in_flight = s.in_flight;
}

-- From a swap chain that captured no baseline and latched no failure, a request for HDR and its
-- transition set PQ and capture the color space seen before, and a request to stop and its
-- transition set exactly that color space again, release it and latch nothing.
pub cycle_restores :
    (s : ManagedChain)
    → IsIdle s
    → (mid last : ManagedChain) × (cycle s true ≡ some mid)
      × (mid.observed_color_space ≡ pq)
      × (mid.managed.restore_color_space ≡ some s.observed_color_space)
      × (cycle mid false ≡ some last)
      × (last.observed_color_space ≡ s.observed_color_space)
      × IsIdle last
unfolding ask start complete request begin_transition finish_transition
cycle_restores s h = (
  cycled s pq true (some s.observed_color_space) e,
  cycled s s.observed_color_space false none (next_epoch e),
  ground arith,
  refl,
  refl,
  ground arith,
  refl,
  (refl, refl, refl),
)
  where
    e : ℕ
    e = next_epoch s.managed.request_epoch
