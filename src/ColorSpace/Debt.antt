-- ===== src/ColorSpace/Debt.antt =====
-- A captured baseline is given back: what holds of a swap chain's color-space state in every
-- interleaving of the calls.
use elden_ring_windowed_hdr.Common.{
  ℕ, ◌≡◌, subst, ◌⊎◌, inl, inr, Bool, true, false, none, some, List, [], ◌∷◌, ◌++◌, is_some, arith,
}
use elden_ring_windowed_hdr.ColorSpace.Machine.{
  ManagedColorSpaceState, ManagedColorSpaceTransition, request, begin_transition, finish_transition,
  reapply_after_reconfiguration, observe_external_set,
}
use elden_ring_windowed_hdr.ColorSpace.Lifecycle.{
  ManagedChain, fresh, ask, start, complete, reconfigure, external, Managed, asked, started,
  completed, reconfigured, Step, own, foreign, Reach, here, next,
}

-- The module has given up the color space of this swap chain.
pub record IsRelinquished (m : ManagedColorSpaceState) : Type 0 where
  pub latched : m.failure_latched ≡ true
  pub no_baseline : m.restore_color_space ≡ none
  pub not_desired : m.desired_hdr ≡ false

-- With nothing in flight, a baseline that HDR no longer needs is scheduled for restoration; with
-- one transition in flight, it is scheduled or is the color space that that transition sets.
abbrev pub Owed : List ManagedColorSpaceTransition → ManagedColorSpaceState → Type 0
Owed [] m =
    (m.transition_in_progress ≡ false)
    × (is_some m.restore_color_space ≡ true
        → m.desired_hdr ≡ false
        → m.failure_latched ≡ false
        → m.transition_pending ≡ true)
Owed (t ∷ []) m =
    (m.transition_in_progress ≡ true)
    × (is_some m.restore_color_space ≡ true
        → m.desired_hdr ≡ false
        → m.transition_pending ≡ false
        → (t.request_epoch ≡ m.request_epoch)
          × (t.enabling_hdr ≡ false)
          × (m.restore_color_space ≡ some t.target_color_space))
Owed (t ∷ u ∷ ts) m = ⊥

abbrev pub IsConsistent : ManagedChain → Type 0
IsConsistent s = IsRelinquished s.managed ⊎ Owed s.in_flight s.managed

fresh-IsConsistent : IsConsistent fresh
fresh-IsConsistent = inr (ground arith)

ask-IsRelinquished :
    (s : ManagedChain) (hdr : Bool) → IsRelinquished s.managed → IsRelinquished (ask s hdr).managed
unfolding ask request
ask-IsRelinquished s hdr h = ground arith

ask-Owed :
    (s : ManagedChain) (ts : List ManagedColorSpaceTransition) (hdr : Bool)
    → Owed ts s.managed
    → Owed ts (ask s hdr).managed
unfolding ask request
ask-Owed s [] hdr h = ground arith
ask-Owed s (t ∷ []) hdr h = ground arith
ask-Owed s (t ∷ u ∷ ts) hdr h = absurd h

start-IsRelinquished :
    (s : ManagedChain) → IsRelinquished s.managed → IsRelinquished (start s).managed
unfolding start begin_transition
start-IsRelinquished s h = ground arith

start-Owed :
    (s : ManagedChain) → Owed s.in_flight s.managed → Owed (start s).in_flight (start s).managed
unfolding start begin_transition
start-Owed s = at s.in_flight
  where
    at :
        (ts : List ManagedColorSpaceTransition)
        → Owed ts s.managed
        → Owed (start (record s { in_flight = ts })).in_flight (start s).managed
    at [] h = ground arith
    at (t ∷ []) h = ground arith
    at (t ∷ u ∷ ts) h = absurd h

complete-IsRelinquished :
    (s : ManagedChain) (t : ManagedColorSpaceTransition) (rest : List ManagedColorSpaceTransition)
    (succeeded : Bool)
    → IsRelinquished s.managed
    → IsRelinquished (complete s t rest succeeded).managed
unfolding complete finish_transition
complete-IsRelinquished s t rest succeeded h = ground arith

finish_transition-Owed :
    (m : ManagedColorSpaceState) (t : ManagedColorSpaceTransition) (succeeded : Bool)
    → Owed (t ∷ []) m
    → Owed [] (finish_transition m t succeeded)
unfolding finish_transition
finish_transition-Owed m t succeeded h = ground arith

complete-Owed :
    (m : ManagedColorSpaceState) (ts before : List ManagedColorSpaceTransition)
    (t : ManagedColorSpaceTransition) (after : List ManagedColorSpaceTransition) (succeeded : Bool)
    → ts ≡ before ++ t ∷ after
    → Owed ts m
    → Owed (before ++ after) (finish_transition m t succeeded)
complete-Owed m (u ∷ v ∷ ts) before t after succeeded e h = absurd h
complete-Owed m [] [] t after succeeded e h = cc
complete-Owed m [] (x ∷ before) t after succeeded e h = cc
complete-Owed m (u ∷ []) [] t [] succeeded e h =
    let same : u ≡ t = cc in
    finish_transition-Owed m t succeeded (subst (λ x. Owed (x ∷ []) m) same h)
complete-Owed m (u ∷ []) [] t (x ∷ after) succeeded e h = cc
complete-Owed m (u ∷ []) (x ∷ []) t after succeeded e h = cc
complete-Owed m (u ∷ []) (x ∷ y ∷ before) t after succeeded e h = cc

reconfigure-IsRelinquished :
    (s : ManagedChain) → IsRelinquished s.managed → IsRelinquished (reconfigure s).managed
unfolding reconfigure reapply_after_reconfiguration
reconfigure-IsRelinquished s h = ground arith

reconfigure-Owed :
    (s : ManagedChain) (ts : List ManagedColorSpaceTransition)
    → Owed ts s.managed
    → Owed ts (reconfigure s).managed
unfolding reconfigure reapply_after_reconfiguration
reconfigure-Owed s [] h = ground arith
reconfigure-Owed s (t ∷ []) h = ground arith
reconfigure-Owed s (t ∷ u ∷ ts) h = absurd h

external-IsRelinquished :
    (s : ManagedChain) (c : ℕ) → IsRelinquished s.managed → IsRelinquished (external s c).managed
unfolding external observe_external_set
external-IsRelinquished s c h = ground arith

-- A call of another component either agrees with the state, or makes the module give up.
external-Owed :
    (s : ManagedChain) (ts : List ManagedColorSpaceTransition) (c : ℕ)
    → Owed ts s.managed
    → IsRelinquished (external s c).managed ⊎ Owed ts (external s c).managed
unfolding external observe_external_set
external-Owed s [] c h = ground arith
external-Owed s (t ∷ []) c h = ground arith
external-Owed s (t ∷ u ∷ ts) c h = absurd h

Managed-IsRelinquished :
    {s s' : ManagedChain} → Managed s s' → IsRelinquished s.managed → IsRelinquished s'.managed
Managed-IsRelinquished (asked s hdr) h = ask-IsRelinquished s hdr h
Managed-IsRelinquished (started s) h = start-IsRelinquished s h
Managed-IsRelinquished (completed s before t after succeeded e) h =
    complete-IsRelinquished s t (before ++ after) succeeded h
Managed-IsRelinquished (reconfigured s) h = reconfigure-IsRelinquished s h

pub Step-IsRelinquished :
    {s s' : ManagedChain} → Step s s' → IsRelinquished s.managed → IsRelinquished s'.managed
Step-IsRelinquished (own m) h = Managed-IsRelinquished m h
Step-IsRelinquished (foreign s c) h = external-IsRelinquished s c h

Managed-Owed :
    {s s' : ManagedChain} → Managed s s' → Owed s.in_flight s.managed → Owed s'.in_flight s'.managed
unfolding ask complete reconfigure
Managed-Owed (asked s hdr) h = ask-Owed s s.in_flight hdr h
Managed-Owed (started s) h = start-Owed s h
Managed-Owed (completed s before t after succeeded e) h =
    complete-Owed s.managed s.in_flight before t after succeeded e h
Managed-Owed (reconfigured s) h = reconfigure-Owed s s.in_flight h

Step-Owed : {s s' : ManagedChain} → Step s s' → Owed s.in_flight s.managed → IsConsistent s'
unfolding external
Step-Owed (own m) h = inr (Managed-Owed m h)
Step-Owed (foreign s c) h = external-Owed s s.in_flight c h

pub Step-IsConsistent : {s s' : ManagedChain} → Step s s' → IsConsistent s → IsConsistent s'
Step-IsConsistent st (inl h) = inl (Step-IsRelinquished st h)
Step-IsConsistent st (inr h) = Step-Owed st h

-- In every interleaving of the calls from a fresh swap chain: either the module has latched a
-- failure, holds no baseline and wants no HDR; or at most one transition is in flight, and a
-- baseline that HDR does not need is scheduled for restoration, if none is in flight and no failure
-- is latched, or, if one is, is scheduled or is exactly the color space that that one, of the
-- current epoch, sets.
pub Reach-IsConsistent : {s : ManagedChain} → Reach fresh s → IsConsistent s
Reach-IsConsistent here = fresh-IsConsistent
Reach-IsConsistent (next r st) = Step-IsConsistent st (Reach-IsConsistent r)
