-- ===== src/ColorSpace/Ownership.antt =====
-- Who owns the color space: the captured baseline, the failure latch, and giving up for good.
use elden_ring_windowed_hdr.Common.{ℕ, ◌≡◌, ◌⊎◌, true, false, none, some, List, arith}
use elden_ring_windowed_hdr.ColorSpace.Machine.{
  ManagedColorSpaceState, ManagedColorSpaceTransition, request, begin_transition, finish_transition,
  reapply_after_reconfiguration, observe_external_set, pq,
}
use elden_ring_windowed_hdr.ColorSpace.Lifecycle.{
  ManagedChain, ask, start, complete, reconfigure, external, asked, started, completed,
  reconfigured, Step, own, foreign, Reach, here, next,
}
use elden_ring_windowed_hdr.ColorSpace.Debt.{IsRelinquished, Step-IsRelinquished}

Reach-IsRelinquished :
    {s s' : ManagedChain} → Reach s s' → IsRelinquished s.managed → IsRelinquished s'.managed
Reach-IsRelinquished here h = h
Reach-IsRelinquished (next r st) h = Step-IsRelinquished st (Reach-IsRelinquished r h)

external_conflict-IsRelinquished :
    (s : ManagedChain) (c : ℕ)
    → (observe_external_set s.managed c).1 ≡ true
    → IsRelinquished (external s c).managed
unfolding external observe_external_set
external_conflict-IsRelinquished s c h = ground arith

IsRelinquished-inert :
    (m : ManagedColorSpaceState) (current : ℕ)
    → IsRelinquished m
    → (begin_transition m ≡ (m, none)) × (request m true current ≡ (m, false))
unfolding begin_transition request
IsRelinquished-inert m current h = (ground arith, ground arith)

-- After another component's SetColorSpace1 call was reported as a conflict, in every state that any
-- further calls lead to: no transition begins, and a request for HDR is refused; neither changes the
-- state.
pub conflict_relinquishes :
    (s s' : ManagedChain) (c current : ℕ)
    → (observe_external_set s.managed c).1 ≡ true
    → Reach (external s c) s'
    → (begin_transition s'.managed ≡ (s'.managed, none))
      × (request s'.managed true current ≡ (s'.managed, false))
conflict_relinquishes s s' c current h r =
    IsRelinquished-inert s'.managed current
      (Reach-IsRelinquished r (external_conflict-IsRelinquished s c h))

-- a captured baseline is changed only by being released
abbrev pub Kept : ℕ → ManagedColorSpaceState → Type 0
Kept c m = (m.restore_color_space ≡ some c) ⊎ (m.restore_color_space ≡ none)

-- Whatever call comes next, a captured baseline stays the same or is released, and a transition
-- that begins while it is captured sets PQ, if HDR is wanted, or that baseline, if not.
pub baseline-Kept :
    {s s' : ManagedChain} (c : ℕ)
    → Step s s'
    → s.managed.restore_color_space ≡ some c
    → Kept c s'.managed
      × ((t : ManagedColorSpaceTransition)
          → (begin_transition s.managed).1 ≡ some t
          → ((t.enabling_hdr ≡ true) × (t.target_color_space ≡ pq) × (s.managed.desired_hdr ≡ true))
            ⊎ ((t.enabling_hdr ≡ false)
                × (t.target_color_space ≡ c)
                × (s.managed.desired_hdr ≡ false)))
unfolding ask start complete reconfigure external request begin_transition finish_transition
    reapply_after_reconfiguration observe_external_set
baseline-Kept c (own (asked s hdr)) h = (ground arith, λ t e. ground arith)
baseline-Kept c (own (started s)) h = (ground arith, λ t e. ground arith)
baseline-Kept c (own (completed s before t after succeeded e)) h =
    (ground arith, λ t e. ground arith)
baseline-Kept c (own (reconfigured s)) h = (ground arith, λ t e. ground arith)
baseline-Kept c (foreign s d) h = (ground arith, λ t e. ground arith)

abbrev Latched : ManagedChain → Type 0
Latched s = s.managed.failure_latched ≡ true

-- no call wants HDR again once a failure is latched
abbrev Declined : ManagedChain → Type 0
Declined s = Latched s × (s.managed.desired_hdr ≡ false)

Step-Declined : {s s' : ManagedChain} → Step s s' → Declined s → Declined s'
unfolding ask start complete reconfigure external request begin_transition finish_transition
    reapply_after_reconfiguration observe_external_set
Step-Declined (own (asked s hdr)) h = ground arith
Step-Declined (own (started s)) h = ground arith
Step-Declined (own (completed s before t after succeeded e)) h = ground arith
Step-Declined (own (reconfigured s)) h = ground arith
Step-Declined (foreign s d) h = ground arith

Reach-Declined : {s s' : ManagedChain} → Reach s s' → Declined s → Declined s'
Reach-Declined here h = h
Reach-Declined (next r st) h = Step-Declined st (Reach-Declined r h)

failed-Declined :
    (s : ManagedChain) (t : ManagedColorSpaceTransition) (rest : List ManagedColorSpaceTransition)
    → t.enabling_hdr ≡ true
    → t.request_epoch ≡ s.managed.request_epoch
    → Declined (complete s t rest false)
unfolding complete finish_transition
failed-Declined s t rest h e = ground arith

begin-Declined :
    (s : ManagedChain) (u : ManagedColorSpaceTransition)
    → Declined s
    → (begin_transition s.managed).1 ≡ some u
    → u.enabling_hdr ≡ false
unfolding begin_transition
begin-Declined s u h e = ground arith

-- After the transition to PQ failed with no newer request, no later transition, in any run, enables
-- HDR again.
pub failure_stops_enabling :
    (s s' : ManagedChain) (t u : ManagedColorSpaceTransition)
    (rest : List ManagedColorSpaceTransition)
    → t.enabling_hdr ≡ true
    → t.request_epoch ≡ s.managed.request_epoch
    → Reach (complete s t rest false) s'
    → (begin_transition s'.managed).1 ≡ some u
    → u.enabling_hdr ≡ false
failure_stops_enabling s s' t u rest h e r b =
    begin-Declined s' u (Reach-Declined r (failed-Declined s t rest h e)) b
