-- ===== src/ColorSpace/Tests.antt =====
-- src/dxgi.rs: the theorems on the managed color space at concrete states.
use elden_ring_windowed_hdr.Common.{◌≡◌, ◌⊎◌, refl, true, false, none, some, [], ◌∷◌}
use elden_ring_windowed_hdr.ColorSpace.Machine.{
  ManagedColorSpaceTransition, request, begin_transition, finish_transition, observe_external_set,
  pq,
}
use elden_ring_windowed_hdr.ColorSpace.Lifecycle.{
  ManagedChain, fresh, ask, start, complete, external, asked, started, completed, own, Reach,
  ManagedReach,
}
use elden_ring_windowed_hdr.ColorSpace.Debt.{IsConsistent, Reach-IsConsistent}
use elden_ring_windowed_hdr.ColorSpace.Ownership.{
  Kept, conflict_relinquishes, baseline-Kept, failure_stops_enabling,
}
use elden_ring_windowed_hdr.ColorSpace.Settled.{IsIdle, cycle, wanted_hdr_settles, cycle_restores}
use elden_ring_windowed_hdr.ColorSpace.Races.{
  stopping, restoring, latched_yet_enables, overtaken_restores,
}

-- HDR asked for, and its transition in flight
abbrev enabling : ManagedColorSpaceTransition
enabling = record { target_color_space = 12; enabling_hdr = true; request_epoch = 1 }

abbrev in_pq : ManagedChain
in_pq = complete (start (ask fresh true)) enabling [] true

Reach-IsConsistent_example : IsConsistent (ask in_pq false)
unfolding complete start ask request begin_transition finish_transition
Reach-IsConsistent_example = Reach-IsConsistent (
    Reach.next
      (Reach.next
        (Reach.next (Reach.next Reach.here (own (asked fresh true)))
          (own (started (ask fresh true))))
        (own (completed (start (ask fresh true)) [] enabling [] true refl)))
      (own (asked in_pq false)))

wanted_hdr_settles_example : in_pq.observed_color_space ≡ 12
unfolding complete start ask request begin_transition finish_transition
wanted_hdr_settles_example =
    wanted_hdr_settles
      (ManagedReach.next
        (ManagedReach.next (ManagedReach.next ManagedReach.here (asked fresh true))
          (started (ask fresh true)))
        (completed (start (ask fresh true)) [] enabling [] true refl))
      refl refl refl

cycle_restores_example :
    (mid last : ManagedChain) × (cycle fresh true ≡ some mid)
    × (mid.observed_color_space ≡ pq)
    × (mid.managed.restore_color_space ≡ some 0)
    × (cycle mid false ≡ some last)
    × (last.observed_color_space ≡ 0)
    × IsIdle last
cycle_restores_example = cycle_restores fresh (refl, refl, refl)

conflict_relinquishes_example :
    (begin_transition (ask (external in_pq 1) true).managed
      ≡ ((ask (external in_pq 1) true).managed, none))
    × (request (ask (external in_pq 1) true).managed true 5
        ≡ ((ask (external in_pq 1) true).managed, false))
unfolding complete start ask external request begin_transition finish_transition
    observe_external_set
conflict_relinquishes_example =
    conflict_relinquishes in_pq (ask (external in_pq 1) true) 1 5 refl
      (Reach.next Reach.here (own (asked (external in_pq 1) true)))

baseline-Kept_example :
    Kept 0 (ask in_pq false).managed
    × ((t : ManagedColorSpaceTransition)
        → (begin_transition in_pq.managed).1 ≡ some t
        → ((t.enabling_hdr ≡ true)
            × (t.target_color_space ≡ pq)
            × (in_pq.managed.desired_hdr ≡ true))
          ⊎ ((t.enabling_hdr ≡ false)
              × (t.target_color_space ≡ 0)
              × (in_pq.managed.desired_hdr ≡ false)))
unfolding complete start ask request begin_transition finish_transition
baseline-Kept_example = baseline-Kept 0 (own (asked in_pq false)) refl

-- the transition to PQ fails
abbrev declined : ManagedChain
declined = complete (start (ask fresh true)) enabling [] false

-- what begins next
abbrev giving_back : ManagedColorSpaceTransition
giving_back = record { target_color_space = 0; enabling_hdr = false; request_epoch = 2 }

failure_stops_enabling_example : giving_back.enabling_hdr ≡ false
unfolding complete start ask request begin_transition finish_transition
failure_stops_enabling_example =
    failure_stops_enabling (start (ask fresh true)) declined enabling giving_back [] refl refl
      Reach.here refl

latched_yet_enables_example :
    let s = complete (ask (start (stopping 0 1)) true) (restoring 0 1) [] false in
    ((start (stopping 0 1)).in_flight ≡ restoring 0 1 ∷ [])
    × (s.managed.failure_latched ≡ true)
    × ((t : ManagedColorSpaceTransition) × ((begin_transition s.managed).1 ≡ some t)
        × (t.enabling_hdr ≡ true)
        × (t.target_color_space ≡ pq))
latched_yet_enables_example = latched_yet_enables 0 1

overtaken_restores_example :
    let s = complete (external (ask (start (stopping 0 1)) true) pq) (restoring 0 1) [] true in
    (s.managed.desired_hdr ≡ true)
    × (s.managed.transition_pending ≡ false)
    × (s.managed.transition_in_progress ≡ false)
    × (s.in_flight ≡ [])
    × (s.observed_color_space ≡ 0)
overtaken_restores_example = overtaken_restores 0 1
