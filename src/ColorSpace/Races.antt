-- ===== src/ColorSpace/Races.antt =====
-- Two interleavings that the comments of src/dxgi.rs rule out.
use elden_ring_windowed_hdr.Common.{ℕ, ◌≡◌, refl, true, false, some, [], ◌∷◌, arith}
use elden_ring_windowed_hdr.ColorSpace.Machine.{
  ManagedColorSpaceTransition, request, begin_transition, finish_transition, observe_external_set,
  pq, next_epoch,
}
use elden_ring_windowed_hdr.ColorSpace.Lifecycle.{ManagedChain, ask, start, complete, external}

-- HDR was stopped: the baseline `c` is to be restored before the next Present
abbrev pub stopping : ℕ → ℕ → ManagedChain
stopping c epoch = record {
  managed = record {
    restore_color_space = some c;
    desired_hdr = false;
    transition_pending = true;
    transition_in_progress = false;
    failure_latched = false;
    request_epoch = epoch;
  };
  observed_color_space = pq;
  in_flight = [];
}

-- the transition that `begin_transition` hands out there
abbrev pub restoring : ℕ → ℕ → ManagedColorSpaceTransition
restoring c epoch = record { target_color_space = c; enabling_hdr = false; request_epoch = epoch }

-- While the restoration of a baseline is in flight, HDR is requested again, and then the
-- restoration fails: the failure is latched, and still the next transition enables HDR.
pub latched_yet_enables :
    (c epoch : ℕ)
    → let s = complete (ask (start (stopping c epoch)) true) (restoring c epoch) [] false in
      ((start (stopping c epoch)).in_flight ≡ restoring c epoch ∷ [])
      × (s.managed.failure_latched ≡ true)
      × ((t : ManagedColorSpaceTransition) × ((begin_transition s.managed).1 ≡ some t)
          × (t.enabling_hdr ≡ true)
          × (t.target_color_space ≡ pq))
unfolding start ask complete request begin_transition finish_transition
latched_yet_enables c epoch = (
  refl,
  ground arith,
  (
    record { target_color_space = pq; enabling_hdr = true; request_epoch = next_epoch epoch },
    ground arith,
    refl,
    refl,
  ),
)

-- While the restoration of a baseline is in flight, HDR is requested again, and another component
-- sets PQ; then the restoration succeeds. HDR is wanted and nothing is pending or in flight, but
-- the color space is the baseline.
pub overtaken_restores :
    (c epoch : ℕ)
    → let s =
        complete (external (ask (start (stopping c epoch)) true) pq) (restoring c epoch) [] true in
      (s.managed.desired_hdr ≡ true)
      × (s.managed.transition_pending ≡ false)
      × (s.managed.transition_in_progress ≡ false)
      × (s.in_flight ≡ [])
      × (s.observed_color_space ≡ c)
unfolding start ask complete external request begin_transition finish_transition
    observe_external_set
overtaken_restores c epoch = (ground arith, ground arith, ground arith, refl, refl)
