-- ===== src/Init/Finished.antt =====
-- src/lib.rs: the initializer returns, and tells whether the initialization succeeded in time.
use elden_ring_windowed_hdr.Common.{
  ℕ, zero, suc, ◌≡◌, ◌≢◌, ◌≤◌, ◌<◌, refl, ap, subst, ◌∙◌, ◌+◌, ◌-◌, inl, inr, Bool, true, false,
  some, List, [], ◌∷◌, ◌++◌, ◌==◌, leb, ltb, arith, Bool-cases,
}
use elden_ring_windowed_hdr.Init.Start.{
  Start, loaded, Action, start_initialization, act, run, IsSettled, IsOrderly, run-IsOrderly,
  run-settled, run-append,
}
use elden_ring_windowed_hdr.Init.Wait.{wait_for_initialization, at, elden_ring_windowed_hdr_init}

module _ (seen clock : ℕ → ℕ) (monotone : (n : ℕ) → clock n ≤ clock (suc n)) where
  -- The loop has ended from a poll on, true only after a success has been seen, and true if one is
  -- seen in time, with no failure before it.
  abbrev Ended : ℕ → ℕ → Type 0
  Ended fuel n =
      (b : Bool) × (wait_for_initialization fuel seen clock n ≡ some b)
      × (b ≡ true → (m : ℕ) × (seen m ≡ 2))
      × ((m : ℕ)
          → n ≤ m
          → clock m < 15000
          → seen m ≡ 2
          → ((j : ℕ) → n ≤ j → j < m → seen j ≢ 3)
          → b ≡ true)

  clock_mono : (n d : ℕ) → clock n ≤ clock (n + d)
  clock_mono n zero = let e : clock (n + 0) ≡ clock n = ap clock (omega arith) in omega (arith, e)
  clock_mono n (suc d) =
      let e : clock (n + suc d) ≡ clock (suc (n + d)) = ap clock (omega arith) in
      omega (arith, clock_mono n d, monotone (n + d), e)

  later : (n m : ℕ) → n ≤ m → clock n ≤ clock m
  later n m le =
      let e : clock (n + (m - n)) ≡ clock m = ap clock (omega (arith, le)) in
      omega (arith, clock_mono n (m - n), e)

  -- a poll that does not see a success is before the one that does
  before-success : (n m : ℕ) → (seen n == 2) ≡ false → n ≤ m → seen m ≡ 2 → n < m
  before-success n m f le two = elim (Bool-cases (ltb n m)) [
    | inl t ↦ ground (arith, t)
    | inr g ↦
        let e : seen n ≡ seen m = ap seen (ground (arith, g, le)) in
        absurd (ground (arith, e, two, f))
  ]

  -- one round of the loop, given the rest
  round : (fuel n : ℕ) → (leb 15000 (clock n) ≡ false → Ended fuel (suc n)) → Ended (suc fuel) n
  unfolding wait_for_initialization
  round fuel n rest = elim (Bool-cases (seen n == 2)) [
    | inl t ↦ (true, ground (arith, t), (λ _. (n, ground (arith, t))), λ m le early two calm. refl)
    | inr f ↦ elim (Bool-cases (seen n == 3)) [
      | inl t ↦ (
        false,
        ground (arith, f, t),
        (λ z. ground (arith, z)),
        λ m le early two calm.
            absurd (ground (arith, t, calm n (omega arith) (before-success n m f le two))),
      )
      | inr g ↦ elim (Bool-cases (leb 15000 (clock n))) [
        | inl t ↦ (
          false,
          ground (arith, f, g, t),
          (λ z. ground (arith, z)),
          λ m le early two calm. absurd (ground (arith, t, early, later n m le)),
        )
        | inr h ↦
            let (b, e, sound, complete) = rest h in
            (
              b,
              ground (arith, f, g, h, e),
              sound,
              λ m le early two calm.
                  complete m (before-success n m f le two) early two
                    λ j lo hi. calm j (omega (arith, lo)) hi,
            )
      ]
    ]
  ]

  -- with a round for each poll up to one after 15 seconds the loop ends
  wait-Ended : (fuel n : ℕ) → 15000 ≤ clock (n + fuel) → Ended (suc fuel) n
  wait-Ended zero n enough =
      let e : clock (n + 0) ≡ clock n = ap clock (omega arith) in
      round zero n λ h. absurd (ground (arith, h, enough, e))
  wait-Ended (suc fuel) n enough =
      let e : clock (n + suc fuel) ≡ clock (suc n + fuel) = ap clock (omega arith) in
      round (suc fuel) n λ h. wait-Ended fuel (suc n) (omega (arith, enough, e))

-- what a poll sees is a state that some sequence of actions leads to
at-IsOrderly :
    (schedule : ℕ → List Action) (s : Start) (n : ℕ) → IsOrderly s → IsOrderly (at schedule s n)
at-IsOrderly schedule s zero orderly = run-IsOrderly (schedule zero) s orderly
at-IsOrderly schedule s (suc n) orderly =
    run-IsOrderly (schedule (suc n)) (at schedule s n) (at-IsOrderly schedule s n orderly)

failed-IsSettled : (s : Start) → IsOrderly s → s.init_state ≡ 3 → IsSettled s
failed-IsSettled s (inl h) three = absurd (ground (arith, h, three))
failed-IsSettled s (inr (inl h)) three = absurd (ground (arith, h, three))
failed-IsSettled s (inr (inr h)) three = h

-- a failure that is seen is there to stay
failure-stays :
    (schedule : ℕ → List Action) (s : Start) (j n : ℕ)
    → IsOrderly s
    → j ≤ n
    → (at schedule s j).init_state ≡ 3
    → (at schedule s n).init_state ≡ 3
failure-stays schedule s j zero orderly le three =
    let e : j ≡ 0 = omega (arith, le) in subst (λ k. (at schedule s k).init_state ≡ 3) e three
failure-stays schedule s j (suc n) orderly le three = elim (Bool-cases (leb j n)) [
  | inl t ↦
      let earlier = failure-stays schedule s j n orderly (ground (arith, t)) three in
      let settled =
        failed-IsSettled (at schedule s n) (at-IsOrderly schedule s n orderly) earlier in
      ap (λ q. q.init_state) (run-settled (schedule (suc n)) (at schedule s n) settled) ∙ earlier
  | inr f ↦
      let e : j ≡ suc n = ground (arith, f, le) in
      subst (λ k. (at schedule s k).init_state ≡ 3) e three
]

success-once : (s : Start) → IsOrderly s → s.init_state ≡ 2 → s.succeeded ≡ 1
success-once s (inl h) two = absurd (ground (arith, h, two))
success-once s (inr (inl h)) two = absurd (ground (arith, h, two))
success-once s (inr (inr h)) two = ground (arith, h, two)

-- The initializer returns, whatever the other threads do before and between its polls, if its
-- clock never goes back and has passed 15 seconds at some poll, which need not be known: the rounds
-- up to that poll are enough. If it returns true then `initialize` has returned Ok by some poll.
-- If at some poll within the first 15 seconds the byte says that it has, then it returns true.
pub elden_ring_windowed_hdr_init_lem :
    (before : List Action) (schedule : ℕ → List Action) (clock : ℕ → ℕ) (last : ℕ)
    → ((n : ℕ) → clock n ≤ clock (suc n))
    → 15000 ≤ clock last
    → (b : Bool) × (elden_ring_windowed_hdr_init (suc last) before schedule clock ≡ some b)
      × (b ≡ true
          → (n : ℕ) × ((at schedule (act start_initialization (run before loaded)) n).succeeded
              ≡ 1))
      × ((n : ℕ)
          → clock n < 15000
          → (at schedule (act start_initialization (run before loaded)) n).init_state ≡ 2
          → b ≡ true)
unfolding elden_ring_windowed_hdr_init
elden_ring_windowed_hdr_init_lem before schedule clock last monotone passed =
    let s = act start_initialization (run before loaded) in
    let orderly =
      run-IsOrderly (before ++ (start_initialization ∷ [])) loaded
        (inl (refl, refl, refl, refl, refl)) in
    let orderly' : IsOrderly s =
      subst IsOrderly (run-append before (start_initialization ∷ []) loaded) orderly in
    let from_zero : clock (0 + last) ≡ clock last = ap clock (omega arith) in
    let (b, e, sound, complete) =
      wait-Ended (λ n. (at schedule s n).init_state) clock monotone last 0
        (omega (arith, passed, from_zero)) in
    (
      b,
      e,
      (λ t.
          let (n, two) = sound t in
          (n, success-once (at schedule s n) (at-IsOrderly schedule s n orderly') two)),
      λ n early two. complete n (omega arith) early two λ j lo hi three.
          absurd
            (ground (arith, two, failure-stays schedule s j n orderly' (omega (arith, hi)) three)),
    )
