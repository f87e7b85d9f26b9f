-- ===== src/Core/Fork/Origin.antt =====
-- packages/core/src/fork.ts: the walk of `failureOrigin` back along the causes of a failure.
use looms.Prelude.{
  is_some, ℕ, zero, suc, ◌≤◌, ◌<◌, String, none, some, Bool, true, List, [], ◌∷◌, ◌≡◌, inl, inr,
  refl, sym, ap, ◌∙◌, arith, length, Bool-cases, Option-cases,
}
use looms.Prelude.Dict.{Dict}
use looms.Core.Envelope.{EventEnvelope}
use looms.Core.Fork.Scan.{SourceScan, origin_from, get_elem?, is_origin, previous}

IsSome-get_elem? :
    (events : List EventEnvelope) (index : ℕ)
    → index < length events
    → is_some (get_elem? events index) ≡ true
IsSome-get_elem? [] index h = absurd (omega arith)
IsSome-get_elem? (event ∷ events) zero h = refl
IsSome-get_elem? (event ∷ events) (suc index) h = IsSome-get_elem? events index (omega arith)

module _ (deterministic : String → Bool) (events : List EventEnvelope) (scan : SourceScan)
    (indexes : Dict ℕ) where
  previous-below :
      (index next : ℕ) (event : EventEnvelope)
      → previous scan.failed_at indexes index event ≡ some next
      → next < index
  unfolding previous
  previous-below index next event h = ground arith

  -- A round of the walk.
  data WalkStep (index : ℕ) : Type 0 where
    gone : get_elem? events index ≡ none → WalkStep index
    found :
        (event : EventEnvelope)
        → get_elem? events index ≡ some event
        → is_origin deterministic scan.effects event ≡ true
        → ((fuel : ℕ) → origin_from deterministic (suc fuel) events scan indexes index ≡ some index)
        → WalkStep index
    last :
        ((fuel : ℕ)
          → origin_from deterministic (suc fuel) events scan indexes index ≡ some scan.cut)
        → WalkStep index
    back :
        (next : ℕ)
        → next < index
        → ((fuel : ℕ)
            → origin_from deterministic (suc fuel) events scan indexes index
              ≡ origin_from deterministic fuel events scan indexes next)
        → WalkStep index

  walk-step : (index : ℕ) → WalkStep index
  unfolding origin_from
  walk-step index = elim (Option-cases (get_elem? events index)) [
    | inl missing ↦ gone missing
    | inr (event, at) ↦ elim (Bool-cases (is_origin deterministic scan.effects event)) [
      | inl rerun ↦ found event at rerun (λ fuel. ground arith)
      | inr other ↦ elim (Option-cases (previous scan.failed_at indexes index event)) [
        | inl none_left ↦ last (λ fuel. ground arith)
        | inr (next, cause) ↦
            back next (previous-below index next event cause) (λ fuel. ground arith)
      ]
    ]
  ]

  -- The walk ends at the cut or before it.
  pub origin_from-within :
      (fuel index origin : ℕ)
      → index ≤ scan.cut
      → origin_from deterministic fuel events scan indexes index ≡ some origin
      → origin ≤ scan.cut
  unfolding origin_from
  origin_from-within zero index origin within h =
      let same : scan.cut ≡ origin = ground arith in omega arith
  origin_from-within (suc fuel) index origin within h = elim (walk-step index) [
    | gone missing ↦ ground arith
    | found event at rerun result ↦
        let same : index ≡ origin = (let at_once = result fuel in ground arith) in omega arith
    | last result ↦
        let same : scan.cut ≡ origin = (let at_once = result fuel in ground arith) in omega arith
    | back next less result ↦
        origin_from-within fuel next origin (omega arith) (sym (result fuel) ∙ h)
  ]

  -- Within the events, the walk does not leave them.
  pub origin_from-in_range :
      (fuel index : ℕ)
      → index < length events
      → is_some (origin_from deterministic fuel events scan indexes index) ≡ true
  unfolding origin_from
  origin_from-in_range zero index h = refl
  origin_from-in_range (suc fuel) index h = elim (walk-step index) [
    | gone missing ↦ let there = IsSome-get_elem? events index h in ground arith
    | found event at rerun result ↦ ap is_some (result fuel)
    | last result ↦ ap is_some (result fuel)
    | back next less result ↦
        ap is_some (result fuel) ∙ origin_from-in_range fuel next (omega arith)
  ]

  -- A fuel above the index is enough.
  pub origin_from-rounds :
      (fuel more index : ℕ)
      → index < fuel
      → fuel ≤ more
      → origin_from deterministic more events scan indexes index
        ≡ origin_from deterministic fuel events scan indexes index
  unfolding origin_from
  origin_from-rounds zero more index h k = absurd (omega arith)
  origin_from-rounds (suc fuel) zero index h k = absurd (omega arith)
  origin_from-rounds (suc fuel) (suc more) index h k = elim (walk-step index) [
    | gone missing ↦ ground arith
    | found event at rerun result ↦ result more ∙ sym (result fuel)
    | last result ↦ result more ∙ sym (result fuel)
    | back next less result ↦
        result more
        ∙ origin_from-rounds fuel more next (omega arith) (omega arith)
        ∙ sym (result fuel)
  ]
