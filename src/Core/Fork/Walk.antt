-- ===== src/Core/Fork/Walk.antt =====
-- packages/core/src/fork.ts: `failureOrigin` finds where a failure started.
use looms.Prelude.{
  ℕ, zero, suc, ◌<◌, String, Option, none, some, Bool, List, ◌≡◌, ◌>>=◌, truthy, sym, ◌∙◌, arith,
  Bool-cases, Option-cases, inl, inr, subst,
}
use looms.Prelude.Dict.{Dict, get}
use looms.Core.Envelope.{EventEnvelope}
use looms.Core.Effects.{RuntimeEffect}
use looms.Core.Fork.Scan.{
  SourceScan, get_elem?, payload_thread_id, failed_index, previous, is_origin, origin_from,
}
use looms.Core.Fork.Trace.{
  is_rerun, SeenFailed, LeadsTo, to_failure, to_cause, Traced, on, StartsAt, at_outcome, at_end,
  thread_named,
}
use looms.Core.Fork.Causes.{
  if_failed-some, if_failed-of, failed_index-type, can_rerun-reruns, below-cases, below-failure,
  below-cause, LeadsTo-below,
}

module _ (deterministic : String → Bool) (events : List EventEnvelope) (scan : SourceScan)
    (indexes : Dict ℕ) (asked : String → Option RuntimeEffect) (failed found : String → Option ℕ)
    (asked_are : (id : String) → get id scan.effects ≡ asked id)
    (failed_are : (id : String) → get id scan.failed_at ≡ failed id)
    (found_are : (id : String) → get id indexes ≡ found id) where
  is_origin-is_rerun :
      (event : EventEnvelope)
      → is_origin deterministic scan.effects event
        ≡ is_rerun deterministic events asked failed found event
  unfolding is_origin
  is_origin-is_rerun event = elim (Option-cases (truthy event.effect_id)) [
    | inl free ↦ rw free (can_rerun-reruns deterministic none event)
    | inr (id, named) ↦ rw (named, asked_are id) (can_rerun-reruns deterministic (asked id) event)
  ]

  failed_index-SeenFailed :
      (index : ℕ) (event : EventEnvelope) (seen : ℕ)
      → failed_index scan.failed_at event ≡ some seen
      → SeenFailed failed found index event seen
  unfolding payload_thread_id
  failed_index-SeenFailed index event seen h =
      let (type, at) =
        if_failed-some event.type _ seen (sym (failed_index-type scan.failed_at event) ∙ h) in
      elim (Option-cases (truthy (thread_named event))) [
        | inl blank ↦ absurd (ground arith)
        | inr (id, named) ↦ let same = failed_are id in (type, (id, named, ground arith))
      ]

  SeenFailed-failed_index :
      (index : ℕ) (event : EventEnvelope) (seen : ℕ)
      → SeenFailed failed found index event seen
      → failed_index scan.failed_at event ≡ some seen
  unfolding payload_thread_id
  SeenFailed-failed_index index event seen (type, (id, named, at)) =
      failed_index-type scan.failed_at event
      ∙ if_failed-of event.type _ type
      ∙ rw named (failed_are id ∙ at)

  previous-LeadsTo :
      (index next : ℕ) (event : EventEnvelope)
      → previous scan.failed_at indexes index event ≡ some next
      → LeadsTo failed found index event next
  unfolding previous
  previous-LeadsTo index next event h =
      elim (below-cases index (failed_index scan.failed_at event)
        (truthy event.causation_id >>= λ id. get id indexes) next h) [
          | inl (seen, less) ↦ to_failure (failed_index-SeenFailed index event next seen) less
          | inr (late, at, less) ↦ elim (Option-cases (truthy event.causation_id)) [
            | inl uncaused ↦ absurd (ground arith)
            | inr (id, caused) ↦
                let same = found_are id in
                to_cause
                  (λ seen failure. late seen (SeenFailed-failed_index index event seen failure)) id
                  caused (ground arith) less
          ]
        ]

  LeadsTo-previous :
      (index next : ℕ) (event : EventEnvelope)
      → LeadsTo failed found index event next
      → previous scan.failed_at indexes index event ≡ some next
  unfolding previous
  LeadsTo-previous index next event (to_failure seen less) =
      below-failure index (failed_index scan.failed_at event) _ next
        (SeenFailed-failed_index index event next seen) less
  LeadsTo-previous index next event (to_cause late id caused at less) =
      below-cause index (failed_index scan.failed_at event)
        (truthy event.causation_id >>= λ i. get i indexes) next
        (λ seen failure. late seen (failed_index-SeenFailed index event seen failure))
        (rw caused (found_are id ∙ at)) less

  -- The loop, from an index that the end leads back to.
  pub origin_from-StartsAt :
      (fuel index origin : ℕ)
      → index < fuel
      → Traced deterministic events asked failed found scan.cut index
      → origin_from deterministic fuel events scan indexes index ≡ some origin
      → StartsAt deterministic events asked failed found scan.cut origin
  unfolding origin_from
  origin_from-StartsAt zero index origin less path h = absurd (omega arith)
  origin_from-StartsAt (suc fuel) index origin less path h =
      elim (Option-cases (get_elem? events index)) [
        | inl missing ↦ absurd (ground arith)
        | inr (event, at) ↦
            let same = is_origin-is_rerun event in
            elim (Bool-cases (is_origin deterministic scan.effects event)) [
              | inl rerun ↦
                  let found' : index ≡ origin = ground arith in
                  subst (StartsAt deterministic events asked failed found scan.cut) found'
                    (at_outcome index event path at (sym same ∙ rerun))
              | inr other ↦ elim (Option-cases (previous scan.failed_at indexes index event)) [
                | inl stuck ↦
                    let end' : scan.cut ≡ origin = ground arith in
                    subst (StartsAt deterministic events asked failed found scan.cut) end' (
                      at_end index event path at (sym same ∙ other) (λ next leads.
                        let found' = LeadsTo-previous index next event leads in ground arith))
                | inr (next, back) ↦
                    let leads = previous-LeadsTo index next event back in
                    let less' = LeadsTo-below failed found index event next leads in
                    origin_from-StartsAt fuel next origin (omega arith)
                      (on index next event path at (sym same ∙ other) leads) (ground arith)
              ]
            ]
      ]
