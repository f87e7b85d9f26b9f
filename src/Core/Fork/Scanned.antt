-- ===== src/Core/Fork/Scanned.antt =====
-- packages/core/src/fork.ts: what `scanSource` finds, told from the folds of the source's prefixes.
use looms.Prelude.{
  ℕ, zero, suc, ◌+◌, ◌<◌, String, none, some, Bool, true, false, List, [], ◌∷◌, ◌≡◌, ◌&&◌, ◌==◌,
  or_else, or_try, any, refl, ap, ◌∙◌, arith, length, take, Bool-cases, Option-cases, inl, inr,
  eq_of_==, if◌then◌else◌,
}
use looms.Prelude.Dict.{Dict, get, put, get-put, values}
use looms.Core.Envelope.{EventEnvelope}
use looms.Core.Effects.{RuntimeEffect}
use looms.Core.State.{RunState, ThreadRecord, OutstandingEffect}
use looms.Core.Fold.Protocol.{Decoders, Registry}
use looms.Core.Fold.Step.{fold_event, fold_run}
use looms.Core.Fork.Scan.{
  get_elem?, SourceScan, root_terminal, cancellation_start, note_effects, note_failed, scan_from,
}
use looms.Core.Fork.Trace.{is_failed, outstanding_of, last_asked, first_failed}
use looms.Core.Fork.Ends.{failed_end, thread_failed-is_failed}

get-note_effects :
    (effects : Dict RuntimeEffect) (items : List OutstandingEffect) (id : String)
    → get id (note_effects effects items) ≡ or_try (outstanding_of id items) (get id effects)
unfolding note_effects
get-note_effects effects [] id = refl
get-note_effects effects (item ∷ items) id =
    let rest = get-note_effects (put item.effect_id item.effect effects) items id in
    let here = get-put item.effect_id id item.effect effects in
    elim (Option-cases (outstanding_of id items)) [
      | inl absent ↦ ground (arith, rest, here)
      | inr (effect, at) ↦ ground (arith, rest, here)
    ]

abbrev fails_now : List ThreadRecord → String → Bool
fails_now records id = any (λ record'. record'.thread_id == id && is_failed record'.status) records

get-note_failed :
    (index : ℕ) (failed_at : Dict ℕ) (records : List ThreadRecord) (id : String)
    → get id (note_failed index failed_at records)
      ≡ or_try (get id failed_at) (if fails_now records id then some index else none)
unfolding note_failed
get-note_failed index failed_at [] id = elim (Option-cases (get id failed_at)) [
  | inl absent ↦ ground arith
  | inr (seen, at) ↦ ground arith
]
get-note_failed index failed_at (record' ∷ records) id =
    let same = thread_failed-is_failed record'.status in
    let here = get-put record'.thread_id id index failed_at in
    let added = get-note_failed index (put record'.thread_id index failed_at) records id in
    let kept = get-note_failed index failed_at records id in
    elim (Bool-cases (record'.thread_id == id)) [
      | inl own ↦
          let name : record'.thread_id ≡ id = eq_of_== record'.thread_id id own in
          let entry = ap (λ k. get k failed_at) name in
          elim (Option-cases (get id failed_at)) [
            | inl absent ↦ ground (arith, same, here, added, kept, entry)
            | inr (seen, at) ↦ ground (arith, same, here, added, kept, entry)
          ]
      | inr apart ↦ ground (arith, same, here, added, kept)
    ]

-- What the scan of events finds that are folded on a state.
module _ (d : Decoders) (registry : Registry) where
  abbrev pub EndsNow : RunState → List EventEnvelope → ℕ → EventEnvelope → Type 0
  EndsNow state events index event =
      (get_elem? events index ≡ some event)
      × (root_terminal (fold_run d registry state (take (suc index) events)) ≡ true)
      × ((earlier : ℕ)
          → earlier < index
          → root_terminal (fold_run d registry state (take (suc earlier) events)) ≡ false)

  pub data Scanned (index : ℕ) (state : RunState) (effects : Dict RuntimeEffect)
      (failed_at : Dict ℕ) (events : List EventEnvelope) (scan : SourceScan) : Type 0 where
    going :
        ((k : ℕ)
          → k < length events
          → root_terminal (fold_run d registry state (take (suc k) events)) ≡ false)
        → scan.cut ≡ index + length events
        → scan.root_failed ≡ false
        → Scanned index state effects failed_at events scan
    ends :
        (k : ℕ) (event : EventEnvelope)
        → EndsNow state events k event
        → scan.cut ≡ or_else (cancellation_start event) (index + k)
        → scan.root_failed ≡ failed_end (fold_run d registry state (take (suc k) events))
        → ((id : String)
            → get id scan.effects
              ≡ or_try (last_asked d registry state (take (suc k) events) id) (get id effects))
        → ((id : String)
            → get id scan.failed_at
              ≡ or_try
                  (get id failed_at)
                  (first_failed d registry index state (take (suc k) events) id))
        → Scanned index state effects failed_at events scan

  Scanned-cons :
      (index : ℕ) (state : RunState) (effects : Dict RuntimeEffect) (failed_at : Dict ℕ)
      (event : EventEnvelope) (events : List EventEnvelope) (scan : SourceScan)
      → root_terminal (fold_event d registry state event) ≡ false
      → Scanned
          (suc index)
          (fold_event d registry state event)
          (note_effects effects (fold_event d registry state event).outstanding_effects)
          (note_failed index failed_at (values (fold_event d registry state event).threads))
          events
          scan
      → Scanned index state effects failed_at (event ∷ events) scan
  unfolding fold_run
  Scanned-cons index state effects failed_at event events scan goes_on (going all cut root) =
      going
        (λ k.
          elim k
            as (λ k.
              k < suc (length events)
              → root_terminal (fold_run d registry state (take (suc k) (event ∷ events))) ≡ false) [
                | zero ↦ λ h. goes_on
                | suc k ↦ λ h. all k (omega arith)
              ])
        (omega (arith, cut)) root
  Scanned-cons index state effects failed_at event events scan goes_on
        (ends k last (at, over, before) cut root asked failed) =
      let next = fold_event d registry state event in
      ends (suc k) last
        (
          at,
          over,
          (λ earlier.
              elim earlier
                as (λ j.
                  j < suc k
                  → root_terminal (fold_run d registry state (take (suc j) (event ∷ events)))
                    ≡ false) [ zero ↦ λ h. goes_on | suc j ↦ λ h. before j (omega arith) ]),
        )
        (cut ∙ ap (or_else (cancellation_start last)) (omega arith)) root
        (λ id.
          let now = get-note_effects effects next.outstanding_effects id in
          let later = asked id in
          elim (Option-cases (last_asked d registry next (take (suc k) events) id)) [
            | inl absent ↦ ground (arith, now, later)
            | inr (effect, noted) ↦ ground (arith, now, later)
          ])
        (λ id.
          let now = get-note_failed index failed_at (values next.threads) id in
          let later = failed id in
          elim (Option-cases (get id failed_at)) [
            | inl absent ↦ elim (Bool-cases (fails_now (values next.threads) id)) [
              | inl first ↦ ground (arith, now, later)
              | inr none_yet ↦ ground (arith, now, later)
            ]
            | inr (seen, noted) ↦ ground (arith, now, later)
          ])

  pub scan_from-Scanned :
      (index : ℕ) (state : RunState) (effects : Dict RuntimeEffect) (failed_at : Dict ℕ)
      (events : List EventEnvelope)
      → Scanned index state effects failed_at events
          (scan_from d registry index state effects failed_at events)
  unfolding scan_from fold_run
  scan_from-Scanned index state effects failed_at [] =
      going (λ k h. absurd (omega arith)) (omega arith) refl
  scan_from-Scanned index state effects failed_at (event ∷ events) =
      let next = fold_event d registry state event in
      let rest =
        scan_from-Scanned (suc index) next (note_effects effects next.outstanding_effects)
          (note_failed index failed_at (values next.threads)) events in
      elim (Bool-cases (root_terminal next)) [
        | inl over ↦ rw over (
            ends 0 event (refl, over, (λ earlier h. absurd (omega arith)))
              (ap (or_else (cancellation_start event)) (omega arith)) refl
              (get-note_effects effects next.outstanding_effects)
              (get-note_failed index failed_at (values next.threads)))
        | inr goes_on ↦
            rw goes_on (Scanned-cons index state effects failed_at event events _ goes_on rest)
      ]
