-- ===== src/Core/History/Superseded.antt =====
-- packages/core/src/attempts.ts: which events are left out, said of the events that follow.
use looms.Prelude.{
  ℕ, suc, ◌≤◌, String, Option, none, some, Bool, true, false, List, [], ◌∷◌, ◌≡◌, ◌⊎◌, inl, inr,
  refl, arith, sym, ap, ◌∙◌, if◌then◌else◌, ◌||◌, ◌&&◌, not, any, is_the, truthy, Bool-cases,
}
use looms.Prelude.Dict.{Dict, get, get-put}
use looms.Core.Json.{Json}
use looms.Core.Envelope.{EventEnvelope}
use looms.Core.State.{RunState}
use looms.Core.Fold.Protocol.{Decoders, Registry}
use looms.Core.Fold.Step.{fold_run}
use looms.Core.Fold.Replay.{durable, fold_run-durable}
use looms.Core.History.Attempts.{
  retried_effect_id, note_retry, last_retries, before_index, attempt_is_current, keep_current,
  drop_superseded_attempts,
}

get-note_retry :
    (m : Dict ℕ) (index : ℕ) (retry : Option String) (id : String)
    → get id (note_retry m index retry) ≡ (if is_the retry id then some index else get id m)
get-note_retry m index none id = refl
get-note_retry m index (some r) id = get-put r id index m

before_index-suc :
    (last : Option ℕ) (index : ℕ)
    → before_index last index ≡ true
    → before_index last (suc index) ≡ true
before_index-suc none index h = refl
before_index-suc (some last) index h = ground arith

note_retry-before_index :
    (m : Dict ℕ) (index : ℕ) (retry : Option String) (id : String)
    → before_index (get id m) index ≡ true
    → before_index (get id (note_retry m index retry)) (suc index) ≡ true
note_retry-before_index m index retry id h = elim (Bool-cases (is_the retry id)) [
  | inl this ↦ rw (get-note_retry m index retry id) (rw this (ground arith))
  | inr other ↦
      rw (get-note_retry m index retry id) (rw other (before_index-suc (get id m) index h))
]

if_swap {ℓ} :
    {A : Type ℓ} (a b : Bool) (x y : A)
    → (if not a || not b then x else y) ≡ (if a && b then y else x)
if_swap true true x y = refl
if_swap true false x y = refl
if_swap false b x y = refl

module _ (retry_payload : Json → Option String) where
  -- Whether one of the events schedules a retry of the effect.
  abbrev pub retried : List EventEnvelope → Option String → Bool
  retried events none = false
  retried events (some id) = any (λ event. is_the (retried_effect_id retry_payload event) id) events

  -- Each event, unless it is ephemeral and it or a later event retries its effect.
  unfoldable pub current_attempts : List EventEnvelope → List EventEnvelope
  current_attempts [] = []
  current_attempts (event ∷ events) =
      let rest = current_attempts events in
      if event.ephemeral && retried (event ∷ events) (truthy event.effect_id)
      then rest
      else event ∷ rest

  -- The entry of an effect is its last retry in the events, if there is one, else what it was.
  get-last_retries :
      (index : ℕ) (events : List EventEnvelope) (m : Dict ℕ) (id : String)
      → ((retried events (some id) ≡ false)
          × (get id (last_retries retry_payload index events m) ≡ get id m))
        ⊎ ((retried events (some id) ≡ true)
            × ((last : ℕ) × (get id (last_retries retry_payload index events m) ≡ some last)
                × (index ≤ last)))
  unfolding last_retries
  get-last_retries index [] m id = inl (refl, refl)
  get-last_retries index (x ∷ xs) m id =
      elim (get-last_retries (suc index) xs (note_retry m index (retried_effect_id retry_payload x))
        id) [
          | inl (fewer, same) ↦ elim (Bool-cases (is_the (retried_effect_id retry_payload x) id)) [
            | inl this ↦ inr (
              ground arith,
              (
                index,
                same ∙ get-note_retry m index (retried_effect_id retry_payload x) id ∙ rw this refl,
                omega arith,
              ),
            )
            | inr other ↦ inl (
              ground arith,
              same ∙ get-note_retry m index (retried_effect_id retry_payload x) id ∙ rw other refl,
            )
          ]
          | inr (more, (last, found, later)) ↦ inr (ground arith, (last, found, omega arith))
        ]

  attempt_is_current-retried :
      (index : ℕ) (events : List EventEnvelope) (m : Dict ℕ) (id : Option String)
      → ((id : String) → before_index (get id m) index ≡ true)
      → attempt_is_current (last_retries retry_payload index events m) index id
        ≡ not (retried events id)
  attempt_is_current-retried index events m none fresh = refl
  attempt_is_current-retried index events m (some id) fresh =
      elim (get-last_retries index events m id) [
        | inl (fewer, same) ↦ rw (same, fewer) (fresh id)
        | inr (more, (last, found, later)) ↦ rw (found, more) (ground arith)
      ]

  keep_current-attempts :
      (index : ℕ) (events : List EventEnvelope) (m : Dict ℕ)
      → ((id : String) → before_index (get id m) index ≡ true)
      → keep_current (last_retries retry_payload index events m) index events
        ≡ current_attempts events
  unfolding keep_current last_retries current_attempts
  keep_current-attempts index [] m fresh = refl
  keep_current-attempts index (x ∷ xs) m fresh =
      let m' = note_retry m index (retried_effect_id retry_payload x) in
      let rest =
        keep_current-attempts (suc index) xs m' (λ id.
          note_retry-before_index m index (retried_effect_id retry_payload x) id (fresh id)) in
      let here = attempt_is_current-retried index (x ∷ xs) m (truthy x.effect_id) fresh in
      let kept = keep_current (last_retries retry_payload index (x ∷ xs) m) (suc index) xs in
      let again = retried (x ∷ xs) (truthy x.effect_id) in
      ap (λ current. if not x.ephemeral || current then x ∷ kept else kept) here
      ∙ ap (λ others. if not x.ephemeral || not again then x ∷ others else others) rest
      ∙ if_swap x.ephemeral again (x ∷ current_attempts xs) (current_attempts xs)

  -- What is left of a log are its durable events, and those ephemeral ones that name no effect or
  -- whose effect neither they nor a later event retries.
  pub drop_superseded_attempts_lem :
      (events : List EventEnvelope)
      → drop_superseded_attempts retry_payload events ≡ current_attempts events
  unfolding drop_superseded_attempts
  drop_superseded_attempts_lem events = keep_current-attempts 0 events [] (λ id. refl)

  durable-current_attempts :
      (events : List EventEnvelope) → durable (current_attempts events) ≡ durable events
  unfolding current_attempts
  durable-current_attempts [] = refl
  durable-current_attempts (x ∷ xs) =
      let rest = durable-current_attempts xs in
      elim (Bool-cases x.ephemeral) [
        | inl skip ↦ elim (Bool-cases (retried (x ∷ xs) (truthy x.effect_id))) [
          | inl again ↦ ground arith
          | inr once ↦ ground arith
        ]
        | inr step ↦ ground arith
      ]

  -- Leaving out superseded attempts does not change the state that a log folds to.
  pub fold_run-drop_superseded_attempts :
      (d : Decoders) (registry : Registry) (base : RunState) (events : List EventEnvelope)
      → fold_run d registry base (drop_superseded_attempts retry_payload events)
        ≡ fold_run d registry base events
  fold_run-drop_superseded_attempts d registry base events =
      ap (fold_run d registry base) (drop_superseded_attempts_lem events)
      ∙ sym (fold_run-durable d registry base (current_attempts events))
      ∙ ap (fold_run d registry base) (durable-current_attempts events)
      ∙ fold_run-durable d registry base events
