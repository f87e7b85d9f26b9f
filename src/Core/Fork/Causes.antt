-- ===== src/Core/Fork/Causes.antt =====
-- packages/core/src/fork.ts: the tests of `failureOrigin` and its index of events.
use looms.Prelude.{
  ℕ, suc, ◌+◌, ◌≤◌, ◌<◌, String, Option, none, some, Bool, List, [], ◌∷◌, ◌≡◌, ◌&&◌, ◌>>=◌, or_else,
  or_try, truthy, not, refl, arith, Bool-cases, Option-cases, inl, inr, starts_with, ◌⊎◌, ltb,
}
use looms.Prelude.Dict.{Dict, get, put, get-put}
use looms.Core.Json.{payload_object, read_string}
use looms.Core.Envelope.{EventEnvelope, EventType, thread_failed}
use looms.Core.Effects.{RuntimeEffect, effect_type, is_withdrawn_error}
use looms.Core.Fork.Scan.{
  payload_thread_id, failed_index, below, can_rerun, withdrawn, is_primitive_effect, index_by_id,
}
use looms.Core.Fork.Trace.{reruns, last_index, LeadsTo, to_failure, to_cause}

-- The entries of `indexById`.
pub get-index_by_id :
    (start : ℕ) (indexes : Dict ℕ) (events : List EventEnvelope) (id : String)
    → get id (index_by_id start indexes events)
      ≡ or_try (last_index id events >>= λ index. some (start + index)) (get id indexes)
unfolding index_by_id
get-index_by_id start indexes [] id = refl
get-index_by_id start indexes (event ∷ events) id =
    let rest = get-index_by_id (suc start) (put event.id start indexes) events id in
    let here = get-put event.id id start indexes in
    elim (Option-cases (last_index id events)) [
      | inl absent ↦ ground (arith, rest, here)
      | inr (index, at) ↦ ground (arith, rest, here)
    ]

abbrev pub if_failed : EventType → Option ℕ → Option ℕ
if_failed thread_failed o = o
if_failed _ o = none

pub if_failed-some :
    (type : EventType) (o : Option ℕ) (k : ℕ)
    → if_failed type o ≡ some k
    → (type ≡ thread_failed) × (o ≡ some k)
if_failed-some thread_failed o k h = (refl, h)
if_failed-some _ o k h = ground arith

pub if_failed-of : (type : EventType) (o : Option ℕ) → type ≡ thread_failed → if_failed type o ≡ o
if_failed-of type o e = rw e refl

pub failed_index-type :
    (failed_at : Dict ℕ) (event : EventEnvelope)
    → failed_index failed_at event
      ≡ if_failed event.type (truthy (payload_thread_id event) >>= λ id. get id failed_at)
unfolding failed_index
failed_index-type failed_at event =
    let seen = truthy (payload_thread_id event) >>= λ id. get id failed_at in
    elim event.type as (λ t. (elim t [ thread_failed ↦ seen | _ ↦ none ]) ≡ if_failed t seen) [
      | thread_failed ↦ refl
      | _ ↦ refl
    ]

withdrawn-text :
    (deterministic : String → Bool) (error : Option String)
    → withdrawn deterministic error ≡ starts_with (or_else error "") "withdrawn:"
unfolding withdrawn is_withdrawn_error
withdrawn-text deterministic none = refl
withdrawn-text deterministic (some error) = refl

pub can_rerun-reruns :
    (deterministic : String → Bool) (o : Option RuntimeEffect) (event : EventEnvelope)
    → (can_rerun deterministic o
        && not (withdrawn deterministic (read_string (payload_object event.payload) "error")))
      ≡ reruns deterministic o event
unfolding can_rerun is_primitive_effect effect_type
can_rerun-reruns deterministic none event = refl
can_rerun-reruns deterministic (some (RuntimeEffect.invoke type input tag at)) event =
    ground
      (arith, withdrawn-text deterministic (read_string (payload_object event.payload) "error"))
can_rerun-reruns deterministic (some _) event = refl

pub below-cases :
    (index : ℕ) (f cause : Option ℕ) (next : ℕ)
    → below index (or_try (below index f) cause) ≡ some next
    → ((f ≡ some next) × (next < index))
      ⊎ (((seen : ℕ) → f ≡ some seen → index ≤ seen) × (cause ≡ some next) × (next < index))
below-cases index none none next h = absurd (ground arith)
below-cases index none (some c) next h =
    inr ((λ seen absent. absurd (ground arith)), ground arith, ground arith)
below-cases index (some k) cause next h = elim (Bool-cases (ltb k index)) [
  | inl earlier ↦ inl (ground arith, ground arith)
  | inr later ↦ elim (Option-cases cause) [
    | inl uncaused ↦ absurd (ground arith)
    | inr (c, caused) ↦ inr ((λ seen at. ground arith), ground arith, ground arith)
  ]
]

pub below-failure :
    (index : ℕ) (f cause : Option ℕ) (next : ℕ)
    → f ≡ some next
    → next < index
    → below index (or_try (below index f) cause) ≡ some next
below-failure index f cause next e h = rw e (ground arith)

pub below-cause :
    (index : ℕ) (f cause : Option ℕ) (next : ℕ)
    → ((seen : ℕ) → f ≡ some seen → index ≤ seen)
    → cause ≡ some next
    → next < index
    → below index (or_try (below index f) cause) ≡ some next
below-cause index none cause next late e h = rw e (ground arith)
below-cause index (some k) cause next late e h = let after = late k refl in ground arith

pub LeadsTo-below :
    (failed found : String → Option ℕ) (index : ℕ) (event : EventEnvelope) (next : ℕ)
    → LeadsTo failed found index event next
    → next < index
LeadsTo-below failed found index event next (to_failure seen less) = less
LeadsTo-below failed found index event next (to_cause late id caused at less) = less
