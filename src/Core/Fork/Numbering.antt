-- ===== src/Core/Fork/Numbering.antt =====
-- packages/core/src/fork.ts: the events that a fork copies keep their numbers.
use looms.Prelude.{
  ℕ, zero, suc, ◌+◌, ◌≤◌, String, true, List, [], ◌∷◌, ◌++◌, ◌≡◌, inl, inr, refl, ap, arith, All,
  length, map, take, truthy, ◌&&◌, Bool-cases,
}
use looms.Core.Envelope.{EventEnvelope, EventType, snapshot_taken, run_started}
use looms.Core.Fork.Plan.{is_reissued, copied, copy_event, copied, is_reissued, is_numbered}

pub is_numbered-take :
    (n seq : ℕ) (events : List EventEnvelope)
    → is_numbered seq events ≡ true
    → is_numbered seq (take n events) ≡ true
unfolding is_numbered
is_numbered-take zero seq events h = refl
is_numbered-take (suc n) seq [] h = refl
is_numbered-take (suc n) seq (event ∷ events) h =
    ground (arith, is_numbered-take n (suc seq) events)

pub is_numbered-snoc :
    (seq : ℕ) (events : List EventEnvelope) (event : EventEnvelope)
    → is_numbered seq events ≡ true
    → event.seq ≡ seq + length events
    → is_numbered seq (events ++ event ∷ []) ≡ true
unfolding is_numbered
is_numbered-snoc seq [] event h k = ground arith
is_numbered-snoc seq (e ∷ events) event h k =
    ground (arith, is_numbered-snoc (suc seq) events event)

copied-kept :
    (event : EventEnvelope) (type : EventType)
    → ((copied event type).seq ≡ event.seq) × ((copied event type).run_id ≡ event.run_id)
unfolding copied
copied-kept event snapshot_taken = (refl, refl)
copied-kept event run_started = (refl, refl)
copied-kept event _ = (refl, refl)

copy_event-kept :
    (run_id : String) (reissued : List String) (event : EventEnvelope)
    → ((copy_event run_id reissued event).seq ≡ event.seq)
      × ((copy_event run_id reissued event).run_id ≡ run_id)
unfolding copy_event
copy_event-kept run_id reissued event =
    elim (Bool-cases (event.ephemeral && is_reissued reissued (truthy event.effect_id))) [
      | inl elided ↦ rw elided (refl, refl)
      | inr carried ↦ rw carried (copied-kept (record event { run_id = run_id }) event.type)
    ]

pub map-copy_event :
    (run_id : String) (reissued : List String) (seq : ℕ) (events : List EventEnvelope)
    → is_numbered seq events ≡ true
    → (is_numbered seq (map (copy_event run_id reissued) events) ≡ true)
      × All (λ e. e.run_id ≡ run_id) (map (copy_event run_id reissued) events)
      × (length (map (copy_event run_id reissued) events) ≡ length events)
unfolding is_numbered
map-copy_event run_id reissued seq [] h = (refl, tt, refl)
map-copy_event run_id reissued seq (event ∷ events) h =
    let (same, moved) = copy_event-kept run_id reissued event in
    let (rest, all_of, size) = map-copy_event run_id reissued (suc seq) events (ground arith) in
    (ground arith, (moved, all_of), ap suc size)

pub length-take_within :
    (n : ℕ) (events : List EventEnvelope) → n ≤ length events → length (take n events) ≡ n
length-take_within zero events h = refl
length-take_within (suc n) [] h = absurd (omega arith)
length-take_within (suc n) (event ∷ events) h = ap suc (length-take_within n events (omega arith))
