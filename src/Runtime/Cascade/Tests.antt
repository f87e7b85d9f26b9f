-- ===== src/Runtime/Cascade/Tests.antt =====
-- A tree of threads, and the theorem there.
use looms.Prelude.{
  ℕ, ◌<◌, truthy, subst, ap, or_else, Bool-cases, inl, inr, eq_of_==, String, some, true, false,
  List, [], ◌∷◌, ◌≡◌, ◌==◌, ◌↔◌, refl, arith, map, includes, if◌then◌else◌,
}
use looms.Prelude.Dict.{get}
use looms.Core.Json.{end}
use looms.Core.Envelope.{EventEnvelope, thread_cancelled}
use looms.Core.Thread.{ThreadStatus, is_terminal_status}
use looms.Core.State.{RunState, ThreadRecord}
use looms.Core.Fold.Keyed.{ThreadsKeyed}
use looms.Core.Fold.Tests.Data.{event_of, base, page_thread}
use looms.Runtime.Cascade.{parent_of, cascaded_cancellations, cancelled_of, flat_map}
use looms.Runtime.Cascade.Below.{Below, Ranked}
use looms.Runtime.Cascade.Live.{cancelled_id, cascaded_cancellations-Below}

abbrev pub child_of : String → String → ThreadStatus → ThreadRecord
child_of parent id status = record (page_thread status) {
  thread_id = id;
  parent_thread_id = some parent;
}

-- The thread a below t, b below a, and c below b, which is over.
abbrev pub tree : RunState
tree = record base {
  threads =
      ("t", page_thread ThreadStatus.cancelled)
      ∷ ("a", child_of "t" "a" ThreadStatus.waiting)
      ∷ ("b", child_of "a" "b" ThreadStatus.running)
      ∷ ("c", child_of "b" "c" ThreadStatus.completed)
      ∷ [];
}

abbrev pub cancelled : List EventEnvelope
cancelled = event_of 9 thread_cancelled end ∷ []

deepest_first : map cancelled_id (cascaded_cancellations tree cancelled) ≡ "b" ∷ "a" ∷ []
unfolding cascaded_cancellations cancelled_id
deepest_first = refl

abbrev pub depth : String → ℕ
depth id = if id == "c" then 3 else if id == "b" then 2 else if id == "a" then 1 else 0

pub tree-ThreadsKeyed : ThreadsKeyed tree.threads
unfolding ThreadsKeyed
tree-ThreadsKeyed = (refl, (refl, (refl, (refl, tt))))

abbrev Falls : String → Type 0
Falls p = (q : String) → truthy (parent_of tree.threads p) ≡ some q → depth q < depth p

fall_to : (p q : String) → depth q < depth p → (r : String) → some q ≡ some r → depth r < depth p
fall_to p q h r e = subst (λ x. depth x < depth p) (ap (λ o. or_else o "") e) h

falls : (p : String) → Falls p
unfolding get
falls p = elim (Bool-cases ("t" == p)) [
  | inl same ↦ subst Falls (eq_of_== "t" p same) (λ q h. ground arith)
  | inr p1 ↦ elim (Bool-cases ("a" == p)) [
    | inl same ↦ subst Falls (eq_of_== "a" p same) (λ q h. fall_to "a" "t" (omega arith) q h)
    | inr p2 ↦ elim (Bool-cases ("b" == p)) [
      | inl same ↦ subst Falls (eq_of_== "b" p same) (λ q h. fall_to "b" "a" (omega arith) q h)
      | inr p3 ↦ elim (Bool-cases ("c" == p)) [
        | inl same ↦ subst Falls (eq_of_== "c" p same) (λ q h. fall_to "c" "b" (omega arith) q h)
        | inr p4 ↦ λ q h. ground arith
      ]
    ]
  ]
]

pub tree-Ranked : Ranked depth tree.threads
tree-Ranked = (λ p. ground arith, λ p q h. falls p q h)

cascaded_cancellations-Below_example :
    (includes (map cancelled_id (cascaded_cancellations tree cancelled)) "b" ≡ true) ↔ (
      (is_terminal_status ThreadStatus.running ≡ false)
      × ((c : String) × (includes (flat_map cancelled_of cancelled) c ≡ true)
          × Below tree.threads c (some "a")))
unfolding get
cascaded_cancellations-Below_example =
    cascaded_cancellations-Below tree "b" (child_of "a" "b" ThreadStatus.running) depth cancelled
      tree-ThreadsKeyed (refl, (refl, (refl, (refl, tt)))) tree-Ranked refl
