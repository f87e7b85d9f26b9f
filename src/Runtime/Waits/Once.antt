-- ===== src/Runtime/Waits/Once.antt =====
-- packages/runtime/src/helpers.ts: `waitSatisfiedEvents` reports no wait twice.
use looms.Prelude.{
  eq_refl, String, none, Bool, true, false, List, [], ◌∷◌, ◌++◌, ◌≡◌, refl, sym, ap, ◌∙◌, arith,
  map, filter, if◌then◌else◌, includes, Distinct, includes-append, Bool-cases, inl, inr, subst,
}
use looms.Prelude.Dict.{Dict, get, keys, values, Entries}
use looms.Core.Envelope.{EventEnvelope}
use looms.Core.State.{RunState, WaitRecord}
use looms.Core.Match.{matching_waits, wait_matches}
use looms.Core.Fold.Keyed.{WaitsKeyed}
use looms.Runtime.Waits.{drop_waits, is_passed_over, satisfied_from, wait_satisfied_events}
use looms.Runtime.Waits.Exactly.{
  satisfied_id, wait_ids, matches_of, reported, reported-cons, satisfied_from-includes,
  satisfied_by, get-drop_waits, drop_waits-WaitsKeyed,
}

includes-filtered :
    (p : WaitRecord → Bool) (ws : List WaitRecord) (id : String)
    → includes (wait_ids ws) id ≡ false
    → includes (wait_ids (filter p ws)) id ≡ false
includes-filtered p [] id h = refl
includes-filtered p (w ∷ ws) id h = ground (arith, includes-filtered p ws id)

Distinct-filtered :
    (p : WaitRecord → Bool) (ws : List WaitRecord)
    → Distinct (wait_ids ws)
    → Distinct (wait_ids (filter p ws))
Distinct-filtered p [] h = tt
Distinct-filtered p (w ∷ ws) (new, h) =
    ground (arith, includes-filtered p ws w.wait_id, Distinct-filtered p ws h)

wait_ids-values :
    (m : Dict WaitRecord) → Entries (λ k w. w.wait_id ≡ k) m → wait_ids (values m) ≡ keys m
unfolding values
wait_ids-values [] h = refl
wait_ids-values ((k, w) ∷ m) (own, h) =
    ap (λ ids. w.wait_id ∷ ids) (wait_ids-values m h) ∙ ap (λ id. id ∷ keys m) own

Distinct-matches_of :
    (event : EventEnvelope) (m : Dict WaitRecord)
    → WaitsKeyed m
    → Distinct (wait_ids (matches_of event m))
unfolding WaitsKeyed matching_waits
Distinct-matches_of event m (own, distinct) =
    Distinct-filtered (λ w. wait_matches event w.on w.wait_id) (values m)
      (subst Distinct (sym (wait_ids-values m own)) distinct)

Distinct-append :
    (xs ys : List String)
    → Distinct xs
    → Distinct ys
    → ((s : String) → includes ys s ≡ true → includes xs s ≡ false)
    → Distinct (xs ++ ys)
Distinct-append [] ys d e h = e
Distinct-append (x ∷ xs) ys (new, d) e h = (
  (let own = h x in ground (arith, includes-append xs ys x, eq_refl x)),
  Distinct-append xs ys d e (λ s k. let other = h s k in ground arith),
)

-- What is dropped is not reported again.
dropped :
    (ws : List WaitRecord) (events : List EventEnvelope) (m : Dict WaitRecord) (id : String)
    → WaitsKeyed m
    → includes (reported events (drop_waits ws m)) id ≡ true
    → includes (wait_ids ws) id ≡ false
dropped ws events m id h k =
    let found =
      satisfied_from-includes events (drop_waits ws m) id (drop_waits-WaitsKeyed ws m h) in
    let gone = get-drop_waits ws m id in
    elim (Bool-cases (includes (wait_ids ws) id)) [
      | inr other ↦ other
      | inl there ↦
          let empty : get id (drop_waits ws m) ≡ none = gone ∙ rw there refl in
          let nothing = found ∙ ap (satisfied_by events) empty in ground arith
    ]

either-Distinct :
    (over : Bool) (xs ys : List String)
    → Distinct xs
    → Distinct ys
    → Distinct (if over then xs else ys)
either-Distinct true xs ys h k = h
either-Distinct false xs ys h k = k

satisfied_from-Distinct :
    (events : List EventEnvelope) (m : Dict WaitRecord)
    → WaitsKeyed m
    → Distinct (reported events m)
unfolding satisfied_from
satisfied_from-Distinct [] m h = tt
satisfied_from-Distinct (event ∷ events) m h =
    let matches = matches_of event m in
    let left = drop_waits matches m in
    subst Distinct (sym (reported-cons event events m)) (
      either-Distinct (is_passed_over event) (reported events m)
        (wait_ids matches ++ reported events left) (satisfied_from-Distinct events m h)
        (Distinct-append (wait_ids matches) (reported events left) (Distinct-matches_of event m h)
          (satisfied_from-Distinct events left (drop_waits-WaitsKeyed matches m h))
          (λ id k. dropped matches events m id h k)))

-- In a state whose waits are keyed, `waitSatisfiedEvents` reports no wait twice, however many of the events satisfy it.
pub wait_satisfied_events-Distinct :
    (state : RunState) (events : List EventEnvelope)
    → WaitsKeyed state.waits
    → Distinct (map satisfied_id (wait_satisfied_events state events))
unfolding wait_satisfied_events
wait_satisfied_events-Distinct state events h = satisfied_from-Distinct events state.waits h
