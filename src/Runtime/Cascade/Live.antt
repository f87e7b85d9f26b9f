-- ===== src/Runtime/Cascade/Live.antt =====
-- packages/runtime/src/helpers.ts: `cascadedCancellations` cancels exactly what lives below a cancelled thread.
use looms.Prelude.{
  ℕ, suc, String, some, true, false, List, [], ◌∷◌, ◌≡◌, ◌==◌, ◌↔◌, refl, sym, ap, ◌∙◌, subst,
  arith, map, filter, not, ◌&&◌, length, reverse, reverse-cons, includes, Distinct, or_else,
  includes-append, includes-filter, Bool-cases, inl, inr, eq_iff, eq_of_==, eq_refl,
}
use looms.Prelude.Dict.{get, keys, passes, includes-filter-values}
use looms.Core.Json.{field_of, read_string, payload_object}
use looms.Core.Envelope.{EventEnvelope, EventInput}
use looms.Core.Thread.{is_terminal_status}
use looms.Core.State.{RunState, ThreadRecord}
use looms.Core.Fold.Keyed.{ThreadsKeyed}
use looms.Runtime.Cascade.{
  is_below, descendant_thread_ids, cancelled_of, flat_map, is_live, lives, first_of_each,
  cancellation_of, live_below, cascaded_cancellations,
}
use looms.Runtime.Cascade.Below.{Below, Ranked, is_below-Below, Below-is_below}

includes-first_of_each :
    (seen xs : List String) (s : String)
    → includes (first_of_each seen xs) s ≡ (includes xs s && not (includes seen s))
unfolding first_of_each
includes-first_of_each seen [] s = refl
includes-first_of_each seen (x ∷ xs) s =
    let again = includes-first_of_each seen xs s in
    let more = includes-first_of_each (x ∷ seen) xs s in ground (arith, eq_iff x s)

includes-reverse : (xs : List String) (s : String) → includes (reverse xs) s ≡ includes xs s
includes-reverse [] s = refl
includes-reverse (x ∷ xs) s =
    let rest = includes-reverse xs s in
    let last = includes-append (reverse xs) (x ∷ []) s in
    ap (λ ys. includes ys s) (reverse-cons x xs) ∙ ground arith

-- The thread that an event input cancels.
unfoldable pub cancelled_id : EventInput → String
unfolding read_string field_of
cancelled_id input = or_else (read_string (payload_object input.payload) "threadId") ""

pub map-cancelled_id : (xs : List String) → map cancelled_id (map cancellation_of xs) ≡ xs
unfolding cancelled_id cancellation_of field_of read_string
map-cancelled_id [] = refl
map-cancelled_id (x ∷ xs) = ap (λ ys. x ∷ ys) (map-cancelled_id xs)

-- A found element is that of one of the lists.
includes-flat_map :
    (f : String → List String) (xs : List String) (s : String)
    → includes (flat_map f xs) s ≡ true
    → (x : String) × (includes xs x ≡ true) × (includes (f x) s ≡ true)
includes-flat_map f [] s h = ground arith
includes-flat_map f (x ∷ xs) s h =
    let split = includes-append (f x) (flat_map f xs) s in
    elim (Bool-cases (includes (f x) s)) [
      | inl here ↦ (x, ground (arith, eq_refl x), here)
      | inr other ↦
          let (y, there, found) = includes-flat_map f xs s (ground arith) in
          (y, ground arith, found)
    ]

flat_map-includes :
    (f : String → List String) (xs : List String) (s x : String)
    → includes xs x ≡ true
    → includes (f x) s ≡ true
    → includes (flat_map f xs) s ≡ true
flat_map-includes f [] s x h k = ground arith
flat_map-includes f (y ∷ ys) s x h k =
    let split = includes-append (f y) (flat_map f ys) s in
    let rest = flat_map-includes f ys s x in
    elim (Bool-cases (y == x)) [
      | inl same ↦
          let here : includes (f y) s ≡ true =
            subst (λ z. includes (f z) s ≡ true) (sym (eq_of_== y x same)) k in
          ground arith
      | inr other ↦ ground arith
    ]

module _ (state : RunState) (t : String) (r : ThreadRecord) where
  includes-descendant_thread_ids :
      (c : String)
      → ThreadsKeyed state.threads
      → Distinct (keys state.threads)
      → get t state.threads ≡ some r
      → includes (descendant_thread_ids state c) t
        ≡ is_below (suc (length state.threads)) state.threads c r.parent_thread_id
  unfolding descendant_thread_ids ThreadsKeyed
  includes-descendant_thread_ids c keyed distinct there =
      let p = λ (w : ThreadRecord).
        is_below (suc (length state.threads)) state.threads c w.parent_thread_id in
      includes-filter-values (λ w. w.thread_id) p state.threads t keyed distinct
      ∙ ap (passes p) there

  pub includes-cascaded_cancellations :
      (written : List EventEnvelope)
      → get t state.threads ≡ some r
      → includes (map cancelled_id (cascaded_cancellations state written)) t ≡ (
          includes (flat_map (descendant_thread_ids state) (flat_map cancelled_of written)) t
          && not (is_terminal_status r.status))
  unfolding cascaded_cancellations live_below is_live
  includes-cascaded_cancellations written there =
      let found = flat_map (descendant_thread_ids state) (flat_map cancelled_of written) in
      let live = live_below state written in
      let printed = ap (λ xs. includes xs t) (map-cancelled_id (reverse live)) in
      let turned = includes-reverse live t in
      let once = includes-first_of_each [] (filter (is_live state) found) t in
      let kept = includes-filter (is_live state) found t in
      let status : is_live state t ≡ not (is_terminal_status r.status) = ap lives there in
      printed ∙ turned ∙ once ∙ ground arith

  -- In a state whose threads are keyed and where no thread stands below itself: a thread is cancelled by `cascadedCancellations` if and only if it is not over and stands below one of the threads that the events cancel, at whatever depth.
  pub cascaded_cancellations-Below :
      (rank : String → ℕ) (written : List EventEnvelope)
      → ThreadsKeyed state.threads
      → Distinct (keys state.threads)
      → Ranked rank state.threads
      → get t state.threads ≡ some r
      → (includes (map cancelled_id (cascaded_cancellations state written)) t ≡ true) ↔ (
          (is_terminal_status r.status ≡ false)
          × ((c : String) × (includes (flat_map cancelled_of written) c ≡ true)
              × Below state.threads c r.parent_thread_id))
  cascaded_cancellations-Below rank written keyed distinct ranked there =
      let all_of = includes-cascaded_cancellations written there in
      (
        λ h.
            let (c, cancelled, found) =
              includes-flat_map (descendant_thread_ids state) (flat_map cancelled_of written) t
                (ground arith) in
            (
              ground arith,
              (
                c,
                cancelled,
                is_below-Below state.threads c (suc (length state.threads)) r.parent_thread_id
                    (sym (includes-descendant_thread_ids c keyed distinct there) ∙ found),
              ),
            ),
        λ (live, (c, cancelled, below)).
            let found =
              includes-descendant_thread_ids c keyed distinct there
              ∙ Below-is_below state.threads c rank (suc (length state.threads)) r.parent_thread_id
                  ranked (λ p up. ranked.0 p) below in
            let some_list =
              flat_map-includes (descendant_thread_ids state) (flat_map cancelled_of written) t c
                cancelled found in
            ground arith,
      )
