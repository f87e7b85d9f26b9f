-- ===== src/Runtime/Waits/Remaining.antt =====
-- packages/runtime/src/helpers.ts and packages/core/src/fold.ts: after a batch of events the waits that it
-- satisfies are gone, with the others of their races, and no more.
use looms.Prelude.{
  ℕ, String, none, some, Bool, true, false, List, [], ◌∷◌, ◌≡◌, ◌==◌, ◌&&◌, ◌||◌, refl, ap, sym,
  ◌∙◌, subst, any, includes, if◌then◌else◌, Bool-cases, Option-cases, inl, inr, eq_iff, eq_of_==,
  eq_refl, arith,
}
use looms.Prelude.Dict.{Dict, get, values, get-eq-none, Entries-get}
use looms.Core.Envelope.{EventEnvelope}
use looms.Core.State.{RunState, WaitRecord}
use looms.Core.Fold.Protocol.{Decoders, Registry}
use looms.Core.Fold.Keyed.{IsKeyed, WaitsKeyed}
use looms.Core.Fold.Step.{fold_run}
use looms.Runtime.Synthesis.{create_events}
use looms.Runtime.Waits.{wait_satisfied_events}
use looms.Runtime.Waits.Exactly.{satisfies, satisfied_by, reported, satisfied_from-includes}
use looms.Runtime.Waits.Shared.{shares_race, goes}
use looms.Runtime.Waits.Folded.{WaitsNamed, onto, LeftIn-fold_run, satisfied_from-IsReport}

eq_of_both : (a b : Bool) → (a ≡ true → b ≡ true) → (b ≡ true → a ≡ true) → a ≡ b
eq_of_both true b h k = sym (h refl)
eq_of_both false true h k = k refl
eq_of_both false false h k = refl

any-onto :
    (p : String → Bool) (xs ids : List String) → any p (onto xs ids) ≡ (any p xs || any p ids)
any-onto p [] ids = refl
any-onto p (x ∷ xs) ids = any-onto p xs (x ∷ ids) ∙ ground arith

includes-of_any :
    (p : String → Bool) (xs : List String)
    → any p xs ≡ true
    → (x : String) × (includes xs x ≡ true) × (p x ≡ true)
includes-of_any p [] h = absurd (ground arith)
includes-of_any p (x ∷ xs) h = elim (Bool-cases (p x)) [
  | inl here ↦ (x, ground (arith, eq_refl x), here)
  | inr later ↦ let (y, there, q) = includes-of_any p xs (ground arith) in (y, ground arith, q)
]

any-of_includes :
    (p : String → Bool) (xs : List String) (x : String)
    → includes xs x ≡ true
    → p x ≡ true
    → any p xs ≡ true
any-of_includes p [] x h k = ground arith
any-of_includes p (y ∷ ys) x h k = elim (Bool-cases (y == x)) [
  | inl same ↦
      let here : p y ≡ true = subst (λ z. p z ≡ true) (sym (eq_of_== y x same)) k in ground arith
  | inr other ↦ (let rest = any-of_includes p ys x (ground arith) k in ground arith)
]

module _ (q : WaitRecord → Bool) where
  get-of_any :
      (m : Dict WaitRecord)
      → WaitsKeyed m
      → any q (values m) ≡ true
      → (v : WaitRecord) × (get v.wait_id m ≡ some v) × (q v ≡ true)
  unfolding WaitsKeyed values get
  get-of_any [] h k = absurd (ground arith)
  get-of_any ((id, v) ∷ m) ((own, keyed), (new, distinct)) k = elim (Bool-cases (q v)) [
    | inl here ↦ (v, ground (arith, eq_iff id v.wait_id), here)
    | inr later ↦
        let (u, there, passes) = get-of_any m (keyed, distinct) (ground arith) in
        (u, ground (arith, eq_iff id u.wait_id, get-eq-none id m new), passes)
  ]

  any-of_get :
      (m : Dict WaitRecord) (id : String) (v : WaitRecord)
      → get id m ≡ some v
      → q v ≡ true
      → any q (values m) ≡ true
  unfolding values get
  any-of_get [] id v h k = cc
  any-of_get ((j, u) ∷ m) id v h k = elim (Bool-cases (j == id)) [
    | inl here ↦
        let same : u ≡ v = ground arith in
        let passes : q u ≡ true = subst (λ x. q x ≡ true) (sym same) k in ground arith
    | inr later ↦ (let rest = any-of_get m id v (ground arith) k in ground arith)
  ]

-- Two tests that agree on the records of a keyed table find the same there.
any-values_ext :
    (f g : WaitRecord → Bool) (m : Dict WaitRecord)
    → WaitsKeyed m
    → ((v : WaitRecord) → get v.wait_id m ≡ some v → f v ≡ g v)
    → any f (values m) ≡ any g (values m)
any-values_ext f g m keyed agree =
    eq_of_both (any f (values m)) (any g (values m))
      (λ h.
        let (v, there, passes) = get-of_any f m keyed h in
        any-of_get g m v.wait_id v there (sym (agree v there) ∙ passes))
      (λ h.
        let (v, there, passes) = get-of_any g m keyed h in
        any-of_get f m v.wait_id v there (agree v there ∙ passes))

or_false : (b : Bool) → (b || false) ≡ b
or_false b = ground arith

and_parts : (a b : Bool) → (a && b) ≡ true → (a ≡ true) × (b ≡ true)
and_parts a b h = (ground arith, ground arith)

-- The waits that are reported of a keyed table, and those of it that an event satisfies.
any-reported :
    (p : String → Bool) (events : List EventEnvelope) (m : Dict WaitRecord)
    → WaitsKeyed m
    → any p (reported events m) ≡ any (λ v. any (satisfies v) events && p v.wait_id) (values m)
unfolding WaitsKeyed
any-reported p events m keyed =
    let q = λ (v : WaitRecord). any (satisfies v) events && p v.wait_id in
    eq_of_both (any p (reported events m)) (any q (values m))
      (λ h.
        let (x, there, px) = includes-of_any p (reported events m) h in
        let by = sym (satisfied_from-includes events m x keyed) ∙ there in
        elim (Option-cases (get x m)) [
          | inl absent ↦ (let no = ap (satisfied_by events) absent in ground arith)
          | inr (v, found) ↦
              let own : v.wait_id ≡ x = Entries-get (λ k w. w.wait_id ≡ k) x v m keyed.0 found in
              let satisfied : any (satisfies v) events ≡ true =
                sym (ap (satisfied_by events) found) ∙ by in
              any-of_get q m x v found (rw satisfied (subst (λ y. p y ≡ true) (sym own) px))
        ])
      (λ h.
        let (v, found, both) = get-of_any q m keyed h in
        let (satisfied, px) = and_parts (any (satisfies v) events) (p v.wait_id) both in
        any-of_includes p (reported events m) v.wait_id
          (satisfied_from-includes events m v.wait_id keyed
            ∙ ap (satisfied_by events) found
            ∙ satisfied)
          px)

-- Whether a wait goes with one that is satisfied: it is that one, or runs in its race.
abbrev pub goes_with : WaitRecord → WaitRecord → Bool
goes_with v w = v.wait_id == w.wait_id || shares_race (some v) (some w)

module _ (d : Decoders) (registry : Registry) (new_id : ℕ → String) (clock : ℕ → ℕ)
    (run_id : String) (s : RunState) (events : List EventEnvelope) where
  -- Let the state be keyed, and each of its waits have an id. Once the events that `waitSatisfiedEvents`
  -- makes of a batch are folded, a wait of the state is gone if some event of the batch satisfies it or a
  -- wait whose race it runs in; otherwise it is as it was.
  pub wait_satisfied_events-fold_run :
      (w : WaitRecord)
      → IsKeyed s
      → WaitsNamed s.waits
      → get w.wait_id s.waits ≡ some w
      → get w.wait_id
          (fold_run d registry s
            (create_events new_id clock run_id 0 (wait_satisfied_events s events))).waits
        ≡ (if any (λ v. any (satisfies v) events && goes_with v w) (values s.waits)
            then none
            else some w)
  unfolding wait_satisfied_events WaitsKeyed
  wait_satisfied_events-fold_run w keyed named found =
      let ids = reported events s.waits in
      let p =
        λ (i : String). i == w.wait_id || shares_race (get i s.waits) (get w.wait_id s.waits) in
      let (_, waits) =
        LeftIn-fold_run d registry s.waits new_id clock run_id (wait_satisfied_events s events) 0 []
          s (satisfied_from-IsReport events s.waits named) (keyed, λ j. refl) in
      let here : goes s.waits (onto ids []) w.wait_id
          ≡ any (λ v. any (satisfies v) events && goes_with v w) (values s.waits) =
        any-onto p ids []
        ∙ or_false (any p ids)
        ∙ any-reported p events s.waits keyed.waits
        ∙ any-values_ext (λ v. any (satisfies v) events && p v.wait_id)
            (λ v. any (satisfies v) events && goes_with v w) s.waits keyed.waits
            (λ v there.
              ap
                (λ o.
                  any (satisfies v) events
                  && (v.wait_id == w.wait_id || shares_race o (get w.wait_id s.waits)))
                there
              ∙ ap
                  (λ o.
                    any (satisfies v) events && (v.wait_id == w.wait_id || shares_race (some v) o))
                  found) in
      waits w.wait_id
      ∙ ap (λ b. if b then none else get w.wait_id s.waits) here
      ∙ ap
          (λ o.
            if any (λ v. any (satisfies v) events && goes_with v w) (values s.waits)
            then none
            else o)
          found
