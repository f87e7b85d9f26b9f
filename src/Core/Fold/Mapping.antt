-- ===== src/Core/Fold/Mapping.antt =====
-- What the outstanding effects of a thread are, after its effects have been reconciled.
use looms.Prelude.{
  ℕ, suc, String, ◌≡◌, refl, ap, ◌∙◌, Option, none, some, List, [], ◌∷◌, ◌++◌, Bool, true, not,
  filter, find?, remove_first, includes, All, All-append, All-find, All-remove_first, find?-passes,
  is_some, Option-cases, inl, inr, eq_of_==, arith,
}
use looms.Core.Envelope.{EventEnvelope}
use looms.Core.Effects.{RuntimeEffect}
use looms.Core.State.{OutstandingEffect}
use mathlib.Core.Bool.{false≢true}
use looms.Core.Fold.Deliver.{enabled_ids}
use looms.Core.Fold.Reconcile.{
  stable_effect_id, matches, fresh_effect, issue, map_from, map_effects,
}

abbrev pub effect_ids : List OutstandingEffect → List String
effect_ids [] = []
effect_ids (item ∷ items) = item.effect_id ∷ effect_ids items

-- Every effect names itself, by a tag or otherwise.
abbrev pub IsStable : String → RuntimeEffect → Type 0
IsStable thread_id effect = is_some (stable_effect_id thread_id effect) ≡ true

effect_ids-append :
    (xs ys : List OutstandingEffect) → effect_ids (xs ++ ys) ≡ effect_ids xs ++ effect_ids ys
effect_ids-append [] ys = refl
effect_ids-append (x ∷ xs) ys = ap (λ ids. x.effect_id ∷ ids) (effect_ids-append xs ys)

pub effect_ids-filter :
    (p : String → Bool) (items : List OutstandingEffect)
    → effect_ids (filter (λ item. p item.effect_id) items) ≡ filter p (effect_ids items)
effect_ids-filter p [] = refl
effect_ids-filter p (item ∷ items) = ground (arith, effect_ids-filter p items)

module _ (thread_id : String) (event : EventEnvelope) (settled : Option OutstandingEffect) where
  issue-All {κ} :
      (P : OutstandingEffect → Type κ) (index : ℕ) (effect : RuntimeEffect)
      (o : Option OutstandingEffect)
      → P (fresh_effect thread_id event settled index effect)
      → ((item : OutstandingEffect) → o ≡ some item → P item)
      → All P (issue thread_id event settled index effect o)
  unfolding issue
  issue-All P index effect (some item) fresh old = (old item refl, tt)
  issue-All P index effect none fresh old = ground arith

  -- What holds of the existing effects and of every fresh one holds of the mapped ones.
  pub map_from-All {κ} :
      (P : OutstandingEffect → Type κ)
      → ((index : ℕ) (effect : RuntimeEffect)
          → P (fresh_effect thread_id event settled index effect))
      → (index : ℕ) (effects : List RuntimeEffect) (remaining : List OutstandingEffect)
      → All P remaining
      → All P (map_from thread_id event settled index effects remaining)
  unfolding map_from
  map_from-All P fresh index [] remaining h = tt
  map_from-All P fresh index (effect ∷ effects) remaining h =
      let test = matches (stable_effect_id thread_id effect) effect in
      All-append P (issue thread_id event settled index effect (find? test remaining)) _
        (issue-All P index effect (find? test remaining) (fresh index effect)
          (λ item e. All-find P test remaining item h e))
        (map_from-All P fresh (suc index) effects (remove_first test remaining)
          (All-remove_first P test remaining h))

  issue-ids :
      (index : ℕ) (effect : RuntimeEffect) (id : String) (remaining : List OutstandingEffect)
      → stable_effect_id thread_id effect ≡ some id
      → effect_ids
          (issue thread_id event settled index effect (find? (matches (some id) effect) remaining))
        ≡ id ∷ []
  unfolding issue
  issue-ids index effect id remaining e =
      elim (Option-cases (find? (matches (some id) effect) remaining)) [
        | inl missing ↦ rw (missing, e)
        | inr (item, found) ↦ rw found (
            ap (λ x. x ∷ [])
              (eq_of_== item.effect_id id
                (unfold matches in find?-passes (matches (some id) effect) remaining item found)))
      ]

  -- The ids of effects that name themselves are their names, whatever was outstanding before.
  map_from-ids :
      (index : ℕ) (effects : List RuntimeEffect) (remaining : List OutstandingEffect)
      → All (IsStable thread_id) effects
      → effect_ids (map_from thread_id event settled index effects remaining)
        ≡ enabled_ids thread_id effects
  unfolding map_from
  map_from-ids index [] remaining h = refl
  map_from-ids index (effect ∷ effects) remaining (stable, h) =
      elim (Option-cases (stable_effect_id thread_id effect)) [
        | inl missing ↦ absurd (false≢true (simp missing at stable))
        | inr (id, e) ↦
            rw (e, effect_ids-append, issue-ids index effect id remaining e)
              (ap (λ ids. id ∷ ids)
                (map_from-ids (suc index) effects
                  (remove_first (matches (some id) effect) remaining) h))
      ]

-- If every effect that a thread enables names itself, its outstanding effects are the enabled ones
-- that have not completed, in the order in which the thread lists them: nothing that it dropped
-- stays, and nothing that it wants is missing.
pub map_effects-ids :
    (thread_id : String) (event : EventEnvelope) (effects : List RuntimeEffect)
    (completed : List String) (existing : List OutstandingEffect)
    (settled : Option OutstandingEffect)
    → All (IsStable thread_id) effects
    → effect_ids (map_effects thread_id event effects completed existing settled)
      ≡ filter (λ id. not (includes completed id)) (enabled_ids thread_id effects)
unfolding map_effects
map_effects-ids thread_id event effects completed existing settled h =
    effect_ids-filter (λ id. not (includes completed id)) _
    ∙ ap (filter (λ id. not (includes completed id)))
        (map_from-ids thread_id event settled 0 effects existing h)
