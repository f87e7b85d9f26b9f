-- ===== src/Runtime/Cascade/Below.antt =====
-- packages/core/src/state.ts: `descendantThreadIds` finds the threads that stand below one.
use looms.Prelude.{
  ℕ, zero, suc, ◌<◌, String, Option, some, true, ◌≡◌, ◌==◌, ap, ◌∙◌, arith, truthy, length,
  Bool-cases, Option-cases, inl, inr, eq_of_==, eq_refl,
}
use looms.Prelude.Dict.{Dict}
use looms.Core.State.{ThreadRecord}
use looms.Runtime.Cascade.{is_below, parent_of}

-- A thread whose parent is this one stands below another: that is its parent, or stands above its parent.
pub data Below (threads : Dict ThreadRecord) (id : String) : Option String → Type 0 where
  child : (parent : Option String) → truthy parent ≡ some id → Below threads id parent
  further :
      (parent : Option String) (p : String)
      → truthy parent ≡ some p
      → Below threads id (parent_of threads p)
      → Below threads id parent

-- No thread stands below itself: ranks below the number of threads fall from a thread to its parent.
abbrev pub Ranked : (String → ℕ) → Dict ThreadRecord → Type 0
Ranked rank threads =
    ((p : String) → rank p < suc (length threads))
    × ((p q : String) → truthy (parent_of threads p) ≡ some q → rank q < rank p)

module _ (threads : Dict ThreadRecord) (id : String) where
  pub is_below-Below :
      (fuel : ℕ) (parent : Option String)
      → is_below fuel threads id parent ≡ true
      → Below threads id parent
  unfolding is_below
  is_below-Below zero parent h = ground arith
  is_below-Below (suc fuel) parent h = elim (Option-cases (truthy parent)) [
    | inl alone ↦ ground arith
    | inr (p, there) ↦ elim (Bool-cases (p == id)) [
      | inl same ↦ child parent (there ∙ ap some (eq_of_== p id same))
      | inr other ↦
          further parent p there (is_below-Below fuel (parent_of threads p) (ground arith))
    ]
  ]

  pub Below-is_below :
      (rank : String → ℕ) (fuel : ℕ) (parent : Option String)
      → Ranked rank threads
      → ((p : String) → truthy parent ≡ some p → rank p < fuel)
      → Below threads id parent
      → is_below fuel threads id parent ≡ true
  unfolding is_below
  Below-is_below rank zero parent r h (child _ there) =
      let less = h id there in absurd (omega arith)
  Below-is_below rank zero parent r h (further _ p there b) =
      let less = h p there in absurd (omega arith)
  Below-is_below rank (suc fuel) parent r h (child _ there) = (let own = eq_refl id in ground arith)
  Below-is_below rank (suc fuel) parent r h (further _ p there b) =
      let rest =
        Below-is_below rank fuel (parent_of threads p) r
          (λ q up. (let less = r.1 p q up in let here = h p there in omega arith)) b in
      ground arith
