-- ===== src/Prelude/Dict.antt =====
-- A JavaScript object or `Map` used as a dictionary with string keys, in insertion order.
use Prim.Native.String.{String}
use mathlib.Core.Path.{◌≡◌, refl, subst₂}
use mathlib.Core.Logic.{inl, inr}
use mathlib.Core.Bool.{◌||◌, false, Bool}
use mathlib.Core.List.{List, [], ◌∷◌, map}
use mathlib.Core.Option.{Option, none, some}
use native.Mathlib.Omega.{arith}
use text.Mathlib.TextEquality.{eq_iff}
use looms.Prelude.Lists.{filter, includes, Distinct}
use looms.Prelude.Tests.{◌==◌, if◌then◌else◌, Bool-cases, eq_of_==}

abbrev pub Dict {ℓ} : Type ℓ → Type ℓ
Dict V = List (String × V)

module _ {ℓ} {V : Type ℓ} where
  -- `m[k]`, `m.get(k)`
  unfoldable pub get : String → Dict V → Option V
  get k [] = none
  get k ((j, v) ∷ m) = if j == k then some v else get k m

  -- `{ ...m, [k]: v }`, `m.set(k, v)`: a key that is there keeps its place.
  unfoldable pub put : String → V → Dict V → Dict V
  put k v [] = (k, v) ∷ []
  put k v ((j, w) ∷ m) = if j == k then (k, v) ∷ m else (j, w) ∷ put k v m

  -- `const { [k]: _, ...rest } = m`, `m.delete(k)`
  unfoldable pub remove : String → Dict V → Dict V
  remove k [] = []
  remove k ((j, v) ∷ m) = if j == k then remove k m else (j, v) ∷ remove k m

  -- `Object.values(m)`
  unfoldable pub values : Dict V → List V
  values [] = []
  values ((k, v) ∷ m) = v ∷ values m

  -- The entries whose value passes the test.
  unfoldable pub keep : (V → Bool) → Dict V → Dict V
  keep p [] = []
  keep p ((k, v) ∷ m) = if p v then (k, v) ∷ keep p m else keep p m

  pub get-put :
      (k j : String) (v : V) (m : Dict V) → get j (put k v m) ≡ (if k == j then some v else get j m)
  unfolding get put
  get-put k j v [] = refl
  get-put k j v ((i, w) ∷ m) = ground (arith, eq_iff k j, eq_iff i k, eq_iff i j, get-put k j v m)

  pub get-remove :
      (k j : String) (m : Dict V) → get j (remove k m) ≡ (if k == j then none else get j m)
  unfolding get remove
  get-remove k j [] = ground arith
  get-remove k j ((i, w) ∷ m) = ground (arith, eq_iff k j, eq_iff i k, eq_iff i j, get-remove k j m)

  -- Every value satisfies `P` at its key.
  abbrev pub Entries {κ} : (String → V → Type κ) → Dict V → Type κ
  Entries P [] = Unit
  Entries P ((k, v) ∷ m) = P k v × Entries P m

module _ {ℓ κ} {V : Type ℓ} (P : String → V → Type κ) where
  pub Entries-put : (k : String) (v : V) (m : Dict V) → P k v → Entries P m → Entries P (put k v m)
  unfolding put
  Entries-put k v [] p h = (p, tt)
  Entries-put k v ((j, w) ∷ m) p (q, h) = ground (arith, Entries-put k v m p h)

  pub Entries-remove : (k : String) (m : Dict V) → Entries P m → Entries P (remove k m)
  unfolding remove
  Entries-remove k [] h = tt
  Entries-remove k ((j, w) ∷ m) (q, h) = ground (arith, Entries-remove k m h)

  pub Entries-keep : (p : V → Bool) (m : Dict V) → Entries P m → Entries P (keep p m)
  unfolding keep
  Entries-keep p [] h = tt
  Entries-keep p ((j, w) ∷ m) (q, h) = ground (arith, Entries-keep p m h)

  pub Entries-get : (k : String) (v : V) (m : Dict V) → Entries P m → get k m ≡ some v → P k v
  unfolding get
  Entries-get k v [] h e = cc
  Entries-get k v ((j, w) ∷ m) (q, h) e = elim (Bool-cases (j == k)) [
    | inl same ↦ subst₂ P (eq_of_== j k same) (ground arith) q
    | inr differ ↦ Entries-get k v m h (ground arith)
  ]

pub values-keep {ℓ} :
    {V : Type ℓ} (p : V → Bool) (m : Dict V) → values (keep p m) ≡ filter p (values m)
unfolding values keep
values-keep p [] = refl
values-keep p ((k, v) ∷ m) = ground (arith, values-keep p m)

-- `Object.keys(m)`
abbrev pub keys {ℓ} : {V : Type ℓ} → Dict V → List String
keys [] = []
keys ((k, v) ∷ m) = k ∷ keys m

module _ {ℓ} {V : Type ℓ} where
  includes-keys-put :
      (k j : String) (v : V) (m : Dict V)
      → includes (keys (put k v m)) j ≡ (k == j || includes (keys m) j)
  unfolding put
  includes-keys-put k j v [] = refl
  includes-keys-put k j v ((i, w) ∷ m) =
      ground (arith, eq_iff i k, eq_iff i j, eq_iff k j, includes-keys-put k j v m)

  includes-keys-remove :
      (k j : String) (m : Dict V)
      → includes (keys m) j ≡ false
      → includes (keys (remove k m)) j ≡ false
  unfolding remove
  includes-keys-remove k j [] h = refl
  includes-keys-remove k j ((i, w) ∷ m) h = ground (arith, includes-keys-remove k j m)

  includes-keys-keep :
      (p : V → Bool) (j : String) (m : Dict V)
      → includes (keys m) j ≡ false
      → includes (keys (keep p m)) j ≡ false
  unfolding keep
  includes-keys-keep p j [] h = refl
  includes-keys-keep p j ((i, w) ∷ m) h = ground (arith, includes-keys-keep p j m)

  pub Distinct-keys-put :
      (k : String) (v : V) (m : Dict V) → Distinct (keys m) → Distinct (keys (put k v m))
  unfolding put
  Distinct-keys-put k v [] h = (refl, tt)
  Distinct-keys-put k v ((i, w) ∷ m) (new, h) =
      ground (arith, eq_iff i k, eq_iff k i, includes-keys-put k i v m, Distinct-keys-put k v m h)

  pub Distinct-keys-remove :
      (k : String) (m : Dict V) → Distinct (keys m) → Distinct (keys (remove k m))
  unfolding remove
  Distinct-keys-remove k [] h = tt
  Distinct-keys-remove k ((i, w) ∷ m) (new, h) =
      ground (arith, includes-keys-remove k i m, Distinct-keys-remove k m h)

  pub Distinct-keys-keep :
      (p : V → Bool) (m : Dict V) → Distinct (keys m) → Distinct (keys (keep p m))
  unfolding keep
  Distinct-keys-keep p [] h = tt
  Distinct-keys-keep p ((i, w) ∷ m) (new, h) =
      ground (arith, includes-keys-keep p i m, Distinct-keys-keep p m h)

  -- A key that is not listed has no entry.
  pub get-eq-none : (k : String) (m : Dict V) → includes (keys m) k ≡ false → get k m ≡ none
  unfolding get
  get-eq-none k [] h = refl
  get-eq-none k ((i, w) ∷ m) h = ground (arith, get-eq-none k m)

  get-absent : (m : Dict V) (k : String) → includes (keys m) k ≡ false → get k m ≡ none
  unfolding get
  get-absent [] k h = refl
  get-absent ((j, v) ∷ m) k h = ground (arith, get-absent m k)

  -- Whether a value that may be there passes a test.
  abbrev pub passes : (V → Bool) → Option V → Bool
  passes p none = false
  passes p (some v) = p v

  -- In a table by the keys of its values, the keys of those that pass a test.
  pub includes-filter-values :
      (key : V → String) (p : V → Bool) (m : Dict V) (k : String)
      → Entries (λ j v. key v ≡ j) m
      → Distinct (keys m)
      → includes (map key (filter p (values m))) k ≡ passes p (get k m)
  unfolding values get
  includes-filter-values key p [] k h d = refl
  includes-filter-values key p ((j, v) ∷ m) k (own, h) (new, d) =
      let rest = includes-filter-values key p m k h d in
      let gone = get-absent m k in ground (arith, eq_iff j k, eq_iff (key v) k)
