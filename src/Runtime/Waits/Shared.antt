-- ===== src/Runtime/Waits/Shared.antt =====
-- packages/core/src/fold.ts: which waits go when some are satisfied, each ending its race.
use looms.Prelude.{
  String, Option, none, some, Bool, true, false, List, [], ◌∷◌, ◌≡◌, ◌==◌, ◌||◌, refl, ap, sym, ◌∙◌,
  subst, any, is_the, truthy, if◌then◌else◌, Bool-cases, Option-cases, inl, inr, eq_of_==, arith,
  ◌>>=◌,
}
use looms.Prelude.Dict.{Dict, get}
use looms.Core.State.{WaitRecord}
use looms.Core.Fold.Protocol.{race_id}
use looms.Core.Fold.Waiting.{race_of, outside, unless_in}

abbrev in_race : Option String → Option WaitRecord → Bool
in_race none o = false
in_race (some race) none = false
in_race (some race) (some w) = is_the (race_id w) race

-- Whether a wait runs in the race of another, if that one runs in a race that has a name.
abbrev pub shares_race : Option WaitRecord → Option WaitRecord → Bool
shares_race v o = in_race (race_of v) o

is_the-eq : (o : Option String) (race : String) → is_the o race ≡ true → o ≡ some race
is_the-eq none race h = cc
is_the-eq (some r) race h = ap some (eq_of_== r race h)

in_race-race_of :
    (race : String) (o : Option WaitRecord)
    → (race == "") ≡ false
    → in_race (some race) o ≡ true
    → race_of o ≡ some race
in_race-race_of race none named h = cc
in_race-race_of race (some w) named h = ap truthy (is_the-eq (race_id w) race h) ∙ rw named refl

truthy-named : (o : Option String) (s : String) → truthy o ≡ some s → (s == "") ≡ false
truthy-named none s h = cc
truthy-named (some r) s h = elim (Bool-cases (r == "")) [
  | inl empty ↦ ground arith
  | inr named ↦ (let same : r ≡ s = ground arith in subst (λ x. (x == "") ≡ false) same named)
]

-- Waits in one race all have the race of the first.
shares_race_trans :
    (u v w : Option WaitRecord)
    → shares_race u v ≡ true
    → shares_race v w ≡ true
    → shares_race u w ≡ true
shares_race_trans u v w h k = elim (Option-cases (race_of u)) [
  | inl alone ↦ (let no = ap (λ r. in_race r v) alone in ground arith)
  | inr (race, e) ↦
      let named = truthy-named (u >>= λ x. race_id x) race e in
      let same : race_of v ≡ some race =
        in_race-race_of race v named (sym (ap (λ r. in_race r v) e) ∙ h) in
      ap (λ r. in_race r w) e ∙ sym (ap (λ r. in_race r w) same) ∙ k
]

unless_in-in_race :
    (race : String) (o : Option WaitRecord)
    → unless_in race o ≡ (if in_race (some race) o then none else o)
unless_in-in_race race none = refl
unless_in-in_race race (some w) = refl

outside-in_race :
    (r : Option String) (o : Option WaitRecord) → outside r o ≡ (if in_race r o then none else o)
outside-in_race none o = refl
outside-in_race (some race) o = unless_in-in_race race o

outside-none : (r : Option String) → outside r none ≡ none
outside-none none = refl
outside-none (some race) = refl

left_by :
    (own shared gone : Bool) (o r : Option WaitRecord)
    → r ≡ (if gone then none else if shared then none else o)
    → (if own || shared || gone then none else o) ≡ (if own then none else r)
left_by own shared gone o r h = ground arith

middle : (b : Bool) → (false || b || false) ≡ true → b ≡ true
middle b h = ground arith

or_true : (b c : Bool) → c ≡ true → (b || c) ≡ true
or_true b c h = ground arith

module _ (m : Dict WaitRecord) where
  -- Whether the wait `j` goes when those of the list are satisfied.
  abbrev pub goes : List String → String → Bool
  goes ids j = any (λ i. i == j || shares_race (get i m) (get j m)) ids

  abbrev pub left : List String → String → Option WaitRecord
  left ids j = if goes ids j then none else get j m

  -- What runs in a race with a wait that goes, goes too.
  goes-shares :
      (ids : List String) (i j : String)
      → goes ids i ≡ true
      → shares_race (get i m) (get j m) ≡ true
      → goes ids j ≡ true
  goes-shares [] i j h k = cc
  goes-shares (x ∷ ids) i j h k = elim (Bool-cases (goes ids i)) [
    | inl earlier ↦ or_true _ (goes ids j) (goes-shares ids i j earlier k)
    | inr later ↦ elim (Bool-cases (x == i)) [
      | inl same ↦
          let shared : shares_race (get x m) (get j m) ≡ true =
            ap (λ y. shares_race (get y m) (get j m)) (eq_of_== x i same) ∙ k in
          rw shared (ground arith)
      | inr other ↦
          let first : shares_race (get x m) (get i m) ≡ true = middle _ (rw (other, later) at h) in
          let shared = shares_race_trans (get x m) (get i m) (get j m) first k in
          rw shared (ground arith)
    ]
  ]

  outside-left_here :
      (ids : List String) (i j : String)
      → goes ids j ≡ false
      → outside (race_of (left ids i)) (get j m)
        ≡ (if shares_race (get i m) (get j m) then none else get j m)
  outside-left_here ids i j here = elim (Bool-cases (goes ids i)) [
    | inl before ↦
        ap (λ b. outside (race_of (if b then none else get i m)) (get j m)) before
        ∙ sym (elim (Bool-cases (shares_race (get i m) (get j m))) [
          | inl shared ↦ (let gone = goes-shares ids i j before shared in ground arith)
          | inr apart ↦ rw apart refl
        ])
    | inr now ↦
        ap (λ b. outside (race_of (if b then none else get i m)) (get j m)) now
        ∙ outside-in_race (race_of (get i m)) (get j m)
  ]

  -- What is left of a wait's race after one more wait is satisfied.
  outside-left :
      (ids : List String) (i j : String)
      → outside (race_of (left ids i)) (left ids j)
        ≡ (if goes ids j then none else if shares_race (get i m) (get j m) then none else get j m)
  outside-left ids i j = elim (Bool-cases (goes ids j)) [
    | inl gone ↦
        ap (λ b. outside (race_of (left ids i)) (if b then none else get j m)) gone
        ∙ outside-none (race_of (left ids i))
        ∙ sym (rw gone refl)
    | inr here ↦
        ap (λ b. outside (race_of (left ids i)) (if b then none else get j m)) here
        ∙ outside-left_here ids i j here
        ∙ sym (rw here refl)
  ]

  -- One more wait is satisfied.
  pub left-cons :
      (ids : List String) (i j : String)
      → left (i ∷ ids) j ≡ (if i == j then none else outside (race_of (left ids i)) (left ids j))
  left-cons ids i j =
      left_by (i == j) (shares_race (get i m) (get j m)) (goes ids j) (get j m)
        (outside (race_of (left ids i)) (left ids j)) (outside-left ids i j)
