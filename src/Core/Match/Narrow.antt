-- ===== src/Core/Match/Narrow.antt =====
-- packages/core/src/match.ts: patterns are ordered by what they match.
use looms.Prelude.{
  String, Option, none, some, Bool, true, false, ◌==◌, ◌&&◌, ◌≡◌, refl, sym, ◌∙◌, arith, Bool-cases,
  Option-cases, inl, inr, eq_iff, eq_of_==, subst₂,
}
use looms.Core.Json.{
  Json, null, bool, num, str, arr, obj, Items, nil, cons, Fields, end, field, field_of,
}
use looms.Core.Envelope.{EventEnvelope, type_name}
use looms.Core.Effects.{on_type}
use looms.Core.Equality.{same_bool}
use looms.Core.Match.{is_subset, subset_items, subset_fields, payload_matches, matches_wait}

same_bool_trans :
    (a b c : Bool) → same_bool a b ≡ true → same_bool b c ≡ true → same_bool a c ≡ true
same_bool_trans true b c h k = ground arith
same_bool_trans false true c h k = ground arith
same_bool_trans false false c h k = k

and-parts : (a b : Bool) → (a && b) ≡ true → (a ≡ true) × (b ≡ true)
and-parts a b h = (ground arith, ground arith)

and-both : (a b : Bool) → a ≡ true → b ≡ true → (a && b) ≡ true
and-both a b h k = ground arith

-- What the value of a field is compared with.
subset_at : Json → Option Json → Bool
unfolding is_subset
subset_at v none = false
subset_at v (some w) = is_subset v w

subset_fields-field :
    (k : String) (v : Json) (fs gs : Fields)
    → subset_fields (field k v fs) gs ≡ (subset_at v (field_of k gs) && subset_fields fs gs)
unfolding is_subset subset_at
subset_fields-field k v fs gs = elim (Option-cases (field_of k gs)) [
  | inl missing ↦ rw missing refl
  | inr (w, there) ↦ rw there refl
]

subset_fields-field_of :
    (fs gs : Fields) (key : String) (v : Json)
    → subset_fields fs gs ≡ true
    → field_of key fs ≡ some v
    → subset_at v (field_of key gs) ≡ true
unfolding field_of
subset_fields-field_of end gs key v h e = ground arith
subset_fields-field_of (field k u fs) gs key v h e =
    let split = subset_fields-field k u fs gs in
    let rest = subset_fields-field_of fs gs key v in
    elim (Bool-cases (k == key)) [
      | inl same ↦
          let this = eq_of_== k key same in
          let found : u ≡ v = ground arith in
          subst₂ (λ x y. subset_at x (field_of y gs) ≡ true) found this (ground arith)
      | inr other ↦ rest (ground arith) (ground arith)
    ]

subset_at_trans :
    (u : Json) (o p : Option Json)
    → ((v w : Json) → is_subset u v ≡ true → is_subset v w ≡ true → is_subset u w ≡ true)
    → subset_at u o ≡ true
    → ((v : Json) → o ≡ some v → subset_at v p ≡ true)
    → subset_at u p ≡ true
unfolding subset_at
subset_at_trans u none p f h k = ground arith
subset_at_trans u (some v) none f h k = k v refl
subset_at_trans u (some v) (some w) f h k = f v w h (k v refl)

mutual
  unfolding is_subset subset_at

  pub is_subset_trans :
      (u v w : Json) → is_subset u v ≡ true → is_subset v w ≡ true → is_subset u w ≡ true
  is_subset_trans null null w h k = k
  is_subset_trans (bool a) (bool b) (bool c) h k = same_bool_trans a b c h k
  is_subset_trans (num a) (num b) (num c) h k = ground arith
  is_subset_trans (str a) (str b) (str c) h k = ground (arith, eq_iff a b, eq_iff b c, eq_iff a c)
  is_subset_trans (arr us) (arr vs) (arr ws) h k = subset_items_trans us vs ws h k
  is_subset_trans (obj us) (obj vs) (obj ws) h k = subset_fields_trans us vs ws h k
  is_subset_trans u v w h k = ground arith

  subset_items_trans :
      (us vs ws : Items)
      → subset_items us vs ≡ true
      → subset_items vs ws ≡ true
      → subset_items us ws ≡ true
  subset_items_trans nil nil ws h k = k
  subset_items_trans (cons u us) (cons v vs) (cons w ws) h k =
      let (first, others) = and-parts (is_subset u v) (subset_items us vs) h in
      let (second, rest) = and-parts (is_subset v w) (subset_items vs ws) k in
      and-both (is_subset u w) (subset_items us ws) (is_subset_trans u v w first second)
        (subset_items_trans us vs ws others rest)
  subset_items_trans us vs ws h k = ground arith

  subset_fields_trans :
      (us vs ws : Fields)
      → subset_fields us vs ≡ true
      → subset_fields vs ws ≡ true
      → subset_fields us ws ≡ true
  subset_fields_trans end vs ws h k = refl
  subset_fields_trans (field key u us) vs ws h k =
      let (first, others) =
        and-parts (subset_at u (field_of key vs)) (subset_fields us vs)
          (sym (subset_fields-field key u us vs) ∙ h) in
      subset_fields-field key u us ws
      ∙ and-both (subset_at u (field_of key ws)) (subset_fields us ws)
          (subset_at_trans u (field_of key vs) (field_of key ws) (λ v w. is_subset_trans u v w)
            first (λ v there. subset_fields-field_of vs ws key v k there))
          (subset_fields_trans us vs ws others k)

-- A wait for a type of event is satisfied by every event that satisfies the wait for the same type with a pattern of which its own is a subset.
pub matches_wait-is_subset :
    (event : EventEnvelope) (type : String) (loose tight : Json)
    → is_subset loose tight ≡ true
    → matches_wait event (on_type type (some tight)) ≡ true
    → matches_wait event (on_type type (some loose)) ≡ true
unfolding matches_wait payload_matches
matches_wait-is_subset event type loose tight h k =
    let (same, fits) = and-parts (type == type_name event.type) (is_subset tight event.payload) k in
    and-both (type == type_name event.type) (is_subset loose event.payload) same
      (is_subset_trans loose tight event.payload h fits)
