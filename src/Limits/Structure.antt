-- ===== src/Limits/Structure.antt =====
-- src/limits.rs: what `check_structure` accepts, by measures of the value.
use vertrule_verifier.Prelude.{ℕ, ◌+◌, ◌≤◌, max, ◌≡◌, ◌↔◌, ◌∙◌, ap, ok, arith, length, >>=-eq-ok}
use vertrule_verifier.Json.{
  Value, Items, Fields, array, object, nil, cons, end, field, items, entries,
}
use vertrule_verifier.Limits.{
  VerifierLimits, LimitViolation, enter, bounded, walk, walk_items, walk_fields, check_structure,
}

-- The number of nodes of a value.
unfoldable mutual
  pub nodes : {N : Type 0} → Value N → ℕ
  nodes (object fs) = 1 + nodes_fields fs
  nodes (array xs) = 1 + nodes_items xs
  nodes _ = 1

  pub nodes_items : {N : Type 0} → Items N → ℕ
  nodes_items nil = 0
  nodes_items (cons v vs) = nodes v + nodes_items vs

  pub nodes_fields : {N : Type 0} → Fields N → ℕ
  nodes_fields end = 0
  nodes_fields (field k v fs) = nodes v + nodes_fields fs

-- The number of levels below a value.
unfoldable mutual
  pub height : {N : Type 0} → Value N → ℕ
  height (object fs) = height_fields fs
  height (array xs) = height_items xs
  height _ = 0

  pub height_items : {N : Type 0} → Items N → ℕ
  height_items nil = 0
  height_items (cons v vs) = max (1 + height v) (height_items vs)

  pub height_fields : {N : Type 0} → Fields N → ℕ
  height_fields end = 0
  height_fields (field k v fs) = max (1 + height v) (height_fields fs)

-- Every object and every array in a value is within its limit.
unfoldable mutual
  pub IsSized : {N : Type 0} → VerifierLimits → Value N → Type 0
  IsSized limits (object fs) =
      (length (entries fs) ≤ limits.max_object_size) × IsSizedFields limits fs
  IsSized limits (array xs) = (length (items xs) ≤ limits.max_array_size) × IsSizedItems limits xs
  IsSized limits _ = Unit

  pub IsSizedItems : {N : Type 0} → VerifierLimits → Items N → Type 0
  IsSizedItems limits nil = Unit
  IsSizedItems limits (cons v vs) = IsSized limits v × IsSizedItems limits vs

  pub IsSizedFields : {N : Type 0} → VerifierLimits → Fields N → Type 0
  IsSizedFields limits end = Unit
  IsSizedFields limits (field k v fs) = IsSized limits v × IsSizedFields limits fs

enter_sound :
    (l : VerifierLimits) (d c c' : ℕ)
    → enter l d c ≡ ok c'
    → (c' ≡ c + 1) × (d ≤ l.max_depth) × (c' ≤ l.max_node_count)
unfolding enter
enter_sound l d c c' h = ground arith

enter-fits :
    (l : VerifierLimits) (d c : ℕ)
    → d ≤ l.max_depth
    → c + 1 ≤ l.max_node_count
    → enter l d c ≡ ok (c + 1)
unfolding enter
enter-fits l d c hd hc = ground arith

bounded_sound :
    (n limit : ℕ) (violation : ℕ → ℕ → LimitViolation) (c c' : ℕ)
    → bounded n limit violation c ≡ ok c'
    → (c' ≡ c) × (n ≤ limit)
unfolding bounded
bounded_sound n limit violation c c' h = ground arith

bounded-fits :
    (n limit : ℕ) (violation : ℕ → ℕ → LimitViolation) (c : ℕ)
    → n ≤ limit
    → bounded n limit violation c ≡ ok c
unfolding bounded
bounded-fits n limit violation c h = ground arith

-- What a successful walk has seen: from a value at level `d`, with `c` nodes counted before.
mutual
  unfolding walk nodes height IsSized

  walk_sound :
      {N : Type 0} (v : Value N) (l : VerifierLimits) (d c c' : ℕ)
      → walk v l d c ≡ ok c'
      → (c' ≡ c + nodes v) × (d + height v ≤ l.max_depth) × (c' ≤ l.max_node_count) × IsSized l v
  walk_sound (object fs) l d c c' h =
      let (a, p, q) = >>=-eq-ok (enter l d c) _ h in
      let (b, r, t) = >>=-eq-ok (bounded _ _ _ a) _ q in
      let (counted, shallow, few) = enter_sound l d c a p in
      let (same, small) = bounded_sound _ _ _ a b r in
      let (all, low, within, sized) =
        walk_fields_sound fs l (d + 1) b c' t (omega arith) (omega arith) in
      (omega arith, omega arith, within, (small, sized))
  walk_sound (array xs) l d c c' h =
      let (a, p, q) = >>=-eq-ok (enter l d c) _ h in
      let (b, r, t) = >>=-eq-ok (bounded _ _ _ a) _ q in
      let (counted, shallow, few) = enter_sound l d c a p in
      let (same, small) = bounded_sound _ _ _ a b r in
      let (all, low, within, sized) =
        walk_items_sound xs l (d + 1) b c' t (omega arith) (omega arith) in
      (omega arith, omega arith, within, (small, sized))
  walk_sound _ l d c c' h =
      let (counted, shallow, few) = enter_sound l d c c' h in (counted, omega arith, few, tt)

  walk_items_sound :
      {N : Type 0} (vs : Items N) (l : VerifierLimits) (d c c' : ℕ)
      → walk_items vs l d c ≡ ok c'
      → d ≤ l.max_depth + 1
      → c ≤ l.max_node_count
      → (c' ≡ c + nodes_items vs)
        × (d + height_items vs ≤ l.max_depth + 1)
        × (c' ≤ l.max_node_count)
        × IsSizedItems l vs
  walk_items_sound nil l d c c' h hd hc = ground arith
  walk_items_sound (cons v vs) l d c c' h hd hc =
      let (a, p, q) = >>=-eq-ok (walk v l d c) _ h in
      let (counted, shallow, few, sized) = walk_sound v l d c a p in
      let (all, low, within, rest) = walk_items_sound vs l d a c' q hd few in
      (omega arith, omega arith, within, (sized, rest))

  walk_fields_sound :
      {N : Type 0} (fs : Fields N) (l : VerifierLimits) (d c c' : ℕ)
      → walk_fields fs l d c ≡ ok c'
      → d ≤ l.max_depth + 1
      → c ≤ l.max_node_count
      → (c' ≡ c + nodes_fields fs)
        × (d + height_fields fs ≤ l.max_depth + 1)
        × (c' ≤ l.max_node_count)
        × IsSizedFields l fs
  walk_fields_sound end l d c c' h hd hc = ground arith
  walk_fields_sound (field k v fs) l d c c' h hd hc =
      let (a, p, q) = >>=-eq-ok (walk v l d c) _ h in
      let (counted, shallow, few, sized) = walk_sound v l d c a p in
      let (all, low, within, rest) = walk_fields_sound fs l d a c' q hd few in
      (omega arith, omega arith, within, (sized, rest))

-- A value within the limits is walked to its end.
mutual
  unfolding walk nodes height IsSized

  walk-fits :
      {N : Type 0} (v : Value N) (l : VerifierLimits) (d c : ℕ)
      → d + height v ≤ l.max_depth
      → c + nodes v ≤ l.max_node_count
      → IsSized l v
      → walk v l d c ≡ ok (c + nodes v)
  walk-fits (object fs) l d c hd hc sized = rw (enter-fits l d c (omega arith) (omega arith)) (
      rw (bounded-fits _ _ _ (c + 1) sized.0) (
        walk_fields-fits fs l (d + 1) (c + 1) (omega arith) (omega arith) sized.1
        ∙ ap ok (omega arith)))
  walk-fits (array xs) l d c hd hc sized = rw (enter-fits l d c (omega arith) (omega arith)) (
      rw (bounded-fits _ _ _ (c + 1) sized.0) (
        walk_items-fits xs l (d + 1) (c + 1) (omega arith) (omega arith) sized.1
        ∙ ap ok (omega arith)))
  walk-fits _ l d c hd hc sized = enter-fits l d c (omega arith) hc

  walk_items-fits :
      {N : Type 0} (vs : Items N) (l : VerifierLimits) (d c : ℕ)
      → d + height_items vs ≤ l.max_depth + 1
      → c + nodes_items vs ≤ l.max_node_count
      → IsSizedItems l vs
      → walk_items vs l d c ≡ ok (c + nodes_items vs)
  walk_items-fits nil l d c hd hc sized = ap ok (omega arith)
  walk_items-fits (cons v vs) l d c hd hc sized =
      rw (walk-fits v l d c (omega arith) (omega arith) sized.0) (
        walk_items-fits vs l d (c + nodes v) (omega arith) (omega arith) sized.1
        ∙ ap ok (omega arith))

  walk_fields-fits :
      {N : Type 0} (fs : Fields N) (l : VerifierLimits) (d c : ℕ)
      → d + height_fields fs ≤ l.max_depth + 1
      → c + nodes_fields fs ≤ l.max_node_count
      → IsSizedFields l fs
      → walk_fields fs l d c ≡ ok (c + nodes_fields fs)
  walk_fields-fits end l d c hd hc sized = ap ok (omega arith)
  walk_fields-fits (field k v fs) l d c hd hc sized =
      rw (walk-fits v l d c (omega arith) (omega arith) sized.0) (
        walk_fields-fits fs l d (c + nodes v) (omega arith) (omega arith) sized.1
        ∙ ap ok (omega arith))

-- The three measures that the limits bound.
abbrev pub IsWithin : {N : Type 0} → VerifierLimits → Value N → Type 0
IsWithin l v = (height v ≤ l.max_depth) × (nodes v ≤ l.max_node_count) × IsSized l v

-- `check_structure` accepts a value exactly when its height is at most `max_depth`, it has at most
-- `max_node_count` nodes, and every object and every array in it is within its own limit.
pub check_structure-ok_iff :
    {N : Type 0} (v : Value N) (l : VerifierLimits) → (check_structure v l ≡ ok tt) ↔ IsWithin l v
unfolding check_structure
check_structure-ok_iff v l = (
  λ h.
      let (c, p, q) = >>=-eq-ok (walk v l 0 0) _ h in
      let (counted, shallow, few, sized) = walk_sound v l 0 0 c p in
      (omega arith, omega arith, sized),
  λ h. rw (walk-fits v l 0 0 (omega arith) (omega arith) h.2),
)
