-- ===== src/Prelude/StringSet/Ascending.antt =====
-- The lists that stand for sets of texts are ascending, so they are equal where they have the same
-- members.
use Prim.Native.String.{String}
use mathlib.Core.Path.{◌≡◌, refl, sym, ◌∙◌, subst}
use mathlib.Core.Logic.{◌≢◌, inl, inr}
use mathlib.Core.Bool.{true, false}
use mathlib.Core.List.{List, [], ◌∷◌}
use native.Mathlib.Omega.{arith}
use text.Mathlib.Text.{◌==◌ as str_eq}
use text.Mathlib.TextEquality.{eq_iff}
use vertrule_verifier.Prelude.Tests.{Bool-cases}
use vertrule_verifier.Prelude.Lists.{All}
use vertrule_verifier.Prelude.StringSet.{before, contains, insert, remove, collect}
use vertrule_verifier.Prelude.StringSet.Order.{before_irrefl, before_trans, before-total}

-- The text stands before every member.
abbrev pub IsBelow : String → List String → Type 0
IsBelow j s = All (λ k. before j k ≡ true) s

abbrev pub IsAscending : List String → Type 0
IsAscending [] = Unit
IsAscending (j ∷ s) = IsBelow j s × IsAscending s

insert-IsBelow :
    (j k : String) (s : List String) → IsBelow j s → before j k ≡ true → IsBelow j (insert s k)
unfolding insert
insert-IsBelow j k [] h p = (p, tt)
insert-IsBelow j k (i ∷ s) h p =
    let rest = insert-IsBelow j k s h.1 p in
    elim (Bool-cases (str_eq i k)) [
      | inl e ↦ rw (insert, e) h
      | inr e ↦ elim (Bool-cases (before k i)) [
        | inl b ↦ rw (insert, e, b) (p, h)
        | inr b ↦ rw (insert, e, b) (h.0, rest)
      ]
    ]

IsBelow-trans : (j k : String) (s : List String) → before j k ≡ true → IsBelow k s → IsBelow j s
IsBelow-trans j k [] p h = tt
IsBelow-trans j k (i ∷ s) p h = (before_trans j k i p h.0, IsBelow-trans j k s p h.1)

pub insert-IsAscending : (s : List String) (k : String) → IsAscending s → IsAscending (insert s k)
unfolding insert
insert-IsAscending [] k h = (tt, tt)
insert-IsAscending (i ∷ s) k h =
    let rest = insert-IsAscending s k h.1 in
    elim (Bool-cases (str_eq i k)) [
      | inl e ↦ rw (insert, e) h
      | inr e ↦ elim (Bool-cases (before k i)) [
        | inl b ↦ rw (insert, e, b) ((b, IsBelow-trans k i s b h.0), h)
        | inr b ↦
            let ne : k ≢ i = λ q. cc (e, (eq_iff i k).1 (sym q)) in
            rw (insert, e, b) (insert-IsBelow i k s h.0 (before-total k i ne b), rest)
      ]
    ]

remove-IsBelow : (j k : String) (s : List String) → IsBelow j s → IsBelow j (remove s k)
unfolding remove
remove-IsBelow j k [] h = tt
remove-IsBelow j k (i ∷ s) h =
    let rest = remove-IsBelow j k s h.1 in
    elim (Bool-cases (str_eq i k)) [
      | inl e ↦ rw (remove, e) rest
      | inr e ↦ rw (remove, e) (h.0, rest)
    ]

pub remove-IsAscending : (s : List String) (k : String) → IsAscending s → IsAscending (remove s k)
unfolding remove
remove-IsAscending [] k h = tt
remove-IsAscending (i ∷ s) k h =
    let rest = remove-IsAscending s k h.1 in
    elim (Bool-cases (str_eq i k)) [
      | inl e ↦ rw (remove, e) rest
      | inr e ↦ rw (remove, e) (remove-IsBelow i k s h.0, rest)
    ]

pub collect-IsAscending : (s ks : List String) → IsAscending s → IsAscending (collect s ks)
collect-IsAscending s [] h = h
collect-IsAscending s (k ∷ ks) h = collect-IsAscending (insert s k) ks (insert-IsAscending s k h)

-- A member of a list stands after what stands before the list.
IsBelow-member :
    (j k : String) (s : List String) → IsBelow j s → contains s k ≡ true → before j k ≡ true
unfolding contains
IsBelow-member j k [] h q = cc q
IsBelow-member j k (i ∷ s) h q = elim (Bool-cases (str_eq i k)) [
  | inl e ↦ subst (λ t. before j t ≡ true) ((eq_iff i k).0 e) h.0
  | inr e ↦ IsBelow-member j k s h.1 (ground (arith, e, q))
]

not_member : (j : String) (s : List String) → IsBelow j s → contains s j ≡ false
not_member j s h = elim (Bool-cases (contains s j)) [
  | inl q ↦ cc (IsBelow-member j j s h q, before_irrefl j)
  | inr q ↦ q
]

abbrev pub SameMembers : List String → List String → Type 0
SameMembers s t = (k : String) → contains s k ≡ contains t k

has_first : (j : String) (s : List String) → contains (j ∷ s) j ≡ true
unfolding contains
has_first j s = ground (arith, eq_iff j j)

-- The first members of ascending lists with the same members are the same.
first_same :
    (j k : String) (s t : List String)
    → IsBelow j s
    → IsBelow k t
    → SameMembers (j ∷ s) (k ∷ t)
    → j ≡ k
unfolding contains
first_same j k s t h l same = elim (Bool-cases (str_eq j k)) [
  | inl e ↦ (eq_iff j k).0 e
  | inr e ↦
      let in_t : contains t j ≡ true =
        ground (arith, same j, has_first j s, e, eq_iff j k, eq_iff k j) in
      let in_s : contains s k ≡ true = ground (arith, same k, has_first k t, e) in
      let up = IsBelow-member k j t l in_t in
      let down = IsBelow-member j k s h in_s in cc (before_trans j k j down up, before_irrefl j)
]

rest_same :
    (j : String) (s t : List String)
    → IsBelow j s
    → IsBelow j t
    → SameMembers (j ∷ s) (j ∷ t)
    → SameMembers s t
unfolding contains
rest_same j s t h l same k = elim (Bool-cases (str_eq j k)) [
  | inr e ↦ ground (arith, same k, e)
  | inl e ↦
      let first = (eq_iff j k).0 e in
      subst (λ i. contains s i ≡ contains t i) first (not_member j s h ∙ sym (not_member j t l))
]

pub SameMembers-eq : (s t : List String) → IsAscending s → IsAscending t → SameMembers s t → s ≡ t
unfolding contains
SameMembers-eq [] [] h l same = refl
SameMembers-eq [] (k ∷ t) h l same = cc (same k, has_first k t)
SameMembers-eq (j ∷ s) [] h l same = cc (same j, has_first j s)
SameMembers-eq (j ∷ s) (k ∷ t) h l same =
    let first = first_same j k s t h.0 l.0 same in
    let again : SameMembers (j ∷ s) (j ∷ t) =
      subst (λ i. SameMembers (j ∷ s) (i ∷ t)) (sym first) same in
    let below = subst (λ i. IsBelow i t) (sym first) l.0 in
    let rest = SameMembers-eq s t h.1 l.1 (rest_same j s t h.0 below again) in cc (first, rest)
