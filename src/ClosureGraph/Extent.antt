-- ===== src/ClosureGraph/Extent.antt =====
-- src/closure_bundle.rs: the nodes that a walk has not reached yet, and that a walk only adds.
use vertrule_verifier.Prelude.{
  ℕ, zero, suc, ◌+◌, ◌≤◌, ◌<◌, ◌≡◌, true, false, String, some, List, [], ◌∷◌, arith, length, str_eq,
  eq_iff, if◌then◌else◌, Bool-cases, Option-cases, inl, inr, ap, ◌∙◌,
}
use vertrule_verifier.Prelude.Map
use vertrule_verifier.Prelude.Map.{Map}
use vertrule_verifier.Prelude.StringSet.{contains, insert, contains-insert}
use vertrule_verifier.External.{External}
use vertrule_verifier.Support.{SupportMember, typed_receipt_dependency, depended_on_receipt, Packs}
use vertrule_verifier.LayeredPack.Report.{is_resolved}
use vertrule_verifier.ClosureGraph.{
  WalkState, Node, visit_member, visit_members, walk, typed_check, push_check, enter,
}

-- Every member of the first set is one of the second.
abbrev pub IsWithin : List String → List String → Type 0
IsWithin r q = (j : String) → contains r j ≡ true → contains q j ≡ true

pub IsWithin-insert : (r : List String) (h : String) → IsWithin r (insert r h)
IsWithin-insert r h j p = let step = contains-insert r h j in ground (arith, p, step)

-- The number of keys of a map that are not in a set.
abbrev pub unreached {ℓ} : {V : Type ℓ} → Map V → List String → ℕ
unreached [] r = 0
unreached ((k, v) ∷ m) r = (if contains r k then 0 else 1) + unreached m r

pub unreached-le-length {ℓ} : {V : Type ℓ} (m : Map V) (r : List String) → unreached m r ≤ length m
unreached-le-length [] r = omega arith
unreached-le-length ((k, v) ∷ m) r = let rest = unreached-le-length m r in ground (arith, rest)

pub unreached-within {ℓ} :
    {V : Type ℓ} (m : Map V) (r q : List String) → IsWithin r q → unreached m q ≤ unreached m r
unreached-within [] r q h = omega arith
unreached-within ((k, v) ∷ m) r q h =
    let rest = unreached-within m r q h in
    elim (Bool-cases (contains r k)) [
      | inl p ↦ let also = h k p in ground (arith, p, also, rest)
      | inr p ↦ ground (arith, p, rest)
    ]

pub unreached-insert {ℓ} :
    {V : Type ℓ} (m : Map V) (r : List String) (h : String) (v : V)
    → Map.get m h ≡ some v
    → contains r h ≡ false
    → unreached m (insert r h) < unreached m r
unfolding Map.get
unreached-insert [] r h v p q = cc p
unreached-insert ((k, w) ∷ m) r h v p q =
    let here = contains-insert r h k in
    let same = eq_iff k h in
    let back = eq_iff h k in
    elim (Bool-cases (str_eq k h)) [
      | inl e ↦
          let fewer = unreached-within m r (insert r h) (IsWithin-insert r h) in
          let now : contains r k ≡ false = ap (contains r) (same.0 e) ∙ q in
          let then_in : contains (insert r h) k ≡ true = ground (arith, here, same, back, e) in
          rw (now, then_in) (omega (arith, fewer))
      | inr e ↦
          let found : Map.get m h ≡ some v = ground (arith, p, e) in
          let rest = unreached-insert m r h v found q in
          let other : contains (insert r h) k ≡ contains r k =
            ground (arith, here, same, back, e) in
          rw other (omega (arith, rest))
    ]

module _ ⦃x : External⦄ ⦃p : Packs⦄ where
  open p use {Role}

  module _ (step : String → WalkState → WalkState) (index : Map Node)
      (grows : (h : String) (s : WalkState) → IsWithin s.reachable (step h s).reachable) where
    pub visit_member-IsWithin :
        (member : SupportMember Role) (s : WalkState)
        → IsWithin s.reachable (visit_member step index member s).reachable
    unfolding visit_member
    visit_member-IsWithin (typed_receipt_dependency h role target) s j q =
        let edge = typed_check index h role target in
        elim (Bool-cases (contains s.on_stack h)) [
          | inl a ↦ rw (visit_member, a) q
          | inr a ↦ elim (Bool-cases (is_resolved edge.status)) [
            | inl b ↦ rw (visit_member, a, b) (grows h (push_check edge s) j q)
            | inr b ↦ rw (visit_member, a, b) q
          ]
        ]
    visit_member-IsWithin (depended_on_receipt h) s j q = q
    visit_member-IsWithin _ s j q = q

    pub visit_members-IsWithin :
        (members : List (SupportMember Role)) (s : WalkState)
        → IsWithin s.reachable (visit_members step index members s).reachable
    unfolding visit_members
    visit_members-IsWithin [] s j q = q
    visit_members-IsWithin (member ∷ rest) s j q =
        visit_members-IsWithin rest (visit_member step index member s) j
          (visit_member-IsWithin member s j q)

  pub walk-IsWithin :
      (fuel : ℕ) (index : Map Node) (h : String) (s : WalkState)
      → IsWithin s.reachable (walk fuel index h s).reachable
  unfolding walk
  walk-IsWithin zero index h s j q = q
  walk-IsWithin (suc fuel) index h s j q = elim (Bool-cases (contains s.reachable h)) [
    | inl a ↦ rw (walk, a) q
    | inr a ↦
        let entered = IsWithin-insert s.reachable h j q in
        elim (Option-cases (Map.get index h)) [
          | inl b ↦ rw (walk, a, b) entered
          | inr (node, b) ↦
              rw (walk, a, b)
                (visit_members-IsWithin (walk fuel index) index (walk-IsWithin fuel index)
                  node.support_set (enter h s) j entered)
        ]
  ]
