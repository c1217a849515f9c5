-- ===== src/ClosureBundle/Notes.antt =====
-- src/closure_bundle.rs: when the loops of the verifier push no error, and which node they index.
use mathlib.Core.List
use vertrule_verifier.Prelude.{
  ◌≡◌, ◌↔◌, refl, ap, ◌∙◌, true, String, some, List, [], ◌∷◌, ok, arith, str_eq, eq_iff, All,
  append-ne-nil, Bool-cases, Result-cases, inl, inr, &&-true_iff,
}
use vertrule_verifier.Prelude.Map
use vertrule_verifier.Prelude.Map.{get-insert}
use vertrule_verifier.Prelude.StringSet.{equal}
use vertrule_verifier.Json.{Value}
use vertrule_verifier.External.{External}
use vertrule_verifier.Support.{Packs, read_event_hash}
use vertrule_verifier.LayeredPack.Report.{EdgeCheck, is_resolved}
use vertrule_verifier.ClosureGraph.{node_of, insert_node}
use vertrule_verifier.ClosureGraph.Grounded.{IsResolvedCheck}
use vertrule_verifier.ClosureBundle.{IndexState, insert_all, indexed, ignored}
use vertrule_verifier.ClosureBundle.Report.{edge_errors, ClosureBundle}

pub edge_errors-nil_iff : (cs : List EdgeCheck) → (edge_errors cs ≡ []) ↔ All IsResolvedCheck cs
edge_errors-nil_iff [] = (λ h. tt, λ h. refl)
edge_errors-nil_iff (c ∷ cs) =
    let rest = edge_errors-nil_iff cs in
    elim (Bool-cases (is_resolved c.status)) [
      | inl p ↦ rw p (λ h. (refl, rest.0 h), λ h. rest.1 h.1)
      | inr p ↦ rw p (λ h. cc, λ h. cc h.0)
    ]

pub equal_iff : (s t : List String) → (equal s t ≡ true) ↔ (s ≡ t)
unfolding equal
equal_iff [] [] = (λ h. refl, λ h. refl)
equal_iff [] (k ∷ t) = (λ h. cc, λ h. cc)
equal_iff (j ∷ s) [] = (λ h. cc, λ h. cc)
equal_iff (j ∷ s) (k ∷ t) =
    let both = &&-true_iff (str_eq j k) (equal s t) in
    let rest = equal_iff s t in
    let same = eq_iff j k in
    (
      λ h. let (a, b) = both.0 h in let p = same.0 a in let q = rest.0 b in cc (p, q),
      λ h. both.1 (same.1 (cc h), rest.1 (cc h)),
    )

module _ ⦃x : External⦄ ⦃p : Packs⦄ where
  open x use {Number, from_str}

  abbrev pub IsJson : String → Type 0
  IsJson raw = (v : Value Number) × (from_str raw ≡ ok v)

  pub insert_all-nil_iff :
      (raws : List String) (s : IndexState)
      → ((insert_all raws s).errors ≡ []) ↔ ((s.errors ≡ []) × All IsJson raws)
  unfolding insert_all
  insert_all-nil_iff [] s = (λ h. (h, tt), λ h. h.0)
  insert_all-nil_iff (raw ∷ rest) s = elim (Result-cases (from_str raw)) [
    | inl (v, q) ↦
        let others = insert_all-nil_iff rest (record s { index = insert_node s.index v raw }) in
        rw (insert_all, q)
          (λ h. let (a, b) = others.0 h in (a, ((v, refl), b)), λ h. others.1 (h.0, h.1.1))
    | inr (e, q) ↦
        let others =
          insert_all-nil_iff rest (record s { errors = List.◌++◌ s.errors (ignored ∷ []) }) in
        rw (insert_all, q)
          (λ h. absurd (append-ne-nil s.errors ignored (others.0 h).0), λ h. cc h.1.0.1)
  ]

  -- The errors that are there before do not change the graph.
  pub insert_all-index :
      (raws : List String) (s t : IndexState)
      → s.index ≡ t.index
      → (insert_all raws s).index ≡ (insert_all raws t).index
  unfolding insert_all
  insert_all-index [] s t same = same
  insert_all-index (raw ∷ rest) s t same = elim (Result-cases (from_str raw)) [
    | inl (v, q) ↦
        rw (insert_all, q)
          (insert_all-index rest (record s { index = insert_node s.index v raw })
            (record t { index = insert_node t.index v raw }) (ap (λ m. insert_node m v raw) same))
    | inr (e, q) ↦
        rw (insert_all, q)
          (insert_all-index rest (record s { errors = List.◌++◌ s.errors (ignored ∷ []) })
            (record t { errors = List.◌++◌ t.errors (ignored ∷ []) }) same)
  ]

  insert_all-last :
      (raws : List String) (s : IndexState) (raw h : String) (v : Value Number)
      → from_str raw ≡ ok v
      → read_event_hash v ≡ some h
      → Map.get (insert_all (List.◌++◌ raws (raw ∷ [])) s).index h ≡ some (node_of v raw)
  unfolding insert_all insert_node
  insert_all-last [] s raw h v parsed reads =
      let inserted = get-insert s.index h h (node_of v raw) in
      rw (insert_all, parsed, insert_node, reads) (inserted ∙ ground (arith, eq_iff h h))
  insert_all-last (first ∷ rest) s raw h v parsed reads =
      insert_all-last rest _ raw h v parsed reads

  -- The last supplied receipt is the node of the event hash that it states, even where that is the
  -- hash of the root, and whether or not it verifies.
  pub indexed-last :
      (bundle : ClosureBundle Number) (root_value : Value Number) (errors : List String)
      (raws : List String) (raw h : String) (v : Value Number)
      → bundle.receipts ≡ List.◌++◌ raws (raw ∷ [])
      → from_str raw ≡ ok v
      → read_event_hash v ≡ some h
      → Map.get (indexed bundle root_value errors).index h ≡ some (node_of v raw)
  indexed-last bundle root_value errors raws raw h v ends parsed reads =
      rw ends (insert_all-last raws _ raw h v parsed reads)
