-- ===== src/Workflow/Cycle/Sorted.antt =====
-- Nodes in an order in which every edge into a node comes from an earlier one: no cycle meets them.
use qingzhou_ssh.Prelude.{
  ℕ, ◌≡◌, refl, sym, subst, true, false, List, [], ◌∷◌, arith, ◌==◌, ==_iff, Bool-cases, inl, inr,
}
use qingzhou_ssh.Workflow.Graph.{WorkflowEdge, is_member}
use qingzhou_ssh.Workflow.Graph.Reach.{Leads, Reaches, at_start, along}
use qingzhou_ssh.Workflow.Cycle.Counting.{is_member_cons}

-- The latest node comes first in the list.
abbrev pub IsSorted : List WorkflowEdge → List ℕ → Type 0
IsSorted edges [] = Unit
IsSorted edges (d ∷ ds) = ((a : ℕ) → Leads edges a d → is_member a ds ≡ true) × IsSorted edges ds

not_in_nil : (x : ℕ) → is_member x [] ≡ false
unfolding is_member
not_in_nil x = refl

Leads-back :
    (edges : List WorkflowEdge) (ds : List ℕ) (a b : ℕ)
    → IsSorted edges ds
    → Leads edges a b
    → is_member b ds ≡ true
    → is_member a ds ≡ true
Leads-back edges [] a b s l m = absurd (ground (arith, (rw (not_in_nil b) at m)))
Leads-back edges (d ∷ ds) a b s l m = elim (Bool-cases (d == b)) [
  | inl own ↦
      let before : is_member a ds ≡ true =
        s.0 a (subst (λ x. Leads edges a x) (sym ((==_iff d b).0 own)) l) in
      rw (is_member_cons a d ds) ground (arith, before)
  | inr other ↦
      let among : is_member b ds ≡ true = rw other at (rw (is_member_cons b d ds) at m) in
      let before = Leads-back edges ds a b s.1 l among in
      rw (is_member_cons a d ds) ground (arith, before)
]

Reaches-back :
    (edges : List WorkflowEdge) (ds : List ℕ) (b : ℕ) {a : ℕ}
    → IsSorted edges ds
    → Reaches edges b a
    → is_member a ds ≡ true
    → is_member b ds ≡ true
Reaches-back edges ds b s at_start m = m
Reaches-back edges ds b s (along r l) m =
    Reaches-back edges ds b s r (Leads-back edges ds _ _ s l m)

pub IsSorted-acyclic :
    (edges : List WorkflowEdge) (ds : List ℕ) (a b : ℕ)
    → IsSorted edges ds
    → is_member b ds ≡ true
    → Leads edges a b
    → ¬ (Reaches edges b a)
IsSorted-acyclic edges [] a b s m l r = absurd (ground (arith, (rw (not_in_nil b) at m)))
IsSorted-acyclic edges (d ∷ ds) a b s m l r = elim (Bool-cases (d == b)) [
  | inl own ↦
      let before : is_member a ds ≡ true =
        s.0 a (subst (λ x. Leads edges a x) (sym ((==_iff d b).0 own)) l) in
      IsSorted-acyclic edges ds a b s.1 (Reaches-back edges ds b s.1 r before) l r
  | inr other ↦
      IsSorted-acyclic edges ds a b s.1 (rw other at (rw (is_member_cons b d ds) at m)) l r
]
