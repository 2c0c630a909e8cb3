-- ===== src/Workflow/Validation/Branches.antt =====
-- In a workflow that passes validation the next node is never in doubt.
use qingzhou_ssh.Prelude.{
  ℕ, ◌+◌, ◌≤◌, ◌≡◌, refl, subst, inl, inr, String, Bool, true, ◌&&◌, Option, none, some, List, [],
  ◌∷◌, filter, count, count-le-length, length, arith, ◌==◌, if◌then◌else◌, Bool-cases, Any, here,
  there,
}
use qingzhou_ssh.Prelude.Result.{ok}
use qingzhou_ssh.Error.{AppError, AppResult}
use qingzhou_ssh.Workflow.Graph.{
  WorkflowNode, WorkflowNodeConfig, start, task, custom, upload, download, log_search, condition,
  stop, WorkflowEdge, WorkflowEdgeBranch, success, true_branch, false_branch, same_branch, outgoing,
  only_target, branch_of, next_node,
}
use qingzhou_ssh.Workflow.Validation.{
  is_empty, branch_diagnostics, all_branch_diagnostics, ids_of, validate_workflow,
}
use qingzhou_ssh.Workflow.Validation.Valid.{empty_parts, valid_branches}

abbrev pub on : WorkflowEdgeBranch → List WorkflowEdge → ℕ
on branch out = count (λ e. same_branch e.branch branch) out

one_branch :
    (b : WorkflowEdgeBranch)
    → (if same_branch b success then 1 else 0)
        + (if same_branch b true_branch then 1 else 0)
        + (if same_branch b false_branch then 1 else 0)
      ≡ 1
unfolding same_branch
one_branch success = refl
one_branch true_branch = refl
one_branch false_branch = refl

empty_short : (out : List WorkflowEdge) → is_empty out ≡ true → length out ≤ 1
empty_short [] h = omega arith
empty_short (e ∷ out) h = cc

three_branches :
    (out : List WorkflowEdge)
    → on success out + on true_branch out + on false_branch out ≡ length out
three_branches [] = omega arith
three_branches (e ∷ out) = omega (arith, one_branch e.branch, three_branches out)

on_one :
    (branch : WorkflowEdgeBranch) (out : List WorkflowEdge) → length out ≤ 1 → on branch out ≤ 1
on_one branch out h = omega (arith, h, count-le-length (λ e. same_branch e.branch branch) out)

on_two :
    (branch : WorkflowEdgeBranch) (out : List WorkflowEdge)
    → length out ≡ 2
    → on true_branch out ≡ 1
    → on false_branch out ≡ 1
    → on branch out ≤ 1
on_two success out h t f = omega (arith, h, t, f, three_branches out)
on_two true_branch out h t f = omega (arith, t)
on_two false_branch out h t f = omega (arith, f)

length-filter :
    (c : ℕ) (branch : WorkflowEdgeBranch) (edges : List WorkflowEdge)
    → length (filter (λ e. e.source == c && same_branch e.branch branch) edges)
      ≡ on branch (outgoing edges c)
unfolding outgoing
length-filter c branch [] = refl
length-filter c branch (e ∷ edges) =
    let ih = length-filter c branch edges in
    elim (Bool-cases (e.source == c)) [
      | inr other ↦ rw other ih
      | inl own ↦ elim (Bool-cases (same_branch e.branch branch)) [
        | inl hit ↦ rw (own, hit) (omega (arith, ih))
        | inr miss ↦ rw (own, miss) (omega (arith, ih))
      ]
    ]

only_target_total :
    (es : List WorkflowEdge) → length es ≤ 1 → (o : Option ℕ) × (only_target es ≡ ok o)
only_target_total [] h = (none, refl)
only_target_total (e ∷ []) h = (some e.target, refl)
only_target_total (e ∷ (f ∷ es)) h = absurd (omega (arith, h))

module _ {V : Type 0} (ids : List ℕ) (edges : List WorkflowEdge) (id : ℕ) where
  branches_clear :
      (config : WorkflowNodeConfig V) (branch : WorkflowEdgeBranch)
      → is_empty (branch_diagnostics ids edges id config) ≡ true
      → on branch (outgoing edges id) ≤ 1
  unfolding branch_diagnostics
  branches_clear start branch h = on_one branch (outgoing edges id) (ground (arith, h))
  branches_clear (stop message) branch h =
      on_one branch (outgoing edges id) (empty_short (outgoing edges id) (ground (arith, h)))
  branches_clear (condition source predicate) branch h =
      on_two branch (outgoing edges id) (ground (arith, h)) (ground (arith, h)) (ground (arith, h))
  branches_clear (task name version parameters) branch h =
      on_one branch (outgoing edges id) (ground (arith, h))
  branches_clear (custom mode content timeout) branch h =
      on_one branch (outgoing edges id) (ground (arith, h))
  branches_clear (upload local remote overwrite create) branch h =
      on_one branch (outgoing edges id) (ground (arith, h))
  branches_clear (download remote suggested overwrite) branch h =
      on_one branch (outgoing edges id) (ground (arith, h))
  branches_clear (log_search path keyword sensitive lines limit since until) branch h =
      on_one branch (outgoing edges id) (ground (arith, h))

next_node_total :
    (edges : List WorkflowEdge) (current : ℕ) (r : Option Bool)
    → on (branch_of r) (outgoing edges current) ≤ 1
    → (next : Option ℕ) × (next_node edges current r ≡ ok next)
unfolding next_node
next_node_total edges current r h =
    only_target_total _ (omega (arith, h, length-filter current (branch_of r) edges))

module _ {F V : Type 0} where
  all_clear :
      (ids : List ℕ) (edges : List WorkflowEdge) (nodes : List (WorkflowNode F V)) (id : ℕ)
      (branch : WorkflowEdgeBranch)
      → is_empty (all_branch_diagnostics ids edges nodes) ≡ true
      → Any (λ n. n.id ≡ id) nodes
      → on branch (outgoing edges id) ≤ 1
  unfolding all_branch_diagnostics
  all_clear ids edges [] id branch h l = elim l [ ]
  all_clear ids edges (n ∷ ns) id branch h (here this) =
      let parts =
        empty_parts (branch_diagnostics ids edges n.id n.config)
          (all_branch_diagnostics ids edges ns) h in
      subst (λ x. on branch (outgoing edges x) ≤ 1) this
        (branches_clear ids edges n.id n.config branch parts.0)
  all_clear ids edges (n ∷ ns) id branch h (there l) =
      let parts =
        empty_parts (branch_diagnostics ids edges n.id n.config)
          (all_branch_diagnostics ids edges ns) h in
      all_clear ids edges ns id branch parts.1 l

  -- In a workflow that is reported valid every node has at most one next node for each result it may
  -- have: `next_node` gives no error, whatever the order in which the hash map gives its keys.
  pub valid-next_node :
      (validate_node : WorkflowNode F V → AppResult (Unit {0})) (display : AppError → String)
      (order : List ℕ) (nodes : List (WorkflowNode F V)) (edges : List WorkflowEdge) (current : ℕ)
      (r : Option Bool)
      → (validate_workflow validate_node display order nodes edges).valid ≡ true
      → Any (λ n. n.id ≡ current) nodes
      → (next : Option ℕ) × (next_node edges current r ≡ ok next)
  valid-next_node validate_node display order nodes edges current r valid known =
      next_node_total edges current r (
        all_clear (ids_of nodes) edges nodes current (branch_of r)
          (valid_branches validate_node display order nodes edges valid) known)
