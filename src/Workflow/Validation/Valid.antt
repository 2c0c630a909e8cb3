-- ===== src/Workflow/Validation/Valid.antt =====
-- What a workflow is that passes validation.
use qingzhou_ssh.Prelude.{
  ℕ, ◌+◌, ◌≤◌, ◌≡◌, refl, sym, ap, ◌∙◌, subst, inl, inr, String, true, false, Option, some, List,
  [], ◌∷◌, ◌++◌, filter, length, arith, ◌==◌, Bool-cases, &&_parts, All, here, there,
}
use qingzhou_ssh.Error.{AppError, AppResult}
use qingzhou_ssh.Workflow.Graph.{WorkflowNode, WorkflowEdge, is_member, reachable_from}
use qingzhou_ssh.Workflow.Graph.Reach.{Leads, Reaches, reachable_from-Reaches}
use qingzhou_ssh.Workflow.Cycle.{has_cycle}
use qingzhou_ssh.Workflow.Cycle.Counting.{fresh_once, occurs, is_member-occurs}
use qingzhou_ssh.Workflow.Cycle.Search.{has_cycle-acyclic}
use qingzhou_ssh.Workflow.Validation.{
  is_empty, joins, edge_diagnostics, ids_of, is_start, only_id, start_node_id_of,
  unreachable_diagnostics, self_part, duplicate_part, unreachable_part, terminal_part,
  repeated_part, limit_part, start_part, cycle_part, reach_diagnostics, node_error,
  node_diagnostics, validate_workflow, all_branch_diagnostics,
}

pub empty_parts :
    {A : Type 0} (xs ys : List A)
    → is_empty (xs ++ ys) ≡ true
    → (is_empty xs ≡ true) × (is_empty ys ≡ true)
empty_parts [] ys h = (refl, h)
empty_parts (x ∷ xs) ys h = cc

seven_parts :
    {A : Type 0} (a b c d e f g : List A)
    → is_empty (a ++ (b ++ (c ++ (d ++ (e ++ (f ++ g)))))) ≡ true
    → (is_empty a ≡ true)
      × (is_empty b ≡ true)
      × (is_empty c ≡ true)
      × (is_empty d ≡ true)
      × (is_empty f ≡ true)
      × (is_empty g ≡ true)
seven_parts a b c d e f g h =
    let p0 = empty_parts a _ h in
    let p1 = empty_parts b _ p0.1 in
    let p2 = empty_parts c _ p1.1 in
    let p3 = empty_parts d _ p2.1 in
    let p4 = empty_parts e _ p3.1 in
    let p5 = empty_parts f g p4.1 in (p0.0, p1.0, p2.0, p3.0, p5.0, p5.1)

edges_joined :
    (ids : List ℕ) (seen edges : List WorkflowEdge)
    → is_empty (edge_diagnostics ids seen edges) ≡ true
    → All (λ e. joins ids e ≡ true) edges × (filter (joins ids) edges ≡ edges)
unfolding edge_diagnostics
edges_joined ids seen [] h = (tt, refl)
edges_joined ids seen (e ∷ es) h = elim (Bool-cases (joins ids e)) [
  | inr missing ↦ absurd (ground (arith, (rw missing at h)))
  | inl joined ↦
      let rest = edge_diagnostics ids (e ∷ seen) es in
      let later =
        (empty_parts (duplicate_part seen e) rest
          (empty_parts (self_part e) (duplicate_part seen e ++ rest) (rw joined at h)).1).1 in
      let (all, same) = edges_joined ids (e ∷ seen) es later in
      ((joined, all), rw joined (ap (λ x. e ∷ x) same))
]

pub Leads-target :
    (ids : List ℕ) (edges : List WorkflowEdge) (a b : ℕ)
    → All (λ e. joins ids e ≡ true) edges
    → Leads edges a b
    → is_member b ids ≡ true
Leads-target ids [] a b all l = elim l [ ]
Leads-target ids (e ∷ es) a b all (here (s, t)) =
    subst (λ x. is_member x ids ≡ true) t (&&_parts (is_member e.source ids) _ all.0).1
Leads-target ids (e ∷ es) a b all (there l) = Leads-target ids es a b all.1 l

module _ {F V : Type 0} where
  All-reached :
      (first : ℕ) (edges : List WorkflowEdge) (nodes : List (WorkflowNode F V))
      → is_empty (unreachable_diagnostics (reachable_from first edges) nodes) ≡ true
      → All (λ n. Reaches edges first n.id) nodes
  unfolding unreachable_diagnostics
  All-reached first edges [] h = tt
  All-reached first edges (n ∷ ns) h =
      let parts =
        empty_parts (unreachable_part (reachable_from first edges) n)
          (unreachable_diagnostics (reachable_from first edges) ns) h in
      let found : is_member n.id (reachable_from first edges) ≡ true = ground (arith, parts.0) in
      ((reachable_from-Reaches edges first n.id).0 found, All-reached first edges ns parts.1)

  only_one :
      (nodes : List (WorkflowNode F V))
      → (length nodes == 1) ≡ true
      → (first : ℕ) × (only_id nodes ≡ some first)
  only_one [] h = absurd (ground (arith, h))
  only_one (n ∷ []) h = (n.id, refl)
  only_one (n ∷ (m ∷ ns)) h = absurd (ground (arith, h))

  only_start :
      (nodes : List (WorkflowNode F V)) (first : ℕ)
      → only_id (filter is_start nodes) ≡ some first
      → start_node_id_of nodes ≡ some first
  unfolding start_node_id_of
  only_start nodes first h = h

  start-Reaches :
      (nodes : List (WorkflowNode F V)) (edges : List WorkflowEdge) (first : ℕ)
      → is_empty (reach_diagnostics nodes edges (some first)) ≡ true
      → All (λ n. Reaches edges first n.id) nodes
  unfolding reach_diagnostics
  start-Reaches nodes edges first h =
      let reachable = reachable_from first edges in
      All-reached first edges nodes
        (empty_parts (unreachable_diagnostics reachable nodes) (terminal_part nodes edges reachable)
          h).0

  module _ (validate_node : WorkflowNode F V → AppResult (Unit {0}))
      (display : AppError → String) where
    ids_distinct :
        (seen : List ℕ) (nodes : List (WorkflowNode F V)) (x : ℕ)
        → is_empty (node_diagnostics validate_node display seen nodes) ≡ true
        → occurs x seen ≤ 1
        → occurs x seen + occurs x (ids_of nodes) ≤ 1
    unfolding node_diagnostics
    ids_distinct seen [] x h once = omega (arith, once)
    ids_distinct seen (n ∷ ns) x h once =
        let rest = node_diagnostics validate_node display (n.id ∷ seen) ns in
        let parts =
          empty_parts (repeated_part validate_node display seen n)
            (node_error validate_node display n ++ rest) h in
        let later = (empty_parts (node_error validate_node display n) rest parts.1).1 in
        let fresh : is_member n.id seen ≡ false = ground (arith, parts.0) in
        let absent : occurs n.id seen ≡ 0 =
          ground (arith, (sym (is_member-occurs n.id seen) ∙ fresh)) in
        omega (arith, ids_distinct (n.id ∷ seen) ns x later (fresh_once n.id x seen absent once))

    -- The edges at every node are as its kind wants.
    pub valid_branches :
        (order : List ℕ) (nodes : List (WorkflowNode F V)) (edges : List WorkflowEdge)
        → (validate_workflow validate_node display order nodes edges).valid ≡ true
        → is_empty (all_branch_diagnostics (ids_of nodes) edges nodes) ≡ true
    unfolding validate_workflow
    valid_branches order nodes edges h =
        let ids = ids_of nodes in
        let known = filter (joins ids) edges in
        let limit = limit_part validate_node display nodes edges in
        let one = start_part validate_node display nodes in
        let rest =
          all_branch_diagnostics ids known nodes
          ++ (cycle_part validate_node display order ids known
              ++ reach_diagnostics nodes known (start_node_id_of nodes)) in
        let joining = edge_diagnostics ids [] edges in
        let apart = node_diagnostics validate_node display [] nodes in
        let after = empty_parts limit (apart ++ (one ++ (joining ++ rest))) h in
        let later =
          empty_parts one (joining ++ rest)
            (empty_parts apart (one ++ (joining ++ rest)) after.1).1 in
        let last = empty_parts joining rest later.1 in
        let (joined, same) = edges_joined ids [] edges last.0 in
        subst (λ es. is_empty (all_branch_diagnostics ids es nodes) ≡ true) same
          (empty_parts (all_branch_diagnostics ids known nodes) _ last.1).0

    -- What validation promises of the nodes and edges of a workflow, and of its start.
    pub record IsWorkflow (nodes : List (WorkflowNode F V)) (edges : List WorkflowEdge)
        (start_node_id : Option ℕ) : Type 0 where
      pub small : (length nodes ≤ 100) × (length edges ≤ 200)
      pub distinct : (x : ℕ) → occurs x (ids_of nodes) ≤ 1
      pub joined : All (λ e. joins (ids_of nodes) e ≡ true) edges
      pub acyclic : (a b : ℕ) → Leads edges a b → ¬ (Reaches edges b a)
      pub reached :
          (first : ℕ) × (start_node_id ≡ some first) × All (λ n. Reaches edges first n.id) nodes

    -- A workflow that is reported valid has at most 100 nodes and 200 edges, no two nodes with one id,
    -- edges between its nodes only, no cycle, and one start node, from which every node is reached. The
    -- hash map of the code gives each id of a node once, in any order.
    pub valid-IsWorkflow :
        (order : List ℕ) (nodes : List (WorkflowNode F V)) (edges : List WorkflowEdge)
        → ((x : ℕ) → occurs x order ≤ 1)
        → ((x : ℕ) → is_member x order ≡ is_member x (ids_of nodes))
        → (validate_workflow validate_node display order nodes edges).valid ≡ true
        → IsWorkflow nodes edges
            (validate_workflow validate_node display order nodes edges).start_node_id
    unfolding validate_workflow
    valid-IsWorkflow order nodes edges once keys h =
        let ids = ids_of nodes in
        let known = filter (joins ids) edges in
        let (limit, apart, one, joining, sorted, reaching) =
          seven_parts (limit_part validate_node display nodes edges)
            (node_diagnostics validate_node display [] nodes)
            (start_part validate_node display nodes) (edge_diagnostics ids [] edges)
            (all_branch_diagnostics ids known nodes)
            (cycle_part validate_node display order ids known)
            (reach_diagnostics nodes known (start_node_id_of nodes)) h in
        let (joined, same) = edges_joined ids [] edges joining in
        record {
          small = ground (arith, limit);
          distinct = λ x. omega (arith, ids_distinct [] nodes x apart (omega arith));
          joined = joined;
          acyclic = λ a b l.
              has_cycle-acyclic order ids edges a b once keys
                (subst (λ es. has_cycle order ids es ≡ false) same (ground (arith, sorted)))
                (Leads-target ids edges a b joined l) l;
          reached =
              let (first, this) = only_one (filter is_start nodes) (ground (arith, one)) in
              let found : start_node_id_of nodes ≡ some first = only_start nodes first this in
              (
                first,
                found,
                start-Reaches nodes edges first (
                    subst (λ es. is_empty (reach_diagnostics nodes es (some first)) ≡ true) same
                      (subst (λ o. is_empty (reach_diagnostics nodes known o) ≡ true) found
                        reaching)),
              );
        }
