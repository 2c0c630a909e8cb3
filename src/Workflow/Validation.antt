-- ===== src/Workflow/Validation.antt =====
-- `validate_workflow` of src-tauri/src/core/workflows/validation.rs. The checks of a single node's
-- fields (`validate_node`) are an argument, as are how an error prints and the order in which a hash
-- map gives its keys. The map `outgoing` is the list of the edges that join nodes.
pub mod Valid
pub mod Branches
use qingzhou_ssh.Prelude.{
  ℕ, String, Bool, true, false, not, ◌&&◌, ◌||◌, Option, none, some, List, [], ◌∷◌, ◌++◌, map, any,
  filter, count, length, ltb, leb, ◌==◌, if◌then◌else◌,
}
use qingzhou_ssh.Prelude.Result.{ok, err}
use qingzhou_ssh.Error.{AppError, AppResult, validation}
use qingzhou_ssh.Workflow.Graph.{
  WorkflowNode, WorkflowNodeConfig, start, task, custom, upload, download, log_search, condition,
  stop, WorkflowEdge, WorkflowEdgeBranch, success, true_branch, false_branch, same_branch, outgoing,
  is_member, reachable_from,
}
use qingzhou_ssh.Workflow.Cycle.{has_cycle, indegree}

pub data WorkflowDiagnosticCode : Type 0 where
  graph_limit duplicate_node start_count start_edges stop_edges missing_node self_edge :
      WorkflowDiagnosticCode
  duplicate_edge invalid_branch condition_branches cycle unreachable_node : WorkflowDiagnosticCode
  no_terminal_path invalid_parameters : WorkflowDiagnosticCode

pub record WorkflowDiagnostic : Type 0 where
  pub code : WorkflowDiagnosticCode
  pub node_id : Option ℕ
  pub message : String

pub record WorkflowValidationReport : Type 0 where
  pub valid : Bool
  pub start_node_id : Option ℕ
  pub diagnostics : List WorkflowDiagnostic

-- `if test { push(...) }`.
abbrev pub push_if : Bool → WorkflowDiagnosticCode → Option ℕ → String → List WorkflowDiagnostic
push_if test code node_id message =
    if test then record { code = code; node_id = node_id; message = message } ∷ [] else []

abbrev pub is_empty {ℓ} : {A : Type ℓ} → List A → Bool
is_empty [] = true
is_empty (x ∷ xs) = false

unfoldable pub same_edge : WorkflowEdge → WorkflowEdge → Bool
unfolding same_branch
same_edge e f = e.source == f.source && (e.target == f.target && same_branch e.branch f.branch)

-- Both ends are among the nodes.
abbrev pub joins : List ℕ → WorkflowEdge → Bool
joins ids e = is_member e.source ids && is_member e.target ids

abbrev pub self_part : WorkflowEdge → List WorkflowDiagnostic
self_part e = push_if (e.source == e.target) self_edge (some e.source) "节点不能连接到自身"

abbrev pub duplicate_part : List WorkflowEdge → WorkflowEdge → List WorkflowDiagnostic
duplicate_part seen e = push_if (any (same_edge e) seen) duplicate_edge (some e.source) "存在重复连接"

-- The loop over the edges; `seen` is `unique_edges`.
unfoldable pub edge_diagnostics :
    List ℕ → List WorkflowEdge → List WorkflowEdge → List WorkflowDiagnostic
unfolding same_edge is_member
edge_diagnostics ids seen [] = []
edge_diagnostics ids seen (e ∷ es) =
    let missing =
      push_if true missing_node (some e.source) "连接引用了不存在的节点" ++ edge_diagnostics ids seen es in
    let checked = self_part e ++ (duplicate_part seen e ++ edge_diagnostics ids (e ∷ seen) es) in
    if joins ids e then checked else missing

-- `out.first().is_some_and(|edge| edge.branch != Success)`, and the tests that an edge is alone.
abbrev pub first_not_success : List WorkflowEdge → Bool
first_not_success [] = false
first_not_success (e ∷ es) = not (same_branch e.branch success)

abbrev pub distinct_targets : List WorkflowEdge → Bool
distinct_targets (e ∷ (f ∷ [])) = not (e.target == f.target)
distinct_targets _ = false

abbrev pub has_one : WorkflowEdgeBranch → List WorkflowEdge → Bool
has_one branch out = count (λ e. same_branch e.branch branch) out == 1

module _ {V : Type 0} where
  -- What the edges at a node must be, by its kind.
  unfoldable pub branch_diagnostics :
      List ℕ → List WorkflowEdge → ℕ → WorkflowNodeConfig V → List WorkflowDiagnostic
  unfolding outgoing indegree is_member same_branch
  branch_diagnostics ids edges id start =
      let out = outgoing edges id in
      push_if (not (indegree edges id == 0) || (not (length out == 1) || first_not_success out))
        start_edges (some id) "开始节点必须无入边且只有一条成功出边"
  branch_diagnostics ids edges id (stop message) =
      push_if (not (is_empty (outgoing edges id))) stop_edges (some id) "停止节点不能有出边"
  branch_diagnostics ids edges id (condition source predicate) =
      let out = outgoing edges id in
      push_if
        (not (length out == 2)
          || (not (has_one true_branch out)
              || (not (has_one false_branch out) || not (distinct_targets out))))
        condition_branches (some id) "条件节点必须有目标不同的真、假分支"
      ++ push_if (not (is_member source ids) || source == id) invalid_parameters (some id)
          "条件来源节点无效"
  branch_diagnostics ids edges id _ =
      let out = outgoing edges id in
      push_if (ltb 1 (length out) || first_not_success out) invalid_branch (some id)
        "普通节点最多只能有一条成功出边"

  -- Not a start or a condition.
  abbrev pub may_end : WorkflowNodeConfig V → Bool
  may_end start = false
  may_end (condition source predicate) = false
  may_end _ = true

module _ {F V : Type 0} where
  abbrev pub ids_of : List (WorkflowNode F V) → List ℕ
  ids_of nodes = map (λ n. n.id) nodes

  abbrev pub is_start : WorkflowNode F V → Bool
  is_start node = elim node.config [ start ↦ true | _ ↦ false ]

  -- `starts[0].id` if there is exactly one.
  abbrev pub only_id : List (WorkflowNode F V) → Option ℕ
  only_id (node ∷ []) = some node.id
  only_id _ = none

  unfoldable pub start_node_id_of : List (WorkflowNode F V) → Option ℕ
  start_node_id_of nodes = only_id (filter is_start nodes)

  unfoldable pub all_branch_diagnostics :
      List ℕ → List WorkflowEdge → List (WorkflowNode F V) → List WorkflowDiagnostic
  unfolding branch_diagnostics
  all_branch_diagnostics ids edges [] = []
  all_branch_diagnostics ids edges (n ∷ ns) =
      branch_diagnostics ids edges n.id n.config ++ all_branch_diagnostics ids edges ns

  abbrev pub unreachable_part : List ℕ → WorkflowNode F V → List WorkflowDiagnostic
  unreachable_part reachable n =
      push_if (not (is_member n.id reachable)) unreachable_node (some n.id) "节点无法从开始节点到达"

  unfoldable pub unreachable_diagnostics :
      List ℕ → List (WorkflowNode F V) → List WorkflowDiagnostic
  unfolding is_member
  unreachable_diagnostics reachable [] = []
  unreachable_diagnostics reachable (n ∷ ns) =
      unreachable_part reachable n ++ unreachable_diagnostics reachable ns

  abbrev pub terminal_part :
      List (WorkflowNode F V) → List WorkflowEdge → List ℕ → List WorkflowDiagnostic
  terminal_part nodes edges reachable =
      push_if
        (not (
          any
            (λ n. is_member n.id reachable && (is_empty (outgoing edges n.id) && may_end n.config))
            nodes))
        no_terminal_path none "工作流没有可到达的终止路径"

  unfoldable pub reach_diagnostics :
      List (WorkflowNode F V) → List WorkflowEdge → Option ℕ → List WorkflowDiagnostic
  unfolding reachable_from unreachable_diagnostics is_member outgoing
  reach_diagnostics nodes edges none = []
  reach_diagnostics nodes edges (some first) =
      let reachable = reachable_from first edges in
      unreachable_diagnostics reachable nodes ++ terminal_part nodes edges reachable

  module _ (validate_node : WorkflowNode F V → AppResult (Unit {0}))
      (display : AppError → String) where
    abbrev pub node_error : WorkflowNode F V → List WorkflowDiagnostic
    node_error n = elim (validate_node n) [
      | ok done ↦ []
      | err e ↦ push_if true invalid_parameters (some n.id) (display e)
    ]

    abbrev pub repeated_part : List ℕ → WorkflowNode F V → List WorkflowDiagnostic
    repeated_part seen n = push_if (is_member n.id seen) duplicate_node (some n.id) "节点标识重复"

    -- The loop over the nodes; `seen` has the keys of the map so far.
    unfoldable pub node_diagnostics : List ℕ → List (WorkflowNode F V) → List WorkflowDiagnostic
    unfolding is_member
    node_diagnostics seen [] = []
    node_diagnostics seen (n ∷ ns) =
        repeated_part seen n ++ (node_error n ++ node_diagnostics (n.id ∷ seen) ns)

    abbrev pub limit_part : List (WorkflowNode F V) → List WorkflowEdge → List WorkflowDiagnostic
    limit_part nodes edges =
        push_if (ltb 100 (length nodes) || ltb 200 (length edges)) graph_limit none
          "工作流最多允许 100 个节点和 200 条边"

    abbrev pub start_part : List (WorkflowNode F V) → List WorkflowDiagnostic
    start_part nodes =
        push_if (not (length (filter is_start nodes) == 1)) start_count none "工作流必须且只能包含一个开始节点"

    abbrev pub cycle_part : List ℕ → List ℕ → List WorkflowEdge → List WorkflowDiagnostic
    cycle_part order ids joined = push_if (has_cycle order ids joined) cycle none "工作流不允许循环"

    unfoldable pub validate_workflow :
        List ℕ → List (WorkflowNode F V) → List WorkflowEdge → WorkflowValidationReport
    unfolding node_diagnostics edge_diagnostics all_branch_diagnostics has_cycle reach_diagnostics
        start_node_id_of
    validate_workflow order nodes edges =
        let ids = ids_of nodes in
        let joined = filter (joins ids) edges in
        let start_node_id = start_node_id_of nodes in
        let diagnostics =
          limit_part nodes edges
          ++ (node_diagnostics [] nodes
              ++ (start_part nodes
                  ++ (edge_diagnostics ids [] edges
                      ++ (all_branch_diagnostics ids joined nodes
                          ++ (cycle_part order ids joined
                              ++ reach_diagnostics nodes joined start_node_id))))) in
        record {
          valid = is_empty diagnostics;
          start_node_id = start_node_id;
          diagnostics = diagnostics;
        }
