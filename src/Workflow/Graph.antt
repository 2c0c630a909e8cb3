-- ===== src/Workflow/Graph.antt =====
-- src-tauri/src/domain/workflow.rs: a workflow as a graph; src-tauri/src/core/workflows/validation.rs:
-- the search of what the start node reaches; src-tauri/src/services/workflow_service.rs: the choice of
-- the next node. An id is the 128-bit value of a UUID, `F` is f64 and `V` is a JSON value.
pub mod Reach
use qingzhou_ssh.Prelude.{
  ℕ, zero, suc, ◌+◌, String, Bool, true, false, not, ◌&&◌, ◌||◌, Option, none, some, List, [], ◌∷◌,
  ◌++◌, map, any, filter, length, ltb, ◌==◌, if◌then◌else◌,
}
use qingzhou_ssh.Prelude.Result.{ok, err}
use qingzhou_ssh.Error.{AppResult, validation}
use qingzhou_ssh.Workflow.Condition.{WorkflowCondition}

pub data WorkflowEdgeBranch : Type 0 where
  success true_branch false_branch : WorkflowEdgeBranch

unfoldable pub same_branch : WorkflowEdgeBranch → WorkflowEdgeBranch → Bool
same_branch success success = true
same_branch true_branch true_branch = true
same_branch false_branch false_branch = true
same_branch _ _ = false

pub record WorkflowEdge : Type 0 where
  pub source : ℕ
  pub target : ℕ
  pub branch : WorkflowEdgeBranch

pub data WorkflowCustomMode : Type 0 where
  command script : WorkflowCustomMode

pub data WorkflowNodeConfig (V : Type 0) : Type 0 where
  start : WorkflowNodeConfig V
  -- Its id, version and parameters.
  task : String → ℕ → List (String × V) → WorkflowNodeConfig V
  -- The mode, the content and the timeout in seconds.
  custom : WorkflowCustomMode → List ℕ → ℕ → WorkflowNodeConfig V
  -- The local and the remote path, overwrite and create_restore_point.
  upload : List ℕ → List ℕ → Bool → Bool → WorkflowNodeConfig V
  -- The remote path, the suggested name and overwrite.
  download : List ℕ → List ℕ → Bool → WorkflowNodeConfig V
  -- path, keyword, case_sensitive, context_lines, limit, start_time, end_time.
  log_search : List ℕ → List ℕ → Bool → ℕ → ℕ → Option String → Option String → WorkflowNodeConfig V
  -- The source node and the predicate.
  condition : ℕ → WorkflowCondition V → WorkflowNodeConfig V
  stop : List ℕ → WorkflowNodeConfig V

pub record WorkflowNode (F V : Type 0) : Type 0 where
  pub id : ℕ
  pub name : List ℕ
  pub x : F
  pub y : F
  pub config : WorkflowNodeConfig V

pub record WorkflowDefinition (F V : Type 0) : Type 0 where
  pub id : ℕ
  pub name : String
  pub description : String
  pub version : ℕ
  pub checksum_sha256 : String
  pub nodes : List (WorkflowNode F V)
  pub edges : List WorkflowEdge

-- `outgoing.get(&id)`: the edges from a node, in their order.
unfoldable pub outgoing : List WorkflowEdge → ℕ → List WorkflowEdge
outgoing edges id = filter (λ e. e.source == id) edges

unfoldable pub is_member : ℕ → List ℕ → Bool
is_member id ids = any (λ other. other == id) ids

-- The loop of `reachable_from`, with the queue and the set found so far.
unfoldable pub search_loop : ℕ → List WorkflowEdge → List ℕ → List ℕ → List ℕ
unfolding is_member outgoing
search_loop fuel edges [] reachable = reachable
search_loop zero edges (id ∷ queue) reachable = reachable
search_loop (suc fuel) edges (id ∷ queue) reachable =
    let seen = search_loop fuel edges queue reachable in
    let found =
      search_loop fuel edges (queue ++ map (λ e. e.target) (outgoing edges id)) (id ∷ reachable) in
    if is_member id reachable then seen else found

-- A node is put in the queue once for every edge, and the start once more.
unfoldable pub reachable_from : ℕ → List WorkflowEdge → List ℕ
unfolding search_loop
reachable_from first edges = search_loop (suc (length edges)) edges (first ∷ []) []

abbrev pub branch_of : Option Bool → WorkflowEdgeBranch
branch_of none = success
branch_of (some true) = true_branch
branch_of (some false) = false_branch

-- `matches.len() > 1`, and `matches.first()`.
abbrev pub only_target : List WorkflowEdge → AppResult (Option ℕ)
only_target [] = ok none
only_target (e ∷ []) = ok (some e.target)
only_target (e ∷ (f ∷ more)) = err (validation "工作流下一节点不唯一")

unfoldable pub next_node : List WorkflowEdge → ℕ → Option Bool → AppResult (Option ℕ)
unfolding same_branch
next_node edges current condition_result =
    only_target
      (filter (λ e. e.source == current && same_branch e.branch (branch_of condition_result)) edges)
