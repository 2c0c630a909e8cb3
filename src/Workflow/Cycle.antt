-- ===== src/Workflow/Cycle.antt =====
-- `has_cycle` of src-tauri/src/core/workflows/validation.rs. The map `indegree` is a function on its
-- keys; `order` is the order in which the code's hash map gives its keys, which may be any.
pub mod Counting
pub mod Sorted
pub mod Search
pub mod Found
use qingzhou_ssh.Prelude.{
  ℕ, zero, suc, ◌+◌, ◌-◌, Bool, true, false, not, List, [], ◌∷◌, ◌++◌, count, filter, length, ◌==◌,
  if◌then◌else◌,
}
use qingzhou_ssh.Workflow.Graph.{WorkflowEdge, outgoing, is_member}

-- The values counted: every edge adds one to its target's.
unfoldable pub indegree : List WorkflowEdge → ℕ → ℕ
indegree edges id = count (λ e. e.target == id) edges

abbrev pub set : ℕ → ℕ → (ℕ → ℕ) → ℕ → ℕ
set key value degrees id = if id == key then value else degrees id

-- The `for` over the edges from a node that was taken from the queue. `-= 1` is never of 0.
unfoldable pub relax : List ℕ → List WorkflowEdge → (ℕ → ℕ) → List ℕ → (ℕ → ℕ) × List ℕ
unfolding is_member
relax order [] degrees queue = (degrees, queue)
relax order (e ∷ es) degrees queue =
    let value = degrees e.target - 1 in
    let skipped = relax order es degrees queue in
    let taken =
      relax order es (set e.target value degrees)
        (if value == 0 then queue ++ e.target ∷ [] else queue) in
    if is_member e.target order then taken else skipped

-- The `while`; the answer is `visited`.
unfoldable pub sort_loop : ℕ → List ℕ → List WorkflowEdge → (ℕ → ℕ) → List ℕ → ℕ → ℕ
unfolding relax outgoing
sort_loop fuel order edges degrees [] visited = visited
sort_loop zero order edges degrees (id ∷ queue) visited = visited
sort_loop (suc fuel) order edges degrees (id ∷ queue) visited =
    let (degrees', queue') = relax order (outgoing edges id) degrees queue in
    sort_loop fuel order edges degrees' queue' (suc visited)

-- A node is put in the queue at most once.
unfoldable pub has_cycle : List ℕ → List ℕ → List WorkflowEdge → Bool
unfolding sort_loop indegree
has_cycle order nodes edges =
    let degrees = indegree edges in
    not (
      sort_loop (length order) order edges degrees (filter (λ id. degrees id == 0) order) 0
      == length nodes)
