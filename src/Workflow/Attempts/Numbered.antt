-- ===== src/Workflow/Attempts/Numbered.antt =====
-- The numbers of the attempts of a node.
use qingzhou_ssh.Prelude.{
  ℕ, ◌+◌, max, ◌≡◌, refl, ap, inl, inr, String, Bool, not, ◌&&◌, Option, none, some, List, [], ◌∷◌,
  ◌++◌, map, count, count-append, arith, leb, ◌==◌, ==_iff, if◌then◌else◌, Bool-cases,
}
use qingzhou_ssh.Workflow.Status.{WorkflowNodeStatus, node_is_terminal}
use qingzhou_ssh.Workflow.Attempts.{
  WorkflowNodeRun, FinishWorkflowNode, node_is_running, last_attempt, new_attempt, insert_attempt,
  start_node_attempt, record_skipped_node, update_attempt, link_row, link_node_execution,
  finish_node_row, interrupted_node_row, recover_nodes, result_too_long, finish_node,
}

-- The statements on the rows of a run.
pub data AttemptOp (V : Type 0) : Type 0 where
  starts_attempt : ℕ → ℕ → AttemptOp V
  skips_node : ℕ → AttemptOp V
  links_attempt : ℕ → ℕ → ℕ → AttemptOp V
  finishes_attempt : FinishWorkflowNode V → AttemptOp V
  recovers_attempts : ℕ → AttemptOp V

module _ {V : Type 0} where
  abbrev pub attempts_of : ℕ → ℕ → List (WorkflowNodeRun V) → ℕ
  attempts_of node k t = count (λ r. r.node_id == node && r.attempt == k) t

  -- Each number from 1 to the last is that of one row, and no other number is.
  abbrev pub IsNumbered : List (WorkflowNodeRun V) → Type 0
  IsNumbered t =
      (node k : ℕ)
      → attempts_of node k t ≡ (if leb 1 k && leb k (last_attempt node t) then 1 else 0)

  last_attempt-append :
      (node : ℕ) (t : List (WorkflowNodeRun V)) (r : WorkflowNodeRun V)
      → last_attempt node (t ++ r ∷ [])
        ≡ max (last_attempt node t) (if r.node_id == node then r.attempt else 0)
  unfolding last_attempt
  last_attempt-append node [] r = ground arith
  last_attempt-append node (s ∷ t) r = ground (arith, last_attempt-append node t r)

  insert-IsNumbered :
      (node : ℕ) (status : WorkflowNodeStatus) (started_at : Option ℕ)
      (t : List (WorkflowNodeRun V))
      → IsNumbered t
      → IsNumbered (insert_attempt node status started_at t).0
  unfolding insert_attempt new_attempt
  insert-IsNumbered node status started_at t h n k =
      let row = new_attempt {V = V} node (last_attempt node t + 1) status started_at in
      rw
        (
          count-append (λ r. r.node_id == n && r.attempt == k) t (row ∷ []),
          last_attempt-append n t row,
        )
        elim (Bool-cases (node == n)) [
          | inl own ↦
              let same : last_attempt node t ≡ last_attempt n t =
                ap (λ x. last_attempt x t) ((==_iff node n).0 own) in
              rw (own, same) (ground (arith, h n k))
          | inr other ↦ rw other (ground (arith, h n k))
        ]

  map-attempts_of :
      (test : WorkflowNodeRun V → Bool) (change : WorkflowNodeRun V → WorkflowNodeRun V)
      (t : List (WorkflowNodeRun V)) (node k : ℕ)
      → ((r : WorkflowNodeRun V) → (change r).node_id ≡ r.node_id)
      → ((r : WorkflowNodeRun V) → (change r).attempt ≡ r.attempt)
      → (attempts_of node k (map (λ r. if test r then change r else r) t) ≡ attempts_of node k t)
        × (last_attempt node (map (λ r. if test r then change r else r) t) ≡ last_attempt node t)
  unfolding last_attempt
  map-attempts_of test change [] node k same_node same_attempt = (refl, refl)
  map-attempts_of test change (r ∷ t) node k same_node same_attempt =
      let ih = map-attempts_of test change t node k same_node same_attempt in
      elim (Bool-cases (test r)) [
        | inl hit ↦ rw (hit, same_node r, same_attempt r, ih.0, ih.1) (refl, refl)
        | inr miss ↦ rw (miss, ih.0, ih.1) (refl, refl)
      ]

  map-IsNumbered :
      (test : WorkflowNodeRun V → Bool) (change : WorkflowNodeRun V → WorkflowNodeRun V)
      (t : List (WorkflowNodeRun V))
      → ((r : WorkflowNodeRun V) → (change r).node_id ≡ r.node_id)
      → ((r : WorkflowNodeRun V) → (change r).attempt ≡ r.attempt)
      → IsNumbered t
      → IsNumbered (map (λ r. if test r then change r else r) t)
  map-IsNumbered test change t same_node same_attempt h n k =
      let m = map-attempts_of test change t n k same_node same_attempt in rw (m.0, m.1) (h n k)

  update-IsNumbered :
      (node attempt : ℕ) (change : WorkflowNodeRun V → WorkflowNodeRun V) (message : String)
      (t : List (WorkflowNodeRun V))
      → ((r : WorkflowNodeRun V) → (change r).node_id ≡ r.node_id)
      → ((r : WorkflowNodeRun V) → (change r).attempt ≡ r.attempt)
      → IsNumbered t
      → IsNumbered (update_attempt node attempt change message t).0
  unfolding update_attempt
  update-IsNumbered node attempt change message t same_node same_attempt h =
      map-IsNumbered (λ r. r.node_id == node && (r.attempt == attempt && node_is_running r.status))
        change t same_node same_attempt h

  module _ (json_len : V → ℕ) where
    unfoldable pub apply_attempt : AttemptOp V → List (WorkflowNodeRun V) → List (WorkflowNodeRun V)
    apply_attempt (starts_attempt node now) t = (start_node_attempt node now t).0
    apply_attempt (skips_node node) t = (record_skipped_node node t).0
    apply_attempt (links_attempt node attempt execution_id) t =
        (link_node_execution node attempt execution_id t).0
    apply_attempt (finishes_attempt f) t = (finish_node json_len f t).0
    apply_attempt (recovers_attempts now) t = recover_nodes now t

    unfoldable pub apply_attempts :
        List (AttemptOp V) → List (WorkflowNodeRun V) → List (WorkflowNodeRun V)
    unfolding apply_attempt
    apply_attempts [] t = t
    apply_attempts (op ∷ ops) t = apply_attempts ops (apply_attempt op t)

    links-IsNumbered :
        (node attempt execution_id : ℕ) (t : List (WorkflowNodeRun V))
        → IsNumbered t
        → IsNumbered (link_node_execution node attempt execution_id t).0
    unfolding link_node_execution link_row
    links-IsNumbered node attempt execution_id t h =
        update-IsNumbered node attempt (link_row execution_id) "节点执行引用无法保存" t (λ r. refl)
          (λ r. refl) h

    finish-IsNumbered :
        (f : FinishWorkflowNode V) (t : List (WorkflowNodeRun V))
        → IsNumbered t
        → IsNumbered (finish_node json_len f t).0
    unfolding finish_node finish_node_row
    finish-IsNumbered f t h = elim (Bool-cases (not (node_is_terminal f.status))) [
      | inl early ↦ rw early h
      | inr terminal ↦ elim (Bool-cases (result_too_long json_len f.result)) [
        | inl long ↦ rw (terminal, long) h
        | inr short ↦
            rw (terminal, short)
              (update-IsNumbered f.node_id f.attempt (finish_node_row f) "工作流节点无法进入终态" t (λ r. refl)
                (λ r. refl) h)
      ]
    ]

    recover-IsNumbered :
        (now : ℕ) (t : List (WorkflowNodeRun V)) → IsNumbered t → IsNumbered (recover_nodes now t)
    unfolding recover_nodes interrupted_node_row
    recover-IsNumbered now t h =
        map-IsNumbered (λ r. node_is_running r.status) (interrupted_node_row now) t (λ r. refl)
          (λ r. refl) h

    apply-IsNumbered :
        (op : AttemptOp V) (t : List (WorkflowNodeRun V))
        → IsNumbered t
        → IsNumbered (apply_attempt op t)
    unfolding apply_attempt
    apply-IsNumbered (starts_attempt node now) t h =
        unfold start_node_attempt in
        insert-IsNumbered node WorkflowNodeStatus.running (some now) t h
    apply-IsNumbered (skips_node node) t h =
        unfold record_skipped_node in insert-IsNumbered node WorkflowNodeStatus.skipped none t h
    apply-IsNumbered (links_attempt node attempt execution_id) t h =
        links-IsNumbered node attempt execution_id t h
    apply-IsNumbered (finishes_attempt f) t h = finish-IsNumbered f t h
    apply-IsNumbered (recovers_attempts now) t h = recover-IsNumbered now t h

    all-IsNumbered :
        (ops : List (AttemptOp V)) (t : List (WorkflowNodeRun V))
        → IsNumbered t
        → IsNumbered (apply_attempts ops t)
    unfolding apply_attempts
    all-IsNumbered [] t h = h
    all-IsNumbered (op ∷ ops) t h =
        all-IsNumbered ops (apply_attempt op t) (apply-IsNumbered op t h)

    nothing-IsNumbered : IsNumbered []
    unfolding last_attempt
    nothing-IsNumbered node k = ground arith

    -- Whatever statements run on a run's node rows, refused ones included, starting from none: the attempts
    -- of each node are numbered from 1 to the last, each number once. So the next number, which is one more
    -- than the last, is always free.
    pub attempts-IsNumbered :
        (ops : List (AttemptOp V)) (node k : ℕ)
        → attempts_of node k (apply_attempts ops [])
          ≡ (if leb 1 k && leb k (last_attempt node (apply_attempts ops [])) then 1 else 0)
    attempts-IsNumbered ops = all-IsNumbered ops [] nothing-IsNumbered
