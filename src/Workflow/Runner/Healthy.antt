-- ===== src/Workflow/Runner/Healthy.antt =====
-- A run of a valid workflow in which no statement and no event fails.
use qingzhou_ssh.Prelude.{
  ◌≤◌, ◌≢◌, ℕ, zero, suc, ◌≡◌, refl, sym, ap, ◌∙◌, subst, inl, inr, String, Bool, true, false,
  Option, none, some, List, [], ◌∷◌, length, arith, ◌==◌, ==_iff, Bool-cases, Option-cases, Any,
  here, there,
}
use qingzhou_ssh.Prelude.Result.{ok, err, Result-cases}
use qingzhou_ssh.Error.{AppError, AppResult}
use qingzhou_ssh.Workflow.Status.{WorkflowNodeStatus}
use qingzhou_ssh.Workflow.Run.{
  WorkflowRunRecord, FinishWorkflowRun, is_running, is_outcome, set_current_node, finish_run,
  update_one,
}
use qingzhou_ssh.Workflow.Graph.{WorkflowNode, WorkflowEdge, is_member, next_node}
use qingzhou_ssh.Workflow.Validation.{ids_of, validate_workflow}
use qingzhou_ssh.Workflow.Validation.Valid.{valid-IsWorkflow, Leads-target}
use qingzhou_ssh.Workflow.Validation.Branches.{valid-next_node}
use qingzhou_ssh.Workflow.Cycle.Counting.{occurs}
use qingzhou_ssh.Workflow.Runner.{
  Turn, Ended, has_succeeded, stopped_status, stopped_ending, succeeded_ending, end_run,
  end_succeeded, run_loop,
}
use qingzhou_ssh.Workflow.Runner.Ends.{next_node-Leads, valid-HasEnded}

set_current_node-running :
    (node : ℕ) (run : WorkflowRunRecord)
    → is_running run.status ≡ true
    → (run' : WorkflowRunRecord) × (set_current_node node run ≡ ok run')
      × (is_running run'.status ≡ true)
unfolding set_current_node update_one
set_current_node-running node run h = (record run { current_node_id = some node }, rw h refl, h)

stopped_is_outcome : (s : WorkflowNodeStatus) → is_outcome (stopped_status s) ≡ true
unfolding stopped_status
stopped_is_outcome s = ground arith

not_refused :
    (f : FinishWorkflowRun) (run : WorkflowRunRecord) (e : AppError)
    → is_outcome f.status ≡ true
    → is_running run.status ≡ true
    → finish_run f run ≢ err e
unfolding finish_run update_one
not_refused f run e o h bad = ground arith

finish_run-running :
    (f : FinishWorkflowRun) (run : WorkflowRunRecord)
    → is_outcome f.status ≡ true
    → is_running run.status ≡ true
    → (run' : WorkflowRunRecord) × (finish_run f run ≡ ok run')
finish_run-running f run o h = elim (Result-cases (finish_run f run)) [
  | inl done ↦ done
  | inr refused ↦ absurd (not_refused f run refused.0 o h refused.1)
]

-- The run's row is given back.
abbrev pub IsAnswered : Ended → Type 0
IsAnswered e = e.answer ≡ ok e.run

end_run_well :
    (f : FinishWorkflowRun) (t : Turn) (run : WorkflowRunRecord) (visited : List ℕ)
    → t.error_after ≡ none
    → t.error_reading ≡ none
    → is_outcome f.status ≡ true
    → is_running run.status ≡ true
    → IsAnswered (end_run f t run visited)
unfolding end_run
end_run_well f t run visited n r o h =
    let (run', finished) = finish_run-running f run o h in rw (finished, n, end_run, r) refl

end_succeeded_well :
    (t : Turn) (run : WorkflowRunRecord) (visited : List ℕ)
    → t.error_skipping ≡ none
    → t.error_after ≡ none
    → t.error_reading ≡ none
    → is_running run.status ≡ true
    → IsAnswered (end_succeeded t run visited)
unfolding end_succeeded
end_succeeded_well t run visited s n r h =
    rw (s, end_succeeded) (end_run_well (succeeded_ending t) t run visited n r refl h)

member-Any :
    {F V : Type 0} (nodes : List (WorkflowNode F V)) (id : ℕ)
    → is_member id (ids_of nodes) ≡ true
    → Any (λ n. n.id ≡ id) nodes
unfolding is_member
member-Any [] id h = absurd (ground (arith, h))
member-Any (n ∷ ns) id h = elim (Bool-cases (n.id == id)) [
  | inl own ↦ here ((==_iff n.id id).0 own)
  | inr other ↦ there (member-Any ns id (rw other at h))
]

no_error :
    {run : WorkflowRunRecord} {error : AppError}
    → ◌≢◌ {A = AppResult WorkflowRunRecord} (ok run) (err error)
no_error h = cc

-- If it returns, it returns without an error.
abbrev pub IsWell : Option Ended → Type 0
IsWell none = Unit
IsWell (some e) = IsAnswered e

module _ (ids : List ℕ) (edges : List WorkflowEdge) (turns : List ℕ → Turn) where
  run_loop-IsWell :
      (fuel current : ℕ) (visited : List ℕ) (run : WorkflowRunRecord)
      → ((v : List ℕ) → (turns v).error_before ≡ none)
      → ((v : List ℕ) → (turns v).error_skipping ≡ none)
      → ((v : List ℕ) → (turns v).error_after ≡ none)
      → ((v : List ℕ) → (turns v).error_reading ≡ none)
      → ((node : ℕ) (r : Option Bool)
          → is_member node ids ≡ true
          → (next : Option ℕ) × (next_node edges node r ≡ ok next))
      → ((a b : ℕ) (r : Option Bool) → next_node edges a r ≡ ok (some b) → is_member b ids ≡ true)
      → is_member current ids ≡ true
      → is_running run.status ≡ true
      → IsWell (run_loop fuel ids edges turns current visited run)
  unfolding run_loop
  run_loop-IsWell zero current visited run before skipping after reading clear inside known runs =
      tt
  run_loop-IsWell (suc fuel) current visited run before skipping after reading clear inside known
        runs =
      let (run', moved, still) = set_current_node-running current run runs in
      let t = turns (current ∷ visited) in
      let well = before (current ∷ visited) in
      elim (Bool-cases (has_succeeded t.outcome.status)) [
        | inr stops ↦
            rw (moved, known, well, stops, run_loop)
              (end_run_well (stopped_ending t) t run' (current ∷ visited)
                (after (current ∷ visited)) (reading (current ∷ visited))
                (stopped_is_outcome t.outcome.status) still)
        | inl succeeds ↦
            let (next, found) = clear current t.outcome.condition_result known in
            elim (Option-cases next) [
              | inl last ↦
                  rw (moved, known, well, succeeds, found ∙ ap ok last, run_loop)
                    (end_succeeded_well t run' (current ∷ visited) (skipping (current ∷ visited))
                      (after (current ∷ visited)) (reading (current ∷ visited)) still)
              | inr more ↦
                  rw (moved, known, well, succeeds, found ∙ ap ok more.1, run_loop)
                    (run_loop-IsWell fuel more.0 (current ∷ visited) run' before skipping after
                      reading clear inside (inside current more.0 _ (found ∙ ap ok more.1)) still)
            ]
      ]

-- A run of a workflow that is reported valid, from its start and with its row running, in which no
-- statement, no read and no event fails, ends within one turn more than there are nodes without an
-- error: its row, paused, succeeded, cancelled or uncertain, is given back, and it is out of the
-- registry. The hash map of the
-- validation gives each id of a node once, in any order.
pub healthy-is_outcome :
    {F V : Type 0} (validate_node : WorkflowNode F V → AppResult (Unit {0}))
    (display : AppError → String) (order : List ℕ) (nodes : List (WorkflowNode F V))
    (edges : List WorkflowEdge) (turns : List ℕ → Turn) (first : ℕ) (run : WorkflowRunRecord)
    → ((x : ℕ) → occurs x order ≤ 1)
    → ((x : ℕ) → is_member x order ≡ is_member x (ids_of nodes))
    → (validate_workflow validate_node display order nodes edges).valid ≡ true
    → is_member first (ids_of nodes) ≡ true
    → is_running run.status ≡ true
    → ((v : List ℕ) → (turns v).error_before ≡ none)
    → ((v : List ℕ) → (turns v).error_skipping ≡ none)
    → ((v : List ℕ) → (turns v).error_after ≡ none)
    → ((v : List ℕ) → (turns v).error_reading ≡ none)
    → (e : Ended) × (run_loop (suc (length (ids_of nodes))) (ids_of nodes) edges turns first [] run
        ≡ some e)
      × (e.answer ≡ ok e.run)
      × (is_outcome e.run.status ≡ true)
      × (e.registered ≡ false)
healthy-is_outcome validate_node display order nodes edges turns first run once keys valid known
      runs before skipping after reading =
    let ids = ids_of nodes in
    let w = valid-IsWorkflow validate_node display order nodes edges once keys valid in
    let (e, returned, ended) =
      valid-HasEnded validate_node display order nodes edges turns first run once keys valid in
    let well : e.answer ≡ ok e.run = subst IsWell returned (
      run_loop-IsWell ids edges turns (suc (length ids)) first [] run before skipping after reading
        (λ node r m.
          valid-next_node validate_node display order nodes edges node r valid
            (member-Any nodes node m))
        (λ a b r h. Leads-target ids edges a b w.joined (next_node-Leads edges a b r h)) known
        runs) in
    elim ended [
      | inl good ↦ (e, returned, well, good.0, good.1)
      | inr bad ↦ absurd (no_error (sym well ∙ bad.1))
    ]
