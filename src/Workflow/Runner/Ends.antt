-- ===== src/Workflow/Runner/Ends.antt =====
-- A run of a workflow without a cycle ends.
use qingzhou_ssh.Prelude.{
  ℕ, zero, suc, ◌+◌, ◌≤◌, ◌<◌, ◌≡◌, refl, ap, ◌∙◌, subst, ◌⊎◌, inl, inr, String, Bool, true, false,
  ◌&&◌, Option, none, some, List, [], ◌∷◌, filter, length, arith, ltb, ◌==◌, ==_iff, Bool-cases,
  Option-cases, &&_parts, some_inj, here, there,
}
use qingzhou_ssh.Prelude.Result.{ok, err, Result-cases, ok-injective}
use qingzhou_ssh.Error.{AppError, AppResult}
use qingzhou_ssh.Workflow.Run.{
  WorkflowRunRecord, FinishWorkflowRun, is_outcome, set_current_node, finish_run, update_one,
}
use qingzhou_ssh.Workflow.Graph.{
  WorkflowNode, WorkflowEdge, is_member, only_target, branch_of, same_branch, next_node,
}
use qingzhou_ssh.Workflow.Graph.Reach.{Leads, Reaches, at_start, along}
use qingzhou_ssh.Workflow.Cycle.Counting.{
  occurs, length-le, fresh_once, fresh_within, occurs_if_member,
}
use qingzhou_ssh.Workflow.Cycle.Found.{alone_once, alone_same}
use qingzhou_ssh.Workflow.Validation.{ids_of, validate_workflow}
use qingzhou_ssh.Workflow.Validation.Valid.{valid-IsWorkflow}
use qingzhou_ssh.Workflow.Runner.{
  Turn, Ended, has_succeeded, stopped_ending, succeeded_ending, failed_with, read_run, end_run,
  end_succeeded, run_loop,
}

-- The run was ended and taken out of the registry, and its row is given back or cannot be read; or an
-- error came before that, and the run is still in the registry.
abbrev pub HasEnded : Ended → Type 0
HasEnded e =
    ((is_outcome e.run.status ≡ true)
      × (e.registered ≡ false)
      × ((e.answer ≡ ok e.run) ⊎ ((error : AppError) × (e.answer ≡ err error))))
    ⊎ ((error : AppError) × (e.answer ≡ err error) × (e.registered ≡ true))

finish_run-is_outcome :
    (f : FinishWorkflowRun) (a b : WorkflowRunRecord)
    → finish_run f a ≡ ok b
    → is_outcome b.status ≡ true
unfolding finish_run update_one
finish_run-is_outcome f a b h = ground arith

read_run-answers :
    (run : WorkflowRunRecord) (error : Option AppError)
    → (read_run run error ≡ ok run) ⊎ ((e : AppError) × (read_run run error ≡ err e))
read_run-answers run none = inl refl
read_run-answers run (some e) = inr (e, refl)

end_run-HasEnded :
    (f : FinishWorkflowRun) (t : Turn) (run : WorkflowRunRecord) (visited : List ℕ)
    → HasEnded (end_run f t run visited)
unfolding end_run
end_run-HasEnded f t run visited = elim (Result-cases (finish_run f run)) [
  | inr refused ↦ rw (refused.1, end_run) (inr (refused.0, refl, refl))
  | inl finished ↦ elim (Option-cases t.error_after) [
    | inl well ↦
        rw (finished.1, well, end_run)
          (inl (
            finish_run-is_outcome f run finished.0 finished.1,
            refl,
            read_run-answers finished.0 t.error_reading,
          ))
    | inr fails ↦ rw (finished.1, fails.1, end_run) (inr (fails.0, refl, refl))
  ]
]

end_succeeded-HasEnded :
    (t : Turn) (run : WorkflowRunRecord) (visited : List ℕ) → HasEnded (end_succeeded t run visited)
unfolding end_succeeded
end_succeeded-HasEnded t run visited = elim (Option-cases t.error_skipping) [
  | inl well ↦ rw (well, end_succeeded) (end_run-HasEnded (succeeded_ending t) t run visited)
  | inr fails ↦ rw (fails.1, end_succeeded) (inr (fails.0, refl, refl))
]

only_target_first :
    (e : WorkflowEdge) (es : List WorkflowEdge) (n : ℕ)
    → only_target (e ∷ es) ≡ ok (some n)
    → e.target ≡ n
only_target_first e [] n h = some_inj (ok-injective h)
only_target_first e (f ∷ es) n h = cc

filter-Leads :
    (test : WorkflowEdge → Bool) (edges : List WorkflowEdge) (a n : ℕ)
    → ((e : WorkflowEdge) → test e ≡ true → e.source ≡ a)
    → only_target (filter test edges) ≡ ok (some n)
    → Leads edges a n
filter-Leads test [] a n from h = cc
filter-Leads test (e ∷ edges) a n from h = elim (Bool-cases (test e)) [
  | inl passed ↦ here (from e passed, only_target_first e (filter test edges) n (rw passed at h))
  | inr refused ↦ there (filter-Leads test edges a n from (rw refused at h))
]

pub next_node-Leads :
    (edges : List WorkflowEdge) (current n : ℕ) (r : Option Bool)
    → next_node edges current r ≡ ok (some n)
    → Leads edges current n
unfolding next_node
next_node-Leads edges current n r h =
    filter-Leads (λ e. e.source == current && same_branch e.branch (branch_of r)) edges current n
      (λ e p. (==_iff e.source current).0 (&&_parts (e.source == current) _ p).0) h

module _ (ids : List ℕ) (edges : List WorkflowEdge) (turns : List ℕ → Turn) where
  -- The next node is none of those visited.
  not_again :
      (current next : ℕ) (visited : List ℕ)
      → ((a b : ℕ) → Leads edges a b → ¬ (Reaches edges b a))
      → ((x : ℕ) → 0 < occurs x (current ∷ visited) → Reaches edges x current)
      → Leads edges current next
      → occurs next (current ∷ visited) ≡ 0
  not_again current next visited acyclic reaches l =
      elim (Bool-cases (ltb 0 (occurs next (current ∷ visited)))) [
        | inl again ↦ absurd (acyclic current next l (reaches next (ground (arith, again))))
        | inr fresh ↦ ground (arith, fresh)
      ]

  still-Reaches :
      (current next : ℕ) (visited : List ℕ)
      → ((x : ℕ) → 0 < occurs x (current ∷ visited) → Reaches edges x current)
      → Leads edges current next
      → (x : ℕ) → 0 < occurs x (next ∷ (current ∷ visited))
      → Reaches edges x next
  still-Reaches current next visited reaches l x m = elim (Bool-cases (next == x)) [
    | inl same ↦ subst (λ z. Reaches edges z next) ((==_iff next x).0 same) at_start
    | inr other ↦ along (reaches x (omega (arith, (rw other at m)))) l
  ]

  -- The loop has enough fuel, and ends as it should.
  abbrev pub Ends : Option Ended → Type 0
  Ends o = (e : Ended) × (o ≡ some e) × HasEnded e

  Ends-with : (e : Ended) → HasEnded e → Ends (some e)
  Ends-with e h = (e, refl, h)

  Ends-failed :
      (error : AppError) (run : WorkflowRunRecord) (visited : List ℕ)
      → Ends (some (failed_with error run visited))
  Ends-failed error run visited =
      Ends-with (failed_with error run visited) (inr (error, refl, refl))

  run_loop-Ends :
      (fuel current : ℕ) (visited : List ℕ) (run : WorkflowRunRecord)
      → ((a b : ℕ) → Leads edges a b → ¬ (Reaches edges b a))
      → ((x : ℕ) → occurs x (current ∷ visited) ≤ 1)
      → ((x : ℕ) → 0 < occurs x visited → 0 < occurs x ids)
      → ((x : ℕ) → 0 < occurs x (current ∷ visited) → Reaches edges x current)
      → length ids < fuel + length visited
      → Ends (run_loop fuel ids edges turns current visited run)
  unfolding run_loop
  run_loop-Ends zero current visited run acyclic once within reaches enough =
      absurd (omega (arith, enough, length-le visited ids (λ x. omega (arith, once x)) within))
  run_loop-Ends (suc fuel) current visited run acyclic once within reaches enough =
      elim (Result-cases (set_current_node current run)) [
        | inr refused ↦ rw (refused.1, run_loop) (Ends-failed refused.0 run visited)
        | inl moved ↦ elim (Bool-cases (is_member current ids)) [
          | inr unknown ↦ rw (moved.1, unknown, run_loop) (Ends-failed _ moved.0 visited)
          | inl known ↦ elim (Option-cases (turns (current ∷ visited)).error_before) [
            | inr fails ↦
                rw (moved.1, known, fails.1, run_loop) (Ends-failed fails.0 moved.0 visited)
            | inl well ↦
                elim (Bool-cases (has_succeeded (turns (current ∷ visited)).outcome.status)) [
                  | inr stops ↦
                      rw (moved.1, known, well, stops, run_loop)
                        (Ends-with _ (
                          end_run-HasEnded (stopped_ending (turns (current ∷ visited)))
                            (turns (current ∷ visited)) moved.0 (current ∷ visited)))
                  | inl succeeds ↦
                      elim (Result-cases (
                        next_node edges current
                          (turns (current ∷ visited)).outcome.condition_result)) [
                            | inr unclear ↦
                                rw (moved.1, known, well, succeeds, unclear.1, run_loop)
                                  (Ends-failed unclear.0 moved.0 (current ∷ visited))
                            | inl found ↦ elim (Option-cases found.0) [
                              | inl last ↦
                                  rw
                                    (moved.1, known, well, succeeds, found.1 ∙ ap ok last, run_loop)
                                    (Ends-with _ (
                                      end_succeeded-HasEnded (turns (current ∷ visited)) moved.0
                                        (current ∷ visited)))
                              | inr more ↦
                                  let l =
                                    next_node-Leads edges current more.0 _
                                      (found.1 ∙ ap ok more.1) in
                                  let absent = not_again current more.0 visited acyclic reaches l in
                                  rw
                                    (
                                      moved.1,
                                      known,
                                      well,
                                      succeeds,
                                      found.1 ∙ ap ok more.1,
                                      run_loop,
                                    )
                                    (run_loop-Ends fuel more.0 (current ∷ visited) moved.0 acyclic
                                      (λ x. fresh_once more.0 x (current ∷ visited) absent (once x))
                                      (λ x m.
                                        fresh_within current x visited ids
                                          (occurs_if_member current ids known) (within x) m)
                                      (still-Reaches current more.0 visited reaches l)
                                      (omega (arith, enough)))
                            ]
                          ]
                ]
          ]
        ]
      ]

-- A run of a workflow that is reported valid ends, whatever its nodes do and whatever fails: within one
-- turn more than there are nodes it has either ended the run as paused, succeeded, cancelled or
-- uncertain, taken it out of the registry, and returned its row or, where the row cannot be read again,
-- an error; or it has returned an error with the run still registered. The hash map of the validation
-- gives each id of a node once, in any order.
pub valid-HasEnded :
    {F V : Type 0} (validate_node : WorkflowNode F V → AppResult (Unit {0}))
    (display : AppError → String) (order : List ℕ) (nodes : List (WorkflowNode F V))
    (edges : List WorkflowEdge) (turns : List ℕ → Turn) (first : ℕ) (run : WorkflowRunRecord)
    → ((x : ℕ) → occurs x order ≤ 1)
    → ((x : ℕ) → is_member x order ≡ is_member x (ids_of nodes))
    → (validate_workflow validate_node display order nodes edges).valid ≡ true
    → (e : Ended) × (run_loop (suc (length (ids_of nodes))) (ids_of nodes) edges turns first [] run
        ≡ some e)
      × HasEnded e
valid-HasEnded validate_node display order nodes edges turns first run once keys valid =
    let w = valid-IsWorkflow validate_node display order nodes edges once keys valid in
    run_loop-Ends (ids_of nodes) edges turns (suc (length (ids_of nodes))) first [] run w.acyclic
      (λ x. alone_once first x) (λ x m. absurd (omega (arith, m)))
      (λ x m. subst (λ z. Reaches edges z first) (alone_same first x m) at_start) (omega arith)
