-- ===== src/Operation/Table/Invariant.antt =====
-- What holds of the runs and the steps after any statements, from empty tables.
use qingzhou_ssh.Prelude.{
  ℕ, ◌≡◌, refl, sym, ap, subst, Bool, true, false, Option, none, some, List, [], ◌∷◌, arith, ◌==◌,
  All, All-map, Option-cases, inl, inr,
}
use qingzhou_ssh.Prelude.Rows.{Grows-All, Grows-find?}
use qingzhou_ssh.Operation.Status.{
  OperationStatus, operation_may_become, operation_is_terminal, OperationStepStatus,
  step_may_become, step_is_terminal, same_operation, same_step,
}
use qingzhou_ssh.Operation.Table.{
  OperationRunRecord, OperationStepRecord, Store, NewOperationRun, NewOperationStep, new_run,
  moved_run, started_run, is_confirmed_script, get_run, is_run,
}
use qingzhou_ssh.Operation.Table.Steps.{
  new_step, moved_step, skipped_step, saved_run, interrupted_step, interrupted_run,
}
use qingzhou_ssh.Operation.Table.Ops.{Statement, execute_statement, execute_statements}
use qingzhou_ssh.Operation.Table.Change.{
  RunChange, stays, moves, starts, saves, interrupts, StepMove, same, begins, finishes, skips,
  breaks, IsNewRun, IsNewStep, execute-Changes,
}

abbrev pub is_there {ℓ} : {A : Type ℓ} → Option A → Bool
is_there none = false
is_there (some a) = true

-- The statuses before anything was run on the server.
abbrev pub is_early : OperationStatus → Bool
is_early OperationStatus.validating = true
is_early OperationStatus.preflighting = true
is_early OperationStatus.preview_ready = true
is_early OperationStatus.waiting_confirmation = true
is_early OperationStatus.backing_up = true
is_early _ = false

pub record IsRun (run : OperationRunRecord) : Type 0 where
  pub ended : is_there run.finished_at ≡ operation_is_terminal run.status
  pub no_early_result : is_early run.status ≡ true → run.result ≡ none

abbrev pub is_waiting : OperationStepStatus → Bool
is_waiting OperationStepStatus.pending = true
is_waiting _ = false

abbrev pub is_under_way : OperationStepStatus → Bool
is_under_way OperationStepStatus.running = true
is_under_way _ = false

pub record IsStep (step : OperationStepRecord) : Type 0 where
  pub untouched :
      is_waiting step.status ≡ true
      → (step.execution_id ≡ none) × (step.started_at ≡ none) × (step.finished_at ≡ none)
  pub began : is_under_way step.status ≡ true → is_there step.started_at ≡ true
  pub over : step_is_terminal step.status ≡ true → is_there step.finished_at ≡ true

new_run-IsRun : (id now : ℕ) (draft : NewOperationRun) → IsRun (new_run id now draft)
unfolding new_run
new_run-IsRun id now draft = ground arith

RunChange-IsRun : (j k : OperationRunRecord) → RunChange j k → IsRun j → IsRun k
unfolding moved_run started_run saved_run interrupted_run operation_may_become is_confirmed_script
    same_operation
RunChange-IsRun j _ stays h = h
RunChange-IsRun j _ (moves next now allowed) h = ground arith
RunChange-IsRun j _ (starts now confirmed) h = ground arith
RunChange-IsRun j _ (saves encoded now under_way) h = ground arith
RunChange-IsRun j _ (interrupts now active) h = ground arith

new_step-IsStep : (draft : NewOperationStep) → IsStep (new_step draft)
unfolding new_step
new_step-IsStep draft = ground arith

StepMove-IsStep : (j k : OperationStepRecord) → StepMove j k → IsStep j → IsStep k
unfolding moved_step skipped_step interrupted_step step_may_become same_step
StepMove-IsStep j _ same h = h
StepMove-IsStep j _ (begins c at allowed next at_start) h = ground arith
StepMove-IsStep j _ (finishes c at allowed terminal at_end) h = ground arith
StepMove-IsStep j _ (skips now waiting) h = ground arith
StepMove-IsStep j _ (breaks now under_way) h = ground arith

-- No statement changes a key.
pub id-RunChange : (j k : OperationRunRecord) → RunChange j k → k.id ≡ j.id
unfolding moved_run started_run saved_run interrupted_run
id-RunChange j _ stays = refl
id-RunChange j _ (moves next now allowed) = refl
id-RunChange j _ (starts now confirmed) = refl
id-RunChange j _ (saves encoded now under_way) = refl
id-RunChange j _ (interrupts now active) = refl

run_id-StepMove : (j k : OperationStepRecord) → StepMove j k → k.run_id ≡ j.run_id
unfolding moved_step skipped_step interrupted_step
run_id-StepMove j _ same = refl
run_id-StepMove j _ (begins c at allowed next at_start) = refl
run_id-StepMove j _ (finishes c at allowed terminal at_end) = refl
run_id-StepMove j _ (skips now waiting) = refl
run_id-StepMove j _ (breaks now under_way) = refl

-- A run is found after a statement if it was before, changed in one of the ways.
pub get_run-execute :
    (st : Statement) (s : Store) (id : ℕ) (j : OperationRunRecord)
    → get_run s id ≡ some j
    → (k : OperationRunRecord) × (get_run (execute_statement st s) id ≡ some k) × RunChange j k
unfolding get_run
get_run-execute st s id j h =
    Grows-find? RunChange IsNewRun (is_run id) (λ a b r. ap (λ x. x == id) (id-RunChange a b r))
      s.runs (execute_statement st s).runs j (execute-Changes st s).runs_change h

-- The run of a step is in the table.
abbrev pub HasRun : Store → OperationStepRecord → Type 0
HasRun s step = is_there (get_run s step.run_id) ≡ true

still_there :
    (st : Statement) (s : Store) (id : ℕ)
    → is_there (get_run s id) ≡ true
    → is_there (get_run (execute_statement st s) id) ≡ true
still_there st s id h = elim (Option-cases (get_run s id)) [
  | inl missing ↦ absurd (ground arith)
  | inr (j, found) ↦ let (k, there, change) = get_run-execute st s id j found in rw there refl
]

pub record IsStore (s : Store) : Type 0 where
  pub good_runs : All IsRun s.runs
  pub good_steps : All IsStep s.steps
  pub owned_steps : All (HasRun s) s.steps

-- Every statement, refused or not, keeps the tables well-formed.
pub execute-IsStore : (st : Statement) (s : Store) → IsStore s → IsStore (execute_statement st s)
unfolding new_step
execute-IsStore st s h =
    let s' = execute_statement st s in
    let changes = execute-Changes st s in
    record {
      good_runs =
          Grows-All RunChange IsNewRun IsRun RunChange-IsRun
            (λ k (id, now, draft, e). subst IsRun (sym e) (new_run-IsRun id now draft)) s.runs
            s'.runs changes.runs_change h.good_runs;
      good_steps =
          Grows-All StepMove (IsNewStep s) IsStep StepMove-IsStep
            (λ k (draft, run, e, found). subst IsStep (sym e) (new_step-IsStep draft)) s.steps
            s'.steps changes.steps_change h.good_steps;
      owned_steps =
          Grows-All StepMove (IsNewStep s) (HasRun s')
            (λ j k move owned.
              subst (λ id. is_there (get_run s' id) ≡ true) (sym (run_id-StepMove j k move)) owned)
            (λ k (draft, run, e, found).
              let there : is_there (get_run s draft.run_id) ≡ true = rw found refl in
              subst (HasRun s') (sym e) (still_there st s draft.run_id there))
            s.steps s'.steps changes.steps_change
            (All-map (HasRun s) (HasRun s') (λ step. still_there st s step.run_id) s.steps
              h.owned_steps);
    }

pub execute_statements-IsStore :
    (sts : List Statement) (s : Store) → IsStore s → IsStore (execute_statements sts s)
unfolding execute_statements
execute_statements-IsStore [] s h = h
execute_statements-IsStore (st ∷ sts) s h =
    execute_statements-IsStore sts (execute_statement st s) (execute-IsStore st s h)

abbrev pub empty_store : Store
empty_store = record { runs = []; steps = [] }

-- Whatever statements run, in whatever order, from empty tables: a run has a finish time just when
-- its status is terminal, and no result before something was run on the server; a pending step has
-- no execution and no times, a running one has a start time, and one that is over a finish time;
-- every step belongs to a run of the table.
pub statements-IsStore : (sts : List Statement) → IsStore (execute_statements sts empty_store)
statements-IsStore sts =
    execute_statements-IsStore sts empty_store
      (record { good_runs = tt; good_steps = tt; owned_steps = tt })
