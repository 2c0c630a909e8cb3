-- ===== src/Operation/Table/Moves.antt =====
-- How a run's status moves: a confirmed run is backed up before it runs, and what is never undone.
use qingzhou_ssh.Prelude.{
  ℕ, ◌≡◌, ◌≢◌, refl, sym, ap, ◌∙◌, ◌⊎◌, inl, inr, Bool, true, false, none, some, List, [], ◌∷◌,
  arith, ◌==◌, ◌&&◌, Option-cases, ==_refl,
}
use qingzhou_ssh.Prelude.Text.{eq_iff}
use qingzhou_ssh.Prelude.Result.{ok}
use qingzhou_ssh.Prelude.Rows.{update_rows, find?-update_rows, find?-passes}
use qingzhou_ssh.Operation.Status.{
  OperationStatus, operation_may_become, waiting_confirmation, backing_up, cancelled,
  same_operation, operation_ordinal,
}
use qingzhou_ssh.Operation.Table.{
  OperationRunRecord, Store, get_run, moved_run, started_run, is_confirmed_script, is_run,
  transition,
}
use qingzhou_ssh.Operation.Table.Steps.{saved_run, interrupted_run}
use qingzhou_ssh.Operation.Table.Ops.{Statement, execute_statement, execute_statements}
use qingzhou_ssh.Operation.Table.Change.{RunChange, stays, moves, starts, saves, interrupts}
use qingzhou_ssh.Operation.Table.Invariant.{get_run-execute}

-- At some point while the statements run, the run `id` has the status.
pub data Visits (status : OperationStatus) (id : ℕ) : List Statement → Store → Type 0 where
  now_there :
      {sts : List Statement} {s : Store} (run : OperationRunRecord)
      → get_run s id ≡ some run
      → run.status ≡ status
      → Visits status id sts s
  then_there :
      {st : Statement} {sts : List Statement} {s : Store}
      → Visits status id sts (execute_statement st s)
      → Visits status id (st ∷ sts) s

abbrev pub is_undone_or_stopped : OperationStatus → Bool
is_undone_or_stopped OperationStatus.cancelled = true
is_undone_or_stopped OperationStatus.rolled_back = true
is_undone_or_stopped _ = false

task-RunChange : (j k : OperationRunRecord) → RunChange j k → k.task_id ≡ j.task_id
unfolding moved_run started_run saved_run interrupted_run
task-RunChange j _ stays = refl
task-RunChange j _ (moves next now allowed) = refl
task-RunChange j _ (starts now confirmed) = refl
task-RunChange j _ (saves encoded now under_way) = refl
task-RunChange j _ (interrupts now active) = refl

RunChange-final :
    (j k : OperationRunRecord) → RunChange j k → is_undone_or_stopped j.status ≡ true → k ≡ j
unfolding moved_run started_run saved_run interrupted_run operation_may_become is_confirmed_script
    same_operation
RunChange-final j _ stays f = refl
RunChange-final j _ (moves next now allowed) f = absurd (ground arith)
RunChange-final j _ (starts now confirmed) f = absurd (ground arith)
RunChange-final j _ (saves encoded now under_way) f = absurd (ground arith)
RunChange-final j _ (interrupts now active) f = absurd (ground arith)

-- A run that was cancelled or rolled back keeps its row as it is under any statements.
pub stopped_unchanged :
    (sts : List Statement) (s : Store) (id : ℕ) (run : OperationRunRecord)
    → get_run s id ≡ some run
    → is_undone_or_stopped run.status ≡ true
    → get_run (execute_statements sts s) id ≡ some run
unfolding execute_statements
stopped_unchanged [] s id run found f = found
stopped_unchanged (st ∷ sts) s id run found f =
    let (k, there, change) = get_run-execute st s id run found in
    stopped_unchanged sts (execute_statement st s) id run
      (there ∙ ap some (RunChange-final run k change f)) f

-- What becomes of a run that waits for a confirmation, unless it is a personal script.
abbrev NextOf : OperationStatus → Type 0
NextOf status = (status ≡ waiting_confirmation) ⊎ ((status ≡ backing_up) ⊎ (status ≡ cancelled))

waiting-RunChange :
    (j k : OperationRunRecord)
    → RunChange j k
    → j.status ≡ waiting_confirmation
    → j.task_id ≢ "script.personal"
    → NextOf k.status
unfolding moved_run started_run saved_run interrupted_run operation_may_become is_confirmed_script
waiting-RunChange j _ stays w other = inl w
waiting-RunChange j _ (moves next now allowed) w other = ground arith
waiting-RunChange j _ (starts now confirmed) w other =
    absurd (ground (arith, eq_iff j.task_id "script.personal"))
waiting-RunChange j _ (saves encoded now under_way) w other = ground arith
waiting-RunChange j _ (interrupts now active) w other = ground arith

-- Whatever statements run, a run that waits for a confirmation and is not a personal script either
-- still waits, or was cancelled, or has been in the state `backing_up` on the way.
pub confirmed-Visits :
    (sts : List Statement) (s : Store) (id : ℕ) (run : OperationRunRecord)
    → get_run s id ≡ some run
    → run.status ≡ waiting_confirmation
    → run.task_id ≢ "script.personal"
    → Visits backing_up id sts s
      ⊎ ((k : OperationRunRecord) × (get_run (execute_statements sts s) id ≡ some k)
          × ((k.status ≡ waiting_confirmation) ⊎ (k.status ≡ cancelled)))
unfolding execute_statements
confirmed-Visits [] s id run found w other = inr (run, found, inl w)
confirmed-Visits (st ∷ sts) s id run found w other =
    let (k, there, change) = get_run-execute st s id run found in
    elim (waiting-RunChange run k change w other) [
      | inl waits ↦
          elim (confirmed-Visits sts (execute_statement st s) id k there waits
            (λ e. other (sym (task-RunChange run k change) ∙ e))) [
              | inl visits ↦ inl (then_there visits)
              | inr ends ↦ inr ends
            ]
      | inr (inl backs) ↦ inl (then_there (now_there k there backs))
      | inr (inr stopped) ↦ inr (
        k,
        stopped_unchanged sts (execute_statement st s) id k there (rw stopped refl),
        inr stopped,
      )
    ]

same_operation_refl : (a : OperationStatus) → same_operation a a ≡ true
unfolding same_operation
same_operation_refl a = ==_refl (operation_ordinal a)

-- The rows that an accepted transition writes.
abbrev moved_rows : OperationRunRecord → ℕ → OperationStatus → ℕ → Store → List OperationRunRecord
moved_rows run id next now s =
    update_rows (λ r. r.id == id && same_operation r.status run.status) (moved_run next now) s.runs

runs-transition :
    (s s' : Store) (id : ℕ) (next : OperationStatus) (now : ℕ) (run : OperationRunRecord)
    → get_run s id ≡ some run
    → transition s id next now ≡ ok s'
    → s'.runs ≡ moved_rows run id next now s
unfolding transition
runs-transition s s' id next now run found h = ground (arith, found)

no_transition :
    (s s' : Store) (id : ℕ) (next : OperationStatus) (now : ℕ)
    → get_run s id ≡ none
    → ¬ (transition s id next now ≡ ok s')
unfolding transition
no_transition s s' id next now missing h = ground (arith, missing)

-- A run is found with the status that an accepted transition gives it.
pub get_run-transition :
    (s s' : Store) (id : ℕ) (next : OperationStatus) (now : ℕ)
    → transition s id next now ≡ ok s'
    → (run : OperationRunRecord) × (get_run s' id ≡ some run) × (run.status ≡ next)
unfolding get_run moved_run
get_run-transition s s' id next now h = elim (Option-cases (get_run s id)) [
  | inl missing ↦ absurd (no_transition s s' id next now missing h)
  | inr (run, found) ↦
      let own : (run.id == id) ≡ true = find?-passes (is_run id) s.runs run found in
      (
        moved_run next now run,
        rw (runs-transition s s' id next now run found h) (
            find?-update_rows (is_run id) (λ r. r.id == id && same_operation r.status run.status)
              (moved_run next now) (λ a. refl) s.runs run found
              (rw (own, same_operation_refl run.status) refl)),
        refl,
      )
]
