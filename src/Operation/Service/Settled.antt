-- ===== src/Operation/Service/Settled.antt =====
-- How `run_dangerous` and `start_planned` end, whatever they are answered.
use qingzhou_ssh.Prelude.{
  ℕ, ◌≡◌, Bool, true, false, Option, none, some, List, [], ◌∷◌, arith, any, inl, inr,
}
use qingzhou_ssh.Prelude.Result.{ok, err, Result-cases}
use qingzhou_ssh.Error.{AppResult}
use qingzhou_ssh.Operation.Status.{OperationStatus, OperationPhase, OperationStepStatus}
use qingzhou_ssh.Operation.Table.{OperationRunRecord, Store, get_run, transition}
use qingzhou_ssh.Operation.Table.Steps.{mark_step_running, finish_step, skip_pending_steps}
use qingzhou_ssh.Operation.Table.Moves.{get_run-transition}
use qingzhou_ssh.Operation.Action.{
  Effect, captured, ran, restored, World, Action, pure, given, stored, now_millis, note, db,
  Ensured, Ensures, >>=-Ensures,
}
use qingzhou_ssh.Operation.Service.{
  StepEnd, step_finish, executed_finish, without_count, ExecutionRecord, move_to, mark_running,
  skip_from, end_step, require_details, end_run_as, time_or_now, end_executed,
}

abbrev pub is_ran : Effect → Bool
is_ran (ran _ _) = true
is_ran _ = false

abbrev pub is_captured : Effect → Bool
is_captured captured = true
is_captured _ = false

abbrev pub is_restored : Effect → Bool
is_restored restored = true
is_restored _ = false

-- If a command was run, a restore point had been captured.
pub record IsBacked (log : List Effect) : Type 0 where
  pub backed : any is_ran log ≡ true → any is_captured log ≡ true

module _ (L F : List Effect → Type 0) (weaker : (log : List Effect) → L log → F log) where
  -- The action leaves the log as it is.
  abbrev pub Keeps : {A : Type 0} → Action A → Type 0
  Keeps action = Ensures (λ w. L w.log) action (λ a w. L w.log) (λ w. F w.log)

  pub pure-Keeps : {A : Type 0} (a : A) → Keeps (pure a)
  pure-Keeps a = record { holds = λ w l. l }

  given_lem :
      {A : Type 0} (r : AppResult A) (w : World)
      → L w.log
      → Ensured (λ a w. L w.log) (λ w. F w.log) (given r w)
  given_lem (ok a) w l = l
  given_lem (err e) w l = weaker w.log l

  pub given-Keeps : {A : Type 0} (r : AppResult A) → Keeps (given r)
  given-Keeps r = record { holds = given_lem r }

  pub now_millis-Keeps : Keeps now_millis
  unfolding now_millis
  now_millis-Keeps = record { holds = λ w l. l }

  stored_lem :
      (w : World) (r : AppResult Store)
      → L w.log
      → Ensured (λ a w. L w.log) (λ w. F w.log) (stored w r)
  stored_lem w (ok s) l = l
  stored_lem w (err e) l = weaker w.log l

  pub db-Keeps : (statement : Store → AppResult Store) → Keeps (db statement)
  unfolding db
  db-Keeps statement = record { holds = λ w l. stored_lem w (statement w.store) l }

  pub move_to-Keeps : (id : ℕ) (next : OperationStatus) → Keeps (move_to id next)
  unfolding move_to
  move_to-Keeps id next =
      >>=-Ensures now_millis-Keeps (λ now. db-Keeps (λ s. transition s id next now))

  pub mark_running-Keeps :
      (id : ℕ) (phase : OperationPhase) (index : ℕ) → Keeps (mark_running id phase index)
  unfolding mark_running
  mark_running-Keeps id phase index =
      >>=-Ensures now_millis-Keeps (λ now. db-Keeps (λ s. mark_step_running s id phase index now))

  pub skip_from-Keeps :
      (id : ℕ) (phase : OperationPhase) (index : ℕ) → Keeps (skip_from id phase index)
  unfolding skip_from
  skip_from-Keeps id phase index =
      >>=-Ensures now_millis-Keeps
        (λ now. db-Keeps (λ s. without_count (skip_pending_steps s id phase index now)))

  pub end_step-Keeps :
      (id : ℕ) (phase : OperationPhase) (index : ℕ) (end : StepEnd)
      → Keeps (end_step id phase index end)
  unfolding end_step
  end_step-Keeps id phase index end =
      >>=-Ensures now_millis-Keeps
        (λ now. db-Keeps (λ s. finish_step s (step_finish id phase index end now)))

  time_or_now-Keeps : (at : Option ℕ) → Keeps (time_or_now at)
  unfolding time_or_now
  time_or_now-Keeps none = now_millis-Keeps
  time_or_now-Keeps (some at) = pure-Keeps at

  pub end_executed-Keeps :
      (id : ℕ) (phase : OperationPhase) (index : ℕ) (status : OperationStepStatus)
      (execution : ExecutionRecord)
      → Keeps (end_executed id phase index status execution)
  unfolding end_executed
  end_executed-Keeps id phase index status execution =
      >>=-Ensures (time_or_now-Keeps execution.finished_at)
        (λ at. db-Keeps (λ s. finish_step s (executed_finish id phase index status execution at)))

-- What is known of the log: nothing was done; a restore point was captured and not applied; a restore
-- point was captured and applied.
abbrev pub Untouched : List Effect → Type 0
Untouched log = log ≡ []

pub record IsCaptured (log : List Effect) : Type 0 where
  pub has_point : any is_captured log ≡ true
  pub kept : any is_restored log ≡ false

pub record IsRestored (log : List Effect) : Type 0 where
  pub had_point : any is_captured log ≡ true
  pub applied : any is_restored log ≡ true

pub Untouched-IsBacked : (log : List Effect) → Untouched log → IsBacked log
Untouched-IsBacked log h = ground arith

pub IsCaptured-IsBacked : (log : List Effect) → IsCaptured log → IsBacked log
IsCaptured-IsBacked log h = ground arith

pub IsRestored-IsBacked : (log : List Effect) → IsRestored log → IsBacked log
IsRestored-IsBacked log h = ground arith

-- A change of the log by one effect.
pub note-Ensures :
    (L M F : List Effect → Type 0) (e : Effect)
    → ((log : List Effect) → L log → M (e ∷ log))
    → Ensures (λ w. L w.log) (note e) (λ u w. M w.log) (λ w. F w.log)
unfolding note
note-Ensures L M F e h = record { holds = λ w l. h w.log l }

module _ (L F : List Effect → Type 0) (weaker : (log : List Effect) → L log → F log) where
  -- The run that is given back has the status, and is the one in the table.
  pub record EndsAs (id : ℕ) (status : OperationStatus) (run : OperationRunRecord) (w : World)
      : Type 0 where
    pub as_left : L w.log
    pub in_store : get_run w.store id ≡ some run
    pub has_status : run.status ≡ status

  abbrev HasStatus : ℕ → OperationStatus → World → Type 0
  HasStatus id status w =
      L w.log
      × ((run : OperationRunRecord) × (get_run w.store id ≡ some run) × (run.status ≡ status))

  move_lem :
      (id : ℕ) (next : OperationStatus) (now : ℕ) (w : World)
      → L w.log
      → Ensured (λ u. HasStatus id next) (λ w. F w.log) (stored w (transition w.store id next now))
  move_lem id next now w l = elim (Result-cases (transition w.store id next now)) [
    | inr e ↦ rw e.1 (weaker w.log l)
    | inl (s, moved) ↦ rw moved (l, get_run-transition w.store s id next now moved)
  ]

  move_to-HasStatus :
      (id : ℕ) (next : OperationStatus)
      → Ensures (λ w. L w.log) (move_to id next) (λ u. HasStatus id next) (λ w. F w.log)
  unfolding move_to db
  move_to-HasStatus id next =
      >>=-Ensures (now_millis-Keeps L F weaker)
        (λ now. record { holds = λ w l. move_lem id next now w l })

  require_lem :
      (id : ℕ) (status : OperationStatus) (w : World)
      → HasStatus id status w
      → Ensured (EndsAs id status) (λ w. F w.log) (require_details id w)
  unfolding require_details
  require_lem id status w (l, (run, found, has)) =
      rw (found, require_details) (record { as_left = l; in_store = found; has_status = has })

  pub end_run_as-Ensures :
      (id : ℕ) (status : OperationStatus)
      → Ensures (λ w. L w.log) (end_run_as id status) (EndsAs id status) (λ w. F w.log)
  unfolding end_run_as
  end_run_as-Ensures id status =
      >>=-Ensures (move_to-HasStatus id status)
        (λ u. record { holds = λ w h. require_lem id status w h })
