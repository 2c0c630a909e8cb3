-- ===== src/Transfer/Table/Change.antt =====
-- What one statement does to each row of the table.
use qingzhou_ssh.Prelude.{
  ℕ, ◌≡◌, ◌≢◌, refl, sym, ap, ◌∙◌, inl, inr, Bool, true, ◌&&◌, ◌||◌, none, some, List, [], ◌∷◌,
  ◌++◌, arith, ◌==◌, ==_iff, some_inj, &&_parts, Bool-cases, Option-cases, All,
}
use qingzhou_ssh.Prelude.Result.{Result-cases}
use qingzhou_ssh.Transfer.Job.{TransferJob, NewTransferJob, is_active, is_queued, is_terminal}
use qingzhou_ssh.Transfer.Table.{
  Table, get, update_where, TransferJobFinish, create, new_row, claim, claim_row, set_execution,
  is_failed, is_uncertain, validate_draft, require, to_i64, to_i64?,
}
use qingzhou_ssh.Transfer.Table.Endings.{
  Progress, update_progress, progress_row, finish, finish_row, request_cancel, cancel_row, retry,
  retry_row, may_retry, requeue_automatically, requeue_row, recover_interrupted, interrupted_row,
}
use qingzhou_ssh.Transfer.Table.Ops.{
  Op, op_create, op_claim, op_set_execution, op_update_progress, op_finish, op_request_cancel,
  op_retry, op_requeue, op_recover, apply, table_or, first_or,
}

-- A change of a row, with what the statement's `WHERE` asks of it.
pub data Change {F : Type 0} (hundred : F) (j : TransferJob F) : TransferJob F → Type 0 where
  stays : Change hundred j j
  claims : (now : ℕ) → is_queued j.status ≡ true → Change hundred j (claim_row now j)
  links :
      (execution_id now : ℕ)
      → is_active j.status ≡ true
      → Change hundred j (record j { execution_id = some execution_id; updated_at = now })
  reports :
      (p : Progress F) (now : ℕ)
      → is_active j.status ≡ true
      → is_active p.status ≡ true
      → Change hundred j (progress_row p now j)
  finishes :
      (ending : TransferJobFinish) (now : ℕ)
      → is_active j.status ≡ true
      → is_terminal ending.status ≡ true
      → Change hundred j (finish_row hundred ending now j)
  cancels : (now : ℕ) → is_queued j.status ≡ true → Change hundred j (cancel_row now j)
  asks_cancel :
      (now : ℕ)
      → is_active j.status ≡ true
      → Change hundred j (record j { cancel_requested = true; updated_at = now })
  retries :
      (now : ℕ)
      → (is_failed j.status || is_uncertain j.status) ≡ true
      → may_retry j ≡ true
      → Change hundred j (retry_row now j)
  requeues :
      (now : ℕ)
      → is_failed j.status ≡ true
      → may_retry j ≡ true
      → Change hundred j (requeue_row now j)
  interrupts : (now : ℕ) → is_active j.status ≡ true → Change hundred j (interrupted_row now j)

-- Row by row `R`, and a row that came at the end, if any, is `New`.
abbrev pub Grows :
    {F : Type 0}
    → (TransferJob F → TransferJob F → Type 0)
    → (TransferJob F → Type 0)
    → Table F
    → Table F
    → Type 0
Grows R New [] [] = Unit
Grows R New [] (k ∷ []) = New k
Grows R New [] (k ∷ (l ∷ ls)) = ⊥
Grows R New (a ∷ t) [] = ⊥
Grows R New (a ∷ t) (b ∷ t') = R a b × Grows R New t t'

-- No two rows have the same key.
abbrev pub Unique : {F : Type 0} → Table F → Type 0
Unique [] = Unit
Unique (j ∷ t) = All (λ k. k.id ≢ j.id) t × Unique t

-- A row that `create` puts into the table `t`.
abbrev pub IsNew : {F : Type 0} → Table F → TransferJob F → Type 0
IsNew {F} t j =
    (id : ℕ) × (now : ℕ) × (draft : NewTransferJob) × (j ≡ new_row id now draft)
    × All (λ k. k.id ≢ id) t

module _ {F : Type 0} (R : TransferJob F → TransferJob F → Type 0)
    (New : TransferJob F → Type 0) where
  pub Grows-refl : ((j : TransferJob F) → R j j) → (t : Table F) → Grows R New t t
  Grows-refl r [] = tt
  Grows-refl r (j ∷ t) = (r j, Grows-refl r t)

  Grows-snoc :
      ((j : TransferJob F) → R j j)
      → (t : Table F) (k : TransferJob F) → New k
      → Grows R New t (t ++ k ∷ [])
  Grows-snoc r [] k h = h
  Grows-snoc r (j ∷ t) k h = (r j, Grows-snoc r t k h)

  -- An update changes the rows that pass its test.
  Grows-update_where :
      ((j : TransferJob F) → R j j)
      → (test : TransferJob F → Bool) (change : TransferJob F → TransferJob F) (t : Table F)
      → All (λ j. test j ≡ true → R j (change j)) t
      → Grows R New t (update_where test change t).0
  unfolding update_where
  Grows-update_where r test change [] h = tt
  Grows-update_where r test change (j ∷ t) h = elim (Bool-cases (test j)) [
    | inl passed ↦ rw passed (h.0 passed, Grows-update_where r test change t h.1)
    | inr kept ↦ rw kept (r j, Grows-update_where r test change t h.1)
  ]

pub All-of {ℓ κ} : {A : Type ℓ} {P : A → Type κ} → ((a : A) → P a) → (xs : List A) → All P xs
All-of h [] = tt
All-of h (x ∷ xs) = (h x, All-of h xs)

get-none : {F : Type 0} (t : Table F) (id : ℕ) → get t id ≡ none → All (λ k. k.id ≢ id) t
unfolding get
get-none [] id h = tt
get-none (j ∷ t) id h = elim (Bool-cases (j.id == id)) [
  | inl here ↦ absurd (ground arith)
  | inr later ↦ (λ e. absurd (ground arith), get-none t id (rw (later, get) at h))
]

others :
    {F : Type 0} (own id : ℕ)
    → own ≡ id
    → (t : Table F) (row : TransferJob F) → All (λ k. k.id ≢ own) t
    → All (λ j. (j.id == id) ≡ true → j ≡ row) t
others own id e [] row h = tt
others own id e (k ∷ t) row h =
    (λ same. absurd (h.0 ((==_iff k.id id).0 same ∙ sym e)), others own id e t row h.1)

-- The row found is the only one with its key.
get-only :
    {F : Type 0} (t : Table F) (id : ℕ) (row : TransferJob F)
    → Unique t
    → get t id ≡ some row
    → All (λ j. (j.id == id) ≡ true → j ≡ row) t
unfolding get
get-only [] id row u h = tt
get-only (j ∷ t) id row u h = elim (Bool-cases (j.id == id)) [
  | inl here ↦
      let this : j ≡ row = some_inj (rw (here, get) at h) in
      (λ e. this, others j.id id ((==_iff j.id id).0 here) t row u.0)
  | inr later ↦ (λ e. absurd (ground arith), get-only t id row u.1 (rw (later, get) at h))
]

module _ {F : Type 0} (hundred : F) where
  abbrev pub Changes : Table F → Table F → Type 0
  Changes t = Grows (Change hundred) (IsNew t) t

  updates :
      (test : TransferJob F → Bool) (change : TransferJob F → TransferJob F) (t : Table F)
      → ((j : TransferJob F) → test j ≡ true → Change hundred j (change j))
      → Changes t (update_where test change t).0
  updates test change t h =
      Grows-update_where (Change hundred) (IsNew t) (λ j. stays) test change t (All-of h t)

  same : (t : Table F) → Changes t t
  same t = Grows-refl (Change hundred) (IsNew t) (λ j. stays) t

  create-Change :
      (t : Table F) (id now : ℕ) (draft : NewTransferJob)
      → Changes t (first_or t (create t id now draft))
  unfolding create
  create-Change t id now draft = elim (Result-cases (validate_draft draft)) [
    | inr (e, bad) ↦ rw (bad, create) (same t)
    | inl (u, fine) ↦ elim (Option-cases (get t id)) [
      | inr (row, taken) ↦ rw (fine, taken, create) (same t)
      | inl free ↦
          rw (fine, free, create)
            (Grows-snoc (Change hundred) (IsNew t) (λ j. stays) t (new_row id now draft)
              (id, now, draft, refl, get-none t id free))
    ]
  ]

  progress-Change :
      (t : Table F) (id : ℕ) (p : Progress F) (now : ℕ)
      → Changes t (table_or t (update_progress t id p now))
  unfolding update_progress
  progress-Change t id p now = elim (Bool-cases (is_active p.status)) [
    | inr bad ↦ rw bad (same t)
    | inl active ↦ elim (Result-cases (to_i64 p.transferred "已传输字节数")) [
      | inr (e, bad) ↦ rw (active, bad) (same t)
      | inl (a, fine) ↦ elim (Result-cases (to_i64? p.total "文件总字节数")) [
        | inr (e, bad) ↦ rw (active, fine, bad) (same t)
        | inl (b, fine') ↦ elim (Result-cases (to_i64? p.eta_seconds "预计剩余秒数")) [
          | inr (e, bad) ↦ rw (active, fine, fine', bad) (same t)
          | inl (c, fine'') ↦
              rw (active, fine, fine', fine'')
                (updates (λ job. job.id == id && is_active job.status) (progress_row p now) t
                  (λ j e. reports p now (&&_parts (j.id == id) (is_active j.status) e).1 active))
        ]
      ]
    ]
  ]

  finish-Change :
      (t : Table F) (id : ℕ) (ending : TransferJobFinish) (now : ℕ)
      → Changes t (table_or t (finish hundred t id ending now))
  unfolding finish
  finish-Change t id ending now = elim (Bool-cases (is_terminal ending.status)) [
    | inr bad ↦ rw bad (same t)
    | inl fine ↦
        let test = λ (job : TransferJob F). job.id == id && is_active job.status in
        let updated = update_where test (finish_row hundred ending now) t in
        elim (Bool-cases (updated.1 == 1)) [
          | inr bad ↦ rw (fine, bad) (same t)
          | inl one ↦
              rw (fine, one)
                (updates test (finish_row hundred ending now) t (λ j e.
                  finishes ending now (&&_parts (j.id == id) (is_active j.status) e).1 fine))
        ]
  ]

  cancel-Change :
      (t : Table F) (id now : ℕ) → Unique t → Changes t (first_or t (request_cancel t id now))
  unfolding request_cancel
  cancel-Change t id now u = elim (Option-cases (get t id)) [
    | inl gone ↦ rw (gone, request_cancel) (same t)
    | inr (row, found) ↦ elim (Bool-cases (is_queued row.status)) [
      | inl waiting ↦
          rw (found, request_cancel, waiting)
            (updates (λ job. job.id == id && is_queued job.status) (cancel_row now) t
              (λ j e. cancels now (&&_parts (j.id == id) (is_queued j.status) e).1))
      | inr left ↦ elim (Bool-cases (is_active row.status)) [
        | inr ended ↦ rw (found, request_cancel, left, ended) (same t)
        | inl active ↦
            rw (found, request_cancel, left, active)
              (Grows-update_where (Change hundred) (IsNew t) (λ j. stays) (λ job. job.id == id)
                (λ job. record job { cancel_requested = true; updated_at = now }) t
                (only-asks t row (get-only t id row u found) active))
      ]
    ]
  ]
    where
      only-asks :
          (s : Table F) (row : TransferJob F)
          → All (λ j. (j.id == id) ≡ true → j ≡ row) s
          → is_active row.status ≡ true
          → All
              (λ j.
                (j.id == id) ≡ true
                → Change hundred j (record j { cancel_requested = true; updated_at = now }))
              s
      only-asks [] row h a = tt
      only-asks (k ∷ s) row h a =
          (λ e. asks_cancel now (ap (λ r. is_active r.status) (h.0 e) ∙ a), only-asks s row h.1 a)

  retry-Change : (t : Table F) (id now : ℕ) → Changes t (first_or t (retry t id now))
  unfolding retry
  retry-Change t id now =
      let test = λ (job : TransferJob F).
        job.id == id && ((is_failed job.status || is_uncertain job.status) && may_retry job) in
      let updated = update_where test (retry_row now) t in
      elim (Bool-cases (updated.1 == 1)) [
        | inr bad ↦ rw bad (same t)
        | inl one ↦ elim (Result-cases (require updated.0 id)) [
          | inr (e, bad) ↦ rw (one, bad) (same t)
          | inl (row, fine) ↦
              rw (one, fine)
                (updates test (retry_row now) t (λ j e.
                  let p =
                    &&_parts (j.id == id)
                      ((is_failed j.status || is_uncertain j.status) && may_retry j) e in
                  let q =
                    &&_parts (is_failed j.status || is_uncertain j.status) (may_retry j) p.1 in
                  retries now q.0 q.1))
        ]
      ]

  requeue-Change : (t : Table F) (id now : ℕ) → Changes t (requeue_automatically t id now).0
  unfolding requeue_automatically
  requeue-Change t id now =
      updates (λ job. job.id == id && (is_failed job.status && may_retry job)) (requeue_row now) t
        (λ j e.
          let p = &&_parts (j.id == id) (is_failed j.status && may_retry j) e in
          let q = &&_parts (is_failed j.status) (may_retry j) p.1 in requeues now q.0 q.1)

  -- Each statement changes each row in one of the ways of `Change`, if keys are unique.
  pub apply-Change : (op : Op F) (t : Table F) → Unique t → Changes t (apply hundred op t)
  unfolding apply claim set_execution recover_interrupted
  apply-Change (op_create id now draft) t u = create-Change t id now draft
  apply-Change (op_claim id now) t u =
      updates (λ job. job.id == id && is_queued job.status) (claim_row now) t
        (λ j e. claims now (&&_parts (j.id == id) (is_queued j.status) e).1)
  apply-Change (op_set_execution id execution_id now) t u =
      updates (λ job. job.id == id && is_active job.status)
        (λ job. record job { execution_id = some execution_id; updated_at = now }) t
        (λ j e. links execution_id now (&&_parts (j.id == id) (is_active j.status) e).1)
  apply-Change (op_update_progress id p now) t u = progress-Change t id p now
  apply-Change (op_finish id ending now) t u = finish-Change t id ending now
  apply-Change (op_request_cancel id now) t u = cancel-Change t id now u
  apply-Change (op_retry id now) t u = retry-Change t id now
  apply-Change (op_requeue id now) t u = requeue-Change t id now
  apply-Change (op_recover now) t u =
      updates (λ job. is_active job.status) (interrupted_row now) t (λ j e. interrupts now e)
