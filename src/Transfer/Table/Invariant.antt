-- ===== src/Transfer/Table/Invariant.antt =====
-- What holds of every row after any statements, from an empty table.
use qingzhou_ssh.Prelude.{
  ℕ, ◌≤◌, ◌<◌, ◌≡◌, ◌≢◌, refl, sym, ap, ◌∙◌, subst, Bool, true, false, Option, none, some, List, [],
  ◌∷◌, arith, All,
}
use qingzhou_ssh.Transfer.Job.{TransferJob, NewTransferJob, is_active, is_queued, is_terminal}
use qingzhou_ssh.Transfer.Table.{Table, new_row, claim_row, is_succeeded}
use qingzhou_ssh.Transfer.Table.Endings.{
  progress_row, finish_row, cancel_row, retry_row, requeue_row, interrupted_row,
}
use qingzhou_ssh.Transfer.Table.Ops.{Op, apply, apply_all}
use qingzhou_ssh.Transfer.Table.Change.{
  Change, stays, claims, links, reports, finishes, cancels, asks_cancel, retries, requeues,
  interrupts, Grows, Unique, IsNew, apply-Change,
}

abbrev pub is_some {ℓ} : {A : Type ℓ} → Option A → Bool
is_some none = false
is_some (some a) = true

module _ {F : Type 0} (hundred : F) where
  pub record IsRow (j : TransferJob F) : Type 0 where
    pub attempts : j.attempt_count ≤ j.max_attempts
    pub attempts_left : is_queued j.status ≡ true → j.attempt_count < j.max_attempts
    pub ended : is_some j.finished_at ≡ is_terminal j.status
    pub started : is_active j.status ≡ true → is_some j.started_at ≡ true
    pub unlinked : is_queued j.status ≡ true → j.execution_id ≡ none
    pub not_cancelled : is_queued j.status ≡ true → j.cancel_requested ≡ false
    pub hundred_percent : is_succeeded j.status ≡ true → j.percent ≡ some hundred

  new_row-IsRow : (id now : ℕ) (draft : NewTransferJob) → IsRow (new_row id now draft)
  unfolding new_row
  new_row-IsRow id now draft = ground arith

  Change-IsRow : {j k : TransferJob F} → Change hundred j k → IsRow j → IsRow k
  unfolding claim_row progress_row finish_row cancel_row retry_row requeue_row interrupted_row
  Change-IsRow stays h = h
  Change-IsRow (claims now q) h = ground arith
  Change-IsRow (links execution_id now a) h = ground arith
  Change-IsRow (reports p now a b) h = ground arith
  Change-IsRow (finishes ending now a b) h = ground arith
  Change-IsRow (cancels now q) h = ground arith
  Change-IsRow (asks_cancel now a) h = ground arith
  Change-IsRow (retries now a b) h = ground arith
  Change-IsRow (requeues now a b) h = ground arith
  Change-IsRow (interrupts now a) h = ground arith

  id-new_row : (id now : ℕ) (draft : NewTransferJob) → (new_row {F = F} id now draft).id ≡ id
  unfolding new_row
  id-new_row id now draft = refl

  -- No statement changes a key.
  pub id-Change : {j k : TransferJob F} → Change hundred j k → k.id ≡ j.id
  unfolding claim_row progress_row finish_row cancel_row retry_row requeue_row interrupted_row
  id-Change stays = refl
  id-Change (claims now q) = refl
  id-Change (links execution_id now a) = refl
  id-Change (reports p now a b) = refl
  id-Change (finishes ending now a b) = refl
  id-Change (cancels now q) = refl
  id-Change (asks_cancel now a) = refl
  id-Change (retries now a b) = refl
  id-Change (requeues now a b) = refl
  id-Change (interrupts now a) = refl

  module _ (New : TransferJob F → Type 0) where
    Grows-IsRow :
        (t t' : Table F)
        → ((k : TransferJob F) → New k → IsRow k)
        → Grows (Change hundred) New t t'
        → All IsRow t
        → All IsRow t'
    Grows-IsRow [] [] n g h = tt
    Grows-IsRow [] (k ∷ []) n g h = (n k g, tt)
    Grows-IsRow [] (k ∷ (l ∷ ls)) n g h = elim g [ ]
    Grows-IsRow (j ∷ t) [] n g h = elim g [ ]
    Grows-IsRow (j ∷ t) (k ∷ t') n g h = (Change-IsRow g.0 h.0, Grows-IsRow t t' n g.1 h.1)

    Grows-avoids :
        (x : ℕ) (t t' : Table F)
        → ((k : TransferJob F) → New k → k.id ≢ x)
        → Grows (Change hundred) New t t'
        → All (λ k. k.id ≢ x) t
        → All (λ k. k.id ≢ x) t'
    Grows-avoids x [] [] n g h = tt
    Grows-avoids x [] (k ∷ []) n g h = (n k g, tt)
    Grows-avoids x [] (k ∷ (l ∷ ls)) n g h = elim g [ ]
    Grows-avoids x (j ∷ t) [] n g h = elim g [ ]
    Grows-avoids x (j ∷ t) (k ∷ t') n g h =
        (λ e. h.0 (sym (id-Change g.0) ∙ e), Grows-avoids x t t' n g.1 h.1)

    Grows-Unique :
        (t t' : Table F)
        → ((k : TransferJob F) → New k → All (λ j. k.id ≢ j.id) t)
        → Grows (Change hundred) New t t'
        → Unique t
        → Unique t'
    Grows-Unique [] [] n g u = tt
    Grows-Unique [] (k ∷ []) n g u = (tt, tt)
    Grows-Unique [] (k ∷ (l ∷ ls)) n g u = elim g [ ]
    Grows-Unique (j ∷ t) [] n g u = elim g [ ]
    Grows-Unique (j ∷ t) (k ∷ t') n g u = (
      Grows-avoids k.id t t' (λ l m e. (n l m).0 (e ∙ id-Change g.0)) g.1
          (subst (λ x. All (λ k. k.id ≢ x) t) (sym (id-Change g.0)) u.0),
      Grows-Unique t t' (λ l m. (n l m).1) g.1 u.1,
    )

  abbrev pub IsTable : Table F → Type 0
  IsTable t = Unique t × All IsRow t

  avoid_flip : (x : ℕ) (t : Table F) → All (λ k. k.id ≢ x) t → All (λ k. x ≢ k.id) t
  avoid_flip x [] h = tt
  avoid_flip x (k ∷ t) h = (λ e. h.0 (sym e), avoid_flip x t h.1)

  -- Every statement, refused or not, keeps keys unique and every row well-formed.
  pub apply-IsTable : (op : Op F) (t : Table F) → IsTable t → IsTable (apply hundred op t)
  apply-IsTable op t h =
      let c = apply-Change hundred op t h.0 in
      (
        Grows-Unique (IsNew t) t (apply hundred op t)
            (λ k (id, now, draft, e, fresh).
              subst (λ x. All (λ j. x ≢ j.id) t) (sym (ap (λ r. r.id) e ∙ id-new_row id now draft))
                (avoid_flip id t fresh))
            c h.0,
        Grows-IsRow (IsNew t) t (apply hundred op t)
            (λ k (id, now, draft, e, fresh). subst IsRow (sym e) (new_row-IsRow id now draft)) c
            h.1,
      )

  pub apply_all-IsTable :
      (ops : List (Op F)) (t : Table F) → IsTable t → IsTable (apply_all hundred ops t)
  unfolding apply_all
  apply_all-IsTable [] t h = h
  apply_all-IsTable (op ∷ ops) t h =
      apply_all-IsTable ops (apply hundred op t) (apply-IsTable op t h)

-- Whatever statements run, in whatever order, on a table that starts empty: keys are unique; no job
-- has more attempts than its limit, and a queued one has some left; a job has a finish time just
-- when its status is terminal, and a start time once it is active; a queued job is linked to no
-- execution and not asked to cancel; a job that succeeded is at 100 percent.
pub statements-IsTable :
    {F : Type 0} (hundred : F) (ops : List (Op F)) → IsTable hundred (apply_all hundred ops [])
statements-IsTable hundred ops = apply_all-IsTable hundred ops [] (tt, tt)
