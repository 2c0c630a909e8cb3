-- ===== src/Transfer/Table/Moves.antt =====
-- How a job's status moves, and what is never undone.
use qingzhou_ssh.Prelude.{
  ℕ, ◌≡◌, refl, ap, ◌∙◌, subst, ◌⊎◌, inl, inr, Bool, true, false, some, List, [], ◌∷◌, arith, ◌==◌,
  some_inj, Bool-cases,
}
use qingzhou_ssh.Transfer.Job.{
  TransferJob, TransferJobStatus, TransferJobStatus-discrete, succeeded, cancelled, is_active,
  can_transition_to,
}
use qingzhou_ssh.Transfer.Table.{Table, get, claim_row}
use qingzhou_ssh.Transfer.Table.Endings.{
  progress_row, finish_row, cancel_row, retry_row, requeue_row, interrupted_row,
}
use qingzhou_ssh.Transfer.Table.Ops.{Op, apply, apply_all}
use qingzhou_ssh.Transfer.Table.Change.{
  Change, stays, claims, links, reports, finishes, cancels, asks_cancel, retries, requeues,
  interrupts, Grows, Unique, IsNew, apply-Change,
}
use qingzhou_ssh.Transfer.Table.Invariant.{IsTable, apply-IsTable, id-Change}

-- `Succeeded` and `Cancelled`: what no statement leaves.
abbrev pub is_final : TransferJobStatus → Bool
is_final succeeded = true
is_final cancelled = true
is_final _ = false

can_stay : (s : TransferJobStatus) → can_transition_to s s ≡ true
unfolding can_transition_to
can_stay s = elim (TransferJobStatus-discrete s s) [ yes e ↦ ground arith | no n ↦ absurd (n refl) ]

-- The status after a statement.
abbrev pub MayBecome : TransferJobStatus → TransferJobStatus → Type 0
MayBecome before after =
    (can_transition_to before after ≡ true)
    ⊎ ((is_active before ≡ true) × ((is_active after ≡ true) ⊎ (after ≡ succeeded)))

module _ {F : Type 0} (hundred : F) where
  Change-final : {j k : TransferJob F} → Change hundred j k → is_final j.status ≡ true → k ≡ j
  Change-final stays f = refl
  Change-final (claims now q) f = absurd (ground arith)
  Change-final (links execution_id now a) f = absurd (ground arith)
  Change-final (reports p now a b) f = absurd (ground arith)
  Change-final (finishes ending now a b) f = absurd (ground arith)
  Change-final (cancels now q) f = absurd (ground arith)
  Change-final (asks_cancel now a) f = absurd (ground arith)
  Change-final (retries now a b) f = absurd (ground arith)
  Change-final (requeues now a b) f = absurd (ground arith)
  Change-final (interrupts now a) f = absurd (ground arith)

  -- The row with a key is still there, changed in one of the ways.
  Grows-get :
      (New : TransferJob F → Type 0) (id : ℕ) (t t' : Table F) (j : TransferJob F)
      → Grows (Change hundred) New t t'
      → get t id ≡ some j
      → (k : TransferJob F) × (get t' id ≡ some k) × Change hundred j k
  unfolding get
  Grows-get New id [] t' j g h = cc
  Grows-get New id (a ∷ t) [] j g h = elim g [ ]
  Grows-get New id (a ∷ t) (b ∷ t') j g h = elim (Bool-cases (a.id == id)) [
    | inl here ↦
        let there : (b.id == id) ≡ true = ap (λ x. x == id) (id-Change hundred g.0) ∙ here in
        (b, rw (there, get), subst (λ x. Change hundred x b) (some_inj (rw (here, get) at h)) g.0)
    | inr later ↦
        let not_there : (b.id == id) ≡ false = ap (λ x. x == id) (id-Change hundred g.0) ∙ later in
        let (k, found, change) = Grows-get New id t t' j g.1 (rw (later, get) at h) in
        (k, rw (not_there, get) found, change)
  ]

  pub apply-get :
      (op : Op F) (t : Table F) (id : ℕ) (j : TransferJob F)
      → Unique t
      → get t id ≡ some j
      → (k : TransferJob F) × (get (apply hundred op t) id ≡ some k) × Change hundred j k
  apply-get op t id j u h =
      Grows-get (IsNew t) id t (apply hundred op t) j (apply-Change hundred op t u) h

  -- A job that has succeeded or was cancelled keeps its row as it is under any statements.
  pub final_unchanged :
      (ops : List (Op F)) (t : Table F) (id : ℕ) (j : TransferJob F)
      → IsTable hundred t
      → get t id ≡ some j
      → is_final j.status ≡ true
      → get (apply_all hundred ops t) id ≡ some j
  unfolding apply_all
  final_unchanged [] t id j u h f = h
  final_unchanged (op ∷ ops) t id j u h f =
      let (k, found, change) = apply-get op t id j u.0 h in
      final_unchanged ops (apply hundred op t) id j (apply-IsTable hundred op t u)
        (found ∙ ap some (Change-final change f)) f

  Change-MayBecome : {j k : TransferJob F} → Change hundred j k → MayBecome j.status k.status
  unfolding can_transition_to claim_row progress_row finish_row cancel_row retry_row requeue_row
      interrupted_row
  Change-MayBecome {j = j} stays = inl (can_stay j.status)
  Change-MayBecome (claims now q) = ground arith
  Change-MayBecome (links execution_id now a) = ground arith
  Change-MayBecome (reports p now a b) = ground arith
  Change-MayBecome (finishes ending now a b) = ground arith
  Change-MayBecome (cancels now q) = ground arith
  Change-MayBecome (asks_cancel now a) = ground arith
  Change-MayBecome (retries now a b) = ground arith
  Change-MayBecome (requeues now a b) = ground arith
  Change-MayBecome (interrupts now a) = ground arith

  -- A statement leaves a job where it is or moves it along `can_transition_to`; the two exceptions
  -- are that an active job may be reported in any active status, and may succeed from any.
  pub status_moves :
      (op : Op F) (t : Table F) (id : ℕ) (j : TransferJob F)
      → IsTable hundred t
      → get t id ≡ some j
      → (k : TransferJob F) × (get (apply hundred op t) id ≡ some k)
        × MayBecome j.status k.status
        × (k.id ≡ j.id)
  status_moves op t id j h found =
      let (k, there, change) = apply-get op t id j h.0 found in
      (k, there, Change-MayBecome change, id-Change hundred change)
