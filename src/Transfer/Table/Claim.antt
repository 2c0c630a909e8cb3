-- ===== src/Transfer/Table/Claim.antt =====
-- Which job a worker picks, and what claiming it does to the number of active jobs of its server.
use qingzhou_ssh.Prelude.{
  ℕ, ◌+◌, String, ◌≡◌, ◌≢◌, refl, sym, ap, ◌∙◌, subst, ◌⊎◌, inl, inr, Bool, true, false, ◌&&◌,
  Option, none, some, [], ◌∷◌, map, arith, count, ◌==◌, ==_iff, some_inj, if◌then◌else◌, Bool-cases,
  All, Any, here, there,
}
use qingzhou_ssh.Prelude.Text.{str_eq}
use qingzhou_ssh.Transfer.Job.{TransferJob, is_active, is_queued}
use qingzhou_ssh.Transfer.Table.{
  Table, get, count_active, claim, claim_row, is_runnable, earlier, first_of, first_runnable,
  next_runnable,
}
use qingzhou_ssh.Transfer.Table.Change.{Unique}
use qingzhou_ssh.Transfer.Table.Ops.{apply, op_claim}
use qingzhou_ssh.Transfer.Table.Invariant.{IsTable, apply-IsTable}

abbrev pub bit : Bool → ℕ
bit b = if b then 1 else 0

module _ {F : Type 0} where
  -- An update by key leaves a table without that key alone.
  count_avoided :
      (q p : TransferJob F → Bool) (change : TransferJob F → TransferJob F) (own id : ℕ)
      (t : Table F)
      → own ≡ id
      → All (λ k. k.id ≢ own) t
      → (count q (map (λ k. if (k.id == id && p k) then change k else k) t) ≡ count q t)
        × (count (λ k. k.id == id && p k) t ≡ 0)
  count_avoided q p change own id [] e h = (refl, refl)
  count_avoided q p change own id (k ∷ t) e h =
      let other : (k.id == id) ≡ false = ground (arith, h.0) in
      let ih = count_avoided q p change own id t e h.1 in
      rw other (omega (arith, ih.0), omega (arith, ih.1))

  -- An update by key counts as a change of the one row with that key.
  pub count_updated :
      (q p : TransferJob F → Bool) (change : TransferJob F → TransferJob F) (id : ℕ) (t : Table F)
      (j : TransferJob F)
      → Unique t
      → get t id ≡ some j
      → p j ≡ true
      → (count q (map (λ k. if (k.id == id && p k) then change k else k) t) + bit (q j)
          ≡ count q t + bit (q (change j)))
        × (count (λ k. k.id == id && p k) t ≡ 1)
  unfolding get
  count_updated q p change id [] j u h e = absurd (ground arith)
  count_updated q p change id (k ∷ t) j u h e = elim (Bool-cases (k.id == id)) [
    | inl own ↦
        let this : k ≡ j = some_inj (rw (own, get) at h) in
        let passed : p k ≡ true = ap p this ∙ e in
        let rest = count_avoided q p change k.id id t ((==_iff k.id id).0 own) u.0 in
        let old : q j ≡ q k = ap q (sym this) in
        let new : q (change j) ≡ q (change k) = ap (λ x. q (change x)) (sym this) in
        rw (own, passed, old, new) (omega (arith, rest.0), omega (arith, rest.1))
    | inr other ↦
        let ih = count_updated q p change id t j u.1 (rw (other, get) at h) e in
        rw other (omega (arith, ih.0), omega (arith, ih.1))
  ]

  pub count_refused :
      (p : TransferJob F → Bool) (id : ℕ) (t : Table F) (j : TransferJob F)
      → Unique t
      → get t id ≡ some j
      → p j ≡ false
      → count (λ k. k.id == id && p k) t ≡ 0
  unfolding get
  count_refused p id [] j u h e = absurd (ground arith)
  count_refused p id (k ∷ t) j u h e = elim (Bool-cases (k.id == id)) [
    | inl own ↦
        let this : k ≡ j = some_inj (rw (own, get) at h) in
        let failed : p k ≡ false = ap p this ∙ e in
        let rest = count_avoided (λ x. true) p (λ x. x) k.id id t ((==_iff k.id id).0 own) u.0 in
        rw (own, failed) (omega (arith, rest.1))
    | inr other ↦
        let ih = count_refused p id t j u.1 (rw (other, get) at h) e in rw other (omega (arith, ih))
  ]

  pub get_updated :
      (p : TransferJob F → Bool) (change : TransferJob F → TransferJob F) (id : ℕ) (t : Table F)
      (j : TransferJob F)
      → ((k : TransferJob F) → (change k).id ≡ k.id)
      → get t id ≡ some j
      → p j ≡ true
      → get (map (λ k. if (k.id == id && p k) then change k else k) t) id ≡ some (change j)
  unfolding get
  get_updated p change id [] j c h e = absurd (ground arith)
  get_updated p change id (k ∷ t) j c h e = elim (Bool-cases (k.id == id)) [
    | inl own ↦
        let this : k ≡ j = some_inj (rw (own, get) at h) in
        let passed : p k ≡ true = ap p this ∙ e in
        let kept : ((change k).id == id) ≡ true = ap (λ x. x == id) (c k) ∙ own in
        rw (own, passed, kept, get) (ap (λ x. some (change x)) this)
    | inr other ↦
        rw (other, get) (rw other (get_updated p change id t j c (rw (other, get) at h) e))
  ]

  -- A claim of a queued job.
  claim_queued :
      (t : Table F) (id now : ℕ) (j : TransferJob F)
      → Unique t
      → get t id ≡ some j
      → is_queued j.status ≡ true
      → ((claim t id now).1 ≡ true)
        × (get (claim t id now).0 id ≡ some (claim_row now j))
        × ((s : String)
            → count_active s (claim t id now).0 ≡ count_active s t + bit (str_eq j.server_id s))
  unfolding claim count_active
  claim_queued t id now j u h q =
      let active = λ (s : String) (k : TransferJob F). str_eq k.server_id s && is_active k.status in
      let queued = λ (k : TransferJob F). is_queued k.status in
      let counts = λ (s : String). count_updated (active s) queued (claim_row now) id t j u h q in
      (
        rw ((counts "").1),
        get_updated queued (claim_row now) id t j (λ k. refl) h q,
        λ s. ground (arith, (counts s).0),
      )

  -- A claim of any other job.
  claim_refused :
      (t : Table F) (id now : ℕ) (j : TransferJob F)
      → Unique t
      → get t id ≡ some j
      → is_queued j.status ≡ false
      → (claim t id now).1 ≡ false
  unfolding claim
  claim_refused t id now j u h q = rw (count_refused (λ k. is_queued k.status) id t j u h q)

  -- What is found is runnable, in the list, and first of those that are runnable.
  abbrev pub Found : Table F → Table F → Option (TransferJob F) → Type 0
  Found t s none = All (λ k. is_runnable t k ≡ false) s
  Found t s (some j) =
      (is_runnable t j ≡ true)
      × Any (λ k. k ≡ j) s
      × All (λ k. (is_runnable t k ≡ false) ⊎ (earlier j k ≡ true)) s

  earlier_refl : (j : TransferJob F) → earlier j j ≡ true
  unfolding earlier
  earlier_refl j = ground arith

  earlier_trans :
      (i j k : TransferJob F) → earlier i j ≡ true → earlier j k ≡ true → earlier i k ≡ true
  unfolding earlier
  earlier_trans i j k h g = ground arith

  earlier_total : (i j : TransferJob F) → earlier i j ≡ false → earlier j i ≡ true
  unfolding earlier
  earlier_total i j h = ground arith

  unavailable :
      (t s : Table F) (j : TransferJob F)
      → All (λ k. is_runnable t k ≡ false) s
      → All (λ k. (is_runnable t k ≡ false) ⊎ (earlier j k ≡ true)) s
  unavailable t [] j h = tt
  unavailable t (k ∷ s) j h = (inl h.0, unavailable t s j h.1)

  earlier-All :
      (t s : Table F) (i j : TransferJob F)
      → earlier i j ≡ true
      → All (λ k. (is_runnable t k ≡ false) ⊎ (earlier j k ≡ true)) s
      → All (λ k. (is_runnable t k ≡ false) ⊎ (earlier i k ≡ true)) s
  earlier-All t [] i j e h = tt
  earlier-All t (k ∷ s) i j e h = (
    elim h.0 [ inl no_k ↦ inl no_k | inr later ↦ inr (earlier_trans i j k e later) ],
    earlier-All t s i j e h.1,
  )

  first_alone : (k : TransferJob F) → first_of k none ≡ k
  unfolding first_of
  first_alone k = refl

  first_of_first : (k b : TransferJob F) → earlier k b ≡ true → first_of k (some b) ≡ k
  unfolding first_of
  first_of_first k b h = ap (λ t. if t then k else b) h

  first_of_second : (k b : TransferJob F) → earlier k b ≡ false → first_of k (some b) ≡ b
  unfolding first_of
  first_of_second k b h = ap (λ t. if t then k else b) h

  Found-cons :
      (t s : Table F) (k : TransferJob F) (rest : Option (TransferJob F))
      → Found t s rest
      → Found t (k ∷ s) (if is_runnable t k then some (first_of k rest) else rest)
  Found-cons t s k none h = elim (Bool-cases (is_runnable t k)) [
    | inl ready ↦ rw ready (
        subst (λ x. Found t (k ∷ s) (some x)) (sym (first_alone k))
          (ready, here refl, (inr (earlier_refl k), unavailable t s k h)))
    | inr busy ↦ rw busy (busy, h)
  ]
  Found-cons t s k (some b) h = elim (Bool-cases (is_runnable t k)) [
    | inr busy ↦ rw busy (h.0, there h.1, (inl busy, h.2))
    | inl ready ↦ elim (Bool-cases (earlier k b)) [
      | inl first ↦ rw ready (
          subst (λ x. Found t (k ∷ s) (some x)) (sym (first_of_first k b first))
            (ready, here refl, (inr (earlier_refl k), earlier-All t s k b first h.2)))
      | inr later ↦ rw ready (
          subst (λ x. Found t (k ∷ s) (some x)) (sym (first_of_second k b later))
            (h.0, there h.1, (inr (earlier_total k b later), h.2)))
    ]
  ]

  first_runnable_lem : (t s : Table F) → Found t s (first_runnable t s)
  unfolding first_runnable
  first_runnable_lem t [] = tt
  first_runnable_lem t (k ∷ s) = Found-cons t s k (first_runnable t s) (first_runnable_lem t s)

-- `next_runnable` gives nothing just where no job is runnable; what it gives is in the table, queued,
-- of a server with fewer than two active jobs, and first by creation time and id among such jobs.
pub next_runnable_lem : {F : Type 0} (t : Table F) → Found t t (next_runnable t)
unfolding next_runnable
next_runnable_lem t = first_runnable_lem t t

-- Of two workers that claim the same queued job only the first gets it; the job then has one more
-- attempt and is connecting.
pub claim_once :
    {F : Type 0} (hundred : F) (t : Table F) (id now later : ℕ) (j : TransferJob F)
    → IsTable hundred t
    → get t id ≡ some j
    → is_queued j.status ≡ true
    → ((claim t id now).1 ≡ true)
      × (get (claim t id now).0 id ≡ some (claim_row now j))
      × ((claim (claim t id now).0 id later).1 ≡ false)
claim_once hundred t id now later j h found q =
    let c = claim_queued t id now j h.0 found q in
    (
      c.0,
      c.1,
      claim_refused (claim t id now).0 id later (claim_row now j)
          (unfold apply in (apply-IsTable hundred (op_claim id now) t h).0) c.1
          (unfold claim_row in refl),
    )

-- A claim of a queued job adds one to the active jobs of its server and to no other server's,
-- however many there are: the limit of two is tested by `next_runnable` alone.
pub claim-count_active :
    {F : Type 0} (hundred : F) (t : Table F) (id now : ℕ) (j : TransferJob F) (server_id : String)
    → IsTable hundred t
    → get t id ≡ some j
    → is_queued j.status ≡ true
    → count_active server_id (claim t id now).0
      ≡ count_active server_id t + (if str_eq j.server_id server_id then 1 else 0)
claim-count_active hundred t id now j server_id h found q =
    (claim_queued t id now j h.0 found q).2 server_id
