-- ===== src/Workflow/Cycle/Found.antt =====
-- If the sort stops before it has taken every node, there is a cycle, and the fuel was enough.
use qingzhou_ssh.Prelude.{
  ℕ, zero, suc, ◌+◌, ◌-◌, ◌≤◌, ◌<◌, ◌≡◌, ◌≢◌, refl, sym, ap, ◌∙◌, subst, ◌⊎◌, inl, inr, Bool, true,
  false, not, ◌&&◌, List, [], ◌∷◌, ◌++◌, arith, filter, length, ltb, ◌==◌, ==_iff, ==_refl,
  Bool-cases, here, there, count-append,
}
use qingzhou_ssh.Workflow.Graph.{WorkflowEdge, outgoing, is_member}
use qingzhou_ssh.Workflow.Graph.Reach.{Leads, Reaches, at_start, along}
use qingzhou_ssh.Workflow.Cycle.{indegree, set, relax, sort_loop, has_cycle}
use qingzhou_ssh.Workflow.Cycle.Counting.{
  occurs, is_member-occurs, length-le, fresh_once, fresh_within, member_if_occurs, occurs_if_member,
}
use qingzhou_ssh.Workflow.Cycle.Search.{
  open_into, IsSearch, relax-IsSearch, pop-IsSearch, start-IsSearch, first_queue,
}

-- An edge from a node that is not taken.
open_edge :
    (edges : List WorkflowEdge) (taken : List ℕ) (x : ℕ)
    → 0 < open_into edges taken x
    → (a : ℕ) × Leads edges a x × (is_member a taken ≡ false)
open_edge [] taken x h = absurd (omega (arith, h))
open_edge (e ∷ edges) taken x h =
    elim (Bool-cases (e.target == x && not (is_member e.source taken))) [
      | inl this ↦ (e.source, here (refl, ground (arith, this)), ground (arith, this))
      | inr other ↦
          let (a, l, m) = open_edge edges taken x (omega (arith, (rw other at h))) in
          (a, there l, m)
    ]

-- An edge, and a chain that leads back to where it starts.
abbrev pub Cycle : List WorkflowEdge → Type 0
Cycle edges = (a : ℕ) × (b : ℕ) × Leads edges a b × Reaches edges b a

step_back :
    (edges : List WorkflowEdge) (y h : ℕ) {x : ℕ}
    → Leads edges y h
    → Reaches edges h x
    → Reaches edges y x
step_back edges y h l at_start = along at_start l
step_back edges y h l (along r m) = along (step_back edges y h l r) m

-- Going back from node to node within `order` meets a node again.
walk_back :
    (order : List ℕ) (edges : List WorkflowEdge) (P : ℕ → Type 0)
    → ((x : ℕ) → P x → 0 < occurs x order)
    → ((x : ℕ) → P x → (y : ℕ) × Leads edges y x × P y)
    → (n : ℕ) (h : ℕ) (path : List ℕ) → P h
    → ((x : ℕ) → occurs x (h ∷ path) ≤ 1)
    → ((x : ℕ) → 0 < occurs x (h ∷ path) → 0 < occurs x order)
    → ((x : ℕ) → 0 < occurs x (h ∷ path) → Reaches edges h x)
    → length order < n + length (h ∷ path)
    → Cycle edges
walk_back order edges P within back zero h path p once among reaches long =
    absurd (omega (arith, long, length-le (h ∷ path) order once among))
walk_back order edges P within back (suc n) h path p once among reaches long =
    let (y, l, q) = back h p in
    elim (Bool-cases (ltb 0 (occurs y (h ∷ path)))) [
      | inl again ↦ (y, h, l, reaches y (ground (arith, again)))
      | inr fresh ↦
          let absent : occurs y (h ∷ path) ≡ 0 = ground (arith, fresh) in
          walk_back order edges P within back n y (h ∷ path) q
            (λ x. fresh_once y x (h ∷ path) absent (once x))
            (λ x m. fresh_within y x (h ∷ path) order (within y q) (among x) m)
            (λ x m. elim (Bool-cases (y == x)) [
              | inl same ↦ subst (λ z. Reaches edges y z) ((==_iff y x).0 same) at_start
              | inr other ↦ step_back edges y h l (reaches x (omega (arith, (rw other at m))))
            ])
            (omega (arith, long))
    ]

-- Every key is taken, or one is not.
missing :
    (taken order : List ℕ)
    → ((x : ℕ) → 0 < occurs x order → 0 < occurs x taken)
      ⊎ ((x : ℕ) × (0 < occurs x order) × (occurs x taken ≡ 0))
missing taken [] = inl (λ x m. absurd (omega (arith, m)))
missing taken (y ∷ order) = elim (Bool-cases (ltb 0 (occurs y taken))) [
  | inr none_of_it ↦ inr (y, rw (==_refl y) omega arith, ground (arith, none_of_it))
  | inl found ↦ elim (missing taken order) [
    | inr left ↦ inr (left.0, omega (arith, left.1), left.2)
    | inl all ↦ inl (λ x m. elim (Bool-cases (y == x)) [
      | inl same ↦ subst (λ z. 0 < occurs z taken) ((==_iff y x).0 same) (ground (arith, found))
      | inr other ↦ all x (omega (arith, (rw other at m)))
    ])
  ]
]

not_all : (visited many : ℕ) → not (visited == many) ≡ true → visited ≢ many
not_all visited many h = ground arith

pub alone_once : (y x : ℕ) → occurs x (y ∷ []) ≤ 1
alone_once y x = ground arith

pub alone_same : (y x : ℕ) → 0 < occurs x (y ∷ []) → y ≡ x
alone_same y x h = ground arith

occurs_in_filter :
    (test : ℕ → Bool) (x : ℕ) (xs : List ℕ)
    → 0 < occurs x xs
    → test x ≡ true
    → 0 < occurs x (filter test xs)
occurs_in_filter test x [] h passed = absurd (omega (arith, h))
occurs_in_filter test x (y ∷ xs) h passed = elim (Bool-cases (y == x)) [
  | inl same ↦
      let first : test y ≡ true = ap test ((==_iff y x).0 same) ∙ passed in
      rw (first, same) omega arith
  | inr other ↦
      let ih = occurs_in_filter test x xs (omega (arith, (rw other at h))) passed in
      elim (Bool-cases (test y)) [
        | inl kept ↦ rw (kept, other) (omega (arith, ih))
        | inr dropped ↦ rw dropped ih
      ]
]

module _ (order : List ℕ) (edges : List WorkflowEdge) where
  -- A key whose count is 0 is taken or in the queue.
  abbrev pub NoneLost : List ℕ → List ℕ → (ℕ → ℕ) → Type 0
  NoneLost taken queue degrees =
      (x : ℕ) → is_member x order ≡ true → degrees x ≡ 0 → 0 < occurs x taken + occurs x queue

  relax-NoneLost :
      (taken queue : List ℕ) (rest : List WorkflowEdge) (degrees : ℕ → ℕ)
      → NoneLost taken queue degrees
      → NoneLost taken (relax order rest degrees queue).1 (relax order rest degrees queue).0
  unfolding relax
  relax-NoneLost taken queue [] degrees h = h
  relax-NoneLost taken queue (e ∷ es) degrees h = elim (Bool-cases (is_member e.target order)) [
    | inr skipped ↦ rw skipped (relax-NoneLost taken queue es degrees h)
    | inl known ↦ elim (Bool-cases (degrees e.target - 1 == 0)) [
      | inl last ↦
          rw (known, last)
            (relax-NoneLost taken (queue ++ e.target ∷ []) es
              (set e.target (degrees e.target - 1) degrees)
              (λ x m z. elim (Bool-cases (e.target == x)) [
                | inl same ↦ rw (count-append (λ y. y == x) queue (e.target ∷ []), same) omega arith
                | inr other ↦
                    let away : (x == e.target) ≡ false = ground arith in
                    rw (count-append (λ y. y == x) queue (e.target ∷ []), other)
                      (omega (arith, h x m (rw away at z)))
              ]))
      | inr more ↦
          rw (known, more)
            (relax-NoneLost taken queue es (set e.target (degrees e.target - 1) degrees) (λ x m z.
              elim (Bool-cases (x == e.target)) [
                | inl same ↦ absurd (ground (arith, more, (rw same at z)))
                | inr other ↦ h x m (rw other at z)
              ]))
    ]
  ]

  loop_ends :
      (fuel : ℕ) (taken queue : List ℕ) (degrees : ℕ → ℕ) (visited : ℕ)
      → IsSearch order edges taken queue [] degrees
      → NoneLost taken queue degrees
      → visited ≡ length taken
      → length order ≤ fuel + length taken
      → (all_taken : List ℕ) × (last_degrees : ℕ → ℕ) × IsSearch order edges all_taken [] []
          last_degrees
        × NoneLost all_taken [] last_degrees
        × (sort_loop fuel order edges degrees queue visited ≡ length all_taken)
  unfolding sort_loop
  loop_ends fuel taken [] degrees visited h k v enough = (taken, degrees, h, k, v)
  loop_ends zero taken (id ∷ queue) degrees visited h k v enough = absurd (
      omega (
        arith,
        enough,
        length-le (id ∷ taken) order (λ x. omega (arith, h.once x))
            (λ x m. occurs_if_member x order (h.within x (omega (arith, m)))),
      ))
  loop_ends (suc fuel) taken (id ∷ queue) degrees visited h k v enough =
      let (popped, before) = pop-IsSearch order edges taken queue id degrees h in
      loop_ends fuel (id ∷ taken) (relax order (outgoing edges id) degrees queue).1
        (relax order (outgoing edges id) degrees queue).0 (suc visited)
        (relax-IsSearch order edges (id ∷ taken) queue (outgoing edges id) degrees popped)
        (relax-NoneLost (id ∷ taken) queue (outgoing edges id) degrees
          (λ x m z. omega (arith, k x m z)))
        (omega (arith, v)) (omega (arith, enough))

  start-NoneLost : NoneLost [] (first_queue order edges) (indegree edges)
  start-NoneLost x m z = omega (
    arith,
    occurs_in_filter (λ id. indegree edges id == 0) x order (occurs_if_member x order m)
        (rw z refl),
  )

  untaken :
      (taken : List ℕ) (degrees : ℕ → ℕ) (x : ℕ)
      → IsSearch order edges taken [] [] degrees
      → NoneLost taken [] degrees
      → is_member x order ≡ true
      → is_member x taken ≡ false
      → 0 < open_into edges taken x
  unfolding indegree
  untaken taken degrees x h k m free =
      let absent : occurs x taken ≡ 0 = ground (arith, (sym (is_member-occurs x taken) ∙ free)) in
      elim (Bool-cases (degrees x == 0)) [
        | inl zero_left ↦ absurd (omega (arith, absent, k x m ((==_iff (degrees x) 0).0 zero_left)))
        | inr some_left ↦ ground (arith, some_left, h.counted x m)
      ]

-- If `has_cycle` answers yes, there is an edge with a chain of edges from its target back to its
-- source, whatever the order in which the hash map gives its keys: a key is given once, the keys are
-- the nodes, no node is listed twice, and every edge starts at a node.
pub has_cycle-Cycle :
    (order nodes : List ℕ) (edges : List WorkflowEdge)
    → ((x : ℕ) → occurs x order ≤ 1)
    → ((x : ℕ) → is_member x order ≡ is_member x nodes)
    → ((x : ℕ) → occurs x nodes ≤ 1)
    → ((a b : ℕ) → Leads edges a b → is_member a nodes ≡ true)
    → has_cycle order nodes edges ≡ true
    → Cycle edges
unfolding has_cycle
has_cycle-Cycle order nodes edges distinct keys once joined answer =
    let (taken, degrees, h, k, visited) =
      loop_ends order edges (length order) [] (first_queue order edges) (indegree edges) 0
        (start-IsSearch order edges distinct) (start-NoneLost order edges) refl (omega arith) in
    elim (missing taken order) [
      | inl all ↦
          let as_many : length taken ≡ length nodes = omega (
            arith,
            length-le nodes order once
                (λ x m. occurs_if_member x order (keys x ∙ member_if_occurs x nodes m)),
            length-le order nodes distinct
                (λ x m. occurs_if_member x nodes (sym (keys x) ∙ member_if_occurs x order m)),
            length-le order taken distinct all,
            length-le taken order (λ x. omega (arith, h.once x))
                (λ x m. occurs_if_member x order (h.within x (omega (arith, m)))),
          ) in
          absurd (
            not_all
              (sort_loop (length order) order edges (indegree edges) (first_queue order edges) 0)
              (length nodes) answer (visited ∙ as_many))
      | inr found ↦
          walk_back order edges (λ x. (is_member x order ≡ true) × (is_member x taken ≡ false))
            (λ x p. occurs_if_member x order p.0)
            (λ x p.
              let (y, l, free) =
                open_edge edges taken x (untaken order edges taken degrees x h k p.0 p.1) in
              (y, l, (keys y ∙ joined y x l, free)))
            (length order) found.0 []
            (
              member_if_occurs found.0 order found.1,
              is_member-occurs found.0 taken ∙ rw (found.2) refl,
            )
            (λ x. alone_once found.0 x)
            (λ x m. subst (λ z. 0 < occurs z order) (alone_same found.0 x m) found.1)
            (λ x m. subst (λ z. Reaches edges found.0 z) (alone_same found.0 x m) at_start)
            (omega arith)
    ]
