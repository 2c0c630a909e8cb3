-- ===== src/Workflow/Cycle/Search.antt =====
-- What the sort has taken is sorted, and a graph for which it has taken every node has no cycle.
use qingzhou_ssh.Prelude.{
  ℕ, zero, suc, ◌+◌, ◌-◌, ◌≤◌, ◌<◌, ◌≡◌, refl, sym, ap, ◌∙◌, subst, inl, inr, true, false, not,
  ◌&&◌, List, [], ◌∷◌, ◌++◌, arith, count, filter, length, ltb, ◌==◌, ==_iff, ==_refl, Bool-cases,
  here, there, count-append,
}
use qingzhou_ssh.Workflow.Graph.{WorkflowEdge, outgoing, is_member}
use qingzhou_ssh.Workflow.Graph.Reach.{Leads, Reaches}
use qingzhou_ssh.Workflow.Cycle.{indegree, set, relax, sort_loop, has_cycle}
use qingzhou_ssh.Workflow.Cycle.Counting.{
  occurs, is_member-occurs, all_occur, occurs-filter-le, occurs-filter_passed, member_if_occurs,
  occurs_if_member,
}
use qingzhou_ssh.Workflow.Cycle.Sorted.{IsSorted, IsSorted-acyclic}

-- The edges into `x` whose sources are not taken yet.
abbrev pub open_into : List WorkflowEdge → List ℕ → ℕ → ℕ
open_into edges taken x = count (λ e. e.target == x && not (is_member e.source taken)) edges

open_into_cons :
    (edges : List WorkflowEdge) (taken : List ℕ) (id x : ℕ)
    → is_member id taken ≡ false
    → open_into edges taken x ≡ open_into edges (id ∷ taken) x + indegree (outgoing edges id) x
unfolding outgoing indegree is_member
open_into_cons [] taken id x h = refl
open_into_cons (e ∷ edges) taken id x h =
    let ih = open_into_cons edges taken id x h in
    elim (Bool-cases (e.source == id)) [
      | inl own ↦
          let same : e.source ≡ id = (==_iff e.source id).0 own in
          let back : (id == e.source) ≡ true = (==_iff id e.source).1 (sym same) in
          let fresh : is_member e.source taken ≡ false = ap (λ y. is_member y taken) same ∙ h in
          rw (own, back, fresh) (ground (arith, ih))
      | inr other ↦
          let away : (id == e.source) ≡ false = ground arith in
          rw (other, away) (ground (arith, ih))
    ]

closed_into :
    (edges : List WorkflowEdge) (taken : List ℕ) (a x : ℕ)
    → open_into edges taken x ≡ 0
    → Leads edges a x
    → is_member a taken ≡ true
closed_into [] taken a x h l = elim l [ ]
closed_into (e ∷ edges) taken a x h (here (s, t)) =
    let hit : (e.target == x) ≡ true = (==_iff e.target x).1 t in
    elim (Bool-cases (is_member e.source taken)) [
      | inl found ↦ subst (λ y. is_member y taken ≡ true) s found
      | inr missing ↦ absurd (omega (arith, (rw (hit, missing) at h)))
    ]
closed_into (e ∷ edges) taken a x h (there l) = closed_into edges taken a x (omega (arith, h)) l

all_open : (edges : List WorkflowEdge) (x : ℕ) → indegree edges x ≡ open_into edges [] x
unfolding indegree is_member
all_open [] x = refl
all_open (e ∷ edges) x = ground (arith, all_open edges x)

all_visited : (visited many : ℕ) → not (visited == many) ≡ false → visited ≡ many
all_visited visited many h = ground arith

module _ (order : List ℕ) (edges : List WorkflowEdge) where
  -- `rest` is what is left of the edges from the node taken last.
  pub record IsSearch (taken queue : List ℕ) (rest : List WorkflowEdge) (degrees : ℕ → ℕ)
      : Type 0 where
    pub counted :
        (x : ℕ) → is_member x order ≡ true → degrees x ≡ open_into edges taken x + indegree rest x
    pub zeros : (x : ℕ) → 0 < occurs x taken + occurs x queue → degrees x ≡ 0
    pub once : (x : ℕ) → occurs x taken + occurs x queue ≤ 1
    pub within : (x : ℕ) → 0 < occurs x taken + occurs x queue → is_member x order ≡ true

  skip-IsSearch :
      (taken queue : List ℕ) (e : WorkflowEdge) (es : List WorkflowEdge) (degrees : ℕ → ℕ)
      → is_member e.target order ≡ false
      → IsSearch taken queue (e ∷ es) degrees
      → IsSearch taken queue es degrees
  unfolding indegree
  skip-IsSearch taken queue e es degrees unknown h = record {
    counted = λ x m. elim (Bool-cases (e.target == x)) [
      | inl same ↦ absurd (ground (arith, unknown, m, (==_iff e.target x).0 same))
      | inr other ↦ omega (arith, (rw other at (h.counted x m)))
    ];
    zeros = h.zeros;
    once = h.once;
    within = h.within;
  }

  -- A node with an edge left to relax is neither taken nor in the queue.
  absent_target :
      (taken queue : List ℕ) (e : WorkflowEdge) (es : List WorkflowEdge) (degrees : ℕ → ℕ)
      → is_member e.target order ≡ true
      → IsSearch taken queue (e ∷ es) degrees
      → occurs e.target taken + occurs e.target queue ≡ 0
  unfolding indegree
  absent_target taken queue e es degrees known h =
      elim (Bool-cases (ltb 0 (occurs e.target taken + occurs e.target queue))) [
        | inl found ↦ absurd (
            omega (
              arith,
              h.zeros e.target (ground (arith, found)),
              (rw (==_refl e.target) at (h.counted e.target known)),
            ))
        | inr missing ↦ ground (arith, missing)
      ]

  nothing_into : (x : ℕ) → indegree [] x ≡ 0
  unfolding indegree
  nothing_into x = refl

  lower-IsSearch :
      (taken queue : List ℕ) (e : WorkflowEdge) (es : List WorkflowEdge) (degrees : ℕ → ℕ)
      → is_member e.target order ≡ true
      → IsSearch taken queue (e ∷ es) degrees
      → IsSearch taken queue es (set e.target (degrees e.target - 1) degrees)
  unfolding indegree
  lower-IsSearch taken queue e es degrees known h = record {
    counted = λ x m. elim (Bool-cases (e.target == x)) [
      | inl same ↦
          let this : x ≡ e.target = sym ((==_iff e.target x).0 same) in
          let back : (x == e.target) ≡ true = (==_iff x e.target).1 this in
          rw back (omega (arith, (rw same at (h.counted x m)), ap degrees this))
      | inr other ↦
          let away : (x == e.target) ≡ false = ground arith in
          rw away (omega (arith, (rw other at (h.counted x m))))
    ];
    zeros = λ x m. elim (Bool-cases (x == e.target)) [
      | inl same ↦
          let found : 0 < occurs e.target taken + occurs e.target queue =
            subst (λ y. 0 < occurs y taken + occurs y queue) ((==_iff x e.target).0 same) m in
          absurd (omega (arith, found, absent_target taken queue e es degrees known h))
      | inr other ↦ rw other (h.zeros x m)
    ];
    once = h.once;
    within = h.within;
  }

  last-IsSearch :
      (taken queue : List ℕ) (e : WorkflowEdge) (es : List WorkflowEdge) (degrees : ℕ → ℕ)
      → is_member e.target order ≡ true
      → (degrees e.target - 1 == 0) ≡ true
      → IsSearch taken queue (e ∷ es) degrees
      → IsSearch taken (queue ++ e.target ∷ []) es (set e.target (degrees e.target - 1) degrees)
  last-IsSearch taken queue e es degrees known last h =
      let l = lower-IsSearch taken queue e es degrees known h in
      let absent : occurs e.target taken + occurs e.target queue ≡ 0 =
        absent_target taken queue e es degrees known h in
      record {
        counted = l.counted;
        zeros = λ x m. elim (Bool-cases (e.target == x)) [
          | inl same ↦
              let back : (x == e.target) ≡ true =
                (==_iff x e.target).1 (sym ((==_iff e.target x).0 same)) in
              rw back ((==_iff (degrees e.target - 1) 0).0 last)
          | inr other ↦
              l.zeros x
                (omega (arith, (rw (count-append (λ y. y == x) queue (e.target ∷ []), other) at m)))
        ];
        once = λ x. elim (Bool-cases (e.target == x)) [
          | inl same ↦
              let absent_here : occurs x taken + occurs x queue ≡ 0 =
                subst (λ y. occurs y taken + occurs y queue ≡ 0) ((==_iff e.target x).0 same)
                  absent in
              rw (count-append (λ y. y == x) queue (e.target ∷ []), same)
                (omega (arith, absent_here))
          | inr other ↦
              rw (count-append (λ y. y == x) queue (e.target ∷ []), other) (omega (arith, h.once x))
        ];
        within = λ x m. elim (Bool-cases (e.target == x)) [
          | inl same ↦ subst (λ y. is_member y order ≡ true) ((==_iff e.target x).0 same) known
          | inr other ↦
              h.within x
                (omega (arith, (rw (count-append (λ y. y == x) queue (e.target ∷ []), other) at m)))
        ];
      }

  pub relax-IsSearch :
      (taken queue : List ℕ) (rest : List WorkflowEdge) (degrees : ℕ → ℕ)
      → IsSearch taken queue rest degrees
      → IsSearch taken (relax order rest degrees queue).1 [] (relax order rest degrees queue).0
  unfolding relax
  relax-IsSearch taken queue [] degrees h = h
  relax-IsSearch taken queue (e ∷ es) degrees h = elim (Bool-cases (is_member e.target order)) [
    | inr skipped ↦
        rw skipped
          (relax-IsSearch taken queue es degrees (skip-IsSearch taken queue e es degrees skipped h))
    | inl known ↦ elim (Bool-cases (degrees e.target - 1 == 0)) [
      | inl last ↦
          rw (known, last)
            (relax-IsSearch taken (queue ++ e.target ∷ []) es
              (set e.target (degrees e.target - 1) degrees)
              (last-IsSearch taken queue e es degrees known last h))
      | inr more ↦
          rw (known, more)
            (relax-IsSearch taken queue es (set e.target (degrees e.target - 1) degrees)
              (lower-IsSearch taken queue e es degrees known h))
    ]
  ]

  pub pop-IsSearch :
      (taken queue : List ℕ) (id : ℕ) (degrees : ℕ → ℕ)
      → IsSearch taken (id ∷ queue) [] degrees
      → IsSearch (id ∷ taken) queue (outgoing edges id) degrees
        × ((a : ℕ) → Leads edges a id → is_member a taken ≡ true)
  pop-IsSearch taken queue id degrees h =
      let here_once : 0 < occurs id taken + occurs id (id ∷ queue) = rw (==_refl id) omega arith in
      let absent : occurs id taken ≡ 0 = omega (arith, (rw (==_refl id) at (h.once id))) in
      let fresh : is_member id taken ≡ false = is_member-occurs id taken ∙ rw absent refl in
      let known = h.within id here_once in
      let closed : open_into edges taken id ≡ 0 =
        omega (arith, nothing_into id, h.counted id known, h.zeros id here_once) in
      (
        record {
          counted = λ x m.
              omega (arith, nothing_into x, h.counted x m, open_into_cons edges taken id x fresh);
          zeros = λ x m. h.zeros x (omega (arith, m));
          once = λ x. omega (arith, h.once x);
          within = λ x m. h.within x (omega (arith, m));
        },
        λ a l. closed_into edges taken a id closed l,
      )

  -- What a run of the loop has taken, with `visited` as its number.
  pub record IsTaken (taken : List ℕ) (visited : ℕ) : Type 0 where
    pub sorted : IsSorted edges taken
    pub distinct : (x : ℕ) → occurs x taken ≤ 1
    pub among : (x : ℕ) → 0 < occurs x taken → is_member x order ≡ true
    pub many : visited ≡ length taken

  stop-IsTaken :
      (taken queue : List ℕ) (degrees : ℕ → ℕ) (visited : ℕ)
      → IsSearch taken queue [] degrees
      → IsSorted edges taken
      → visited ≡ length taken
      → IsTaken taken visited
  stop-IsTaken taken queue degrees visited h s v = record {
    sorted = s;
    distinct = λ x. omega (arith, h.once x);
    among = λ x m. h.within x (omega (arith, m));
    many = v;
  }

  loop-IsTaken :
      (fuel : ℕ) (taken queue : List ℕ) (degrees : ℕ → ℕ) (visited : ℕ)
      → IsSearch taken queue [] degrees
      → IsSorted edges taken
      → visited ≡ length taken
      → (all_taken : List ℕ) × IsTaken all_taken (sort_loop fuel order edges degrees queue visited)
  unfolding sort_loop
  loop-IsTaken fuel taken [] degrees visited h s v =
      (taken, stop-IsTaken taken [] degrees visited h s v)
  loop-IsTaken zero taken (id ∷ queue) degrees visited h s v =
      (taken, stop-IsTaken taken (id ∷ queue) degrees visited h s v)
  loop-IsTaken (suc fuel) taken (id ∷ queue) degrees visited h s v =
      let (popped, before) = pop-IsSearch taken queue id degrees h in
      loop-IsTaken fuel (id ∷ taken) (relax order (outgoing edges id) degrees queue).1
        (relax order (outgoing edges id) degrees queue).0 (suc visited)
        (relax-IsSearch (id ∷ taken) queue (outgoing edges id) degrees popped) (before, s)
        (omega (arith, v))

  abbrev pub first_queue : List ℕ
  first_queue = filter (λ id. indegree edges id == 0) order

  pub start-IsSearch : ((x : ℕ) → occurs x order ≤ 1) → IsSearch [] first_queue [] (indegree edges)
  unfolding indegree
  start-IsSearch distinct = record {
    counted = λ x m. omega (arith, all_open edges x);
    zeros = λ x m.
        (==_iff (indegree edges x) 0).0
          (occurs-filter_passed (λ id. indegree edges id == 0) x order (omega (arith, m)));
    once = λ x. omega (arith, occurs-filter-le (λ id. indegree edges id == 0) x order, distinct x);
    within = λ x m.
        member_if_occurs x order
          (omega (arith, m, occurs-filter-le (λ id. indegree edges id == 0) x order));
  }

-- If `has_cycle` answers no, no chain of edges leads back to where it starts, whatever the order in
-- which the hash map gives its keys: a key is given once, the keys are the nodes, and the edges are
-- those between nodes, as for the maps that `validate_workflow` passes.
pub has_cycle-acyclic :
    (order nodes : List ℕ) (edges : List WorkflowEdge) (a b : ℕ)
    → ((x : ℕ) → occurs x order ≤ 1)
    → ((x : ℕ) → is_member x order ≡ is_member x nodes)
    → has_cycle order nodes edges ≡ false
    → is_member b nodes ≡ true
    → Leads edges a b
    → ¬ (Reaches edges b a)
unfolding has_cycle
has_cycle-acyclic order nodes edges a b distinct keys answer known l r =
    let (taken, t) =
      loop-IsTaken order edges (length order) [] (first_queue order edges) (indegree edges) 0
        (start-IsSearch order edges distinct) tt refl in
    let full : length nodes ≡ length taken = omega (
      arith,
      t.many,
      all_visited
          (sort_loop (length order) order edges (indegree edges) (first_queue order edges) 0)
          (length nodes) answer,
    ) in
    let found : 0 < occurs b taken =
      all_occur taken nodes b t.distinct
        (λ x m. occurs_if_member x nodes (sym (keys x) ∙ t.among x m)) (omega (arith, full))
        (occurs_if_member b nodes known) in
    IsSorted-acyclic edges taken a b t.sorted (member_if_occurs b taken found) l r
