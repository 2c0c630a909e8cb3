-- ===== src/Workflow/Graph/Reach.antt =====
-- The search finds the nodes that a chain of edges leads to, and no others.
use qingzhou_ssh.Prelude.{
  ℕ, zero, suc, ◌+◌, ◌≤◌, ◌≡◌, refl, sym, ap, ◌∙◌, subst, ◌⊎◌, inl, inr, ◌↔◌, true, false, not,
  ◌||◌, List, [], ◌∷◌, ◌++◌, map, count, length, length-append, count-le-length, arith, ◌==◌,
  ==_iff, ==_refl, Bool-cases, Any, here, there,
}
use qingzhou_ssh.Workflow.Graph.{WorkflowEdge, outgoing, is_member, search_loop, reachable_from}

-- There is an edge from `a` to `b`.
abbrev pub Leads : List WorkflowEdge → ℕ → ℕ → Type 0
Leads edges a b = Any (λ e. (e.source ≡ a) × (e.target ≡ b)) edges

pub data Reaches (edges : List WorkflowEdge) (first : ℕ) : ℕ → Type 0 where
  at_start : Reaches edges first first
  along : {a b : ℕ} → Reaches edges first a → Leads edges a b → Reaches edges first b

abbrev pub targets : List WorkflowEdge → ℕ → List ℕ
targets edges id = map (λ e. e.target) (outgoing edges id)

member-append :
    (n : ℕ) (xs ys : List ℕ) → is_member n (xs ++ ys) ≡ (is_member n xs || is_member n ys)
unfolding is_member
member-append n [] ys = refl
member-append n (x ∷ xs) ys = ground (arith, member-append n xs ys)

member_cons : (n x : ℕ) (xs : List ℕ) → is_member n (x ∷ xs) ≡ (x == n || is_member n xs)
unfolding is_member
member_cons n x xs = refl

Leads-targets :
    (edges : List WorkflowEdge) (a b : ℕ) → Leads edges a b → is_member b (targets edges a) ≡ true
unfolding outgoing is_member
Leads-targets [] a b l = elim l [ ]
Leads-targets (e ∷ edges) a b (here h) =
    rw ((==_iff e.source a).1 h.0) rw ((==_iff e.target b).1 h.1) refl
Leads-targets (e ∷ edges) a b (there l) =
    let ih = Leads-targets edges a b l in
    elim (Bool-cases (e.source == a)) [
      | inl own ↦ rw own (ground (arith, ih))
      | inr other ↦ rw other ih
    ]

targets-Leads :
    (edges : List WorkflowEdge) (a b : ℕ) → is_member b (targets edges a) ≡ true → Leads edges a b
unfolding outgoing is_member
targets-Leads [] a b h = absurd (ground arith)
targets-Leads (e ∷ edges) a b h = elim (Bool-cases (e.source == a)) [
  | inr other ↦ there (targets-Leads edges a b (rw other at h))
  | inl own ↦ elim (Bool-cases (e.target == b)) [
    | inl hit ↦ here ((==_iff e.source a).0 own, (==_iff e.target b).0 hit)
    | inr miss ↦
        let among : (e.target == b || is_member b (targets edges a)) ≡ true = rw own at h in
        there (targets-Leads edges a b (rw miss at among))
  ]
]

-- The edges whose source is not found yet.
abbrev pub waiting : List ℕ → List WorkflowEdge → ℕ
waiting reachable edges = count (λ e. not (is_member e.source reachable)) edges

waiting_cons :
    (id : ℕ) (reachable : List ℕ) (edges : List WorkflowEdge)
    → is_member id reachable ≡ false
    → waiting (id ∷ reachable) edges + length (targets edges id) ≡ waiting reachable edges
unfolding outgoing is_member
waiting_cons id reachable [] h = omega arith
waiting_cons id reachable (e ∷ edges) h =
    let ih = waiting_cons id reachable edges h in
    elim (Bool-cases (e.source == id)) [
      | inl own ↦
          let same : e.source ≡ id = (==_iff e.source id).0 own in
          let back : (id == e.source) ≡ true = (==_iff id e.source).1 (sym same) in
          let fresh : is_member e.source reachable ≡ false =
            ap (λ x. is_member x reachable) same ∙ h in
          rw (own, back, fresh) (omega (arith, ih))
      | inr other ↦
          let away : (id == e.source) ≡ false = ground arith in rw (other, away) (omega (arith, ih))
    ]

-- What is found, and what is still in the queue, is in the answer, and the answer is closed.
abbrev pub Closed : List WorkflowEdge → List ℕ → List ℕ → List ℕ → Type 0
Closed edges queue reachable answer =
    ((n : ℕ) → (is_member n reachable || is_member n queue) ≡ true → is_member n answer ≡ true)
    × ((a b : ℕ) → Leads edges a b → is_member a answer ≡ true → is_member b answer ≡ true)

-- A node that is found has its targets found or in the queue.
abbrev pub Followed : List WorkflowEdge → List ℕ → List ℕ → Type 0
Followed edges queue reachable =
    (a b : ℕ)
    → Leads edges a b
    → is_member a reachable ≡ true
    → (is_member b reachable || is_member b queue) ≡ true

drop_none :
    (n : ℕ) (reachable : List ℕ)
    → (is_member n reachable || is_member n []) ≡ true
    → is_member n reachable ≡ true
unfolding is_member
drop_none n reachable h = ground arith

first_in :
    (id : ℕ) (queue reachable : List ℕ)
    → (is_member id reachable || is_member id (id ∷ queue)) ≡ true
first_in id queue reachable = rw (member_cons id id queue, ==_refl id) ground arith

add_seen :
    (n id : ℕ) (queue reachable : List ℕ)
    → (is_member n reachable || is_member n queue) ≡ true
    → (is_member n reachable || is_member n (id ∷ queue)) ≡ true
add_seen n id queue reachable h = rw (member_cons n id queue) ground (arith, h)

split_found :
    (n id : ℕ) (queue reachable more : List ℕ)
    → (is_member n (id ∷ reachable) || is_member n (queue ++ more)) ≡ true
    → ((is_member n reachable || is_member n (id ∷ queue)) ≡ true) ⊎ (is_member n more ≡ true)
split_found n id queue reachable more h =
    rw (member_cons n id queue) ground
      (arith, (rw (member-append n queue more, member_cons n id reachable) at h))

drop_seen :
    (n id : ℕ) (queue reachable : List ℕ)
    → is_member id reachable ≡ true
    → (is_member n reachable || is_member n (id ∷ queue)) ≡ true
    → (is_member n reachable || is_member n queue) ≡ true
drop_seen n id queue reachable seen h = elim (Bool-cases (id == n)) [
  | inl own ↦
      let found : is_member n reachable ≡ true =
        subst (λ x. is_member x reachable ≡ true) ((==_iff id n).0 own) seen in
      rw found refl
  | inr other ↦ rw other at (rw (member_cons n id queue) at h)
]

shift :
    (n id : ℕ) (queue reachable more : List ℕ)
    → (is_member n reachable || is_member n (id ∷ queue)) ≡ true
    → (is_member n (id ∷ reachable) || is_member n (queue ++ more)) ≡ true
shift n id queue reachable more h =
    rw (member-append n queue more, member_cons n id reachable)
      (ground (arith, (rw (member_cons n id queue) at h)))

fresh_Followed :
    (edges : List WorkflowEdge) (queue reachable : List ℕ) (id : ℕ)
    → Followed edges (id ∷ queue) reachable
    → Followed edges (queue ++ targets edges id) (id ∷ reachable)
fresh_Followed edges queue reachable id f a b l m = elim (Bool-cases (id == a)) [
  | inl own ↦
      let hit : is_member b (targets edges id) ≡ true =
        subst (λ x. is_member b (targets edges x) ≡ true) (sym ((==_iff id a).0 own))
          (Leads-targets edges a b l) in
      rw (member-append b queue (targets edges id)) ground (arith, hit)
  | inr other ↦
      shift b id queue reachable (targets edges id)
        (f a b l (rw other at (rw (member_cons a id reachable) at m)))
]

loop-Closed :
    (fuel : ℕ) (edges : List WorkflowEdge) (queue reachable : List ℕ)
    → length queue + waiting reachable edges ≤ fuel
    → Followed edges queue reachable
    → Closed edges queue reachable (search_loop fuel edges queue reachable)
unfolding search_loop
loop-Closed fuel edges [] reachable enough f =
    ((λ n h. drop_none n reachable h), λ a b l m. drop_none b reachable (f a b l m))
loop-Closed zero edges (id ∷ queue) reachable enough f = absurd (omega (arith, enough))
loop-Closed (suc fuel) edges (id ∷ queue) reachable enough f =
    elim (Bool-cases (is_member id reachable)) [
      | inl seen ↦
          let c =
            loop-Closed fuel edges queue reachable (omega (arith, enough))
              (λ a b l m. drop_seen b id queue reachable seen (f a b l m)) in
          rw seen ((λ n m. c.0 n (drop_seen n id queue reachable seen m)), c.1)
      | inr fresh ↦
          let c =
            loop-Closed fuel edges (queue ++ targets edges id) (id ∷ reachable)
              (omega (
                arith,
                enough,
                length-append queue (targets edges id),
                waiting_cons id reachable edges fresh,
              ))
              (fresh_Followed edges queue reachable id f) in
          rw fresh ((λ n m. c.0 n (shift n id queue reachable (targets edges id) m)), c.1)
    ]

-- The other way: what is found is reached, if what the search starts from is.
loop-Reaches :
    (fuel : ℕ) (edges : List WorkflowEdge) (first : ℕ) (queue reachable : List ℕ) (n : ℕ)
    → ((m : ℕ) → (is_member m reachable || is_member m queue) ≡ true → Reaches edges first m)
    → is_member n (search_loop fuel edges queue reachable) ≡ true
    → Reaches edges first n
unfolding search_loop
loop-Reaches fuel edges first [] reachable n h m = h n (rw m refl)
loop-Reaches zero edges first (id ∷ queue) reachable n h m = h n (rw m refl)
loop-Reaches (suc fuel) edges first (id ∷ queue) reachable n h m =
    elim (Bool-cases (is_member id reachable)) [
      | inl seen ↦
          loop-Reaches fuel edges first queue reachable n
            (λ k e. h k (add_seen k id queue reachable e)) (rw seen at m)
      | inr fresh ↦
          loop-Reaches fuel edges first (queue ++ targets edges id) (id ∷ reachable) n
            (λ k e. elim (split_found k id queue reachable (targets edges id) e) [
              | inl old ↦ h k old
              | inr new ↦ along (h id (first_in id queue reachable)) (targets-Leads edges id k new)
            ])
            (rw fresh at m)
    ]

start_alone : (first m : ℕ) → (is_member m [] || is_member m (first ∷ [])) ≡ true → first ≡ m
unfolding is_member
start_alone first m h = ground arith

nothing_found : (m : ℕ) → is_member m [] ≡ false
unfolding is_member
nothing_found m = refl

reached_found :
    (edges : List WorkflowEdge) (first n : ℕ)
    → Closed edges (first ∷ []) [] (reachable_from first edges)
    → Reaches edges first n
    → is_member n (reachable_from first edges) ≡ true
reached_found edges first n c at_start = c.0 first (first_in first [] [])
reached_found edges first n c (along r l) = c.1 _ n l (reached_found edges first _ c r)

-- `reachable_from`, with fuel for one more than there are edges, finds exactly the nodes to which a
-- chain of edges leads from the start, whatever the edges are, cycles included.
pub reachable_from-Reaches :
    (edges : List WorkflowEdge) (first n : ℕ)
    → (is_member n (reachable_from first edges) ≡ true) ↔ Reaches edges first n
reachable_from-Reaches edges first n = (
  λ m.
      unfold reachable_from in
      loop-Reaches (suc (length edges)) edges first (first ∷ []) [] n
        (λ k e. subst (Reaches edges first) (start_alone first k e) at_start) m,
  reached_found edges first n (
      unfold reachable_from in
      loop-Closed (suc (length edges)) edges (first ∷ []) []
        (omega (arith, count-le-length (λ e. not (is_member e.source [])) edges))
        (λ a b l m. absurd (ground (arith, (rw (nothing_found a) at m))))),
)
