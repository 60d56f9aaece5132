-- ===== src/Ignition/Startup/Waiting.antt =====
-- While tasks are left, some rank can do its next one.
use meshy.Prelude.{
  ℕ, zero, suc, ◌<◌, String, ◌≡◌, sym, ap, subst, Bool, true, false, ◌&&◌, List, [], ◌∷◌, ◌++◌, all,
  ◌==◌, str_eq, eq_iff, ◌⊎◌, inl, inr, arith, Bool-cases, All,
}
use meshy.Topology.Place.{is_in}
use meshy.Ignition.Startup.{Stage, Task, tasks_in, Bringup, has_done, IsReady, AllReady, IsEnabled}

-- A stage has a rank that hosts it and waits for it.
abbrev pub IsHosted : ℕ → Stage → Type 0
IsHosted world s = (r : ℕ) × (r < world) × (s.hosted_by r ≡ true) × (s.awaited_by r ≡ true)

-- Each stage needs only stages before it.
abbrev pub is_ordered : List String → List Stage → Bool
is_ordered seen [] = true
is_ordered seen (s ∷ stages) = all (λ n. is_in n seen) s.needs && is_ordered (s.name ∷ seen) stages

find_rank :
    (A B : ℕ → Type 0) (n : ℕ)
    → ((r : ℕ) → r < n → A r ⊎ B r)
    → ((r : ℕ) × (r < n) × A r) ⊎ ((r : ℕ) → r < n → B r)
find_rank A B zero h = inr (λ r l. absurd (omega (arith, l)))
find_rank A B (suc n) h = elim (h n (omega arith)) [
  | inl a ↦ inl (n, omega arith, a)
  | inr b ↦ elim (find_rank A B n (λ r l. h r (omega (arith, l)))) [
    | inl (r, l, a) ↦ inl (r, omega (arith, l), a)
    | inr f ↦ inr (λ r l. elim (Bool-cases (r == n)) [
      | inl e ↦ let same : n ≡ r = ground (arith, e) in subst B same b
      | inr e ↦ f r (ground (arith, l, e))
    ])
  ]
]

module _ (world : ℕ) (p : Bringup) where
  -- No rank has a task left; some rank has one that it can do.
  abbrev pub IsFinished : Type 0
  IsFinished = (r : ℕ) → r < world → p.rest r ≡ []

  pub record CanGoOn : Type 0 where
    pub rank : ℕ
    pub task : Task
    pub tasks : List Task
    pub in_world : rank < world
    pub next : p.rest rank ≡ task ∷ tasks
    pub enabled : IsEnabled world p task.waits task.stage

  abbrev Behind : List Stage → ℕ → Type 0
  Behind stages r =
      (q : List Task) × (tasks_in stages r ≡ q ++ p.rest r)
      × All (λ t. has_done p r t.stage.name t.waits ≡ true) q

  -- Where a rank stands at a stage, of which others follow.
  abbrev Passed : Stage → List Stage → ℕ → Type 0
  Passed s stages r =
      Behind stages r
      × (s.hosted_by r ≡ true → has_done p r s.name false ≡ true)
      × (s.hosted_by r ≡ true → s.awaited_by r ≡ true → has_done p r s.name true ≡ true)

  abbrev AtGate : Stage → ℕ → Type 0
  AtGate s r = (ts : List Task) × (p.rest r ≡ record { stage = s; waits = false } ∷ ts)

  abbrev AtWait : Stage → ℕ → Type 0
  AtWait s r =
      ((ts : List Task) × (p.rest r ≡ record { stage = s; waits = true } ∷ ts))
      × (has_done p r s.name false ≡ true)

  head-eq :
      {x y : Task} {xs ys : List Task} → ◌≡◌ {A = List Task} (x ∷ xs) (y ∷ ys) → (x ≡ y) × (xs ≡ ys)
  head-eq {x} h = (ap (first x) h, ap others h)
    where
      first : Task → List Task → Task
      first d [] = d
      first d (t ∷ l) = t

      others : List Task → List Task
      others [] = []
      others (t ∷ l) = l

  -- The tasks of one stage, one or two of them, and those of the others.
  stands_one :
      (s : Stage) (stages : List Stage) (r : ℕ) (q : List Task)
      → s.awaited_by r ≡ false
      → record { stage = s; waits = false } ∷ tasks_in stages r ≡ q ++ p.rest r
      → All (λ t. has_done p r t.stage.name t.waits ≡ true) q
      → AtGate s r ⊎ (AtWait s r ⊎ Passed s stages r)
  stands_one s stages r [] w e d = inl (tasks_in stages r, sym e)
  stands_one s stages r (x ∷ q) w e d =
      let h = head-eq e in
      let g : has_done p r s.name false ≡ true =
        subst (λ t. has_done p r t.stage.name t.waits ≡ true) (sym h.0) d.0 in
      inr (inr ((q, h.1, d.1), λ b. g, λ b c. ground (arith, c, w)))

  stands_two :
      (s : Stage) (stages : List Stage) (r : ℕ) (q : List Task)
      → record { stage = s; waits = false } ∷ record { stage = s; waits = true } ∷ tasks_in stages r
        ≡ q ++ p.rest r
      → All (λ t. has_done p r t.stage.name t.waits ≡ true) q
      → AtGate s r ⊎ (AtWait s r ⊎ Passed s stages r)
  stands_two s stages r [] e d = inl (record { stage = s; waits = true } ∷ tasks_in stages r, sym e)
  stands_two s stages r (x ∷ []) e d =
      let h = head-eq e in
      let g : has_done p r s.name false ≡ true =
        subst (λ t. has_done p r t.stage.name t.waits ≡ true) (sym h.0) d.0 in
      inr (inl ((tasks_in stages r, sym h.1), g))
  stands_two s stages r (x ∷ y ∷ q) e d =
      let h = head-eq e in
      let k = head-eq h.1 in
      let g : has_done p r s.name false ≡ true =
        subst (λ t. has_done p r t.stage.name t.waits ≡ true) (sym h.0) d.0 in
      let w : has_done p r s.name true ≡ true =
        subst (λ t. has_done p r t.stage.name t.waits ≡ true) (sym k.0) d.1.0 in
      inr (inr ((q, k.1, d.1.1), λ b. g, λ b c. w))

  stands :
      (s : Stage) (stages : List Stage) (r : ℕ)
      → Behind (s ∷ stages) r
      → AtGate s r ⊎ (AtWait s r ⊎ Passed s stages r)
  unfolding tasks_in
  stands s stages r (q, e, d) = elim (Bool-cases (s.hosted_by r)) [
    | inr h ↦
        let f : tasks_in stages r ≡ q ++ p.rest r = rw (h, tasks_in) at e in
        inr (inr ((q, f, d), λ b. ground (arith, b, h), λ b c. ground (arith, b, h)))
    | inl h ↦ elim (Bool-cases (s.awaited_by r)) [
      | inl w ↦ stands_two s stages r q (rw (h, w, tasks_in) at e) d
      | inr w ↦ stands_one s stages r q w (rw (h, w, tasks_in) at e) d
    ]
  ]

  nothing_left : (q rest : List Task) → [] ≡ q ++ rest → rest ≡ []
  nothing_left [] rest e = sym e
  nothing_left (x ∷ q) rest e = cc

  all-IsReady :
      (seen names : List String)
      → ((n : String) → is_in n seen ≡ true → IsReady world p n)
      → all (λ n. is_in n seen) names ≡ true
      → AllReady world p names
  all-IsReady seen [] h e = tt
  all-IsReady seen (n ∷ names) h e =
      (h n (ground (arith, e)), all-IsReady seen names h (ground (arith, e)))

  pub goes_on :
      (seen : List String) (stages : List Stage)
      → ((n : String) → is_in n seen ≡ true → IsReady world p n)
      → ((r : ℕ) → r < world → Behind stages r)
      → All (IsHosted world) stages
      → is_ordered seen stages ≡ true
      → IsFinished ⊎ CanGoOn
  unfolding tasks_in
  goes_on seen [] ready b h o = inl (λ r l. let (q, e, d) = b r l in nothing_left q (p.rest r) e)
  goes_on seen (s ∷ stages) ready b h o =
      let needs : all (λ n. is_in n seen) s.needs ≡ true = ground (arith, o) in
      elim (find_rank (AtGate s) (λ r. AtWait s r ⊎ Passed s stages r) world
        (λ r l. stands s stages r (b r l))) [
          | inl (r, l, (ts, e)) ↦ inr (record {
            rank = r;
            task = record { stage = s; waits = false };
            tasks = ts;
            in_world = l;
            next = e;
            enabled = all-IsReady seen s.needs ready needs;
          })
          | inr gated ↦ elim (find_rank (AtWait s) (Passed s stages) world gated) [
            | inl (r, l, w) ↦ inr (record {
              rank = r;
              task = record { stage = s; waits = true };
              tasks = w.0.0;
              in_world = l;
              next = w.0.1;
              enabled = λ k m c. elim (gated k m) [ inl x ↦ x.1 | inr x ↦ x.1 c ];
            })
            | inr passed ↦
                goes_on (s.name ∷ seen) stages
                  (λ n i. elim (Bool-cases (str_eq s.name n)) [
                    | inl e ↦
                        let same : s.name ≡ n = (eq_iff s.name n).0 e in
                        let (r, l, c, w) = h.0 in
                        subst (IsReady world p) same (r, l, (passed r l).2 c w)
                    | inr e ↦ ready n (ground (arith, i, e))
                  ])
                  (λ r l. (passed r l).0) h.1 (ground (arith, o))
          ]
        ]
