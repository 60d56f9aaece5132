-- ===== src/Ignition/Startup/Order.antt =====
-- The stages give each rank its tasks in the order in which `Ignitor.run` goes through them.
use mathlib.Core.List.{append_assoc, append-nil}
use meshy.Prelude.{
  ℕ, ◌≡◌, refl, sym, ap, ◌∙◌, Bool, true, false, not, List, [], ◌∷◌, ◌++◌, map, flatten, select,
  select-keep, select-drop, ◌==◌, if◌then◌else◌, inl, inr, Bool-cases,
}
use meshy.Topology.Types.{ServiceInfo}
use meshy.Topology.Lookups.{contains_rank, local_services, gpu_services, cpu_services}
use meshy.Ignition.Startup.{
  Stage, Task, hosts, stage_of, barrier, gate_and_start, tasks_in, stages_of, run_tasks,
}

tasks_in-append :
    (xs ys : List Stage) (r : ℕ) → tasks_in (xs ++ ys) r ≡ tasks_in xs r ++ tasks_in ys r
unfolding tasks_in
tasks_in-append [] ys r = refl
tasks_in-append (s ∷ xs) ys r = elim (Bool-cases (s.hosted_by r)) [
  | inl e ↦ rw e (
      ap (◌++◌ (gate_and_start s r)) (tasks_in-append xs ys r)
      ∙ sym (append_assoc (gate_and_start s r) (tasks_in xs r) (tasks_in ys r)))
  | inr e ↦ rw e (tasks_in-append xs ys r)
]

tasks_in-hosted :
    (s : Stage) (stages : List Stage) (r : ℕ)
    → s.hosted_by r ≡ true
    → tasks_in (s ∷ stages) r ≡ gate_and_start s r ++ tasks_in stages r
unfolding tasks_in
tasks_in-hosted s stages r e =
    ap (λ b. if b then gate_and_start s r ++ tasks_in stages r else tasks_in stages r) e

tasks_in-elsewhere :
    (s : Stage) (stages : List Stage) (r : ℕ)
    → s.hosted_by r ≡ false
    → tasks_in (s ∷ stages) r ≡ tasks_in stages r
unfolding tasks_in
tasks_in-elsewhere s stages r e =
    ap (λ b. if b then gate_and_start s r ++ tasks_in stages r else tasks_in stages r) e

is_false : (b : Bool) → not b ≡ true → b ≡ false
is_false false e = refl
is_false true e = sym e

module _ (services : List ServiceInfo) (r : ℕ) where
  abbrev own : ServiceInfo → List Task
  own s = gate_and_start (stage_of services s) r

  abbrev given : List ServiceInfo → List Task
  given l = tasks_in (map (stage_of services) l) r

  abbrev gpu : ServiceInfo → Bool
  gpu s = s.uses_gpu

  abbrev held : ServiceInfo → Bool
  held s = contains_rank s r

  abbrev tasks_of : List ServiceInfo → List Task
  tasks_of l = flatten (map own l)

  gpu_hosted :
      (s : ServiceInfo) (b : Bool)
      → s.uses_gpu ≡ true
      → held s ≡ b
      → (stage_of services s).hosted_by r ≡ b
  unfolding stage_of
  gpu_hosted s b e c = ap (λ u. hosts u s r) e ∙ c

  cpu_hosted :
      (s : ServiceInfo) (b : Bool)
      → not s.uses_gpu ≡ true
      → (r == 0) ≡ b
      → (stage_of services s).hosted_by r ≡ b
  unfolding stage_of
  cpu_hosted s b e c = ap (λ u. hosts u s r) (is_false s.uses_gpu e) ∙ c

  gpu_tasks : (l : List ServiceInfo) → given (select gpu l) ≡ tasks_of (select held (select gpu l))
  unfolding flatten tasks_in
  gpu_tasks [] = refl
  gpu_tasks (s ∷ l) = elim (Bool-cases s.uses_gpu) [
    | inr e ↦
        ap given (select-drop gpu s l e)
        ∙ gpu_tasks l
        ∙ sym (ap (λ k. tasks_of (select held k)) (select-drop gpu s l e))
    | inl e ↦
        ap given (select-keep gpu s l e)
        ∙ elim (Bool-cases (held s)) [
          | inl c ↦
              tasks_in-hosted (stage_of services s) (map (stage_of services) (select gpu l)) r
                (gpu_hosted s true e c)
              ∙ ap (λ k. own s ++ k) (gpu_tasks l)
              ∙ sym (ap tasks_of (select-keep held s (select gpu l) c))
          | inr c ↦
              tasks_in-elsewhere (stage_of services s) (map (stage_of services) (select gpu l)) r
                (gpu_hosted s false e c)
              ∙ gpu_tasks l
              ∙ sym (ap tasks_of (select-drop held s (select gpu l) c))
        ]
        ∙ sym (ap (λ k. tasks_of (select held k)) (select-keep gpu s l e))
  ]

  abbrev cpu : ServiceInfo → Bool
  cpu s = not s.uses_gpu

  cpu_tasks_here :
      (r == 0) ≡ true → (l : List ServiceInfo) → given (select cpu l) ≡ tasks_of (select cpu l)
  unfolding flatten tasks_in
  cpu_tasks_here z [] = refl
  cpu_tasks_here z (s ∷ l) = elim (Bool-cases (cpu s)) [
    | inr e ↦
        ap given (select-drop cpu s l e)
        ∙ cpu_tasks_here z l
        ∙ sym (ap tasks_of (select-drop cpu s l e))
    | inl e ↦
        ap given (select-keep cpu s l e)
        ∙ tasks_in-hosted (stage_of services s) (map (stage_of services) (select cpu l)) r
            (cpu_hosted s true e z)
        ∙ ap (λ k. own s ++ k) (cpu_tasks_here z l)
        ∙ sym (ap tasks_of (select-keep cpu s l e))
  ]

  cpu_tasks_elsewhere : (r == 0) ≡ false → (l : List ServiceInfo) → given (select cpu l) ≡ []
  unfolding tasks_in
  cpu_tasks_elsewhere z [] = refl
  cpu_tasks_elsewhere z (s ∷ l) = elim (Bool-cases (cpu s)) [
    | inr e ↦ ap given (select-drop cpu s l e) ∙ cpu_tasks_elsewhere z l
    | inl e ↦
        ap given (select-keep cpu s l e)
        ∙ tasks_in-elsewhere (stage_of services s) (map (stage_of services) (select cpu l)) r
            (cpu_hosted s false e z)
        ∙ cpu_tasks_elsewhere z l
  ]

  cpu_tasks :
      (l : List ServiceInfo)
      → given (select cpu l) ≡ (if r == 0 then tasks_of (select cpu l) else [])
  cpu_tasks l = elim (Bool-cases (r == 0)) [
    | inl z ↦ cpu_tasks_here z l ∙ sym (ap (λ b. if b then tasks_of (select cpu l) else []) z)
    | inr z ↦ cpu_tasks_elsewhere z l ∙ sym (ap (λ b. if b then tasks_of (select cpu l) else []) z)
  ]

  -- The stages give a rank the tasks that `Ignitor.run` goes through, in its order.
  pub tasks_in-stages_of :
      (has_barrier : Bool)
      → tasks_in (stages_of services has_barrier) r ≡ run_tasks services has_barrier r
  unfolding stages_of run_tasks tasks_in local_services gpu_services cpu_services
  tasks_in-stages_of has_barrier =
      let rest = map (stage_of services) (cpu_services services) in
      let middle : List Stage = if has_barrier then barrier ∷ [] else [] in
      let b : tasks_in middle r ≡ (if has_barrier then gate_and_start barrier r else []) =
        elim (Bool-cases has_barrier) [
          | inl e ↦ rw e (append-nil (gate_and_start barrier r))
          | inr e ↦ rw e refl
        ] in
      tasks_in-append (map (stage_of services) (gpu_services services)) (middle ++ rest) r
      ∙ ap (λ l. l ++ tasks_in (middle ++ rest) r) (gpu_tasks services)
      ∙ ap (◌++◌ (flatten (map own (local_services services r)))) (
          tasks_in-append middle rest r
          ∙ ap (λ l. l ++ tasks_in rest r) b
          ∙ ap (◌++◌ (if has_barrier then gate_and_start barrier r else [])) (cpu_tasks services))
