-- ===== src/Ignition/Startup/Progress.antt =====
-- Bringing up the services comes to an end and does not get stuck.
use mathlib.Core.List.{append_assoc}
use meshy.Prelude.{
  ℕ, zero, suc, ◌+◌, ◌≤◌, ◌<◌, String, ◌≡◌, refl, sym, ap, ◌∙◌, Bool, true, false, List, [], ◌∷◌,
  ◌++◌, map, any, ◌==◌, eq_iff, ◌⊎◌, inl, inr, arith, Bool-cases, All, All-map, ◌≢◌, length, sum,
  range_from, range,
}
use meshy.Topology.Types.{ServiceInfo}
use meshy.Ignition.Startup.{
  Stage, Task, tasks_in, Bringup, is_task, put_at, start_of, after_task, stages_of, run_tasks,
  Reaches, at_start, step,
}
use meshy.Ignition.Startup.Order.{tasks_in-stages_of}
use meshy.Ignition.Startup.Waiting.{IsHosted, is_ordered, IsFinished, CanGoOn, goes_on}

is_task_self :
    (name : String) (waits : Bool) (t : Task)
    → t.stage.name ≡ name
    → t.waits ≡ waits
    → is_task name waits t ≡ true
is_task_self name true t e f = ground (arith, f, (eq_iff t.stage.name name).1 e)
is_task_self name false t e f = ground (arith, f, (eq_iff t.stage.name name).1 e)

done_in_past : (l : List Task) → All (λ t. any (is_task t.stage.name t.waits) l ≡ true) l
done_in_past [] = tt
done_in_past (x ∷ l) = (
  ground (arith, is_task_self x.stage.name x.waits x refl refl),
  All-map (λ t. any (is_task t.stage.name t.waits) l ≡ true) _ l (λ t h. ground (arith, h))
      (done_in_past l),
)

-- The tasks of each rank are those that it has done and those that it has left.
abbrev Keeps : List Stage → Bringup → Type 0
Keeps stages p = (r : ℕ) → p.past r ++ p.rest r ≡ tasks_in stages r

after_task-Keeps :
    (stages : List Stage) (p : Bringup) (r : ℕ) (t : Task) (ts : List Task)
    → p.rest r ≡ t ∷ ts
    → Keeps stages p
    → Keeps stages (after_task p r t ts)
after_task-Keeps stages p r t ts e k j = elim (Bool-cases (j == r)) [
  | inr f ↦ rw f (k j)
  | inl f ↦
      let same : r ≡ j = ground (arith, f) in
      rw f (
        append_assoc (p.past r) (t ∷ []) ts
        ∙ ap (◌++◌ (p.past r)) (sym e)
        ∙ k r
        ∙ ap (tasks_in stages) same)
]

abbrev pub left_in : ℕ → (ℕ → List Task) → ℕ
left_in world rest = sum (map (λ r. length (rest r)) (range world))

same_sum :
    (f g : ℕ → ℕ) (i n : ℕ)
    → ((k : ℕ) → i ≤ k → f k ≡ g k)
    → sum (map f (range_from i n)) ≡ sum (map g (range_from i n))
same_sum f g i zero h = refl
same_sum f g i (suc n) h =
    omega (arith, h i (omega arith), same_sum f g (suc i) n (λ k p. h k (omega (arith, p))))

one_less :
    (f g : ℕ → ℕ) (r i n : ℕ)
    → i ≤ r
    → r < i + n
    → f r ≡ suc (g r)
    → ((k : ℕ) → k ≢ r → f k ≡ g k)
    → sum (map f (range_from i n)) ≡ suc (sum (map g (range_from i n)))
one_less f g r i zero p q e h = absurd (omega (arith, p, q))
one_less f g r i (suc n) p q e h = elim (Bool-cases (i == r)) [
  | inl c ↦
      let same : i ≡ r = ground (arith, c) in
      let here : f i ≡ suc (g i) = ap f same ∙ e ∙ ap (λ k. suc (g k)) (sym same) in
      omega (arith, here, same_sum f g (suc i) n (λ k l. h k (λ d. omega (arith, d, l, same))))
  | inr c ↦
      let other : i ≢ r = λ d. ground (arith, c, d) in
      omega
        (arith, h i other, one_less f g r (suc i) n (ground (arith, c, p)) (omega (arith, q)) e h)
]

after_task-left :
    (world : ℕ) (p : Bringup) (r : ℕ) (t : Task) (ts : List Task)
    → r < world
    → p.rest r ≡ t ∷ ts
    → left_in world p.rest ≡ suc (left_in world (after_task p r t ts).rest)
after_task-left world p r t ts l e =
    let self : (r == r) ≡ true = ground arith in
    one_less (λ k. length (p.rest k)) (λ k. length (put_at p.rest r ts k)) r 0 world (omega arith)
      (omega (arith, l)) (ap length e ∙ rw self refl)
      (λ k d. let n : (k == r) ≡ false = ground (arith, d) in rw n refl)

record Kept (world : ℕ) (stages : List Stage) (n : ℕ) (p : Bringup) : Type 0 where
  keeps : Keeps stages p
  left : n + left_in world p.rest ≡ left_in world (tasks_in stages)

Reaches-Kept :
    (world : ℕ) (stages : List Stage) (n : ℕ) (p : Bringup)
    → Reaches world stages n p
    → Kept world stages n p
unfolding start_of
Reaches-Kept world stages _ _ at_start = record { keeps = λ r. refl; left = omega arith }
Reaches-Kept world stages _ _ (step n r p t ts reach l e i) =
    let k = Reaches-Kept world stages n p reach in
    record {
      keeps = after_task-Keeps stages p r t ts e k.keeps;
      left = omega (arith, k.left, after_task-left world p r t ts l e);
    }

-- Where each stage of some services has a rank of the run that hosts it and waits for it, and needs
-- only markers of stages before it: in whatever order the ranks take their steps, each step is one of
-- the tasks that `Ignitor.run` has the ranks go through, so that there are at most as many; and after
-- any steps, either every rank has finished, or some rank can do its next task. So the run comes up,
-- and is not stuck.
pub startup_goes_on :
    (world n : ℕ) (services : List ServiceInfo) (has_barrier : Bool) (p : Bringup)
    → All (IsHosted world) (stages_of services has_barrier)
    → is_ordered [] (stages_of services has_barrier) ≡ true
    → Reaches world (stages_of services has_barrier) n p
    → (n + left_in world p.rest ≡ left_in world (run_tasks services has_barrier))
      × (IsFinished world p ⊎ CanGoOn world p)
startup_goes_on world n services has_barrier p h o reach =
    let stages = stages_of services has_barrier in
    let k = Reaches-Kept world stages n p reach in
    (
      k.left ∙ ap (left_in world) (λ i r. tasks_in-stages_of services r has_barrier i),
      goes_on world p [] stages (λ m i. cc)
          (λ r l. (p.past r, sym (k.keeps r), done_in_past (p.past r))) h o,
    )
