-- ===== src/Planner/Tests.antt =====
-- The planner's theorems on the batches of Samples.
use meshy.Prelude.{
  ℕ, ◌+◌, ◌*◌, ◌<◌, subst, ◌≤◌, ◌%◌, ◌/◌, List, ◌≡◌, ◌↔◌, refl, ok, Perm, flatten, range, length,
  All, AllBoth, sum,
}
use native.Mathlib.Nat.{mul-mod_left, mul_comm}
use meshy.Planner.Types.{Plan, MiniPlan, post_init}
use meshy.Planner.Types.Checks.{IsUsable, post_init-iff_IsUsable}
use meshy.Planner.Snake.{snake}
use meshy.Planner.Snake.Sizes.{snake_balanced}
use meshy.Planner.Pack.{pack_micros}
use meshy.Planner.Pack.Cover.{rows_of, pack_micros-perm}
use meshy.Planner.Pack.Sound.{IsSound}
use meshy.Planner.Pack.Keeps.{pack_micros-IsSound}
use meshy.Planner.Build.{build_plan, plan_of}
use meshy.Planner.Build.Cover.{IsPlannable, build_plan_returns, rank_rows, build_plan-covers}
use meshy.Planner.Build.Agree.{InStep, build_plan-InStep}
use meshy.Planner.Build.Limits.{SoundOrFiller, local_lengths, build_plan-SoundOrFiller}
use meshy.Planner.Samples.{five, budgeted, four, two_ranks}

abbrev four_plan : Plan
four_plan = plan_of two_ranks four four 2

budgeted-IsUsable : IsUsable budgeted
unfolding post_init
budgeted-IsUsable = (post_init-iff_IsUsable budgeted).0 refl

two_ranks-IsUsable : IsUsable two_ranks
unfolding post_init
two_ranks-IsUsable = (post_init-iff_IsUsable two_ranks).0 refl

four_planned : build_plan four four 2 two_ranks ≡ ok four_plan
unfolding build_plan
four_planned = refl

snake_balanced_example :
    All (λ bin. (length five / 2 ≤ length bin) × (length bin ≤ length five / 2 + 1)) (snake five 2)
snake_balanced_example = snake_balanced five 2

pack_micros-perm_example : Perm (rows_of (pack_micros budgeted (range 5) five)) (range 5)
pack_micros-perm_example = pack_micros-perm budgeted (range 5) five

pack_micros-IsSound_example : All (IsSound budgeted five) (pack_micros budgeted (range 5) five)
pack_micros-IsSound_example = pack_micros-IsSound budgeted budgeted-IsUsable five (range 5)

build_plan_returns_example :
    ((plan : Plan) × (build_plan four four 2 two_ranks ≡ ok plan)) ↔ IsPlannable four four 2
build_plan_returns_example = build_plan_returns four four 2 two_ranks

build_plan-covers_example :
    (length four_plan.local_indices ≡ 2)
    × Perm (flatten four_plan.local_indices) (range (length four))
    × All (λ owned. length owned ≡ length four / 2) four_plan.local_indices
    × AllBoth
        (λ owned minis. Perm (rank_rows minis) (range (length owned)))
        four_plan.local_indices
        four_plan.per_rank
build_plan-covers_example =
    build_plan-covers four four 2 two_ranks four_plan two_ranks-IsUsable four_planned

build_plan-InStep_example :
    (counts : List ℕ) × (docs : List ℕ) × (tokens : List ℕ) × All
      (InStep counts docs tokens)
      four_plan.per_rank
    × (sum docs ≡ length four)
    × (sum tokens ≡ sum four)
build_plan-InStep_example =
    build_plan-InStep four four 2 two_ranks four_plan two_ranks-IsUsable four_planned

build_plan-SoundOrFiller_example :
    AllBoth
      (λ owned minis.
        All
          (λ (m : MiniPlan).
            All (SoundOrFiller two_ranks (local_lengths two_ranks four owned)) m.micros)
          minis)
      four_plan.local_indices
      four_plan.per_rank
build_plan-SoundOrFiller_example =
    build_plan-SoundOrFiller four four 2 two_ranks four_plan two_ranks-IsUsable four_planned

product-first : (a b : ℕ) → 0 < a → 0 < b → a * b % a ≡ 0
product-first a b p q = subst (λ n. n % a ≡ 0) (mul_comm b a) (mul-mod_left b a)

product-second : (a b : ℕ) → 0 < a → 0 < b → a * b % b ≡ 0
product-second a b p q = mul-mod_left a b

abbrev two_buckets : ℕ
two_buckets = 128
