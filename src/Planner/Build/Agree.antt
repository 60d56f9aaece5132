-- ===== src/Planner/Build/Agree.antt =====
-- The ranks of a plan run in step: they have as many micro-batches in each mini-batch, and the same
-- denominators, which add up to the batch.
use mathlib.Core.Path.{fun_ext}
use native.Mathlib.Nat.{div-add-mod', mul_comm}
use meshy.Prelude.{
  ℕ, ◌-◌, ◌*◌, ◌/◌, ◌≤◌, ◌<◌, ◌≡◌, refl, sym, ap, ◌∙◌, List, [], ◌∷◌, map, flatten, range, length,
  length-append, length-replicate, get_or, replicate, All, All-at, All-of_each, All-of_map,
  length-range_from, All-map, ok, map-get_or-range, map-map, arith, subst, sum, le-maximum,
}
use meshy.Prelude.Bags.{
  sum_over, sum_swap, sum_over-perm, sum_over-flatten, sum_over-const, length-eq-sum_over,
}
use meshy.Planner.Types.{PlannerConfig, MiniPlan, Plan, filler_micro}
use meshy.Planner.Types.Checks.{IsUsable}
use meshy.Planner.Build.{
  Share, truncate, mini_count, share_of, micro_count, global_members, mini_of, plan_of, build_plan,
}
use meshy.Planner.Build.Shares.{deal_ranks-perm, length-deal_ranks, length-members, members-perm}
use meshy.Planner.Build.Cover.{
  IsPlannable, build_plan_returns, build_plan-eq-plan_of, trunc, n_local, ranks, length-trunc,
  some_mini, ranks_even,
}

sum_over-map {ℓ κ} :
    {A : Type ℓ} {B : Type κ} (f : B → ℕ) (g : A → B) (xs : List A)
    → sum_over f (map g xs) ≡ sum_over (λ x. f (g x)) xs
sum_over-map f g xs = ap sum (map-map f g xs)

sum_over-cong {ℓ} :
    {A : Type ℓ} (f g : A → ℕ) (xs : List A)
    → All (λ x. f x ≡ g x) xs
    → sum_over f xs ≡ sum_over g xs
sum_over-cong f g [] h = refl
sum_over-cong f g (x ∷ xs) h = omega (arith, h.0, sum_over-cong f g xs h.1)

-- A sum over the mini-batches of a rank is a sum over its members.
sum_members :
    (f : ℕ → ℕ) (members : List (List ℕ))
    → sum_over (λ i. sum_over f (get_or members i [])) (range (length members))
      ≡ sum_over f (flatten members)
sum_members f members =
    sym (sum_over-map (sum_over f) (λ i. get_or members i []) (range (length members)))
    ∙ ap (sum_over (sum_over f)) (map-get_or-range [] members)
    ∙ sym (sum_over-flatten f members)

-- What a rank's mini-batches show of the plan, one entry for each mini-batch.
pub record InStep (counts docs tokens : List ℕ) (minis : List MiniPlan) : Type 0 where
  pub micro_counts : map (λ (m : MiniPlan). length m.micros) minis ≡ counts
  pub docs_global : map (λ (m : MiniPlan). m.n_docs_global) minis ≡ docs
  pub tokens_global : map (λ (m : MiniPlan). m.n_tokens_global) minis ≡ tokens

module _ (cfg : PlannerConfig) (tr loss_tokens : List ℕ) (shares : List Share) where
  length-micros :
      (s : Share) (i : ℕ)
      → length (get_or s.packs i []) ≤ micro_count shares i
      → length (mini_of cfg tr loss_tokens shares s i).micros ≡ micro_count shares i
  unfolding mini_of
  length-micros s i le =
      let micros = get_or s.packs i [] in
      let k = micro_count shares i - length micros in
      omega (
        arith,
        length-append micros (replicate k (filler_micro cfg)),
        length-replicate k (filler_micro cfg),
      )

  packs-le-micro_count :
      All (λ s. (i : ℕ) → length (get_or s.packs i []) ≤ micro_count shares i) shares
  unfolding micro_count
  packs-le-micro_count =
      All-at (λ i (s : Share). length (get_or s.packs i []) ≤ micro_count shares i) shares
        (λ i. le-maximum (λ (s : Share). length (get_or s.packs i [])) shares)

  abbrev docs_at : ℕ → ℕ
  docs_at i = sum_over (λ (q : Share). length (get_or q.members i [])) shares

  abbrev tokens_at : ℕ → ℕ
  tokens_at i =
      sum_over (λ (q : Share). sum_over (λ g. get_or loss_tokens g 0) (global_members i q)) shares

  minis-InStep :
      (s : Share) (is : List ℕ)
      → ((i : ℕ) → length (get_or s.packs i []) ≤ micro_count shares i)
      → InStep
          (map (micro_count shares) is)
          (map docs_at is)
          (map tokens_at is)
          (map (mini_of cfg tr loss_tokens shares s) is)
  minis-InStep s is le = record {
    micro_counts =
        map-map (λ (m : MiniPlan). length m.micros) (mini_of cfg tr loss_tokens shares s) is
        ∙ ap (λ f. map f is) (fun_ext λ i. length-micros s i (le i));
    docs_global =
        unfold mini_of in
        map-map (λ (m : MiniPlan). m.n_docs_global) (mini_of cfg tr loss_tokens shares s) is;
    tokens_global =
        unfold mini_of in
        map-map (λ (m : MiniPlan). m.n_tokens_global) (mini_of cfg tr loss_tokens shares s) is;
  }

  plan-InStep :
      (is : List ℕ)
      → All
          (InStep (map (micro_count shares) is) (map docs_at is) (map tokens_at is))
          (map (λ s. map (mini_of cfg tr loss_tokens shares s) is) shares)
  plan-InStep is = All-of_map _ (λ s. minis-InStep s is) shares packs-le-micro_count

module _ (cfg : PlannerConfig) (lengths loss_tokens : List ℕ) (dp_size : ℕ) (usable : IsUsable cfg)
    (fits : IsPlannable lengths loss_tokens dp_size) where
  abbrev tr : List ℕ
  tr = trunc cfg lengths loss_tokens dp_size usable fits

  abbrev nl : ℕ
  nl = n_local cfg lengths loss_tokens dp_size usable fits

  abbrev rs : List (List ℕ)
  rs = ranks cfg lengths loss_tokens dp_size usable fits

  pos : 0 < mini_count cfg nl
  pos = some_mini cfg lengths loss_tokens dp_size usable fits

  abbrev minis : List ℕ
  minis = range (mini_count cfg nl)

  -- What is summed over the mini-batches of a rank is summed over its local positions.
  rank_sum :
      (f : ℕ → ℕ) (owned : List ℕ)
      → sum_over (λ i. sum_over f (get_or (share_of cfg tr nl owned).members i [])) minis
        ≡ sum_over f (range nl)
  rank_sum f owned =
      let members = (share_of cfg tr nl owned).members in
      ap (λ k. sum_over (λ i. sum_over f (get_or members i [])) (range k))
        (sym (length-members cfg tr nl owned))
      ∙ sum_members f members
      ∙ sum_over-perm f (flatten members) (range nl) (members-perm cfg tr nl owned pos)

  docs_of_rank :
      (owned : List ℕ)
      → sum_over (λ i. length (get_or (share_of cfg tr nl owned).members i [])) minis ≡ nl
  docs_of_rank owned =
      ap (λ f. sum_over f minis)
        (fun_ext λ i. length-eq-sum_over (get_or (share_of cfg tr nl owned).members i []))
      ∙ rank_sum (λ _. 1) owned
      ∙ sym (length-eq-sum_over (range nl))
      ∙ length-range_from 0 nl

  abbrev loss : ℕ → ℕ
  loss g = get_or loss_tokens g 0

  tokens_of_rank :
      (owned : List ℕ)
      → length owned ≡ nl
      → sum_over (λ i. sum_over loss (global_members i (share_of cfg tr nl owned))) minis
        ≡ sum_over loss owned
  unfolding global_members share_of
  tokens_of_rank owned e =
      let own = λ (p : ℕ). get_or owned p 0 in
      ap (λ f. sum_over f minis)
        (fun_ext λ i. sum_over-map loss own (get_or (share_of cfg tr nl owned).members i []))
      ∙ rank_sum (λ p. loss (own p)) owned
      ∙ sym (sum_over-map loss own (range nl))
      ∙ ap (sum_over loss) (ap (λ k. map own (range k)) (sym e) ∙ map-get_or-range 0 owned)

  shares_of : List Share
  shares_of = map (share_of cfg tr nl) rs

  sum-docs : sum (map (docs_at cfg tr loss_tokens shares_of) minis) ≡ length lengths
  unfolding shares_of
  sum-docs =
      sum_swap (λ i (q : Share). length (get_or q.members i [])) minis shares_of
      ∙ sum_over-map _ (share_of cfg tr nl) rs
      ∙ sum_over-const _ nl rs (All-of_each _ docs_of_rank rs)
      ∙ (ap (λ k. k * nl) (length-deal_ranks tr dp_size)
          ∙ omega
              (arith, div-add-mod' (length lengths) dp_size, mul_comm dp_size nl, fits.divisible))

  sum-tokens : sum (map (tokens_at cfg tr loss_tokens shares_of) minis) ≡ sum loss_tokens
  unfolding shares_of
  sum-tokens =
      sum_swap (λ i (q : Share). sum_over loss (global_members i q)) minis shares_of
      ∙ sum_over-map _ (share_of cfg tr nl) rs
      ∙ sum_over-cong _ (sum_over loss) rs
          (All-map _ _ rs tokens_of_rank (ranks_even cfg lengths loss_tokens dp_size usable fits))
      ∙ sym (sum_over-flatten loss rs)
      ∙ sum_over-perm loss (flatten rs) _ (deal_ranks-perm tr dp_size fits.some_rank)
      ∙ ap (λ k. sum_over loss (range k))
          (length-trunc cfg lengths loss_tokens dp_size usable fits ∙ sym fits.sizes)
      ∙ ap sum (map-get_or-range 0 loss_tokens)

-- In a plan under a usable configuration every rank runs the same number of mini-batches, each with
-- the same number of micro-batches and the same denominators as on the other ranks; over the
-- mini-batches, the document counts add up to the batch, and the token counts to its loss tokens.
pub build_plan-InStep :
    (lengths loss_tokens : List ℕ) (dp_size : ℕ) (cfg : PlannerConfig) (plan : Plan)
    → IsUsable cfg
    → build_plan lengths loss_tokens dp_size cfg ≡ ok plan
    → (counts : List ℕ) × (docs : List ℕ) × (tokens : List ℕ) × All
        (InStep counts docs tokens)
        plan.per_rank
      × (sum docs ≡ length lengths)
      × (sum tokens ≡ sum loss_tokens)
build_plan-InStep lengths loss_tokens dp_size cfg plan usable h =
    let fits = (build_plan_returns lengths loss_tokens dp_size cfg).0 (plan, h) in
    let shares = shares_of cfg lengths loss_tokens dp_size usable fits in
    let tr = truncate cfg lengths in
    let is = range (mini_count cfg (length lengths / dp_size)) in
    let counts : List ℕ = map (micro_count shares) is in
    let docs : List ℕ = map (docs_at cfg tr loss_tokens shares) is in
    let tokens : List ℕ = map (tokens_at cfg tr loss_tokens shares) is in
    (
      counts,
      docs,
      tokens,
      subst (λ (p : Plan). All (InStep counts docs tokens) p.per_rank)
          (sym (build_plan-eq-plan_of lengths loss_tokens dp_size cfg plan h))
          (unfold plan_of shares_of in plan-InStep cfg tr loss_tokens shares is),
      sum-docs cfg lengths loss_tokens dp_size usable fits,
      sum-tokens cfg lengths loss_tokens dp_size usable fits,
    )
