-- ===== src/Critic/Split/Totals.antt =====
-- Which totals the search of `split_by_prompt` reaches, and by which groups.
use meshy.Prelude.{
  ℕ, ◌+◌, ◌≤◌, ◌≡◌, refl, ap, subst, ◌∙◌, Bool, true, not, ◌&&◌, ◌||◌, Option, some, List, [], ◌∷◌,
  ◌++◌, map, select, leb, ◌==◌, arith, inl, inr, Bool-cases, sum,
}
use meshy.Prelude.Sort.{sort_by}
use meshy.Checkpoint.Resume.Newest.{any-sort_by}
use meshy.Critic.Split.{has, Parents, totals, geb, reach, reach_all, add_group, add_groups}

pub has-append : (n : ℕ) (xs ys : List ℕ) → has n (xs ++ ys) ≡ (has n xs || has n ys)
has-append n [] ys = refl
has-append n (x ∷ xs) ys = ground (arith, has-append n xs ys)

totals-append :
    (p : Parents) (t : ℕ) (x : Option (ℕ × ℕ)) → totals (p ++ (t, x) ∷ []) ≡ totals p ++ t ∷ []
totals-append [] t x = refl
totals-append ((m, y) ∷ p) t x = ap (λ l. m ∷ l) (totals-append p t x)

pub has-totals :
    (n : ℕ) (p : Parents) (t : ℕ) (x : Option (ℕ × ℕ))
    → has n (totals (p ++ (t, x) ∷ [])) ≡ (has n (totals p) || t == n)
has-totals n p t x =
    ap (has n) (totals-append p t x) ∙ has-append n (totals p) (t ∷ []) ∙ ground arith

module _ (v size g : ℕ) where
  reach_keeps :
      (p : Parents) (total t : ℕ)
      → has t (totals p) ≡ true
      → has t (totals (reach v size g p total)) ≡ true
  unfolding reach
  reach_keeps p total t h =
      elim (Bool-cases (leb (total + size) v && not (has (total + size) (totals p)))) [
        | inl e ↦ rw e (ground (arith, has-totals t p (total + size) (some (total, g)), h))
        | inr e ↦ rw e h
      ]

  reach_adds :
      (p : Parents) (total : ℕ)
      → total + size ≤ v
      → has (total + size) (totals (reach v size g p total)) ≡ true
  unfolding reach
  reach_adds p total h =
      elim (Bool-cases (leb (total + size) v && not (has (total + size) (totals p)))) [
        | inl e ↦
            rw e (ground (arith, has-totals (total + size) p (total + size) (some (total, g))))
        | inr e ↦ rw e (ground (arith, e, h))
      ]

  reach_all_keeps :
      (p : Parents) (snapshot : List ℕ) (t : ℕ)
      → has t (totals p) ≡ true
      → has t (totals (reach_all v size g p snapshot)) ≡ true
  unfolding reach_all
  reach_all_keeps p [] t h = h
  reach_all_keeps p (total ∷ snapshot) t h =
      reach_all_keeps (reach v size g p total) snapshot t (reach_keeps p total t h)

  reach_all_adds :
      (p : Parents) (snapshot : List ℕ) (t : ℕ)
      → has t snapshot ≡ true
      → t + size ≤ v
      → has (t + size) (totals (reach_all v size g p snapshot)) ≡ true
  unfolding reach_all
  reach_all_adds p [] t h q = cc
  reach_all_adds p (total ∷ snapshot) t h q = elim (Bool-cases (total == t)) [
    | inl e ↦
        let same : total ≡ t = ground (arith, e) in
        reach_all_keeps (reach v size g p total) snapshot (t + size) (
          subst (λ k. has (k + size) (totals (reach v size g p total)) ≡ true) same
            (reach_adds p total (omega (arith, q, same))))
    | inr e ↦ reach_all_adds (reach v size g p total) snapshot t (ground (arith, e, h)) q
  ]

  add_group_keeps :
      (p : Parents) (t : ℕ) → has t (totals p) ≡ true → has t (totals (add_group v size g p)) ≡ true
  unfolding add_group
  add_group_keeps p t h = reach_all_keeps p (sort_by geb (totals p)) t h

  add_group_adds :
      (p : Parents) (t : ℕ)
      → has t (totals p) ≡ true
      → t + size ≤ v
      → has (t + size) (totals (add_group v size g p)) ≡ true
  unfolding add_group
  add_group_adds p t h q =
      reach_all_adds p (sort_by geb (totals p)) t (any-sort_by geb (λ m. m == t) (totals p) ∙ h) q

-- A total that some of the groups make is reached.
pub add_groups_complete :
    (v : ℕ) (size_of : ℕ → ℕ) (keep : ℕ → Bool) (p : Parents) (groups : List ℕ) (t : ℕ)
    → has t (totals p) ≡ true
    → t + sum (map size_of (select keep groups)) ≡ v
    → has v (totals (add_groups v size_of p groups)) ≡ true
unfolding add_groups
add_groups_complete v size_of keep p [] t h q =
    let same : t ≡ v = omega (arith, q) in subst (λ k. has k (totals p) ≡ true) same h
add_groups_complete v size_of keep p (g ∷ groups) t h q =
    let next = add_group v (size_of g) g p in
    elim (Bool-cases (has v (totals next))) [
      | inl e ↦ rw (e, add_groups) e
      | inr e ↦ elim (Bool-cases (keep g)) [
        | inl k ↦
            let sums : t + (size_of g + sum (map size_of (select keep groups))) ≡ v = rw k at q in
            rw (e, add_groups)
              (add_groups_complete v size_of keep next groups (t + size_of g)
                (add_group_adds v (size_of g) g p t h (omega (arith, sums))) (omega (arith, sums)))
        | inr k ↦
            rw (e, add_groups)
              (add_groups_complete v size_of keep next groups t
                (add_group_keeps v (size_of g) g p t h) (rw k at q))
      ]
    ]
