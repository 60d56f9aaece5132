-- ===== src/Critic/Split/Paths.antt =====
-- The groups that lead to a total: they are distinct, and their sizes make it up.
use meshy.Prelude.{
  ℕ, zero, suc, ◌+◌, ◌≤◌, ◌<◌, ◌≡◌, refl, sym, subst, Bool, true, false, not, ◌&&◌, Option, some,
  List, [], ◌∷◌, ◌++◌, map, length, leb, ◌==◌, arith, inl, inr, Bool-cases, All, All-map, sum,
}
use meshy.Prelude.Sort.{sort_by, All-sort_by}
use meshy.Critic.Split.{
  has, Parents, parent_of, totals, geb, reach, reach_all, add_group, add_groups, walk_back,
}
use meshy.Critic.Split.Totals.{has-totals}

-- No group is there twice.
abbrev pub nodup : List ℕ → Bool
nodup [] = true
nodup (x ∷ xs) = not (has x xs) && nodup xs

-- The parents lead from a total back to 0.
abbrev pub Leads : Parents → ℕ → List ℕ → Type 0
Leads p t [] = t ≡ 0
Leads p t (g ∷ groups) =
    (before : ℕ) × (0 < t) × (parent_of p t ≡ some (some (before, g))) × Leads p before groups

parent_of-append :
    (p q : Parents) (t : ℕ) (x : Option (ℕ × ℕ))
    → parent_of p t ≡ some x
    → parent_of (p ++ q) t ≡ some x
unfolding parent_of
parent_of-append [] q t x h = cc
parent_of-append ((m, y) ∷ p) q t x h = elim (Bool-cases (m == t)) [
  | inl e ↦ rw e (rw (e, parent_of) at h)
  | inr e ↦ rw e (parent_of-append p q t x (rw (e, parent_of) at h))
]

parent_of-new :
    (p : Parents) (t : ℕ) (x : Option (ℕ × ℕ))
    → has t (totals p) ≡ false
    → parent_of (p ++ (t, x) ∷ []) t ≡ some x
unfolding parent_of
parent_of-new [] t x h = rw (same t) refl
  where
    same : (n : ℕ) → (n == n) ≡ true
    same n = ground arith
parent_of-new ((m, y) ∷ p) t x h =
    let e : (m == t) ≡ false = ground (arith, h) in rw e (parent_of-new p t x (ground (arith, h)))

Leads-append :
    (p q : Parents) (t : ℕ) (groups : List ℕ) → Leads p t groups → Leads (p ++ q) t groups
Leads-append p q t [] h = h
Leads-append p q t (g ∷ groups) (b, z, e, h) =
    (b, z, parent_of-append p q t (some (b, g)) e, Leads-append p q b groups h)

-- Enough rounds are as many as there are groups.
pub Leads-walk_back :
    (p : Parents) (rounds t : ℕ) (groups : List ℕ)
    → Leads p t groups
    → length groups ≤ rounds
    → walk_back p rounds t ≡ some groups
unfolding walk_back
Leads-walk_back p zero t [] h q = ground (arith, h)
Leads-walk_back p (suc rounds) t [] h q = let e : (t == 0) ≡ true = ground (arith, h) in rw e refl
Leads-walk_back p zero t (g ∷ groups) h q = absurd (omega (arith, q))
Leads-walk_back p (suc rounds) t (g ∷ groups) (b, z, e, h) q =
    let n : (t == 0) ≡ false = ground (arith, z) in
    rw (n, e, Leads-walk_back p rounds b groups h (omega (arith, q))) refl

pub All-has : (P : ℕ → Type 0) (l : List ℕ) → ((t : ℕ) → has t l ≡ true → P t) → All P l
All-has P [] h = tt
All-has P (x ∷ l) h = (h x (ground arith), All-has P l (λ t e. h t (ground (arith, e))))

module _ (size_of : ℕ → ℕ) where
  -- A total is known, by some of the groups that are done.
  pub record IsKnown (p : Parents) (done : List ℕ) (t : ℕ) : Type 0 where
    pub groups : List ℕ
    pub leads : Leads p t groups
    pub sums : sum (map size_of groups) ≡ t
    pub short : length groups ≤ t
    pub once : nodup groups ≡ true
    pub within : (x : ℕ) → has x groups ≡ true → has x done ≡ true

  abbrev pub IsSound : Parents → List ℕ → Type 0
  IsSound p done = (t : ℕ) → has t (totals p) ≡ true → IsKnown p done t

  IsKnown-append :
      (p q : Parents) (done : List ℕ) (t : ℕ) → IsKnown p done t → IsKnown (p ++ q) done t
  IsKnown-append p q done t k = record {
    groups = k.groups;
    leads = Leads-append p q t k.groups k.leads;
    sums = k.sums;
    short = k.short;
    once = k.once;
    within = k.within;
  }

  IsKnown-more :
      (p : Parents) (g : ℕ) (done : List ℕ) (t : ℕ) → IsKnown p done t → IsKnown p (g ∷ done) t
  IsKnown-more p g done t k = record {
    groups = k.groups;
    leads = k.leads;
    sums = k.sums;
    short = k.short;
    once = k.once;
    within = λ x h. ground (arith, k.within x h);
  }

  -- A new total has one group more.
  IsKnown-new :
      (p : Parents) (g : ℕ) (done : List ℕ) (t : ℕ)
      → 0 < size_of g
      → has g done ≡ false
      → has (t + size_of g) (totals p) ≡ false
      → IsKnown p done t
      → IsKnown (p ++ (t + size_of g, some (t, g)) ∷ []) (g ∷ done) (t + size_of g)
  IsKnown-new p g done t z f n k = record {
    groups = g ∷ k.groups;
    leads = (
      t,
      omega (arith, z),
      parent_of-new p (t + size_of g) (some (t, g)) n,
      Leads-append p ((t + size_of g, some (t, g)) ∷ []) t k.groups k.leads,
    );
    sums = omega (arith, k.sums);
    short = omega (arith, k.short, z);
    once = ground (arith, k.once, k.within g, f);
    within = λ x h. ground (arith, h, k.within x);
  }

  module _ (v g : ℕ) (done : List ℕ) (z : 0 < size_of g) (f : has g done ≡ false) where
    -- The totals before the group, and all totals.
    record Reached (p : Parents) (snapshot : List ℕ) : Type 0 where
      old : All (IsKnown p done) snapshot
      sound : IsSound p (g ∷ done)

    reach-Reached :
        (p : Parents) (t : ℕ) (snapshot : List ℕ)
        → Reached p (t ∷ snapshot)
        → Reached (reach v (size_of g) g p t) snapshot
    unfolding reach
    reach-Reached p t snapshot r =
        elim (Bool-cases (leb (t + size_of g) v && not (has (t + size_of g) (totals p)))) [
          | inr e ↦ rw e (record { old = r.old.1; sound = r.sound })
          | inl e ↦
              let new : Parents = (t + size_of g, some (t, g)) ∷ [] in
              let n : has (t + size_of g) (totals p) ≡ false = ground (arith, e) in
              rw e (record {
                old =
                    All-map (IsKnown p done) (IsKnown (p ++ new) done) snapshot
                      (λ x. IsKnown-append p new done x) r.old.1;
                sound = λ x h. elim (Bool-cases (has x (totals p))) [
                  | inl o ↦ IsKnown-append p new (g ∷ done) x (r.sound x o)
                  | inr o ↦
                      let same : t + size_of g ≡ x =
                        ground (arith, h, o, has-totals x p (t + size_of g) (some (t, g))) in
                      subst (IsKnown (p ++ new) (g ∷ done)) same
                        (IsKnown-new p g done t z f n r.old.0)
                ];
              })
        ]

    reach_all-IsSound :
        (p : Parents) (snapshot : List ℕ)
        → Reached p snapshot
        → IsSound (reach_all v (size_of g) g p snapshot) (g ∷ done)
    unfolding reach_all
    reach_all-IsSound p [] r = r.sound
    reach_all-IsSound p (t ∷ snapshot) r =
        reach_all-IsSound (reach v (size_of g) g p t) snapshot (reach-Reached p t snapshot r)

    add_group-IsSound :
        (p : Parents) → IsSound p done → IsSound (add_group v (size_of g) g p) (g ∷ done)
    unfolding add_group
    add_group-IsSound p s = reach_all-IsSound p (sort_by geb (totals p)) (record {
      old = All-sort_by geb (IsKnown p done) (totals p) (All-has (IsKnown p done) (totals p) s);
      sound = λ t h. IsKnown-more p g done t (s t h);
    })

  -- The search only finds totals of distinct groups.
  pub add_groups-IsSound :
      (v : ℕ) (p : Parents) (done groups : List ℕ)
      → All (λ g. 0 < size_of g) groups
      → nodup groups ≡ true
      → ((x : ℕ) → has x groups ≡ true → has x done ≡ false)
      → IsSound p done
      → (all_done : List ℕ) × IsSound (add_groups v size_of p groups) all_done
  unfolding add_groups
  add_groups-IsSound v p done [] z n f s = (done, s)
  add_groups-IsSound v p done (g ∷ groups) z n f s =
      let next = add_group v (size_of g) g p in
      let fresh : has g done ≡ false = f g (ground arith) in
      let now : IsSound next (g ∷ done) = add_group-IsSound v g done z.0 fresh p s in
      elim (Bool-cases (has v (totals next))) [
        | inl e ↦ rw (e, add_groups) (g ∷ done, now)
        | inr e ↦
            rw (e, add_groups)
              (add_groups-IsSound v next (g ∷ done) groups z.1 (ground (arith, n))
                (λ x h. elim (Bool-cases (g == x)) [
                  | inl q ↦
                      let same : g ≡ x = ground (arith, q) in
                      let there : has g groups ≡ true =
                        subst (λ y. has y groups ≡ true) (sym same) h in
                      absurd (ground (arith, n, there))
                  | inr q ↦ ground (arith, f x, h, q)
                ])
                now)
      ]
