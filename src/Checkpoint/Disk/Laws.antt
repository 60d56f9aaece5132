-- ===== src/Checkpoint/Disk/Laws.antt =====
-- What each effect changes of what the store reads.
use meshy.Prelude.{
  ℕ, String, ◌≡◌, refl, Bool, true, false, Option, none, some, List, [], ◌∷◌, ◌++◌, any, ◌==◌,
  str_eq, eq_iff, arith, if◌then◌else◌, ◌&&◌,
}
use meshy.Checkpoint.Disk.{
  Document, ServiceDir, Disk, Effect, makes_dir, puts_heavy, puts_meta, puts_marker, removes_marker,
  removes_meta, removes_heavy, without, lookup, remove_key, dir_of, adjust, make_dir, apply,
  is_complete, read_meta,
}

any-without :
    (n m : ℕ) (l : List ℕ)
    → any (λ k. k == m) (without n l) ≡ (if n == m then false else any (λ k. k == m) l)
unfolding without
any-without n m [] = ground arith
any-without n m (k ∷ l) = ground (arith, any-without n m l)

lookup-remove_key {ℓ} :
    {A : Type ℓ} (n m : ℕ) (l : List (ℕ × A))
    → lookup m (remove_key n l) ≡ (if n == m then none else lookup m l)
unfolding lookup remove_key
lookup-remove_key n m [] = ground arith
lookup-remove_key n m ((k, a) ∷ l) = ground (arith, lookup-remove_key n m l)

abbrev pub same : String → ℕ → String → ℕ → Bool
same s n t m = str_eq s t && n == m

module _ {P : Type 0} where
  abbrev markers_of : Option (ServiceDir P) → List ℕ
  markers_of none = []
  markers_of (some v) = v.markers

  abbrev metas_of : Option (ServiceDir P) → List (ℕ × Document P)
  metas_of none = []
  metas_of (some v) = v.metas

  abbrev changed : (ServiceDir P → ServiceDir P) → Option (ServiceDir P) → Option (ServiceDir P)
  changed f none = none
  changed f (some v) = some (f v)

  dir_of-adjust :
      (s t : String) (f : ServiceDir P → ServiceDir P) (d : Disk P)
      → dir_of (adjust s f d) t ≡ (if str_eq s t then changed f (dir_of d t) else dir_of d t)
  unfolding dir_of adjust
  dir_of-adjust s t f [] = ground arith
  dir_of-adjust s t f ((u, v) ∷ d) =
      ground (arith, eq_iff s t, eq_iff u s, eq_iff u t, dir_of-adjust s t f d)

  dir_of-append :
      (d : Disk P) (s t : String) (v : ServiceDir P)
      → dir_of d s ≡ none
      → dir_of (d ++ (s, v) ∷ []) t ≡ (if str_eq s t then some v else dir_of d t)
  unfolding dir_of
  dir_of-append [] s t v h = refl
  dir_of-append ((u, w) ∷ d) s t v h =
      ground (arith, eq_iff s t, eq_iff u s, eq_iff u t, dir_of-append d s t v)

  abbrev pub has : Disk P → String → Bool
  has d s = elim (dir_of d s) [ none ↦ false | some v ↦ true ]

  -- Whether a shard is committed, after each effect.
  pub is_complete-make_dir :
      (d : Disk P) (s t : String) (m : ℕ) → is_complete (make_dir s d) t m ≡ is_complete d t m
  unfolding is_complete make_dir
  is_complete-make_dir d s t m =
      ground
        (arith, dir_of-append d s t (record { heavy = []; metas = []; markers = [] }), eq_iff s t)

  abbrev pub complete_after : Disk P → Effect P → String → ℕ → Bool
  complete_after d (puts_marker s n) t m =
      if same s n t m && has d s then true else is_complete d t m
  complete_after d (removes_marker s n) t m = if same s n t m then false else is_complete d t m
  complete_after d _ t m = is_complete d t m

  pub is_complete-apply :
      (d : Disk P) (e : Effect P) (t : String) (m : ℕ)
      → is_complete (apply d e) t m ≡ complete_after d e t m
  unfolding is_complete apply
  is_complete-apply d (makes_dir s) t m = unfold is_complete in is_complete-make_dir d s t m
  is_complete-apply d (puts_marker s n) t m = ground (
    arith,
    dir_of-adjust s t (λ v. record v { markers = n ∷ without n v.markers }) d,
    any-without n m (markers_of (dir_of d t)),
    eq_iff s t,
  )
  is_complete-apply d (removes_marker s n) t m = ground (
    arith,
    dir_of-adjust s t (λ v. record v { markers = without n v.markers }) d,
    any-without n m (markers_of (dir_of d t)),
  )
  is_complete-apply d (puts_heavy s n) t m =
      ground (arith, dir_of-adjust s t (λ v. record v { heavy = n ∷ without n v.heavy }) d)
  is_complete-apply d (puts_meta s n doc) t m =
      ground
        (arith, dir_of-adjust s t (λ v. record v { metas = (n, doc) ∷ remove_key n v.metas }) d)
  is_complete-apply d (removes_meta s n) t m =
      ground (arith, dir_of-adjust s t (λ v. record v { metas = remove_key n v.metas }) d)
  is_complete-apply d (removes_heavy s n) t m =
      ground (arith, dir_of-adjust s t (λ v. record v { heavy = without n v.heavy }) d)

  abbrev pub meta_after : Disk P → Effect P → String → ℕ → Option (Document P)
  meta_after d (puts_meta s n doc) t m =
      if same s n t m && has d s then some doc else read_meta d t m
  meta_after d (removes_meta s n) t m = if same s n t m then none else read_meta d t m
  meta_after d _ t m = read_meta d t m

  pub read_meta-apply :
      (d : Disk P) (e : Effect P) (t : String) (m : ℕ)
      → read_meta (apply d e) t m ≡ meta_after d e t m
  unfolding read_meta apply
  read_meta-apply d (makes_dir s) t m =
      unfold make_dir in
      ground
        (arith, dir_of-append d s t (record { heavy = []; metas = []; markers = [] }), eq_iff s t)
  read_meta-apply d (puts_marker s n) t m =
      ground (arith, dir_of-adjust s t (λ v. record v { markers = n ∷ without n v.markers }) d)
  read_meta-apply d (removes_marker s n) t m =
      ground (arith, dir_of-adjust s t (λ v. record v { markers = without n v.markers }) d)
  read_meta-apply d (puts_heavy s n) t m =
      ground (arith, dir_of-adjust s t (λ v. record v { heavy = n ∷ without n v.heavy }) d)
  read_meta-apply d (puts_meta s n doc) t m = ground (
    arith,
    dir_of-adjust s t (λ v. record v { metas = (n, doc) ∷ remove_key n v.metas }) d,
    lookup-remove_key n m (metas_of (dir_of d t)),
    eq_iff s t,
  )
  read_meta-apply d (removes_meta s n) t m = ground (
    arith,
    dir_of-adjust s t (λ v. record v { metas = remove_key n v.metas }) d,
    lookup-remove_key n m (metas_of (dir_of d t)),
  )
  read_meta-apply d (removes_heavy s n) t m =
      ground (arith, dir_of-adjust s t (λ v. record v { heavy = without n v.heavy }) d)

  -- After `makedirs` the directory is there.
  pub has-make_dir : (d : Disk P) (s : String) → has (apply d (makes_dir s)) s ≡ true
  unfolding apply make_dir
  has-make_dir d s =
      ground
        (arith, dir_of-append d s s (record { heavy = []; metas = []; markers = [] }), eq_iff s s)
