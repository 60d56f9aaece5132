-- ===== src/Checkpoint/Store/Pruning.antt =====
-- What `prune` of meshy/service/checkpoint.py leaves.
use meshy.Prelude.{
  ℕ, zero, suc, ◌-◌, ◌≤◌, ◌<◌, String, ◌≡◌, refl, ap, Bool, true, false, not, Option, none, some,
  List, [], ◌∷◌, ◌++◌, any, leb, ◌==◌, length, take, flatten, All, All-map, arith, str_eq, ◌&&◌,
  leb→le,
}
use meshy.Prelude.{drop as rest_of}
use Prim.Native.Nat.{min}
use meshy.Prelude.Sort.{sort_by, IsSorted, sort_by-IsSorted}
use meshy.Checkpoint.Disk.{
  Disk, ServiceDir, Effect, dir_of, is_complete, apply, run, removes_marker, removes_meta,
  removes_heavy,
}
use meshy.Checkpoint.Disk.Laws.{is_complete-apply}
use meshy.Checkpoint.Store.{complete_steps, drop, drop_all, stale_steps, prune}

abbrev pub has_step : ℕ → List ℕ → Bool
has_step n l = any (λ k. k == n) l

-- Each of the second list is at least each of the first.
abbrev pub IsBelow : List ℕ → List ℕ → Type 0
IsBelow xs ys = All (λ x. All (λ y. x ≤ y) ys) xs

leb_total : (x y : ℕ) → leb x y ≡ false → leb y x ≡ true
leb_total x y h = ground arith

leb_trans : (x y z : ℕ) → leb x y ≡ true → leb y z ≡ true → leb x z ≡ true
leb_trans x y z h k = ground arith

All-rest_of : (P : ℕ → Type 0) (n : ℕ) (xs : List ℕ) → All P xs → All P (rest_of n xs)
All-rest_of P zero xs h = h
All-rest_of P (suc n) [] h = tt
All-rest_of P (suc n) (x ∷ xs) h = All-rest_of P n xs h.1

IsBelow-take : (n : ℕ) (xs : List ℕ) → IsSorted leb xs → IsBelow (take n xs) (rest_of n xs)
IsBelow-take zero xs h = tt
IsBelow-take (suc n) [] h = tt
IsBelow-take (suc n) (x ∷ xs) h = (
  All-rest_of (λ y. x ≤ y) n xs
      (All-map (λ y. leb x y ≡ true) (λ y. x ≤ y) xs (λ y. leb→le x y) h.0),
  IsBelow-take n xs h.1,
)

length-rest_of : (n : ℕ) (xs : List ℕ) → length (rest_of n xs) ≡ length xs - n
length-rest_of zero xs = omega arith
length-rest_of (suc n) [] = omega arith
length-rest_of (suc n) (x ∷ xs) = omega (arith, length-rest_of n xs)

append-take : (n : ℕ) (xs : List ℕ) → xs ≡ take n xs ++ rest_of n xs
append-take zero xs = refl
append-take (suc n) [] = refl
append-take (suc n) (x ∷ xs) = ap (λ l. x ∷ l) (append-take n xs)

positive-test : (k : ℕ) → 0 < k → (k == 0) ≡ false
positive-test k p = ground arith

module _ {P : Type 0} where
  -- Dropping a shard takes that shard away, and no other.
  is_complete-drop :
      (d : Disk P) (s : String) (n : ℕ) (t : String) (m : ℕ)
      → is_complete (run d (drop s n)) t m ≡ (is_complete d t m && not (str_eq s t && n == m))
  unfolding drop run
  is_complete-drop d s n t m = ground (
    arith,
    is_complete-apply (apply (apply d (removes_marker s n)) (removes_meta s n)) (removes_heavy s n)
        t m,
    is_complete-apply (apply d (removes_marker s n)) (removes_meta s n) t m,
    is_complete-apply d (removes_marker s n) t m,
  )

  run-append : (d : Disk P) (xs ys : List (Effect P)) → run d (xs ++ ys) ≡ run (run d xs) ys
  unfolding run
  run-append d [] ys = refl
  run-append d (x ∷ xs) ys = run-append (apply d x) xs ys

  is_complete-drop_all :
      (d : Disk P) (s : String) (steps : List ℕ) (t : String) (m : ℕ)
      → is_complete (run d (drop_all s steps)) t m
        ≡ (is_complete d t m && not (str_eq s t && has_step m steps))
  unfolding drop_all flatten
  is_complete-drop_all d s [] t m = unfold run in ground arith
  is_complete-drop_all d s (n ∷ steps) t m = rw (run-append d (drop s n) (drop_all s steps)) (
      ground
        (arith, is_complete-drop_all (run d (drop s n)) s steps t m, is_complete-drop d s n t m))

  listing-IsSorted :
      (v : Option (ServiceDir P))
      → IsSorted leb (elim v [ none ↦ [] | some w ↦ sort_by leb w.markers ])
  listing-IsSorted none = tt
  listing-IsSorted (some w) = sort_by-IsSorted leb leb_total leb_trans w.markers

  complete_steps-IsSorted : (d : Disk P) (s : String) → IsSorted leb (complete_steps d s)
  unfolding complete_steps
  complete_steps-IsSorted d s = listing-IsSorted (dir_of d s)

  -- `prune` takes away the shards of the service at the steps that it returns, and no other; these
  -- are, with `k > 0` to keep, the committed steps but the `k` last of the listing, and each step
  -- that stays is at least each that goes.
  pub prune-lem :
      (d : Disk P) (s : String) (k : ℕ) (t : String) (m : ℕ)
      → 0 < k
      → (is_complete (run d (prune d s k).1) t m
          ≡ (is_complete d t m && not (str_eq s t && has_step m (prune d s k).0)))
        × ((kept : List ℕ) × (complete_steps d s ≡ (prune d s k).0 ++ kept)
            × (length kept ≡ min k (length (complete_steps d s)))
            × IsBelow (prune d s k).0 kept)
  unfolding prune
  prune-lem d s k t m p = (
    is_complete-drop_all d s (stale_steps d s k) t m,
    unfold stale_steps in
        let l = complete_steps d s in
        rw (positive-test k p) (
          rest_of (length l - k) l,
          append-take (length l - k) l,
          omega (arith, length-rest_of (length l - k) l),
          IsBelow-take (length l - k) l (complete_steps-IsSorted d s),
        ),
  )
