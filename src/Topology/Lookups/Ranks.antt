-- ===== src/Topology/Lookups/Ranks.antt =====
-- The map from ranks to names that `colocated_inference_for` fills.
use mathlib.Core.List.{append-nil}
use meshy.Prelude.{
  ℕ, String, ◌≡◌, refl, sym, ap, subst, Bool, true, false, ◌&&◌, ◌||◌, List, [], ◌∷◌, ◌++◌, map,
  any, select, ◌==◌, if◌then◌else◌, arith, inl, inr, Bool-cases, All,
}
use meshy.Topology.Types.{Gpu, ServiceInfo}
use meshy.Topology.Lookups.{has_rank, put_rank, put_ranks, shared_ranks, Shared, endpoint, share_on}

-- A replica has one of the cards.
abbrev pub shares : List Gpu → ServiceInfo → Bool
shares mine inf = any (λ (g : Gpu). has_rank g.global_rank mine) inf.replica_gpus

-- A rank has a name in the map.
abbrev pub has_entry : ℕ → List (ℕ × String) → Bool
has_entry r l = any (λ e. e.0 == r) l

module _ (P : ℕ × String → Type 0) where
  pub put_rank-All :
      (l : List (ℕ × String)) (r : ℕ) (name : String)
      → All P l
      → P (r, name)
      → All P (put_rank l r name)
  unfolding put_rank
  put_rank-All [] r name a p = (p, tt)
  put_rank-All ((k, n) ∷ l) r name a p = elim (Bool-cases (k == r)) [
    | inl e ↦
        let same : k ≡ r = ground (arith, e) in rw e (subst (λ j. P (j, name)) (sym same) p, a.1)
    | inr e ↦ rw e (a.0, put_rank-All l r name a.1 p)
  ]

  pub put_ranks-All :
      (l : List (ℕ × String)) (ranks : List ℕ) (name : String)
      → All P l
      → All (λ r. P (r, name)) ranks
      → All P (put_ranks l ranks name)
  unfolding put_ranks
  put_ranks-All l [] name a p = a
  put_ranks-All l (r ∷ ranks) name a p =
      put_ranks-All (put_rank l r name) ranks name (put_rank-All l r name a p.0) p.1

pub has_entry-put_rank :
    (l : List (ℕ × String)) (r : ℕ) (name : String) (k : ℕ)
    → has_entry k (put_rank l r name) ≡ (has_entry k l || r == k)
unfolding put_rank
has_entry-put_rank [] r name k = ground arith
has_entry-put_rank ((j, n) ∷ l) r name k = ground (arith, has_entry-put_rank l r name k)

pub has_entry-put_ranks :
    (l : List (ℕ × String)) (ranks : List ℕ) (name : String) (k : ℕ)
    → has_entry k (put_ranks l ranks name) ≡ (has_entry k l || any (λ r. r == k) ranks)
unfolding put_ranks
has_entry-put_ranks l [] name k = ground arith
has_entry-put_ranks l (r ∷ ranks) name k =
    ground
      (arith, has_entry-put_ranks (put_rank l r name) ranks name k, has_entry-put_rank l r name k)

-- A rank that two replicas have is shared.
pub shared_ranks-has :
    (mine theirs : List Gpu) (k : ℕ)
    → any (λ r. r == k) (shared_ranks mine theirs) ≡ (has_rank k theirs && has_rank k mine)
unfolding shared_ranks
shared_ranks-has mine [] k = refl
shared_ranks-has mine (g ∷ theirs) k = elim (Bool-cases (g.global_rank == k)) [
  | inl e ↦
      let same : g.global_rank ≡ k = ground (arith, e) in
      let here : has_rank g.global_rank mine ≡ has_rank k mine = ap (λ r. has_rank r mine) same in
      ground (arith, shared_ranks-has mine theirs k, e, here)
  | inr e ↦ ground (arith, shared_ranks-has mine theirs k, e)
]

pub All-any :
    (ranks : List ℕ) (P : ℕ → Type 0)
    → ((k : ℕ) → any (λ r. r == k) ranks ≡ true → P k)
    → All P ranks
All-any [] P h = tt
All-any (r ∷ ranks) P h = (h r (ground arith), All-any ranks P (λ k e. h k (ground (arith, e))))

abbrev pub some_rank : List ℕ → Bool
some_rank [] = false
some_rank (r ∷ ranks) = true

pub some_rank-shared :
    (mine theirs : List Gpu)
    → some_rank (shared_ranks mine theirs) ≡ any (λ (g : Gpu). has_rank g.global_rank mine) theirs
unfolding shared_ranks
some_rank-shared mine [] = refl
some_rank-shared mine (g ∷ theirs) = elim (Bool-cases (has_rank g.global_rank mine)) [
  | inl e ↦ rw e refl
  | inr e ↦ rw e (some_rank-shared mine theirs)
]

module _ (url : String → ℕ → String) where
  pub share_on-names :
      (inf : ServiceInfo) (ranks : List ℕ) (l : Shared)
      → ((share_on url inf ranks l).names
          ≡ l.names ++ (if some_rank ranks then inf.name ∷ [] else []))
        × ((share_on url inf ranks l).endpoints
            ≡ l.endpoints ++ (if some_rank ranks then endpoint url inf ∷ [] else []))
  unfolding share_on
  share_on-names inf [] l = (sym (append-nil l.names), sym (append-nil l.endpoints))
  share_on-names inf (r ∷ ranks) l = (refl, refl)

  pub share_on-by_rank :
      (inf : ServiceInfo) (ranks : List ℕ) (l : Shared)
      → (share_on url inf ranks l).by_rank ≡ put_ranks l.by_rank ranks inf.name
  unfolding share_on put_ranks
  share_on-by_rank inf [] l = refl
  share_on-by_rank inf (r ∷ ranks) l = refl

pub map-select {ℓ} :
    {A : Type ℓ} (f : ServiceInfo → A) (p : ServiceInfo → Bool) (x : ServiceInfo)
    (xs : List ServiceInfo)
    → map f (select p (x ∷ xs)) ≡ (if p x then f x ∷ [] else []) ++ map f (select p xs)
map-select f p x xs = elim (Bool-cases (p x)) [ inl e ↦ rw e refl | inr e ↦ rw e refl ]
