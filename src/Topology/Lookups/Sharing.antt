-- ===== src/Topology/Lookups/Sharing.antt =====
-- What `colocated_inference_for` and `checkpoint_participants` answer.
use mathlib.Core.List.{append_assoc, append-nil}
use meshy.Prelude.{
  ℕ, String, ◌≡◌, sym, ap, subst, ◌∙◌, Bool, true, ◌&&◌, ◌||◌, some, List, [], ◌∷◌, ◌++◌, map, any,
  select, str_eq, eq_iff, if◌then◌else◌, arith, All, All-map,
}
use meshy.Topology.Types.{Gpu, ServiceInfo}
use meshy.Topology.Lookups.{
  has_rank, group, put_ranks, shared_ranks, Shared, endpoint, share_with, share_all, no_shared,
  colocated_inference_for,
}
use meshy.Topology.Lookups.Ranks.{
  shares, has_entry, put_ranks-All, has_entry-put_ranks, shared_ranks-has, All-any, some_rank,
  some_rank-shared, share_on-names, share_on-by_rank, map-select,
}

module _ (url : String → ℕ → String) (mine : List Gpu) where
  share_all-names :
      (l : Shared) (infs : List ServiceInfo)
      → ((share_all url mine l infs).names
          ≡ l.names ++ map (λ (s : ServiceInfo). s.name) (select (shares mine) infs))
        × ((share_all url mine l infs).endpoints
            ≡ l.endpoints ++ map (endpoint url) (select (shares mine) infs))
  unfolding share_all share_with
  share_all-names l [] = (sym (append-nil l.names), sym (append-nil l.endpoints))
  share_all-names l (inf ∷ infs) =
      let a = share_all-names (share_with url mine l inf) infs in
      let b = share_on-names url inf (shared_ranks mine inf.replica_gpus) l in
      let c = some_rank-shared mine inf.replica_gpus in
      let name = λ (s : ServiceInfo). s.name in
      (
        a.0
            ∙ ap (λ x. x ++ map name (select (shares mine) infs)) b.0
            ∙ append_assoc l.names
                (if some_rank (shared_ranks mine inf.replica_gpus) then inf.name ∷ [] else []) _
            ∙ ap
                (λ t.
                  l.names
                  ++ ((if t then inf.name ∷ [] else []) ++ map name (select (shares mine) infs)))
                c
            ∙ ap (◌++◌ l.names) (sym (map-select name (shares mine) inf infs)),
        a.1
            ∙ ap (λ x. x ++ map (endpoint url) (select (shares mine) infs)) b.1
            ∙ append_assoc l.endpoints
                (if some_rank (shared_ranks mine inf.replica_gpus)
                  then endpoint url inf ∷ []
                  else [])
                _
            ∙ ap
                (λ t.
                  l.endpoints
                  ++ ((if t then endpoint url inf ∷ [] else [])
                      ++ map (endpoint url) (select (shares mine) infs)))
                c
            ∙ ap (◌++◌ l.endpoints) (sym (map-select (endpoint url) (shares mine) inf infs)),
      )

  share_with-by_rank :
      (l : Shared) (inf : ServiceInfo)
      → (share_with url mine l inf).by_rank
        ≡ put_ranks l.by_rank (shared_ranks mine inf.replica_gpus) inf.name
  unfolding share_with
  share_with-by_rank l inf = share_on-by_rank url inf (shared_ranks mine inf.replica_gpus) l

  share_all-All :
      (P : ℕ × String → Type 0) (l : Shared) (infs : List ServiceInfo)
      → All P l.by_rank
      → All
          (λ (inf : ServiceInfo). All (λ r. P (r, inf.name)) (shared_ranks mine inf.replica_gpus))
          infs
      → All P (share_all url mine l infs).by_rank
  unfolding share_all
  share_all-All P l [] a h = a
  share_all-All P l (inf ∷ infs) a h =
      share_all-All P (share_with url mine l inf) infs
        (subst (All P) (sym (share_with-by_rank l inf))
          (put_ranks-All P l.by_rank (shared_ranks mine inf.replica_gpus) inf.name a h.0))
        h.1

  has_entry-share_all :
      (l : Shared) (infs : List ServiceInfo) (k : ℕ)
      → has_entry k (share_all url mine l infs).by_rank ≡ (
          has_entry k l.by_rank
          || any (λ (inf : ServiceInfo). has_rank k inf.replica_gpus && has_rank k mine) infs)
  unfolding share_all
  has_entry-share_all l [] k = ground arith
  has_entry-share_all l (inf ∷ infs) k = ground (
    arith,
    has_entry-share_all (share_with url mine l inf) infs k,
    ap (has_entry k) (share_with-by_rank l inf),
    has_entry-put_ranks l.by_rank (shared_ranks mine inf.replica_gpus) inf.name k,
    shared_ranks-has mine inf.replica_gpus k,
  )

-- A replica of that name has the card.
abbrev pub hosted : List ServiceInfo → List Gpu → ℕ × String → Bool
hosted infs mine e =
    has_rank e.0 mine
    && any (λ (inf : ServiceInfo). str_eq inf.name e.1 && has_rank e.0 inf.replica_gpus) infs

hosted-there :
    (mine : List Gpu) (infs : List ServiceInfo)
    → All
        (λ (inf : ServiceInfo).
          All (λ r. hosted infs mine (r, inf.name) ≡ true) (shared_ranks mine inf.replica_gpus))
        infs
hosted-there mine [] = tt
hosted-there mine (inf ∷ infs) = (
  All-any (shared_ranks mine inf.replica_gpus) _ (λ k e.
      ground (arith, e, shared_ranks-has mine inf.replica_gpus k, eq_iff inf.name inf.name)),
  All-map _ _ infs (λ x. All-map _ _ (shared_ranks mine x.replica_gpus) (λ k e. ground (arith, e)))
      (hosted-there mine infs),
)

-- For a trainer that is colocated with the group `other`, `colocated_inference_for` gives the names
-- and the endpoints of the replicas of `other` that have a card of the trainer, in their order; each
-- entry of its map is a rank of the trainer with the name of a replica of `other` that has that card;
-- and a rank has an entry exactly where both the trainer and a replica of `other` have it.
pub colocated_inference_for_lem :
    (url : String → ℕ → String) (services : List ServiceInfo) (trainer : ServiceInfo)
    (other : String) (k : ℕ)
    → trainer.colocate_with ≡ some other
    → ((colocated_inference_for url services trainer).names
        ≡ map
            (λ (s : ServiceInfo). s.name)
            (select (shares trainer.replica_gpus) (group services other)))
      × ((colocated_inference_for url services trainer).endpoints
          ≡ map (endpoint url) (select (shares trainer.replica_gpus) (group services other)))
      × All
          (λ e. hosted (group services other) trainer.replica_gpus e ≡ true)
          (colocated_inference_for url services trainer).by_rank
      × (has_entry k (colocated_inference_for url services trainer).by_rank
          ≡ any
              (λ (inf : ServiceInfo).
                has_rank k inf.replica_gpus && has_rank k trainer.replica_gpus)
              (group services other))
unfolding colocated_inference_for
colocated_inference_for_lem url services trainer other k h =
    let mine = trainer.replica_gpus in
    let infs = group services other in
    let n = share_all-names url mine (no_shared url) infs in
    rw h (
      n.0,
      n.1,
      share_all-All url mine (λ e. hosted infs mine e ≡ true) (no_shared url) infs tt
          (hosted-there mine infs),
      has_entry-share_all url mine (no_shared url) infs k,
    )
