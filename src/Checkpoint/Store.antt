-- ===== src/Checkpoint/Store.antt =====
-- `StateStore` of meshy/service/checkpoint.py: each operation that writes is the list of its effects
-- on the disk. A service's directory is listed without order, and the listing is then sorted.
pub mod Crash
pub mod Pruning
use Prim.Native.Nat.{Ordering}
use Prim.Native.String.{compare}
use meshy.Prelude.{
  ℕ, ◌-◌, String, Bool, true, false, Option, none, some, List, [], ◌∷◌, ◌++◌, map, flatten, any,
  length, take, leb, ltb, ◌==◌, if◌then◌else◌,
}
use meshy.Prelude.Sort.{sort_by}
use meshy.Checkpoint.Disk.{
  Document, ServiceDir, Disk, Effect, makes_dir, puts_meta, puts_marker, removes_marker,
  removes_meta, removes_heavy, dir_of, read_meta, run,
}

abbrev pub string_leb : String → String → Bool
string_leb s t = elim (compare s t) [ Ordering.gt ↦ false | _ ↦ true ]

-- `[s for s in steps if s > step]`
unfoldable pub newer_than : ℕ → List ℕ → List ℕ
newer_than step [] = []
newer_than step (s ∷ steps) =
    let rest = newer_than step steps in if ltb step s then s ∷ rest else rest

abbrev pub is_empty : List ℕ → Bool
is_empty [] = true
is_empty (x ∷ xs) = false

module _ {P : Type 0} where
  unfoldable pub write_meta : String → ℕ → P → List (Effect P)
  write_meta service step payload =
      makes_dir service
      ∷ puts_meta service step (record { service = service; global_step = step; payload = payload })
      ∷ []

  unfoldable pub mark_complete : String → ℕ → List (Effect P)
  mark_complete service step = makes_dir service ∷ puts_marker service step ∷ []

  -- A missing or empty document has no payload.
  unfoldable pub payload_of : Disk P → String → ℕ → Option P
  unfolding read_meta
  payload_of d service step = elim (read_meta d service step) [
    | none ↦ none
    | some doc ↦ some doc.payload
  ]

  unfoldable pub complete_steps : Disk P → String → List ℕ
  unfolding dir_of sort_by
  complete_steps d service = elim (dir_of d service) [ none ↦ [] | some v ↦ sort_by leb v.markers ]

  unfoldable pub known_services : Disk P → List String
  unfolding sort_by
  known_services d = sort_by string_leb (map (λ e. e.0) d)

  unfoldable pub has_any_shard : Disk P → Bool
  unfolding complete_steps known_services
  has_any_shard d =
      any (λ s. if is_empty (complete_steps d s) then false else true) (known_services d)

  -- The marker goes first.
  unfoldable pub drop : String → ℕ → List (Effect P)
  drop service step =
      removes_marker service step ∷ removes_meta service step ∷ removes_heavy service step ∷ []

  unfoldable pub drop_all : String → List ℕ → List (Effect P)
  unfolding drop flatten
  drop_all service steps = flatten (map (drop service) steps)

  -- `steps[:-keep_latest_k]`, if anything is to be kept.
  unfoldable pub stale_steps : Disk P → String → ℕ → List ℕ
  unfolding complete_steps
  stale_steps d service keep =
      if keep == 0
      then []
      else take (length (complete_steps d service) - keep) (complete_steps d service)

  -- `prune` returns the steps that it drops.
  unfoldable pub prune : Disk P → String → ℕ → List ℕ × List (Effect P)
  unfolding stale_steps drop_all
  prune d service keep = let stale = stale_steps d service keep in (stale, drop_all service stale)

  -- The loop of `drop_newer_than`: dropping the shards of one service leaves the others' listings.
  unfoldable pub drop_newer_from : Disk P → ℕ → List String → List (Effect P)
  unfolding newer_than drop_all complete_steps
  drop_newer_from d step [] = []
  drop_newer_from d step (s ∷ services) =
      drop_all s (newer_than step (complete_steps d s)) ++ drop_newer_from d step services

  unfoldable pub drop_newer_than : Disk P → ℕ → List (Effect P)
  unfolding drop_newer_from known_services
  drop_newer_than d step = drop_newer_from d step (known_services d)
