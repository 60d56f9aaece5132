-- ===== src/Checkpoint/Disk.antt =====
-- The state directory that meshy/service/checkpoint.py works on. An operation is a list of effects,
-- each of them atomic; a crash runs some of them, from the first on.
pub mod Laws
use meshy.Prelude.{
  ℕ, String, Bool, true, false, not, Option, none, some, List, [], ◌∷◌, ◌++◌, any, ◌==◌, str_eq,
  if◌then◌else◌,
}

-- `json.dump` of `write_meta`, less its time stamp, which nothing reads.
pub record Document (P : Type 0) : Type 0 where
  pub service : String
  pub global_step : ℕ
  pub payload : P

-- What stands in the directory of one service, by step: DCP directories, sidecars, markers.
pub record ServiceDir (P : Type 0) : Type 0 where
  pub heavy : List ℕ
  pub metas : List (ℕ × Document P)
  pub markers : List ℕ

abbrev pub Disk : Type 0 → Type 0
Disk P = List (String × ServiceDir P)

pub data Effect (P : Type 0) : Type 0 where
  makes_dir : String → Effect P
  puts_heavy : String → ℕ → Effect P
  puts_meta : String → ℕ → Document P → Effect P
  puts_marker : String → ℕ → Effect P
  removes_marker removes_meta removes_heavy : String → ℕ → Effect P

-- A list of steps without one of them.
unfoldable pub without : ℕ → List ℕ → List ℕ
without n [] = []
without n (m ∷ ms) = let rest = without n ms in if m == n then rest else m ∷ rest

module _ {ℓ} {A : Type ℓ} where
  unfoldable pub lookup : ℕ → List (ℕ × A) → Option A
  lookup n [] = none
  lookup n ((m, a) ∷ l) = if m == n then some a else lookup n l

  unfoldable pub remove_key : ℕ → List (ℕ × A) → List (ℕ × A)
  remove_key n [] = []
  remove_key n ((m, a) ∷ l) = let rest = remove_key n l in if m == n then rest else (m, a) ∷ rest

module _ {P : Type 0} where
  unfoldable pub dir_of : Disk P → String → Option (ServiceDir P)
  dir_of [] s = none
  dir_of ((t, v) ∷ d) s = if str_eq t s then some v else dir_of d s

  unfoldable pub adjust : String → (ServiceDir P → ServiceDir P) → Disk P → Disk P
  adjust s f [] = []
  adjust s f ((t, v) ∷ d) = if str_eq t s then (t, f v) ∷ d else (t, v) ∷ adjust s f d

  abbrev empty_dir : ServiceDir P
  empty_dir = record { heavy = []; metas = []; markers = [] }

  -- `os.makedirs(..., exist_ok=True)`
  unfoldable pub make_dir : String → Disk P → Disk P
  unfolding dir_of
  make_dir s d = elim (dir_of d s) [ none ↦ d ++ (s, empty_dir) ∷ [] | some v ↦ d ]

  unfoldable pub apply : Disk P → Effect P → Disk P
  unfolding make_dir adjust without remove_key
  apply d (makes_dir s) = make_dir s d
  apply d (puts_heavy s n) = adjust s (λ v. record v { heavy = n ∷ without n v.heavy }) d
  apply d (puts_meta s n doc) =
      adjust s (λ v. record v { metas = (n, doc) ∷ remove_key n v.metas }) d
  apply d (puts_marker s n) = adjust s (λ v. record v { markers = n ∷ without n v.markers }) d
  apply d (removes_marker s n) = adjust s (λ v. record v { markers = without n v.markers }) d
  apply d (removes_meta s n) = adjust s (λ v. record v { metas = remove_key n v.metas }) d
  apply d (removes_heavy s n) = adjust s (λ v. record v { heavy = without n v.heavy }) d

  unfoldable pub run : Disk P → List (Effect P) → Disk P
  unfolding apply
  run d [] = d
  run d (e ∷ es) = run (apply d e) es

  -- `is_complete`: the marker's file exists.
  unfoldable pub is_complete : Disk P → String → ℕ → Bool
  unfolding dir_of
  is_complete d s n = elim (dir_of d s) [ none ↦ false | some v ↦ any (λ m. m == n) v.markers ]

  -- `read_meta`: the sidecar of a shard, if there is one.
  unfoldable pub read_meta : Disk P → String → ℕ → Option (Document P)
  unfolding dir_of lookup
  read_meta d s n = elim (dir_of d s) [ none ↦ none | some v ↦ lookup n v.metas ]
