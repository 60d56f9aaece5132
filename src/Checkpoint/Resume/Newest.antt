-- ===== src/Checkpoint/Resume/Newest.antt =====
-- The resume point is the newest step at which every participant has committed a shard.
use meshy.Prelude.{
  ℕ, ◌≤◌, ◌<◌, String, ◌≡◌, refl, ◌∙◌, Bool, true, false, not, Option, none, some, List, [], ◌∷◌,
  ◌++◌, any, all, map, leb, ◌==◌, eq_iff, ◌&&◌, ◌||◌, All, arith, if◌then◌else◌,
}
use meshy.Prelude.Sort.{sort_by, insert_by, IsSorted, sort_by-IsSorted}
use meshy.Checkpoint.Disk.{Disk, ServiceDir, dir_of, is_complete}
use meshy.Checkpoint.Store.{complete_steps, known_services, string_leb}
use meshy.Checkpoint.Resume.{
  update_seen, no_names, geb, seen_from, candidates_of, resumable, resolve_from,
  resolve_resume_step,
}

abbrev pub has_step : ℕ → List ℕ → Bool
has_step n l = any (λ k. k == n) l

any-append {ℓ} :
    {A : Type ℓ} (f : A → Bool) (xs ys : List A) → any f (xs ++ ys) ≡ (any f xs || any f ys)
any-append f [] ys = refl
any-append f (x ∷ xs) ys = ground (arith, any-append f xs ys)

any-insert_by {ℓ} :
    {A : Type ℓ} (le : A → A → Bool) (f : A → Bool) (x : A) (xs : List A)
    → any f (insert_by le x xs) ≡ (f x || any f xs)
unfolding insert_by
any-insert_by le f x [] = refl
any-insert_by le f x (y ∷ ys) = ground (arith, any-insert_by le f x ys)

-- Sorting keeps what is in the list.
pub any-sort_by {ℓ} :
    {A : Type ℓ} (le : A → A → Bool) (f : A → Bool) (xs : List A) → any f (sort_by le xs) ≡ any f xs
unfolding sort_by
any-sort_by le f [] = refl
any-sort_by le f (x ∷ xs) =
    ground (arith, any-insert_by le f x (sort_by le xs), any-sort_by le f xs)

has_step-update_seen :
    (t : ℕ) (seen steps : List ℕ)
    → has_step t (update_seen seen steps) ≡ (has_step t seen || has_step t steps)
unfolding update_seen
has_step-update_seen t seen [] = ground arith
has_step-update_seen t seen (n ∷ steps) = ground (
  arith,
  has_step-update_seen t (if any (λ k. k == n) seen then seen else seen ++ n ∷ []) steps,
  any-append (λ k. k == t) seen (n ∷ []),
)

has_step-listing :
    {P : Type 0} (t : ℕ) (v : Option (ServiceDir P))
    → has_step t (elim v [ none ↦ [] | some w ↦ sort_by leb w.markers ])
      ≡ elim v [ none ↦ false | some w ↦ any (λ m. m == t) w.markers ]
has_step-listing t none = refl
has_step-listing t (some w) = any-sort_by leb (λ k. k == t) w.markers

module _ {P : Type 0} (d : Disk P) where
  has_step-seen_from :
      (t : ℕ) (seen : List ℕ) (services : List String)
      → has_step t (seen_from d seen services)
        ≡ (has_step t seen || any (λ s. has_step t (complete_steps d s)) services)
  unfolding seen_from
  has_step-seen_from t seen [] = ground arith
  has_step-seen_from t seen (s ∷ services) = ground (
    arith,
    has_step-seen_from t (update_seen seen (complete_steps d s)) services,
    has_step-update_seen t seen (complete_steps d s),
  )

  -- The sorted listing has exactly the committed steps.
  pub has_step-complete_steps :
      (s : String) (t : ℕ) → has_step t (complete_steps d s) ≡ is_complete d s t
  unfolding complete_steps is_complete
  has_step-complete_steps s t = has_step-listing t (dir_of d s)

pub any_of_name :
    {P : Type 0} (f : String → Bool) (d : Disk P) (s : String) (t : ℕ)
    → is_complete d s t ≡ true
    → f s ≡ true
    → any f (map (λ e. e.0) d) ≡ true
unfolding is_complete dir_of
any_of_name f [] s t h k = cc
any_of_name f ((u, v) ∷ d) s t h k = ground (arith, eq_iff u s, any_of_name f d s t)

any-of_some {ℓ} :
    {A : Type ℓ} (f g : A → Bool) (x : A) (xs : List A)
    → any g xs ≡ true
    → ((y : A) → g y ≡ true → f y ≡ true)
    → any f xs ≡ true
any-of_some f g x [] h k = cc
any-of_some f g x (y ∷ xs) h k = ground (arith, any-of_some f g x xs, k y)

has_step-le :
    (n t : ℕ) (steps : List ℕ) → All (λ y. geb n y ≡ true) steps → has_step t steps ≡ true → t ≤ n
has_step-le n t [] a h = cc
has_step-le n t (m ∷ steps) a h = ground (arith, has_step-le n t steps a.1, a.0)

geb_total : (x y : ℕ) → geb x y ≡ false → geb y x ≡ true
geb_total x y h = ground arith

geb_trans : (x y z : ℕ) → geb x y ≡ true → geb y z ≡ true → geb x z ≡ true
geb_trans x y z h k = ground arith

module _ {P : Type 0} (d : Disk P) (participants_at : ℕ → List String) where
  resolve_from_sound :
      (steps : List ℕ)
      → 0 < resolve_from d participants_at steps
      → resumable d participants_at (resolve_from d participants_at steps) ≡ true
  unfolding resolve_from
  resolve_from_sound [] h = absurd (omega arith)
  resolve_from_sound (n ∷ steps) h = ground (arith, resolve_from_sound steps)

  resolve_from_max :
      (steps : List ℕ) (t : ℕ)
      → IsSorted geb steps
      → has_step t steps ≡ true
      → 0 < t
      → resumable d participants_at t ≡ true
      → t ≤ resolve_from d participants_at steps
  unfolding resolve_from
  resolve_from_max [] t so h p q = cc
  resolve_from_max (n ∷ steps) t so h p q =
      ground (arith, resolve_from_max steps t so.1, has_step-le n t steps so.0)

  -- Every step at which some service has committed is a candidate.
  has_step-candidates_of :
      (s : String) (t : ℕ) → is_complete d s t ≡ true → has_step t (candidates_of d) ≡ true
  unfolding candidates_of known_services
  has_step-candidates_of s t h = ground (
    arith,
    has_step-seen_from d t [] (sort_by string_leb (map (λ e. e.0) d)),
    any-sort_by string_leb (λ u. has_step t (complete_steps d u)) (map (λ e. e.0) d),
    any_of_name (λ u. has_step t (complete_steps d u)) d s t h,
    has_step-complete_steps d s t,
  )

  -- A resumable step has a participant, and that has committed.
  first_is_candidate :
      (t : ℕ) (names : List String)
      → (not (no_names names) && all (λ s. is_complete d s t) names) ≡ true
      → has_step t (candidates_of d) ≡ true
  first_is_candidate t [] h = cc
  first_is_candidate t (s ∷ names) h = has_step-candidates_of s t (ground arith)

  has_step-of_resumable :
      (t : ℕ) → resumable d participants_at t ≡ true → has_step t (candidates_of d) ≡ true
  unfolding resumable
  has_step-of_resumable t h = first_is_candidate t (participants_at t) h

  -- A step that the loop returns passed its test.
  pub resolve-is_resumable :
      (candidates : Option (List ℕ))
      → 0 < resolve_resume_step d participants_at candidates
      → resumable d participants_at (resolve_resume_step d participants_at candidates) ≡ true
  unfolding resolve_resume_step
  resolve-is_resumable none h = resolve_from_sound (sort_by geb (candidates_of d)) h
  resolve-is_resumable (some l) h = resolve_from_sound (sort_by geb l) h

  -- Without given candidates no step that has participants, each of which has committed a shard at
  -- it, is newer than the step that a restart resumes from.
  pub resolve-is_newest :
      (t : ℕ)
      → 0 < t
      → resumable d participants_at t ≡ true
      → t ≤ resolve_resume_step d participants_at none
  unfolding resolve_resume_step
  resolve-is_newest t p q =
      resolve_from_max (sort_by geb (candidates_of d)) t
        (sort_by-IsSorted geb geb_total geb_trans (candidates_of d))
        (any-sort_by geb (λ k. k == t) (candidates_of d) ∙ has_step-of_resumable t q) p q
