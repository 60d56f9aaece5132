-- ===== src/Topology/Checks/Policies.antt =====
-- What `_validate_checkpoint` accepts.
use mathlib.Core.List.{append_assoc, append-nil}
use meshy.Prelude.{
  String, ◌≡◌, refl, sym, ap, subst, ◌∙◌, Bool, true, false, not, ◌&&◌, ◌||◌, Option, none, some,
  List, [], ◌∷◌, ◌++◌, map, any, all, str_eq, eq_iff, ok, arith, inl, inr, Bool-cases, All, select,
}
use meshy.Prelude.Dicts.{put}
use meshy.Checkpoint.Policy.{GlobalCheckpointConfig}
use meshy.Topology.Types.{ServiceInfo}
use meshy.Topology.Checks.{
  is_empty, bool_eq, policy_eq, policies_from, same_policy, one_policy, checkpointing_services,
  validate_checkpoint,
}
use meshy.Topology.Lookups.{checkpoint_config}

-- The names of replicas are distinct.
abbrev pub name_in : String → List ServiceInfo → Bool
name_in name services = any (λ (s : ServiceInfo). str_eq s.name name) services

abbrev pub distinct_names : List ServiceInfo → Bool
distinct_names [] = true
distinct_names (s ∷ services) = not (name_in s.name services) && distinct_names services

abbrev has_key : String → List (String × Option GlobalCheckpointConfig) → Bool
has_key name l = any (λ e. str_eq e.0 name) l

put_fresh :
    (l : List (String × Option GlobalCheckpointConfig)) (name : String)
    (c : Option GlobalCheckpointConfig)
    → has_key name l ≡ false
    → put l name c ≡ l ++ (name, c) ∷ []
unfolding put
put_fresh [] name c h = refl
put_fresh ((u, b) ∷ l) name c h = ground (arith, put_fresh l name c, h)

has_key-append :
    (name : String) (xs ys : List (String × Option GlobalCheckpointConfig))
    → has_key name (xs ++ ys) ≡ (has_key name xs || has_key name ys)
has_key-append name [] ys = refl
has_key-append name (x ∷ xs) ys = ground (arith, has_key-append name xs ys)

bool_eq-eq : (a b : Bool) → bool_eq a b ≡ true → a ≡ b
bool_eq-eq true b h = sym h
bool_eq-eq false b h = ground arith

policy_eq-eq : (p q : GlobalCheckpointConfig) → policy_eq p q ≡ true → p ≡ q
policy_eq-eq p q h =
    let a : p.enabled ≡ q.enabled = bool_eq-eq p.enabled q.enabled (ground (arith, h)) in
    let b : p.interval ≡ q.interval = ground (arith, h) in
    let c : p.keep_latest_k ≡ q.keep_latest_k = ground (arith, h) in
    λ i. record { enabled = a i; interval = b i; keep_latest_k = c i }

same_policy-eq : (p q : Option GlobalCheckpointConfig) → same_policy p q ≡ true → p ≡ q
same_policy-eq none none h = refl
same_policy-eq (some p) (some q) h = ap (λ r. some r) (policy_eq-eq p q h)
same_policy-eq none (some q) h = cc
same_policy-eq (some p) none h = cc

abbrev entry : ServiceInfo → String × Option GlobalCheckpointConfig
entry s = (s.name, s.config.checkpoint)

still_fresh :
    (l : List (String × Option GlobalCheckpointConfig)) (s : ServiceInfo)
    (services : List ServiceInfo)
    → name_in s.name services ≡ false
    → All (λ (t : ServiceInfo). has_key t.name l ≡ false) services
    → All (λ (t : ServiceInfo). has_key t.name (l ++ entry s ∷ []) ≡ false) services
still_fresh l s [] n h = tt
still_fresh l s (t ∷ services) n h = (
  ground (
    arith,
    has_key-append t.name l (entry s ∷ []),
    h.0,
    n,
    eq_iff s.name t.name,
    eq_iff t.name s.name,
  ),
  still_fresh l s services (ground (arith, n)) h.1,
)

policies_from-entries :
    (l : List (String × Option GlobalCheckpointConfig)) (services : List ServiceInfo)
    → distinct_names services ≡ true
    → All (λ (t : ServiceInfo). has_key t.name l ≡ false) services
    → policies_from l services ≡ l ++ map entry services
unfolding policies_from
policies_from-entries l [] d h = sym (append-nil l)
policies_from-entries l (s ∷ services) d h =
    let n : name_in s.name services ≡ false = ground (arith, d) in
    let e : distinct_names services ≡ true = ground (arith, d) in
    ap (λ k. policies_from k services) (put_fresh l s.name s.config.checkpoint h.0)
    ∙ policies_from-entries (l ++ entry s ∷ []) services e (still_fresh l s services n h.1)
    ∙ append_assoc l (entry s ∷ []) (map entry services)

nothing_taken :
    (services : List ServiceInfo) → All (λ (t : ServiceInfo). has_key t.name [] ≡ false) services
nothing_taken [] = tt
nothing_taken (s ∷ services) = (refl, nothing_taken services)

same_as_first :
    (c : Option GlobalCheckpointConfig) (services : List ServiceInfo)
    → all (λ f. same_policy f.1 c) (map entry services) ≡ true
    → All (λ (s : ServiceInfo). s.config.checkpoint ≡ c) services
same_as_first c [] h = tt
same_as_first c (s ∷ services) h = (
  same_policy-eq s.config.checkpoint c (ground (arith, h)),
  same_as_first c services (ground (arith, h)),
)

-- The first policy speaks for all, where the services have distinct names.
abbrev first_policy : List ServiceInfo → Option GlobalCheckpointConfig
first_policy [] = none
first_policy (s ∷ services) = s.config.checkpoint

one_policy-All :
    (services : List ServiceInfo)
    → distinct_names services ≡ true
    → one_policy (policies_from [] services) ≡ true
    → All (λ (s : ServiceInfo). s.config.checkpoint ≡ first_policy services) services
one_policy-All [] d h = tt
one_policy-All (s ∷ services) d h =
    let e : policies_from [] (s ∷ services) ≡ map entry (s ∷ services) =
      policies_from-entries [] (s ∷ services) d (nothing_taken (s ∷ services)) in
    let k : one_policy (map entry (s ∷ services)) ≡ true = ap one_policy (sym e) ∙ h in
    (refl, same_as_first s.config.checkpoint services k)

name_in-select :
    (p : ServiceInfo → Bool) (name : String) (services : List ServiceInfo)
    → name_in name services ≡ false
    → name_in name (select p services) ≡ false
name_in-select p name [] h = refl
name_in-select p name (s ∷ services) h = ground (arith, h, name_in-select p name services)

distinct_names-select :
    (p : ServiceInfo → Bool) (services : List ServiceInfo)
    → distinct_names services ≡ true
    → distinct_names (select p services) ≡ true
distinct_names-select p [] h = refl
distinct_names-select p (s ∷ services) h =
    ground (arith, h, distinct_names-select p services, name_in-select p s.name services)

first_policy-eq :
    (services : List ServiceInfo)
    → first_policy (checkpointing_services services) ≡ checkpoint_config services
unfolding checkpoint_config
first_policy-eq services = elim (checkpointing_services services) [ [] ↦ refl | s ∷ rest ↦ refl ]

empty-All {κ} :
    (P : ServiceInfo → Type κ) (services : List ServiceInfo)
    → is_empty services ≡ true
    → All P services
empty-All P [] h = tt
empty-All P (s ∷ services) h = cc

-- Where replicas have distinct names and `_validate_checkpoint` accepts them, every service that is
-- enabled to checkpoint has the policy that `Topology.checkpoint_config` gives the run.
pub validate_checkpoint-one_policy :
    (services : List ServiceInfo)
    → distinct_names services ≡ true
    → validate_checkpoint services ≡ ok tt
    → All
        (λ (s : ServiceInfo). s.config.checkpoint ≡ checkpoint_config services)
        (checkpointing_services services)
unfolding validate_checkpoint
validate_checkpoint-one_policy services d h =
    let enabled = checkpointing_services services in
    elim (Bool-cases (is_empty enabled)) [
      | inl e ↦ empty-All _ enabled e
      | inr e ↦
          let k : one_policy (policies_from [] enabled) ≡ true = ground (arith, e, h) in
          subst (λ c. All (λ (s : ServiceInfo). s.config.checkpoint ≡ c) enabled)
            (first_policy-eq services)
            (one_policy-All enabled (distinct_names-select _ services d) k)
    ]
