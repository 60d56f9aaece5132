-- ===== src/Topology/Checks/Columns.antt =====
-- What `_validate_critic_columns` accepts.
use meshy.Prelude.{
  String, ◌≡◌, ◌≢◌, ◌↔◌, refl, sym, ap, ◌∙◌, true, false, ◌||◌, none, some, List, [], ◌∷◌, any,
  str_eq, eq_iff, if◌then◌else◌, ok, each, each-All, All-each, arith, All, All-map, All-of_each,
  Bool-cases, inl, inr, ◌⊎◌,
}
use meshy.Topology.Types.{ServiceInfo}
use meshy.Topology.Checks.{
  mode_of, fetched_by, gae_of, output_fields_by_mode, check_columns, check_critic, is_empty,
  services_by_role, validate_critic_columns,
}

-- The trainer fetches the one column that the critic publishes, and computes advantages from values
-- exactly where values are what is published.
abbrev pub Wired : ServiceInfo → ServiceInfo → Type 0
Wired critic trainer =
    ((mode_of critic ≡ "values")
      × (any (λ g. str_eq g "values") (fetched_by trainer) ≡ true)
      × (gae_of trainer ≡ true))
    ⊎ ((mode_of critic ≡ "advantage")
        × (any (λ g. str_eq g "advantage") (fetched_by trainer) ≡ true)
        × (gae_of trainer ≡ false))

values_not_advantage : ◌≢◌ {A = String} "values" "advantage"
values_not_advantage h = ground (arith, h, eq_iff "values" "advantage")

values_iff :
    (critic trainer : ServiceInfo)
    → mode_of critic ≡ "values"
    → (check_columns critic ("values" ∷ []) trainer ≡ ok tt) ↔ Wired critic trainer
unfolding check_columns
values_iff critic trainer e =
    let v : str_eq (mode_of critic) "values" ≡ true = (eq_iff (mode_of critic) "values").1 e in
    (
      λ h. inl (e, ground (arith, h, v), ground (arith, h, v)),
      λ w. elim w [
        | inl p ↦ ground (arith, p.1, p.2, v)
        | inr p ↦ absurd (values_not_advantage (sym e ∙ p.0))
      ],
    )

advantage_iff :
    (critic trainer : ServiceInfo)
    → mode_of critic ≡ "advantage"
    → (check_columns critic ("advantage" ∷ []) trainer ≡ ok tt) ↔ Wired critic trainer
unfolding check_columns
advantage_iff critic trainer e =
    let v : str_eq (mode_of critic) "values" ≡ false = ap (λ m. str_eq m "values") e in
    (
      λ h. inr (e, ground (arith, h, v), ground (arith, h, v)),
      λ w. elim w [
        | inr p ↦ ground (arith, p.1, p.2, v)
        | inl p ↦ absurd (values_not_advantage (sym p.0 ∙ e))
      ],
    )

-- The mode of a critic is one of the two, or there are no columns for it.
mode_cases :
    (mode : String)
    → ((mode ≡ "values") × (output_fields_by_mode mode ≡ some ("values" ∷ [])))
      ⊎ (((mode ≡ "advantage") × (output_fields_by_mode mode ≡ some ("advantage" ∷ [])))
          ⊎ ((output_fields_by_mode mode ≡ none) × (mode ≢ "values") × (mode ≢ "advantage")))
unfolding output_fields_by_mode
mode_cases mode = elim (Bool-cases (str_eq mode "values")) [
  | inl e ↦ inl ((eq_iff mode "values").0 e, rw e refl)
  | inr e ↦ elim (Bool-cases (str_eq mode "advantage")) [
    | inl f ↦ inr (inl ((eq_iff mode "advantage").0 f, rw (e, f) refl))
    | inr f ↦ inr (
        inr (
          rw (e, f) refl,
          λ g. ground (arith, e, (eq_iff mode "values").1 g),
          λ g. ground (arith, f, (eq_iff mode "advantage").1 g),
        ))
  ]
]

check_critic-Wired :
    (trainers : List ServiceInfo) (critic : ServiceInfo)
    → check_critic trainers critic ≡ ok tt
    → All (Wired critic) trainers
unfolding check_critic
check_critic-Wired trainers critic h = elim (mode_cases (mode_of critic)) [
  | inl (e, f) ↦
      All-map _ (Wired critic) trainers (λ t. (values_iff critic t e).0)
        (each-All (check_columns critic ("values" ∷ [])) trainers (rw (f, check_critic) at h))
  | inr (inl (e, f)) ↦
      All-map _ (Wired critic) trainers (λ t. (advantage_iff critic t e).0)
        (each-All (check_columns critic ("advantage" ∷ [])) trainers (rw (f, check_critic) at h))
  | inr (inr (f, g, k)) ↦ absurd (ground (arith, f, h))
]

Wired-check_critic :
    (t : ServiceInfo) (trainers : List ServiceInfo) (critic : ServiceInfo)
    → All (Wired critic) (t ∷ trainers)
    → check_critic (t ∷ trainers) critic ≡ ok tt
unfolding check_critic
Wired-check_critic t trainers critic w = elim (mode_cases (mode_of critic)) [
  | inl (e, f) ↦
      rw (f, check_critic)
        (All-each (check_columns critic ("values" ∷ [])) (t ∷ trainers)
          (All-map (Wired critic) _ (t ∷ trainers) (λ x. (values_iff critic x e).1) w))
  | inr (inl (e, f)) ↦
      rw (f, check_critic)
        (All-each (check_columns critic ("advantage" ∷ [])) (t ∷ trainers)
          (All-map (Wired critic) _ (t ∷ trainers) (λ x. (advantage_iff critic x e).1) w))
  | inr (inr (f, g, k)) ↦ absurd (elim w.0 [ inl p ↦ g p.0 | inr p ↦ k p.0 ])
]

columns_iff :
    (critics trainers : List ServiceInfo)
    → ((if is_empty critics || is_empty trainers
          then ok tt
          else each (check_critic trainers) critics)
        ≡ ok tt)
      ↔ All (λ c. All (Wired c) trainers) critics
columns_iff [] trainers = (λ h. tt, λ w. refl)
columns_iff (c ∷ cs) [] = (λ h. All-of_each (λ x. All (Wired x) []) (λ x. tt) (c ∷ cs), λ w. refl)
columns_iff (c ∷ cs) (t ∷ ts) = (
  λ h.
      All-map _ (λ x. All (Wired x) (t ∷ ts)) (c ∷ cs) (λ x. check_critic-Wired (t ∷ ts) x)
        (each-All (check_critic (t ∷ ts)) (c ∷ cs) h),
  λ w.
      All-each (check_critic (t ∷ ts)) (c ∷ cs)
        (All-map (λ x. All (Wired x) (t ∷ ts)) _ (c ∷ cs) (λ x. Wired-check_critic t ts x) w),
)

-- `_validate_critic_columns` accepts exactly the services in which each critic and each trainer are
-- wired: either the critic publishes values, and the trainer fetches the column `values` and has
-- `enable_gae`, or it publishes advantages, and the trainer fetches the column `advantage` and has not.
pub validate_critic_columns_iff :
    (services : List ServiceInfo)
    → (validate_critic_columns services ≡ ok tt)
      ↔ All
          (λ critic. All (Wired critic) (services_by_role "training" services))
          (services_by_role "critic" services)
unfolding validate_critic_columns
validate_critic_columns_iff services =
    columns_iff (services_by_role "critic" services) (services_by_role "training" services)
