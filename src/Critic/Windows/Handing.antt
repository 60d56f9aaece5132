-- ===== src/Critic/Windows/Handing.antt =====
-- Each batch of the critic is either the critic's to clear or the trainer's to consume.
use meshy.Prelude.{
  ℕ, String, ◌+◌, ◌≡◌, refl, sym, ap, subst, ◌∙◌, Bool, true, false, not, ◌&&◌, Option, none, some,
  List, [], ◌∷◌, ◌++◌, map, any, select, length, ◌==◌, str_eq, eq_iff, arith, ◌⊎◌, inl, inr,
  Bool-cases, ok,
}
use meshy.Topology.Types.{ℤ, pos, negsuc, covers, ServiceInfo}
use meshy.Topology.Place.{is_in}
use meshy.Topology.Checks.{enabled_in, checkpointing_services}
use meshy.Topology.Lookups.{takes_part, cold_start_windows, checkpoint_participants}
use meshy.Critic.Windows.{
  CriticWorker, Output, gate, column, before_end, up_to_end, in_cold_start, clears_batch, conclude,
  critic_process,
}

-- A batch is of the cold start before it is counted exactly where it is cleared after.
up_to_end-suc : (cold : ℤ) (windows : ℕ) → up_to_end cold (windows + 1) ≡ before_end cold windows
up_to_end-suc (pos n) windows = ground arith
up_to_end-suc (negsuc n) windows = refl

-- The critic and the checkpoint have one end of the cold start.
covers-eq : (cold : ℤ) (windows : ℕ) → covers cold windows ≡ up_to_end cold windows
covers-eq (pos n) windows = refl
covers-eq (negsuc n) windows = refl

-- What is written and who clears.
pub record IsHanded {V : Type 0} (w : CriticWorker) (version n_samples : ℕ) (out : Output V)
    (u : CriticWorker) : Type 0 where
  pub counted : u.windows ≡ w.windows + 1
  pub same : u.cold_start_windows ≡ w.cold_start_windows
  pub handed :
      ((clears_batch u ≡ true)
        × (u.gates_raised ≡ w.gates_raised + 1)
        × (out ≡ gate (record { gate_step = w.gates_raised + 1; weight_version = version })))
      ⊎ ((clears_batch u ≡ false)
          × (u.gates_raised ≡ w.gates_raised)
          × ((scored : List V) × (out ≡ column w.output_field scored)
              × (length scored ≡ n_samples)))

module _ {V : Type 0} (w : CriticWorker) (version n_samples : ℕ) where
  conclude-IsHanded :
      (cold : Bool) (answer : Option (Option (List V))) (out : Output V) (u : CriticWorker)
      → in_cold_start w ≡ cold
      → conclude (record w { windows = w.windows + 1 }) cold version n_samples answer ≡ (ok out, u)
      → IsHanded w version n_samples out u
  unfolding conclude clears_batch in_cold_start
  conclude-IsHanded cold none out u c h = cc
  conclude-IsHanded cold (some none) out u c h = cc
  conclude-IsHanded true (some (some scored)) out u c h =
      let new : CriticWorker = record w {
        windows = w.windows + 1;
        gates_raised = w.gates_raised + 1;
      } in
      let same : new ≡ u = ap (λ r. r.1) h in
      let o : gate (record { gate_step = w.gates_raised + 1; weight_version = version }) ≡ out =
        ground (arith, ap (λ r. r.0) h) in
      subst (IsHanded w version n_samples out) same (record {
        counted = refl;
        same = refl;
        handed = inl (up_to_end-suc w.cold_start_windows w.windows ∙ c, refl, sym o);
      })
  conclude-IsHanded false (some (some scored)) out u c h =
      elim (Bool-cases (length scored == n_samples)) [
        | inl e ↦
            let k = rw (e, conclude) at h in
            let new : CriticWorker = record w { windows = w.windows + 1 } in
            let same : new ≡ u = ap (λ r. r.1) k in
            let o : column w.output_field scored ≡ out = ground (arith, ap (λ r. r.0) k) in
            subst (IsHanded w version n_samples out) same (record {
              counted = refl;
              same = refl;
              handed = inr (
                up_to_end-suc w.cold_start_windows w.windows ∙ c,
                refl,
                (scored, sym o, ground (arith, e)),
              );
            })
        | inr e ↦ absurd (ground (arith, ap (λ r. r.0) (rw (e, conclude) at h)))
      ]

  pub critic_process-IsHanded :
      (answer : Option (Option (List V))) (out : Output V) (u : CriticWorker)
      → critic_process w version n_samples answer ≡ (ok out, u)
      → IsHanded w version n_samples out u
  unfolding critic_process
  critic_process-IsHanded answer out u h = conclude-IsHanded (in_cold_start w) answer out u refl h

-- No service with another role has the name.
abbrev pub other_role : String → List ServiceInfo → Bool
other_role name services =
    any (λ (s : ServiceInfo). str_eq s.name name && not (str_eq s.role "training")) services

module _ (cold : ℤ) (step : ℕ) where
  abbrev participants : List ServiceInfo → List String
  participants services =
      map (λ (s : ServiceInfo). s.name)
        (select (takes_part cold step)
          (select (λ (s : ServiceInfo). enabled_in s.config.checkpoint) services))

  -- In the cold start no trainer takes part.
  no_trainer :
      (name : String) (services : List ServiceInfo)
      → covers cold step ≡ true
      → other_role name services ≡ false
      → is_in name (participants services) ≡ false
  no_trainer name [] c o = refl
  no_trainer name (s ∷ services) c o = elim (Bool-cases (enabled_in s.config.checkpoint)) [
    | inr e ↦ rw e (no_trainer name services c (ground (arith, o)))
    | inl e ↦ elim (Bool-cases (takes_part cold step s)) [
      | inr p ↦ rw (e, p) (no_trainer name services c (ground (arith, o)))
      | inl p ↦
          let other : str_eq s.role "training" ≡ false = ground (arith, c, p) in
          let apart : str_eq s.name name ≡ false = ground (arith, other, o) in
          rw (e, p, apart) (no_trainer name services c (ground (arith, o)))
    ]
  ]

  -- After it a trainer that is checkpointed does.
  one_trainer :
      (trainer : ServiceInfo) (before after : List ServiceInfo)
      → covers cold step ≡ false
      → enabled_in trainer.config.checkpoint ≡ true
      → is_in trainer.name (participants (before ++ trainer ∷ after)) ≡ true
  one_trainer trainer [] after c e =
      let p : takes_part cold step trainer ≡ true = ground (arith, c) in
      let self : str_eq trainer.name trainer.name ≡ true = (eq_iff _ _).1 refl in
      rw (e, p, self) refl
  one_trainer trainer (s ∷ before) after c e = elim (Bool-cases (enabled_in s.config.checkpoint)) [
    | inr f ↦ rw f (one_trainer trainer before after c e)
    | inl f ↦ elim (Bool-cases (takes_part cold step s)) [
      | inr p ↦ rw (f, p) (one_trainer trainer before after c e)
      | inl p ↦ rw (f, p) (ground (arith, one_trainer trainer before after c e))
    ]
  ]

-- In a run whose services include a trainer that is checkpointed, whose name no service of another role
-- has, and whose cold start is that of the critic: where the critic has processed a batch, it is
-- counted; and the critic clears it exactly where `checkpoint_participants` does not ask the trainer
-- for a shard at that step. Where it clears, it has raised the next gate and published no scores;
-- where it does not, it has published a score for each row and raised no gate.
pub critic_process_lem :
    {V : Type 0} (w : CriticWorker) (version n_samples : ℕ) (answer : Option (Option (List V)))
    (out : Output V) (u : CriticWorker) (trainer : ServiceInfo) (before after : List ServiceInfo)
    → critic_process w version n_samples answer ≡ (ok out, u)
    → enabled_in trainer.config.checkpoint ≡ true
    → other_role trainer.name (before ++ trainer ∷ after) ≡ false
    → cold_start_windows (before ++ trainer ∷ after) ≡ w.cold_start_windows
    → IsHanded w version n_samples out u
      × (clears_batch u
          ≡ not
              (is_in trainer.name (checkpoint_participants (before ++ trainer ∷ after) u.windows)))
unfolding clears_batch checkpoint_participants checkpointing_services
critic_process_lem w version n_samples answer out u trainer before after h e o same =
    let i = critic_process-IsHanded w version n_samples answer out u h in
    let services = before ++ trainer ∷ after in
    let one : up_to_end u.cold_start_windows u.windows
        ≡ covers (cold_start_windows services) u.windows =
      sym (covers-eq u.cold_start_windows u.windows)
      ∙ ap (λ c. covers c u.windows) (i.same ∙ sym same) in
    (
      i,
      one ∙ elim (Bool-cases (covers (cold_start_windows services) u.windows)) [
        | inl c ↦
            c
            ∙ sym (
                ap not
                  (no_trainer (cold_start_windows services) u.windows trainer.name services c o))
        | inr c ↦
            c
            ∙ sym (
                ap not
                  (one_trainer (cold_start_windows services) u.windows trainer before after c e))
      ],
    )
