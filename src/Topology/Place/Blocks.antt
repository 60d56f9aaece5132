-- ===== src/Topology/Place/Blocks.antt =====
-- The groups that claim cards of their own claim them in order, without a gap and none twice, and get
-- as many as they claim.
use mathlib.Core.List.{append_assoc, append-nil}
use meshy.Prelude.{
  ℕ, zero, suc, is_some, ◌+◌, ◌-◌, ◌*◌, ◌≤◌, ◌≡◌, refl, sym, ap, subst, ◌∙◌, String, Bool, true,
  false, not, ◌&&◌, ◌||◌, Option, none, some, List, [], ◌∷◌, ◌++◌, map, length, range, range_from,
  take, drop, str_eq, if◌then◌else◌, ok, raise_if, >>=-eq-ok, arith, inl, inr, Bool-cases,
  Option-cases, sum,
}
use meshy.Prelude.Dicts.{get}
use meshy.Topology.Types.{Gpu, ServiceGroup, ServiceInfo, no_role, n_gpus, claim_of}
use meshy.Topology.Place.{
  Placing, claim_block, cpu_info, gpu_replica, gpu_replicas, place_on, place_group, place_groups,
  is_in,
}

-- A replica on cards that its own group claimed.
abbrev pub claims : ServiceInfo → Bool
claims s = s.uses_gpu && not (is_some s.colocate_with)

-- The cards of those replicas, in the order of the services.
abbrev pub claimed_cards : List ServiceInfo → List Gpu
claimed_cards [] = []
claimed_cards (s ∷ ss) =
    let rest = claimed_cards ss in if claims s then s.replica_gpus ++ rest else rest

pub claimed_cards-append :
    (xs ys : List ServiceInfo) → claimed_cards (xs ++ ys) ≡ claimed_cards xs ++ claimed_cards ys
claimed_cards-append [] ys = refl
claimed_cards-append (x ∷ xs) ys = elim (Bool-cases (claims x)) [
  | inl e ↦ rw e (
      ap (◌++◌ x.replica_gpus) (claimed_cards-append xs ys)
      ∙ sym (append_assoc x.replica_gpus (claimed_cards xs) (claimed_cards ys)))
  | inr e ↦ rw e (claimed_cards-append xs ys)
]

module _ {ℓ} {A : Type ℓ} where
  take-nil : (n : ℕ) → take n (let e : List A = [] in e) ≡ []
  take-nil zero = refl
  take-nil (suc n) = refl

  take-add : (m n : ℕ) (xs : List A) → take (m + n) xs ≡ take m xs ++ take n (drop m xs)
  take-add zero n xs = ap (λ k. take k xs) (omega arith)
  take-add (suc m) n [] = take-nil (suc m + n) ∙ sym (take-nil n)
  take-add (suc m) n (x ∷ xs) =
      let e : suc m + n ≡ suc (m + n) = omega arith in rw e (ap (λ l. x ∷ l) (take-add m n xs))

  append-take-drop : (n : ℕ) (xs : List A) → take n xs ++ drop n xs ≡ xs
  append-take-drop zero xs = refl
  append-take-drop (suc n) [] = refl
  append-take-drop (suc n) (x ∷ xs) = ap (λ l. x ∷ l) (append-take-drop n xs)

  length-drop : (n : ℕ) (xs : List A) → length (drop n xs) ≡ length xs - n
  length-drop zero xs = omega arith
  length-drop (suc n) [] = omega arith
  length-drop (suc n) (x ∷ xs) = omega (arith, length-drop n xs)

  length-take_le : (n : ℕ) (xs : List A) → length (take n xs) ≡ n → n ≤ length xs
  length-take_le zero xs h = omega arith
  length-take_le (suc n) [] h = absurd (omega (arith, h))
  length-take_le (suc n) (x ∷ xs) h = omega (arith, length-take_le n xs (omega (arith, h)))

  pub length-take : (n : ℕ) (xs : List A) → n ≤ length xs → length (take n xs) ≡ n
  length-take zero xs h = refl
  length-take (suc n) [] h = absurd (omega (arith, h))
  length-take (suc n) (x ∷ xs) h = omega (arith, length-take n xs (omega (arith, h)))

  empty-of_length : (xs : List A) → length xs ≡ 0 → xs ≡ []
  empty-of_length [] h = refl
  empty-of_length (x ∷ xs) h = absurd (omega (arith, h))

module _ (replica_name : String → ℕ → String) where
  -- A replica of a group has the cards that it was given, and says whether the group claims its own.
  gpu_replica-cards :
      (sg : ServiceGroup) (b : Bool) (r : ℕ) (cards : List Gpu) (info : ServiceInfo)
      → gpu_replica replica_name sg b r cards ≡ ok info
      → (info.replica_gpus ≡ cards) × (claims info ≡ not (is_some sg.colocate_with))
  unfolding gpu_replica
  gpu_replica-cards sg b r [] info h = cc
  gpu_replica-cards sg b r (master ∷ cards) info h =
      elim (Option-cases sg.config.endpoint_port_base) [
        | inl e ↦ absurd (ground (arith, e, h))
        | inr (base, e) ↦ elim (Option-cases sg.config.dist_port_base) [
          | inl f ↦ absurd (ground (arith, e, f, h))
          | inr (dist, f) ↦ (ground (arith, e, f, h), ground (arith, e, f, h))
        ]
      ]

  -- The replicas of a group that claims its cards share them out; those of another claim none.
  gpu_replicas-cards :
      (sg : ServiceGroup) (b : Bool) (r more : ℕ) (block : List Gpu) (infos : List ServiceInfo)
      → gpu_replicas replica_name sg b r more block ≡ ok infos
      → length block ≡ more * sg.n_gpus_per_replica
      → claimed_cards infos ≡ (if is_some sg.colocate_with then [] else block)
  unfolding gpu_replicas
  gpu_replicas-cards sg b r zero block infos h l =
      let e : infos ≡ [] = ground arith in
      let f : block ≡ [] = empty-of_length block (omega (arith, l)) in
      rw (e, f)
        (elim (Bool-cases (is_some sg.colocate_with)) [ inl c ↦ rw c refl | inr c ↦ rw c refl ])
  gpu_replicas-cards sg b r (suc more) block infos h l =
      let n = sg.n_gpus_per_replica in
      let p = >>=-eq-ok (gpu_replica replica_name sg b r (take n block)) _ h in
      let q = >>=-eq-ok (gpu_replicas replica_name sg b (suc r) more (drop n block)) _ p.2 in
      let c = gpu_replica-cards sg b r (take n block) p.0 p.1 in
      let ih =
        gpu_replicas-cards sg b (suc r) more (drop n block) q.0 q.1
          (length-drop n block ∙ grind (arith, l)) in
      let e : infos ≡ p.0 ∷ q.0 = ground (arith, q.2) in
      rw e (elim (Bool-cases (is_some sg.colocate_with)) [
        | inl s ↦ rw (c.1, s) (rw s at ih)
        | inr s ↦
            rw (c.1, s, c.0) (ap (◌++◌ (take n block)) (rw s at ih) ∙ append-take-drop n block)
      ])

-- What a group's claim does to the cursor, and to the cards of the group itself.
record Claims (gpus : List Gpu) (p : Placing) (sg : ServiceGroup) (block : List Gpu) (q : Placing)
    : Type 0 where
  size : length block ≡ sg.n_replicas * sg.n_gpus_per_replica
  services : q.services ≡ p.services
  cursor :
      q.cursor
      ≡ p.cursor + (if is_some sg.colocate_with then 0 else sg.n_replicas * sg.n_gpus_per_replica)
  own :
      (if is_some sg.colocate_with then [] else block)
      ≡ take
          (if is_some sg.colocate_with then 0 else sg.n_replicas * sg.n_gpus_per_replica)
          (drop p.cursor gpus)
  room : p.cursor ≤ length gpus → q.cursor ≤ length gpus

claim_block-Claims :
    (gpus : List Gpu) (p : Placing) (sg : ServiceGroup) (block : List Gpu) (q : Placing)
    → claim_block gpus p sg ≡ ok (block, q)
    → Claims gpus p sg block q
unfolding claim_block
claim_block-Claims gpus p sg block q h = elim (Option-cases sg.colocate_with) [
  | inr (other, e) ↦ elim (Option-cases (get p.card_ranges other)) [
    | inl f ↦ absurd (ground (arith, e, f, h))
    | inr (b, f) ↦ record {
      size = ground (arith, e, f, h);
      services = ground (arith, e, f, h);
      cursor = ground (arith, e, f, h);
      own = rw e refl;
      room =
          λ r. let same : p.cursor ≡ q.cursor = ground (arith, e, f, h) in omega (arith, r, same);
    }
  ]
  | inl e ↦ record {
    size = ground (arith, e, h);
    services = ground (arith, e, h);
    cursor = ground (arith, e, h);
    own = rw e (ground (arith, e, h));
    room = λ r.
        let total = sg.n_replicas * sg.n_gpus_per_replica in
        let whole : length (take total (drop p.cursor gpus)) ≡ total = ground (arith, e, h) in
        let moved : p.cursor + total ≡ q.cursor = ground (arith, e, h) in
        omega (
          arith,
          r,
          moved,
          length-take_le total (drop p.cursor gpus) whole,
          length-drop p.cursor gpus,
        );
  }
]

claim-eq : (o : Option String) (t : ℕ) → (if is_some o then 0 else t) ≡ claim_of true o t
claim-eq none t = refl
claim-eq (some other) t = refl

-- The cards that were claimed are those before the cursor, and there are that many.
pub record IsPlaced (gpus : List Gpu) (p : Placing) : Type 0 where
  pub cards : claimed_cards p.services ≡ take p.cursor gpus
  pub room : p.cursor ≤ length gpus

claimed_cards-cpu :
    (replica_name : String → ℕ → String) (sg : ServiceGroup) (i n : ℕ)
    → claimed_cards (map (cpu_info replica_name sg) (range_from i n)) ≡ []
unfolding cpu_info
claimed_cards-cpu replica_name sg i zero = refl
claimed_cards-cpu replica_name sg i (suc n) = claimed_cards-cpu replica_name sg (suc i) n

module _ (replica_name : String → ℕ → String) (gpus : List Gpu) (targets : List String) where
  place_on-IsPlaced :
      (u : Bool) (p : Placing) (sg : ServiceGroup) (q : Placing)
      → IsPlaced gpus p
      → place_on replica_name u gpus targets p sg ≡ ok q
      → IsPlaced gpus q
        × (q.cursor
            ≡ p.cursor + claim_of u sg.colocate_with (sg.n_replicas * sg.n_gpus_per_replica))
  unfolding place_on
  place_on-IsPlaced false p sg q i h =
      let new = map (cpu_info replica_name sg) (range sg.n_replicas) in
      let e : record p { services = p.services ++ new } ≡ q = ground (arith, h) in
      subst (λ x. IsPlaced gpus x × (x.cursor ≡ p.cursor + 0)) e
        (
          record {
            cards =
                claimed_cards-append p.services new
                ∙ ap (◌++◌ (claimed_cards p.services))
                    (claimed_cards-cpu replica_name sg 0 sg.n_replicas)
                ∙ append-nil (claimed_cards p.services)
                ∙ i.cards;
            room = i.room;
          },
          omega arith,
        )
  place_on-IsPlaced true p sg q i h =
      let b = is_some sg.colocate_with || is_in sg.id targets in
      let a = >>=-eq-ok (claim_block gpus p sg) _ h in
      let d = >>=-eq-ok (gpu_replicas replica_name sg b 0 sg.n_replicas a.0.0) _ a.2 in
      let c = claim_block-Claims gpus p sg a.0.0 a.0.1 a.1 in
      let new = gpu_replicas-cards replica_name sg b 0 sg.n_replicas a.0.0 d.0 d.1 c.size in
      let e : record a.0.1 { services = a.0.1.services ++ d.0 } ≡ q = ground (arith, d.2) in
      let t = if is_some sg.colocate_with then 0 else sg.n_replicas * sg.n_gpus_per_replica in
      subst
        (λ x.
          IsPlaced gpus x
          × (x.cursor
              ≡ p.cursor + claim_of true sg.colocate_with (sg.n_replicas * sg.n_gpus_per_replica)))
        e
        (
          record {
            cards =
                claimed_cards-append a.0.1.services d.0
                ∙ ap (λ l. claimed_cards l ++ claimed_cards d.0) c.services
                ∙ ap (λ l. l ++ claimed_cards d.0) i.cards
                ∙ ap (◌++◌ (take p.cursor gpus)) (new ∙ c.own)
                ∙ sym (take-add p.cursor t gpus)
                ∙ ap (λ k. take k gpus) (sym c.cursor);
            room = c.room i.room;
          },
          c.cursor ∙ ap (λ k. p.cursor + k) (claim-eq sg.colocate_with _),
        )

  place_group-IsPlaced :
      (p : Placing) (sg : ServiceGroup) (q : Placing)
      → IsPlaced gpus p
      → place_group replica_name gpus targets p sg ≡ ok q
      → IsPlaced gpus q × (q.cursor ≡ p.cursor + n_gpus sg)
  unfolding place_group n_gpus
  place_group-IsPlaced p sg q i h =
      let a =
        >>=-eq-ok (raise_if (str_eq sg.config.role "" || str_eq sg.config.role "?") no_role) _ h in
      place_on-IsPlaced sg.config.uses_gpu p sg q i a.2

  pub place_groups-IsPlaced :
      (p : Placing) (sgs : List ServiceGroup) (q : Placing)
      → IsPlaced gpus p
      → place_groups replica_name gpus targets p sgs ≡ ok q
      → IsPlaced gpus q × (q.cursor ≡ p.cursor + sum (map n_gpus sgs))
  unfolding place_groups
  place_groups-IsPlaced p [] q i h =
      let e : p ≡ q = ground (arith, h) in
      subst (λ x. IsPlaced gpus x × (x.cursor ≡ p.cursor + 0)) e (i, omega arith)
  place_groups-IsPlaced p (sg ∷ sgs) q i h =
      let a = >>=-eq-ok (place_group replica_name gpus targets p sg) _ h in
      let b = place_group-IsPlaced p sg a.0 i a.1 in
      let c = place_groups-IsPlaced a.0 sgs q b.0 a.2 in (c.0, omega (arith, b.1, c.1))
