-- ===== src/Colocation/Transfer/Settling.antt =====
-- Two calls of `_select_next` are enough: the request that the first one makes is a candidate of the
-- second.
use meshy.Prelude.{
  ℕ, suc, ◌≡◌, ◌≢◌, refl, sym, subst, ◌∙◌, String, Bool, true, false, not, ◌&&◌, Option, none, some,
  List, [], ◌∷◌, map, any, inl, inr, str_eq, eq_iff, if◌then◌else◌, Result, ok, err, ◌>>=◌,
  >>=-eq-ok, arith, All, Bool-cases,
}
use meshy.Colocation.Ring.{
  RingNode, ColocationRing, GpuGrant, ColocationError, endless_recursion, unknown_service,
  ring_index_for, index_in,
}
use meshy.Prelude.Dicts.{put}
use meshy.Colocation.Manager.{RequestRecord, Manager, is_open, owns_gpu, open_row, next_sequence}
use meshy.Colocation.Rows.{
  is_candidate, is_granted, requester, records_of, waits_in_fallback, candidates, register,
  fallback_for, opened,
}
use meshy.Colocation.Transfer.{ensure_fallback_request, select_from, select_next}
use meshy.Colocation.Transfer.InOrder.{InRecords}
use meshy.Colocation.Transfer.Choice.{select_next-in_turn}

-- An open record has no grant, and is of the manager's group.
abbrev pub is_tidy : ColocationRing → RequestRecord → Bool
is_tidy config r =
    if is_open r.state
    then not (is_granted r.grant) && str_eq r.handle.request.group_id config.group_id
    else true

InRecords-put :
    (l : List (String × RequestRecord)) (s : String) (r : RequestRecord)
    → InRecords r (map (λ e. e.1) (put l s r))
unfolding put
InRecords-put [] s r = inl refl
InRecords-put ((t, q) ∷ l) s r = elim (Bool-cases (str_eq t s)) [
  | inl e ↦ rw e (inl refl)
  | inr e ↦ rw e (inr (InRecords-put l s r))
]

waiting_record :
    (config : ColocationRing) (s : String) (rs : List RequestRecord)
    → any (waits_in_fallback s) rs ≡ true
    → All (λ r. is_tidy config r ≡ true) rs
    → (r : RequestRecord) × InRecords r rs
      × ((is_open r.state
            && not (is_granted r.grant)
            && str_eq r.handle.request.group_id config.group_id
            && str_eq (requester r) s)
          ≡ true)
waiting_record config s [] h a = cc
waiting_record config s (r ∷ rs) h a = elim (Bool-cases (waits_in_fallback s r)) [
  | inl e ↦ (r, inl refl, ground (arith, a.0))
  | inr e ↦ let k = waiting_record config s rs (ground arith) a.1 in (k.0, inr k.1, k.2)
]

index_step_errors :
    (b : Bool) (o : Result ColocationError ℕ) (e : ColocationError)
    → ((f : ColocationError) → o ≡ err f → f ≡ unknown_service)
    → (if b then ok 0 else (o >>= λ i. ok (suc i))) ≡ err e
    → e ≡ unknown_service
index_step_errors true o e h k = cc
index_step_errors false (ok i) e h k = cc
index_step_errors false (err f) e h k = sym (ground (arith, k)) ∙ h f refl

index_in_errors :
    (nodes : List RingNode) (s : String) (e : ColocationError)
    → index_in nodes s ≡ err e
    → e ≡ unknown_service
unfolding index_in
index_in_errors [] s e h = ground arith
index_in_errors (n ∷ nodes) s e h =
    index_step_errors (str_eq n.service_id s) (index_in nodes s) e (λ f. index_in_errors nodes s f)
      h

bind_errors :
    (o : Result ColocationError ℕ) (f : ℕ → Manager) (e : ColocationError)
    → ((x : ColocationError) → o ≡ err x → x ≡ unknown_service)
    → (o >>= λ i. ok (f i)) ≡ err e
    → e ≡ unknown_service
bind_errors (ok i) f e h k = absurd (ground arith)
bind_errors (err x) f e h k = sym (ground (arith, k)) ∙ h x refl

module _ (config : ColocationRing) (fallback_id : String → ℕ → String) (now : ℕ) where
  second_call :
      (n : Manager) (owner : ℕ) (r : RequestRecord)
      → owns_gpu n ≡ true
      → ring_index_for config n.service_id ≡ ok owner
      → InRecords r (records_of n)
      → is_candidate config n r ≡ true
      → select_next config fallback_id now 1 n ≢ err endless_recursion
  second_call n owner r h i j k e =
      let s = select_next-in_turn config fallback_id now 0 n owner r h i j k in
      let f = sym s.1 ∙ e in absurd (ground (arith, f))

  candidate_of_source :
      (m : Manager) (s : String) (r : RequestRecord)
      → str_eq s m.service_id ≡ false
      → (is_open r.state
          && not (is_granted r.grant)
          && str_eq r.handle.request.group_id config.group_id
          && str_eq (requester r) s)
        ≡ true
      → is_candidate config m r ≡ true
  candidate_of_source m s r d h =
      ground
        (arith, eq_iff (requester r) s, eq_iff s m.service_id, eq_iff (requester r) m.service_id)

  ensured_settles :
      (m n : Manager) (owner : ℕ) (s : String)
      → owns_gpu m ≡ true
      → ring_index_for config m.service_id ≡ ok owner
      → str_eq s m.service_id ≡ false
      → All (λ r. is_tidy config r ≡ true) (records_of m)
      → ensure_fallback_request config fallback_id now m s ≡ ok n
      → select_next config fallback_id now 1 n ≢ err endless_recursion
  unfolding ensure_fallback_request
  ensured_settles m n owner s h i d a e =
      elim (Bool-cases (any (waits_in_fallback s) (records_of m))) [
        | inl f ↦
            let w = waiting_record config s (records_of m) f a in
            let same : m ≡ n = ground arith in
            subst (λ x. select_next config fallback_id now 1 x ≢ err endless_recursion) same
              (second_call m owner w.0 h i w.1 (candidate_of_source m s w.0 d w.2))
        | inr f ↦
            let b = >>=-eq-ok (ring_index_for config s) _ (rw f at e) in
            let q = fallback_for config s (fallback_id s (next_sequence m.last_sequence)) now b.0 in
            let same : register m q ≡ n = ground (arith, b.2) in
            subst (λ x. select_next config fallback_id now 1 x ≢ err endless_recursion) same
              (second_call (register m q) owner
                (record { object_id = 0; handle = opened q; state = open_row; grant = none })
                (unfold register in h) (unfold register in i)
                (unfold register in InRecords-put m.records q.request_id _)
                (unfold register fallback_for in
                  ground (arith, d, eq_iff config.group_id config.group_id)))
      ]

  ensure_errors :
      (m : Manager) (s : String) (e : ColocationError)
      → ensure_fallback_request config fallback_id now m s ≡ err e
      → e ≡ unknown_service
  unfolding ensure_fallback_request ring_index_for
  ensure_errors m s e h = elim (Bool-cases (any (waits_in_fallback s) (records_of m))) [
    | inl f ↦ absurd (ground arith)
    | inr f ↦
        bind_errors (index_in config.ring s)
          (λ i.
            register m
              (fallback_for config s (fallback_id s (next_sequence m.last_sequence)) now i))
          e (λ x. index_in_errors config.ring s x) (rw f at h)
  ]

  returned_settles :
      (m : Manager) (owner : ℕ) (s : String) (o : Result ColocationError Manager)
      → owns_gpu m ≡ true
      → ring_index_for config m.service_id ≡ ok owner
      → str_eq s m.service_id ≡ false
      → All (λ r. is_tidy config r ≡ true) (records_of m)
      → ensure_fallback_request config fallback_id now m s ≡ o
      → (o >>= λ n. select_next config fallback_id now 1 n) ≢ err endless_recursion
  returned_settles m owner s (ok n) h i d a e k = ensured_settles m n owner s h i d a e k
  returned_settles m owner s (err f) h i d a e k = absurd (ground (arith, ensure_errors m s f e, k))

  from_candidates_settle :
      (m : Manager) (owner : ℕ) (rs : List RequestRecord) (newest : Option GpuGrant)
      → owns_gpu m ≡ true
      → ring_index_for config m.service_id ≡ ok owner
      → All (λ r. is_tidy config r ≡ true) (records_of m)
      → select_from config fallback_id now (λ n. select_next config fallback_id now 1 n) m rs newest
        ≢ err endless_recursion
  unfolding select_from ensure_fallback_request
  from_candidates_settle m owner (r ∷ rs) newest h i a e = cc
  from_candidates_settle m owner [] none h i a e = cc
  from_candidates_settle m owner [] (some g) h i a e =
      elim (Bool-cases (str_eq g.source m.service_id)) [
        | inl f ↦ absurd (ground arith)
        | inr d ↦
            returned_settles m owner g.source
              (ensure_fallback_request config fallback_id now m g.source) h i d a refl (rw d at e)
      ]

  indexed_settles :
      (m : Manager) (o : Result ColocationError ℕ)
      → owns_gpu m ≡ true
      → All (λ r. is_tidy config r ≡ true) (records_of m)
      → ring_index_for config m.service_id ≡ o
      → (o >>= λ owner.
          select_from config fallback_id now
            (λ n. select_next config fallback_id now 1 n)
            m
            (candidates config owner m)
            m.grant)
        ≢ err endless_recursion
  unfolding ring_index_for
  indexed_settles m (ok owner) h a i e =
      from_candidates_settle m owner (candidates config owner m) m.grant h i a e
  indexed_settles m (err f) h a i e =
      absurd (ground (arith, index_in_errors config.ring m.service_id f i, e))

  -- If each open record that the manager knows has no grant and is of its group, then the two calls
  -- that the selection of a transfer may make are enough: it does not go on without end.
  pub select_next_settles :
      (m : Manager)
      → All (λ r. is_tidy config r ≡ true) (records_of m)
      → select_next config fallback_id now 2 m ≢ err endless_recursion
  unfolding select_next
  select_next_settles m a e = elim (Bool-cases (owns_gpu m)) [
    | inr f ↦ absurd (ground arith)
    | inl f ↦ indexed_settles m (ring_index_for config m.service_id) f a refl (rw f at e)
  ]
