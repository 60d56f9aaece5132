-- ===== src/Worker/Batch/Writing.antt =====
-- What `_write_outputs` has written when it returns.
use mathlib.Core.List.{append_assoc, append-nil}
use meshy.Prelude.{
  ◌+◌, String, ◌≡◌, refl, sym, ap, subst, ◌∙◌, Bool, true, false, Option, none, some, List, [], ◌∷◌,
  ◌++◌, map, ◌==◌, ok, err, AllBoth, sum, Bool-cases, inl, inr, arith,
}
use meshy.Prelude.Dicts.{get}
use meshy.Worker.Types.{TqOutput, Call, puts_new, puts_rows, MadeCall, History, Environment, Tq}
use meshy.Worker.Batch.{
  Ran, then_run, make_call, produce, put_output, write_output, write_from, all_declared,
  write_outputs, same_names,
}

module _ {D M : Type 0} (env : Environment D M) where
  -- The call that writes an output: new rows into its partition, or as many rows as the batch has.
  abbrev pub PutBy : Bool → Option M → TqOutput → D → Call D M → Type 0
  PutBy true meta spec td c = c ≡ puts_new td spec.partition
  PutBy false none spec td c = ⊥
  PutBy false (some m) spec td c = (c ≡ puts_rows td m) × (env.rows td ≡ env.meta_size m)

  -- An output is declared with exactly its fields, and the call that writes it succeeded.
  abbrev pub Written : List (String × TqOutput) → Option M → String × D → MadeCall D M → Type 0
  Written outputs meta e v =
      (spec : TqOutput) × (get outputs e.0 ≡ some spec)
      × (same_names (env.keys e.1) spec.fields ≡ true)
      × (v.succeeded ≡ true)
      × PutBy spec.new_rows meta spec e.1 v.call

  -- One call that succeeded, and the count of its rows.
  record Puts (c : Call D M) (td : D) (t u : Tq D M) : Type 0 where
    history : u.history ≡ t.history ++ record { call = c; succeeded = true } ∷ []
    produced : u.produced ≡ t.produced + env.rows td

  put-Puts :
      (c : Call D M) (td : D) (o : Option (Unit {0})) (t u : Tq D M)
      → then_run (make_call c o t) (produce env td) ≡ (ok tt, u)
      → Puts c td t u
  unfolding make_call produce
  put-Puts c td none t u h = cc
  put-Puts c td (some x) t u h =
      subst (Puts c td t) (ap (λ r. r.1) h) (record { history = refl; produced = refl })

  put_output-Puts :
      (b : Bool) (meta : Option M) (spec : TqOutput) (td : D) (t u : Tq D M)
      → put_output env b meta spec td t ≡ (ok tt, u)
      → (c : Call D M) × PutBy b meta spec td c × Puts c td t u
  unfolding put_output
  put_output-Puts true meta spec td t u h = (
    puts_new td spec.partition,
    refl,
    put-Puts (puts_new td spec.partition) td (env.put t.history (puts_new td spec.partition)) t u h,
  )
  put_output-Puts false none spec td t u h = cc
  put_output-Puts false (some m) spec td t u h =
      elim (Bool-cases (env.rows td == env.meta_size m)) [
        | inl e ↦ (
          puts_rows td m,
          (refl, ground (arith, e)),
          put-Puts (puts_rows td m) td (env.put t.history (puts_rows td m)) t u
              (rw (e, put_output) at h),
        )
        | inr e ↦ absurd (ground (arith, rw (e, put_output) at h))
      ]

  write_output-Puts :
      (o : Option TqOutput) (meta : Option M) (td : D) (t u : Tq D M)
      → write_output env o meta td t ≡ (ok tt, u)
      → (spec : TqOutput) × (o ≡ some spec)
        × (same_names (env.keys td) spec.fields ≡ true)
        × ((c : Call D M) × PutBy spec.new_rows meta spec td c × Puts c td t u)
  unfolding write_output
  write_output-Puts none meta td t u h = cc
  write_output-Puts (some spec) meta td t u h =
      elim (Bool-cases (same_names (env.keys td) spec.fields)) [
        | inl e ↦ (
          spec,
          refl,
          e,
          put_output-Puts spec.new_rows meta spec td t u (rw (e, write_output) at h),
        )
        | inr e ↦ absurd (ground (arith, rw (e, write_output) at h))
      ]

  -- The calls of a loop of writes that returns.
  pub record WritesAll (outputs : List (String × TqOutput)) (meta : Option M)
      (result : List (String × D)) (t u : Tq D M) : Type 0 where
    pub calls : History D M
    pub history : u.history ≡ t.history ++ calls
    pub written : AllBoth (Written outputs meta) result calls
    pub produced : u.produced ≡ t.produced + sum (map (λ e. env.rows e.1) result)

  then_run-ok :
      {A B : Type 0} (m : Ran D M A) (f : A → Tq D M → Ran D M B) (b : B) (u : Tq D M)
      → then_run m f ≡ (ok b, u)
      → (a : A) × (m ≡ (ok a, m.1)) × (f a m.1 ≡ (ok b, u))
  then_run-ok (err e, t) f b u h = cc
  then_run-ok (ok a, t) f b u h = (a, refl, h)

  write_from-WritesAll :
      (outputs : List (String × TqOutput)) (meta : Option M) (result : List (String × D))
      (t u : Tq D M)
      → write_from env outputs meta result t ≡ (ok tt, u)
      → WritesAll outputs meta result t u
  unfolding write_from
  write_from-WritesAll outputs meta [] t u h =
      subst (WritesAll outputs meta [] t) (ap (λ r. r.1) h) (record {
        calls = [];
        history = sym (append-nil t.history);
        written = tt;
        produced = omega arith;
      })
  write_from-WritesAll outputs meta ((name, td) ∷ result) t u h =
      let w = write_output env (get outputs name) meta td t in
      let a = then_run-ok w (λ x s. write_from env outputs meta result s) tt u h in
      let p = write_output-Puts (get outputs name) meta td t w.1 a.1 in
      let r = write_from-WritesAll outputs meta result w.1 u a.2 in
      let c = p.3 in
      record {
        calls = record { call = c.0; succeeded = true } ∷ r.calls;
        history = r.history ∙ ap (λ l. l ++ r.calls) c.2.history ∙ append_assoc t.history _ r.calls;
        written = ((p.0, p.1, p.2, refl, c.1), r.written);
        produced = omega (arith, r.produced, c.2.produced);
      }

  -- Where `_write_outputs` returns, it has made one call for each output, in their order and no other
  -- calls: each output is declared with exactly its fields, its call succeeded, and it wrote new rows
  -- to the declared partition, or as many rows as the batch has; and all rows are counted.
  pub write_outputs-WritesAll :
      (outputs : List (String × TqOutput)) (meta : Option M) (result : List (String × D))
      (t u : Tq D M)
      → write_outputs env outputs meta result t ≡ (ok tt, u)
      → WritesAll outputs meta result t u
  unfolding write_outputs
  write_outputs-WritesAll outputs meta result t u h =
      elim (Bool-cases (all_declared env outputs result)) [
        | inl e ↦ write_from-WritesAll outputs meta result t u (rw (e, write_outputs) at h)
        | inr e ↦ absurd (ground (arith, rw (e, write_outputs) at h))
      ]
