-- ===== src/Worker/Batch/Trace.antt =====
-- The calls that a method adds to the history, whether it returns or raises.
use mathlib.Core.List.{append_assoc, append-nil}
use meshy.Prelude.{
  ℕ, String, ◌≡◌, refl, sym, ap, ◌∙◌, Bool, true, false, Option, none, some, List, [], ◌∷◌, ◌++◌,
  ◌==◌, ok, err, All, All-append, is_some, Bool-cases, inl, inr,
}
use meshy.Prelude.Dicts.{get}
use meshy.Worker.Types.{
  TqOutput, TqError, Call, puts_new, puts_rows, waits, MadeCall, History, Environment, Tq,
}
use meshy.Worker.Batch.{
  Ran, then_run, record_call, make_call, count_error, produce, put_output, write_output, write_from,
  all_declared, write_outputs, same_names, retry_phase,
}
use meshy.Worker.Batch.Retry.{after_failure, Retried, retry_phase-Retried}

module _ {D M : Type 0} where
  -- The one `then_run` case analysis.
  pub then_run-cases :
      {A B : Type 0} (P : Ran D M B → Type 0) (m : Ran D M A) (f : A → Tq D M → Ran D M B)
      → ((e : TqError) → m.0 ≡ err e → P (err e, m.1))
      → ((a : A) → m.0 ≡ ok a → P (f a m.1))
      → P (then_run m f)
  then_run-cases P (err e, t) f h k = h e refl
  then_run-cases P (ok a, t) f h k = k a refl

module _ {D M : Type 0} (Q : MadeCall D M → Type 0) where
  -- Each call that is added satisfies `Q`.
  abbrev pub Adds : Tq D M → Tq D M → Type 0
  Adds t u = (new : History D M) × (u.history ≡ t.history ++ new) × All Q new

  pub nothing_added : (t : Tq D M) → Adds t t
  nothing_added t = ([], sym (append-nil t.history), tt)

  pub Adds-trans : (t u v : Tq D M) → Adds t u → Adds u v → Adds t v
  Adds-trans t u v a b = (
    a.0 ++ b.0,
    b.1 ∙ ap (λ h. h ++ b.0) a.1 ∙ append_assoc t.history a.0 b.0,
    All-append Q a.0 b.0 a.2 b.2,
  )

  pub record_call-Adds :
      (c : Call D M) (b : Bool) (t : Tq D M)
      → Q (record { call = c; succeeded = b })
      → Adds t (record_call c b t)
  record_call-Adds c b t q = (record { call = c; succeeded = b } ∷ [], refl, (q, tt))

  pub make_call-Adds :
      {A : Type 0} (c : Call D M) (o : Option A) (t : Tq D M)
      → ((b : Bool) → Q (record { call = c; succeeded = b }))
      → Adds t (make_call c o t).1
  unfolding make_call
  make_call-Adds c o t q = record_call-Adds c (is_some o) t (q (is_some o))

  -- Such are the calls of a phase where they are those of its attempts.
  pub retry_phase-Adds :
      {A : Type 0} (env : Environment D M) (fn : Tq D M → Ran D M A) (n : ℕ) (t v : Tq D M)
      → Q (record { call = waits; succeeded = true })
      → ((s : Tq D M) → Adds s (fn s).1)
      → Adds t v
      → Retried env fn (Adds t) (retry_phase env fn n v)
  unfolding count_error
  retry_phase-Adds env fn n t v q attempts a =
      retry_phase-Retried env fn (Adds t) (λ s p. Adds-trans t s (fn s).1 p (attempts s)) (λ s p. p)
        (λ s p.
          Adds-trans t s (after_failure env fn s) p (record_call-Adds waits true (count_error s) q))
        n v a

  module _ (env : Environment D M)
      (news : (td : D) (p : Option String) (b : Bool)
        → Q (record { call = puts_new td p; succeeded = b }))
      (olds : (td : D) (m : M) (b : Bool)
        → Q (record { call = puts_rows td m; succeeded = b })) where
    put-Adds :
        (c : Call D M) (td : D) (t : Tq D M)
        → ((b : Bool) → Q (record { call = c; succeeded = b }))
        → Adds t (then_run (make_call c (env.put t.history c) t) (produce env td)).1
    unfolding produce
    put-Adds c td t q =
        let a = make_call-Adds c (env.put t.history c) t q in
        then_run-cases (λ r. Adds t r.1) (make_call c (env.put t.history c) t) (produce env td)
          (λ e h. a) (λ u h. a)

    put_output-Adds :
        (b : Bool) (meta : Option M) (spec : TqOutput) (td : D) (t : Tq D M)
        → Adds t (put_output env b meta spec td t).1
    unfolding put_output
    put_output-Adds true meta spec td t =
        put-Adds (puts_new td spec.partition) td t (news td spec.partition)
    put_output-Adds false none spec td t = nothing_added t
    put_output-Adds false (some m) spec td t = elim (Bool-cases (env.rows td == env.meta_size m)) [
      | inl e ↦ rw e (put-Adds (puts_rows td m) td t (olds td m))
      | inr e ↦ rw e (nothing_added t)
    ]

    write_output-Adds :
        (o : Option TqOutput) (meta : Option M) (td : D) (t : Tq D M)
        → Adds t (write_output env o meta td t).1
    unfolding write_output
    write_output-Adds none meta td t = nothing_added t
    write_output-Adds (some spec) meta td t =
        elim (Bool-cases (same_names (env.keys td) spec.fields)) [
          | inl e ↦ rw e (put_output-Adds spec.new_rows meta spec td t)
          | inr e ↦ rw e (nothing_added t)
        ]

    write_from-Adds :
        (outputs : List (String × TqOutput)) (meta : Option M) (result : List (String × D))
        (t : Tq D M)
        → Adds t (write_from env outputs meta result t).1
    unfolding write_from
    write_from-Adds outputs meta [] t = nothing_added t
    write_from-Adds outputs meta ((name, td) ∷ result) t =
        let w = write_output env (get outputs name) meta td t in
        let a = write_output-Adds (get outputs name) meta td t in
        then_run-cases (λ r. Adds t r.1) w (λ u s. write_from env outputs meta result s) (λ e h. a)
          (λ u h.
            Adds-trans t w.1 (write_from env outputs meta result w.1).1 a
              (write_from-Adds outputs meta result w.1))

    pub write_outputs-Adds :
        (outputs : List (String × TqOutput)) (meta : Option M) (result : List (String × D))
        (t : Tq D M)
        → Adds t (write_outputs env outputs meta result t).1
    unfolding write_outputs
    write_outputs-Adds outputs meta result t = elim (Bool-cases (all_declared env outputs result)) [
      | inl e ↦ rw e (write_from-Adds outputs meta result t)
      | inr e ↦ rw e (nothing_added t)
    ]
