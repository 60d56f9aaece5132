-- ===== src/Worker/Batch/Phases.antt =====
-- The phases of a batch that `run_tq_once` clears, in the history of its calls.
use meshy.Prelude.{
  ℕ, String, ◌≡◌, refl, sym, ap, ◌∙◌, Bool, true, false, Option, none, some, List, [], ◌∷◌, ◌++◌,
  ◌⊎◌, ok, All, All-map, AllBoth, inl, inr, arith,
}
use meshy.Worker.Types.{
  TqInput, TqConfig, Call, gets_meta, gets_data, processes, puts_new, puts_rows, clears, waits,
  MadeCall, History, Environment, Tq,
}
use meshy.Worker.Batch.{Ran, answer, make_call, retry_phase}
use meshy.Worker.Batch.Trace.{Adds, nothing_added, make_call-Adds, retry_phase-Adds}
use meshy.Worker.Batch.Writing.{Written}

pub answer-eq : {A : Type 0} (o : Option A) (a : A) → answer o ≡ ok a → o ≡ some a
answer-eq none a h = cc
answer-eq (some b) a h = ground (arith, h)

module _ {D M : Type 0} where
  abbrev is_clear : Call D M → Bool
  is_clear (clears m) = true
  is_clear _ = false

  -- A call that does not clear; an attempt at a call, or the wait before another one; and a write.
  abbrev pub Keeps : MadeCall D M → Type 0
  Keeps e = is_clear e.call ≡ false

  abbrev pub Tries : Call D M → MadeCall D M → Type 0
  Tries call e = (e.call ≡ call) ⊎ (e.call ≡ waits)

  abbrev is_write : Call D M → Bool
  is_write (puts_new td p) = true
  is_write (puts_rows td m) = true
  is_write waits = true
  is_write _ = false

  abbrev pub TriesToWrite : MadeCall D M → Type 0
  TriesToWrite e = is_write e.call ≡ true

  -- A history goes on to another by calls of one kind.
  abbrev pub Grows : (MadeCall D M → Type 0) → History D M → History D M → Type 0
  Grows Q h k = (new : History D M) × (k ≡ h ++ new) × All Q new

  abbrev pub made : Call D M → History D M
  made call = record { call = call; succeeded = true } ∷ []

  module _ (env : Environment D M) (c : TqConfig) (t : Tq D M) where
    -- Up to `h` the worker has asked once for the metadata of a batch, tried to read the data of that
    -- batch until it had them, and got the samples from them.
    pub record IsRead (meta : M) (samples : D) (h : History D M) : Type 0 where
      pub input : TqInput
      pub configured : c.tq_input ≡ some input
      pub found : env.get_meta t.history input ≡ some meta
      pub at : History D M
      pub reading : Grows (Tries (gets_data meta)) (t.history ++ made (gets_meta input)) at
      pub packed : D
      pub read : env.get_data at meta ≡ some packed
      pub unpacked : env.td_to_samples packed input.fields ≡ some samples
      pub history : h ≡ at ++ made (gets_data meta)

    -- Then it has tried to process those samples until it had a result.
    pub record IsProcessed (meta : M) (result : List (String × D)) (h : History D M) : Type 0 where
      pub samples : D
      pub start : History D M
      pub was_read : IsRead meta samples start
      pub at : History D M
      pub processing : Grows (Tries (processes samples)) start at
      pub processed : env.process_tq_batch at samples ≡ some result
      pub history : h ≡ at ++ made (processes samples)

    -- The calls of a batch that is cleared: those that read and process it, attempts to write that
    -- were given up, one write for each output of the result, in order, all of which succeeded, and
    -- those that clear the batch.
    pub record Cleared (h : History D M) : Type 0 where
      pub meta : M
      pub result : List (String × D)
      pub start : History D M
      pub was_processed : IsProcessed meta result start
      pub at : History D M
      pub rewriting : Grows TriesToWrite start at
      pub writes : History D M
      pub written : AllBoth (Written env c.tq_outputs (some meta)) result writes
      pub asked : env.should_clear_batch (at ++ writes) ≡ true
      pub clearing : Grows (Tries (clears meta)) (at ++ writes) h

  pub Tries-Keeps :
      (call : Call D M) (g h : History D M)
      → is_clear call ≡ false
      → Grows (Tries call) g h
      → Grows Keeps g h
  Tries-Keeps call g h k a = (
    a.0,
    a.1,
    All-map (Tries call) Keeps a.0
        (λ e h. elim h [ inl p ↦ ap is_clear p ∙ k | inr p ↦ ap is_clear p ]) a.2,
  )

  write_keeps : (call : Call D M) → is_write call ≡ true → is_clear call ≡ false
  write_keeps (gets_meta i) h = refl
  write_keeps (gets_data m) h = refl
  write_keeps (processes d) h = refl
  write_keeps (puts_new td p) h = refl
  write_keeps (puts_rows td m) h = refl
  write_keeps (clears m) h = cc
  write_keeps waits h = refl

  pub TriesToWrite-Keeps : (g h : History D M) → Grows TriesToWrite g h → Grows Keeps g h
  TriesToWrite-Keeps g h a =
      (a.0, a.1, All-map TriesToWrite Keeps a.0 (λ e h. write_keeps e.call h) a.2)

  make_call-answer :
      {A : Type 0} (call : Call D M) (o : Option A) (s u : Tq D M) (a : A)
      → make_call call o s ≡ (ok a, u)
      → (o ≡ some a) × (u.history ≡ s.history ++ made call)
  unfolding make_call
  make_call-answer call none s u a h = cc
  make_call-answer call (some b) s u a h =
      (ground (arith, ap (λ r. r.0) h), sym (ap (λ r. r.1.history) h))

  -- A phase that tries one call.
  pub record Tried {A : Type 0} (call : Call D M) (ask : History D M → Option A) (s : Tq D M)
      (r : Ran D M A) : Type 0 where
    pub holds : Adds (Tries call) s r.1
    pub returned :
        (a : A)
        → r.0 ≡ ok a
        → (v : Tq D M) × Adds (Tries call) s v
          × (ask v.history ≡ some a)
          × (r.1.history ≡ v.history ++ made call)

  pub retry_phase-Tried :
      {A : Type 0} (env : Environment D M) (call : Call D M) (ask : History D M → Option A) (n : ℕ)
      (s : Tq D M)
      → Tried call ask s (retry_phase env (λ v. make_call call (ask v.history) v) n s)
  retry_phase-Tried env call ask n s =
      let r =
        retry_phase-Adds (Tries call) env (λ v. make_call call (ask v.history) v) n s s (inr refl)
          (λ v. make_call-Adds (Tries call) call (ask v.history) v (λ b. inl refl))
          (nothing_added (Tries call) s) in
      record {
        holds = r.holds;
        returned = λ a h.
            let (v, p, f) = r.returned a h in
            let m = make_call-answer call (ask v.history) v _ a f in (v, p, m.0, m.1);
      }
