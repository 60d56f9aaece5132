-- ===== src/Checkpoint/Store/Crash.antt =====
-- A crash between two effects never leaves a committed shard without its sidecar.
use meshy.Prelude.{
  ℕ, zero, suc, String, ◌≡◌, ◌≢◌, refl, true, false, none, some, List, [], ◌∷◌, ◌++◌, flatten, take,
  ◌<◌, ◌∙◌, arith, eq_iff, if◌then◌else◌,
}
use meshy.Checkpoint.Disk.{
  Document, Disk, Effect, makes_dir, puts_meta, puts_marker, removes_marker, removes_meta,
  removes_heavy, read_meta, is_complete, apply, run,
}
use meshy.Checkpoint.Disk.Laws.{is_complete-apply, read_meta-apply, has-make_dir, same}
use meshy.Checkpoint.Store.{
  write_meta, mark_complete, payload_of, drop, drop_all, prune, stale_steps, newer_than,
  complete_steps, known_services, drop_newer_from, drop_newer_than,
}

module _ {P : Type 0} where
  -- Each committed shard has its sidecar.
  pub record IsWhole (d : Disk P) : Type 0 where
    pub sidecar : (s : String) (n : ℕ) → is_complete d s n ≡ true → read_meta d s n ≢ none

  -- The invariant before the first effect and after each of them.
  abbrev pub Throughout : Disk P → List (Effect P) → Type 0
  Throughout d [] = IsWhole d
  Throughout d (e ∷ es) = IsWhole d × Throughout (apply d e) es

  Throughout-start : (d : Disk P) (es : List (Effect P)) → Throughout d es → IsWhole d
  Throughout-start d [] h = h
  Throughout-start d (e ∷ es) h = h.0

  Throughout-take :
      (d : Disk P) (es : List (Effect P)) (k : ℕ) → Throughout d es → IsWhole (run d (take k es))
  unfolding run
  Throughout-take d es zero h = Throughout-start d es h
  Throughout-take d [] (suc k) h = h
  Throughout-take d (e ∷ es) (suc k) h = Throughout-take (apply d e) es k h.1

  -- An effect other than a marker's or sidecar's, or one that adds a sidecar or takes a marker.
  abbrev IsHarmless : Effect P → Type 0
  IsHarmless (puts_marker s n) = ⊥
  IsHarmless (removes_meta s n) = ⊥
  IsHarmless _ = Unit

  harmless-IsWhole : (d : Disk P) (e : Effect P) → IsHarmless e → IsWhole d → IsWhole (apply d e)
  harmless-IsWhole d (puts_marker s n) h w = absurd h
  harmless-IsWhole d (removes_meta s n) h w = absurd h
  harmless-IsWhole d e h w = record {
    sidecar =
        λ t m c. ground (arith, is_complete-apply d e t m, read_meta-apply d e t m, w.sidecar t m);
  }

  puts_marker-IsWhole :
      (d : Disk P) (s : String) (n : ℕ)
      → read_meta d s n ≢ none
      → IsWhole d
      → IsWhole (apply d (puts_marker s n))
  puts_marker-IsWhole d s n h w = record {
    sidecar = λ t m c. ground (
      arith,
      is_complete-apply d (puts_marker s n) t m,
      read_meta-apply d (puts_marker s n) t m,
      w.sidecar t m,
      eq_iff s t,
    );
  }

  removes_meta-IsWhole :
      (d : Disk P) (s : String) (n : ℕ)
      → is_complete d s n ≡ false
      → IsWhole d
      → IsWhole (apply d (removes_meta s n))
  removes_meta-IsWhole d s n h w = record {
    sidecar = λ t m c. ground (
      arith,
      is_complete-apply d (removes_meta s n) t m,
      read_meta-apply d (removes_meta s n) t m,
      w.sidecar t m,
      eq_iff s t,
    );
  }

  pub Throughout-append :
      (d : Disk P) (xs ys : List (Effect P))
      → Throughout d xs
      → (IsWhole (run d xs) → Throughout (run d xs) ys)
      → Throughout d (xs ++ ys)
  unfolding run
  Throughout-append d [] ys h rest = rest h
  Throughout-append d (x ∷ xs) ys h rest = (h.0, Throughout-append (apply d x) xs ys h.1 rest)

  written :
      (d : Disk P) (s : String) (n : ℕ) (doc : Document P)
      → read_meta (apply (apply (apply d (makes_dir s)) (puts_meta s n doc)) (makes_dir s)) s n
        ≡ some doc
  written d s n doc =
      let d1 = apply d (makes_dir s) in
      let d2 = apply d1 (puts_meta s n doc) in
      ground (
        arith,
        read_meta-apply d2 (makes_dir s) s n,
        read_meta-apply d1 (puts_meta s n doc) s n,
        has-make_dir d s,
        eq_iff s s,
      )

  abbrev pub document : String → ℕ → P → Document P
  document s n p = record { service = s; global_step = n; payload = p }

  pub commit-Throughout :
      (d : Disk P) (s : String) (n : ℕ) (p : P)
      → IsWhole d
      → Throughout d (write_meta s n p ++ mark_complete s n)
  unfolding write_meta mark_complete
  commit-Throughout d s n p w =
      let a = harmless-IsWhole d (makes_dir s) tt w in
      let b = harmless-IsWhole _ (puts_meta s n _) tt a in
      let c = harmless-IsWhole _ (makes_dir s) tt b in
      let d3 =
        apply (apply (apply d (makes_dir s)) (puts_meta s n (document s n p))) (makes_dir s) in
      let e = written d s n (document s n p) in
      (w, (a, (b, (c, puts_marker-IsWhole d3 s n (λ gone. cc (e, gone)) c))))

  drop-Throughout : (d : Disk P) (s : String) (n : ℕ) → IsWhole d → Throughout d (drop s n)
  unfolding drop
  drop-Throughout d s n w =
      let a = harmless-IsWhole d (removes_marker s n) tt w in
      let b =
        removes_meta-IsWhole (apply d (removes_marker s n)) s n
          (ground (arith, is_complete-apply d (removes_marker s n) s n, eq_iff s s)) a in
      (w, (a, (b, harmless-IsWhole _ (removes_heavy s n) tt b)))

  pub drop_all-Throughout :
      (d : Disk P) (s : String) (steps : List ℕ) → IsWhole d → Throughout d (drop_all s steps)
  unfolding drop_all flatten
  drop_all-Throughout d s [] w = w
  drop_all-Throughout d s (n ∷ steps) w =
      Throughout-append d (drop s n) (drop_all s steps) (drop-Throughout d s n w)
        (λ v. drop_all-Throughout (run d (drop s n)) s steps v)

  drop_newer_from-Throughout :
      (d e : Disk P) (step : ℕ) (services : List String)
      → IsWhole e
      → Throughout e (drop_newer_from d step services)
  unfolding drop_newer_from
  drop_newer_from-Throughout d e step [] w = w
  drop_newer_from-Throughout d e step (s ∷ services) w =
      let stale = newer_than step (complete_steps d s) in
      Throughout-append e (drop_all s stale) (drop_newer_from d step services)
        (drop_all-Throughout e s stale w)
        (λ v. drop_newer_from-Throughout d (run e (drop_all s stale)) step services v)

  -- A crash anywhere in `prune` or in `drop_newer_than` leaves each committed shard its sidecar.
  pub pruning_crash :
      (d : Disk P) (s : String) (keep step k : ℕ)
      → IsWhole d
      → IsWhole (run d (take k (prune d s keep).1))
        × IsWhole (run d (take k (drop_newer_than d step)))
  unfolding prune drop_newer_than
  pruning_crash d s keep step k w = (
    Throughout-take d _ k (drop_all-Throughout d s (stale_steps d s keep) w),
    Throughout-take d _ k (drop_newer_from-Throughout d d step (known_services d) w),
  )

  -- A crash anywhere in writing a shard (`write_meta`, then `mark_complete`) leaves each committed
  -- shard its sidecar.
  pub commit_crash :
      (d : Disk P) (s : String) (n k : ℕ) (p : P)
      → IsWhole d
      → IsWhole (run d (take k (write_meta s n p ++ mark_complete s n)))
  commit_crash d s n k p w = Throughout-take d _ k (commit-Throughout d s n p w)

  -- A shard whose writing stops before its last effect is torn: what is committed is what was
  -- committed before.
  pub commit_torn :
      (d : Disk P) (s : String) (n k : ℕ) (p : P) (t : String) (m : ℕ)
      → k < 4
      → is_complete (run d (take k (write_meta s n p ++ mark_complete s n))) t m ≡ is_complete d t m
  unfolding write_meta mark_complete run
  commit_torn d s n zero p t m h = refl
  commit_torn d s n (suc zero) p t m h = is_complete-apply d (makes_dir s) t m
  commit_torn d s n (suc (suc zero)) p t m h =
      is_complete-apply _ (puts_meta s n _) t m ∙ is_complete-apply d (makes_dir s) t m
  commit_torn d s n (suc (suc (suc zero))) p t m h =
      is_complete-apply _ (makes_dir s) t m
      ∙ is_complete-apply _ (puts_meta s n _) t m
      ∙ is_complete-apply d (makes_dir s) t m
  commit_torn d s n (suc (suc (suc (suc k)))) p t m h = absurd (omega arith)

  -- A shard that is written to the end is committed, and its payload is read back; all other
  -- shards are as they were.
  pub commit_round_trip :
      (d : Disk P) (s : String) (n : ℕ) (p : P) (t : String) (m : ℕ)
      → (is_complete (run d (write_meta s n p ++ mark_complete s n)) t m
          ≡ (if same s n t m then true else is_complete d t m))
        × (payload_of (run d (write_meta s n p ++ mark_complete s n)) t m
            ≡ (if same s n t m then some p else payload_of d t m))
  unfolding write_meta mark_complete run payload_of
  commit_round_trip d s n p t m =
      let doc = document s n p in
      let d1 = apply d (makes_dir s) in
      let d2 = apply d1 (puts_meta s n doc) in
      let d3 = apply d2 (makes_dir s) in
      (
        ground (
          arith,
          is_complete-apply d3 (puts_marker s n) t m,
          is_complete-apply d2 (makes_dir s) t m,
          is_complete-apply d1 (puts_meta s n doc) t m,
          is_complete-apply d (makes_dir s) t m,
          has-make_dir d2 s,
        ),
        ground (
          arith,
          read_meta-apply d3 (puts_marker s n) t m,
          read_meta-apply d2 (makes_dir s) t m,
          read_meta-apply d1 (puts_meta s n doc) t m,
          read_meta-apply d (makes_dir s) t m,
          has-make_dir d s,
        ),
      )
