-- ===== src/Planner/Pack/Keeps.antt =====
-- The loops of `_pack_micros` keep the invariant of open micro-batches, since the samples come by
-- falling length.
use meshy.Prelude.{
  ℕ, ◌≤◌, ◌≡◌, refl, subst, List, [], ◌∷◌, map, Option, none, some, true, false, Bool-cases, inl,
  inr, get_or, All, All-map, maximum, arith,
}
use meshy.Prelude.Sort.{sort_by, sort_by-IsSorted, IsSorted}
use meshy.Planner.Types.{Layout, padded, packed, PlannerConfig}
use meshy.Planner.Types.Rounding.{round_up-aligned, le-round_up}
use meshy.Planner.Types.Checks.{IsUsable, PositiveIfSet}
use meshy.Planner.Pack.{
  OpenMicro, fits, add_row, grown, first_size, place, place_all, close, longer_first, pack_micros,
}
use meshy.Planner.Pack.Sound.{IsSound, IsOpen, Fill, OpenCapped, add_row-IsOpen, close-IsSound}

longer_first_total :
    (lengths : List ℕ) (p q : ℕ)
    → longer_first lengths p q ≡ false
    → longer_first lengths q p ≡ true
unfolding longer_first
longer_first_total lengths p q h = ground arith

longer_first_trans :
    (lengths : List ℕ) (p q r : ℕ)
    → longer_first lengths p q ≡ true
    → longer_first lengths q r ≡ true
    → longer_first lengths p r ≡ true
unfolding longer_first
longer_first_trans lengths p q r h k = ground arith

-- What the key puts behind `p` is not longer.
longer_first→le :
    (lengths : List ℕ) (p q : ℕ)
    → longer_first lengths p q ≡ true
    → get_or lengths q 0 ≤ get_or lengths p 0
unfolding longer_first
longer_first→le lengths p q h = ground arith

module _ (cfg : PlannerConfig) (usable : IsUsable cfg) (lengths : List ℕ) where
  abbrev len_of : ℕ → ℕ
  len_of p = get_or lengths p 0

  abbrev fresh : ℕ → OpenMicro
  fresh p = record {
    positions = p ∷ [];
    doc_lens = len_of p ∷ [];
    size = first_size cfg cfg.layout (len_of p);
  }

  Fill-fresh :
      (layout : Layout) (p : ℕ)
      → (len_of p ≤ first_size cfg layout (len_of p))
        × Fill layout cfg.align (record (fresh p) { size = first_size cfg layout (len_of p) })
  unfolding first_size
  Fill-fresh padded p =
      let le = le-round_up (len_of p) cfg.align usable.align_positive in
      (le, ((le, tt), round_up-aligned (len_of p) cfg.align))
  Fill-fresh packed p = (omega arith, omega arith)

  capped-fresh : (o : Option ℕ) (p : ℕ) → OpenCapped cfg o (fresh p)
  capped-fresh (some b) p = λ two. absurd (omega arith)
  capped-fresh none p = λ r e. subst PositiveIfSet e usable.rows_positive

  fresh-IsOpen : (p : ℕ) → IsOpen cfg lengths (fresh p)
  fresh-IsOpen p = record {
    docs = refl;
    some_row = omega arith;
    fill = (Fill-fresh cfg.layout p).1;
    capped = capped-fresh cfg.max_tokens_per_micro p;
  }

  -- No open micro-batch is smaller than the samples that are still to come.
  record Waiting (bound : ℕ) (m : OpenMicro) : Type 0 where
    open_ : IsOpen cfg lengths m
    above : bound ≤ m.size

  size-add_row : (m : OpenMicro) (p len : ℕ) → m.size ≤ (add_row cfg m p len).size
  unfolding add_row grown
  size-add_row m p len = ground arith

  place-Waiting :
      (p bound : ℕ) (micros : List OpenMicro)
      → len_of p ≤ bound
      → All (Waiting bound) micros
      → All (Waiting (len_of p)) (place cfg p (len_of p) micros)
  unfolding place
  place-Waiting p bound [] le h =
      (record { open_ = fresh-IsOpen p; above = (Fill-fresh cfg.layout p).0 }, tt)
  place-Waiting p bound (m ∷ micros) le h = elim (Bool-cases (fits cfg m (len_of p))) [
    | inl e ↦ rw e (
      record {
        open_ = add_row-IsOpen cfg usable lengths m p e (omega (arith, h.0.above)) h.0.open_;
        above = omega (arith, h.0.above, size-add_row m p (len_of p));
      },
      All-map (Waiting bound) (Waiting (len_of p)) micros (λ n w. lower n w) h.1,
    )
    | inr e ↦ rw e (lower m h.0, place-Waiting p bound micros le h.1)
  ]
    where
      lower : (n : OpenMicro) → Waiting bound n → Waiting (len_of p) n
      lower n w = record { open_ = w.open_; above = omega (arith, w.above) }

  place_all-Waiting :
      (bound : ℕ) (order : List ℕ) (micros : List OpenMicro)
      → All (λ p. len_of p ≤ bound) order
      → IsSorted (longer_first lengths) order
      → All (Waiting bound) micros
      → All (IsOpen cfg lengths) (place_all cfg lengths order micros)
  unfolding place_all
  place_all-Waiting bound [] micros le s h =
      All-map (Waiting bound) (IsOpen cfg lengths) micros (λ m w. w.open_) h
  place_all-Waiting bound (p ∷ order) micros le s h =
      place_all-Waiting (len_of p) order (place cfg p (len_of p) micros)
        (All-map _ (λ q. len_of q ≤ len_of p) order (longer_first→le lengths p) s.0) s.1
        (place-Waiting p bound micros le.0 h)

  close-All :
      (micros : List OpenMicro)
      → All (IsOpen cfg lengths) micros
      → All (IsSound cfg lengths) (map (close cfg) micros)
  close-All [] h = tt
  close-All (m ∷ micros) h = (close-IsSound cfg usable lengths m h.0, close-All micros h.1)

  below_maximum :
      (ps : List ℕ) (bound : ℕ) → maximum (map len_of ps) ≤ bound → All (λ p. len_of p ≤ bound) ps
  below_maximum [] bound h = tt
  below_maximum (p ∷ ps) bound h = (omega arith, below_maximum ps bound (omega arith))

  -- Every micro-batch of `_pack_micros`, under a usable configuration: it lists the lengths of its
  -- samples; it has a sample; its length is aligned; in the padded layout no sample is longer than
  -- a row, and in the packed layout the samples together are not longer than the row; with a token
  -- budget, two or more samples together keep the budget; with none, the cap on rows holds.
  pub pack_micros-IsSound :
      (local_pos : List ℕ) → All (IsSound cfg lengths) (pack_micros cfg local_pos lengths)
  unfolding pack_micros
  pack_micros-IsSound local_pos =
      let le = longer_first lengths in
      let order = sort_by le local_pos in
      close-All (place_all cfg lengths order []) (
        place_all-Waiting (maximum (map len_of order)) order []
          (below_maximum order _ (omega arith))
          (sort_by-IsSorted le (longer_first_total lengths) (longer_first_trans lengths) local_pos)
          tt)
