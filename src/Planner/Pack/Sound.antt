-- ===== src/Planner/Pack/Sound.antt =====
-- What every micro-batch of `_pack_micros` satisfies: the tokens it holds fit its rows, its
-- length is aligned, and it keeps the limit that the configuration sets.
use mathlib.Core.List.{map-append}
use meshy.Prelude.{
  ℕ, ◌+◌, ◌*◌, ◌%◌, ◌≤◌, ◌≡◌, refl, ap, List, [], ◌∷◌, ◌++◌, map, Option, none, some, true, get_or,
  All, All-append, length, length-append, sum, arith, ltb→lt,
}
use meshy.Planner.Types.{Layout, padded, packed, PlannerConfig, MicroPlan}
use meshy.Planner.Types.Rounding.{round_up-aligned, le-round_up}
use meshy.Planner.Types.Checks.{IsUsable}
use meshy.Planner.Pack.{OpenMicro, fits, add_row, grown, closed_size, cost, max_rows, close}

-- The length of the rows, and the tokens that one forward pass takes.
abbrev pub Holds : Layout → MicroPlan → Type 0
Holds padded u = All (λ d. d ≤ u.seq_len) u.doc_lens
Holds packed u = sum u.doc_lens ≤ u.seq_len

abbrev pub forward_tokens : Layout → MicroPlan → ℕ
forward_tokens padded u = length u.sample_idx * u.seq_len
forward_tokens packed u = u.seq_len

-- With a token budget, a micro-batch of two or more samples keeps it; without one, the cap on
-- the rows holds.
abbrev pub Capped : PlannerConfig → Option ℕ → MicroPlan → Type 0
Capped cfg (some budget) u = 2 ≤ length u.sample_idx → forward_tokens cfg.layout u ≤ budget
Capped cfg none u = (r : ℕ) → cfg.micro_batch_size ≡ some r → length u.sample_idx ≤ r

pub record IsSound (cfg : PlannerConfig) (lengths : List ℕ) (u : MicroPlan) : Type 0 where
  pub docs : u.doc_lens ≡ map (λ p. get_or lengths p 0) u.sample_idx
  pub some_row : 1 ≤ length u.sample_idx
  pub aligned : u.seq_len % cfg.align ≡ 0
  pub holds : Holds cfg.layout u
  pub capped : Capped cfg cfg.max_tokens_per_micro u

sum-append : (xs ys : List ℕ) → sum (xs ++ ys) ≡ sum xs + sum ys
sum-append [] ys = omega arith
sum-append (x ∷ xs) ys = omega (arith, sum-append xs ys)

-- The invariant of an open micro-batch.
abbrev pub Fill : Layout → ℕ → OpenMicro → Type 0
Fill padded align m = All (λ d. d ≤ m.size) m.doc_lens × (m.size % align ≡ 0)
Fill packed align m = sum m.doc_lens ≡ m.size

abbrev pub OpenCapped : PlannerConfig → Option ℕ → OpenMicro → Type 0
OpenCapped cfg (some budget) m =
    2 ≤ length m.positions → forward_tokens cfg.layout (close cfg m) ≤ budget
OpenCapped cfg none m = (r : ℕ) → cfg.micro_batch_size ≡ some r → length m.positions ≤ r

pub record IsOpen (cfg : PlannerConfig) (lengths : List ℕ) (m : OpenMicro) : Type 0 where
  pub docs : m.doc_lens ≡ map (λ p. get_or lengths p 0) m.positions
  pub some_row : 1 ≤ length m.positions
  pub fill : Fill cfg.layout cfg.align m
  pub capped : OpenCapped cfg cfg.max_tokens_per_micro m

module _ (cfg : PlannerConfig) (usable : IsUsable cfg) (lengths : List ℕ) where
  abbrev pub len_of : ℕ → ℕ
  len_of p = get_or lengths p 0

  Fill-add_row :
      (layout : Layout) (e : cfg.layout ≡ layout) (m : OpenMicro) (p len : ℕ)
      → len ≤ m.size
      → Fill layout cfg.align m
      → Fill layout cfg.align (add_row cfg m p len)
  unfolding add_row
  Fill-add_row padded e m p len le f =
      rw (e, grown) (All-append _ m.doc_lens (len ∷ []) f.0 (le, tt), f.1)
  Fill-add_row packed e m p len le f =
      rw (e, grown) (omega (arith, sum-append m.doc_lens (len ∷ [])))

  forward-add_row :
      (layout : Layout) (e : cfg.layout ≡ layout) (m : OpenMicro) (p len : ℕ)
      → forward_tokens layout (close cfg (add_row cfg m p len)) ≡ cost cfg layout m len
  unfolding add_row close cost
  forward-add_row padded e m p len = rw (e, grown, length-append m.positions (p ∷ [])) refl
  forward-add_row packed e m p len = rw (e, grown) refl

  length-add_row :
      (m : OpenMicro) (p len : ℕ) → length (add_row cfg m p len).positions ≡ length m.positions + 1
  unfolding add_row
  length-add_row m p len = length-append m.positions (p ∷ [])

  capped-add_row :
      (o : Option ℕ) (e : cfg.max_tokens_per_micro ≡ o) (m : OpenMicro) (p len : ℕ)
      → fits cfg m len ≡ true
      → OpenCapped cfg o (add_row cfg m p len)
  unfolding fits max_rows
  capped-add_row (some b) e m p len fit =
      λ two. rw (forward-add_row cfg.layout refl m p len) (ground arith)
  capped-add_row none e m p len fit =
      λ r er. omega (arith, length-add_row m p len, ltb→lt (length m.positions) r (ground arith))

  docs-add_row :
      (m : OpenMicro) (p : ℕ)
      → m.doc_lens ≡ map len_of m.positions
      → (add_row cfg m p (len_of p)).doc_lens ≡ map len_of (add_row cfg m p (len_of p)).positions
  unfolding add_row
  docs-add_row m p e = rw map-append (ap (λ l. l ++ len_of p ∷ []) e)

  pub add_row-IsOpen :
      (m : OpenMicro) (p : ℕ)
      → fits cfg m (len_of p) ≡ true
      → len_of p ≤ m.size
      → IsOpen cfg lengths m
      → IsOpen cfg lengths (add_row cfg m p (len_of p))
  add_row-IsOpen m p fit le h = record {
    docs = docs-add_row m p h.docs;
    some_row = omega (arith, length-add_row m p (len_of p));
    fill = Fill-add_row cfg.layout refl m p (len_of p) le h.fill;
    capped = capped-add_row cfg.max_tokens_per_micro refl m p (len_of p) fit;
  }

  Holds-close :
      (layout : Layout) (e : cfg.layout ≡ layout) (m : OpenMicro)
      → Fill layout cfg.align m
      → Holds layout (close cfg m) × ((close cfg m).seq_len % cfg.align ≡ 0)
  unfolding close
  Holds-close padded e m f = rw (e, closed_size) f
  Holds-close packed e m f =
      rw (e, closed_size)
        (
          omega (arith, le-round_up m.size cfg.align usable.align_positive),
          round_up-aligned m.size cfg.align,
        )

  Capped-close : (o : Option ℕ) (m : OpenMicro) → OpenCapped cfg o m → Capped cfg o (close cfg m)
  unfolding close
  Capped-close (some b) m h = h
  Capped-close none m h = h

  pub close-IsSound : (m : OpenMicro) → IsOpen cfg lengths m → IsSound cfg lengths (close cfg m)
  unfolding close
  close-IsSound m h = record {
    docs = h.docs;
    some_row = h.some_row;
    aligned = (Holds-close cfg.layout refl m h.fill).1;
    holds = (Holds-close cfg.layout refl m h.fill).0;
    capped = Capped-close cfg.max_tokens_per_micro m h.capped;
  }
