-- ===== src/Planner/Pack.antt =====
-- `_pack_micros` of meshy/backend/titan/plan.py: first-fit-decreasing into micro-batches.
pub mod Cover
pub mod Sound
pub mod Keeps
use meshy.Prelude.{
  ℕ, ◌+◌, ◌*◌, Bool, true, ◌&&◌, ◌||◌, Option, none, some, List, [], ◌∷◌, ◌++◌, map, length, get_or,
  ltb, leb, ◌==◌, if◌then◌else◌,
}
use meshy.Prelude.Sort.{sort_by}
use meshy.Planner.Types.{Layout, padded, packed, PlannerConfig, MicroPlan, round_up}

-- The key `(-lengths[p], p)`.
unfoldable pub longer_first : List ℕ → ℕ → ℕ → Bool
longer_first lengths p q =
    let l = get_or lengths p 0 in let m = get_or lengths q 0 in ltb m l || (l == m && leb p q)

-- An open micro-batch: `[positions, doc_lens, row_len_or_total]`.
pub record OpenMicro : Type 0 where
  pub positions : List ℕ
  pub doc_lens : List ℕ
  pub size : ℕ

module _ (cfg : PlannerConfig) where
  -- `max_rows`: the row cap holds only where there is no token budget.
  unfoldable pub max_rows : Option ℕ
  max_rows = elim cfg.max_tokens_per_micro [ none ↦ cfg.micro_batch_size | some b ↦ none ]

  unfoldable pub cost : Layout → OpenMicro → ℕ → ℕ
  unfolding round_up
  cost padded m len = (length m.positions + 1) * m.size
  cost packed m len = round_up (m.size + len) cfg.align

  -- Whether the body of the inner loop does not `continue`.
  unfoldable pub fits : OpenMicro → ℕ → Bool
  unfolding max_rows cost
  fits m len =
      elim max_rows [ none ↦ true | some r ↦ ltb (length m.positions) r ]
      && elim cfg.max_tokens_per_micro [ none ↦ true | some b ↦ leb (cost cfg.layout m len) b ]

  grown : Layout → ℕ → ℕ → ℕ
  grown padded size len = size
  grown packed size len = size + len

  unfoldable pub add_row : OpenMicro → ℕ → ℕ → OpenMicro
  unfolding grown
  add_row m p len = record {
    positions = m.positions ++ p ∷ [];
    doc_lens = m.doc_lens ++ len ∷ [];
    size = grown cfg.layout m.size len;
  }

  unfoldable pub first_size : Layout → ℕ → ℕ
  unfolding round_up
  first_size padded len = round_up len cfg.align
  first_size packed len = len

  -- The inner loop: the first open micro-batch with room, or a new one at the end.
  unfoldable pub place : ℕ → ℕ → List OpenMicro → List OpenMicro
  unfolding fits add_row first_size
  place p len [] =
      record { positions = p ∷ []; doc_lens = len ∷ []; size = first_size cfg.layout len } ∷ []
  place p len (m ∷ micros) = if fits m len then add_row m p len ∷ micros else m ∷ place p len micros

  unfoldable pub place_all : List ℕ → List ℕ → List OpenMicro → List OpenMicro
  unfolding place
  place_all lengths [] micros = micros
  place_all lengths (p ∷ order) micros =
      place_all lengths order (place p (get_or lengths p 0) micros)

  closed_size : Layout → ℕ → ℕ
  unfolding round_up
  closed_size padded size = size
  closed_size packed size = round_up size cfg.align

  unfoldable pub close : OpenMicro → MicroPlan
  unfolding closed_size
  close m = record {
    sample_idx = m.positions;
    seq_len = closed_size cfg.layout m.size;
    doc_lens = m.doc_lens;
  }

  unfoldable pub pack_micros : List ℕ → List ℕ → List MicroPlan
  unfolding place_all close sort_by longer_first
  pack_micros local_pos lengths =
      map close (place_all lengths (sort_by (longer_first lengths) local_pos) [])
