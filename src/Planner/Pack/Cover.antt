-- ===== src/Planner/Pack/Cover.antt =====
-- Packing loses no sample and repeats none.
use mathlib.Core.List.Perm
use mathlib.Core.List.{perm_middle, append_assoc, append-nil}
use meshy.Prelude.{
  ℕ, ◌≡◌, refl, ap, List, [], ◌∷◌, ◌++◌, map, flatten, Perm, Bool-cases, inl, inr, get_or,
}
use meshy.Prelude.Sort.{sort_by, sort_by-perm}
use meshy.Planner.Types.{PlannerConfig, MicroPlan}
use meshy.Planner.Pack.{
  OpenMicro, fits, add_row, place, place_all, close, longer_first, pack_micros,
}

abbrev held : List OpenMicro → List ℕ
held micros = flatten (map (λ (m : OpenMicro). m.positions) micros)

abbrev pub rows_of : List MicroPlan → List ℕ
rows_of micros = flatten (map (λ (m : MicroPlan). m.sample_idx) micros)

module _ (cfg : PlannerConfig) where
  place-perm :
      (p len : ℕ) (micros : List OpenMicro) → Perm (held (place cfg p len micros)) (p ∷ held micros)
  unfolding place add_row flatten
  place-perm p len [] = Perm.rfl
  place-perm p len (m ∷ micros) = elim (Bool-cases (fits cfg m len)) [
    | inl e ↦ rw (e, append_assoc) (perm_middle m.positions (held micros))
    | inr e ↦ rw e (
        Perm.trans (Perm.append_left m.positions (place-perm p len micros))
          (perm_middle m.positions (held micros)))
  ]

  place_all-perm :
      (lengths order : List ℕ) (micros : List OpenMicro)
      → Perm (held (place_all cfg lengths order micros)) (order ++ held micros)
  unfolding place_all
  place_all-perm lengths [] micros = Perm.rfl
  place_all-perm lengths (p ∷ order) micros =
      let len = get_or lengths p 0 in
      Perm.trans (place_all-perm lengths order (place cfg p len micros)) (
        Perm.trans (Perm.append_left order (place-perm p len micros))
          (perm_middle order (held micros)))

  rows_of-close : (micros : List OpenMicro) → rows_of (map (close cfg) micros) ≡ held micros
  unfolding close flatten
  rows_of-close [] = refl
  rows_of-close (m ∷ micros) = ap (◌++◌ m.positions) (rows_of-close micros)

  -- The micro-batches of `_pack_micros` hold the given positions, each as often as it was given.
  pub pack_micros-perm :
      (local_pos lengths : List ℕ) → Perm (rows_of (pack_micros cfg local_pos lengths)) local_pos
  unfolding pack_micros flatten
  pack_micros-perm local_pos lengths =
      let order = sort_by (longer_first lengths) local_pos in
      rw (rows_of-close (place_all cfg lengths order [])) (
        Perm.trans (rw (append-nil order) at (place_all-perm lengths order []))
          (sort_by-perm (longer_first lengths) local_pos))
