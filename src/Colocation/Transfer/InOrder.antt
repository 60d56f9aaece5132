-- ===== src/Colocation/Transfer/InOrder.antt =====
-- The order of the candidates of a selection.
use meshy.Prelude.{
  select, ℕ, ◌≤◌, ◌<◌, ◌≡◌, sym, ap, subst, ◌∙◌, Bool, true, false, List, [], ◌∷◌, inl, inr, ◌⊎◌,
  arith, All, All-map, Bool-cases,
}
use meshy.Prelude.Sort.{insert_by, sort_by, All-insert_by}
use meshy.Colocation.Manager.{RequestRecord}
use meshy.Colocation.Rows.{distance, key_leb}

-- `r` comes no later than `s` by priority and then by distance in the ring.
abbrev pub NoLater : ℕ → ℕ → RequestRecord → RequestRecord → Type 0
NoLater size owner r s =
    (r.handle.request.priority < s.handle.request.priority)
    ⊎ ((r.handle.request.priority ≡ s.handle.request.priority)
        × (distance size owner r ≤ distance size owner s))

module _ (size owner : ℕ) where
  pub NoLater-of_true :
      (r s : RequestRecord) → key_leb size owner r s ≡ true → NoLater size owner r s
  NoLater-of_true r s h = ground arith

  pub NoLater-of_false :
      (r s : RequestRecord) → key_leb size owner r s ≡ false → NoLater size owner s r
  NoLater-of_false r s h = ground arith

  pub NoLater-trans :
      (r s t : RequestRecord)
      → NoLater size owner r s
      → NoLater size owner s t
      → NoLater size owner r t
  NoLater-trans r s t h k = ground arith

  abbrev pub InTurn : List RequestRecord → Type 0
  InTurn [] = Unit
  InTurn (r ∷ rs) = All (NoLater size owner r) rs × InTurn rs

  pub insert_by-InTurn :
      (r : RequestRecord) (rs : List RequestRecord)
      → InTurn rs
      → InTurn (insert_by (key_leb size owner) r rs)
  unfolding insert_by
  insert_by-InTurn r [] h = (tt, tt)
  insert_by-InTurn r (s ∷ rs) h = elim (Bool-cases (key_leb size owner r s)) [
    | inl e ↦ rw e (
      (
        NoLater-of_true r s e,
        All-map (NoLater size owner s) (NoLater size owner r) rs
            (λ t k. NoLater-trans r s t (NoLater-of_true r s e) k) h.0,
      ),
      h,
    )
    | inr e ↦ rw e (
      All-insert_by (key_leb size owner) (NoLater size owner s) r rs (NoLater-of_false r s e) h.0,
      insert_by-InTurn r rs h.1,
    )
  ]

  pub sort_by-InTurn : (rs : List RequestRecord) → InTurn (sort_by (key_leb size owner) rs)
  unfolding sort_by
  sort_by-InTurn [] = tt
  sort_by-InTurn (r ∷ rs) = insert_by-InTurn r (sort_by (key_leb size owner) rs) (sort_by-InTurn rs)

abbrev pub InRecords : RequestRecord → List RequestRecord → Type 0
InRecords s [] = ⊥
InRecords s (r ∷ rs) = (s ≡ r) ⊎ InRecords s rs

pub InRecords-insert_by :
    (le : RequestRecord → RequestRecord → Bool) (s r : RequestRecord) (rs : List RequestRecord)
    → (s ≡ r) ⊎ InRecords s rs
    → InRecords s (insert_by le r rs)
unfolding insert_by
InRecords-insert_by le s r [] h = h
InRecords-insert_by le s r (q ∷ rs) h = elim (Bool-cases (le r q)) [
  | inl e ↦ rw e h
  | inr e ↦ rw e (elim h [
    | inl f ↦ inr (InRecords-insert_by le s r rs (inl f))
    | inr (inl f) ↦ inl f
    | inr (inr k) ↦ inr (InRecords-insert_by le s r rs (inr k))
  ])
]

pub InRecords-sort_by :
    (le : RequestRecord → RequestRecord → Bool) (s : RequestRecord) (rs : List RequestRecord)
    → InRecords s rs
    → InRecords s (sort_by le rs)
unfolding sort_by
InRecords-sort_by le s [] h = h
InRecords-sort_by le s (r ∷ rs) (inl e) = InRecords-insert_by le s r (sort_by le rs) (inl e)
InRecords-sort_by le s (r ∷ rs) (inr h) =
    InRecords-insert_by le s r (sort_by le rs) (inr (InRecords-sort_by le s rs h))

pub InRecords-select :
    (p : RequestRecord → Bool) (s : RequestRecord) (rs : List RequestRecord)
    → InRecords s rs
    → p s ≡ true
    → InRecords s (select p rs)
InRecords-select p s [] h k = h
InRecords-select p s (r ∷ rs) (inl e) k = rw (ap p (sym e) ∙ k) (inl e)
InRecords-select p s (r ∷ rs) (inr h) k = elim (Bool-cases (p r)) [
  | inl e ↦ rw e (inr (InRecords-select p s rs h k))
  | inr e ↦ rw e (InRecords-select p s rs h k)
]

pub All-InRecords :
    (P : RequestRecord → Type 0) (s : RequestRecord) (rs : List RequestRecord)
    → All P rs
    → InRecords s rs
    → P s
All-InRecords P s [] a h = absurd h
All-InRecords P s (r ∷ rs) a (inl e) = subst P (sym e) a.0
All-InRecords P s (r ∷ rs) a (inr h) = All-InRecords P s rs a.1 h
