-- ===== src/Colocation/Exclusion/Chain.antt =====
-- A published list of grants, newest first, in which each grant goes on from the one before it.
use meshy.Prelude.{suc, ◌≤◌, ◌<◌, ◌≡◌, refl, sym, ap, ◌∙◌, List, [], ◌∷◌, inl, inr, arith}
use meshy.Colocation.Ring.{GpuGrant}
use meshy.Colocation.Transfer.Grants.{Among}

abbrev pub IsChain : List GpuGrant → Type 0
IsChain [] = ⊥
IsChain (g ∷ []) = g.sequence ≡ 0
IsChain (g ∷ h ∷ r) = (g.sequence ≡ suc h.sequence) × (g.source ≡ h.target) × IsChain (h ∷ r)

pub Among-le :
    (h : GpuGrant) (r : List GpuGrant) (g : GpuGrant)
    → IsChain (h ∷ r)
    → Among g (h ∷ r)
    → g.sequence ≤ h.sequence
Among-le h r g c (inl e) = omega (arith, ap (λ (x : GpuGrant). x.sequence) e)
Among-le h [] g c (inr a) = absurd a
Among-le h (k ∷ r) g c (inr a) = omega (arith, Among-le k r g c.2 a, c.0)

pub Among-newest :
    (h : GpuGrant) (r : List GpuGrant) (g : GpuGrant)
    → IsChain (h ∷ r)
    → Among g (h ∷ r)
    → h.sequence ≤ g.sequence
    → g ≡ h
Among-newest h r g c (inl e) p = e
Among-newest h [] g c (inr a) p = absurd a
Among-newest h (k ∷ r) g c (inr a) p = absurd (omega (arith, Among-le k r g c.2 a, c.0))

-- Each grant but the newest has one that goes on from it.
pub Among-next :
    (h : GpuGrant) (r : List GpuGrant) (g : GpuGrant)
    → IsChain (h ∷ r)
    → Among g (h ∷ r)
    → g.sequence < h.sequence
    → (k : GpuGrant) × Among k (h ∷ r) × (k.sequence ≡ suc g.sequence) × (k.source ≡ g.target)
Among-next h r g c (inl e) p = absurd (omega (arith, ap (λ (x : GpuGrant). x.sequence) e))
Among-next h [] g c (inr a) p = absurd a
Among-next h (k ∷ r) g c (inr (inl e)) p = (
  h,
  inl refl,
  c.0 ∙ ap (λ (x : GpuGrant). suc x.sequence) (sym e),
  c.1 ∙ ap (λ (x : GpuGrant). x.target) (sym e),
)
Among-next h (k ∷ []) g c (inr (inr a)) p = absurd a
Among-next h (k ∷ l ∷ r) g c (inr (inr a)) p =
    let older = Among-le l r g c.2.2 a in
    let n = Among-next k (l ∷ r) g c.2 (inr a) (omega (arith, older, c.2.0)) in
    (n.0, inr n.1, n.2, n.3)
