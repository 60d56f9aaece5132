-- ===== src/Colocation/Exclusion/Views.antt =====
-- What each manager knows of the grants that were published, and how that changes in a turn.
use native.Mathlib.Decide.{dec_le}
use meshy.Prelude.{
  suc, ◌≤◌, ◌<◌, ◌≡◌, refl, sym, ap, subst, ◌∙◌, String, false, Option, none, some, List, ◌∷◌, inl,
  inr, str_eq, eq_iff, arith,
}
use meshy.Colocation.Ring.{GpuGrant}
use meshy.Colocation.Manager.{Manager}
use meshy.Colocation.Transfer.Grants.{
  IsCoherent, Among, Learns, stays, learns, Learned, PublishedIf, Follows,
}
use meshy.Colocation.Transfer.Handover.{Passes, Owns}
use meshy.Colocation.Exclusion.{System}
use meshy.Colocation.Exclusion.Chain.{IsChain, Among-le, Among-newest, Among-next}

abbrev pub Behind : Option GpuGrant → GpuGrant → Type 0
Behind none g = ⊥
Behind (some l) g = g.sequence ≤ l.sequence

-- What a manager knows of the grants, by its newest one.
pub record Knows (published : List GpuGrant) (s : String) (o : Option GpuGrant) : Type 0 where
  pub known : PublishedIf published o
  pub caught : (g : GpuGrant) → Among g published → 0 < g.sequence → g.source ≡ s → Behind o g

pub record IsUpToDate (published : List GpuGrant) (s : String) (m : Manager) : Type 0 where
  pub service : m.service_id ≡ s
  pub coherent : IsCoherent m
  pub knows : Knows published s m.grant

pub Behind-Follows :
    (o : Option GpuGrant) (g h : GpuGrant) → Follows o g → Behind o h → h.sequence ≤ g.sequence
Behind-Follows none g h f b = absurd b
Behind-Follows (some l) g h f b = omega (arith, f.0, b)

pub Knows-Learns :
    (published : List GpuGrant) (s : String) (o p : Option GpuGrant)
    → Learns published o p
    → Knows published s o
    → Knows published s p
Knows-Learns published s _ p (stays o) k = k
Knows-Learns published s _ _ (learns o p g a f l) k =
    Knows-Learns published s (some g) p l
      (record { known = a; caught = λ h b q e. Behind-Follows o g h f (k.caught h b q e) })

pub IsUpToDate-Learned :
    (published : List GpuGrant) (s : String) (m n : Manager)
    → Learned published m n
    → IsUpToDate published s m
    → IsUpToDate published s n
IsUpToDate-Learned published s m n l u = record {
  service = l.service ∙ u.service;
  coherent = l.coherent;
  knows = Knows-Learns published s m.grant n.grant l.grants u.knows;
}

-- The owner's grant is the newest of all.
pub owner-newest :
    (h : GpuGrant) (r : List GpuGrant) (s : String) (m : Manager) (l : GpuGrant)
    → IsChain (h ∷ r)
    → IsUpToDate (h ∷ r) s m
    → Owns m l
    → l ≡ h
owner-newest h r s m l c u o =
    let k = subst (Knows (h ∷ r) s) o.newest u.knows in
    Among-newest h r l c k.known (elim (dec_le h.sequence l.sequence) [
      | yes p ↦ p
      | no q ↦
          let n = Among-next h r l c k.known (omega arith) in
          let b = k.caught n.0 n.1 (omega (arith, n.2)) (n.3 ∙ o.target ∙ u.service) in
          absurd (omega (arith, b, n.2))
    ])

-- A new grant, made by the owner, goes on from the newest one.
pub IsChain-Passes :
    (h : GpuGrant) (r : List GpuGrant) (s : String) (k n : Manager) (l g : GpuGrant)
    → IsChain (h ∷ r)
    → IsUpToDate (h ∷ r) s k
    → Passes k n l g
    → IsChain (g ∷ h ∷ r)
IsChain-Passes h r s k n l g c u p =
    let e = owner-newest h r s k l c u p.owns in
    (
      p.next ∙ ap (λ (x : GpuGrant). suc x.sequence) e,
      p.source ∙ sym p.owns.target ∙ ap (λ (x : GpuGrant). x.target) e,
      c,
    )

pub IsUpToDate-maker :
    (h : GpuGrant) (r : List GpuGrant) (s : String) (k n : Manager) (l g : GpuGrant)
    → IsChain (g ∷ h ∷ r)
    → IsUpToDate (h ∷ r) s k
    → Passes k n l g
    → IsUpToDate (g ∷ h ∷ r) s n
IsUpToDate-maker h r s k n l g c u p = record {
  service = p.service ∙ u.service;
  coherent = p.coherent;
  knows =
      subst (Knows (g ∷ h ∷ r) s) (sym p.newest)
        (record { known = inl refl; caught = λ x a q e. Among-le g (h ∷ r) x c a });
}

pub Among-later :
    (g : GpuGrant) (gs : List GpuGrant) (o : Option GpuGrant)
    → PublishedIf gs o
    → PublishedIf (g ∷ gs) o
Among-later g gs none a = tt
Among-later g gs (some x) a = inr a

-- The other services made none of it.
pub IsUpToDate-other :
    (gs : List GpuGrant) (t : String) (m : Manager) (g : GpuGrant)
    → str_eq g.source t ≡ false
    → IsUpToDate gs t m
    → IsUpToDate (g ∷ gs) t m
IsUpToDate-other gs t m g d u = record {
  service = u.service;
  coherent = u.coherent;
  knows = record {
    known = Among-later g gs m.grant u.knows.known;
    caught = λ x a q e. elim a [
      | inl f ↦ absurd (ground (arith, eq_iff g.source t, ap (λ (y : GpuGrant). y.source) f))
      | inr b ↦ u.knows.caught x b q e
    ];
  };
}

pub record IsConsistent (sys : System) : Type 0 where
  pub newest : GpuGrant
  pub older : List GpuGrant
  pub published : sys.published ≡ newest ∷ older
  pub chain : IsChain sys.published
  pub managers : (s : String) → IsUpToDate sys.published s (sys.managers s)
