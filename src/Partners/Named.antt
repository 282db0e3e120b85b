-- ===== src/Partners/Named.antt =====
-- app/partners.py: the partners of a registry, which its index by name keeps apart.
use naesb_edi.Base.{
  ◌≡◌, refl, sym, inl, inr, false, List, [], ◌∷◌, All, equal, equal_iff, arith, Bool-cases,
}
use naesb_edi.Base.Dict.{Dict, insert, values}
use naesb_edi.Partners.{PartnerConfig, index_by, registry, partners_of}
use naesb_edi.Partners.Found.{All-insert}

-- No two partners share a name.
abbrev pub AreNamed : List PartnerConfig → Type 0
AreNamed [] = Unit
AreNamed (p ∷ ps) = All (λ (q : PartnerConfig). equal q.name p.name ≡ false) ps × AreNamed ps

-- Each key is its partner's name, and stands once.
abbrev IsIndex : Dict PartnerConfig → Type 0
unfolding values
IsIndex [] = Unit
IsIndex ((k, p) ∷ d) =
    (p.name ≡ k) × All (λ (q : PartnerConfig). equal q.name k ≡ false) (values d) × IsIndex d

insert-IsIndex :
    (p : PartnerConfig) (d : Dict PartnerConfig) → IsIndex d → IsIndex (insert p.name p d)
unfolding insert IsIndex
insert-IsIndex p [] h = (refl, tt, tt)
insert-IsIndex p ((k, q) ∷ d) h = elim (Bool-cases (equal k p.name)) [
  | inl hit ↦ rw hit (sym ((equal_iff k p.name).0 hit), h.1, h.2)
  | inr miss ↦
      let back : equal p.name k ≡ false = ground (arith, equal_iff k p.name, equal_iff p.name k) in
      rw miss (
        h.0,
        All-insert (λ (x : PartnerConfig). equal x.name k ≡ false) p.name p d back h.1,
        insert-IsIndex p d h.2,
      )
]

index_by-IsIndex :
    (d : Dict PartnerConfig) (ps : List PartnerConfig)
    → IsIndex d
    → IsIndex (index_by (λ p. p.name) d ps)
unfolding index_by
index_by-IsIndex d [] h = h
index_by-IsIndex d (p ∷ ps) h = index_by-IsIndex (insert p.name p d) ps (insert-IsIndex p d h)

values-AreNamed : (d : Dict PartnerConfig) → IsIndex d → AreNamed (values d)
unfolding values IsIndex
values-AreNamed [] h = tt
values-AreNamed ((k, p) ∷ d) h = (rw h.0 h.1, values-AreNamed d h.2)

pub registry-AreNamed : (ps : List PartnerConfig) → AreNamed (partners_of (registry ps))
unfolding partners_of registry IsIndex
registry-AreNamed ps = values-AreNamed (index_by (λ p. p.name) [] ps) (index_by-IsIndex [] ps tt)
