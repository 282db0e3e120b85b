-- ===== src/Partners/Found.antt =====
-- app/partners.py: what a registry that was loaded finds.
use naesb_edi.Base.{
  ◌≡◌, refl, sym, ap, ◌∙◌, inl, inr, false, some, List, [], ◌∷◌, All, All-change, All-both, Text,
  Python, IsPython, Result, ok, >>=-eq-ok, Result-cases, Option-cases, Bool-cases, equal,
  equal_refl, equal_iff, arith,
}
use naesb_edi.Base.Dict.{Dict, lookup, insert, values, lookup-insert}
use naesb_edi.Duns.{normalize_duns}
use naesb_edi.Duns.Normal.{normalize_duns_idem}
use naesb_edi.Exceptions.{Exception}
use naesb_edi.Partners.{
  PartnerConfig, PartnerRegistry, index_by, registry, get_by_duns, check_duns, load_partners,
}
use naesb_edi.Partners.Load.{
  validate_partner, validate_partners, validate_given, load_partners_file,
}

-- No two partners share a DUNS.
abbrev pub AreApart : List PartnerConfig → Type 0
AreApart [] = Unit
AreApart (p ∷ ps) = All (λ (q : PartnerConfig). equal p.duns q.duns ≡ false) ps × AreApart ps

-- What the loop accepts has no DUNS that was seen before, and none twice.
seen-apart :
    (seen : Dict Text) (duns : Text) (t : Text) (ps : List PartnerConfig)
    → lookup duns seen ≡ some t
    → check_duns seen ps ≡ ok tt
    → All (λ (q : PartnerConfig). equal duns q.duns ≡ false) ps
unfolding check_duns
seen-apart seen duns t [] f h = tt
seen-apart seen duns t (p ∷ ps) f h = elim (Option-cases (lookup p.duns seen)) [
  | inr (x, old) ↦ absurd (ground (arith, old))
  | inl new ↦
      let apart : equal duns p.duns ≡ false = elim (Bool-cases (equal duns p.duns)) [
        | inl same ↦
            absurd (
              ground
                (arith, sym f ∙ ap (λ k. lookup k seen) ((equal_iff duns p.duns).0 same) ∙ new))
        | inr other ↦ other
      ] in
      let back : equal p.duns duns ≡ false =
        ground (arith, equal_iff duns p.duns, equal_iff p.duns duns) in
      let rest : check_duns (insert p.duns p.name seen) ps ≡ ok tt = ground (arith, new) in
      (
        apart,
        seen-apart (insert p.duns p.name seen) duns t ps
            (lookup-insert p.duns duns p.name seen ∙ rw back f) rest,
      )
]

check_duns-AreApart :
    (seen : Dict Text) (ps : List PartnerConfig) → check_duns seen ps ≡ ok tt → AreApart ps
unfolding check_duns
check_duns-AreApart seen [] h = tt
check_duns-AreApart seen (p ∷ ps) h = elim (Option-cases (lookup p.duns seen)) [
  | inr (x, old) ↦ absurd (ground (arith, old))
  | inl new ↦
      let rest : check_duns (insert p.duns p.name seen) ps ≡ ok tt = ground (arith, new) in
      let noted : lookup p.duns (insert p.duns p.name seen) ≡ some p.name =
        lookup-insert p.duns p.duns p.name seen ∙ rw (equal_refl p.duns) refl in
      (
        seen-apart (insert p.duns p.name seen) p.duns p.name ps noted rest,
        check_duns-AreApart (insert p.duns p.name seen) ps rest,
      )
]

-- An entry of the index by DUNS stays as it is while other partners are added.
index_by-other :
    (duns : Text) (d : Dict PartnerConfig) (ps : List PartnerConfig)
    → All (λ (q : PartnerConfig). equal duns q.duns ≡ false) ps
    → lookup duns (index_by (λ q. q.duns) d ps) ≡ lookup duns d
unfolding index_by
index_by-other duns d [] h = refl
index_by-other duns d (p ∷ ps) h =
    let back : equal p.duns duns ≡ false =
      ground (arith, equal_iff duns p.duns, equal_iff p.duns duns) in
    index_by-other duns (insert p.duns p d) ps h.1 ∙ lookup-insert p.duns duns p d ∙ rw back refl

index_by-finds :
    (d : Dict PartnerConfig) (ps : List PartnerConfig)
    → AreApart ps
    → All (λ (q : PartnerConfig). lookup q.duns (index_by (λ q. q.duns) d ps) ≡ some q) ps
unfolding index_by
index_by-finds d [] h = tt
index_by-finds d (p ∷ ps) h = (
  index_by-other p.duns (insert p.duns p d) ps h.0
      ∙ lookup-insert p.duns p.duns p d
      ∙ rw (equal_refl p.duns) refl,
  index_by-finds (insert p.duns p d) ps h.1,
)

-- What is so of each partner of a list is so of each value of the index.
pub All-insert :
    (P : PartnerConfig → Type 0) (k : Text) (p : PartnerConfig) (d : Dict PartnerConfig)
    → P p
    → All P (values d)
    → All P (values (insert k p d))
unfolding values insert
All-insert P k p [] x h = (x, tt)
All-insert P k p ((j, q) ∷ d) x h = elim (Bool-cases (equal j k)) [
  | inl hit ↦ rw hit (x, h.1)
  | inr miss ↦ rw miss (h.0, All-insert P k p d x h.1)
]

pub All-index_by :
    (P : PartnerConfig → Type 0) (key : PartnerConfig → Text) (d : Dict PartnerConfig)
    (ps : List PartnerConfig)
    → All P ps
    → All P (values d)
    → All P (values (index_by key d ps))
unfolding index_by
All-index_by P key d [] h g = g
All-index_by P key d (p ∷ ps) h g =
    All-index_by P key (insert (key p) p d) ps h.1 (All-insert P (key p) p d h.0 g)

pub load_partners-checked :
    (ps : List PartnerConfig) (reg : PartnerRegistry)
    → load_partners ps ≡ ok reg
    → (check_duns [] ps ≡ ok tt) × (reg ≡ registry ps)
unfolding load_partners
load_partners-checked ps reg h = elim (Result-cases (check_duns [] ps)) [
  | inl (u, e) ↦ (e, ground (arith, e))
  | inr (x, e) ↦ absurd (ground (arith, e))
]

module _ (py : Python) (law : IsPython py) where
  IsNormal-parsed :
      (raw parsed : List PartnerConfig)
      → validate_partners py raw ≡ ok parsed
      → All (λ (q : PartnerConfig). normalize_duns py q.duns ≡ q.duns) parsed
  unfolding validate_partners validate_partner
  IsNormal-parsed [] parsed h = let same : [] ≡ parsed = ground arith in rw (sym same) tt
  IsNormal-parsed (p ∷ raw) parsed h =
      let (checked, h1, h2) = >>=-eq-ok (validate_partner py p) _ h in
      let (more, h3, h4) = >>=-eq-ok (validate_partners py raw) _ h2 in
      let (overrides, h5, h6) = >>=-eq-ok (validate_given p.crypto_overrides) _ h1 in
      let duns : normalize_duns py p.duns ≡ checked.duns = ground arith in
      let same : checked ∷ more ≡ parsed = ground arith in
      rw (sym same) (rw (sym duns) (normalize_duns_idem py law p.duns), IsNormal-parsed raw more h3)

  finds-all :
      (reg : PartnerRegistry) (ps : List PartnerConfig)
      → reg ≡ registry ps
      → All (λ (q : PartnerConfig). normalize_duns py q.duns ≡ q.duns) ps
      → AreApart ps
      → All (λ (q : PartnerConfig). get_by_duns py reg q.duns ≡ some q) ps
  unfolding get_by_duns registry
  finds-all reg ps e n a = rw e (
      All-change
        (λ (q : PartnerConfig).
          (normalize_duns py q.duns ≡ q.duns)
          × (lookup q.duns (index_by (λ q. q.duns) [] ps) ≡ some q))
        (λ q. lookup (normalize_duns py q.duns) (index_by (λ q. q.duns) [] ps) ≡ some q) ps
        (λ q (same, found). rw same found)
        (All-both (λ (q : PartnerConfig). normalize_duns py q.duns ≡ q.duns) _ ps n
          (index_by-finds [] ps a)))

  -- Loading a file of partners that returns a registry has validated each of them; no two of them share a
  -- DUNS, and the registry finds each one by its DUNS.
  pub load_partners_file-finds :
      (read_file : Text → Result Exception (List PartnerConfig)) (path : Text)
      (raw : List PartnerConfig) (reg : PartnerRegistry)
      → read_file path ≡ ok raw
      → load_partners_file py read_file path ≡ ok reg
      → (parsed : List PartnerConfig) × (validate_partners py raw ≡ ok parsed)
        × AreApart parsed
        × All (λ (q : PartnerConfig). get_by_duns py reg q.duns ≡ some q) parsed
  unfolding load_partners_file
  load_partners_file-finds read_file path raw reg r h =
      let (raw', h1, h2) = >>=-eq-ok (read_file path) _ h in
      let (parsed, h3, h4) = >>=-eq-ok (validate_partners py raw') _ h2 in
      let same : raw' ≡ raw = ground arith in
      let (checked, e) = load_partners-checked parsed reg h4 in
      let apart = check_duns-AreApart [] parsed checked in
      (
        parsed,
        rw (sym same) h3,
        apart,
        finds-all reg parsed e (IsNormal-parsed raw' parsed h3) apart,
      )
