-- ===== src/Inbound/Known.antt =====
-- app/inbound/routes.py with app/tracking/repository.py: a stored transmission is a duplicate from
-- then on.
use naesb_edi.Base.{
  ℕ, ◌≡◌, refl, ◌∙◌, ap, inl, inr, Bool, true, ◌||◌, Option, none, some, List, [], ◌∷◌, ◌++◌, Text,
  equal_refl, any, ◌==◌, ok, Bool-cases, arith,
}
use naesb_edi.Fields.{EnvelopeFields}
use naesb_edi.Inbound.{Request, Context, message_record, is_known, by_refnum, given, reuse_of}
use naesb_edi.Tracking.{
  inbound, MessageRecord, Row, Messages, is_duplicate, is_reuse, create, update_rows, update_status,
  update_sinks_status, next_trans_id, apply_status, find_duplicate, find_refnum_reuse,
}
use naesb_edi.Tracking.Unique.{
  KeepsKey, create-eq-ok, Statement, insert_row, set_status, set_sinks, draw_trans_id, Reaches,
  here, next,
}

-- A test that reads a row's key alone.
abbrev ReadsKey : (Row → Bool) → Type 0
ReadsKey p =
    (row : Row) (f : MessageRecord → MessageRecord)
    → KeepsKey f
    → p (record row { record_of = f row.record_of }) ≡ p row

is_duplicate-ReadsKey : (name digest : Text) → ReadsKey (is_duplicate name digest inbound)
is_duplicate-ReadsKey name digest row f k = let (p, d, x, n) = k row.record_of in rw (p, d, x) refl

is_reuse-ReadsKey : (name : Text) (refnum : Option Text) → ReadsKey (is_reuse name refnum inbound)
is_reuse-ReadsKey name refnum row f k = let (p, d, x, n) = k row.record_of in rw (p, n, x) refl

any-snoc :
    (p : Row → Bool) (rows : List Row) (new : Row) → p new ≡ true → any p (rows ++ new ∷ []) ≡ true
any-snoc p [] new h = ground arith
any-snoc p (row ∷ rows) new h = ground (arith, any-snoc p rows new h)

any-append :
    (p : Row → Bool) (rows more : List Row) → any p rows ≡ true → any p (rows ++ more) ≡ true
any-append p [] more h = absurd (ground arith)
any-append p (row ∷ rows) more h = elim (Bool-cases (p row)) [
  | inl hit ↦ rw hit refl
  | inr miss ↦ rw miss (any-append p rows more (ground arith))
]

module _ (p : Row → Bool) (reads : ReadsKey p) where
  any-update_rows :
      (id : ℕ) (f : MessageRecord → MessageRecord) (rows : List Row)
      → KeepsKey f
      → any p (update_rows id f rows) ≡ any p rows
  unfolding update_rows
  any-update_rows id f [] k = refl
  any-update_rows id f (row ∷ rows) k = elim (Bool-cases (row.id == id)) [
    | inl hit ↦ rw (hit, any-update_rows id f rows k) (ap (λ b. b || any p rows) (reads row f k))
    | inr miss ↦ rw (miss, any-update_rows id f rows k) refl
  ]

  Statement-any : {m m' : Messages} → Statement m m' → any p m.rows ≡ true → any p m'.rows ≡ true
  unfolding update_status update_sinks_status next_trans_id
  Statement-any (insert_row r m e) h =
      let (free, same_id, new) = create-eq-ok r m e in rw new (any-append p m.rows _ h)
  Statement-any (set_status id u m) h =
      any-update_rows id (apply_status u) m.rows (λ r. (refl, refl, refl, refl)) ∙ h
  Statement-any (set_sinks id d m) h =
      any-update_rows id (λ r. record r { sinks_status = d }) m.rows (λ r. (refl, refl, refl, refl))
      ∙ h
  Statement-any (draw_trans_id m) h = h

  Reaches-any : {m m' : Messages} → Reaches m m' → any p m.rows ≡ true → any p m'.rows ≡ true
  Reaches-any here h = h
  Reaches-any (next r s) h = Statement-any s (Reaches-any r h)

same_refnum_refl :
    (name : Text) (refnum : Option Text) (row : Row)
    → row.record_of.partner_name ≡ name
    → row.record_of.refnum ≡ refnum
    → row.record_of.direction ≡ inbound
    → given refnum ≡ true
    → is_reuse name refnum inbound row ≡ true
same_refnum_refl name none row n r d g = absurd (ground arith)
same_refnum_refl name (some v) row n r d g = rw (n, r, d, equal_refl name, equal_refl v) refl

reuse_of-any :
    (name : Text) (refnum : Option Text) (m : Messages)
    → given refnum ≡ true
    → any (is_reuse name refnum inbound) m.rows ≡ true
    → reuse_of name refnum m ≡ true
unfolding find_refnum_reuse
reuse_of-any name none m g h = absurd (ground arith)
reuse_of-any name (some v) m g h = h

-- Once a transmission is inserted, the look for duplicates finds it, by its refnum or its digest as
-- its partner is tracked, whatever statements of any requests and workers follow.
pub Reaches-is_known :
    (req : Request) (ctx : Context) (fields : EnvelopeFields) (content_digest : Text) (m : Messages)
    {id : ℕ} {m' m'' : Messages}
    → create (message_record req ctx fields content_digest) m ≡ ok (id, m')
    → Reaches m' m''
    → is_known ctx.partner fields content_digest m'' ≡ true
unfolding is_known find_duplicate message_record
Reaches-is_known req ctx fields content_digest m {id} {m'} {m''} e steps =
    let r = message_record req ctx fields content_digest in
    let (free, same_id, new) = create-eq-ok r m e in
    let row : Row = record { id = m.next_id; record_of = r } in
    elim (Bool-cases (by_refnum ctx.partner fields)) [
      | inl by ↦ rw by (
          let g : given fields.refnum ≡ true = ground arith in
          let p = is_reuse ctx.partner.name fields.refnum inbound in
          let first : any p m'.rows ≡ true = rw new (
            any-snoc p m.rows row
              (same_refnum_refl ctx.partner.name fields.refnum row refl refl refl g)) in
          reuse_of-any ctx.partner.name fields.refnum m'' g
            (Reaches-any p (is_reuse-ReadsKey ctx.partner.name fields.refnum) steps first))
      | inr plain ↦ rw plain (
          let p = is_duplicate ctx.partner.name content_digest inbound in
          let first : any p m'.rows ≡ true = rw new (
            any-snoc p m.rows row
              (rw (equal_refl ctx.partner.name, equal_refl content_digest) refl)) in
          Reaches-any p (is_duplicate-ReadsKey ctx.partner.name content_digest) steps first)
    ]
