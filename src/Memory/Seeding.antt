-- ===== src/Memory/Seeding.antt =====
-- The tables of the seed script as lists.
use hotel_crm.Prelude.{
  ◌≡◌, refl, Bool, true, false, Option, none, some, List, ◌∷◌, ◌⊎◌, inl, inr, Memᴰ, All, All-at,
  change, arith, if◌then◌else◌, Option-cases, Bool-cases,
}
use hotel_crm.Platform.Results.{Outcome, ok, err, prisma}
use hotel_crm.Seed.Tables.{Upserts}
use hotel_crm.Seed.Script.{Client}
use hotel_crm.Memory.Rows.{first, first-some, first-none, refused}

module _ {Row : Type 0} (conflict : Row → Row → Bool) where
  abbrev found_or_new :
      Option Row → (Row → Bool) → (Row → Row) → Row → List Row → Outcome Row × List Row
  found_or_new (some r) q f new rows = (ok (f r), change q f rows)
  found_or_new none q f new rows =
      if refused conflict new rows then (err (prisma "P2002"), rows) else (ok new, new ∷ rows)

  abbrev upsert : (Row → Bool) → (Row → Row) → Row → List Row → Outcome Row × List Row
  upsert q f new rows = found_or_new (first q rows) q f new rows

  pub upsert-ok :
      (q : Row → Bool) (f : Row → Row) (new a : Row) (rows rows' : List Row)
      → upsert q f new rows ≡ (ok a, rows')
      → ((r : Row) × Memᴰ r rows × (q r ≡ true) × (a ≡ f r) × (rows' ≡ change q f rows))
        ⊎ ((a ≡ new) × (rows' ≡ new ∷ rows) × All (λ x. q x ≡ false) rows)
  upsert-ok q f new a rows rows' h = elim (Option-cases (first q rows)) [
    | inr (r, e) ↦
        let (m, _, t) = first-some (λ x. true) q rows r e in
        let h' : (ok (f r), change q f rows) ≡ (ok a, rows') = rw e at h in
        inl (r, m, t, ground (arith, h'), ground (arith, h'))
    | inl e ↦ elim (Bool-cases (refused conflict new rows)) [
      | inl g ↦ absurd (ground (arith, rw (e, g) at h))
      | inr g ↦
          let h' : (ok new, new ∷ rows) ≡ (ok a, rows') = rw (e, g) at h in
          inr (ground (arith, h'), ground (arith, h'), first-none q rows e)
    ]
  ]

  pub upsert-found :
      (q : Row → Bool) (f : Row → Row) (new r : Row) (rows : List Row)
      → Memᴰ r rows
      → q r ≡ true
      → (a : Row) × (upsert q f new rows ≡ (ok a, change q f rows))
  upsert-found q f new r rows m t = elim (Option-cases (first q rows)) [
    | inr (s, e) ↦ (f s, rw e refl)
    | inl e ↦
        let missed = All-at (λ x. q x ≡ false) rows (first-none q rows e) m in
        absurd (ground (arith, t, missed))
  ]

  abbrev pub listed : Upserts Row conflict
  listed = record {
    upsert = upsert;
    upsert-ok = upsert-ok;
    upsert-found = λ q f new r rows m t s. upsert-found q f new r rows m t;
  }

abbrev pub client : Client
client = record {
  tenant = listed _;
  user = listed _;
  guest = listed _;
  conversation = listed _;
  message = listed _;
  ticket = listed _;
  bcrypt_hash = λ salt rounds password. password;
  clock = λ n. n;
}
