-- ===== src/Migrations/Upserted.antt =====
-- What the INSERT of the seed migration does to the rows of parcel_type, one value after another.
use mathlib.Core.List.{map-id}
use parcel_delivery_api.Base.{
  ◌≡◌, refl, sym, ap, ◌∙◌, inl, inr, String, Bool, true, false, ◌||◌, not, List, [], ◌∷◌, ◌++◌,
  ◌==◌, arith, Option-cases, Bool-cases, eq_refl, eq_iff, eq-false_of_ne, ne_of_eq-false,
}
use parcel_delivery_api.Base.Rows.{Has, All, Distinct, none_of, rewrite, select}
use parcel_delivery_api.Base.Rows.Members.{
  Has-append_cons, none_of-append_cons, Has-none_of, All-of_Has, All-Has,
}
use parcel_delivery_api.Base.Rows.OneRow.{map-rewrite_one}
use parcel_delivery_api.Base.Rows.Keys.{Distinct-append_cons}
use parcel_delivery_api.Db.Sql.{Sql}
use parcel_delivery_api.Db.Laws.{scalar-Has, scalar-true, scalar-none}
use parcel_delivery_api.Models.ParcelType.{ParcelType}
use parcel_delivery_api.Migrations.Seed.{is_default, same_key, insert_or_rename, insert_all}

abbrev pub FreshId : List ParcelType → ParcelType → Type 0
FreshId xs v = none_of (λ t. t.id == v.id) xs ≡ true

-- What becomes of the rows by the insertion of one value: they stay, since one of them has the name,
-- or none has it and the value is a new row.
pub data Upserted (v : ParcelType) (xs : List ParcelType) : List ParcelType → Type 0 where
  kept : (r : ParcelType) → Has r xs → r.name ≡ v.name → Upserted v xs xs
  inserted :
      (front back : List ParcelType)
      → xs ≡ front ++ back
      → none_of (λ t. t.name == v.name) xs ≡ true
      → Upserted v xs (front ++ (v ∷ back))

none_of-or :
    (p q : ParcelType → Bool) (xs : List ParcelType)
    → none_of (λ t. p t || q t) xs ≡ true
    → none_of q xs ≡ true
none_of-or p q [] h = refl
none_of-or p q (x ∷ xs) h = ground (arith, none_of-or p q xs)

Has-false :
    (p : ParcelType → Bool) (xs : List ParcelType) (x : ParcelType)
    → none_of p xs ≡ true
    → Has x xs
    → p x ≡ false
Has-false p xs x h m = elim (Bool-cases (p x)) [
  | inl e ↦ absurd (ground (arith, Has-none_of p xs x m e))
  | inr e ↦ e
]

rename_same :
    (r : ParcelType) (n : String) (xs : List ParcelType)
    → Distinct (λ t. t.id) xs
    → Has r xs
    → r.name ≡ n
    → rewrite (λ t. t.id == r.id) (λ t. record t { name = n }) xs ≡ xs
rename_same r n xs d m e =
    sym (map-id _)
    ∙ map-rewrite_one (λ t. t.id) (λ t. record t { name = n }) (λ t. t) xs r d m
        (ap (λ s. record r { name = s }) (sym e))
    ∙ map-id xs

pub eq-false_sym : (s t : String) → (s == t) ≡ false → (t == s) ≡ false
eq-false_sym s t h = eq-false_of_ne t s (λ e. ne_of_eq-false s t h (sym e))

Has-skip :
    (front back : List ParcelType) (v r : ParcelType)
    → Has r (front ++ back)
    → Has r (front ++ (v ∷ back))
Has-skip [] back v r m = inr m
Has-skip (x ∷ front) back v r (inl e) = inl e
Has-skip (x ∷ front) back v r (inr m) = inr (Has-skip front back v r m)

select-skip :
    (p : ParcelType → Bool) (front back : List ParcelType) (v : ParcelType)
    → p v ≡ false
    → select p (front ++ (v ∷ back)) ≡ select p (front ++ back)
select-skip p [] back v h = rw h refl
select-skip p (x ∷ front) back v h = ground (arith, select-skip p front back v h)

abbrev pub others : List ParcelType → List ParcelType
others = select (λ t. not (is_default t))

module _ (v : ParcelType) (xs : List ParcelType) where
  Upserted-Has : (ys : List ParcelType) → Upserted v xs ys → (r : ParcelType) → Has r xs → Has r ys
  Upserted-Has _ (kept r m e) q h = h
  Upserted-Has _ (inserted front back e f) q h = Has-skip front back v q (rw e at h)

  Upserted-name :
      (ys : List ParcelType) → Upserted v xs ys → (r : ParcelType) × Has r ys × (r.name ≡ v.name)
  Upserted-name _ (kept r m e) = (r, m, e)
  Upserted-name _ (inserted front back e f) = (v, Has-append_cons front back v, refl)

  Upserted-others :
      (ys : List ParcelType) → is_default v ≡ true → Upserted v xs ys → others ys ≡ others xs
  Upserted-others _ d (kept r m e) = refl
  Upserted-others _ d (inserted front back e f) =
      select-skip (λ t. not (is_default t)) front back v (ap not d) ∙ ap others (sym e)

  Upserted-FreshId :
      (ys : List ParcelType)
      → (w : ParcelType) → (v.id == w.id) ≡ false
      → FreshId xs w
      → Upserted v xs ys
      → FreshId ys w
  Upserted-FreshId _ w n h (kept r m e) = h
  Upserted-FreshId _ w n h (inserted front back e f) =
      none_of-append_cons (λ t. t.id == w.id) front back v n (rw e at h)

  Upserted-ids :
      (ys : List ParcelType)
      → Distinct (λ t. t.id) xs
      → FreshId xs v
      → Upserted v xs ys
      → Distinct (λ t. t.id) ys
  Upserted-ids _ d h (kept r m e) = d
  Upserted-ids _ d h (inserted front back e f) =
      Distinct-append_cons (λ t. t.id) front back v (rw e at d) (rw e at h)

  Upserted-names :
      (ys : List ParcelType)
      → Distinct (λ t. t.name) xs
      → Upserted v xs ys
      → Distinct (λ t. t.name) ys
  Upserted-names _ d (kept r m e) = d
  Upserted-names _ d (inserted front back e f) =
      Distinct-append_cons (λ t. t.name) front back v (rw e at d) (rw e at f)

  -- A value whose name is there changes nothing.
  pub Upserted-same :
      (ys : List ParcelType)
      → (r : ParcelType) → Has r xs
      → r.name ≡ v.name
      → Upserted v xs ys
      → ys ≡ xs
  Upserted-same _ r m e (kept q n f) = refl
  Upserted-same _ r m e (inserted front back g f) =
      absurd (ground (arith, Has-none_of (λ t. t.name == v.name) xs r m (rw e (eq_refl v.name))))

-- What a table has become by the insertion of values, the names of which are defaults.
pub record Grown (vs xs ys : List ParcelType) : Type 0 where
  pub stays : (r : ParcelType) → Has r xs → Has r ys
  pub found : (v : ParcelType) → Has v vs → (r : ParcelType) × Has r ys × (r.name ≡ v.name)
  pub rest : others ys ≡ others xs
  pub ids : Distinct (λ t. t.id) ys
  pub names : Distinct (λ t. t.name) ys

-- The values can be inserted: their ids are new, and differ.
pub record Drawn (vs xs : List ParcelType) : Type 0 where
  pub fresh : All (FreshId xs) vs
  pub apart : Distinct (λ t. t.id) vs

module _ (sql : Sql) where
  open sql use {Table, rows, add, scalar, update, delete, add_lem, update_lem, delete_lem}

  pub Upserted-insert :
      (v : ParcelType) (types : Table ParcelType)
      → Distinct (λ t. t.id) (rows types)
      → FreshId (rows types) v
      → Upserted v (rows types) (rows (insert_or_rename sql v types))
  Upserted-insert v types d f = elim (Option-cases (scalar (same_key v) types)) [
    | inl e ↦
        let (front, back, o, o') = add_lem v types in
        let unnamed =
          none_of-or (λ t. t.id == v.id) (λ t. t.name == v.name) (rows types)
            (scalar-none sql (same_key v) types e) in
        rw (insert_or_rename, e, o') (inserted front back o unnamed)
    | inr (r, e) ↦
        let m = scalar-Has sql (same_key v) types r e in
        let other : (r.id == v.id) ≡ false = Has-false (λ t. t.id == v.id) (rows types) r f m in
        let named : r.name ≡ v.name =
          (eq_iff r.name v.name).0
            (ground (arith, other, scalar-true sql (same_key v) types r e)) in
        rw (insert_or_rename, e, update_lem, rename_same r v.name (rows types) d m named)
          (kept r m named)
  ]

  pub insert_all-Grown :
      (vs : List ParcelType) (types : Table ParcelType)
      → Distinct (λ t. t.id) (rows types)
      → Distinct (λ t. t.name) (rows types)
      → Drawn vs (rows types)
      → All (λ v. is_default v ≡ true) vs
      → Grown vs (rows types) (rows (insert_all sql vs types))
  insert_all-Grown [] types d n w a = record {
    stays = λ r m. m;
    found = λ v m. absurd m;
    rest = refl;
    ids = d;
    names = n;
  }
  insert_all-Grown (v ∷ vs) types d n w (a, all_a) =
      let next = insert_or_rename sql v types in
      let u = Upserted-insert v types d w.fresh.0 in
      let tail =
        insert_all-Grown vs next (Upserted-ids v (rows types) (rows next) d w.fresh.0 u)
          (Upserted-names v (rows types) (rows next) n u)
          (record {
            fresh = All-of_Has (FreshId (rows next)) vs (λ q m.
                Upserted-FreshId v (rows types) (rows next) q
                  (eq-false_sym q.id v.id (Has-false (λ t. t.id == v.id) vs q w.apart.0 m))
                  (All-Has (FreshId (rows types)) vs q w.fresh.1 m) u);
            apart = w.apart.1;
          })
          all_a in
      record {
        stays = λ r m. tail.stays r (Upserted-Has v (rows types) (rows next) u r m);
        found = λ q m. elim m [
          | inl e ↦
              let (r, k, named) = Upserted-name v (rows types) (rows next) u in
              (r, tail.stays r k, named ∙ ap (λ t. t.name) (sym e))
          | inr k ↦ tail.found q k
        ];
        rest = tail.rest ∙ Upserted-others v (rows types) (rows next) a u;
        ids = tail.ids;
        names = tail.names;
      }
