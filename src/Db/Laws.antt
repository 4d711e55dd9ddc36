-- ===== src/Db/Laws.antt =====
-- What the laws of the engine give for the predicates that the theorems use.
use parcel_delivery_api.Base.{
  ◌+◌, ◌≤◌, String, ◌≡◌, ◌∙◌, sym, ap, Bool, true, false, none, some, ◌==◌, if◌then◌else◌,
}
use mathlib.Core.Option
use parcel_delivery_api.Base.Rows.{Has, All, first, none_of, count, Distinct}
use parcel_delivery_api.Base.Rows.Members.{
  first-Has, first-true, none_of-first, All-append_cons, Has-append_cons, first-append_cons,
  first-append_cons_skip, none_of-append_cons, none_of-append_cons_keep,
}
use parcel_delivery_api.Base.Rows.Updates.{All-rewrite, first-rewrite, none_of-rewrite}
use parcel_delivery_api.Base.Rows.Keys.{Distinct-append_cons, Distinct-rewrite}
use parcel_delivery_api.Base.Rows.Counts.{count-append_cons, count-rewrite-le, count-rewrite_only}
use parcel_delivery_api.Db.Sql.{Sql}

module _ (sql : Sql) {Row : Type 0} where
  open sql use {Table, rows, scalar, add, update, scalar_lem, add_lem, update_lem}

  pub scalar-Has : (p : Row → Bool) (t : Table Row) (x : Row) → scalar p t ≡ some x → Has x (rows t)
  scalar-Has p t x h = first-Has p (rows t) x (sym (scalar_lem p t) ∙ h)

  pub scalar-true : (p : Row → Bool) (t : Table Row) (x : Row) → scalar p t ≡ some x → p x ≡ true
  scalar-true p t x h = first-true p (rows t) x (sym (scalar_lem p t) ∙ h)

  pub scalar-none : (p : Row → Bool) (t : Table Row) → scalar p t ≡ none → none_of p (rows t) ≡ true
  scalar-none p t h = none_of-first p (rows t) (sym (scalar_lem p t) ∙ h)

  pub All-add :
      (P : Row → Type 0) (r : Row) (t : Table Row) → P r → All P (rows t) → All P (rows (add r t))
  All-add P r t h a =
      let (front, back, e, e') = add_lem r t in rw e' (All-append_cons P front back r h (rw e at a))

  pub Has-add : (r : Row) (t : Table Row) → Has r (rows (add r t))
  Has-add r t = let (front, back, e, e') = add_lem r t in rw e' (Has-append_cons front back r)

  pub scalar-add :
      (p : Row → Bool) (r : Row) (t : Table Row)
      → p r ≡ true
      → none_of p (rows t) ≡ true
      → scalar p (add r t) ≡ some r
  scalar-add p r t h a =
      let (front, back, e, e') = add_lem r t in
      rw (scalar_lem, e') (first-append_cons p front back r h (rw e at a))

  pub scalar-add_skip :
      (p : Row → Bool) (r : Row) (t : Table Row) → p r ≡ false → scalar p (add r t) ≡ scalar p t
  scalar-add_skip p r t h =
      let (front, back, e, e') = add_lem r t in
      scalar_lem p (add r t)
      ∙ ap (first p) e'
      ∙ first-append_cons_skip p front back r h
      ∙ ap (first p) (sym e)
      ∙ sym (scalar_lem p t)

  pub none_of-add :
      (p : Row → Bool) (r : Row) (t : Table Row)
      → p r ≡ false
      → none_of p (rows t) ≡ true
      → none_of p (rows (add r t)) ≡ true
  none_of-add p r t h a =
      let (front, back, e, e') = add_lem r t in
      rw e' (none_of-append_cons p front back r h (rw e at a))

  pub Distinct-add :
      (key : Row → String) (r : Row) (t : Table Row)
      → Distinct key (rows t)
      → none_of (λ y. key y == key r) (rows t) ≡ true
      → Distinct key (rows (add r t))
  Distinct-add key r t d h =
      let (front, back, e, e') = add_lem r t in
      rw e' (Distinct-append_cons key front back r (rw e at d) (rw e at h))

  pub All-update :
      (P Q : Row → Type 0) (p : Row → Bool) (f : Row → Row) (t : Table Row)
      → ((x : Row) → p x ≡ true → P x → Q (f x))
      → ((x : Row) → p x ≡ false → P x → Q x)
      → All P (rows t)
      → All Q (rows (update p f t))
  All-update P Q p f t hit miss a = rw update_lem (All-rewrite p f P Q (rows t) hit miss a)

  pub scalar-update :
      (q p : Row → Bool) (f : Row → Row) (t : Table Row)
      → ((x : Row) → q (f x) ≡ q x)
      → scalar q (update p f t) ≡ Option.map (λ x. if p x then f x else x) (scalar q t)
  scalar-update q p f t h =
      scalar_lem q (update p f t)
      ∙ ap (first q) (update_lem p f t)
      ∙ first-rewrite p f q (rows t) h
      ∙ ap (Option.map (λ x. if p x then f x else x)) (sym (scalar_lem q t))

  pub none_of-update :
      (q p : Row → Bool) (f : Row → Row) (t : Table Row)
      → ((x : Row) → q (f x) ≡ q x)
      → none_of q (rows (update p f t)) ≡ none_of q (rows t)
  none_of-update q p f t h = ap (none_of q) (update_lem p f t) ∙ none_of-rewrite p f q (rows t) h

  pub Distinct-update :
      (key : Row → String) (p : Row → Bool) (f : Row → Row) (t : Table Row)
      → ((x : Row) → key (f x) ≡ key x)
      → Distinct key (rows t)
      → Distinct key (rows (update p f t))
  Distinct-update key p f t h d = rw update_lem (Distinct-rewrite key p f (rows t) h d)

  pub none_of-add_keep :
      (p : Row → Bool) (r : Row) (t : Table Row)
      → none_of p (rows t) ≡ false
      → none_of p (rows (add r t)) ≡ false
  none_of-add_keep p r t h =
      let (front, back, e, e') = add_lem r t in
      rw e' (none_of-append_cons_keep p front back r (rw e at h))

  pub count-add :
      (p : Row → Bool) (r : Row) (t : Table Row)
      → count p (rows (add r t)) ≡ (if p r then 1 else 0) + count p (rows t)
  count-add p r t =
      let (front, back, e, e') = add_lem r t in
      rw e'
        (count-append_cons p front back r ∙ ap (λ l. (if p r then 1 else 0) + count p l) (sym e))

  pub count-update-le :
      (q p : Row → Bool) (f : Row → Row) (t : Table Row)
      → ((x : Row) → q (f x) ≡ true → q x ≡ true)
      → count q (rows (update p f t)) ≤ count q (rows t)
  count-update-le q p f t h = rw update_lem (count-rewrite-le q p f (rows t) h)

  pub count-update_only :
      (q p : Row → Bool) (f : Row → Row) (t : Table Row) (x : Row)
      → ((y : Row) → q (f y) ≡ false)
      → Has x (rows t)
      → q x ≡ true
      → p x ≡ true
      → count q (rows t) ≤ 1
      → count q (rows (update p f t)) ≡ 0
  count-update_only q p f t x h m e e' le =
      rw update_lem (count-rewrite_only q p f (rows t) x h m e e' le)
