-- ===== src/Services/Auth/Permanence.antt =====
-- A revocation is permanent: no request changes the row of a token that was revoked.
use parcel_delivery_api.Base.{
  ◌≡◌, refl, sym, ap, ◌∙◌, Bool, true, false, some, List, arith, ◌==◌, eq_iff, Bool-cases, inl, inr,
}
use mathlib.Core.Bool.{true≢false}
use mathlib.Core.Option.{some-injective}
use parcel_delivery_api.Base.Rows.{Has, none_of, first}
use parcel_delivery_api.Base.Rows.Members.{Has-none_of}
use parcel_delivery_api.Base.Rows.Keys.{first-Has-Distinct}
use parcel_delivery_api.Core.Action.Keeps.{Written}
use parcel_delivery_api.Core.Settings.{Settings}
use parcel_delivery_api.Core.Crypto.{Crypto}
use parcel_delivery_api.Db.Sql.{Sql}
use parcel_delivery_api.Db.Laws.{scalar-update, scalar-add_skip, scalar-Has}
use parcel_delivery_api.Models.User.{User, accepts_user}
use parcel_delivery_api.Models.RefreshToken.{RefreshToken, accepts_refresh_token}
use parcel_delivery_api.Models.Database.{Database}
use parcel_delivery_api.Services.Auth.{
  has_jti, is_live, revoke, replace, add_token, add_user, update_tokens, new_token,
}
use parcel_delivery_api.Services.Auth.Requests.{Request, serve}
use parcel_delivery_api.Services.Auth.Invariants.{IsInvariant}
use parcel_delivery_api.Services.Auth.Served.{serve-Keeps}
use parcel_delivery_api.Services.Auth.Validity.{
  IsValid, Anything, any_history, IsValid-IsInvariant, add_token-IsValid, add_user-IsValid,
  update_tokens-IsValid,
}

module _ (sql : Sql) (t : RefreshToken) (dead : is_live t ≡ false) where
  open sql use {rows, scalar, scalar_lem}

  -- The database is valid and holds exactly this row under the jti of the token.
  pub record Holds (s : Database sql) : Type 0 where
    pub valid : IsValid sql s
    pub row : scalar (has_jti t.jti) s.refresh_tokens ≡ some t

  update-Holds :
      (p : RefreshToken → Bool) (f : RefreshToken → RefreshToken) (s : Database sql)
      → ((x : RefreshToken) → (f x).jti ≡ x.jti)
      → p t ≡ false
      → IsValid sql (update_tokens sql p f s)
      → Holds s
      → Holds (update_tokens sql p f s)
  update-Holds p f s ej miss v h = record {
    valid = v;
    row =
        scalar-update sql (has_jti t.jti) p f s.refresh_tokens (λ x. ap (λ j. j == t.jti) (ej x))
        ∙ rw (h.row, miss) refl;
  }

  -- The row of a live token has another jti.
  jti-ne :
      (x : RefreshToken) (s : Database sql)
      → Has x (rows s.refresh_tokens)
      → is_live x ≡ true
      → Holds s
      → has_jti x.jti t ≡ false
  jti-ne x s m l h = elim (Bool-cases (t.jti == x.jti)) [
    | inl e ↦
        let here : first (has_jti t.jti) (rows s.refresh_tokens) ≡ some t =
          sym (scalar_lem (has_jti t.jti) s.refresh_tokens) ∙ h.row in
        let there = first-Has-Distinct (λ y. y.jti) (rows s.refresh_tokens) x h.valid.jtis m in
        let same = ap (λ j. first (has_jti j) (rows s.refresh_tokens)) ((eq_iff t.jti x.jti).0 e) in
        absurd (
          true≢false (sym l ∙ ap is_live (some-injective x t (sym there ∙ sym same ∙ here)) ∙ dead))
    | inr e ↦ e
  ]

  -- A row that the constraints accept has another jti.
  new_jti-ne :
      (x : RefreshToken) (s : Database sql)
      → none_of (has_jti x.jti) (rows s.refresh_tokens) ≡ true
      → Holds s
      → has_jti t.jti x ≡ false
  new_jti-ne x s n h = elim (Bool-cases (x.jti == t.jti)) [
    | inl e ↦ absurd (
        true≢false (
          sym n
          ∙ Has-none_of (has_jti x.jti) (rows s.refresh_tokens) t
              (scalar-Has sql (has_jti t.jti) s.refresh_tokens t h.row)
              (ground (arith, e, eq_iff x.jti t.jti, eq_iff t.jti x.jti))))
    | inr e ↦ e
  ]

  add_token-Holds :
      (x : RefreshToken) (s : Database sql) → Holds s → Written Holds (add_token sql x s)
  add_token-Holds x s h =
      elim (Bool-cases (accepts_refresh_token (rows s.users) (rows s.refresh_tokens) x)) [
        | inl e ↦ rw e (record {
          valid = rw e at (add_token-IsValid sql x s h.valid);
          row =
              scalar-add_skip sql (has_jti t.jti) x s.refresh_tokens
                (new_jti-ne x s (ground (arith, e)) h)
              ∙ h.row;
        })
        | inr e ↦ rw e tt
      ]

  add_user-Holds : (u : User) (s : Database sql) → Holds s → Written Holds (add_user sql u s)
  add_user-Holds u s h = elim (Bool-cases (accepts_user (rows s.users) u)) [
    | inl e ↦ rw e (record { valid = rw e at (add_user-IsValid sql u s h.valid); row = h.row })
    | inr e ↦ rw e tt
  ]

module _ (sql : Sql) (crypto : Crypto) (settings : Settings) (t : RefreshToken)
    (dead : is_live t ≡ false) where
  open sql use {rows, scalar}

  Holds-IsInvariant :
      IsInvariant sql crypto settings (Holds sql t dead) (Anything sql crypto settings)
  Holds-IsInvariant =
      let base = IsValid-IsInvariant sql crypto settings in
      record {
        user = add_user-Holds sql t dead;
        issued = λ u now draw s f.
            add_token-Holds sql t dead (new_token sql crypto settings u draw.family_id now draw) s;
        revoked = λ p now s only h.
            update-Holds sql t dead p (revoke now) s (λ x. refl) (dead_miss p only)
              (base.revoked p now s only h.valid) h;
        expired = λ x now s m l h.
            update-Holds sql t dead (has_jti x.jti) (revoke now) s (λ y. refl)
              (jti-ne sql t dead x s m l h) (base.expired x now s m l h.valid) h;
        rotated = λ x u now draw s m l e h.
            add_token-Holds sql t dead (new_token sql crypto settings u x.family_id now draw)
              (update_tokens sql (has_jti x.jti) (replace now draw.jti) s)
              (update-Holds sql t dead (has_jti x.jti) (replace now draw.jti) s (λ y. refl)
                (jti-ne sql t dead x s m l h)
                (update_tokens-IsValid sql (has_jti x.jti) (replace now draw.jti) s (λ y. refl)
                  (λ y. refl) (λ y. refl) h.valid)
                h);
      }
    where
      dead_miss :
          (p : RefreshToken → Bool)
          → ((x : RefreshToken) → p x ≡ true → is_live x ≡ true)
          → p t ≡ false
      dead_miss p only = elim (Bool-cases (p t)) [
        | inl e ↦ absurd (true≢false (sym (only t e) ∙ dead))
        | inr e ↦ e
      ]

  -- In a valid database, once a token is revoked, no history of requests changes its row: it stays
  -- revoked, from the same time and with the same successor.
  pub revoked_forever :
      (rs : List Request) (s : Database sql)
      → IsValid sql s
      → scalar (has_jti t.jti) s.refresh_tokens ≡ some t
      → scalar (has_jti t.jti) (serve sql crypto settings rs s).refresh_tokens ≡ some t
  revoked_forever rs s v h =
      let start : Holds sql t dead s = record { valid = v; row = h } in
      (serve-Keeps sql crypto settings (Holds sql t dead) (Anything sql crypto settings)
        Holds-IsInvariant rs s (any_history sql crypto settings rs s) start).row
