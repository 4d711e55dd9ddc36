-- ===== src/Services/Auth/Validity.antt =====
-- The constraints of the tables, as an invariant: every request keeps them, whatever it raises and
-- whatever is drawn at random.
use parcel_delivery_api.Base.{◌≡◌, refl, Bool, false, List, [], ◌∷◌, arith, Bool-cases, inl, inr}
use parcel_delivery_api.Base.Rows.{All, none_of, Distinct}
use parcel_delivery_api.Base.Rows.Members.{All-map}
use parcel_delivery_api.Core.Action.Keeps.{Written}
use parcel_delivery_api.Core.Settings.{Settings}
use parcel_delivery_api.Core.Crypto.{Crypto}
use parcel_delivery_api.Core.Security.{Draw}
use parcel_delivery_api.Db.Sql.{Sql}
use parcel_delivery_api.Db.Laws.{
  Distinct-add, Distinct-update, All-add, All-update, none_of-add_keep,
}
use parcel_delivery_api.Models.User.{User, accepts_user}
use parcel_delivery_api.Models.RefreshToken.{RefreshToken, accepts_refresh_token}
use parcel_delivery_api.Models.Database.{Database}
use parcel_delivery_api.Services.Auth.{
  has_id, has_jti, revoke, replace, add_token, add_user, update_tokens, new_token,
}
use parcel_delivery_api.Services.Auth.Requests.{
  Request, registration, authentication, step, serve, FreshRequest, FreshHistory,
}
use parcel_delivery_api.Services.Auth.Invariants.{IsInvariant}
use parcel_delivery_api.Services.Auth.Served.{serve-Keeps}

module _ (sql : Sql) where
  open sql use {rows, add}

  -- Primary keys and unique columns are distinct, and every token has a user.
  pub record IsValid (s : Database sql) : Type 0 where
    pub user_ids : Distinct (λ u. u.id) (rows s.users)
    pub emails : Distinct (λ u. u.email) (rows s.users)
    pub jtis : Distinct (λ t. t.jti) (rows s.refresh_tokens)
    pub hashes : Distinct (λ t. t.token_hash) (rows s.refresh_tokens)
    pub owners :
        All (λ t. none_of (has_id t.user_id) (rows s.users) ≡ false) (rows s.refresh_tokens)

  pub update_tokens-IsValid :
      (p : RefreshToken → Bool) (f : RefreshToken → RefreshToken) (s : Database sql)
      → ((t : RefreshToken) → (f t).jti ≡ t.jti)
      → ((t : RefreshToken) → (f t).token_hash ≡ t.token_hash)
      → ((t : RefreshToken) → (f t).user_id ≡ t.user_id)
      → IsValid s
      → IsValid (update_tokens sql p f s)
  update_tokens-IsValid p f s ej eh eu v = record {
    user_ids = v.user_ids;
    emails = v.emails;
    jtis = Distinct-update sql (λ t. t.jti) p f s.refresh_tokens ej v.jtis;
    hashes = Distinct-update sql (λ t. t.token_hash) p f s.refresh_tokens eh v.hashes;
    owners =
        All-update sql (λ t. none_of (has_id t.user_id) (rows s.users) ≡ false)
          (λ t. none_of (has_id t.user_id) (rows s.users) ≡ false) p f s.refresh_tokens
          (λ t hit h. rw eu h) (λ t miss h. h) v.owners;
  }

  pub add_token-IsValid :
      (t : RefreshToken) (s : Database sql) → IsValid s → Written IsValid (add_token sql t s)
  add_token-IsValid t s v =
      elim (Bool-cases (accepts_refresh_token (rows s.users) (rows s.refresh_tokens) t)) [
        | inl e ↦ rw e (record {
          user_ids = v.user_ids;
          emails = v.emails;
          jtis = Distinct-add sql (λ t. t.jti) t s.refresh_tokens v.jtis (ground (arith, e));
          hashes =
              Distinct-add sql (λ t. t.token_hash) t s.refresh_tokens v.hashes (ground (arith, e));
          owners =
              All-add sql (λ t. none_of (has_id t.user_id) (rows s.users) ≡ false) t
                s.refresh_tokens (ground (arith, e)) v.owners;
        })
        | inr e ↦ rw e tt
      ]

  pub add_user-IsValid :
      (u : User) (s : Database sql) → IsValid s → Written IsValid (add_user sql u s)
  add_user-IsValid u s v = elim (Bool-cases (accepts_user (rows s.users) u)) [
    | inl e ↦ rw e (record {
      user_ids = Distinct-add sql (λ u. u.id) u s.users v.user_ids (ground (arith, e));
      emails = Distinct-add sql (λ u. u.email) u s.users v.emails (ground (arith, e));
      jtis = v.jtis;
      hashes = v.hashes;
      owners =
          All-map (λ t. none_of (has_id t.user_id) (rows s.users) ≡ false)
            (λ t. none_of (has_id t.user_id) (rows (add u s.users)) ≡ false) (rows s.refresh_tokens)
            (λ t h. none_of-add_keep sql (has_id t.user_id) u s.users h) v.owners;
    })
    | inr e ↦ rw e tt
  ]

module _ (sql : Sql) (crypto : Crypto) (settings : Settings) where
  -- Validity asks nothing of what is drawn: a row that collides is refused by the database.
  abbrev pub Anything : Draw → sql.Table RefreshToken → Type 0
  Anything draw tokens = Unit

  pub IsValid-IsInvariant : IsInvariant sql crypto settings (IsValid sql) Anything
  IsValid-IsInvariant = record {
    user = add_user-IsValid sql;
    issued = λ u now draw s f.
        add_token-IsValid sql (new_token sql crypto settings u draw.family_id now draw) s;
    revoked =
        λ p now s h. update_tokens-IsValid sql p (revoke now) s (λ t. refl) (λ t. refl) (λ t. refl);
    expired = λ t now s m l.
        update_tokens-IsValid sql (has_jti t.jti) (revoke now) s (λ t. refl) (λ t. refl)
          (λ t. refl);
    rotated = λ t u now draw s m l e v.
        add_token-IsValid sql (new_token sql crypto settings u t.family_id now draw)
          (update_tokens sql (has_jti t.jti) (replace now draw.jti) s)
          (update_tokens-IsValid sql (has_jti t.jti) (replace now draw.jti) s (λ x. refl)
            (λ x. refl) (λ x. refl) v);
  }

  any_request : (r : Request) (s : Database sql) → FreshRequest sql Anything r s
  any_request (registration email password salt id now draw) s = tt
  any_request (authentication email password now draw) s = tt
  any_request _ s = tt

  pub any_history :
      (rs : List Request) (s : Database sql) → FreshHistory sql crypto settings Anything rs s
  any_history [] s = tt
  any_history (r ∷ rs) s = (any_request r s, any_history rs (step sql crypto settings r s))

  -- From a valid database every history of registrations, logins, refreshes and logouts, failing
  -- ones included, leads to a valid one: user ids, emails, jtis and token hashes stay distinct, and
  -- every token has a user.
  pub serve-IsValid :
      (rs : List Request) (s : Database sql)
      → IsValid sql s
      → IsValid sql (serve sql crypto settings rs s)
  serve-IsValid rs s =
      serve-Keeps sql crypto settings (IsValid sql) Anything IsValid-IsInvariant rs s
        (any_history rs s)
