-- ===== src/Services/Parcel/Spec/Meaning.antt =====
-- The tests of app/services/parcel.py say what the specification's predicates say.
use mathlib.Core.Bool.{true≢false}
use parcel_delivery_api.Base.{
  ◌≡◌, ◌↔◌, refl, sym, ◌∙◌, inl, inr, String, Bool, true, false, Option, none, some, arith, ◌==◌,
  eq_iff, ne_of_eq-false, Bool-cases, is_text, ◌&&◌,
}
use parcel_delivery_api.Core.Settings.{Settings}
use parcel_delivery_api.Db.Sql.{Sql}
use parcel_delivery_api.Models.Parcel.{Parcel}
use parcel_delivery_api.Services.Parcel.{
  ParcelFilterParams, owned_by, matches, type_matches, cost_matches, conditions,
}
use parcel_delivery_api.Services.Parcel.Spec.{Belongs, OfType, Priced, Wanted}

some_text : (a b : String) → ◌≡◌ {A = Option String} (some a) (some b) → a ≡ b
some_text a b h = ground (arith, h)

none_text : (a : String) → ◌≡◌ {A = Option String} none (some a) → ⊥
none_text a h = ground (arith, h)

is_text_iff : (o : Option String) (t : String) → (is_text o t ≡ true) ↔ (o ≡ some t)
is_text_iff none t = (λ h. absurd (true≢false (sym h)), λ h. absurd (none_text t h))
is_text_iff (some s) t = (λ h. rw ((eq_iff s t).0 h) refl, λ h. (eq_iff s t).1 (some_text s t h))

both_iff : (a b : Bool) → ((a && b) ≡ true) ↔ ((a ≡ true) × (b ≡ true))
both_iff a b = ground arith

module _ (settings : Settings) where
  pub owned_by-Belongs :
      (owner : String) (p : Parcel) → (owned_by settings owner p ≡ true) ↔ Belongs settings owner p
  unfolding owned_by
  owned_by-Belongs owner p = elim (Bool-cases settings.auth_required) [
    | inl e ↦
        let (to, from) = is_text_iff p.user_id owner in
        rw e (λ h. (λ _. to h, λ k. absurd (true≢false k)), λ h. from (h.0 refl))
    | inr e ↦
        let (to, from) = eq_iff p.session_id owner in
        rw e (λ h. (λ k. absurd (true≢false (sym k)), λ _. to h), λ h. from (h.1 refl))
  ]

  type_matches-OfType :
      (o : Option String) (p : Parcel) → (type_matches o p ≡ true) ↔ OfType settings o p
  type_matches-OfType none p = (λ _ t h. absurd (none_text t h), λ _. refl)
  type_matches-OfType (some t) p =
      let (to, from) = eq_iff p.parcel_type_id t in
      elim (Bool-cases (t == "")) [
        | inl e ↦
            rw e (λ _ u h ne. absurd (ne (sym (some_text t u h) ∙ (eq_iff t "").0 e)), λ _. refl)
        | inr e ↦
            rw e (λ h u k _. to h ∙ some_text t u k, λ h. from (h t refl (ne_of_eq-false t "" e)))
      ]

  cost_matches-Priced :
      (o : Option Bool) (p : Parcel) → (cost_matches o p ≡ true) ↔ Priced settings o p
  cost_matches-Priced none p = ground arith
  cost_matches-Priced (some true) p = ground arith
  cost_matches-Priced (some false) p = ground arith

  module _ (sql : Sql) where
    pub conditions-Wanted :
        (owner : String) (filters : ParcelFilterParams) (p : Parcel)
        → (conditions sql settings owner filters p ≡ true) ↔ Wanted settings owner filters p
    unfolding matches
    conditions-Wanted owner filters p =
        let (a, a') = owned_by-Belongs owner p in
        let (b, b') = type_matches-OfType filters.type_id p in
        let (c, c') = cost_matches-Priced filters.has_cost p in
        let (d, d') = both_iff (owned_by settings owner p) (matches filters p) in
        let (e, e') = both_iff (type_matches filters.type_id p) (cost_matches filters.has_cost p) in
        (
          λ h. let (o, m) = d h in let (t, k) = e m in (a o, b t, c k),
          λ (o, t, k). d' (a' o, e' (b' t, c' k)),
        )
