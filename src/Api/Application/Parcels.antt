-- ===== src/Api/Application/Parcels.antt =====
-- What the handlers of parcels and parcel types raise.
use parcel_delivery_api.Base.{refl, String, Option, none, some, List}
use parcel_delivery_api.Core.Exceptions.{Failure, data_error}
use parcel_delivery_api.Core.Action.{Result, ok, raised}
use parcel_delivery_api.Core.Action.Ends.{
  Post, Post-option, Fails, Ends-pure, Ends-if, Ends-commit, Ends-bind,
}
use parcel_delivery_api.Core.Settings.{Settings}
use parcel_delivery_api.Db.Sql.{Sql}
use parcel_delivery_api.Models.Parcel.{Parcel, columns}
use parcel_delivery_api.Models.Database.{Database}
use parcel_delivery_api.Services.Parcel.{
  ParcelCreate, ParcelFilterParams, commit_new, create_from_dto, get_owned, list_owned,
  stored_columns, check_owner,
}
use parcel_delivery_api.Services.ParcelType.{list_all, total}
use parcel_delivery_api.Api.Errors.{reply_to}
use parcel_delivery_api.Api.Parcel.{
  PaginationParams, register_parcel, list_parcels, get_parcel, list_parcel_types, http_error,
  rename_failure,
}
use parcel_delivery_api.Api.Documented.{Response, register_parcel_responses, get_parcel_responses}
use parcel_delivery_api.Api.Application.Failures.{Accounted, lifted}

module _ (sql : Sql) (settings : Settings) where
  stored_columns-Post :
      (docs : List Response) (p : Parcel)
      → Post (λ _. Unit) (Accounted docs) (stored_columns sql settings p)
  unfolding Accounted reply_to
  stored_columns-Post docs p = Post-option (Accounted docs) data_error (columns sql p) refl

  commit_new-Fails :
      (docs : List Response) (p : Parcel) (s : Database sql)
      → Fails (Accounted docs) (commit_new sql settings p) s
  unfolding commit_new Accounted reply_to
  commit_new-Fails docs p s = search (Ends-bind, Ends-commit, lifted, stored_columns-Post)

  create_from_dto-Fails :
      (body : ParcelCreate) (owner_id id : String) (s : Database sql)
      → Fails
          (Accounted register_parcel_responses)
          (create_from_dto sql settings body owner_id id)
          s
  unfolding create_from_dto Accounted reply_to
  create_from_dto-Fails body owner_id id s = search (Ends-bind, Ends-if, commit_new-Fails)

  pub register_parcel-Fails :
      (body : ParcelCreate) (owner_id id : String) (s : Database sql)
      → Fails
          (Accounted register_parcel_responses)
          (register_parcel sql settings body owner_id id)
          s
  unfolding register_parcel
  register_parcel-Fails body owner_id id s = search (Ends-bind, Ends-pure, create_from_dto-Fails)

  pub list_parcels-Fails :
      (E : Failure → Type 0) (pagination : PaginationParams) (filters : ParcelFilterParams)
      (owner_id : String) (s : Database sql)
      → Fails E (list_parcels sql settings pagination filters owner_id) s
  unfolding list_parcels list_owned
  list_parcels-Fails E pagination filters owner_id s = record { at = tt }

  pub list_parcel_types-Fails :
      (E : Failure → Type 0) (pagination : PaginationParams) (s : Database sql)
      → Fails E (list_parcel_types sql pagination) s
  unfolding list_parcel_types list_all total
  list_parcel_types-Fails E pagination s = record { at = tt }

  check_owner-Fails :
      (owner_id : String) (o : Option Parcel) (s : Database sql)
      → Fails
          (λ e. Accounted get_parcel_responses (http_error sql settings e))
          (check_owner sql settings owner_id o)
          s
  unfolding Accounted reply_to
  check_owner-Fails owner_id none s = record { at = refl }
  check_owner-Fails owner_id (some p) s = search (Ends-if, Ends-pure)

  rename_failure-Post :
      (E : Failure → Type 0) (r : Result Parcel × Database sql)
      → Post (λ _. Unit) (λ e. E (http_error sql settings e)) r.0
      → Post (λ _. Unit) E (rename_failure sql settings r).0
  rename_failure-Post E (ok p, s) h = tt
  rename_failure-Post E (raised e, s) h = h

  pub get_parcel-Fails :
      (parcel_id owner_id : String) (s : Database sql)
      → Fails (Accounted get_parcel_responses) (get_parcel sql settings parcel_id owner_id) s
  unfolding get_parcel get_owned
  get_parcel-Fails parcel_id owner_id s = record {
    at =
        rename_failure-Post (Accounted get_parcel_responses)
          (get_owned sql settings parcel_id owner_id s) (check_owner-Fails owner_id _ s).at;
  }
