-- ===== src/Db/Insert.antt =====
-- `session.add(row)` up to the flush: the constraints that the model declares refuse the row, or
-- the engine stores it.
use parcel_delivery_api.Base.{Bool, Option, none, some, List, if◌then◌else◌}
use parcel_delivery_api.Db.Sql.{Sql}

module _ (sql : Sql) {Row : Type 0} where
  open sql use {Table, rows, add}

  abbrev pub insert : (List Row → Row → Bool) → Row → Table Row → Option (Table Row)
  insert accepts r t = if accepts (rows t) r then some (add r t) else none
