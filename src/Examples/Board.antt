-- ===== src/Examples/Board.antt =====
-- Writes to the example board, its window, and an audit diff.
use in_work_marketing_os_bac.Base.{none, [], ◌∷◌, ◌≡◌, refl, arith, find_by, keep_if, count}
use in_work_marketing_os_bac.Errors.{ok}
use in_work_marketing_os_bac.Model.Tables.{Db, number, typed}
use in_work_marketing_os_bac.Audit.{Dict}
use in_work_marketing_os_bac.Plan.{get_for_client, get_task, add_asset}
use in_work_marketing_os_bac.Plan.Writes.{
  links, IsSound, foreign, Write-IsSound, Write-other_clients,
}
use in_work_marketing_os_bac.Access.{flush}
use in_work_marketing_os_bac.Model.Tables.{PlanTaskAsset}
use in_work_marketing_os_bac.Examples.Data.{env, db}

db-IsSound : IsSound db
unfolding count
db-IsSound = record {
  one_row = λ i. ground arith;
  ordered = ((refl, refl), tt);
  few_links = λ i. omega arith;
}

abbrev link : PlanTaskAsset
link = record { id = 90; task_id = 30; url = 98 ∷ []; label = none; position = 0 }

abbrev linked : Db
linked = record db { assets = link ∷ [] }

add_asset_ok : add_asset env db 1 30 (98 ∷ []) none ≡ ok (linked, link)
unfolding add_asset get_task get_for_client find_by count flush
add_asset_ok = refl

Write-IsSound_example : IsSound linked
Write-IsSound_example = Write-IsSound (links 30 (98 ∷ []) none link add_asset_ok) db-IsSound

Write-other_clients_example : keep_if (foreign 1) linked.tasks ≡ keep_if (foreign 1) db.tasks
Write-other_clients_example =
    Write-other_clients db-IsSound (links 30 (98 ∷ []) none link add_asset_ok)

abbrev before : Dict
before = ("title", typed (97 ∷ [])) ∷ ("due_date", number 3) ∷ []

abbrev after : Dict
after = ("title", typed (97 ∷ [])) ∷ ("due_date", number 4) ∷ []
