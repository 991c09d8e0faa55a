-- ===== src/Tests/Tables.antt =====
-- The theorems on the two tables at concrete rows.
use mathlib.Core.List.{Mem}
use automated_actions.Prelude.{◌≡◌, refl, String, none, some, [], ◌==◌, arith, if◌then◌else◌}
use automated_actions.Exec.{ok}
use automated_actions.Db.Schema.{cancelled}
use automated_actions.Db.Memory.{find}
use automated_actions.Db.Actions
use automated_actions.Db.Actions.Owned.{find_by_owner_recent}
use automated_actions.Api.General.{action_cancel}
use automated_actions.Api.General.Laws.{action_cancel-row}
use automated_actions.Tests.Setup.{an_action, database, world}

found_recently : Mem an_action (Actions.find_by_owner database "alice" none (some 60) world)
unfolding find
found_recently = find_by_owner_recent database world "alice" 60 an_action refl refl (omega arith)

action_cancel-row_example :
    (action_cancel database an_action world ≡ (
      ok (Actions.dump (record an_action { status = cancelled; updated_at = 9000000 })),
      (action_cancel database an_action world).1,
    ))
    × ((j : String)
        → Actions.stored database (action_cancel database an_action world).1 j ≡ (
            if "a-7" == j
            then some (record an_action { status = cancelled; updated_at = 9000000 })
            else Actions.stored database world j))
    × ((action_cancel database an_action world).1.queue ≡ [])
unfolding find
action_cancel-row_example = action_cancel-row database world an_action an_action refl
