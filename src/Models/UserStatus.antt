-- ===== src/Models/UserStatus.antt =====
-- lala-agent/src/models/auth.rs: the status of a user's account, which its table holds as text.
use lala_search.Prelude.{Option, none, some, if◌then◌else◌}
use lala_search.Prelude.Text.{Text, codes, text_eq}

pub data UserStatus : Type 0 where
  active suspended deleted : UserStatus

unfoldable pub as_str : UserStatus → Text
as_str active = codes "active"
as_str suspended = codes "suspended"
as_str deleted = codes "deleted"

unfoldable pub parse : Text → Option UserStatus
parse s =
    if text_eq s (codes "active")
    then some active
    else if text_eq s (codes "suspended")
    then some suspended
    else if text_eq s (codes "deleted")
    then some deleted
    else none
