-- ===== src/Models/UserRole.antt =====
-- lala-agent/src/models/auth.rs: the role of a user in an organization, which its table holds as
-- text, and what each role may do.
use lala_search.Prelude.{Bool, true, false, ◌≡◌, refl, Option, none, some, if◌then◌else◌}
use lala_search.Prelude.Text.{Text, codes, text_eq}

pub data UserRole : Type 0 where
  owner admin member : UserRole

unfoldable pub as_str : UserRole → Text
as_str owner = codes "owner"
as_str admin = codes "admin"
as_str member = codes "member"

unfoldable pub parse : Text → Option UserRole
parse s =
    if text_eq s (codes "owner")
    then some owner
    else if text_eq s (codes "admin")
    then some admin
    else if text_eq s (codes "member")
    then some member
    else none

unfoldable pub can_invite : UserRole → Bool
can_invite owner = true
can_invite admin = true
can_invite member = false

unfoldable pub can_manage_settings : UserRole → Bool
can_manage_settings owner = true
can_manage_settings admin = true
can_manage_settings member = false

unfoldable pub can_remove_members : UserRole → Bool
can_remove_members owner = true
can_remove_members admin = true
can_remove_members member = false

-- `==` of the derived `PartialEq`
unfoldable pub role_eq : UserRole → UserRole → Bool
role_eq owner owner = true
role_eq admin admin = true
role_eq member member = true
role_eq _ _ = false

pub parse-as_str : (r : UserRole) → parse (as_str r) ≡ some r
unfolding parse as_str text_eq
parse-as_str owner = refl
parse-as_str admin = refl
parse-as_str member = refl
