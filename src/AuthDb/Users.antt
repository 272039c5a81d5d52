-- ===== src/AuthDb/Users.antt =====
-- lala-agent/src/services/auth_db.rs: users, and the tenants that other tables refer to.
use lala_search.Prelude.{
  ℕ, Bool, true, false, not, ◌&&◌, Option, none, some, unwrap_or, is_none, List, [], ◌∷◌, ◌++◌, map,
  ◌==◌, if◌then◌else◌,
}
use lala_search.Prelude.Text.{Text, codes, text_eq}
use lala_search.Prelude.Table.{select_one, select_all, exists_row, update_rows}
use mathlib.Core.Option
use lala_search.Models.UserStatus
use lala_search.Models.UserStatus.{active}
use lala_search.Models.Auth.{User}
use lala_search.Models.Rows.{UserRow, TenantRow}
use lala_search.World.{Database, Env, M, pure, draw_uuid, fetch, write, write_if, ◌>>=◌, ◌>>◌}

-- The struct that a row is read as.
abbrev pub to_user : UserRow → User
to_user r = record {
  user_id = r.user_id;
  email = r.email;
  email_verified = r.email_verified;
  created_at = r.created_at;
  updated_at = r.updated_at;
  last_login_at = r.last_login_at;
  status = unwrap_or (UserStatus.parse r.status) active;
}

abbrev pub has_email : Text → UserRow → Bool
has_email email r = text_eq r.email email && is_none r.deleted_at

abbrev pub has_user_id : ℕ → UserRow → Bool
has_user_id user_id r = (r.user_id == user_id) && is_none r.deleted_at

abbrev pub listed : ℕ → List ℕ → Bool
listed i [] = false
listed i (j ∷ js) = if j == i then true else listed i js

-- What a foreign key into `users` or `tenants` asks for.
abbrev pub user_exists : ℕ → Database → Bool
user_exists user_id d = exists_row (λ (r : UserRow). r.user_id == user_id) d.users

abbrev pub tenant_exists : ℕ → Database → Bool
tenant_exists tenant_id d = exists_row (λ (r : TenantRow). r.tenant_id == tenant_id) d.tenants

abbrev pub new_user : ℕ → Text → ℕ → UserRow
new_user user_id email t = record {
  user_id = user_id;
  email = email;
  email_verified = false;
  created_at = t;
  updated_at = t;
  last_login_at = none;
  deleted_at = none;
  status = codes "active";
}

abbrev pub new_tenant : ℕ → Text → ℕ → TenantRow
new_tenant tenant_id name t = record {
  tenant_id = tenant_id;
  name = name;
  created_at = t;
  deleted_at = none;
}

module _ (e : Env) where
  unfoldable pub get_user_by_email : Text → M (Option User)
  get_user_by_email email = fetch e (λ d. Option.map to_user (select_one (has_email email) d.users))

  unfoldable pub get_user_by_id : ℕ → M (Option User)
  get_user_by_id user_id =
      fetch e (λ d. Option.map to_user (select_one (has_user_id user_id) d.users))

  unfoldable pub get_users_by_ids : List ℕ → M (List User)
  get_users_by_ids [] = pure []
  get_users_by_ids (i ∷ is) = fetch e (λ d.
      map to_user (select_all (λ r. listed r.user_id (i ∷ is) && is_none r.deleted_at) d.users))

  unfoldable pub create_user : Text → M ℕ
  create_user email = do
    user_id ← draw_uuid e
    write_if e
        (λ d.
          not (exists_row (λ (r : UserRow). r.user_id == user_id) d.users)
          && not (exists_row (has_email email) d.users))
        (λ t d. record d { users = d.users ++ new_user user_id email t ∷ [] })
    pure user_id

  unfoldable pub update_user_last_login : ℕ → M (Unit {0})
  update_user_last_login user_id = write e (λ t d. record d {
    users =
        update_rows (λ (r : UserRow). r.user_id == user_id)
          (λ r. record r { last_login_at = some t; updated_at = t }) d.users;
  })

  unfoldable pub set_user_email_verified : ℕ → M (Unit {0})
  set_user_email_verified user_id = write e (λ t d. record d {
    users =
        update_rows (λ (r : UserRow). r.user_id == user_id)
          (λ r. record r { email_verified = true; updated_at = t }) d.users;
  })

  unfoldable pub create_tenant : ℕ → Text → M (Unit {0})
  create_tenant tenant_id name =
      write_if e (λ d. not (tenant_exists tenant_id d))
        (λ t d. record d { tenants = d.tenants ++ new_tenant tenant_id name t ∷ [] })

  unfoldable pub get_tenant_name : ℕ → M (Option Text)
  get_tenant_name tenant_id = fetch e (λ d.
      Option.map (λ (r : TenantRow). r.name)
        (select_one (λ (r : TenantRow). (r.tenant_id == tenant_id) && is_none r.deleted_at)
          d.tenants))
