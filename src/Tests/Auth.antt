-- ===== src/Tests/Auth.antt =====
-- An organization with an owner, an administrator and a member, and what the service does for it.
use lala_search.Prelude.{ℕ, ◌+◌, true, false, none, some, [], ◌∷◌}
use lala_search.Prelude.Text.{Text, codes}
use lala_search.Models.UserRole.{admin, member}
use lala_search.Models.UserStatus.{active}
use lala_search.Models.Auth.{User, Session, MagicLinkToken, AuthUser}
use lala_search.Models.Rows.{UserRow, MembershipRow, InvitationRow}
use lala_search.World.{World, Env}
use lala_search.AuthService.Config.{AuthConfig}
use lala_search.AuthService.Members.{InviteRequest}

-- A digest that no two tokens share, and a database that always answers.
abbrev pub env : Env
env = record {
  sha256_hex = λ token. b'#' ∷ token;
  random_hex = λ n. (900 + n) ∷ [];
  uuid = λ n. 50 + n;
  clock = λ n. 1000 + n;
  query_fails = λ n. false;
  mail_fails = λ n. false;
}

abbrev pub config : AuthConfig
config = record {
  session_max_age_days = 30;
  magic_link_expiry_minutes = 15;
  invitation_expiry_days = 7;
  magic_link_send_cooldown_seconds = 60;
  magic_link_max_send_attempts = 3;
  magic_link_send_window_minutes = 60;
  magic_link_permanent_block_after_attempts = 10;
  root_admin_email = codes "root@x.io";
  multi_tenant = false;
}

abbrev pub user_row : ℕ → Text → UserRow
user_row i email = record {
  user_id = i;
  email = email;
  email_verified = true;
  created_at = 1;
  updated_at = 1;
  last_login_at = none;
  deleted_at = none;
  status = codes "active";
}

abbrev pub member_row : ℕ → Text → MembershipRow
member_row i role = record {
  tenant_id = 7;
  user_id = i;
  role = role;
  joined_at = 1;
  invited_by = none;
  deleted_at = none;
}

abbrev pub link : Text → MagicLinkToken
link email = record {
  token = b'#' ∷ codes "link";
  email = email;
  tenant_id = none;
  redirect_url = none;
  created_at = 1;
  expires_at = 5000;
  used = false;
}

abbrev pub invite_row : InvitationRow
invite_row = record {
  token_hash = b'#' ∷ codes "join";
  tenant_id = 7;
  email = codes "o@x.io";
  role = codes "member";
  invited_by = 2;
  created_at = 1;
  expires_at = 5000;
  accepted = false;
}

abbrev pub session_row : Session
session_row = record {
  session_id = b'#' ∷ codes "s";
  user_id = 2;
  tenant_id = 7;
  created_at = 1;
  expires_at = 5000;
  last_active_at = 1;
  user_agent = none;
  ip_address = none;
}

-- The organization, with one link that was sent to `email`.
abbrev pub world_with : Text → World
world_with email = record {
  db = record {
    users =
        user_row 1 (codes "o@x.io")
        ∷ user_row 2 (codes "a@x.io")
        ∷ user_row 3 (codes "m@x.io")
        ∷ [];
    sessions = session_row ∷ [];
    magic_link_tokens = link email ∷ [];
    magic_link_send_attempts = [];
    org_memberships =
        member_row 1 (codes "owner")
        ∷ member_row 2 (codes "admin")
        ∷ member_row 3 (codes "member")
        ∷ [];
    org_invitations = invite_row ∷ [];
    tenants = record { tenant_id = 7; name = codes "x"; created_at = 1; deleted_at = none } ∷ [];
    crawl_queue = [];
    crawl_errors = [];
    settings = [];
    site = record { allowed_domains = []; crawled_pages = []; action_history = [] };
  };
  outbox = [];
  indexed = [];
  steps = 0;
  uuids_drawn = 0;
  tokens_drawn = 0;
}

abbrev pub world : World
world = world_with (codes "m@x.io")

abbrev pub admin_user : AuthUser
admin_user = record { user_id = 2; email = codes "a@x.io"; tenant_id = 7; role = admin }

abbrev pub member_user : User
member_user = record {
  user_id = 3;
  email = codes "m@x.io";
  email_verified = true;
  created_at = 1;
  updated_at = 1005;
  last_login_at = some 1005;
  status = active;
}

-- The owner, who accepts the administrator's invitation to be a member.
abbrev pub owner_user : User
owner_user = record {
  user_id = 1;
  email = codes "o@x.io";
  email_verified = true;
  created_at = 1;
  updated_at = 1;
  last_login_at = none;
  status = active;
}

abbrev pub invite_request : InviteRequest
invite_request = record {
  tenant_id = 7;
  tenant_name = codes "x";
  email = codes "n@x.io";
  role = admin;
  inviter = admin_user;
}

abbrev pub member_request : InviteRequest
member_request = record invite_request {
  inviter = record { user_id = 3; email = codes "m@x.io"; tenant_id = 7; role = member };
}
