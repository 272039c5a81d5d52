-- ===== src/AuthDb/Upsert.antt =====
-- lala-agent/src/services/auth_db.rs: what a row that is inserted or replaced is read as.
use lala_search.Prelude.{ℕ, ◌≡◌, refl, ◌≢◌, Option, some, List, [], ◌∷◌, arith}
use lala_search.Prelude.Text.{Text, text_eq_iff, text_eq_refl}
use lala_search.Prelude.Table.{select_one}
use lala_search.Models.UserRole.{UserRole}
use lala_search.Models.Rows.{MembershipRow}
use lala_search.Models.Throttle.{MagicLinkSendThrottle}
use lala_search.AuthDb.MagicLinks.{is_throttle_of, upsert_throttle}
use lala_search.AuthDb.Organizations.{is_active_of, upsert_membership, new_membership}

pub select_one-upsert_membership :
    (t u : ℕ) (role : UserRole) (by : Option ℕ) (now : ℕ) (rows : List MembershipRow)
    → select_one (is_active_of t u) (upsert_membership (new_membership t u role by now) rows)
      ≡ some (new_membership t u role by now)
unfolding select_one upsert_membership
select_one-upsert_membership t u role by now [] = ground arith
select_one-upsert_membership t u role by now (r ∷ rows) =
    ground (arith, select_one-upsert_membership t u role by now rows)

pub select_one-upsert_throttle :
    (r : MagicLinkSendThrottle) (rows : List MagicLinkSendThrottle)
    → select_one (is_throttle_of r.email) (upsert_throttle r rows) ≡ some r
unfolding select_one upsert_throttle
select_one-upsert_throttle r [] = rw (text_eq_refl r.email) refl
select_one-upsert_throttle r (s ∷ rows) =
    ground (arith, text_eq_refl r.email, select_one-upsert_throttle r rows)

pub select_other-upsert_throttle :
    (email : Text) (r : MagicLinkSendThrottle) (rows : List MagicLinkSendThrottle)
    → email ≢ r.email
    → select_one (is_throttle_of email) (upsert_throttle r rows)
      ≡ select_one (is_throttle_of email) rows
unfolding select_one upsert_throttle
select_other-upsert_throttle email r [] apart = ground (arith, text_eq_iff r.email email, apart)
select_other-upsert_throttle email r (s ∷ rows) apart = ground (
  arith,
  apart,
  text_eq_iff r.email email,
  text_eq_iff s.email email,
  text_eq_iff s.email r.email,
  select_other-upsert_throttle email r rows apart,
)
