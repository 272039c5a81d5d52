-- ===== src/World.antt =====
-- What the program acts on: the database, and beside it what the program gets from outside. Every
-- method is an action of `M`: it may fail, and what it wrote before it failed stays written.
pub mod Keeps
pub mod Success
pub mod Index
use lala_search.Prelude.{
  ℕ, suc, ◌≡◌, refl, ◌+◌, Bool, true, false, Option, none, some, List, [], ◌∷◌, ◌++◌, if◌then◌else◌,
}
use lala_search.Prelude.Text.{Text}
use lala_search.Models.Auth.{Session, MagicLinkToken}
use lala_search.Models.Crawl.{CrawlQueueEntry, CrawlErrorType}
use lala_search.Models.Search.{IndexedDocument}
use lala_search.Models.Rows.{
  CrawlErrorRow, SettingRow, AllowedDomainRow, UserRow, MembershipRow, InvitationRow, TenantRow,
}
use lala_search.Models.History.{ActionRecord}
use lala_search.Models.Pages.{PageRow}
use lala_search.Models.Throttle.{MagicLinkSendThrottle}

-- The failures of the program, one for each message, and `query_failed` for every failure of the
-- database, whatever the context that is added to it. `crawl_failed` is the type and the message
-- that a stage of a crawl ends with, and `fetch_failed` the message of a page's fetch. `panicked` is a panic, which no caller of the
-- program catches; `status` is an answer of the HTTP routes that is no success.
pub data Failure : Type 0 where
  query_failed mail_failed : Failure
  rate_limited : Option ℕ → Bool → Failure
  invalid_or_expired_token expired_or_used_token self_registration_restricted : Failure
  user_disappeared user_creation_failed user_not_found not_a_member_of_tenant : Failure
  invite_not_permitted invalid_or_expired_invitation expired_or_accepted_invitation : Failure
  view_not_permitted remove_not_permitted cannot_remove_yourself not_a_member : Failure
  only_owners_remove_admins owners_cannot_be_removed : Failure
  unparsable_number capacity_not_configured capacity_not_positive : Failure
  action_already_rolled_back no_before_state invalid_entity_id : Failure
  missing_in_before_state : Text → Failure
  search_failed storage_failed unparsable_url : Failure
  crawl_failed : CrawlErrorType → Text → Failure
  fetch_failed : Text → Failure
  panicked : Failure
  status : ℕ → Failure

pub data Result {ℓ} (A : Type ℓ) : Type ℓ where
  ok : A → Result A
  err : Failure → Result A

-- What the crawler may visit, what it has visited, and what the administrators did.
pub record SiteTables : Type 0 where
  pub allowed_domains : List AllowedDomainRow
  pub crawled_pages : List PageRow
  pub action_history : List ActionRecord

pub record Database : Type 0 where
  pub users : List UserRow
  pub sessions : List Session
  pub magic_link_tokens : List MagicLinkToken
  pub magic_link_send_attempts : List MagicLinkSendThrottle
  pub org_memberships : List MembershipRow
  pub org_invitations : List InvitationRow
  pub tenants : List TenantRow
  pub crawl_queue : List CrawlQueueEntry
  pub crawl_errors : List CrawlErrorRow
  pub settings : List SettingRow
  pub site : SiteTables

-- The letters that were handed to the SMTP transport.
pub data Mail : Type 0 where
  magic_link : Text → Text → Mail
  invitation : Text → Text → Text → Text → Mail

-- `indexed` are the documents that the search server was given.
pub record World : Type 0 where
  pub db : Database
  pub open db use *
  pub outbox : List Mail
  pub indexed : List IndexedDocument
  pub steps : ℕ
  pub uuids_drawn : ℕ
  pub tokens_drawn : ℕ

-- What the program gets from outside: the digest that `sha2` and `hex` compute, the tokens that
-- `rand` gives and `Uuid::now_v7`, each numbered; the time at each step, and the steps at which
-- the database or the mail server fails. A step is one call of either.
pub record Env : Type 0 where
  pub sha256_hex : Text → Text
  pub random_hex : ℕ → Text
  pub uuid : ℕ → ℕ
  pub clock : ℕ → ℕ
  pub query_fails : ℕ → Bool
  pub mail_fails : ℕ → Bool

abbrev pub M : Type 0 → Type 0
M A = World → Result A × World

unfoldable pub tick : World → World
tick w = record w { steps = suc w.steps }

module _ {A : Type 0} where
  unfoldable pub pure : A → M A
  pure a w = (ok a, w)

  unfoldable pub raise : Failure → M A
  raise x w = (err x, w)

  -- `o.ok_or_else(|| x)?`
  unfoldable pub or_raise : Failure → Option A → M A
  or_raise x none w = (err x, w)
  or_raise x (some a) w = (ok a, w)

module _ {A B : Type 0} where
  unfoldable pub continue : Result A → (A → M B) → M B
  continue (ok a) f w = f a w
  continue (err x) f w = (err x, w)

  infixl 5 ◌>>=◌ ◌>>◌
  unfoldable pub ◌>>=◌ : M A → (A → M B) → M B
  unfolding pure raise or_raise continue
  ◌>>=◌ m f w = let (r, w') = m w in continue r f w'

  abbrev pub ◌>>◌ : M A → M B → M B
  m >> n = m >>= λ _. n

-- `let _ = m;`: whatever comes of it is dropped.
unfoldable pub ignore : {A : Type 0} → M A → M (Unit {0})
ignore m w = let (r, w') = m w in (ok tt, w')

-- A call of another server, which answers what it answers at this step.
unfoldable pub call_out : {A : Type 0} → (ℕ → Result A) → M A
unfolding tick
call_out f w = (f w.steps, tick w)

unfoldable pub is_panic : Failure → Bool
is_panic panicked = true
is_panic _ = false

-- What `map_err` does to an error; a panic passes by.
unfoldable pub caught : {A : Type 0} → (Failure → Failure) → Result A → Result A
unfolding is_panic
caught f (ok a) = ok a
caught f (err x) = err (if is_panic x then x else f x)

-- `m.map_err(|e| …)`
unfoldable pub map_failure : {A : Type 0} → (Failure → Failure) → M A → M A
unfolding caught
map_failure f m w = let (r, w') = m w in (caught f r, w')

-- `m.map_err(|e| (code, …))`
unfoldable pub as_status : {A : Type 0} → ℕ → M A → M A
unfolding map_failure
as_status code m = map_failure (λ x. status code) m

unfoldable pub or_none : {A : Type 0} → Result A → Result (Option A)
unfolding is_panic
or_none (ok a) = ok (some a)
or_none (err x) = if is_panic x then err x else ok none

-- `m.ok()`
unfoldable pub attempt : {A : Type 0} → M A → M (Option A)
unfolding or_none
attempt m w = let (r, w') = m w in (or_none r, w')

module _ (e : Env) where
  -- `Utc::now()`
  unfoldable pub now : M ℕ
  now w = (ok (e.clock w.steps), w)

  -- `Uuid::now_v7()`
  unfoldable pub draw_uuid : M ℕ
  draw_uuid w = (ok (e.uuid w.uuids_drawn), record w { uuids_drawn = suc w.uuids_drawn })

  -- 32 random bytes in hexadecimal
  unfoldable pub draw_token : M Text
  draw_token w = (ok (e.random_hex w.tokens_drawn), record w { tokens_drawn = suc w.tokens_drawn })

  -- A query that reads.
  unfoldable pub fetch : {A : Type 0} → (Database → A) → M A
  unfolding tick
  fetch f w = if e.query_fails w.steps then (err query_failed, tick w) else (ok (f w.db), tick w)

  -- A statement that writes, at the time of the step.
  unfoldable pub write : (ℕ → Database → Database) → M (Unit {0})
  unfolding tick
  write f w =
      if e.query_fails w.steps
      then (err query_failed, tick w)
      else (ok tt, tick (record w { db = f (e.clock w.steps) w.db }))

  -- A statement that writes if the table's constraints allow it, and fails otherwise.
  unfoldable pub write_if : (Database → Bool) → (ℕ → Database → Database) → M (Unit {0})
  unfolding tick
  write_if allowed f w =
      if e.query_fails w.steps
      then (err query_failed, tick w)
      else if allowed w.db
      then (ok tt, tick (record w { db = f (e.clock w.steps) w.db }))
      else (err query_failed, tick w)

  unfoldable pub send : Mail → M (Unit {0})
  unfolding tick
  send mail w =
      if e.mail_fails w.steps
      then (err mail_failed, tick w)
      else (ok tt, tick (record w { outbox = w.outbox ++ mail ∷ [] }))
