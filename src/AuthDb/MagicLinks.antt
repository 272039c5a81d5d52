-- ===== src/AuthDb/MagicLinks.antt =====
-- lala-agent/src/services/auth_db.rs: magic link tokens, and the throttle of their sending.
use lala_search.Prelude.{
  ℕ, Bool, true, false, not, ◌&&◌, Option, none, some, [], ◌∷◌, ◌++◌, List, if◌then◌else◌,
}
use lala_search.Prelude.Text.{Text, text_eq}
use lala_search.Prelude.Table.{select_one, exists_row, update_rows, delete_rows}
use lala_search.Models.Auth.{MagicLinkToken}
use lala_search.Models.Throttle.{
  MagicLinkSendThrottle, MagicLinkSendDecision, allow, cooldown_for, blocked_for,
  permanently_blocked, decide, next_throttle,
}
use lala_search.World.{Database, Env, M, pure, fetch, write, write_if, ◌>>=◌, ◌>>◌}
use lala_search.AuthDb.Users.{tenant_exists}

pub record CreateMagicLinkParams : Type 0 where
  pub token_hash : Text
  pub email : Text
  pub tenant_id : Option ℕ
  pub redirect_url : Option Text
  pub expires_at : ℕ

abbrev pub is_token : Text → MagicLinkToken → Bool
is_token token_hash r = text_eq r.token token_hash

abbrev pub new_token : CreateMagicLinkParams → ℕ → MagicLinkToken
new_token p t = record {
  token = p.token_hash;
  email = p.email;
  tenant_id = p.tenant_id;
  redirect_url = p.redirect_url;
  created_at = t;
  expires_at = p.expires_at;
  used = false;
}

abbrev pub optional_tenant_exists : Option ℕ → Database → Bool
optional_tenant_exists none d = true
optional_tenant_exists (some tenant_id) d = tenant_exists tenant_id d

abbrev pub is_throttle_of : Text → MagicLinkSendThrottle → Bool
is_throttle_of email r = text_eq r.email email

-- INSERT … ON CONFLICT (email) DO UPDATE
unfoldable pub upsert_throttle :
    MagicLinkSendThrottle → List MagicLinkSendThrottle → List MagicLinkSendThrottle
upsert_throttle r [] = r ∷ []
upsert_throttle r (s ∷ rows) =
    if is_throttle_of r.email s then r ∷ rows else s ∷ upsert_throttle r rows

module _ (e : Env) where
  unfoldable pub create_magic_link_token : CreateMagicLinkParams → M (Unit {0})
  create_magic_link_token p =
      write_if e
        (λ d.
          not (exists_row (is_token p.token_hash) d.magic_link_tokens)
          && optional_tenant_exists p.tenant_id d)
        (λ t d. record d { magic_link_tokens = d.magic_link_tokens ++ new_token p t ∷ [] })

  unfoldable pub get_magic_link_token : Text → M (Option MagicLinkToken)
  get_magic_link_token token_hash =
      fetch e (λ d. select_one (is_token token_hash) d.magic_link_tokens)

  unfoldable pub mark_magic_link_used : Text → M (Unit {0})
  mark_magic_link_used token_hash = write e (λ t d. record d {
    magic_link_tokens =
        update_rows (is_token token_hash) (λ r. record r { used = true }) d.magic_link_tokens;
  })

  -- BEGIN, COMMIT, and statements whose effect shows at the commit
  abbrev statement : M (Unit {0})
  statement = fetch e (λ d. tt)

  -- The end of the transaction: nothing is written unless the decision is `allow`, and what is
  -- written shows when the commit succeeds.
  unfoldable pub finish_send_attempt :
      MagicLinkSendThrottle → MagicLinkSendDecision → M MagicLinkSendDecision
  finish_send_attempt row allow = do
    statement
    write e (λ t d. record d {
      magic_link_send_attempts = upsert_throttle row d.magic_link_send_attempts;
    })
    pure allow
  finish_send_attempt row (cooldown_for r) = do statement; pure (cooldown_for r)
  finish_send_attempt row (blocked_for r) = do statement; pure (blocked_for r)
  finish_send_attempt row permanently_blocked = do statement; pure permanently_blocked

  unfoldable pub consume_magic_link_send_attempt :
      Text → ℕ → ℕ → ℕ → ℕ → ℕ → M MagicLinkSendDecision
  consume_magic_link_send_attempt email now cooldown max_attempts window permanent_block_after = do
    statement
    existing ← fetch e (λ d. select_one (is_throttle_of email) d.magic_link_send_attempts)
    finish_send_attempt (next_throttle email existing now max_attempts window permanent_block_after)
        (decide existing now cooldown max_attempts window permanent_block_after)

  unfoldable pub reset_magic_link_send_attempts : Text → M (Unit {0})
  reset_magic_link_send_attempts email = write e (λ t d. record d {
    magic_link_send_attempts = delete_rows (is_throttle_of email) d.magic_link_send_attempts;
  })
