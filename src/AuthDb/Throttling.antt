-- ===== src/AuthDb/Throttling.antt =====
-- lala-agent/src/services/auth_db.rs: the transaction of a send attempt and the throttle's machine.
use lala_search.Prelude.{ℕ, ◌≡◌, refl, ◌≢◌, Option, none, some, arith}
use lala_search.Prelude.Text.{Text}
use lala_search.Prelude.Table.{select_one}
use lala_search.Models.Throttle.{
  MagicLinkSendThrottle, MagicLinkSendDecision, allow, cooldown_for, blocked_for,
  permanently_blocked, decide, next_throttle,
}
use lala_search.Models.Throttle.Machine.{after, store}
use lala_search.World.{Failure, Database, World, Env, ok, err, M, tick, pure, fetch, write, ◌>>=◌}
use lala_search.AuthDb.MagicLinks.{
  is_throttle_of, finish_send_attempt, consume_magic_link_send_attempt,
}
use lala_search.AuthDb.Upsert.{select_one-upsert_throttle, select_other-upsert_throttle}

-- The row of an address.
abbrev pub throttle_of : Text → Database → Option MagicLinkSendThrottle
throttle_of email d = select_one (is_throttle_of email) d.magic_link_send_attempts

next-email :
    (email : Text) (o : Option MagicLinkSendThrottle) (now most window permanent : ℕ)
    → (next_throttle email o now most window permanent).email ≡ email
unfolding next_throttle
next-email email none now most window permanent = refl
next-email email (some t) now most window permanent = ground arith

module _ (e : Env) (row : MagicLinkSendThrottle) where
  -- What the end of the transaction leaves, decision by decision.
  finish-throttle :
      (d : MagicLinkSendDecision) (w : World) {x : MagicLinkSendDecision} {w' : World}
      → finish_send_attempt e row d w ≡ (ok x, w')
      → (x ≡ d)
        × (throttle_of row.email w'.db ≡ store d (throttle_of row.email w.db) row)
        × ((other : Text) → other ≢ row.email → throttle_of other w'.db ≡ throttle_of other w.db)
  unfolding finish_send_attempt ◌>>=◌ fetch write pure tick store
  finish-throttle allow w done = (
    ground arith,
    ground (arith, select_one-upsert_throttle row w.magic_link_send_attempts),
    λ other apart.
        ground (arith, select_other-upsert_throttle other row w.magic_link_send_attempts apart),
  )
  finish-throttle (cooldown_for r) w done =
      (ground arith, ground arith, λ other apart. ground arith)
  finish-throttle (blocked_for r) w done = (ground arith, ground arith, λ other apart. ground arith)
  finish-throttle permanently_blocked w done =
      (ground arith, ground arith, λ other apart. ground arith)

  finish-db :
      (d : MagicLinkSendDecision) (w : World) (x : Failure)
      → (finish_send_attempt e row d w).0 ≡ err x
      → (finish_send_attempt e row d w).1.db ≡ w.db
  unfolding finish_send_attempt ◌>>=◌ fetch write pure tick
  finish-db allow w x failed = ground arith
  finish-db (cooldown_for r) w x failed = ground arith
  finish-db (blocked_for r) w x failed = ground arith
  finish-db permanently_blocked w x failed = ground arith

  finish-outbox :
      (d : MagicLinkSendDecision) (w : World) → (finish_send_attempt e row d w).1.outbox ≡ w.outbox
  unfolding finish_send_attempt ◌>>=◌ fetch write pure tick
  finish-outbox allow w = ground arith
  finish-outbox (cooldown_for r) w = ground arith
  finish-outbox (blocked_for r) w = ground arith
  finish-outbox permanently_blocked w = ground arith

module _ (e : Env) (email : Text) (now cooldown most window permanent : ℕ) where
  abbrev attempt : M MagicLinkSendDecision
  attempt = consume_magic_link_send_attempt e email now cooldown most window permanent

  abbrev row_before : World → Option MagicLinkSendThrottle
  row_before w = throttle_of email w.db

  abbrev next_row : World → MagicLinkSendThrottle
  next_row w = next_throttle email (row_before w) now most window permanent

  abbrev verdict : World → MagicLinkSendDecision
  verdict w = decide (row_before w) now cooldown most window permanent

  -- The transaction's two first statements do not write.
  reach_finish :
      (w : World) {d : MagicLinkSendDecision} {w' : World}
      → attempt w ≡ (ok d, w')
      → finish_send_attempt e (next_row w) (verdict w) (tick (tick w)) ≡ (ok d, w')
  unfolding consume_magic_link_send_attempt ◌>>=◌ fetch tick
  reach_finish w done = ground arith

  -- When the transaction of a send attempt succeeds, its decision is the machine's decision on the
  -- address's row, the row afterwards is the machine's next row, and the rows of other addresses
  -- are as they were.
  pub consume-after :
      (w : World) (d : MagicLinkSendDecision) (w' : World)
      → attempt w ≡ (ok d, w')
      → (d ≡ verdict w)
        × (throttle_of email w'.db
            ≡ after email cooldown most window permanent (throttle_of email w.db) now)
        × ((other : Text) → other ≢ email → throttle_of other w'.db ≡ throttle_of other w.db)
  unfolding after tick next_throttle
  consume-after w d w' done =
      let named = next-email email (row_before w) now most window permanent in
      let (same, kept, apart) =
        finish-throttle e (next_row w) (verdict w) (tick (tick w)) (reach_finish w done) in
      (same, rw named at kept, rw named at apart)

  -- When the transaction fails, nothing is written.
  pub consume-db : (w : World) (x : Failure) → (attempt w).0 ≡ err x → (attempt w).1.db ≡ w.db
  unfolding consume_magic_link_send_attempt ◌>>=◌ fetch tick
  consume-db w x failed = ground (arith, finish-db e (next_row w) (verdict w) (tick (tick w)) x)

  -- The transaction sends nothing.
  pub consume-outbox : (w : World) → (attempt w).1.outbox ≡ w.outbox
  unfolding consume_magic_link_send_attempt ◌>>=◌ fetch tick
  consume-outbox w = ground (arith, finish-outbox e (next_row w) (verdict w) (tick (tick w)))
