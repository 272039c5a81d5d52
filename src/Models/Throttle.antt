-- ===== src/Models/Throttle.antt =====
-- lala-agent/src/models/auth.rs, `MagicLinkSendThrottle`, and what
-- `consume_magic_link_send_attempt` of lala-agent/src/services/auth_db.rs computes from a row
-- between its queries. The counters (`i32`) are numbers: Bounds bounds them.

pub mod Decisions
pub mod Machine
pub mod Bounds
use lala_search.Prelude.{
  ℕ, ◌+◌, ◌-◌, ◌/◌, max, ◌||◌, Option, none, some, is_some, then_some, ltb, leb, if◌then◌else◌,
}
use lala_search.Prelude.Text.{Text}

pub record MagicLinkSendThrottle : Type 0 where
  pub email : Text
  pub first_attempt_at : ℕ
  pub last_attempt_at : ℕ
  pub blocked_until : Option ℕ
  pub attempt_count : ℕ
  pub total_unverified_attempt_count : ℕ
  pub permanently_blocked_at : Option ℕ

pub data MagicLinkSendDecision : Type 0 where
  allow : MagicLinkSendDecision
  cooldown_for blocked_for : ℕ → MagicLinkSendDecision
  permanently_blocked : MagicLinkSendDecision

-- A second in nanoseconds.
abbrev pub second : ℕ
second = 1_000_000_000

-- `(until - now).num_seconds().max(1) as u64`; a difference below zero counts as zero here,
-- and gives 1 in the source too.
unfoldable pub seconds_until : ℕ → ℕ → ℕ
seconds_until now until = max 1 ((until - now) / second)

-- The last two tests of `evaluate_send`.
unfoldable pub evaluate_pace : MagicLinkSendThrottle → ℕ → ℕ → ℕ → ℕ → MagicLinkSendDecision
evaluate_pace t now cooldown max_attempts window =
    let cooldown_ends_at = t.last_attempt_at + cooldown in
    if ltb now cooldown_ends_at
    then cooldown_for (seconds_until now cooldown_ends_at)
    else if leb max_attempts t.attempt_count
    then blocked_for (seconds_until now (t.first_attempt_at + window))
    else allow

-- The test of `blocked_until`, and what follows it.
unfoldable pub evaluate_block :
    Option ℕ → MagicLinkSendThrottle → ℕ → ℕ → ℕ → ℕ → MagicLinkSendDecision
unfolding evaluate_pace
evaluate_block none t now cooldown max_attempts window =
    evaluate_pace t now cooldown max_attempts window
evaluate_block (some blocked_until) t now cooldown max_attempts window =
    if ltb now blocked_until
    then blocked_for (seconds_until now blocked_until)
    else evaluate_pace t now cooldown max_attempts window

unfoldable pub evaluate_send : MagicLinkSendThrottle → ℕ → ℕ → ℕ → ℕ → ℕ → MagicLinkSendDecision
unfolding evaluate_block
evaluate_send t now cooldown max_attempts window permanent_block_after_attempts =
    if is_some t.permanently_blocked_at
      || leb permanent_block_after_attempts t.total_unverified_attempt_count
    then permanently_blocked
    else if leb (t.first_attempt_at + window) now
    then allow
    else evaluate_block t.blocked_until t now cooldown max_attempts window

-- No row is `MagicLinkSendDecision::Allow`.
unfoldable pub decide : Option MagicLinkSendThrottle → ℕ → ℕ → ℕ → ℕ → ℕ → MagicLinkSendDecision
decide none now cooldown max_attempts window permanent_block_after_attempts = allow
decide (some t) now cooldown max_attempts window permanent_block_after_attempts =
    evaluate_send t now cooldown max_attempts window permanent_block_after_attempts

-- The row that an allowed attempt stores.
unfoldable pub next_throttle :
    Text → Option MagicLinkSendThrottle → ℕ → ℕ → ℕ → ℕ → MagicLinkSendThrottle
next_throttle email none now max_attempts window permanent_block_after_attempts = record {
  email = email;
  first_attempt_at = now;
  last_attempt_at = now;
  blocked_until = then_some (leb max_attempts 1) (now + window);
  attempt_count = 1;
  total_unverified_attempt_count = 1;
  permanently_blocked_at = then_some (leb permanent_block_after_attempts 1) now;
}
next_throttle email (some t) now max_attempts window permanent_block_after_attempts =
    let total = t.total_unverified_attempt_count + 1 in
    let blocked = then_some (leb permanent_block_after_attempts total) now in
    if ltb now (t.first_attempt_at + window)
    then record {
      email = email;
      first_attempt_at = t.first_attempt_at;
      last_attempt_at = now;
      blocked_until =
          then_some (leb max_attempts (t.attempt_count + 1)) (t.first_attempt_at + window);
      attempt_count = t.attempt_count + 1;
      total_unverified_attempt_count = total;
      permanently_blocked_at = blocked;
    }
    else record {
      email = email;
      first_attempt_at = now;
      last_attempt_at = now;
      blocked_until = then_some (leb max_attempts 1) (now + window);
      attempt_count = 1;
      total_unverified_attempt_count = total;
      permanently_blocked_at = blocked;
    }
