-- ===== src/Models/Throttle/Decisions.antt =====
-- When one row of the throttle allows a magic link to be sent, and what it reports if not.
use lala_search.Prelude.{ℕ, ◌+◌, ◌*◌, ◌≤◌, ◌<◌, ◌≡◌, ◌⊎◌, ◌↔◌, Option, none, some, arith}
use lala_search.Models.Throttle.{
  MagicLinkSendThrottle, allow, cooldown_for, second, seconds_until, evaluate_block, evaluate_send,
}

-- A block that lies in the past, or none.
abbrev pub IsOver : Option ℕ → ℕ → Type 0
IsOver none now = Unit
IsOver (some blocked_until) now = blocked_until ≤ now

module _ (t : MagicLinkSendThrottle) (now cooldown max_attempts window : ℕ) where
  evaluate_block-eq-allow :
      (b : Option ℕ)
      → (evaluate_block b t now cooldown max_attempts window ≡ allow)
        ↔ (IsOver b now × (t.last_attempt_at + cooldown ≤ now) × (t.attempt_count < max_attempts))
  unfolding evaluate_block
  evaluate_block-eq-allow none = ground arith
  evaluate_block-eq-allow (some u) = ground arith

  -- An attempt is allowed exactly when the address is not permanently blocked, its total is below
  -- the permanent limit, and either the window is over or, inside it, no block is in force, the
  -- cooldown since the last attempt has passed and the window's limit is not reached.
  pub evaluate_send-eq-allow_iff :
      (permanent_block_after_attempts : ℕ)
      → (evaluate_send t now cooldown max_attempts window permanent_block_after_attempts ≡ allow)
        ↔ ((t.permanently_blocked_at ≡ none)
            × (t.total_unverified_attempt_count < permanent_block_after_attempts)
            × ((t.first_attempt_at + window ≤ now)
                ⊎ (IsOver t.blocked_until now
                    × (t.last_attempt_at + cooldown ≤ now)
                    × (t.attempt_count < max_attempts))))
  unfolding evaluate_send
  evaluate_send-eq-allow_iff p = ground (arith, evaluate_block-eq-allow t.blocked_until)

  -- The wait that a cooldown reports is the time that is left, rounded down to seconds but at
  -- least one: one second more is always enough.
  pub evaluate_send-cooldown_for :
      (permanent_block_after_attempts : ℕ) {r : ℕ}
      → evaluate_send t now cooldown max_attempts window permanent_block_after_attempts
        ≡ cooldown_for r
      → (now < t.last_attempt_at + cooldown)
        × (t.last_attempt_at + cooldown < now + (r + 1) * second)
        × ((r ≡ 1) ⊎ (now + r * second ≤ t.last_attempt_at + cooldown))
  unfolding evaluate_send seconds_until
  evaluate_send-cooldown_for p h = ground arith
