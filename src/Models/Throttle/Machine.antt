-- ===== src/Models/Throttle/Machine.antt =====
-- The throttle of one address as a state machine: its row, if it has one, and its attempts.
use lala_search.Prelude.{
  ℕ, ◌+◌, ◌≤◌, ◌≡◌, refl, max, Option, none, some, is_some, then_some, leb, List, [], ◌∷◌, arith,
}
use lala_search.Prelude.Text.{Text}
use lala_search.Models.Throttle.{
  MagicLinkSendThrottle, MagicLinkSendDecision, allow, cooldown_for, blocked_for,
  permanently_blocked, decide, next_throttle,
}

-- The row after a decision.
unfoldable pub store :
    MagicLinkSendDecision
    → Option MagicLinkSendThrottle
    → MagicLinkSendThrottle
    → Option MagicLinkSendThrottle
store allow old new = some new
store _ old new = old

-- A row is replaced only on `allow`.
pub store_cases {ℓ} :
    (Q : Option MagicLinkSendThrottle → Type ℓ) (d : MagicLinkSendDecision)
    (old : Option MagicLinkSendThrottle) (new : MagicLinkSendThrottle)
    → Q old
    → (d ≡ allow → Q (some new))
    → Q (store d old new)
unfolding store
store_cases Q allow old new h k = k refl
store_cases Q (cooldown_for r) old new h k = h
store_cases Q (blocked_for r) old new h k = h
store_cases Q permanently_blocked old new h k = h

abbrev pub allowed : MagicLinkSendDecision → ℕ
allowed allow = 1
allowed _ = 0

-- A counter of the row, zero where there is none.
abbrev pub counter : (MagicLinkSendThrottle → ℕ) → Option MagicLinkSendThrottle → ℕ
counter m none = 0
counter m (some t) = m t

pub counter-store :
    (m : MagicLinkSendThrottle → ℕ) (d : MagicLinkSendDecision) (old : Option MagicLinkSendThrottle)
    (new : MagicLinkSendThrottle)
    → (d ≡ allow → m new ≡ counter m old + 1)
    → counter m (store d old new) ≡ counter m old + allowed d
unfolding store
counter-store m allow old new h = h refl
counter-store m (cooldown_for r) old new h = omega arith
counter-store m (blocked_for r) old new h = omega arith
counter-store m permanently_blocked old new h = omega arith

abbrev pub total : Option MagicLinkSendThrottle → ℕ
total = counter (λ t. t.total_unverified_attempt_count)

abbrev pub in_window : Option MagicLinkSendThrottle → ℕ
in_window = counter (λ t. t.attempt_count)

module _ (email : Text) (cooldown max_attempts window permanent_block_after_attempts : ℕ) where
  unfoldable pub after : Option MagicLinkSendThrottle → ℕ → Option MagicLinkSendThrottle
  after o now =
      store (decide o now cooldown max_attempts window permanent_block_after_attempts) o
        (next_throttle email o now max_attempts window permanent_block_after_attempts)

  -- How many of the attempts at these times are allowed.
  unfoldable pub count_allowed : Option MagicLinkSendThrottle → List ℕ → ℕ
  count_allowed o [] = 0
  count_allowed o (now ∷ times) =
      allowed (decide o now cooldown max_attempts window permanent_block_after_attempts)
      + count_allowed (after o now) times

  -- What holds of every row that the throttle stores.
  pub record IsSound (t : MagicLinkSendThrottle) : Type 0 where
    pub attempted : 1 ≤ t.attempt_count
    pub counted : t.attempt_count ≤ t.total_unverified_attempt_count
    pub windowed : t.attempt_count ≤ max 1 max_attempts
    pub limited : t.total_unverified_attempt_count ≤ max 1 permanent_block_after_attempts
    pub blocked :
        t.blocked_until ≡ then_some (leb max_attempts t.attempt_count) (t.first_attempt_at + window)
    pub barred :
        is_some t.permanently_blocked_at
        ≡ leb permanent_block_after_attempts t.total_unverified_attempt_count

  abbrev pub AreSound : Option MagicLinkSendThrottle → Type 0
  AreSound none = Unit
  AreSound (some t) = IsSound t
