-- ===== src/Models/Throttle/Bounds.antt =====
-- How many attempts the throttle of one address allows.
use lala_search.Prelude.{
  ℕ, ◌+◌, ◌≤◌, ◌<◌, ◌≡◌, refl, max, Option, none, some, List, [], ◌∷◌, All, arith,
}
use lala_search.Prelude.Text.{Text}
use lala_search.Models.Throttle.{
  MagicLinkSendThrottle, MagicLinkSendDecision, allow, decide, next_throttle,
}
use lala_search.Models.Throttle.Decisions.{evaluate_send-eq-allow_iff}
use lala_search.Models.Throttle.Machine.{
  store, store_cases, counter-store, allowed, total, in_window, after, count_allowed, IsSound,
  AreSound,
}

module _ (email : Text) (cooldown max_attempts window permanent_block_after_attempts : ℕ) where
  abbrev P : ℕ
  P = permanent_block_after_attempts

  abbrev Sound : MagicLinkSendThrottle → Type 0
  Sound = IsSound email cooldown max_attempts window P

  abbrev Sounds : Option MagicLinkSendThrottle → Type 0
  Sounds = AreSound email cooldown max_attempts window P

  abbrev verdict : Option MagicLinkSendThrottle → ℕ → MagicLinkSendDecision
  verdict o now = decide o now cooldown max_attempts window P

  abbrev next : Option MagicLinkSendThrottle → ℕ → MagicLinkSendThrottle
  next o now = next_throttle email o now max_attempts window P

  -- An allowed attempt on a sound row stores a sound row.
  next-IsSound :
      (o : Option MagicLinkSendThrottle) (now : ℕ)
      → Sounds o
      → verdict o now ≡ allow
      → Sound (next o now)
  unfolding next_throttle decide
  next-IsSound none now h e = ground arith
  next-IsSound (some t) now h e =
      ground (arith, (evaluate_send-eq-allow_iff t now cooldown max_attempts window P).0 e)

  pub after-AreSound :
      (o : Option MagicLinkSendThrottle) (now : ℕ)
      → Sounds o
      → Sounds (after email cooldown max_attempts window P o now)
  unfolding after
  after-AreSound o now h =
      store_cases Sounds (verdict o now) o (next o now) h (next-IsSound o now h)

  total-next :
      (o : Option MagicLinkSendThrottle) (now : ℕ)
      → (next o now).total_unverified_attempt_count ≡ total o + 1
  unfolding next_throttle
  total-next none now = omega arith
  total-next (some t) now = ground arith

  pub total-after :
      (o : Option MagicLinkSendThrottle) (now : ℕ)
      → total (after email cooldown max_attempts window P o now) ≡ total o + allowed (verdict o now)
  unfolding after
  total-after o now =
      counter-store (λ t. t.total_unverified_attempt_count) (verdict o now) o (next o now)
        (λ _. total-next o now)

  pub total-le : (o : Option MagicLinkSendThrottle) → Sounds o → total o ≤ max 1 P
  total-le none h = omega arith
  total-le (some t) h = h.limited

  -- However many attempts are made, and whenever, the links sent to an address whose row is sound
  -- number at most the permanent limit (or one, if that is zero), those counted in the row included.
  pub count_allowed-le :
      (o : Option MagicLinkSendThrottle) (times : List ℕ)
      → AreSound email cooldown max_attempts window permanent_block_after_attempts o
      → total o
          + count_allowed email cooldown max_attempts window permanent_block_after_attempts o times
        ≤ max 1 permanent_block_after_attempts
  unfolding count_allowed
  count_allowed-le o [] h = omega (arith, total-le o h)
  count_allowed-le o (now ∷ times) h = omega (
    arith,
    total-after o now,
    count_allowed-le (after email cooldown max_attempts window P o now) times
        (after-AreSound o now h),
  )

  -- A sound row whose window began at `f`.
  abbrev Opened : ℕ → Option MagicLinkSendThrottle → Type 0
  Opened f none = ⊥
  Opened f (some t) = (t.first_attempt_at ≡ f) × IsSound email cooldown max_attempts window P t

  module _ (f now : ℕ) (early : now < f + window) where
    after-Opened :
        (o : Option MagicLinkSendThrottle)
        → Opened f o
        → Opened f (after email cooldown max_attempts window P o now)
    unfolding after
    after-Opened none h = absurd h
    after-Opened (some t) h =
        store_cases (Opened f) (verdict (some t) now) (some t) (next (some t) now) h
          (λ e. (unfold next_throttle in ground arith, next-IsSound (some t) now h.1 e))

    in_window-after :
        (o : Option MagicLinkSendThrottle)
        → Opened f o
        → in_window (after email cooldown max_attempts window P o now)
          ≡ in_window o + allowed (verdict o now)
    unfolding after
    in_window-after none h = absurd h
    in_window-after (some t) h =
        counter-store (λ r. r.attempt_count) (verdict (some t) now) (some t) (next (some t) now)
          (λ e. unfold next_throttle in ground arith)

  in_window-le :
      (f : ℕ) (o : Option MagicLinkSendThrottle) → Opened f o → in_window o ≤ max 1 max_attempts
  in_window-le f none h = absurd h
  in_window-le f (some t) h = h.1.windowed

  count-Opened-le :
      (f : ℕ) (o : Option MagicLinkSendThrottle) (times : List ℕ)
      → Opened f o
      → All (λ now. now < f + window) times
      → in_window o + count_allowed email cooldown max_attempts window P o times
        ≤ max 1 max_attempts
  unfolding count_allowed
  count-Opened-le f o [] h k = omega (arith, in_window-le f o h)
  count-Opened-le f o (now ∷ times) h (k, ks) = omega (
    arith,
    in_window-after f now k o h,
    count-Opened-le f (after email cooldown max_attempts window P o now) times
        (after-Opened f now k o h) ks,
  )

  -- Of the attempts that a fresh address makes before its first window is over, at most
  -- `max_attempts` (or one, if that is zero) are allowed.
  pub count_allowed-window :
      (f : ℕ) (times : List ℕ)
      → All (λ now. now < f + window) times
      → count_allowed email cooldown max_attempts window permanent_block_after_attempts none
          (f ∷ times)
        ≤ max 1 max_attempts
  unfolding count_allowed decide after store next_throttle
  count_allowed-window f times h =
      omega
        (arith, count-Opened-le f (some (next none f)) times (refl, next-IsSound none f tt refl) h)
