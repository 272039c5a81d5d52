-- ===== src/Tests/Throttle.antt =====
-- The throttle at concrete times.
use lala_search.Prelude.{
  ℕ, ◌+◌, ◌*◌, ◌≤◌, ◌<◌, max, ◌≡◌, refl, ◌≢◌, ◌⊎◌, ◌↔◌, none, some, [], ◌∷◌, arith,
}
use lala_search.Prelude.Text.{Text, codes}
use lala_search.Prelude.Table.{select_one}
use lala_search.Models.Throttle.{
  MagicLinkSendThrottle, allow, cooldown_for, second, seconds_until, evaluate_pace, evaluate_block,
  evaluate_send, decide,
}
use lala_search.Models.Throttle.Machine.{IsSound, after, count_allowed}
use lala_search.Models.Throttle.Bounds.{count_allowed-le, count_allowed-window}
use lala_search.Models.Throttle.Decisions.{
  IsOver, evaluate_send-eq-allow_iff, evaluate_send-cooldown_for,
}
use lala_search.World.{World, ok, tick, fetch, write, pure, ◌>>=◌}
use lala_search.AuthDb.MagicLinks.{consume_magic_link_send_attempt, finish_send_attempt}
use lala_search.AuthDb.Throttling.{throttle_of, consume-after}
use lala_search.Tests.Auth.{env, world}

-- Two letters in the window that began at 0, the last one 30 seconds in.
abbrev row : MagicLinkSendThrottle
row = record {
  email = codes "m@x.io";
  first_attempt_at = 0;
  last_attempt_at = 30 * second;
  blocked_until = none;
  attempt_count = 2;
  total_unverified_attempt_count = 4;
  permanently_blocked_at = none;
}

row-IsSound : IsSound (codes "m@x.io") (60 * second) 3 (3600 * second) 10 row
row-IsSound = ground arith

count_allowed-le_example :
    4
      + count_allowed
          (codes "m@x.io")
          (60 * second)
          3
          (3600 * second)
          10
          (some row)
          (40 * second ∷ 100 * second ∷ 4000 * second ∷ [])
    ≤ max 1 10
count_allowed-le_example =
    count_allowed-le (codes "m@x.io") (60 * second) 3 (3600 * second) 10 (some row)
      (40 * second ∷ 100 * second ∷ 4000 * second ∷ []) row-IsSound

count_allowed-window_example :
    count_allowed
      (codes "m@x.io")
      (60 * second)
      3
      (3600 * second)
      10
      none
      (5 ∷ 100 * second ∷ 200 * second ∷ 300 * second ∷ [])
    ≤ max 1 3
count_allowed-window_example =
    count_allowed-window (codes "m@x.io") (60 * second) 3 (3600 * second) 10 5
      (100 * second ∷ 200 * second ∷ 300 * second ∷ [])
      (ground arith, (ground arith, (ground arith, tt)))

evaluate_send-eq-allow_iff_example :
    (evaluate_send row (100 * second) (60 * second) 3 (3600 * second) 10 ≡ allow) ↔ (
      (row.permanently_blocked_at ≡ none)
      × (row.total_unverified_attempt_count < 10)
      × ((0 + 3600 * second ≤ 100 * second)
          ⊎ (IsOver row.blocked_until (100 * second)
              × (row.last_attempt_at + 60 * second ≤ 100 * second)
              × (row.attempt_count < 3))))
evaluate_send-eq-allow_iff_example =
    evaluate_send-eq-allow_iff row (100 * second) (60 * second) 3 (3600 * second) 10

cools : evaluate_send row (40 * second) (60 * second) 3 (3600 * second) 10 ≡ cooldown_for 50
unfolding evaluate_send evaluate_block evaluate_pace seconds_until
cools = refl

evaluate_send-cooldown_for_example :
    (40 * second < 90 * second)
    × (90 * second < 40 * second + (50 + 1) * second)
    × ((◌≡◌ {A = ℕ} 50 1) ⊎ (40 * second + 50 * second ≤ 90 * second))
evaluate_send-cooldown_for_example =
    evaluate_send-cooldown_for row (40 * second) (60 * second) 3 (3600 * second) 10 cools

abbrev attempted_world : World
attempted_world =
    (consume_magic_link_send_attempt env (codes "m@x.io") 1000 (60 * second) 3 (3600 * second) 10
      world).1

attempted :
    consume_magic_link_send_attempt env
      (codes "m@x.io")
      1000
      (60 * second)
      3
      (3600 * second)
      10
      world
    ≡ (ok allow, attempted_world)
unfolding consume_magic_link_send_attempt finish_send_attempt decide select_one fetch write pure
    tick ◌>>=◌
attempted = refl

consume-after_example :
    (allow ≡ decide (throttle_of (codes "m@x.io") world.db) 1000 (60 * second) 3 (3600 * second) 10)
    × (throttle_of (codes "m@x.io") attempted_world.db
        ≡ after
            (codes "m@x.io")
            (60 * second)
            3
            (3600 * second)
            10
            (throttle_of (codes "m@x.io") world.db)
            1000)
    × ((other : Text)
        → other ≢ codes "m@x.io"
        → throttle_of other attempted_world.db ≡ throttle_of other world.db)
consume-after_example =
    consume-after env (codes "m@x.io") 1000 (60 * second) 3 (3600 * second) 10 world allow
      attempted_world attempted
