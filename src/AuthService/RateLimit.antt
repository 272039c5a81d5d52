-- ===== src/AuthService/RateLimit.antt =====
-- How many sign-in letters the service sends to one address.
use lala_search.Prelude.{
  ℕ, ◌+◌, ◌≤◌, max, ◌≡◌, refl, sym, ap, ◌∙◌, subst, false, List, [], ◌∷◌, ◌++◌, arith,
  if◌then◌else◌, Bool-cases, inl, inr, ◌⊎◌,
}
use lala_search.Prelude.Text.{Text, trim, text_eq, text_eq_iff, text_eq_refl}
use lala_search.Models.Throttle.{
  MagicLinkSendDecision, allow, cooldown_for, blocked_for, permanently_blocked,
}
use lala_search.Models.Throttle.Machine.{AreSound, total, allowed}
use lala_search.Models.Throttle.Bounds.{after-AreSound, total-after, total-le}
use lala_search.World.{
  Failure, Database, Mail, magic_link, invitation, World, Env, Result, ok, err, tick, pure, raise,
  now, draw_token, write_if, send, ◌>>=◌,
}
use lala_search.AuthDb.MagicLinks.{create_magic_link_token, consume_magic_link_send_attempt}
use lala_search.AuthDb.Throttling.{throttle_of, consume-after, consume-db, consume-outbox}
use lala_search.AuthService.Config.{
  AuthConfig, seconds, minutes, hash_token, generate_token, canonicalize_email_for_rate_limit,
}
use lala_search.AuthService.SignIn.{check_decision, request_magic_link}

-- How many of the letters are sign-in letters to the address.
unfoldable pub letters_to : Text → List Mail → ℕ
letters_to email [] = 0
letters_to email (magic_link to token ∷ mails) =
    (if text_eq (canonicalize_email_for_rate_limit to) email then 1 else 0) + letters_to email mails
letters_to email (invitation to token tenant inviter ∷ mails) = letters_to email mails

letters_to-append :
    (email to token : Text) (mails : List Mail)
    → letters_to email (mails ++ magic_link to token ∷ [])
      ≡ letters_to email mails
        + (if text_eq (canonicalize_email_for_rate_limit to) email then 1 else 0)
unfolding letters_to
letters_to-append email to token [] = omega arith
letters_to-append email to token (magic_link x y ∷ mails) =
    omega (arith, letters_to-append email to token mails)
letters_to-append email to token (invitation x y z u ∷ mails) =
    letters_to-append email to token mails

Result-cases :
    {A : Type 0} (p : Result A × World)
    → ((a : A) × (p ≡ (ok a, p.1))) ⊎ ((x : Failure) × (p.0 ≡ err x))
Result-cases (ok a, w) = inl (a, refl)
Result-cases (err x, w) = inr (x, refl)

module _ (e : Env) (config : AuthConfig) where
  -- The throttle's row of an address, and the machine with the settings of the service.
  abbrev key : Text → Text
  key address = canonicalize_email_for_rate_limit (trim address)

  abbrev attempt : Text → World → Result MagicLinkSendDecision × World
  attempt address w =
      consume_magic_link_send_attempt e (key address) (e.clock w.steps)
        (seconds config.magic_link_send_cooldown_seconds) config.magic_link_max_send_attempts
        (minutes config.magic_link_send_window_minutes)
        config.magic_link_permanent_block_after_attempts w

  outbox_after :
      (address : Text) (w : World) (d : MagicLinkSendDecision) (w₁ : World)
      → attempt address w ≡ (ok d, w₁)
      → w₁.outbox ≡ w.outbox
  outbox_after address w d w₁ done =
      sym (ap (λ (p : Result MagicLinkSendDecision × World). p.1.outbox) done)
      ∙ consume-outbox e (key address) (e.clock w.steps)
          (seconds config.magic_link_send_cooldown_seconds) config.magic_link_max_send_attempts
          (minutes config.magic_link_send_window_minutes)
          config.magic_link_permanent_block_after_attempts w

  request_of_err :
      (address : Text) (w : World) (x : Failure)
      → (attempt address w).0 ≡ err x
      → ((request_magic_link e config address w).1.outbox ≡ w.outbox)
        × ((request_magic_link e config address w).1.db ≡ w.db)
  unfolding request_magic_link ◌>>=◌ now
  request_of_err address w x failed = (
    ground (
      arith,
      failed,
      consume-outbox e (key address) (e.clock w.steps)
          (seconds config.magic_link_send_cooldown_seconds) config.magic_link_max_send_attempts
          (minutes config.magic_link_send_window_minutes)
          config.magic_link_permanent_block_after_attempts w,
    ),
    ground (
      arith,
      failed,
      consume-db e (key address) (e.clock w.steps) (seconds config.magic_link_send_cooldown_seconds)
          config.magic_link_max_send_attempts (minutes config.magic_link_send_window_minutes)
          config.magic_link_permanent_block_after_attempts w x failed,
    ),
  )

  -- The letters to an address that a request for `address` may send after this decision
  abbrev quota : Text → Text → MagicLinkSendDecision → ℕ
  quota email address d = if text_eq (key address) email then allowed d else 0

  request_of_ok :
      (email address : Text) (w : World) (d : MagicLinkSendDecision) (w₁ : World)
      → attempt address w ≡ (ok d, w₁)
      → ((request_magic_link e config address w).1.magic_link_send_attempts
          ≡ w₁.magic_link_send_attempts)
        × (letters_to email (request_magic_link e config address w).1.outbox
            ≤ letters_to email w₁.outbox + quota email address d)
  unfolding request_magic_link ◌>>=◌ now check_decision generate_token draw_token hash_token pure
      raise tick create_magic_link_token write_if send
  request_of_ok email address w allow w₁ done = (
    ground (arith, done),
    ground (
      arith,
      done,
      letters_to-append email (trim address) (e.random_hex w₁.tokens_drawn) w₁.outbox,
    ),
  )
  request_of_ok email address w (cooldown_for r) w₁ done =
      (ground (arith, done), ground (arith, done))
  request_of_ok email address w (blocked_for r) w₁ done =
      (ground (arith, done), ground (arith, done))
  request_of_ok email address w permanently_blocked w₁ done =
      (ground (arith, done), ground (arith, done))

  -- The row of an address is one that the throttle may have stored.
  abbrev pub HasSoundRow : Text → Database → Type 0
  HasSoundRow email d =
      AreSound email (seconds config.magic_link_send_cooldown_seconds)
        config.magic_link_max_send_attempts (minutes config.magic_link_send_window_minutes)
        config.magic_link_permanent_block_after_attempts (throttle_of email d)

  -- The world after these requests, in this order.
  unfoldable pub request_all : World → List Text → World
  request_all w [] = w
  request_all w (address ∷ addresses) =
      request_all (request_magic_link e config address w).1 addresses

  -- What one request does to the row of an address: it leaves a sound row, whose total it raises by
  -- as many as the letters that it sends, or more.
  record Step (email address : Text) (w : World) : Type 0 where
    sound : HasSoundRow email (request_magic_link e config address w).1.db
    raised :
        total (throttle_of email w.db)
          + letters_to email (request_magic_link e config address w).1.outbox
        ≤ total (throttle_of email (request_magic_link e config address w).1.db)
          + letters_to email w.outbox

  Step-of_err :
      (email address : Text) (w : World) (x : Failure)
      → HasSoundRow email w.db
      → (attempt address w).0 ≡ err x
      → Step email address w
  Step-of_err email address w x h failed =
      let (refused, same) = request_of_err address w x failed in
      record { sound = rw same h; raised = rw (same, refused) (omega arith) }

  -- A request for another address.
  Step-of_other :
      (email address : Text) (w : World) (d : MagicLinkSendDecision) (w₁ : World)
      → HasSoundRow email w.db
      → attempt address w ≡ (ok d, w₁)
      → text_eq (key address) email ≡ false
      → Step email address w
  Step-of_other email address w d w₁ h done apart =
      let (kept, sends) = request_of_ok email address w d w₁ done in
      let (_, _, others) =
        consume-after e (key address) (e.clock w.steps)
          (seconds config.magic_link_send_cooldown_seconds) config.magic_link_max_send_attempts
          (minutes config.magic_link_send_window_minutes)
          config.magic_link_permanent_block_after_attempts w d w₁ done in
      let same = others email (λ p. ground (arith, apart, text_eq_iff (key address) email, p)) in
      record {
        sound = rw (kept, same) h;
        raised =
            rw (kept, same) (omega (arith, rw (apart, outbox_after address w d w₁ done) at sends));
      }

  -- A request for the address itself.
  Step-of_self :
      (address : Text) (w : World) (d : MagicLinkSendDecision) (w₁ : World)
      → HasSoundRow (key address) w.db
      → attempt address w ≡ (ok d, w₁)
      → Step (key address) address w
  Step-of_self address w d w₁ h done =
      let (kept, sends) = request_of_ok (key address) address w d w₁ done in
      let (is, moved, _) =
        consume-after e (key address) (e.clock w.steps)
          (seconds config.magic_link_send_cooldown_seconds) config.magic_link_max_send_attempts
          (minutes config.magic_link_send_window_minutes)
          config.magic_link_permanent_block_after_attempts w d w₁ done in
      record {
        sound =
            rw (kept, moved)
              (after-AreSound (key address) (seconds config.magic_link_send_cooldown_seconds)
                config.magic_link_max_send_attempts (minutes config.magic_link_send_window_minutes)
                config.magic_link_permanent_block_after_attempts (throttle_of (key address) w.db)
                (e.clock w.steps) h);
        raised =
            rw
              (
                kept,
                moved,
                total-after (key address) (seconds config.magic_link_send_cooldown_seconds)
                    config.magic_link_max_send_attempts
                    (minutes config.magic_link_send_window_minutes)
                    config.magic_link_permanent_block_after_attempts
                    (throttle_of (key address) w.db) (e.clock w.steps),
              )
              (omega (
                arith,
                rw (text_eq_refl (key address), outbox_after address w d w₁ done, is) at sends,
              ));
      }

  step : (email address : Text) (w : World) → HasSoundRow email w.db → Step email address w
  step email address w h = elim (Result-cases (attempt address w)) [
    | inr (x, failed) ↦ Step-of_err email address w x h failed
    | inl (d, done) ↦ elim (Bool-cases (text_eq (key address) email)) [
      | inr apart ↦ Step-of_other email address w d (attempt address w).1 h done apart
      | inl same ↦
          subst (λ k. HasSoundRow k w.db → Step k address w)
            ((text_eq_iff (key address) email).0 same)
            (λ sound. Step-of_self address w d (attempt address w).1 sound done) h
    ]
  ]

  -- Whatever addresses are requested, in whatever order and at whatever times, and whichever
  -- queries and letters fail, the sign-in letters in the outbox that this adds for one address number
  -- at most the limit of unverified attempts (or one, if that is zero), those that its sound row has
  -- counted included.
  pub letters_to-request_all :
      (email : Text) (w : World) (addresses : List Text)
      → HasSoundRow email w.db
      → total (throttle_of email w.db) + letters_to email (request_all w addresses).outbox
        ≤ max 1 config.magic_link_permanent_block_after_attempts + letters_to email w.outbox
  unfolding request_all
  letters_to-request_all email w [] h = omega (
    arith,
    total-le email (seconds config.magic_link_send_cooldown_seconds)
        config.magic_link_max_send_attempts (minutes config.magic_link_send_window_minutes)
        config.magic_link_permanent_block_after_attempts (throttle_of email w.db) h,
  )
  letters_to-request_all email w (address ∷ addresses) h =
      let s = step email address w h in
      let rest =
        letters_to-request_all email (request_magic_link e config address w).1 addresses s.sound in
      omega (arith, s.raised, rest)
