-- ===== src/AuthService/Calls.antt =====
-- The service under any sequence of calls of its methods, each with any arguments and any outcome.
use lala_search.Prelude.{ℕ, Option, List, [], ◌∷◌}
use lala_search.Prelude.Text.{Text}
use lala_search.Models.Auth.{AuthUser}
use lala_search.World.{Database, World, Env}
use lala_search.AuthDb.Stable.{Stable}
use lala_search.AuthService.Config.{AuthConfig}
use lala_search.AuthService.Sessions.{validate_session, sign_out, sign_out_all}
use lala_search.AuthService.SignIn.{request_magic_link, verify_magic_link}
use lala_search.AuthService.Members.{InviteRequest, invite_user, accept_invitation, remove_member}
use lala_search.AuthService.Stable.{
  request_magic_link-Keeps, verify_magic_link-Keeps, validate_session-Keeps, sign_out-Keeps,
  sign_out_all-Keeps, invite_user-Keeps, accept_invitation-Keeps, remove_member-Keeps,
}

pub data Call : Type 0 where
  requests : Text → Call
  verifies : Text → Option Text → Option Text → ℕ → Call
  validates : Text → Call
  signs_out : Text → Call
  signs_out_all : ℕ → Call
  invites : InviteRequest → Call
  accepts : Text → Option Text → Option Text → Call
  removes : ℕ → ℕ → AuthUser → Call

module _ (e : Env) (config : AuthConfig) where
  -- The world after a call, whether it succeeded or failed.
  unfoldable pub perform : Call → World → World
  perform (requests email) w = (request_magic_link e config email w).1
  perform (verifies token agent ip default) w =
      (verify_magic_link e config token agent ip default w).1
  perform (validates token) w = (validate_session e token w).1
  perform (signs_out token) w = (sign_out e token w).1
  perform (signs_out_all u) w = (sign_out_all e u w).1
  perform (invites r) w = (invite_user e config r w).1
  perform (accepts token agent ip) w = (accept_invitation e config token agent ip w).1
  perform (removes t u r) w = (remove_member e t u r w).1

  unfoldable pub run : World → List Call → World
  run w [] = w
  run w (c ∷ cs) = run (perform c w) cs

  module _ (P : Database → Type 0) (s : Stable e P) where
    perform-Keeps : (c : Call) (w : World) → P w.db → P (perform c w).db
    unfolding perform
    perform-Keeps (requests email) w h = (request_magic_link-Keeps e config P s email).through w h
    perform-Keeps (verifies token agent ip default) w h =
        (verify_magic_link-Keeps e config P s token agent ip default).through w h
    perform-Keeps (validates token) w h = (validate_session-Keeps e config P s token).through w h
    perform-Keeps (signs_out token) w h = (sign_out-Keeps e config P s token).through w h
    perform-Keeps (signs_out_all u) w h = (sign_out_all-Keeps e config P s u).through w h
    perform-Keeps (invites r) w h = (invite_user-Keeps e config P s r).through w h
    perform-Keeps (accepts token agent ip) w h =
        (accept_invitation-Keeps e config P s token agent ip).through w h
    perform-Keeps (removes t u r) w h = (remove_member-Keeps e config P s t u r).through w h

    pub run-Keeps : (w : World) (cs : List Call) → P w.db → P (run w cs).db
    unfolding run
    run-Keeps w [] h = h
    run-Keeps w (c ∷ cs) h = run-Keeps (perform c w) cs (perform-Keeps c w h)
