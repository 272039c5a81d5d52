-- ===== src/AuthService/Validity.antt =====
-- Who a session token stands for, and that a session that has ended stands for nobody.
use mathlib.Core.Option
use lala_search.Prelude.{
  ℕ, suc, ◌≡◌, ◌≢◌, ◌⊎◌, ◌↔◌, subst, true, false, Option, none, some, List, [], ◌∷◌, arith,
  Option-cases, Bool-cases, inl, inr, ◌==◌,
}
use lala_search.Prelude.Text.{Text}
use lala_search.Prelude.Table.{select_one, delete_rows}
use lala_search.Prelude.Table.Laws.{select_one_sound, select_one-delete_rows}
use lala_search.Models.Rows.{UserRow}
use lala_search.Models.Auth.{Session, User, OrgMembership, AuthUser, session_is_expired}
use lala_search.World.{Database, World, Env, Result, tick, ok, ◌>>=◌, fetch, now, write, ignore}
use lala_search.World.Success.{write-eq-ok}
use lala_search.AuthDb.Users.{to_user, has_user_id, get_user_by_id}
use lala_search.AuthDb.Sessions.{
  is_session, get_session, delete_session, delete_user_sessions, touch_session,
}
use lala_search.AuthDb.Organizations.{is_active_of, to_membership, get_org_membership}
use lala_search.AuthService.Config.{hash_token}
use lala_search.AuthService.Sessions.{
  auth_user, authenticate, drop_expired, validate_found, validate_session, sign_out, sign_out_all,
}

-- The database holds a session of this digest that has not expired at `now`, its user, who is not
-- deleted, and the user's active membership of the session's tenant.
pub record Holds (d : Database) (h : Text) (now : ℕ) (a : AuthUser) : Type 0 where
  pub session : Session
  pub stored : select_one (is_session h) d.sessions ≡ some session
  pub current : session_is_expired session now ≡ false
  pub user : User
  pub known : Option.map to_user (select_one (has_user_id session.user_id) d.users) ≡ some user
  pub membership : OrgMembership
  pub joined :
      Option.map to_membership
        (select_one (is_active_of session.tenant_id session.user_id) d.org_memberships)
      ≡ some membership
  pub named : a ≡ auth_user user session membership

-- The user and the membership that are read for a session.
abbrev user_of : Session → Database → Option User
user_of s d = Option.map to_user (select_one (has_user_id s.user_id) d.users)

abbrev membership_of : Session → Database → Option OrgMembership
membership_of s d =
    Option.map to_membership (select_one (is_active_of s.tenant_id s.user_id) d.org_memberships)

module _ (e : Env) (token : Text) (w : World) where
  abbrev answer : Result (Option AuthUser)
  answer = (validate_session e token w).0

  abbrev stored_session : Option Session
  stored_session = select_one (is_session (hash_token e token)) w.sessions

  answer_of_none : stored_session ≡ none → (a : AuthUser) → answer ≢ ok (some a)
  unfolding validate_session validate_found get_session ◌>>=◌ fetch tick hash_token
  answer_of_none gone a = ground (arith, gone)

  answer_of_expired :
      (s : Session)
      → stored_session ≡ some s
      → session_is_expired s (e.clock (suc w.steps)) ≡ true
      → (a : AuthUser) → answer ≢ ok (some a)
  unfolding validate_session validate_found get_session drop_expired delete_session ◌>>=◌ fetch
      write tick hash_token now
  answer_of_expired s found expired a = ground (arith, found, expired)

  answer_of_missing :
      (s : Session)
      → stored_session ≡ some s
      → ((user_of s w.db ≡ none) ⊎ (membership_of s w.db ≡ none))
      → (a : AuthUser) → answer ≢ ok (some a)
  unfolding validate_session validate_found get_session drop_expired delete_session authenticate
      get_user_by_id get_org_membership touch_session ◌>>=◌ fetch write tick hash_token now ignore
  answer_of_missing s found missing a = ground (arith, found, missing)

  answer_of_all :
      (s : Session) (u : User) (m : OrgMembership)
      → stored_session ≡ some s
      → user_of s w.db ≡ some u
      → membership_of s w.db ≡ some m
      → (a : AuthUser) → answer ≡ ok (some a)
      → a ≡ auth_user u s m
  unfolding validate_session validate_found get_session drop_expired delete_session authenticate
      get_user_by_id get_org_membership touch_session ◌>>=◌ fetch write tick hash_token now ignore
  answer_of_all s u m found known joined a valid = ground (arith, found, known, joined, valid)

  Holds-of_all :
      (s : Session)
      → stored_session ≡ some s
      → session_is_expired s (e.clock (suc w.steps)) ≡ false
      → (a : AuthUser) → answer ≡ ok (some a)
      → Holds w.db (hash_token e token) (e.clock (suc w.steps)) a
  Holds-of_all s found current a valid = elim (Option-cases (user_of s w.db)) [
    | inl missing ↦ absurd (answer_of_missing s found (inl missing) a valid)
    | inr (u, known) ↦ elim (Option-cases (membership_of s w.db)) [
      | inl missing ↦ absurd (answer_of_missing s found (inr missing) a valid)
      | inr (m, joined) ↦ record {
        session = s;
        stored = found;
        current = current;
        user = u;
        known = known;
        membership = m;
        joined = joined;
        named = answer_of_all s u m found known joined a valid;
      }
    ]
  ]

-- The converse, for a database that answers.
answer_of_Holds :
    (e : Env) (token : Text) (w : World) (a : AuthUser)
    → ((n : ℕ) → e.query_fails n ≡ false)
    → Holds w.db (hash_token e token) (e.clock (suc w.steps)) a
    → (validate_session e token w).0 ≡ ok (some a)
unfolding validate_session validate_found get_session drop_expired delete_session authenticate
    get_user_by_id get_org_membership touch_session ◌>>=◌ fetch write tick hash_token now ignore
answer_of_Holds e token w a reliable h =
    let n = w.steps in
    ground (
      arith,
      reliable n,
      reliable (suc n),
      reliable (suc (suc n)),
      h.stored,
      h.current,
      h.known,
      h.joined,
      h.named,
    )

validate_session-Holds :
    (e : Env) (token : Text) (w : World) (a : AuthUser)
    → (validate_session e token w).0 ≡ ok (some a)
    → Holds w.db (hash_token e token) (e.clock (suc w.steps)) a
validate_session-Holds e token w a valid =
    elim (Option-cases (select_one (is_session (hash_token e token)) w.sessions)) [
      | inl gone ↦ absurd (answer_of_none e token w gone a valid)
      | inr (s, found) ↦ elim (Bool-cases (session_is_expired s (e.clock (suc w.steps)))) [
        | inl expired ↦ absurd (answer_of_expired e token w s found expired a valid)
        | inr current ↦ Holds-of_all e token w s found current a valid
      ]
    ]

-- While the database answers, `validate_session` answers with a user exactly when the database
-- holds a session of the token's digest that has not expired at the time it is read, the
-- session's user, who is not deleted, and the user's active membership of the session's tenant,
-- and the user it names has that address, that tenant and the role that is held there now.
pub validate_session_correct :
    (e : Env) (token : Text) (w : World) (a : AuthUser)
    → ((n : ℕ) → e.query_fails n ≡ false)
    → ((validate_session e token w).0 ≡ ok (some a))
      ↔ Holds w.db (hash_token e token) (e.clock (suc w.steps)) a
validate_session_correct e token w a reliable =
    (validate_session-Holds e token w a, answer_of_Holds e token w a reliable)

-- In the world that a successful sign-out leaves, its token signs nobody in.
pub sign_out-validate_session :
    (e : Env) (token : Text) (w w₁ : World)
    → sign_out e token w ≡ (ok tt, w₁)
    → (a : AuthUser) → (validate_session e token w₁).0 ≢ ok (some a)
unfolding sign_out delete_session
sign_out-validate_session e token w w₁ out a valid =
    let held = validate_session-Holds e token w₁ a valid in
    let gone = write-eq-ok e _ w out in
    ground (
      arith,
      held.stored,
      gone,
      select_one-delete_rows (is_session (hash_token e token)) w.sessions,
    )

user_id_of_known :
    (i : ℕ) (rows : List UserRow) {u : User}
    → Option.map to_user (select_one (has_user_id i) rows) ≡ some u
    → u.user_id ≡ i
user_id_of_known i rows {u} known = elim (Option-cases (select_one (has_user_id i) rows)) [
  | inl missing ↦ absurd (ground (arith, missing, known))
  | inr (r, found) ↦ ground (arith, found, known, select_one_sound (has_user_id i) rows found)
]

-- A session of the user is not among those that are left.
left_of_other :
    (h : Text) (u : ℕ) (rows : List Session) {s : Session}
    → select_one (is_session h) (delete_rows (λ (r : Session). r.user_id == u) rows) ≡ some s
    → s.user_id ≢ u
unfolding select_one delete_rows
left_of_other h u [] found = absurd (ground (arith, found))
left_of_other h u (r ∷ rows) {s} found = ground (arith, left_of_other h u rows {s = s})

-- In the world that a successful `sign_out_all` of a user leaves, no token at all signs that user
-- in.
pub sign_out_all-validate_session :
    (e : Env) (u : ℕ) (w w₁ : World)
    → sign_out_all e u w ≡ (ok tt, w₁)
    → (token : Text) (a : AuthUser) → (validate_session e token w₁).0 ≡ ok (some a)
    → a.user_id ≢ u
unfolding sign_out_all delete_user_sessions
sign_out_all-validate_session e u w w₁ out token a valid =
    let held = validate_session-Holds e token w₁ a valid in
    let gone = write-eq-ok e _ w out in
    let kept =
      subst (λ d. select_one (is_session (hash_token e token)) d.sessions ≡ some held.session) gone
        held.stored in
    let other = left_of_other (hash_token e token) u w.sessions kept in
    let who = user_id_of_known held.session.user_id w₁.users held.known in
    ground (arith, other, who, held.named)
