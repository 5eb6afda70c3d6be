-- ===== src/Auth/Login.antt =====
-- What a sign-in returns and leaves behind: `AuthService.login`.
use in_work_marketing_os_bac.Base.{
  ℕ, ◌+◌, ◌*◌, ◌≤◌, ◌<◌, Bool, true, false, none, some, List, [], ◌∷◌, ◌++◌, ◌≡◌, ◌⊎◌, inl, inr,
  refl, ap, arith, find_by, count, Bool-cases, leb,
}
use in_work_marketing_os_bac.Base.Rows
use in_work_marketing_os_bac.Base.Rows.{
  find_by-All, find_by-append, find_by-update_if, find_by-weaken, find_by-remove_if_missing,
}
use in_work_marketing_os_bac.Base.Selects.{find_by-removed}
use in_work_marketing_os_bac.Errors.{
  Exn, text, auth, Result, ok, err, ◌>>◌, Result-cases, >>=-eq-ok,
}
use in_work_marketing_os_bac.Model.Tables.{Text, User}
use in_work_marketing_os_bac.Audit.Laws.{text_eq_refl}
use in_work_marketing_os_bac.RateLimit.{
  Store, enforce, clear, hits_of, forget, is_bucket, hits_or_empty,
}
use in_work_marketing_os_bac.Auth.Packages.{Claims, Libraries}
use in_work_marketing_os_bac.Auth.{
  lockout_scope, lockout_times, lockout_microseconds, token_type_access, UserSession, AuthState,
  LoginRequest, LoginEnv, has_hash, user_has_id, get_by_token_hash, prehash, hash_password,
  verify_password, token_id_hash, create_access_token, get_by_email, authenticate, new_session,
  signed_in, uuid_taken, open_session, login, get_current_user,
}
use in_work_marketing_os_bac.Auth.Current.{Grants, Grants-get_current_user}

-- No two users have one id.
abbrev pub IsKeyed : List User → Type 0
IsKeyed users = (i : ℕ) → count (user_has_id i) users ≤ 1

-- A user found by any test is the one found by its id.
found_by_id :
    (p : User → Bool) (users : List User) (u : User)
    → IsKeyed users
    → find_by p users ≡ some u
    → find_by (user_has_id u.id) users ≡ some u
found_by_id p users u keyed found =
    find_by-All (λ x. find_by (user_has_id x.id) users ≡ some x) p users u
      (Rows.self_lookup (λ (x : User). x.id) users keyed) found

module _ {Token : Type 0} (lib : Libraries Token) where
  -- The limiter's verdict on a sign-in.
  abbrev pub throttle : LoginEnv → AuthState → LoginRequest → Store × Result (Unit {0})
  throttle env st d =
      enforce env.rate_limit_enabled st.limiter env.ticks lockout_scope (lib.lower d.email)
        lockout_times lockout_microseconds

  -- The state after the budget is refunded.
  abbrev pub refunded : LoginEnv → AuthState → LoginRequest → AuthState
  refunded env st d = record st {
    limiter = clear env.rate_limit_enabled (throttle env st d).0 lockout_scope (lib.lower d.email);
  }

  login_checks :
      (env : LoginEnv) (st : AuthState) (d : LoginRequest) (u : User)
      → (throttle env st d).1 ≡ ok tt
      → authenticate lib st.users d ≡ ok u
      → login lib env st d ≡ open_session lib env (refunded env st d) u
  unfolding login
  login_checks env st d u h a = rw (h, login, a) refl

  login_refuses :
      (env : LoginEnv) (st : AuthState) (d : LoginRequest) (e : Exn)
      → ((throttle env st d).1 >> authenticate lib st.users d) ≡ err e
      → login lib env st d ≡ (record st { limiter = (throttle env st d).0 }, err e)
  unfolding login
  login_refuses env st d e h = rw (h, login) refl

  -- A sign-in is refused before it writes the tables, or opens a session after all checks.
  pub login_cases :
      (env : LoginEnv) (st : AuthState) (d : LoginRequest)
      → ((e : Exn) × (login lib env st d ≡ (record st { limiter = (throttle env st d).0 }, err e)))
        ⊎ ((u : User) × (authenticate lib st.users d ≡ ok u)
            × (login lib env st d ≡ open_session lib env (refunded env st d) u))
  login_cases env st d =
      elim (Result-cases ((throttle env st d).1 >> authenticate lib st.users d)) [
        | inr (e, h) ↦ inl (e, login_refuses env st d e h)
        | inl (u, h) ↦
            (let (done, admitted, checked) =
                >>=-eq-ok (throttle env st d).1 (λ (_ : Unit {0}). authenticate lib st.users d) h in
              inr (u, checked, login_checks env st d u admitted checked))
      ]

  -- What is raised when the credentials fail: the limiter speaks first.
  abbrev refusal : Result (Unit {0}) → Exn → Result (User × Token)
  refusal (ok _) e = err e
  refusal (err e') e = err e'

  refused_login :
      (env : LoginEnv) (st : AuthState) (d : LoginRequest) (e : Exn)
      → authenticate lib st.users d ≡ err e
      → login lib env st d
        ≡ (record st { limiter = (throttle env st d).0 }, refusal (throttle env st d).1 e)
  refused_login env st d e h = elim (Result-cases (throttle env st d).1) [
    | inl (done, r) ↦ rw r (login_refuses env st d e (rw r h))
    | inr (e', r) ↦ rw r (login_refuses env st d e' (rw r refl))
  ]

  unknown_address :
      (users : List User) (d : LoginRequest)
      → get_by_email lib users d.email ≡ none
      → authenticate lib users d ≡ err (auth (text "Invalid email or password."))
  unfolding authenticate
  unknown_address users d h = rw (h, authenticate) refl

  wrong_password :
      (users : List User) (d : LoginRequest) (u : User)
      → get_by_email lib users d.email ≡ some u
      → verify_password lib d.password u.password_hash ≡ false
      → authenticate lib users d ≡ err (auth (text "Invalid email or password."))
  unfolding authenticate
  wrong_password users d u h w = rw (h, authenticate, w) refl

  -- The password that was hashed passes.
  verify_password-hash_password :
      (plain salt : Text) → verify_password lib plain (hash_password lib salt plain) ≡ true
  unfolding verify_password hash_password
  verify_password-hash_password plain salt = rw (lib.checkpw-hashpw (prehash lib plain) salt) refl

  -- The credentials of an active user.
  pub record IsAuthentic (users : List User) (d : LoginRequest) (u : User) : Type 0 where
    pub salt : Text
    pub known : get_by_email lib users d.email ≡ some u
    pub hashed : u.password_hash ≡ hash_password lib salt d.password
    pub active : u.is_active ≡ true

  authenticate_lem :
      (users : List User) (d : LoginRequest) (u : User)
      → IsAuthentic users d u
      → authenticate lib users d ≡ ok u
  unfolding authenticate
  authenticate_lem users d u a =
      rw
        (a.known, authenticate, a.hashed, verify_password-hash_password d.password a.salt, a.active)
        refl

  not_taken :
      (env : LoginEnv) (sessions : List UserSession)
      → uuid_taken lib env sessions ≡ false
      → find_by (has_hash (token_id_hash lib env.jti)) sessions ≡ none
  unfolding find_by
  not_taken env [] h = refl
  not_taken env (s ∷ ss) h = ground (arith, not_taken env ss)

  new_session_found :
      (env : LoginEnv) (sessions : List UserSession) (u : User)
      → uuid_taken lib env sessions ≡ false
      → get_by_token_hash (sessions ++ new_session lib env u ∷ []) (token_id_hash lib env.jti)
        ≡ some (new_session lib env u)
  unfolding get_by_token_hash
  new_session_found env sessions u fresh =
      rw
        (
          find_by-append (has_hash (token_id_hash lib env.jti)) sessions
              (new_session lib env u ∷ []),
          not_taken env sessions fresh,
        )
        (unfold find_by in ground (arith, text_eq_refl (token_id_hash lib env.jti)))

  -- The state and the token of a sign-in whose UUIDs are fresh.
  token_of : LoginEnv → User → Token
  token_of env u = create_access_token lib env.now env.access_token_expire_minutes u.id env.jti

  token_in_force :
      (env : LoginEnv) (st : AuthState) (u : User) (now : ℕ)
      → IsKeyed st.users
      → find_by (user_has_id u.id) st.users ≡ some u
      → u.is_active ≡ true
      → uuid_taken lib env st.sessions ≡ false
      → env.now ≤ now
      → now < env.now + 60 * env.access_token_expire_minutes
      → Grants lib now (open_session lib env st u).0 (token_of env u) (signed_in env u)
  unfolding open_session token_of create_access_token
  token_in_force env st u now keyed found active fresh later before =
      let payload : Claims = record {
        sub = u.id;
        kind = token_type_access;
        iat = env.now;
        exp = env.now + 60 * env.access_token_expire_minutes;
        jti = some env.jti;
      } in
      let unexpired : leb (env.now + 60 * env.access_token_expire_minutes) now ≡ false =
        ground arith in
      rw (fresh, open_session)
        record {
          payload = payload;
          decoded = rw (lib.decode-encode true now payload later, unexpired) refl;
          access = refl;
          live =
              inr (env.jti, new_session lib env u, refl, new_session_found env st.sessions u fresh);
          found = find_by-update_if (user_has_id u.id) (signed_in env) st.users u (λ x. refl) found;
          active = active;
        }

-- A sign-in that the limiter admits, with the address and the password of an active user, and with fresh
-- UUIDs, returns that user with a token, and at every time until the token expires `get_current_user` accepts
-- it as that user's.
pub login_admits :
    {Token : Type 0} (lib : Libraries Token) (env : LoginEnv) (st : AuthState) (d : LoginRequest)
    (u : User) (now : ℕ)
    → IsKeyed st.users
    → (throttle lib env st d).1 ≡ ok tt
    → IsAuthentic lib st.users d u
    → uuid_taken lib env st.sessions ≡ false
    → env.now ≤ now
    → now < env.now + 60 * env.access_token_expire_minutes
    → (token : Token) × ((login lib env st d).1 ≡ ok (signed_in env u, token))
      × (get_current_user lib now (login lib env st d).0 (some token) ≡ ok (signed_in env u))
unfolding open_session token_of get_by_email
login_admits lib env st d u now keyed admitted authentic fresh later before =
    let checked : authenticate lib st.users d ≡ ok u =
      authenticate_lem lib st.users d u authentic in
    (
      token_of lib env u,
      rw (login_checks lib env st d u admitted checked, open_session, fresh) refl,
      rw (login_checks lib env st d u admitted checked) (
          Grants-get_current_user lib now (open_session lib env (refunded lib env st d) u).0
            (token_of lib env u) (signed_in env u)
            (token_in_force lib env (refunded lib env st d) u now keyed
              (found_by_id _ st.users u keyed authentic.known) authentic.active fresh later
              before)),
    )

-- A sign-in that raises, whatever the exception, leaves the users and the sessions as they were.
login_refused :
    {Token : Type 0} (lib : Libraries Token) (env : LoginEnv) (st : AuthState) (d : LoginRequest)
    (e : Exn)
    → (login lib env st d).1 ≡ err e
    → ((login lib env st d).0.users ≡ st.users) × ((login lib env st d).0.sessions ≡ st.sessions)
unfolding open_session
login_refused lib env st d e h = elim (login_cases lib env st d) [
  | inl (_, same) ↦ rw same (refl, refl)
  | inr (u, _, same) ↦ elim (Bool-cases (uuid_taken lib env st.sessions)) [
    | inl t ↦ rw (same, open_session, t) (refl, refl)
    | inr t ↦ absurd (cc (rw (same, open_session, t) at h))
  ]
]

-- On two databases with one limiter, an address that no user has in the first gets the same answer there, and
-- leaves the same limiter, as it gets in the second from its user when the password is wrong.
pub login_hides_accounts :
    {Token : Type 0} (lib : Libraries Token) (env : LoginEnv) (st st' : AuthState)
    (d : LoginRequest) (u : User)
    → st.limiter ≡ st'.limiter
    → get_by_email lib st.users d.email ≡ none
    → get_by_email lib st'.users d.email ≡ some u
    → verify_password lib d.password u.password_hash ≡ false
    → ((login lib env st d).1 ≡ (login lib env st' d).1)
      × ((login lib env st d).0.limiter ≡ (login lib env st' d).0.limiter)
login_hides_accounts lib env st st' d u same unknown known wrong =
    rw
      (
        refused_login lib env st d (auth (text "Invalid email or password."))
            (unknown_address lib st.users d unknown),
        refused_login lib env st' d (auth (text "Invalid email or password."))
            (wrong_password lib st'.users d u known wrong),
        same,
      )
      (refl, refl)

-- A sign-in that returns a token, while the limiter is enabled, leaves the account's budget unspent.
pub login_refunds :
    {Token : Type 0} (lib : Libraries Token) (env : LoginEnv) (st : AuthState) (d : LoginRequest)
    (u : User) (token : Token)
    → env.rate_limit_enabled ≡ true
    → (login lib env st d).1 ≡ ok (u, token)
    → hits_of (login lib env st d).0.limiter.buckets lockout_scope (lib.lower d.email) ≡ []
unfolding open_session hits_of clear forget
login_refunds lib env st d u token on h = elim (login_cases lib env st d) [
  | inl (e, same) ↦ absurd (cc (rw same at h))
  | inr (v, _, same) ↦ elim (Bool-cases (uuid_taken lib env st.sessions)) [
    | inl t ↦ absurd (cc (rw (same, open_session, t) at h))
    | inr t ↦
        rw (same, open_session, t, on, clear)
          (ap hits_or_empty (find_by-removed (is_bucket lockout_scope (lib.lower d.email)) _))
  ]
]
