-- ===== src/Auth.antt =====
-- Sign-in and server-side sessions: app/services/auth_service.py, app/core/security.py,
-- app/repositories/session_repository.py and the user dependencies of app/api/deps.py.
-- Wall-clock times are seconds, the limiter's are microseconds of its own clock. A UUID is a
-- number, and a token, hash or password is a text.
use in_work_marketing_os_bac.Base.{
  ℕ, ◌+◌, ◌*◌, String, Bool, true, false, Option, none, some, List, [], ◌∷◌, ◌++◌, ◌==◌, ◌&&◌, ◌||◌,
  not, leb, ltb, str_eq, any, if◌then◌else◌, find_by, update_if, remove_if,
}
use in_work_marketing_os_bac.Errors.{
  text, auth, forbidden, integrity, Result, ok, err, ◌>>=◌, ◌>>◌, raise_if, or_raise,
}
use in_work_marketing_os_bac.Model.Enums.{UserRole, is_admin}
use in_work_marketing_os_bac.Model.Tables.{Text, User}
use in_work_marketing_os_bac.Audit.{text_eq}
use in_work_marketing_os_bac.Auth.Packages.{Claims, Decoded, claims, expired, invalid, Libraries}
use in_work_marketing_os_bac.RateLimit.{Store, enforce, clear}
pub mod Packages
pub mod Current
pub mod Login
pub mod Revocation

-- `_ACCOUNT_LOCKOUT_SCOPE`, `_ACCOUNT_LOCKOUT_TIMES`, `_ACCOUNT_LOCKOUT_SECONDS`
abbrev pub lockout_scope : String
lockout_scope = "login-account"

abbrev pub lockout_times : ℕ
lockout_times = 20

abbrev pub lockout_microseconds : ℕ
lockout_microseconds = 300 * 1_000_000

-- `TOKEN_TYPE_ACCESS`
abbrev pub token_type_access : String
token_type_access = "access"

pub record UserSession : Type 0 where
  pub id : ℕ
  pub user_id : ℕ
  pub token_hash : Text
  pub user_agent : Option Text
  pub ip_address : Option Text
  pub expires_at : ℕ

-- The tables `users` and `sessions`, and the process's rate-limit store.
pub record AuthState : Type 0 where
  pub users : List User
  pub sessions : List UserSession
  pub limiter : Store

pub record LoginRequest : Type 0 where
  pub email : Text
  pub password : Text

-- What a sign-in takes from outside: settings, both clocks, two fresh UUIDs and the caller's.
pub record LoginEnv : Type 0 where
  pub rate_limit_enabled : Bool
  pub access_token_expire_minutes : ℕ
  pub now : ℕ
  pub ticks : ℕ
  pub new_id : ℕ
  pub jti : Text
  pub user_agent : Option Text
  pub ip : Option Text

abbrev pub has_hash : Text → UserSession → Bool
has_hash h s = text_eq s.token_hash h

abbrev pub user_has_id : ℕ → User → Bool
user_has_id i u = u.id == i

-- `SessionRepository.get_by_token_hash`
unfoldable pub get_by_token_hash : List UserSession → Text → Option UserSession
get_by_token_hash sessions h = find_by (has_hash h) sessions

-- `SessionRepository.delete_by_token_hash`
unfoldable pub delete_by_token_hash : List UserSession → Text → List UserSession × Bool
delete_by_token_hash sessions h = elim (get_by_token_hash sessions h) [
  | none ↦ (sessions, false)
  | some session ↦ (remove_if (λ (s : UserSession). s.id == session.id) sessions, true)
]

-- `SessionRepository.delete_for_user`
unfoldable pub delete_for_user : List UserSession → ℕ → List UserSession
delete_for_user sessions user_id = remove_if (λ (s : UserSession). s.user_id == user_id) sessions

-- `SessionRepository.purge_expired`, less the number of rows that it returns
unfoldable pub purge_expired : List UserSession → ℕ → List UserSession
purge_expired sessions now = remove_if (λ (s : UserSession). ltb s.expires_at now) sessions

abbrev pub signed_in : LoginEnv → User → User
signed_in env u = record u { last_login_at = some env.now }

-- The library calls are those of `lib`.
module _ {Token : Type 0} (lib : Libraries Token) where
  -- `_prehash`
  unfoldable pub prehash : Text → Text
  prehash plain = lib.b64encode (lib.sha256 plain)

  unfoldable pub hash_password : Text → Text → Text
  hash_password salt plain = lib.hashpw (prehash plain) salt

  abbrev or_false : Option Bool → Bool
  or_false none = false
  or_false (some b) = b

  -- `checkpw` raises ValueError, here `none`, on a malformed hash.
  unfoldable pub verify_password : Text → Text → Bool
  verify_password plain password_hash = or_false (lib.checkpw (prehash plain) password_hash)

  unfoldable pub token_id_hash : Text → Text
  token_id_hash jti = lib.hexdigest (lib.sha256 jti)

  -- `create_access_token` with a `jti`; `expires_minutes` is the setting
  unfoldable pub create_access_token : ℕ → ℕ → ℕ → Text → Token
  create_access_token now expire_minutes subject jti = lib.encode (record {
    sub = subject;
    kind = token_type_access;
    iat = now;
    exp = now + 60 * expire_minutes;
    jti = some jti;
  })

  -- `UserRepository.get_by_email`
  unfoldable pub get_by_email : List User → Text → Option User
  get_by_email users email = find_by (λ (u : User). text_eq u.email (lib.lower email)) users

  abbrev pub hash_or_dummy : Option User → Text
  hash_or_dummy none = lib.dummy_password_hash
  hash_or_dummy (some user) = user.password_hash

  -- The credential checks of `login`.
  unfoldable pub authenticate : List User → LoginRequest → Result User
  authenticate users d = do
    let user = get_by_email users d.email
    let password_ok = verify_password d.password (hash_or_dummy user)
    u ← or_raise user (auth (text "Invalid email or password."))
    raise_if (not password_ok) (auth (text "Invalid email or password."))
    raise_if (not u.is_active) (auth (text "This account is disabled."))
    ok u

  abbrev pub new_session : LoginEnv → User → UserSession
  new_session env u = record {
    id = env.new_id;
    user_id = u.id;
    token_hash = token_id_hash env.jti;
    user_agent = env.user_agent;
    ip_address = env.ip;
    expires_at = env.now + 60 * env.access_token_expire_minutes;
  }

  -- The unique columns of `sessions`.
  abbrev pub uuid_taken : LoginEnv → List UserSession → Bool
  uuid_taken env sessions =
      any (λ (s : UserSession). s.id == env.new_id || has_hash (token_id_hash env.jti) s) sessions

  -- `login` after the credential checks, to its commit
  unfoldable pub open_session : LoginEnv → AuthState → User → AuthState × Result (User × Token)
  open_session env st u = if uuid_taken env st.sessions then (st, err integrity) else (
    record st {
      users = update_if (user_has_id u.id) (signed_in env) st.users;
      sessions = st.sessions ++ new_session env u ∷ [];
    },
    ok (signed_in env u, create_access_token env.now env.access_token_expire_minutes u.id env.jti),
  )

  -- `AuthService.login`
  unfoldable pub login : LoginEnv → AuthState → LoginRequest → AuthState × Result (User × Token)
  login env st d =
      let account_key = lib.lower d.email in
      let (limiter, allowed) =
        enforce env.rate_limit_enabled st.limiter env.ticks lockout_scope account_key lockout_times
          lockout_microseconds in
      elim (allowed >> authenticate st.users d) [
        | err e ↦ (record st { limiter = limiter }, err e)
        | ok u ↦
            open_session env
              (record st {
                limiter = clear env.rate_limit_enabled limiter lockout_scope account_key;
              })
              u
      ]

  abbrev pub revoke : AuthState → Option Text → AuthState
  revoke st none = st
  revoke st (some jti) = record st {
    sessions = (delete_by_token_hash st.sessions (token_id_hash jti)).0;
  }

  -- `AuthService.logout`
  unfoldable pub logout : ℕ → AuthState → Token → AuthState
  logout now st token = elim (lib.decode false now token) [
    | claims payload ↦ revoke st payload.jti
    | _ ↦ st
  ]

  -- `decode_token`, with the errors that `get_current_user` makes of its exceptions
  abbrev pub read_token : ℕ → Token → Result Claims
  read_token now token = elim (lib.decode true now token) [
    | claims payload ↦ ok payload
    | expired ↦ err (auth (text "Token has expired."))
    | invalid ↦ err (auth (text "Invalid authentication token."))
  ]

  abbrev pub check_session : List UserSession → Option Text → Result (Unit {0})
  check_session sessions none = ok tt
  check_session sessions (some jti) = do
    session ←
        or_raise (get_by_token_hash sessions (token_id_hash jti))
          (auth (text "Session has been revoked."))
    ok tt

  -- `get_current_user` after the token is decoded
  unfoldable pub user_of_payload : AuthState → Claims → Result User
  user_of_payload st payload = do
    raise_if (not (str_eq payload.kind token_type_access)) (auth (text "Invalid token type."))
    check_session st.sessions payload.jti
    user ←
        or_raise (find_by (user_has_id payload.sub) st.users)
          (auth (text "User no longer exists or is inactive."))
    raise_if (not user.is_active) (auth (text "User no longer exists or is inactive."))
    ok user

  -- `get_current_user`
  unfoldable pub get_current_user : ℕ → AuthState → Option Token → Result User
  get_current_user now st credentials = do
    token ← or_raise credentials (auth (text "Authentication required."))
    payload ← read_token now token
    user_of_payload st payload

  -- `get_current_admin`
  unfoldable pub get_current_admin : ℕ → AuthState → Option Token → Result User
  get_current_admin now st credentials = do
    user ← get_current_user now st credentials
    raise_if (not (is_admin user.role)) (forbidden (text "Administrator privileges are required."))
    ok user
