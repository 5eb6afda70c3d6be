-- ===== src/Examples/Session.antt =====
-- Sign-in, sign-out and the sweep, with packages that sign and hash nothing.
use in_work_marketing_os_bac.Base.{
  ℕ, ◌≤◌, ◌<◌, Bool, true, false, none, some, [], ◌∷◌, ◌≡◌, ◌↔◌, ◌&&◌, refl, ap, arith, leb,
  if◌then◌else◌, find_by, count,
}
use in_work_marketing_os_bac.Errors.{ok, is_ok}
use in_work_marketing_os_bac.Audit.{text_eq}
use in_work_marketing_os_bac.Audit.Laws.{text_eq_refl}
use in_work_marketing_os_bac.RateLimit.{
  empty_store, enforce, allow, prune, put, hits_of, enforce_scope_cap, admit, drop_aged,
}
use in_work_marketing_os_bac.Auth.Packages.{Claims, Decoded, claims, expired, Libraries}
use in_work_marketing_os_bac.Auth.{
  lockout_scope, AuthState, LoginRequest, LoginEnv, token_id_hash, has_hash, prehash, hash_password,
  verify_password, get_by_email, login, logout, signed_in, purge_expired, get_current_user,
}
use in_work_marketing_os_bac.Auth.Current.{Grants, get_current_user_iff}
use in_work_marketing_os_bac.Auth.Login.{IsKeyed, IsAuthentic, login_admits, login_hides_accounts}
use in_work_marketing_os_bac.Auth.Revocation.{Reach, here, next, purges, logout_revokes}
use in_work_marketing_os_bac.Examples.Data.{plain_user}

-- A token is its payload.
read_plain : Bool → ℕ → Claims → Decoded
read_plain b now c = if b && leb c.exp now then expired else claims c

plain_one_payload :
    (b c : Bool) (now later : ℕ) (token : Claims) (p q : Claims)
    → read_plain b now token ≡ claims p
    → read_plain c later token ≡ claims q
    → p ≡ q
unfolding read_plain
plain_one_payload b c now later token p q h k = ground arith

plain_decode-encode :
    (b : Bool) (now : ℕ) (payload : Claims)
    → payload.iat ≤ now
    → read_plain b now payload ≡ (if b && leb payload.exp now then expired else claims payload)
unfolding read_plain
plain_decode-encode b now payload h = refl

plain_before_exp :
    (now : ℕ) (token payload : Claims)
    → read_plain true now token ≡ claims payload
    → now < payload.exp
unfolding read_plain
plain_before_exp now token payload h = ground arith

abbrev plain : Libraries Claims
plain = record {
  lower = λ t. t;
  sha256 = λ t. t;
  b64encode = λ t. t;
  hexdigest = λ t. t;
  hashpw = λ p s. p;
  checkpw = λ p h. some (text_eq p h);
  dummy_password_hash = [];
  encode = λ c. c;
  decode = read_plain;
  decode-encode = plain_decode-encode;
  decode_before_exp = plain_before_exp;
  one_payload = plain_one_payload;
  checkpw-hashpw = λ p s. ap some (text_eq_refl p);
}

abbrev login_env : LoginEnv
login_env = record {
  rate_limit_enabled = true;
  access_token_expire_minutes = 60;
  now = 1000;
  ticks = 5_000_000;
  new_id = 70;
  jti = 9 ∷ 9 ∷ [];
  user_agent = none;
  ip = none;
}

abbrev accounts : AuthState
accounts = record { users = plain_user ∷ []; sessions = []; limiter = empty_store }

abbrev request : LoginRequest
request = record { email = 12 ∷ []; password = 7 ∷ [] }

abbrev guess : LoginRequest
guess = record { email = 12 ∷ []; password = 8 ∷ [] }

accounts-IsKeyed : IsKeyed accounts.users
unfolding count
accounts-IsKeyed i = ground arith

request-IsAuthentic : IsAuthentic plain accounts.users request plain_user
unfolding get_by_email hash_password prehash find_by
request-IsAuthentic = record { salt = []; known = refl; hashed = refl; active = refl }

admitted : (enforce true empty_store 5_000_000 lockout_scope (12 ∷ []) 20 300_000_000).1 ≡ ok tt
unfolding enforce allow prune put hits_of enforce_scope_cap find_by admit drop_aged
admitted = refl

login_admits_example :
    (token : Claims) × ((login plain login_env accounts request).1
      ≡ ok (signed_in login_env plain_user, token))
    × (get_current_user plain 2000 (login plain login_env accounts request).0 (some token)
        ≡ ok (signed_in login_env plain_user))
login_admits_example =
    login_admits plain login_env accounts request plain_user 2000 accounts-IsKeyed admitted
      request-IsAuthentic refl (omega arith) (omega arith)

abbrev nobody : AuthState
nobody = record accounts { users = [] }

no_account : get_by_email plain nobody.users guess.email ≡ none
unfolding get_by_email find_by
no_account = refl

bad_guess : verify_password plain guess.password plain_user.password_hash ≡ false
unfolding verify_password prehash
bad_guess = refl

login_hides_accounts_example :
    ((login plain login_env nobody guess).1 ≡ (login plain login_env accounts guess).1)
    × ((login plain login_env nobody guess).0.limiter
        ≡ (login plain login_env accounts guess).0.limiter)
login_hides_accounts_example =
    login_hides_accounts plain login_env nobody accounts guess plain_user refl no_account
      request-IsAuthentic.known bad_guess

abbrev token : Claims
token = record { sub = 12; kind = "access"; iat = 1000; exp = 4600; jti = some (9 ∷ 9 ∷ []) }

abbrev open_state : AuthState
open_state = record accounts {
  sessions =
      record {
        id = 70;
        user_id = 12;
        token_hash = 9 ∷ 9 ∷ [];
        user_agent = none;
        ip_address = none;
        expires_at = 4600;
      }
      ∷ [];
}

one_session : count (has_hash (token_id_hash plain (9 ∷ 9 ∷ []))) open_state.sessions ≤ 1
unfolding count token_id_hash
one_session = omega arith

token_decodes : read_plain false 1100 token ≡ claims token
unfolding read_plain
token_decodes = refl

sweeps :
    Reach plain
      (token_id_hash plain (9 ∷ 9 ∷ []))
      (logout plain 1100 open_state token)
      (record (logout plain 1100 open_state token) {
        sessions = purge_expired (logout plain 1100 open_state token).sessions 1200;
      })
sweeps = next here (purges 1200)

logout_revokes_example :
    is_ok (
      get_current_user plain 1300
        (record (logout plain 1100 open_state token) {
          sessions = purge_expired (logout plain 1100 open_state token).sessions 1200;
        })
        (some token))
    ≡ false
logout_revokes_example =
    logout_revokes plain 1100 1300 open_state _ token token (9 ∷ 9 ∷ []) token_decodes refl
      one_session sweeps

get_current_user_iff_example :
    (get_current_user plain 1100 open_state (some token) ≡ ok plain_user)
    ↔ Grants plain 1100 open_state token plain_user
get_current_user_iff_example = get_current_user_iff plain 1100 open_state token plain_user
