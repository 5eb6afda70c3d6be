-- ===== src/Auth/Current.antt =====
-- Who a bearer token stands for: `get_current_user`.
use in_work_marketing_os_bac.Base.{
  ℕ, true, Option, none, some, List, ◌≡◌, ◌↔◌, ◌⊎◌, inl, inr, refl, arith, not, str_eq, eq_iff,
  find_by, Option-cases,
}
use in_work_marketing_os_bac.Errors.{
  text, auth, ok, err, or_raise, >>=-eq-ok, raise_if-eq-ok, or_raise-eq-ok,
}
use in_work_marketing_os_bac.Model.Tables.{Text, User}
use in_work_marketing_os_bac.Auth.Packages.{Claims, Decoded, claims, expired, invalid, Libraries}
use in_work_marketing_os_bac.Auth.{
  token_type_access, UserSession, AuthState, user_has_id, get_by_token_hash, token_id_hash,
  read_token, check_session, user_of_payload, get_current_user,
}

module _ {Token : Type 0} (lib : Libraries Token) where
  -- A token without an id, or with an id whose session is stored.
  abbrev pub IsLive : List UserSession → Option Text → Type 0
  IsLive sessions id =
      (id ≡ none)
      ⊎ ((jti : Text) × (session : UserSession) × (id ≡ some jti)
          × (get_by_token_hash sessions (token_id_hash lib jti) ≡ some session))

  -- The payload of a token that is in force for a user.
  pub record Grants (now : ℕ) (st : AuthState) (token : Token) (u : User) : Type 0 where
    pub payload : Claims
    pub decoded : lib.decode true now token ≡ claims payload
    pub access : payload.kind ≡ token_type_access
    pub live : IsLive st.sessions payload.jti
    pub found : find_by (user_has_id payload.sub) st.users ≡ some u
    pub active : u.is_active ≡ true

  read_token-eq-ok :
      (now : ℕ) (token : Token) (p : Claims)
      → read_token lib now token ≡ ok p
      → lib.decode true now token ≡ claims p
  read_token-eq-ok now token p h = by_case (lib.decode true now token) h
    where
      by_case :
          (r : Decoded)
          → elim r [
            | claims payload ↦ ok payload
            | expired ↦ err (auth (text "Token has expired."))
            | invalid ↦ err (auth (text "Invalid authentication token."))
          ]
            ≡ ok p
          → r ≡ claims p
      by_case (claims q) e = cc
      by_case expired e = cc
      by_case invalid e = cc

  check_session-eq-ok :
      (sessions : List UserSession) (id : Option Text)
      → check_session lib sessions id ≡ ok tt
      → IsLive sessions id
  check_session-eq-ok sessions none h = inl refl
  check_session-eq-ok sessions (some jti) h =
      elim (Option-cases (get_by_token_hash sessions (token_id_hash lib jti))) [
        | inl e ↦ absurd (cc (rw e at h))
        | inr (s, e) ↦ inr (jti, s, refl, e)
      ]

  check_session-IsLive :
      (sessions : List UserSession) (id : Option Text)
      → IsLive sessions id
      → check_session lib sessions id ≡ ok tt
  check_session-IsLive sessions none h = refl
  check_session-IsLive sessions (some jti) (inl e) = cc
  check_session-IsLive sessions (some jti) (inr (j, s, same, e)) =
      let same_id : jti ≡ j = cc in rw (same_id, e) refl

  user_of_payload-eq-ok :
      (st : AuthState) (p : Claims) (u : User)
      → user_of_payload lib st p ≡ ok u
      → (p.kind ≡ token_type_access)
        × IsLive st.sessions p.jti
        × (find_by (user_has_id p.sub) st.users ≡ some u)
        × (u.is_active ≡ true)
  unfolding user_of_payload
  user_of_payload-eq-ok st p u h =
      let (kind, h1) = raise_if-eq-ok (not (str_eq p.kind token_type_access)) _ _ h in
      let (_, session, h2) = >>=-eq-ok (check_session lib st.sessions p.jti) _ h1 in
      let (v, found, h3) =
        >>=-eq-ok
          (or_raise (find_by (user_has_id p.sub) st.users)
            (auth (text "User no longer exists or is inactive.")))
          _ h2 in
      let (active, h4) = raise_if-eq-ok (not v.is_active) _ (ok v) h3 in
      let same : v ≡ u = cc in
      (
        (eq_iff p.kind token_type_access).0 (ground arith),
        check_session-eq-ok st.sessions p.jti session,
        or_raise-eq-ok (find_by (user_has_id p.sub) st.users)
            (auth (text "User no longer exists or is inactive.")) (cc found),
        rw (← same) (ground arith),
      )

  -- A user returned by `get_current_user` is granted by the token.
  pub get_current_user-eq-ok :
      (now : ℕ) (st : AuthState) (token : Token) (u : User)
      → get_current_user lib now st (some token) ≡ ok u
      → Grants now st token u
  unfolding get_current_user
  get_current_user-eq-ok now st token u h =
      let (p, read, h1) =
        >>=-eq-ok (read_token lib now token) (λ (p : Claims). user_of_payload lib st p) h in
      let (kind, live, found, active) = user_of_payload-eq-ok st p u h1 in
      record {
        payload = p;
        decoded = read_token-eq-ok now token p read;
        access = kind;
        live = live;
        found = found;
        active = active;
      }

  pub Grants-get_current_user :
      (now : ℕ) (st : AuthState) (token : Token) (u : User)
      → Grants now st token u
      → get_current_user lib now st (some token) ≡ ok u
  unfolding get_current_user user_of_payload
  Grants-get_current_user now st token u g =
      rw
        (
          g.decoded,
          read_token,
          g.access,
          check_session-IsLive st.sessions g.payload.jti g.live,
          g.found,
          g.active,
        )
        refl

-- For every token and time, `get_current_user` returns a user exactly when the token decodes to an access
-- payload that has no id or the id of a stored session, and names a user who exists and is active.
pub get_current_user_iff :
    {Token : Type 0} (lib : Libraries Token) (now : ℕ) (st : AuthState) (token : Token) (u : User)
    → (get_current_user lib now st (some token) ≡ ok u) ↔ Grants lib now st token u
get_current_user_iff lib now st token u =
    (get_current_user-eq-ok lib now st token u, Grants-get_current_user lib now st token u)
