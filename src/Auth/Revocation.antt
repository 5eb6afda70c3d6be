-- ===== src/Auth/Revocation.antt =====
-- What a sign-out revokes, and what the sweep of expired sessions leaves.
use in_work_marketing_os_bac.Base.{
  ℕ, ◌≤◌, ◌<◌, true, false, Option, none, some, List, [], ◌∷◌, ◌≡◌, ◌≢◌, inl, inr, refl, arith,
  ◌==◌, ltb, find_by, count, Bool-cases, Option-cases,
}
use in_work_marketing_os_bac.Base.Rows.{
  find_by-append, find_by-remove_if, find_by-remove_if_missing,
}
use in_work_marketing_os_bac.Base.Selects.{find_by-remove_if_kept}
use in_work_marketing_os_bac.Errors.{Result-cases, is_ok}
use in_work_marketing_os_bac.Model.Tables.{Text, User}
use in_work_marketing_os_bac.Audit.{text_eq}
use in_work_marketing_os_bac.Audit.Laws.{text_eq_sound}
use in_work_marketing_os_bac.Auth.Packages.{Claims, claims, Libraries, Decoded-cases}
use in_work_marketing_os_bac.Auth.{
  UserSession, AuthState, LoginRequest, LoginEnv, has_hash, get_by_token_hash, delete_by_token_hash,
  delete_for_user, purge_expired, token_id_hash, new_session, uuid_taken, open_session, login,
  revoke, logout, read_token, check_session, user_of_payload, get_current_user,
}
use in_work_marketing_os_bac.Auth.Login.{refunded, login_cases}
use in_work_marketing_os_bac.Auth.Current.{IsLive, Grants, get_current_user-eq-ok}

-- The session of a hash is not stored.
abbrev pub IsGone : Text → List UserSession → Type 0
IsGone h sessions = find_by (has_hash h) sessions ≡ none

delete_by_token_hash-IsGone :
    (sessions : List UserSession) (h : Text)
    → count (has_hash h) sessions ≤ 1
    → IsGone h (delete_by_token_hash sessions h).0
unfolding delete_by_token_hash get_by_token_hash
delete_by_token_hash-IsGone sessions h one = elim (Option-cases (find_by (has_hash h) sessions)) [
  | inl e ↦ rw (e, delete_by_token_hash, get_by_token_hash) e
  | inr (s, e) ↦
      rw (e, delete_by_token_hash, get_by_token_hash)
        (find_by-remove_if (has_hash h) (λ (x : UserSession). x.id == s.id) sessions s e
          (ground arith) one)
]

delete_other-IsGone :
    (sessions : List UserSession) (h k : Text)
    → IsGone h sessions
    → IsGone h (delete_by_token_hash sessions k).0
unfolding delete_by_token_hash get_by_token_hash
delete_other-IsGone sessions h k gone = elim (Option-cases (find_by (has_hash k) sessions)) [
  | inl e ↦ rw (e, delete_by_token_hash, get_by_token_hash) gone
  | inr (s, e) ↦
      rw (e, delete_by_token_hash, get_by_token_hash)
        (find_by-remove_if_missing (has_hash h) (λ (x : UserSession). x.id == s.id) sessions gone)
]

module _ {Token : Type 0} (lib : Libraries Token) where
  -- The calls that write sessions; no sign-in draws a UUID with the hash `h` again.
  pub data Step (h : Text) (st : AuthState) : AuthState → Type 0 where
    logs_in :
        (env : LoginEnv) (d : LoginRequest)
        → token_id_hash lib env.jti ≢ h
        → Step h st (login lib env st d).0
    logs_out : (now : ℕ) (token : Token) → Step h st (logout lib now st token)
    logs_out_everywhere :
        (user_id : ℕ) → Step h st (record st { sessions = delete_for_user st.sessions user_id })
    purges : (now : ℕ) → Step h st (record st { sessions = purge_expired st.sessions now })

  pub data Reach (h : Text) (st : AuthState) : AuthState → Type 0 where
    here : Reach h st st
    next : {s t : AuthState} → Reach h st s → Step h s t → Reach h st t

  -- A new session has its own hash.
  open_session-IsGone :
      (env : LoginEnv) (st : AuthState) (u : User) (h : Text)
      → token_id_hash lib env.jti ≢ h
      → IsGone h st.sessions
      → IsGone h (open_session lib env st u).0.sessions
  unfolding open_session
  open_session-IsGone env st u h other gone = elim (Bool-cases (uuid_taken lib env st.sessions)) [
    | inl e ↦ rw (e, open_session) gone
    | inr e ↦
        rw
          (
            e,
            open_session,
            find_by-append (has_hash h) st.sessions (new_session lib env u ∷ []),
            gone,
          )
          (elim (Bool-cases (text_eq (token_id_hash lib env.jti) h)) [
            | inl same ↦ absurd (other (text_eq_sound _ _ same))
            | inr differs ↦ unfold find_by in rw differs refl
          ])
  ]

  login-IsGone :
      (env : LoginEnv) (st : AuthState) (d : LoginRequest) (h : Text)
      → token_id_hash lib env.jti ≢ h
      → IsGone h st.sessions
      → IsGone h (login lib env st d).0.sessions
  login-IsGone env st d h other gone = elim (login_cases lib env st d) [
    | inl (_, same) ↦ rw same gone
    | inr (u, _, same) ↦ rw same (open_session-IsGone env (refunded lib env st d) u h other gone)
  ]

  revoke-IsGone :
      (st : AuthState) (h : Text) (id : Option Text)
      → IsGone h st.sessions
      → IsGone h (revoke lib st id).sessions
  revoke-IsGone st h none gone = gone
  revoke-IsGone st h (some jti) gone =
      delete_other-IsGone st.sessions h (token_id_hash lib jti) gone

  logout-IsGone :
      (now : ℕ) (st : AuthState) (token : Token) (h : Text)
      → IsGone h st.sessions
      → IsGone h (logout lib now st token).sessions
  unfolding logout
  logout-IsGone now st token h gone = elim (Decoded-cases (lib.decode false now token)) [
    | inl (p, e) ↦ rw (e, logout) (revoke-IsGone st h p.jti gone)
    | inr (inl e) ↦ rw (e, logout) gone
    | inr (inr e) ↦ rw (e, logout) gone
  ]

  Step-IsGone :
      {h : Text} {s t : AuthState} → Step h s t → IsGone h s.sessions → IsGone h t.sessions
  unfolding delete_for_user purge_expired
  Step-IsGone {h} {s} (logs_in env d other) gone = login-IsGone env s d h other gone
  Step-IsGone {h} {s} (logs_out now token) gone = logout-IsGone now s token h gone
  Step-IsGone {h} {s} (logs_out_everywhere user_id) gone =
      find_by-remove_if_missing (has_hash h) (λ (x : UserSession). x.user_id == user_id) s.sessions
        gone
  Step-IsGone {h} {s} (purges now) gone =
      find_by-remove_if_missing (has_hash h) (λ (x : UserSession). ltb x.expires_at now) s.sessions
        gone

  Reach-IsGone :
      {h : Text} {s t : AuthState} → Reach h s t → IsGone h s.sessions → IsGone h t.sessions
  Reach-IsGone here gone = gone
  Reach-IsGone (next before step) gone = Step-IsGone step (Reach-IsGone before gone)

  no_session :
      (sessions : List UserSession) (jti : Text)
      → IsGone (token_id_hash lib jti) sessions
      → IsLive lib sessions (some jti)
      → ⊥
  unfolding get_by_token_hash
  no_session sessions jti gone (inl e) = cc
  no_session sessions jti gone (inr (j, s, same, e)) =
      let same_id : jti ≡ j = cc in cc (gone, e, same_id)

-- After the sign-out of a token with an id, the hash of the id being unique in the table of sessions, no
-- sequence of sign-ins that draw other ids, of sign-outs and of sweeps makes `get_current_user` accept the token.
pub logout_revokes :
    {Token : Type 0} (lib : Libraries Token) (now later : ℕ) (st st' : AuthState) (token : Token)
    (payload : Claims) (jti : Text)
    → lib.decode false now token ≡ claims payload
    → payload.jti ≡ some jti
    → count (has_hash (token_id_hash lib jti)) st.sessions ≤ 1
    → Reach lib (token_id_hash lib jti) (logout lib now st token) st'
    → is_ok (get_current_user lib later st' (some token)) ≡ false
unfolding logout
logout_revokes lib now later st st' token payload jti decoded id one run =
    elim (Result-cases (get_current_user lib later st' (some token))) [
      | inr (e, h) ↦ rw h refl
      | inl (u, h) ↦
          let g : Grants lib later st' token u = get_current_user-eq-ok lib later st' token u h in
          let same : g.payload ≡ payload =
            lib.one_payload true false later now token g.payload payload g.decoded decoded in
          let held : IsLive lib st'.sessions (some jti) = rw (← id) (rw (← same) g.live) in
          let signed_out : IsGone (token_id_hash lib jti) (logout lib now st token).sessions =
            rw (decoded, logout, id)
              (delete_by_token_hash-IsGone st.sessions (token_id_hash lib jti) one) in
          absurd (no_session lib st'.sessions jti (Reach-IsGone lib run signed_out) held)
    ]

purged_check :
    {Token : Type 0} (lib : Libraries Token) (sessions : List UserSession) (now : ℕ)
    (id : Option Text)
    → ((jti : Text) (s : UserSession)
        → id ≡ some jti
        → get_by_token_hash sessions (token_id_hash lib jti) ≡ some s
        → now < s.expires_at)
    → check_session lib (purge_expired sessions now) id ≡ check_session lib sessions id
unfolding get_by_token_hash purge_expired
purged_check lib sessions now none kept = refl
purged_check lib sessions now (some jti) kept =
    elim (Option-cases (find_by (has_hash (token_id_hash lib jti)) sessions)) [
      | inl e ↦
          rw
            (
              e,
              get_by_token_hash,
              find_by-remove_if_missing (has_hash (token_id_hash lib jti))
                  (λ (x : UserSession). ltb x.expires_at now) sessions e,
              purge_expired,
            )
            refl
      | inr (s, e) ↦
          let live : now < s.expires_at = kept jti s refl e in
          rw
            (
              e,
              get_by_token_hash,
              find_by-remove_if_kept (has_hash (token_id_hash lib jti))
                  (λ (x : UserSession). ltb x.expires_at now) sessions s e (ground arith),
              purge_expired,
            )
            refl
    ]

-- The sweep of expired sessions changes the answer to no token, where the session of the token's id, if it
-- is stored, expires with the token.
get_current_user-purge_expired :
    {Token : Type 0} (lib : Libraries Token) (now : ℕ) (st : AuthState) (token : Token)
    → ((payload : Claims) (jti : Text) (s : UserSession)
        → lib.decode true now token ≡ claims payload
        → payload.jti ≡ some jti
        → get_by_token_hash st.sessions (token_id_hash lib jti) ≡ some s
        → s.expires_at ≡ payload.exp)
    → get_current_user lib now (record st { sessions = purge_expired st.sessions now }) (some token)
      ≡ get_current_user lib now st (some token)
unfolding get_current_user user_of_payload
get_current_user-purge_expired lib now st token expires =
    elim (Decoded-cases (lib.decode true now token)) [
      | inr (inl e) ↦ rw (e, read_token) refl
      | inr (inr e) ↦ rw (e, read_token) refl
      | inl (p, e) ↦
          rw
            (
              e,
              read_token,
              purged_check lib st.sessions now p.jti (λ jti s id found.
                  let before : now < p.exp = lib.decode_before_exp now token p e in
                  omega (arith, expires p jti s e id found)),
            )
            refl
    ]
