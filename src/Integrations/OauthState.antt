-- ===== src/Integrations/OauthState.antt =====
-- The signed `state` of an OAuth round trip: `_sign_state`, `_verify_state` and `_hmac`.
use in_work_marketing_os_bac.Base.{
  ℕ, zero, suc, ◌-◌, ◌≤◌, Bool, true, false, Option, none, some, [], ◌∷◌, ◌++◌, ◌==◌, ◌≡◌, ◌&&◌,
  refl, arith, if◌then◌else◌, leb, leb→le, contains, take, ==_iff, Bool-cases, Option-cases, inl,
  inr,
}
use in_work_marketing_os_bac.Model.Tables.{Text}
use in_work_marketing_os_bac.Audit.{text_eq}
use in_work_marketing_os_bac.Audit.Laws.{text_eq_sound, text_eq_refl}
use in_work_marketing_os_bac.Integrations.{IntegrationKey, ga4, key_value, key_eq}

-- `_STATE_MAX_AGE`
abbrev pub state_max_age : ℕ
state_max_age = 600

abbrev pub has_colon : Text → Bool
has_colon = contains ◌==◌ b':'

-- `str`, `int`, base64 and HMAC under the secret key. `none` is an exception; of a negative number, which
-- no check accepts, too.
pub record Signing : Type 0 where
  pub spell_uuid : ℕ → Text
  pub spell_int : ℕ → Text
  pub int_of : Text → Option ℕ
  pub b64encode : Text → Text
  pub b64decode : Text → Option Text
  pub hexdigest : Text → Text
  pub spell_uuid_injective : (a b : ℕ) → spell_uuid a ≡ spell_uuid b → a ≡ b
  pub spell_int-has_colon : (n : ℕ) → has_colon (spell_int n) ≡ false
  pub int_of-spell_int : (n : ℕ) → int_of (spell_int n) ≡ some n
  pub b64decode-encode : (t : Text) → b64decode (b64encode t) ≡ some t
  pub hexdigest-has_colon : (t : Text) → has_colon (hexdigest t) ≡ false

-- `t.rsplit(":", 1)` where there is a colon
unfoldable pub rsplit : Text → Option (Text × Text)
rsplit [] = none
rsplit (c ∷ t) = elim (rsplit t) [
  | some (a, b) ↦ some (c ∷ a, b)
  | none ↦ if c == b':' then some ([], t) else none
]

-- what `rsplit(":", 3)` unpacks into
pub record Parts : Type 0 where
  pub cid : Text
  pub k : Text
  pub ts : Text
  pub sig : Text

unfoldable pub unpack : Text → Option Parts
unpack decoded = elim (rsplit decoded) [
  | none ↦ none
  | some (front, sig) ↦ elim (rsplit front) [
    | none ↦ none
    | some (front', ts) ↦ elim (rsplit front') [
      | none ↦ none
      | some (cid, k) ↦ some (record { cid = cid; k = k; ts = ts; sig = sig })
    ]
  ]
]

-- `f"{a}:{b}:{c}"`
abbrev pub joined : Text → Text → Text → Text
joined a b c = (a ++ b':' ∷ b) ++ b':' ∷ c

module _ (lib : Signing) where
  -- `_hmac`
  abbrev pub hmac : Text → Text
  hmac raw = take 32 (lib.hexdigest raw)

  -- `_sign_state`
  unfoldable pub sign_state : ℕ → ℕ → IntegrationKey → Text
  sign_state now client_id key =
      let raw = joined (lib.spell_uuid client_id) (key_value key) (lib.spell_int now) in
      lib.b64encode (raw ++ b':' ∷ hmac raw)

  abbrev pub is_recent : ℕ → Option ℕ → Bool
  is_recent now none = false
  is_recent now (some ts) = leb (now - ts) state_max_age

  abbrev pub verify_parts : ℕ → ℕ → IntegrationKey → Parts → Bool
  verify_parts now client_id key p =
      text_eq p.sig (hmac (joined p.cid p.k p.ts))
      && text_eq p.cid (lib.spell_uuid client_id)
      && text_eq p.k (key_value key)
      && is_recent now (lib.int_of p.ts)

  -- `_verify_state`; a state that is not ASCII is refused here, where `hmac.compare_digest` raises a TypeError
  unfoldable pub verify_state : ℕ → Text → ℕ → IntegrationKey → Bool
  verify_state now state client_id key = elim (lib.b64decode state) [
    | none ↦ false
    | some decoded ↦ elim (unpack decoded) [
      | none ↦ false
      | some p ↦ verify_parts now client_id key p
    ]
  ]

rsplit-none : (t : Text) → has_colon t ≡ false → rsplit t ≡ none
unfolding rsplit
rsplit-none [] h = refl
rsplit-none (c ∷ t) h = ground (arith, rsplit-none t)

rsplit-append : (a b : Text) → has_colon b ≡ false → rsplit (a ++ b':' ∷ b) ≡ some (a, b)
unfolding rsplit
rsplit-append [] b h = rw (rsplit-none b h) refl
rsplit-append (c ∷ a) b h = rw (rsplit-append a b h) refl

rsplit_sound : (t a b : Text) → rsplit t ≡ some (a, b) → t ≡ a ++ b':' ∷ b
unfolding rsplit
rsplit_sound [] a b h = cc
rsplit_sound (c ∷ t) a b h = elim (Option-cases (rsplit t)) [
  | inr ((a', b'), e) ↦
      let front : c ∷ a' ≡ a = ground arith in
      let back : b' ≡ b = ground arith in rw (← front, ← back, rsplit_sound t a' b' e) refl
  | inl e ↦
      let here : c ≡ b':' = ground arith in
      let front : [] ≡ a = ground arith in
      let back : t ≡ b = ground arith in rw (← front, ← back, here) refl
]

unpack-joined :
    (cid k ts sig : Text)
    → has_colon k ≡ false
    → has_colon ts ≡ false
    → has_colon sig ≡ false
    → unpack (joined cid k ts ++ b':' ∷ sig)
      ≡ some (record { cid = cid; k = k; ts = ts; sig = sig })
unfolding unpack
unpack-joined cid k ts sig hk ht hs =
    rw (rsplit-append (joined cid k ts) sig hs, unpack)
      (rw (rsplit-append (cid ++ b':' ∷ k) ts ht) (rw (rsplit-append cid k hk) refl))

unpack_sound :
    (t : Text) (p : Parts) → unpack t ≡ some p → t ≡ joined p.cid p.k p.ts ++ b':' ∷ p.sig
unfolding unpack
unpack_sound t p h = elim (Option-cases (rsplit t)) [
  | inl e ↦ absurd (ground arith)
  | inr ((front, sig), e) ↦ elim (Option-cases (rsplit front)) [
    | inl e' ↦ absurd (ground arith)
    | inr ((front', ts), e') ↦ elim (Option-cases (rsplit front')) [
      | inl e'' ↦ absurd (ground arith)
      | inr ((cid, k), e'') ↦
          let same : record { cid = cid; k = k; ts = ts; sig = sig } ≡ p = ground arith in
          rw
            (
              ← same,
              rsplit_sound t front sig e,
              rsplit_sound front front' ts e',
              rsplit_sound front' cid k e'',
            )
            refl
    ]
  ]
]

key_value-has_colon : (key : IntegrationKey) → has_colon (key_value key) ≡ false
key_value-has_colon ga4 = refl
key_value-has_colon _ = refl

take-has_colon : (n : ℕ) (t : Text) → has_colon t ≡ false → has_colon (take n t) ≡ false
take-has_colon zero t h = refl
take-has_colon (suc n) [] h = refl
take-has_colon (suc n) (c ∷ t) h = ground (arith, take-has_colon n t)

all_four :
    (a b c d : Bool) → (a && b && c && d) ≡ true → (a ≡ true) × (b ≡ true) × (c ≡ true) × (d ≡ true)
all_four a b c d h = ground arith

module _ (lib : Signing) where
  spell_uuid-eq : (a b : ℕ) → text_eq (lib.spell_uuid a) (lib.spell_uuid b) ≡ (a == b)
  spell_uuid-eq a b = elim (Bool-cases (text_eq (lib.spell_uuid a) (lib.spell_uuid b))) [
    | inl e ↦
        let same : a ≡ b = lib.spell_uuid_injective a b (text_eq_sound _ _ e) in
        rw same (ground (arith, text_eq_refl (lib.spell_uuid b)))
    | inr e ↦ elim (Bool-cases (a == b)) [
      | inr n ↦ rw (e, n) refl
      | inl y ↦
          let same : a ≡ b = (==_iff a b).0 y in
          absurd (cc (text_eq_refl (lib.spell_uuid b), rw same at e))
    ]
  ]

  -- A state that was signed for a client and a provider verifies exactly for these, and for ten minutes.
  pub verify_state-sign_state :
      (signed now client_id other : ℕ) (key wanted : IntegrationKey)
      → verify_state lib now (sign_state lib signed client_id key) other wanted
        ≡ (client_id == other && key_eq key wanted && leb (now - signed) 600)
  unfolding verify_state sign_state
  verify_state-sign_state signed now client_id other key wanted =
      let raw = joined (lib.spell_uuid client_id) (key_value key) (lib.spell_int signed) in
      rw (lib.b64decode-encode (raw ++ b':' ∷ hmac lib raw), verify_state)
        (rw
          (unpack-joined (lib.spell_uuid client_id) (key_value key) (lib.spell_int signed)
            (hmac lib raw) (key_value-has_colon key) (lib.spell_int-has_colon signed)
            (take-has_colon 32 (lib.hexdigest raw) (lib.hexdigest-has_colon raw)))
          (rw
            (
              text_eq_refl (hmac lib raw),
              spell_uuid-eq client_id other,
              lib.int_of-spell_int signed,
            )
            refl))

  parts_sound :
      (now client_id : ℕ) (key : IntegrationKey) (p : Parts)
      → verify_parts lib now client_id key p ≡ true
      → (n : ℕ) × (lib.int_of p.ts ≡ some n)
        × (now - n ≤ 600)
        × (p.sig ≡ hmac lib (joined p.cid p.k p.ts))
        × (p.cid ≡ lib.spell_uuid client_id)
        × (p.k ≡ key_value key)
  parts_sound now client_id key p h =
      let (sig, cid, k, recent) =
        all_four (text_eq p.sig (hmac lib (joined p.cid p.k p.ts)))
          (text_eq p.cid (lib.spell_uuid client_id)) (text_eq p.k (key_value key))
          (is_recent lib now (lib.int_of p.ts)) h in
      elim (Option-cases (lib.int_of p.ts)) [
        | inl e ↦ absurd (cc (rw e at recent))
        | inr (n, e) ↦ (
          n,
          e,
          leb→le (now - n) 600 (rw e at recent),
          text_eq_sound _ _ sig,
          text_eq_sound _ _ cid,
          text_eq_sound _ _ k,
        )
      ]

  -- Any text that is accepted as a state for a client and a provider is, decoded, a payload that names both and a
  -- time at most ten minutes ago, followed by the code that the secret key gives that payload.
  pub verify_state_sound :
      (now : ℕ) (state : Text) (client_id : ℕ) (key : IntegrationKey)
      → verify_state lib now state client_id key ≡ true
      → (ts : Text) × (n : ℕ) × (lib.int_of ts ≡ some n)
        × (now - n ≤ 600)
        × (let raw = joined (lib.spell_uuid client_id) (key_value key) ts in
            lib.b64decode state ≡ some (raw ++ b':' ∷ hmac lib raw))
  unfolding verify_state
  verify_state_sound now state client_id key h = elim (Option-cases (lib.b64decode state)) [
    | inl e ↦ absurd (ground arith)
    | inr (decoded, e) ↦ elim (Option-cases (unpack decoded)) [
      | inl e' ↦ absurd (ground arith)
      | inr (p, e') ↦
          let checked : verify_parts lib now client_id key p ≡ true = ground arith in
          let (n, read, recent, sig, cid, k) = parts_sound now client_id key p checked in
          (p.ts, n, read, recent, rw (e, unpack_sound decoded p e', sig, cid, k) refl)
    ]
  ]
