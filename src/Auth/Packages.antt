-- ===== src/Auth/Packages.antt =====
-- What sign-in takes from other packages: PyJWT, bcrypt, hashlib, base64 and `str.lower`, with the
-- documented behaviour that the theorems use. The secret key and the algorithm are fixed.
use in_work_marketing_os_bac.Base.{
  ℕ, ◌≤◌, ◌<◌, String, Bool, true, Option, some, ◌≡◌, ◌⊎◌, inl, inr, refl, ◌&&◌, leb, if◌then◌else◌,
}
use in_work_marketing_os_bac.Model.Tables.{Text}

-- The payload of an access token. `sub` is the user id that its text spells, `kind` its `type`.
pub record Claims : Type 0 where
  pub sub : ℕ
  pub kind : String
  pub iat : ℕ
  pub exp : ℕ
  pub jti : Option Text

-- What `jwt.decode` returns or raises: `ExpiredSignatureError`, or another `PyJWTError`.
pub data Decoded : Type 0 where
  claims : Claims → Decoded
  expired invalid : Decoded

-- `Token` is the type of signed tokens.
pub record Libraries (Token : Type 0) : Type 0 where
  pub lower : Text → Text
  pub sha256 : Text → Text
  pub b64encode : Text → Text
  pub hexdigest : Text → Text
  pub hashpw : Text → Text → Text
  pub checkpw : Text → Text → Option Bool
  -- `_DUMMY_PASSWORD_HASH`
  pub dummy_password_hash : Text
  pub encode : Claims → Token
  -- whether `exp` is verified, and the time
  pub decode : Bool → ℕ → Token → Decoded
  -- A token decodes to what was encoded, from its `iat` on and, where `exp` is verified, before `exp`.
  pub decode-encode :
      (verify_exp : Bool) (now : ℕ) (payload : Claims)
      → payload.iat ≤ now
      → decode verify_exp now (encode payload)
        ≡ (if verify_exp && leb payload.exp now then expired else claims payload)
  -- With `exp` verified, only a token before its `exp` decodes.
  pub decode_before_exp :
      (now : ℕ) (token : Token) (payload : Claims)
      → decode true now token ≡ claims payload
      → now < payload.exp
  -- A token has one payload.
  pub one_payload :
      (b c : Bool) (now later : ℕ) (token : Token) (p q : Claims)
      → decode b now token ≡ claims p
      → decode c later token ≡ claims q
      → p ≡ q
  -- bcrypt accepts the password that it hashed.
  pub checkpw-hashpw : (plain salt : Text) → checkpw plain (hashpw plain salt) ≡ some true

pub Decoded-cases :
    (r : Decoded) → ((payload : Claims) × (r ≡ claims payload)) ⊎ (r ≡ expired) ⊎ (r ≡ invalid)
Decoded-cases (claims payload) = inl (payload, refl)
Decoded-cases expired = inr (inl refl)
Decoded-cases invalid = inr (inr refl)
