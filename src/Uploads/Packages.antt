-- ===== src/Uploads/Packages.antt =====
-- What uploads take from elsewhere: string methods, HMAC, and object storage (app/integrations/aws).
use in_work_marketing_os_bac.Base.{ℕ, Bool, true, List, ◌≡◌, ◌≢◌}
use in_work_marketing_os_bac.Errors.{Result, ok}
use in_work_marketing_os_bac.Model.Tables.{Text}

-- `str.isspace`, `str.lower`, `str(uuid)`, `str(int)` and the keyed digest of app/utils/download_link.py.
pub record Strings : Type 0 where
  pub is_space : ℕ → Bool
  pub lower : Text → Text
  pub spell_uuid : ℕ → Text
  pub spell_int : ℕ → Text
  pub digest : Text → Text
  -- Two numbers are not written alike.
  pub spell_int_injective : (m n : ℕ) → spell_int m ≡ spell_int n → m ≡ n

-- The `Storage` protocol over the objects of one bucket.
pub record Storage (Objects : Type 0) : Type 0 where
  -- an object under a key, with its bytes and its content type
  pub upload : Objects → Text → List ℕ → Text → Result Objects
  pub delete : Objects → Text → Result Objects
  pub download : Objects → Text → Result (List ℕ)
  pub holds : Objects → Text → Bool
  -- An upload that returns holds the object, and keeps the others.
  pub upload_holds :
      (o p : Objects) (k : Text) (bytes : List ℕ) (t : Text)
      → upload o k bytes t ≡ ok p
      → holds p k ≡ true
  pub upload_keeps :
      (o p : Objects) (k : Text) (bytes : List ℕ) (t : Text) (l : Text)
      → upload o k bytes t ≡ ok p
      → holds o l ≡ true
      → holds p l ≡ true
  -- A delete that returns keeps the objects under other keys.
  pub delete_keeps :
      (o p : Objects) (k l : Text) → delete o k ≡ ok p → l ≢ k → holds o l ≡ true → holds p l ≡ true
