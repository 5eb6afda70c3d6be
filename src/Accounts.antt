-- ===== src/Accounts.antt =====
-- The write cores that the proposal engine replays beside those of Access and Plan:
-- `UserService._apply_update_user` (app/services/user_service.py) and
-- `OnboardingService._apply_update_brand` (app/services/onboarding_service.py).
use in_work_marketing_os_bac.Base.{
  ℕ, Bool, Option, none, some, List, [], ◌∷◌, ◌==◌, not, or_else, any, keep_if, update_if,
}
use in_work_marketing_os_bac.Errors.{text, not_found, Result, ok, ◌>>=◌, or_raise}
use in_work_marketing_os_bac.Model.Enums.{UserRole, incremental}
use in_work_marketing_os_bac.Model.Tables.{
  Text, Value, null, typed, member, flag, listed, Change, BrandField, about_brand, brand_voice,
  brand_extracted, color_guidelines, logo_url, Client, User, Db, Env,
}
use in_work_marketing_os_bac.Audit.{Dict, field_changes}
use in_work_marketing_os_bac.JobQueue.{enqueue}
use in_work_marketing_os_bac.Access.{get_user_row}

pub record UserUpdate : Type 0 where
  pub name : Option Text
  pub role : Option UserRole
  pub is_active : Option Bool

abbrev role_value : UserRole → Value
role_value UserRole.admin = member "admin"
role_value UserRole.manager = member "manager"
role_value UserRole.user = member "user"

unfoldable pub tracked_user : User → Dict
tracked_user u =
    ("name", typed u.name) ∷ ("role", role_value u.role) ∷ ("is_active", flag u.is_active) ∷ []

abbrev pub patched_user : UserUpdate → User → User
patched_user d u = record u {
  name = or_else d.name u.name;
  role = or_else d.role u.role;
  is_active = or_else d.is_active u.is_active;
}

abbrev stamped_user : Env → Option (List Change) → User → User
stamped_user env none u = u
stamped_user env (some _) u = record u { updated_at = env.now }

unfoldable pub apply_update_user :
    Env → Db → ℕ → UserUpdate → Result (Db × User × Option (List Change))
apply_update_user env db user_id d = do
  u ← or_raise (get_user_row db user_id) (not_found (text "User not found."))
  let changes = field_changes (tracked_user u) (tracked_user (patched_user d u))
  let u' = stamped_user env changes (patched_user d u)
  ok (record db { users = update_if (λ (x : User). x.id == u.id) (λ _. u') db.users }, u', changes)

-- A field that the body sends holds `some`; `colors` are their hex codes.
pub record BrandUpdate : Type 0 where
  pub scalars : BrandField → Option (Option Text)
  pub colors : Option (Option (List Text))
  pub fonts : Option (Option (List Text))

abbrev sent {ℓ} : {A : Type ℓ} → Option A → A → A
sent none old = old
sent (some v) old = v

-- `if "colors" in fields and brand.colors is not None`
abbrev replaced : Option (Option (List Text)) → List Text → List Text
replaced (some (some new)) old = new
replaced _ old = old

-- `f.strip()` is not empty
abbrev has_ink : Env → Text → Bool
has_ink env t = any (λ c. not (env.is_space c)) t

-- `_apply_brand`
unfoldable pub patched_brand : Env → BrandUpdate → Client → Client
patched_brand env d c = record c {
  brand = λ f. sent (d.scalars f) (c.brand f);
  brand_colors = replaced d.colors c.brand_colors;
  brand_fonts = elim d.fonts [
    | some fonts ↦ elim fonts [ some new ↦ keep_if (has_ink env) new | none ↦ c.brand_fonts ]
    | none ↦ c.brand_fonts
  ];
}

abbrev text_value : Option Text → Value
text_value none = null
text_value (some t) = typed t

-- `_brand_snapshot`
unfoldable pub brand_snapshot : Client → Dict
brand_snapshot c =
    ("about_brand", text_value (c.brand about_brand))
    ∷ ("brand_voice", text_value (c.brand brand_voice))
    ∷ ("color_guidelines", text_value (c.brand color_guidelines))
    ∷ ("logo_url", text_value (c.brand logo_url))
    ∷ ("colors", listed c.brand_colors)
    ∷ ("fonts", listed c.brand_fonts)
    ∷ []

-- the columns of `clients` among the brand fields: their change moves `updated_at`
brand_columns : Client → Dict
brand_columns c =
    ("about_brand", text_value (c.brand about_brand))
    ∷ ("brand_voice", text_value (c.brand brand_voice))
    ∷ ("brand_extracted", text_value (c.brand brand_extracted))
    ∷ ("color_guidelines", text_value (c.brand color_guidelines))
    ∷ ("logo_url", text_value (c.brand logo_url))
    ∷ []

abbrev stamped_client : Env → Option (List Change) → Client → Client
stamped_client env none c = c
stamped_client env (some _) c = record c { updated_at = env.now }

unfoldable pub apply_update_brand : Env → Db → Client → BrandUpdate → Db × Option (List Change)
unfolding brand_columns
apply_update_brand env db client d =
    let patched = patched_brand env d client in
    let moved = field_changes (brand_columns client) (brand_columns patched) in
    (
      record db {
        clients =
            update_if (λ (x : Client). x.id == client.id) (λ _. stamped_client env moved patched)
              db.clients;
        jobs =
            (enqueue env.enabled env.new_id env.now client.id incremental (some ("brand" ∷ [])) 5
              db.jobs).0;
      },
      field_changes (brand_snapshot client) (brand_snapshot patched),
    )
