-- ===== src/Uploads.antt =====
-- Uploaded files: app/services/upload_service.py, app/core/config/storage.py, app/utils/download_link.py
-- and the signed redirect of app/api/v1/routers/uploads.py.
use in_work_marketing_os_bac.Base.{
  ℕ, ◌+◌, ◌*◌, Bool, true, false, Option, none, some, List, [], ◌∷◌, ◌++◌, ◌==◌, ◌&&◌, ◌||◌, not,
  codes, is_some, or_else, opt_eq, map, leb, ltb, any, contains, length, take, if◌then◌else◌,
  find_by, update_if, remove_if, keep_if,
}
use in_work_marketing_os_bac.Errors.{
  Exn, text, bad_request, not_found, conflict, payload_too_large, unsupported_media, with_number,
  is_app_error, Message, Result, ok, err, ◌>>=◌, ◌>>◌, raise_if, or_raise,
}
use in_work_marketing_os_bac.Model.Enums.{is_admin}
use in_work_marketing_os_bac.Model.Tables.{Text, User}
use in_work_marketing_os_bac.Audit.{text_eq}
use in_work_marketing_os_bac.Uploads.Packages.{Strings, Storage}
pub mod Packages
pub mod Names
pub mod Links
pub mod Objects

pub record Upload : Type 0 where
  pub id : ℕ
  pub bucket : Text
  pub storage_key : Text
  pub original_filename : Text
  pub content_type : Text
  pub size_bytes : ℕ
  pub feature : Option Text
  pub uploaded_by : Option ℕ
  pub link_epoch : ℕ

pub record StorageSettings : Type 0 where
  pub s3_bucket : Option Text
  pub key_prefix : Text
  pub max_upload_bytes : ℕ
  pub max_upload_mb : ℕ
  pub allowed_content_types : Text
  -- `public_api_base_url or ""`
  pub public_api_base_url : Text

abbrev slash : ℕ
slash = b'/'

-- `t.lstrip(…)`, `t.rstrip(…)` and `t.strip(…)`, by a test on characters
unfoldable pub lstrip : (ℕ → Bool) → Text → Text
lstrip p [] = []
lstrip p (c ∷ cs) = if p c then lstrip p cs else c ∷ cs

abbrev pub is_empty : Text → Bool
is_empty [] = true
is_empty (_ ∷ _) = false

unfoldable pub rstrip : (ℕ → Bool) → Text → Text
rstrip p [] = []
rstrip p (c ∷ cs) = let rest = rstrip p cs in if p c && is_empty rest then [] else c ∷ rest

unfoldable pub strip : (ℕ → Bool) → Text → Text
strip p t = rstrip p (lstrip p t)

abbrev pub is_slash : ℕ → Bool
is_slash c = c == b'/'

-- `t.split(",")`
abbrev split_at : Bool → ℕ → List Text → List Text
split_at true c pieces = [] ∷ pieces
split_at false c [] = (c ∷ []) ∷ []
split_at false c (piece ∷ pieces) = (c ∷ piece) ∷ pieces

unfoldable pub split_commas : Text → List Text
split_commas [] = [] ∷ []
split_commas (c ∷ cs) = split_at (c == b',') c (split_commas cs)

-- `[A-Za-z0-9._-]`
abbrev pub is_safe : ℕ → Bool
is_safe c =
    (leb b'A' c && leb c b'Z')
    || (leb b'a' c && leb c b'z')
    || (leb b'0' c && leb c b'9')
    || c == b'.'
    || c == b'_'
    || c == b'-'

abbrev pub safe_char : ℕ → ℕ
safe_char c = if is_safe c then c else b'_'

abbrev pub forward : ℕ → ℕ
forward c = if c == b'\\' then b'/' else c

-- `os.path.basename`: what follows the last slash
unfoldable pub basename : Text → Text
basename [] = []
basename (c ∷ cs) = let rest = basename cs in if any is_slash (c ∷ cs) then rest else c ∷ cs

abbrev pub or_file : Text → Text
or_file [] = codes "file"
or_file (c ∷ cs) = c ∷ cs

abbrev pub is_dot : ℕ → Bool
is_dot c = c == b'.'

-- `sanitize_filename`; the `split("/")[-1]` after `os.path.basename` changes nothing
unfoldable pub sanitize_filename : (ℕ → Bool) → Text → Text
sanitize_filename is_space name =
    take 255
      (or_file (lstrip is_dot (map safe_char (basename (strip is_space (map forward name))))))

module _ (str : Strings) where
  -- `allowed_content_types_list`
  unfoldable pub allowed_content_types_list : StorageSettings → List Text
  allowed_content_types_list settings =
      keep_if (λ t. not (is_empty t))
        (map (strip str.is_space) (split_commas settings.allowed_content_types))

  -- `allows_content_type`
  unfoldable pub allows_content_type : StorageSettings → Text → Bool
  allows_content_type settings content_type =
      let allowed = allowed_content_types_list settings in
      contains text_eq (codes "*") allowed
      || contains text_eq (str.lower (strip str.is_space content_type)) (map str.lower allowed)

  -- `_validate`
  unfoldable pub validate : StorageSettings → Text → Text → ℕ → Result (Unit {0})
  validate settings filename content_type size_bytes = do
    raise_if (is_empty (strip str.is_space filename)) (bad_request (text "A filename is required."))
    raise_if (size_bytes == 0) (bad_request (text "File size must be greater than zero."))
    raise_if (ltb settings.max_upload_bytes size_bytes)
        (payload_too_large (with_number "File exceeds the {} MB limit." settings.max_upload_mb))
    raise_if (not (allows_content_type settings content_type)) (
        unsupported_media
          (Message.typed (codes "Content type '" ++ content_type ++ codes "' is not allowed.")))
    ok tt

  -- `_build_key`
  unfoldable pub build_key : StorageSettings → ℕ → Text → Text
  build_key settings upload_id safe_filename =
      strip is_slash settings.key_prefix
      ++ slash ∷ str.spell_uuid upload_id
      ++ slash ∷ safe_filename

  -- `_upload_sign_input`
  unfoldable pub upload_sign_input : ℕ → ℕ → Text
  upload_sign_input upload_id epoch =
      if epoch == 0
      then str.spell_uuid upload_id
      else str.spell_uuid upload_id ++ b':' ∷ str.spell_int epoch

  unfoldable pub sign_upload_id : ℕ → ℕ → Text
  sign_upload_id upload_id epoch = str.digest (upload_sign_input upload_id epoch)

  unfoldable pub verify_upload_signature : ℕ → Text → ℕ → Bool
  verify_upload_signature upload_id signature epoch =
      text_eq (str.digest (upload_sign_input upload_id epoch)) signature

  unfoldable pub upload_permalink : StorageSettings → ℕ → ℕ → Text
  upload_permalink settings upload_id epoch =
      rstrip is_slash settings.public_api_base_url
      ++ codes "/uploads/"
      ++ str.spell_uuid upload_id
      ++ codes "/download?sig="
      ++ sign_upload_id upload_id epoch

abbrev pub upload_has_id : ℕ → Upload → Bool
upload_has_id i u = u.id == i

abbrev pub has_storage_key : Text → Upload → Bool
has_storage_key k u = text_eq u.storage_key k

abbrev pub owned_by : User → Upload → Bool
owned_by user u = is_admin user.role || opt_eq u.uploaded_by (some user.id)

-- `_load_owned`
unfoldable pub load_owned : List Upload → User → ℕ → Result Upload
load_owned uploads user upload_id = do
  upload ←
      or_raise (find_by (upload_has_id upload_id) uploads) (not_found (text "Upload not found."))
  raise_if (not (owned_by user upload)) (not_found (text "Upload not found."))
  ok upload

abbrev pub bumped : Upload → Upload
bumped u = record u { link_epoch = u.link_epoch + 1 }

-- The route `/{upload_id}/download`, to the key that it presigns.
unfoldable pub download_upload : Strings → List Upload → ℕ → Text → Result Text
download_upload str uploads upload_id sig = do
  upload ←
      or_raise (find_by (upload_has_id upload_id) uploads) (not_found (text "Upload not found."))
  raise_if (not (verify_upload_signature str upload_id sig upload.link_epoch))
      (not_found (text "Upload not found."))
  ok upload.storage_key

-- The table `uploads` and the bucket.
pub record UploadState (Objects : Type 0) : Type 0 where
  pub uploads : List Upload
  pub objects : Objects

-- The file of `store_bytes`, with the UUID of its row and the database's verdict at the commit.
pub record NewFile : Type 0 where
  pub filename : Text
  pub content_type : Text
  pub bytes : List ℕ
  pub feature : Option Text
  pub upload_id : ℕ
  pub commit_fails : Bool

module _ {Objects : Type 0} (str : Strings) (storage : Storage Objects)
    (settings : StorageSettings) where
  -- `_to_read`, with the row that it shows
  abbrev pub to_read : Upload → Upload × Text
  to_read u = (u, upload_permalink str settings u.id u.link_epoch)

  abbrev pub unless_app_error : Objects → Result Objects → Objects
  unless_app_error old (ok new) = new
  unless_app_error old (err e) = old

  -- `_safe_delete`: an error of the storage is an `AppError` and is passed over
  unfoldable pub safe_delete : Objects → Text → Objects
  safe_delete objects key = unless_app_error objects (storage.delete objects key)

  unfoldable pub new_upload : User → NewFile → Upload
  new_upload user file =
      let safe = sanitize_filename str.is_space file.filename in
      record {
        id = file.upload_id;
        bucket = or_else settings.s3_bucket [];
        storage_key = build_key str settings file.upload_id safe;
        original_filename = safe;
        content_type = file.content_type;
        size_bytes = length file.bytes;
        feature = file.feature;
        uploaded_by = some user.id;
        link_epoch = 0;
      }

  -- The commit of `store_bytes`, after the object is in storage.
  unfoldable pub record_upload :
      List Upload → Objects → Bool → Upload → UploadState Objects × Result (Upload × Text)
  record_upload uploads objects fails u =
      if fails || is_some (find_by (has_storage_key u.storage_key) uploads)
      then (
        record { uploads = uploads; objects = safe_delete objects u.storage_key },
        err (conflict (text "Could not record the upload.")),
      )
      else (record { uploads = uploads ++ u ∷ []; objects = objects }, ok (to_read u))

  unfoldable pub store_bytes :
      UploadState Objects → User → NewFile → UploadState Objects × Result (Upload × Text)
  store_bytes st user file =
      let u = new_upload user file in
      elim (validate str settings file.filename file.content_type (length file.bytes)) [
        | err e ↦ (st, err e)
        | ok _ ↦ elim (storage.upload st.objects u.storage_key file.bytes file.content_type) [
          | err e ↦ (st, err e)
          | ok objects ↦ record_upload st.uploads objects file.commit_fails u
        ]
      ]

  -- `UploadService.get`
  unfoldable pub get_upload : UploadState Objects → User → ℕ → Result (Upload × Text)
  get_upload st user upload_id = do
    upload ← load_owned st.uploads user upload_id
    ok (to_read upload)

  -- `read_bytes`
  unfoldable pub read_bytes : UploadState Objects → User → ℕ → Result (List ℕ × Text × Text)
  read_bytes st user upload_id = do
    upload ← load_owned st.uploads user upload_id
    content ← storage.download st.objects upload.storage_key
    ok (content, upload.content_type, upload.original_filename)

  -- `UploadService.delete`: the object goes first, and a commit that fails keeps the row
  unfoldable pub delete_upload :
      UploadState Objects → User → ℕ → Bool → UploadState Objects × Result (Unit {0})
  delete_upload st user upload_id commit_fails = elim (load_owned st.uploads user upload_id) [
    | err e ↦ (st, err e)
    | ok upload ↦
        let objects = safe_delete st.objects upload.storage_key in
        if commit_fails
        then (record st { objects = objects }, err (conflict (text "Could not delete the upload.")))
        else (
          record { uploads = remove_if (upload_has_id upload.id) st.uploads; objects = objects },
          ok tt,
        )
  ]

  -- `regenerate_link`
  unfoldable pub regenerate_link :
      UploadState Objects → User → ℕ → Bool → UploadState Objects × Result (Upload × Text)
  regenerate_link st user upload_id commit_fails = elim (load_owned st.uploads user upload_id) [
    | err e ↦ (st, err e)
    | ok upload ↦
        if commit_fails
        then (st, err (conflict (text "Could not regenerate the download link.")))
        else (
          record st { uploads = update_if (upload_has_id upload.id) bumped st.uploads },
          ok (to_read (bumped upload)),
        )
  ]
