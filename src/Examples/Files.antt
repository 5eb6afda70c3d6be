-- ===== src/Examples/Files.antt =====
-- A file that is stored, linked anew and deleted; digests and numbers stand by themselves.
use in_work_marketing_os_bac.Base.{
  ℕ, ◌≢◌, ◌⊎◌, Bool, true, false, none, some, [], ◌∷◌, ◌≡◌, refl, arith, ◌==◌, if◌then◌else◌, count,
  find_by, Bool-cases, inl, inr,
}
use in_work_marketing_os_bac.Errors.{text, not_found, Result, ok, err}
use in_work_marketing_os_bac.Model.Tables.{Text}
use in_work_marketing_os_bac.Audit.{text_eq}
use in_work_marketing_os_bac.Audit.Laws.{text_eq_refl, text_eq_sound}
use in_work_marketing_os_bac.Uploads.Packages.{Strings, Storage}
use in_work_marketing_os_bac.Uploads.{
  Upload, StorageSettings, NewFile, UploadState, sanitize_filename, has_storage_key, new_upload,
  store_bytes, delete_upload, load_owned, regenerate_link, bumped, upload_permalink, upload_has_id,
  sign_upload_id, download_upload,
}
use in_work_marketing_os_bac.Uploads.Names.{IsSafeName, SafeIsInk, sanitize_filename_safe}
use in_work_marketing_os_bac.Uploads.Links.{Collides, regenerate_link_revokes}
use in_work_marketing_os_bac.Uploads.Objects.{IsBacked, here, next, stores, deletes, Reach-IsBacked}
use in_work_marketing_os_bac.Examples.Data.{plain_user}

abbrev is_blank : ℕ → Bool
is_blank c = c == 32

blank-SafeIsInk : SafeIsInk is_blank
blank-SafeIsInk c h = ground arith

sanitize_filename_safe_example :
    IsSafeName (sanitize_filename is_blank (b'.' ∷ b'.' ∷ b'/' ∷ b'a' ∷ []))
    × (sanitize_filename is_blank (sanitize_filename is_blank (b'.' ∷ b'.' ∷ b'/' ∷ b'a' ∷ []))
        ≡ sanitize_filename is_blank (b'.' ∷ b'.' ∷ b'/' ∷ b'a' ∷ []))
sanitize_filename_safe_example =
    sanitize_filename_safe is_blank (b'.' ∷ b'.' ∷ b'/' ∷ b'a' ∷ []) blank-SafeIsInk

one_code : (m n : ℕ) → ◌≡◌ {A = Text} (m ∷ []) (n ∷ []) → m ≡ n
one_code m n h = cc

abbrev plain_strings : Strings
plain_strings = record {
  is_space = is_blank;
  lower = λ t. t;
  spell_uuid = λ i. i ∷ [];
  spell_int = λ n. n ∷ [];
  digest = λ t. t;
  spell_int_injective = one_code;
}

-- A bucket as the set of its keys.
abbrev Keys : Type 0
Keys = Text → Bool

abbrev with_key : Keys → Text → Keys
with_key o k l = if text_eq l k then true else o l

abbrev without_key : Keys → Text → Keys
without_key o k l = if text_eq l k then false else o l

Keys-eq : (o p : Keys) → ◌≡◌ {A = Result Keys} (ok o) (ok p) → o ≡ p
Keys-eq o p h = cc

with_key_holds :
    (o p : Keys) (k : Text) → ◌≡◌ {A = Result Keys} (ok (with_key o k)) (ok p) → p k ≡ true
with_key_holds o p k h = rw (← Keys-eq (with_key o k) p h) (rw (text_eq_refl k) refl)

with_key_keeps :
    (o p : Keys) (k l : Text)
    → ◌≡◌ {A = Result Keys} (ok (with_key o k)) (ok p)
    → o l ≡ true
    → p l ≡ true
with_key_keeps o p k l h held = rw (← Keys-eq (with_key o k) p h) (ground arith)

without_key_keeps :
    (o p : Keys) (k l : Text)
    → ◌≡◌ {A = Result Keys} (ok (without_key o k)) (ok p)
    → l ≢ k
    → o l ≡ true
    → p l ≡ true
without_key_keeps o p k l h other held =
    rw (← Keys-eq (without_key o k) p h) (elim (Bool-cases (text_eq l k)) [
      | inl e ↦ absurd (other (text_eq_sound l k e))
      | inr e ↦ rw e held
    ])

abbrev bucket : Storage Keys
bucket = record {
  upload = λ o k bytes t. ok (with_key o k);
  delete = λ o k. ok (without_key o k);
  download = λ o k. ok [];
  holds = λ o k. o k;
  upload_holds = λ o p k bytes t. with_key_holds o p k;
  upload_keeps = λ o p k bytes t l. with_key_keeps o p k l;
  delete_keeps = without_key_keeps;
}

abbrev settings : StorageSettings
settings = record {
  s3_bucket = none;
  key_prefix = 117 ∷ [];
  max_upload_bytes = 1000;
  max_upload_mb = 0;
  allowed_content_types = b'*' ∷ [];
  public_api_base_url = [];
}

abbrev file : NewFile
file = record {
  filename = b'a' ∷ [];
  content_type = [];
  bytes = 1 ∷ 2 ∷ [];
  feature = none;
  upload_id = 70;
  commit_fails = false;
}

abbrev no_files : UploadState Keys
no_files = record { uploads = []; objects = λ k. false }

no_files-IsBacked : IsBacked bucket [] no_files
unfolding count
no_files-IsBacked = record { backed = tt; one_row = λ k. omega arith }

no_such_key :
    find_by
      (has_storage_key (new_upload plain_strings bucket settings plain_user file).storage_key)
      no_files.uploads
    ≡ none
unfolding find_by
no_such_key = refl

Reach-IsBacked_example :
    IsBacked bucket []
      (delete_upload plain_strings bucket settings
        (store_bytes plain_strings bucket settings no_files plain_user file).0
        plain_user
        70
        false).0
Reach-IsBacked_example =
    Reach-IsBacked plain_strings bucket settings
      (next (next here (stores plain_user file no_such_key)) (deletes plain_user 70))
      no_files-IsBacked

abbrev stored : Upload
stored = record {
  id = 70;
  bucket = [];
  storage_key = 117 ∷ [];
  original_filename = b'a' ∷ [];
  content_type = [];
  size_bytes = 2;
  feature = none;
  uploaded_by = some 12;
  link_epoch = 0;
}

abbrev one_file : UploadState Keys
one_file = record { uploads = stored ∷ []; objects = λ k. true }

stored_row : find_by (upload_has_id 70) one_file.uploads ≡ some stored
unfolding find_by
stored_row = refl

relinks :
    (regenerate_link plain_strings bucket settings one_file plain_user 70 false).1
    ≡ ok (bumped stored, upload_permalink plain_strings settings 70 1)
unfolding regenerate_link load_owned find_by
relinks = refl

regenerate_link_revokes_example :
    (upload_permalink plain_strings settings 70 1 ≡ upload_permalink plain_strings settings 70 1)
    × (download_upload plain_strings
          (regenerate_link plain_strings bucket settings one_file plain_user 70 false).0.uploads
          70
          (sign_upload_id plain_strings 70 1)
        ≡ ok stored.storage_key)
    × ((download_upload plain_strings
            (regenerate_link plain_strings bucket settings one_file plain_user 70 false).0.uploads
            70
            (sign_upload_id plain_strings 70 0)
          ≡ err (not_found (text "Upload not found.")))
        ⊎ Collides plain_strings 70 0 1)
regenerate_link_revokes_example =
    regenerate_link_revokes plain_strings bucket settings one_file plain_user 70 0 false stored
      (bumped stored) (upload_permalink plain_strings settings 70 1) stored_row relinks
      (omega arith)
