-- ===== src/Uploads/Objects.antt =====
-- The rows of the uploads against the objects in storage.
use in_work_marketing_os_bac.Base.{
  ℕ, ◌≤◌, Bool, true, false, none, some, List, [], ◌∷◌, ◌++◌, ◌≡◌, ◌≢◌, inl, inr, ◌⊎◌, refl, arith,
  ==_refl, length, find_by, count, contains, Bool-cases,
}
use in_work_marketing_os_bac.Base.Lists.{All, All-append, All-map_same, All-both}
use in_work_marketing_os_bac.Base.Rows.{
  find_by-All, count-append, count_zero, count-remove_if_le, count-update_eq, All-update_if,
}
use in_work_marketing_os_bac.Base.Selects.{only_one, self_lookup_by, All-remove_if}
use in_work_marketing_os_bac.Errors.{ok, Result-cases}
use in_work_marketing_os_bac.Model.Tables.{Text, User}
use in_work_marketing_os_bac.Audit.{text_eq}
use in_work_marketing_os_bac.Audit.Laws.{text_eq_refl, text_eq_sound}
use in_work_marketing_os_bac.Uploads.Packages.{Strings, Storage}
use in_work_marketing_os_bac.Uploads.{
  Upload, StorageSettings, NewFile, UploadState, upload_has_id, has_storage_key, load_owned, bumped,
  new_upload, validate, safe_delete, record_upload, store_bytes, delete_upload, regenerate_link,
}
use in_work_marketing_os_bac.Uploads.Links.{load_owned-eq-ok}

module _ {Objects : Type 0} (storage : Storage Objects) where
  -- The row has its object in storage, or its key is one of those that were lost.
  abbrev pub Held : List Text → Objects → Upload → Type 0
  Held lost objects u =
      (contains text_eq u.storage_key lost ≡ true) ⊎ (storage.holds objects u.storage_key ≡ true)

  -- Every row has its object, if its key is not lost, and no two rows one key.
  pub record IsBacked (lost : List Text) (st : UploadState Objects) : Type 0 where
    pub backed : All (Held lost st.objects) st.uploads
    pub one_row : (k : Text) → count (has_storage_key k) st.uploads ≤ 1

module _ {Objects : Type 0} (str : Strings) (storage : Storage Objects)
    (settings : StorageSettings) where
  -- One call of the service, with the key that it loses: that of a row whose delete reached the storage, but
  -- not its commit. A new file has a fresh UUID, so no row has its key.
  pub data Step (st : UploadState Objects) : UploadState Objects → List Text → Type 0 where
    stores :
        (user : User) (file : NewFile)
        → find_by
            (has_storage_key (new_upload str storage settings user file).storage_key)
            st.uploads
          ≡ none
        → Step st (store_bytes str storage settings st user file).0 []
    deletes :
        (user : User) (i : ℕ) → Step st (delete_upload str storage settings st user i false).0 []
    fails_to_delete :
        (user : User) (i : ℕ) (u : Upload)
        → load_owned st.uploads user i ≡ ok u
        → Step st (delete_upload str storage settings st user i true).0 (u.storage_key ∷ [])
    regenerates :
        (user : User) (i : ℕ) (commit_fails : Bool)
        → Step st (regenerate_link str storage settings st user i commit_fails).0 []

  pub data Reach (st : UploadState Objects) : UploadState Objects → List Text → Type 0 where
    here : Reach st st []
    next :
        {s t : UploadState Objects} {lost more : List Text}
        → Reach st s lost
        → Step s t more
        → Reach st t (more ++ lost)

  Held-map :
      (lost : List Text) (o p : Objects) (u : Upload)
      → (storage.holds o u.storage_key ≡ true → storage.holds p u.storage_key ≡ true)
      → Held storage lost o u
      → Held storage lost p u
  Held-map lost o p u keeps (inl l) = inl l
  Held-map lost o p u keeps (inr h) = inr (keeps h)

  -- The best-effort delete keeps the objects under other keys.
  safe_delete_keeps :
      (objects : Objects) (k l : Text)
      → l ≢ k
      → storage.holds objects l ≡ true
      → storage.holds (safe_delete str storage settings objects k) l ≡ true
  unfolding safe_delete
  safe_delete_keeps objects k l other held = elim (Result-cases (storage.delete objects k)) [
    | inl (o, e) ↦ rw (e, safe_delete) (storage.delete_keeps objects o k l e other held)
    | inr (x, e) ↦ rw (e, safe_delete) held
  ]

  -- A row without the key of a row that is removed.
  other_key : (k : Text) (x : Upload) → has_storage_key k x ≡ false → x.storage_key ≢ k
  other_key k x n same = absurd (cc (rw (same, text_eq_refl k) at n))

  -- Keys that no row has.
  fresh_keys :
      (k : Text) (uploads : List Upload)
      → find_by (has_storage_key k) uploads ≡ none
      → All (λ x. x.storage_key ≢ k) uploads
  unfolding find_by
  fresh_keys k [] h = tt
  fresh_keys k (x ∷ xs) h = (other_key k x (ground arith), fresh_keys k xs (ground arith))

  one_key :
      (uploads : List Upload) (u : Upload) (k : Text)
      → find_by (has_storage_key u.storage_key) uploads ≡ none
      → count (has_storage_key k) uploads ≤ 1
      → count (has_storage_key k) (uploads ++ u ∷ []) ≤ 1
  unfolding count
  one_key uploads u k fresh one = elim (Bool-cases (text_eq u.storage_key k)) [
    | inl e ↦
        let same : u.storage_key ≡ k = text_eq_sound u.storage_key k e in
        let unused : find_by (has_storage_key k) uploads ≡ none = rw same at fresh in
        rw
          (
            count-append (has_storage_key k) uploads (u ∷ []),
            e,
            count_zero (has_storage_key k) uploads unused,
          )
          (omega arith)
    | inr e ↦ rw (count-append (has_storage_key k) uploads (u ∷ []), e) (omega (arith, one))
  ]

  record_upload-IsBacked :
      (lost : List Text) (uploads : List Upload) (objects : Objects) (fails : Bool) (u : Upload)
      → find_by (has_storage_key u.storage_key) uploads ≡ none
      → storage.holds objects u.storage_key ≡ true
      → IsBacked storage lost (record { uploads = uploads; objects = objects })
      → IsBacked storage lost (record_upload str storage settings uploads objects fails u).0
  unfolding record_upload
  record_upload-IsBacked lost uploads objects true u fresh held b = record {
    backed =
        All-map_same (λ x. (x.storage_key ≢ u.storage_key) × Held storage lost objects x)
          (Held storage lost (safe_delete str storage settings objects u.storage_key))
          (λ x h.
            Held-map lost objects (safe_delete str storage settings objects u.storage_key) x
              (safe_delete_keeps objects u.storage_key x.storage_key h.0) h.1)
          uploads
          (All-both (λ x. x.storage_key ≢ u.storage_key) (Held storage lost objects) uploads
            (fresh_keys u.storage_key uploads fresh) b.backed);
    one_row = b.one_row;
  }
  record_upload-IsBacked lost uploads objects false u fresh held b =
      rw (fresh, record_upload)
        (record {
          backed = All-append (Held storage lost objects) uploads (u ∷ []) b.backed (inr held, tt);
          one_row = λ k. one_key uploads u k fresh (b.one_row k);
        })

  store_bytes-IsBacked :
      (lost : List Text) (st : UploadState Objects) (user : User) (file : NewFile)
      → find_by (has_storage_key (new_upload str storage settings user file).storage_key) st.uploads
        ≡ none
      → IsBacked storage lost st
      → IsBacked storage lost (store_bytes str storage settings st user file).0
  unfolding store_bytes
  store_bytes-IsBacked lost st user file fresh b =
      let u : Upload = new_upload str storage settings user file in
      elim (Result-cases
        (validate str settings file.filename file.content_type (length file.bytes))) [
          | inr (e, bad) ↦ rw (bad, store_bytes) b
          | inl (_, good) ↦
              elim (Result-cases
                (storage.upload st.objects u.storage_key file.bytes file.content_type)) [
                  | inr (e, failed) ↦ rw (good, store_bytes, failed) b
                  | inl (o, stored) ↦
                      rw (good, store_bytes, stored)
                        (record_upload-IsBacked lost st.uploads o file.commit_fails u fresh
                          (storage.upload_holds st.objects o u.storage_key file.bytes
                            file.content_type stored)
                          (record {
                            backed =
                                All-map_same (Held storage lost st.objects) (Held storage lost o)
                                  (λ x. Held-map lost st.objects o x (
                                    storage.upload_keeps st.objects o u.storage_key file.bytes
                                      file.content_type x.storage_key stored))
                                  st.uploads b.backed;
                            one_row = b.one_row;
                          }))
                ]
        ]

  kept_object :
      (objects : Objects) (u x : Upload)
      → (has_storage_key u.storage_key x ≡ true → x ≡ u)
      → storage.holds objects x.storage_key ≡ true
      → upload_has_id u.id x ≡ false
      → storage.holds (safe_delete str storage settings objects u.storage_key) x.storage_key ≡ true
  kept_object objects u x alone held other = elim (Bool-cases (has_storage_key u.storage_key x)) [
    | inr e ↦
        safe_delete_keeps objects u.storage_key x.storage_key (other_key u.storage_key x e) held
    | inl e ↦ absurd (cc (rw (alone e, ==_refl u.id) at other))
  ]

  delete_upload-IsBacked :
      (lost : List Text) (st : UploadState Objects) (user : User) (i : ℕ)
      → IsBacked storage lost st
      → IsBacked storage lost (delete_upload str storage settings st user i false).0
  unfolding delete_upload
  delete_upload-IsBacked lost st user i b = elim (Result-cases (load_owned st.uploads user i)) [
    | inr (e, refused) ↦ rw (refused, delete_upload) b
    | inl (u, loaded) ↦
        let (found, owned) = load_owned-eq-ok st.uploads user i u loaded in
        let own : find_by (has_storage_key u.storage_key) st.uploads ≡ some u =
          find_by-All (λ x. find_by (has_storage_key x.storage_key) st.uploads ≡ some x)
            (upload_has_id i) st.uploads u
            (self_lookup_by has_storage_key (λ (x : Upload). x.storage_key) st.uploads
              (λ x. text_eq_refl x.storage_key) b.one_row)
            found in
        let alone : All (λ x. has_storage_key u.storage_key x ≡ true → x ≡ u) st.uploads =
          only_one (has_storage_key u.storage_key) st.uploads u own (b.one_row u.storage_key) in
        rw (loaded, delete_upload)
          (record {
            backed =
                All-remove_if
                  (λ x.
                    (has_storage_key u.storage_key x ≡ true → x ≡ u)
                    × Held storage lost st.objects x)
                  (Held storage lost (safe_delete str storage settings st.objects u.storage_key))
                  (upload_has_id u.id) st.uploads
                  (λ x h other.
                    Held-map lost st.objects
                      (safe_delete str storage settings st.objects u.storage_key) x
                      (λ held. kept_object st.objects u x h.0 held other) h.1)
                  (All-both _ (Held storage lost st.objects) st.uploads alone b.backed);
            one_row = λ k. omega (
              arith,
              b.one_row k,
              count-remove_if_le (has_storage_key k) (upload_has_id u.id) st.uploads,
            );
          })
  ]

  -- A delete whose commit fails loses the key of its row.
  lost_key :
      (lost : List Text) (objects : Objects) (k : Text) (x : Upload)
      → Held storage lost objects x
      → Held storage (k ∷ lost) (safe_delete str storage settings objects k) x
  lost_key lost objects k x h = elim (Bool-cases (text_eq k x.storage_key)) [
    | inl e ↦ inl (ground arith)
    | inr n ↦ elim h [
      | inl l ↦ inl (ground arith)
      | inr held ↦ inr (
          safe_delete_keeps objects k x.storage_key
            (λ same. absurd (cc (rw (same, text_eq_refl k) at n))) held)
    ]
  ]

  fails_to_delete-IsBacked :
      (lost : List Text) (st : UploadState Objects) (user : User) (i : ℕ) (u : Upload)
      → load_owned st.uploads user i ≡ ok u
      → IsBacked storage lost st
      → IsBacked storage
          (u.storage_key ∷ lost)
          (delete_upload str storage settings st user i true).0
  unfolding delete_upload
  fails_to_delete-IsBacked lost st user i u loaded b =
      rw (loaded, delete_upload)
        (record {
          backed =
              All-map_same (Held storage lost st.objects)
                (Held storage (u.storage_key ∷ lost)
                  (safe_delete str storage settings st.objects u.storage_key))
                (lost_key lost st.objects u.storage_key) st.uploads b.backed;
          one_row = b.one_row;
        })

  regenerate_link-IsBacked :
      (lost : List Text) (st : UploadState Objects) (user : User) (i : ℕ) (fails : Bool)
      → IsBacked storage lost st
      → IsBacked storage lost (regenerate_link str storage settings st user i fails).0
  unfolding regenerate_link
  regenerate_link-IsBacked lost st user i true b =
      elim (Result-cases (load_owned st.uploads user i)) [
        | inr (e, refused) ↦ rw (refused, regenerate_link) b
        | inl (u, loaded) ↦ rw (loaded, regenerate_link) b
      ]
  regenerate_link-IsBacked lost st user i false b =
      elim (Result-cases (load_owned st.uploads user i)) [
        | inr (e, refused) ↦ rw (refused, regenerate_link) b
        | inl (u, loaded) ↦
            rw (loaded, regenerate_link)
              (record {
                backed =
                    All-update_if (Held storage lost st.objects) (upload_has_id u.id) bumped
                      st.uploads (λ x e h. h) b.backed;
                one_row = λ k. omega (
                  arith,
                  b.one_row k,
                  count-update_eq (has_storage_key k) (upload_has_id u.id) bumped st.uploads
                      (λ x. refl),
                );
              })
      ]

  Step-IsBacked :
      {s t : UploadState Objects} {lost more : List Text}
      → Step s t more
      → IsBacked storage lost s
      → IsBacked storage (more ++ lost) t
  Step-IsBacked {s} {lost = lost} (stores user file fresh) b =
      store_bytes-IsBacked lost s user file fresh b
  Step-IsBacked {s} {lost = lost} (deletes user i) b = delete_upload-IsBacked lost s user i b
  Step-IsBacked {s} {lost = lost} (fails_to_delete user i u loaded) b =
      fails_to_delete-IsBacked lost s user i u loaded b
  Step-IsBacked {s} {lost = lost} (regenerates user i fails) b =
      regenerate_link-IsBacked lost s user i fails b

-- In every state that uploads, deletes and new links reach from one in which it holds, also through failing calls
-- of the storage and failing commits: no two rows of `uploads` have one key, and every row has its object in
-- storage, except a row whose delete removed the object and then failed to commit.
pub Reach-IsBacked :
    {Objects : Type 0} (str : Strings) (storage : Storage Objects) (settings : StorageSettings)
    {s t : UploadState Objects} {lost : List Text}
    → Reach str storage settings s t lost
    → IsBacked storage [] s
    → IsBacked storage lost t
Reach-IsBacked str storage settings here b = b
Reach-IsBacked str storage settings (next before step) b =
    Step-IsBacked str storage settings step (Reach-IsBacked str storage settings before b)
