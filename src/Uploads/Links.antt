-- ===== src/Uploads/Links.antt =====
-- Signed download links, and what `regenerate_link` does to the older ones.
use mathlib.Core.Path.{subst}
use in_work_marketing_os_bac.Base.{
  ℕ, ◌≤◌, zero, suc, ◌+◌, Bool, true, false, ◌⊎◌, some, List, [], ◌∷◌, ◌++◌, ◌≡◌, ◌≢◌, refl, sym,
  ap, arith, not, length, find_by, update_if, ==_iff, ◌==◌, Bool-cases, inl, inr, ◌∙◌,
}
use in_work_marketing_os_bac.Base.Lists.{length-append}
use in_work_marketing_os_bac.Base.Rows.{find_by-update_if, find_by_sound}
use in_work_marketing_os_bac.Errors.{
  text, not_found, Result, ok, err, or_raise, raise_if-eq-ok, or_raise-eq-ok, >>=-eq-ok,
  Result-cases,
}
use in_work_marketing_os_bac.Model.Tables.{Text, User}
use in_work_marketing_os_bac.Audit.{text_eq}
use in_work_marketing_os_bac.Audit.Laws.{text_eq_refl, text_eq_sound}
use in_work_marketing_os_bac.Uploads.Packages.{Strings, Storage}
use in_work_marketing_os_bac.Uploads.{
  Upload, StorageSettings, upload_has_id, owned_by, load_owned, UploadState, upload_sign_input,
  sign_upload_id, verify_upload_signature, upload_permalink, bumped, regenerate_link,
  download_upload,
}

append_cancel : (t u v : Text) → t ++ u ≡ t ++ v → u ≡ v
append_cancel [] u v h = h
append_cancel (c ∷ t) u v h = append_cancel t u v (cc h)

no_tail : (t : Text) (c : ℕ) (u : Text) → t ≢ t ++ c ∷ u
no_tail t c u h = absurd (omega (arith, ap (λ (x : Text). length x) h, length-append t (c ∷ u)))

-- Two different texts, signed for one upload at two epochs, with one digest: a collision of HMAC.
abbrev pub Collides : Strings → ℕ → ℕ → ℕ → Type 0
Collides str i e f =
    (upload_sign_input str i e ≢ upload_sign_input str i f)
    × (str.digest (upload_sign_input str i e) ≡ str.digest (upload_sign_input str i f))

module _ (str : Strings) where
  upload_sign_input-suc :
      (i e : ℕ) → upload_sign_input str i (suc e) ≡ str.spell_uuid i ++ b':' ∷ str.spell_int (suc e)
  unfolding upload_sign_input
  upload_sign_input-suc i e =
      let bumped_once : (suc e == 0) ≡ false = ground arith in
      rw (bumped_once, upload_sign_input) refl

  -- A link of an earlier epoch is signed over another text.
  upload_sign_input_injective :
      (i e f : ℕ) → upload_sign_input str i e ≡ upload_sign_input str i f → e ≡ f
  unfolding upload_sign_input
  upload_sign_input_injective i zero zero h = refl
  upload_sign_input_injective i zero (suc f) h =
      absurd
        (no_tail (str.spell_uuid i) b':' (str.spell_int (suc f)) (h ∙ upload_sign_input-suc i f))
  upload_sign_input_injective i (suc e) zero h =
      absurd (
        no_tail (str.spell_uuid i) b':' (str.spell_int (suc e)) (sym h ∙ upload_sign_input-suc i e))
  upload_sign_input_injective i (suc e) (suc f) h =
      let tails : b':' ∷ str.spell_int (suc e) ≡ b':' ∷ str.spell_int (suc f) =
        append_cancel (str.spell_uuid i) _ _
          (sym (upload_sign_input-suc i e) ∙ h ∙ upload_sign_input-suc i f) in
      str.spell_int_injective (suc e) (suc f) (cc tails)

  verify_own : (i e : ℕ) → verify_upload_signature str i (sign_upload_id str i e) e ≡ true
  unfolding verify_upload_signature sign_upload_id
  verify_own i e = text_eq_refl (str.digest (upload_sign_input str i e))

  -- A link of another epoch is refused, or the keyed digest of its text is that of the current one.
  verify_other :
      (i e f : ℕ)
      → e ≢ f
      → (verify_upload_signature str i (sign_upload_id str i e) f ≡ false) ⊎ Collides str i e f
  unfolding verify_upload_signature sign_upload_id
  verify_other i e f n =
      elim (Bool-cases (
        text_eq (str.digest (upload_sign_input str i f))
          (str.digest (upload_sign_input str i e)))) [
            | inr h ↦ inl h
            | inl h ↦
                inr (λ same. n (upload_sign_input_injective i e f same), sym (text_eq_sound _ _ h))
          ]

pub load_owned-eq-ok :
    (uploads : List Upload) (user : User) (i : ℕ) (u : Upload)
    → load_owned uploads user i ≡ ok u
    → (find_by (upload_has_id i) uploads ≡ some u) × (owned_by user u ≡ true)
unfolding load_owned
load_owned-eq-ok uploads user i u h =
    let (v, found, rest) =
      >>=-eq-ok
        (or_raise (find_by (upload_has_id i) uploads) (not_found (text "Upload not found."))) _ h in
    let (owned, last) = raise_if-eq-ok (not (owned_by user v)) _ (ok v) rest in
    let same : v ≡ u = cc in
    (
      or_raise-eq-ok (find_by (upload_has_id i) uploads) (not_found (text "Upload not found."))
          (cc found),
      rw (← same) (ground arith),
    )

ok_pair :
    (a b : Upload) (s t : Text)
    → ◌≡◌ {A = Result (Upload × Text)} (ok (a, s)) (ok (b, t))
    → (a ≡ b) × (s ≡ t)
ok_pair a b s t h = (cc, cc)

module _ (str : Strings) (uploads : List Upload) (i : ℕ) (u : Upload)
    (found : find_by (upload_has_id i) uploads ≡ some u) where
  -- The link of the current epoch is served, any other is not.
  download_current :
      download_upload str uploads i (sign_upload_id str i u.link_epoch) ≡ ok u.storage_key
  unfolding download_upload
  download_current = rw (found, download_upload, verify_own str i u.link_epoch) refl

  download_stale :
      (epoch : ℕ)
      → epoch ≢ u.link_epoch
      → (download_upload str uploads i (sign_upload_id str i epoch)
          ≡ err (not_found (text "Upload not found.")))
        ⊎ Collides str i epoch u.link_epoch
  unfolding download_upload
  download_stale epoch n = elim (verify_other str i epoch u.link_epoch n) [
    | inl e ↦ inl (rw (found, download_upload, e) refl)
    | inr c ↦ inr c
  ]

-- After a successful `regenerate_link` on a stored upload, the link that it returns is served, and a link that
-- was signed for the upload before, at its old epoch or an earlier one, is refused as if it did not exist, unless
-- the two texts that were signed, which differ, have one keyed digest.
pub regenerate_link_revokes :
    {Objects : Type 0} (str : Strings) (storage : Storage Objects) (settings : StorageSettings)
    (st : UploadState Objects) (user : User) (i epoch : ℕ) (fails : Bool) (old u : Upload)
    (link : Text)
    → find_by (upload_has_id i) st.uploads ≡ some old
    → (regenerate_link str storage settings st user i fails).1 ≡ ok (u, link)
    → epoch ≤ old.link_epoch
    → (link ≡ upload_permalink str settings i u.link_epoch)
      × (download_upload str
            (regenerate_link str storage settings st user i fails).0.uploads
            i
            (sign_upload_id str i u.link_epoch)
          ≡ ok u.storage_key)
      × ((download_upload str
              (regenerate_link str storage settings st user i fails).0.uploads
              i
              (sign_upload_id str i epoch)
            ≡ err (not_found (text "Upload not found.")))
          ⊎ Collides str i epoch u.link_epoch)
unfolding regenerate_link
regenerate_link_revokes str storage settings st user i epoch true old u link stored h earlier =
    elim (Result-cases (load_owned st.uploads user i)) [
      | inr (e, refused) ↦ absurd (cc (rw (refused, regenerate_link) at h))
      | inl (v, loaded) ↦ absurd (cc (rw (loaded, regenerate_link) at h))
    ]
regenerate_link_revokes str storage settings st user i epoch false old u link stored h earlier =
    elim (Result-cases (load_owned st.uploads user i)) [
      | inr (e, refused) ↦ absurd (cc (rw (refused, regenerate_link) at h))
      | inl (v, loaded) ↦
          let (found, owned) = load_owned-eq-ok st.uploads user i v loaded in
          let same_id : v.id ≡ i =
            (==_iff v.id i).0 (find_by_sound (upload_has_id i) st.uploads v found) in
          let same_row : v ≡ old = cc (found, stored) in
          let (same, same_link) =
            ok_pair (bumped v) u (upload_permalink str settings v.id (v.link_epoch + 1)) link
              (rw (loaded, regenerate_link) at h) in
          let after : find_by (upload_has_id i) (update_if (upload_has_id v.id) bumped st.uploads)
              ≡ some (bumped v) =
            subst
              (λ k.
                find_by (upload_has_id i) (update_if (upload_has_id k) bumped st.uploads)
                ≡ some (bumped v))
              (sym same_id)
              (find_by-update_if (upload_has_id i) bumped st.uploads v (λ x. refl) found) in
          let later : find_by (upload_has_id i) (update_if (upload_has_id v.id) bumped st.uploads)
              ≡ some u =
            rw (← same) after in
          rw (loaded, regenerate_link)
            (
              cc (same_link, same_id, same),
              download_current str _ i u later,
              download_stale str _ i u later epoch (
                  omega (
                    arith,
                    ap (λ (x : Upload). x.link_epoch) same_row,
                    ap (λ (x : Upload). x.link_epoch) same,
                  )),
            )
    ]
