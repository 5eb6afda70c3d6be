-- ===== src/Web/Candidates.antt =====
-- The URLs that a fetch tries: no downgrade to a connection in clear text.
use in_work_marketing_os_bac.Base.{
  Bool, true, false, some, List, [], ◌∷◌, ◌≡◌, refl, arith, contains, codes, Bool-cases, inl, inr,
  ◌⊎◌, ◌&&◌,
}
use in_work_marketing_os_bac.Base.Lists.{All}
use in_work_marketing_os_bac.Model.Tables.{Text}
use in_work_marketing_os_bac.Audit.{text_eq}
use in_work_marketing_os_bac.Audit.Laws.{text_eq_sound}
use in_work_marketing_os_bac.Uploads.{strip}
use in_work_marketing_os_bac.Web.Packages.{Network}
use in_work_marketing_os_bac.Web.{has_scheme, is_http, normalize_url, candidate_urls, unique_urls}

unique_urls-All {ℓ} :
    (P : Text → Type ℓ) (seen us : List Text) → All P us → All P (unique_urls seen us)
unfolding unique_urls
unique_urls-All P seen [] h = tt
unique_urls-All P seen (u ∷ us) h = elim (Bool-cases (contains text_eq u seen)) [
  | inl e ↦ rw e (unique_urls-All P seen us h.1)
  | inr e ↦ rw e (h.0, unique_urls-All P (u ∷ seen) us h.1)
]

is_http_sound : (s : Text) → is_http s ≡ true → (s ≡ codes "http") ⊎ (s ≡ codes "https")
is_http_sound s h = elim (Bool-cases (text_eq s (codes "http"))) [
  | inl e ↦ inl (text_eq_sound s (codes "http") e)
  | inr e ↦ inr (text_eq_sound s (codes "https") (rw e at h))
]

normalize_url-http :
    (net : Network) (raw url : Text)
    → normalize_url net raw ≡ some url
    → is_http (net.urlparse url).scheme ≡ true
unfolding normalize_url
normalize_url-http net raw url h = ground arith

and_false : (b : Bool) → (b && false) ≡ false
and_false true = refl
and_false false = refl

-- If the stripped input spells out a scheme: the URLs that a fetch tries begin with the normalized input, whose
-- scheme is `http` or `https`, and all have its scheme, so `https` never falls back to `http`.
pub candidate_urls-same_scheme :
    (net : Network) (raw base : Text)
    → has_scheme (strip net.is_space raw) ≡ true
    → normalize_url net raw ≡ some base
    → (is_http (net.urlparse base).scheme ≡ true)
      × ((rest : List Text) × (candidate_urls net raw ≡ base ∷ rest))
      × All (λ url. (net.urlparse url).scheme ≡ (net.urlparse base).scheme) (candidate_urls net raw)
unfolding candidate_urls
candidate_urls-same_scheme net raw base explicit h =
    let is_web = normalize_url-http net raw base h in
    let http = is_http_sound (net.urlparse base).scheme is_web in
    (
      is_web,
      rw (h, candidate_urls) (unfold unique_urls in (_, refl)),
      rw (h, candidate_urls, explicit, and_false)
          (unique_urls-All (λ url. (net.urlparse url).scheme ≡ (net.urlparse base).scheme) [] _
            (refl, (net.urlparse-urlunparse _ _ _ _ _ http, tt))),
    )
