-- ===== src/Examples/Pages.antt =====
-- A network in which one host has a public address, and a fetch from it.
use in_work_marketing_os_bac.Base.{
  drop, true, false, none, some, List, [], ◌∷◌, ◌++◌, ◌==◌, ◌≡◌, ◌⊎◌, refl, inl, inr, codes, ltb,
  if◌then◌else◌, length, ◌≤◌, ◌+◌, ◌*◌,
}
use in_work_marketing_os_bac.Base.Lists.{All}
use in_work_marketing_os_bac.Model.Tables.{Text}
use in_work_marketing_os_bac.Uploads.{strip, lstrip, rstrip}
use in_work_marketing_os_bac.Chunking.{starts_with}
use in_work_marketing_os_bac.Web.Packages.{ParseResult, Network}
use in_work_marketing_os_bac.Web.{fetch_page, has_scheme, is_http, normalize_url, candidate_urls}
use in_work_marketing_os_bac.Web.Guard.{IsPublic, fetch_page-Guarded}
use in_work_marketing_os_bac.Web.Candidates.{candidate_urls-same_scheme}

-- The scheme and the host of a URL without port and path.
abbrev parsed : Text → ParseResult
parsed url =
    if starts_with (codes "https://") url
    then record {
      scheme = codes "https";
      hostname = some (drop 8 url);
      port = none;
      path = [];
      params = [];
      query = [];
    }
    else if starts_with (codes "http://") url
    then record {
      scheme = codes "http";
      hostname = some (drop 7 url);
      port = none;
      path = [];
      params = [];
      query = [];
    }
    else record { scheme = []; hostname = none; port = none; path = []; params = []; query = [] }

joined :
    (s n p m q : Text)
    → (s ≡ codes "http") ⊎ (s ≡ codes "https")
    → (parsed (s ++ codes "://" ++ n ++ p ++ m ++ q)).scheme ≡ s
joined s n p m q (inl e) = rw e refl
joined s n p m q (inr e) = rw e refl

abbrev web : Network
web = record {
  is_space = λ c. c == 32;
  spell_int = λ n. n ∷ [];
  urlparse = parsed;
  urlunparse = λ s n p m q. s ++ codes "://" ++ n ++ p ++ m ++ q;
  urljoin = λ base link. link;
  ip_address = λ t. some (record {
    literal = t;
    version = 4;
    is_private = starts_with (codes "10.") t;
    is_loopback = false;
    is_link_local = false;
    is_reserved = false;
    is_multicast = false;
    is_unspecified = false;
  });
  getaddrinfo = λ n host. some (if ltb n 1 then codes "1.2.3.4" ∷ [] else codes "10.0.0.1" ∷ []);
  send = λ n r. some (record {
    is_redirect = true;
    location = some (codes "https://b.c");
    is_error = false;
    body = [];
  });
  urlparse-urlunparse = joined;
}

fetch_page-Guarded_example :
    let sent =
      (fetch_page web
        (λ html. [])
        3
        (codes "https://b.c")
        (record { lookups = 0; sent = [] })).0.sent in
    All (IsPublic web) sent × (length sent ≤ 18 + 6 * 3)
fetch_page-Guarded_example = fetch_page-Guarded web (λ html. []) 3 (codes "https://b.c")

spelled_out : has_scheme (strip web.is_space (codes " https://b.c")) ≡ true
unfolding has_scheme strip lstrip rstrip
spelled_out = refl

normalized : normalize_url web (codes " https://b.c") ≡ some (codes "https://b.c")
unfolding normalize_url has_scheme strip lstrip rstrip
normalized = refl

candidate_urls-same_scheme_example :
    (is_http (web.urlparse (codes "https://b.c")).scheme ≡ true)
    × ((rest : List Text) × (candidate_urls web (codes " https://b.c")
          ≡ codes "https://b.c" ∷ rest))
    × All
        (λ url. (web.urlparse url).scheme ≡ (web.urlparse (codes "https://b.c")).scheme)
        (candidate_urls web (codes " https://b.c"))
candidate_urls-same_scheme_example =
    candidate_urls-same_scheme web (codes " https://b.c") (codes "https://b.c") spelled_out
      normalized
