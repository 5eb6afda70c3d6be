-- ===== src/Web.antt =====
-- The guarded fetch of a page: the URL helpers, the resolver guard and the redirects of app/utils/web.py.
-- What is read out of a page once it is fetched is a parameter, as are the links to its stylesheets.
use in_work_marketing_os_bac.Base.{
  ℕ, zero, suc, ◌+◌, Bool, true, false, Option, none, some, List, [], ◌∷◌, ◌++◌, ◌==◌, ◌&&◌, ◌||◌,
  not, if◌then◌else◌, leb, codes, contains, take, drop, is_some, or_else,
}
use in_work_marketing_os_bac.Model.Tables.{Text}
use in_work_marketing_os_bac.Audit.{text_eq}
use in_work_marketing_os_bac.Uploads.{strip}
use in_work_marketing_os_bac.Chunking.{starts_with}
use Packages.{ParseResult, Address, Request, Response, Network}
pub mod Packages
pub mod Guard
pub mod Candidates

-- `_MAX_CANDIDATES`
abbrev pub max_candidates : ℕ
max_candidates = 3

-- `_MAX_REDIRECTS`
abbrev pub max_redirects : ℕ
max_redirects = 5

abbrev pub is_letter : ℕ → Bool
is_letter c = (leb b'a' c && leb c b'z') || (leb b'A' c && leb c b'Z')

-- a character of `[a-zA-Z0-9+.\-]`
abbrev pub is_scheme_char : ℕ → Bool
is_scheme_char c = is_letter c || (leb b'0' c && leb c b'9') || c == b'+' || c == b'.' || c == b'-'

-- the rest of `_SCHEME_RE` behind its first letter
unfoldable pub scheme_tail : Text → Bool
scheme_tail [] = false
scheme_tail (c ∷ t) =
    let rest = scheme_tail t in
    if starts_with (codes "://") (c ∷ t) then true else is_scheme_char c && rest

-- `_SCHEME_RE.match`
unfoldable pub has_scheme : Text → Bool
unfolding scheme_tail
has_scheme [] = false
has_scheme (c ∷ t) = is_letter c && scheme_tail t

-- `x in ("http", "https")`
abbrev pub is_http : Text → Bool
is_http s = text_eq s (codes "http") || text_eq s (codes "https")

-- `not text`
abbrev pub is_blank : Text → Bool
is_blank [] = true
is_blank (c ∷ t) = false

-- a host that is there and not empty
abbrev pub host_of : Option Text → Option Text
host_of none = none
host_of (some []) = none
host_of (some (c ∷ t)) = some (c ∷ t)

-- `_is_blocked_ip`
unfoldable pub is_blocked_ip : Address → Bool
is_blocked_ip ip =
    ip.is_private || ip.is_loopback || ip.is_link_local || ip.is_reserved || ip.is_multicast
    || ip.is_unspecified

-- the URLs that are not seen before
unfoldable pub unique_urls : List Text → List Text → List Text
unique_urls seen [] = []
unique_urls seen (u ∷ us) =
    let rest = unique_urls (u ∷ seen) us in
    let known = unique_urls seen us in if contains text_eq u seen then known else u ∷ rest

-- the address that `_resolve_public_ip` prefers: the first of version 4, else the first
unfoldable pub preferred : Address → List Address → Address
preferred first [] = first
preferred first (ip ∷ ips) = let rest = preferred first ips in if ip.version == 4 then ip else rest

abbrev pub pick : List Address → Option Address
pick [] = none
pick (ip ∷ ips) = some (preferred ip (ip ∷ ips))

-- the connections that were made, and the number of the next lookup
pub record Trace : Type 0 where
  pub lookups : ℕ
  pub sent : List Request

abbrev pub path_or_root : Text → Text
path_or_root [] = codes "/"
path_or_root (c ∷ t) = c ∷ t

abbrev pub host_literal : Address → Text
host_literal ip =
    if contains ◌==◌ b':' ip.literal then codes "[" ++ ip.literal ++ codes "]" else ip.literal

abbrev pub looked_up : Trace → Trace
looked_up t = record t { lookups = t.lookups + 1 }

abbrev pub connected : Trace → Request → Trace
connected t r = record { lookups = t.lookups + 1; sent = t.sent ++ r ∷ [] }

abbrev pub page_of : Text → Option Text → Option (Text × Text)
page_of url none = none
page_of url (some html) = some (url, html)

module _ (net : Network) where
  -- `normalize_url`
  unfoldable pub normalize_url : Text → Option Text
  normalize_url raw =
      let raw' = strip net.is_space raw in
      let inferred = not (has_scheme raw') in
      let url = if inferred then codes "https://" ++ raw' else raw' in
      let parsed = net.urlparse url in
      if is_blank raw' then none else elim (host_of parsed.hostname) [
        | none ↦ none
        | some host ↦
            if not (is_http parsed.scheme) || inferred && not (contains ◌==◌ b'.' host)
            then none
            else some url
      ]

  abbrev pub port_suffix : Option ℕ → Text
  port_suffix none = []
  port_suffix (some zero) = []
  port_suffix (some (suc n)) = codes ":" ++ net.spell_int (suc n)

  -- `build` of `candidate_urls`
  abbrev pub build : ParseResult → Text → Text → Text
  build parsed scheme hostname =
      net.urlunparse scheme (hostname ++ port_suffix parsed.port) (path_or_root parsed.path)
        parsed.params parsed.query

  -- `candidate_urls`
  unfoldable pub candidate_urls : Text → List Text
  candidate_urls raw = elim (normalize_url raw) [
    | none ↦ []
    | some base ↦
        let parsed = net.urlparse base in
        let host = or_else parsed.hostname [] in
        let alt_host =
          if starts_with (codes "www.") host then drop 4 host else codes "www." ++ host in
        let explicit_scheme = has_scheme (strip net.is_space raw) in
        let fallback =
          if text_eq parsed.scheme (codes "https") && not explicit_scheme
          then build parsed (codes "http") host ∷ []
          else [] in
        unique_urls [] (base ∷ build parsed parsed.scheme alt_host ∷ fallback)
  ]

  -- the loop over `infos`; `none` is the early return
  unfoldable pub checked : List Text → Option (List Address)
  checked [] = some []
  checked (info ∷ infos) =
      let rest = checked infos in
      elim (net.ip_address info) [
        | none ↦ rest
        | some ip ↦
            if is_blocked_ip ip
            then none
            else elim rest [ none ↦ none | some ips ↦ some (ip ∷ ips) ]
      ]

  -- `_resolve_public_ip`, at the lookup `n`
  unfoldable pub resolve_public_ip : ℕ → Text → Option Address
  resolve_public_ip n hostname = elim (net.getaddrinfo n hostname) [
    | none ↦ none
    | some infos ↦ elim (checked infos) [ none ↦ none | some ips ↦ pick ips ]
  ]

  -- `_is_public_http_url`, at the lookup `n`
  unfoldable pub is_public_http_url : ℕ → Text → Bool
  is_public_http_url n url =
      let parsed = net.urlparse url in
      elim (host_of parsed.hostname) [
        | none ↦ false
        | some host ↦ is_http parsed.scheme && is_some (resolve_public_ip n host)
      ]

  -- the connection to the address itself, under the name of the host
  unfoldable pub pinned : ParseResult → Text → Address → Request
  pinned parsed host ip = record { url = build parsed parsed.scheme (host_literal ip); host = host }

  -- the loop of `_get`, over the rounds that are left
  unfoldable pub get_loop : ℕ → Text → Trace → Trace × Option Text
  get_loop zero current t = (t, none)
  get_loop (suc n) current t =
      let parsed = net.urlparse current in
      elim (host_of parsed.hostname) [
        | none ↦ (t, none)
        | some host ↦ elim (is_http parsed.scheme) [
          | false ↦ (t, none)
          | true ↦ elim (resolve_public_ip t.lookups host) [
            | none ↦ (looked_up t, none)
            | some ip ↦
                let t' = connected t (pinned parsed host ip) in
                elim (net.send t.lookups (pinned parsed host ip)) [
                  | none ↦ (t', none)
                  | some resp ↦ elim resp.is_redirect [
                    | true ↦ elim (host_of resp.location) [
                      | none ↦ (t', none)
                      | some location ↦ get_loop n (net.urljoin current location) t'
                    ]
                    | false ↦ if resp.is_error then (t', none) else (t', some resp.body)
                  ]
                ]
          ]
        ]
      ]

  -- `_get`
  unfoldable pub get : Text → Trace → Trace × Option Text
  get url t = get_loop (max_redirects + 1) url t

  -- The loop of `fetch_page`: the first candidate whose page is not empty, else the given URL with what
  -- the last candidate answered.
  unfoldable pub first_page : Text → Option Text → List Text → Trace → Trace × Option (Text × Text)
  first_page given html [] t = (t, page_of given html)
  first_page given html (url ∷ urls) t =
      let (t', answer) = get url t in
      let next = first_page given answer urls t' in
      elim (host_of answer) [ none ↦ next | some page ↦ (t', some (url, page)) ]

  -- the fetches of stylesheets by `parse_page`; a link without a target is skipped
  unfoldable pub get_sheets : Text → List (Option Text) → Trace → Trace × List (Option Text)
  get_sheets base_url [] t = (t, [])
  get_sheets base_url (none ∷ links) t = get_sheets base_url links t
  get_sheets base_url (some href ∷ links) t =
      let (t', sheet) = get (net.urljoin base_url href) t in
      let (t'', sheets) = get_sheets base_url links t' in (t'', sheet ∷ sheets)

  -- `fetch_page`, up to the reading of the page; `links` are the stylesheet links of a page
  unfoldable pub fetch_page :
      (Text → List (Option Text))
      → ℕ
      → Text
      → Trace
      → Trace × Option (Text × Text × List (Option Text))
  fetch_page links max_css url t =
      let (t', hit) = first_page url none (take max_candidates (candidate_urls url)) t in
      elim hit [
        | none ↦ (t', none)
        | some (url', html) ↦
            let (t'', sheets) = get_sheets url' (take max_css (links html)) t' in
            (t'', some (url', html, sheets))
      ]
