-- ===== src/Web/Guard.antt =====
-- Every connection of a fetch goes to a public address of the host that it names.
use in_work_marketing_os_bac.Base.{
  ℕ, zero, suc, ◌+◌, ◌*◌, ◌≤◌, true, false, Option, none, some, List, [], ◌∷◌, ◌==◌, ◌≡◌, refl,
  arith, contains, length, take, Bool-cases, Option-cases, inl, inr,
}
use in_work_marketing_os_bac.Base.Lists.{
  All, All-append, All-map_same, length-append, length-take_le,
}
use in_work_marketing_os_bac.Model.Tables.{Text}
use in_work_marketing_os_bac.Audit.{text_eq}
use in_work_marketing_os_bac.Audit.Laws.{text_eq_refl}
use in_work_marketing_os_bac.Web.Packages.{ParseResult, Address, Request, Network}
use in_work_marketing_os_bac.Web.{
  is_http, is_blocked_ip, preferred, pick, checked, resolve_public_ip, build, host_literal, host_of,
  pinned, connected, Trace, get_loop, get, first_page, get_sheets, fetch_page, candidate_urls,
  max_candidates,
}

module _ (net : Network) where
  -- None of the addresses of an answer is blocked.
  abbrev pub AllPublic : List Text → Type 0
  AllPublic =
      All (λ info. (ip : Address) → net.ip_address info ≡ some ip → is_blocked_ip ip ≡ false)

  -- The address is one of an answer.
  abbrev pub IsAmong : List Text → Address → Type 0
  IsAmong infos ip =
      (info : Text) × (contains text_eq info infos ≡ true) × (net.ip_address info ≡ some ip)

  -- A connection to an address of its host, at an answer with public addresses only.
  pub record IsPublic (r : Request) : Type 0 where
    pub parsed : ParseResult
    pub ip : Address
    pub lookup : ℕ
    pub infos : List Text
    pub resolved : net.getaddrinfo lookup r.host ≡ some infos
    pub public : AllPublic infos
    pub among : IsAmong infos ip
    pub http : is_http parsed.scheme ≡ true
    pub goes_to : r.url ≡ build net parsed parsed.scheme (host_literal ip)

  IsAmong-later :
      (info : Text) (infos : List Text) (ips : List Address)
      → All (IsAmong infos) ips
      → All (IsAmong (info ∷ infos)) ips
  IsAmong-later info infos ips =
      All-map_same (IsAmong infos) (IsAmong (info ∷ infos))
        (λ ip a. (a.0, ground (arith, a.1), a.2)) ips

  checked_sound :
      (infos : List Text) (ips : List Address)
      → checked net infos ≡ some ips
      → AllPublic infos × All (IsAmong infos) ips
  unfolding checked
  checked_sound [] ips h = (tt, let none_left : [] ≡ ips = cc in rw (← none_left) tt)
  checked_sound (info ∷ infos) ips h = elim (Option-cases (net.ip_address info)) [
    | inl e ↦
        let (public, among) = checked_sound infos ips (ground arith) in
        ((λ ip e'. absurd (cc (e, e')), public), IsAmong-later info infos ips among)
    | inr (ip, e) ↦ elim (Option-cases (checked net infos)) [
      | inl stopped ↦ absurd (ground arith)
      | inr (rest, kept) ↦
          let (public, among) = checked_sound infos rest kept in
          let open_ip : is_blocked_ip ip ≡ false = ground arith in
          let all_kept : ip ∷ rest ≡ ips = ground arith in
          (
            (λ ip' e'. ground arith, public),
            rw (← all_kept)
                ((info, ground (arith, text_eq_refl info), e), IsAmong-later info infos rest among),
          )
    ]
  ]

  preferred-All {ℓ} :
      (P : Address → Type ℓ) (first : Address) (ips : List Address)
      → P first
      → All P ips
      → P (preferred first ips)
  unfolding preferred
  preferred-All P first [] h hs = h
  preferred-All P first (ip ∷ ips) h hs = elim (Bool-cases (ip.version == 4)) [
    | inl e ↦ rw e hs.0
    | inr e ↦ rw e (preferred-All P first ips h hs.1)
  ]

  pick-All {ℓ} :
      (P : Address → Type ℓ) (ips : List Address) (ip : Address)
      → All P ips
      → pick ips ≡ some ip
      → P ip
  pick-All P [] ip hs h = cc
  pick-All P (first ∷ ips) ip hs h =
      let same : preferred first (first ∷ ips) ≡ ip = cc in
      rw (← same) (preferred-All P first (first ∷ ips) hs.0 hs)

  pinned-IsPublic :
      (n : ℕ) (parsed : ParseResult) (host : Text) (ip : Address)
      → is_http parsed.scheme ≡ true
      → resolve_public_ip net n host ≡ some ip
      → IsPublic (pinned net parsed host ip)
  unfolding resolve_public_ip pinned
  pinned-IsPublic n parsed host ip http h = elim (Option-cases (net.getaddrinfo n host)) [
    | inl e ↦ absurd (ground arith)
    | inr (infos, e) ↦ elim (Option-cases (checked net infos)) [
      | inl e' ↦ absurd (ground arith)
      | inr (ips, e') ↦
          let (public, among) = checked_sound infos ips e' in
          record {
            parsed = parsed;
            ip = ip;
            lookup = n;
            infos = infos;
            resolved = e;
            public = public;
            among = pick-All (IsAmong infos) ips ip among (ground arith);
            http = http;
            goes_to = refl;
          }
    ]
  ]

  -- What one call of `_get` adds to the connections: all to public addresses, and at most one for each round.
  abbrev pub Guarded : ℕ → Trace → Trace → Type 0
  Guarded n t t' = All IsPublic t'.sent × (length t'.sent ≤ length t.sent + n)

  Guarded-more : (n m : ℕ) (t t' : Trace) → n ≤ m → Guarded n t t' → Guarded m t t'
  Guarded-more n m t t' h g = (g.0, omega arith)

  get_loop-Guarded :
      (n : ℕ) (current : Text) (t : Trace)
      → All IsPublic t.sent
      → Guarded n t (get_loop net n current t).0
  unfolding get_loop
  get_loop-Guarded zero current t h = (h, omega arith)
  get_loop-Guarded (suc n) current t h =
      elim (Option-cases (host_of (net.urlparse current).hostname)) [
        | inl e ↦ rw (e, get_loop) (h, omega arith)
        | inr (host, e) ↦
            rw (e, get_loop)
              (elim (Bool-cases (is_http (net.urlparse current).scheme)) [
                | inr p ↦ rw p (h, omega arith)
                | inl p ↦ rw p (elim (Option-cases (resolve_public_ip net t.lookups host)) [
                  | inl r ↦ rw r (h, omega arith)
                  | inr (ip, r) ↦
                      let req = pinned net (net.urlparse current) host ip in
                      let t' = connected t req in
                      let h' : All IsPublic t'.sent =
                        All-append IsPublic t.sent (req ∷ []) h
                          (pinned-IsPublic t.lookups (net.urlparse current) host ip p r, tt) in
                      let one : length t'.sent ≡ length t.sent + 1 =
                        length-append t.sent (req ∷ []) in
                      rw r (elim (Option-cases (net.send t.lookups req)) [
                        | inl f ↦ rw f (h', omega arith)
                        | inr (resp, f) ↦ rw f (elim (Bool-cases resp.is_redirect) [
                          | inr d ↦ rw d (elim (Bool-cases resp.is_error) [
                            | inl x ↦ rw x (h', omega arith)
                            | inr x ↦ rw x (h', omega arith)
                          ])
                          | inl d ↦ rw d (elim (Option-cases (host_of resp.location)) [
                            | inl l ↦ rw l (h', omega arith)
                            | inr (location, l) ↦ rw l (
                                let g = get_loop-Guarded n (net.urljoin current location) t' h' in
                                (g.0, omega arith))
                          ])
                        ])
                      ])
                ])
              ])
      ]

  get-Guarded : (url : Text) (t : Trace) → All IsPublic t.sent → Guarded 6 t (get net url t).0
  unfolding get
  get-Guarded url t h = get_loop-Guarded 6 url t h

  first_page-Guarded :
      (given : Text) (html : Option Text) (urls : List Text) (t : Trace)
      → All IsPublic t.sent
      → Guarded (6 * length urls) t (first_page net given html urls t).0
  unfolding first_page
  first_page-Guarded given html [] t h = (h, omega arith)
  first_page-Guarded given html (url ∷ urls) t h =
      let g = get-Guarded url t h in
      elim (Option-cases (host_of (get net url t).1)) [
        | inr (page, e) ↦ rw (e, first_page) (g.0, omega arith)
        | inl e ↦
            rw (e, first_page)
              (let g' = first_page-Guarded given (get net url t).1 urls (get net url t).0 g.0 in
                (g'.0, omega arith))
      ]

  get_sheets-Guarded :
      (base_url : Text) (links : List (Option Text)) (t : Trace)
      → All IsPublic t.sent
      → Guarded (6 * length links) t (get_sheets net base_url links t).0
  unfolding get_sheets
  get_sheets-Guarded base_url [] t h = (h, omega arith)
  get_sheets-Guarded base_url (none ∷ links) t h =
      let g = get_sheets-Guarded base_url links t h in (g.0, omega arith)
  get_sheets-Guarded base_url (some href ∷ links) t h =
      let g = get-Guarded (net.urljoin base_url href) t h in
      let g' = get_sheets-Guarded base_url links (get net (net.urljoin base_url href) t).0 g.0 in
      (g'.0, omega arith)

  -- Whatever the URL, the answers of the resolver at each lookup and the responses: every connection of
  -- `fetch_page`, redirects and stylesheets included, goes to an unblocked address that the resolver gave for
  -- the host of the request in an answer without blocked ones; there are at most six for each of three
  -- candidates and of `max_css` stylesheets.
  pub fetch_page-Guarded :
      (links : Text → List (Option Text)) (max_css : ℕ) (url : Text)
      → let sent = (fetch_page net links max_css url (record { lookups = 0; sent = [] })).0.sent in
        All IsPublic sent × (length sent ≤ 18 + 6 * max_css)
  unfolding fetch_page
  fetch_page-Guarded links max_css url =
      let start : Trace = record { lookups = 0; sent = [] } in
      let urls = take max_candidates (candidate_urls net url) in
      let g = first_page-Guarded url none urls start tt in
      let few = length-take_le max_candidates (candidate_urls net url) in
      elim (Option-cases (first_page net url none urls start).1) [
        | inl e ↦ rw (e, fetch_page) (g.0, omega arith)
        | inr ((url', html), e) ↦
            let g' =
              get_sheets-Guarded url' (take max_css (links html))
                (first_page net url none urls start).0 g.0 in
            rw (e, fetch_page) (g'.0, omega (arith, length-take_le max_css (links html)))
      ]
