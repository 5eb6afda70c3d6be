-- ===== src/Web/Packages.antt =====
-- What app/utils/web.py takes from elsewhere: urllib.parse, ipaddress, the resolver and httpx.
-- A name may resolve otherwise at each lookup, so the answers depend on the number of the lookup.
use in_work_marketing_os_bac.Base.{ℕ, Bool, Option, List, ◌≡◌, ◌⊎◌, codes}
use in_work_marketing_os_bac.Model.Tables.{Text}

-- `urlparse(url)`, with the fields that are read
pub record ParseResult : Type 0 where
  pub scheme : Text
  pub hostname : Option Text
  pub port : Option ℕ
  pub path : Text
  pub params : Text
  pub query : Text

-- `IPv4Address | IPv6Address`
pub record Address : Type 0 where
  pub literal : Text
  pub version : ℕ
  pub is_private : Bool
  pub is_loopback : Bool
  pub is_link_local : Bool
  pub is_reserved : Bool
  pub is_multicast : Bool
  pub is_unspecified : Bool

-- one `client.get` with `follow_redirects=False`
pub record Request : Type 0 where
  pub url : Text
  -- the `Host` header and `sni_hostname`
  pub host : Text

pub record Response : Type 0 where
  pub is_redirect : Bool
  pub location : Option Text
  -- whether `raise_for_status` raises
  pub is_error : Bool
  pub body : Text

pub record Network : Type 0 where
  pub is_space : ℕ → Bool
  pub spell_int : ℕ → Text
  pub urlparse : Text → ParseResult
  -- of scheme, netloc, path, params and query, with no fragment
  pub urlunparse : Text → Text → Text → Text → Text → Text
  pub urljoin : Text → Text → Text
  -- `none` is `ValueError`
  pub ip_address : Text → Option Address
  -- `none` is `gaierror` or `ValueError`
  pub getaddrinfo : ℕ → Text → Option (List Text)
  -- `none` is `httpx.HTTPError`
  pub send : ℕ → Request → Option Response
  -- A web URL that was put together parses into its scheme.
  pub urlparse-urlunparse :
      (s n p m q : Text)
      → (s ≡ codes "http") ⊎ (s ≡ codes "https")
      → (urlparse (urlunparse s n p m q)).scheme ≡ s
