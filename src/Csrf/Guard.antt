-- ===== src/Csrf/Guard.antt =====
-- `CsrfGuard` (src/common/guards/csrf.guard.ts). `new URL(value).origin` is a parameter, which is
-- none where the constructor throws.
use Prim.Native.Char.{code}
use gp_connect_server.Common.{
  Bool, true, false, not, ◌&&◌, ◌||◌, Option, none, some, List, [], ◌∷◌, String, ◌==◌, nat_eq,
  string_eq, is_some_of, truthy, includes, if◌then◌else◌,
}
use gp_connect_server.Handler.{Exception, Reason, Result, ok, err}

-- `s.startsWith(p)`
abbrev pub starts_with : String → String → Bool
starts_with String.[] s = true
starts_with (String.◌∷◌ c p) String.[] = false
starts_with (String.◌∷◌ c p) (String.◌∷◌ d s) = (code c == code d) && starts_with p s

-- What the guard reads of a request and of its execution context.
pub record CsrfRequest : Type 0 where
  pub is_http : Bool
  pub method : String
  pub skip_csrf : Bool
  pub authorization : Option String
  pub cookie_at : Option String
  pub cookie_rt : Option String
  pub origin : Option String
  pub referer : Option String

abbrev pub safe_methods : List String
safe_methods = "GET" ∷ "HEAD" ∷ "OPTIONS" ∷ []

abbrev pub is_bearer : Option String → Bool
is_bearer none = false
is_bearer (some h) = starts_with "Bearer " h

abbrev pub has_session_cookie : CsrfRequest → Bool
has_session_cookie r = truthy r.cookie_at || truthy r.cookie_rt

unfoldable pub normalize_origin : (String → Option String) → String → String
normalize_origin origin_of value = elim (origin_of value) [ none ↦ value | some o ↦ o ]

-- `process.env.FRONTEND_URL ?? 'http://localhost:3000'`
unfoldable pub allowed_origin : (String → Option String) → Option String → String
unfolding normalize_origin
allowed_origin origin_of none = normalize_origin origin_of "http://localhost:3000"
allowed_origin origin_of (some url) = normalize_origin origin_of url

-- `referer && safeOrigin(referer) === this.allowedOrigin`
abbrev pub referer_allowed : (String → Option String) → String → Option String → Bool
referer_allowed origin_of allowed none = false
referer_allowed origin_of allowed (some r) = not (r == "") && is_some_of (origin_of r) allowed

unfoldable pub check_origin : (String → Option String) → String → CsrfRequest → Result Bool
check_origin origin_of allowed r =
    if truthy r.origin
    then if is_some_of r.origin allowed
      then ok true
      else err (Exception.forbidden Reason.cross_site)
    else if referer_allowed origin_of allowed r.referer
    then ok true
    else err (Exception.forbidden Reason.origin_missing)

unfoldable pub csrf_guard : (String → Option String) → String → CsrfRequest → Result Bool
csrf_guard origin_of allowed r =
    if not r.is_http
    then ok true
    else if includes safe_methods r.method
    then ok true
    else if r.skip_csrf
    then ok true
    else if is_bearer r.authorization
    then ok true
    else if not (has_session_cookie r)
    then ok true
    else check_origin origin_of allowed r
