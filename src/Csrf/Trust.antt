-- ===== src/Csrf/Trust.antt =====
-- The guard against an independent description of what it lets through.
use gp_connect_server.Common.{
  ◌≡◌, refl, sym, ◌≢◌, ◌↔◌, ◌⊎◌, inl, inr, true, false, Option, none, some, String, arith,
  Option-cases, Bool-cases, ◌==◌, string_eq, is_some_of_iff, truthy, includes,
}
use gp_connect_server.Handler.{ok}
use gp_connect_server.Csrf.Guard.{
  CsrfRequest, safe_methods, starts_with, is_bearer, has_session_cookie, check_origin, csrf_guard,
}

-- A cookie that is there and not empty.
abbrev pub IsPresent : Option String → Type 0
IsPresent cookie = (value : String) × (cookie ≡ some value) × (value == "" ≡ false)

-- A request that a foreign page may make a browser send: it changes state, on a route that is not
-- exempt, and carries the session in a cookie, `at` or `rt`, and in no bearer token.
pub record IsAmbient (r : CsrfRequest) : Type 0 where
  pub http : r.is_http ≡ true
  pub not_get : r.method ≢ "GET"
  pub not_head : r.method ≢ "HEAD"
  pub not_options : r.method ≢ "OPTIONS"
  pub guarded : r.skip_csrf ≡ false
  pub not_bearer : (h : String) → r.authorization ≡ some h → starts_with "Bearer " h ≡ false
  pub cookie : IsPresent r.cookie_at ⊎ IsPresent r.cookie_rt

mutating_iff :
    (m : String)
    → (includes safe_methods m ≡ false) ↔ ((m ≢ "GET") × (m ≢ "HEAD") × (m ≢ "OPTIONS"))
mutating_iff m =
    let get = string_eq.beq_iff "GET" m in
    let head = string_eq.beq_iff "HEAD" m in
    let options = string_eq.beq_iff "OPTIONS" m in
    (
      λ h. (
        λ e. let y = get.1 (sym e) in absurd (ground arith),
        λ e. let y = head.1 (sym e) in absurd (ground arith),
        λ e. let y = options.1 (sym e) in absurd (ground arith),
      ),
      λ n. elim (Bool-cases (includes safe_methods m)) [
        | inr f ↦ f
        | inl y ↦ absurd (elim (Bool-cases ("GET" == m)) [
          | inl t ↦ n.0 (sym (get.0 t))
          | inr f ↦ elim (Bool-cases ("HEAD" == m)) [
            | inl t ↦ n.1 (sym (head.0 t))
            | inr f' ↦ n.2 (sym (options.0 (ground arith)))
          ]
        ])
      ],
    )

not_bearer_iff :
    (a : Option String)
    → (is_bearer a ≡ false) ↔ ((h : String) → a ≡ some h → starts_with "Bearer " h ≡ false)
not_bearer_iff none = (λ e h q. absurd (ground arith), λ f. refl)
not_bearer_iff (some h) = (λ e x q. ground arith, λ f. f h refl)

truthy_iff : (c : Option String) → (truthy c ≡ true) ↔ IsPresent c
truthy_iff none = (λ e. absurd (ground arith), λ p. let (v, e, n) = p in absurd (ground arith))
truthy_iff (some s) = (λ e. (s, refl, ground arith), λ p. let (v, e, n) = p in ground arith)

cookie_iff :
    (r : CsrfRequest)
    → (has_session_cookie r ≡ true) ↔ (IsPresent r.cookie_at ⊎ IsPresent r.cookie_rt)
cookie_iff r = (
  λ h. elim (Bool-cases (truthy r.cookie_at)) [
    | inl y ↦ inl ((truthy_iff r.cookie_at).0 y)
    | inr n ↦ inr ((truthy_iff r.cookie_rt).0 (ground arith))
  ],
  λ c. elim c [
    | inl p ↦ let y = (truthy_iff r.cookie_at).1 p in ground arith
    | inr p ↦ let y = (truthy_iff r.cookie_rt).1 p in ground arith
  ],
)

-- It comes from the front end: it names that origin, or it names none and its referer is there.
abbrev pub ComesFrom : (String → Option String) → String → CsrfRequest → Type 0
ComesFrom origin_of allowed r =
    ((truthy r.origin ≡ true) × (r.origin ≡ some allowed))
    ⊎ ((truthy r.origin ≡ false)
        × ((page : String) × (r.referer ≡ some page)
            × (page == "" ≡ false)
            × (origin_of page ≡ some allowed)))

check_origin_iff :
    (origin_of : String → Option String) (allowed : String) (r : CsrfRequest)
    → (check_origin origin_of allowed r ≡ ok true) ↔ ComesFrom origin_of allowed r
unfolding check_origin
check_origin_iff origin_of allowed r = (
  λ h. elim (Bool-cases (truthy r.origin)) [
    | inl y ↦ inl (y, (is_some_of_iff r.origin allowed).0 (ground arith))
    | inr n ↦ elim (Option-cases r.referer) [
      | inl z ↦ absurd (ground arith)
      | inr (page, e) ↦
          inr
            (n, (page, e, ground arith, (is_some_of_iff (origin_of page) allowed).0 (ground arith)))
    ]
  ],
  λ c. elim c [
    | inl (y, e) ↦ let e' = (is_some_of_iff r.origin allowed).1 e in ground arith
    | inr (n, p) ↦
        let (page, e, some_page, same) = p in
        let e' = (is_some_of_iff (origin_of page) allowed).1 same in ground arith
  ],
)

-- The guard lets a request through exactly if, in case it changes state on a route that is not exempt
-- (`SkipCsrf`) and carries the session in a cookie and in no bearer token, it comes from the front
-- end.
pub csrf_guard_iff :
    (origin_of : String → Option String) (allowed : String) (r : CsrfRequest)
    → (csrf_guard origin_of allowed r ≡ ok true) ↔ (IsAmbient r → ComesFrom origin_of allowed r)
unfolding csrf_guard
csrf_guard_iff origin_of allowed r =
    let i = check_origin_iff origin_of allowed r in
    let methods = mutating_iff r.method in
    let bearer = not_bearer_iff r.authorization in
    let cookies = cookie_iff r in
    (
      λ h a.
          let http = a.http in
          let mutating = methods.1 (a.not_get, a.not_head, a.not_options) in
          let guarded = a.guarded in
          let not_bearer = bearer.1 a.not_bearer in
          let cookie = cookies.1 a.cookie in i.0 (ground arith),
      λ f. elim (Bool-cases r.is_http) [
        | inr n ↦ ground arith
        | inl http ↦ elim (Bool-cases (includes safe_methods r.method)) [
          | inl y ↦ ground arith
          | inr mutating ↦ elim (Bool-cases r.skip_csrf) [
            | inl y ↦ ground arith
            | inr guarded ↦ elim (Bool-cases (is_bearer r.authorization)) [
              | inl y ↦ ground arith
              | inr not_bearer ↦ elim (Bool-cases (has_session_cookie r)) [
                | inr n ↦ ground arith
                | inl cookie ↦
                    let (not_get, not_head, not_options) = methods.0 mutating in
                    let pass = i.1 (
                      f (record {
                        http = http;
                        not_get = not_get;
                        not_head = not_head;
                        not_options = not_options;
                        guarded = guarded;
                        not_bearer = bearer.0 not_bearer;
                        cookie = cookies.0 cookie;
                      })) in
                    ground arith
              ]
            ]
          ]
        ]
      ],
    )
