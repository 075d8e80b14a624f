-- ===== src/Auth/Linking.antt =====
-- Which account a login through an external provider leads to.
use gp_connect_server.Common.{
  ℕ, ◌≡◌, refl, ◌≢◌, ◌⊎◌, inl, inr, Bool, true, ◌&&◌, ◌||◌, Option, none, some, arith, Option-cases,
  Bool-cases, ◌==◌, nat_eq, string_eq, truthy,
}
use gp_connect_server.Schema.{User, UserProvider, AuthProvider, auth_provider_eq}
use gp_connect_server.Prisma.{Prisma, World, zero-cases, fresh_id}
use gp_connect_server.Handler.{ok, Result-cases}
use gp_connect_server.Verification.{same_contact}
use gp_connect_server.Users.{given, create_user}
use gp_connect_server.Auth.Service.{
  OauthProfile, OauthDraw, new_oauth_user, new_provider, is_account, linked_user, attachable,
  resolve_user, ensure_user, attach_provider, validate_oauth_login,
}

abbrev clashes : OauthDraw → OauthProfile → AuthProvider → ℕ → UserProvider → Bool
clashes x p provider user_id r =
    r.id == x.provider_id
    || (is_account provider p.provider_user_id r
        || (r.user_id == user_id && r.provider == provider))

module _ {P : Prisma} where
  -- The account that the provider row names; nothing is written.
  pub record IsLinked (x : OauthDraw) (p : OauthProfile) (provider : AuthProvider) (ev : Bool)
      (u : User) (w : World P) : Type 0 where
    pub row : UserProvider
    pub found :
        P.user_provider.find_first (is_account provider p.provider_user_id) w.providers ≡ some row
    pub owner : P.user.find_unique row.user_id w.users ≡ some u
    pub run : validate_oauth_login x p provider ev w ≡ (ok u, w)

  -- An account that was there with the address; the provider vouches for it.
  pub record IsAttached (x : OauthDraw) (p : OauthProfile) (provider : AuthProvider) (ev : Bool)
      (u : User) (w : World P) : Type 0 where
    pub unlinked :
        P.user_provider.find_first (is_account provider p.provider_user_id) w.providers ≡ none
    pub address : truthy p.email ≡ true
    pub existing : P.user.find_first (λ b. b.email == given p.email "") w.users ≡ some u
    pub vouched : ev ≡ true
    pub fresh : P.user_provider.find_unique x.provider_id w.providers ≡ none
    pub run : validate_oauth_login x p provider ev w ≡ (
      ok u,
      record w { providers = P.user_provider.insert (new_provider x p provider u.id) w.providers },
    )

  -- A new account, where no account has the address.
  pub record IsCreated (x : OauthDraw) (p : OauthProfile) (provider : AuthProvider) (ev : Bool)
      (u : User) (w : World P) : Type 0 where
    pub unlinked :
        P.user_provider.find_first (is_account provider p.provider_user_id) w.providers ≡ none
    pub nobody :
        truthy p.email ≡ true → P.user.find_first (λ b. b.email == given p.email "") w.users ≡ none
    pub unused : P.user.find_unique x.user_id w.users ≡ none
    pub fresh : P.user_provider.find_unique x.provider_id w.providers ≡ none
    pub row : u ≡ new_oauth_user x p provider ev
    pub run : validate_oauth_login x p provider ev w ≡ (
      ok u,
      record w {
        users = P.user.insert u w.users;
        providers = P.user_provider.insert (new_provider x p provider u.id) w.providers;
      },
    )

  attach_provider-ok :
      (x : OauthDraw) (p : OauthProfile) (provider : AuthProvider) (u : User) (w : World P)
      → (attach_provider x p provider none u w).0 ≡ ok tt
      → (P.user_provider.count (clashes x p provider u.id) w.providers ≡ 0)
        × (attach_provider x p provider none u w ≡ (
          ok tt,
          record w {
            providers = P.user_provider.insert (new_provider x p provider u.id) w.providers;
          },
        ))
  unfolding attach_provider
  attach_provider-ok x p provider u w h =
      elim (zero-cases (P.user_provider.count (clashes x p provider u.id) w.providers)) [
        | inl z ↦ (z, ground arith)
        | inr n ↦ absurd (ground arith)
      ]

  ensure_user-new :
      (x : OauthDraw) (p : OauthProfile) (provider : AuthProvider) (ev : Bool) (w : World P)
      {u : User}
      → (ensure_user x p provider ev none w).0 ≡ ok u
      → (P.user.find_unique x.user_id w.users ≡ none)
        × (u ≡ new_oauth_user x p provider ev)
        × (ensure_user x p provider ev none w
            ≡ (ok u, record w { users = P.user.insert u w.users }))
  unfolding ensure_user create_user
  ensure_user-new x p provider ev w {u} h =
      let new = new_oauth_user x p provider ev in
      elim (zero-cases (P.user.count (λ b. b.id == x.user_id || same_contact new b) w.users)) [
        | inl z ↦
            let same : u ≡ new = ground arith in
            (fresh_id P.user x.user_id (same_contact new) w.users z, same, rw same (ground arith))
        | inr n ↦ absurd (ground arith)
      ]

  -- What the search for an account by its address finds.
  attachable-ok :
      (p : OauthProfile) (ev : Bool) (w : World P) {o : Option User}
      → (attachable p.email ev w).0 ≡ ok o
      → (attachable p.email ev w ≡ (ok o, w))
        × (((o ≡ none)
              × (truthy p.email ≡ true
                  → P.user.find_first (λ b. b.email == given p.email "") w.users ≡ none))
            ⊎ ((u : User) × (o ≡ some u)
                × (truthy p.email ≡ true)
                × (P.user.find_first (λ b. b.email == given p.email "") w.users ≡ some u)
                × (ev ≡ true)))
  unfolding attachable
  attachable-ok p ev w h = elim (Bool-cases (truthy p.email)) [
    | inr n ↦ (ground arith, inl (ground arith, λ y. absurd (ground arith)))
    | inl y ↦ elim (Option-cases (P.user.find_first (λ b. b.email == given p.email "") w.users)) [
      | inl z ↦ (ground arith, inl (ground arith, λ t. z))
      | inr (u, e) ↦ elim (Bool-cases ev) [
        | inl v ↦ (ground arith, inr (u, ground arith, y, e, v))
        | inr v ↦ absurd (ground arith)
      ]
    ]
  ]

  unlinked-run :
      (x : OauthDraw) (p : OauthProfile) (provider : AuthProvider) (ev : Bool) (w : World P)
      → P.user_provider.find_first (is_account provider p.provider_user_id) w.providers ≡ none
      → {o : Option User} {u : User} → attachable p.email ev w ≡ (ok o, w)
      → (w' : World P) → ensure_user x p provider ev o w ≡ (ok u, w')
      → attach_provider x p provider none u w' ≡ (
        ok tt,
        record w' {
          providers = P.user_provider.insert (new_provider x p provider u.id) w'.providers;
        },
      )
      → validate_oauth_login x p provider ev w ≡ (
        ok u,
        record w' {
          providers = P.user_provider.insert (new_provider x p provider u.id) w'.providers;
        },
      )
  unfolding validate_oauth_login linked_user resolve_user
  unlinked-run x p provider ev w z {o} {u} found w' ensured attached = ground arith

  unlinked-parts :
      (x : OauthDraw) (p : OauthProfile) (provider : AuthProvider) (ev : Bool) (w : World P)
      {u : User}
      → P.user_provider.find_first (is_account provider p.provider_user_id) w.providers ≡ none
      → (validate_oauth_login x p provider ev w).0 ≡ ok u
      → (o : Option User) × ((attachable p.email ev w).0 ≡ ok o)
        × ((ensure_user x p provider ev o w).0 ≡ ok u)
        × ((attach_provider x p provider none u (ensure_user x p provider ev o w).1).0 ≡ ok tt)
  unfolding validate_oauth_login linked_user resolve_user
  unlinked-parts x p provider ev w {u} z h = elim (Result-cases (attachable p.email ev w).0) [
    | inr (y, e) ↦ absurd (ground arith)
    | inl (o, e) ↦
        let (same, _) = attachable-ok p ev w e in
        elim (Result-cases (ensure_user x p provider ev o w).0) [
          | inr (y, e') ↦ absurd (ground arith)
          | inl (v, e') ↦
              elim (Result-cases
                (attach_provider x p provider none v (ensure_user x p provider ev o w).1).0) [
                  | inr (y, e'') ↦ absurd (ground arith)
                  | inl (t, e'') ↦
                      let is_u : v ≡ u = ground arith in (o, e, rw is_u at e', rw is_u at e'')
                ]
        ]
  ]

  pub linked-run :
      (x : OauthDraw) (p : OauthProfile) (provider : AuthProvider) (ev : Bool) (w : World P)
      (r : UserProvider) (u : User)
      → P.user_provider.find_first (is_account provider p.provider_user_id) w.providers ≡ some r
      → P.user.find_unique r.user_id w.users ≡ some u
      → validate_oauth_login x p provider ev w ≡ (ok u, w)
  unfolding validate_oauth_login linked_user resolve_user ensure_user attach_provider
  linked-run x p provider ev w r u f e = ground arith

  ensure_user-some :
      (x : OauthDraw) (p : OauthProfile) (provider : AuthProvider) (ev : Bool) (w : World P)
      (u : User)
      → ensure_user x p provider ev (some u) w ≡ (ok u, w)
  unfolding ensure_user
  ensure_user-some x p provider ev w u = refl

  -- A login through a provider that succeeds leads to the account that the provider row names and
  -- writes nothing; or, with no such row, to the account that has the address, if the provider
  -- vouches for the address; or to a new account, if no account has the address. A row that names
  -- the account is stored.
  pub validate_oauth_login-ok :
      (x : OauthDraw) (p : OauthProfile) (provider : AuthProvider) (ev : Bool) (w : World P)
      {u : User}
      → ((r : UserProvider)
          → P.user_provider.find_unique r.id w.providers ≡ some r
          → P.user.find_unique r.user_id w.users ≢ none)
      → (validate_oauth_login x p provider ev w).0 ≡ ok u
      → IsLinked x p provider ev u w
        ⊎ (IsAttached x p provider ev u w ⊎ IsCreated x p provider ev u w)
  validate_oauth_login-ok x p provider ev w {u} owned h =
      elim (Option-cases
        (P.user_provider.find_first (is_account provider p.provider_user_id) w.providers)) [
          | inr (r, f) ↦
              let (_, there) = P.user_provider.find_first-some _ w.providers r f in
              elim (Option-cases (P.user.find_unique r.user_id w.users)) [
                | inl z ↦ absurd (owned r there z)
                | inr (v, e) ↦
                    let run = linked-run x p provider ev w r v f e in
                    let is_u : v ≡ u = ground arith in
                    inl (record { row = r; found = f; owner = rw is_u at e; run = rw is_u at run })
              ]
          | inl z ↦
              let (o, a, e, g) = unlinked-parts x p provider ev w z h in
              let (read, which) = attachable-ok p ev w a in
              elim which [
                | inr (v, is_some, address, existing, vouched) ↦
                    let ensured = ensure_user-some x p provider ev w v in
                    let e' = rw (is_some, ensured) at e in
                    let is_u : v ≡ u = ground arith in
                    let g' = rw (is_some, ensured) at g in
                    let (free, attached) = attach_provider-ok x p provider u w g' in
                    inr (
                      inl (record {
                        unlinked = z;
                        address = address;
                        existing = rw is_u at existing;
                        vouched = vouched;
                        fresh = fresh_id P.user_provider x.provider_id _ w.providers free;
                        run =
                            unlinked-run x p provider ev w z (rw (is_some, is_u) at read) w
                              (rw is_u at ensured) attached;
                      }))
                | inl (is_none, nobody) ↦
                    let (unused, row, ensured) =
                      ensure_user-new x p provider ev w (rw is_none at e) in
                    let g' = rw (is_none, ensured) at g in
                    let w' : World P = record w { users = P.user.insert u w.users } in
                    let (free, attached) = attach_provider-ok x p provider u w' g' in
                    inr (
                      inr (record {
                        unlinked = z;
                        nobody = nobody;
                        unused = unused;
                        fresh = fresh_id P.user_provider x.provider_id _ w.providers free;
                        row = row;
                        run =
                            unlinked-run x p provider ev w z (rw is_none at read) w' ensured
                              attached;
                      }))
              ]
        ]
