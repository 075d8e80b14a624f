-- ===== src/Auth/Takeover.antt =====
-- A login through a provider neither takes over an account nor leads to another one later.
use gp_connect_server.Common.{
  ℕ, ◌≡◌, ◌∙◌, ◌≢◌, inl, inr, Bool, false, none, some, arith, nat_eq, string_eq,
}
use gp_connect_server.Schema.{
  User, UserProvider, AuthProvider, auth_provider_eq, auth_provider_beq_iff,
}
use gp_connect_server.Prisma.{Prisma, World, find_first-only}
use gp_connect_server.Handler.{ok}
use gp_connect_server.Auth.Service.{
  OauthProfile, OauthDraw, new_provider, is_account, validate_oauth_login,
}
use gp_connect_server.Auth.Linking.{linked-run, validate_oauth_login-ok}
use text.Mathlib.TextPositions.{eq_refl}

module _ {P : Prisma} where
  -- A provider that does not vouch for the address gets no account that was there before: the login
  -- leads to a new account, and the accounts that were there stay as they are.
  pub validate_oauth_login-unvouched :
      (x : OauthDraw) (p : OauthProfile) (provider : AuthProvider) (w : World P) {u : User}
      → ((r : UserProvider)
          → P.user_provider.find_unique r.id w.providers ≡ some r
          → P.user.find_unique r.user_id w.users ≢ none)
      → P.user_provider.find_first (is_account provider p.provider_user_id) w.providers ≡ none
      → (validate_oauth_login x p provider false w).0 ≡ ok u
      → (P.user.find_unique u.id w.users ≡ none)
        × ((k : ℕ) (a : User)
            → P.user.find_unique k w.users ≡ some a
            → P.user.find_unique k (validate_oauth_login x p provider false w).1.users ≡ some a)
  validate_oauth_login-unvouched x p provider w {u} owned z h =
      elim (validate_oauth_login-ok x p provider false w owned h) [
        | inl l ↦ let f = l.found in absurd (ground arith)
        | inr (inl a) ↦ let v = a.vouched in absurd (ground arith)
        | inr (inr c) ↦
            let unused = c.unused in
            let row = c.row in
            let run = c.run in
            let free : P.user.find_unique u.id w.users ≡ none = ground arith in
            (
              free,
              λ k a f.
                  let ne : k ≢ u.id = λ e. ground arith in
                  rw run (P.user.find_unique-insert_ne k u w.users ne ∙ f),
            )
      ]

  -- After a login through a provider, every later one with the same account of the provider leads to
  -- the same user and writes nothing, whatever else the provider says.
  pub validate_oauth_login-again :
      (x x' : OauthDraw) (p p' : OauthProfile) (provider : AuthProvider) (ev ev' : Bool)
      (w : World P) {u : User}
      → ((r : UserProvider)
          → P.user_provider.find_unique r.id w.providers ≡ some r
          → P.user.find_unique r.user_id w.users ≢ none)
      → p'.provider_user_id ≡ p.provider_user_id
      → (validate_oauth_login x p provider ev w).0 ≡ ok u
      → let w' = (validate_oauth_login x p provider ev w).1 in
        validate_oauth_login x' p' provider ev' w' ≡ (ok u, w')
  validate_oauth_login-again x x' p p' provider ev ev' w {u} owned same h =
      let hit = is_account provider p.provider_user_id in
      let new = new_provider x p provider u.id in
      let found : P.user_provider.find_first hit w.providers ≡ none
          → P.user_provider.find_unique x.provider_id w.providers ≡ none
          → P.user_provider.find_first (is_account provider p'.provider_user_id)
              (P.user_provider.insert new w.providers)
            ≡ some new =
        λ z fresh. rw same (
          find_first-only P.user_provider hit w.providers new fresh
            (ground (arith, eq_refl p.provider_user_id, auth_provider_beq_iff provider provider))
            (λ b f. P.user_provider.find_first-none hit w.providers b.id b z f)) in
      elim (validate_oauth_login-ok x p provider ev w owned h) [
        | inl l ↦ rw (l.run) (linked-run x' p' provider ev' w l.row u (rw same (l.found)) l.owner)
        | inr (inl a) ↦
            let (_, there) = P.user.find_first-some _ w.users u a.existing in
            rw (a.run) (linked-run x' p' provider ev' _ new u (found a.unlinked a.fresh) there)
        | inr (inr c) ↦
            let row = c.row in
            let unused = c.unused in
            let there = P.user.find_unique-insert_self u w.users (ground arith) in
            rw (c.run) (linked-run x' p' provider ev' _ new u (found c.unlinked c.fresh) there)
      ]
