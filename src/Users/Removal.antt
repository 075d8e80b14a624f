-- ===== src/Users/Removal.antt =====
-- What the deletion of an account does, and what a deletion that is refused has done.
use gp_connect_server.Common.{
  ℕ, ◌≡◌, refl, ◌∙◌, inl, inr, true, false, not, ◌&&◌, some, arith, Bool-cases, nat_beq_iff, ◌==◌,
  nat_eq, List, [], ◌∷◌, string_eq, if◌then◌else◌,
}
use gp_connect_server.Schema.{User, UserIdentity}
use gp_connect_server.Prisma.{Prisma, World, Effect, Within}
use gp_connect_server.Handler.{Exception, ok, err}
use gp_connect_server.Identity.{IdentityVerifier, redact_sessions, redact_user_data}
use gp_connect_server.Users.Service.{is_referenced, delete_row, delete_user}

-- The provider erases the documents of the session when it is asked.
abbrev pub IsErasable : IdentityVerifier → UserIdentity → Type 0
IsErasable v i = (i.provider_id == "" ≡ false) × (v.redact_session i.provider_id ≡ true)

-- What the provider is asked for, the last first, on top of what was asked before.
pub erasures : IdentityVerifier → List UserIdentity → List Effect → List Effect
erasures v [] es = es
erasures v (i ∷ rest) es = erasures v rest (
    if not (i.provider_id == "") && v.redact_session i.provider_id
    then Effect.session_redacted i.provider_id ∷ es
    else es)

Within-erasures :
    (v : IdentityVerifier) (sessions : List UserIdentity) (es : List Effect) (x : Effect)
    → Within x es
    → Within x (erasures v sessions es)
unfolding erasures
Within-erasures v [] es x m = m
Within-erasures v (i ∷ rest) es x m =
    Within-erasures v rest _ x
      (elim (Bool-cases (not (i.provider_id == "") && v.redact_session i.provider_id)) [
        | inl y ↦ rw y (inr m)
        | inr n ↦ rw n m
      ])

-- Every session that the provider can erase is among the erasures.
erasures_complete :
    (v : IdentityVerifier) (sessions : List UserIdentity) (es : List Effect) (i : UserIdentity)
    → Within i sessions
    → IsErasable v i
    → Within (Effect.session_redacted i.provider_id) (erasures v sessions es)
unfolding erasures
erasures_complete v [] es i m e = absurd m
erasures_complete v (j ∷ rest) es i m e = elim m [
  | inl same ↦
      let (some_id, answers) = e in
      let hit : not (j.provider_id == "") && v.redact_session j.provider_id ≡ true = ground arith in
      Within-erasures v rest _ (Effect.session_redacted i.provider_id) (rw hit (inl (ground arith)))
  | inr there ↦ erasures_complete v rest _ i there e
]

module _ {P : Prisma} where
  redact_sessions-erasures :
      (v : IdentityVerifier) (sessions : List UserIdentity) (w : World P)
      → redact_sessions v sessions w ≡ (ok tt, record w { effects = erasures v sessions w.effects })
  unfolding redact_sessions erasures
  redact_sessions-erasures v [] w = refl
  redact_sessions-erasures v (i ∷ rest) w =
      elim (Bool-cases (not (i.provider_id == "") && v.redact_session i.provider_id)) [
        | inl y ↦ ground (
          arith,
          redact_sessions-erasures v rest
              (record w { effects = Effect.session_redacted i.provider_id ∷ w.effects }),
        )
        | inr n ↦ ground (arith, redact_sessions-erasures v rest w)
      ]

  pub redact_user_data-erasures :
      (v : IdentityVerifier) (id : ℕ) (w : World P)
      → redact_user_data v id w ≡ (
        ok tt,
        record w {
          effects =
              erasures v (P.user_identity.find_many (λ i. i.user_id == id) w.identities) w.effects;
        },
      )
  unfolding redact_user_data
  redact_user_data-erasures v id w =
      redact_sessions-erasures v (P.user_identity.find_many (λ i. i.user_id == id) w.identities) w

  -- What is left of a deletion that is refused because missions, messages or other rows refer to
  -- the user: the account with its identity, although the provider has erased every document.
  pub record IsHalfErased (v : IdentityVerifier) (id : ℕ) (w w' : World P) : Type 0 where
    pub same_rows : w' ≡ record w { effects = w'.effects }
    pub erased :
        (i : UserIdentity)
        → P.user_identity.find_unique i.user_id w.identities ≡ some i
        → i.user_id ≡ id
        → IsErasable v i
        → Within (Effect.session_redacted i.provider_id) w'.effects

  delete_row-referenced :
      (id : ℕ) (w : World P)
      → (is_referenced id w).0 ≡ ok true
      → delete_row id w ≡ (err Exception.foreign_key_violation, w)
  unfolding delete_row is_referenced
  delete_row-referenced id w h = ground arith

  -- A reference to the user is there whatever the effects are.
  is_referenced-effects :
      (id : ℕ) (w : World P) (es : List Effect)
      → (is_referenced id (record w { effects = es })).0 ≡ (is_referenced id w).0
  unfolding is_referenced
  is_referenced-effects id w es = refl

  -- The deletion of an account that other rows refer to is refused, but only after the provider was
  -- asked to erase the documents of the identity: the account stays with its verified badge, and its
  -- documents are gone.
  pub delete_user-referenced :
      (v : IdentityVerifier) (id : ℕ) (w : World P) (u : User)
      → P.user.find_unique id w.users ≡ some u
      → (is_referenced id w).0 ≡ ok true
      → ((delete_user v id w).0 ≡ err Exception.foreign_key_violation)
        × IsHalfErased v id w (delete_user v id w).1
  unfolding delete_user
  delete_user-referenced v id w u f h =
      let sessions = P.user_identity.find_many (λ i. i.user_id == id) w.identities in
      let es = erasures v sessions w.effects in
      let asked = redact_user_data-erasures v id w in
      let refused =
        delete_row-referenced id (record w { effects = es }) (is_referenced-effects id w es ∙ h) in
      let run : delete_user v id w
          ≡ (err Exception.foreign_key_violation, record w { effects = es }) =
        ground arith in
      (
        rw run refl,
        record {
          same_rows = rw run refl;
          erased = λ i there mine e. rw run (
              erasures_complete v sessions w.effects i
                ((P.user_identity.Within-find_many (λ j. j.user_id == id) w.identities i).1
                  (ground (arith, nat_beq_iff i.user_id id), there))
                e);
        },
      )
