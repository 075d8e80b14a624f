-- ===== src/Missions/Linking.antt =====
-- The packages that a mission carries: `createMany` on the rows that link them to it.
use gp_connect_server.Common.{
  ℕ, ◌≡◌, refl, ◌∙◌, ap, subst, ◌≢◌, inl, inr, true, some, none, List, [], ◌∷◌, map, arith,
  Option-cases, nat_eq,
}
use gp_connect_server.Schema.{MissionPackage}
use gp_connect_server.Prisma.{Prisma, World, Within, zero-cases, mission_package_key}
use gp_connect_server.Handler.{ok, create_many, mission_packages}
use gp_connect_server.Missions.Service.{same_package}

-- The row that links a package to a mission.
abbrev pub link : ℕ → ℕ → MissionPackage
link mission_id package_id = record { mission_id = mission_id; package_id = package_id }

-- Rows with one key are the same to `createMany`.
same_package-key :
    (a b : MissionPackage) → mission_package_key b ≡ mission_package_key a → same_package a b ≡ true
same_package-key a b e = ground arith

-- The rows, inserted one after the other.
abbrev pub linked :
    (P : Prisma) → List MissionPackage → P.mission_package.Table → P.mission_package.Table
linked P [] t = t
linked P (a ∷ rows) t = linked P rows (P.mission_package.insert a t)

pub Within-map : (m p : ℕ) (ids : List ℕ) → Within p ids → Within (link m p) (map (link m) ids)
Within-map m p [] h = absurd h
Within-map m p (x ∷ ids) h = elim h [
  | inl e ↦ inl (ap (link m) e)
  | inr later ↦ inr (Within-map m p ids later)
]

module _ {P : Prisma} where
  create_link-ok :
      (a : MissionPackage) (rows : List MissionPackage) (w : World P) {u : Unit {0}}
      → (create_many mission_packages same_package (a ∷ rows) w).0 ≡ ok u
      → let w1 = record w { mission_packages = P.mission_package.insert a w.mission_packages } in
        (P.mission_package.count (same_package a) w.mission_packages ≡ 0)
        × (create_many mission_packages same_package (a ∷ rows) w
            ≡ create_many mission_packages same_package rows w1)
  unfolding create_many
  create_link-ok a rows w h =
      elim (zero-cases (P.mission_package.count (same_package a) w.mission_packages)) [
        | inl z ↦ (z, ground arith)
        | inr p ↦ absurd (ground arith)
      ]

  pub create_many-linked :
      (rows : List MissionPackage) (w : World P) {u : Unit {0}}
      → (create_many mission_packages same_package rows w).0 ≡ ok u
      → (create_many mission_packages same_package rows w).1
        ≡ record w { mission_packages = linked P rows w.mission_packages }
  unfolding create_many
  create_many-linked [] w h = refl
  create_many-linked (a ∷ rows) w h =
      let w1 = record w { mission_packages = P.mission_package.insert a w.mission_packages } in
      let (z, run) = create_link-ok a rows w h in
      ap (λ q. q.1) run ∙ create_many-linked rows w1 (rw run at h)

  -- A link that is there stays.
  link_stays :
      (rows : List MissionPackage) (w : World P) (k : ℕ × ℕ) (b : MissionPackage) {u : Unit {0}}
      → (create_many mission_packages same_package rows w).0 ≡ ok u
      → P.mission_package.find_unique k w.mission_packages ≡ some b
      → P.mission_package.find_unique k (linked P rows w.mission_packages) ≡ some b
  link_stays [] w k b h f = f
  link_stays (a ∷ rows) w k b h f =
      let w1 = record w { mission_packages = P.mission_package.insert a w.mission_packages } in
      let (z, run) = create_link-ok a rows w h in
      let free = P.mission_package.count-zero (same_package a) w.mission_packages k b z f in
      let kb = P.mission_package.key-find_unique k w.mission_packages b f in
      let other : k ≢ mission_package_key a =
        λ e. let clash = same_package-key a b (kb ∙ e) in absurd (ground arith) in
      link_stays rows w1 k b (rw run at h)
        (P.mission_package.find_unique-insert_ne k a w.mission_packages other ∙ f)

  -- Each row of a `createMany` that succeeds is stored.
  pub Within-linked :
      (rows : List MissionPackage) (w : World P) (b : MissionPackage) {u : Unit {0}}
      → (create_many mission_packages same_package rows w).0 ≡ ok u
      → Within b rows
      → P.mission_package.find_unique (mission_package_key b) (linked P rows w.mission_packages)
        ≡ some b
  Within-linked [] w b h m = absurd m
  Within-linked (a ∷ rows) w b h m =
      let w1 = record w { mission_packages = P.mission_package.insert a w.mission_packages } in
      let (z, run) = create_link-ok a rows w h in
      elim m [
        | inr later ↦ Within-linked rows w1 b (rw run at h) later
        | inl same ↦
            let key = mission_package_key a in
            let unused : P.mission_package.find_unique key w.mission_packages ≡ none =
              elim (Option-cases (P.mission_package.find_unique key w.mission_packages)) [
                | inl gone ↦ gone
                | inr (c, f) ↦
                    let free =
                      P.mission_package.count-zero (same_package a) w.mission_packages key c z f in
                    let kc = P.mission_package.key-find_unique key w.mission_packages c f in
                    let clash = same_package-key a c kc in absurd (ground arith)
              ] in
            let stored = P.mission_package.find_unique-insert_self a w.mission_packages unused in
            subst
              (λ c.
                P.mission_package.find_unique (mission_package_key c)
                  (linked P rows w1.mission_packages)
                ≡ some c)
              same (link_stays rows w1 key a (rw run at h) stored)
      ]
