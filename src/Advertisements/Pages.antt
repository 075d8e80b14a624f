-- ===== src/Advertisements/Pages.antt =====
-- What a page of the public search holds.
use gp_connect_server.Common.{
  ℕ, zero, suc, ◌≤◌, ◌≡◌, refl, inl, inr, true, false, some, includes, List, [], ◌∷◌, arith, length,
  leb, ◌&&◌, ◌==◌, nat_eq,
}
use gp_connect_server.Schema.{Advertisement, AdvertisementStatus, advertisement_status_eq}
use gp_connect_server.Prisma.{Prisma, World, Within, and_parts}
use gp_connect_server.Handler.{ok}
use gp_connect_server.Advertisements.Search.{
  Degrees, Geography, AdvertisementQueryFindDto, Page, take, skip, or_default, arrival_floor,
  price_filter, weight_filter, city_filter, rest_filter, near_filter, public_filter, find_all,
  search_public,
}

module _ {A : Type 0} where
  Within-take : (n : ℕ) (xs : List A) (a : A) → Within a (take n xs) → Within a xs
  Within-take zero xs a h = absurd h
  Within-take (suc n) [] a h = absurd h
  Within-take (suc n) (x ∷ xs) a h = elim h [ inl e ↦ inl e | inr m ↦ inr (Within-take n xs a m) ]

  Within-skip : (n : ℕ) (xs : List A) (a : A) → Within a (skip n xs) → Within a xs
  Within-skip zero xs a h = h
  Within-skip (suc n) [] a h = absurd h
  Within-skip (suc n) (x ∷ xs) a h = inr (Within-skip n xs a h)

  length-take : (n : ℕ) (xs : List A) → length (take n xs) ≤ n
  length-take zero xs = omega arith
  length-take (suc n) [] = omega arith
  length-take (suc n) (x ∷ xs) = let rest = length-take n xs in omega arith

-- Within a radius, if the query has a position.
abbrev pub IsNear : Geography → AdvertisementQueryFindDto → Advertisement → Type 0
IsNear g q a =
    (lat lng : Degrees)
    → q.lat ≡ some lat
    → q.lng ≡ some lng
    → includes (g.nearby_ids lat lng (or_default q.radius 100)) a.id ≡ true

pub record IsListed (g : Geography) (now : ℕ) (q : AdvertisementQueryFindDto) (a : Advertisement)
    : Type 0 where
  pub open_ : a.status ≡ AdvertisementStatus.open_
  pub unexpired : now ≤ a.arrival_date
  pub arrives : (d : ℕ) → q.arrival_date ≡ some d → d ≤ a.arrival_date
  pub affordable : (n : ℕ) → q.price ≡ some (suc n) → a.price ≤ suc n
  pub roomy : (n : ℕ) → q.max_weight ≡ some (suc n) → suc n ≤ a.max_weight
  pub near : IsNear g q a

public_filter-IsListed :
    (g : Geography) (now : ℕ) (q : AdvertisementQueryFindDto) (a : Advertisement)
    → public_filter g now q a ≡ true
    → IsListed g now q a
public_filter-IsListed g now q a h =
    let (x, y) = and_parts (a.status == AdvertisementStatus.open_ && _) _ h in
    let (st, arr) =
      and_parts (a.status == AdvertisementStatus.open_)
        (leb (arrival_floor now q.arrival_date) a.arrival_date) x in
    let (terms, places) = and_parts (price_filter q.price a && weight_filter q.max_weight a) _ y in
    let (cheap, big) = and_parts (price_filter q.price a) (weight_filter q.max_weight a) terms in
    let (_, tail) =
      and_parts
        (city_filter g q.departure_city_name a.departure_id
          && city_filter g q.destination_city_name a.destination_id)
        _ places in
    let (_, near) = and_parts (rest_filter q a) (near_filter g q.lat q.lng q.radius a) tail in
    record {
      open_ = (advertisement_status_eq.beq_iff a.status AdvertisementStatus.open_).0 st;
      unexpired = ground arith;
      arrives = λ d e. ground arith;
      affordable = λ n e. let c = rw e at cheap in ground arith;
      roomy = λ n e. let c = rw e at big in ground arith;
      near = λ lat lng e1 e2. rw (e1, e2) at near;
    }

module _ {P : Prisma} where
  pub record IsPublicPage (g : Geography) (now : ℕ) (q : AdvertisementQueryFindDto) (w : World P)
      (page : Page) : Type 0 where
    pub listed : (a : Advertisement) → Within a page.data_ → IsListed g now q a
    pub stored :
        (a : Advertisement)
        → Within a page.data_
        → P.advertisement.find_unique a.id w.advertisements ≡ some a
    pub bounded : length page.data_ ≤ page.limit
    pub limit : page.limit ≤ 50
    -- Where the total is 0, no advertisement passes the filters.
    pub total :
        (k : ℕ) (a : Advertisement)
        → page.total ≡ 0
        → P.advertisement.find_unique k w.advertisements ≡ some a
        → public_filter g now q a ≡ false

  -- The public search writes nothing and always answers. Its page has at most as many rows as the
  -- limit that it says, which is at most 50, and each of them is stored, open, not expired, and
  -- within the price, the weight, the date and the radius of the query, if the order of the rows
  -- adds none; with a total of 0 no stored advertisement passes the filters.
  pub search_public-IsPublicPage :
      (g : Geography) (order : List Advertisement → List Advertisement) (now : ℕ)
      (q : AdvertisementQueryFindDto) (w : World P)
      → ((xs : List Advertisement) (a : Advertisement) → Within a (order xs) → Within a xs)
      → (page : Page) × (search_public g order now q w ≡ (ok page, w)) × IsPublicPage g now q w page
  unfolding search_public find_all
  search_public-IsPublicPage g order now q w orders =
      let rows = P.advertisement.find_many (public_filter g now q) w.advertisements in
      let passes = λ (a : Advertisement) (h : Within a (take _ (skip _ (order rows)))).
        (P.advertisement.Within-find_many (public_filter g now q) w.advertisements a).0
          (orders rows a (Within-skip _ _ a (Within-take _ _ a h))) in
      (
        _,
        refl,
        record {
          listed = λ a h. public_filter-IsListed g now q a (passes a h).0;
          stored = λ a h. (passes a h).1;
          bounded = length-take _ _;
          limit = ground arith;
          total = λ k a z f.
              P.advertisement.count-zero (public_filter g now q) w.advertisements k a z f;
        },
      )
