-- ===== src/Advertisements/Search.antt =====
-- The public search of `AdvertisementsService` (src/advertisements/advertisements.service.ts) and
-- the pages of its lists. The order of the rows, the names of cities, their comparison and the
-- query to PostGIS are parameters.
use gp_connect_server.Common.{
  ℕ, zero, suc, ◌+◌, ◌-◌, ◌*◌, Bool, true, false, ◌&&◌, Option, none, some, List, [], ◌∷◌, ◌==◌,
  nat_eq, ltb, leb, includes, is_set, ◌||◌, if◌then◌else◌, String, truthy,
}
use gp_connect_server.Schema.{
  Advertisement, AdvertisementType, advertisement_type_eq, AdvertisementStatus,
  advertisement_status_eq,
}
use gp_connect_server.Prisma.{Prisma}
use gp_connect_server.Handler.{
  Handler, Exception, ◌>>=◌, ◌>>◌, pure, throw_if, find_many, count, advertisements,
}
use Prim.Native.Nat.{◌/◌}

-- A coordinate in decimal degrees, in units of its last digit.
pub record Degrees : Type 0 where
  pub is_negative : Bool
  pub digits : ℕ
  pub decimals : ℕ

-- `findNearbyIds` and the relation `city` of an address, with `contains`, `insensitive`.
pub record Geography : Type 0 where
  pub nearby_ids : Degrees → Degrees → ℕ → List ℕ
  pub city_name : ℕ → String
  pub contains_insensitive : String → String → Bool

-- `AdvertisementQueryFindDto`; the sort keys are in the parameter `order` of the search.
pub record AdvertisementQueryFindDto : Type 0 where
  pub page : Option ℕ
  pub limit : Option ℕ
  pub max_weight : Option ℕ
  pub price : Option ℕ
  pub arrival_date : Option ℕ
  pub departure_city_name : Option String
  pub destination_city_name : Option String
  pub lat : Option Degrees
  pub lng : Option Degrees
  pub radius : Option ℕ
  pub type : Option AdvertisementType
  pub departure_date : Option ℕ
  pub departure_id : Option ℕ
  pub destination_id : Option ℕ

pub record Page : Type 0 where
  pub data_ : List Advertisement
  pub total : ℕ
  pub page : ℕ
  pub limit : ℕ
  pub pages : ℕ

abbrev pub or_default : Option ℕ → ℕ → ℕ
or_default none d = d
or_default (some n) d = n

abbrev pub take : {A : Type 0} → ℕ → List A → List A
take zero xs = []
take (suc n) [] = []
take (suc n) (x ∷ xs) = x ∷ take n xs

abbrev pub skip : {A : Type 0} → ℕ → List A → List A
skip zero xs = xs
skip (suc n) [] = []
skip (suc n) (x ∷ xs) = skip n xs

-- `Math.min(limit, 50)`
abbrev pub safe_limit : Option ℕ → ℕ
safe_limit limit = let n = or_default limit 20 in if leb n 50 then n else 50

-- `Math.ceil(total / limit)`, for a limit that is at least 1, as the body's validation demands.
abbrev pub page_count : ℕ → ℕ → ℕ
page_count total limit = (total + (limit - 1)) / limit

-- `price ? { price: { lte: price } } : {}`, where 0 is no filter.
abbrev pub price_filter : Option ℕ → Advertisement → Bool
price_filter none a = true
price_filter (some n) a = if n == 0 then true else leb a.price n

abbrev pub weight_filter : Option ℕ → Advertisement → Bool
weight_filter none a = true
weight_filter (some n) a = if n == 0 then true else leb n a.max_weight

-- `arrivalDate && new Date(arrivalDate) > now ? arrivalDate : now`
abbrev pub arrival_floor : ℕ → Option ℕ → ℕ
arrival_floor now none = now
arrival_floor now (some d) = if ltb now d then d else now

abbrev pub city_filter : Geography → Option String → ℕ → Bool
city_filter g none address_id = true
city_filter g (some name) address_id =
    if truthy (some name) then g.contains_insensitive (g.city_name address_id) name else true

-- A column of the rest of the query, `...where`.
abbrev pub equals : Option ℕ → ℕ → Bool
equals none n = true
equals (some q) n = n == q

abbrev pub date_filter : Option ℕ → Option ℕ → Bool
date_filter none d = true
date_filter (some q) none = false
date_filter (some q) (some d) = d == q

abbrev pub type_filter : Option AdvertisementType → Advertisement → Bool
type_filter none a = true
type_filter (some t) a = a.type == t

abbrev pub rest_filter : AdvertisementQueryFindDto → Advertisement → Bool
rest_filter q a =
    (type_filter q.type a && date_filter q.departure_date a.departure_date)
    && (equals q.departure_id a.departure_id && equals q.destination_id a.destination_id)

abbrev pub near_filter :
    Geography → Option Degrees → Option Degrees → Option ℕ → Advertisement → Bool
near_filter g none lng radius a = true
near_filter g (some lat) none radius a = true
near_filter g (some lat) (some lng) radius a =
    includes (g.nearby_ids lat lng (or_default radius 100)) a.id

abbrev pub public_filter : Geography → ℕ → AdvertisementQueryFindDto → Advertisement → Bool
public_filter g now q a =
    (a.status == AdvertisementStatus.open_ && leb (arrival_floor now q.arrival_date) a.arrival_date)
    && ((price_filter q.price a && weight_filter q.max_weight a)
        && ((city_filter g q.departure_city_name a.departure_id
              && city_filter g q.destination_city_name a.destination_id)
            && (rest_filter q a && near_filter g q.lat q.lng q.radius a)))

-- The list of the author, where `authorId` comes from the token; here the price and the weight
-- stay in `...where`.
abbrev pub mine_filter : Geography → ℕ → AdvertisementQueryFindDto → Advertisement → Bool
mine_filter g author_id q a =
    (a.author_id == author_id && leb (or_default q.arrival_date 0) a.arrival_date)
    && ((city_filter g q.departure_city_name a.departure_id
          && city_filter g q.destination_city_name a.destination_id)
        && (rest_filter q a && (equals q.price a.price && equals q.max_weight a.max_weight)))

module _ {P : Prisma} where
  unfoldable pub find_all :
      (List Advertisement → List Advertisement)
      → (Advertisement → Bool)
      → Option ℕ
      → Option ℕ
      → Handler P Page
  find_all order where_ page limit = do
    rows ← find_many advertisements where_
    total ← count advertisements where_
    pure (record {
      data_ =
          take (safe_limit limit) (skip ((or_default page 1 - 1) * safe_limit limit) (order rows));
      total = total;
      page = or_default page 1;
      limit = safe_limit limit;
      pages = page_count total (safe_limit limit);
    })

  unfoldable pub search_public :
      Geography
      → (List Advertisement → List Advertisement)
      → ℕ
      → AdvertisementQueryFindDto
      → Handler P Page
  search_public g order now q = find_all order (public_filter g now q) q.page q.limit

  -- `lat`, `lng` and `radius` stay in `...where`, and are no columns.
  unfoldable pub search_mine :
      Geography
      → (List Advertisement → List Advertisement)
      → ℕ
      → AdvertisementQueryFindDto
      → Handler P Page
  search_mine g order author_id q = do
    throw_if (is_set q.lat || (is_set q.lng || is_set q.radius)) Exception.missing_argument
    find_all order (mine_filter g author_id q) q.page q.limit
