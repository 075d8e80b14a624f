-- ===== src/Advertisements/Reach.antt =====
-- The pages of the public search hold every advertisement that it is about.
use gp_connect_server.Common.{
  ℕ, zero, suc, ◌+◌, ◌*◌, ◌-◌, ◌<◌, ◌≤◌, ◌≡◌, refl, sym, ap, subst, ◌↔◌, ◌⊎◌, inl, inr, true, some,
  List, [], ◌∷◌, arith, length,
}
use gp_connect_server.Schema.{Advertisement}
use gp_connect_server.Prisma.{Prisma, World, Within}
use gp_connect_server.Handler.{ok}
use gp_connect_server.Advertisements.Search.{
  Geography, AdvertisementQueryFindDto, Page, take, skip, safe_limit, page_count, public_filter,
  find_all, search_public,
}
use gp_connect_server.Advertisements.Pages.{IsPublicPage, search_public-IsPublicPage}
use native.Mathlib.Nat.{le-div_iff_mul-le}

module _ {A : Type 0} where
  take-skip :
      (n : ℕ) (xs : List A) (a : A) → Within a xs → Within a (take n xs) ⊎ Within a (skip n xs)
  take-skip zero xs a h = inr h
  take-skip (suc n) [] a h = absurd h
  take-skip (suc n) (x ∷ xs) a h = elim h [
    | inl e ↦ inl (inl e)
    | inr m ↦ elim (take-skip n xs a m) [ inl t ↦ inl (inr t) | inr s ↦ inr s ]
  ]

  skip-nil : (m : ℕ) → skip {A = A} m [] ≡ []
  skip-nil zero = refl
  skip-nil (suc m) = refl

  skip-skip : (m n s : ℕ) (xs : List A) → s ≡ n + m → skip m (skip n xs) ≡ skip s xs
  skip-skip m zero s xs e = let same : s ≡ m = omega arith in ap (λ k. skip k xs) (sym same)
  skip-skip m (suc n) zero xs e = absurd (omega arith)
  skip-skip m (suc n) (suc s) [] e = skip-nil m
  skip-skip m (suc n) (suc s) (x ∷ xs) e = skip-skip m n s xs (omega arith)

  length-skip : (n : ℕ) (xs : List A) → length (skip n xs) ≡ length xs - n
  length-skip zero xs = omega arith
  length-skip (suc n) [] = omega arith
  length-skip (suc n) (x ∷ xs) = let rest = length-skip n xs in omega arith

  length-pos : (xs : List A) (a : A) → Within a xs → 1 ≤ length xs
  length-pos [] a h = absurd h
  length-pos (x ∷ xs) a h = omega arith

  -- A row stands on one of the pages of `l` rows.
  pub pages_reach :
      (l fuel : ℕ) (xs : List A) (a : A)
      → 1 ≤ l
      → length xs ≤ fuel
      → Within a xs
      → (k : ℕ) × (k * l < length xs) × Within a (take l (skip (k * l) xs))
  pages_reach l zero [] a h1 h2 m = absurd m
  pages_reach l zero (x ∷ xs) a h1 h2 m = absurd (omega arith)
  pages_reach l (suc fuel) xs a h1 h2 m = elim (take-skip l xs a m) [
    | inl t ↦
        let first : 0 * l ≡ 0 = omega arith in
        let some_row = length-pos xs a m in
        (0, omega arith, subst (λ j. Within a (take l (skip j xs))) (sym first) t)
    | inr s ↦
        let shorter = length-skip l xs in
        let some_row = length-pos xs a m in
        let (k, b, r) = pages_reach l fuel (skip l xs) a h1 (omega arith) s in
        (
          suc k,
          omega arith,
          subst (λ ys. Within a (take l ys)) (skip-skip (k * l) l (suc k * l) xs (omega arith)) r,
        )
  ]

-- The number of a page that has a row is at most the number of pages.
page_count_reach : (l total k : ℕ) → 1 ≤ l → k * l < total → suc k ≤ page_count total l
page_count_reach l total k h b = (le-div_iff_mul-le h).1 (omega arith)

ok_injective : {A : Type 0} {a b : A} → ok a ≡ ok b → a ≡ b
ok_injective h = cc

-- The query with the number of a page.
abbrev pub at_page : ℕ → AdvertisementQueryFindDto → AdvertisementQueryFindDto
at_page n q = record q { page = some n }

module _ {P : Prisma} where
  -- Every stored advertisement that passes the filters of the public search is on one of the pages
  -- that the search says there are, if the limit is at least 1, the order of the rows keeps just
  -- them and their number, and the database counts the rows that it finds. The page has at most as
  -- many rows as the limit that it says, which is at most 50; each of them is stored, open, not
  -- expired, and within the price, the weight, the date and the radius of the query.
  pub search_public-page_count :
      (g : Geography) (order : List Advertisement → List Advertisement) (now : ℕ)
      (q : AdvertisementQueryFindDto) (w : World P) (a : Advertisement)
      → ((xs : List Advertisement) → length (order xs) ≡ length xs)
      → ((xs : List Advertisement) (b : Advertisement) → Within b (order xs) ↔ Within b xs)
      → P.advertisement.count (public_filter g now q) w.advertisements
        ≡ length (P.advertisement.find_many (public_filter g now q) w.advertisements)
      → 1 ≤ safe_limit q.limit
      → P.advertisement.find_unique a.id w.advertisements ≡ some a
      → public_filter g now q a ≡ true
      → (n : ℕ) × (page : Page) × (1 ≤ n)
        × (n ≤ page.pages)
        × (search_public g order now (at_page n q) w ≡ (ok page, w))
        × Within a page.data_
        × IsPublicPage g now (at_page n q) w page
  unfolding search_public find_all
  search_public-page_count g order now q w a lengths keeps counted limit f passes =
      let rows = P.advertisement.find_many (public_filter g now q) w.advertisements in
      let here =
        (P.advertisement.Within-find_many (public_filter g now q) w.advertisements a).1
          (passes, f) in
      let (k, b, r) =
        pages_reach (safe_limit q.limit) (length (order rows)) (order rows) a limit (omega arith)
          ((keeps rows a).1 here) in
      let same = lengths rows in
      let positive : 1 ≤ suc k = omega arith in
      let before : k ≡ suc k - 1 = omega arith in
      let l = safe_limit q.limit in
      let r' = subst (λ j. Within a (take l (skip (j * l) (order rows)))) before r in
      let inside =
        page_count_reach l (P.advertisement.count (public_filter g now q) w.advertisements) k limit
          (omega arith) in
      let (page, run, public_) =
        search_public-IsPublicPage g order now (at_page (suc k) q) w (λ xs b. (keeps xs b).0) in
      let same = ok_injective (ap (λ z. z.0) run) in
      (
        suc k,
        page,
        positive,
        subst (λ p. suc k ≤ p.pages) same inside,
        run,
        subst (λ p. Within a p.data_) same r',
        public_,
      )
