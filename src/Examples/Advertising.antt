-- ===== src/Examples/Advertising.antt =====
-- Advertisements: the public search, creation and deletion.
use gp_connect_server.Common.{ℕ, ◌≡◌, refl, true, false, some, none, [], ◌∷◌, List, arith, ◌≤◌}
use gp_connect_server.Schema.{Advertisement, AdvertisementType}
use gp_connect_server.Prisma.{World, Within}
use gp_connect_server.Prisma.InMemory.{in_memory}
use gp_connect_server.Handler.{Exception, ok, err}
use gp_connect_server.Advertisements.{
  CreateAdvertisementDto, create_advertisement, create_dossier, attach_dossier, store_advertisement,
  assert_packages_of_author, delete_advertisement, withdraw, search_public, search_mine, find_all,
  Geography, AdvertisementQueryFindDto, Page, new_advertisement,
}
use gp_connect_server.Advertisements.Withdrawal.{Outcome, delete_advertisement-Outcome}
use gp_connect_server.Advertisements.Pages.{IsPublicPage}
use gp_connect_server.Advertisements.Publishing.{Creation, create_advertisement-Creation}
use gp_connect_server.Advertisements.Reach.{at_page, search_public-page_count}
use gp_connect_server.Handler.{create_many}
use gp_connect_server.Examples.Data.{trip, negotiation}

abbrev plain_geography : Geography
plain_geography = record {
  nearby_ids = λ lat lng radius. 10 ∷ [];
  city_name = λ id. "Dakar";
  contains_insensitive = λ a b. true;
}

abbrev query : AdvertisementQueryFindDto
query = record {
  page = none;
  limit = some 1;
  max_weight = none;
  price = some 200;
  arrival_date = none;
  departure_city_name = some "dak";
  destination_city_name = none;
  lat = some (record { is_negative = false; digits = 147; decimals = 1 });
  lng = some (record { is_negative = true; digits = 174; decimals = 1 });
  radius = none;
  type = none;
  departure_date = none;
  departure_id = none;
  destination_id = none;
}

abbrev as_stored : List Advertisement → List Advertisement
as_stored ads = ads

trip-found :
    (search_public plain_geography as_stored 7 query negotiation).0
    ≡ ok (record { data_ = trip ∷ []; total = 1; page = 1; limit = 1; pages = 1 })
unfolding search_public find_all
trip-found = refl

mine-refused :
    (search_mine plain_geography as_stored 2 query negotiation).0 ≡ err Exception.missing_argument
unfolding search_mine
mine-refused = refl

search_public-page_count_example :
    (n : ℕ) × (page : Page) × (1 ≤ n)
    × (n ≤ page.pages)
    × (search_public plain_geography as_stored 7 (at_page n query) negotiation
        ≡ (ok page, negotiation))
    × Within trip page.data_
    × IsPublicPage plain_geography 7 (at_page n query) negotiation page
search_public-page_count_example =
    search_public-page_count plain_geography as_stored 7 query negotiation trip (λ xs. refl)
      (λ xs a. (λ h. h, λ h. h)) refl (omega arith) refl refl

-- The shipper asks for the transport of a box.
abbrev request : CreateAdvertisementDto
request = record {
  type = AdvertisementType.shipping;
  price = 30;
  max_weight = none;
  destination_id = 71;
  departure_id = 72;
  author_id = 1;
  departure_date = none;
  arrival_date = 900;
  package_ids = 50 ∷ [];
  new_id = 11;
  new_mission_id = 22;
  now = 8;
}

abbrev requested : World in_memory
requested = (create_advertisement request negotiation).1

request-runs : (create_advertisement request negotiation).0 ≡ ok (new_advertisement request)
unfolding create_advertisement store_advertisement attach_dossier create_dossier
    assert_packages_of_author create_many
request-runs = refl

create_advertisement-Creation_example :
    Creation request negotiation (create_advertisement request negotiation)
create_advertisement-Creation_example = create_advertisement-Creation request negotiation

withdrawal-runs : (delete_advertisement 11 1 requested).0 ≡ ok tt
unfolding delete_advertisement withdraw create_advertisement store_advertisement attach_dossier
    create_dossier assert_packages_of_author create_many
withdrawal-runs = refl

trip-held : (delete_advertisement 10 2 negotiation).0 ≡ err Exception.foreign_key_violation
unfolding delete_advertisement withdraw
trip-held = refl

delete_advertisement-Outcome_example : Outcome 11 1 requested (delete_advertisement 11 1 requested)
delete_advertisement-Outcome_example = delete_advertisement-Outcome 11 1 requested
