-- ===== src/Tests/Services.antt =====
-- Services: the cached maps, their lists and ids.
use mesh_cni.BpfMap.Laws.{hash_map-IsMap}
use mesh_cni.Common.{service_key_v4_eq, endpoint_key_eq, ServiceValue}
use mesh_cni.Prelude.{◌+◌, ◌%◌, ◌^◌, some, none, ◌≡◌, refl, ite}
use mesh_cni.Prelude.HashMap
use mesh_cni.Prelude.Result.{ok}
use mesh_cni.Service
use mesh_cni.Service.Listing.{listing, IsNumbered, listing-update_new, listing-remove}
use mesh_cni.Service.Mirror.{IsMirror, update-IsMirror, remove-IsMirror}
use mesh_cni.Tests.Fixture.{program, services4, endpoints4, web, two, fresh, with_web}

update_web : (Service.update services4 endpoints4 web two 128 fresh).0 ≡ ok 129
unfolding program
update_web = refl

update_web_absent : HashMap.get web fresh.service_cache ≡ none
unfolding program
update_web_absent = refl

fresh-IsMirror : IsMirror hash_map-IsMap hash_map-IsMap fresh
fresh-IsMirror = record { same_services = λ k. refl; same_endpoints = λ k. refl }

update-IsMirror-with_web : IsMirror hash_map-IsMap hash_map-IsMap with_web
update-IsMirror-with_web =
    update-IsMirror hash_map-IsMap hash_map-IsMap web two 128 fresh fresh-IsMirror

update-IsMirror_example :
    IsMirror hash_map-IsMap hash_map-IsMap (Service.update services4 endpoints4 web two 128 fresh).1
update-IsMirror_example =
    update-IsMirror hash_map-IsMap hash_map-IsMap web two 128 fresh fresh-IsMirror

remove-IsMirror_example :
    IsMirror hash_map-IsMap hash_map-IsMap (Service.remove services4 endpoints4 web with_web).1
remove-IsMirror_example =
    remove-IsMirror hash_map-IsMap hash_map-IsMap web with_web update-IsMirror-with_web

fresh-IsNumbered : IsNumbered 128 fresh
unfolding program
fresh-IsNumbered = record {
  below = λ k v e. absurd (cc);
  distinct = λ j k v w e f same. absurd (cc);
}

listing-update_new_example :
    (listing (Service.update services4 endpoints4 web two 128 fresh).1 web
      ≡ ite (service_key_v4_eq.same web web) (some two) (listing fresh web))
    × IsNumbered (128 + 1) (Service.update services4 endpoints4 web two 128 fresh).1
    × (129 ≡ (128 + 1) % 2 ^ 16)
unfolding program
listing-update_new_example =
    listing-update_new services4 endpoints4 128 fresh fresh-IsNumbered web web two update_web_absent
      update_web

with_web-IsNumbered : IsNumbered 129 with_web
with_web-IsNumbered =
    (listing-update_new services4 endpoints4 128 fresh fresh-IsNumbered web web two
      update_web_absent update_web).1

abbrev web_value : ServiceValue
web_value = record { id = 128; count = 2 }

with_web-get : HashMap.get web with_web.service_cache ≡ some web_value
unfolding program
with_web-get = refl

remove_web : (Service.remove services4 endpoints4 web with_web).0 ≡ ok tt
unfolding program
remove_web = refl

listing-remove_example :
    (listing (Service.remove services4 endpoints4 web with_web).1 web
      ≡ ite (service_key_v4_eq.same web web) none (listing with_web web))
    × IsNumbered 129 (Service.remove services4 endpoints4 web with_web).1
listing-remove_example =
    listing-remove services4 endpoints4 129 with_web with_web-IsNumbered web web with_web-get
      remove_web
