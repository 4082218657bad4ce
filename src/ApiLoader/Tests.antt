-- ===== src/ApiLoader/Tests.antt =====
-- Loads of one path, first from the API and then from the cache.
use Prim.Native.String
use metaphysics.Common.{String, true, false, none, some, ◌≡◌, refl}
use metaphysics.Common.Json.{number, text, array, object, nil, cons, empty, field}
use metaphysics.ApiLoader.{
  ApiOptions, post, Response, answered, type_error, load_key, skip_cache, stamp, spread,
}
use metaphysics.ApiLoader.Transparent.{Store, written}

abbrev no_options : ApiOptions
no_options = record {
  headers = none;
  method = none;
  is_mutation = none;
  request_throttle_ms = some 5000;
}

abbrev posting : ApiOptions
posting = record no_options { method = some post }

abbrev asking : ApiOptions
asking = record no_options { headers = some true }

abbrev api : String → ApiOptions → Response (Unit {0})
api key options =
    answered (object (field "path" (text key) empty)) (object (field "age" (number 200) empty))

-- The API answers always the same.
abbrev Answers : String → ApiOptions → Response (Unit {0}) → Type 0
Answers key options response = response ≡ api key options

writes_skip : skip_cache false (spread no_options posting) ≡ true
unfolding skip_cache
writes_skip = refl

reads_do_not_skip : skip_cache false (spread (spread no_options no_options) asking) ≡ false
unfolding skip_cache
reads_do_not_skip = refl

abbrev sales_kept : Store
sales_kept =
    written (load_key false no_options no_options asking 7 "sales" api none).write (λ key. none)

-- A list of objects is stamped element by element, and a list of texts cannot be.
stamped :
    stamp 7 (array (cons (object empty) nil))
    ≡ some (array (cons (object (field "cached" (number 7) empty)) nil))
unfolding stamp
stamped = refl

abbrev texts_api : String → ApiOptions → Response (Unit {0})
texts_api key options = answered (array (cons (text "a") nil)) (object empty)

texts_not_stamped :
    (load_key false no_options no_options no_options 7 "names" texts_api none).result ≡ type_error
unfolding load_key skip_cache stamp
texts_not_stamped = refl
