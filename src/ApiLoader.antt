-- ===== src/ApiLoader.antt =====
-- Loads through the cache: src/lib/loaders/api/loader_without_authentication_factory.ts, with the
-- stamping of `_set` in src/lib/cache.ts. The API and the memcached client are parameters: what the
-- API answers to a path with options, and what the cache gives for a key. Data are values of JSON.
-- Logging and timing are left out. An option that is absent is `none`.
pub mod Stamped
pub mod Transparent
mod Tests
use metaphysics.Common.{
  ℕ, zero, suc, String, Bool, true, false, ◌||◌, Option, none, some, if◌then◌else◌, ◌<>◌, str_eq,
  ◌>>=◌,
}
use mathlib.Core.Option
use metaphysics.Common.Json.{
  Json, undefined, null, bool, number, text, array, object, Items, nil, cons, Fields, empty, field,
  set_field, truthy,
}

pub data Method : Type 0 where
  get post put delete : Method

pub record ApiOptions : Type 0 where
  pub headers : Option Bool
  pub method : Option Method
  pub is_mutation : Option Bool
  pub request_throttle_ms : Option ℕ

abbrev pub overridden {ℓ} : {A : Type ℓ} → Option A → Option A → Option A
overridden a none = a
overridden a (some b) = some b

-- `{...a, ...b}`
abbrev pub spread : ApiOptions → ApiOptions → ApiOptions
spread a b = record {
  headers = overridden a.headers b.headers;
  method = overridden a.method b.method;
  is_mutation = overridden a.is_mutation b.is_mutation;
  request_throttle_ms = overridden a.request_throttle_ms b.request_throttle_ms;
}

abbrev pub is_true : Option Bool → Bool
is_true none = false
is_true (some b) = b

-- `["PUT", "POST", "DELETE"].includes(method)`, where there is a method
abbrev pub is_writing : Option Method → Bool
is_writing none = false
is_writing (some get) = false
is_writing (some post) = true
is_writing (some put) = true
is_writing (some delete) = true

-- What the API answers to a request: a body and headers, or an error. What a load gives: data, the
-- API's error, or a TypeError.
pub data Response (E : Type 0) : Type 0 where
  answered : Json → Json → Response E
  refused : E → Response E

pub data Settled (E : Type 0) : Type 0 where
  loaded : Json → Settled E
  failed : E → Settled E
  type_error : Settled E

abbrev pub cache_key : Bool → String → String
cache_key true key = key <> "::headers"
cache_key false key = key

-- `datum && (datum.cached = timestamp)`: a property of a text, a number or a Boolean cannot be set, which
-- is a TypeError, `none`; one of a list is not seen when the list is written.
abbrev pub stamp_datum : ℕ → Json → Option Json
stamp_datum timestamp (object fields) = some (object (set_field "cached" (number timestamp) fields))
stamp_datum timestamp (array items) = some (array items)
stamp_datum timestamp datum = if truthy datum then none else some datum

abbrev pub stamp_items : ℕ → Items → Option Items
stamp_items timestamp nil = some nil
stamp_items timestamp (cons datum items) = do
  stamped ← stamp_datum timestamp datum
  rest ← stamp_items timestamp items
  some (cons stamped rest)

-- What `_set` of the cache does to the data, in place, before it writes them.
unfoldable pub stamp : ℕ → Json → Option Json
stamp timestamp (array items) = Option.map array (stamp_items timestamp items)
stamp timestamp (object fields) = some (object (set_field "cached" (number timestamp) fields))
stamp timestamp content = none

-- A value that is written to the cache, with the throttling time in milliseconds if there is one.
pub record Write : Type 0 where
  pub key : String
  pub content : Json
  pub ttl_ms : Option ℕ

-- A load: its result, whether the cache was asked and the API called, and what is written.
pub record Load (E : Type 0) : Type 0 where
  pub result : Settled E
  pub cache_asked : Bool
  pub api_called : Bool
  pub write : Option Write

-- `if (apiOptions.requestThrottleMs)`
abbrev pub ttl_of : Option ℕ → Option ℕ
ttl_of none = none
ttl_of (some zero) = none
ttl_of (some (suc ms)) = some (suc ms)

abbrev pub reduce_data : Bool → Json → Json → Json
reduce_data true body headers = object (field "body" body (field "headers" headers empty))
reduce_data false body headers = body

abbrev pub reduced : {E : Type 0} → Bool → Response E → Settled E
reduced headers (answered b h) = loaded (reduce_data headers b h)
reduced headers (refused e) = failed e

unfoldable pub skip_cache : Bool → ApiOptions → Bool
skip_cache cache_disabled options =
    cache_disabled || (is_writing options.method || is_true options.is_mutation)

-- `cacheData`: the stamped data are written and returned; an exception of the stamping rejects.
abbrev pub cache_data : {E : Type 0} → String → ApiOptions → Option Json → Load E
cache_data key options none = record {
  result = type_error;
  cache_asked = true;
  api_called = true;
  write = none;
}
cache_data key options (some content) = record {
  result = loaded content;
  cache_asked = true;
  api_called = true;
  write = some (record {
    key = cache_key (is_true options.headers) key;
    content = content;
    ttl_ms = ttl_of options.request_throttle_ms;
  });
}

-- The answer of the API is cached if it is not an error.
abbrev pub missed : {E : Type 0} → ℕ → String → ApiOptions → Response E → Load E
missed timestamp key options (answered b h) =
    cache_data key options (stamp timestamp (reduce_data (is_true options.headers) b h))
missed timestamp key options (refused e) = record {
  result = failed e;
  cache_asked = true;
  api_called = true;
  write = none;
}

abbrev pub options_of : ApiOptions → ApiOptions → ApiOptions → ApiOptions
options_of global path invocation = spread (spread global path) invocation

-- The function that DataLoader is given, for one key, at a time: `api` is what the API answers to the
-- path with the options, and `cached` what the cache gives for the cache key, `none` for a miss or any
-- failure of it.
unfoldable pub load_key :
    {E : Type 0}
    → Bool
    → ApiOptions
    → ApiOptions
    → ApiOptions
    → ℕ
    → String
    → (String → ApiOptions → Response E)
    → Option Json
    → Load E
load_key cache_disabled global path invocation timestamp key api cached =
    let options = options_of global path invocation in
    if skip_cache cache_disabled options
    then record {
      result = reduced (is_true options.headers) (api key options);
      cache_asked = false;
      api_called = true;
      write = none;
    }
    else elim cached [
      | none ↦ missed timestamp key options (api key options)
      | some content ↦ record {
        result = loaded content;
        cache_asked = true;
        api_called = false;
        write = none;
      }
    ]
