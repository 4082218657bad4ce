-- ===== src/ApiLoader/Transparent.antt =====
-- The cache is transparent: whatever it keeps, loses or evicts, a load gives what an API answers to its
-- path, but for the stamp.
use metaphysics.Common.{
  ℕ, String, Bool, true, false, Option, none, some, if◌then◌else◌, ◌<>◌, str_eq, ◌≡◌, ◌≢◌,
}
use metaphysics.Common.Json.{Json, text}
use metaphysics.ApiLoader.Stamped.{SameData, can_stamp, Stamped}
use metaphysics.ApiLoader.{
  ApiOptions, is_true, Response, answered, refused, Settled, loaded, failed, type_error, cache_key,
  Write, Load, reduce_data, reduced, options_of, load_key,
}

-- A path that could not be taken for the cache key of another one with headers.
abbrev pub IsPlain : String → Type 0
IsPlain key = (other : String) → key ≢ other <> "::headers"

-- What the cache keeps.
abbrev pub Store : Type 0
Store = String → Option Json

abbrev pub written : Option Write → Store → Store
written none store key = store key
written (some w) store key = if str_eq w.key key then some w.content else store key

abbrev pub evicted : String → Store → Store
evicted gone store key = if str_eq gone key then none else store key

-- `Answers path options response`: the APIs that share the cache answer so to the path with these
-- options, at one time or another.
module _ {E : Type 0} (cache_disabled : Bool)
    (Answers : String → ApiOptions → Response E → Type 0) where
  -- The write of a load that missed, at whatever time it arrives, if it does; and an eviction. A
  -- load that hits writes nothing.
  pub data Step : Store → Store → Type 0 where
    write_back :
        (store : Store) (global path invocation : ApiOptions) (timestamp : ℕ) (key : String)
        (api : String → ApiOptions → Response E)
        → IsPlain key
        → Answers key
            (options_of global path invocation)
            (api key (options_of global path invocation))
        → Step store (
            written
              (load_key cache_disabled global path invocation timestamp key api none).write
              store)
    evict : (store : Store) (gone : String) → Step store (evicted gone store)

  pub data Reach : Store → Type 0 where
    here : Reach (λ key. none)
    next : {s t : Store} → Reach s → Step s t → Reach t

  -- Data that an API answered to the path, with the headers or without, but for the stamp.
  abbrev pub IsKept : Bool → String → Json → Type 0
  IsKept headers key content =
      (options : ApiOptions) × (is_true options.headers ≡ headers)
      × (b : Json) × (h : Json) × Answers key options (answered b h)
      × SameData (reduce_data headers b h) content

  -- What a load through the cache may give: such data, an error that an API answered, or a TypeError
  -- where such data cannot be stamped.
  abbrev pub Fits : Bool → String → Settled E → Type 0
  Fits headers key (loaded content) = IsKept headers key content
  Fits headers key (failed e) =
      (options : ApiOptions) × (is_true options.headers ≡ headers) × Answers key options (refused e)
  Fits headers key type_error =
      (options : ApiOptions) × (is_true options.headers ≡ headers)
      × (b : Json) × (h : Json) × Answers key options (answered b h)
      × (can_stamp (reduce_data headers b h) ≡ false)

  -- Past the cache, what the API answers; through it, what fits.
  abbrev pub IsTransparent : Bool → Bool → String → Response E → Settled E → Type 0
  IsTransparent true headers key response result = result ≡ reduced headers response
  IsTransparent false headers key response result = Fits headers key result

  abbrev IsCoherent : Store → Type 0
  IsCoherent store =
      (headers : Bool) (key : String) (content : Json)
      → IsPlain key
      → store (cache_key headers key) ≡ some content
      → IsKept headers key content

  -- The write of a load is of its own cache key, and has what the API answers.
  abbrev IsOwn : Bool → String → Option Write → Type 0
  IsOwn headers key none = Unit
  IsOwn headers key (some w) = (w.key ≡ cache_key headers key) × IsKept headers key w.content

  -- A load that missed fits, and so does its write.
  abbrev IsMiss : Bool → String → Load E → Type 0
  IsMiss headers key load = Fits headers key load.result × IsOwn headers key load.write
