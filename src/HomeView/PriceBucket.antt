-- ===== src/HomeView/PriceBucket.antt =====
-- The price bucket of a collector's price preference:
-- src/schema/v2/homeView/helpers/priceBucketBasedOnPricePreference.ts. The preference is a whole
-- number; a maximum of `none` is Infinity.
use metaphysics.Common.{
  ℕ, ◌<◌, String, ◌≡◌, ◌⊎◌, ◌&&◌, Bool, true, Option, none, some, List, [], ◌∷◌, arith, ltb, leb,
  ◌==◌, if◌then◌else◌, find, last_of, get_elem?,
}

pub record PriceBucket : Type 0 where
  pub price_range : String
  pub min : ℕ
  pub max : Option ℕ
  pub text : String

abbrev pub bucket : String → ℕ → Option ℕ → String → PriceBucket
bucket price_range min max text = record {
  price_range = price_range;
  min = min;
  max = max;
  text = text;
}

abbrev pub price_buckets : List PriceBucket
price_buckets =
    bucket "0-500" 0 (some 500) "Art Under $500"
    ∷ bucket "500-1000" 500 (some 1000) "Art Under $1,000"
    ∷ bucket "1000-2500" 1000 (some 2500) "Art Under $2,500"
    ∷ bucket "2500-5000" 2500 (some 5000) "Art Under $5,000"
    ∷ bucket "5000-10000" 5000 (some 10000) "Art Under $10,000"
    ∷ bucket "10000-25000" 10000 (some 25000) "Art Under $25,000"
    ∷ bucket "25000-*" 25000 none "Art Above $25,000"
    ∷ []

-- `n <= max`
abbrev pub within : ℕ → Option ℕ → Bool
within n none = true
within n (some max) = leb n max

unfoldable pub price_bucket_based_on_price_preference : ℕ → Option PriceBucket
price_bucket_based_on_price_preference price_preference =
    if ltb 25000 price_preference
    then last_of price_buckets
    else if price_preference == 0
    then get_elem? price_buckets 0
    else find (λ b. ltb b.min price_preference && within price_preference b.max) price_buckets

abbrev pub Fits : ℕ → Option PriceBucket → Type 0
Fits n none = ⊥
Fits n (some b) = ((b.min < n) ⊎ ((n ≡ 0) × (b.min ≡ 0))) × (within n b.max ≡ true)

-- Every preference has a bucket that it fits: above the minimum, or both 0, and not above the
-- maximum.
pub price_bucket-Fits : (n : ℕ) → Fits n (price_bucket_based_on_price_preference n)
unfolding price_bucket_based_on_price_preference
price_bucket-Fits n = ground arith
