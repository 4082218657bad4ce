-- ===== src/SaleArtworks/Promises.antt =====
-- Each key is given its own promise, and asked for once.
use Prim.Native.Char.{Char, code}
use mathlib.Core.Path.{subst}
use mathlib.Core.List.{map-append}
use text.Mathlib.TextLemmas.{nil-append, cons-append, append_cancel_right}
use metaphysics.Common.{
  String, Bool, true, false, not, ◌&&◌, Option, none, some, List, [], ◌∷◌, ◌++◌, map, ◌==◌, ◌≡◌,
  refl, sym, ap, ◌∙◌, arith, if◌then◌else◌, str_eq, eq_iff, ◌<>◌, includes, Distinct, All,
  Bool-cases, Option-cases, is_some, ◌||◌, inl, inr,
}
use metaphysics.SaleArtworks.{SaleArtworkKey}
use metaphysics.SaleArtworks.Wrapper.{
  key_string, Wrapper, no_promises, cached, get_promise, get_promises,
}

abbrev pub has_no_dash : String → Bool
has_no_dash String.[] = true
has_no_dash (String.◌∷◌ c s) = not (code c == b'-') && has_no_dash s

-- What stands after the last dash.
abbrev last_part : String → Option String
last_part String.[] = none
last_part (String.◌∷◌ c s) = elim (last_part s) [
  | some t ↦ some t
  | none ↦ if code c == b'-' then some s else none
]

last_part-none : (s : String) → has_no_dash s ≡ true → last_part s ≡ none
last_part-none String.[] h = refl
last_part-none (String.◌∷◌ c s) h = ground (arith, last_part-none s)

dash-append : (b : String) → "-" <> b ≡ String.◌∷◌ "-" b
dash-append b = cons-append "-" String.[] b ∙ ap (String.◌∷◌ "-") (nil-append b)

last_part-cons :
    (c : Char) (s t : String) → last_part s ≡ some t → last_part (String.◌∷◌ c s) ≡ some t
last_part-cons c s t h = rw h refl

last_part-append : (a b : String) → has_no_dash b ≡ true → last_part (a <> ("-" <> b)) ≡ some b
last_part-append String.[] b h = rw (nil-append ("-" <> b), dash-append b, last_part-none b h) refl
last_part-append (String.◌∷◌ c a) b h =
    ap last_part (cons-append c a ("-" <> b))
    ∙ last_part-cons c (a <> ("-" <> b)) b (last_part-append a b h)

-- The strings of different keys are different where the sale ids have no dash.
key_string_inj :
    (j k : SaleArtworkKey)
    → has_no_dash j.sale_id ≡ true
    → has_no_dash k.sale_id ≡ true
    → key_string j ≡ key_string k
    → j ≡ k
key_string_inj j k hj hk e =
    let last =
      sym (last_part-append j.artwork_id j.sale_id hj)
      ∙ (ap last_part e ∙ last_part-append k.artwork_id k.sale_id hk) in
    let sales : j.sale_id ≡ k.sale_id = cc in
    let artworks : j.artwork_id ≡ k.artwork_id =
      append_cancel_right j.artwork_id k.artwork_id ("-" <> k.sale_id)
        (ap (λ (t : String). j.artwork_id <> ("-" <> t)) (sym sales) ∙ e) in
    λ i. record { artwork_id = artworks i; sale_id = sales i }

-- What holds of each promise and the key at its place.
abbrev pub EachOwn :
    {P : Type 0} → (P → SaleArtworkKey → Type 0) → List P → List SaleArtworkKey → Type 0
EachOwn Own [] [] = Unit {0}
EachOwn Own (p ∷ ps) (key ∷ keys) = Own p key × EachOwn Own ps keys
EachOwn Own _ _ = ⊥

includes-append :
    (xs : List String) (x s : String) → includes (xs ++ (x ∷ [])) s ≡ (includes xs s || str_eq x s)
includes-append [] x s = ground arith
includes-append (y ∷ ys) x s = ground (arith, includes-append ys x s)

Distinct-append :
    (xs : List String) (x : String)
    → includes xs x ≡ false
    → Distinct xs
    → Distinct (xs ++ (x ∷ []))
Distinct-append [] x h d = (refl, tt)
Distinct-append (y ∷ ys) x h (e, d) = (
  includes-append ys x y ∙ ground (arith, eq_iff x y, eq_iff y x),
  Distinct-append ys x (ground arith) d,
)

abbrev called : {P : Type 0} → Wrapper P → List String
called w = map key_string w.calls

module _ {P : Type 0} (Own : P → SaleArtworkKey → Type 0) where
  -- An entry has a promise of a key with that string.
  abbrev IsEntry : String × P → Type 0
  IsEntry entry =
      (k : SaleArtworkKey) × (has_no_dash k.sale_id ≡ true)
      × (key_string k ≡ entry.0)
      × Own entry.1 k

  record IsOwned (w : Wrapper P) : Type 0 where
    entries : All IsEntry w.promise_cache
    listed : (s : String) → includes (called w) s ≡ is_some (cached s w.promise_cache)
    distinct : Distinct (called w)

  cached-own :
      (s : String) (p : P) (entries : List (String × P))
      → All IsEntry entries
      → cached s entries ≡ some p
      → IsEntry (s, p)
  cached-own s p [] h e = cc
  cached-own s p ((k, q) ∷ entries) (h, hs) e = elim (Bool-cases (str_eq k s)) [
    | inl f ↦ (h.0, h.1, h.2 ∙ (eq_iff k s).0 f, subst (λ r. Own r h.0) (cc) h.3)
    | inr f ↦ cached-own s p entries hs (rw f at e)
  ]

  module _ (load : List SaleArtworkKey → SaleArtworkKey → P)
      (owns : (calls : List SaleArtworkKey) (key : SaleArtworkKey) → Own (load calls key) key) where
    after_miss : SaleArtworkKey → Wrapper P → Wrapper P
    after_miss key w = record {
      promise_cache = (key_string key, load w.calls key) ∷ w.promise_cache;
      calls = w.calls ++ (key ∷ []);
    }

    called-after_miss :
        (key : SaleArtworkKey) (w : Wrapper P) (s : String)
        → includes (called (after_miss key w)) s
          ≡ (includes (called w) s || str_eq (key_string key) s)
    unfolding after_miss
    called-after_miss key w s =
        ap (λ (l : List String). includes l s) (map-append key_string w.calls (key ∷ []))
        ∙ includes-append (called w) (key_string key) s

    after_miss-IsOwned :
        (key : SaleArtworkKey) (w : Wrapper P)
        → has_no_dash key.sale_id ≡ true
        → cached (key_string key) w.promise_cache ≡ none
        → IsOwned w
        → IsOwned (after_miss key w)
    unfolding after_miss
    after_miss-IsOwned key w plain e owned = record {
      entries = ((key, plain, refl, owns w.calls key), owned.entries);
      listed = λ s. called-after_miss key w s ∙ (elim (Bool-cases (str_eq (key_string key) s)) [
        | inl f ↦ rw f (ground arith)
        | inr f ↦ rw (f, owned.listed s) (ground arith)
      ]);
      distinct = subst Distinct (sym (map-append key_string w.calls (key ∷ []))) (
          Distinct-append (called w) (key_string key) (owned.listed (key_string key) ∙ ap is_some e)
            owned.distinct);
    }

    -- What one call does.
    record Given (key : SaleArtworkKey) (w : Wrapper P) (r : P × Wrapper P) : Type 0 where
      own : Own r.0 key
      owned : IsOwned r.1
      is_called : includes (called r.1) (key_string key) ≡ true
      still_called : (s : String) → includes (called w) s ≡ true → includes (called r.1) s ≡ true

    get_promise-Given :
        (key : SaleArtworkKey) (w : Wrapper P)
        → has_no_dash key.sale_id ≡ true
        → IsOwned w
        → Given key w (get_promise load key w)
    unfolding get_promise after_miss
    get_promise-Given key w plain owned =
        elim (Option-cases (cached (key_string key) w.promise_cache)) [
          | inl e ↦
              rw (e, get_promise)
                (record {
                  own = owns w.calls key;
                  owned = after_miss-IsOwned key w plain e owned;
                  is_called =
                      called-after_miss key w (key_string key)
                      ∙ ground (arith, eq_iff (key_string key) (key_string key));
                  still_called = λ s h. called-after_miss key w s ∙ rw h refl;
                })
          | inr (p, e) ↦
              let (k, k_plain, same, own) =
                cached-own (key_string key) p w.promise_cache owned.entries e in
              rw (e, get_promise)
                (record {
                  own =
                      subst (λ (j : SaleArtworkKey). Own p j)
                        (key_string_inj k key k_plain plain same) own;
                  owned = owned;
                  is_called = owned.listed (key_string key) ∙ ap is_some e;
                  still_called = λ s h. h;
                })
        ]

    called_last :
        (keys : List SaleArtworkKey) (w : Wrapper P) (s : String)
        → All (λ (k : SaleArtworkKey). has_no_dash k.sale_id ≡ true) keys
        → IsOwned w
        → includes (called w) s ≡ true
        → includes (called (get_promises load keys w).1) s ≡ true
    called_last [] w s plain owned h = h
    called_last (key ∷ keys) w s plain owned h =
        let given = get_promise-Given key w plain.0 owned in
        called_last keys (get_promise load key w).1 s plain.1 given.owned (given.still_called s h)

    get_promises-Own :
        (keys : List SaleArtworkKey) (w : Wrapper P)
        → All (λ (k : SaleArtworkKey). has_no_dash k.sale_id ≡ true) keys
        → IsOwned w
        → EachOwn Own (get_promises load keys w).0 keys
          × All
              (λ (k : SaleArtworkKey).
                includes (called (get_promises load keys w).1) (key_string k) ≡ true)
              keys
          × IsOwned (get_promises load keys w).1
    get_promises-Own [] w plain owned = (tt, tt, owned)
    get_promises-Own (key ∷ keys) w plain owned =
        let given = get_promise-Given key w plain.0 owned in
        let later = get_promises-Own keys (get_promise load key w).1 plain.1 given.owned in
        (
          (given.own, later.0),
          (
            called_last keys (get_promise load key w).1 (key_string key) plain.1 given.owned
                given.is_called,
            later.1,
          ),
          later.2,
        )

    -- Of any calls of the loader, with sale ids that have no dash, each is given a promise of its own
    -- key; and DataLoader is asked for each of these keys, for none of them twice.
    pub get_promises-once :
        (keys : List SaleArtworkKey)
        → All (λ (k : SaleArtworkKey). has_no_dash k.sale_id ≡ true) keys
        → EachOwn Own (get_promises load keys no_promises).0 keys
          × All
              (λ (k : SaleArtworkKey).
                includes
                  (map key_string (get_promises load keys no_promises).1.calls)
                  (key_string k)
                ≡ true)
              keys
          × Distinct (map key_string (get_promises load keys no_promises).1.calls)
    get_promises-once keys plain =
        let all =
          get_promises-Own keys no_promises plain
            (record { entries = tt; listed = λ s. refl; distinct = tt }) in
        (all.0, all.1, all.2.distinct)
