-- ===== src/MyBids/Asked.antt =====
-- Which sales of a user are asked for.
use mathlib.Core.Bool.{false≢true}
use mathlib.Core.List.{nil≢cons}
use mathlib.Core.Option.{some-injective, none-ne-some}
use metaphysics.Common.{
  All, Bool-cases, Bool, any, or_else, get_elem?, includes, uniq, uniq_onto, str_eq, eq_iff, arith,
  ◌||◌, String, Option, some, true, false, sym, Option-cases, List, [], ◌∷◌, ◌++◌, map, ◌≡◌, refl,
  ap, ◌∙◌, inl, inr,
}
use metaphysics.Common.Uniq.{keys_by}
use metaphysics.MyBids.{
  GravityLotStanding, LotStanding, Sale, SaleArtwork, format_gravity_lot_standing,
}
use metaphysics.MyBids.Resolver.{all_of, combined_sale_ids}

-- The user has bid in the sale with the id, as Causality or Gravity tells, is registered for it, or
-- watches a lot of which it is the first sale.
abbrev pub is_of_user :
    List LotStanding → List GravityLotStanding → List Sale → List SaleArtwork → String → Bool
is_of_user from_causality from_gravity registered watched id =
    any (λ (s : LotStanding). str_eq s.lot.sale_id id) from_causality
    || (any (λ (s : GravityLotStanding). str_eq s.sale.database_id id) from_gravity
        || (any (λ (s : Sale). str_eq s.database_id id) registered
            || any
                (λ (a : SaleArtwork).
                  str_eq (or_else (get_elem? a.artwork_sale_ids 0) "undefined") id)
                watched))

includes-append :
    (xs ys : List String) (x : String) → includes (xs ++ ys) x ≡ (includes xs x || includes ys x)
includes-append [] ys x = refl
includes-append (y ∷ xs) ys x = ground (arith, includes-append xs ys x)

or_assoc : (a b c : Bool) → ((a || (b || false)) || c) ≡ (a || (b || c))
or_assoc a b c = ground arith

includes-onto :
    (seen xs : List String) (x : String)
    → includes (uniq_onto seen xs) x ≡ (includes seen x || includes xs x)
includes-onto seen [] x = ground arith
includes-onto seen (y ∷ ys) x = elim (Bool-cases (includes seen y)) [
  | inl e ↦ rw e (
      includes-onto seen ys x ∙ elim (Bool-cases (str_eq y x)) [
        | inl s ↦
            let known : includes seen x ≡ true =
              ap (λ (t : String). includes seen t) (sym ((eq_iff y x).0 s)) ∙ e in
            rw known refl
        | inr s ↦ rw s refl
      ])
  | inr e ↦ rw e (
      includes-onto (seen ++ (y ∷ [])) ys x
      ∙ (ap (λ (b : Bool). b || includes ys x) (includes-append seen (y ∷ []) x)
          ∙ or_assoc (includes seen x) (str_eq y x) (includes ys x)))
]

includes-uniq : (xs : List String) (x : String) → includes (uniq xs) x ≡ includes xs x
includes-uniq xs x = includes-onto [] xs x

includes-map :
    {A : Type 0} (f : A → String) (xs : List A) (x : String)
    → includes (map f xs) x ≡ any (λ (a : A). str_eq (f a) x) xs
includes-map f [] x = refl
includes-map f (y ∷ xs) x = ap (λ (b : Bool). str_eq (f y) x || b) (includes-map f xs x)

any-map :
    {A B : Type 0} (p : B → Bool) (f : A → B) (xs : List A)
    → any p (map f xs) ≡ any (λ (a : A). p (f a)) xs
any-map p f [] = refl
any-map p f (y ∷ xs) = ap (λ (b : Bool). p (f y) || b) (any-map p f xs)

any-append :
    {A : Type 0} (p : A → Bool) (xs ys : List A) → any p (xs ++ ys) ≡ (any p xs || any p ys)
any-append p [] ys = refl
any-append p (x ∷ xs) ys = ground (arith, any-append p xs ys)

or_regroup : (a b c : Bool) → ((a || b) || c) ≡ (a || (b || c))
or_regroup a b c = ground arith

-- The ids that are asked for.
pub combined-asked :
    (from_causality : List LotStanding) (from_gravity : List GravityLotStanding)
    (registered : List Sale) (watched : List SaleArtwork) (id : String)
    → includes
        (combined_sale_ids
          (from_causality ++ map format_gravity_lot_standing from_gravity)
          registered
          watched)
        id
      ≡ is_of_user from_causality from_gravity registered watched id
unfolding combined_sale_ids format_gravity_lot_standing
combined-asked from_causality from_gravity registered watched id =
    simp (includes-onto, includes-append, includes-map, any-append, any-map, or_regroup)

-- A list of answers has that to each request.
pub all_of-includes :
    (f : String → Option Sale) (ids : List String) (sales : List Sale) (id : String) (sale : Sale)
    → all_of f ids ≡ some sales
    → includes ids id ≡ true
    → f id ≡ some sale
    → includes (keys_by (λ (s : Sale). s.id) sales) sale.id ≡ true
all_of-includes f [] sales id sale h k e = absurd (false≢true k)
all_of-includes f (i ∷ ids) sales id sale h k e = elim (Option-cases (f i)) [
  | inl n ↦ absurd (none-ne-some _ (rw n at h))
  | inr (y, n) ↦ elim (Option-cases (all_of f ids)) [
    | inl m ↦ absurd (none-ne-some _ (rw (n, m) at h))
    | inr (ys, m) ↦
        let list : y ∷ ys ≡ sales = some-injective _ _ (rw (n, m) at h) in
        rw (← list) (elim (Bool-cases (str_eq i id)) [
          | inl s ↦
              let own : y ≡ sale = some-injective _ _ (sym n ∙ (ap f ((eq_iff i id).0 s) ∙ e)) in
              ground (arith, eq_iff y.id sale.id, ap (λ (t : Sale). t.id) own)
          | inr s ↦
              let later = all_of-includes f ids ys id sale m (rw s at k) e in
              rw later (ground arith)
        ])
  ]
]

-- Each answer is that to a request.
pub all_of-asked :
    (f : String → Option Sale) (wanted : String → Bool) (ids : List String) (sales : List Sale)
    → ((id : String) → includes ids id ≡ true → wanted id ≡ true)
    → all_of f ids ≡ some sales
    → All (λ (s : Sale). (id : String) × (wanted id ≡ true) × (f id ≡ some s)) sales
all_of-asked f wanted [] [] w h = tt
all_of-asked f wanted [] (s ∷ sales) w h = absurd (nil≢cons (some-injective _ _ h))
all_of-asked f wanted (i ∷ ids) sales w h = elim (Option-cases (f i)) [
  | inl n ↦ absurd (none-ne-some _ (rw n at h))
  | inr (y, n) ↦ elim (Option-cases (all_of f ids)) [
    | inl m ↦ absurd (none-ne-some _ (rw (n, m) at h))
    | inr (ys, m) ↦
        let list : y ∷ ys ≡ sales = some-injective _ _ (rw (n, m) at h) in
        rw (← list) (
          (i, w i (ground (arith, eq_iff i i)), n),
          all_of-asked f wanted ids ys (λ id k. w id (rw k (ground arith))) m,
        )
  ]
]
