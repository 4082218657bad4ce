-- ===== src/Batch/Encoded.antt =====
-- Texts of keys that stand for those of JSON.stringify in the tests: different keys have different
-- ones.
use Prim.Native.Char.{code}
use text.Mathlib.TextLemmas.{head-eq_of_cons-eq, tail-eq_of_cons-eq}
use metaphysics.Common.{String, List, [], ◌∷◌, ◌≡◌, refl, ap, arith}
use metaphysics.Batch.{IdWithParams}
use metaphysics.Batch.Returned.{Stringifies}

-- A text before another.
abbrev put_text : String → String → String
put_text String.[] tail = String.◌∷◌ "|" tail
put_text (String.◌∷◌ c s) tail = String.◌∷◌ "." (String.◌∷◌ c (put_text s tail))

abbrev put_params : List (String × String) → String
put_params [] = "!"
put_params ((name, value) ∷ params) =
    String.◌∷◌ "." (put_text name (put_text value (put_params params)))

abbrev pub encoded : IdWithParams → String
encoded key = String.◌∷◌ "{" (put_text key.id (put_params key.params))

put_text_inj : (s t x y : String) → put_text s x ≡ put_text t y → (s ≡ t) × (x ≡ y)
put_text_inj String.[] String.[] x y e = (refl, tail-eq_of_cons-eq e)
put_text_inj String.[] (String.◌∷◌ d t) x y e =
    absurd (omega (arith, ap code (head-eq_of_cons-eq e)))
put_text_inj (String.◌∷◌ c s) String.[] x y e =
    absurd (omega (arith, ap code (head-eq_of_cons-eq e)))
put_text_inj (String.◌∷◌ c s) (String.◌∷◌ d t) x y e =
    let e' = tail-eq_of_cons-eq e in
    let (same, rest) = put_text_inj s t x y (tail-eq_of_cons-eq e') in
    (λ i. String.◌∷◌ (head-eq_of_cons-eq e' i) (same i), rest)

put_params_inj : (ps qs : List (String × String)) → put_params ps ≡ put_params qs → ps ≡ qs
put_params_inj [] [] e = refl
put_params_inj [] (q ∷ qs) e = absurd (omega (arith, ap code (head-eq_of_cons-eq e)))
put_params_inj (p ∷ ps) [] e = absurd (omega (arith, ap code (head-eq_of_cons-eq e)))
put_params_inj ((a, b) ∷ ps) ((c, d) ∷ qs) e =
    let (names, e') = put_text_inj a c _ _ (tail-eq_of_cons-eq e) in
    let (values, e'') = put_text_inj b d _ _ e' in
    let rest = put_params_inj ps qs e'' in λ i. (names i, values i) ∷ rest i

pub encoded-Stringifies : Stringifies encoded
encoded-Stringifies = record {
  inj = λ j k e.
      let (ids, e') = put_text_inj j.id k.id _ _ (tail-eq_of_cons-eq e) in
      let params = put_params_inj j.params k.params e' in
      λ i. record { id = ids i; params = params i };
  object_text = λ k. refl;
}
