-- ===== src/StringMap/Render/Injective.antt =====
-- When the text of String of pkg/stringmap/stringmap.go tells two maps apart: the code writes a value
-- between quotes and escapes nothing.
use Prim.Native.Char.{code}
use text.Mathlib.TextLemmas.{
  append_assoc, nil-append, cons-append, append_cancel_left, append_cancel_right, nil≢cons,
  append-eq-nil_iff, head-eq_of_cons-eq, tail-eq_of_cons-eq, append-nil,
}
use slo_exporter.Prelude.{
  String, Bool, ◌≡◌, refl, sym, ap, ◌∙◌, ◌&&◌, not, eq_iff, true, none, some, List, [], ◌∷◌, concat,
  arith, inl, inr, is_some, contains, All, Option-cases, nat_eq, if◌then◌else◌,
}
use slo_exporter.Prelude.Dict.{lookup}
use slo_exporter.StringMap.{StringMap, sorted_keys, item, items, join, to_string}
use slo_exporter.StringMap.Sorted.{contains-sorted_keys}

-- The text holds no quote.
abbrev pub no_quote : String → Bool
no_quote String.[] = true
no_quote (String.◌∷◌ c s) = not (nat_eq (code c) 34) && no_quote s

-- Texts up to the first quote are equal where the whole texts are.
quote_split :
    (a b r t : String)
    → no_quote a ≡ true
    → no_quote b ≡ true
    → concat a (String.◌∷◌ "\"" r) ≡ concat b (String.◌∷◌ "\"" t)
    → (a ≡ b) × (r ≡ t)
quote_split String.[] String.[] r t h k e =
    (refl, tail-eq_of_cons-eq (sym (nil-append _) ∙ e ∙ nil-append _))
quote_split String.[] (String.◌∷◌ d b) r t h k e =
    absurd
      (ground (arith, ap code (head-eq_of_cons-eq (sym (nil-append _) ∙ e ∙ cons-append d b _))))
quote_split (String.◌∷◌ c a) String.[] r t h k e =
    absurd
      (ground (arith, ap code (head-eq_of_cons-eq (sym (cons-append c a _) ∙ e ∙ nil-append _))))
quote_split (String.◌∷◌ c a) (String.◌∷◌ d b) r t h k e =
    let whole = sym (cons-append c a _) ∙ e ∙ cons-append d b _ in
    let heads : c ≡ d = head-eq_of_cons-eq whole in
    let (tails, rests) =
      quote_split a b r t (ground arith) (ground arith) (tail-eq_of_cons-eq whole) in
    (cc, rests)

-- The items of a list of entries, joined as the code joins them.
items_of : List (String × String) → List String
items_of [] = []
items_of ((k, v) ∷ ps) = item k v ∷ items_of ps

-- What follows an item.
rest_of : List (String × String) → String
rest_of [] = ""
rest_of (p ∷ ps) = concat "," (join "," (items_of (p ∷ ps)))

pub concat-quote : (z : String) → concat "\"" z ≡ String.◌∷◌ "\"" z
concat-quote z = cons-append "\"" "" z ∙ ap (String.◌∷◌ "\"") (nil-append z)

pub concat-equals : (z : String) → concat "=" z ≡ String.◌∷◌ "=" z
concat-equals z = cons-append "=" "" z ∙ ap (String.◌∷◌ "=") (nil-append z)

pub concat-opening : (z : String) → concat "=\"" z ≡ String.◌∷◌ "=" (String.◌∷◌ "\"" z)
concat-opening z = cons-append "=" "\"" z ∙ ap (String.◌∷◌ "=") (concat-quote z)

pub ruleset join_laws = (append_assoc, concat-quote, concat-equals, concat-opening, append-nil)

join_cons :
    (k v : String) (ps : List (String × String))
    → join "," (items_of ((k, v) ∷ ps))
      ≡ concat (concat k "=") (String.◌∷◌ "\"" (concat v (String.◌∷◌ "\"" (rest_of ps))))
unfolding items_of rest_of join item
join_cons k v [] = simp join_laws
join_cons k v ((k', v') ∷ ps) = simp append_assoc (simp join_laws)

NoQuotes : List (String × String) → Type 0
NoQuotes = All (λ p. (no_quote p.0 ≡ true) × (no_quote p.1 ≡ true))

no_quote-concat :
    (a b : String) → no_quote a ≡ true → no_quote b ≡ true → no_quote (concat a b) ≡ true
no_quote-concat String.[] b h k = rw nil-append k
no_quote-concat (String.◌∷◌ c a) b h k = rw cons-append (ground (arith, no_quote-concat a b))

-- Equal joined texts have equal first entries, and equal texts after them.
first_entry :
    (k v k' v' : String) (ps qs : List (String × String))
    → NoQuotes ((k, v) ∷ ps)
    → NoQuotes ((k', v') ∷ qs)
    → join "," (items_of ((k, v) ∷ ps)) ≡ join "," (items_of ((k', v') ∷ qs))
    → (k ≡ k') × (v ≡ v') × (rest_of ps ≡ rest_of qs)
unfolding NoQuotes
first_entry k v k' v' ps qs h h' e =
    let (left, right) =
      quote_split (concat k "=") (concat k' "=") _ _ (no_quote-concat k "=" h.0.0 refl)
        (no_quote-concat k' "=" h'.0.0 refl) (sym (join_cons k v ps) ∙ e ∙ join_cons k' v' qs) in
    let (same_value, rests) = quote_split v v' _ _ h.0.1 h'.0.1 right in
    (append_cancel_right k k' "=" left, same_value, rests)

nonempty : (k v : String) (ps : List (String × String)) → join "," (items_of ((k, v) ∷ ps)) ≡ "" → ⊥
nonempty k v ps e =
    let whole = append-eq-nil_iff.0 (sym (join_cons k v ps) ∙ e) in nil≢cons (sym whole.1)

pub concat-comma : (z : String) → concat "," z ≡ String.◌∷◌ "," z
concat-comma z = cons-append "," "" z ∙ ap (String.◌∷◌ ",") (nil-append z)

rest_of-injective :
    (ps qs : List (String × String)) → NoQuotes ps → NoQuotes qs → rest_of ps ≡ rest_of qs → ps ≡ qs
unfolding NoQuotes rest_of
rest_of-injective [] [] h h' e = refl
rest_of-injective [] (q ∷ qs) h h' e = absurd (nil≢cons (e ∙ concat-comma _))
rest_of-injective (p ∷ ps) [] h h' e = absurd (nil≢cons (sym e ∙ concat-comma _))
rest_of-injective ((k, v) ∷ ps) ((k', v') ∷ qs) h h' e =
    let (ks, vs, rests) = first_entry k v k' v' ps qs h h' (append_cancel_left "," _ _ e) in
    let tails = rest_of-injective ps qs h.1 h'.1 rests in cc

join-injective :
    (ps qs : List (String × String))
    → NoQuotes ps
    → NoQuotes qs
    → join "," (items_of ps) ≡ join "," (items_of qs)
    → ps ≡ qs
unfolding NoQuotes join items_of
join-injective [] [] h h' e = refl
join-injective [] ((k, v) ∷ qs) h h' e = absurd (nonempty k v qs (sym e))
join-injective ((k, v) ∷ ps) [] h h' e = absurd (nonempty k v ps e)
join-injective ((k, v) ∷ ps) ((k', v') ∷ qs) h h' e =
    let (ks, vs, rests) = first_entry k v k' v' ps qs h h' e in
    let tails = rest_of-injective ps qs h.1 h'.1 rests in cc

-- The entries that String visits.
entries : StringMap → List String → List (String × String)
entries m [] = []
entries m (key ∷ ks) =
    let rest = entries m ks in elim (lookup key m) [ none ↦ rest | some v ↦ (key, v) ∷ rest ]

items-entries :
    (m : StringMap) (ks : List String)
    → All (λ k. is_some (lookup k m) ≡ true) ks
    → items m ks ≡ items_of (entries m ks)
unfolding items entries items_of
items-entries m [] h = refl
items-entries m (k ∷ ks) h = elim (Option-cases (lookup k m)) [
  | inl e ↦ absurd (ground arith)
  | inr (v, e) ↦ rw (e, items, entries) (ap (◌∷◌ (item k v)) (items-entries m ks h.1))
]

lookup-entries :
    (j : String) (m : StringMap) (ks : List String)
    → lookup j (entries m ks) ≡ (if contains j ks then lookup j m else none)
unfolding entries lookup
lookup-entries j m [] = refl
lookup-entries j m (k ∷ ks) = ground (arith, lookup-entries j m ks, eq_iff k j)

-- Every key and every value of the map holds no quote.
unfoldable pub HasNoQuotes : StringMap → Type 0
HasNoQuotes m = (k v : String) → lookup k m ≡ some v → (no_quote k ≡ true) × (no_quote v ≡ true)

entries-NoQuotes : (m : StringMap) (ks : List String) → HasNoQuotes m → NoQuotes (entries m ks)
unfolding entries NoQuotes HasNoQuotes
entries-NoQuotes m [] h = tt
entries-NoQuotes m (k ∷ ks) h = elim (Option-cases (lookup k m)) [
  | inl e ↦ rw (e, entries) (entries-NoQuotes m ks h)
  | inr (v, e) ↦ rw (e, entries) (h k v e, entries-NoQuotes m ks h)
]

present_everywhere :
    (m : StringMap) (ks : List String)
    → ((j : String) → contains j ks ≡ true → is_some (lookup j m) ≡ true)
    → All (λ k. is_some (lookup k m) ≡ true) ks
present_everywhere m [] h = tt
present_everywhere m (k ∷ ks) h = (
  h k (ground (arith, eq_iff k k)),
  present_everywhere m ks (λ j c. h j (ground (arith, eq_iff k j))),
)

pub sorted_keys_present : (m : StringMap) → All (λ k. is_some (lookup k m) ≡ true) (sorted_keys m)
sorted_keys_present m =
    present_everywhere m (sorted_keys m) (λ j c. ground (arith, contains-sorted_keys j m))

to_string-entries : (m : StringMap) → to_string m ≡ join "," (items_of (entries m (sorted_keys m)))
unfolding to_string
to_string-entries m = ap (join ",") (items-entries m (sorted_keys m) (sorted_keys_present m))

lookup-sorted_entries :
    (j : String) (m : StringMap) → lookup j (entries m (sorted_keys m)) ≡ lookup j m
lookup-sorted_entries j m =
    ground (arith, lookup-entries j m (sorted_keys m), contains-sorted_keys j m)

-- Maps without quotes in their keys and values are told apart: with one text, they have the same
-- value at every key.
pub to_string-injective :
    (m n : StringMap) (j : String)
    → HasNoQuotes m
    → HasNoQuotes n
    → to_string m ≡ to_string n
    → lookup j m ≡ lookup j n
to_string-injective m n j h h' e =
    let same : entries m (sorted_keys m) ≡ entries n (sorted_keys n) =
      join-injective _ _ (entries-NoQuotes m (sorted_keys m) h)
        (entries-NoQuotes n (sorted_keys n) h')
        (sym (to_string-entries m) ∙ e ∙ to_string-entries n) in
    sym (lookup-sorted_entries j m) ∙ ap (lookup j) same ∙ lookup-sorted_entries j n
