-- ===== src/Listing/Wire.antt =====
-- A concrete codec for cursors, which the examples of the list pipeline run with in place of JSON and
-- base64.
use fastapi_viewsets.Prelude.{
  ℕ, zero, suc, Text, [], ◌∷◌, ◌++◌, length, take, drop, Bool, true, false, Option, none, some, ◌≡◌,
  refl, ap, ◌∙◌,
}
use fastapi_viewsets.Listing.Values.{Value, null, pos, negsuc, str, Record}
use fastapi_viewsets.Listing.Cursors.{Payload, object, no_object, Codec}
use fastapi_viewsets.Listing.Requests.{IsCodec}

-- Each writer puts its value before the text that follows it, and each reader takes it off again.
abbrev put_text : Text → Text → Text
put_text s rest = length s ∷ s ++ rest

abbrev get_text : Text → Text × Text
get_text [] = ([], [])
get_text (n ∷ rest) = (take n rest, drop n rest)

take-length : (s rest : Text) → take (length s) (s ++ rest) ≡ s
take-length [] rest = refl
take-length (c ∷ s) rest = ap (λ t. c ∷ t) (take-length s rest)

drop-length : (s rest : Text) → drop (length s) (s ++ rest) ≡ rest
drop-length [] rest = refl
drop-length (c ∷ s) rest = drop-length s rest

get_text-put : (s rest : Text) → get_text (put_text s rest) ≡ (s, rest)
get_text-put s rest = λ i. (take-length s rest i, drop-length s rest i)

abbrev put_value : Value → Text → Text
put_value null rest = 0 ∷ rest
put_value (pos n) rest = 1 ∷ n ∷ rest
put_value (negsuc n) rest = 2 ∷ n ∷ rest
put_value (str s) rest = 3 ∷ put_text s rest

abbrev in_str : Text × Text → Value × Text
in_str (s, rest) = (str s, rest)

abbrev get_value : Text → Value × Text
get_value (suc zero ∷ n ∷ rest) = (pos n, rest)
get_value (suc (suc zero) ∷ n ∷ rest) = (negsuc n, rest)
get_value (suc (suc (suc zero)) ∷ rest) = in_str (get_text rest)
get_value (_ ∷ rest) = (null, rest)
get_value [] = (null, [])

get_value-put : (v : Value) (rest : Text) → get_value (put_value v rest) ≡ (v, rest)
get_value-put null rest = refl
get_value-put (pos n) rest = refl
get_value-put (negsuc n) rest = refl
get_value-put (str s) rest = ap in_str (get_text-put s rest)

abbrev put_entries : Record → Text → Text
put_entries [] rest = rest
put_entries ((name, v) ∷ entries) rest = put_text name (put_value v (put_entries entries rest))

abbrev get_entries : ℕ → Text → Record × Text
get_entries zero rest = ([], rest)
get_entries (suc n) rest =
    let name = get_text rest in
    let v = get_value name.1 in let more = get_entries n v.1 in ((name.0, v.0) ∷ more.0, more.1)

get_entries-put :
    (entries : Record) (rest : Text)
    → get_entries (length entries) (put_entries entries rest) ≡ (entries, rest)
get_entries-put [] rest = refl
get_entries-put ((name, v) ∷ entries) rest =
    let n = length entries in
    let tail = put_entries entries rest in
    let from_text : Text × Text → Record × Text =
      λ t. let v = get_value t.1 in let more = get_entries n v.1 in ((t.0, v.0) ∷ more.0, more.1) in
    let from_value : Value × Text → Record × Text =
      λ v. let more = get_entries n v.1 in ((name, v.0) ∷ more.0, more.1) in
    let from_more : Record × Text → Record × Text = λ more. ((name, v) ∷ more.0, more.1) in
    ap from_text (get_text-put name (put_value v tail))
    ∙ ap from_value (get_value-put v tail)
    ∙ ap from_more (get_entries-put entries rest)

abbrev bit : Bool → ℕ
bit true = 1
bit false = 0

abbrev truth : ℕ → Bool
truth zero = false
truth (suc n) = true

truth-bit : (b : Bool) → truth (bit b) ≡ b
truth-bit true = refl
truth-bit false = refl

abbrev put_query : Option Text → Text
put_query none = 0 ∷ []
put_query (some q) = 1 ∷ put_text q []

abbrev get_query : Text → Option Text
get_query (suc zero ∷ rest) = some (get_text rest).0
get_query _ = none

get_query-put : (q : Option Text) → get_query (put_query q) ≡ q
get_query-put none = refl
get_query-put (some q) = ap (λ r. some r.0) (get_text-put q [])

abbrev dumps : Payload → Text
dumps no_object = 0 ∷ []
dumps (object none b i q) = 1 ∷ bit b ∷ bit i ∷ put_query q
dumps (object (some p) b i q) = 2 ∷ bit b ∷ bit i ∷ length p ∷ put_entries p (put_query q)

abbrev with_query : Bool → Bool → Record × Text → Payload
with_query b i (p, rest) = object (some p) b i (get_query rest)

abbrev loads : Text → Option Payload
loads (zero ∷ _) = some no_object
loads (suc zero ∷ b ∷ i ∷ rest) = some (object none (truth b) (truth i) (get_query rest))
loads (suc (suc zero) ∷ b ∷ i ∷ n ∷ rest) =
    some (with_query (truth b) (truth i) (get_entries n rest))
loads _ = none

loads-dumps : (payload : Payload) → loads (dumps payload) ≡ some payload
loads-dumps no_object = refl
loads-dumps (object none b i q) = rw (truth-bit b, truth-bit i, get_query-put q) refl
loads-dumps (object (some p) b i q) =
    rw (truth-bit b, truth-bit i, get_entries-put p (put_query q), get_query-put q) refl

abbrev pub wire : Codec
wire = record { dumps = dumps; loads = loads }

pub wire-IsCodec : IsCodec wire
wire-IsCodec = record { loads_dumps = loads-dumps; loads_empty = refl }
