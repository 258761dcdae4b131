-- ===== src/Listing/Keys.antt =====
-- The comparison in sort order of cursor.py orders rows totally where each field holds one kind of
-- value: integers or texts, None among them.
use fastapi_viewsets.Prelude.{ℕ, Text, ◌≡◌, refl, [], ◌∷◌, Bool, true, false, arith, sym, ap}
use fastapi_viewsets.Listing.Values.{
  Value, null, pos, negsuc, str, Ordering, less, equal, greater, compare_ℕ, compare_text,
  compare_values, lex,
}
use fastapi_viewsets.Listing.Order.{opposite, compare_in_order}
use fastapi_viewsets.Listing.Sorting.{Agrees}

-- Laws of orderings.
pub opposite-lex : (a b : Ordering) → opposite (lex a b) ≡ lex (opposite a) (opposite b)
opposite-lex less b = refl
opposite-lex equal b = refl
opposite-lex greater b = refl

Agrees-opposite : (a b c : Ordering) → Agrees a b c → Agrees (opposite a) (opposite b) (opposite c)
Agrees-opposite less less c h = rw h refl
Agrees-opposite less equal c h = rw h refl
Agrees-opposite less greater c h = tt
Agrees-opposite equal less c h = rw h refl
Agrees-opposite equal equal c h = rw h refl
Agrees-opposite equal greater c h = rw h refl
Agrees-opposite greater less c h = tt
Agrees-opposite greater equal c h = rw h refl
Agrees-opposite greater greater c h = rw h refl

pub Agrees-lex :
    (a b c x y z : Ordering) → Agrees a b c → Agrees x y z → Agrees (lex a x) (lex b y) (lex c z)
Agrees-lex less less c x y z h k = rw h refl
Agrees-lex less equal c x less z h k = rw h refl
Agrees-lex less equal c x equal z h k = rw h refl
Agrees-lex less equal c x greater z h k = tt
Agrees-lex less greater c x y z h k = tt
Agrees-lex equal less c less y z h k = rw h refl
Agrees-lex equal less c equal y z h k = rw h refl
Agrees-lex equal less c greater y z h k = tt
Agrees-lex equal equal c x y z h k = rw h k
Agrees-lex equal greater c less y z h k = tt
Agrees-lex equal greater c equal y z h k = rw h refl
Agrees-lex equal greater c greater y z h k = rw h refl
Agrees-lex greater less c x y z h k = tt
Agrees-lex greater equal c x less z h k = tt
Agrees-lex greater equal c x equal z h k = rw h refl
Agrees-lex greater equal c x greater z h k = rw h refl
Agrees-lex greater greater c x y z h k = rw h refl

Agrees-less : (b : Ordering) → Agrees less b less
Agrees-less less = refl
Agrees-less equal = refl
Agrees-less greater = tt

Agrees-greater : (a : Ordering) → Agrees a greater greater
Agrees-greater less = tt
Agrees-greater equal = refl
Agrees-greater greater = refl

compare_ℕ-turn : (a b : ℕ) → compare_ℕ b a ≡ opposite (compare_ℕ a b)
compare_ℕ-turn a b = ground arith

compare_ℕ-Agrees : (a b c : ℕ) → Agrees (compare_ℕ a b) (compare_ℕ b c) (compare_ℕ a c)
compare_ℕ-Agrees a b c = ground arith

compare_ℕ-equal : (a b : ℕ) → compare_ℕ a b ≡ equal → a ≡ b
compare_ℕ-equal a b h = ground arith

compare_text-turn : (a b : Text) → compare_text b a ≡ opposite (compare_text a b)
unfolding compare_text
compare_text-turn [] [] = refl
compare_text-turn [] (d ∷ ds) = refl
compare_text-turn (c ∷ cs) [] = refl
compare_text-turn (c ∷ cs) (d ∷ ds) =
    rw
      (
        compare_ℕ-turn c d,
        compare_text-turn cs ds,
        opposite-lex (compare_ℕ c d) (compare_text cs ds),
      )
      refl

compare_text-Agrees :
    (a b c : Text) → Agrees (compare_text a b) (compare_text b c) (compare_text a c)
unfolding compare_text
compare_text-Agrees [] [] [] = refl
compare_text-Agrees [] [] (e ∷ es) = refl
compare_text-Agrees [] (d ∷ ds) [] = tt
compare_text-Agrees [] (d ∷ ds) (e ∷ es) = Agrees-less (lex (compare_ℕ d e) (compare_text ds es))
compare_text-Agrees (c ∷ cs) [] [] = refl
compare_text-Agrees (c ∷ cs) [] (e ∷ es) = tt
compare_text-Agrees (c ∷ cs) (d ∷ ds) [] = Agrees-greater (lex (compare_ℕ c d) (compare_text cs ds))
compare_text-Agrees (c ∷ cs) (d ∷ ds) (e ∷ es) =
    Agrees-lex (compare_ℕ c d) (compare_ℕ d e) (compare_ℕ c e) (compare_text cs ds)
      (compare_text ds es) (compare_text cs es) (compare_ℕ-Agrees c d e)
      (compare_text-Agrees cs ds es)

compare_text-equal : (a b : Text) → compare_text a b ≡ equal → a ≡ b
unfolding compare_text
compare_text-equal [] [] h = refl
compare_text-equal [] (d ∷ ds) h = ground arith
compare_text-equal (c ∷ cs) [] h = ground arith
compare_text-equal (c ∷ cs) (d ∷ ds) h =
    ground (arith, compare_ℕ-equal c d, compare_text-equal cs ds)

-- The kinds of values that a field holds, None beside them.
pub data Kind : Type 0 where
  numbers texts : Kind

pub data HasKind : Kind → Value → Type 0 where
  absent : {kind : Kind} → HasKind kind null
  natural : (n : ℕ) → HasKind numbers (pos n)
  negative : (n : ℕ) → HasKind numbers (negsuc n)
  textual : (s : Text) → HasKind texts (str s)

pub compare_in_order-down :
    (a b : Value) (nulls_first : Bool)
    → compare_in_order a b true nulls_first ≡ opposite (compare_in_order a b false nulls_first)
unfolding compare_in_order compare_values
compare_in_order-down null null n = refl
compare_in_order-down null (pos b) n = refl
compare_in_order-down null (negsuc b) n = refl
compare_in_order-down null (str b) n = refl
compare_in_order-down (pos a) null n = refl
compare_in_order-down (pos a) (pos b) n = refl
compare_in_order-down (pos a) (negsuc b) n = refl
compare_in_order-down (pos a) (str b) n = refl
compare_in_order-down (negsuc a) null n = refl
compare_in_order-down (negsuc a) (pos b) n = refl
compare_in_order-down (negsuc a) (negsuc b) n = refl
compare_in_order-down (negsuc a) (str b) n = refl
compare_in_order-down (str a) null n = refl
compare_in_order-down (str a) (pos b) n = refl
compare_in_order-down (str a) (negsuc b) n = refl
compare_in_order-down (str a) (str b) n = refl

compare_up-turn :
    (a b : Value) (nulls_first : Bool)
    → compare_in_order b a false nulls_first ≡ opposite (compare_in_order a b false nulls_first)
unfolding compare_in_order compare_values
compare_up-turn null null n = refl
compare_up-turn null (pos b) n = ground arith
compare_up-turn null (negsuc b) n = ground arith
compare_up-turn null (str b) n = ground arith
compare_up-turn (pos a) null n = ground arith
compare_up-turn (pos a) (pos b) n = compare_ℕ-turn a b
compare_up-turn (pos a) (negsuc b) n = refl
compare_up-turn (pos a) (str b) n = refl
compare_up-turn (negsuc a) null n = ground arith
compare_up-turn (negsuc a) (pos b) n = refl
compare_up-turn (negsuc a) (negsuc b) n = compare_ℕ-turn b a
compare_up-turn (negsuc a) (str b) n = refl
compare_up-turn (str a) null n = ground arith
compare_up-turn (str a) (pos b) n = refl
compare_up-turn (str a) (negsuc b) n = refl
compare_up-turn (str a) (str b) n = compare_text-turn a b

-- Swapping the sides of the comparison reverses its answer, in either direction.
pub compare_in_order-turn :
    (a b : Value) (descending nulls_first : Bool)
    → compare_in_order b a descending nulls_first
      ≡ opposite (compare_in_order a b descending nulls_first)
compare_in_order-turn a b false n = compare_up-turn a b n
compare_in_order-turn a b true n =
    rw (compare_in_order-down b a n, compare_in_order-down a b n, compare_up-turn a b n) refl

Agrees-ℕ_down : (a b c : ℕ) → Agrees (compare_ℕ b a) (compare_ℕ c b) (compare_ℕ c a)
Agrees-ℕ_down a b c = ground arith

compare_up-Agrees :
    (kind : Kind) (a b c : Value) (nulls_first : Bool)
    → HasKind kind a
    → HasKind kind b
    → HasKind kind c
    → Agrees
        (compare_in_order a b false nulls_first)
        (compare_in_order b c false nulls_first)
        (compare_in_order a c false nulls_first)
unfolding compare_in_order compare_values
compare_up-Agrees _ _ _ _ n absent absent absent = ground arith
compare_up-Agrees _ _ _ _ n absent absent (natural c) = ground arith
compare_up-Agrees _ _ _ _ n absent absent (negative c) = ground arith
compare_up-Agrees _ _ _ _ n absent (natural b) absent = ground arith
compare_up-Agrees _ _ _ _ n absent (natural b) (natural c) = ground arith
compare_up-Agrees _ _ _ _ n absent (natural b) (negative c) = ground arith
compare_up-Agrees _ _ _ _ n absent (negative b) absent = ground arith
compare_up-Agrees _ _ _ _ n absent (negative b) (natural c) = ground arith
compare_up-Agrees _ _ _ _ n absent (negative b) (negative c) = ground arith
compare_up-Agrees _ _ _ _ n (natural a) absent absent = ground arith
compare_up-Agrees _ _ _ _ n (natural a) absent (natural c) = ground arith
compare_up-Agrees _ _ _ _ n (natural a) absent (negative c) = ground arith
compare_up-Agrees _ _ _ _ n (natural a) (natural b) absent = ground arith
compare_up-Agrees _ _ _ _ n (natural a) (natural b) (natural c) = compare_ℕ-Agrees a b c
compare_up-Agrees _ _ _ _ n (natural a) (natural b) (negative c) = ground arith
compare_up-Agrees _ _ _ _ n (natural a) (negative b) absent = ground arith
compare_up-Agrees _ _ _ _ n (natural a) (negative b) (natural c) = ground arith
compare_up-Agrees _ _ _ _ n (natural a) (negative b) (negative c) = ground arith
compare_up-Agrees _ _ _ _ n (negative a) absent absent = ground arith
compare_up-Agrees _ _ _ _ n (negative a) absent (natural c) = ground arith
compare_up-Agrees _ _ _ _ n (negative a) absent (negative c) = ground arith
compare_up-Agrees _ _ _ _ n (negative a) (natural b) absent = ground arith
compare_up-Agrees _ _ _ _ n (negative a) (natural b) (natural c) = ground arith
compare_up-Agrees _ _ _ _ n (negative a) (natural b) (negative c) = ground arith
compare_up-Agrees _ _ _ _ n (negative a) (negative b) absent = ground arith
compare_up-Agrees _ _ _ _ n (negative a) (negative b) (natural c) = ground arith
compare_up-Agrees _ _ _ _ n (negative a) (negative b) (negative c) = Agrees-ℕ_down a b c
compare_up-Agrees _ _ _ _ n absent absent (textual c) = ground arith
compare_up-Agrees _ _ _ _ n absent (textual b) absent = ground arith
compare_up-Agrees _ _ _ _ n absent (textual b) (textual c) = ground arith
compare_up-Agrees _ _ _ _ n (textual a) absent absent = ground arith
compare_up-Agrees _ _ _ _ n (textual a) absent (textual c) = ground arith
compare_up-Agrees _ _ _ _ n (textual a) (textual b) absent = ground arith
compare_up-Agrees _ _ _ _ n (textual a) (textual b) (textual c) = compare_text-Agrees a b c

-- Two steps in the same direction compare as one, for values of one kind.
pub compare_in_order-Agrees :
    (kind : Kind) (a b c : Value) (descending nulls_first : Bool)
    → HasKind kind a
    → HasKind kind b
    → HasKind kind c
    → Agrees
        (compare_in_order a b descending nulls_first)
        (compare_in_order b c descending nulls_first)
        (compare_in_order a c descending nulls_first)
compare_in_order-Agrees kind a b c false n ha hb hc = compare_up-Agrees kind a b c n ha hb hc
compare_in_order-Agrees kind a b c true n ha hb hc =
    rw (compare_in_order-down a b n, compare_in_order-down b c n, compare_in_order-down a c n)
      (Agrees-opposite (compare_in_order a b false n) (compare_in_order b c false n)
        (compare_in_order a c false n) (compare_up-Agrees kind a b c n ha hb hc))

compare_up-equal :
    (kind : Kind) (a b : Value) (nulls_first : Bool)
    → HasKind kind a
    → HasKind kind b
    → compare_in_order a b false nulls_first ≡ equal
    → a ≡ b
unfolding compare_in_order compare_values
compare_up-equal _ _ _ n absent absent h = refl
compare_up-equal _ _ _ n absent (natural b) h = ground arith
compare_up-equal _ _ _ n absent (negative b) h = ground arith
compare_up-equal _ _ _ n absent (textual b) h = ground arith
compare_up-equal _ _ _ n (natural a) absent h = ground arith
compare_up-equal _ _ _ n (natural a) (natural b) h = ap pos (compare_ℕ-equal a b h)
compare_up-equal _ _ _ n (natural a) (negative b) h = ground arith
compare_up-equal _ _ _ n (negative a) absent h = ground arith
compare_up-equal _ _ _ n (negative a) (natural b) h = ground arith
compare_up-equal _ _ _ n (negative a) (negative b) h = ap negsuc (sym (compare_ℕ-equal b a h))
compare_up-equal _ _ _ n (textual a) absent h = ground arith
compare_up-equal _ _ _ n (textual a) (textual b) h = ap str (compare_text-equal a b h)

-- Values of one kind that compare equal are equal.
pub compare_in_order-equal :
    (kind : Kind) (a b : Value) (descending nulls_first : Bool)
    → HasKind kind a
    → HasKind kind b
    → compare_in_order a b descending nulls_first ≡ equal
    → a ≡ b
compare_in_order-equal kind a b false n ha hb h = compare_up-equal kind a b n ha hb h
compare_in_order-equal kind a b true n ha hb h =
    compare_up-equal kind a b n ha hb (ground (arith, compare_in_order-down a b n))
