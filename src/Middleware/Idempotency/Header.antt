-- ===== src/Middleware/Idempotency/Header.antt =====
-- `parse_idempotency_key` of fastapi_viewsets/middleware/idempotency.py: a Structured Field string. A text
-- is the list of its code points; `IdempotencyKeyInvalidError` is none.
pub mod Serialized
use mathlib.Core.List.{reverse-append, reverse-reverse, reverse-cons}
use fastapi_viewsets.Prelude.{
  ℕ, ◌≡◌, ◌≢◌, refl, Text, List, [], ◌∷◌, ◌++◌, append_assoc, append-nil, reverse, Option, none,
  some, Bool, true, false, not, ◌&&◌, ◌||◌, leb, nat_beq, if◌then◌else◌, All, ap, sym, ◌∙◌, arith,
  nat_beq_iff, Bool-cases, inl, inr, subst,
}

-- `text[index] in '"\\'`
abbrev pub is_special : ℕ → Bool
is_special c = nat_beq c 34 || nat_beq c 92

-- `" " <= char <= "~"`
abbrev pub is_printable : ℕ → Bool
is_printable c = leb 32 c && leb c 126

-- `value.lstrip(" \t")`
unfoldable pub strip_front : Text → Text
strip_front [] = []
strip_front (c ∷ cs) =
    let rest = strip_front cs in if nat_beq c 32 || nat_beq c 9 then rest else c ∷ cs

-- `value.strip(" \t")`
unfoldable pub strip : Text → Text
unfolding strip_front
strip value = reverse (strip_front (reverse (strip_front value)))

abbrev pub closed : Text → Option Text
closed [] = none
closed (c ∷ cs) = some (c ∷ cs)

-- the loop, past the opening quote, with `chars` as it stands
unfoldable pub scan : Text → Text → Option Text
scan chars [] = none
scan chars (c ∷ []) = if nat_beq c 92 then none else (if nat_beq c 34 then closed chars else none)
scan chars (c ∷ d ∷ rest) =
    let escaped = scan (chars ++ d ∷ []) rest in
    let plain = scan (chars ++ c ∷ []) (d ∷ rest) in
    if nat_beq c 92
    then (if is_special d then escaped else none)
    else (if nat_beq c 34 then none else (if is_printable c then plain else none))

-- the first check, and the loop
unfoldable pub scan_quoted : Text → Option Text
unfolding scan
scan_quoted [] = none
scan_quoted (c ∷ []) = none
scan_quoted (c ∷ d ∷ rest) = if nat_beq c 34 then scan [] (d ∷ rest) else none

-- `parse_idempotency_key`
unfoldable pub parse_idempotency_key : Text → Option Text
unfolding strip scan_quoted
parse_idempotency_key value = scan_quoted (strip value)

-- RFC 8941, section 4.1.6: the serialization of a string.
abbrev pub escape : Text → Text
escape [] = []
escape (c ∷ cs) = let rest = escape cs in if is_special c then 92 ∷ c ∷ rest else c ∷ rest

abbrev pub serialized : Text → Text
serialized key = 34 ∷ escape key ++ 34 ∷ []
