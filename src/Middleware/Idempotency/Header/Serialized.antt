-- ===== src/Middleware/Idempotency/Header/Serialized.antt =====
-- Reading back what RFC 8941 serializes: `parse_idempotency_key` of
-- fastapi_viewsets/middleware/idempotency.py.
use mathlib.Core.List.{reverse-append, reverse-reverse, reverse-cons}
use fastapi_viewsets.Prelude.{
  ℕ, ◌≡◌, ◌≢◌, refl, Text, [], ◌∷◌, ◌++◌, append_assoc, append-nil, reverse, some, true, false,
  nat_beq, All, ap, sym, ◌∙◌, arith, nat_beq_iff, Bool-cases, inl, inr, subst,
}
use fastapi_viewsets.Middleware.Idempotency.Header.{
  is_special, is_printable, strip_front, strip, closed, scan, scan_quoted, parse_idempotency_key,
  escape, serialized,
}

closed-some : (chars : Text) → chars ≢ [] → closed chars ≡ some chars
closed-some [] n = absurd (n refl)
closed-some (c ∷ chars) n = refl

-- An unescaped character is taken as it stands, and an escaped one without its backslash.
scan-plain :
    (chars : Text) (c d : ℕ) (rest : Text)
    → is_special c ≡ false
    → is_printable c ≡ true
    → scan chars (c ∷ d ∷ rest) ≡ scan (chars ++ c ∷ []) (d ∷ rest)
unfolding scan
scan-plain chars c d rest h p = ground arith

scan-escaped :
    (chars : Text) (c : ℕ) (rest : Text)
    → is_special c ≡ true
    → scan chars (92 ∷ c ∷ rest) ≡ scan (chars ++ c ∷ []) rest
unfolding scan
scan-escaped chars c rest h = rw h refl

scan-closing :
    (chars : Text) (c : ℕ) (tail : Text)
    → is_special c ≡ false
    → is_printable c ≡ true
    → scan chars (c ∷ escape tail ++ 34 ∷ []) ≡ scan (chars ++ c ∷ []) (escape tail ++ 34 ∷ [])
scan-closing chars c [] h p = scan-plain chars c 34 [] h p
scan-closing chars c (d ∷ tail) h p = elim (Bool-cases (is_special d)) [
  | inl special ↦ rw special (scan-plain chars c 92 (d ∷ escape tail ++ 34 ∷ []) h p)
  | inr plain ↦ rw plain (scan-plain chars c d (escape tail ++ 34 ∷ []) h p)
]

scan-escape :
    (chars tail : Text)
    → All (λ c. is_printable c ≡ true) tail
    → chars ++ tail ≢ []
    → scan chars (escape tail ++ 34 ∷ []) ≡ some (chars ++ tail)
unfolding scan
scan-escape chars [] h n =
    closed-some chars (λ e. n (append-nil chars ∙ e)) ∙ ap some (sym (append-nil chars))
scan-escape chars (c ∷ tail) h n =
    let joined : (chars ++ c ∷ []) ++ tail ≡ chars ++ c ∷ tail = append_assoc chars (c ∷ []) tail in
    let rest = scan-escape (chars ++ c ∷ []) tail h.1 (λ e. n (sym joined ∙ e)) ∙ ap some joined in
    elim (Bool-cases (is_special c)) [
      | inl special ↦ rw special (scan-escaped chars c (escape tail ++ 34 ∷ []) special ∙ rest)
      | inr plain ↦ rw plain (scan-closing chars c tail plain h.0 ∙ rest)
    ]

strip-quoted : (text : Text) → strip (34 ∷ text ++ 34 ∷ []) ≡ 34 ∷ text ++ 34 ∷ []
unfolding strip strip_front
strip-quoted text =
    ap (λ t. reverse (strip_front t)) (reverse-append (34 ∷ text) (34 ∷ []))
    ∙ reverse-cons 34 (reverse (34 ∷ text))
    ∙ ap (λ t. t ++ 34 ∷ []) (reverse-reverse (34 ∷ text))

scan_quoted-serialized :
    (key : Text)
    → All (λ c. is_printable c ≡ true) key
    → key ≢ []
    → scan_quoted (serialized key) ≡ some key
unfolding scan_quoted
scan_quoted-serialized [] h n = absurd (n refl)
scan_quoted-serialized (c ∷ key) h n = elim (Bool-cases (is_special c)) [
  | inl special ↦ rw special (rw special at (scan-escape [] (c ∷ key) h n))
  | inr plain ↦ rw plain (rw plain at (scan-escape [] (c ∷ key) h n))
]

-- The key that a client serializes as a Structured Field string, non-empty and of printable ASCII
-- characters, is the key that its header value carries.
pub parse_idempotency_key-serialized :
    (key : Text)
    → All (λ c. is_printable c ≡ true) key
    → key ≢ []
    → parse_idempotency_key (serialized key) ≡ some key
unfolding parse_idempotency_key
parse_idempotency_key-serialized key h n =
    ap scan_quoted (strip-quoted (escape key)) ∙ scan_quoted-serialized key h n

-- What the loop reads: the rest of the key, escaped, and the closing quote.
abbrev Reads : Text → Text → Text → Type 0
Reads chars text key =
    (tail : Text) × (key ≡ chars ++ tail)
    × (text ≡ escape tail ++ 34 ∷ [])
    × All (λ c. is_printable c ≡ true) tail

special-printable : (c : ℕ) → is_special c ≡ true → is_printable c ≡ true
special-printable c h = ground arith

not_special : (c : ℕ) → nat_beq c 92 ≡ false → nat_beq c 34 ≡ false → is_special c ≡ false
not_special c h k = ground arith

Reads-special :
    (chars : Text) (d : ℕ) (rest key : Text)
    → is_special d ≡ true
    → Reads (chars ++ d ∷ []) rest key
    → Reads chars (92 ∷ d ∷ rest) key
Reads-special chars d rest key special (tail, same, text, printable) = (
  d ∷ tail,
  same ∙ append_assoc chars (d ∷ []) tail,
  rw special (ap (λ t. 92 ∷ d ∷ t) text),
  (special-printable d special, printable),
)

Reads-plain :
    (chars : Text) (c : ℕ) (rest key : Text)
    → is_special c ≡ false
    → is_printable c ≡ true
    → Reads (chars ++ c ∷ []) rest key
    → Reads chars (c ∷ rest) key
Reads-plain chars c rest key plain shown (tail, same, text, printable) = (
  c ∷ tail,
  same ∙ append_assoc chars (c ∷ []) tail,
  rw plain (ap (λ t. c ∷ t) text),
  (shown, printable),
)

closed_key : (chars key : Text) → closed chars ≡ some key → key ≡ chars
closed_key [] key h = ground arith
closed_key (c ∷ chars) key h = ground arith

scan-Reads : (text chars key : Text) → scan chars text ≡ some key → Reads chars text key
unfolding scan
scan-Reads [] chars key h = ground arith
scan-Reads (c ∷ []) chars key h = elim (Bool-cases (nat_beq c 92)) [
  | inl back ↦ absurd (ground arith)
  | inr forth ↦ elim (Bool-cases (nat_beq c 34)) [
    | inr open_still ↦ absurd (ground arith)
    | inl closing ↦ (
      [],
      closed_key chars key (rw (forth, closing) at h) ∙ sym (append-nil chars),
      ap (λ x. x ∷ []) ((nat_beq_iff c 34).0 closing),
      tt,
    )
  ]
]
scan-Reads (c ∷ d ∷ rest) chars key h = elim (Bool-cases (nat_beq c 92)) [
  | inl back ↦ elim (Bool-cases (is_special d)) [
    | inl special ↦
        subst (λ x. Reads chars (x ∷ d ∷ rest) key) (sym ((nat_beq_iff c 92).0 back))
          (Reads-special chars d rest key special
            (scan-Reads rest (chars ++ d ∷ []) key (rw (back, special) at h)))
    | inr plain ↦ absurd (ground arith)
  ]
  | inr forth ↦ elim (Bool-cases (nat_beq c 34)) [
    | inl closing ↦ absurd (ground arith)
    | inr inside ↦ elim (Bool-cases (is_printable c)) [
      | inl shown ↦
          Reads-plain chars c (d ∷ rest) key (not_special c forth inside) shown
            (scan-Reads (d ∷ rest) (chars ++ c ∷ []) key (rw (forth, inside, shown) at h))
      | inr hidden ↦ absurd (ground arith)
    ]
  ]
]

scan_quoted-Reads :
    (text key : Text)
    → scan_quoted text ≡ some key
    → (text ≡ serialized key) × All (λ c. is_printable c ≡ true) key
unfolding scan_quoted
scan_quoted-Reads [] key h = ground arith
scan_quoted-Reads (c ∷ []) key h = ground arith
scan_quoted-Reads (c ∷ d ∷ rest) key h = elim (Bool-cases (nat_beq c 34)) [
  | inr other ↦ absurd (ground arith)
  | inl opening ↦
      let (tail, same, text, printable) = scan-Reads (d ∷ rest) [] key (rw opening at h) in
      (
        (λ i. (nat_beq_iff c 34).0 opening i ∷ text i) ∙ ap serialized (sym same),
        subst (All (λ c. is_printable c ≡ true)) (sym same) printable,
      )
]

-- A header value that carries a key is, up to the spaces and tabs around it, the serialization of
-- that key, and the key's characters are printable ASCII characters.
pub serialized-parse_idempotency_key :
    (value key : Text)
    → parse_idempotency_key value ≡ some key
    → (strip value ≡ serialized key) × All (λ c. is_printable c ≡ true) key
unfolding parse_idempotency_key
serialized-parse_idempotency_key value key h = scan_quoted-Reads (strip value) key h
