-- ===== src/Ids/Uuid/Text.antt =====
-- A UUID survives its text, and the database.
use dragonscale.Prelude.{
  ℕ, zero, suc, ◌+◌, ◌*◌, ◌/◌, ◌%◌, ◌<◌, ◌≡◌, refl, sym, ap, ◌∙◌, Bool, true, false, not, ◌&&◌,
  List, [], ◌∷◌, ◌++◌, none, some, length, take, drop, replicate, get_elem?, ◌==◌, arith,
  take-append-drop, drop-drop, take_of_length-le, length-drop, Bool-cases, inl, inr,
}
use dragonscale.Ids.Uuid.{
  AllBytes, IsUuid, nil_uuid, hexdigits, hex_digit, hex_of, encode_canonical, strip_hyphens,
  hex_value, decode_hex, to_bytes, parse, is_zero_uuid, value, scan,
}

no_hyphen : List ℕ → Bool
no_hyphen [] = true
no_hyphen (c ∷ cs) = not (c == b'-') && no_hyphen cs

elem_not_hyphen :
    (cs : List ℕ) (i : ℕ)
    → no_hyphen cs ≡ true
    → ((elim (get_elem? cs i) as (λ x. ℕ) [ none ↦ 0 | some c ↦ c ]) == b'-') ≡ false
unfolding no_hyphen
elem_not_hyphen [] i h = refl
elem_not_hyphen (c ∷ cs) zero h = ground (arith, h)
elem_not_hyphen (c ∷ cs) (suc i) h = elem_not_hyphen cs i (ground (arith, h))

hex_digit_not_hyphen : (i : ℕ) → (hex_digit i == b'-') ≡ false
unfolding hex_digit no_hyphen
hex_digit_not_hyphen i = elem_not_hyphen hexdigits i refl

-- Each character of a list reads as its index.
read_in_order : List ℕ → ℕ → Bool
read_in_order [] start = true
read_in_order (c ∷ cs) start =
    let later = read_in_order cs (suc start) in
    elim (hex_value c) [ none ↦ false | some v ↦ v == start && later ]

read_in_order-at :
    (cs : List ℕ) (start i : ℕ)
    → read_in_order cs start ≡ true
    → i < length cs
    → hex_value (elim (get_elem? cs i) as (λ x. ℕ) [ none ↦ 0 | some c ↦ c ]) ≡ some (start + i)
unfolding read_in_order
read_in_order-at [] start i h less = absurd (omega (arith, less))
read_in_order-at (c ∷ cs) start zero h less = ground (arith, h)
read_in_order-at (c ∷ cs) start (suc i) h less =
    read_in_order-at cs (suc start) i (ground (arith, h)) (omega (arith, less))
    ∙ ap some (omega arith)

hexdigits_in_order : read_in_order hexdigits 0 ≡ true
unfolding read_in_order hex_value
hexdigits_in_order = refl

hex_value-hex_digit : (i : ℕ) → i < 16 → hex_value (hex_digit i) ≡ some i
unfolding hex_digit
hex_value-hex_digit i h =
    read_in_order-at hexdigits 0 i hexdigits_in_order h ∙ ap some (omega arith)

strip-append : (xs ys : List ℕ) → strip_hyphens (xs ++ ys) ≡ strip_hyphens xs ++ strip_hyphens ys
unfolding strip_hyphens
strip-append [] ys = refl
strip-append (x ∷ xs) ys = ground (arith, strip-append xs ys)

strip-hex_of : (bs : List ℕ) → strip_hyphens (hex_of bs) ≡ hex_of bs
unfolding strip_hyphens hex_of
strip-hex_of [] = refl
strip-hex_of (b ∷ bs) =
    rw (hex_digit_not_hyphen (b / 16), hex_digit_not_hyphen (b % 16), strip-hex_of bs) refl

hex_of-append : (xs ys : List ℕ) → hex_of (xs ++ ys) ≡ hex_of xs ++ hex_of ys
unfolding hex_of
hex_of-append [] ys = refl
hex_of-append (x ∷ xs) ys =
    ap (λ l. hex_digit (x / 16) ∷ hex_digit (x % 16) ∷ l) (hex_of-append xs ys)

length-hex_of : (bs : List ℕ) → length (hex_of bs) ≡ length bs + length bs
unfolding hex_of
length-hex_of [] = omega arith
length-hex_of (b ∷ bs) = omega (arith, length-hex_of bs)

decode_hex-hex_of : (bs : List ℕ) → AllBytes bs → decode_hex (hex_of bs) ≡ some bs
unfolding decode_hex hex_of
decode_hex-hex_of [] h = refl
decode_hex-hex_of (b ∷ bs) h =
    let value : (b / 16) * 16 + b % 16 ≡ b = omega arith in
    ground (
      arith,
      hex_value-hex_digit (b / 16) (omega (arith, h.0)),
      hex_value-hex_digit (b % 16) (omega arith),
      decode_hex-hex_of bs h.1,
      value,
    )

-- A group, the hyphen and what follows, without the hyphens.
strip_group :
    (bs rest : List ℕ)
    → strip_hyphens (hex_of bs ++ (b'-' ∷ rest)) ≡ hex_of bs ++ strip_hyphens rest
strip_group bs rest =
    strip-append (hex_of bs) (b'-' ∷ rest)
    ∙ ap (λ l. l ++ strip_hyphens (b'-' ∷ rest)) (strip-hex_of bs)
    ∙ ap (λ l. hex_of bs ++ l) (unfold strip_hyphens in refl)

regroup :
    (n : ℕ) (u : List ℕ) (tail : List ℕ)
    → tail ≡ hex_of (drop n u)
    → hex_of (take n u) ++ tail ≡ hex_of u
regroup n u tail e =
    ap (λ l. hex_of (take n u) ++ l) e
    ∙ sym (hex_of-append (take n u) (drop n u))
    ∙ ap hex_of (take-append-drop n u)

strip-encode_canonical :
    (u : List ℕ) → length u ≡ 16 → strip_hyphens (encode_canonical u) ≡ hex_of u
unfolding encode_canonical
strip-encode_canonical u h =
    rw
      (
        strip_group (take 4 u),
        strip_group (take 2 (drop 4 u)),
        strip_group (take 2 (drop 6 u)),
        strip_group (take 2 (drop 8 u)),
        strip-hex_of (take 6 (drop 10 u)),
        take_of_length-le 6 (drop 10 u) (omega (arith, h, length-drop 10 u)),
      )
      (regroup 4 u _ (
        later 4 _ (
          later 6 _
            (later 8 _ (ap hex_of (sym (drop-drop 2 8 u))) ∙ ap hex_of (sym (drop-drop 2 6 u)))
          ∙ ap hex_of (sym (drop-drop 2 4 u)))))
  where
    later :
        (n : ℕ) (tail : List ℕ)
        → tail ≡ hex_of (drop 2 (drop n u))
        → hex_of (take 2 (drop n u)) ++ tail ≡ hex_of (drop n u)
    later n tail e = regroup 2 (drop n u) tail e

parse-encode_canonical : (u : List ℕ) → IsUuid u → parse (encode_canonical u) ≡ some u
unfolding to_bytes
parse-encode_canonical u h =
    rw (strip-encode_canonical u h.sixteen)
      (ground (arith, length-hex_of u, h.sixteen, decode_hex-hex_of u h.bytes))

is_zero-nil : (n : ℕ) (u : List ℕ) → length u ≡ n → is_zero_uuid u ≡ true → u ≡ replicate n 0
unfolding is_zero_uuid
is_zero-nil zero [] h z = refl
is_zero-nil zero (b ∷ bs) h z = absurd (omega (arith, h))
is_zero-nil (suc n) [] h z = absurd (omega (arith, h))
is_zero-nil (suc n) (b ∷ bs) h z = ground (arith, z, is_zero-nil n bs)

-- A UUID is read back from its text, in which a hyphen may be left out, and, into a zero UUID, from
-- the column value that is stored for it.
pub parse-scan_roundtrip :
    (u : List ℕ)
    → IsUuid u
    → (parse (encode_canonical u) ≡ some u)
      × (parse (strip_hyphens (encode_canonical u)) ≡ some u)
      × (scan (value u) nil_uuid ≡ some u)
unfolding scan value to_bytes
parse-scan_roundtrip u h = (
  parse-encode_canonical u h,
  rw (strip-encode_canonical u h.sixteen, strip-hex_of u)
      (ground (arith, length-hex_of u, h.sixteen, decode_hex-hex_of u h.bytes)),
  elim (Bool-cases (is_zero_uuid u)) [
    | inl z ↦ rw (z, value) (ap some (sym (is_zero-nil 16 u h.sixteen z)))
    | inr z ↦ rw (z, value) (ground (arith, h.sixteen))
  ],
)
