-- ===== src/Tests/Ids.antt =====
-- pkg/ids at concrete UUIDs.
use dragonscale.Prelude.{ℕ, ◌≡◌, refl, List, [], ◌∷◌, some, none, arith}
use dragonscale.Prelude.Text.{codes}
use dragonscale.Ids.Uuid.{
  AllBytes, IsUuid, nil_uuid, hex_digit, hex_of, encode_canonical, strip_hyphens, hex_value,
  decode_hex, to_bytes, parse, is_zero_uuid, null, value, scan, marked, new_v7,
}
use dragonscale.Ids.Uuid.Text.{parse-scan_roundtrip}
use dragonscale.Ids.Uuid.Fresh.{IsVersion7, new_v7-IsVersion7}

program : Unit {0}
unfolding hex_digit hex_of encode_canonical strip_hyphens hex_value decode_hex to_bytes is_zero_uuid
    value scan marked new_v7
program = tt

abbrev uuid : List ℕ
uuid = 1 ∷ 143 ∷ 70 ∷ 0 ∷ 17 ∷ 34 ∷ 113 ∷ 68 ∷ 130 ∷ 9 ∷ 255 ∷ 16 ∷ 32 ∷ 48 ∷ 64 ∷ 80 ∷ []

uuid-IsUuid : IsUuid uuid
uuid-IsUuid = record {
  sixteen = refl;
  bytes = (
    omega arith,
    (
      omega arith,
      (
        omega arith,
        (
          omega arith,
          (
            omega arith,
            (
              omega arith,
              (
                omega arith,
                (
                  omega arith,
                  (
                    omega arith,
                    (
                      omega arith,
                      (
                        omega arith,
                        (
                          omega arith,
                          (omega arith, (omega arith, (omega arith, (omega arith, tt)))),
                        ),
                      ),
                    ),
                  ),
                ),
              ),
            ),
          ),
        ),
      ),
    ),
  );
}

uuid_text : encode_canonical uuid ≡ codes "018f4600-1122-7144-8209-ff1020304050"
unfolding program
uuid_text = refl

upper_case : parse (codes "018F46001122714482-09FF1020304050") ≡ some uuid
unfolding program
upper_case = refl

bad_digit : parse (codes "018g4600-1122-7144-8209-ff1020304050") ≡ none
unfolding program
bad_digit = refl

-- A NULL leaves the UUID that was there.
null_kept : scan null uuid ≡ some uuid
unfolding program
null_kept = refl

parse-scan_roundtrip_example :
    (parse (encode_canonical uuid) ≡ some uuid)
    × (parse (strip_hyphens (encode_canonical uuid)) ≡ some uuid)
    × (scan (value uuid) nil_uuid ≡ some uuid)
parse-scan_roundtrip_example = parse-scan_roundtrip uuid uuid-IsUuid

abbrev random_bytes : List ℕ
random_bytes = 255 ∷ 1 ∷ 255 ∷ 2 ∷ 3 ∷ 4 ∷ 5 ∷ 6 ∷ 7 ∷ 8 ∷ []

fresh :
    new_v7 0x018f46001122 random_bytes
    ≡ 1 ∷ 143 ∷ 70 ∷ 0 ∷ 17 ∷ 34 ∷ 127 ∷ 1 ∷ 191 ∷ 2 ∷ 3 ∷ 4 ∷ 5 ∷ 6 ∷ 7 ∷ 8 ∷ []
unfolding program
fresh = refl

random-AllBytes : AllBytes random_bytes
random-AllBytes = (
  omega arith,
  (
    omega arith,
    (
      omega arith,
      (
        omega arith,
        (
          omega arith,
          (omega arith, (omega arith, (omega arith, (omega arith, (omega arith, tt))))),
        ),
      ),
    ),
  ),
)

new_v7-IsVersion7_example : IsVersion7 0x018f46001122 (new_v7 0x018f46001122 random_bytes)
new_v7-IsVersion7_example =
    new_v7-IsVersion7 0x018f46001122 random_bytes (omega arith) refl random-AllBytes
