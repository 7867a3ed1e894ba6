-- ===== src/Id/Codec.antt =====
-- `encodeID` and `decodeID` of server/id/id_impl.go: an id as the decimal digits of its text.
use ceresmeta.Common.{
  ltb, leb, if◌then◌else◌, nat_eq, elem, ℕ, zero, suc, ◌+◌, ◌-◌, ◌*◌, ◌/◌, ◌%◌, ◌^◌, ◌<◌, ◌≡◌, refl,
  false, ◌&&◌, [], ◌∷◌, arith, Bytes,
}

-- The digits of `n` in front of `tail`; the fuel is above the number of digits.
print : ℕ → ℕ → Bytes → Bytes
print zero n tail = tail
print (suc f) n tail =
    let rest = print f (n / 10) ((48 + n % 10) ∷ tail) in if ltb n 10 then (48 + n) ∷ tail else rest

-- `fmt.Sprintf("%d", value)`
unfoldable pub encode_id : ℕ → Bytes
unfolding print
encode_id n = print (n + 1) n []

-- The loop of `strconv.ParseUint(value, 10, 64)`, with what `decodeID` returns on its errors: 0 on
-- a character that is no digit, and 2^64 - 1 at the first digit that passes 64 bits.
parse : ℕ → Bytes → ℕ
parse n [] = n
parse n (c ∷ cs) =
    let rest = parse (n * 10 + (c - 48)) cs in
    if leb 48 c && leb c 57
    then (if ltb (n * 10 + (c - 48)) (2 ^ 64) then rest else 2 ^ 64 - 1)
    else 0

pub decode_id : Bytes → ℕ
unfolding parse
decode_id cs = parse 0 cs

parse-print :
    (f n : ℕ) (tail : Bytes) → n < f → n < 2 ^ 64 → parse 0 (print f n tail) ≡ parse n tail
unfolding print parse
parse-print zero n tail h b = absurd (omega arith)
parse-print (suc f) n tail h b = ground (arith, parse-print f (n / 10) ((48 + n % 10) ∷ tail))

-- Decoding the text of an id below 2^64 returns the id.
pub decode_id-encode_id : (n : ℕ) → n < 2 ^ 64 → decode_id (encode_id n) ≡ n
unfolding decode_id encode_id
decode_id-encode_id n h = parse-print (n + 1) n [] (omega arith) h

-- The number that decimal digits after `n` stand for.
abbrev pub value : ℕ → Bytes → ℕ
value n [] = n
value n (c ∷ cs) = value (n * 10 + (c - 48)) cs

value-print : (f n : ℕ) (tail : Bytes) → n < f → value 0 (print f n tail) ≡ value n tail
unfolding print
value-print zero n tail h = absurd (omega arith)
value-print (suc f) n tail h = ground (arith, value-print f (n / 10) ((48 + n % 10) ∷ tail))

pub value-encode_id : (n : ℕ) → value 0 (encode_id n) ≡ n
unfolding encode_id
value-encode_id n = value-print (n + 1) n [] (omega arith)

elem-print :
    (f n : ℕ) (tail : Bytes) (c : ℕ)
    → c < 48
    → elem c tail ≡ false
    → elem c (print f n tail) ≡ false
unfolding print
elem-print zero n tail c l h = h
elem-print (suc f) n tail c l h = ground (arith, elem-print f (n / 10) ((48 + n % 10) ∷ tail) c)

-- No byte below the digits occurs in the text of an id.
pub elem-encode_id : (n c : ℕ) → c < 48 → elem c (encode_id n) ≡ false
unfolding encode_id
elem-encode_id n c l = elem-print (n + 1) n [] c l refl
