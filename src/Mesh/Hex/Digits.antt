-- ===== src/Mesh/Hex/Digits.antt =====
-- Printing a number in a base and reading it back.
use native.Mathlib.Nat.{div-lt_self, div-add-mod', mod-lt, pow-suc}
use meshtastic_proxy.Base.{
  ℕ, zero, suc, ◌+◌, ◌-◌, ◌*◌, ◌/◌, ◌%◌, ◌^◌, ◌≤◌, ◌<◌, List, [], ◌∷◌, ◌++◌, map, Text, ltb, ◌≡◌,
  refl, ap, ◌∙◌, inl, inr, Bool-cases, arith, length, length-map, replicate, pad_start,
}
use meshtastic_proxy.Mesh.Hex.{digits, digit_char, to_string, char_digit, parse_from, parse_int}

-- A list of digits that are below the base.
abbrev Below : ℕ → List ℕ → Type 0
Below b [] = Unit
Below b (d ∷ ds) = (d < b) × Below b ds

zero_acc : (b d : ℕ) → 0 * b + d ≡ d
zero_acc b d = omega arith

of_digits : ℕ → ℕ → List ℕ → ℕ
of_digits b acc [] = acc
of_digits b acc (d ∷ ds) = of_digits b (acc * b + d) ds

char_digit-digit_char : (d : ℕ) → d < 16 → char_digit (digit_char d) ≡ d
unfolding char_digit digit_char
char_digit-digit_char d h = ground arith

parse_from-map :
    (b acc : ℕ) (ds : List ℕ)
    → b ≤ 16
    → Below b ds
    → parse_from b acc (map digit_char ds) ≡ of_digits b acc ds
unfolding parse_from of_digits
parse_from-map b acc [] h k = refl
parse_from-map b acc (d ∷ ds) h k =
    ap (λ c. parse_from b (acc * b + c) (map digit_char ds)) (char_digit-digit_char d (omega arith))
    ∙ parse_from-map b (acc * b + d) ds h k.1

module _ (b : ℕ) (two : 2 ≤ b) where
  Below-digits : (fuel n : ℕ) (acc : List ℕ) → Below b acc → Below b (digits b fuel n acc)
  unfolding digits
  Below-digits zero n acc h = h
  Below-digits (suc fuel) n acc h =
      ground (arith, Below-digits fuel (n / b) ((n % b) ∷ acc) (mod-lt n (omega arith), h))

  of_digits-digits :
      (fuel n : ℕ) (acc : List ℕ)
      → n < fuel
      → of_digits b 0 (digits b fuel n acc) ≡ of_digits b n acc
  unfolding digits of_digits
  of_digits-digits zero n acc h = elim h [ ]
  of_digits-digits (suc fuel) n acc h = elim (Bool-cases (ltb n b)) [
    | inl small ↦ rw small (ap (λ a. of_digits b a acc) (zero_acc b n))
    | inr large ↦
        let halved : n / b < n = div-lt_self (ground arith) (omega arith) in
        rw large
          (rw (of_digits-digits fuel (n / b) ((n % b) ∷ acc) (omega arith), div-add-mod' n b))
  ]

  parse_int-to_string_lem : (n : ℕ) → b ≤ 16 → parse_int b (to_string b n) ≡ n
  unfolding parse_int to_string of_digits
  parse_int-to_string_lem n h =
      parse_from-map b 0 (digits b (suc n) n []) h (Below-digits (suc n) n [] tt)
      ∙ of_digits-digits (suc n) n [] (omega arith)

-- Printing a number in a base from 2 to 16 and reading the text back in that base gives the number.
pub parse_int-to_string : (b n : ℕ) → 2 ≤ b → b ≤ 16 → parse_int b (to_string b n) ≡ n
parse_int-to_string b n two h = parse_int-to_string_lem b two n h

length-digits :
    (fuel n k : ℕ) (acc : List ℕ)
    → n < fuel
    → n < 16 ^ suc k
    → length (digits 16 fuel n acc) ≤ suc k + length acc
unfolding digits
length-digits zero n k acc h e = elim h [ ]
length-digits (suc fuel) n zero acc h e = ground arith
length-digits (suc fuel) n (suc k) acc h e =
    let bound : n < 16 ^ suc k * 16 = rw pow-suc at e in
    let smaller : n / 16 < 16 ^ suc k = omega arith in
    ground (arith, length-digits fuel (n / 16) k ((n % 16) ∷ acc))

-- A number below 16 ^ k has at most k hexadecimal digits.
pub length-to_string : (n k : ℕ) → n < 16 ^ suc k → length (to_string 16 n) ≤ suc k
unfolding to_string
length-to_string n k h = rw length-map (omega (arith, length-digits (suc n) n k []))

parse_from-zeros : (b k : ℕ) (t : Text) → parse_from b 0 (replicate k b'0' ++ t) ≡ parse_from b 0 t
unfolding parse_from char_digit
parse_from-zeros b zero t = refl
parse_from-zeros b (suc k) t =
    ap (λ a. parse_from b a (replicate k b'0' ++ t)) (zero_acc b 0) ∙ parse_from-zeros b k t

-- Leading zeros do not change what a text is read as.
pub parse_int-pad_start : (b n : ℕ) (t : Text) → parse_int b (pad_start n b'0' t) ≡ parse_int b t
unfolding parse_int
parse_int-pad_start b n t = parse_from-zeros b (n - length t) t
