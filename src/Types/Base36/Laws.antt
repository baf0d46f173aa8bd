-- ===== src/Types/Base36/Laws.antt =====
-- Base-36 encoding loses nothing, and an ID is short enough never to be cut
-- (scheduler/internal/types/ids.go).
use mathlib.Core.List.{append-nil, append_assoc, reverse-cons}
use native.Mathlib.Decide.{dec_lt}
use native.Mathlib.Nat.{pow-suc}
use k8s_sched_demo.Base.{
  false, Bool-cases, inl, inr, ℕ, zero, suc, ◌+◌, ◌*◌, ◌/◌, ◌%◌, ◌^◌, ◌<◌, ◌≤◌, ◌-◌, ◌≡◌, refl,
  Bool, true, [], ◌∷◌, ◌++◌, reverse, arith, Text, ltb, ◌==◌, if◌then◌else◌, length, length-append,
  ap, ◌∙◌, sym,
}
use k8s_sched_demo.Types.Base36.{
  byte_at, charset, is_positive, digits_loop, encode_base36, generate_sandbox_id,
}

-- The value of a base-36 digit, and of a numeral read from the left.
abbrev pub digit_value : ℕ → ℕ
digit_value c = if ltb c 58 then c - 48 else c - 87

unfoldable pub decode_from : ℕ → Text → ℕ
decode_from acc [] = acc
decode_from acc (c ∷ s) = decode_from (acc * 36 + digit_value c) s

unfoldable pub decode_base36 : Text → ℕ
unfolding decode_from
decode_base36 = decode_from 0

decode_from-snoc :
    (acc : ℕ) (s : Text) (c : ℕ)
    → decode_from acc (s ++ c ∷ []) ≡ decode_from acc s * 36 + digit_value c
unfolding decode_from
decode_from-snoc acc [] c = refl
decode_from-snoc acc (d ∷ s) c = decode_from-snoc (acc * 36 + digit_value d) s c

-- The digits alone, least first.
digits : ℕ → ℕ → Text
digits zero n = []
digits (suc fuel) n =
    let rest = byte_at charset (n % 36) ∷ digits fuel (n / 36) in if is_positive n then rest else []

digits_loop-digits : (fuel n : ℕ) (acc : Text) → digits_loop fuel n acc ≡ acc ++ digits fuel n
unfolding digits_loop digits
digits_loop-digits zero n acc = sym (append-nil acc)
digits_loop-digits (suc fuel) n acc = elim (Bool-cases (is_positive n)) [
  | inl p ↦ rw p (
      digits_loop-digits fuel (n / 36) (acc ++ byte_at charset (n % 36) ∷ [])
      ∙ append_assoc acc (byte_at charset (n % 36) ∷ []) (digits fuel (n / 36)))
  | inr z ↦ rw z (sym (append-nil acc))
]

-- Whether a digit has the value that it stands for, and whether each below the bound has.
abbrev agrees : ℕ → Bool
agrees d = digit_value (byte_at charset d) == d

first_agree : (ℕ → Bool) → ℕ → Bool
first_agree right zero = true
first_agree right (suc d) = if right d then first_agree right d else false

charset_agrees : first_agree agrees 36 ≡ true
unfolding first_agree
charset_agrees = refl

right_at :
    (right : ℕ → Bool) (bound d : ℕ) → d < bound → first_agree right bound ≡ true → right d ≡ true
unfolding first_agree
right_at right zero d below agree = ground arith
right_at right (suc bound) d below agree = ground (arith, right_at right bound d)

digit_value-charset : (d : ℕ) → d < 36 → digit_value (byte_at charset d) ≡ d
digit_value-charset d below = ground (arith, right_at agrees 36 d below charset_agrees)

length-digits : (fuel n : ℕ) → length (digits fuel n) ≤ fuel
unfolding digits
length-digits zero n = omega arith
length-digits (suc fuel) n = ground (arith, length-digits fuel (n / 36))

positive_of_ne_zero : (n : ℕ) → 0 < n → n < 2 ^ 63 → is_positive n ≡ true
positive_of_ne_zero n h k = ground arith

quotient_below : (fuel n : ℕ) → n < 36 ^ suc fuel → n / 36 < 36 ^ fuel
quotient_below fuel n h = omega (arith, pow-suc 36 fuel)

decode-reverse-digits :
    (fuel n : ℕ) → n < 36 ^ fuel → n < 2 ^ 63 → decode_base36 (reverse (digits fuel n)) ≡ n
unfolding digits decode_base36 decode_from
decode-reverse-digits zero n h k = omega arith
decode-reverse-digits (suc fuel) n h k = elim (dec_lt 0 n) [
  | yes pos ↦
      rw
        (
          positive_of_ne_zero n pos k,
          reverse-cons (byte_at charset (n % 36)) (digits fuel (n / 36)),
        )
        (omega (
          arith,
          decode_from-snoc 0 (reverse (digits fuel (n / 36))) (byte_at charset (n % 36)),
          decode-reverse-digits fuel (n / 36) (quotient_below fuel n h) (omega arith),
          digit_value-charset (n % 36) (omega arith),
        ))
  | no zero_n ↦ let e : n ≡ 0 = omega arith in rw e
]

encode_base36-digits : (n : ℕ) → 0 < n → encode_base36 n ≡ reverse (digits 13 n)
unfolding encode_base36
encode_base36-digits n h = rw (digits_loop-digits 13 n []) (ground arith)

decode-encode-zero : decode_base36 (encode_base36 0) ≡ 0
unfolding encode_base36 decode_base36 decode_from
decode-encode-zero = refl

-- Reading back the encoding of a non-negative int64 gives the number.
pub decode-encode_base36 : (n : ℕ) → n < 2 ^ 63 → decode_base36 (encode_base36 n) ≡ n
decode-encode_base36 n h = elim (dec_lt 0 n) [
  | yes pos ↦ rw (encode_base36-digits n pos) (decode-reverse-digits 13 n (omega arith) h)
  | no zero_n ↦ let e : n ≡ 0 = omega arith in rw e decode-encode-zero
]

length-reverse : (s : Text) → length (reverse s) ≡ length s
length-reverse [] = refl
length-reverse (c ∷ s) =
    omega
      (arith, ap length (reverse-cons c s), length-append (reverse s) (c ∷ []), length-reverse s)

pub length-encode_base36 : (n : ℕ) → length (encode_base36 n) ≤ 13
unfolding encode_base36
length-encode_base36 n =
    rw (digits_loop-digits 13 n [])
      (ground (arith, length-reverse (digits 13 n), length-digits 13 n))

-- A generated sandbox ID is the whole base-36 encoding of the clock plus the random byte, as long
-- as that sum does not pass int64: it reads back to the sum, and it has at most 13 characters, so
-- the cut at 20 never applies.
pub decode-generate_sandbox_id :
    (nanos random : ℕ)
    → nanos + random < 2 ^ 63
    → (decode_base36 (generate_sandbox_id nanos random) ≡ nanos + random)
      × (generate_sandbox_id nanos random ≡ encode_base36 (nanos + random))
      × (length (generate_sandbox_id nanos random) ≤ 13)
unfolding generate_sandbox_id
decode-generate_sandbox_id nanos random h =
    let e : (nanos + random) % 2 ^ 64 ≡ nanos + random = omega arith in
    rw e (
      ground
        (arith, decode-encode_base36 (nanos + random) h, length-encode_base36 (nanos + random)))
