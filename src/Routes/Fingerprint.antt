-- ===== src/Routes/Fingerprint.antt =====
-- errorFingerprint of uis/backoffice/lib/telemetry-routes.ts. `Math.imul(a ^ b, c) >>> 0` is the
-- product of the 32-bit numbers, taken below 2 ^ 32.
use Prim.Native.Nat.{bit_xor}
use native.Mathlib.Nat.{pow-suc}
use miguel_n_ai_trackflow_pr.Common.{
  &&_iff, Bool, Bool-cases, Text, [], all, ap, arith, codes, if◌then◌else◌, inl, inr, leb, length,
  length-append, length-take, ltb, refl, suc, take, true, zero, ℕ, ◌%◌, ◌&&◌, ◌*◌, ◌++◌, ◌+◌, ◌-◌,
  ◌/◌, ◌<◌, ◌^◌, ◌||◌, ◌∙◌, ◌∷◌, ◌≡◌, ◌≤◌,
}

-- One step of the loop, for one of its two numbers.
unfoldable pub mix : ℕ → ℕ → ℕ → ℕ
mix prime hash c = bit_xor hash c * prime % 2 ^ 32

unfoldable pub hash_loop : ℕ → ℕ → Text → ℕ × ℕ
hash_loop first second [] = (first, second)
hash_loop first second (c ∷ text) =
    hash_loop (mix 0x01000193 first c) (mix 0x85ebca6b second c) text

abbrev pub hex_digit : ℕ → ℕ
hex_digit d = if ltb d 10 then 48 + d else 87 + d

-- `n.toString(16)`, of at most as many digits as there is fuel.
unfoldable pub to_hex : ℕ → ℕ → Text
to_hex zero n = []
to_hex (suc fuel) n =
    let rest = to_hex fuel (n / 16) in
    if ltb n 16 then hex_digit n ∷ [] else rest ++ hex_digit (n % 16) ∷ []

abbrev pub zeros : ℕ → Text
zeros zero = []
zeros (suc n) = 48 ∷ zeros n

-- `text.padStart(8, "0")`
unfoldable pub pad_start : Text → Text
pad_start text = zeros (8 - length text) ++ text

-- `(hex(first) + hex(second)).slice(0, 12)`
unfoldable pub print_hash : ℕ × ℕ → Text
print_hash (first, second) = take 12 (pad_start (to_hex 8 first) ++ pad_start (to_hex 8 second))

unfoldable pub error_fingerprint : Text → Text → Text
error_fingerprint error_class route =
    print_hash (hash_loop 0x811c9dc5 0x1b873593 (error_class ++ codes "|" ++ route))

abbrev pub is_hex : ℕ → Bool
is_hex c = leb 48 c && leb c 57 || leb 97 c && leb c 102

length-to_hex : (fuel n : ℕ) → length (to_hex fuel n) ≤ fuel
unfolding to_hex
length-to_hex zero n = omega arith
length-to_hex (suc fuel) n = elim (Bool-cases (ltb n 16)) [
  | inl small ↦ rw small (omega arith)
  | inr big ↦ rw big (
      omega (
        arith,
        length-append (to_hex fuel (n / 16)) (hex_digit (n % 16) ∷ []),
        length-to_hex fuel (n / 16),
      ))
]

length-zeros : (n : ℕ) → length (zeros n) ≡ n
length-zeros zero = refl
length-zeros (suc n) = ap suc (length-zeros n)

length-pad_start : (n : ℕ) → length (pad_start (to_hex 8 n)) ≡ 8
unfolding pad_start
length-pad_start n = omega (
  arith,
  length-append (zeros (8 - length (to_hex 8 n))) (to_hex 8 n),
  length-zeros (8 - length (to_hex 8 n)),
  length-to_hex 8 n,
)

length-print_hash : (h : ℕ × ℕ) → length (print_hash h) ≡ 12
unfolding print_hash
length-print_hash (first, second) = omega (
  arith,
  length-take 12 (pad_start (to_hex 8 first) ++ pad_start (to_hex 8 second)),
  length-append (pad_start (to_hex 8 first)) (pad_start (to_hex 8 second)),
  length-pad_start first,
  length-pad_start second,
)

-- The number that hexadecimal digits write, most significant first.
abbrev pub digit_value : ℕ → ℕ
digit_value c = if ltb c 97 then c - 48 else c - 87

abbrev pub read_hex : ℕ → Text → ℕ
read_hex value [] = value
read_hex value (c ∷ t) = read_hex (16 * value + digit_value c) t

read_hex-append : (value : ℕ) (s t : Text) → read_hex value (s ++ t) ≡ read_hex (read_hex value s) t
read_hex-append value [] t = refl
read_hex-append value (c ∷ s) t = read_hex-append (16 * value + digit_value c) s t

digit_value-hex_digit : (d : ℕ) → d < 16 → digit_value (hex_digit d) ≡ d
digit_value-hex_digit d h = ground arith

read_hex-last :
    (t : Text) (n : ℕ) → read_hex 0 t ≡ n / 16 → read_hex 0 (t ++ hex_digit (n % 16) ∷ []) ≡ n
read_hex-last t n h =
    read_hex-append 0 t (hex_digit (n % 16) ∷ [])
    ∙ ap (λ v. 16 * v + digit_value (hex_digit (n % 16))) h
    ∙ ap (λ d. 16 * (n / 16) + d) (digit_value-hex_digit (n % 16) (omega arith))
    ∙ omega arith

first_digit : (d : ℕ) → d < 16 → 0 + digit_value (hex_digit d) ≡ d
first_digit d h = ground arith

read_hex-to_hex : (fuel n : ℕ) → n < 16 ^ fuel → read_hex 0 (to_hex fuel n) ≡ n
unfolding to_hex
read_hex-to_hex zero n h = omega arith
read_hex-to_hex (suc fuel) n h = elim (Bool-cases (ltb n 16)) [
  | inl small ↦ rw small (first_digit n (ground arith))
  | inr big ↦ rw big (
      read_hex-last (to_hex fuel (n / 16)) n
        (read_hex-to_hex fuel (n / 16) (omega (arith, pow-suc 16 fuel, h))))
]

-- A number below 2 ^ 32.
abbrev pub IsWord32 : ℕ → Type 0
IsWord32 n = n < 2 ^ 32

hash_loop-IsWord32 :
    (first second : ℕ) (text : Text)
    → IsWord32 first
    → IsWord32 second
    → IsWord32 (hash_loop first second text).0 × IsWord32 (hash_loop first second text).1
unfolding hash_loop mix
hash_loop-IsWord32 first second [] f s = (f, s)
hash_loop-IsWord32 first second (c ∷ text) f s =
    hash_loop-IsWord32 (mix 0x01000193 first c) (mix 0x85ebca6b second c) text (omega arith)
      (omega arith)

all-append : (p : ℕ → Bool) (s t : Text) → all p s ≡ true → all p t ≡ true → all p (s ++ t) ≡ true
all-append p [] t h k = k
all-append p (c ∷ s) t h k =
    let (here, later) = (&&_iff (p c) (all p s)).0 h in
    (&&_iff (p c) (all p (s ++ t))).1 (here, all-append p s t later k)

all-take : (p : ℕ → Bool) (n : ℕ) (s : Text) → all p s ≡ true → all p (take n s) ≡ true
all-take p zero s h = refl
all-take p (suc n) [] h = refl
all-take p (suc n) (c ∷ s) h =
    let (here, later) = (&&_iff (p c) (all p s)).0 h in
    (&&_iff (p c) (all p (take n s))).1 (here, all-take p n s later)

is_hex-hex_digit : (d : ℕ) → d < 16 → is_hex (hex_digit d) ≡ true
is_hex-hex_digit d h = ground arith

all-to_hex : (fuel n : ℕ) → all is_hex (to_hex fuel n) ≡ true
unfolding to_hex
all-to_hex zero n = refl
all-to_hex (suc fuel) n = elim (Bool-cases (ltb n 16)) [
  | inl small ↦ rw small ((&&_iff _ true).1 (is_hex-hex_digit n (ground arith), refl))
  | inr big ↦ rw big (
      all-append is_hex (to_hex fuel (n / 16)) (hex_digit (n % 16) ∷ []) (all-to_hex fuel (n / 16))
        ((&&_iff _ true).1 (is_hex-hex_digit (n % 16) (omega arith), refl)))
]

all-zeros : (n : ℕ) → all is_hex (zeros n) ≡ true
all-zeros zero = refl
all-zeros (suc n) = all-zeros n

all-pad_start : (n : ℕ) → all is_hex (pad_start (to_hex 8 n)) ≡ true
unfolding pad_start
all-pad_start n =
    all-append is_hex (zeros (8 - length (to_hex 8 n))) (to_hex 8 n)
      (all-zeros (8 - length (to_hex 8 n))) (all-to_hex 8 n)

-- A fingerprint has exactly twelve hexadecimal digits, whatever the class and the route. Its two
-- numbers stay below 2 ^ 32, so eight digits write each of them in full.
pub error_fingerprint_lem :
    (error_class route : Text)
    → (length (error_fingerprint error_class route) ≡ 12)
      × (all is_hex (error_fingerprint error_class route) ≡ true)
      × (read_hex 0
            (to_hex 8 (hash_loop 0x811c9dc5 0x1b873593 (error_class ++ codes "|" ++ route)).0)
          ≡ (hash_loop 0x811c9dc5 0x1b873593 (error_class ++ codes "|" ++ route)).0)
      × (read_hex 0
            (to_hex 8 (hash_loop 0x811c9dc5 0x1b873593 (error_class ++ codes "|" ++ route)).1)
          ≡ (hash_loop 0x811c9dc5 0x1b873593 (error_class ++ codes "|" ++ route)).1)
unfolding error_fingerprint print_hash
error_fingerprint_lem error_class route =
    let text = error_class ++ codes "|" ++ route in
    let h = hash_loop 0x811c9dc5 0x1b873593 text in
    let below = hash_loop-IsWord32 0x811c9dc5 0x1b873593 text (omega arith) (omega arith) in
    (
      length-print_hash h,
      all-take is_hex 12 (pad_start (to_hex 8 h.0) ++ pad_start (to_hex 8 h.1)) (
          all-append is_hex (pad_start (to_hex 8 h.0)) (pad_start (to_hex 8 h.1))
            (all-pad_start h.0) (all-pad_start h.1)),
      read_hex-to_hex 8 h.0 below.0,
      read_hex-to_hex 8 h.1 below.1,
    )
