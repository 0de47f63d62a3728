-- ===== src/Tests/Numbers.antt =====
-- Numbers as text, shared objects and a compression, which have the laws that the parameters ask
-- for: a sign and the number as one character; runs of one character.
use red_opt.Base.{
  ℕ, zero, suc, ◌^◌, ◌≤◌, ◌<◌, ◌≡◌, refl, ap, List, [], ◌∷◌, Bool, true, false, Option, none, some,
}
use red_opt.Base.{
  length, ltb, ◌==◌, if◌then◌else◌, arith, ℤ, pos, negsuc, IsLong, Bool-cases, inl, inr, ◌&&◌,
}
use mathlib.Core.Path.{subst, ap₂}
use red_opt.Object.{number}
use red_opt.Object.Strings.{Numbers, SharedObjects, obj_string, encoding_int}
use red_opt.Rdb.Strings.{Lzf}
use red_opt.Config.{Parsers}
use red_opt.Tests.Samples.{unused}

-- `+` is 43 and `-` is 45.
abbrev sign_read : ℕ → ℕ → Option ℤ
sign_read s n =
    if ltb n (2 ^ 63)
    then (if s == 43 then some (pos n) else if s == 45 then some (negsuc n) else none)
    else none

abbrev read_number : List ℕ → Option ℤ
read_number [] = none
read_number (s ∷ []) = none
read_number (s ∷ (n ∷ [])) = sign_read s n
read_number (s ∷ (n ∷ (m ∷ more))) = none

abbrev write_number : ℤ → List ℕ
write_number (pos n) = 43 ∷ (n ∷ [])
write_number (negsuc n) = 45 ∷ (n ∷ [])

pub read_written : (v : ℤ) → IsLong v → read_number (write_number v) ≡ some v
read_written (pos n) h = ground arith
read_written (negsuc n) h = ground arith

pub written_read : (s : List ℕ) (v : ℤ) → read_number s ≡ some v → write_number v ≡ s
written_read [] v e = absurd cc
written_read (s ∷ []) v e = absurd cc
written_read (s ∷ (n ∷ (m ∷ more))) v e = absurd cc
written_read (s ∷ (n ∷ [])) (pos k) e = ground arith
written_read (s ∷ (n ∷ [])) (negsuc k) e = ground arith

pub read-IsLong : (s : List ℕ) (v : ℤ) → read_number s ≡ some v → IsLong v
read-IsLong [] v e = absurd cc
read-IsLong (s ∷ []) v e = absurd cc
read-IsLong (s ∷ (n ∷ (m ∷ more))) v e = absurd cc
read-IsLong (s ∷ (n ∷ [])) (pos k) e = ground arith
read-IsLong (s ∷ (n ∷ [])) (negsuc k) e = ground arith

pub written_short : (v : ℤ) → IsLong v → length (write_number v) ≤ 20
written_short (pos n) h = omega arith
written_short (negsuc n) h = omega arith

abbrev pub numbers : Numbers
numbers = record {
  string2ll = read_number;
  ll2string = write_number;
  string2ll-ll2string = read_written;
  ll2string-string2ll = written_read;
  string2ll-IsLong = read-IsLong;
  length-ll2string = written_short;
}

abbrev pub shared_objects : SharedObjects
shared_objects = record {
  integers =
      λ n. record unused { kind = obj_string; encoding = encoding_int; ptr = number (pos n) };
  kind-integers = λ n. refl;
  encoding-integers = λ n. refl;
  ptr-integers = λ n. refl;
}

-- A run of one character is compressed to that character.
abbrev all_are : ℕ → List ℕ → Bool
all_are x [] = true
all_are x (y ∷ ys) = let rest = all_are x ys in if x == y then rest else false

abbrev repeated : ℕ → ℕ → List ℕ
repeated x zero = []
repeated x (suc n) = x ∷ repeated x n

abbrev pack : List ℕ → ℕ → Option (List ℕ)
pack [] n = none
pack (x ∷ xs) n = if ltb 0 n && all_are x xs then some (x ∷ []) else none

abbrev unpack : List ℕ → ℕ → Option (List ℕ)
unpack [] n = none
unpack (x ∷ []) n = some (repeated x n)
unpack (x ∷ (y ∷ more)) n = none

repeated-all : (x : ℕ) (ys : List ℕ) → all_are x ys ≡ true → repeated x (length ys) ≡ ys
repeated-all x [] h = refl
repeated-all x (y ∷ ys) h = elim (Bool-cases (x == y)) [
  | inl same ↦
      let e : x ≡ y = ground arith in ap₂ (λ a b. a ∷ b) e (repeated-all x ys (rw same at h))
  | inr other ↦ let h' = rw other at h in absurd cc
]

pub unpack-pack :
    (s : List ℕ) (n : ℕ) (c : List ℕ) → pack s n ≡ some c → unpack c (length s) ≡ some s
unpack-pack [] n c e = absurd cc
unpack-pack (x ∷ xs) n c e = elim (Bool-cases (ltb 0 n && all_are x xs)) [
  | inl run ↦
      let e' = rw run at e in
      let same : x ∷ [] ≡ c = cc in
      let all : all_are x xs ≡ true = ground arith in
      subst (λ c. unpack c (length (x ∷ xs)) ≡ some (x ∷ xs)) same
        (ap (λ l. some (x ∷ l)) (repeated-all x xs all))
  | inr other ↦ let e' = rw other at e in absurd cc
]

pub length-pack : (s : List ℕ) (n : ℕ) (c : List ℕ) → pack s n ≡ some c → length c ≤ n
length-pack [] n c e = absurd cc
length-pack (x ∷ xs) n c e = elim (Bool-cases (ltb 0 n && all_are x xs)) [
  | inl run ↦
      let e' = rw run at e in
      let same : x ∷ [] ≡ c = cc in
      let some_room : 0 < n = ground arith in subst (λ c. length c ≤ n) same (omega arith)
  | inr other ↦ let e' = rw other at e in absurd cc
]

abbrev pub runs : Lzf
runs = record {
  compress = pack;
  decompress = unpack;
  can_alloc = λ n. true;
  decompress-compress = unpack-pack;
  length-compress = length-pack;
}

abbrev no_text : List ℕ → Option ℕ
no_text s = none

abbrev no_octal : List ℕ → Option ℤ
no_octal s = none

pub none_read : (s : List ℕ) (v : ℤ) → no_octal s ≡ some v → IsLong v
none_read s v e = absurd cc

abbrev pub parsers : Parsers
parsers = record {
  memtoull = no_text;
  octal = no_octal;
  ull2string = λ n. n ∷ [];
  print_octal = λ n. n ∷ [];
  octal-IsLong = none_read;
}
