-- ===== src/Object/Strings/Parse.antt =====
-- The functions of object.c that read a number from a string object and tell the client of an
-- error.
use red_opt.Base.{ℕ, ◌-◌, ◌^◌, ◌≡◌, refl, List, Bool, false, not, ◌||◌}
use red_opt.Base.{Option, none, some, Option-cases, inl, inr, ◌==◌, if◌then◌else◌, arith}
use red_opt.Base.{◌≢◌, ◌⊎◌, Bool-cases, ℤ, ◌≤ℤ◌, pos, negsuc, ltb_ℤ, IsLong, long_min, long_max}
use red_opt.Object.{Robj, chars, number, null}
use red_opt.Object.Strings.{
  Numbers, obj_string, encoding_int, sds_encoded_object, text, IsString, of_chars, of_number,
}

-- The error that the client is told: the caller's own text, or that of the function.
pub data Refusal : Type 0 where
  own_text : List ℕ → Refusal
  not_an_integer : Refusal
  out_of_range : Refusal
  not_between : ℤ → ℤ → Refusal
  must_be_positive : Refusal

-- C_OK with `*target`, C_ERR with what the client is told, or a failed assertion or panic.
pub data Parsed (A : Type 0) : Type 0 where
  ok : A → Parsed A
  err : Refusal → Parsed A
  panic : Parsed A

infixl 5 ◌>>>=◌
abbrev pub ◌>>>=◌ : {A B : Type 0} → Parsed A → (A → Parsed B) → Parsed B
ok a >>>= f = f a
err e >>>= f = err e
panic >>>= f = panic

-- `if (msg != NULL)`
abbrev pub refuse : Option (List ℕ) → Refusal → Refusal
refuse none r = r
refuse (some msg) r = own_text msg

-- `value < min || value > max`
abbrev pub outside : ℤ → ℤ → ℤ → Bool
outside min max value = ltb_ℤ value min || ltb_ℤ max value

abbrev pub int_min : ℤ
int_min = negsuc (2 ^ 31 - 1)

abbrev pub int_max : ℤ
int_max = pos (2 ^ 31 - 1)

-- The error is the caller's text, or where there is none this one.
abbrev pub Told : Option (List ℕ) → Refusal → Refusal → Type 0
Told none r e = e ≡ r
Told (some msg) r e = e ≡ own_text msg

told : (msg : Option (List ℕ)) (r : Refusal) → Told msg r (refuse msg r)
told none r = refl
told (some msg) r = refl

-- What is to be read in an object: a number, or bytes that are none, or for a wrong type nothing.
pub data Reads (num : Numbers) : Option Robj → Option (Option ℤ) → Type 0 where
  no_object : Reads num none (some (some (pos 0)))
  string_object : (o : Robj) → IsString o → Reads num (some o) (some (num.string2ll (text num o)))
  other_type : (o : Robj) → o.kind ≢ obj_string → Reads num (some o) none

-- The answer to what has been read, where it is to lie between a minimum and a maximum.
pub data Answers (min max : ℤ) (msg : Option (List ℕ)) : Option (Option ℤ) → Parsed ℤ → Type 0 where
  accepted : (v : ℤ) → min ≤ℤ v → v ≤ℤ max → Answers min max msg (some (some v)) (ok v)
  range_error :
      (e : Refusal) (v : ℤ)
      → (¬ (min ≤ℤ v)) ⊎ (¬ (v ≤ℤ max))
      → Told msg (not_between min max) e
      → Answers min max msg (some (some v)) (err e)
  no_integer : (e : Refusal) → Told msg not_an_integer e → Answers min max msg (some none) (err e)
  aborted : Answers min max msg none panic

module _ (num : Numbers) where
  -- An object that is NULL counts as 0.
  unfoldable pub get_long_long_from_object_or_reply : Option Robj → Option (List ℕ) → Parsed ℤ
  get_long_long_from_object_or_reply none msg = ok (pos 0)
  get_long_long_from_object_or_reply (some o) msg =
      if not (o.kind == obj_string) then panic else (elim o.ptr [
        | chars s ↦
            if sds_encoded_object o
            then (elim (num.string2ll s) [
              | none ↦ err (refuse msg not_an_integer)
              | some value ↦ ok value
            ])
            else panic
        | number v ↦ if o.encoding == encoding_int then ok v else panic
        | null ↦ panic
      ])

  unfoldable pub get_long_from_object_or_reply : Option Robj → Option (List ℕ) → Parsed ℤ
  get_long_from_object_or_reply o msg = get_long_long_from_object_or_reply o msg >>>= λ value.
      if outside long_min long_max value then err (refuse msg out_of_range) else ok value

  unfoldable pub get_range_long_from_object_or_reply :
      Option Robj → ℤ → ℤ → Option (List ℕ) → Parsed ℤ
  get_range_long_from_object_or_reply o min max msg =
      get_long_from_object_or_reply o msg >>>= λ target.
      if outside min max target then err (refuse msg (not_between min max)) else ok target

  -- The default text of `getPositiveLongFromObjectOrReply` takes the place of the caller's.
  unfoldable pub get_positive_long_from_object_or_reply :
      List ℕ → Option Robj → Option (List ℕ) → Parsed ℤ
  get_positive_long_from_object_or_reply positive_text o msg = elim msg [
    | some own ↦ get_range_long_from_object_or_reply o (pos 0) long_max (some own)
    | none ↦ get_range_long_from_object_or_reply o (pos 0) long_max (some positive_text)
  ]

  unfoldable pub get_int_from_object_or_reply : Option Robj → Option (List ℕ) → Parsed ℤ
  get_int_from_object_or_reply o msg =
      get_range_long_from_object_or_reply o int_min int_max msg >>>= λ value. ok value

  -- The number that a string object stands for, by its bytes.
  long_long-text :
      (o : Robj) (msg : Option (List ℕ))
      → IsString o
      → get_long_long_from_object_or_reply (some o) msg ≡ (elim (num.string2ll (text num o)) [
        | none ↦ err (refuse msg not_an_integer)
        | some value ↦ ok value
      ])
  unfolding get_long_long_from_object_or_reply
  long_long-text o msg (of_chars _ s is encoded at) =
      rw (is, at, encoded, get_long_long_from_object_or_reply) refl
  long_long-text o msg (of_number _ v is int at long) =
      rw (is, at, int, get_long_long_from_object_or_reply, num.string2ll-ll2string v long) refl

  in_long : (v : ℤ) → IsLong v → outside long_min long_max v ≡ false
  in_long v h = ground arith

  wrong_type :
      (o : Robj) (msg : Option (List ℕ))
      → o.kind ≢ obj_string
      → get_long_long_from_object_or_reply (some o) msg ≡ panic
  unfolding get_long_long_from_object_or_reply
  wrong_type o msg other =
      let differs : (o.kind == obj_string) ≡ false = ground (arith, other) in
      rw (differs, get_long_long_from_object_or_reply) refl

  in_range :
      (v min max : ℤ) (msg : Option (List ℕ))
      → Answers min max msg
          (some (some v))
          (if outside min max v then err (refuse msg (not_between min max)) else ok v)
  in_range v min max msg = elim (Bool-cases (ltb_ℤ v min)) [
    | inl low ↦
        rw low (range_error (refuse msg (not_between min max)) v (inl (ground arith)) (told msg _))
    | inr not_low ↦ elim (Bool-cases (ltb_ℤ max v)) [
      | inl high ↦
          rw (not_low, high)
            (range_error (refuse msg (not_between min max)) v (inr (ground arith)) (told msg _))
      | inr not_high ↦ rw (not_low, not_high) (accepted v (ground arith) (ground arith))
    ]
  ]

  -- `getRangeLongFromObjectOrReply`, on no object, a string object of any encoding, or an object of
  -- another type, answers the client as follows. No object counts as 0. It gives the number that
  -- the bytes of the string are, where that is at least the minimum and at most the maximum; where
  -- it is below or above, the error that it is not between them, and where the bytes are no number,
  -- the error that it is no integer, each in the caller's text if there is one. An object of
  -- another type ends the program.
  pub get_range_long_from_object_or_reply_lem :
      (o : Option Robj) (min max : ℤ) (msg : Option (List ℕ)) {number : Option (Option ℤ)}
      → Reads num o number
      → Answers min max msg number (get_range_long_from_object_or_reply o min max msg)
  unfolding get_range_long_from_object_or_reply get_long_from_object_or_reply
      get_long_long_from_object_or_reply
  get_range_long_from_object_or_reply_lem _ min max msg no_object = in_range (pos 0) min max msg
  get_range_long_from_object_or_reply_lem _ min max msg (other_type o other) =
      rw (wrong_type o msg other) aborted
  get_range_long_from_object_or_reply_lem _ min max msg (string_object o is) =
      elim (Option-cases (num.string2ll (text num o))) [
        | inl no_number ↦
            rw (long_long-text o msg is, no_number)
              (no_integer (refuse msg not_an_integer) (told msg not_an_integer))
        | inr (v, e) ↦
            rw (long_long-text o msg is, e, in_long v (num.string2ll-IsLong _ v e))
              (in_range v min max msg)
      ]
