-- ===== src/Object/Strings.antt =====
-- String objects (object.c): their creation, their encoding as numbers, and their comparison. The
-- conversions of util.c and the shared objects, which are made elsewhere, are parameters.
pub mod Encode
pub mod Compare
pub mod Fresh
pub mod Parse
use red_opt.Base.{
  ℕ, ◌+◌, ◌%◌, ◌^◌, ◌≤◌, ◌<◌, ◌≡◌, List, [], ◌∷◌, Bool, true, false, not, ◌&&◌, ◌||◌,
}
use red_opt.Base.{Option, none, some, ◌>>=◌, length, ltb, leb, ◌==◌, sub64, if◌then◌else◌}
use red_opt.Base.{ℤ, pos, negsuc, pos_part, ltb_ℤ, eq_ℤ, signed, IsLong}
use red_opt.Server.{Server, flag_lru, flag_lfu, flag_lru_histogram}
use red_opt.Object.{
  Robj, Ptr, chars, number, null, Garbage, create_object, incr_ref_count, decr_ref_count,
}

abbrev pub obj_string : ℕ
obj_string = 0

abbrev pub encoding_raw : ℕ
encoding_raw = 0

abbrev pub encoding_int : ℕ
encoding_int = 1

abbrev pub encoding_embstr : ℕ
encoding_embstr = 8

abbrev pub embstr_size_limit : ℕ
embstr_size_limit = 44

abbrev pub shared_integers : ℕ
shared_integers = 10000

-- `string2ll` (the same as `string2l` where a long has 64 bits) accepts a string only if it is what
-- `ll2string` writes of a long.
pub record Numbers : Type 0 where
  pub string2ll : List ℕ → Option ℤ
  pub ll2string : ℤ → List ℕ
  pub string2ll-ll2string : (v : ℤ) → IsLong v → string2ll (ll2string v) ≡ some v
  pub ll2string-string2ll : (s : List ℕ) (v : ℤ) → string2ll s ≡ some v → ll2string v ≡ s
  pub string2ll-IsLong : (s : List ℕ) (v : ℤ) → string2ll s ≡ some v → IsLong v
  pub length-ll2string : (v : ℤ) → IsLong v → length (ll2string v) ≤ 20

-- `shared.integers`.
pub record SharedObjects : Type 0 where
  pub integers : ℕ → Robj
  pub kind-integers : (n : ℕ) → (integers n).kind ≡ obj_string
  pub encoding-integers : (n : ℕ) → (integers n).encoding ≡ encoding_int
  pub ptr-integers : (n : ℕ) → (integers n).ptr ≡ number (pos n)

-- `sdsEncodedObject`
abbrev pub sds_encoded_object : Robj → Bool
sds_encoded_object o = o.encoding == encoding_raw || o.encoding == encoding_embstr

-- MAXMEMORY_FLAG_NO_SHARED_INTEGERS
abbrev pub flag_no_shared_integers : ℕ → Bool
flag_no_shared_integers policy = flag_lru policy || (flag_lfu policy || flag_lru_histogram policy)

-- The flag of `createStringObjectFromLongLongWithOptions`, LL2STROBJ_AUTO to
-- LL2STROBJ_NO_INT_ENC.
pub data Ll2Strobj : Type 0 where
  auto : Ll2Strobj
  no_shared : Ll2Strobj
  no_int_enc : Ll2Strobj

abbrev pub is_auto : Ll2Strobj → Bool
is_auto auto = true
is_auto no_shared = false
is_auto no_int_enc = false

abbrev pub is_no_int_enc : Ll2Strobj → Bool
is_no_int_enc auto = false
is_no_int_enc no_shared = false
is_no_int_enc no_int_enc = true

-- `value >= 0 && value < OBJ_SHARED_INTEGERS`
abbrev pub is_small : ℤ → Bool
is_small (pos n) = ltb n shared_integers
is_small (negsuc n) = false

unfoldable pub create_raw_string_object : List ℕ → Garbage → Robj
create_raw_string_object s garbage = create_object obj_string (chars s) garbage

-- The history and its count are left as the memory was.
unfoldable pub create_embedded_string_object : List ℕ → Garbage → Robj
create_embedded_string_object s garbage = record {
  kind = obj_string;
  encoding = encoding_embstr;
  lru = 0;
  refcount = 1;
  ptr = chars s;
  access_times = garbage.times;
  num_accesses = garbage.count;
  slack = garbage.after;
}

unfoldable pub create_string_object : List ℕ → Garbage → Robj
create_string_object s garbage =
    if leb (length s) embstr_size_limit
    then create_embedded_string_object s garbage
    else create_raw_string_object s garbage

-- An object with a number in place of the pointer.
abbrev pub create_int_object : ℤ → Garbage → Robj
create_int_object value garbage = record (create_object obj_string null garbage) {
  encoding = encoding_int;
  ptr = number value;
}

-- `none` is the panic on an unknown encoding, or the failed assertion.
unfoldable pub dup_string_object : Robj → Garbage → Option Robj
dup_string_object o garbage = if not (o.kind == obj_string) then none else (elim o.ptr [
  | chars s ↦
      if o.encoding == encoding_raw
      then some (create_raw_string_object s garbage)
      else if o.encoding == encoding_embstr
      then some (create_embedded_string_object s garbage)
      else none
  | number v ↦ if o.encoding == encoding_int then some (create_int_object v garbage) else none
  | null ↦ none
])

-- `memcmp` over the first bytes of both, as many as the shorter one has.
unfoldable pub memcmp : List ℕ → List ℕ → ℤ
memcmp [] b = pos 0
memcmp (x ∷ a) [] = pos 0
memcmp (x ∷ a) (y ∷ b) =
    let rest = memcmp a b in if x == y then rest else if ltb x y then negsuc 0 else pos 1

-- `alen-blen` as an int.
abbrev pub length_difference : List ℕ → List ℕ → ℤ
length_difference a b = signed (2 ^ 31) (sub64 (length a) (length b) % 2 ^ 32)

-- `a->ptr == b->ptr` where both are numbers.
abbrev pub same_number : Ptr → Ptr → Bool
same_number (number v) p = elim p [ number w ↦ eq_ℤ v w | chars s ↦ false | null ↦ false ]
same_number (chars s) p = false
same_number null p = false

-- A string object as the functions of object.c make them.
pub data IsString : Robj → Type 0 where
  of_chars :
      (o : Robj) (s : List ℕ)
      → o.kind ≡ obj_string
      → sds_encoded_object o ≡ true
      → o.ptr ≡ chars s
      → IsString o
  of_number :
      (o : Robj) (v : ℤ)
      → o.kind ≡ obj_string
      → o.encoding ≡ encoding_int
      → o.ptr ≡ number v
      → IsLong v
      → IsString o

module _ (num : Numbers) where
  open num use {string2ll, ll2string}

  -- The bytes that an object stands for, as the comparison reads them.
  abbrev pub text : Robj → List ℕ
  text o = elim o.ptr [ chars s ↦ s | number v ↦ ll2string v | null ↦ [] ]

  unfoldable pub get_decoded_object : Robj → Garbage → Option Robj
  get_decoded_object o garbage =
      if sds_encoded_object o
      then incr_ref_count o
      else if o.kind == obj_string && o.encoding == encoding_int
      then (elim o.ptr [
        | number v ↦ some (create_string_object (ll2string v) garbage)
        | chars s ↦ none
        | null ↦ none
      ])
      else none

  -- `strcoll` is none for a binary comparison. The shortcut on an object and itself is left out: it
  -- returns what the comparison does.
  unfoldable pub compare_string_objects_with_flags : Robj → Robj → Option (List ℕ → List ℕ → ℤ) → ℤ
  compare_string_objects_with_flags a b strcoll = elim strcoll [
    | some collate ↦ collate (text a) (text b)
    | none ↦
        let cmp = memcmp (text a) (text b) in
        if eq_ℤ cmp (pos 0) then length_difference (text a) (text b) else cmp
  ]

  unfoldable pub compare_string_objects : Robj → Robj → ℤ
  compare_string_objects a b = compare_string_objects_with_flags a b none

  unfoldable pub equal_string_objects : Robj → Robj → Bool
  equal_string_objects a b =
      if a.encoding == encoding_int && b.encoding == encoding_int
      then same_number a.ptr b.ptr
      else eq_ℤ (compare_string_objects a b) (pos 0)

  module _ (shared : SharedObjects) where
    open shared use {integers}

    unfoldable pub create_string_object_from_long_long_with_options : ℤ → Ll2Strobj → Garbage → Robj
    create_string_object_from_long_long_with_options value flag garbage =
        if is_small value && is_auto flag
        then integers (pos_part value)
        else if not (is_no_int_enc flag)
        then create_int_object value garbage
        else create_string_object (ll2string value) garbage

    unfoldable pub create_string_object_from_long_long_for_value : Server → ℤ → Garbage → Robj
    create_string_object_from_long_long_for_value s value garbage =
        if s.maxmemory == 0 || not (flag_no_shared_integers s.maxmemory_policy)
        then create_string_object_from_long_long_with_options value auto garbage
        else create_string_object_from_long_long_with_options value no_shared garbage

    unfoldable pub create_string_object_from_long_long_with_sds : ℤ → Garbage → Robj
    create_string_object_from_long_long_with_sds value garbage =
        create_string_object_from_long_long_with_options value no_int_enc garbage

    -- The object is given up, in favour of another one; `none` is the panic.
    abbrev pub replaced_by : Robj → Robj → Option Robj
    replaced_by o new = decr_ref_count o >>= λ released. some new

    -- `tryObjectEncodingEx` where the string is no number. Trimming frees unused memory behind the
    -- string and keeps its bytes.
    unfoldable pub try_embed : Robj → List ℕ → Garbage → Option Robj
    try_embed o s garbage =
        if leb (length s) embstr_size_limit
        then (if o.encoding == encoding_embstr
            then some o
            else replaced_by o (create_embedded_string_object s garbage))
        else some o

    -- Where it is a number.
    unfoldable pub encode_number : Server → Robj → ℤ → Garbage → Option Robj
    encode_number s o value garbage =
        if (s.maxmemory == 0 || not (flag_no_shared_integers s.maxmemory_policy)) && is_small value
        then replaced_by o (integers (pos_part value))
        else if o.encoding == encoding_raw
        then some (record o { encoding = encoding_int; ptr = number value })
        else replaced_by o (create_string_object_from_long_long_for_value s value garbage)

    -- `none` is the failed assertion, a panic, or an object whose encoding is not that of its
    -- value.
    unfoldable pub try_object_encoding : Server → Robj → Garbage → Option Robj
    try_object_encoding s o garbage =
        if not (o.kind == obj_string)
        then none
        else if not (sds_encoded_object o)
        then some o
        else if ltb 1 o.refcount
        then some o
        else (elim o.ptr [
          | chars bytes ↦ elim (if leb (length bytes) 20 then string2ll bytes else none) [
            | none ↦ try_embed o bytes garbage
            | some value ↦ encode_number s o value garbage
          ]
          | number v ↦ none
          | null ↦ none
        ])
