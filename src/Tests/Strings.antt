-- ===== src/Tests/Strings.antt =====
-- The theorems on string objects and on their RDB form at concrete inputs.
use red_opt.Base.{ℕ, ◌≡◌, ◌↔◌, refl, List, [], ◌∷◌, true, some, arith}
use red_opt.Base.{pos, ◌%◌, ◌^◌}
use red_opt.Clock.{lru_clock}
use red_opt.Object.{Robj, Garbage, chars, number, init_object_lru_or_lfu}
use red_opt.Object.History.{history, remember}
use red_opt.Object.Strings.{
  IsString, of_chars, of_number, text, sds_encoded_object, encoding_int, try_object_encoding,
  get_decoded_object,
}
use red_opt.Object.Strings.{equal_string_objects, create_string_object}
use red_opt.Object.Strings.Encode.{get_decoded_object-try_object_encoding}
use red_opt.Object.Strings.Compare.{equal_string_objects_iff}
use red_opt.Object.Strings.Fresh.{init_object_lru_or_lfu-create_string_object}
use red_opt.Object.Strings.Parse.{
  Answers, string_object, get_range_long_from_object_or_reply,
  get_range_long_from_object_or_reply_lem,
}
use red_opt.Rdb.{rdb_write_raw, rdb_save_len}
use red_opt.Rdb.Strings.{
  rdb_save_raw_string, rdb_try_integer_encoding, rdb_encode_integer, save_bytes,
  rdb_save_lzf_string_object, rdb_save_lzf_blob,
}
use red_opt.Rdb.Strings.Loads.{SavedString}
use red_opt.Rdb.Strings.Compressed.{rdb_generic_load_string_object-rdb_save_raw_string}
use red_opt.Tests.Samples.{server, twice_used}
use red_opt.Tests.Stores.{bytes, encodings}
use red_opt.Tests.Numbers.{numbers, shared_objects, runs}

-- The text of the number 50, and the number.
abbrev fifty : Robj
fifty = record twice_used { ptr = chars (43 ∷ 50 ∷ []) }

abbrev fifty_number : Robj
fifty_number = record twice_used { ptr = number (pos 50); encoding = encoding_int }

abbrev garbage : Garbage
garbage = record { times = 1 ∷ 2 ∷ 3 ∷ 4 ∷ []; count = 2; after = 7 ∷ 8 ∷ [] }

fifty-IsString : IsString fifty
fifty-IsString = of_chars _ (43 ∷ 50 ∷ []) refl refl refl

fifty_number-IsString : IsString fifty_number
fifty_number-IsString = of_number _ (pos 50) refl refl refl (omega arith, omega arith)

get_decoded_object-try_object_encoding_example :
    (o' decoded : Robj) × (try_object_encoding numbers shared_objects server fifty garbage
      ≡ some o')
    × IsString o'
    × (text numbers o' ≡ 43 ∷ 50 ∷ [])
    × (get_decoded_object numbers o' garbage ≡ some decoded)
    × (sds_encoded_object decoded ≡ true)
    × (text numbers decoded ≡ 43 ∷ 50 ∷ [])
get_decoded_object-try_object_encoding_example =
    get_decoded_object-try_object_encoding numbers shared_objects server fifty garbage garbage
      fifty-IsString (omega arith) (omega arith)

equal_string_objects_iff_example :
    (equal_string_objects numbers fifty fifty_number ≡ true)
    ↔ (text numbers fifty ≡ text numbers fifty_number)
equal_string_objects_iff_example =
    equal_string_objects_iff numbers fifty fifty_number fifty-IsString fifty_number-IsString
      (omega arith) (omega arith)

init_object_lru_or_lfu-create_string_object_example :
    history (init_object_lru_or_lfu server (create_string_object (65 ∷ []) garbage))
    ≡ remember (1 ∷ 2 ∷ []) (lru_clock server % 2 ^ 24)
init_object_lru_or_lfu-create_string_object_example =
    init_object_lru_or_lfu-create_string_object server (65 ∷ []) garbage (omega arith) refl refl
      refl (omega arith) (omega arith)

get_range_long_from_object_or_reply_lem_example :
    Answers
      (pos 0)
      (pos 10)
      (some (69 ∷ []))
      (some (some (pos 50)))
      (get_range_long_from_object_or_reply numbers (some fifty) (pos 0) (pos 10) (some (69 ∷ [])))
get_range_long_from_object_or_reply_lem_example =
    get_range_long_from_object_or_reply_lem numbers (some fifty) (pos 0) (pos 10) (some (69 ∷ []))
      (string_object fifty fifty-IsString)

-- Twenty-one bytes of one kind are saved as four bytes: the code, both lengths, and one byte.
abbrev run_of_21 : List ℕ
run_of_21 = 9 ∷ 9 ∷ 9 ∷ 9 ∷ 9 ∷ 9 ∷ 9 ∷ 9 ∷ 9 ∷ 9 ∷ 9 ∷ 9 ∷ 9 ∷ 9 ∷ 9 ∷ 9 ∷ 9 ∷ 9 ∷ 9 ∷ 9 ∷ 9 ∷ []

saved_run :
    rdb_save_raw_string bytes encodings numbers runs true ([], []) run_of_21
    ≡ some ((195 ∷ 1 ∷ 21 ∷ 9 ∷ [], []), 4)
unfolding rdb_save_raw_string save_bytes rdb_save_lzf_string_object rdb_save_lzf_blob rdb_write_raw
    rdb_save_len
saved_run = refl

rdb_generic_load_string_object-rdb_save_raw_string_example :
    SavedString bytes encodings numbers runs shared_objects server garbage
      ([], [])
      run_of_21
      (195 ∷ 1 ∷ 21 ∷ 9 ∷ [], [])
      4
rdb_generic_load_string_object-rdb_save_raw_string_example =
    rdb_generic_load_string_object-rdb_save_raw_string bytes encodings numbers runs shared_objects
      server garbage true ([], []) run_of_21 (omega arith) (λ k h. refl) saved_run

-- The number 300 takes two bytes and a code.
saved_300 :
    rdb_save_raw_string bytes encodings numbers runs true ([], []) (43 ∷ 300 ∷ [])
    ≡ some ((193 ∷ 44 ∷ 1 ∷ [], []), 3)
unfolding rdb_save_raw_string rdb_try_integer_encoding rdb_encode_integer rdb_write_raw
saved_300 = refl
