-- ===== src/Log/Tests.antt =====
-- A message of two writes, and one that is cut off.
use px4_rs.Prelude.{some, none, ℕ, ◌≡◌, refl, List, [], ◌∷◌, length, replicate, arith}
use px4_rs.Log.{new_buf, write_str, as_c_str, c_string, write_all}
use px4_rs.Log.Args.{Args, pos, negsuc, arg_count, subcommand}
use px4_rs.Log.Contents.{message_lem}

abbrev writes : List (List ℕ)
writes = (104 ∷ 105 ∷ []) ∷ (33 ∷ []) ∷ []

message_lem_example : c_string (as_c_str (write_all writes new_buf)) ≡ 104 ∷ 105 ∷ 33 ∷ []
message_lem_example = message_lem writes (omega arith, (omega arith, (omega arith, tt)))

cut_off : length (c_string (as_c_str (write_all (replicate 300 7 ∷ []) new_buf))) ≡ 255
unfolding as_c_str write_str new_buf
cut_off = refl

-- Three slots, the second null.
abbrev three_slots : Args
three_slots = record { argc = pos 3; argv = some (some (97 ∷ []) ∷ none ∷ some (99 ∷ []) ∷ []) }

negative_count : arg_count (record { argc = negsuc 0; argv = some [] }) ≡ 0
negative_count = refl

null_subcommand : subcommand three_slots ≡ none
null_subcommand = refl
