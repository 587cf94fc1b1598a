-- ===== src/Codegen/Parser/Tests.antt =====
-- The parser on small files.
use px4_rs.Prelude.{ℕ, ◌≡◌, refl, arith, some, none, List, [], ◌∷◌, ◌++◌}
use px4_rs.Text.{codes, is_whitespace, trim, strip_prefix, lines}
use px4_rs.Codegen.{Scalar, scalar, scalar_array}
use px4_rs.Codegen.Parser.Written.{Written, blank, remark, topics, code, field, constant}
use px4_rs.Codegen.Parser.RoundTrip.{AllWritten, write_all, message, parse-write}
use px4_rs.Codegen.Parser.Failing.{Explains, parse-Explains}
use px4_rs.Codegen.Parser.{MsgDef, topics_are, parsed, syntax, no_field_name, parse_str, read_line}

abbrev gyro_text : List ℕ
gyro_text =
    codes "uint64 timestamp  # microseconds"
    ++ (b'\n'
        ∷ (b'\n'
            ∷ (codes "uint8[3] clip_counter"
                ++ (b'\r' ∷ b'\n' ∷ codes "uint32 MESSAGE_VERSION = 3"))))

abbrev gyro : MsgDef
gyro = record {
  name = codes "SensorGyro";
  snake_name = codes "sensor_gyro";
  fields =
      record { name = codes "timestamp"; ty = scalar Scalar.u64 }
      ∷ record { name = codes "clip_counter"; ty = scalar_array Scalar.u8 3 }
      ∷ [];
  constants = record { ty = Scalar.u32; name = codes "MESSAGE_VERSION"; value = codes "3" } ∷ [];
  topics = codes "sensor_gyro" ∷ [];
  message_version = some 3;
}

gyro_parsed : parse_str (codes "SensorGyro") gyro_text ≡ parsed gyro
unfolding parse_str is_whitespace
gyro_parsed = refl

second_line_wrong :
    parse_str (codes "A") (codes "uint8 x" ++ (b'\n' ∷ codes "uint8")) ≡ syntax 2 no_field_name
unfolding parse_str is_whitespace
second_line_wrong = refl

topics_line : read_line (codes "  # TOPICS a b_c") ≡ topics_are (codes "a" ∷ codes "b_c" ∷ [])
unfolding read_line is_whitespace
topics_line = refl

-- A comment whose first word goes on after TOPICS is taken for a list of topics.
topics_comment : read_line (codes "# TOPICS_LIST") ≡ topics_are (codes "_LIST" ∷ [])
unfolding read_line is_whitespace
topics_comment = refl

-- A file with a line of each kind.
abbrev gyro_lines : List Written
gyro_lines =
    blank (codes " ")
    ∷ remark [] (codes " clips = 3")
    ∷ code (codes "  ") (field record { name = codes "timestamp"; ty = scalar Scalar.u64 })
        (codes " ") (some (codes " us"))
    ∷ code [] (field record { name = codes "clips"; ty = scalar_array Scalar.u8 3 }) [] none
    ∷ code []
        (constant record { ty = Scalar.u32; name = codes "MESSAGE_VERSION"; value = codes "3" }) []
        none
    ∷ topics [] (codes "gyro" ∷ codes "gyro_raw" ∷ [])
    ∷ []

gyro_lines_ok : AllWritten gyro_lines
unfolding is_whitespace trim strip_prefix
gyro_lines_ok = (
  refl,
  (
    (refl, refl, refl),
    (
      (refl, (tt, (refl, refl)), refl, refl),
      (
        (refl, (omega arith, (refl, refl)), refl, refl),
        (
          (refl, ((refl, refl), refl, refl, refl), refl, refl),
          ((refl, (refl, refl), ((refl, refl), tt)), tt),
        ),
      ),
    ),
  ),
)

parse-write_example :
    parse_str (codes "SensorGyro") (write_all gyro_lines)
    ≡ parsed (message (codes "SensorGyro") gyro_lines)
parse-write_example = parse-write (codes "SensorGyro") gyro_lines gyro_lines_ok

-- The second line has a type and no name.
abbrev bad_text : List ℕ
bad_text = codes "uint8 x" ++ (b'\n' ∷ codes "uint8")

parse-Explains_example : Explains 1 (lines bad_text) (parse_str (codes "A") bad_text)
parse-Explains_example = parse-Explains (codes "A") bad_text
