-- ===== src/Tests/Writes.antt =====
-- Runs of the writing side: binary values, bound values, rows without a key, calls of routines.
use tabularis_postgresql_plu.Blob.{
  encode_blob, encode_blob_full, decode_blob_wire_format, max_blob_preview_size, IsCodec,
  decode-encode_blob,
}
use tabularis_postgresql_plu.Binding.{
  Crates, BindOptions, BoundValue, TypedPgParam, text_param, int8_param,
}
use tabularis_postgresql_plu.Binding.Keys.{lookup_text}
use tabularis_postgresql_plu.Binding.Vectors.{
  vector_type, bind_pg_vector_string, bind_pg_vector_string-read,
}
use tabularis_postgresql_plu.Identifiers.Literals.{read_literal}
use tabularis_postgresql_plu.Identifiers.{qualified}
use tabularis_postgresql_plu.Crud.{Client, update_with, update_statement, exec_update, exec_delete}
use tabularis_postgresql_plu.Crud.Statements.{
  IsUpdate, types_at, Refused, update_statement-Numbered, keyless-Refused,
}
use tabularis_postgresql_plu.Routines.{RoutineCallArg, routine_call_sql}
use tabularis_postgresql_plu.Routines.Calls.{read_call, call_keyword, inputs, routine_call_sql-read}
use tabularis_postgresql_plu.Base.Integers
use tabularis_postgresql_plu.Query.Server.{ok, err}
use tabularis_postgresql_plu.Json
use tabularis_postgresql_plu.Json.{Value, Fields, end, field}
use tabularis_postgresql_plu.Base.{
  ℕ, suc, ◌≡◌, refl, true, false, List, [], ◌∷◌, Option, none, some, Text, codes, length, take,
  trim, eq_ignore_ascii_case, arith,
}

abbrev no_mime : List ℕ → Option Text
no_mime d = none

abbrev same : List ℕ → Text
same d = d

codec : IsCodec no_mime same some
codec = record { mime_has_no_colon = λ d mime e. absurd (ground arith); decode-encode = λ d. refl }

decode-encode_blob_example :
    (decode_blob_wire_format some (encode_blob_full no_mime same (58 ∷ 0 ∷ 255 ∷ []))
      ≡ some (58 ∷ 0 ∷ 255 ∷ []))
    × (decode_blob_wire_format some (encode_blob no_mime same (58 ∷ 0 ∷ 255 ∷ []))
        ≡ some (take max_blob_preview_size (58 ∷ 0 ∷ 255 ∷ [])))
decode-encode_blob_example = decode-encode_blob no_mime same some codec (58 ∷ 0 ∷ 255 ∷ [])

abbrev vector_bound : BoundValue
vector_bound = record { sql = codes "'[1,2.5]'::vector"; param = none }

vector_is_bound :
    bind_pg_vector_string (codes " [1,2.5] ") (codes "VECTOR") ≡ some (ok vector_bound)
unfolding bind_pg_vector_string
vector_is_bound = refl

vector_is_vector : vector_type (codes "VECTOR") ≡ some (codes "vector")
unfolding vector_type
vector_is_vector = refl

bind_pg_vector_string-read_example :
    (vector_bound.param ≡ none)
    × (read_literal (vector_bound.sql) ≡ some (trim (codes " [1,2.5] "), codes "::vector"))
bind_pg_vector_string-read_example =
    bind_pg_vector_string-read (codes " [1,2.5] ") (codes "VECTOR") (codes "vector") vector_bound
      vector_is_vector vector_is_bound

-- Crates that decode nothing.
abbrev crates : Crates
crates = record {
  json_from_str = λ s. none;
  as_f64 = λ n. none;
  number_text = λ n. [];
  parse_f64 = λ s. none;
  parse_decimal = λ s. none;
  parse_uuid = λ s. none;
  base64_decode = λ s. none;
  uppercase_table = λ c. c ∷ [];
  to_lowercase = λ s. s;
  debug_value = λ v. [];
  debug_text = λ s. s;
}

-- A connection that counts the statements it executes.
abbrev client : Client ℕ
client = record {
  get_column_types_map = λ conn table schema s. (ok ((codes "id", codes "bigint") ∷ []), s);
  get_enum_column_types = λ conn schema table s. (err (codes "no catalog"), s);
  get_hstore_oid_for_column = λ conn schema table col s. (ok none, s);
  execute_typed = λ conn sql params s. (ok 1, suc s);
}

abbrev key : Fields
key =
    field (codes "name") (Json.string (codes "o'neil"))
      (field (codes "gone") Json.null (field (codes "id") (Json.number (Json.pos_int 7)) end))

abbrev sent : Text × List TypedPgParam
sent = (
  codes
      "UPDATE \"s\".\"t\" SET \"c\" = $1 WHERE \"gone\" IS NULL AND \"id\" = CAST($2 AS bigint) AND \"name\" = $3",
  text_param (codes "v") ∷ int8_param (Integers.pos 7) ∷ text_param (codes "o'neil") ∷ [],
)

update_is_sent :
    (update_statement client crates Json.null
      (codes "t")
      (codes "s")
      key
      (codes "c")
      (Json.string (codes "v"))
      0).0
    ≡ ok sent
unfolding update_statement update_with
update_is_sent = refl

update_statement-Numbered_example :
    (options : BindOptions) × (options.column_type
      ≡ lookup_text (types_at client crates Json.null (codes "t") (codes "s") 0) (codes "c"))
    × IsUpdate crates
        (qualified (codes "s") (codes "t"))
        (codes "c")
        (types_at client crates Json.null (codes "t") (codes "s") 0)
        options
        key
        (Json.string (codes "v"))
        sent
update_statement-Numbered_example =
    update_statement-Numbered client crates Json.null (codes "t") (codes "s") key (codes "c")
      (Json.string (codes "v")) 0 sent update_is_sent

keyless-Refused_example :
    Refused client crates Json.null
      (codes "t")
      (codes "s")
      (exec_update client crates Json.null
        (codes "t")
        (codes "s")
        end
        (codes "c")
        (Json.bool true)
        0)
      ((update_statement client crates Json.null
        (codes "t")
        (codes "s")
        end
        (codes "c")
        (Json.bool true)
        0).1)
    × Refused client crates Json.null
        (codes "t")
        (codes "s")
        (exec_delete client crates Json.null (codes "t") (codes "s") end 0)
        0
keyless-Refused_example =
    keyless-Refused client crates Json.null (codes "t") (codes "s") (codes "c") (Json.bool true) 0

abbrev args : List RoutineCallArg
args =
    record { mode = codes "IN"; value = some (codes "it's"); is_raw = false }
    ∷ record { mode = codes "out"; value = none; is_raw = false }
    ∷ record { mode = codes "INOUT"; value = none; is_raw = false }
    ∷ []

call_of_args :
    routine_call_sql (codes "f") (codes "function") args (codes "s")
    ≡ codes "SELECT * FROM \"s\".\"f\"('it''s', NULL);"
unfolding routine_call_sql
call_of_args = refl

routine_call_sql-read_example :
    read_call
      (call_keyword (eq_ignore_ascii_case (codes "function") (codes "FUNCTION")))
      (length (inputs (eq_ignore_ascii_case (codes "function") (codes "FUNCTION")) args))
      (routine_call_sql (codes "f") (codes "function") args (codes "s"))
    ≡ some (
      codes "s",
      codes "f",
      inputs (eq_ignore_ascii_case (codes "function") (codes "FUNCTION")) args,
    )
routine_call_sql-read_example =
    routine_call_sql-read (codes "f") (codes "function") (codes "s") args (refl, (refl, (refl, tt)))
