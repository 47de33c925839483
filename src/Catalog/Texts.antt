-- ===== src/Catalog/Texts.antt =====
-- src/client.rs: the SQL texts of the lookups of column types.
use tabularis_postgresql_plu.Base.{◌++◌, Text, codes}

abbrev pub column_types_query : Text
column_types_query =
    codes "\n"
    ++ codes "        SELECT\n"
    ++ codes "            column_name,\n"
    ++ codes "            CASE\n"
    ++ codes "                WHEN data_type = 'USER-DEFINED' THEN udt_name\n"
    ++ codes "                ELSE data_type\n"
    ++ codes "            END AS resolved_type\n"
    ++ codes "        FROM information_schema.columns\n"
    ++ codes "        WHERE table_schema = $1 AND table_name = $2\n"
    ++ codes "    "

abbrev pub enum_types_query : Text
enum_types_query =
    codes "SELECT a.attname::text AS column_name, tn.nspname::text AS type_schema, "
    ++ codes "t.typname::text AS type_name FROM pg_attribute a JOIN pg_class c ON c.oid = "
    ++ codes "a.attrelid JOIN pg_namespace n ON n.oid = c.relnamespace JOIN pg_type t ON "
    ++ codes "t.oid = a.atttypid JOIN pg_namespace tn ON tn.oid = t.typnamespace WHERE "
    ++ codes "n.nspname = $1 AND c.relname = $2 AND a.attnum > 0 AND NOT a.attisdropped AND "
    ++ codes "t.typtype = 'e'"

abbrev pub hstore_oid_query : Text
hstore_oid_query =
    codes "SELECT a.atttypid::oid FROM pg_attribute a JOIN pg_class c ON c.oid = "
    ++ codes "a.attrelid JOIN pg_namespace n ON n.oid = c.relnamespace JOIN pg_type t ON "
    ++ codes "t.oid = a.atttypid WHERE n.nspname = $1 AND c.relname = $2 AND a.attname = $3 "
    ++ codes "AND t.typname = 'hstore' LIMIT 1"
