-- ===== src/Metadata/Queries/Views.antt =====
-- src/handlers/metadata.rs: the SQL texts of views.
use tabularis_postgresql_plu.Base.{◌++◌, Text, codes}

abbrev pub views_query : Text
views_query =
    codes "SELECT viewname as name FROM pg_views WHERE schemaname = $1 ORDER BY viewname "
    ++ codes "ASC"

abbrev pub view_definition_query : Text
view_definition_query = codes "SELECT pg_get_viewdef(($1::text)::regclass, true) as definition"

abbrev pub materialized_views_query : Text
materialized_views_query =
    codes "SELECT matviewname as name FROM pg_matviews WHERE schemaname = $1 ORDER BY "
    ++ codes "matviewname ASC"

abbrev pub materialized_view_columns_query : Text
materialized_view_columns_query =
    codes "\n"
    ++ codes "        SELECT\n"
    ++ codes "            a.attname AS column_name,\n"
    ++ codes "            format_type(a.atttypid, a.atttypmod) AS data_type,\n"
    ++ codes "            a.attnotnull AS not_null\n"
    ++ codes "        FROM pg_attribute a\n"
    ++ codes "        JOIN pg_class c ON c.oid = a.attrelid\n"
    ++ codes "        JOIN pg_namespace n ON n.oid = c.relnamespace\n"
    ++ codes "        WHERE n.nspname = $1 AND c.relname = $2 AND c.relkind = 'm'\n"
    ++ codes "          AND a.attnum > 0 AND NOT a.attisdropped\n"
    ++ codes "        ORDER BY a.attnum\n"
    ++ codes "    "

abbrev pub materialized_view_definition_query : Text
materialized_view_definition_query =
    codes "SELECT pg_get_viewdef(c.oid, true) AS definition FROM pg_class c JOIN "
    ++ codes "pg_namespace n ON c.relnamespace = n.oid WHERE n.nspname = $1 AND c.relname = "
    ++ codes "$2 AND c.relkind = 'm'"
