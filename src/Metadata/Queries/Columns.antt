-- ===== src/Metadata/Queries/Columns.antt =====
-- src/handlers/metadata.rs: the SQL texts of the columns of tables and views.
use tabularis_postgresql_plu.Base.{◌++◌, Text, codes}

abbrev pub table_columns_query : Text
table_columns_query =
    codes "\n"
    ++ codes "        SELECT\n"
    ++ codes "            c.column_name::text,\n"
    ++ codes "            CASE\n"
    ++ codes "                WHEN c.data_type = 'USER-DEFINED' THEN c.udt_name::text\n"
    ++ codes "                ELSE c.data_type::text\n"
    ++ codes "            END AS data_type,\n"
    ++ codes "            c.is_nullable::text,\n"
    ++ codes "            c.column_default::text,\n"
    ++ codes "            c.is_identity::text,\n"
    ++ codes "            c.character_maximum_length,\n"
    ++ codes "            c.numeric_precision,\n"
    ++ codes "            c.numeric_scale,\n"
    ++ codes "            d.description::text AS comment,\n"
    ++ codes "            (SELECT string_agg('''' || replace(e.enumlabel, '''', '''''') || "
    ++ codes "'''', ',' ORDER BY e.enumsortorder)\n"
    ++ codes "             FROM pg_enum e\n"
    ++ codes "             JOIN pg_type t ON t.oid = e.enumtypid\n"
    ++ codes "             JOIN pg_namespace tn ON tn.oid = t.typnamespace\n"
    ++ codes "             WHERE t.typname = c.udt_name AND tn.nspname = c.udt_schema) AS "
    ++ codes "enum_values,\n"
    ++ codes "            EXISTS (\n"
    ++ codes "                SELECT 1\n"
    ++ codes "                FROM pg_constraint pk_con\n"
    ++ codes "                JOIN pg_class pk_table ON pk_table.oid = pk_con.conrelid\n"
    ++ codes "                JOIN pg_namespace pk_schema ON pk_schema.oid = "
    ++ codes "pk_table.relnamespace\n"
    ++ codes "                JOIN unnest(pk_con.conkey) AS pk_col(attnum) ON true\n"
    ++ codes "                JOIN pg_attribute pk_att\n"
    ++ codes "                    ON pk_att.attrelid = pk_table.oid\n"
    ++ codes "                    AND pk_att.attnum = pk_col.attnum\n"
    ++ codes "                    AND NOT pk_att.attisdropped\n"
    ++ codes "                WHERE pk_con.contype = 'p'\n"
    ++ codes "                    AND pk_schema.nspname = c.table_schema\n"
    ++ codes "                    AND pk_table.relname = c.table_name\n"
    ++ codes "                    AND pk_att.attname = c.column_name\n"
    ++ codes "            ) AS is_pk\n"
    ++ codes "        FROM information_schema.columns c\n"
    ++ codes "        JOIN pg_namespace n ON n.nspname = c.table_schema\n"
    ++ codes "        JOIN pg_class pc ON pc.relnamespace = n.oid AND pc.relname = "
    ++ codes "c.table_name\n"
    ++ codes "        JOIN pg_attribute a ON a.attrelid = pc.oid AND a.attname = "
    ++ codes "c.column_name\n"
    ++ codes "        LEFT JOIN pg_description d\n"
    ++ codes "            ON d.objoid = pc.oid\n"
    ++ codes "            AND d.classoid = 'pg_class'::regclass\n"
    ++ codes "            AND d.objsubid = a.attnum\n"
    ++ codes "        WHERE c.table_schema = $1 AND c.table_name = $2\n"
    ++ codes "        ORDER BY c.ordinal_position\n"
    ++ codes "    "

abbrev pub view_columns_query : Text
view_columns_query =
    codes "\n"
    ++ codes "        SELECT\n"
    ++ codes "            c.column_name::text,\n"
    ++ codes "            CASE\n"
    ++ codes "                WHEN c.data_type = 'USER-DEFINED' THEN c.udt_name::text\n"
    ++ codes "                ELSE c.data_type::text\n"
    ++ codes "            END AS data_type,\n"
    ++ codes "            c.is_nullable::text,\n"
    ++ codes "            c.column_default::text,\n"
    ++ codes "            c.is_identity::text,\n"
    ++ codes "            c.character_maximum_length,\n"
    ++ codes "            c.numeric_precision,\n"
    ++ codes "            c.numeric_scale,\n"
    ++ codes "            (SELECT string_agg('''' || replace(e.enumlabel, '''', '''''') || "
    ++ codes "'''', ',' ORDER BY e.enumsortorder)\n"
    ++ codes "             FROM pg_enum e\n"
    ++ codes "             JOIN pg_type t ON t.oid = e.enumtypid\n"
    ++ codes "             JOIN pg_namespace tn ON tn.oid = t.typnamespace\n"
    ++ codes "             WHERE t.typname = c.udt_name AND tn.nspname = c.udt_schema) AS "
    ++ codes "enum_values,\n"
    ++ codes "            EXISTS (\n"
    ++ codes "                SELECT 1\n"
    ++ codes "                FROM pg_constraint pk_con\n"
    ++ codes "                JOIN pg_class pk_table ON pk_table.oid = pk_con.conrelid\n"
    ++ codes "                JOIN pg_namespace pk_schema ON pk_schema.oid = "
    ++ codes "pk_table.relnamespace\n"
    ++ codes "                JOIN unnest(pk_con.conkey) AS pk_col(attnum) ON true\n"
    ++ codes "                JOIN pg_attribute pk_att\n"
    ++ codes "                    ON pk_att.attrelid = pk_table.oid\n"
    ++ codes "                    AND pk_att.attnum = pk_col.attnum\n"
    ++ codes "                    AND NOT pk_att.attisdropped\n"
    ++ codes "                WHERE pk_con.contype = 'p'\n"
    ++ codes "                    AND pk_schema.nspname = c.table_schema\n"
    ++ codes "                    AND pk_table.relname = c.table_name\n"
    ++ codes "                    AND pk_att.attname = c.column_name\n"
    ++ codes "            ) AS is_pk\n"
    ++ codes "        FROM information_schema.columns c\n"
    ++ codes "        WHERE c.table_schema = $1 AND c.table_name = $2\n"
    ++ codes "        ORDER BY c.ordinal_position\n"
    ++ codes "    "

abbrev pub all_columns_query : Text
all_columns_query =
    codes "\n"
    ++ codes "        SELECT\n"
    ++ codes "            c.table_name::text,\n"
    ++ codes "            c.column_name::text,\n"
    ++ codes "            CASE\n"
    ++ codes "                WHEN c.data_type = 'USER-DEFINED' THEN c.udt_name::text\n"
    ++ codes "                ELSE c.data_type::text\n"
    ++ codes "            END AS data_type,\n"
    ++ codes "            c.is_nullable::text,\n"
    ++ codes "            c.column_default::text,\n"
    ++ codes "            c.is_identity::text,\n"
    ++ codes "            c.character_maximum_length,\n"
    ++ codes "            c.numeric_precision,\n"
    ++ codes "            c.numeric_scale,\n"
    ++ codes "            d.description::text AS comment,\n"
    ++ codes "            (SELECT string_agg('''' || replace(e.enumlabel, '''', '''''') || "
    ++ codes "'''', ',' ORDER BY e.enumsortorder)\n"
    ++ codes "             FROM pg_enum e\n"
    ++ codes "             JOIN pg_type t ON t.oid = e.enumtypid\n"
    ++ codes "             JOIN pg_namespace tn ON tn.oid = t.typnamespace\n"
    ++ codes "             WHERE t.typname = c.udt_name AND tn.nspname = c.udt_schema) AS "
    ++ codes "enum_values,\n"
    ++ codes "            EXISTS (\n"
    ++ codes "                SELECT 1\n"
    ++ codes "                FROM pg_constraint pk_con\n"
    ++ codes "                JOIN pg_class pk_table ON pk_table.oid = pk_con.conrelid\n"
    ++ codes "                JOIN pg_namespace pk_schema ON pk_schema.oid = "
    ++ codes "pk_table.relnamespace\n"
    ++ codes "                JOIN unnest(pk_con.conkey) AS pk_col(attnum) ON true\n"
    ++ codes "                JOIN pg_attribute pk_att\n"
    ++ codes "                    ON pk_att.attrelid = pk_table.oid\n"
    ++ codes "                    AND pk_att.attnum = pk_col.attnum\n"
    ++ codes "                    AND NOT pk_att.attisdropped\n"
    ++ codes "                WHERE pk_con.contype = 'p'\n"
    ++ codes "                    AND pk_schema.nspname = c.table_schema\n"
    ++ codes "                    AND pk_table.relname = c.table_name\n"
    ++ codes "                    AND pk_att.attname = c.column_name\n"
    ++ codes "            ) AS is_pk\n"
    ++ codes "        FROM information_schema.columns c\n"
    ++ codes "        JOIN pg_namespace n ON n.nspname = c.table_schema\n"
    ++ codes "        JOIN pg_class pc ON pc.relnamespace = n.oid AND pc.relname = "
    ++ codes "c.table_name\n"
    ++ codes "        JOIN pg_attribute a ON a.attrelid = pc.oid AND a.attname = "
    ++ codes "c.column_name\n"
    ++ codes "        LEFT JOIN pg_description d\n"
    ++ codes "            ON d.objoid = pc.oid\n"
    ++ codes "            AND d.classoid = 'pg_class'::regclass\n"
    ++ codes "            AND d.objsubid = a.attnum\n"
    ++ codes "        WHERE c.table_schema = $1\n"
    ++ codes "        ORDER BY c.table_name, c.ordinal_position\n"
    ++ codes "    "
