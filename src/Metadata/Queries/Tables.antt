-- ===== src/Metadata/Queries/Tables.antt =====
-- src/handlers/metadata.rs: the SQL texts of databases, schemas, tables, keys and indexes.
use tabularis_postgresql_plu.Base.{◌++◌, Text, codes}

abbrev pub foreign_keys_query : Text
foreign_keys_query =
    codes "\n"
    ++ codes "        SELECT\n"
    ++ codes "            con.conname::text AS constraint_name,\n"
    ++ codes "            src_att.attname::text AS column_name,\n"
    ++ codes "            ref_nsp.nspname::text AS foreign_schema_name,\n"
    ++ codes "            ref_cl.relname::text AS foreign_table_name,\n"
    ++ codes "            ref_att.attname::text AS foreign_column_name,\n"
    ++ codes "            CASE con.confupdtype\n"
    ++ codes "                WHEN 'a' THEN 'NO ACTION'\n"
    ++ codes "                WHEN 'r' THEN 'RESTRICT'\n"
    ++ codes "                WHEN 'c' THEN 'CASCADE'\n"
    ++ codes "                WHEN 'n' THEN 'SET NULL'\n"
    ++ codes "                WHEN 'd' THEN 'SET DEFAULT'\n"
    ++ codes "            END::text AS update_rule,\n"
    ++ codes "            CASE con.confdeltype\n"
    ++ codes "                WHEN 'a' THEN 'NO ACTION'\n"
    ++ codes "                WHEN 'r' THEN 'RESTRICT'\n"
    ++ codes "                WHEN 'c' THEN 'CASCADE'\n"
    ++ codes "                WHEN 'n' THEN 'SET NULL'\n"
    ++ codes "                WHEN 'd' THEN 'SET DEFAULT'\n"
    ++ codes "            END::text AS delete_rule,\n"
    ++ codes "            cols.key_seq\n"
    ++ codes "        FROM pg_constraint con\n"
    ++ codes "        JOIN pg_class src_cl ON src_cl.oid = con.conrelid\n"
    ++ codes "        JOIN pg_namespace src_nsp ON src_nsp.oid = src_cl.relnamespace\n"
    ++ codes "        JOIN pg_class ref_cl ON ref_cl.oid = con.confrelid\n"
    ++ codes "        JOIN pg_namespace ref_nsp ON ref_nsp.oid = ref_cl.relnamespace\n"
    ++ codes "        JOIN unnest(con.conkey, con.confkey) WITH ORDINALITY AS "
    ++ codes "cols(src_attnum, ref_attnum, key_seq) ON true\n"
    ++ codes "        JOIN pg_attribute src_att\n"
    ++ codes "            ON src_att.attrelid = src_cl.oid\n"
    ++ codes "            AND src_att.attnum = cols.src_attnum\n"
    ++ codes "            AND NOT src_att.attisdropped\n"
    ++ codes "        JOIN pg_attribute ref_att\n"
    ++ codes "            ON ref_att.attrelid = ref_cl.oid\n"
    ++ codes "            AND ref_att.attnum = cols.ref_attnum\n"
    ++ codes "            AND NOT ref_att.attisdropped\n"
    ++ codes "        WHERE con.contype = 'f'\n"
    ++ codes "          AND con.conparentid = 0\n"
    ++ codes "          AND src_nsp.nspname = $1\n"
    ++ codes "          AND src_cl.relname = $2\n"
    ++ codes "        ORDER BY con.conname, cols.key_seq\n"
    ++ codes "    "

abbrev pub all_foreign_keys_query : Text
all_foreign_keys_query =
    codes "\n"
    ++ codes "        SELECT\n"
    ++ codes "            src_cl.relname::text AS table_name,\n"
    ++ codes "            con.conname::text AS constraint_name,\n"
    ++ codes "            src_att.attname::text AS column_name,\n"
    ++ codes "            ref_nsp.nspname::text AS foreign_schema_name,\n"
    ++ codes "            ref_cl.relname::text AS foreign_table_name,\n"
    ++ codes "            ref_att.attname::text AS foreign_column_name,\n"
    ++ codes "            CASE con.confupdtype\n"
    ++ codes "                WHEN 'a' THEN 'NO ACTION'\n"
    ++ codes "                WHEN 'r' THEN 'RESTRICT'\n"
    ++ codes "                WHEN 'c' THEN 'CASCADE'\n"
    ++ codes "                WHEN 'n' THEN 'SET NULL'\n"
    ++ codes "                WHEN 'd' THEN 'SET DEFAULT'\n"
    ++ codes "            END::text AS update_rule,\n"
    ++ codes "            CASE con.confdeltype\n"
    ++ codes "                WHEN 'a' THEN 'NO ACTION'\n"
    ++ codes "                WHEN 'r' THEN 'RESTRICT'\n"
    ++ codes "                WHEN 'c' THEN 'CASCADE'\n"
    ++ codes "                WHEN 'n' THEN 'SET NULL'\n"
    ++ codes "                WHEN 'd' THEN 'SET DEFAULT'\n"
    ++ codes "            END::text AS delete_rule,\n"
    ++ codes "            cols.key_seq\n"
    ++ codes "        FROM pg_constraint con\n"
    ++ codes "        JOIN pg_class src_cl ON src_cl.oid = con.conrelid\n"
    ++ codes "        JOIN pg_namespace src_nsp ON src_nsp.oid = src_cl.relnamespace\n"
    ++ codes "        JOIN pg_class ref_cl ON ref_cl.oid = con.confrelid\n"
    ++ codes "        JOIN pg_namespace ref_nsp ON ref_nsp.oid = ref_cl.relnamespace\n"
    ++ codes "        JOIN unnest(con.conkey, con.confkey) WITH ORDINALITY AS "
    ++ codes "cols(src_attnum, ref_attnum, key_seq) ON true\n"
    ++ codes "        JOIN pg_attribute src_att\n"
    ++ codes "            ON src_att.attrelid = src_cl.oid\n"
    ++ codes "            AND src_att.attnum = cols.src_attnum\n"
    ++ codes "            AND NOT src_att.attisdropped\n"
    ++ codes "        JOIN pg_attribute ref_att\n"
    ++ codes "            ON ref_att.attrelid = ref_cl.oid\n"
    ++ codes "            AND ref_att.attnum = cols.ref_attnum\n"
    ++ codes "            AND NOT ref_att.attisdropped\n"
    ++ codes "        WHERE con.contype = 'f'\n"
    ++ codes "          AND con.conparentid = 0\n"
    ++ codes "          AND src_nsp.nspname = $1\n"
    ++ codes "        ORDER BY src_cl.relname, con.conname, cols.key_seq\n"
    ++ codes "    "

abbrev pub indexes_query : Text
indexes_query =
    codes "\n"
    ++ codes "        SELECT\n"
    ++ codes "            i.relname AS index_name,\n"
    ++ codes "            COALESCE(\n"
    ++ codes "                a.attname::text,\n"
    ++ codes "                pg_get_indexdef(ix.indexrelid, k.n::int, true)\n"
    ++ codes "            ) AS column_name,\n"
    ++ codes "            ix.indisunique AS is_unique,\n"
    ++ codes "            ix.indisprimary AS is_primary,\n"
    ++ codes "            k.n::int AS seq_in_index,\n"
    ++ codes "            (k.attnum = 0) AS is_expression\n"
    ++ codes "        FROM\n"
    ++ codes "            pg_class t\n"
    ++ codes "            JOIN pg_namespace n ON t.relnamespace = n.oid\n"
    ++ codes "            JOIN pg_index ix ON t.oid = ix.indrelid\n"
    ++ codes "            JOIN pg_class i ON i.oid = ix.indexrelid\n"
    ++ codes "            CROSS JOIN LATERAL unnest(string_to_array(ix.indkey::text, ' "
    ++ codes "')::int2[])\n"
    ++ codes "                WITH ORDINALITY AS k(attnum, n)\n"
    ++ codes "            LEFT JOIN pg_attribute a\n"
    ++ codes "                ON a.attrelid = t.oid\n"
    ++ codes "                AND a.attnum = k.attnum\n"
    ++ codes "                AND k.attnum <> 0\n"
    ++ codes "        WHERE\n"
    ++ codes "            t.relkind IN ('r', 'm')\n"
    ++ codes "            AND n.nspname = $1\n"
    ++ codes "            AND t.relname = $2\n"
    ++ codes "        ORDER BY\n"
    ++ codes "            i.relname,\n"
    ++ codes "            k.n\n"
    ++ codes "    "

abbrev pub tables_query : Text
tables_query =
    codes "\n"
    ++ codes "        SELECT t.table_name::text AS name, d.description::text AS comment\n"
    ++ codes "        FROM information_schema.tables t\n"
    ++ codes "        JOIN pg_namespace n ON n.nspname = t.table_schema\n"
    ++ codes "        JOIN pg_class c ON c.relnamespace = n.oid AND c.relname = t.table_name\n"
    ++ codes "        LEFT JOIN pg_description d\n"
    ++ codes "            ON d.objoid = c.oid\n"
    ++ codes "            AND d.classoid = 'pg_class'::regclass\n"
    ++ codes "            AND d.objsubid = 0\n"
    ++ codes "        WHERE t.table_schema = $1 AND t.table_type = 'BASE TABLE'\n"
    ++ codes "        ORDER BY t.table_name ASC\n"
    ++ codes "    "

abbrev pub databases_query : Text
databases_query =
    codes "SELECT datname::text FROM pg_database WHERE datistemplate = false ORDER BY "
    ++ codes "datname"

abbrev pub schemas_query : Text
schemas_query =
    codes "SELECT schema_name::text FROM information_schema.schemata WHERE schema_name NOT "
    ++ codes "IN ('pg_catalog', 'information_schema', 'pg_toast') AND schema_name NOT LIKE "
    ++ codes "'pg_temp_%' AND schema_name NOT LIKE 'pg_toast_temp_%' ORDER BY schema_name"
