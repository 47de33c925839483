-- ===== src/Metadata/Queries/Routines.antt =====
-- src/handlers/metadata.rs: the SQL texts of routines and triggers.
use tabularis_postgresql_plu.Base.{◌++◌, Text, codes}

abbrev pub version_query : Text
version_query = codes "SELECT current_setting('server_version_num')::int4 AS v"

abbrev pub routines_query : Text
routines_query =
    codes "\n"
    ++ codes "            SELECT proname, prokind\n"
    ++ codes "            FROM pg_proc\n"
    ++ codes "            WHERE pronamespace = (SELECT oid FROM pg_namespace WHERE nspname = "
    ++ codes "$1)\n"
    ++ codes "            AND prokind IN ('f', 'p')\n"
    ++ codes "            ORDER BY proname\n"
    ++ codes "        "

abbrev pub old_routines_query : Text
old_routines_query =
    codes "\n"
    ++ codes "            SELECT proname, 'f'::\"char\" AS prokind\n"
    ++ codes "            FROM pg_proc\n"
    ++ codes "            WHERE pronamespace = (SELECT oid FROM pg_namespace WHERE nspname = "
    ++ codes "$1)\n"
    ++ codes "            AND NOT proisagg\n"
    ++ codes "            AND NOT proiswindow\n"
    ++ codes "            ORDER BY proname\n"
    ++ codes "        "

abbrev pub routine_info_query : Text
routine_info_query =
    codes "\n"
    ++ codes "        SELECT data_type, routine_type\n"
    ++ codes "        FROM information_schema.routines\n"
    ++ codes "        WHERE routine_schema = $1 AND routine_name = $2\n"
    ++ codes "        LIMIT 1\n"
    ++ codes "    "

abbrev pub routine_parameters_query : Text
routine_parameters_query =
    codes "\n"
    ++ codes "        SELECT p.parameter_name, p.data_type, p.parameter_mode, "
    ++ codes "p.ordinal_position\n"
    ++ codes "        FROM information_schema.parameters p\n"
    ++ codes "        JOIN information_schema.routines r ON p.specific_name = r.specific_name\n"
    ++ codes "        WHERE r.routine_schema = $1 AND r.routine_name = $2\n"
    ++ codes "        ORDER BY p.ordinal_position\n"
    ++ codes "    "

abbrev pub routine_definition_query : Text
routine_definition_query =
    codes "\n"
    ++ codes "        SELECT pg_get_functiondef(p.oid) as definition\n"
    ++ codes "        FROM pg_proc p\n"
    ++ codes "        JOIN pg_namespace n ON p.pronamespace = n.oid\n"
    ++ codes "        WHERE n.nspname = $1 AND p.proname = $2\n"
    ++ codes "        LIMIT 1\n"
    ++ codes "    "

abbrev pub triggers_query : Text
triggers_query =
    codes "\n"
    ++ codes "        SELECT\n"
    ++ codes "            t.trigger_name AS name,\n"
    ++ codes "            t.event_object_table AS table_name,\n"
    ++ codes "            string_agg(t.event_manipulation, ' OR ' ORDER BY "
    ++ codes "t.event_manipulation) AS event,\n"
    ++ codes "            t.action_timing AS timing\n"
    ++ codes "        FROM information_schema.triggers t\n"
    ++ codes "        WHERE t.trigger_schema = $1\n"
    ++ codes "        GROUP BY t.trigger_name, t.event_object_table, t.action_timing\n"
    ++ codes "        ORDER BY t.trigger_name\n"
    ++ codes "    "

abbrev pub trigger_definition_query : Text
trigger_definition_query =
    codes "\n"
    ++ codes "        SELECT pg_get_triggerdef(t.oid, true) AS definition\n"
    ++ codes "        FROM pg_trigger t\n"
    ++ codes "        JOIN pg_class c ON t.tgrelid = c.oid\n"
    ++ codes "        JOIN pg_namespace n ON c.relnamespace = n.oid\n"
    ++ codes "        WHERE t.tgname = $1\n"
    ++ codes "          AND c.relname = $2\n"
    ++ codes "          AND n.nspname = $3\n"
    ++ codes "          AND NOT t.tgisinternal\n"
    ++ codes "        LIMIT 1\n"
    ++ codes "    "
