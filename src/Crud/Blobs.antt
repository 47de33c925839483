-- ===== src/Crud/Blobs.antt =====
-- src/handlers/blob.rs: a binary column of a row, written to a file or sent to the host. The file
-- system, the parent of a path and the queries of src/client.rs are parameters over one state.
use tabularis_postgresql_plu.Binding.{Crates, TypedPgParam}
use tabularis_postgresql_plu.Binding.Keys.{build_pk_map_predicate}
use tabularis_postgresql_plu.Blob.{encode_blob_full}
use tabularis_postgresql_plu.Crud.{Statement, or_default}
use tabularis_postgresql_plu.Identifiers.{quote_identifier, qualified}
use tabularis_postgresql_plu.Rpc.{ok_response, error_response}
use tabularis_postgresql_plu.Query.Server.{Result, ok, err}
use tabularis_postgresql_plu.Json.{Value, null, string, Fields, end, get, get_str, as_object}
use tabularis_postgresql_plu.Ddl.Requests.{inner_params}
use tabularis_postgresql_plu.Base.{
  ℕ, ◌≡◌, refl, ap, ◌⊎◌, inl, inr, Bool, true, List, [], ◌∷◌, ◌++◌, Option, none, some, ◌>>=◌, Text,
  codes, trim, is_nil, get_or_else, if◌then◌else◌,
}

-- `parent` is `Path::parent` and `write` is `std::fs::write`, which returns the text of its error. A row
-- is what `try_get` makes of its one column.
pub record World (S : Type 0) : Type 0 where
  pub is_dir : Text → S → Bool
  pub parent : Text → Option Text
  pub write : Text → List ℕ → S → Option Text × S
  pub get_column_types_map : Value → Text → Text → S → Result Text (List (Text × Text)) × S
  pub query_typed :
      Value → Text → List TypedPgParam → S → Result Text (List (Result Text (List ℕ))) × S

abbrev text_of : Value → Text → Text → Text
text_of params key d = get_or_else (get_str params key) d

abbrev key_of : Value → Fields
key_of params = get_or_else (get params (codes "pk_map") >>= as_object) end

unfoldable pub select_text : Text → Text → Statement → Statement
unfolding quote_identifier
select_text table col_name (ok (predicate, params)) = ok (
  codes "SELECT "
      ++ (quote_identifier col_name
          ++ (codes " FROM " ++ (table ++ (codes " WHERE " ++ predicate)))),
  params,
)
select_text table col_name (err e) = err e

-- The first row.
unfoldable pub first_cell : Result Text (List (Result Text (List ℕ))) → Result Text (List ℕ)
first_cell (ok []) = err (codes "Row not found")
first_cell (ok (cell ∷ rows)) = cell
first_cell (err e) = err e

module _ {S : Type 0} (world : World S) (crates : Crates) where
  -- A parent that is not empty has to be a directory.
  unfoldable pub validate_parent : Text → Option Text → S → Result Text Bool
  validate_parent file_path none s = ok true
  validate_parent file_path (some dir) s =
      if is_nil dir
      then ok true
      else if world.is_dir dir s
      then ok true
      else err (
          codes "file_path '"
          ++ (file_path ++ (codes "': parent directory '" ++ (dir ++ codes "' does not exist"))))

  unfoldable pub validate_writable_file_path : Text → S → Result Text Bool
  unfolding validate_parent trim
  validate_writable_file_path file_path s =
      if is_nil (trim file_path)
      then err (codes "file_path must not be empty")
      else if world.is_dir file_path s
      then err (codes "file_path '" ++ (file_path ++ codes "' is a directory, not a file"))
      else validate_parent file_path (world.parent file_path) s

  unfoldable pub queried : Value → Statement → S → Result Text (List ℕ) × S
  unfolding first_cell
  queried conn (ok (query, params)) s =
      let r = world.query_typed conn query params s in (first_cell (r.0), r.1)
  queried conn (err e) s = (err e, s)

  unfoldable pub fetch_blob_bytes :
      Value → Text → Text → Fields → Text → S → Result Text (List ℕ) × S
  unfolding queried select_text build_pk_map_predicate qualified or_default
  fetch_blob_bytes conn table col_name pk_map schema s =
      let types = world.get_column_types_map conn table schema s in
      queried conn
        (select_text (qualified schema table) col_name
          (build_pk_map_predicate crates (or_default [] (types.0)) pk_map 1))
        (types.1)

  unfoldable pub fetch : Value → S → Result Text (List ℕ) × S
  unfolding fetch_blob_bytes inner_params get get_str as_object
  fetch params s =
      fetch_blob_bytes (inner_params params) (text_of params (codes "table") [])
        (text_of params (codes "col_name") []) (key_of params)
        (text_of params (codes "schema") (codes "public")) s

  unfoldable pub written : Value → Text → Option Text × S → Value × S
  unfolding ok_response error_response
  written id file_path (none, s) = (ok_response id null, s)
  written id file_path (some e, s) =
      (error_response id 32602 (codes "Failed to write '" ++ (file_path ++ (codes "': " ++ e))), s)

  unfoldable pub write_fetched : Value → Text → Result Text (List ℕ) × S → Value × S
  unfolding written error_response
  write_fetched id file_path (ok bytes, s) = written id file_path (world.write file_path bytes s)
  write_fetched id file_path (err e, s) = (error_response id 32602 e, s)

  unfoldable pub save_valid : Value → Text → Result Text Bool → Value → S → Value × S
  unfolding write_fetched error_response fetch
  save_valid id file_path (ok b) params s = write_fetched id file_path (fetch params s)
  save_valid id file_path (err e) params s = (error_response id 32601 e, s)

  unfoldable pub save_blob_to_file : Value → Value → S → Value × S
  unfolding save_valid validate_writable_file_path get_str
  save_blob_to_file id params s =
      let file_path = text_of params (codes "file_path") [] in
      save_valid id file_path (validate_writable_file_path file_path s) params s

  module _ (infer_mime : List ℕ → Option Text) (base64_encode : List ℕ → Text) where
    unfoldable pub as_data_url : Value → Result Text (List ℕ) × S → Value × S
    unfolding encode_blob_full ok_response error_response
    as_data_url id (ok bytes, s) =
        (ok_response id (string (encode_blob_full infer_mime base64_encode bytes)), s)
    as_data_url id (err e, s) = (error_response id 32602 e, s)

    unfoldable pub fetch_blob_as_data_url : Value → Value → S → Value × S
    unfolding as_data_url fetch
    fetch_blob_as_data_url id params s = as_data_url id (fetch params s)

  fetch_blob_bytes-keyless :
      (conn : Value) (table col_name : Text) (pk_map : Fields) (schema : Text) (s : S)
      → pk_map ≡ end
      → fetch_blob_bytes conn table col_name pk_map schema s ≡ (
        err (codes "pk_map must not be empty"),
        (world.get_column_types_map conn table schema s).1,
      )
  unfolding fetch_blob_bytes queried select_text build_pk_map_predicate
  fetch_blob_bytes-keyless conn table col_name pk_map schema s h = rw h refl

  abbrev looked_up : Value → S → S
  looked_up params s =
      (world.get_column_types_map (inner_params params) (text_of params (codes "table") [])
        (text_of params (codes "schema") (codes "public")) s).1

  save_valid-keyless :
      (id : Value) (file_path : Text) (r : Result Text Bool) (params : Value) (s : S)
      → key_of params ≡ end
      → ((save_valid id file_path r params s).1 ≡ s)
        ⊎ ((save_valid id file_path r params s).1 ≡ looked_up params s)
  unfolding save_valid write_fetched fetch
  save_valid-keyless id file_path (err e) params s h = inl refl
  save_valid-keyless id file_path (ok b) params s h = inr (
      ap (λ r. (write_fetched id file_path r).1)
        (fetch_blob_bytes-keyless _ _ (text_of params (codes "col_name") []) (key_of params) _ s h))

  -- Without a key no row is read and no file is written: after the request the world is as it was, or
  -- as the lookup of the column types left it.
  pub save_blob_to_file-keyless :
      (id params : Value) (s : S)
      → key_of params ≡ end
      → ((save_blob_to_file id params s).1 ≡ s)
        ⊎ ((save_blob_to_file id params s).1 ≡ looked_up params s)
  unfolding save_blob_to_file
  save_blob_to_file-keyless id params s h = save_valid-keyless id _ _ params s h
