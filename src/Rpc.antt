-- ===== src/Rpc.antt =====
-- src/rpc.rs: one line of the protocol, from its parse to its response.
pub mod Methods
pub mod Responses
use tabularis_postgresql_plu.Rpc.Methods.{Handler, handler_of}
use tabularis_postgresql_plu.Query.Server.{Result, ok, err}
use tabularis_postgresql_plu.Json.{
  Number, pos_int, neg_int, Value, null, number, string, object, Fields, end, field, get, as_str,
  as_object, is_object, is_string, contains_key,
}
use tabularis_postgresql_plu.Base.{
  ℕ, ◌≡◌, refl, Bool, true, false, not, Option, none, some, ◌>>=◌, Text, codes, ◌++◌, [],
  if◌then◌else◌, get_or_else,
}

abbrev pub code : ℕ → Value
code n = number (neg_int n)

unfoldable pub ok_response : Value → Value → Value
ok_response id result = object (
    field (codes "id") id
      (field (codes "jsonrpc") (string (codes "2.0")) (field (codes "result") result end)))

-- `error_response`, whose code is -(n + 1).
unfoldable pub error_response : Value → ℕ → Text → Value
error_response id n message = object (
    field (codes "error")
      (object (field (codes "code") (code n) (field (codes "message") (string message) end)))
      (field (codes "id") id (field (codes "jsonrpc") (string (codes "2.0")) end)))

unfoldable pub not_implemented : Value → Text → Value
unfolding error_response
not_implemented id method =
    error_response id 32600
      (codes "Method not found (-32601): '" ++ (method ++ codes "' is not implemented"))

abbrev pub object_required : Text
object_required = codes "Invalid Request: JSON-RPC request must be a JSON object"

abbrev pub method_required : Text
method_required = codes "Invalid Request: JSON-RPC request must contain a string 'method' member"

-- `as_object().is_some_and(|o| o.get("method").is_some_and(Value::is_string))`.
unfoldable pub has_method : Value → Bool
unfolding as_object get is_string
has_method v = elim (as_object v) [
  | none ↦ false
  | some o ↦ elim (get (object o) (codes "method")) [ none ↦ false | some m ↦ is_string m ]
]

unfoldable pub is_notification : Value → Bool
unfolding as_object contains_key
is_notification v = not (elim (as_object v) [ none ↦ false | some o ↦ contains_key o (codes "id") ])

unfoldable pub id_of : Value → Value
unfolding get
id_of v = get_or_else (get v (codes "id")) null

unfoldable pub method_of : Value → Text
unfolding get as_str
method_of v = get_or_else (get v (codes "method") >>= as_str) []

unfoldable pub params_of : Value → Value
unfolding get
params_of v = get_or_else (get v (codes "params")) null

-- `parse` is `serde_json::from_str`; `serve` runs the handler of a method on the program's state `S`.
module _ {S : Type 0} (parse : Text → Result Text Value)
    (serve : Handler → Value → Value → S → Value × S) where
  unfoldable pub dispatch : Text → Value → Value → S → Value × S
  unfolding handler_of not_implemented
  dispatch method id params s = elim (handler_of method) [
    | some h ↦ serve h id params s
    | none ↦ (not_implemented id method, s)
  ]

  -- Behind the parse.
  unfoldable pub handle_request : Value → S → Option Value × S
  unfolding dispatch has_method is_notification id_of method_of params_of error_response is_object
  handle_request v s =
      if not (is_object v)
      then (some (error_response null 32599 object_required), s)
      else if not (has_method v)
      then (some (error_response (id_of v) 32599 method_required), s)
      else (let (response, s') = dispatch (method_of v) (id_of v) (params_of v) s in
          (if is_notification v then none else some response, s'))

  unfoldable pub handle_parsed : Result Text Value → S → Option Value × S
  unfolding handle_request error_response
  handle_parsed (err e) s = (some (error_response null 32699 (codes "parse error: " ++ e)), s)
  handle_parsed (ok v) s = handle_request v s

  unfoldable pub handle_line : Text → S → Option Value × S
  unfolding handle_parsed
  handle_line line s = handle_parsed (parse line) s

unfoldable pub peek : Result Text Value → Option Text
unfolding as_object get as_str
peek (err e) = none
peek (ok v) = do o ← as_object v; m ← get (object o) (codes "method"); as_str m

-- The method by which the reader routes a line.
unfoldable pub peek_method : (Text → Result Text Value) → Text → Option Text
unfolding peek
peek_method parse line = peek (parse line)
