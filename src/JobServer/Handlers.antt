-- ===== src/JobServer/Handlers.antt =====
-- handle_get, handle_put and handle_request of Multi-Threaded HTTP Server/httpserver.c, for one
-- connection. What the system calls and the connection library return is a parameter (Results);
-- what the functions do is a list of actions. A Response_t is its status.
use c_lang_coding_projects.Prelude.{
  Bool, not, List, [], ◌∷◌, ◌++◌, Option, none, some, if◌then◌else◌,
}
use c_lang_coding_projects.HttpServer.{
  Status, ok, created, forbidden, not_found, internal_server_error, not_implemented,
}

-- The request of a connection.
pub data Method : Type 0 where
  get : Method
  put : Method
  other_method : Method

-- What stat, open and rename return; the errno of a failed one is told apart as the handlers do.
pub data FileKind : Type 0 where
  absent : FileKind
  directory : FileKind
  plain : FileKind

pub data Opened : Type 0 where
  opened : Opened
  denied : Opened
  open_failed : Opened

pub data Renamed : Type 0 where
  renamed : Renamed
  refused : Renamed
  rename_failed : Renamed

-- `parse`, `recv_file` and `send_result` are what conn_parse, conn_recv_file and the
-- conn_send_response of an unsupported method return; none is NULL.
pub record Results : Type 0 where
  pub parse : Option Status
  pub method : Method
  pub kind : FileKind
  pub readable : Bool
  pub open_result : Opened
  pub no_temp : Bool
  pub recv_file : Option Status
  pub send_result : Option Status
  pub existed : Bool
  pub rename_result : Renamed

module _ (Uri : Type 0) where
  pub data Action : Type 0 where
    starts : Action
    finishes : Action
    reader_locks : Uri → Action
    reader_unlocks : Uri → Action
    writer_locks : Uri → Action
    writer_unlocks : Uri → Action
    -- all calls of stat, access and open of a file, one behind the other
    looks_at : Uri → Action
    -- conn_send_file and conn_send_response
    sends_file : Uri → Action
    sends : Status → Action
    -- the temporary file
    receives : Action
    renames : Uri → Action
    unlinks : Action
    audits : Uri → Status → Action
    -- response_get_code(NULL), in the place of the audit's status
    reads_null : Uri → Action

  -- What a handler does, and the response that it returns.
  abbrev pub Handled : Type 0
  Handled = List Action × Status

  abbrev pub get_opened : Uri → Opened → Handled
  get_opened uri opened = (looks_at uri ∷ sends_file uri ∷ [], ok)
  get_opened uri denied = (looks_at uri ∷ sends forbidden ∷ [], forbidden)
  get_opened uri open_failed =
      (looks_at uri ∷ sends internal_server_error ∷ [], internal_server_error)

  abbrev pub get_kind : Uri → Bool → Opened → FileKind → Handled
  get_kind uri readable o absent = (looks_at uri ∷ sends not_found ∷ [], not_found)
  get_kind uri readable o directory = (looks_at uri ∷ sends forbidden ∷ [], forbidden)
  get_kind uri readable o plain =
      if not readable then (looks_at uri ∷ sends forbidden ∷ [], forbidden) else get_opened uri o

  unfoldable pub handle_get : Results → Uri → Handled
  handle_get r uri = get_kind uri r.readable r.open_result r.kind

  -- `res` where the file was renamed.
  abbrev pub put_response : Option Status → Bool → Status
  put_response (some s) existed = s
  put_response none existed = if existed then ok else created

  abbrev pub put_renamed : Results → Renamed → List Action × Status
  put_renamed r renamed = ([], put_response r.recv_file r.existed)
  put_renamed r refused = (unlinks ∷ [], forbidden)
  put_renamed r rename_failed = (unlinks ∷ [], internal_server_error)

  -- `out:`
  abbrev pub put_out : List Action → List Action × Status → Handled
  put_out before (actions, s) = (before ++ (actions ++ sends s ∷ []), s)

  unfoldable pub handle_put : Results → Uri → Handled
  handle_put r uri =
      if r.no_temp
      then put_out [] ([], internal_server_error)
      else put_out
          (receives ∷ writer_locks uri ∷ looks_at uri ∷ renames uri ∷ writer_unlocks uri ∷ [])
          (put_renamed r r.rename_result)

  abbrev pub locked : Uri → Handled → Handled
  locked uri (actions, s) = (reader_locks uri ∷ (actions ++ reader_unlocks uri ∷ []), s)

  -- The actions of a round up to the audit, and the `res` that it finds.
  abbrev pub Round : Type 0
  Round = List Action × Option Status

  abbrev pub returns : Handled → Round
  returns (actions, s) = (actions, some s)

  abbrev pub handle_method : Results → Uri → Method → Round
  handle_method r uri get = returns (locked uri (handle_get r uri))
  handle_method r uri put = returns (handle_put r uri)
  handle_method r uri other_method = (sends not_implemented ∷ [], r.send_result)

  abbrev pub handle_parsed : Results → Uri → Option Status → Round
  handle_parsed r uri (some s) = (sends s ∷ [], some s)
  handle_parsed r uri none = handle_method r uri r.method

  abbrev pub with_audit : Uri → Round → List Action
  with_audit uri (actions, some s) = starts ∷ (actions ++ audits uri s ∷ finishes ∷ [])
  with_audit uri (actions, none) = starts ∷ (actions ++ reads_null uri ∷ [])

  -- One round of the loop of `handle_request`; the list ends with a read through NULL.
  unfoldable pub handle_request : Results → Uri → List Action
  handle_request r uri = with_audit uri (handle_parsed r uri r.parse)
