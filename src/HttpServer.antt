-- ===== src/HttpServer.antt =====
-- HTTP Server/httpserver.c. A byte is a number, and a C string the list of its bytes. A ssize_t or
-- size_t is a number below 2 ^ 64, as two's complement.
pub mod Parser
pub mod Handlers
pub mod Connection
pub mod Names
pub mod RequestLine
pub mod Flow
pub mod Answers
pub mod Put
use c_lang_coding_projects.Prelude.{
  ℕ, ◌+◌, ◌-◌, ◌^◌, Bool, ◌&&◌, ◌||◌, List, [], ◌∷◌, ◌==◌, ltb, leb, if◌then◌else◌, map,
}

-- `httpstatus`
pub data Status : Type 0 where
  ok : Status
  created : Status
  bad_request : Status
  forbidden : Status
  not_found : Status
  internal_server_error : Status
  not_implemented : Status
  version_not_supported : Status

-- `STATUS_CODE`
abbrev pub status_code : Status → ℕ
status_code ok = 200
status_code created = 201
status_code bad_request = 400
status_code forbidden = 403
status_code not_found = 404
status_code internal_server_error = 500
status_code not_implemented = 501
status_code version_not_supported = 505

abbrev pub is_ok : Status → Bool
is_ok ok = Bool.true
is_ok created = Bool.false
is_ok bad_request = Bool.false
is_ok forbidden = Bool.false
is_ok not_found = Bool.false
is_ok internal_server_error = Bool.false
is_ok not_implemented = Bool.false
is_ok version_not_supported = Bool.false

-- `httpreq`, less the connection.
pub record HttpReq : Type 0 where
  pub method : List ℕ
  pub uri : List ℕ
  pub version : List ℕ
  pub content_length : ℕ
  pub status : Status

-- -1 as a ssize_t
abbrev pub minus_one : ℕ
minus_one = 18446744073709551615

abbrev pub is_negative : ℕ → Bool
is_negative n = leb 9223372036854775808 n

abbrev pub is_alpha : ℕ → Bool
is_alpha x = (leb b'a' x && leb x b'z') || (leb b'A' x && leb x b'Z')

-- `convertToUpper`
abbrev pub to_upper : ℕ → ℕ
to_upper x = if leb b'a' x && leb x b'z' then x - 32 else x

abbrev pub convert_to_upper : List ℕ → List ℕ
convert_to_upper xs = map to_upper xs
