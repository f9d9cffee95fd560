-- ===== src/Web/Manager.antt =====
-- `HTTPManager` of src/common/http_manager.{h,cpp} and http_manager.t.cpp: requests for endpoints with
-- handlers and for files below a directory. Paths and header values are lists of bytes, a method is a
-- number. The file system and `prepare_payload` of Boost.Beast are parameters; a handler is a function
-- that answers or throws; after an exception no count is read.
-- The visit counts, which the source keeps in a singleton, are passed on.
pub mod Serve
use localsoftware.Common.{
  ℕ, Bool, true, false, not, ◌&&◌, ◌||◌, List, [], ◌∷◌, ◌++◌, Option, none, some, ◌==◌,
  if◌then◌else◌,
}
use localsoftware.Common.Text.{codes}
use localsoftware.Common.Maps.{Map, lookup, insert, erase, contains, nat_eq, bytes_eq, bytes_beq}
use localsoftware.Runtime.Types.{Result, ok, err, ◌>>=◌, or_fault, runtime_error, Fault}
use localsoftware.Web.Stats.{Visits, add_access}
use localsoftware.Web.Tokens.{starts_with}

abbrev pub Bytes : Type 0
Bytes = List ℕ

pub data Field : Type 0 where
  server connection content_type : Field

pub record Request : Type 0 where
  pub method : ℕ
  pub target : Bytes
  pub connection_header : Option Bytes
  -- Whether the body type is `string_body`.
  pub string_body : Bool

-- The headers in the order in which `set` was called.
pub record Response : Type 0 where
  pub status : ℕ
  pub headers : List (Field × Bytes)
  pub body : Bytes

-- `fs::is_directory`, `fs::canonical`, `fs::exists`, and opening and reading a file, whose size may be
-- refused. `none` is a file that does not open, `err` an exception.
pub record FileSystem : Type 0 where
  pub is_directory : Bytes → Result Bool
  pub canonical : Bytes → Result Bytes
  pub exists : Bytes → Result Bool
  pub read : Bytes → Result (Option Bytes)

abbrev pub Handler : Type 0
Handler = Request → Result Response

pub record Manager : Type 0 where
  pub service : Bytes
  pub base_path : Bytes
  pub handlers : Map Bytes (Map ℕ Handler)

pub add_endpoint : Manager → Bytes → Handler → ℕ → Manager
unfolding lookup insert
add_endpoint m endpoint handler verb =
    let verbs : Map ℕ Handler = elim (lookup endpoint m.handlers) [ none ↦ [] | some v ↦ v ] in
    record m { handlers = insert endpoint (insert verb handler verbs) m.handlers }

pub remove_endpoint : Manager → Bytes → Manager × Bool
unfolding lookup erase
remove_endpoint m endpoint =
    (record m { handlers = erase endpoint m.handlers }, contains endpoint m.handlers)

-- `fs::path::operator/=`: an absolute path replaces the one it is appended to.
abbrev pub ends_with_slash : Bytes → Bool
ends_with_slash [] = true
ends_with_slash (c ∷ []) = c == b'/'
ends_with_slash (c ∷ d ∷ s) = ends_with_slash (d ∷ s)

unfoldable pub append_path : Bytes → Bytes → Bytes
append_path base path =
    if starts_with (codes "/") path
    then path
    else if ends_with_slash base
    then base ++ path
    else base ++ (b'/' ∷ path)

-- `target.substr(1)` if it begins with a slash.
abbrev pub without_slash : Bytes → Bytes
without_slash [] = []
without_slash (c ∷ s) = if c == b'/' then s else c ∷ s

unfoldable pub assure_path : Manager → FileSystem → Bytes → Result Bytes
unfolding append_path
assure_path m fs target = do
  let request_path = append_path m.base_path (without_slash target)
  dir ← fs.is_directory request_path
  canonical_path ←
      fs.canonical (if dir then append_path request_path (codes "index.html") else request_path)
  if starts_with m.base_path canonical_path then ok canonical_path else err runtime_error

-- Up to the first question mark.
unfoldable pub without_query : Bytes → Bytes
without_query [] = []
without_query (c ∷ s) = let rest = without_query s in if c == b'?' then [] else c ∷ rest

-- The `catch` clauses turn an exception into a value.
abbrev pub or_else {ℓ} : {A : Type ℓ} → Result A → A → A
or_else (ok a) b = a
or_else (err e) b = b

unfoldable pub endpoint_serviceable : Manager → FileSystem → Bytes → Bool
unfolding lookup assure_path without_query
endpoint_serviceable m fs endpoint =
    let target = without_query endpoint in
    contains target m.handlers || or_else (assure_path m fs target >>= fs.exists) false

-- `path.extension()`: from the last dot of the file name on, unless it is the name's first byte.
abbrev pub file_name : Bytes → Bytes → Bytes
file_name [] name = name
file_name (c ∷ s) name = file_name s (if c == b'/' then s else name)

abbrev pub last_dot : Bytes → Bytes → Bytes
last_dot [] found = found
last_dot (c ∷ s) found = last_dot s (if c == b'.' then c ∷ s else found)

abbrev pub tail : Bytes → Bytes
tail [] = []
tail (c ∷ s) = s

abbrev pub extension : Bytes → Bytes
extension path =
    let name = file_name path path in
    if bytes_beq name (codes "..") then [] else last_dot (tail name) []

unfoldable pub get_mime_type : Bytes → Bytes
get_mime_type path =
    let ext = extension path in
    if bytes_beq ext (codes ".html") || bytes_beq ext (codes ".htm")
    then codes "text/html"
    else if bytes_beq ext (codes ".css")
    then codes "text/css"
    else if bytes_beq ext (codes ".js")
    then codes "application/javascript"
    else if bytes_beq ext (codes ".json")
    then codes "application/json"
    else if bytes_beq ext (codes ".png")
    then codes "image/png"
    else if bytes_beq ext (codes ".jpg") || bytes_beq ext (codes ".jpeg")
    then codes "image/jpeg"
    else if bytes_beq ext (codes ".gif")
    then codes "image/gif"
    else if bytes_beq ext (codes ".svg")
    then codes "image/svg+xml"
    else if bytes_beq ext (codes ".txt")
    then codes "text/plain"
    else if bytes_beq ext (codes ".pdf")
    then codes "application/pdf"
    else codes "application/octet-stream"

unfoldable pub get_response_headers : Request → List (Field × Bytes)
get_response_headers req =
    (server, codes "AIO-Landing")
    ∷ (elim req.connection_header [ none ↦ [] | some value ↦ (connection, value) ∷ [] ])

abbrev pub status_ok : ℕ
status_ok = 200

abbrev pub not_found : ℕ
not_found = 404

abbrev pub method_not_allowed : ℕ
method_not_allowed = 405

module _ (prepare_payload : Response → Response) where
  unfoldable pub prepare_response : List (Field × Bytes) → ℕ → Bytes → Response
  prepare_response headers status body =
      prepare_payload (record { status = status; headers = headers; body = body })

  unfoldable pub error_response : Request → ℕ → Bytes → Response
  unfolding prepare_response get_response_headers
  error_response req status message =
      prepare_response (get_response_headers req ++ (content_type, codes "text/plain") ∷ []) status
        message

  unfoldable pub file_response : Request → Bytes → Bytes → Response
  unfolding prepare_response get_response_headers get_mime_type
  file_response req path content =
      prepare_response (get_response_headers req ++ (content_type, get_mime_type path) ∷ [])
        status_ok content

  unfoldable pub read_file : FileSystem → Bytes → Result (Option (Bytes × Bytes))
  read_file fs path = do
    file ← fs.read path
    ok (elim file [ none ↦ none | some content ↦ some (path, content) ])

  -- The `try` block: the path that is served and its content, if the file opens,
  unfoldable pub find_file : Manager → FileSystem → Bytes → Result (Option (Bytes × Bytes))
  unfolding assure_path read_file
  find_file m fs target = assure_path m fs target >>= read_file fs

  -- and the answer.
  unfoldable pub answer :
      Manager → Visits → ℕ → Request → Option (Bytes × Bytes) → Response × Visits
  unfolding file_response error_response add_access
  answer m visits now req none = (error_response req not_found (codes "Not Found"), visits)
  answer m visits now req (some (path, content)) =
      (file_response req path content, add_access visits m.service path now)

  unfoldable pub handle_file :
      Manager → FileSystem → Visits → ℕ → Request → Bytes → Response × Visits
  unfolding find_file answer
  handle_file m fs visits now req target =
      answer m visits now req (or_else (find_file m fs target) none)

  unfoldable pub handle_request :
      Manager → FileSystem → Visits → ℕ → Request → Result (Response × Visits)
  unfolding lookup without_query handle_file prepare_response get_response_headers add_access
  handle_request m fs visits now req =
      let target = without_query req.target in
      elim (lookup target m.handlers) [
        | none ↦ ok (handle_file m fs visits now req target)
        | some verbs ↦
            if req.string_body
            then (do
              let counted = add_access visits m.service target now
              resp ← elim (lookup req.method verbs) [
                | none ↦ ok (prepare_response (get_response_headers req) method_not_allowed [])
                | some handler ↦ handler req
              ]
              ok (resp, counted))
            else err runtime_error
      ]

  -- `pred` returns its response and what it leaves in `skip`, which was true.
  unfoldable pub handle_request_with_pred :
      Manager
      → FileSystem
      → Visits
      → ℕ
      → Request
      → (Request → Option Response × Bool)
      → Result (Option Response × Visits)
  unfolding handle_request
  handle_request_with_pred m fs visits now req pred =
      let (resp, skip) = pred req in
      elim resp [
        | some r ↦ ok (some r, visits)
        | none ↦ if not skip then ok (none, visits) else (do
          answered ← handle_request m fs visits now req
          ok (some answered.0, answered.1))
      ]
