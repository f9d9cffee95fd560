-- ===== src/Web/Manager/Serve.antt =====
-- What a request gets, and which files it can reach.
use localsoftware.Common.{
  ℕ, ◌≡◌, ◌≢◌, refl, ap, sym, subst, ◌∙◌, Bool, true, false, ◌||◌, [], ◌∷◌, ◌++◌, Option, none,
  some, Option-cases, Bool-cases, inl, inr, arith, if◌then◌else◌, ◌==◌,
}
use mathlib.Core.Bool.{false≢true}
use localsoftware.Common.Text.{codes}
use localsoftware.Common.Maps.{Map, lookup, contains, nat_eq, bytes_eq}
use localsoftware.Runtime.Types.{Result, ok, err, ◌>>=◌, runtime_error, Fault}
use localsoftware.Web.Stats.{Visits, add_access}
use localsoftware.Web.Tokens.{starts_with}
use localsoftware.Web.Manager.{
  Bytes, Request, Response, FileSystem, Handler, Manager, append_path, without_slash, assure_path,
  without_query, or_else, endpoint_serviceable, get_response_headers, prepare_response,
  error_response, file_response, read_file, find_file, answer, handle_file, handle_request,
  not_found, method_not_allowed,
}

starts_with-rest : (p s : Bytes) → starts_with p s ≡ true → (rest : Bytes) × (s ≡ p ++ rest)
starts_with-rest [] s h = (s, refl)
starts_with-rest (c ∷ p) [] h = cc
starts_with-rest (c ∷ p) (d ∷ s) h =
    let same : d ≡ c = ground (arith, h) in
    let more : starts_with p s ≡ true = ground (arith, h) in
    let (rest, e) = starts_with-rest p s more in (rest, rw (same, e) refl)

starts_with-append : (p s : Bytes) → starts_with p (p ++ s) ≡ true
starts_with-append [] s = refl
starts_with-append (c ∷ p) s = ground (arith, starts_with-append p s)

-- The path of a target below the base path.
abbrev pub below : Manager → Bytes → Bytes
below m target = append_path m.base_path (without_slash target)

-- The path that is looked for: that of the target, or of the index in it if it is a directory.
abbrev pub Asked : Manager → FileSystem → Bytes → Bytes → Type 0
Asked m fs target asked =
    (dir : Bool) × (fs.is_directory (below m target) ≡ ok dir)
    × (asked ≡ (if dir then append_path (below m target) (codes "index.html") else below m target))

-- The canonical path of a target, if it begins with the base path, or why there is none.
pub data Located (m : Manager) (fs : FileSystem) (target : Bytes) : Result Bytes → Type 0 where
  inside :
      (asked rest : Bytes)
      → Asked m fs target asked
      → fs.canonical asked ≡ ok (m.base_path ++ rest)
      → Located m fs target (ok (m.base_path ++ rest))
  no_kind : (e : Fault) → fs.is_directory (below m target) ≡ err e → Located m fs target (err e)
  no_path :
      (asked : Bytes) (e : Fault)
      → Asked m fs target asked
      → fs.canonical asked ≡ err e
      → Located m fs target (err e)
  outside :
      (asked p : Bytes)
      → Asked m fs target asked
      → fs.canonical asked ≡ ok p
      → ((rest : Bytes) → p ≢ m.base_path ++ rest)
      → Located m fs target (err runtime_error)

-- Why a target has no file: it has no canonical path below the base path, or the file there does not open or
-- cannot be read.
pub data NoFile (m : Manager) (fs : FileSystem) (target : Bytes) : Type 0 where
  away : (e : Fault) → Located m fs target (err e) → NoFile m fs target
  closed :
      (asked rest : Bytes)
      → Asked m fs target asked
      → fs.canonical asked ≡ ok (m.base_path ++ rest)
      → fs.read (m.base_path ++ rest) ≡ ok none
      → NoFile m fs target
  unreadable :
      (asked rest : Bytes) (e : Fault)
      → Asked m fs target asked
      → fs.canonical asked ≡ ok (m.base_path ++ rest)
      → fs.read (m.base_path ++ rest) ≡ err e
      → NoFile m fs target

guarded :
    (m : Manager) (fs : FileSystem) (target asked : Bytes) (r : Result Bytes)
    → Asked m fs target asked
    → fs.canonical asked ≡ r
    → Located m fs target (r >>= λ p. if starts_with m.base_path p then ok p else err runtime_error)
guarded m fs target asked (err e) a h = no_path asked e a h
guarded m fs target asked (ok p) a h = elim (Bool-cases (starts_with m.base_path p)) [
  | inl e ↦
      let (rest, s) = starts_with-rest m.base_path p e in
      rw (e, s) (inside asked rest a (h ∙ ap ok s))
  | inr e ↦ rw e (
      outside asked p a h (λ rest s.
        false≢true
          (sym e ∙ (ap (starts_with m.base_path) s ∙ starts_with-append m.base_path rest))))
]

assure_path-Located :
    (m : Manager) (fs : FileSystem) (target : Bytes) → Located m fs target (assure_path m fs target)
unfolding assure_path
assure_path-Located m fs target = go (fs.is_directory (below m target)) refl
  where
    go :
        (r : Result Bool)
        → fs.is_directory (append_path m.base_path (without_slash target)) ≡ r
        → Located m fs target (
            r >>= λ dir.
            fs.canonical (
              if dir
              then append_path (append_path m.base_path (without_slash target)) (codes "index.html")
              else append_path m.base_path (without_slash target))
            >>= λ p. if starts_with m.base_path p then ok p else err runtime_error)
    go (ok dir) e = guarded m fs target _ (fs.canonical _) (dir, e, refl) refl
    go (err f) e = no_kind f e

module _ (prepare_payload : Response → Response) where
  -- What `handle_request` may do. `target` is the request's without its query.
  pub data Served (m : Manager) (fs : FileSystem) (visits : Visits) (now : ℕ) (req : Request)
      (target : Bytes) : Result (Response × Visits) → Type 0 where
    handled :
        (verbs : Map ℕ Handler) (handler : Handler) (resp : Response)
        → lookup target m.handlers ≡ some verbs
        → lookup req.method verbs ≡ some handler
        → handler req ≡ ok resp
        → Served m fs visits now req target (ok (resp, add_access visits m.service target now))
    thrown :
        (verbs : Map ℕ Handler) (handler : Handler) (e : Fault)
        → lookup target m.handlers ≡ some verbs
        → lookup req.method verbs ≡ some handler
        → handler req ≡ err e
        → Served m fs visits now req target (err e)
    wrong_method :
        (verbs : Map ℕ Handler)
        → lookup target m.handlers ≡ some verbs
        → lookup req.method verbs ≡ none
        → Served m fs visits now req target (
            ok (
              prepare_response prepare_payload (get_response_headers req) method_not_allowed [],
              add_access visits m.service target now,
            ))
    file :
        (asked rest content : Bytes)
        → lookup target m.handlers ≡ none
        → Asked m fs target asked
        → fs.canonical asked ≡ ok (m.base_path ++ rest)
        → fs.read (m.base_path ++ rest) ≡ ok (some content)
        → Served m fs visits now req target (
            ok (
              file_response prepare_payload req (m.base_path ++ rest) content,
              add_access visits m.service (m.base_path ++ rest) now,
            ))
    missing :
        lookup target m.handlers ≡ none
        → NoFile m fs target
        → Served m fs visits now req target
            (ok (error_response prepare_payload req not_found (codes "Not Found"), visits))

  opened :
      (m : Manager) (fs : FileSystem) (visits : Visits) (now : ℕ) (req : Request)
      (target asked rest : Bytes)
      → lookup target m.handlers ≡ none
      → Asked m fs target asked
      → fs.canonical asked ≡ ok (m.base_path ++ rest)
      → Served m fs visits now req target (
          ok (
            answer prepare_payload m visits now req
              (or_else (read_file prepare_payload fs (m.base_path ++ rest)) none)))
  unfolding answer read_file
  opened m fs visits now req target asked rest h a c = go (fs.read (m.base_path ++ rest)) refl
    where
      go :
          (r : Result (Option Bytes))
          → fs.read (m.base_path ++ rest) ≡ r
          → Served m fs visits now req target (
              ok (
                answer prepare_payload m visits now req (
                  or_else {A = Option (Bytes × Bytes)}
                    (r >>= λ file. ok (elim file [
                      | none ↦ none
                      | some content ↦ some (m.base_path ++ rest, content)
                    ]))
                    none)))
      go (ok (some content)) r = file asked rest content h a c r
      go (ok none) r = missing h (closed asked rest a c r)
      go (err e) r = missing h (unreadable asked rest e a c r)

  found :
      (m : Manager) (fs : FileSystem) (visits : Visits) (now : ℕ) (req : Request) (target : Bytes)
      (r : Result Bytes)
      → lookup target m.handlers ≡ none
      → Located m fs target r
      → Served m fs visits now req target (
          ok (
            answer prepare_payload m visits now req
              (or_else {A = Option (Bytes × Bytes)} (r >>= read_file prepare_payload fs) none)))
  unfolding answer
  found m fs visits now req target (ok p) h (inside asked rest a c) =
      opened m fs visits now req target asked rest h a c
  found m fs visits now req target (err e) h l = missing h (away e l)

  handler_called :
      (m : Manager) (fs : FileSystem) (visits : Visits) (now : ℕ) (req : Request)
      (verbs : Map ℕ Handler) (handler : Handler)
      → req.string_body ≡ true
      → lookup (without_query req.target) m.handlers ≡ some verbs
      → lookup req.method verbs ≡ some handler
      → Served m fs visits now req
          (without_query req.target)
          (handle_request prepare_payload m fs visits now req)
  unfolding handle_request
  handler_called m fs visits now req verbs handler s e f = go (handler req) refl
    where
      target : Bytes
      target = without_query req.target

      count : Response → Result (Response × Visits)
      count resp = ok (resp, add_access visits m.service (without_query req.target) now)

      called : handle_request prepare_payload m fs visits now req ≡ (handler req >>= count)
      called =
          rw (handle_request, e, f)
            (ap {A = Bool} (λ b. if b then handler req >>= count else err runtime_error) s)

      go :
          (r : Result Response)
          → handler req ≡ r
          → Served m fs visits now req
              (without_query req.target)
              (handle_request prepare_payload m fs visits now req)
      go (ok resp) h =
          subst (Served m fs visits now req target) (sym (called ∙ ap (λ r. r >>= count) h))
            (handled verbs handler resp e f h)
      go (err x) h =
          subst (Served m fs visits now req target) (sym (called ∙ ap (λ r. r >>= count) h))
            (thrown verbs handler x e f h)

  -- What a request whose body is a string gets, whatever the file system throws. Where the target has handlers
  -- it is the answer of the one for the method, whose exception is passed on, or 405 if there is none;
  -- with the answer the access is counted under the target. Elsewhere it is the content of the file at
  -- the canonical path of the target below the base path, or of `index.html` in it if it is a
  -- directory, where the canonical path begins with the base path and the file can be read, and the access
  -- is counted under that path; and only where there is no such path or file, it is 404, and nothing is
  -- counted.
  pub handle_request-Served :
      (m : Manager) (fs : FileSystem) (visits : Visits) (now : ℕ) (req : Request)
      → req.string_body ≡ true
      → Served m fs visits now req
          (without_query req.target)
          (handle_request prepare_payload m fs visits now req)
  unfolding handle_request handle_file find_file
  handle_request-Served m fs visits now req s =
      let target = without_query req.target in
      elim (Option-cases (lookup target m.handlers)) [
        | inl e ↦
            rw (handle_request, e)
              (found m fs visits now req target (assure_path m fs target) e
                (assure_path-Located m fs target))
        | inr (verbs, e) ↦ elim (Option-cases (lookup req.method verbs)) [
          | inl f ↦
              let result : handle_request prepare_payload m fs visits now req
                  ≡ ok (
                    prepare_response prepare_payload (get_response_headers req) method_not_allowed
                        [],
                    add_access visits m.service target now,
                  ) =
                rw (handle_request, e, s, f) refl in
              rw result (wrong_method verbs e f)
          | inr (handler, f) ↦ handler_called m fs visits now req verbs handler s e f
        ]
      ]

abbrev pub NoQuery : Bytes → Type 0
NoQuery [] = Unit {0}
NoQuery (c ∷ s) = (c ≢ b'?') × NoQuery s

without_query-append :
    (target query : Bytes)
    → NoQuery target
    → without_query (target ++ (b'?' ∷ query)) ≡ without_query target
unfolding without_query
without_query-append [] query n = refl
without_query-append (c ∷ target) query n =
    let ih = without_query-append target query n.1 in
    ap (λ rest. if c == b'?' then [] else c ∷ rest) ih

-- A query does not change whether an endpoint can be served, if the target before it has no question
-- mark.
endpoint_serviceable_query :
    (m : Manager) (fs : FileSystem) (target query : Bytes)
    → NoQuery target
    → endpoint_serviceable m fs (target ++ (b'?' ∷ query)) ≡ endpoint_serviceable m fs target
unfolding endpoint_serviceable
endpoint_serviceable_query m fs target query n =
    ap (λ t. contains t m.handlers || or_else (assure_path m fs t >>= fs.exists) false)
      (without_query-append target query n)

-- Any file whose canonical path begins with the characters of the base path is let through, whatever
-- follows them: for a target that names no directory `assure_path` returns the canonical path, also
-- where it goes on without a slash, in another directory beside the base.
assure_path_beside :
    (m : Manager) (fs : FileSystem) (target suffix : Bytes)
    → fs.is_directory (append_path m.base_path (without_slash target)) ≡ ok false
    → fs.canonical (append_path m.base_path (without_slash target)) ≡ ok (m.base_path ++ suffix)
    → assure_path m fs target ≡ ok (m.base_path ++ suffix)
unfolding assure_path
assure_path_beside m fs target suffix d c =
    rw (assure_path, d, c, starts_with-append m.base_path suffix) refl
