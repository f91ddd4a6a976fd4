-- ===== src/HttpRequest/Line.antt =====
-- httprequest.cpp: ParseQuestLine_.
use dfs_system.Base.{
  ℕ, ◌+◌, ◌-◌, List, [], ◌∷◌, none, some, if◌then◌else◌, ◌==◌, length, take, drop, codes, str_eq,
}
use dfs_system.FileBody.{find, crlf}
use dfs_system.Status.{handle_head, handle_error}
use dfs_system.HttpRequest.{
  Request, Method, get, post, method_other, PathKind, public_path, private_path, path_other,
  Behavior, upload, download, delete, behavior_other, find_byte,
}

-- The pieces between the spaces; "^([^ ]*) ([^ ]*) ([^ ]*)$" matches where there are three.
unfoldable pub pieces : List ℕ → List ℕ × List (List ℕ)
pieces [] = ([], [])
pieces (c ∷ s) =
    let (first, others) = pieces s in if c == 32 then ([], first ∷ others) else (c ∷ first, others)

unfoldable pub method_of : List ℕ → Method
method_of s =
    if str_eq s (codes "GET") then get else if str_eq s (codes "POST") then post else method_other

unfoldable pub path_of : List ℕ → PathKind
path_of s =
    if str_eq s (codes "/public")
    then public_path
    else if str_eq s (codes "/private")
    then private_path
    else path_other

-- DEFAULT_BEHAVIOR.
unfoldable pub behavior_of : List ℕ → Behavior
behavior_of s =
    if str_eq s (codes "/delete")
    then delete
    else if str_eq s (codes "/upload")
    then upload
    else if str_eq s (codes "/download")
    then download
    else behavior_other

-- "/<path>/<behavior>/<file>": what stands before the second slash, before the third, and after it.
unfoldable pub parse_resource : List ℕ → Request → Request
unfolding find_byte path_of behavior_of
parse_resource resource r = elim (find_byte 47 1 resource) [
  | none ↦ record r { path = path_other; code = 404 }
  | some en ↦
      let r' = record r { path = path_of (take en resource) } in
      elim (find_byte 47 (en + 1) resource) [
        | none ↦ record r' { behavior = behavior_other; code = 404 }
        | some en2 ↦ record r' {
          behavior = behavior_of (take (en2 - en) (drop en resource));
          file_name = drop (en2 + 1) resource;
          code = 200;
        }
      ]
]

unfoldable pub parse_words : List ℕ × List (List ℕ) → Request → Request
unfolding method_of parse_resource
parse_words (first, resource ∷ version ∷ []) r =
    parse_resource resource (record r { method = method_of first })
parse_words (first, _) r = record r { head_status = handle_error }

unfoldable pub parse_quest_line : Request → Request
unfolding find pieces parse_words
parse_quest_line r =
    let e = find crlf r.recv in
    if e == length r.recv
    then r
    else parse_words (pieces (take e r.recv))
        (record r { recv = drop (e + 2) r.recv; head_status = handle_head })
