-- ===== src/HttpRequest/File.antt =====
-- httprequest.cpp: ParseFile_. `opens` says which files can be opened.
use dfs_system.Base.{
  ℕ, zero, suc, ◌+◌, Bool, true, false, List, [], ◌∷◌, ◌++◌, Option, none, some, if◌then◌else◌,
  ◌==◌, length, take, drop, codes, str_eq,
}
use dfs_system.FileBody.{find, cr, crlf, form_mark, save_file}
use dfs_system.Status.{
  handle_complete, FileStatus, file_begin, file_head, file_content, file_complete,
}
use dfs_system.HttpRequest.{Request, public_path, private_path, path_other, lookup}

abbrev pub boundary_of : Request → List ℕ
boundary_of r = lookup (codes "boundary") r.headers

-- The name up to its closing quote; `none` where the line has none.
unfoldable pub until_quote : List ℕ → Option (List ℕ)
until_quote [] = none
until_quote (c ∷ s) =
    let rest : Option (List ℕ) = elim (until_quote s) [
      | none ↦ none
      | some name ↦ some (c ∷ name)
    ] in
    if c == 34 then some [] else rest

-- A line of the part's head; only one with "filename" matters.
unfoldable pub file_name_line : List ℕ → Request → Option Request
unfolding find until_quote
file_name_line line r =
    let i = find (codes "filename") line in
    if i == length line then some r else elim (until_quote (drop (i + 10) line)) [
      | none ↦ none
      | some name ↦ some (record r { recv_file_name = r.recv_file_name ++ name })
    ]

-- The loop over the part's head.
unfoldable pub part_loop : ℕ → Request → Option Request
unfolding file_name_line
part_loop zero r = some r
part_loop (suc k) r =
    let e = find crlf r.recv in
    let line = take (e + 2) r.recv in
    let r' = record r { recv = drop (e + 2) r.recv } in
    let next : Option Request = elim (file_name_line line r') [
      | none ↦ none
      | some r'' ↦ part_loop k r''
    ] in
    if e == length r.recv
    then some r
    else if str_eq line crlf
    then some (record r' { file_status = file_content })
    else next

-- The file that is appended to; no name for another path.
unfoldable pub upload_path : List ℕ → Request → List ℕ
upload_path data_path r = elim r.path [
  | public_path ↦ data_path ++ codes "/public/" ++ r.recv_file_name
  | private_path ↦ data_path ++ codes "/private/" ++ r.username ++ codes "/" ++ r.recv_file_name
  | path_other ↦ []
]

abbrev pub at_begin : FileStatus → Bool
at_begin file_begin = true
at_begin _ = false

abbrev pub at_head : FileStatus → Bool
at_head file_head = true
at_head _ = false

abbrev pub at_content : FileStatus → Bool
at_content file_content = true
at_content _ = false

-- The results of ParseFile_: -1, 0 and 2.
pub data Result : Type 0 where
  goes_on : Result
  parsed : Result
  refused : Result

-- The end of the file; the buffer is emptied.
unfoldable pub end_part : Request → Request
end_part r = record r { head_status = handle_complete; file_status = file_complete; recv = [] }

unfoldable pub content_part : List ℕ → (List ℕ → Bool) → Request → Option (Result × Request)
unfolding upload_path save_file end_part
content_part data_path opens r =
    let path = upload_path data_path r in
    if opens path
    then elim (save_file cr (form_mark (boundary_of r)) r.recv []) [
      | none ↦ none
      | some (done, recv, saved) ↦
          let r' = record r { recv = recv; files = r.files ++ (path, saved) ∷ [] } in
          some (if done then (parsed, end_part r') else (goes_on, r'))
    ]
    else some (refused, r)

unfoldable pub head_part : List ℕ → (List ℕ → Bool) → Request → Option (Result × Request)
unfolding part_loop content_part
head_part data_path opens r =
    let r1 : Option Request =
      if at_head r.file_status then part_loop (length r.recv) r else some r in
    elim r1 [
      | none ↦ none
      | some r2 ↦
          if at_content r2.file_status then content_part data_path opens r2 else some (goes_on, r2)
    ]

unfoldable pub parse_file : List ℕ → (List ℕ → Bool) → Request → Option (Result × Request)
unfolding head_part
parse_file data_path opens r =
    let e = find crlf r.recv in
    if at_begin r.file_status
    then if e == length r.recv
      then some (goes_on, r)
      else if str_eq (take e r.recv) (codes "--" ++ boundary_of r)
      then head_part data_path opens
          (record r { file_status = file_head; recv = drop (e + 2) r.recv })
      else some (refused, r)
    else head_part data_path opens r
