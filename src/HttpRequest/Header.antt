-- ===== src/HttpRequest/Header.antt =====
-- httprequest.cpp: ParseHeadLine_ and ParseCookie_.
use dfs_system.Base.{
  ℕ, zero, suc, ◌+◌, ◌-◌, ◌^◌, Bool, true, false, List, [], ◌∷◌, ◌++◌, Option, none, some,
  if◌then◌else◌, ltb, ◌==◌, length, take, drop, codes, str_eq,
}
use dfs_system.Wire.{is_digit, skip_spaces, take_digits}
use dfs_system.FileBody.{find, crlf}
use dfs_system.Status.{handle_body, handle_error, file_begin, Status}
use dfs_system.HttpRequest.{Request, lookup, assign, find_byte}

-- std::stoi of a number without a sign; `none` is an exception.
unfoldable pub stoi : List ℕ → Option ℕ
unfolding skip_spaces take_digits
stoi s = elim (skip_spaces s) [
  | [] ↦ none
  | c ∷ s' ↦
      let n = (take_digits 0 (c ∷ s')).0 in
      if is_digit c then if ltb n (2 ^ 31) then some n else none else none
]

-- ParseCookie_ up to a NUL: the name before '=', the password behind it.
unfoldable pub parse_cookie : Bool → List ℕ → Request → Request
parse_cookie flag [] r = r
parse_cookie flag (c ∷ s) r =
    let at_sign = parse_cookie true s r in
    let pass = parse_cookie flag s (record r { password = r.password ++ c ∷ [] }) in
    let name = parse_cookie flag s (record r { username = r.username ++ c ∷ [] }) in
    if c == 0 then r else if c == 61 then at_sign else if flag then pass else name

-- `value.substr(from, to - from)`, with what the source does where '=' is missing.
unfoldable pub content_type : List ℕ → Request → Option Request
unfolding find_byte assign
content_type value r = elim (find_byte 59 0 value) [
  | none ↦ some (record r { headers = assign (codes "Content-Type") value r.headers })
  | some sem ↦
      let r' = record r { headers = assign (codes "Content-Type") (take sem value) r.headers } in
      if ltb (length value) (sem + 2) then none else elim (find_byte 61 sem value) [
        | none ↦ some (record r' { headers = assign (drop (sem + 2) value) value r'.headers })
        | some eq ↦
            let key =
              if ltb eq (sem + 2)
              then drop (sem + 2) value
              else take (eq - sem - 2) (drop (sem + 2) value) in
            some (record r' { headers = assign key (drop (eq + 1) value) r'.headers })
      ]
]

-- The value of a line that ends with CRLF; without a blank behind the colon it is what is left.
abbrev pub value_of : ℕ → List ℕ → List ℕ
value_of colon line =
    if ltb (length line) (colon + 4)
    then drop (colon + 2) line
    else take (length line - (colon + 2) - 2) (drop (colon + 2) line)

-- ParseHeadLine_(Line); `none` is an exception.
unfoldable pub parse_header : List ℕ → Request → Option Request
unfolding find_byte stoi content_type parse_cookie assign
parse_header line r = elim (find_byte 58 0 line) [
  | none ↦ some (record r { head_status = handle_error })
  | some colon ↦
      let key = take colon line in
      let value = value_of colon line in
      if str_eq key (codes "Content-Length")
      then elim (stoi value) [ none ↦ none | some n ↦ some (record r { body_len = n }) ]
      else if str_eq key (codes "Content-Type")
      then content_type value r
      else if str_eq key (codes "Cookie")
      then some (parse_cookie false value r)
      else some (record r { headers = assign key value r.headers })
]

abbrev pub is_error : Status → Bool
is_error handle_error = true
is_error _ = false

-- The loop of ParseHeadLine_(); a line has two bytes at least, so the length is fuel enough.
unfoldable pub head_loop : ℕ → Request → Option Request
unfolding find parse_header lookup
head_loop zero r = some r
head_loop (suc k) r =
    let e = find crlf r.recv in
    let line = take (e + 2) r.recv in
    let r' = record r { recv = drop (e + 2) r.recv } in
    let next : Option Request = elim (parse_header line r') [
      | none ↦ none
      | some r'' ↦ if is_error r''.head_status then some r'' else head_loop k r''
    ] in
    if e == length r.recv
    then some r
    else if str_eq line crlf
    then some (
        if str_eq (lookup (codes "Content-Type") r.headers) (codes "multipart/form-data")
        then record r' { head_status = handle_body; file_status = file_begin }
        else record r' { head_status = handle_body })
    else next

unfoldable pub parse_head_lines : Request → Option Request
unfolding head_loop
parse_head_lines r = head_loop (length r.recv) r
