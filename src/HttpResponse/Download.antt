-- ===== src/HttpResponse/Download.antt =====
-- httpresponse.cpp (Parse_) and httprequest.cpp (ParseFile_): where a private file is kept.
use mathlib.Core.List.{append_assoc}
use dfs_system.Base.{
  ℕ, ◌≡◌, ◌≢◌, refl, List, [], ◌∷◌, ◌++◌, Option, none, some, codes, arith, ap, get_or, drop, sym,
  ◌∙◌,
}
use dfs_system.HttpRequest.{Request, private_path}
use dfs_system.HttpRequest.File.{upload_path}
use dfs_system.HttpResponse.{download_path}

apart :
    (data_path s t : List ℕ)
    → data_path ++ codes "/private/" ++ s ≢ data_path ++ codes "/rivate/" ++ t
apart [] s t e = omega (arith, ap (λ l. get_or l 1 0) e)
apart (c ∷ data_path) s t e = apart data_path s t (ap (drop 1) e)

abbrev or_else : List ℕ → Option (List ℕ) → List ℕ
or_else d none = d
or_else d (some s) = s

two : (d user file : List ℕ) → d ++ user ++ codes "/" ++ file ≡ d ++ (user ++ (codes "/" ++ file))
two d user file =
    append_assoc (d ++ user) (codes "/") file ∙ append_assoc d user (codes "/" ++ file)

-- The path that a download of a private file opens is never the path that an upload of one writes.
pub download_path-other :
    (data_path : List ℕ) (r r' : Request)
    → r.path ≡ private_path
    → r'.path ≡ private_path
    → download_path data_path r ≢ some (upload_path data_path r')
unfolding download_path upload_path
download_path-other data_path r r' p p' e =
    let D = data_path in
    let d : download_path D r
        ≡ some (D ++ codes "/rivate/" ++ r.username ++ codes "/" ++ r.file_name) =
      rw p refl in
    let u : upload_path D r'
        ≡ D ++ codes "/private/" ++ r'.username ++ codes "/" ++ r'.recv_file_name =
      rw p' refl in
    let same : D ++ codes "/rivate/" ++ r.username ++ codes "/" ++ r.file_name
        ≡ D ++ codes "/private/" ++ r'.username ++ codes "/" ++ r'.recv_file_name =
      ap (or_else []) (sym d ∙ e ∙ ap some u) in
    apart D (r'.username ++ (codes "/" ++ r'.recv_file_name))
      (r.username ++ (codes "/" ++ r.file_name))
      (sym (two (D ++ codes "/private/") r'.username r'.recv_file_name)
        ∙ sym same
        ∙ two (D ++ codes "/rivate/") r.username r.file_name)
