-- ===== src/HttpResponse/Sql.antt =====
-- storage/src/http/httpconn.cpp: UpdateSql_, beside the orders of rollbacklog.cpp.
use dfs_system.Base.{
  ℕ, Bool, true, false, ◌≡◌, refl, List, [], ◌∷◌, ◌++◌, Option, none, some, codes, str_eq, take,
  length, ◌<◌, arith,
}
use dfs_system.ConsistLog.RollbackLog.{make_order, rollback_order}
use dfs_system.HttpRequest.{
  Request, PathKind, public_path, private_path, path_other, Behavior, upload, download, delete,
  behavior_other,
}

-- The order for a path; another path leaves the text empty.
unfoldable pub insert_order : PathKind → List ℕ → List ℕ → List ℕ
insert_order public_path user file =
    take 255 (codes "INSERT INTO public values ('" ++ file ++ codes "');")
insert_order private_path user file =
    take 255 (codes "INSERT INTO public values ('" ++ user ++ codes "', '" ++ file ++ codes "');")
insert_order path_other user file = []

unfoldable pub delete_order : PathKind → List ℕ → List ℕ → List ℕ
delete_order public_path user file =
    take 255 (codes "DELETE FROM public WHERE filename = '" ++ file ++ codes "';")
delete_order private_path user file = take 255 (
    codes "DELETE FROM private WHERE username = '"
    ++ user
    ++ codes "' AND filename = '"
    ++ file
    ++ codes "';")
delete_order path_other user file = []

unfoldable pub sql_of : Behavior → PathKind → List ℕ → List ℕ → Option (List ℕ)
unfolding insert_order delete_order
sql_of upload path user file = some (insert_order path user file)
sql_of delete path user file = some (delete_order path user file)
sql_of download path user file = none
sql_of behavior_other path user file = none

-- What UpdateSql_ sends to the database, if anything.
unfoldable pub update_sql : Request → Option (List ℕ)
unfolding sql_of
update_sql r = sql_of r.behavior r.path r.username r.file_name

-- The user that process and UpdateLog_ give the logs.
abbrev pub log_user : PathKind → List ℕ → List ℕ
log_user public_path user = []
log_user private_path user = user
log_user path_other user = user

abbrev pub flipped : Behavior → Behavior
flipped upload = delete
flipped delete = upload
flipped b = b

abbrev pub changes : Behavior → Bool
changes upload = true
changes delete = true
changes _ = false

abbrev pub is_upload : Behavior → Bool
is_upload upload = true
is_upload _ = false

-- A public file, or a private one of a user with a name.
abbrev pub IsOwned : PathKind → List ℕ → Type 0
IsOwned public_path user = Unit
IsOwned private_path user = 0 < length user
IsOwned path_other user = ⊥

rollback_lem :
    (b : Behavior) (p : PathKind) (user file : List ℕ)
    → changes b ≡ true
    → IsOwned p user
    → rollback_order (make_order (is_upload b) (log_user p user) file)
      ≡ sql_of (flipped b) p user file
unfolding rollback_order make_order sql_of str_eq
rollback_lem upload public_path user file c h = refl
rollback_lem upload private_path [] file c h = absurd (omega (arith, h))
rollback_lem upload private_path (x ∷ user) file c h = refl
rollback_lem delete public_path user file c h = refl
rollback_lem delete private_path [] file c h = absurd (omega (arith, h))
rollback_lem delete private_path (x ∷ user) file c h = refl
rollback_lem b path_other user file c h = absurd h
rollback_lem download public_path user file c h = cc
rollback_lem download private_path user file c h = cc
rollback_lem behavior_other public_path user file c h = cc
rollback_lem behavior_other private_path user file c h = cc

-- What a lost connection rolls back is, byte for byte, the order that UpdateSql_ sends for the opposite
-- request on the same file, for a public file and for a private one of a user with a name.
pub rollback-opposite :
    (r : Request)
    → changes r.behavior ≡ true
    → IsOwned r.path r.username
    → rollback_order (make_order (is_upload r.behavior) (log_user r.path r.username) r.file_name)
      ≡ update_sql (record r { behavior = flipped r.behavior })
unfolding update_sql
rollback-opposite r c h = rollback_lem r.behavior r.path r.username r.file_name c h
