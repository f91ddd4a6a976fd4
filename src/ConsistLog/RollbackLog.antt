-- ===== src/ConsistLog/RollbackLog.antt =====
-- storage/src/consistlog/rollbacklog/rollbacklog.cpp: the order that undoes an unfinished request.
use dfs_system.Base.{
  ℕ, Bool, true, false, not, List, [], ◌++◌, Option, none, some, if◌then◌else◌, codes, str_eq, take,
}

pub record RollbackLog : Type 0 where
  pub is_upload : Bool
  pub username : List ℕ
  pub filename : List ℕ
  pub hasorder : Bool

-- The order is the opposite of what is logged.
unfoldable pub make_order : Bool → List ℕ → List ℕ → RollbackLog
make_order upload user file = record {
  is_upload = not upload;
  username = user;
  filename = file;
  hasorder = true;
}

unfoldable pub clear_order : RollbackLog → RollbackLog
clear_order r = record r { hasorder = false }

-- The four orders, cut by snprintf to 255 bytes.
abbrev pub cut : List ℕ → List ℕ
cut order = take 255 order

unfoldable pub insert_public : List ℕ → List ℕ
insert_public file = cut (codes "INSERT INTO public values ('" ++ file ++ codes "');")

unfoldable pub insert_private : List ℕ → List ℕ → List ℕ
insert_private user file =
    cut (codes "INSERT INTO public values ('" ++ user ++ codes "', '" ++ file ++ codes "');")

unfoldable pub delete_public : List ℕ → List ℕ
delete_public file = cut (codes "DELETE FROM public WHERE filename = '" ++ file ++ codes "';")

unfoldable pub delete_private : List ℕ → List ℕ → List ℕ
delete_private user file = cut (
    codes "DELETE FROM private WHERE username = '"
    ++ user
    ++ codes "' AND filename = '"
    ++ file
    ++ codes "';")

-- RollbackOrder: what it sends to mysql_query, if anything.
unfoldable pub rollback_order : RollbackLog → Option (List ℕ)
unfolding insert_public insert_private delete_public delete_private
rollback_order r =
    if r.hasorder
    then some (
        if r.is_upload
        then if str_eq r.username []
          then insert_public r.filename
          else insert_private r.username r.filename
        else if str_eq r.username []
        then delete_public r.filename
        else delete_private r.username r.filename)
    else none
