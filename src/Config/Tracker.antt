-- ===== src/Config/Tracker.antt =====
-- tracker/src/message/config.h: Parse.
use dfs_system.Base.{ℕ, Bool, false, List, Option, some, if◌then◌else◌, codes}
use dfs_system.Config.{Source, then_do, lookup_text, lookup_number, lookup_address, lookup_port}

pub record Conf : Type 0 where
  pub bind_addr : ℕ
  pub http_port : ℕ
  pub task_port : ℕ
  pub cookie_out : ℕ
  pub time_out : ℕ
  pub mysql_host : List ℕ
  pub mysql_user : List ℕ
  pub mysql_pwd : List ℕ
  pub mysql_database : List ℕ

unfoldable pub parse_mysql : Source → Conf → Option (Bool × Conf)
unfolding then_do lookup_text
parse_mysql src =
    then_do (lookup_text src (codes "mysql_host") (λ s c. record c { mysql_host = s })) (
      then_do (lookup_text src (codes "mysql_user") (λ s c. record c { mysql_user = s })) (
        then_do (lookup_text src (codes "mysql_pwd") (λ s c. record c { mysql_pwd = s }))
          (lookup_text src (codes "mysql_database") (λ s c. record c { mysql_database = s }))))

unfoldable pub parse : Source → Conf → Option (Bool × Conf)
unfolding then_do lookup_text lookup_number lookup_address lookup_port parse_mysql
parse src c =
    if src.reads
    then then_do (lookup_address src (codes "bind_addr") (λ n c. record c { bind_addr = n }))
        (then_do (lookup_port src (codes "http_port") (λ n c. record c { http_port = n })) (
          then_do (lookup_port src (codes "task_port") (λ n c. record c { task_port = n })) (
            then_do (lookup_number src (codes "cookieOut") (λ n c. record c { cookie_out = n })) (
              then_do (lookup_number src (codes "timeOut") (λ n c. record c { time_out = n }))
                (parse_mysql src)))))
        c
    else some (false, c)
