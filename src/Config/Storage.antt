-- ===== src/Config/Storage.antt =====
-- storage/src/message/config.h: Parse.
use dfs_system.Base.{
  ℕ, zero, suc, ◌+◌, ◌%◌, Bool, true, false, List, [], ◌∷◌, ◌++◌, Option, none, some, if◌then◌else◌,
  take, drop, codes,
}
use dfs_system.HttpRequest.{find_byte}
use dfs_system.HttpRequest.Header.{stoi}
use dfs_system.Config.{
  Source, Step, goes_on, then_do, stored, parse_port, lookup_text, lookup_number, lookup_address,
  lookup_port,
}
use dfs_system.Config.FileSize.{Entries, add_entries}

-- `tracker` has the address and the port of each tracker, in their order.
pub record Conf : Type 0 where
  pub bind_addr : ℕ
  pub http_port : ℕ
  pub task_port : ℕ
  pub data_capacity : ℕ
  pub data_used : ℕ
  pub ring_log_capacity : ℕ
  pub group_name : List ℕ
  pub data_path : List ℕ
  pub mysql_host : List ℕ
  pub mysql_user : List ℕ
  pub mysql_pwd : List ℕ
  pub mysql_database : List ℕ
  pub tracker : List (ℕ × ℕ)

-- ParsePort_ of a text: an exception, a port that is too large, or a port.
abbrev pub port_in : Option ℕ → Option (Option ℕ)
port_in none = none
port_in (some n) = some (parse_port n)

-- The port behind the colon, or the one that is set before.
unfoldable pub server_port : Option ℕ → List ℕ → Option (Option ℕ)
unfolding stoi parse_port
server_port none text = some (some 33_233)
server_port (some pos) text = port_in (stoi (drop (pos + 1) text))

abbrev pub host_of : Option ℕ → List ℕ → List ℕ
host_of none text = text
host_of (some pos) text = take pos text

abbrev pub add_tracker : ℕ → ℕ → Conf → Conf
add_tracker port ip c = record c { tracker = c.tracker ++ (ip, port) ∷ [] }

abbrev pub server_with : Option ℕ → Option (Option ℕ) → Conf → Option (Bool × Conf)
server_with ip none c = none
server_with ip (some none) c = some (false, c)
server_with ip (some (some port)) c = stored (add_tracker port) c ip

-- A round of the loop over the trackers, with the text that was found.
unfoldable pub server : Source → List ℕ → Step Conf
unfolding find_byte server_port
server src text c =
    let pos = find_byte 58 0 text in
    server_with (src.address (host_of pos text)) (server_port pos text) c

abbrev pub server_key : ℕ → List ℕ
server_key i = codes "tracker_server" ++ (48 + i) % 256 ∷ []

abbrev pub server_if : Source → Step Conf → Option (List ℕ) → Step Conf
server_if src next none c = some (true, c)
server_if src next (some text) c = goes_on next (server src text c)

-- The loop over the trackers: the key of the next one is another byte for 256 rounds.
unfoldable pub server_loop : Source → ℕ → ℕ → Step Conf
unfolding server
server_loop src zero i c = some (true, c)
server_loop src (suc k) i c = server_if src (server_loop src k (i + 1)) (src.text (server_key i)) c

abbrev pub used : Bool × ℕ → Conf → Option (Bool × Conf)
used (all, total) c = some (all, record c { data_used = total })

abbrev pub measured : Option Entries → Conf → Option (Bool × Conf)
measured none c = some (false, c)
measured (some es) c = used (add_entries es c.data_used) c

-- getFileSize_ of data_path; the entries are those of the file system, if the path can be opened.
unfoldable pub measure : (List ℕ → Option Entries) → Step Conf
unfolding add_entries
measure entries c = measured (entries c.data_path) c

unfoldable pub parse_mysql : Source → Step Conf
unfolding then_do lookup_text
parse_mysql src =
    then_do (lookup_text src (codes "mysql_host") (λ s c. record c { mysql_host = s })) (
      then_do (lookup_text src (codes "mysql_user") (λ s c. record c { mysql_user = s })) (
        then_do (lookup_text src (codes "mysql_pwd") (λ s c. record c { mysql_pwd = s }))
          (lookup_text src (codes "mysql_database") (λ s c. record c { mysql_database = s }))))

unfoldable pub parse_data : Source → (List ℕ → Option Entries) → Step Conf
unfolding then_do lookup_text lookup_number measure
parse_data src entries =
    then_do (lookup_text src (codes "data_path") (λ s c. record c { data_path = s })) (
      then_do (lookup_number src (codes "data_capacity") (λ n c. record c { data_capacity = n })) (
        then_do (measure entries) (
          lookup_number src (codes "ring_log_capacity")
            (λ n c. record c { ring_log_capacity = n }))))

unfoldable pub parse_net : Source → Step Conf
unfolding then_do lookup_text lookup_address lookup_port
parse_net src =
    then_do (lookup_text src (codes "group_name") (λ s c. record c { group_name = s })) (
      then_do (lookup_address src (codes "bind_addr") (λ n c. record c { bind_addr = n })) (
        then_do (lookup_port src (codes "http_port") (λ n c. record c { http_port = n }))
          (lookup_port src (codes "task_port") (λ n c. record c { task_port = n }))))

unfoldable pub parse : Source → (List ℕ → Option Entries) → Step Conf
unfolding then_do parse_net parse_data server_loop parse_mysql
parse src entries c =
    if src.reads
    then then_do (parse_net src)
        (then_do (parse_data src entries) (then_do (server_loop src 256 0) (parse_mysql src))) c
    else some (false, c)
