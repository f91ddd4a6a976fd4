-- ===== src/Config/Tests.antt =====
-- A configuration of each program, and the witnesses of the theorems.
use dfs_system.Base.{
  ℕ, ◌≡◌, refl, Bool, true, false, List, [], ◌∷◌, Option, none, some, if◌then◌else◌, codes, str_eq,
}
use dfs_system.HttpRequest.{Dict}
use dfs_system.Config.{Source}
use dfs_system.Config.Tracker as Tracker
use dfs_system.Config.Storage as Storage
use dfs_system.Config.FileSize.{
  Entries, no_more, entry, file, dots, directory, add_entries, all_open, size_of_all, IsTotal,
  add_entries-IsTotal,
}
use dfs_system.Config.Ports.{AreTold, Leaves, parse-AreTold}

abbrev find_in : Dict → List ℕ → Option (List ℕ)
find_in [] key = none
find_in ((k, v) ∷ d) key = let rest = find_in d key in if str_eq k key then some v else rest

-- Every address is 1, and every number is the same.
abbrev source : ℕ → Dict → Source
source n d = record {
  reads = true;
  text = find_in d;
  number = λ key. some n;
  address = λ s. some 1;
}

abbrev texts : Dict
texts =
    (codes "group_name", codes "g1")
    ∷ (codes "bind_addr", codes "a")
    ∷ (codes "data_path", codes "/d")
    ∷ (codes "tracker_server0", codes "h:5")
    ∷ (codes "tracker_server1", codes "h")
    ∷ (codes "mysql_host", codes "m")
    ∷ (codes "mysql_user", codes "u")
    ∷ (codes "mysql_pwd", codes "p")
    ∷ (codes "mysql_database", codes "d")
    ∷ []

abbrev disk : Entries
disk = entry dots (entry (file 4_294_967_295) (entry (directory (entry (file 3) no_more)) no_more))

abbrev blank : Storage.Conf
blank = record {
  bind_addr = 0;
  http_port = 0;
  task_port = 0;
  data_capacity = 0;
  data_used = 0;
  ring_log_capacity = 0;
  group_name = [];
  data_path = [];
  mysql_host = [];
  mysql_user = [];
  mysql_pwd = [];
  mysql_database = [];
  tracker = [];
}

abbrev none_yet : Tracker.Conf
none_yet = record {
  bind_addr = 0;
  http_port = 0;
  task_port = 0;
  cookie_out = 0;
  time_out = 0;
  mysql_host = [];
  mysql_user = [];
  mysql_pwd = [];
  mysql_database = [];
}

abbrev result : Option (Bool × Storage.Conf) → Option (Bool × List (ℕ × ℕ) × ℕ)
result none = none
result (some (b, c)) = some (b, c.tracker, c.data_used)

abbrev ended : Option (Bool × Tracker.Conf) → Option (Bool × ℕ)
ended none = none
ended (some (b, c)) = some (b, c.task_port)

-- Both trackers are found, and of 4 GiB and 2 bytes of files 2 are counted.
storage_run :
    result (Storage.parse (source 80 texts) (λ path. some disk) blank)
    ≡ some (true, (1, 5) ∷ (1, 33_233) ∷ [], 2)
unfolding Storage.parse str_eq add_entries
storage_run = refl

tracker_run : ended (Tracker.parse (source 80 texts) none_yet) ≡ some (true, 80)
unfolding Tracker.parse str_eq
tracker_run = refl

-- A port that is too large ends Parse with false.
port_run : ended (Tracker.parse (source 65_536 texts) none_yet) ≡ some (false, 0)
unfolding Tracker.parse str_eq
port_run = refl

add_entries-IsTotal_example : IsTotal (add_entries disk 0) (all_open disk) (size_of_all disk)
add_entries-IsTotal_example = add_entries-IsTotal disk

parse-AreTold_example :
    Leaves (AreTold (source 80 texts)) (Storage.parse (source 80 texts) (λ path. some disk) blank)
parse-AreTold_example = parse-AreTold (source 80 texts) (λ path. some disk) blank
