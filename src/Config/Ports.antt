-- ===== src/Config/Ports.antt =====
-- config.h of the storage node: the ports that Parse stores are those of the file.
use dfs_system.Base.{
  ℕ, zero, suc, ◌+◌, ◌%◌, ◌<◌, ◌≡◌, refl, sym, ap, ◌∙◌, none-some, some_inj, Bool, true, false,
  List, Option, none, some, arith, ltb, Bool-cases, inl, inr, codes,
}
use dfs_system.HttpRequest.{find_byte}
use dfs_system.Config.{
  Source, Step, goes_on, then_do, stored, parse_port, port_of, lookup_text, lookup_number,
  lookup_address, lookup_port,
}
use dfs_system.Config.FileSize.{Entries, add_entries}
use dfs_system.Config.Storage.{
  Conf, server_port, host_of, server_with, server, server_key, server_if, server_loop, measure,
  measured, used, parse_mysql, parse_data, parse_net, parse,
}

-- A number that was taken for a port is that number, and one of 16 bits.
port_of-told : (o : Option ℕ) (a : ℕ) → port_of o ≡ some a → (o ≡ some a) × (a < 65_536)
unfolding parse_port
port_of-told none a e = absurd (none-some e)
port_of-told (some n) a e = elim (Bool-cases (ltb 65_535 n)) [
  | inl b ↦ absurd (none-some (sym (rw b refl) ∙ e))
  | inr b ↦
      let p : n % 65_536 ≡ a = some_inj (sym (rw b refl) ∙ e) in
      let q : n ≡ a = ground (arith, b, p) in (ap some q, ground (arith, b, q))
]

module _ {C : Type 0} (P : C → Type 0) where
  -- What a part of Parse leaves has the property, if it goes on.
  abbrev pub Leaves : Option (Bool × C) → Type 0
  Leaves none = Unit
  Leaves (some (false, c)) = Unit
  Leaves (some (true, c)) = P c

module _ {C : Type 0} (P : C → Type 0) where
  -- A step keeps the property.
  abbrev Keeps : Step C → Type 0
  Keeps step = (c : C) → P c → Leaves P (step c)

  goes_on-Leaves :
      (next : Step C) (o : Option (Bool × C)) → Keeps next → Leaves P o → Leaves P (goes_on next o)
  goes_on-Leaves next none k h = tt
  goes_on-Leaves next (some (false, c)) k h = tt
  goes_on-Leaves next (some (true, c)) k h = k c h

  then_do-Keeps : (first next : Step C) → Keeps first → Keeps next → Keeps (then_do first next)
  unfolding then_do
  then_do-Keeps first next f n c h = goes_on-Leaves next (first c) n (f c h)

  then_do-Leaves :
      (first next : Step C) (c : C)
      → Leaves P (first c)
      → Keeps next
      → Leaves P (then_do first next c)
  unfolding then_do
  then_do-Leaves first next c h n = goes_on-Leaves next (first c) n h

  stored-Leaves :
      {A : Type 0} (set : A → C → C) (c : C) (o : Option A)
      → ((a : A) → o ≡ some a → P (set a c))
      → Leaves P (stored set c o)
  stored-Leaves set c none k = tt
  stored-Leaves set c (some a) k = k a refl

  lookup_text-Keeps :
      (src : Source) (key : List ℕ) (set : List ℕ → C → C)
      → ((a : List ℕ) (c : C) → P c → P (set a c))
      → Keeps (lookup_text src key set)
  unfolding lookup_text
  lookup_text-Keeps src key set k c h = stored-Leaves set c (src.text key) (λ a e. k a c h)

  lookup_number-Keeps :
      (src : Source) (key : List ℕ) (set : ℕ → C → C)
      → ((a : ℕ) (c : C) → P c → P (set a c))
      → Keeps (lookup_number src key set)
  unfolding lookup_number
  lookup_number-Keeps src key set k c h = stored-Leaves set c (src.number key) (λ a e. k a c h)

  -- Whatever the first step does, the next one leaves the property.
  goes_on-next :
      (next : Step C) (o : Option (Bool × C))
      → ((c : C) → Leaves P (next c))
      → Leaves P (goes_on next o)
  goes_on-next next none k = tt
  goes_on-next next (some (false, c)) k = tt
  goes_on-next next (some (true, c)) k = k c

  then_do-next :
      (first next : Step C)
      → ((c : C) → Leaves P (next c))
      → (c : C) → Leaves P (then_do first next c)
  unfolding then_do
  then_do-next first next k c = goes_on-next next (first c) k

  -- A port that is stored is the number of the file.
  lookup_port-Leaves :
      (src : Source) (key : List ℕ) (set : ℕ → C → C) (c : C)
      → ((a : ℕ) → src.number key ≡ some a → a < 65_536 → P (set a c))
      → Leaves P (lookup_port src key set c)
  unfolding lookup_port
  lookup_port-Leaves src key set c k =
      stored-Leaves set c (port_of (src.number key))
        (λ a e. k a (port_of-told (src.number key) a e).0 (port_of-told (src.number key) a e).1)

  stored-then :
      {A : Type 0} (set : A → C → C) (c : C) (o : Option A) (next : Step C)
      → ((a : A) → o ≡ some a → Leaves P (next (set a c)))
      → Leaves P (goes_on next (stored set c o))
  stored-then set c none next k = tt
  stored-then set c (some a) next k = k a refl

  lookup_port-then :
      (src : Source) (key : List ℕ) (set : ℕ → C → C) (next : Step C) (c : C)
      → ((a : ℕ) → src.number key ≡ some a → a < 65_536 → Leaves P (next (set a c)))
      → Leaves P (then_do (lookup_port src key set) next c)
  unfolding then_do lookup_port
  lookup_port-then src key set next c k =
      stored-then set c (port_of (src.number key)) next
        (λ a e. k a (port_of-told (src.number key) a e).0 (port_of-told (src.number key) a e).1)

-- The port is the number that the file has for its key, and one of 16 bits.
abbrev pub IsTold : Source → List ℕ → ℕ → Type 0
IsTold src key port = (src.number key ≡ some port) × (port < 65_536)

abbrev pub AreTold : Source → Conf → Type 0
AreTold src c =
    IsTold src (codes "http_port") c.http_port × IsTold src (codes "task_port") c.task_port

server_with-Leaves :
    (src : Source) (ip : Option ℕ) (o : Option (Option ℕ)) (c : Conf)
    → AreTold src c
    → Leaves (AreTold src) (server_with ip o c)
server_with-Leaves src ip none c h = tt
server_with-Leaves src ip (some none) c h = tt
server_with-Leaves src none (some (some port)) c h = tt
server_with-Leaves src (some ip) (some (some port)) c h = h

server_if-Leaves :
    (src : Source) (next : Step Conf) (o : Option (List ℕ)) (c : Conf)
    → AreTold src c
    → Keeps (AreTold src) next
    → Leaves (AreTold src) (server_if src next o c)
unfolding server
server_if-Leaves src next none c h k = h
server_if-Leaves src next (some text) c h k =
    let pos = find_byte 58 0 text in
    goes_on-Leaves (AreTold src) next (server src text c) k
      (server_with-Leaves src (src.address (host_of pos text)) (server_port pos text) c h)

server_loop-Keeps : (src : Source) (k i : ℕ) → Keeps (AreTold src) (server_loop src k i)
unfolding server_loop
server_loop-Keeps src zero i c h = h
server_loop-Keeps src (suc k) i c h =
    server_if-Leaves src (server_loop src k (i + 1)) (src.text (server_key i)) c h
      (server_loop-Keeps src k (i + 1))

used-Leaves :
    (src : Source) (r : Bool × ℕ) (c : Conf) → AreTold src c → Leaves (AreTold src) (used r c)
used-Leaves src (false, total) c h = tt
used-Leaves src (true, total) c h = h

measured-Leaves :
    (src : Source) (o : Option Entries) (c : Conf)
    → AreTold src c
    → Leaves (AreTold src) (measured o c)
measured-Leaves src none c h = tt
measured-Leaves src (some es) c h = used-Leaves src (add_entries es c.data_used) c h

measure-Keeps :
    (src : Source) (entries : List ℕ → Option Entries) → Keeps (AreTold src) (measure entries)
unfolding measure
measure-Keeps src entries c h = measured-Leaves src (entries c.data_path) c h

parse_net-Leaves : (src : Source) (c : Conf) → Leaves (AreTold src) (parse_net src c)
unfolding parse_net
parse_net-Leaves src =
    let P = AreTold src in
    let http : Step Conf =
      lookup_port src (codes "http_port") (λ n c. record c { http_port = n }) in
    let task : Step Conf =
      lookup_port src (codes "task_port") (λ n c. record c { task_port = n }) in
    let addr : Step Conf =
      lookup_address src (codes "bind_addr") (λ n c. record c { bind_addr = n }) in
    then_do-next P (lookup_text src (codes "group_name") (λ s c. record c { group_name = s }))
      (then_do addr (then_do http task))
      (then_do-next P addr (then_do http task) (λ c.
        lookup_port-then P src (codes "http_port") (λ n c. record c { http_port = n }) task c
          (λ a e l.
            lookup_port-Leaves P src (codes "task_port") (λ n c. record c { task_port = n })
              (record c { http_port = a }) (λ b f m. ((e, l), (f, m))))))

parse_mysql-Keeps : (src : Source) → Keeps (AreTold src) (parse_mysql src)
unfolding parse_mysql
parse_mysql-Keeps src =
    then_do-Keeps (AreTold src)
      (lookup_text src (codes "mysql_host") (λ a c. record c { mysql_host = a }))
      (then_do (lookup_text src (codes "mysql_user") (λ a c. record c { mysql_user = a })) (
        then_do (lookup_text src (codes "mysql_pwd") (λ a c. record c { mysql_pwd = a }))
          (lookup_text src (codes "mysql_database") (λ a c. record c { mysql_database = a }))))
      (lookup_text-Keeps (AreTold src) src (codes "mysql_host") (λ a c. record c { mysql_host = a })
        (λ a c h. h))
      (then_do-Keeps (AreTold src)
        (lookup_text src (codes "mysql_user") (λ a c. record c { mysql_user = a }))
        (then_do (lookup_text src (codes "mysql_pwd") (λ a c. record c { mysql_pwd = a }))
          (lookup_text src (codes "mysql_database") (λ a c. record c { mysql_database = a })))
        (lookup_text-Keeps (AreTold src) src (codes "mysql_user")
          (λ a c. record c { mysql_user = a }) (λ a c h. h))
        (then_do-Keeps (AreTold src)
          (lookup_text src (codes "mysql_pwd") (λ a c. record c { mysql_pwd = a }))
          (lookup_text src (codes "mysql_database") (λ a c. record c { mysql_database = a }))
          (lookup_text-Keeps (AreTold src) src (codes "mysql_pwd")
            (λ a c. record c { mysql_pwd = a }) (λ a c h. h))
          (lookup_text-Keeps (AreTold src) src (codes "mysql_database")
            (λ a c. record c { mysql_database = a }) (λ a c h. h))))

parse_data-Keeps :
    (src : Source) (entries : List ℕ → Option Entries)
    → Keeps (AreTold src) (parse_data src entries)
unfolding parse_data
parse_data-Keeps src entries =
    then_do-Keeps (AreTold src)
      (lookup_text src (codes "data_path") (λ a c. record c { data_path = a }))
      (then_do (lookup_number src (codes "data_capacity") (λ a c. record c { data_capacity = a })) (
        then_do (measure entries) (
          lookup_number src (codes "ring_log_capacity")
            (λ a c. record c { ring_log_capacity = a }))))
      (lookup_text-Keeps (AreTold src) src (codes "data_path") (λ a c. record c { data_path = a })
        (λ a c h. h))
      (then_do-Keeps (AreTold src)
        (lookup_number src (codes "data_capacity") (λ a c. record c { data_capacity = a }))
        (then_do (measure entries) (
          lookup_number src (codes "ring_log_capacity")
            (λ a c. record c { ring_log_capacity = a })))
        (lookup_number-Keeps (AreTold src) src (codes "data_capacity")
          (λ a c. record c { data_capacity = a }) (λ a c h. h))
        (then_do-Keeps (AreTold src) (measure entries)
          (lookup_number src (codes "ring_log_capacity")
            (λ a c. record c { ring_log_capacity = a }))
          (measure-Keeps src entries)
          (lookup_number-Keeps (AreTold src) src (codes "ring_log_capacity")
            (λ a c. record c { ring_log_capacity = a }) (λ a c h. h))))

-- When Parse of the storage node ends with true, the two ports that it leaves in Conf are just the
-- numbers that the configuration file has for them, and below 2^16: a greater number is not cut off.
pub parse-AreTold :
    (src : Source) (entries : List ℕ → Option Entries) (c : Conf)
    → Leaves (AreTold src) (parse src entries c)
unfolding parse
parse-AreTold src entries c =
    let P = AreTold src in
    let rest : Step Conf =
      then_do (parse_data src entries) (then_do (server_loop src 256 0) (parse_mysql src)) in
    let kept : Keeps P rest =
      then_do-Keeps P (parse_data src entries) (then_do (server_loop src 256 0) (parse_mysql src))
        (parse_data-Keeps src entries)
        (then_do-Keeps P (server_loop src 256 0) (parse_mysql src) (server_loop-Keeps src 256 0)
          (parse_mysql-Keeps src)) in
    elim (Bool-cases src.reads) [
      | inr r ↦ rw r tt
      | inl r ↦ rw r (then_do-Leaves P (parse_net src) rest c (parse_net-Leaves src c) kept)
    ]
