-- ===== src/Config.antt =====
-- tracker/src/message/config.h and storage/src/message/config.h: the reading of a configuration.
-- libconfig's lookups and inet_pton are parameters.
pub mod Tracker
pub mod FileSize
pub mod Storage
pub mod Ports
mod Tests
use dfs_system.Base.{ℕ, ◌%◌, Bool, true, false, List, Option, none, some, if◌then◌else◌, ltb}

-- lookupValue of a string and of an unsigned number, and inet_pton with ntohl.
pub record Source : Type 0 where
  pub reads : Bool
  pub text : List ℕ → Option (List ℕ)
  pub number : List ℕ → Option ℕ
  pub address : List ℕ → Option ℕ

-- A part of Parse: whether it goes on, and what it has stored; `none` is an exception.
abbrev pub Step : Type 0 → Type 0
Step C = C → Option (Bool × C)

abbrev pub address_of : Source → Option (List ℕ) → Option ℕ
address_of src none = none
address_of src (some text) = src.address text

-- ParsePort_ of a number, with its cast to 16 bits.
unfoldable pub parse_port : ℕ → Option ℕ
parse_port port = if ltb 65_535 port then none else some (port % 65_536)

abbrev pub port_of : Option ℕ → Option ℕ
port_of none = none
port_of (some n) = parse_port n

module _ {C : Type 0} where
  abbrev pub goes_on : Step C → Option (Bool × C) → Option (Bool × C)
  goes_on next none = none
  goes_on next (some (false, c)) = some (false, c)
  goes_on next (some (true, c)) = next c

  unfoldable pub then_do : Step C → Step C → Step C
  then_do first next c = goes_on next (first c)

  abbrev pub stored : {A : Type 0} → (A → C → C) → C → Option A → Option (Bool × C)
  stored set c none = some (false, c)
  stored set c (some a) = some (true, set a c)

  unfoldable pub lookup_text : Source → List ℕ → (List ℕ → C → C) → Step C
  lookup_text src key set c = stored set c (src.text key)

  unfoldable pub lookup_number : Source → List ℕ → (ℕ → C → C) → Step C
  lookup_number src key set c = stored set c (src.number key)

  -- The lookup of a text and ParseIp_.
  unfoldable pub lookup_address : Source → List ℕ → (ℕ → C → C) → Step C
  lookup_address src key set c = stored set c (address_of src (src.text key))

  unfoldable pub lookup_port : Source → List ℕ → (ℕ → C → C) → Step C
  unfolding parse_port
  lookup_port src key set c = stored set c (port_of (src.number key))
