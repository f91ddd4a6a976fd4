-- ===== src/Buffer/Tests.antt =====
-- Runs of the buffer, and the witnesses of its theorems.
use dfs_system.Base.{◌≡◌, refl, List, [], ◌∷◌, some, arith, codes}
use dfs_system.Buffer.{Buffer, append, add_handled, read_fd, received, write_fd, unhandle_to_str}
use dfs_system.Buffer.Space.{IsValid}
use dfs_system.Buffer.Content.{Holds, append_lem, read_fd_lem}
use dfs_system.Buffer.Queue.{Call, appends, handles, clears, reads, sends}
use dfs_system.Buffer.Queue
use dfs_system.Buffer.Refine.{run, run_refines, step}

-- Four cells, "bc" unhandled at the end of them.
abbrev full : Buffer
full = record { bytes = codes "zabc"; lpos = 2; rpos = 4 }

full-IsValid : IsValid full
full-IsValid = record { ordered = omega arith; inside = omega arith }

abbrev script : List Call
script =
    appends (codes "d")
    ∷ reads (received (codes "efgh"))
    ∷ sends 3
    ∷ handles 1
    ∷ clears
    ∷ handles 1
    ∷ []

-- The content moves to the front and "d" goes behind it.
append_moves : append (codes "d") full ≡ some (record { bytes = codes "bcdc"; lpos = 0; rpos = 3 })
unfolding append
append_moves = refl

run-script : run full script ≡ [] ∷ [] ∷ codes "bcd" ∷ codes "e" ∷ codes "fgh" ∷ []
unfolding run step append read_fd write_fd add_handled unhandle_to_str
run-script = refl

run_refines_example : run full script ≡ Queue.run (codes "bc") script
run_refines_example = run_refines script full full-IsValid

append_lem_example : Holds (codes "bcdef") (append (codes "def") full)
append_lem_example = append_lem (codes "def") full full-IsValid

read_fd_lem_example : Holds (codes "bcdef") (read_fd (received (codes "def")) full)
read_fd_lem_example = read_fd_lem (codes "def") full full-IsValid
