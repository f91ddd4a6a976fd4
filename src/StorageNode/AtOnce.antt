-- ===== src/StorageNode/AtOnce.antt =====
-- storagenode.cpp: an upload on a socket that has room for all of it.
use Prim.Native.Nat.{min}
use dfs_system.Base.{
  ℕ, ◌+◌, ◌≤◌, ◌<◌, ◌≡◌, refl, ap, ◌∙◌, true, List, [], ◌∷◌, ◌++◌, none, some, length, arith, leb,
  drop, take, length-append,
}
use dfs_system.FileBody.{task_mark}
use dfs_system.Status.{handle_init, handle_head, handle_body, file_head, file_content}
use dfs_system.StorageNode.{
  StorageNode, SynPack, Surroundings, ready_upload, upl_head, file_path, init,
}
use dfs_system.StorageNode.Sending.{
  took, Run, next_part, head_part, file_part, content_part, last_part, write_on, send_file,
  content_of, after_head, after_content, at_head, at_file_head,
}
use dfs_system.StorageNode.Calls.{IsIdle, upload_message, upload-sent, call, start}
use dfs_system.StorageNode.Synchronise.{flush-all}

upl_head-bytes :
    (pack : SynPack) (size : ℕ) (boundary : List ℕ) → 0 < length (upl_head pack size boundary)
unfolding upl_head
upl_head-bytes pack size boundary = omega arith

ready_state :
    (env : Surroundings) (pack : SynPack) (content : List ℕ) (n : StorageNode)
    → IsIdle n
    → env.files (file_path env.data_path pack) ≡ some content
    → ((ready_upload env pack n).send ≡ upl_head pack (length content) env.boundary)
      × ((ready_upload env pack n).file ≡ some content)
      × ((ready_upload env pack n).has_sent ≡ 0)
      × ((ready_upload env pack n).body_len ≡ length content)
      × ((ready_upload env pack n).boundary ≡ env.boundary)
      × ((ready_upload env pack n).status ≡ handle_head)
      × ((ready_upload env pack n).file_status ≡ file_head)
unfolding ready_upload
ready_state env pack content n (idle, empty, closed, fresh) found =
    (rw (found, empty) refl, found, fresh, rw found refl, refl, refl, refl)

module _ (room : ℕ) (n : StorageNode) (content : List ℕ) (e : n.status ≡ handle_head)
    (f : n.file ≡ some content) (g : n.file_status ≡ file_head) (z : n.has_sent ≡ 0)
    (size : n.body_len ≡ length content) (p : 0 < length n.send) (h : length n.send ≤ room)
    (i : length content ≤ room) (j : length (task_mark n.boundary) ≤ room) where
  abbrev body_next : StorageNode
  body_next = record n { send = []; status = handle_body }

  abbrev sent : ℕ
  sent = min room (length (drop n.has_sent (content_of n.file)))

  abbrev mark_next : StorageNode
  mark_next = record n {
    send = task_mark n.boundary;
    status = handle_body;
    has_sent = n.has_sent + sent;
    file_status = file_content;
  }

  first : head_part (took room ∷ took room ∷ took room ∷ []) n ≡ record {
    returned = none;
    wire = n.send;
    node = body_next;
    answers = took room ∷ took room ∷ [];
  }
  unfolding head_part after_head
  first =
      let b : at_head n.status ≡ true = rw e refl in
      rw b (flush-all after_head room (took room ∷ took room ∷ []) n p h ∙ simp f refl)

  second : file_part (took room ∷ took room ∷ []) body_next ≡ record {
    returned = none;
    wire = take room (drop n.has_sent (content_of n.file));
    node = mark_next;
    answers = took room ∷ [];
  }
  unfolding file_part send_file
  second =
      let b : at_file_head n.file_status ≡ true = rw g refl in
      let c : length (drop n.has_sent (content_of n.file)) ≡ length content = rw (f, z) refl in
      let whole : leb n.body_len (n.has_sent + sent) ≡ true = ground (arith, c, z, size, i) in
      rw (b, whole) refl

  third : content_part (took room ∷ []) mark_next ≡ record {
    returned = none;
    wire = task_mark n.boundary;
    node = after_content (record mark_next { send = [] });
    answers = [];
  }
  unfolding content_part task_mark
  third = flush-all after_content room [] mark_next (omega arith) j

  abbrev head_and_file : List ℕ
  head_and_file = n.send ++ take room (drop n.has_sent (content_of n.file))

  abbrev after_first : Run → Run
  after_first r = next_part last_part (next_part content_part (next_part file_part r))

  abbrev after_second : Run → Run
  after_second r =
      next_part last_part (next_part content_part (record r { wire = n.send ++ r.wire }))

  abbrev after_third : Run → Run
  after_third r = next_part last_part (record r { wire = head_and_file ++ r.wire })

  all_at_once : (write_on (took room ∷ took room ∷ took room ∷ []) n).returned ≡ some 0
  unfolding write_on after_content last_part
  all_at_once =
      ap (λ r. (after_first r).returned) first
      ∙ ap (λ r. (after_second r).returned) second
      ∙ ap (λ r. (after_third r).returned) third

  all_done : (write_on (took room ∷ took room ∷ took room ∷ []) n).node.status ≡ handle_init
  unfolding write_on after_content last_part init
  all_done =
      ap (λ r. (after_first r).node.status) first
      ∙ ap (λ r. (after_second r).node.status) second
      ∙ ap (λ r. (after_third r).node.status) third

-- On a socket that takes at each call as much as the whole message of an upload has bytes, one
-- call of WriteProcess, on a task begun between two tasks with a file that opens, sends the
-- message and returns 0.
pub upload-at_once :
    (env : Surroundings) (pack : SynPack) (content : List ℕ) (n : StorageNode) (room : ℕ)
    → IsIdle n
    → env.files (file_path env.data_path pack) ≡ some content
    → length (upload_message pack content env.boundary) ≤ room
    → ((write_on (took room ∷ took room ∷ took room ∷ []) (ready_upload env pack n)).returned
        ≡ some 0)
      × ((write_on (took room ∷ took room ∷ took room ∷ []) (ready_upload env pack n)).wire
          ≡ upload_message pack content env.boundary)
upload-at_once env pack content n room idle found h =
    let m = ready_upload env pack n in
    let head = upl_head pack (length content) env.boundary in
    let answers = took room ∷ took room ∷ took room ∷ [] in
    let sizes : length (upload_message pack content env.boundary)
        ≡ length head + (length content + length (task_mark env.boundary)) =
      length-append head (content ++ task_mark env.boundary)
      ∙ ap (λ k. length head + k) (length-append content (task_mark env.boundary)) in
    let (s, f, z, b, k, e, g) = ready_state env pack content n idle found in
    let nonempty = upl_head-bytes pack (length content) env.boundary in
    let p : 0 < length m.send = rw s nonempty in
    let l : length m.send ≤ room = rw s (omega (arith, h, sizes)) in
    let i : length content ≤ room = omega (arith, h, sizes) in
    let j : length (task_mark m.boundary) ≤ room = rw k (omega (arith, h, sizes)) in
    let returned = all_at_once room m content e f g z b p l i j in
    let done = all_done room m content e f g z b p l i j in
    (returned, upload-sent env pack content n idle found (call answers start) done)
