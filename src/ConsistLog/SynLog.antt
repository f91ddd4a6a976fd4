-- ===== src/ConsistLog/SynLog.antt =====
-- storage/src/consistlog/synlog/synlog.cpp: the log of the synchronisations that are under way.
-- The file is a function from offsets to the 64 bytes that ReadPage_ and WritePage_ move, although a
-- synLogBody has 32: what lies behind the body in memory goes into the upper words.
use dfs_system.Base.{
  ℕ, ◌+◌, ◌/◌, ◌%◌, ◌^◌, Bool, not, List, [], Option, none, some, if◌then◌else◌, str_eq, ◌==◌,
}
use dfs_system.ConsistLog.Format.{
  Page, SynLogBody, syn_status_bit, syn_upload_bit, syn_username_bit, bit_if, has_bit, name_bytes,
}

pub record SynLog : Type 0 where
  pub file : ℕ → Page
  pub file_end : ℕ

unfoldable pub write_page : ℕ → Page → SynLog → SynLog
write_page offset page l = record l { file = λ o. if o == offset then page else l.file o }

-- GetPageIdx: appends `body_`, 64 bytes, and returns where it stands.
unfoldable pub get_page_idx : Page → SynLog → ℕ × SynLog
unfolding write_page
get_page_idx body l =
    (l.file_end, record (write_page l.file_end body l) { file_end = l.file_end + 64 })

abbrev pub body_with : Bool → List ℕ → Option (List ℕ) → Option (List ℕ) → Option SynLogBody
body_with upload user none file = none
body_with upload user (some u) none = none
body_with upload user (some u) (some f) = some (record {
  control_head = bit_if upload syn_upload_bit + bit_if (not (str_eq user [])) syn_username_bit;
  ip = 0;
  username = u;
  filename = f;
})

-- MakeLog does not store the ip that it is given.
unfoldable pub make_log : (ℕ → ℕ) → ℕ → Bool → List ℕ → List ℕ → Option SynLogBody
unfolding name_bytes
make_log past ip upload user file =
    body_with upload user (name_bytes past user) (name_bytes past file)

-- The low half of the first word is `controlHead`, the high half is `ip`.
abbrev pub page_control : Page → ℕ
page_control p = p.w0 % 2 ^ 32

abbrev pub page_ip : Page → ℕ
page_ip p = p.w0 / 2 ^ 32

-- FinshLog
unfoldable pub finish_log : ℕ → SynLog → SynLog
unfolding write_page
finish_log addr l =
    let p = l.file addr in
    write_page addr
      (record p { w0 = if has_bit p.w0 syn_status_bit then p.w0 else p.w0 + 2 ^ syn_status_bit }) l

abbrev pub get_page : ℕ → SynLog → Page
get_page addr l = l.file addr
