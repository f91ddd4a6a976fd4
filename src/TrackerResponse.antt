-- ===== src/TrackerResponse.antt =====
-- tracker/src/http/httpresponse.cpp: the answer of the tracker to a user. Server finds the storage
-- node whose address is answered, Page makes the pages, Sending writes them to the socket.
pub mod Server
pub mod Page
pub mod Sending
pub mod Public
pub mod Private
pub mod Whole
pub mod Leftover
mod Tests
use dfs_system.Base.{ℕ, List}
use dfs_system.Status.{Status, handle_init}

-- HTML_ENUM.
pub data Html : Type 0 where
  html_404 : Html
  html_403 : Html
  html_400 : Html
  html_head : Html
  html_head_in : Html
  html_index : Html
  html_login : Html
  html_logout : Html
  html_namerr : Html
  html_pwderr : Html
  html_public : Html
  html_private : Html
  html_register : Html
  html_title : Html
  html_welcome : Html
  html_listend : Html
  html_htmlend : Html
  html_jsend : Html
  html_publicjs : Html
  html_privatejs : Html

-- What an answer relies on: the texts of html.h, getMD5(name, 4), Conf::cookieOut and
-- Conf::timeOut, inet_ntop, the first columns of the rows that MySQL gives for an order after those
-- before it, std::hash, the time, and the state in which the connection of a storage node is.
pub record Surroundings : Type 0 where
  pub texts : Html → List ℕ
  pub md5 : List ℕ → List ℕ
  pub cookie_out : ℕ
  pub time_out : ℕ
  pub ntop : ℕ → List ℕ
  pub rows : List (List ℕ) → List ℕ → List (List ℕ)
  pub hasher : List ℕ → ℕ
  pub now : ℕ
  pub msg_status : ℕ → Status

-- beforeBodyMsg, BodyMsg, BodyMsgLen and HasSentLen.
pub record Response : Type 0 where
  pub status : Status
  pub before : List ℕ
  pub body : List ℕ
  pub body_len : ℕ
  pub has_sent : ℕ

unfoldable pub init : Response → Response
init p = record p { status = handle_init; has_sent = 0; body_len = 0 }
