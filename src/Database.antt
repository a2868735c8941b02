-- ===== src/Database.antt =====
-- database/DB: the statements of LoginDatabase.h and the requests of Threading/DBRequest.h. What a
-- statement does in MySQL is the environment's.
pub mod Connection
use necroauth.Prelude.{ℕ, List, Option, none, Bool, false, Result, ok, fault, Fault, [], ◌∷◌, ◌++◌}

pub data Statement : Type 0 where
  sel_account_id_by_name check_password ins_log_wrong_password : Statement
  del_prev_sessions ins_new_session upd_on_login : Statement

-- What `bind` accepts.
pub data Value : Type 0 where
  text : List ℕ → Value
  number : ℕ → Value
  blob : List ℕ → Value

-- `mysqlx::SqlStatement`: the query, and the values bound so far.
pub record SqlStatement : Type 0 where
  pub query : Statement
  pub bound : List Value

-- `LoginDatabase::Prepare`: the queries are named by their statement. Control runs off the end at
-- `UPD_ON_LOGIN`, which is undefined.
unfoldable pub prepare : Statement → Result SqlStatement
prepare Statement.upd_on_login = fault Fault.no_return
prepare query = ok (record { query = query; bound = [] })

abbrev pub bind : SqlStatement → Value → SqlStatement
bind s v = record s { bound = s.bound ++ v ∷ [] }

-- `DBRequest`. A callback is a method of the session that the lambda captured.
pub record DbRequest : Type 0 where
  pub done : Bool
  pub fire_and_forget : Bool
  pub statement : SqlStatement
  pub callback : Option ℕ
  pub notice : Bool

-- `DBRequest(bool fireAndForget, mysqlx::SqlStatement stmt)`
abbrev pub request : Bool → SqlStatement → DbRequest
request fire s = record {
  done = false;
  fire_and_forget = fire;
  statement = s;
  callback = none;
  notice = false;
}
