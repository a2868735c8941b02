-- ===== src/Database/Connection.antt =====
-- database/DB/DBConnection.h and LoginDatabase.h: the session with MySQL. What the connector answers,
-- or throws, is the environment's.
use necroauth.Prelude.{
  Bool, if◌then◌else◌, ℤ, pos, negsuc, Result, ok, fault, Fault, ◌>>=◌, ◌==◌, false,
}

-- `m_session`: the pointer is null, or the session is open, or it was closed.
pub data Connection : Type 0 where
  null opened shut : Connection

-- What the constructor of `mysqlx::Session` comes to.
pub data Connect : Type 0 where
  connected mysql_error standard_exception unknown_exception : Connect

-- `DBConnection::Init`
unfoldable pub connection_init : Connect → Connection → Connection × ℤ
connection_init connected c = (opened, pos 0)
connection_init mysql_error c = (c, negsuc 0)
connection_init standard_exception c = (c, negsuc 1)
connection_init unknown_exception c = (c, negsuc 2)

-- `DBConnection::Close`: what `close()` throws is caught.
unfoldable pub connection_close : Bool → Connection → Result Connection
connection_close threw null = fault Fault.null_pointer
connection_close threw opened = ok (if threw then opened else shut)
connection_close threw shut = ok shut

-- `m_conn.Init(...) == 0`
abbrev pub is_zero : ℤ → Bool
is_zero (pos n) = n == 0
is_zero (negsuc n) = false

-- `LoginDatabase::Init`
unfoldable pub login_init : Connect → Connection → Connection × ℤ
unfolding connection_init
login_init answer c =
    let (c', result) = connection_init answer c in (c', if is_zero result then pos 0 else negsuc 0)

-- `LoginDatabase::Close`
unfoldable pub login_close : Bool → Connection → Result (Connection × ℤ)
unfolding connection_close
login_close threw c = connection_close threw c >>= λ c'. ok (c', pos 0)

-- What `SqlStatement::execute` comes to.
pub data Executed {ℓ} (Rows : Type ℓ) : Type ℓ where
  rows : Rows → Executed Rows
  threw : Executed Rows

-- `LoginDatabase::Execute`: after a handler, control runs off the end.
unfoldable pub login_execute {ℓ} : {Rows : Type ℓ} → Executed Rows → Result Rows
login_execute (rows r) = ok r
login_execute threw = fault Fault.no_return

-- `DatabaseWorker::Setup(DBType::LOGIN_DATABASE)`, on a new database.
unfoldable pub setup : Connect → Connection × ℤ
unfolding login_init
setup answer =
    let (c, result) = login_init answer null in (c, if is_zero result then pos 0 else pos 1)
