-- ===== src/Database/Failure.antt =====
-- hub/database/store.go: the errors of its operations.
pub data DbError : Type 0 where
  not_found get_failed bad_data bad_value put_failed : DbError
