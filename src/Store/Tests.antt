-- ===== src/Store/Tests.antt =====
-- Examples for the transactions.
use node_util.Base.{ℕ, ◌≡◌, ◌&&◌, not, Option, none, some}
use node_util.Store.{Returned, value, exec_tx}
use node_util.Store.Calls.{is_none, is_value, goes_on, commits, rolls_back, exec_tx-ends}

-- The action after a transaction fails.
abbrev action : ℕ → Option ℕ
action x = some x

abbrev got : Returned ℕ ℕ
got = value 3

exec_tx-ends_example :
    (commits (exec_tx none got none (some action) none).0
      ≡ is_none {A = ℕ} none && goes_on got (some action))
    × ((rolls_back (exec_tx none got none (some action) none).0
          ≡ is_none {A = ℕ} none && not (is_value got))
        × (is_none (exec_tx none got none (some action) none).1
            ≡ is_none {A = ℕ} none && (goes_on got (some action) && is_none {A = ℕ} none)))
exec_tx-ends_example = exec_tx-ends none none none got (some action)
