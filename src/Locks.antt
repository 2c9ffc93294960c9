-- ===== src/Locks.antt =====
-- `host_execution_locks`, one row to a host: the upserts of repositories/runs.py (`claim_next`) and
-- repositories/web_shell.py (`acquire_host_lock`), which take a free or expired row and no other.
pub mod Upsert
use mathlib.Core.Option
use ops_composer.Prelude.{
  ℕ, Bool, Option, none, some, List, [], ◌∷◌, ltb, leb, ◌==◌, if◌then◌else◌, first_where,
}
use ops_composer.Db.{HostLock}

-- INSERT … ON CONFLICT (host_id) DO UPDATE SET (every column) WHERE expires_at <= now RETURNING.
-- `none` is the answer with no row, and then the table is as it was.
unfoldable pub take_lock : HostLock → ℕ → List HostLock → Option (List HostLock)
take_lock new now [] = some (new ∷ [])
take_lock new now (l ∷ ls) =
    if l.host_id == new.host_id
    then (if leb l.expires_at now then some (new ∷ ls) else none)
    else Option.map (λ rest. l ∷ rest) (take_lock new now ls)

-- INSERT … SELECT over hosts: the hosts that are returned, and the table.
unfoldable pub take_locks : (ℕ → HostLock) → ℕ → List ℕ → List HostLock → List ℕ × List HostLock
unfolding take_lock
take_locks new now [] ls = ([], ls)
take_locks new now (h ∷ hs) ls = elim (take_lock (new h) now ls) [
  | none ↦ take_locks new now hs ls
  | some taken ↦ (h ∷ (take_locks new now hs taken).0, (take_locks new now hs taken).1)
]

unfoldable pub lock_of : ℕ → List HostLock → Option HostLock
unfolding first_where
lock_of h = first_where (λ l. l.host_id == h)

-- A lock of the host that has not expired: the row keeps every other owner out.
abbrev pub is_held : ℕ → Option HostLock → Bool
is_held now none = Bool.false
is_held now (some l) = ltb now l.expires_at
