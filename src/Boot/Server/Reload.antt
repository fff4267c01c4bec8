-- ===== src/Boot/Server/Reload.antt =====
-- hub/boot_data.go: the configuration file and the file system's notifications.
use widuino.Base.{ℕ, ◌-◌, ◌%◌, List, [], ◌∷◌, ◌++◌, Option, none, some}
use widuino.Base.{Bool, true, false, not, if◌then◌else◌}
use widuino.Base.Decimal.{atoi}
use widuino.Base.Dict.{Dict, lookup, insert, bytes_same, bytes_key, nat_key}
use widuino.Base.Outcome.{Outcome, ok, err, panic}
use widuino.Boot.FilePath.{dir}
use widuino.Boot.Server.{Booter, FileName, Files, Config, WatchCall, add, remove, watch, BootError}
use widuino.Boot.Server.{cannot_read, bad_pairing, bad_sketches, read_hex_file}

-- `uint16(i)`.
abbrev pub int_to_u16 : Bool × ℕ → ℕ
int_to_u16 (true, n) = (65536 - n % 65536) % 65536
int_to_u16 (false, n) = n % 65536

abbrev pub insert_all {ℓ} : {V : Type ℓ} → Dict (List ℕ) V → Dict (List ℕ) V → Dict (List ℕ) V
insert_all [] m = m
insert_all ((k, v) ∷ kvs) m = insert_all kvs (insert k v m)

-- The loop over the sketches: keys that are no number are left out.
unfoldable pub number_keys : Dict (List ℕ) FileName → Dict ℕ FileName → Dict ℕ FileName
number_keys [] m = m
number_keys ((k, v) ∷ kvs) m =
    number_keys kvs (elim (atoi k) [ none ↦ m | some i ↦ insert (int_to_u16 i) v m ])

-- `config` is the decoded file, `none` if it cannot be read.
unfoldable pub read_boot_config : Option Config → Booter → Booter × Outcome BootError (Unit {0})
read_boot_config config b =
    let b1 = watch (add (dir b.config_file)) (record b { dir_name = dir b.config_file }) in
    elim config [
      | none ↦ (b1, err cannot_read)
      | some c ↦
          let b2 = record b1 { node_type = insert_all c.pairing b1.node_type } in
          if not c.pairing_read
          then (b2, err bad_pairing)
          else if not c.sketches_read
          then (b2, err bad_sketches)
          else (record b2 { sketch = number_keys c.sketches [] }, ok tt)
    ]

-- NewBooter, before its first event.
unfoldable pub new_booter : FileName → Booter
new_booter config_file = record {
  config_file = config_file;
  dir_name = [];
  watcher = [];
  node_type = [];
  sketch = [];
  software = [];
}

pub record Event : Type 0 where
  pub name : FileName
  -- Whether the operation is a create or a write.
  pub changed : Bool

-- `b.watcher.Remove(k)` for the files in the cache.
abbrev pub unwatch : FileName → Dict FileName (List ℕ) → List WatchCall
unwatch config_file [] = []
unwatch config_file ((k, sw) ∷ m) =
    if bytes_same k config_file then unwatch config_file m else remove k ∷ unwatch config_file m

-- The maps are emptied before the configuration is read again.
abbrev pub reset : Booter → Booter
reset b = record b {
  watcher = b.watcher ++ unwatch b.config_file b.software;
  node_type = [];
  sketch = [];
  software = [];
}

abbrev pub after : Booter × Outcome BootError (Unit {0}) → Outcome BootError Booter
after (b', panic) = panic
after (b', ok _) = ok b'
after (b', err _) = ok b'

-- A file in the cache is read again; any other is no longer watched.
abbrev pub by_cache : Files → Booter → FileName → Option (List ℕ) → Outcome BootError Booter
by_cache files b name (some sw) = after (read_hex_file files b name)
by_cache files b name none = ok (watch (remove name) b)

-- One round of the loop of watchHandler; errors go to the log only, and a panic ends the program.
unfoldable pub handle_event : Files → Option Config → Booter → Event → Outcome BootError Booter
handle_event files config b event =
    if not event.changed
    then ok b
    else if bytes_same event.name b.config_file
    then ok (read_boot_config config (reset b)).0
    else by_cache files b event.name (lookup event.name b.software)
